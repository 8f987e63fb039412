-- ===== src/TxRetry/Tracker.antt =====
-- The tracker of pending transactions (frontend/lib/tx-retry.ts): the list under one storage key.
-- What was written is read back but for the records that the validation refuses, and of what is
-- written by these functions it refuses those of a type that it does not list. Times are
-- milliseconds, and `now - t <= w` is `now <= t + w`.
use joint_save.Prelude.{
  ℕ, String, Bool, true, false, not, Option, List, [], ◌∷◌, ◌++◌, ◌+◌, ◌-◌, ◌*◌, ◌&&◌,
  if◌then◌else◌, leb, ltb, filter, find, drop, length, map,
}
use joint_save.Prelude.Text.{str_eq, trim, to_upper_case}
use joint_save.Prelude.Sort.{sort_by}

pub data PendingTxType : Type 0 where
  deposit withdraw payout emergency_withdraw pause join create set_supported_tokens : PendingTxType

pub data TxStatus : Type 0 where
  confirmed pending failed : TxStatus

pub record PendingTransaction : Type 0 where
  pub hash : String
  pub type : PendingTxType
  pub pool_id : String
  pub pool_name : String
  pub submitted_at : ℕ
  pub status : TxStatus
  pub attempts : ℕ
  pub last_checked : ℕ
  pub error : Option String

abbrev pub tx_type_index : PendingTxType → ℕ
tx_type_index deposit = 0
tx_type_index withdraw = 1
tx_type_index payout = 2
tx_type_index emergency_withdraw = 3
tx_type_index pause = 4
tx_type_index join = 5
tx_type_index create = 6
tx_type_index set_supported_tokens = 7

abbrev pub same_tx_type : PendingTxType → PendingTxType → Bool
same_tx_type a b =
    leb (tx_type_index a) (tx_type_index b) && leb (tx_type_index b) (tx_type_index a)

abbrev pub is_pending : TxStatus → Bool
is_pending pending = true
is_pending s = false

abbrev pub pending_tx_max : ℕ
pending_tx_max = 10

abbrev pub pending_tx_max_age_ms : ℕ
pending_tx_max_age_ms = 3600000

abbrev pub recent_duplicate_window_ms : ℕ
recent_duplicate_window_ms = 2 * 60 * 1000

-- the types that a stored record may have to be read back
unfoldable pub is_pending_transaction_type : PendingTxType → Bool
is_pending_transaction_type deposit = true
is_pending_transaction_type withdraw = true
is_pending_transaction_type payout = true
is_pending_transaction_type emergency_withdraw = true
is_pending_transaction_type pause = true
is_pending_transaction_type join = true
is_pending_transaction_type create = true
is_pending_transaction_type set_supported_tokens = false

abbrev pub is_pending_transaction : PendingTransaction → Bool
is_pending_transaction r = is_pending_transaction_type r.type

-- The list that is stored, with no key where it is empty. The storage is there, and takes what is
-- written.
abbrev pub Tracker : Type 0
Tracker = List PendingTransaction

unfoldable pub read_pending_txs : Tracker → List PendingTransaction
read_pending_txs stored = filter is_pending_transaction stored

unfoldable pub write_pending_txs : List PendingTransaction → Tracker → Tracker
write_pending_txs [] stored = []
write_pending_txs (r ∷ rs) stored = r ∷ rs

abbrev pub submitted_before : PendingTransaction → PendingTransaction → Bool
submitted_before a b = ltb a.submitted_at b.submitted_at

-- sorted by time, and the oldest dropped beyond `PENDING_TX_MAX`
unfoldable pub capped : List PendingTransaction → List PendingTransaction
capped rs = let sorted = sort_by submitted_before rs in drop (length sorted - pending_tx_max) sorted

abbrev pub has_other_hash : String → PendingTransaction → Bool
has_other_hash h r = not (str_eq r.hash h)

unfoldable pub add_pending_tx : PendingTransaction → Tracker → Tracker
add_pending_tx r stored =
    write_pending_txs (capped (filter (has_other_hash r.hash) (read_pending_txs stored) ++ r ∷ []))
      stored

unfoldable pub remove_pending_tx : String → Tracker → Tracker
remove_pending_tx h stored =
    write_pending_txs (filter (has_other_hash h) (read_pending_txs stored)) stored

-- the entries with a hash get what the patch makes of them
abbrev pub patched :
    String → (PendingTransaction → PendingTransaction) → PendingTransaction → PendingTransaction
patched h patch r = if str_eq r.hash h then patch r else r

unfoldable pub update_pending_tx :
    String → (PendingTransaction → PendingTransaction) → Tracker → Tracker
update_pending_tx h patch stored =
    write_pending_txs (map (patched h patch) (read_pending_txs stored)) stored

abbrev pub is_young : ℕ → PendingTransaction → Bool
is_young now r = leb now (r.submitted_at + pending_tx_max_age_ms)

-- the records that are kept, and the storage with them
unfoldable pub cleanup_pending_txs : ℕ → Tracker → List PendingTransaction × Tracker
cleanup_pending_txs now stored =
    let kept = capped (filter (is_young now) (read_pending_txs stored)) in
    (kept, write_pending_txs kept stored)

unfoldable pub normalize : String → String
normalize s = to_upper_case (trim s)

-- the test of `findRecentPendingTx`
unfoldable pub is_recent_of : String → PendingTxType → ℕ → PendingTransaction → Bool
is_recent_of pool type now r =
    is_pending r.status
    && (str_eq (normalize r.pool_id) (normalize pool)
        && (same_tx_type r.type type && leb now (r.submitted_at + recent_duplicate_window_ms)))

unfoldable pub find_recent_pending_tx :
    String → PendingTxType → ℕ → Tracker → Option PendingTransaction
find_recent_pending_tx pool type now stored =
    find (is_recent_of pool type now) (read_pending_txs stored)
