-- ===== src/Pending/Store.antt =====
-- The store and its operations (frontend/lib/pending-transactions.ts). The browser's storage maps
-- the key of an address to its records: an association list by the normalised address, with no
-- entry where the list is empty. Records are read back as they were written, so the validation of
-- what was parsed passes each; a storage that is missing altogether is left out. Times are
-- milliseconds, and `now - t <= w` is `now <= t + w`.
use joint_save.Prelude.{
  ℕ, String, Bool, true, false, not, Option, none, some, List, [], ◌∷◌, ◌++◌, ◌+◌, ◌*◌, ◌&&◌,
  if◌then◌else◌, leb, ltb, or_else, filter, find,
}
use joint_save.Prelude.Text.{str_eq, trim, to_upper_case}
use joint_save.Prelude.Sort.{sort_by}

pub data PendingTransactionType : Type 0 where
  deposit withdraw trigger_payout set_supported_tokens : PendingTransactionType

pub record PendingTransactionRecord : Type 0 where
  pub hash : String
  pub type : PendingTransactionType
  pub pool_id : String
  pub submitted_at : ℕ
  pub amount : Option String

abbrev pub same_type : PendingTransactionType → PendingTransactionType → Bool
same_type deposit deposit = true
same_type withdraw withdraw = true
same_type trigger_payout trigger_payout = true
same_type set_supported_tokens set_supported_tokens = true
same_type _ _ = false

abbrev pub recent_duplicate_window_ms : ℕ
recent_duplicate_window_ms = 2 * 60 * 1000

abbrev pub dropped_tx_window_ms : ℕ
dropped_tx_window_ms = 5 * 60 * 1000

unfoldable pub normalize_key_part : String → String
normalize_key_part v = to_upper_case (trim v)

abbrev pub Storage : Type 0
Storage = List (String × List PendingTransactionRecord)

abbrev pub get_item : String → Storage → List PendingTransactionRecord
get_item k [] = []
get_item k ((j, rs) ∷ m) = if str_eq j k then rs else get_item k m

abbrev pub remove_item : String → Storage → Storage
remove_item k [] = []
remove_item k ((j, rs) ∷ m) = if str_eq j k then remove_item k m else (j, rs) ∷ remove_item k m

unfoldable pub write_raw_records : String → List PendingTransactionRecord → Storage → Storage
write_raw_records k [] s = remove_item k s
write_raw_records k (r ∷ rs) s = (k, r ∷ rs) ∷ remove_item k s

unfoldable pub read_pending_transaction_records : String → Storage → List PendingTransactionRecord
read_pending_transaction_records address s = get_item (normalize_key_part address) s

unfoldable pub write_pending_transaction_records :
    String → List PendingTransactionRecord → Storage → Storage
write_pending_transaction_records address rs s = write_raw_records (normalize_key_part address) rs s

abbrev pub other_hash : String → PendingTransactionRecord → Bool
other_hash h r = not (str_eq r.hash h)

unfoldable pub add_pending_transaction_record :
    String → PendingTransactionRecord → Storage → Storage
add_pending_transaction_record address r s =
    write_pending_transaction_records address
      (filter (other_hash r.hash) (read_pending_transaction_records address s) ++ r ∷ []) s

unfoldable pub remove_pending_transaction_record : String → String → Storage → Storage
remove_pending_transaction_record address h s =
    write_pending_transaction_records address
      (filter (other_hash h) (read_pending_transaction_records address s)) s

unfoldable pub find_recent_pending_transaction :
    String → String → PendingTransactionType → ℕ → Storage → Option PendingTransactionRecord
find_recent_pending_transaction address pool type now s =
    find
      (λ r.
        str_eq (normalize_key_part r.pool_id) (normalize_key_part pool)
        && (same_type r.type type && leb now (r.submitted_at + recent_duplicate_window_ms)))
      (read_pending_transaction_records address s)

-- what `client.getTransaction` answers; a failure comes with `errorResultXdr` and `resultXdr`
pub data Response : Type 0 where
  success : Response
  failed : Option String → Option String → Response
  not_found : Response
  other_status : Response

pub data RecoveryResult : Type 0 where
  succeeded : RecoveryResult
  failed_with : String → RecoveryResult
  dropped : RecoveryResult

pub record RecoveryOutcome : Type 0 where
  pub record_of : PendingTransactionRecord
  pub outcome : RecoveryResult

-- the three tests of the loop, on one record
abbrev pub verdict : Response → ℕ → PendingTransactionRecord → Option RecoveryResult
verdict success now r = some succeeded
verdict (failed error result) now r =
    some (failed_with (or_else error (or_else result "Transaction failed on-chain.")))
verdict not_found now r =
    if leb (r.submitted_at + dropped_tx_window_ms) now then some dropped else none
verdict other_status now r = none

abbrev pub older : PendingTransactionRecord → PendingTransactionRecord → Bool
older a b = ltb a.submitted_at b.submitted_at

-- `none` is a client that throws. The loop returns `none` where a call throws; what it has removed
-- from the store by then stays removed.
module _ (client : String → Option Response) (address : String) (now : ℕ) where
  unfoldable pub reconcile_from :
      List PendingTransactionRecord
      → Storage
      → List RecoveryOutcome
      → Option (List RecoveryOutcome) × Storage
  reconcile_from [] s out = (some out, s)
  reconcile_from (r ∷ rs) s out = elim (client r.hash) [
    | none ↦ (none, s)
    | some response ↦ elim (verdict response now r) [
      | none ↦ reconcile_from rs s out
      | some v ↦
          reconcile_from rs (remove_pending_transaction_record address r.hash s)
            (out ++ record { record_of = r; outcome = v } ∷ [])
    ]
  ]

  unfoldable pub reconcile_pending_transactions : Storage → Option (List RecoveryOutcome) × Storage
  reconcile_pending_transactions s =
      reconcile_from (sort_by older (read_pending_transaction_records address s)) s []
