-- ===== src/TxRetry/Options.antt =====
-- The options, the world and the state of a submission, and its steps that need no option
-- (frontend/lib/tx-retry.ts). What the network, the wallet
-- and the clock do in an attempt is an `Attempt`, one for each number of attempt: an error that a
-- stage throws, the answer to the submission, the answers to the polls. The calls of `now()` between
-- two awaits give one time. The state is the tracker, the records of frontend/lib/pending-transactions.ts,
-- the hashes with a retry handler, the hashes passed to `onBroadcast` (with no `onBroadcast`, the same
-- code without the call), the sleeps and the number of calls of `sendTransaction`, the last one first.
use joint_save.Prelude.{
  ℕ, String, Bool, not, Option, none, some, List, [], ◌∷◌, ◌-◌, ◌&&◌, if◌then◌else◌, min, filter,
  get_elem?, length, or_else,
}
use Prim.Native.String.{◌++◌}
use joint_save.Prelude.Text.{str_eq, includes, to_lower_case}
use joint_save.Prelude.Search.{contains}
use joint_save.Prelude.Decimal.{to_decimal}
use joint_save.Pending.Store as Pending
use joint_save.TxRetry.Errors.{
  Thrown, retryable, message_of, stringified, classify_submission_error, is_retryable,
}
use joint_save.TxRetry.Tracker.{
  PendingTxType, TxStatus, pending, PendingTransaction, Tracker, add_pending_tx, update_pending_tx,
  find_recent_pending_tx, payout, set_supported_tokens, deposit, withdraw,
}

-- `backoffDelayMs`, of an index that is not negative
unfoldable pub backoff_delay_ms : ℕ → List ℕ → ℕ
backoff_delay_ms i schedule =
    or_else (get_elem? schedule (min i (length schedule - 1)))
      (or_else (get_elem? schedule (length schedule - 1)) 0)

pub record Dedup : Type 0 where
  pub pool_id : String
  pub type : PendingTxType

pub record Track : Type 0 where
  pub type : PendingTxType
  pub pool_id : String
  pub pool_name : Option String

pub record Legacy : Type 0 where
  pub address : String
  pub type : Pending.PendingTransactionType
  pub pool_id : String
  pub amount : Option String

-- the options that are no function
pub record TxRetryOptions : Type 0 where
  pub max_retries : ℕ
  pub backoff_ms : List ℕ
  pub poll_attempts : ℕ
  pub poll_interval_ms : ℕ
  pub dedup : Option Dedup
  pub track : Option Track
  pub legacy : Option Legacy

abbrev pub tx_retry_max_attempts : ℕ
tx_retry_max_attempts = 3

abbrev pub tx_retry_backoff_ms : List ℕ
tx_retry_backoff_ms = 2000 ∷ 4000 ∷ 8000 ∷ []

abbrev pub tx_confirm_poll_attempts : ℕ
tx_confirm_poll_attempts = 30

abbrev pub tx_confirm_poll_interval_ms : ℕ
tx_confirm_poll_interval_ms = 1500

-- what `sendTransaction` answers; the error comes as JSON text
pub record SendTransactionResult : Type 0 where
  pub status : String
  pub hash : Option String
  pub error_result : Option String

pub data Sent : Type 0 where
  send_throws : Thrown → Sent
  answers : SendTransactionResult → Sent

-- what a poll learns; a call that throws counts as not found
pub data PollAnswer : Type 0 where
  success failure not_found : PollAnswer

pub record Attempt : Type 0 where
  pub checked_at : ℕ
  pub registered_at : ℕ
  pub settled_at : ℕ
  pub get_account : Option Thrown
  pub build_tx : Option Thrown
  pub prepare : Option Thrown
  pub sign : Option Thrown
  pub sent : Sent
  pub polled : ℕ → PollAnswer

pub record TxResult : Type 0 where
  pub status : TxStatus
  pub hash : String
  pub attempts : ℕ
  pub error : Option String

pub data Finished : Type 0 where
  returns : TxResult → Finished
  throws : Thrown → Finished

pub record State : Type 0 where
  pub tracker : Tracker
  pub records : Pending.Storage
  pub handlers : List String
  pub broadcasts : List String
  pub slept : List ℕ
  pub sends : ℕ

abbrev pub sleep : ℕ → State → State
sleep ms s = record s { slept = ms ∷ s.slept }

-- `poolName || poolId`
abbrev pub name_or_id : Track → String
name_or_id t = elim t.pool_name [
  | none ↦ t.pool_id
  | some name ↦ if str_eq name "" then t.pool_id else name
]

-- the tracker's name of a type of frontend/lib/pending-transactions.ts
unfoldable pub to_tracked_tx_type : Pending.PendingTransactionType → PendingTxType
to_tracked_tx_type Pending.deposit = deposit
to_tracked_tx_type Pending.withdraw = withdraw
to_tracked_tx_type Pending.trigger_payout = payout
to_tracked_tx_type Pending.set_supported_tokens = set_supported_tokens

unfoldable pub tracked : Option Track → String → ℕ → ℕ → Tracker → Tracker
tracked none h n now stored = stored
tracked (some t) h n now stored =
    add_pending_tx
      (record {
        hash = h;
        type = t.type;
        pool_id = t.pool_id;
        pool_name = name_or_id t;
        submitted_at = now;
        status = pending;
        attempts = n;
        last_checked = now;
        error = none;
      })
      stored

unfoldable pub add_legacy : Option Legacy → String → ℕ → Pending.Storage → Pending.Storage
add_legacy none h now records = records
add_legacy (some l) h now records =
    Pending.add_pending_transaction_record l.address
      (record {
        hash = h;
        type = l.type;
        pool_id = l.pool_id;
        submitted_at = now;
        amount = l.amount;
      })
      records

unfoldable pub remove_legacy : Option Legacy → String → Pending.Storage → Pending.Storage
remove_legacy none h records = records
remove_legacy (some l) h records = Pending.remove_pending_transaction_record l.address h records

unfoldable pub register_retry_handler : String → State → State
register_retry_handler h s =
    if includes s.handlers h then s else record s { handlers = h ∷ s.handlers }

unfoldable pub clear_retry_handler : String → State → State
clear_retry_handler h s = record s { handlers = filter (λ g. not (str_eq g h)) s.handlers }

abbrev pub failure_message : ℕ → String
failure_message n = "Transaction failed on-chain after " ++ to_decimal n ++ " attempt(s)."

-- how one round of the loop ends
pub data Round : Type 0 where
  finishes : Finished → Round
  retries : Thrown → Round

-- the result of the polls, or `pending` where they decide nothing
unfoldable pub polled_result : Option TxResult × State → String → ℕ → Attempt → Round × State
polled_result (some r, s) h n a = (finishes (returns r), s)
polled_result (none, s) h n a = (
  finishes (returns (record { status = pending; hash = h; attempts = n; error = none })),
  record s {
    tracker = update_pending_tx h (λ r. record r { last_checked = a.settled_at }) s.tracker;
  },
)

-- an error that was classified: another attempt, or the end
unfoldable pub fail_with : Thrown → State → Round × State
fail_with e s = if is_retryable e then (retries e, s) else (finishes (throws e), s)

abbrev pub or_fail : Option Thrown → State → Round × State → Round × State
or_fail none s rest = rest
or_fail (some e) s rest = fail_with (classify_submission_error e none) s

-- `sendResult.hash && /duplicate/i.test(JSON.stringify(sendResult.errorResult ?? ""))`
unfoldable pub is_duplicate : SendTransactionResult → Bool
is_duplicate r =
    not (str_eq (or_else r.hash "") "")
    && contains "duplicate" (to_lower_case (stringified r.error_result))

abbrev pub built : Option Thrown → State → Round × State → Round × State
built none s rest = rest
built (some e) s rest = (finishes (throws (classify_submission_error e none)), s)

unfoldable pub recent_of : Option Dedup → ℕ → State → Option PendingTransaction
recent_of none now s = none
recent_of (some d) now s = find_recent_pending_tx d.pool_id d.type now s.tracker

abbrev pub last_message : Option Thrown → String
last_message none = "unknown error"
last_message (some e) = message_of e

abbrev pub gave_up : ℕ → Option Thrown → Thrown
gave_up n last =
    retryable ("Transaction failed after " ++ to_decimal n ++ " attempt(s): " ++ last_message last)
