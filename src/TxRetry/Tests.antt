-- ===== src/TxRetry/Tests.antt =====
-- Runs of the submission with retries, and its theorems at them.
use joint_save.Prelude.{
  ℕ, zero, suc, none, some, [], ◌∷◌, ◌+◌, ◌≡◌, ◌≤◌, refl, length, if◌then◌else◌, ◌==◌, arith,
}
use joint_save.Prelude.Text.{trim, to_upper_case, to_lower_case}
use joint_save.Prelude.Search.{contains, contains_word}
use joint_save.Prelude.Decimal.{to_decimal}
use joint_save.Prelude.Sort.{sort_by, insert_by}
use joint_save.TxRetry.Errors.{
  error, retryable, user, account_not_found, auth, is_retriable_message, is_user_error_message,
  is_retriable_text, is_retriable_error, classify_error, classify_submission_error,
}
use joint_save.TxRetry.Tracker.{
  deposit, set_supported_tokens, confirmed, pending, PendingTransaction,
  is_pending_transaction_type, read_pending_txs, write_pending_txs, capped, add_pending_tx,
  remove_pending_tx, update_pending_tx, cleanup_pending_txs, normalize, is_recent_of,
  find_recent_pending_tx,
}
use joint_save.TxRetry.Options.{
  backoff_delay_ms, Track, TxRetryOptions, tx_retry_max_attempts, tx_retry_backoff_ms,
  tx_confirm_poll_interval_ms, send_throws, answers, success, not_found, Attempt, returns, throws,
  State, tracked, add_legacy, remove_legacy, register_retry_handler, clear_retry_handler,
  polled_result, fail_with, is_duplicate, recent_of,
}
use joint_save.TxRetry.Submit.{
  register_record, resolve_confirmed, mark_failed, poll_for_confirmation, watch, sent_result,
  attempt_stages, run_attempt, submit_from, submit_with_retry,
}
use joint_save.TxRetry.Conclusion.{Concluded}
use joint_save.TxRetry.Outcome.{submit_with_retry-Concluded}
use joint_save.TxRetry.Resubmit.{broadcast_is_not_repeated}
use joint_save.TxRetry.Settling.{PollSettled, poll_for_confirmation-PollSettled}

classes : Unit {0}
unfolding is_retriable_message is_user_error_message is_retriable_text is_retriable_error
    classify_error classify_submission_error contains contains_word to_lower_case
classes = tt

classify_test :
    (classify_submission_error (error "fetch failed") none ≡ retryable "fetch failed")
    × (classify_submission_error (error "Send failed") (some "\"tx_failed\"") ≡ user "Send failed")
    × (classify_submission_error (error "Send failed") (some "\"tx_bad_auth\"")
        ≡ auth "Send failed")
    × (classify_submission_error (error "HTTP 429") none ≡ retryable "HTTP 429")
    × (classify_submission_error (user "timed out") none ≡ retryable "timed out")
unfolding classes
classify_test = (refl, refl, refl, refl, refl)

submission : Unit {0}
unfolding classes backoff_delay_ms tracked add_legacy remove_legacy register_retry_handler
    clear_retry_handler polled_result fail_with is_duplicate recent_of register_record
    resolve_confirmed mark_failed poll_for_confirmation watch sent_result attempt_stages run_attempt
    submit_from submit_with_retry read_pending_txs write_pending_txs capped add_pending_tx
    remove_pending_tx update_pending_tx cleanup_pending_txs normalize is_recent_of
    find_recent_pending_tx is_pending_transaction_type to_decimal sort_by insert_by trim
    to_upper_case
submission = tt

abbrev pool : Track
pool = record { type = deposit; pool_id = "p1"; pool_name = some "" }

abbrev options : TxRetryOptions
options = record {
  max_retries = tx_retry_max_attempts;
  backoff_ms = tx_retry_backoff_ms;
  poll_attempts = 2;
  poll_interval_ms = tx_confirm_poll_interval_ms;
  dedup = some (record { pool_id = " P1"; type = deposit });
  track = some pool;
  legacy = none;
}

abbrev fresh : State
fresh = record { tracker = []; records = []; handlers = []; broadcasts = []; slept = []; sends = 0 }

abbrev attempt_at : ℕ → Attempt
attempt_at t = record {
  checked_at = t;
  registered_at = t;
  settled_at = t + 5;
  get_account = none;
  build_tx = none;
  prepare = none;
  sign = none;
  sent = answers (record { status = "PENDING"; hash = some "h"; error_result = none });
  polled = λ i. if i == 1 then success else not_found;
}

abbrev silent_at : ℕ → Attempt
silent_at t = record (attempt_at t) { polled = λ i. not_found }

-- The first submission times out, so another is sent and settled by its second poll.
abbrev flaky : ℕ → Attempt
flaky zero = record (attempt_at 1000) { sent = send_throws (error "Request timed out") }
flaky (suc n) = attempt_at 4000

flaky_test :
    let (f, t) = submit_with_retry options flaky fresh in
    (f ≡ returns (record { status = confirmed; hash = "h"; attempts = 2; error = none }))
    × (t.slept ≡ 1500 ∷ 2000 ∷ [])
    × (t.sends ≡ 2)
    × (t.tracker ≡ [])
    × (t.broadcasts ≡ "h" ∷ [])
unfolding submission
flaky_test = (refl, refl, refl, refl, refl)

-- The network asks to try again later, and the submission is taken as broadcast.
abbrev busy : ℕ → Attempt
busy n = record (silent_at 1000) {
  sent = answers (record { status = "TRY_AGAIN_LATER"; hash = some "h"; error_result = none });
}

busy_test :
    let (f, t) = submit_with_retry options busy fresh in
    (f ≡ returns (record { status = pending; hash = "h"; attempts = 1; error = none }))
    × (t.sends ≡ 1)
    × (length t.tracker ≡ 1)
unfolding submission
busy_test = (refl, refl, refl)

-- The account is not there: no retry.
abbrev missing : ℕ → Attempt
missing n = record (attempt_at 1000) { get_account = some (error "Account not found") }

missing_test :
    let (f, t) = submit_with_retry options missing fresh in
    (f ≡ throws (account_not_found "Account not found")) × (t.slept ≡ [])
unfolding submission
missing_test = (refl, refl)

submit_with_retry-Concluded_example :
    let (f, t) = submit_with_retry options flaky fresh in Concluded f 3 fresh t × (t.sends ≤ 0 + 3)
submit_with_retry-Concluded_example = submit_with_retry-Concluded options flaky fresh

broadcast_is_not_repeated_example :
    let waiting = (watch options "h" 1 (silent_at 1000) fresh).1 in
    (r : PendingTransaction) × (submit_with_retry options (λ n. attempt_at 121000) waiting ≡ (
      returns (record { status = pending; hash = r.hash; attempts = r.attempts; error = none }),
      waiting,
    ))
unfolding submission
broadcast_is_not_repeated_example =
    broadcast_is_not_repeated options pool " P1" "h" 1 (silent_at 1000) fresh
      (λ n. attempt_at 121000) refl refl (omega arith) refl refl tt (λ j. refl) (omega arith)

poll_for_confirmation-PollSettled_example :
    let (r, t) = poll_for_confirmation options 2 0 "h" 1 (attempt_at 1000) fresh in
    PollSettled r "h" fresh t
poll_for_confirmation-PollSettled_example =
    poll_for_confirmation-PollSettled options 2 0 "h" 1 (attempt_at 1000) fresh

abbrev transaction : ℕ → PendingTransaction
transaction t = record {
  hash = to_decimal t;
  type = deposit;
  pool_id = "p1";
  pool_name = "p1";
  submitted_at = t;
  status = pending;
  attempts = 1;
  last_checked = t;
  error = none;
}

-- The tracker holds a settings update that is still pending, and does not find it.
settings_test :
    find_recent_pending_tx "p1" set_supported_tokens 10
      (add_pending_tx (record (transaction 7) { type = set_supported_tokens }) [])
    ≡ none
unfolding submission
settings_test = refl
