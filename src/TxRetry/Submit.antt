-- ===== src/TxRetry/Submit.antt =====
-- `submitWithRetry` and `pollForConfirmation` (frontend/lib/tx-retry.ts), over the states and attempts
-- of the sibling module.
use joint_save.Prelude.{
  ℕ, zero, suc, String, Option, none, some, ◌∷◌, ◌+◌, ◌-◌, if◌then◌else◌, or_else,
}
use Prim.Native.String.{◌++◌}
use joint_save.Prelude.Text.{str_eq}
use joint_save.TxRetry.Errors.{Thrown, error, classify_submission_error}
use joint_save.TxRetry.Tracker.{confirmed, pending, failed, update_pending_tx, remove_pending_tx}
use joint_save.TxRetry.Options.{
  backoff_delay_ms, TxRetryOptions, Sent, Attempt, TxResult, Finished, State, sleep, tracked,
  add_legacy, remove_legacy, register_retry_handler, clear_retry_handler, failure_message, Round,
  polled_result, fail_with, or_fail, is_duplicate, built, recent_of, gave_up, send_throws, answers,
  success, failure, not_found, returns, throws, finishes, retries,
}

module _ (o : TxRetryOptions) where
  unfoldable pub register_record : String → ℕ → ℕ → State → State
  register_record h n now s = record s {
    broadcasts = h ∷ s.broadcasts;
    tracker = tracked o.track h n now s.tracker;
    records = add_legacy o.legacy h now s.records;
  }

  unfoldable pub resolve_confirmed : String → State → State
  resolve_confirmed h s = clear_retry_handler h (record s {
    tracker = remove_pending_tx h s.tracker;
    records = remove_legacy o.legacy h s.records;
  })

  unfoldable pub mark_failed : String → String → ℕ → State → State
  mark_failed h message now s = clear_retry_handler h (record s {
    tracker =
        update_pending_tx h
          (λ r. record r { status = failed; error = some message; last_checked = now }) s.tracker;
    records = remove_legacy o.legacy h s.records;
  })

  -- with the number of polls that are left, and of those made
  unfoldable pub poll_for_confirmation :
      ℕ → ℕ → String → ℕ → Attempt → State → Option TxResult × State
  poll_for_confirmation zero i h n a s = (none, s)
  poll_for_confirmation (suc left) i h n a s = elim (a.polled i) [
    | success ↦ (
      some (record { status = confirmed; hash = h; attempts = n; error = none }),
      resolve_confirmed h s,
    )
    | failure ↦ (
      some (record { status = failed; hash = h; attempts = n; error = some (failure_message n) }),
      mark_failed h (failure_message n) a.settled_at s,
    )
    | not_found ↦
        poll_for_confirmation left (suc i) h n a
          (elim left [ zero ↦ s | suc m ↦ sleep o.poll_interval_ms s ])
  ]

  -- a transaction that the network has: it is registered, and polled for
  unfoldable pub watch : String → ℕ → Attempt → State → Round × State
  watch h n a s =
      polled_result
        (poll_for_confirmation o.poll_attempts 0 h n a
          (register_retry_handler h (register_record h n a.registered_at s)))
        h n a

  -- the answer to the submission; `JSON.stringify(undefined)` prints as `undefined`, and an answer
  -- that is no error comes with a hash, as the source says by `!`
  unfoldable pub sent_result : Sent → ℕ → Attempt → State → Round × State
  sent_result (send_throws e) n a s = fail_with (classify_submission_error e none) s
  sent_result (answers r) n a s =
      if str_eq r.status "ERROR"
      then if is_duplicate r
        then watch (or_else r.hash "") n a s
        else fail_with
            (classify_submission_error
              (error ("Send failed: " ++ or_else r.error_result "undefined")) r.error_result)
            s
      else watch (or_else r.hash "") n a s

  -- the stages after the idempotency check, in their order
  unfoldable pub attempt_stages : ℕ → Attempt → State → Round × State
  attempt_stages n a s = or_fail a.get_account s (
      built a.build_tx s (
        or_fail a.prepare s
          (or_fail a.sign s (sent_result a.sent n a (record s { sends = suc s.sends })))))

  -- one round of the loop, as the attempt of number `n`
  unfoldable pub run_attempt : ℕ → Attempt → State → Round × State
  run_attempt n a s = elim (recent_of o.dedup a.checked_at s) [
    | none ↦ attempt_stages n a s
    | some r ↦ (
      finishes (
          returns (record {
            status = pending;
            hash = r.hash;
            attempts = r.attempts + n - 1;
            error = none;
          })),
      s,
    )
  ]

  -- the wait before another attempt; none after the last one
  abbrev pub back_off : ℕ → ℕ → State → State
  back_off zero n s = s
  back_off (suc left) n s = sleep (backoff_delay_ms n o.backoff_ms) s

  module _ (world : ℕ → Attempt) where
    -- The loop: `left` attempts may follow the `n` that were made.
    unfoldable pub submit_from : ℕ → ℕ → Option Thrown → State → Finished × State
    submit_from zero n last s = (throws (gave_up n last), s)
    submit_from (suc left) n last s =
        let (round, t) = run_attempt (suc n) (world n) s in
        elim round [
          | finishes f ↦ (f, t)
          | retries e ↦ submit_from left (suc n) (some e) (back_off left n t)
        ]

    unfoldable pub submit_with_retry : State → Finished × State
    submit_with_retry s = submit_from o.max_retries 0 none s
