-- ===== src/TxRetry/Rounds.antt =====
-- How one attempt of a submission may end (frontend/lib/tx-retry.ts).
use joint_save.Prelude.{
  ℕ, zero, suc, String, Option, none, some, List, ◌∷◌, ◌≡◌, ◌≤◌, inl, inr, refl, ap, ◌∙◌, arith,
  Bool-cases, Option-cases, or_else,
}
use mathlib.Core.Path.{subst}
use joint_save.Prelude.Text.{str_eq}
use joint_save.TxRetry.Errors.{Thrown, classify_submission_error, is_retryable}
use joint_save.TxRetry.Options.{
  TxRetryOptions, Sent, send_throws, answers, Attempt, TxResult, State, sleep,
  register_retry_handler, clear_retry_handler, Round, polled_result, fail_with, or_fail,
  is_duplicate, built, recent_of,
}
use joint_save.TxRetry.Submit.{
  register_record, resolve_confirmed, mark_failed, poll_for_confirmation, watch, sent_result,
  attempt_stages, run_attempt,
}
use joint_save.TxRetry.Conclusion.{
  RoundConcluded, untouched, RoundConcluded-before, recent-tracked, answer-cases,
}

abbrev PollConcluded : Option TxResult → String → ℕ → List String → State → Type 0
PollConcluded none h n b t = t.broadcasts ≡ b
PollConcluded (some r) h n b t = (r.hash ≡ h) × (r.attempts ≡ n) × (t.broadcasts ≡ b)

polled_result-lem :
    (p : Option TxResult × State) (h : String) (n : ℕ) (a : Attempt) (s : State)
    → PollConcluded p.0 h n (h ∷ s.broadcasts) p.1
    → RoundConcluded (polled_result p h n a).0 n s (polled_result p h n a).1
      × ((polled_result p h n a).1.sends ≡ p.1.sends)
unfolding polled_result
polled_result-lem (some r, t) h n a s (same_hash, same_attempts, b) = (
  inr (r, refl, record { one_broadcast = rw (same_hash) b; within = omega (arith, same_attempts) }),
  refl,
)
polled_result-lem (none, t) h n a s b =
    (inr (_, refl, record { one_broadcast = b; within = omega arith }), refl)

handler-same :
    (h : String) (s : State)
    → ((register_retry_handler h s).broadcasts ≡ s.broadcasts)
      × ((register_retry_handler h s).sends ≡ s.sends)
unfolding register_retry_handler
handler-same h s = ground arith

module _ (o : TxRetryOptions) where
  poll-lem :
      (left i : ℕ) (h : String) (n : ℕ) (a : Attempt) (s : State)
      → let (r, t) = poll_for_confirmation o left i h n a s in
        (t.sends ≡ s.sends) × PollConcluded r h n s.broadcasts t
  unfolding poll_for_confirmation resolve_confirmed mark_failed clear_retry_handler
  poll-lem zero i h n a s = (refl, refl)
  poll-lem (suc zero) i h n a s = elim (answer-cases (a.polled i)) [
    | inl e ↦ rw (e, poll_for_confirmation) (refl, (refl, refl, refl))
    | inr (inl e) ↦ rw (e, poll_for_confirmation) (refl, (refl, refl, refl))
    | inr (inr e) ↦ rw (e, poll_for_confirmation) (refl, refl)
  ]
  poll-lem (suc (suc left)) i h n a s = elim (answer-cases (a.polled i)) [
    | inl e ↦ rw (e, poll_for_confirmation) (refl, (refl, refl, refl))
    | inr (inl e) ↦ rw (e, poll_for_confirmation) (refl, (refl, refl, refl))
    | inr (inr e) ↦
        rw (e, poll_for_confirmation)
          (poll-lem (suc left) (suc i) h n a (sleep o.poll_interval_ms s))
  ]

  fail_with-lem :
      (e : Thrown) (n : ℕ) (s : State)
      → RoundConcluded (fail_with e s).0 n s (fail_with e s).1 × ((fail_with e s).1 ≡ s)
  unfolding fail_with
  fail_with-lem e n s = elim (Bool-cases (is_retryable e)) [
    | inl r ↦ rw (r) (untouched s, refl)
    | inr r ↦ rw (r) (inl (untouched s, tt), refl)
  ]

  watch-lem :
      (h : String) (n : ℕ) (a : Attempt) (s : State)
      → let (r, t) = watch o h n a s in RoundConcluded r n s t × (t.sends ≡ s.sends)
  unfolding watch register_record
  watch-lem h n a s =
      let registered = register_record o h n a.registered_at s in
      let (same_broadcasts, same_sends) = handler-same h registered in
      let outcome =
        poll_for_confirmation o o.poll_attempts 0 h n a (register_retry_handler h registered) in
      let (sends, polled) =
        poll-lem o.poll_attempts 0 h n a (register_retry_handler h registered) in
      let (concluded, kept) =
        polled_result-lem _ h n a s
          (subst (λ b. PollConcluded (outcome.0) h n b (outcome.1)) same_broadcasts polled) in
      (concluded, kept ∙ sends ∙ same_sends)

  sent_result-lem :
      (x : Sent) (n : ℕ) (a : Attempt) (s : State)
      → let (r, t) = sent_result o x n a s in RoundConcluded r n s t × (t.sends ≡ s.sends)
  unfolding sent_result
  sent_result-lem (send_throws e) n a s =
      let (c, same) = fail_with-lem (classify_submission_error e none) n s in
      (c, ap (λ t. t.sends) same)
  sent_result-lem (answers r) n a s = elim (Bool-cases (str_eq r.status "ERROR")) [
    | inl e ↦ elim (Bool-cases (is_duplicate r)) [
      | inl d ↦ rw (e, d) (watch-lem (or_else r.hash "") n a s)
      | inr d ↦ let (c, same) = fail_with-lem _ n s in rw (e, d) (c, ap (λ t. t.sends) same)
    ]
    | inr e ↦ rw (e) (watch-lem (or_else r.hash "") n a s)
  ]

  -- what a round is, with at most one call of `sendTransaction`
  abbrev pub Fine : Round × State → ℕ → State → Type 0
  Fine p n s = RoundConcluded p.0 n s p.1 × (p.1.sends ≤ suc s.sends)

  or_fail-lem :
      (e : Option Thrown) (n : ℕ) (s : State) (rest : Round × State)
      → Fine rest n s
      → Fine (or_fail e s rest) n s
  or_fail-lem none n s rest h = h
  or_fail-lem (some e) n s rest h =
      let (c, same) = fail_with-lem (classify_submission_error e none) n s in
      (c, omega (arith, ap (λ t. t.sends) same))

  built-lem :
      (e : Option Thrown) (n : ℕ) (s : State) (rest : Round × State)
      → Fine rest n s
      → Fine (built e s rest) n s
  built-lem none n s rest h = h
  built-lem (some e) n s rest h = (inl (untouched s, tt), omega arith)

  sent-Fine :
      (x : Sent) (n : ℕ) (a : Attempt) (s : State)
      → Fine (sent_result o x n a (record s { sends = suc s.sends })) n s
  sent-Fine x n a s =
      let (c, same) = sent_result-lem x n a (record s { sends = suc s.sends }) in
      (
        RoundConcluded-before _ n _ _ _
            (record {
              same_tracker = refl;
              same_records = refl;
              same_handlers = refl;
              same_broadcasts = refl;
            })
            c,
        omega (arith, same),
      )

  attempt_stages-Fine : (n : ℕ) (a : Attempt) (s : State) → Fine (attempt_stages o n a s) n s
  unfolding attempt_stages
  attempt_stages-Fine n a s = or_fail-lem a.get_account n s _ (
      built-lem a.build_tx n s _
        (or_fail-lem a.prepare n s _ (or_fail-lem a.sign n s _ (sent-Fine a.sent n a s))))

  pub run_attempt-Fine : (n : ℕ) (a : Attempt) (s : State) → Fine (run_attempt o n a s) n s
  unfolding run_attempt
  run_attempt-Fine n a s = elim (Option-cases (recent_of o.dedup a.checked_at s)) [
    | inl e ↦ rw (e, run_attempt) (attempt_stages-Fine n a s)
    | inr (r, e) ↦
        rw (e, run_attempt)
          (inl (untouched s, (refl, recent-tracked o.dedup a.checked_at s r e)), omega arith)
  ]
