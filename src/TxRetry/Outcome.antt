-- ===== src/TxRetry/Outcome.antt =====
-- What a submission with retries leaves behind, for each of its results (frontend/lib/tx-retry.ts).
use joint_save.Prelude.{ℕ, zero, suc, Option, none, some, ◌+◌, ◌≡◌, ◌≤◌, inl, inr, refl, arith}
use mathlib.Core.Path.{subst}
use joint_save.TxRetry.Errors.{Thrown}
use joint_save.TxRetry.Options.{TxRetryOptions, Attempt, State}
use joint_save.TxRetry.Submit.{run_attempt, back_off, submit_from, submit_with_retry}
use joint_save.TxRetry.Conclusion.{
  Untouched, Concluded, RoundConcluded, untouched, untouched_trans, Concluded-before, round-cases,
}
use joint_save.TxRetry.Rounds.{run_attempt-Fine}

module _ (o : TxRetryOptions) where
  back_off-Untouched : (left n : ℕ) (s : State) → Untouched s (back_off o left n s)
  back_off-Untouched zero n s = untouched s
  back_off-Untouched (suc left) n s = record {
    same_tracker = refl;
    same_records = refl;
    same_handlers = refl;
    same_broadcasts = refl;
  }

  back_off-sends : (left n : ℕ) (s : State) → (back_off o left n s).sends ≡ s.sends
  back_off-sends zero n s = refl
  back_off-sends (suc left) n s = refl

  module _ (world : ℕ → Attempt) where
    submit_from-lem :
        (left n : ℕ) (last : Option Thrown) (s : State)
        → let (f, t) = submit_from o world left n last s in
          Concluded f (n + left) s t × (t.sends ≤ s.sends + left)
    unfolding submit_from
    submit_from-lem zero n last s = (inl (untouched s, tt), omega arith)
    submit_from-lem (suc left) n last s =
        let p = run_attempt o (suc n) (world n) s in
        let (c, sends) = run_attempt-Fine o (suc n) (world n) s in
        elim (round-cases p.0) [
          | inl (f, e) ↦
              let c' : Concluded f (suc n) s p.1 =
                subst (λ r. RoundConcluded r (suc n) s p.1) e c in
              rw (e, submit_from)
                (
                  Concluded-before f (suc n) (n + suc left) s s p.1 (omega arith) (untouched s) c',
                  omega (arith, sends),
                )
          | inr (x, e) ↦
              let u : Untouched s p.1 = subst (λ r. RoundConcluded r (suc n) s p.1) e c in
              let later = back_off o left n p.1 in
              let (d, more) = submit_from-lem left (suc n) (some x) later in
              rw (e, submit_from)
                (
                  Concluded-before _ (suc n + left) (n + suc left) s later _ (omega arith)
                      (untouched_trans s p.1 later u (back_off-Untouched left n p.1)) d,
                  omega (arith, sends, more, back_off-sends left n p.1),
                )
        ]

-- A call of `submitWithRetry` calls `sendTransaction` at most once for each attempt that it may make,
-- and broadcasts at most once. Where it broadcasts, it returns the result of that broadcast, made in
-- an attempt within the limit. Where it does not, the tracker, the records in flight and the retry
-- handlers are as they were, and it throws or returns a pending transaction that is tracked.
pub submit_with_retry-Concluded :
    (o : TxRetryOptions) (world : ℕ → Attempt) (s : State)
    → let (f, t) = submit_with_retry o world s in
      Concluded f o.max_retries s t × (t.sends ≤ s.sends + o.max_retries)
unfolding submit_with_retry
submit_with_retry-Concluded o world s =
    let (c, sends) = submit_from-lem o world o.max_retries 0 none s in
    (Concluded-before _ _ o.max_retries s s _ (omega arith) (untouched s) c, sends)
