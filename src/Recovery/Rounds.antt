-- ===== src/Recovery/Rounds.antt =====
-- How many calls a retried operation makes, and when it gives up (sdk/src/recovery/retry.ts).
use joint_save.Prelude.{
  ℕ, zero, suc, Bool, true, false, List, [], ◌∷◌, ◌+◌, ◌*◌, ◌^◌, ◌≤◌, ◌<◌, min, max, or_else, ◌≡◌,
  ◌⊎◌, inl, inr, refl, sym, ap, ◌∙◌, arith, All, length, Bool-cases,
}
use mathlib.Core.Path.{subst}
use native.Mathlib.Nat.{div-lt_iff_lt-mul}
use joint_save.Recovery.Errors.{Failure, is_retryable}
use joint_save.Recovery.Retry.{
  RpcRetryOptions, Draw, jittered, backoff_delay, Answer, returns, throws, delay_of, retry_from,
  with_rpc_retry,
}

-- the longest delay of these options
abbrev pub longest : RpcRetryOptions → ℕ
longest o = max (or_else o.base_delay_ms 200) (or_else o.max_delay_ms 5_000)

jittered-le : (exponential : ℕ) (d : Draw) → d.part < d.whole → jittered exponential d ≤ exponential
jittered-le exponential d h =
    let below : exponential * (d.whole + d.part) + d.whole < suc exponential * (2 * d.whole) =
      grind arith in
    omega (arith, (div-lt_iff_lt-mul {k = 2 * d.whole} {y = suc exponential} (omega arith)).1 below)

backoff_delay-le :
    (attempt base_delay max_delay : ℕ) (jitter : Bool) (d : Draw)
    → d.part < d.whole
    → backoff_delay attempt base_delay max_delay jitter d ≤ max_delay
unfolding backoff_delay
backoff_delay-le attempt base_delay max_delay jitter d h =
    ground (arith, jittered-le (min max_delay (base_delay * 2 ^ attempt)) d h)

module _ {ℓ} {A : Type ℓ} where
  -- the first `n` calls from `attempt` on threw what may be retried
  abbrev pub AllRetried : (ℕ → Answer A) → ℕ → ℕ → Type ℓ
  AllRetried calls attempt zero = Unit
  AllRetried calls attempt (suc n) =
      ((e : Failure) × (calls attempt ≡ throws e) × (is_retryable e ≡ true))
      × AllRetried calls (suc attempt) n

  -- a result, a failure that is not retried, or the last failure of all that were allowed
  abbrev pub Ends : Answer A → ℕ → ℕ → Type ℓ
  Ends answer allowed used =
      ((a : A) × (answer ≡ returns a))
      ⊎ ((e : Failure) × (answer ≡ throws e) × ((is_retryable e ≡ false) ⊎ (used ≡ allowed)))

  -- How a retried operation ends, after `length delays` retries of at most `left`.
  pub record Concluded (o : RpcRetryOptions) (calls : ℕ → Answer A) (attempt left : ℕ)
      (answer : Answer A) (delays : List ℕ) : Type ℓ where
    pub few : length delays ≤ left
    pub earlier : AllRetried calls attempt (length delays)
    pub last : answer ≡ calls (attempt + length delays)
    pub ends : Ends answer left (length delays)
    pub short : All (λ d. d ≤ longest o) delays

  answer-cases : (x : Answer A) → ((a : A) × (x ≡ returns a)) ⊎ ((e : Failure) × (x ≡ throws e))
  answer-cases (returns a) = inl (a, refl)
  answer-cases (throws e) = inr (e, refl)

  later-Ends :
      {answer : Answer A} {left used : ℕ}
      → Ends answer left used
      → Ends answer (suc left) (suc used)
  later-Ends (inl x) = inl x
  later-Ends (inr (e, h, inl no_retry)) = inr (e, h, inl no_retry)
  later-Ends (inr (e, h, inr spent)) = inr (e, h, inr (ap suc spent))

  module _ (o : RpcRetryOptions) (calls : ℕ → Answer A) (draws : ℕ → Draw)
      (fair : (i : ℕ) → (draws i).part < (draws i).whole) where
    step_last :
        (left attempt : ℕ) (answer : Answer A)
        → calls attempt ≡ answer
        → Ends answer (suc left) 0
        → retry_from (suc left) o calls draws attempt ≡ (answer, [])
    unfolding retry_from
    step_last left attempt answer h (inl (a, e)) = ground arith
    step_last left attempt answer h (inr (f, e, inl no_retry)) = ground arith
    step_last left attempt answer h (inr (f, e, inr never)) = absurd (ground arith)

    step_again :
        (left attempt : ℕ) (e : Failure)
        → calls attempt ≡ throws e
        → is_retryable e ≡ true
        → retry_from (suc left) o calls draws attempt ≡ (
          (retry_from left o calls draws (suc attempt)).0,
          delay_of o attempt (draws attempt) ∷ (retry_from left o calls draws (suc attempt)).1,
        )
    unfolding retry_from
    step_again left attempt e h retry = ground arith

    ended :
        (left attempt : ℕ)
        → Ends (calls attempt) (suc left) 0
        → Concluded o calls attempt
            (suc left)
            (retry_from (suc left) o calls draws attempt).0
            (retry_from (suc left) o calls draws attempt).1
    ended left attempt e =
        subst (λ p. Concluded o calls attempt (suc left) p.0 p.1)
          (sym (step_last left attempt (calls attempt) refl e))
          (record {
            few = omega arith;
            earlier = tt;
            last = ap calls (omega arith);
            ends = e;
            short = tt;
          })

    again :
        (left attempt : ℕ) (e : Failure)
        → calls attempt ≡ throws e
        → is_retryable e ≡ true
        → {answer : Answer A} {delays : List ℕ} → Concluded o calls (suc attempt) left answer delays
        → Concluded o calls attempt (suc left) answer (delay_of o attempt (draws attempt) ∷ delays)
    again left attempt e h retry {answer} {delays} c = record {
      few = omega (arith, c.few);
      earlier = ((e, h, retry), c.earlier);
      last = c.last ∙ ap calls (omega arith);
      ends = later-Ends c.ends;
      short = (backoff_delay-le attempt _ _ _ (draws attempt) (fair attempt), c.short);
    }

    retry_from-Concluded :
        (left attempt : ℕ)
        → Concluded o calls attempt left
            (retry_from left o calls draws attempt).0
            (retry_from left o calls draws attempt).1
    unfolding retry_from
    retry_from-Concluded zero attempt = record {
      few = omega arith;
      earlier = tt;
      last = ap calls (omega arith);
      ends = elim (answer-cases (calls attempt)) [
        | inl (a, h) ↦ inl (a, h)
        | inr (e, h) ↦ inr (e, h, inr (omega arith))
      ];
      short = tt;
    }
    retry_from-Concluded (suc left) attempt = elim (answer-cases (calls attempt)) [
      | inl (a, h) ↦ ended left attempt (inl (a, h))
      | inr (e, h) ↦ elim (Bool-cases (is_retryable e)) [
        | inl retry ↦
            subst (λ p. Concluded o calls attempt (suc left) p.0 p.1)
              (sym (step_again left attempt e h retry))
              (again left attempt e h retry (retry_from-Concluded left (suc attempt)))
        | inr stop ↦ ended left attempt (inr (e, h, inl stop))
      ]
    ]

-- A retried operation is called once, and then once more for each delay, at most as often as there are
-- retries. Every call but the last threw a failure that may be retried. The answer is that of the last
-- call: a result, a failure that may not be retried, or any failure once the retries are used up. No
-- delay is longer than the larger of the base delay and the cap.
pub with_rpc_retry-Concluded {ℓ} :
    {A : Type ℓ} (o : RpcRetryOptions) (calls : ℕ → Answer A) (draws : ℕ → Draw)
    → ((i : ℕ) → (draws i).part < (draws i).whole)
    → Concluded o calls 0
        (or_else o.retries 3)
        (with_rpc_retry o calls draws).0
        (with_rpc_retry o calls draws).1
unfolding with_rpc_retry
with_rpc_retry-Concluded o calls draws fair =
    retry_from-Concluded o calls draws fair (or_else o.retries 3) 0
