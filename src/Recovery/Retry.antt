-- ===== src/Recovery/Retry.antt =====
-- `withRpcRetry` (sdk/src/recovery/retry.ts). What each call of the operation gives is a parameter, as
-- is each random number: a fraction `part / whole`, whose arithmetic is exact here.
use joint_save.Prelude.{
  ℕ, zero, suc, Bool, true, false, Option, List, [], ◌∷◌, ◌+◌, ◌*◌, ◌/◌, ◌^◌, min, max, or_else,
  if◌then◌else◌,
}
use joint_save.Recovery.Errors.{Failure, is_retryable}

pub record RpcRetryOptions : Type 0 where
  pub retries : Option ℕ
  pub base_delay_ms : Option ℕ
  pub max_delay_ms : Option ℕ
  pub jitter : Option Bool

pub record Draw : Type 0 where
  pub part : ℕ
  pub whole : ℕ

-- `Math.round(exponential * (0.5 + random * 0.5))`
abbrev pub jittered : ℕ → Draw → ℕ
jittered exponential d = (exponential * (d.whole + d.part) + d.whole) / (2 * d.whole)

unfoldable pub backoff_delay : ℕ → ℕ → ℕ → Bool → Draw → ℕ
backoff_delay attempt base_delay max_delay jitter d =
    let exponential = min max_delay (base_delay * 2 ^ attempt) in
    if jitter then jittered exponential d else exponential

pub data Answer {ℓ} (A : Type ℓ) : Type ℓ where
  returns : A → Answer A
  throws : Failure → Answer A

-- the delay before a retry
abbrev pub delay_of : RpcRetryOptions → ℕ → Draw → ℕ
delay_of o attempt d =
    let base_delay = or_else o.base_delay_ms 200 in
    backoff_delay attempt base_delay (max base_delay (or_else o.max_delay_ms 5_000))
      (or_else o.jitter true) d

module _ {ℓ} {A : Type ℓ} where
  -- The answer of the last call and the delays before the retries, which are what `onRetry` is told;
  -- `left` counts the retries left.
  unfoldable pub retry_from :
      ℕ → RpcRetryOptions → (ℕ → Answer A) → (ℕ → Draw) → ℕ → Answer A × List ℕ
  retry_from zero o calls draws attempt = (calls attempt, [])
  retry_from (suc left) o calls draws attempt = elim (calls attempt) [
    | returns a ↦ (returns a, [])
    | throws e ↦ elim (is_retryable e) [
      | false ↦ (throws e, [])
      | true ↦
          let (answer, delays) = retry_from left o calls draws (suc attempt) in
          (answer, delay_of o attempt (draws attempt) ∷ delays)
    ]
  ]

  unfoldable pub with_rpc_retry : RpcRetryOptions → (ℕ → Answer A) → (ℕ → Draw) → Answer A × List ℕ
  with_rpc_retry o calls draws = retry_from (or_else o.retries 3) o calls draws 0
