-- ===== src/Recovery/Tests.antt =====
-- A call that is throttled once, a lookup that runs out of time, and the theorems at them.
use joint_save.Prelude.{ℕ, zero, suc, true, false, none, some, [], ◌∷◌, ◌*◌, ◌≡◌, refl, arith}
use joint_save.Prelude.Text.{to_lower_case, trim}
use joint_save.Prelude.Search.{contains, contains_word}
use joint_save.Recovery.Errors.{
  Failure, joint_save_error, other, submit_failed, timed_out, is_deterministic, is_transient,
  is_retryable, may_have_reached_server,
}
use joint_save.Recovery.Retry.{
  RpcRetryOptions, Draw, backoff_delay, Answer, returns, throws, retry_from, with_rpc_retry,
}
use joint_save.Recovery.Lookup.{
  Poll, pending, unknown, bare, poll_round, poll_from, lookup_transaction,
}
use joint_save.Recovery.Rounds.{Concluded, with_rpc_retry-Concluded}
use joint_save.Recovery.Polls.{Reported, lookup_transaction-Reported}

recovery : Unit {0}
unfolding to_lower_case trim contains contains_word is_deterministic is_transient is_retryable
    may_have_reached_server backoff_delay retry_from with_rpc_retry poll_round poll_from
    lookup_transaction
recovery = tt

abbrev throttled : Failure
throttled = other (some "HTTP 429: slow down") none

test_retryable :
    (is_retryable throttled ≡ true)
    × (is_retryable (other (some "id 1429 not known") none) ≡ false)
    × (is_retryable (joint_save_error submit_failed "it broke" none) ≡ true)
    × (is_retryable (joint_save_error submit_failed "txBadAuth" none) ≡ false)
unfolding recovery
test_retryable = (refl, refl, refl, refl)

test_reached :
    (may_have_reached_server (other (some "socket hang up") none) ≡ true)
    × (may_have_reached_server (other (some "getaddrinfo ENOTFOUND") (some "network")) ≡ false)
    × (may_have_reached_server (joint_save_error timed_out "" none) ≡ true)
unfolding recovery
test_reached = (refl, refl, refl)

abbrev options : RpcRetryOptions
options = record { retries = some 2; base_delay_ms = none; max_delay_ms = some 300; jitter = none }

abbrev calls : ℕ → Answer ℕ
calls zero = throws throttled
calls (suc zero) = throws throttled
calls (suc (suc n)) = returns 7

abbrev draws : ℕ → Draw
draws n = record { part = 1; whole = 2 }

test_retried : with_rpc_retry options calls draws ≡ (returns 7, 150 ∷ 225 ∷ [])
unfolding recovery
test_retried = refl

with_rpc_retry-Concluded_example :
    Concluded options calls 0 2
      (with_rpc_retry options calls draws).0
      (with_rpc_retry options calls draws).1
with_rpc_retry-Concluded_example = with_rpc_retry-Concluded options calls draws (λ i. omega arith)

abbrev polls : ℕ → Poll
polls i = record { answer = unknown; caught_at = i * 10; elapsed = i * 10 }

test_lookup : lookup_transaction 5 (λ m. m) (some 25) polls ≡ some (bare pending)
unfolding recovery
test_lookup = refl

lookup_transaction-Reported_example :
    Reported (λ m. m) 25 10 polls 0 false (lookup_transaction 4 (λ m. m) (some 25) polls)
lookup_transaction-Reported_example =
    lookup_transaction-Reported (λ m. m) (some 25) 10 polls (omega arith) (λ i. omega arith)
