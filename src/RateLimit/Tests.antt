-- ===== src/RateLimit/Tests.antt =====
-- A wallet that exports six times in an hour, and the theorems on the limiter at it.
use joint_save.Prelude.{ℕ, true, false, none, some, List, [], ◌∷◌, ◌≡◌, ◌≤◌, refl, arith}
use joint_save.Prelude.Text.{to_lower_case, trim}
use joint_save.RateLimit.Limiter.{
  LimitedRequest, exports, before_comma, resolve_key, TooManyRequests, entry_of, set_entry,
  apply_limit, limiter,
}
use joint_save.RateLimit.History.{Arrival, ideal_run, store_run}
use joint_save.RateLimit.Refinement.{store_run-ideal_run}
use joint_save.RateLimit.Bound.{load, passed, store_run-bounded}
use joint_save.RateLimit.Waiting.{limiter-retry}

limits : Unit {0}
unfolding before_comma resolve_key entry_of set_entry apply_limit ideal_run store_run to_lower_case
    trim
limits = tt

abbrev request : LimitedRequest
request = record { wallet_param = some "GAB"; wallet_header = none; forwarded_for = none }

abbrev arrival : ℕ → Arrival
arrival t = record { at_limiter = exports; request = request; now = t }

abbrev arrivals : List Arrival
arrivals =
    arrival 10
    ∷ arrival 20
    ∷ arrival 30
    ∷ arrival 40
    ∷ arrival 50
    ∷ arrival 60
    ∷ arrival 3_600_011
    ∷ []

test_key : resolve_key request "export" ≡ "export:wallet:gab"
unfolding limits
test_key = refl

test_ip :
    resolve_key
      (record {
        wallet_param = some "";
        wallet_header = none;
        forwarded_for = some " 1.2.3.4 , 5.6.7.8";
      })
      "read"
    ≡ "read:ip:1.2.3.4"
unfolding limits
test_ip = refl

test_run : (store_run arrivals []).0 ≡ false ∷ false ∷ false ∷ false ∷ false ∷ true ∷ false ∷ []
unfolding limits
test_run = refl

store_run-ideal_run_example : (store_run arrivals []).0 ≡ (ideal_run arrivals []).0
store_run-ideal_run_example = store_run-ideal_run arrivals (omega arith)

store_run-bounded_example :
    load (resolve_key request "export") 3_600_000 100 (passed arrivals (store_run arrivals []).0)
    ≤ 5
store_run-bounded_example = store_run-bounded arrivals exports request 100 (omega arith)

abbrev five_exports : List Arrival
five_exports = arrival 10 ∷ arrival 20 ∷ arrival 30 ∷ arrival 40 ∷ arrival 50 ∷ []

abbrev refused : TooManyRequests
refused = record { retry_after_sec = some 3600; limit = 5; reset_sec = some 3601 }

limiter-retry_example :
    (limiter exports request 3_600_060
      (limiter exports request 60 (store_run five_exports []).1).1).0
    ≡ none
unfolding limits
limiter-retry_example =
    limiter-retry five_exports exports request 60 refused 3600 3_600_060 refl refl (omega arith)
