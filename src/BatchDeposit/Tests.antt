-- ===== src/BatchDeposit/Tests.antt =====
-- A run over three pools that is cancelled on the way, and the theorems on batch deposits at it.
use joint_save.Prelude.{
  ℕ, zero, suc, String, true, false, Option, none, some, List, [], ◌∷◌, ◌≡◌, ◌+◌, refl, map,
}
use joint_save.Prelude.Sort.{sort_by, insert_by}
use joint_save.Prelude.Text.{times}
use joint_save.BatchDeposit.Pools.{
  BatchDepositPool, confirmed, failed, cancelled, chunk_rounds, chunk, sort_by_urgency,
  compute_progress, deposits_confirmed,
}
use joint_save.BatchDeposit.Run.{
  Wallet, cancel, signing_phase, submitted_phase, presses, goes_through, throws, Deposit,
  BatchDepositPlan, BatchDepositResult, BatchState, settle, deposit_one, deposit_all,
  build_batch_deposit_tx, run_batch, submit_batch_deposit, retry_failed,
}
use joint_save.BatchDeposit.Chunks.{flat}
use joint_save.BatchDeposit.Settled.{ids, attempts, submit_batch_deposit_accounts}
use joint_save.BatchDeposit.Terminal.{AllTerminal, submit_batch_deposit-AllTerminal}

deposits : Unit {0}
unfolding chunk_rounds chunk sort_by insert_by sort_by_urgency compute_progress settle deposit_one
    deposit_all build_batch_deposit_tx run_batch submit_batch_deposit retry_failed
deposits = tt

abbrev pool_of : String → Option ℕ → BatchDepositPool
pool_of i deadline = record {
  id = i;
  name = i;
  contract_address = i;
  token_symbol = "XLM";
  round = 1;
  deadline = deadline;
}

abbrev selected : List BatchDepositPool
selected = pool_of "a" none ∷ pool_of "b" (some 5000) ∷ pool_of "c" (some 900000000) ∷ []

abbrev wallet : Wallet
wallet = record { has_address = true; has_kit = true }

abbrev idle : BatchState
idle = record {
  items = [];
  is_submitting = false;
  stops = false;
  submit_calls = [];
  log_calls = [];
}

abbrev plan : BatchDepositPlan
plan = record { batches = selected ∷ []; total_transactions = 3; split_message = none }

-- the first deposit fails, the second goes through while cancel is pressed
abbrev world : ℕ → Deposit
world zero = record { during = signing_phase ∷ []; outcome = throws "rejected" }
world (suc n) = record {
  during = signing_phase ∷ presses cancel ∷ submitted_phase (some "h") ∷ [];
  outcome = goes_through "h" [];
}

abbrev after : BatchState
after = (submit_batch_deposit wallet world plan [] idle).1

test_statuses : map (λ x. x.status) after.items ≡ failed ∷ confirmed ∷ cancelled ∷ []
unfolding deposits
test_statuses = refl

test_label : (compute_progress after.items).label ≡ deposits_confirmed 1 3 1
unfolding deposits
test_label = refl

test_sorted : map (λ p. p.id) (sort_by_urgency (λ a b. false) selected 6000) ≡ "b" ∷ "c" ∷ "a" ∷ []
unfolding deposits
test_sorted = refl

test_retried : map (λ x. x.pool.id) (retry_failed wallet world after).1.items ≡ "b" ∷ "a" ∷ "c" ∷ []
unfolding deposits
test_retried = refl

test_chunks : chunk {A = ℕ} (1 ∷ 2 ∷ 3 ∷ []) 2 ≡ some ((1 ∷ 2 ∷ []) ∷ (3 ∷ []) ∷ [])
unfolding deposits
test_chunks = refl

submit_batch_deposit_accounts_example :
    (r : BatchDepositResult) × ((submit_batch_deposit wallet world plan [] idle).0 ≡ some r)
    × (attempts "b" r + times "b" r.cancelled_ids ≡ times "b" (ids (flat plan.batches)))
    × (times "b" (submit_batch_deposit wallet world plan [] idle).1.submit_calls
        ≡ times "b" idle.submit_calls + attempts "b" r)
    × (times "b" (map (λ x. x.0) (submit_batch_deposit wallet world plan [] idle).1.log_calls)
        ≡ times "b" (map (λ x. x.0) idle.log_calls) + times "b" r.confirmed_ids)
submit_batch_deposit_accounts_example =
    submit_batch_deposit_accounts wallet world plan [] idle "b" refl refl

submit_batch_deposit-AllTerminal_example :
    AllTerminal after.items
    × (after.is_submitting ≡ false)
    × (after.stops ≡ false)
    × ((compute_progress after.items).done ≡ (compute_progress after.items).total)
    × ((compute_progress after.items).current_index ≡ none)
submit_batch_deposit-AllTerminal_example =
    submit_batch_deposit-AllTerminal wallet world plan [] idle refl refl tt
