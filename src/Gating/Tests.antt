-- ===== src/Gating/Tests.antt =====
-- A pool of each kind, and the theorems of the eligibility engine at it.
use joint_save.Prelude.{true, false, ◌||◌, none, some, [], ◌∷◌, ◌≡◌, refl, ◌↔◌, ◌⊎◌, ◌≤◌, arith}
use joint_save.Prelude.Int.{pos, ◌≤ℤ◌, ◌<ℤ◌}
use joint_save.Prelude.BigInt.{big_int}
use joint_save.Gating.Types.{
  rotational, flexible, active, passed, GateAction, GateReason, pool_archived, pool_paused,
  RoundSnapshot, GovernanceSnapshot, StateSnapshot, too_early,
}
use joint_save.Gating.Engine.{
  is_true, is_archived, is_paused, balance_of, is_member, viewer_balance, is_fully_funded,
  deployment_gate, active_pool_gate, deny, allow, deposit_gate, withdraw_gate, trigger_payout_gate,
}
use joint_save.Gating.Actions.{
  create_proposal_gate, vote_gate, quorum_met, execute_gate, allocate_yield_gate,
  compute_action_eligibility, decision_for, is_gate_allowed,
}
use joint_save.Gating.Snapshot.{number, text, StateSnapshotInput, build_snapshot}
use joint_save.Gating.Money.{
  IsOpen, IsMember, DepositTerms, WithdrawTerms, requested, liquid, deposit_gate-allowed_iff,
  withdraw_gate-allowed_iff,
}
use joint_save.Gating.Blocked.{closed_pool_halts}
use joint_save.Gating.Payout.{
  IsFunded, HasQuorum, trigger_payout_gate-allowed_iff, execute_gate-allowed_iff,
}
use joint_save.Gating.Defaults.{
  as_input, IsFilled, build_snapshot-as_input, ClaimsNothing, build_snapshot_grants_nothing,
}

abbrev round : RoundSnapshot
round = record {
  index = 1;
  deadline_secs = 100;
  completed = false;
  paid_out = false;
  funded = none;
}

abbrev proposal : GovernanceSnapshot
proposal = record {
  proposer = some "ann";
  status = passed;
  votes_for = "ann" ∷ "bob" ∷ [];
  votes_against = [];
  quorum = 60;
  viewer_voted = true;
  expires_at_secs = some 500;
  viewer_is_admin = some false;
  viewer_can_propose = some false;
  viewer_can_execute = some true;
}

-- Three members of a rotational pool, all of whom have deposited 50.
abbrev pool : StateSnapshot
pool = record {
  pool_type = rotational;
  status = active;
  contract_deployed = true;
  members = "ann" ∷ "bob" ∷ "cat" ∷ [];
  viewer = some "bob";
  round = round;
  balances = ("ann", pos 50) ∷ ("bob", pos 50) ∷ ("cat", pos 50) ∷ [];
  deposit_amount = pos 50;
  minimum_deposit = pos 10;
  governance = some proposal;
  yield = none;
  now_secs = 100;
  archived = some false;
  paused = some false;
  viewer_is_admin = some false;
  has_deposited = some false;
  requested_amount = none;
  liquid_balance = none;
}

abbrev savings : StateSnapshot
savings = record pool {
  pool_type = flexible;
  requested_amount = some (pos 20);
  liquid_balance = some (pos 30);
}

gates : Unit {0}
unfolding compute_action_eligibility deposit_gate withdraw_gate trigger_payout_gate
    create_proposal_gate vote_gate quorum_met execute_gate allocate_yield_gate balance_of is_member
    viewer_balance is_fully_funded deployment_gate active_pool_gate build_snapshot big_int
gates = tt

gate_tests :
    (deposit_gate pool ≡ allow)
    × (trigger_payout_gate pool ≡ allow)
    × (trigger_payout_gate (record pool { now_secs = 99 }) ≡ deny too_early)
    × (withdraw_gate savings ≡ allow)
    × (withdraw_gate (record savings { requested_amount = some (pos 31) })
        ≡ deny GateReason.vault_illiquid)
    × (withdraw_gate (record savings { requested_amount = some (pos 51) })
        ≡ deny GateReason.insufficient_balance)
    × (execute_gate pool ≡ allow)
    × (execute_gate (record pool { governance = some (record proposal { quorum = 67 }) })
        ≡ deny GateReason.quorum_not_met)
unfolding gates
gate_tests = (refl, refl, refl, refl, refl, refl, refl, refl)

deposit_gate-allowed_iff_example :
    ((deposit_gate pool).allowed ≡ true)
    ↔ (IsOpen pool × (active ≡ active) × IsMember pool × DepositTerms rotational pool)
deposit_gate-allowed_iff_example = deposit_gate-allowed_iff pool

withdraw_gate-allowed_iff_example : ((withdraw_gate savings).allowed ≡ true) ↔ (
    IsOpen savings
    × IsMember savings
    × WithdrawTerms flexible active
    × (pos 0 <ℤ viewer_balance savings)
    × (requested savings ≤ℤ viewer_balance savings)
    × (requested savings ≤ℤ liquid savings))
withdraw_gate-allowed_iff_example = withdraw_gate-allowed_iff savings

closed_pool_halts_example :
    let s = record pool { paused = some true } in
    let decision = decision_for (compute_action_eligibility s) GateAction.deposit in
    ((is_archived active || is_true (some false)) ≡ true → decision ≡ deny pool_archived)
    × ((is_archived active || is_true (some false)) ≡ false
        → (is_paused active || is_true (some true)) ≡ true
        → decision ≡ deny pool_paused)
closed_pool_halts_example =
    closed_pool_halts (record pool { paused = some true }) GateAction.deposit refl

trigger_payout_gate-allowed_iff_example : ((trigger_payout_gate pool).allowed ≡ true) ↔ (
    IsOpen pool
    × (active ≡ active)
    × (rotational ≡ rotational)
    × (false ≡ false)
    × (false ≡ false)
    × (100 ≤ 100)
    × IsFunded pool none)
trigger_payout_gate-allowed_iff_example = trigger_payout_gate-allowed_iff pool

execute_gate-allowed_iff_example : ((execute_gate pool).allowed ≡ true) ↔ (
    (true ≡ true)
    × ((is_true (some false) ≡ true) ⊎ (is_true (some true) ≡ true))
    × HasQuorum pool proposal
    × (passed ≡ passed))
execute_gate-allowed_iff_example = execute_gate-allowed_iff pool proposal refl

-- A request that names its members and an amount, and no authority.
abbrev partial : StateSnapshotInput
partial = record (as_input pool) {
  governance = some (record {
    proposer = none;
    status = none;
    votes_for = none;
    votes_against = none;
    quorum = none;
    viewer_voted = none;
    expires_at_secs = none;
    viewer_is_admin = none;
    viewer_can_propose = none;
    viewer_can_execute = none;
  });
  viewer_is_admin = none;
  requested_amount = text "0x14";
  deposit_amount = number (pos 12);
}

requested_from_text : (build_snapshot partial none).requested_amount ≡ some (pos 20)
unfolding gates
requested_from_text = refl

partial-ClaimsNothing : ClaimsNothing partial
partial-ClaimsNothing = record { not_admin = refl; not_granted = λ g e. ground arith }

pool-IsFilled : IsFilled pool
pool-IsFilled = record {
  archived = refl;
  paused = refl;
  viewer_is_admin = refl;
  has_deposited = refl;
  governance = λ g e. ground arith;
}

build_snapshot-as_input_example :
    build_snapshot (as_input pool) (some 7) ≡ record pool { now_secs = 7 }
build_snapshot-as_input_example = build_snapshot-as_input pool (some 7) pool-IsFilled

build_snapshot_grants_nothing_example :
    let result = compute_action_eligibility (build_snapshot partial none) in
    (is_gate_allowed result GateAction.create_proposal ≡ false)
    × (is_gate_allowed result GateAction.execute ≡ false)
    × (is_gate_allowed result GateAction.allocate_yield ≡ false)
build_snapshot_grants_nothing_example =
    build_snapshot_grants_nothing partial none partial-ClaimsNothing
