-- ===== src/Gating/Blocked.antt =====
-- Pools that are archived or paused (sdk/src/gating/engine.ts): the reason that is given, and which
-- actions stay open.
use joint_save.Prelude.{
  Bool, true, false, ◌||◌, some, ◌≡◌, refl, if◌then◌else◌, Bool-cases, inl, inr,
}
use joint_save.Gating.Types.{
  GateAction, GateReason, pool_archived, pool_paused, StateSnapshot, active, contract_not_deployed,
}
use joint_save.Gating.Engine.{
  is_true, is_archived, is_paused, deny, deployment_gate, active_pool_gate, deposit_gate,
  withdraw_gate, trigger_payout_gate, is_member, can_govern,
}
use joint_save.Gating.Actions.{
  allocate_yield_gate, compute_action_eligibility, decision_for, create_proposal_gate, vote_gate,
  execute_gate, quorum_met, deallocate_yield_gate, sync_yield_gate,
}

-- Paying in, drawing out, paying out a round, and lending what is idle.
abbrev pub halts_when_paused : GateAction → Bool
halts_when_paused GateAction.deposit = true
halts_when_paused GateAction.withdraw = true
halts_when_paused GateAction.contribute = true
halts_when_paused GateAction.trigger_payout = true
halts_when_paused GateAction.claim = true
halts_when_paused GateAction.allocate_yield = true
halts_when_paused _ = false

-- These, and making a proposal.
abbrev pub halts_when_archived : GateAction → Bool
halts_when_archived GateAction.create_proposal = true
halts_when_archived a = halts_when_paused a

-- The same state in a pool that is neither archived nor paused.
abbrev pub reopened : StateSnapshot → StateSnapshot
reopened s = record s { status = active; archived = some false; paused = some false }

deployment_gate_archived :
    (s : StateSnapshot)
    → s.contract_deployed ≡ true
    → (is_archived s.status || is_true s.archived) ≡ true
    → deployment_gate s ≡ some pool_archived
unfolding deployment_gate
deployment_gate_archived s d h = rw (d, h)

deployment_gate_paused :
    (s : StateSnapshot)
    → s.contract_deployed ≡ true
    → (is_archived s.status || is_true s.archived) ≡ false
    → (is_paused s.status || is_true s.paused) ≡ true
    → deployment_gate s ≡ some pool_paused
unfolding deployment_gate
deployment_gate_paused s d a h = rw (d, a, h)

blocked_by_deployment :
    (s : StateSnapshot) (a : GateAction) {r : GateReason}
    → deployment_gate s ≡ some r
    → halts_when_paused a ≡ true
    → decision_for (compute_action_eligibility s) a ≡ deny r
unfolding compute_action_eligibility deposit_gate withdraw_gate trigger_payout_gate
    allocate_yield_gate active_pool_gate
blocked_by_deployment s GateAction.deposit e h = rw (e, active_pool_gate)
blocked_by_deployment s GateAction.withdraw e h = rw e
blocked_by_deployment s GateAction.contribute e h = rw (e, active_pool_gate)
blocked_by_deployment s GateAction.trigger_payout e h = rw (e, active_pool_gate)
blocked_by_deployment s GateAction.claim e h = rw e
blocked_by_deployment s GateAction.allocate_yield e h = rw (e, active_pool_gate)
blocked_by_deployment s _ e h = cc

proposal_blocked :
    (s : StateSnapshot)
    → s.contract_deployed ≡ true
    → (is_archived s.status || is_true s.archived) ≡ true
    → decision_for (compute_action_eligibility s) GateAction.create_proposal ≡ deny pool_archived
unfolding compute_action_eligibility create_proposal_gate
proposal_blocked s d h = rw (d, h)

stays_open_archived :
    (s : StateSnapshot) (a : GateAction)
    → halts_when_archived a ≡ false
    → decision_for (compute_action_eligibility s) a
      ≡ decision_for (compute_action_eligibility (reopened s)) a
unfolding compute_action_eligibility vote_gate execute_gate quorum_met is_member can_govern
    deallocate_yield_gate sync_yield_gate
stays_open_archived s GateAction.vote e = refl
stays_open_archived s GateAction.execute e = refl
stays_open_archived s GateAction.deallocate_yield e = refl
stays_open_archived s GateAction.sync_yield e = refl
stays_open_archived s _ e = cc

proposal_open :
    (s : StateSnapshot)
    → (is_archived s.status || is_true s.archived) ≡ false
    → decision_for (compute_action_eligibility s) GateAction.create_proposal
      ≡ decision_for (compute_action_eligibility (reopened s)) GateAction.create_proposal
unfolding compute_action_eligibility create_proposal_gate
proposal_open s h = rw h

archived_blocks :
    (s : StateSnapshot) (a : GateAction)
    → s.contract_deployed ≡ true
    → (is_archived s.status || is_true s.archived) ≡ true
    → halts_when_archived a ≡ true
    → decision_for (compute_action_eligibility s) a ≡ deny pool_archived
archived_blocks s GateAction.create_proposal d h e = proposal_blocked s d h
archived_blocks s a d h e = blocked_by_deployment s a (deployment_gate_archived s d h) e

stays_open_paused :
    (s : StateSnapshot) (a : GateAction)
    → (is_archived s.status || is_true s.archived) ≡ false
    → halts_when_paused a ≡ false
    → decision_for (compute_action_eligibility s) a
      ≡ decision_for (compute_action_eligibility (reopened s)) a
stays_open_paused s GateAction.create_proposal h e = proposal_open s h
stays_open_paused s a h e = stays_open_archived s a e

-- In a deployed pool that is archived, by its status or its flag, deposits, contributions,
-- withdrawals, claims, payouts, yield allocations and new proposals are refused as archived; in one
-- that is paused and not archived, all of these but new proposals are refused as paused. Every other
-- action, taking yield back among them, is decided as if the pool were neither.
pub closed_pool_halts :
    (s : StateSnapshot) (a : GateAction)
    → s.contract_deployed ≡ true
    → ((is_archived s.status || is_true s.archived) ≡ true
        → decision_for (compute_action_eligibility s) a ≡ (
            if halts_when_archived a
            then deny pool_archived
            else decision_for (compute_action_eligibility (reopened s)) a))
      × ((is_archived s.status || is_true s.archived) ≡ false
          → (is_paused s.status || is_true s.paused) ≡ true
          → decision_for (compute_action_eligibility s) a ≡ (
              if halts_when_paused a
              then deny pool_paused
              else decision_for (compute_action_eligibility (reopened s)) a))
closed_pool_halts s a d = (
  λ h. elim (Bool-cases (halts_when_archived a)) [
    | inl e ↦ rw e (archived_blocks s a d h e)
    | inr e ↦ rw e (stays_open_archived s a e)
  ],
  λ h k. elim (Bool-cases (halts_when_paused a)) [
    | inl e ↦ rw e (blocked_by_deployment s a (deployment_gate_paused s d h k) e)
    | inr e ↦ rw e (stays_open_paused s a h e)
  ],
)

-- While the contract of a pool is not deployed every action is refused, and the reason given is
-- that and no other.
undeployed_blocks_all :
    (s : StateSnapshot) (a : GateAction)
    → s.contract_deployed ≡ false
    → decision_for (compute_action_eligibility s) a
      ≡ record { allowed = false; reason = some contract_not_deployed }
unfolding compute_action_eligibility deposit_gate withdraw_gate trigger_payout_gate active_pool_gate
    deployment_gate create_proposal_gate vote_gate execute_gate allocate_yield_gate
    deallocate_yield_gate sync_yield_gate
undeployed_blocks_all s GateAction.deposit h = rw h
undeployed_blocks_all s _ h = rw h
