-- ===== src/Gating/Actions.antt =====
-- The governance and yield gates, and the table of decisions (sdk/src/gating/engine.ts).
use joint_save.Prelude.{
  ℕ, Bool, false, not, ◌&&◌, ◌||◌, Option, none, some, ◌*◌, ltb, leb, ◌==◌, if◌then◌else◌, length,
}
use joint_save.Prelude.Int.{ℤ, pos, ltb_ℤ, leb_ℤ}
use joint_save.Gating.Types.{
  GateAction, pool_archived, contract_not_deployed, not_member, proposal_not_active, already_voted,
  quorum_not_met, not_admin, vault_locked, not_allocated, buffer_exhausted, yield_disabled,
  proposal_expired, GateDecision, GateResult, GovernanceSnapshot, StateSnapshot,
}
use joint_save.Gating.Engine.{
  allow, deny, unless_blocked, is_true, is_archived, is_open_for_votes, is_passed, is_member,
  can_govern, active_pool_gate, deposit_gate, withdraw_gate, trigger_payout_gate,
}

abbrev viewer_can_propose : Option GovernanceSnapshot → Bool
viewer_can_propose none = false
viewer_can_propose (some g) = is_true g.viewer_can_propose

unfoldable pub create_proposal_gate : StateSnapshot → GateDecision
create_proposal_gate s =
    if not s.contract_deployed
    then deny contract_not_deployed
    else if is_archived s.status || is_true s.archived
    then deny pool_archived
    else if not (is_true s.viewer_is_admin || viewer_can_propose s.governance)
    then deny not_admin
    else allow

-- `expiresAtSecs !== undefined && nowSecs > expiresAtSecs`
abbrev pub is_past : Option ℕ → ℕ → Bool
is_past none now = false
is_past (some t) now = ltb t now

unfoldable pub vote_gate : StateSnapshot → GateDecision
vote_gate s = if not s.contract_deployed then deny contract_not_deployed else elim s.governance [
  | none ↦ deny proposal_not_active
  | some g ↦
      if not (is_member s)
      then deny not_member
      else if not (is_open_for_votes g.status)
      then deny proposal_not_active
      else if g.viewer_voted
      then deny already_voted
      else if is_past g.expires_at_secs s.now_secs
      then deny proposal_expired
      else allow
]

unfoldable pub quorum_met : StateSnapshot → Bool
quorum_met s = elim s.governance [
  | none ↦ false
  | some g ↦
      if length s.members == 0
      then length g.votes_for == 0 && g.quorum == 0
      else leb (g.quorum * length s.members) (length g.votes_for * 100)
]

unfoldable pub execute_gate : StateSnapshot → GateDecision
execute_gate s = if not s.contract_deployed then deny contract_not_deployed else elim s.governance [
  | none ↦ deny proposal_not_active
  | some g ↦
      if not (is_true s.viewer_is_admin || is_true g.viewer_can_execute)
      then deny not_admin
      else if not (quorum_met s)
      then deny quorum_not_met
      else if not (is_passed g.status)
      then deny proposal_not_active
      else allow
]

-- `requestedAmount !== undefined && requestedAmount > limit`
abbrev exceeds : Option ℤ → ℤ → Bool
exceeds none limit = false
exceeds (some a) limit = ltb_ℤ limit a

unfoldable pub allocate_yield_gate : StateSnapshot → GateDecision
allocate_yield_gate s = unless_blocked (active_pool_gate s) (
    if not (is_true s.viewer_is_admin) then deny not_admin else elim s.yield [
      | none ↦ deny yield_disabled
      | some y ↦
          if y.locked
          then deny vault_locked
          else if leb_ℤ y.max_allocatable (pos 0)
          then deny buffer_exhausted
          else if exceeds s.requested_amount y.max_allocatable
          then deny buffer_exhausted
          else allow
    ])

unfoldable pub deallocate_yield_gate : StateSnapshot → GateDecision
deallocate_yield_gate s =
    if not s.contract_deployed then deny contract_not_deployed else elim s.yield [
      | none ↦ deny yield_disabled
      | some y ↦
          if not (is_member s) && not (can_govern s)
          then deny not_member
          else if leb_ℤ y.position (pos 0)
          then deny not_allocated
          else allow
    ]

unfoldable pub sync_yield_gate : StateSnapshot → GateDecision
sync_yield_gate s = if not s.contract_deployed then deny contract_not_deployed else elim s.yield [
  | none ↦ deny yield_disabled
  | some y ↦
      if not (is_member s) && not (can_govern s)
      then deny not_member
      else if leb_ℤ y.position (pos 0)
      then deny not_allocated
      else allow
]

unfoldable pub compute_action_eligibility : StateSnapshot → GateResult
compute_action_eligibility s = record {
  deposit = deposit_gate s;
  withdraw = withdraw_gate s;
  contribute = deposit_gate s;
  trigger_payout = trigger_payout_gate s;
  claim = withdraw_gate s;
  create_proposal = create_proposal_gate s;
  vote = vote_gate s;
  execute = execute_gate s;
  allocate_yield = allocate_yield_gate s;
  deallocate_yield = deallocate_yield_gate s;
  sync_yield = sync_yield_gate s;
}

-- `result[action]`
abbrev pub decision_for : GateResult → GateAction → GateDecision
decision_for r GateAction.deposit = r.deposit
decision_for r GateAction.withdraw = r.withdraw
decision_for r GateAction.contribute = r.contribute
decision_for r GateAction.trigger_payout = r.trigger_payout
decision_for r GateAction.claim = r.claim
decision_for r GateAction.create_proposal = r.create_proposal
decision_for r GateAction.vote = r.vote
decision_for r GateAction.execute = r.execute
decision_for r GateAction.allocate_yield = r.allocate_yield
decision_for r GateAction.deallocate_yield = r.deallocate_yield
decision_for r GateAction.sync_yield = r.sync_yield

abbrev pub is_gate_allowed : GateResult → GateAction → Bool
is_gate_allowed r a = (decision_for r a).allowed

abbrev pub is_gate_blocked : GateResult → GateAction → Bool
is_gate_blocked r a = not (is_gate_allowed r a)
