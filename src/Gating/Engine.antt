-- ===== src/Gating/Engine.antt =====
-- The gates of sdk/src/gating/engine.ts, one function for each gate of the source. A test
-- `x === true` or a truth test on a field that may be `undefined` is `is_true`.
use joint_save.Prelude.{
  String, Bool, true, false, not, ◌&&◌, ◌||◌, Option, none, some, List, [], ◌∷◌, ltb, if◌then◌else◌,
  or_else, every,
}
use joint_save.Prelude.Int.{ℤ, pos, ltb_ℤ, leb_ℤ}
use joint_save.Prelude.Text.{str_eq, includes}
use joint_save.Gating.Types.{
  PoolType, rotational, target, PoolStatus, pending_deployment, active, ProposalStatus,
  open_for_votes, GateReason, not_member, pool_not_active, pool_archived, pool_paused,
  contract_not_deployed, round_complete, already_paid, below_minimum, insufficient_balance,
  vault_illiquid, target_locked, unsupported_action, already_deposited, deadline_passed, too_early,
  not_funded, GateDecision, GovernanceSnapshot, StateSnapshot,
}

abbrev pub allow : GateDecision
allow = record { allowed = true; reason = none }

abbrev pub deny : GateReason → GateDecision
deny r = record { allowed = false; reason = some r }

-- `if (gate) return deny(gate)`, and what follows
abbrev pub unless_blocked : Option GateReason → GateDecision → GateDecision
unless_blocked (some r) d = deny r
unless_blocked none d = d

abbrev pub is_true : Option Bool → Bool
is_true o = or_else o false

abbrev pub is_archived : PoolStatus → Bool
is_archived PoolStatus.archived = true
is_archived _ = false

abbrev pub is_paused : PoolStatus → Bool
is_paused PoolStatus.paused = true
is_paused _ = false

abbrev pub is_active : PoolStatus → Bool
is_active active = true
is_active _ = false

abbrev pub is_pending : PoolStatus → Bool
is_pending pending_deployment = true
is_pending _ = false

abbrev pub is_rotational : PoolType → Bool
is_rotational rotational = true
is_rotational _ = false

abbrev pub is_target : PoolType → Bool
is_target target = true
is_target _ = false

abbrev pub is_open_for_votes : ProposalStatus → Bool
is_open_for_votes open_for_votes = true
is_open_for_votes _ = false

abbrev pub is_passed : ProposalStatus → Bool
is_passed ProposalStatus.passed = true
is_passed _ = false

unfoldable pub balance_of : String → List (String × ℤ) → Option ℤ
balance_of a [] = none
balance_of a ((b, v) ∷ rest) = if str_eq b a then some v else balance_of a rest

unfoldable pub is_member : StateSnapshot → Bool
is_member s = elim s.viewer [ none ↦ false | some v ↦ includes s.members v ]

unfoldable pub viewer_balance : StateSnapshot → ℤ
viewer_balance s = elim s.viewer [
  | none ↦ pos 0
  | some v ↦ or_else (balance_of v s.balances) (pos 0)
]

abbrev governance_flag : (GovernanceSnapshot → Option Bool) → Option GovernanceSnapshot → Bool
governance_flag f none = false
governance_flag f (some g) = is_true (f g)

unfoldable pub can_govern : StateSnapshot → Bool
can_govern s =
    is_true s.viewer_is_admin
    || (governance_flag (λ g. g.viewer_is_admin) s.governance
        || governance_flag (λ g. g.viewer_can_execute) s.governance)

abbrev pub is_empty {ℓ} : {A : Type ℓ} → List A → Bool
is_empty [] = true
is_empty (x ∷ xs) = false

-- `(balances[member] ?? 0n) >= depositAmount`
abbrev pub has_paid : StateSnapshot → String → Bool
has_paid s m = leb_ℤ s.deposit_amount (or_else (balance_of m s.balances) (pos 0))

unfoldable pub is_fully_funded : StateSnapshot → Bool
is_fully_funded s = elim s.round.funded [
  | some b ↦ b
  | none ↦ if is_empty s.members then false else every (has_paid s) s.members
]

unfoldable pub deployment_gate : StateSnapshot → Option GateReason
deployment_gate s =
    if not s.contract_deployed
    then some contract_not_deployed
    else if is_archived s.status || is_true s.archived
    then some pool_archived
    else if is_paused s.status || is_true s.paused
    then some pool_paused
    else none

unfoldable pub active_pool_gate : StateSnapshot → Option GateReason
active_pool_gate s = elim (deployment_gate s) [
  | some r ↦ some r
  | none ↦ if not (is_active s.status) then some pool_not_active else none
]

-- the tail of `depositGate`, for the pools that take an amount
abbrev amount_gate : StateSnapshot → GateDecision
amount_gate s =
    if ltb_ℤ (or_else s.requested_amount s.deposit_amount) s.minimum_deposit
    then deny below_minimum
    else allow

-- `deadlineSecs > 0 && now > deadlineSecs`, and `… && now < deadlineSecs`
abbrev pub past_deadline : StateSnapshot → Bool
past_deadline s = ltb 0 s.round.deadline_secs && ltb s.round.deadline_secs s.now_secs

abbrev pub before_deadline : StateSnapshot → Bool
before_deadline s = ltb 0 s.round.deadline_secs && ltb s.now_secs s.round.deadline_secs

deposit_by_type : PoolType → StateSnapshot → GateDecision
deposit_by_type rotational s =
    if s.round.completed || s.round.paid_out
    then deny round_complete
    else if is_true s.has_deposited
    then deny already_deposited
    else allow
deposit_by_type target s =
    if s.round.completed
    then deny round_complete
    else if past_deadline s
    then deny deadline_passed
    else amount_gate s
deposit_by_type PoolType.flexible s = amount_gate s

unfoldable pub deposit_gate : StateSnapshot → GateDecision
unfolding deposit_by_type
deposit_gate s =
    unless_blocked (active_pool_gate s)
      (if not (is_member s) then deny not_member else deposit_by_type s.pool_type s)

unfoldable pub withdraw_gate : StateSnapshot → GateDecision
withdraw_gate s =
    let balance = viewer_balance s in
    let requested = or_else s.requested_amount balance in
    let liquid = or_else s.liquid_balance balance in
    unless_blocked (deployment_gate s) (
      if is_pending s.status
      then deny pool_not_active
      else if not (is_member s)
      then deny not_member
      else if is_rotational s.pool_type
      then deny unsupported_action
      else if is_target s.pool_type && is_active s.status
      then deny target_locked
      else if leb_ℤ balance (pos 0)
      then deny insufficient_balance
      else if ltb_ℤ balance requested
      then deny insufficient_balance
      else if ltb_ℤ liquid requested
      then deny vault_illiquid
      else allow)

unfoldable pub trigger_payout_gate : StateSnapshot → GateDecision
trigger_payout_gate s = unless_blocked (active_pool_gate s) (
    if not (is_rotational s.pool_type)
    then deny unsupported_action
    else if s.round.completed || s.round.paid_out
    then deny already_paid
    else if before_deadline s
    then deny too_early
    else if not (is_fully_funded s)
    then deny not_funded
    else allow)
