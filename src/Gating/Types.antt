-- ===== src/Gating/Types.antt =====
-- The data of the eligibility engine (sdk/src/gating/types.ts, and the pool and proposal states of
-- sdk/src/types.ts). Amounts are signed integers as `bigint` is; unix seconds, quorum percentages
-- and counts are natural numbers; a field that may be `undefined` is an `Option`.
use joint_save.Prelude.{ℕ, String, Bool, Option, List}
use joint_save.Prelude.Int.{ℤ}

pub data PoolType : Type 0 where
  rotational target flexible : PoolType

pub data PoolStatus : Type 0 where
  pending_deployment active paused completed archived : PoolStatus

pub data ProposalStatus : Type 0 where
  open_for_votes passed executed expired rejected : ProposalStatus

pub data GateAction : Type 0 where
  deposit withdraw contribute trigger_payout claim create_proposal vote execute allocate_yield :
      GateAction
  deallocate_yield sync_yield : GateAction

pub data GateReason : Type 0 where
  not_member pool_not_active pool_archived pool_paused contract_not_deployed : GateReason
  round_complete already_paid below_minimum insufficient_balance proposal_not_active : GateReason
  already_voted quorum_not_met not_admin vault_locked vault_illiquid not_allocated : GateReason
  target_locked unsupported_action already_deposited deadline_passed too_early : GateReason
  not_funded buffer_exhausted yield_disabled proposal_expired : GateReason

pub record GateDecision : Type 0 where
  pub allowed : Bool
  pub reason : Option GateReason

-- `Record<GateAction, GateDecision>`
pub record GateResult : Type 0 where
  pub deposit : GateDecision
  pub withdraw : GateDecision
  pub contribute : GateDecision
  pub trigger_payout : GateDecision
  pub claim : GateDecision
  pub create_proposal : GateDecision
  pub vote : GateDecision
  pub execute : GateDecision
  pub allocate_yield : GateDecision
  pub deallocate_yield : GateDecision
  pub sync_yield : GateDecision

pub record RoundSnapshot : Type 0 where
  pub index : ℕ
  pub deadline_secs : ℕ
  pub completed : Bool
  pub paid_out : Bool
  pub funded : Option Bool

pub record GovernanceSnapshot : Type 0 where
  pub proposer : Option String
  pub status : ProposalStatus
  pub votes_for : List String
  pub votes_against : List String
  pub quorum : ℕ
  pub viewer_voted : Bool
  pub expires_at_secs : Option ℕ
  pub viewer_is_admin : Option Bool
  pub viewer_can_propose : Option Bool
  pub viewer_can_execute : Option Bool

pub record YieldAllocationState : Type 0 where
  pub vault : Option String
  pub shares : ℤ
  pub cost_basis : ℤ
  pub buffer_bps : ℕ
  pub locked : Bool
  pub position : ℤ
  pub unrealised : ℤ
  pub max_allocatable : ℤ

-- `balances` is a map from addresses, as an association list.
pub record StateSnapshot : Type 0 where
  pub pool_type : PoolType
  pub status : PoolStatus
  pub contract_deployed : Bool
  pub members : List String
  pub viewer : Option String
  pub round : RoundSnapshot
  pub balances : List (String × ℤ)
  pub deposit_amount : ℤ
  pub minimum_deposit : ℤ
  pub governance : Option GovernanceSnapshot
  pub yield : Option YieldAllocationState
  pub now_secs : ℕ
  pub archived : Option Bool
  pub paused : Option Bool
  pub viewer_is_admin : Option Bool
  pub has_deposited : Option Bool
  pub requested_amount : Option ℤ
  pub liquid_balance : Option ℤ
