-- ===== src/Gating/Snapshot.antt =====
-- Filling the defaults of a partial state (`buildSnapshot` and its helpers in
-- sdk/src/gating/engine.ts).
use joint_save.Prelude.{
  ℕ, String, Bool, true, false, Option, none, some, List, [], map, if◌then◌else◌, or_else,
}
use joint_save.Prelude.Int.{ℤ, pos}
use joint_save.Prelude.Text.{str_eq, trim}
use joint_save.Prelude.BigInt.{big_int}
use joint_save.Gating.Types.{
  PoolType, rotational, PoolStatus, active, ProposalStatus, open_for_votes, RoundSnapshot,
  GovernanceSnapshot, YieldAllocationState, StateSnapshot,
}

-- A JavaScript value as `toBigInt` tells them apart; a finite number by its integer part.
pub data Value : Type 0 where
  undefined : Value
  bigint : ℤ → Value
  number : ℤ → Value
  not_finite : Value
  text : String → Value
  other : Value

unfoldable pub to_big_int : Value → ℤ → ℤ
to_big_int (bigint v) fallback = v
to_big_int (number v) fallback = v
to_big_int (text s) fallback = if str_eq (trim s) "" then fallback else or_else (big_int s) fallback
to_big_int _ fallback = fallback

-- `Partial<RoundSnapshot>`
pub record RoundInput : Type 0 where
  pub index : Option ℕ
  pub deadline_secs : Option ℕ
  pub completed : Option Bool
  pub paid_out : Option Bool
  pub funded : Option Bool

-- `Partial<GovernanceSnapshot>`
pub record GovernanceInput : Type 0 where
  pub proposer : Option String
  pub status : Option ProposalStatus
  pub votes_for : Option (List String)
  pub votes_against : Option (List String)
  pub quorum : Option ℕ
  pub viewer_voted : Option Bool
  pub expires_at_secs : Option ℕ
  pub viewer_is_admin : Option Bool
  pub viewer_can_propose : Option Bool
  pub viewer_can_execute : Option Bool

pub record StateSnapshotInput : Type 0 where
  pub pool_type : Option PoolType
  pub status : Option PoolStatus
  pub contract_deployed : Option Bool
  pub members : Option (List String)
  pub viewer : Option String
  pub round : Option RoundInput
  pub balances : Option (List (String × Value))
  pub deposit_amount : Value
  pub minimum_deposit : Value
  pub governance : Option GovernanceInput
  pub yield : Option YieldAllocationState
  pub now_secs : Option ℕ
  pub archived : Option Bool
  pub paused : Option Bool
  pub viewer_is_admin : Option Bool
  pub has_deposited : Option Bool
  pub requested_amount : Value
  pub liquid_balance : Value

-- `input?.field`
abbrev field {ℓ} : {A : Type ℓ} → Option RoundInput → (RoundInput → Option A) → Option A
field none f = none
field (some r) f = f r

normalize_round : Option RoundInput → RoundSnapshot
normalize_round r = record {
  index = or_else (field r (λ i. i.index)) 0;
  deadline_secs = or_else (field r (λ i. i.deadline_secs)) 0;
  completed = or_else (field r (λ i. i.completed)) false;
  paid_out = or_else (field r (λ i. i.paid_out)) false;
  funded = field r (λ i. i.funded);
}

normalize_governance : Option GovernanceInput → Option GovernanceSnapshot
normalize_governance none = none
normalize_governance (some g) =
    let is_admin = or_else g.viewer_is_admin false in
    some (record {
      proposer = g.proposer;
      status = or_else g.status open_for_votes;
      votes_for = or_else g.votes_for [];
      votes_against = or_else g.votes_against [];
      quorum = or_else g.quorum 0;
      viewer_voted = or_else g.viewer_voted false;
      expires_at_secs = g.expires_at_secs;
      viewer_is_admin = some is_admin;
      viewer_can_propose = some (or_else g.viewer_can_propose is_admin);
      viewer_can_execute = some (or_else g.viewer_can_execute is_admin);
    })

-- `x !== undefined` guards the two optional amounts
abbrev optional_amount : Value → Option ℤ
optional_amount undefined = none
optional_amount v = some (to_big_int v (pos 0))

abbrev pub entry : String × Value → String × ℤ
entry (a, v) = (a, to_big_int v (pos 0))

unfoldable pub build_snapshot : StateSnapshotInput → Option ℕ → StateSnapshot
unfolding normalize_round normalize_governance to_big_int
build_snapshot i now = record {
  pool_type = or_else i.pool_type rotational;
  status = or_else i.status active;
  contract_deployed = or_else i.contract_deployed true;
  members = or_else i.members [];
  viewer = i.viewer;
  round = normalize_round i.round;
  balances = map entry (or_else i.balances []);
  deposit_amount = to_big_int i.deposit_amount (pos 0);
  minimum_deposit = to_big_int i.minimum_deposit (pos 0);
  governance = normalize_governance i.governance;
  yield = i.yield;
  now_secs = or_else now (or_else i.now_secs 0);
  archived = some (or_else i.archived false);
  paused = some (or_else i.paused false);
  viewer_is_admin = some (or_else i.viewer_is_admin false);
  has_deposited = some (or_else i.has_deposited false);
  requested_amount = optional_amount i.requested_amount;
  liquid_balance = optional_amount i.liquid_balance;
}
