-- ===== src/Gating/Defaults.antt =====
-- What the defaults of `buildSnapshot` (sdk/src/gating/engine.ts) do and do not grant.
use joint_save.Prelude.{
  ℕ, String, false, Option, none, some, List, [], ◌∷◌, map, ◌≡◌, refl, ap, arith, or_else,
  Option-cases, inl, inr, is_some, true,
}
use joint_save.Prelude.Int.{ℤ}
use joint_save.Gating.Types.{GateAction, RoundSnapshot, GovernanceSnapshot, StateSnapshot}
use joint_save.Gating.Engine.{is_true}
use joint_save.Gating.Actions.{
  create_proposal_gate, execute_gate, allocate_yield_gate, compute_action_eligibility,
  is_gate_allowed,
}
use joint_save.Gating.Snapshot.{
  Value, undefined, bigint, RoundInput, GovernanceInput, StateSnapshotInput, entry, to_big_int,
  build_snapshot,
}

abbrev value_of : Option ℤ → Value
value_of none = undefined
value_of (some v) = bigint v

abbrev round_input : RoundSnapshot → RoundInput
round_input r = record {
  index = some r.index;
  deadline_secs = some r.deadline_secs;
  completed = some r.completed;
  paid_out = some r.paid_out;
  funded = r.funded;
}

abbrev governance_input : Option GovernanceSnapshot → Option GovernanceInput
governance_input none = none
governance_input (some g) = some (record {
  proposer = g.proposer;
  status = some g.status;
  votes_for = some g.votes_for;
  votes_against = some g.votes_against;
  quorum = some g.quorum;
  viewer_voted = some g.viewer_voted;
  expires_at_secs = g.expires_at_secs;
  viewer_is_admin = g.viewer_is_admin;
  viewer_can_propose = g.viewer_can_propose;
  viewer_can_execute = g.viewer_can_execute;
})

-- A snapshot, handed back as the input that it also is.
abbrev pub as_input : StateSnapshot → StateSnapshotInput
as_input s = record {
  pool_type = some s.pool_type;
  status = some s.status;
  contract_deployed = some s.contract_deployed;
  members = some s.members;
  viewer = s.viewer;
  round = some (round_input s.round);
  balances = some (map (λ e. (e.0, bigint e.1)) s.balances);
  deposit_amount = bigint s.deposit_amount;
  minimum_deposit = bigint s.minimum_deposit;
  governance = governance_input s.governance;
  yield = s.yield;
  now_secs = some s.now_secs;
  archived = s.archived;
  paused = s.paused;
  viewer_is_admin = s.viewer_is_admin;
  has_deposited = s.has_deposited;
  requested_amount = value_of s.requested_amount;
  liquid_balance = value_of s.liquid_balance;
}

-- The fields that `buildSnapshot` always fills are there.
pub record IsFilled (s : StateSnapshot) : Type 0 where
  pub archived : is_some s.archived ≡ true
  pub paused : is_some s.paused ≡ true
  pub viewer_is_admin : is_some s.viewer_is_admin ≡ true
  pub has_deposited : is_some s.has_deposited ≡ true
  pub governance :
      (g : GovernanceSnapshot)
      → s.governance ≡ some g
      → (is_some g.viewer_is_admin ≡ true)
        × (is_some g.viewer_can_propose ≡ true)
        × (is_some g.viewer_can_execute ≡ true)

map-entry : (es : List (String × ℤ)) → map entry (map (λ e. (e.0, bigint e.1)) es) ≡ es
unfolding to_big_int
map-entry [] = refl
map-entry ((a, v) ∷ es) = ap (λ rest. (a, v) ∷ rest) (map-entry es)

-- What is given is kept: a state in which the fields that are always filled are there, handed back as
-- the input that it also is, is built into itself, with the clock set to `now` where that is given.
pub build_snapshot-as_input :
    (s : StateSnapshot) (now : Option ℕ)
    → IsFilled s
    → build_snapshot (as_input s) now ≡ record s { now_secs = or_else now s.now_secs }
unfolding build_snapshot
build_snapshot-as_input s now f = elim (Option-cases s.governance) [
  | inl e ↦ ground (arith, map-entry s.balances)
  | inr (g, e) ↦ ground (arith, map-entry s.balances, f.governance g e)
]

-- Every built snapshot is filled, so building it again changes nothing.
build_snapshot-IsFilled :
    (i : StateSnapshotInput) (now : Option ℕ) → IsFilled (build_snapshot i now)
unfolding build_snapshot
build_snapshot-IsFilled i now = record {
  archived = refl;
  paused = refl;
  viewer_is_admin = refl;
  has_deposited = refl;
  governance = λ g e. elim (Option-cases i.governance) [
    | inl h ↦ absurd (ground (arith, h, e))
    | inr (j, h) ↦ ground (arith, h, e)
  ];
}

-- The input marks the viewer neither as an admin nor as able to propose or execute.
pub record ClaimsNothing (i : StateSnapshotInput) : Type 0 where
  pub not_admin : is_true i.viewer_is_admin ≡ false
  pub not_granted :
      (g : GovernanceInput)
      → i.governance ≡ some g
      → (is_true g.viewer_is_admin ≡ false)
        × (is_true g.viewer_can_propose ≡ false)
        × (is_true g.viewer_can_execute ≡ false)

-- No authority by default: where the input does not mark the viewer as an admin, a proposer or an
-- executor, the built snapshot allows neither making a proposal, nor executing one, nor allocating yield.
pub build_snapshot_grants_nothing :
    (i : StateSnapshotInput) (now : Option ℕ)
    → ClaimsNothing i
    → let result = compute_action_eligibility (build_snapshot i now) in
      (is_gate_allowed result GateAction.create_proposal ≡ false)
      × (is_gate_allowed result GateAction.execute ≡ false)
      × (is_gate_allowed result GateAction.allocate_yield ≡ false)
unfolding build_snapshot compute_action_eligibility create_proposal_gate execute_gate
    allocate_yield_gate
build_snapshot_grants_nothing i now c = elim (Option-cases i.governance) [
  | inl e ↦ ground arith
  | inr (g, e) ↦ ground (arith, c.not_granted g e)
]
