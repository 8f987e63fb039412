-- ===== src/Gating/Payout.antt =====
-- When a rotational round may be paid out, and when a proposal may be executed
-- (sdk/src/gating/engine.ts).
use joint_save.Prelude.{
  ℕ, String, Bool, true, false, Option, none, some, List, [], ◌∷◌, ◌≡◌, refl, ◌≢◌, ◌↔◌, ◌⊎◌, arith,
  ◌≤◌, ◌*◌, every, All, or_else, length,
}
use joint_save.Prelude.Int.{pos, ◌≤ℤ◌}
use joint_save.Gating.Types.{
  rotational, active, passed, open_for_votes, GovernanceSnapshot, StateSnapshot,
}
use joint_save.Gating.Engine.{
  is_true, balance_of, has_paid, is_member, is_fully_funded, deployment_gate, active_pool_gate,
  trigger_payout_gate,
}
use joint_save.Gating.Actions.{quorum_met, vote_gate, execute_gate}
use joint_save.Gating.Money.{IsOpen, IsMember, is_member_iff, deployment_gate-eq-none_iff}

-- The round is funded: as recorded, or where nothing is recorded, because there are members and
-- each has a balance of at least the deposit.
abbrev pub IsFunded : StateSnapshot → Option Bool → Type 0
IsFunded s (some b) = b ≡ true
IsFunded s none =
    (s.members ≢ [])
    × All (λ m. s.deposit_amount ≤ℤ or_else (balance_of m s.balances) (pos 0)) s.members

every-has_paid_iff :
    (s : StateSnapshot) (ms : List String)
    → (every (has_paid s) ms ≡ true)
      ↔ All (λ m. s.deposit_amount ≤ℤ or_else (balance_of m s.balances) (pos 0)) ms
every-has_paid_iff s [] = (λ h. tt, λ h. refl)
every-has_paid_iff s (m ∷ ms) = ground (arith, every-has_paid_iff s ms)

is_fully_funded_iff : (s : StateSnapshot) → (is_fully_funded s ≡ true) ↔ IsFunded s s.round.funded
unfolding is_fully_funded
is_fully_funded_iff s = ground (arith, every-has_paid_iff s s.members)

trigger_payout_gate_core :
    (s : StateSnapshot)
    → ((trigger_payout_gate s).allowed ≡ true) ↔ (
        (deployment_gate s ≡ none)
        × (s.status ≡ active)
        × (s.pool_type ≡ rotational)
        × (s.round.completed ≡ false)
        × (s.round.paid_out ≡ false)
        × (s.round.deadline_secs ≤ s.now_secs)
        × (is_fully_funded s ≡ true))
unfolding trigger_payout_gate active_pool_gate
trigger_payout_gate_core s = ground arith

-- A payout may be triggered exactly when the pool is open, active and rotational, the round is
-- neither complete nor paid out, its deadline is reached (a deadline of 0 is none), and the round
-- is funded.
pub trigger_payout_gate-allowed_iff :
    (s : StateSnapshot)
    → ((trigger_payout_gate s).allowed ≡ true) ↔ (
        IsOpen s
        × (s.status ≡ active)
        × (s.pool_type ≡ rotational)
        × (s.round.completed ≡ false)
        × (s.round.paid_out ≡ false)
        × (s.round.deadline_secs ≤ s.now_secs)
        × IsFunded s s.round.funded)
trigger_payout_gate-allowed_iff s =
    let core = trigger_payout_gate_core s in
    let open_iff = deployment_gate-eq-none_iff s in
    let funded_iff = is_fully_funded_iff s in
    (
      λ h. let (o, a, r, c, p, d, f) = core.0 h in (open_iff.0 o, a, r, c, p, d, funded_iff.0 f),
      λ (o, a, r, c, p, d, f). core.1 (open_iff.1 o, a, r, c, p, d, funded_iff.1 f),
    )

-- The votes for a proposal reach its quorum; with no members, only a quorum of 0 and no vote do.
abbrev pub HasQuorum : StateSnapshot → GovernanceSnapshot → Type 0
HasQuorum s g =
    (s.members ≢ []) × (g.quorum * length s.members ≤ length g.votes_for * 100)
    ⊎ (s.members ≡ []) × (g.votes_for ≡ []) × (g.quorum ≡ 0)

quorum_met_iff :
    (s : StateSnapshot) (g : GovernanceSnapshot)
    → s.governance ≡ some g
    → (quorum_met s ≡ true) ↔ HasQuorum s g
unfolding quorum_met
quorum_met_iff s g e = ground arith

execute_gate_core :
    (s : StateSnapshot) (g : GovernanceSnapshot)
    → s.governance ≡ some g
    → ((execute_gate s).allowed ≡ true) ↔ (
        (s.contract_deployed ≡ true)
        × ((is_true s.viewer_is_admin ≡ true) ⊎ (is_true g.viewer_can_execute ≡ true))
        × (quorum_met s ≡ true)
        × (g.status ≡ passed))
unfolding execute_gate
execute_gate_core s g e = ground arith

-- Where there is a proposal, it may be executed exactly when the contract is deployed, the
-- viewer is an admin or is marked as able to execute it, the votes for it reach its quorum, and
-- its status is `Passed`.
pub execute_gate-allowed_iff :
    (s : StateSnapshot) (g : GovernanceSnapshot)
    → s.governance ≡ some g
    → ((execute_gate s).allowed ≡ true) ↔ (
        (s.contract_deployed ≡ true)
        × ((is_true s.viewer_is_admin ≡ true) ⊎ (is_true g.viewer_can_execute ≡ true))
        × HasQuorum s g
        × (g.status ≡ passed))
execute_gate-allowed_iff s g e =
    let core = execute_gate_core s g e in
    let quorum_iff = quorum_met_iff s g e in
    (
      λ h. let (d, a, q, p) = core.0 h in (d, a, quorum_iff.0 q, p),
      λ (d, a, q, p). core.1 (d, a, quorum_iff.1 q, p),
    )

-- The proposal has no expiry, or expires now or later.
abbrev pub NotExpired : StateSnapshot → Option ℕ → Type 0
NotExpired s none = Unit
NotExpired s (some t) = s.now_secs ≤ t

vote_gate_core :
    (s : StateSnapshot) (g : GovernanceSnapshot)
    → s.governance ≡ some g
    → ((vote_gate s).allowed ≡ true) ↔ (
        (s.contract_deployed ≡ true)
        × (is_member s ≡ true)
        × (g.status ≡ open_for_votes)
        × (g.viewer_voted ≡ false)
        × NotExpired s g.expires_at_secs)
unfolding vote_gate
vote_gate_core s g e = ground arith

-- A vote may be cast exactly when the contract is deployed, the viewer is a member, the proposal
-- is open for votes, the viewer has not voted, and the proposal has not expired.
vote_gate-allowed_iff :
    (s : StateSnapshot) (g : GovernanceSnapshot)
    → s.governance ≡ some g
    → ((vote_gate s).allowed ≡ true) ↔ (
        (s.contract_deployed ≡ true)
        × IsMember s
        × (g.status ≡ open_for_votes)
        × (g.viewer_voted ≡ false)
        × NotExpired s g.expires_at_secs)
vote_gate-allowed_iff s g e =
    let core = vote_gate_core s g e in
    let member_iff = is_member_iff s in
    (
      λ h. let (d, m, o, v, x) = core.0 h in (d, member_iff.0 m, o, v, x),
      λ (d, m, o, v, x). core.1 (d, member_iff.1 m, o, v, x),
    )
