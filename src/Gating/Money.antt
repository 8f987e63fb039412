-- ===== src/Gating/Money.antt =====
-- When money may move: the deposit, withdrawal and payout gates of sdk/src/gating/engine.ts against
-- a description of the states in which they open, condition by condition.
use mathlib.Core.List.{Memᴰ}
use joint_save.Prelude.{
  String, true, false, none, some, List, [], ◌∷◌, ◌≡◌, sym, ◌≢◌, ◌↔◌, ◌⊎◌, inl, inr, arith,
  Bool-cases, Option-cases, eq_iff, ◌≤◌, or_else,
}
use joint_save.Prelude.Int.{ℤ, pos, ◌≤ℤ◌, ◌<ℤ◌}
use joint_save.Prelude.Text.{includes, str_eq}
use joint_save.Gating.Types.{
  PoolType, rotational, target, flexible, PoolStatus, pending_deployment, active, StateSnapshot,
}
use joint_save.Gating.Engine.{
  is_true, is_member, viewer_balance, deployment_gate, active_pool_gate, deposit_gate,
  withdraw_gate,
}

-- The contract is deployed and the pool is neither archived nor paused, by its status or its flags.
pub record IsOpen (s : StateSnapshot) : Type 0 where
  pub deployed : s.contract_deployed ≡ true
  pub listed : s.status ≢ PoolStatus.archived
  pub unarchived : is_true s.archived ≡ false
  pub running : s.status ≢ PoolStatus.paused
  pub unpaused : is_true s.paused ≡ false

-- The viewer is known and is one of the members.
abbrev pub IsMember : StateSnapshot → Type 0
IsMember s = (v : String) × (s.viewer ≡ some v) × Memᴰ v s.members

includes_sound : (xs : List String) (v : String) → includes xs v ≡ true → Memᴰ v xs
includes_sound [] v h = absurd (cc)
includes_sound (x ∷ xs) v h = elim (Bool-cases (str_eq x v)) [
  | inl same ↦ Memᴰ.head (sym ((eq_iff x v).0 same))
  | inr other ↦ Memᴰ.tail (includes_sound xs v (ground arith))
]

includes_complete : (v : String) (xs : List String) → Memᴰ v xs → includes xs v ≡ true
includes_complete v _ (Memᴰ.head {x} {xs} e) = rw ((eq_iff x v).1 (sym e))
includes_complete v _ (Memᴰ.tail {x} {xs} m) = ground (arith, includes_complete v xs m)

-- The Boolean test of the source decides membership.
pub is_member_iff : (s : StateSnapshot) → (is_member s ≡ true) ↔ IsMember s
unfolding is_member
is_member_iff s = elim (Option-cases s.viewer) [
  | inl e ↦ (λ h. absurd (ground arith), λ m. absurd (cc (m.1)))
  | inr (v, e) ↦ (
    λ h. (v, e, includes_sound s.members v (rw e at h)),
    λ (w, e', m). rw e' (includes_complete w s.members m),
  )
]

pub deployment_gate-eq-none_iff : (s : StateSnapshot) → (deployment_gate s ≡ none) ↔ IsOpen s
unfolding deployment_gate
deployment_gate-eq-none_iff s = ground arith

-- What a pool of each type asks of a deposit beyond that.
abbrev pub DepositTerms : PoolType → StateSnapshot → Type 0
DepositTerms rotational s =
    (s.round.completed ≡ false) × (s.round.paid_out ≡ false) × (is_true s.has_deposited ≡ false)
DepositTerms target s =
    (s.round.completed ≡ false)
    × ((s.round.deadline_secs ≡ 0) ⊎ (s.now_secs ≤ s.round.deadline_secs))
    × (s.minimum_deposit ≤ℤ or_else s.requested_amount s.deposit_amount)
DepositTerms flexible s = s.minimum_deposit ≤ℤ or_else s.requested_amount s.deposit_amount

deposit_gate_core :
    (s : StateSnapshot)
    → ((deposit_gate s).allowed ≡ true) ↔ (
        (deployment_gate s ≡ none)
        × (s.status ≡ active)
        × (is_member s ≡ true)
        × DepositTerms s.pool_type s)
unfolding deposit_gate active_pool_gate
deposit_gate_core s = ground arith

-- A deposit is allowed exactly when the contract is deployed, the pool is active and not flagged
-- archived or paused, the viewer is a member, and the terms of the pool's type hold: in a
-- rotational pool the round is neither complete nor paid out and the viewer has not deposited; in
-- a target pool the round is not complete, the deadline, if there is one, has not passed, and the
-- amount reaches the minimum; in a flexible pool the amount reaches the minimum.
pub deposit_gate-allowed_iff :
    (s : StateSnapshot)
    → ((deposit_gate s).allowed ≡ true)
      ↔ (IsOpen s × (s.status ≡ active) × IsMember s × DepositTerms s.pool_type s)
deposit_gate-allowed_iff s =
    let core = deposit_gate_core s in
    let open_iff = deployment_gate-eq-none_iff s in
    let member_iff = is_member_iff s in
    (
      λ h. let (o, a, m, t) = core.0 h in (open_iff.0 o, a, member_iff.0 m, t),
      λ (o, a, m, t). core.1 (open_iff.1 o, a, member_iff.1 m, t),
    )

-- What the viewer asks for, and what can be paid at once: both default to the whole balance.
abbrev pub requested : StateSnapshot → ℤ
requested s = or_else s.requested_amount (viewer_balance s)

abbrev pub liquid : StateSnapshot → ℤ
liquid s = or_else s.liquid_balance (viewer_balance s)

-- The pool's type and state let members take money out.
abbrev pub WithdrawTerms : PoolType → PoolStatus → Type 0
WithdrawTerms rotational st = ⊥
WithdrawTerms target st = (st ≢ pending_deployment) × (st ≢ active)
WithdrawTerms flexible st = st ≢ pending_deployment

withdraw_gate_core :
    (s : StateSnapshot)
    → ((withdraw_gate s).allowed ≡ true) ↔ (
        (deployment_gate s ≡ none)
        × (is_member s ≡ true)
        × WithdrawTerms s.pool_type s.status
        × (pos 0 <ℤ viewer_balance s)
        × (requested s ≤ℤ viewer_balance s)
        × (requested s ≤ℤ liquid s))
unfolding withdraw_gate
withdraw_gate_core s = ground arith

-- A withdrawal is allowed exactly when the pool is open, the viewer is a member, the pool is
-- flexible and deployed or is a target pool that is no longer active, the viewer has a positive
-- balance, and the amount asked for exceeds neither the balance nor the liquid part of it.
pub withdraw_gate-allowed_iff :
    (s : StateSnapshot)
    → ((withdraw_gate s).allowed ≡ true) ↔ (
        IsOpen s
        × IsMember s
        × WithdrawTerms s.pool_type s.status
        × (pos 0 <ℤ viewer_balance s)
        × (requested s ≤ℤ viewer_balance s)
        × (requested s ≤ℤ liquid s))
withdraw_gate-allowed_iff s =
    let core = withdraw_gate_core s in
    let open_iff = deployment_gate-eq-none_iff s in
    let member_iff = is_member_iff s in
    (
      λ h. let (o, m, t, b, r, l) = core.0 h in (open_iff.0 o, member_iff.0 m, t, b, r, l),
      λ (o, m, t, b, r, l). core.1 (open_iff.1 o, member_iff.1 m, t, b, r, l),
    )
