-- ===== src/Incident/Spending.antt =====
-- Which authorization is spent on a pause (frontend/lib/incident-response.ts).
use mathlib.Core.List.{Memᴰ, append-nil, append_assoc}
use mathlib.Core.Path.{subst}
use joint_save.Prelude.{
  ℕ, String, none, some, List, [], ◌∷◌, ◌++◌, ◌≡◌, ◌≤◌, ◌<◌, ◌+◌, ◌↔◌, refl, arith, eq_iff,
  Option-cases, inl, inr, All, All-weaken, head?,
}
use joint_save.Prelude.Text.{to_lower_case}
use joint_save.Prelude.Sort.{
  sort_by, All-sort_by, All-unsort, Respects, sort_by-IsSortedBy, IsSortedBy,
}
use joint_save.Incident.Authorization.{
  StoredPauseAuthorization, AuthorizationRejection, Expected, rejection_for, expires_before,
  partition, select_pause_authorization,
}

by_ledger : Respects expires_before (λ a. a.expiration_ledger)
by_ledger = record { yes_le = λ a b h. ground arith; no_le = λ a b h. ground arith }

head-All {κ} :
    (P : StoredPauseAuthorization → Type κ) (xs : List StoredPauseAuthorization)
    (a : StoredPauseAuthorization)
    → head? xs ≡ some a
    → All P xs
    → P a
head-All P [] a h k = absurd (cc)
head-All P (x ∷ xs) a h (p, k) = let e : x ≡ a = cc in subst P e p

head-least :
    (xs : List StoredPauseAuthorization) (a : StoredPauseAuthorization)
    → head? xs ≡ some a
    → IsSortedBy (λ b. b.expiration_ledger) xs
    → All (λ b. a.expiration_ledger ≤ b.expiration_ledger) xs
head-least [] a h k = tt
head-least (x ∷ xs) a h (p, k) =
    let e : x ≡ a = cc in
    subst (λ y. All (λ b. y.expiration_ledger ≤ b.expiration_ledger) (x ∷ xs)) e (omega arith, p)

head-none {κ} :
    (P : StoredPauseAuthorization → Type κ) (xs : List StoredPauseAuthorization)
    → head? xs ≡ none
    → All P xs
head-none P [] h = tt
head-none P (x ∷ xs) h = absurd (cc)

-- The authorization is unspent, unrevoked, for this contract and (whatever the case of its letters)
-- this admin, and stays valid for at least the margin of ledgers, and for one.
pub record IsUsable (now : ℕ) (want : Expected) (margin : ℕ) (a : StoredPauseAuthorization)
    : Type 0 where
  pub unused : a.used_at ≡ none
  pub unrevoked : a.revoked_at ≡ none
  pub contract : a.contract_address ≡ want.contract_address
  pub admin : to_lower_case a.admin_address ≡ to_lower_case want.admin_address
  pub later : now < a.expiration_ledger
  pub roomy : now + margin ≤ a.expiration_ledger

module _ (now : ℕ) (want : Expected) (margin : ℕ) where
  -- A candidate is passed over exactly when it is not usable.
  rejection_for-none_iff :
      (a : StoredPauseAuthorization)
      → (rejection_for a now want margin ≡ none) ↔ IsUsable now want margin a
  unfolding rejection_for
  rejection_for-none_iff a = ground (
    arith,
    eq_iff a.contract_address want.contract_address,
    eq_iff (to_lower_case a.admin_address) (to_lower_case want.admin_address),
  )

  -- The candidates that are passed over, each with its reason, and those that are not.
  abbrev pub rejections : List StoredPauseAuthorization → List (String × AuthorizationRejection)
  rejections [] = []
  rejections (a ∷ rest) = elim (rejection_for a now want margin) [
    | some why ↦ (a.id, why) ∷ rejections rest
    | none ↦ rejections rest
  ]

  abbrev pub usable_ones : List StoredPauseAuthorization → List StoredPauseAuthorization
  usable_ones [] = []
  usable_ones (a ∷ rest) = elim (rejection_for a now want margin) [
    | some why ↦ usable_ones rest
    | none ↦ a ∷ usable_ones rest
  ]

  partition_lem :
      (cs : List StoredPauseAuthorization) (rs : List (String × AuthorizationRejection))
      (us : List StoredPauseAuthorization)
      → partition now want margin cs rs us ≡ (rs ++ rejections cs, us ++ usable_ones cs)
  unfolding partition
  partition_lem [] rs us = simp append-nil
  partition_lem (a ∷ rest) rs us = elim (Option-cases (rejection_for a now want margin)) [
    | inl e ↦
        rw (e, partition, rejections, usable_ones)
          (simp append_assoc at (partition_lem rest rs (us ++ a ∷ [])))
    | inr (why, e) ↦
        rw (e, partition, rejections, usable_ones)
          (simp append_assoc at (partition_lem rest (rs ++ (a.id, why) ∷ []) us))
  ]

  usable_ones-listed :
      (cs : List StoredPauseAuthorization)
      → All (λ a. Memᴰ a cs × IsUsable now want margin a) (usable_ones cs)
  usable_ones-listed [] = tt
  usable_ones-listed (a ∷ rest) =
      let later =
        All-weaken {Q = λ b. Memᴰ b (a ∷ rest) × IsUsable now want margin b} (usable_ones rest)
          (λ b (m, u). (Memᴰ.tail m, u)) (usable_ones-listed rest) in
      elim (Option-cases (rejection_for a now want margin)) [
        | inl e ↦ rw (e, All) ((Memᴰ.head refl, (rejection_for-none_iff a).0 e), later)
        | inr (why, e) ↦ rw (e, All) later
      ]

  -- what holds of the usable ones holds of every candidate that is usable
  usable_ones-all {κ} :
      (P : StoredPauseAuthorization → Type κ) (cs : List StoredPauseAuthorization)
      → All P (usable_ones cs)
      → All (λ b. IsUsable now want margin b → P b) cs
  usable_ones-all P [] h = tt
  usable_ones-all P (a ∷ rest) h = elim (Option-cases (rejection_for a now want margin)) [
    | inl e ↦ let (p, k) = rw (e, All) at h in (λ u. p, usable_ones-all P rest k)
    | inr (why, e) ↦ (
      λ u. absurd (cc ((rejection_for-none_iff a).1 u)),
      usable_ones-all P rest (rw (e, All) at h),
    )
  ]

  -- The authorization is one of the candidates, is usable, and no usable candidate expires sooner.
  pub record IsBest (cs : List StoredPauseAuthorization) (a : StoredPauseAuthorization)
      : Type 0 where
    pub listed : Memᴰ a cs
    pub usable : IsUsable now want margin a
    pub soonest :
        All (λ b. IsUsable now want margin b → a.expiration_ledger ≤ b.expiration_ledger) cs

  IsBest-head :
      (cs : List StoredPauseAuthorization) (a : StoredPauseAuthorization)
      → head? (sort_by expires_before (usable_ones cs)) ≡ some a
      → IsBest cs a
  IsBest-head cs a h =
      let sorted = sort_by expires_before (usable_ones cs) in
      let found =
        head-All (λ b. Memᴰ b cs × IsUsable now want margin b) sorted a h
          (All-sort_by expires_before _ (usable_ones cs) (usable_ones-listed cs)) in
      let least =
        head-least sorted a h (sort_by-IsSortedBy expires_before _ by_ledger (usable_ones cs)) in
      record {
        listed = found.0;
        usable = found.1;
        soonest =
            usable_ones-all (λ b. a.expiration_ledger ≤ b.expiration_ledger) cs
              (All-unsort expires_before _ (usable_ones cs) least);
      }

  none-left :
      (cs : List StoredPauseAuthorization)
      → head? (sort_by expires_before (usable_ones cs)) ≡ none
      → All (λ b. ¬ IsUsable now want margin b) cs
  none-left cs h =
      usable_ones-all (λ b. ⊥) cs
        (All-unsort expires_before (λ b. ⊥) (usable_ones cs) (head-none (λ b. ⊥) _ h))

  -- Whatever candidates are stored, the choice is a usable candidate that expires no later than
  -- any other usable one, it is missing only where no candidate is usable, and the candidates passed over are listed in order with their reasons.
  pub select_pause_authorization-IsBest :
      (cs : List StoredPauseAuthorization)
      → let choice = select_pause_authorization cs now want margin in
        ((a : StoredPauseAuthorization) → choice.authorization ≡ some a → IsBest cs a)
        × (choice.authorization ≡ none → All (λ b. ¬ IsUsable now want margin b) cs)
        × (choice.rejected ≡ rejections cs)
  unfolding select_pause_authorization
  select_pause_authorization-IsBest cs =
      let split = partition_lem cs [] [] in rw split (IsBest-head cs, none-left cs, refl)
