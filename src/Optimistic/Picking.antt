-- ===== src/Optimistic/Picking.antt =====
-- One element taken out of a list: the timeout that fires, the request that is answered
-- (frontend/hooks/useOptimisticTransactions.ts).
use joint_save.Prelude.{
  ℕ, zero, suc, Bool, some, List, [], ◌∷◌, ◌+◌, ◌||◌, ◌≡◌, arith, sym, ap, ◌∙◌, any, All, inl, inr,
  Option-cases, or_else,
}
use mathlib.Core.Path.{subst}
use joint_save.Optimistic.Manager.{beside, pick}
use joint_save.Prelude.Sort.{sum_by}

module _ {ℓ} {A : Type ℓ} where
  pub any-pick :
      (p : A → Bool) (n : ℕ) (xs ys : List A) (x : A)
      → pick n xs ≡ some (x, ys)
      → any p xs ≡ (p x || any p ys)
  any-pick p n [] ys x h = absurd (ground (arith, h))
  any-pick p zero (z ∷ zs) ys x h = ground (arith, h)
  any-pick p (suc n) (z ∷ zs) ys x h = elim (Option-cases (pick n zs)) [
    | inl e ↦ absurd (ground (arith, ap (beside z) (sym e) ∙ h))
    | inr ((y, rest), e) ↦
        let same = ap (beside z) (sym e) ∙ h in ground (arith, any-pick p n zs rest y e, same)
  ]

  pub All-pick {κ} :
      (P : A → Type κ) (n : ℕ) (xs ys : List A) (x : A)
      → pick n xs ≡ some (x, ys)
      → All P xs
      → P x × All P ys
  All-pick P n [] ys x h k = absurd (ground (arith, h))
  All-pick P zero (z ∷ zs) ys x h k =
      subst (λ q. P q.0 × All P q.1) (ap (λ o. or_else o (z, zs)) h) k
  All-pick P (suc n) (z ∷ zs) ys x h (p, k) = elim (Option-cases (pick n zs)) [
    | inl e ↦ absurd (ground (arith, ap (beside z) (sym e) ∙ h))
    | inr ((y, rest), e) ↦
        let same = ap (beside z) (sym e) ∙ h in
        let (q, r) = All-pick P n zs rest y e k in
        subst (λ q. P q.0 × All P q.1) (ap (λ o. or_else o (z, zs)) same) (q, (p, r))
  ]

  module _ (f : A → ℕ) where
    pub sum_by-pick :
        (n : ℕ) (xs ys : List A) (x : A)
        → pick n xs ≡ some (x, ys)
        → f x + sum_by f ys ≡ sum_by f xs
    sum_by-pick n [] ys x h = absurd (ground (arith, h))
    sum_by-pick zero (z ∷ zs) ys x h = ground (arith, h)
    sum_by-pick (suc n) (z ∷ zs) ys x h = elim (Option-cases (pick n zs)) [
      | inl e ↦ absurd (ground (arith, ap (beside z) (sym e) ∙ h))
      | inr ((y, rest), e) ↦
          let same = ap (beside z) (sym e) ∙ h in ground (arith, sum_by-pick n zs rest y e, same)
    ]
