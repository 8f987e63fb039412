-- ===== src/Prelude/Sort.antt =====
-- `array.sort(compare)`, which is stable: an insertion sort by the test that `compare(a, b)` is
-- negative. The source's comparators are orders, for which every stable sort gives this result.
use Prim.Native.Nat.{ℕ, ◌+◌, ◌≤◌}
use mathlib.Core.Path.{◌≡◌, refl}
use mathlib.Core.Bool.{Bool, true, false}
use mathlib.Core.List.{List, [], ◌∷◌}
use mathlib.Core.Logic.{inl, inr}
use native.Mathlib.Omega.{arith}
use joint_save.Prelude.Tests.{if◌then◌else◌, Bool-cases}
use joint_save.Prelude.Lists.{All}

module _ {ℓ} {A : Type ℓ} where
  -- the sum of a measure over a list
  abbrev pub sum_by : (A → ℕ) → List A → ℕ
  sum_by f [] = 0
  sum_by f (x ∷ xs) = f x + sum_by f xs

  unfoldable pub insert_by : (A → A → Bool) → A → List A → List A
  insert_by before x [] = x ∷ []
  insert_by before x (y ∷ ys) = if before y x then y ∷ insert_by before x ys else x ∷ y ∷ ys

  unfoldable pub sort_by : (A → A → Bool) → List A → List A
  unfolding insert_by
  sort_by before [] = []
  sort_by before (x ∷ xs) = insert_by before x (sort_by before xs)

module _ {ℓ} {A : Type ℓ} (before : A → A → Bool) where
  sum_by-insert_by :
      (f : A → ℕ) (x : A) (ys : List A) → sum_by f (insert_by before x ys) ≡ f x + sum_by f ys
  unfolding insert_by
  sum_by-insert_by f x [] = refl
  sum_by-insert_by f x (y ∷ ys) = ground (arith, sum_by-insert_by f x ys)

  -- Sorting rearranges: every measure has the same sum.
  pub sum_by-sort_by : (f : A → ℕ) (xs : List A) → sum_by f (sort_by before xs) ≡ sum_by f xs
  unfolding sort_by
  sum_by-sort_by f [] = refl
  sum_by-sort_by f (x ∷ xs) =
      omega (arith, sum_by-insert_by f x (sort_by before xs), sum_by-sort_by f xs)

  module _ {κ} (P : A → Type κ) where
    pub All-insert_by : (x : A) (ys : List A) → P x → All P ys → All P (insert_by before x ys)
    unfolding insert_by
    All-insert_by x [] p h = (p, tt)
    All-insert_by x (y ∷ ys) p (q, h) = elim (Bool-cases (before y x)) [
      | inl e ↦ rw e (q, All-insert_by x ys p h)
      | inr e ↦ rw e (p, (q, h))
    ]

    pub All-sort_by : (xs : List A) → All P xs → All P (sort_by before xs)
    unfolding sort_by
    All-sort_by [] h = tt
    All-sort_by (x ∷ xs) (p, h) = All-insert_by x (sort_by before xs) p (All-sort_by xs h)

module _ {ℓ κ} {A : Type ℓ} (before : A → A → Bool) (P : A → Type κ) where
  All-insert_by_inv : (x : A) (ys : List A) → All P (insert_by before x ys) → P x × All P ys
  unfolding insert_by
  All-insert_by_inv x [] h = h
  All-insert_by_inv x (y ∷ ys) h = elim (Bool-cases (before y x)) [
    | inl e ↦ let (q, k) = rw e at h in let (p, r) = All-insert_by_inv x ys k in (p, (q, r))
    | inr e ↦ let (p, k) = rw e at h in (p, k)
  ]

  -- What holds of the sorted list holds of the list.
  pub All-unsort : (xs : List A) → All P (sort_by before xs) → All P xs
  unfolding sort_by
  All-unsort [] h = tt
  All-unsort (x ∷ xs) h =
      let (p, k) = All-insert_by_inv x (sort_by before xs) h in (p, All-unsort xs k)

-- A test that never contradicts a numeric key sorts by that key.
pub record Respects {ℓ} {A : Type ℓ} (before : A → A → Bool) (key : A → ℕ) : Type ℓ where
  pub yes_le : (a b : A) → before a b ≡ true → key a ≤ key b
  pub no_le : (a b : A) → before a b ≡ false → key b ≤ key a

module _ {ℓ} {A : Type ℓ} (key : A → ℕ) where
  abbrev pub IsSortedBy : List A → Type 0
  IsSortedBy [] = Unit
  IsSortedBy (x ∷ xs) = All (λ y. key x ≤ key y) xs × IsSortedBy xs

module _ {ℓ} {A : Type ℓ} (before : A → A → Bool) (key : A → ℕ) (r : Respects before key) where
  All-above :
      (x y : A) (ys : List A)
      → key x ≤ key y
      → All (λ z. key y ≤ key z) ys
      → All (λ z. key x ≤ key z) ys
  All-above x y [] h k = tt
  All-above x y (z ∷ zs) h (p, k) = (omega arith, All-above x y zs h k)

  insert_by-IsSortedBy :
      (x : A) (ys : List A) → IsSortedBy key ys → IsSortedBy key (insert_by before x ys)
  unfolding insert_by
  insert_by-IsSortedBy x [] h = (tt, tt)
  insert_by-IsSortedBy x (y ∷ ys) (p, h) = elim (Bool-cases (before y x)) [
    | inl e ↦ rw e (
      All-insert_by before (λ z. key y ≤ key z) x ys (r.yes_le y x e) p,
      insert_by-IsSortedBy x ys h,
    )
    | inr e ↦ let le = r.no_le y x e in rw e ((le, All-above x y ys le p), (p, h))
  ]

  pub sort_by-IsSortedBy : (xs : List A) → IsSortedBy key (sort_by before xs)
  unfolding sort_by
  sort_by-IsSortedBy [] = tt
  sort_by-IsSortedBy (x ∷ xs) = insert_by-IsSortedBy x (sort_by before xs) (sort_by-IsSortedBy xs)
