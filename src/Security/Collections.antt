-- ===== src/Security/Collections.antt =====
-- The `Set` and `Map` idioms of the rules (frontend/lib/security-rules.ts), in insertion order.
use joint_save.Prelude.{
  String, Option, none, some, List, [], ◌∷◌, ◌++◌, if◌then◌else◌, ◌≡◌, ◌≤◌, max, arith, eq_iff,
}
use joint_save.Prelude.Text.{str_eq, times}

abbrev pub without : String → List String → List String
without p [] = []
without p (x ∷ xs) = if str_eq x p then without p xs else x ∷ without p xs

-- `[...new Set(xs)]`: the first of each stays
abbrev pub distinct : List String → List String
distinct [] = []
distinct (x ∷ xs) = x ∷ without x (distinct xs)

-- `filter((w) => w !== null)` on texts that may be missing
abbrev pub present : List (Option String) → List String
present [] = []
present (none ∷ xs) = present xs
present (some x ∷ xs) = x ∷ present xs

module _ {ℓ} {A : Type ℓ} where
  -- `map.set(key, [...(map.get(key) ?? []), x])`
  abbrev pub push_at : String → A → List (String × List A) → List (String × List A)
  push_at k x [] = (k, x ∷ []) ∷ []
  push_at k x ((j, xs) ∷ m) = if str_eq j k then (j, xs ++ x ∷ []) ∷ m else (j, xs) ∷ push_at k x m

  abbrev pub group_from : (A → String) → List A → List (String × List A) → List (String × List A)
  group_from key [] m = m
  group_from key (x ∷ xs) m = group_from key xs (push_at (key x) x m)

  -- the map from keys to the elements that have them
  abbrev pub group_by : (A → String) → List A → List (String × List A)
  group_by key xs = group_from key xs []

  abbrev pub keys : List (String × List A) → List String
  keys [] = []
  keys ((k, xs) ∷ m) = k ∷ keys m

  times-push_at :
      (p k : String) (x : A) (m : List (String × List A))
      → times p (keys (push_at k x m))
        ≡ (if str_eq k p then max 1 (times p (keys m)) else times p (keys m))
  times-push_at p k x [] = ground arith
  times-push_at p k x ((j, xs) ∷ m) =
      ground (arith, times-push_at p k x m, eq_iff j k, eq_iff j p, eq_iff k p)

  -- every key is in the map once
  pub times-group_by :
      (p : String) (key : A → String) (xs : List A) (m : List (String × List A))
      → times p (keys m) ≤ 1
      → times p (keys (group_from key xs m)) ≤ 1
  times-group_by p key [] m h = h
  times-group_by p key (x ∷ xs) m h =
      times-group_by p key xs (push_at (key x) x m) (ground (arith, times-push_at p (key x) x m, h))

times-without :
    (p q : String) (xs : List String)
    → times p (without q xs) ≡ (if str_eq q p then 0 else times p xs)
times-without p q [] = ground arith
times-without p q (x ∷ xs) =
    ground (arith, times-without p q xs, eq_iff x q, eq_iff x p, eq_iff q p)

pub times-distinct : (p : String) (xs : List String) → times p (distinct xs) ≤ 1
times-distinct p [] = omega arith
times-distinct p (x ∷ xs) = ground (arith, times-distinct p xs, times-without p x (distinct xs))
