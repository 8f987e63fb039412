-- ===== src/BatchDeposit/Chunks.antt =====
-- The batches of a run (chunk of frontend/lib/batch-deposit.ts).
use joint_save.Prelude.{
  ℕ, zero, suc, none, some, List, [], ◌∷◌, ◌++◌, ◌≡◌, ◌≤◌, refl, arith, ap, ◌∙◌, ◌⊎◌, inl, inr,
  length, take, drop, take-append-drop, length-take, length-drop,
}
use joint_save.BatchDeposit.Pools.{chunk_rounds, chunk}

module _ {ℓ} {A : Type ℓ} where
  -- `batches.flat()`
  abbrev pub flat : List (List A) → List A
  flat [] = []
  flat (xs ∷ rest) = xs ++ flat rest

  -- full batches, then one with what is left
  abbrev pub IsFilled : ℕ → List (List A) → Type 0
  IsFilled size [] = Unit
  IsFilled size (xs ∷ []) = (1 ≤ length xs) × (length xs ≤ size)
  IsFilled size (xs ∷ ys ∷ rest) = (length xs ≡ size) × IsFilled size (ys ∷ rest)

  pub flat-chunk_rounds :
      (n size : ℕ) (xs : List A) → 1 ≤ size → length xs ≤ n → flat (chunk_rounds n size xs) ≡ xs
  unfolding chunk_rounds
  flat-chunk_rounds zero size [] h k = refl
  flat-chunk_rounds zero size (x ∷ xs) h k = absurd (omega arith)
  flat-chunk_rounds (suc n) size [] h k = refl
  flat-chunk_rounds (suc n) size (x ∷ xs) h k =
      ap (λ r. take size (x ∷ xs) ++ r)
        (flat-chunk_rounds n size (drop size (x ∷ xs)) h (omega (arith, length-drop size (x ∷ xs))))
      ∙ take-append-drop size (x ∷ xs)

  IsFilled-cons :
      (n size : ℕ) (xs ys : List A)
      → 1 ≤ length xs
      → length xs ≤ size
      → (1 ≤ length ys → length xs ≡ size)
      → IsFilled size (chunk_rounds n size ys)
      → IsFilled size (xs ∷ chunk_rounds n size ys)
  unfolding chunk_rounds
  IsFilled-cons zero size xs ys p q r h = (p, q)
  IsFilled-cons (suc n) size xs [] p q r h = (p, q)
  IsFilled-cons (suc n) size xs (y ∷ ys) p q r h = (r (omega arith), h)

  IsFilled-chunk_rounds :
      (n size : ℕ) (xs : List A) → 1 ≤ size → length xs ≤ n → IsFilled size (chunk_rounds n size xs)
  unfolding chunk_rounds
  IsFilled-chunk_rounds zero size xs h k = tt
  IsFilled-chunk_rounds (suc n) size [] h k = tt
  IsFilled-chunk_rounds (suc n) size (x ∷ xs) h k =
      let all = x ∷ xs in
      let taken = length-take size all in
      let left = length-drop size all in
      IsFilled-cons n size (take size all) (drop size all) (omega arith) (omega arith)
        (λ some_left. omega arith) (IsFilled-chunk_rounds n size (drop size all) h (omega arith))

  -- A size of at least one splits a list into batches that put together are the list again, in its
  -- order: no deposit is lost or repeated. Every batch but the last has exactly that size, and the
  -- last has between one item and that size. A size of zero is refused.
  pub chunk_lem :
      (xs : List A) (size : ℕ)
      → ((size ≡ 0) × (chunk xs size ≡ none))
        ⊎ ((batches : List (List A)) × (chunk xs size ≡ some batches)
            × (flat batches ≡ xs)
            × IsFilled size batches)
  unfolding chunk
  chunk_lem xs zero = inl (refl, refl)
  chunk_lem xs (suc s) = inr (
    chunk_rounds (length xs) (suc s) xs,
    ground arith,
    flat-chunk_rounds (length xs) (suc s) xs (omega arith) (omega arith),
    IsFilled-chunk_rounds (length xs) (suc s) xs (omega arith) (omega arith),
  )
