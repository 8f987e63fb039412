-- ===== src/Amounts/Digits.antt =====
-- Digits as character codes, as `toString`, `BigInt`, `padStart`, `padEnd` and `replace(/0+$/, "")`
-- read and write them.
use joint_save.Prelude.{
  ℕ, zero, suc, Bool, true, false, ◌&&◌, List, [], ◌∷◌, ◌++◌, ◌+◌, ◌-◌, ◌*◌, ◌/◌, ◌%◌, ◌^◌, ◌≡◌,
  ◌≤◌, ◌<◌, refl, ap, if◌then◌else◌, ltb, leb, ◌==◌, arith, length, All, Bool-cases, inl, inr, sym,
  ◌∙◌,
}
use mathlib.Core.List.{foldl}
use mathlib.Core.Path.{subst}
use native.Mathlib.Nat.{div-lt_iff_lt-mul, pow-suc, pow-zero}

abbrev pub Text : Type 0
Text = List ℕ

-- each round divides by ten, so one round more than the number is enough
unfoldable pub digits_from : ℕ → ℕ → Text → Text
digits_from zero n tail = tail
digits_from (suc k) n tail = elim (ltb n 10) [
  | true ↦ (48 + n) ∷ tail
  | false ↦ digits_from k (n / 10) ((48 + n % 10) ∷ tail)
]

-- `n.toString()`
unfoldable pub to_text : ℕ → Text
unfolding digits_from
to_text n = digits_from (suc n) n []

-- the number that digits spell behind `n`
abbrev pub value_from : ℕ → Text → ℕ
value_from = foldl (λ n c. n * 10 + (c - 48))

-- `BigInt(text)` of digits
abbrev pub value : Text → ℕ
value = value_from 0

abbrev pub is_digit : ℕ → Bool
is_digit c = leb 48 c && leb c 57

abbrev pub IsDigit : ℕ → Type 0
IsDigit c = is_digit c ≡ true

abbrev pub zeros : ℕ → Text
zeros zero = []
zeros (suc n) = 48 ∷ zeros n

-- `text.padStart(n, "0")` and `text.padEnd(n, "0")`
abbrev pub pad_start : ℕ → Text → Text
pad_start n s = zeros (n - length s) ++ s

abbrev pub pad_end : ℕ → Text → Text
pad_end zero s = s
pad_end (suc n) [] = 48 ∷ pad_end n []
pad_end (suc n) (c ∷ s) = c ∷ pad_end n s

-- a zero is kept only before what is kept
abbrev pub keep_zero : ℕ → Text → Text
keep_zero c [] = if c == 48 then [] else c ∷ []
keep_zero c (d ∷ s) = c ∷ d ∷ s

-- `text.replace(/0+$/, "")`
unfoldable pub trim_zeros : Text → Text
trim_zeros [] = []
trim_zeros (c ∷ s) = keep_zero c (trim_zeros s)

pub pad_end-trim_zeros : (s : Text) → pad_end (length s) (trim_zeros s) ≡ s
unfolding trim_zeros
pad_end-trim_zeros [] = refl
pad_end-trim_zeros (c ∷ s) = step (trim_zeros s) (pad_end-trim_zeros s)
  where
    step : (t : Text) → pad_end (length s) t ≡ s → pad_end (suc (length s)) (keep_zero c t) ≡ c ∷ s
    step [] h = ground arith
    step (d ∷ t) h = ap (λ r. c ∷ r) h

pub trim_zeros-digits : (s : Text) → All IsDigit s → All IsDigit (trim_zeros s)
unfolding trim_zeros
trim_zeros-digits [] h = tt
trim_zeros-digits (c ∷ s) (p, h) = step (trim_zeros s) (trim_zeros-digits s h)
  where
    step : (t : Text) → All IsDigit t → All IsDigit (keep_zero c t)
    step [] k = ground arith
    step (d ∷ t) k = (p, k)

low_digit : (k n : ℕ) (tail : Text) → ltb n 10 ≡ true → digits_from (suc k) n tail ≡ (48 + n) ∷ tail
unfolding digits_from
low_digit k n tail h = ground arith

high_digit :
    (k n : ℕ) (tail : Text)
    → ltb n 10 ≡ false
    → digits_from (suc k) n tail ≡ digits_from k (n / 10) ((48 + n % 10) ∷ tail)
unfolding digits_from
high_digit k n tail h = ground arith

value_from-digits_from :
    (k n : ℕ) (tail : Text) → n ≤ k → value (digits_from (suc k) n tail) ≡ value_from n tail
value_from-digits_from zero n tail h =
    ap value (low_digit 0 n tail (ground arith)) ∙ ap (λ m. value_from m tail) (omega arith)
value_from-digits_from (suc k) n tail h = elim (Bool-cases (ltb n 10)) [
  | inl low ↦ ap value (low_digit (suc k) n tail low) ∙ ap (λ m. value_from m tail) (omega arith)
  | inr high ↦
      ap value (high_digit (suc k) n tail high)
      ∙ value_from-digits_from k (n / 10) ((48 + n % 10) ∷ tail) (ground arith)
      ∙ ap (λ m. value_from m tail) (omega arith)
]

-- Printing keeps the value.
pub value-to_text : (n : ℕ) → value (to_text n) ≡ n
unfolding to_text
value-to_text n = value_from-digits_from n n [] (omega arith)

digits_from-digits :
    (k n : ℕ) (tail : Text) → n ≤ k → All IsDigit tail → All IsDigit (digits_from (suc k) n tail)
digits_from-digits zero n tail h t =
    subst (All IsDigit) (sym (low_digit 0 n tail (ground arith))) (ground arith, t)
digits_from-digits (suc k) n tail h t = elim (Bool-cases (ltb n 10)) [
  | inl low ↦ subst (All IsDigit) (sym (low_digit (suc k) n tail low)) (ground arith, t)
  | inr high ↦
      subst (All IsDigit) (sym (high_digit (suc k) n tail high))
        (digits_from-digits k (n / 10) ((48 + n % 10) ∷ tail) (ground arith) (ground arith, t))
]

pub to_text-digits : (n : ℕ) → All IsDigit (to_text n)
unfolding to_text
to_text-digits n = digits_from-digits n n [] (omega arith) tt

tenth-lt-pow : (n d : ℕ) → n < 10 ^ suc (suc d) → n / 10 < 10 ^ suc d
tenth-lt-pow n d h =
    (div-lt_iff_lt-mul {k = 10} {y = 10 ^ suc d} (omega arith)).1
      (omega (arith, pow-suc 10 (suc d)))

length-digits_from :
    (k n d : ℕ) (tail : Text)
    → n ≤ k
    → n < 10 ^ suc d
    → length (digits_from (suc k) n tail) ≤ suc d + length tail
length-digits_from zero n d tail h b = omega (arith, ap length (low_digit 0 n tail (ground arith)))
length-digits_from (suc k) n zero tail h b =
    omega (arith, ap length (low_digit (suc k) n tail (ground (arith, pow-suc 10 0, pow-zero 10))))
length-digits_from (suc k) n (suc d) tail h b = elim (Bool-cases (ltb n 10)) [
  | inl low ↦ omega (arith, ap length (low_digit (suc k) n tail low))
  | inr high ↦ omega (
    arith,
    ap length (high_digit (suc k) n tail high),
    length-digits_from k (n / 10) d ((48 + n % 10) ∷ tail) (ground arith) (tenth-lt-pow n d b),
  )
]

-- A number below 10 ^ d has at most d digits, if d is not zero.
pub length-to_text : (n d : ℕ) → n < 10 ^ suc d → length (to_text n) ≤ suc d
unfolding to_text
length-to_text n d h = omega (arith, length-digits_from n n d [] (omega arith) h)

le-digits_from : (k n : ℕ) (tail : Text) → length tail ≤ length (digits_from k n tail)
unfolding digits_from
le-digits_from zero n tail = omega arith
le-digits_from (suc k) n tail = ground (arith, le-digits_from k (n / 10) ((48 + n % 10) ∷ tail))

pub to_text-ne-nil : (n : ℕ) → 1 ≤ length (to_text n)
unfolding to_text
to_text-ne-nil n = elim (Bool-cases (ltb n 10)) [
  | inl low ↦ omega (arith, ap length (low_digit n n [] low))
  | inr high ↦
      omega
        (arith, ap length (high_digit n n [] high), le-digits_from n (n / 10) ((48 + n % 10) ∷ []))
]

zeros-digits : (n : ℕ) (s : Text) → All IsDigit s → All IsDigit (zeros n ++ s)
zeros-digits zero s h = h
zeros-digits (suc n) s h = (refl, zeros-digits n s h)

value-zeros : (n : ℕ) (s : Text) → value (zeros n ++ s) ≡ value s
value-zeros zero s = refl
value-zeros (suc n) s = ap (λ m. value_from m (zeros n ++ s)) (omega arith) ∙ value-zeros n s

length-zeros : (n : ℕ) (s : Text) → length (zeros n ++ s) ≡ n + length s
length-zeros zero s = omega arith
length-zeros (suc n) s = omega (arith, length-zeros n s)

-- A number below 10 ^ d, padded to d digits.
pub pad_start-to_text :
    (n d : ℕ)
    → n < 10 ^ suc d
    → (value (pad_start (suc d) (to_text n)) ≡ n)
      × (length (pad_start (suc d) (to_text n)) ≡ suc d)
      × All IsDigit (pad_start (suc d) (to_text n))
pad_start-to_text n d h =
    let t = to_text n in
    (
      value-zeros (suc d - length t) t ∙ value-to_text n,
      omega (arith, length-zeros (suc d - length t) t, length-to_text n d h),
      zeros-digits (suc d - length t) t (to_text-digits n),
    )
