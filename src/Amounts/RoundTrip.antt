-- ===== src/Amounts/RoundTrip.antt =====
-- Base units printed and read back (sdk/src/utils/amounts.ts).
use joint_save.Prelude.{
  ℕ, zero, suc, Bool, true, false, ◌||◌, none, some, [], ◌∷◌, ◌++◌, ◌+◌, ◌*◌, ◌/◌, ◌%◌, ◌^◌, ◌≡◌,
  ◌≤◌, ◌<◌, refl, sym, ap, ◌∙◌, if◌then◌else◌, ltb, ◌==◌, length, any, All, All-append, arith,
  Bool-cases, inl, inr,
}
use mathlib.Core.Path.{subst}
use mathlib.Core.List.{append-nil}
use native.Mathlib.Nat.{pow-zero, mod-lt, one-le-pow, div-add-mod'}
use joint_save.Prelude.Int.{ℤ, pos, negsuc}
use joint_save.Amounts.Digits.{
  Text, is_digit, IsDigit, to_text, value_from, value, pad_end, trim_zeros, pad_end-trim_zeros,
  trim_zeros-digits, keep_zero, value-to_text, to_text-digits, to_text-ne-nil, pad_start-to_text,
}
use joint_save.Amounts.Decimals.{
  is_blank, trim_left, keep_blank, trim_right, trimmed, span, after_point, after_whole,
  match_unsigned, sign_of, Cuts, span-append,
}
use joint_save.Amounts.Units.{
  decimals_ok, is_e, expand_exponential, drop_zeros, normalize_whole, with_sign, matched,
  parse_units, text_amount, amount_units, to_base_units, is_negative, absolute, fraction_of,
  split_units, point_before, minus, render, from_base_units,
}

-- the characters that are printed
abbrev pub is_printed : ℕ → Bool
is_printed c = is_digit c || (c == 45 || c == 46)

abbrev pub IsPrinted : ℕ → Type 0
IsPrinted c = is_printed c ≡ true

digits-IsPrinted : (s : Text) → All IsDigit s → All IsPrinted s
digits-IsPrinted [] h = tt
digits-IsPrinted (c ∷ s) (p, h) = (ground arith, digits-IsPrinted s h)

printed-no_e : (s : Text) → All IsPrinted s → any is_e s ≡ false
printed-no_e [] h = refl
printed-no_e (c ∷ s) (p, h) = ground (arith, printed-no_e s h)

trim_right-printed : (s : Text) → All IsPrinted s → trim_right s ≡ s
trim_right-printed [] h = refl
trim_right-printed (c ∷ s) (p, h) = ap (keep_blank c) (trim_right-printed s h) ∙ kept s
  where
    kept : (t : Text) → keep_blank c t ≡ c ∷ t
    kept [] = ground arith
    kept (d ∷ t) = refl

trimmed-printed : (s : Text) → All IsPrinted s → trimmed s ≡ s
unfolding trimmed
trimmed-printed [] h = refl
trimmed-printed (c ∷ s) (p, h) =
    ap trim_right (ap (λ t. if t then trim_left s else c ∷ s) (not_blank c p))
    ∙ trim_right-printed (c ∷ s) (p, h)
  where
    not_blank : (c : ℕ) → IsPrinted c → is_blank c ≡ false
    not_blank c p = ground arith

-- Reading takes no notice of leading zeros.
value-drop_zeros : (c : ℕ) (s : Text) → value (drop_zeros c s) ≡ value (c ∷ s)
value-drop_zeros c [] = refl
value-drop_zeros c (d ∷ s) = elim (Bool-cases (c == 48)) [
  | inl z ↦
      ap (λ t. value (if t then drop_zeros d s else c ∷ d ∷ s)) z
      ∙ value-drop_zeros d s
      ∙ ap (λ m. value_from m s) (ground arith)
  | inr n ↦ ap (λ t. value (if t then drop_zeros d s else c ∷ d ∷ s)) n
]

pub value-normalize_whole : (s : Text) → value (normalize_whole s) ≡ value s
value-normalize_whole [] = refl
value-normalize_whole (c ∷ s) = value-drop_zeros c s

length-trim_zeros : (s : Text) → length (trim_zeros s) ≤ length s
unfolding trim_zeros
length-trim_zeros [] = omega arith
length-trim_zeros (c ∷ s) = step (trim_zeros s) (length-trim_zeros s)
  where
    step : (t : Text) → length t ≤ length s → length (keep_zero c t) ≤ suc (length s)
    step [] h = ground arith
    step (d ∷ t) h = omega arith

point_before-Cuts : (t : Text) → Cuts (point_before t)
point_before-Cuts [] = tt
point_before-Cuts (c ∷ t) = refl

-- digits with an optional fraction are taken apart as they were put together
pub match_unsigned-render :
    (c : ℕ) (w t : Text)
    → All IsDigit (c ∷ w)
    → All IsDigit t
    → match_unsigned (c ∷ (w ++ point_before t)) ≡ some (c ∷ w, t)
unfolding match_unsigned
match_unsigned-render c w [] h k = ap after_whole (span-append (c ∷ w) [] h tt)
match_unsigned-render c w (d ∷ t) h k =
    ap after_whole (span-append (c ∷ w) (46 ∷ d ∷ t) h refl)
    ∙ ap (after_point (c ∷ w)) (ap span (sym (append-nil (d ∷ t))) ∙ span-append (d ∷ t) [] k tt)

pub sign_of-render :
    (negative : Bool) (c : ℕ) (s : Text)
    → IsDigit c
    → sign_of (minus negative ++ (c ∷ s)) ≡ (negative, c ∷ s)
sign_of-render true c s h = refl
sign_of-render false c s h = ground arith

pub fits : (frac : Text) (d : ℕ) → length frac ≡ d → ltb d (length (trim_zeros frac)) ≡ false
fits frac d len = ground (arith, length-trim_zeros frac)

pub padded : (frac : Text) (d : ℕ) → length frac ≡ d → pad_end d (trim_zeros frac) ≡ frac
padded frac d len = ap (λ m. pad_end m (trim_zeros frac)) (sym len) ∙ pad_end-trim_zeros frac

parse_units-render :
    (negative : Bool) (c : ℕ) (w frac : Text) (d : ℕ)
    → All IsDigit (c ∷ w)
    → All IsDigit frac
    → length frac ≡ d
    → parse_units (render negative (c ∷ w) frac) d
      ≡ some (with_sign negative (value (c ∷ w) * 10 ^ d + value frac))
unfolding parse_units
parse_units-render negative c w frac d h k len =
    let t = trim_zeros frac in
    ap (λ p. matched d p.0 (match_unsigned p.1))
      (sign_of-render negative c (w ++ point_before t) h.0)
    ∙ ap (matched d negative) (match_unsigned-render c w t h (trim_zeros-digits frac k))
    ∙ ap
        (λ b.
          if b
          then none
          else some
              (with_sign negative (value (normalize_whole (c ∷ w)) * 10 ^ d + value (pad_end d t))))
        (fits frac d len)
    ∙ ap (λ n. some (with_sign negative (n * 10 ^ d + value (pad_end d t))))
        (value-normalize_whole (c ∷ w))
    ∙ ap (λ x. some (with_sign negative (value (c ∷ w) * 10 ^ d + value x))) (padded frac d len)

-- a whole part that is printed, as a digit and the rest
pub to_text-cons : (n : ℕ) → (c : ℕ) × (w : Text) × (to_text n ≡ c ∷ w)
to_text-cons n = split (to_text n) (to_text-ne-nil n)
  where
    split : (t : Text) → 1 ≤ length t → (c : ℕ) × (w : Text) × (t ≡ c ∷ w)
    split [] h = absurd (omega arith)
    split (c ∷ w) h = (c, w, refl)

pow-pos : (d : ℕ) → 0 < 10 ^ d
pow-pos d = one-le-pow d 10 (omega arith)

fraction_of-lem :
    (n d : ℕ)
    → (value (fraction_of n d) ≡ n % 10 ^ d)
      × (length (fraction_of n d) ≡ d)
      × All IsDigit (fraction_of n d)
fraction_of-lem n zero = (ground (arith, pow-zero 10), refl, tt)
fraction_of-lem n (suc d) = pad_start-to_text (n % 10 ^ suc d) d (mod-lt n (pow-pos (suc d)))

-- a rendered amount has no character but digits, a point and a minus
render-IsPrinted :
    (negative : Bool) (whole frac : Text)
    → All IsDigit whole
    → All IsDigit frac
    → All IsPrinted (render negative whole frac)
render-IsPrinted negative whole frac h k =
    minus-printed negative (whole ++ point_before (trim_zeros frac)) (
      All-append IsPrinted whole (point_before (trim_zeros frac)) (digits-IsPrinted whole h)
        (point-printed (trim_zeros frac) (trim_zeros-digits frac k)))
  where
    minus-printed : (b : Bool) (s : Text) → All IsPrinted s → All IsPrinted (minus b ++ s)
    minus-printed true s h = (refl, h)
    minus-printed false s h = h

    point-printed : (t : Text) → All IsDigit t → All IsPrinted (point_before t)
    point-printed [] h = tt
    point-printed (c ∷ t) h = (refl, digits-IsPrinted (c ∷ t) h)

with_sign-absolute : (n : ℤ) → with_sign (is_negative n) (absolute n) ≡ n
with_sign-absolute (pos n) = ground arith
with_sign-absolute (negsuc n) = ground arith

expand_exponential-printed : (s : Text) → All IsPrinted s → expand_exponential s ≡ s
unfolding expand_exponential
expand_exponential-printed s h = ground (arith, printed-no_e s h)

to_base_units-render :
    (negative : Bool) (c : ℕ) (w frac : Text) (d : ℕ)
    → decimals_ok d ≡ true
    → All IsDigit (c ∷ w)
    → All IsDigit frac
    → length frac ≡ d
    → to_base_units (text_amount (render negative (c ∷ w) frac)) d
      ≡ some (with_sign negative (value (c ∷ w) * 10 ^ d + value frac))
unfolding to_base_units
to_base_units-render negative c w frac d ok h k len =
    let s = render negative (c ∷ w) frac in
    let printed = render-IsPrinted negative (c ∷ w) frac h k in
    ap (λ b. if b then amount_units (text_amount s) d else none) ok
    ∙ ap (λ t. parse_units (expand_exponential t) d) (trimmed-printed s printed)
    ∙ ap (λ t. parse_units t d) (expand_exponential-printed s printed)
    ∙ parse_units-render negative c w frac d h k len

-- the number taken apart at the point and put together again
split-value : (n d : ℕ) → value (to_text (n / 10 ^ d)) * 10 ^ d + value (fraction_of n d) ≡ n
split-value n d =
    ap (λ m. m * 10 ^ d + value (fraction_of n d)) (value-to_text (n / 10 ^ d))
    ∙ ap (λ m. n / 10 ^ d * 10 ^ d + m) (fraction_of-lem n d).0
    ∙ div-add-mod' n (10 ^ d)

pub to_base_units-printed :
    (units : ℤ) (d : ℕ)
    → decimals_ok d ≡ true
    → to_base_units
        (text_amount (
          render
            (is_negative units)
            (to_text (absolute units / 10 ^ d))
            (fraction_of (absolute units) d)))
        d
      ≡ some units
to_base_units-printed units d ok =
    let n = absolute units in
    let frac = fraction_of n d in
    let b = is_negative units in
    let (c, w, e) = to_text-cons (n / 10 ^ d) in
    ap (λ t. to_base_units (text_amount (render b t frac)) d) e
    ∙ to_base_units-render b c w frac d ok (subst (All IsDigit) e (to_text-digits (n / 10 ^ d)))
        (fraction_of-lem n d).2 (fraction_of-lem n d).1
    ∙ ap (λ t. some (with_sign b (value t * 10 ^ d + value frac))) (sym e)
    ∙ ap (λ m. some (with_sign b m)) (split-value n d)
    ∙ ap some (with_sign-absolute units)

-- Whatever base units are printed as reads back as the same base units.
pub to_base_units-from_base_units :
    (units : ℤ) (d : ℕ) (t : Text)
    → from_base_units units d ≡ some t
    → to_base_units (text_amount t) d ≡ some units
unfolding from_base_units split_units
to_base_units-from_base_units units d t h = elim (Bool-cases (decimals_ok d)) [
  | inl ok ↦
      ap (λ s. to_base_units (text_amount s) d) (ground (arith, ok, h))
      ∙ to_base_units-printed units d ok
  | inr bad ↦ absurd (ground (arith, bad, h))
]
