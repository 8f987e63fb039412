-- ===== src/Amounts/Agreement.antt =====
-- The conversions of the bridge and of governance (frontend/lib/cctp-bridge.ts,
-- frontend/lib/governance.ts) beside those of the SDK (sdk/src/utils/amounts.ts).
use joint_save.Prelude.{
  ℕ, zero, suc, Bool, true, false, Option, none, some, [], ◌∷◌, ◌++◌, ◌+◌, ◌*◌, ◌/◌, ◌%◌, ◌^◌, ◌≡◌,
  refl, sym, ap, ◌∙◌, if◌then◌else◌, ltb, ◌==◌, length, any, arith, Bool-cases, inl, inr,
}
use native.Mathlib.Nat.{pow-zero}
use mathlib.Core.List.{append-nil, append_assoc}
use joint_save.Prelude.Int.{ℤ}
use joint_save.Amounts.Digits.{
  Text, is_digit, to_text, value, pad_start, pad_end, trim_zeros, digits_from,
}
use joint_save.Amounts.Decimals.{span, cut, match_unsigned, after_whole, after_point, sign_of}
use joint_save.Amounts.Units.{
  decimals_ok, is_e, expand_exponential, with_sign, units_of, matched, parse_units, Amount,
  text_amount, number_amount, amount_units, to_base_units, is_negative, absolute, minus,
  point_before, rendered, fraction_of, split_units, render, from_base_units,
}
use joint_save.Amounts.Frontend.{
  UsdcAmount, usdc_text, usdc_number, raw_usdc, with_fraction, strict_fraction, strict_whole,
  minus_of, usdc_units, usdc_human_to_base, usdc_base_to_human, format_base_units,
}
use joint_save.Amounts.RoundTrip.{value-normalize_whole}

-- no fraction is printed of a whole number of units
no_fraction : (n : ℕ) → trim_zeros (pad_start 0 (to_text (n % 10 ^ 0))) ≡ []
unfolding trim_zeros to_text digits_from
no_fraction n = ap (λ m. trim_zeros (pad_start 0 (to_text m))) none_left
  where
    none_left : n % 10 ^ 0 ≡ 0
    none_left = ground (arith, pow-zero 10)

render-fraction :
    (b : Bool) (whole : Text) (n d : ℕ)
    → render b whole (fraction_of n d) ≡ render b whole (pad_start d (to_text (n % 10 ^ d)))
unfolding trim_zeros
render-fraction b whole n zero =
    ap (λ t. minus b ++ (whole ++ point_before t)) (sym (no_fraction n))
render-fraction b whole n (suc d) = refl

render-with_fraction :
    (b : Bool) (whole frac : Text)
    → render b whole frac ≡ with_fraction (minus b ++ whole) (trim_zeros frac)
render-with_fraction b whole frac = joined (trim_zeros frac)
  where
    joined : (t : Text) → minus b ++ (whole ++ point_before t) ≡ with_fraction (minus b ++ whole) t
    joined [] = ap (λ w. minus b ++ w) (append-nil whole)
    joined (c ∷ t) = sym (append_assoc (minus b) whole (46 ∷ c ∷ t))

signed-with_fraction :
    (b : Bool) (whole frac : Text)
    → (if b then 45 ∷ with_fraction whole frac else with_fraction whole frac)
      ≡ with_fraction (minus b ++ whole) frac
signed-with_fraction true whole [] = refl
signed-with_fraction true whole (c ∷ frac) = refl
signed-with_fraction false whole frac = refl

-- The SDK, the bridge and governance print the same text for the same base units, up to 36 decimals.
pub from_base_units-usdc_base_to_human :
    (units : ℤ) (d : ℕ)
    → decimals_ok d ≡ true
    → (from_base_units units d ≡ some (usdc_base_to_human units d))
      × (format_base_units units d ≡ usdc_base_to_human units d)
unfolding from_base_units split_units usdc_base_to_human format_base_units
from_base_units-usdc_base_to_human units d ok =
    let whole = to_text (absolute units / 10 ^ d) in
    let frac = pad_start d (to_text (absolute units % 10 ^ d)) in
    (
      ap
            (λ b. rendered (
              if b
              then some (record {
                negative = is_negative units;
                whole = to_text (absolute units / 10 ^ d);
                fraction = fraction_of (absolute units) d;
              })
              else none))
            ok
          ∙ ap some (
              render-fraction (is_negative units) whole (absolute units) d
              ∙ render-with_fraction (is_negative units) whole frac),
      signed-with_fraction (is_negative units) whole (trim_zeros frac),
    )

-- what the bridge takes as digits, the SDK takes so too
after_point-strict_fraction :
    (w : Text) (p r : Text × Text) → strict_fraction w p ≡ some r → after_point w p ≡ some r
after_point-strict_fraction w (frac, []) r h = ground (arith, h)
after_point-strict_fraction w (frac, c ∷ rest) r h = absurd (ground (arith, h))

after_whole-strict_whole : (p r : Text × Text) → strict_whole p ≡ some r → after_whole p ≡ some r
after_whole-strict_whole (w, []) r h = h
after_whole-strict_whole (w, c ∷ rest) r h =
    ground (arith, h, after_point-strict_fraction w (span rest) r)

any_e-span : (s : Text) → any is_e s ≡ any is_e (span s).1
unfolding span
any_e-span [] = refl
any_e-span (c ∷ s) = step (is_digit c) refl (any_e-span s)
  where
    step :
        (b : Bool)
        → is_digit c ≡ b
        → any is_e s ≡ any is_e (span s).1
        → any is_e (c ∷ s) ≡ any is_e (cut b c s (span s)).1
    step true h rec = ground (arith, h, rec)
    step false h rec = refl

any_e-strict_fraction :
    (w : Text) (p r : Text × Text) → strict_fraction w p ≡ some r → any is_e p.1 ≡ false
any_e-strict_fraction w (frac, []) r h = refl
any_e-strict_fraction w (frac, c ∷ rest) r h = absurd (ground (arith, h))

any_e-strict_whole : (p r : Text × Text) → strict_whole p ≡ some r → any is_e p.1 ≡ false
any_e-strict_whole (w, []) r h = refl
any_e-strict_whole (w, c ∷ rest) r h =
    ground (arith, h, any_e-span rest, any_e-strict_fraction w (span rest) r)

-- the two readings of the sign: a plus is no text of the bridge
sign_of-minus_of :
    (s : Text) (r : Text × Text)
    → strict_whole (span (minus_of s).1) ≡ some r
    → (sign_of s ≡ minus_of s) × (any is_e s ≡ any is_e (minus_of s).1)
unfolding span
sign_of-minus_of [] r h = (refl, refl)
sign_of-minus_of (c ∷ s) r h = elim (Bool-cases (c == 45)) [
  | inl minus_sign ↦ ground (arith, minus_sign)
  | inr other ↦ elim (Bool-cases (c == 43)) [
    | inl plus_sign ↦ absurd (refused plus_sign other)
    | inr neither ↦ ground (arith, other, neither)
  ]
]
  where
    not_digit : c == 43 ≡ true → is_digit c ≡ false
    not_digit p = ground (arith, p)

    minus_read : Bool → Bool × Text
    minus_read b = if b then (true, s) else (false, c ∷ s)

    read : Bool → Option (Text × Text)
    read b = strict_whole (span (minus_read b).1)

    refused : c == 43 ≡ true → c == 45 ≡ false → ⊥
    refused p q =
        let e = ap read (sym q) ∙ h in
        let k = ap (λ b. strict_whole (cut b c s (span s))) (sym (not_digit p)) ∙ e in
        ground (arith, k)

-- the texts that `units_of` reads from their two parts
units_of-usdc_units :
    (d : ℕ) (b : Bool) (p : Text × Text) → usdc_units d b (some p) ≡ units_of d b p
units_of-usdc_units d b (w, frac) =
    ap
      (λ n.
        if ltb d (length frac)
        then none
        else some (with_sign b (n * 10 ^ d + value (pad_end d frac))))
      (sym (value-normalize_whole w))

accepted :
    (d : ℕ) (b : Bool) (o : Option (Text × Text)) (n : ℤ)
    → usdc_units d b o ≡ some n
    → (r : Text × Text) × (o ≡ some r) × (units_of d b r ≡ some n)
accepted d b none n h = absurd (ground (arith, h))
accepted d b (some p) n h = (p, refl, sym (units_of-usdc_units d b p) ∙ h)

-- the amount, as the SDK takes it
abbrev pub as_amount : UsdcAmount → Amount
as_amount (usdc_text t) = text_amount t
as_amount (usdc_number t) = number_amount (some t)

amount_units-raw_usdc :
    (a : UsdcAmount) (d : ℕ)
    → amount_units (as_amount a) d ≡ parse_units (expand_exponential (raw_usdc a)) d
amount_units-raw_usdc (usdc_text t) d = refl
amount_units-raw_usdc (usdc_number t) d = refl

-- Up to 36 decimals, whatever the bridge takes for an amount of the token, a text or a number, is the
-- same number of base units to the SDK.
pub to_base_units-usdc_human_to_base :
    (a : UsdcAmount) (d : ℕ) (n : ℤ)
    → decimals_ok d ≡ true
    → usdc_human_to_base a d ≡ some n
    → to_base_units (as_amount a) d ≡ some n
unfolding to_base_units usdc_human_to_base parse_units match_unsigned expand_exponential
to_base_units-usdc_human_to_base a d n ok h =
    let raw = raw_usdc a in
    let m = minus_of raw in
    let (r, e, u) = accepted d m.0 (strict_whole (span m.1)) n h in
    let (sg, no_e) = sign_of-minus_of raw r e in
    ap (λ b. if b then amount_units (as_amount a) d else none) ok
    ∙ amount_units-raw_usdc a d
    ∙ ap (λ s. parse_units s d)
        (plain raw (no_e ∙ any_e-span m.1 ∙ any_e-strict_whole (span m.1) r e))
    ∙ ap (λ p. matched d p.0 (match_unsigned p.1)) sg
    ∙ ap (matched d m.0) (after_whole-strict_whole (span m.1) r e)
    ∙ u
  where
    plain : (s : Text) → any is_e s ≡ false → expand_exponential s ≡ s
    plain s h = ground (arith, h)
