-- ===== src/Amounts/Rounding.antt =====
-- Rounding and the display of amounts (sdk/src/utils/amounts.ts).
use joint_save.Prelude.{
  ℕ, zero, suc, Bool, true, false, ◌+◌, ◌-◌, ◌*◌, ◌/◌, ◌%◌, ◌^◌, ◌≡◌, ◌≤◌, ◌<◌, refl, sym, ap, ◌∙◌,
  if◌then◌else◌, leb, arith, leb→le, Bool-cases, inl, inr,
}
use mathlib.Core.Path.{subst}
use native.Mathlib.Nat.{div-add-mod', mod-lt, one-le-pow}
use joint_save.Prelude.Int.{ℤ}
use joint_save.Amounts.Units.{with_sign, is_negative, absolute}
use joint_save.Amounts.Format.{rounded_up, round_units}

up_part : (n factor : ℕ) → (n / factor + 1) * factor ≡ n / factor * factor + factor
up_part n factor = omega arith

rounded_up-near :
    (n factor : ℕ)
    → 0 < factor
    → (rounded_up n factor * factor * 2 ≤ n * 2 + factor)
      × (n * 2 < rounded_up n factor * factor * 2 + factor)
rounded_up-near n factor p = elim (Bool-cases (leb factor (n % factor * 2))) [
  | inl up ↦
      let e = ap (λ b. (if b then n / factor + 1 else n / factor) * factor * 2) up in
      (
        omega
            (arith, e, up_part n factor, leb→le factor (n % factor * 2) up, div-add-mod' n factor),
        omega (arith, e, up_part n factor, div-add-mod' n factor, mod-lt n p),
      )
  | inr down ↦
      let e = ap (λ b. (if b then n / factor + 1 else n / factor) * factor * 2) down in
      (omega (arith, e, div-add-mod' n factor), omega (arith, e, div-add-mod' n factor, low down))
]
  where
    low : leb factor (n % factor * 2) ≡ false → n % factor * 2 < factor
    low down = ground (arith, down)

absolute-with_sign : (b : Bool) (n : ℕ) → absolute (with_sign b n) ≡ n
absolute-with_sign true zero = refl
absolute-with_sign true (suc n) = ground arith
absolute-with_sign false n = ground arith

-- Rounding to fewer decimals keeps the sign of an amount and moves it by at most half of the last
-- digit kept, and a half moves it away from zero.
pub round_units-near :
    (units : ℤ) (from_decimals to_decimals : ℕ)
    → to_decimals < from_decimals
    → let factor = 10 ^ (from_decimals - to_decimals) in
      let shown = absolute (round_units units from_decimals to_decimals) in
      (round_units units from_decimals to_decimals ≡ with_sign (is_negative units) shown)
      × (shown * factor * 2 ≤ absolute units * 2 + factor)
      × (absolute units * 2 < shown * factor * 2 + factor)
unfolding round_units
round_units-near units f t h =
    let (low, high) = near in (signed ∙ ap (with_sign (is_negative units)) (sym rounded), low, high)
  where
    above : leb f t ≡ false
    above = ground (arith, h)

    signed :
        round_units units f t
        ≡ with_sign (is_negative units) (rounded_up (absolute units) (10 ^ (f - t)))
    signed =
        ap
          (λ b.
            if b
            then units
            else with_sign (is_negative units) (rounded_up (absolute units) (10 ^ (f - t))))
          above

    rounded : absolute (round_units units f t) ≡ rounded_up (absolute units) (10 ^ (f - t))
    rounded =
        ap absolute signed
        ∙ absolute-with_sign (is_negative units) (rounded_up (absolute units) (10 ^ (f - t)))

    near :
        (absolute (round_units units f t) * 10 ^ (f - t) * 2 ≤ absolute units * 2 + 10 ^ (f - t))
        × (absolute units * 2 < absolute (round_units units f t) * 10 ^ (f - t) * 2 + 10 ^ (f - t))
    near =
        subst
          (λ a.
            (a * 10 ^ (f - t) * 2 ≤ absolute units * 2 + 10 ^ (f - t))
            × (absolute units * 2 < a * 10 ^ (f - t) * 2 + 10 ^ (f - t)))
          (sym rounded)
          (rounded_up-near (absolute units) (10 ^ (f - t)) (one-le-pow (f - t) 10 (omega arith)))
