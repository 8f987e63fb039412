-- ===== src/Amounts/Format.antt =====
-- `formatTokenAmount`, `formatUsdc` and `formatPercent` (sdk/src/utils/amounts.ts).
use joint_save.Prelude.{
  ℕ, suc, Bool, false, ◌&&◌, Option, none, some, [], ◌∷◌, ◌++◌, ◌+◌, ◌-◌, ◌*◌, ◌/◌, ◌%◌, ◌^◌,
  if◌then◌else◌, leb, ◌==◌, take, drop, any, map, max,
}
use joint_save.Prelude.Int.{ℤ}
use joint_save.Amounts.Digits.{Text, to_text, pad_start, trim_zeros}
use joint_save.Amounts.Decimals.{is_nil}
use joint_save.Amounts.Units.{
  decimals_ok, with_sign, is_negative, absolute, SplitUnits, split_units, minus, render,
}

-- half up, away from zero
abbrev pub rounded_up : ℕ → ℕ → ℕ
rounded_up n factor = if leb factor (n % factor * 2) then n / factor + 1 else n / factor

unfoldable pub round_units : ℤ → ℕ → ℕ → ℤ
round_units units from_decimals to_decimals =
    if leb from_decimals to_decimals
    then units
    else with_sign (is_negative units)
        (rounded_up (absolute units) (10 ^ (from_decimals - to_decimals)))

unfoldable pub count_leading_zeros : Text → ℕ
count_leading_zeros [] = 0
count_leading_zeros (c ∷ s) = let rest = count_leading_zeros s in if c == 48 then suc rest else 0

-- the subscript digits follow each other from U+2080
abbrev pub to_subscript : ℕ → Text
to_subscript n = map (λ c. c - 48 + 8320) (to_text n)

abbrev pub is_zero_text : Text → Bool
is_zero_text [] = false
is_zero_text (c ∷ s) = c == 48 && is_nil s

abbrev pub is_nonzero_digit : ℕ → Bool
is_nonzero_digit c = leb 49 c && leb c 57

abbrev pub zero_subscript : Bool → Text → ℕ → Text
zero_subscript negative fraction significant =
    let n = count_leading_zeros fraction in
    minus negative
    ++ (48 ∷ 46 ∷ 48 ∷ (to_subscript n ++ trim_zeros (take significant (drop n fraction))))

abbrev pub displayed : ℕ → Option SplitUnits → Option Text
displayed significant none = none
displayed significant (some s) =
    if is_zero_text s.whole
      && any is_nonzero_digit s.fraction
      && leb 3 (count_leading_zeros s.fraction)
    then some (zero_subscript s.negative s.fraction significant)
    else some (render s.negative s.whole s.fraction)

-- with the options' defaults filled in; `none` is the RangeError
unfoldable pub format_token_amount : ℤ → ℕ → ℕ → ℕ → Option Text
format_token_amount units decimals max_fraction significant =
    if decimals_ok decimals && decimals_ok max_fraction
    then displayed (max 1 significant)
        (split_units (round_units units decimals max_fraction) max_fraction)
    else none

-- `formatUsdc` of base units
unfoldable pub format_usdc : ℤ → Option Text
format_usdc units = format_token_amount units 7 7 4

-- `none` is a number that is not finite; a finite one comes truncated, with whether it is below zero
unfoldable pub format_percent : Option (Bool × ℕ) → Text
format_percent none = 45 ∷ 45 ∷ []
format_percent (some (negative, bps)) =
    minus negative
    ++ (render false (to_text (bps / 100)) (pad_start 2 (to_text (bps % 100))) ++ (37 ∷ []))
