-- ===== src/Amounts/Tests.antt =====
-- Amounts read, printed and rounded, and the theorems at them.
use joint_save.Prelude.{true, false, none, some, [], ◌∷◌, ◌+◌, ◌*◌, ◌≡◌, ◌≤◌, ◌<◌, refl, arith}
use joint_save.Prelude.Int.{pos, negsuc}
use joint_save.Amounts.Digits.{Text, to_text, digits_from, trim_zeros}
use joint_save.Amounts.Decimals.{trimmed, span, match_unsigned}
use joint_save.Amounts.Units.{
  with_sign, expand_exponential, parse_units, text_amount, number_amount, to_base_units, absolute,
  split_units, from_base_units,
}
use joint_save.Amounts.Frontend.{
  usdc_text, usdc_human_to_base, usdc_base_to_human, insufficient, not_positive, not_valid,
  validate_bridge_amount, parse_amount_to_base_units, format_base_units,
}
use joint_save.Amounts.Format.{
  round_units, count_leading_zeros, format_token_amount, format_usdc, format_percent,
}
use joint_save.Amounts.RoundTrip.{to_base_units-from_base_units}
use joint_save.Amounts.Agreement.{
  from_base_units-usdc_base_to_human, to_base_units-usdc_human_to_base,
}
use joint_save.Amounts.Rounding.{round_units-near}

amounts : Unit {0}
unfolding digits_from to_text trim_zeros trimmed span match_unsigned expand_exponential parse_units
    to_base_units split_units from_base_units usdc_human_to_base usdc_base_to_human
    validate_bridge_amount parse_amount_to_base_units format_base_units round_units
    count_leading_zeros format_token_amount format_usdc format_percent
amounts = tt

-- "12.5", " 1.5e-3 ", "+.5", "-0.05", "1.255"
abbrev twelve_and_a_half : Text
twelve_and_a_half = 49 ∷ 50 ∷ 46 ∷ 53 ∷ []

abbrev scientific : Text
scientific = 32 ∷ 49 ∷ 46 ∷ 53 ∷ 101 ∷ 45 ∷ 51 ∷ 32 ∷ []

abbrev half : Text
half = 43 ∷ 46 ∷ 53 ∷ []

abbrev minus_small : Text
minus_small = 45 ∷ 48 ∷ 46 ∷ 48 ∷ 53 ∷ []

abbrev fine : Text
fine = 49 ∷ 46 ∷ 50 ∷ 53 ∷ 53 ∷ []

test_to_base_units :
    (to_base_units (text_amount twelve_and_a_half) 7 ≡ some (pos 125000000))
    × (to_base_units (text_amount scientific) 7 ≡ some (pos 15000))
    × (to_base_units (text_amount half) 1 ≡ some (pos 5))
    × (to_base_units (text_amount minus_small) 2 ≡ some (negsuc 4))
    × (to_base_units (text_amount fine) 2 ≡ none)
    × (to_base_units (text_amount []) 2 ≡ none)
    × (to_base_units (text_amount half) 37 ≡ none)
    × (to_base_units (number_amount none) 7 ≡ none)
unfolding amounts
test_to_base_units = (refl, refl, refl, refl, refl, refl, refl, refl)

test_from_base_units :
    (from_base_units (pos 125000000) 7 ≡ some twelve_and_a_half)
    × (from_base_units (negsuc 4) 2 ≡ some minus_small)
    × (from_base_units (pos 3) 0 ≡ some (51 ∷ []))
unfolding amounts
test_from_base_units = (refl, refl, refl)

-- the bridge refuses a digit too many, and governance drops it
test_frontend :
    (usdc_human_to_base (usdc_text fine) 2 ≡ none)
    × (parse_amount_to_base_units fine 2 ≡ some (pos 125))
    × (validate_bridge_amount twelve_and_a_half 6 (some (pos 12000000)) ≡ some insufficient)
    × (validate_bridge_amount twelve_and_a_half 6 none ≡ none)
    × (validate_bridge_amount minus_small 6 none ≡ some not_positive)
    × (validate_bridge_amount half 6 none ≡ some not_valid)
unfolding amounts
test_frontend = (refl, refl, refl, refl, refl, refl)

-- "0.0₅342" and "20.05%"
test_format :
    (format_token_amount (pos 3420) 9 9 4 ≡ some (48 ∷ 46 ∷ 48 ∷ 8325 ∷ 51 ∷ 52 ∷ 50 ∷ []))
    × (format_usdc (pos 125000000) ≡ some twelve_and_a_half)
    × (format_percent (some (false, 2005)) ≡ 50 ∷ 48 ∷ 46 ∷ 48 ∷ 53 ∷ 37 ∷ [])
    × (format_percent none ≡ 45 ∷ 45 ∷ [])
    × (round_units (negsuc 124) 2 1 ≡ negsuc 12)
unfolding amounts
test_format = (refl, refl, refl, refl, refl)

to_base_units-from_base_units_example : to_base_units (text_amount minus_small) 2 ≡ some (negsuc 4)
unfolding amounts
to_base_units-from_base_units_example = to_base_units-from_base_units (negsuc 4) 2 minus_small refl

from_base_units-usdc_base_to_human_example :
    (from_base_units (pos 125000000) 7 ≡ some (usdc_base_to_human (pos 125000000) 7))
    × (format_base_units (pos 125000000) 7 ≡ usdc_base_to_human (pos 125000000) 7)
from_base_units-usdc_base_to_human_example =
    from_base_units-usdc_base_to_human (pos 125000000) 7 refl

to_base_units-usdc_human_to_base_example :
    to_base_units (text_amount twelve_and_a_half) 6 ≡ some (pos 12500000)
unfolding amounts
to_base_units-usdc_human_to_base_example =
    to_base_units-usdc_human_to_base (usdc_text twelve_and_a_half) 6 (pos 12500000) refl refl

round_units-near_example :
    let shown = absolute (round_units (negsuc 1254) 3 2) in
    (round_units (negsuc 1254) 3 2 ≡ with_sign true shown)
    × (shown * 10 * 2 ≤ 1255 * 2 + 10)
    × (1255 * 2 < shown * 10 * 2 + 10)
round_units-near_example = round_units-near (negsuc 1254) 3 2 (omega arith)
