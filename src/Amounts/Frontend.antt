-- ===== src/Amounts/Frontend.antt =====
-- The same conversions as the bridge (frontend/lib/cctp-bridge.ts) and governance
-- (frontend/lib/governance.ts) have them; `none` is the error thrown.
use joint_save.Prelude.{
  ℕ, Bool, true, false, not, ◌&&◌, Option, none, some, [], ◌∷◌, ◌++◌, ◌+◌, ◌*◌, ◌/◌, ◌%◌, ◌^◌,
  if◌then◌else◌, ltb, ◌==◌, length, take, filter,
}
use joint_save.Prelude.Int.{ℤ, pos, ltb_ℤ, leb_ℤ}
use joint_save.Amounts.Digits.{Text, to_text, value, zeros, pad_start, pad_end, trim_zeros}
use joint_save.Amounts.Decimals.{trimmed, span, is_nil}
use joint_save.Amounts.Units.{with_sign, is_negative, absolute, minus}

-- `\d+(\.\d+)?$`
abbrev pub strict_fraction : Text → Text × Text → Option (Text × Text)
strict_fraction whole (frac, []) = if is_nil frac then none else some (whole, frac)
strict_fraction whole (frac, c ∷ rest) = none

abbrev pub strict_whole : Text × Text → Option (Text × Text)
strict_whole (whole, []) = if is_nil whole then none else some (whole, [])
strict_whole (whole, c ∷ rest) =
    if not (is_nil whole) && (c == 46) then strict_fraction whole (span rest) else none

-- a minus at the start, and the rest
abbrev pub minus_of : Text → Bool × Text
minus_of [] = (false, [])
minus_of (c ∷ s) = if c == 45 then (true, s) else (false, c ∷ s)

abbrev pub usdc_units : ℕ → Bool → Option (Text × Text) → Option ℤ
usdc_units decimals negative none = none
usdc_units decimals negative (some (whole, frac)) =
    if ltb decimals (length frac)
    then none
    else some (with_sign negative (value whole * 10 ^ decimals + value (pad_end decimals frac)))

-- a text, or a number by what `String` makes of it
pub data UsdcAmount : Type 0 where
  usdc_text usdc_number : Text → UsdcAmount

abbrev pub raw_usdc : UsdcAmount → Text
raw_usdc (usdc_text t) = trimmed t
raw_usdc (usdc_number t) = t

unfoldable pub usdc_human_to_base : UsdcAmount → ℕ → Option ℤ
usdc_human_to_base amount decimals =
    let raw = raw_usdc amount in
    usdc_units decimals (minus_of raw).0 (strict_whole (span (minus_of raw).1))

-- the fraction after its point, where it is not empty
abbrev pub with_fraction : Text → Text → Text
with_fraction before [] = before
with_fraction before (c ∷ frac) = before ++ (46 ∷ c ∷ frac)

unfoldable pub usdc_base_to_human : ℤ → ℕ → Text
usdc_base_to_human units decimals =
    let scale = 10 ^ decimals in
    let sign = minus (is_negative units) in
    with_fraction (sign ++ to_text (absolute units / scale))
      (trim_zeros (pad_start decimals (to_text (absolute units % scale))))

pub data BridgeAmountError : Type 0 where
  not_valid not_positive insufficient : BridgeAmountError

-- `walletBalanceBase < wanted`, where the balance is known
abbrev pub exceeds_balance : ℤ → Option ℤ → Bool
exceeds_balance wanted none = false
exceeds_balance wanted (some balance) = ltb_ℤ balance wanted

unfoldable pub validate_bridge_amount : Text → ℕ → Option ℤ → Option BridgeAmountError
validate_bridge_amount amount decimals balance =
    elim (usdc_human_to_base (usdc_text amount) decimals) [
      | none ↦ some not_valid
      | some wanted ↦
          if leb_ℤ wanted (pos 0)
          then some not_positive
          else if exceeds_balance wanted balance
          then some insufficient
          else none
    ]

abbrev pub padded_value : ℕ → Text → ℕ
padded_value decimals frac = value (take decimals (frac ++ zeros decimals))

abbrev pub governance_units : ℕ → Option (Text × Text) → Option ℤ
governance_units decimals none = none
governance_units decimals (some (whole, frac)) =
    some (pos (value whole * 10 ^ decimals + padded_value decimals frac))

-- `parseAmountToBaseUnits`: commas are dropped
unfoldable pub parse_amount_to_base_units : Text → ℕ → Option ℤ
parse_amount_to_base_units amount decimals =
    governance_units decimals (strict_whole (span (filter (λ c. not (c == 44)) (trimmed amount))))

-- `formatBaseUnits`
unfoldable pub format_base_units : ℤ → ℕ → Text
format_base_units amount decimals =
    let base = 10 ^ decimals in
    let frac = trim_zeros (pad_start decimals (to_text (absolute amount % base))) in
    let shown = with_fraction (to_text (absolute amount / base)) frac in
    if is_negative amount then 45 ∷ shown else shown
