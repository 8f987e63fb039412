-- ===== src/Amounts/Units.antt =====
-- `toBaseUnits` and `fromBaseUnits` (sdk/src/utils/amounts.ts). A text is a list of character codes,
-- and `none` is the RangeError; a number comes as the text that `toString` gives it.
use joint_save.Prelude.{
  ℕ, zero, suc, Bool, true, false, ◌&&◌, ◌||◌, Option, none, some, [], ◌∷◌, ◌++◌, ◌+◌, ◌-◌, ◌*◌,
  ◌/◌, ◌%◌, ◌^◌, if◌then◌else◌, ltb, leb, ◌==◌, length, take, drop, any,
}
use joint_save.Prelude.Int.{ℤ, pos, negsuc, pos_part, neg_part, sub_ℕ}
use joint_save.Amounts.Digits.{Text, to_text, value, zeros, pad_start, pad_end, trim_zeros}
use joint_save.Amounts.Decimals.{trimmed, span, is_nil, match_unsigned, sign_of}

-- `assertDecimals`
abbrev pub decimals_ok : ℕ → Bool
decimals_ok d = leb d 36

abbrev pub is_e : ℕ → Bool
is_e c = c == 101 || c == 69

-- the mantissa: its digits before and after the point, and what follows
abbrev pub after_mantissa : Text → Text × Text → Option (Text × Text × Text)
after_mantissa whole (frac, rest) =
    if is_nil whole && is_nil frac then none else some (whole, frac, rest)

abbrev pub mantissa_of : Text × Text → Option (Text × Text × Text)
mantissa_of (whole, []) = if is_nil whole then none else some (whole, [], [])
mantissa_of (whole, c ∷ rest) =
    if c == 46
    then after_mantissa whole (span rest)
    else if is_nil whole
    then none
    else some (whole, [], c ∷ rest)

-- `[eE]([+-]?\d+)$`: whether the exponent is negative, and its digits' value
abbrev pub exponent_digits : Bool → Text × Text → Option (Bool × ℕ)
exponent_digits negative (ds, []) = if is_nil ds then none else some (negative, value ds)
exponent_digits negative (ds, c ∷ rest) = none

abbrev pub exponent_of : Text → Option (Bool × ℕ)
exponent_of [] = none
exponent_of (c ∷ s) = if is_e c then exponent_digits (sign_of s).0 (span (sign_of s).1) else none

-- the digits with the point moved
abbrev pub move_point : Text → ℕ → Text
move_point ds point =
    if leb (length ds) point
    then ds ++ zeros (point - length ds)
    else take point ds ++ (46 ∷ drop point ds)

abbrev pub small : ℕ → Text → Text
small n ds = 48 ∷ 46 ∷ (zeros n ++ ds)

abbrev pub expanded : Text → Text → Bool → ℕ → Text
expanded whole frac true k =
    if leb (length whole) k
    then small (k - length whole) (whole ++ frac)
    else move_point (whole ++ frac) (length whole - k)
expanded whole frac false k =
    if length whole + k == 0
    then small 0 (whole ++ frac)
    else move_point (whole ++ frac) (length whole + k)

-- the sign as it stands in the text
abbrev pub sign_text : Text → Text
sign_text [] = []
sign_text (c ∷ s) = if c == 45 || c == 43 then c ∷ [] else []

unfoldable pub expand_exponential : Text → Text
expand_exponential s =
    if any is_e s
    then elim (mantissa_of (span (sign_of s).1)) [
      | none ↦ s
      | some (whole, frac, rest) ↦ elim (exponent_of rest) [
        | none ↦ s
        | some (negative, k) ↦ sign_text s ++ expanded whole frac negative k
      ]
    ]
    else s

-- `whole.replace(/^0+(?=\d)/, "")`, and "0" for nothing
abbrev pub drop_zeros : ℕ → Text → Text
drop_zeros c [] = c ∷ []
drop_zeros c (d ∷ s) = if c == 48 then drop_zeros d s else c ∷ d ∷ s

abbrev pub normalize_whole : Text → Text
normalize_whole [] = 48 ∷ []
normalize_whole (c ∷ s) = drop_zeros c s

abbrev pub with_sign : Bool → ℕ → ℤ
with_sign true n = sub_ℕ 0 n
with_sign false n = pos n

abbrev pub units_of : ℕ → Bool → Text × Text → Option ℤ
units_of decimals negative (whole, frac) =
    if ltb decimals (length frac)
    then none
    else some (
        with_sign negative
          (value (normalize_whole whole) * 10 ^ decimals + value (pad_end decimals frac)))

abbrev pub matched : ℕ → Bool → Option (Text × Text) → Option ℤ
matched decimals negative none = none
matched decimals negative (some p) = units_of decimals negative p

unfoldable pub parse_units : Text → ℕ → Option ℤ
unfolding match_unsigned
parse_units raw decimals = matched decimals (sign_of raw).0 (match_unsigned (sign_of raw).1)

-- an amount: a text, a number with its text (`none` if it is not finite), or base units
pub data Amount : Type 0 where
  text_amount : Text → Amount
  number_amount : Option Text → Amount
  base_units : ℤ → Amount

abbrev pub amount_units : Amount → ℕ → Option ℤ
amount_units (base_units n) decimals = some n
amount_units (text_amount t) decimals = parse_units (expand_exponential (trimmed t)) decimals
amount_units (number_amount none) decimals = none
amount_units (number_amount (some t)) decimals = parse_units (expand_exponential t) decimals

unfoldable pub to_base_units : Amount → ℕ → Option ℤ
to_base_units amount decimals = if decimals_ok decimals then amount_units amount decimals else none

abbrev pub is_negative : ℤ → Bool
is_negative (pos n) = false
is_negative (negsuc n) = true

abbrev pub absolute : ℤ → ℕ
absolute n = pos_part n + neg_part n

pub record SplitUnits : Type 0 where
  pub negative : Bool
  pub whole : Text
  pub fraction : Text

-- the digits after the point
abbrev pub fraction_of : ℕ → ℕ → Text
fraction_of n zero = []
fraction_of n (suc d) = pad_start (suc d) (to_text (n % 10 ^ suc d))

unfoldable pub split_units : ℤ → ℕ → Option SplitUnits
split_units units decimals =
    if decimals_ok decimals
    then some (record {
      negative = is_negative units;
      whole = to_text (absolute units / 10 ^ decimals);
      fraction = fraction_of (absolute units) decimals;
    })
    else none

-- the sign, the whole part, and the fraction after a point if there is one
abbrev pub point_before : Text → Text
point_before [] = []
point_before (c ∷ s) = 46 ∷ c ∷ s

abbrev pub minus : Bool → Text
minus true = 45 ∷ []
minus false = []

abbrev pub render : Bool → Text → Text → Text
render negative whole fraction = minus negative ++ (whole ++ point_before (trim_zeros fraction))

abbrev pub rendered : Option SplitUnits → Option Text
rendered none = none
rendered (some s) = some (render s.negative s.whole s.fraction)

unfoldable pub from_base_units : ℤ → ℕ → Option Text
from_base_units units decimals = rendered (split_units units decimals)
