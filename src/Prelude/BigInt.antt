-- ===== src/Prelude/BigInt.antt =====
-- `BigInt(text)` of JavaScript: decimal digits with an optional sign, or digits after `0x`, `0o` or
-- `0b`; white space around them is dropped and the empty text is 0. `none` is a SyntaxError.
use Prim.Native.Nat.{ℕ, ◌+◌, ◌-◌, ◌*◌}
use Prim.Native.Char.{code}
use Prim.Native.String.{String}
use mathlib.Core.Path.{◌≡◌, refl}
use mathlib.Core.Bool.{◌&&◌, ◌||◌}
use mathlib.Core.Option
use mathlib.Core.Option.{Option, none, some}
use mathlib.Core.List.{List, [], ◌∷◌}
use joint_save.Prelude.Tests.{ltb, leb, ◌==◌, if◌then◌else◌}
use joint_save.Prelude.Int.{ℤ, pos, negsuc, sub_ℕ}
use joint_save.Prelude.Text.{trim}

abbrev pub codes : String → List ℕ
codes String.[] = []
codes (String.◌∷◌ c s) = code c ∷ codes s

-- the value of a digit or letter, for radices up to 16
digit_value : ℕ → Option ℕ
digit_value c =
    if leb 48 c && leb c 57
    then some (c - 48)
    else if leb 97 c && leb c 102
    then some (c - 87)
    else if leb 65 c && leb c 70
    then some (c - 55)
    else none

-- the digits read so far make `acc`
read_digits : ℕ → ℕ → List ℕ → Option ℕ
unfolding digit_value
read_digits radix acc [] = some acc
read_digits radix acc (c ∷ cs) = elim (digit_value c) [
  | none ↦ none
  | some d ↦ if ltb d radix then read_digits radix (acc * radix + d) cs else none
]

-- at least one digit
digits_of : ℕ → List ℕ → Option ℕ
unfolding read_digits
digits_of radix [] = none
digits_of radix (c ∷ cs) = read_digits radix 0 (c ∷ cs)

-- after a leading `0`, a letter may name the radix
prefixed : List ℕ → Option ℕ
unfolding digits_of
prefixed [] = some 0
prefixed (c ∷ cs) =
    if c == b'x' || c == b'X'
    then digits_of 16 cs
    else if c == b'o' || c == b'O'
    then digits_of 8 cs
    else if c == b'b' || c == b'B'
    then digits_of 2 cs
    else digits_of 10 (c ∷ cs)

literal : List ℕ → Option ℤ
unfolding prefixed digits_of
literal [] = some (pos 0)
literal (c ∷ cs) =
    if c == b'-'
    then Option.map (λ n. sub_ℕ 0 n) (digits_of 10 cs)
    else if c == b'+'
    then Option.map (λ n. pos n) (digits_of 10 cs)
    else if c == b'0'
    then Option.map (λ n. pos n) (prefixed cs)
    else Option.map (λ n. pos n) (digits_of 10 (c ∷ cs))

unfoldable pub big_int : String → Option ℤ
unfolding literal trim
big_int s = literal (codes (trim s))

big_int_decimal : big_int " -120 " ≡ some (negsuc 119)
unfolding big_int
big_int_decimal = refl

big_int_hex : big_int "0x1F" ≡ some (pos 31)
unfolding big_int
big_int_hex = refl

big_int_bad : big_int "1.5" ≡ none
unfolding big_int
big_int_bad = refl
