-- ===== src/Prelude/Decimal.antt =====
-- A number as decimal text, as a template string prints it.
use Prim.Native.Nat.{ℕ, zero, suc, ◌/◌, ◌%◌}
use Prim.Native.String.{String, [], ◌∷◌, char_at}
use mathlib.Core.Path.{◌≡◌, refl}
use mathlib.Core.Bool.{true, false}
use joint_save.Prelude.Tests.{ltb}

push_digit : ℕ → String → String
push_digit d tail = char_at "0123456789" d ∷ tail

-- each round divides by ten, so one round more than the number is enough
to_decimal_from : ℕ → ℕ → String → String
unfolding push_digit
to_decimal_from zero n tail = tail
to_decimal_from (suc k) n tail = elim (ltb n 10) [
  | true ↦ push_digit n tail
  | false ↦ to_decimal_from k (n / 10) (push_digit (n % 10) tail)
]

unfoldable pub to_decimal : ℕ → String
unfolding to_decimal_from
to_decimal n = to_decimal_from (suc n) n []

to_decimal_test : (to_decimal 0 ≡ "0") × (to_decimal 10 ≡ "10") × (to_decimal 4096 ≡ "4096")
unfolding to_decimal
to_decimal_test = (refl, refl, refl)
