-- ===== src/Amounts/Decimals.antt =====
-- Decimal text taken apart, as the source's regular expressions and `split(".")` do.
use joint_save.Prelude.{
  ℕ, Bool, true, false, ◌&&◌, ◌||◌, Option, none, some, [], ◌∷◌, ◌++◌, ◌≡◌, refl, ap, ◌∙◌,
  if◌then◌else◌, leb, ◌==◌, All,
}
use joint_save.Amounts.Digits.{Text, is_digit, IsDigit}

-- the white space and the line ends of JavaScript
abbrev pub is_blank : ℕ → Bool
is_blank c =
    c == 32
    || (leb 9 c && leb c 13)
    || (c == 160 || c == 5760 || (leb 8192 c && leb c 8202))
    || (c == 8232 || c == 8233 || c == 8239 || c == 8287 || c == 12288 || c == 65279)

abbrev pub trim_left : Text → Text
trim_left [] = []
trim_left (c ∷ s) = if is_blank c then trim_left s else c ∷ s

abbrev pub keep_blank : ℕ → Text → Text
keep_blank c [] = if is_blank c then [] else c ∷ []
keep_blank c (d ∷ s) = c ∷ d ∷ s

abbrev pub trim_right : Text → Text
trim_right [] = []
trim_right (c ∷ s) = keep_blank c (trim_right s)

-- `text.trim()`
unfoldable pub trimmed : Text → Text
trimmed s = trim_right (trim_left s)

-- the digits at the start, and the rest
abbrev pub cut : Bool → ℕ → Text → Text × Text → Text × Text
cut true c s (ds, rest) = (c ∷ ds, rest)
cut false c s (ds, rest) = ([], c ∷ s)

unfoldable pub span : Text → Text × Text
span [] = ([], [])
span (c ∷ s) = cut (is_digit c) c s (span s)

abbrev pub is_nil : Text → Bool
is_nil [] = true
is_nil (c ∷ s) = false

-- `(\d+(?:\.\d*)?|\.\d+)$` : the digits before the point, and those after it
abbrev pub after_point : Text → Text × Text → Option (Text × Text)
after_point whole (frac, []) = if is_nil whole && is_nil frac then none else some (whole, frac)
after_point whole (frac, c ∷ rest) = none

abbrev pub after_whole : Text × Text → Option (Text × Text)
after_whole (whole, []) = if is_nil whole then none else some (whole, [])
after_whole (whole, c ∷ rest) = if c == 46 then after_point whole (span rest) else none

unfoldable pub match_unsigned : Text → Option (Text × Text)
unfolding span
match_unsigned s = after_whole (span s)

-- a sign at the start: whether it is a minus, and the rest
abbrev pub sign_of : Text → Bool × Text
sign_of [] = (false, [])
sign_of (c ∷ s) = if c == 45 then (true, s) else if c == 43 then (false, s) else (false, c ∷ s)

-- what starts no run of digits
abbrev pub Cuts : Text → Type 0
Cuts [] = Unit
Cuts (c ∷ s) = is_digit c ≡ false

pub span-append : (ds rest : Text) → All IsDigit ds → Cuts rest → span (ds ++ rest) ≡ (ds, rest)
unfolding span
span-append [] [] h k = refl
span-append [] (c ∷ s) h k = ap (λ t. cut t c s (span s)) k
span-append (c ∷ ds) rest (p, h) k =
    ap (λ t. cut t c (ds ++ rest) (span (ds ++ rest))) p
    ∙ ap (cut true c (ds ++ rest)) (span-append ds rest h k)
