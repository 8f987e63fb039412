-- ===== src/Prelude/Text.antt =====
-- The text operations of JavaScript that the source uses on addresses, pool ids and keys. Case is
-- changed at the ASCII letters only, and `trim` drops the ASCII white space; the texts in question
-- (Stellar addresses, contract ids, UUIDs) are ASCII.
use Prim.Native.Nat.{ℕ, ◌+◌, ◌-◌}
use Prim.Native.Char.{Char, code}
use Prim.Native.String.{String, [], ◌∷◌, ◌++◌, char_at}
use mathlib.Core.Path.{◌≡◌, refl}
use mathlib.Core.Bool.{Bool, true, false, ◌&&◌, ◌||◌}
use mathlib.Core.List.{List}
use text.Mathlib.Text.{◌==◌}
use joint_save.Prelude.Tests.{leb, ◌==◌ as nat_eq, if◌then◌else◌}

-- `s === t`
abbrev pub str_eq : String → String → Bool
str_eq s t = s == t

-- `list.includes(s)`
abbrev pub includes : List String → String → Bool
includes List.[] s = false
includes (List.◌∷◌ t ts) s = str_eq t s || includes ts s

-- how often a text stands in a list
abbrev pub times : String → List String → ℕ
times p List.[] = 0
times p (List.◌∷◌ x xs) = (if str_eq x p then 1 else 0) + times p xs

-- the pieces of a template string, put together
abbrev pub template : List String → String
template List.[] = []
template (List.◌∷◌ s ss) = s ++ template ss

lower_char : Char → Char
lower_char c =
    if leb 65 (code c) && leb (code c) 90
    then char_at "abcdefghijklmnopqrstuvwxyz" (code c - 65)
    else c

upper_char : Char → Char
upper_char c =
    if leb 97 (code c) && leb (code c) 122
    then char_at "ABCDEFGHIJKLMNOPQRSTUVWXYZ" (code c - 97)
    else c

-- `s.toLowerCase()` and `s.toUpperCase()`
unfoldable pub to_lower_case : String → String
unfolding lower_char
to_lower_case [] = []
to_lower_case (c ∷ s) = lower_char c ∷ to_lower_case s

unfoldable pub to_upper_case : String → String
unfolding upper_char
to_upper_case [] = []
to_upper_case (c ∷ s) = upper_char c ∷ to_upper_case s

is_space : Char → Bool
is_space c = nat_eq (code c) 32 || leb 9 (code c) && leb (code c) 13

trim_start : String → String
unfolding is_space
trim_start [] = []
trim_start (c ∷ s) = if is_space c then trim_start s else c ∷ s

-- a blank is kept only before what is kept
keep_end : Bool → Char → String → String
keep_end true c [] = []
keep_end true c (d ∷ s) = c ∷ d ∷ s
keep_end false c s = c ∷ s

trim_end : String → String
unfolding is_space keep_end
trim_end [] = []
trim_end (c ∷ s) = keep_end (is_space c) c (trim_end s)

-- `s.trim()`
unfoldable pub trim : String → String
unfolding trim_start trim_end
trim s = trim_end (trim_start s)

trim_test : to_upper_case (trim "  ab C1 \n") ≡ "AB C1"
unfolding trim to_upper_case
trim_test = refl

lower_test : to_lower_case "GABz9" ≡ "gabz9"
unfolding to_lower_case
lower_test = refl
