-- ===== src/Prelude/Search.antt =====
-- Fixed texts searched for in a text, as by a regular expression that lists them.
use Prim.Native.Char.{Char, code}
use Prim.Native.String.{String, [], ◌∷◌}
use mathlib.Core.Path.{◌≡◌, refl}
use mathlib.Core.Bool.{Bool, true, false, not, ◌&&◌, ◌||◌}
use joint_save.Prelude.Tests.{leb}
use joint_save.Prelude.Text.{str_eq}

-- `t` starts with `s`
starts_with : String → String → Bool
starts_with [] t = true
starts_with (c ∷ s) [] = false
starts_with (c ∷ s) (d ∷ t) = str_eq (c ∷ []) (d ∷ []) && starts_with s t

-- `t.includes(s)`
unfoldable pub contains : String → String → Bool
unfolding starts_with
contains s [] = starts_with s []
contains s (d ∷ t) = starts_with s (d ∷ t) || contains s t

-- `\w`, of text in lower case
is_word_char : Char → Bool
is_word_char c =
    leb 48 (code c) && leb (code c) 57
    || leb 97 (code c) && leb (code c) 122
    || leb 95 (code c) && leb (code c) 95

begins_with_word_char : String → Bool
unfolding is_word_char
begins_with_word_char [] = false
begins_with_word_char (c ∷ s) = is_word_char c

-- `t` starts with the word `s`, and the word ends there
starts_with_word : String → String → Bool
unfolding begins_with_word_char
starts_with_word [] t = not (begins_with_word_char t)
starts_with_word (c ∷ s) [] = false
starts_with_word (c ∷ s) (d ∷ t) = str_eq (c ∷ []) (d ∷ []) && starts_with_word s t

-- `/\bs\b/.test(t)`, where the character before `t` is a word character if `inside` says so
unfoldable pub contains_word : Bool → String → String → Bool
unfolding starts_with_word is_word_char
contains_word inside s [] = false
contains_word inside s (d ∷ t) =
    not inside && starts_with_word s (d ∷ t) || contains_word (is_word_char d) s t

search_test :
    (contains "bad_auth" "op: bad_auth." ≡ true)
    × (contains_word false "429" "http 429." ≡ true)
    × (contains_word false "429" "id 14290" ≡ false)
unfolding contains contains_word starts_with starts_with_word begins_with_word_char is_word_char
search_test = (refl, refl, refl)
