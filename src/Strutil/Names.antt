-- ===== src/Strutil/Names.antt =====
-- internal/tools/strutil/strutil.go: when ToGolangName gives a name that Go accepts.
use core_provider.Base.{ℕ, List, [], ◌∷◌, Bool, true, false, not, ◌&&◌, ◌||◌, ◌==◌, ◌≡◌, ◌≢◌}
use core_provider.Strutil.{is_letter, is_digit, is_not_a_go_name_character, starts_with_digit}

-- a character of a Go name
unfoldable pub is_name_part : ℕ → Bool
unfolding is_letter is_digit
is_name_part c = is_letter c || is_digit c || (c == b'_')

unfoldable pub all_parts : List ℕ → Bool
unfolding is_name_part
all_parts [] = true
all_parts (c ∷ s) = is_name_part c && all_parts s

-- every part that splitOnAll gives is made of letters and digits
all_plain : List ℕ → Bool
all_plain [] = true
all_plain (c ∷ s) = not (is_not_a_go_name_character c) && all_plain s

each_plain : List (List ℕ) → Bool
each_plain [] = true
each_plain (v ∷ vs) = all_plain v && each_plain vs

-- a name that Go accepts: letters, digits and `_`, at least one, and no digit in front
pub record IsGoName (s : List ℕ) : Type 0 where
  pub parts : all_parts s ≡ true
  pub some_part : s ≢ []
  pub front : starts_with_digit s ≡ false
