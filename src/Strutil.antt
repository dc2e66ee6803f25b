-- ===== src/Strutil.antt =====
-- internal/tools/strutil/strutil.go: the Go name of a chart. A text is the list of its bytes. Names are
-- ASCII, where bytes are the runes that `range` gives, and the tests of package unicode are these.
pub mod Names
use core_provider.Base.{
  ℕ, zero, suc, ◌-◌, List, [], ◌∷◌, ◌++◌, Bool, true, false, not, ◌&&◌, ◌||◌, leb, ◌==◌,
  if◌then◌else◌,
}

-- unicode.IsLetter, unicode.IsDigit and unicode.ToUpper on ASCII
unfoldable pub is_lower : ℕ → Bool
is_lower c = leb b'a' c && leb c b'z'

unfoldable pub is_upper : ℕ → Bool
is_upper c = leb b'A' c && leb c b'Z'

unfoldable pub is_letter : ℕ → Bool
unfolding is_lower is_upper
is_letter c = is_lower c || is_upper c

unfoldable pub is_digit : ℕ → Bool
is_digit c = leb b'0' c && leb c b'9'

unfoldable pub to_upper : ℕ → ℕ
unfolding is_lower
to_upper c = if is_lower c then c - 32 else c

-- isNotAGoNameCharacter(r)
unfoldable pub is_not_a_go_name_character : ℕ → Bool
unfolding is_letter is_digit
is_not_a_go_name_character c = if is_letter c || is_digit c then false else true

-- CapitaliseFirstLetter(s)
unfoldable pub capitalise_first_letter : List ℕ → List ℕ
unfolding to_upper
capitalise_first_letter [] = []
capitalise_first_letter (c ∷ s) = to_upper c ∷ s

-- the loop of splitOnAll, with its buffer
unfoldable pub split_loop : (should_split : ℕ → Bool) → (buf s : List ℕ) → List (List ℕ)
split_loop should_split [] [] = []
split_loop should_split (b ∷ buf) [] = (b ∷ buf) ∷ []
split_loop should_split buf (c ∷ s) =
    let ended = buf ∷ split_loop should_split [] s in
    let longer = split_loop should_split (buf ++ c ∷ []) s in
    if should_split c then ended else longer

-- splitOnAll(s, shouldSplit)
unfoldable pub split_on_all : List ℕ → (ℕ → Bool) → List (List ℕ)
unfolding split_loop
split_on_all s should_split = split_loop should_split [] s

-- `strings.IndexAny(v, "0123456789") == 0`
unfoldable pub starts_with_digit : List ℕ → Bool
unfolding is_digit
starts_with_digit [] = false
starts_with_digit (c ∷ v) = is_digit c

-- the loop of ToGolangName; `i` is the index of the part
unfoldable pub write_parts : ℕ → List (List ℕ) → List ℕ
unfolding starts_with_digit capitalise_first_letter
write_parts i [] = []
write_parts i (v ∷ vs) =
    (if i == 0 && starts_with_digit v then b'_' ∷ [] else [])
    ++ (capitalise_first_letter v ++ write_parts (suc i) vs)

-- ToGolangName(s)
unfoldable pub to_golang_name : List ℕ → List ℕ
unfolding split_on_all write_parts is_not_a_go_name_character
to_golang_name s = write_parts 0 (split_on_all s is_not_a_go_name_character)
