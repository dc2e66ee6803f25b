-- ===== src/Tgzfs/Paths.antt =====
-- Names in an archive: what internal/tools/tgzfs uses of package path and of fs.ValidPath.
-- A text of slashes and parts is kept split at its slashes.
use mathlib.Core.Logic.{◌↔◌}
use core_provider.Base.{
  String, List, [], ◌∷◌, Bool, true, false, not, ◌&&◌, ◌||◌, Option, none, some, ◌≡◌, str_eq,
  eq_iff, arith, if◌then◌else◌,
}

-- A name as it is written, split at each `/`: "/a//b" is "", "a", "", "b".
abbrev pub Name : Type 0
Name = List String

-- A cleaned name, its last part first. "." is the relative path without parts, "/" the rooted one.
pub record FilePath : Type 0 where
  pub rooted : Bool
  pub parts : List String

abbrev pub file_path : Bool → List String → FilePath
file_path r ps = record { rooted = r; parts = ps }

unfoldable pub is_rooted : Name → Bool
is_rooted [] = false
is_rooted (x ∷ []) = false
is_rooted (x ∷ y ∷ n) = str_eq x ""

-- `..` takes the last part away; at the root it stays there, and a relative path keeps it
unfoldable pub up : Bool → List String → List String
up true [] = []
up false [] = ".." ∷ []
up r (x ∷ ps) = if str_eq x ".." then ".." ∷ x ∷ ps else ps

unfoldable pub clean_part : Bool → List String → String → List String
unfolding up
clean_part r ps x =
    if str_eq x "" || str_eq x "." then ps else if str_eq x ".." then up r ps else x ∷ ps

unfoldable pub clean_parts : Bool → List String → Name → List String
unfolding clean_part
clean_parts r ps [] = ps
clean_parts r ps (x ∷ n) = clean_parts r (clean_part r ps x) n

-- path.Clean
unfoldable pub clean : Name → FilePath
unfolding is_rooted clean_parts
clean n = file_path (is_rooted n) (clean_parts (is_rooted n) [] n)

unfoldable pub tail : List String → List String
tail [] = []
tail (x ∷ ps) = ps

-- path.Dir of a cleaned name: "/" and "." are their own
unfoldable pub dir : FilePath → FilePath
unfolding tail
dir p = file_path p.rooted (tail p.parts)

-- path.Base of a cleaned name
unfoldable pub base : FilePath → String
base p = elim p.parts [ [] ↦ if p.rooted then "/" else "." | x ∷ ps ↦ x ]

last_part : String → Name → String
last_part found [] = found
last_part found (x ∷ n) = last_part (if str_eq x "" then found else x) n

-- path.Base of a name as it is written
unfoldable pub written_base : Name → String
unfolding last_part
written_base [] = "."
written_base (x ∷ []) = if str_eq x "" then "." else x
written_base (x ∷ y ∷ n) = last_part "/" (x ∷ y ∷ n)

-- `name == "."`
unfoldable pub is_dot : Name → Bool
is_dot (x ∷ []) = str_eq x "."
is_dot _ = false

unfoldable pub is_here : FilePath → Bool
is_here p = elim p.parts [ [] ↦ not p.rooted | x ∷ ps ↦ false ]

unfoldable pub all_plain : Name → Bool
all_plain [] = true
all_plain (x ∷ n) = not (str_eq x "" || str_eq x "." || str_eq x "..") && all_plain n

-- fs.ValidPath of a name that is valid UTF-8: its test for that is left out.
unfoldable pub is_valid : Name → Bool
unfolding all_plain is_dot
is_valid [] = false
is_valid (x ∷ n) = is_dot (x ∷ n) || all_plain (x ∷ n)

unfoldable pub parts_eq : List String → List String → Bool
parts_eq [] [] = true
parts_eq (x ∷ ps) (y ∷ qs) = if str_eq x y then parts_eq ps qs else false
parts_eq _ _ = false

unfoldable pub bool_eq : Bool → Bool → Bool
bool_eq true b = b
bool_eq false b = not b

-- two cleaned names are the same key of the map
unfoldable pub path_eq : FilePath → FilePath → Bool
unfolding parts_eq bool_eq
path_eq p q = if bool_eq p.rooted q.rooted then parts_eq p.parts q.parts else false

pub parts_eq_iff : (ps qs : List String) → (parts_eq ps qs ≡ true) ↔ (ps ≡ qs)
unfolding parts_eq
parts_eq_iff [] [] = ground arith
parts_eq_iff [] (y ∷ qs) = (λ h. cc, λ h. cc)
parts_eq_iff (x ∷ ps) [] = (λ h. cc, λ h. cc)
parts_eq_iff (x ∷ ps) (y ∷ qs) = ground (arith, eq_iff x y, parts_eq_iff ps qs)

pub bool_eq_iff : (a b : Bool) → (bool_eq a b ≡ true) ↔ (a ≡ b)
unfolding bool_eq
bool_eq_iff true true = ground arith
bool_eq_iff true false = ground arith
bool_eq_iff false true = ground arith
bool_eq_iff false false = ground arith

pub path_eq_iff : (p q : FilePath) → (path_eq p q ≡ true) ↔ (p ≡ q)
unfolding path_eq
path_eq_iff p q = ground (arith, bool_eq_iff p.rooted q.rooted, parts_eq_iff p.parts q.parts)

-- `strings.TrimPrefix(name, dir + "/")` on the parts of two relative paths, where the prefix is there
unfoldable pub strip : (under : List String) → List String → Option (List String)
strip under [] = none
strip under (x ∷ ps) =
    if parts_eq ps under
    then some (x ∷ [])
    else elim (strip under ps) [ none ↦ none | some qs ↦ some (x ∷ qs) ]
