-- ===== src/Paths.antt =====
-- The operations of `std::path` on Unix that the program uses, over the bytes of a path: `join`,
-- `is_absolute`, `parent`, `file_name` and `extension`. The last three go through the components of the
-- path from its end: repeated separators and `.` are skipped.
pub mod Pieces
mod Tests
use cargo_capslock.Prelude.{
  ℕ, ◌==◌, if◌then◌else◌, Bool, true, false, Option, none, some, List, [], ◌∷◌, ◌++◌, Text,
  ends_with, ◌&&◌, reverse, rsplit_once,
}

abbrev pub slash : ℕ
slash = b'/'

abbrev pub dot : ℕ
dot = b'.'

unfoldable pub is_absolute : Text → Bool
is_absolute [] = false
is_absolute (c ∷ _) = c == slash

-- An absolute second path replaces the first; a separator is put where the first lacks it.
unfoldable pub join : Text → Text → Text
unfolding is_absolute
join [] q = q
join (c ∷ p) q =
    if is_absolute q
    then q
    else if ends_with slash (c ∷ p)
    then (c ∷ p) ++ q
    else (c ∷ p) ++ (slash ∷ q)

-- What stands before the components: the root, or a `.` that the path begins with.
abbrev prefix : Text → Text
prefix [] = []
prefix (c ∷ []) = if c == slash then slash ∷ [] else if c == dot then dot ∷ [] else []
prefix (c ∷ d ∷ _) =
    if c == slash then slash ∷ [] else if c == dot && d == slash then dot ∷ [] else []

abbrev body : Text → Text
body [] = []
body (c ∷ []) = if c == slash then [] else if c == dot then [] else c ∷ []
body (c ∷ d ∷ p) = if c == slash then d ∷ p else if c == dot && d == slash then d ∷ p else c ∷ d ∷ p

-- Of a reversed path: without the separators and the `.` components at its end.
abbrev trim_right : Text → Text
trim_right [] = []
trim_right (c ∷ []) = if c == slash then [] else if c == dot then [] else c ∷ []
trim_right (c ∷ d ∷ r) =
    let all = trim_right (d ∷ r) in
    let rest = trim_right r in
    if c == slash then all else if c == dot && d == slash then rest else c ∷ d ∷ r

-- Of a reversed path: the last component, and what is before its separator.
abbrev last_piece : Text → Text
last_piece [] = []
last_piece (c ∷ r) = if c == slash then [] else c ∷ last_piece r

abbrev before_piece : Text → Text
before_piece [] = []
before_piece (c ∷ r) = if c == slash then r else before_piece r

-- The last component, where the path has one that is no root and no leading `.`.
last_component : Text → Option Text
last_component p = elim (trim_right (reverse (body p))) [
  | [] ↦ none
  | c ∷ r ↦ some (reverse (last_piece (c ∷ r)))
]

-- `Path::parent`: none of the root and of the empty path.
unfoldable pub parent : Text → Option Text
parent p = elim (trim_right (reverse (body p))) [
  | [] ↦ elim (prefix p) [ [] ↦ none | c ∷ _ ↦ if c == slash then none else some [] ]
  | c ∷ r ↦ some (prefix p ++ reverse (trim_right (before_piece (c ∷ r))))
]

is_dot_dot : Text → Bool
is_dot_dot (c ∷ d ∷ []) = c == dot && d == dot
is_dot_dot _ = false

-- `Path::file_name`: the last component, if it is a name.
unfoldable pub file_name : Text → Option Text
unfolding last_component is_dot_dot
file_name p = elim (last_component p) [
  | none ↦ none
  | some c ↦ if is_dot_dot c then none else some c
]

-- `rsplit_file_at_dot`: a name that only begins with its last dot has no extension.
abbrev pub extension_of : Option (Text × Text) → Option Text
extension_of none = none
extension_of (some ([], after)) = none
extension_of (some (c ∷ before, after)) = some after

-- `Path::extension`
unfoldable pub extension : Text → Option Text
unfolding file_name
extension p = elim (file_name p) [
  | none ↦ none
  | some name ↦ extension_of (rsplit_once (dot ∷ []) name)
]
