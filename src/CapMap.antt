-- ===== src/CapMap.antt =====
-- capslock-cm/src/lib.rs: the map of capabilities that is read from a file when the program is built, and
-- the lookup that is generated from it. A text is here the list of its characters.
pub mod Tokens
pub mod Table
pub mod Lines
mod Tests
use cargo_capslock.Prelude.{
  ℕ, suc, ◌≡◌, ◌==◌, if◌then◌else◌, Bool, true, false, ◌&&◌, ◌||◌, Option, none, some, List, [],
  ◌∷◌, map, reverse, Text, text_ord, Result, ok_or, and_then, leb,
}
use cargo_capslock.Collections.OrdMap
use cargo_capslock.Collections.OrdMap.{OrdMap}
use cargo_capslock.Collections.OrdSet
use cargo_capslock.Collections.OrdSet.{OrdSet}
use cargo_capslock.Capslock.Caps.{Capability, capability_ord}
use cargo_capslock.Capslock.Caps.Names.{to_string, from_str}
use cargo_capslock.Paths.{is_absolute, join}

-- `char::is_whitespace`, the property `White_Space` of Unicode.
unfoldable pub is_whitespace : ℕ → Bool
is_whitespace c =
    (leb 9 c && leb c 13)
    || c == 32
    || c == 133
    || c == 160
    || c == 5760
    || (leb 8192 c && leb c 8202)
    || c == 8232
    || c == 8233
    || c == 8239
    || c == 8287
    || c == 12288

-- `char::is_ascii_whitespace`
unfoldable pub is_ascii_whitespace : ℕ → Bool
is_ascii_whitespace c = c == 32 || c == 9 || c == 10 || c == 12 || c == 13

abbrev pub trim_start : Text → Text
trim_start [] = []
trim_start (c ∷ s) = let rest = trim_start s in if is_whitespace c then rest else c ∷ s

abbrev pub trim_end : Text → Text
trim_end s = reverse (trim_start (reverse s))

-- `str::trim`
unfoldable pub trim : Text → Text
trim s = trim_end (trim_start s)

-- A piece that is not empty is a field.
abbrev pub push_field : Text → List Text → List Text
push_field [] fields = fields
push_field (c ∷ w) fields = (c ∷ w) ∷ fields

-- The piece that a text begins with, up to the first white space, and the fields behind it.
abbrev pub pieces : Text → Text × List Text
pieces [] = ([], [])
pieces (c ∷ s) =
    let (w, fields) = pieces s in
    if is_ascii_whitespace c then ([], push_field w fields) else (c ∷ w, fields)

-- `str::split_ascii_whitespace`
unfoldable pub split_ascii_whitespace : Text → List Text
split_ascii_whitespace s = let (w, fields) = pieces s in push_field w fields

-- `Error`, without the path, the place in the source and the causes.
pub data Error : Type 0 where
  insufficient_fields : ℕ → Error
  malformed_capability_name : Text → ℕ → Error
  manifest_path open_input read_input : Error

abbrev pub starts_with_hash : Text → Bool
starts_with_hash [] = false
starts_with_hash (c ∷ _) = c == b'#'

abbrev pub is_empty : Text → Bool
is_empty [] = true
is_empty (_ ∷ _) = false

-- The test for a comment or an empty line.
unfoldable pub is_skipped : Text → Bool
is_skipped content = starts_with_hash (trim_start content) || is_empty (trim content)

-- The fields behind the name, up to the first that is no capability.
unfoldable pub parse_caps : ℕ → List Text → Result Error (List Capability)
parse_caps line [] = Result.ok []
parse_caps line (cap ∷ fields) =
    and_then (ok_or (from_str cap) (Error.malformed_capability_name cap line))
      λ c. and_then (parse_caps line fields) λ cs. Result.ok (c ∷ cs)

-- The fields of a line that is not skipped: two at least.
abbrev pub entry_of : ℕ → List Text → Result Error (Text × List Capability)
entry_of line [] = Result.err (Error.insufficient_fields line)
entry_of line (name ∷ []) = Result.err (Error.insufficient_fields line)
entry_of line (name ∷ cap ∷ fields) =
    and_then (parse_caps line (cap ∷ fields)) λ caps. Result.ok (name, caps)

-- One round of the loop over the lines: `none` for a line that is skipped. The number is that of the
-- line, from 1.
unfoldable pub parse_line : ℕ → Text → Result Error (Option (Text × List Capability))
parse_line line content =
    if is_skipped content
    then Result.ok none
    else and_then (entry_of line (split_ascii_whitespace (trim content))) λ e. Result.ok (some e)

-- `CapSet`: the capabilities that a `HashSet` has are kept as a set in order; the order in which one is
-- iterated is a parameter.
abbrev pub CapSet : Type 0
CapSet = OrdMap Text (OrdSet Capability)

-- `CapSet::insert`: a name that is there already is replaced.
unfoldable pub insert_caps : Text → List Capability → CapSet → CapSet
insert_caps name caps s = OrdMap.insert name (OrdSet.collect caps) s

abbrev pub insert_entry : Option (Text × List Capability) → CapSet → CapSet
insert_entry none s = s
insert_entry (some (name, caps)) s = insert_caps name caps s

-- The loop over the lines, each of which may fail to be read.
unfoldable pub parse_lines : ℕ → List (Option Text) → CapSet → Result Error CapSet
parse_lines line [] s = Result.ok s
parse_lines line (none ∷ lines) s = Result.err Error.read_input
parse_lines line (some content ∷ lines) s =
    and_then (parse_line line content) λ e. parse_lines (suc line) lines (insert_entry e s)

-- The path that is opened: a relative one stands below the directory of the manifest.
abbrev input_path : Option Text → Text → Result Error Text
input_path manifest path =
    if is_absolute path
    then Result.ok path
    else and_then (ok_or manifest Error.manifest_path) λ dir. Result.ok (join dir path)

-- The order in which the `HashSet` of a name is iterated: any, but with the capabilities of the set.
pub record Hashing : Type 0 where
  pub iter : Text → OrdSet Capability → List Capability
  pub iter-contains :
      (name : Text) (caps : OrdSet Capability) (c : Capability)
      → OrdSet.contains c (iter name caps) ≡ OrdSet.contains c caps

-- The generated initialiser of the table: for each name the names of its capabilities, which the running
-- program parses again.
abbrev pub Tokens : Type 0
Tokens = List (Text × List Text)

-- `impl ToTokens for CapSet` and for `Cap`
unfoldable pub to_tokens : Hashing → CapSet → Tokens
to_tokens hashing [] = []
to_tokens hashing ((name, caps) ∷ s) =
    (name, map to_string (hashing.iter name caps)) ∷ to_tokens hashing s

-- `Func::generate`, of the directory of the manifest and of what opening a file gives.
unfoldable pub generate :
    Hashing → Option Text → (Text → Option (List (Option Text))) → Text → Result Error Tokens
generate hashing manifest open_file path = and_then (input_path manifest path) λ file.
    and_then (ok_or (open_file file) Error.open_input)
      λ lines. and_then (parse_lines 1 lines []) λ caps. Result.ok (to_tokens hashing caps)

-- What the generated code does with its names; `none` is a panic of `unwrap`.
abbrev pub run_caps : List Text → Option (List Capability)
run_caps [] = some []
run_caps (name ∷ names) = elim (from_str name) [
  | none ↦ none
  | some c ↦ elim (run_caps names) [ none ↦ none | some cs ↦ some (c ∷ cs) ]
]

abbrev pub run_entries : Tokens → CapSet → Option CapSet
run_entries [] s = some s
run_entries ((name, caps) ∷ tokens) s = elim (run_caps caps) [
  | none ↦ none
  | some cs ↦ run_entries tokens (OrdMap.insert name (OrdSet.collect cs) s)
]

-- The table of the running program.
unfoldable pub run_tokens : Tokens → Option CapSet
run_tokens tokens = run_entries tokens []

abbrev pub iterated : Hashing → Text → Option (OrdSet Capability) → Option (List Capability)
iterated hashing syscall none = none
iterated hashing syscall (some caps) = some (hashing.iter syscall caps)

-- The generated function: the capabilities in the order that the running program iterates them.
unfoldable pub lookup_caps : Hashing → CapSet → Text → Option (List Capability)
lookup_caps hashing caps syscall = iterated hashing syscall (OrdMap.lookup syscall caps)
