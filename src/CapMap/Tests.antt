-- ===== src/CapMap/Tests.antt =====
-- capslock-cm/src/lib.rs: a small file, and the properties of the generator at it.
use cargo_capslock.Prelude.{
  ◌+◌, beq, text_ord, if◌then◌else◌, ◌≡◌, refl, true, Option, none, some, List, [], ◌∷◌, ◌++◌, map,
  Text, codes, Result, length, reverse,
}
use cargo_capslock.Collections.OrdSet
use cargo_capslock.Capslock.Caps.{Capability, capability_ord}
use cargo_capslock.Capslock.Caps.Names.{to_string, from_str}
use cargo_capslock.Paths.{is_absolute, join}
use cargo_capslock.CapMap.{
  is_whitespace, is_ascii_whitespace, trim, split_ascii_whitespace, Error, CapSet, Hashing, Tokens,
  is_skipped, parse_caps, parse_line, insert_caps, parse_lines, to_tokens, generate, run_tokens,
  lookup_caps,
}
use cargo_capslock.CapMap.Tokens.{SameCaps}
use cargo_capslock.CapMap.Table.{
  last_caps, IsInput, IsParsed, StopsAt, generate_correct, parse_lines_fails,
}
use cargo_capslock.CapMap.Lines.{is_word, render, parse_line-render}

abbrev syscalls : List (Option Text)
syscalls =
    some (codes "# comment")
    ∷ some (codes "")
    ∷ some (codes "read CAPABILITY_SAFE")
    ∷ some (codes " read\tCAPABILITY_FILES  CAPABILITY_NETWORK ")
    ∷ []

abbrev broken : List (Option Text)
broken = some (codes "read CAPABILITY_SAFE") ∷ some (codes "write") ∷ []

abbrev open_syscalls : Text → Option (List (Option Text))
open_syscalls path = if beq path (codes "/src/syscalls.cm") then some syscalls else none

-- One program iterates in the order of the capabilities, the other against it.
abbrev forwards : Hashing
forwards = record { iter = λ name caps. caps; iter-contains = λ name caps c. refl }

abbrev backwards : Hashing
backwards = record {
  iter = λ name caps. reverse caps;
  iter-contains = λ name caps c. OrdSet.contains-reverse c caps;
}

abbrev read_tokens : Tokens
read_tokens = (codes "read", codes "CAPABILITY_NETWORK" ∷ codes "CAPABILITY_FILES" ∷ []) ∷ []

generate_run :
    generate backwards (some (codes "/src")) open_syscalls (codes "syscalls.cm")
    ≡ Result.ok read_tokens
unfolding generate is_absolute join parse_lines parse_line is_skipped trim split_ascii_whitespace
    is_whitespace is_ascii_whitespace parse_caps from_str to_string insert_caps to_tokens
generate_run = refl

generate_correct_example :
    (file : Text) × (lines : List (Option Text)) × (caps : CapSet) × IsInput
      (some (codes "/src"))
      (codes "syscalls.cm")
      file
    × (open_syscalls file ≡ some lines)
    × (run_tokens read_tokens ≡ some caps)
    × ((name : Text) → SameCaps (lookup_caps forwards caps name) (last_caps name 1 lines))
generate_correct_example =
    generate_correct backwards forwards (some (codes "/src")) open_syscalls (codes "syscalls.cm")
      read_tokens generate_run

broken_run : parse_lines 1 broken [] ≡ Result.err (Error.insufficient_fields 2)
unfolding parse_lines parse_line is_skipped trim split_ascii_whitespace is_whitespace
    is_ascii_whitespace parse_caps from_str to_string
broken_run = refl

parse_lines_fails_example :
    (before : List (Option Text)) × (line : Option Text) × (behind : List (Option Text)) × (broken
      ≡ before ++ line ∷ behind)
    × IsParsed 1 before
    × StopsAt (1 + length before) line (Error.insufficient_fields 2)
parse_lines_fails_example = parse_lines_fails 1 broken [] (Error.insufficient_fields 2) broken_run

read_word : is_word (codes "read") ≡ true
unfolding is_whitespace
read_word = refl

parse_line-render_example :
    parse_line 7 (render (codes "read") (map to_string (Capability.files ∷ [])))
    ≡ Result.ok (some (codes "read", Capability.files ∷ []))
parse_line-render_example = parse_line-render 7 (codes "read") Capability.files [] read_word refl
