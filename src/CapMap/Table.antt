-- ===== src/CapMap/Table.antt =====
-- capslock-cm/src/lib.rs: the table of the running program against the lines of the file.
use cargo_capslock.Prelude.{
  ℕ, suc, ◌⊎◌, Bool-cases, true, false, ◌+◌, ◌≡◌, refl, ap, sym, ◌∙◌, if◌then◌else◌, Option, none,
  some, List, [], ◌∷◌, ◌++◌, arith, Text, text_ord, Result, beq, length, inl, inr, and_then-eq-ok,
  ok_or-eq-ok, ok_or, subst, Result-cases,
}
use cargo_capslock.Collections.OrdMap
use cargo_capslock.Collections.OrdMap.{OrdMap}
use cargo_capslock.Collections.OrdSet
use cargo_capslock.Collections.OrdSet.{OrdSet}
use cargo_capslock.Capslock.Caps.{Capability, capability_ord}
use cargo_capslock.Paths.{is_absolute, join}
use cargo_capslock.CapMap.{
  Error, CapSet, Hashing, Tokens, iterated, parse_line, insert_caps, insert_entry, parse_lines,
  to_tokens, generate, input_path, run_entries, run_tokens, lookup_caps,
}
use cargo_capslock.CapMap.Tokens.{
  or_else, as_set, again, run_entries-to_tokens, or_else-none, SameCaps, iterated-SameCaps,
}

insert_entry-IsSorted :
    (e : Option (Text × List Capability)) (s : CapSet)
    → OrdMap.IsSorted s
    → OrdMap.IsSorted (insert_entry e s)
unfolding insert_caps
insert_entry-IsSorted none s h = h
insert_entry-IsSorted (some (name, caps)) s h =
    OrdMap.insert-IsSorted name (OrdSet.collect caps) s h

parse_lines-IsSorted :
    (n : ℕ) (lines : List (Option Text)) (s s' : CapSet)
    → parse_lines n lines s ≡ Result.ok s'
    → OrdMap.IsSorted s
    → OrdMap.IsSorted s'
unfolding parse_lines
parse_lines-IsSorted n [] s s' e h = let same : s ≡ s' = cc in rw (← same) h
parse_lines-IsSorted n (none ∷ lines) s s' e h = cc
parse_lines-IsSorted n (some content ∷ lines) s s' e h =
    let (entry, _, rest) = and_then-eq-ok (parse_line n content) _ e in
    parse_lines-IsSorted (suc n) lines (insert_entry entry s) s' rest
      (insert_entry-IsSorted entry s h)

-- The capabilities that one line lists for a name.
abbrev pub line_caps :
    Text → Result Error (Option (Text × List Capability)) → Option (List Capability)
line_caps k (Result.ok (some (name, caps))) = if beq k name then some caps else none
line_caps k (Result.ok none) = none
line_caps k (Result.err _) = none

-- The capabilities that the last line with the name lists for it; the number is that of the first line.
abbrev pub last_caps : Text → ℕ → List (Option Text) → Option (List Capability)
last_caps k n [] = none
last_caps k n (none ∷ lines) = last_caps k (suc n) lines
last_caps k n (some content ∷ lines) =
    or_else (last_caps k (suc n) lines) (line_caps k (parse_line n content))

lookup-insert_entry :
    (k : Text) (e : Option (Text × List Capability)) (s : CapSet)
    → OrdMap.lookup k (insert_entry e s)
      ≡ or_else (as_set (line_caps k (Result.ok e))) (OrdMap.lookup k s)
unfolding insert_caps
lookup-insert_entry k none s = refl
lookup-insert_entry k (some (name, caps)) s =
    ground (arith, OrdMap.lookup-insert k name (OrdSet.collect caps) s)

as_set-or_else :
    (a b : Option (List Capability)) (r : Option (OrdSet Capability))
    → or_else (as_set a) (or_else (as_set b) r) ≡ or_else (as_set (or_else a b)) r
as_set-or_else none b r = refl
as_set-or_else (some a) b r = refl

lookup-parse_lines :
    (k : Text) (n : ℕ) (lines : List (Option Text)) (s s' : CapSet)
    → parse_lines n lines s ≡ Result.ok s'
    → OrdMap.lookup k s' ≡ or_else (as_set (last_caps k n lines)) (OrdMap.lookup k s)
unfolding parse_lines
lookup-parse_lines k n [] s s' e = let same : s ≡ s' = cc in ap (OrdMap.lookup k) (sym same)
lookup-parse_lines k n (none ∷ lines) s s' e = cc
lookup-parse_lines k n (some content ∷ lines) s s' e =
    let (entry, parsed, rest) = and_then-eq-ok (parse_line n content) _ e in
    let later = last_caps k (suc n) lines in
    lookup-parse_lines k (suc n) lines (insert_entry entry s) s' rest
    ∙ ap (or_else (as_set later)) (lookup-insert_entry k entry s)
    ∙ as_set-or_else later (line_caps k (Result.ok entry)) (OrdMap.lookup k s)
    ∙ ap (λ r. or_else (as_set (or_else later (line_caps k r))) (OrdMap.lookup k s)) (sym parsed)

-- The file that is read: an absolute path itself, and a relative one below the directory of the manifest.
abbrev pub IsInput : Option Text → Text → Text → Type 0
IsInput manifest path file =
    ((is_absolute path ≡ true) × (file ≡ path))
    ⊎ ((dir : Text) × (is_absolute path ≡ false) × (manifest ≡ some dir) × (file ≡ join dir path))

input_path-IsInput :
    (manifest : Option Text) (path file : Text)
    → input_path manifest path ≡ Result.ok file
    → IsInput manifest path file
input_path-IsInput manifest path file h = elim (Bool-cases (is_absolute path)) [
  | inl e ↦ inl (e, cc (rw e at h))
  | inr e ↦
      let (dir, there, joined) =
        and_then-eq-ok (ok_or manifest Error.manifest_path) _ (rw e at h) in
      inr (dir, e, ok_or-eq-ok manifest Error.manifest_path there, cc)
]

-- If the tokens of the lookup are generated, then the file was opened, which is the path itself if it is
-- absolute and else the path below the directory of the manifest, and initialising the generated table does
-- not panic: whatever order sets are iterated in, when the tokens are generated and when the program
-- runs, it finds for every name exactly the capabilities that the last line of the file with that name
-- lists, and no other name.
pub generate_correct :
    (build run : Hashing) (manifest : Option Text) (open_file : Text → Option (List (Option Text)))
    (path : Text) (tokens : Tokens)
    → generate build manifest open_file path ≡ Result.ok tokens
    → (file : Text) × (lines : List (Option Text)) × (caps : CapSet) × IsInput manifest path file
      × (open_file file ≡ some lines)
      × (run_tokens tokens ≡ some caps)
      × ((name : Text) → SameCaps (lookup_caps run caps name) (last_caps name 1 lines))
unfolding generate run_tokens lookup_caps
generate_correct build run manifest open_file path tokens e =
    let (file, input, e₁) = and_then-eq-ok (input_path manifest path) _ e in
    let (lines, opened, e₂) = and_then-eq-ok (ok_or (open_file file) Error.open_input) _ e₁ in
    let (caps, parsed, e₃) = and_then-eq-ok (parse_lines 1 lines []) _ e₂ in
    let same : tokens ≡ to_tokens build caps = cc in
    let (table, made, at) =
      run_entries-to_tokens build caps [] (parse_lines-IsSorted 1 lines [] caps parsed tt) in
    (
      file,
      lines,
      table,
      input_path-IsInput manifest path file input,
      ground arith,
      ap (λ (ts : Tokens). run_entries ts []) same ∙ made,
      λ name.
          let found =
            at name
            ∙ or_else-none (again build name caps)
            ∙ ap (λ (o : Option (OrdSet Capability)). as_set (iterated build name o))
                (lookup-parse_lines name 1 lines [] caps parsed
                  ∙ or_else-none (as_set (last_caps name 1 lines))) in
          rw found (iterated-SameCaps build run name (last_caps name 1 lines)),
    )

-- The line that parsing stops at, for each way that it can fail.
abbrev pub StopsAt : ℕ → Option Text → Error → Type 0
StopsAt n none e = e ≡ Error.read_input
StopsAt n (some content) e = parse_line n content ≡ Result.err e

abbrev pub IsParsed : ℕ → List (Option Text) → Type 0
IsParsed n [] = Unit
IsParsed n (none ∷ lines) = ⊥
IsParsed n (some content ∷ lines) =
    ((e : Option (Text × List Capability)) × (parse_line n content ≡ Result.ok e))
    × IsParsed (suc n) lines

StopsAt-first :
    (n : ℕ) (content : Text) (e : Error)
    → parse_line n content ≡ Result.err e
    → StopsAt (n + 0) (some content) e
StopsAt-first n content e h = subst (λ (k : ℕ). parse_line k content ≡ Result.err e) (omega arith) h

-- Parsing fails at the first line that cannot be read or parsed, with its error and its number: all
-- lines before it can be parsed.
pub parse_lines_fails :
    (n : ℕ) (lines : List (Option Text)) (s : CapSet) (e : Error)
    → parse_lines n lines s ≡ Result.err e
    → (before : List (Option Text)) × (line : Option Text) × (behind : List (Option Text)) × (lines
        ≡ before ++ line ∷ behind)
      × IsParsed n before
      × StopsAt (n + length before) line e
unfolding parse_lines
parse_lines_fails n [] s e h = cc
parse_lines_fails n (none ∷ lines) s e h = ([], none, lines, refl, tt, cc)
parse_lines_fails n (some content ∷ lines) s e h = elim (Result-cases (parse_line n content)) [
  | inr (x, stops) ↦
      let same : x ≡ e = cc (rw stops at h) in
      ([], some content, lines, refl, tt, StopsAt-first n content e (rw (← same) stops))
  | inl (entry, parsed) ↦
      let (before, line, behind, split, good, stops) =
        parse_lines_fails (suc n) lines (insert_entry entry s) e (rw parsed at h) in
      (
        some content ∷ before,
        line,
        behind,
        ap (λ (ls : List (Option Text)). some content ∷ ls) split,
        ((entry, parsed), good),
        subst (λ (k : ℕ). StopsAt k line e) (omega arith) stops,
      )
]
