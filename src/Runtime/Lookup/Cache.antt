-- ===== src/Runtime/Lookup/Cache.antt =====
-- src/runtime/location.rs: what lookups find while executables change.
use cargo_capslock.Prelude.{
  ℕ, ◌≡◌, ◌≢◌, refl, sym, ◌∙◌, ap, if◌then◌else◌, Bool-cases, Option, none, some, List, [], ◌∷◌,
  Text, text_ord, nat_ord, beq, Option-cases, inl, inr, arith, All,
}
use cargo_capslock.Collections.OrdMap
use cargo_capslock.Collections.OrdMap.{OrdMap}
use cargo_capslock.Capslock.Report.{Location}
use cargo_capslock.Paths.{join, parent, file_name}
use cargo_capslock.Locations.{file_or_dots}
use cargo_capslock.Runtime.Lookup.{
  DebugFunction, DebugInfo, Locations, location_of, insert_functions, build, Lookup, enabled,
  disabled, process_in, name_in, find_location,
}

-- The place of the first line of a function: its file, below the compilation directory, and its number.
abbrev pub located : Text → Option (Text × ℕ) → Option Location
located dir none = none
located dir (some (file, line)) = some (record {
  directory = parent (join dir file);
  filename = file_or_dots (file_name (join dir file));
  line = line;
  column = none;
})

abbrev pub or_else : Option Location → Option Location → Option Location
or_else none r = r
or_else (some l) r = some l

-- The place of the last of the functions that has the name and a line.
abbrev pub place_of : Text → List (Option DebugFunction) → Option Location
place_of name [] = none
place_of name (none ∷ fs) = place_of name fs
place_of name (some f ∷ fs) =
    or_else (place_of name fs)
      (if beq name f.name then located f.compilation_dir f.first_line else none)

-- The place that a reading of an executable shows for a name.
abbrev pub shows : Text → Option (List (Option DebugFunction)) → Option Location
shows name none = none
shows name (some fs) = place_of name fs

lookup-insert_line :
    (name : Text) (f : DebugFunction) (m : Locations)
    → OrdMap.lookup name (elim f.first_line [
      | none ↦ m
      | some (file, line) ↦ OrdMap.insert f.name (location_of f.compilation_dir file line) m
    ])
      ≡ or_else
          (if beq name f.name then located f.compilation_dir f.first_line else none)
          (OrdMap.lookup name m)
unfolding location_of
lookup-insert_line name f m = by_line f.first_line
  where
    by_line :
        (o : Option (Text × ℕ))
        → OrdMap.lookup name (elim o [
          | none ↦ m
          | some (file, line) ↦ OrdMap.insert f.name (location_of f.compilation_dir file line) m
        ])
          ≡ or_else
              (if beq name f.name then located f.compilation_dir o else none)
              (OrdMap.lookup name m)
    by_line none = elim (Bool-cases (beq name f.name)) [ inl e ↦ rw e refl | inr e ↦ rw e refl ]
    by_line (some (file, line)) =
        OrdMap.lookup-insert name f.name (location_of f.compilation_dir file line) m
        ∙ elim (Bool-cases (beq name f.name)) [ inl e ↦ rw e refl | inr e ↦ rw e refl ]

or_else_assoc : (a b c : Option Location) → or_else a (or_else b c) ≡ or_else (or_else a b) c
or_else_assoc none b c = refl
or_else_assoc (some a) b c = refl

lookup-insert_functions :
    (name : Text) (fs : List (Option DebugFunction)) (m : Locations)
    → OrdMap.lookup name (insert_functions fs m) ≡ or_else (place_of name fs) (OrdMap.lookup name m)
unfolding insert_functions
lookup-insert_functions name [] m = refl
lookup-insert_functions name (none ∷ fs) m = lookup-insert_functions name fs m
lookup-insert_functions name (some f ∷ fs) m =
    lookup-insert_functions name fs _
    ∙ ap (or_else (place_of name fs)) (lookup-insert_line name f m)
    ∙ or_else_assoc (place_of name fs)
        (if beq name f.name then located f.compilation_dir f.first_line else none)
        (OrdMap.lookup name m)

or_else-none : (a : Option Location) → or_else a none ≡ a
or_else-none none = refl
or_else-none (some a) = refl

module _ (debug : DebugInfo) where
  build-shows :
      (reading pid : ℕ) (name : Text)
      → name_in name (build debug reading pid) ≡ shows name (debug reading pid)
  unfolding build
  build-shows reading pid name = by_reading (debug reading pid)
    where
      by_reading :
          (o : Option (List (Option DebugFunction)))
          → name_in name (elim o [ none ↦ none | some fs ↦ some (insert_functions fs []) ])
            ≡ shows name o
      by_reading none = refl
      by_reading (some fs) = lookup-insert_functions name fs [] ∙ or_else-none (place_of name fs)

  -- Lookups of names of processes in turn.
  abbrev pub after : List (ℕ × Text) → Lookup → Lookup
  after [] l = l
  after ((pid, name) ∷ asked) l = after asked (find_location debug pid name l).0

  -- Locations are looked up, and the entry of the process is this.
  abbrev Holds : ℕ → Option (Option Locations) → Lookup → Type 0
  Holds pid o l =
      (m : OrdMap ℕ (Option Locations)) × (l.processes ≡ some m) × (OrdMap.lookup pid m ≡ o)

  find_location-Holds :
      (q pid : ℕ) (name : Text) (o : Option (Option Locations)) (l : Lookup)
      → Holds pid o l
      → (q ≡ pid → o ≢ none)
      → Holds pid o (find_location debug q name l).0
  unfolding find_location
  find_location-Holds q pid name o l (m, e, at) h = elim (Option-cases (OrdMap.lookup q m)) [
    | inr (known, k) ↦ rw (e, k, process_in) (m, refl, at)
    | inl k ↦
        let built = build debug l.reads q in
        let apart : q ≢ pid =
          λ same. h same (sym at ∙ ap (λ (p : ℕ). OrdMap.lookup p m) (sym same) ∙ k) in
        rw (e, k, process_in)
          (OrdMap.insert q built m, refl, ground (arith, OrdMap.lookup-insert pid q built m, at))
  ]

  after-Holds :
      (asked : List (ℕ × Text)) (pid : ℕ) (o : Option (Option Locations)) (l : Lookup)
      → Holds pid o l
      → All (λ ((q, _) : ℕ × Text). q ≡ pid → o ≢ none) asked
      → Holds pid o (after asked l)
  after-Holds [] pid o l h all = h
  after-Holds ((q, name) ∷ asked) pid o l h (k, all) =
      after-Holds asked pid o (find_location debug q name l).0
        (find_location-Holds q pid name o l h k) all

  find_first :
      (pid : ℕ) (name : Text) (l : Lookup)
      → Holds pid none l
      → ((find_location debug pid name l).1 ≡ shows name (debug l.reads pid))
        × Holds pid (some (build debug l.reads pid)) (find_location debug pid name l).0
  unfolding find_location
  find_first pid name l (m, e, at) =
      let built = build debug l.reads pid in
      rw (e, at, process_in)
        (
          build-shows l.reads pid name,
          (OrdMap.insert pid built m, refl, ground (arith, OrdMap.lookup-insert pid pid built m)),
        )

  find_again :
      (pid : ℕ) (name : Text) (x : Option Locations) (l : Lookup)
      → Holds pid (some x) l
      → (find_location debug pid name l).1 ≡ name_in name x
  unfolding find_location
  find_again pid name x l (m, e, at) = rw (e, at, process_in) refl

  after-none :
      (asked : List (ℕ × Text)) (l : Lookup) → l.processes ≡ none → (after asked l).processes ≡ none
  after-none [] l e = e
  after-none ((q, name) ∷ asked) l e =
      after-none asked (find_location debug q name l).0 (unfold find_location in rw e refl)

  not_asked :
      (pid : ℕ) (name : Text) (l : Lookup)
      → l.processes ≡ none
      → (find_location debug pid name l).1 ≡ none
  unfolding find_location
  not_asked pid name l e = rw e refl

  all_some :
      (asked : List (ℕ × Text)) (pid : ℕ) (x : Option Locations)
      → All (λ ((q, _) : ℕ × Text). q ≡ pid → some x ≢ none) asked
  all_some [] pid x = tt
  all_some (_ ∷ asked) pid x = (λ _ e. cc, all_some asked pid x)

  abbrev unknown : Option (Option Locations)
  unknown = none

  all_others :
      (asked : List (ℕ × Text)) (pid : ℕ)
      → All (λ ((q, _) : ℕ × Text). q ≢ pid) asked
      → All (λ ((q, _) : ℕ × Text). q ≡ pid → unknown ≢ none) asked
  all_others [] pid h = tt
  all_others ((q, _) ∷ asked) pid (h, hs) = (λ same _. h same, all_others asked pid hs)

  -- The first lookup for a process finds what its executable shows when it is read then, which is the place
  -- of the last function that has the name and a line. Every later lookup for the process, of any name and after
  -- any other lookups, finds what was shown at that first one, whatever the process runs by then. Where
  -- locations are not asked for, nothing is found.
  pub find_location_lem :
      (before later : List (ℕ × Text)) (pid : ℕ) (name name' : Text)
      → All (λ ((q, _) : ℕ × Text). q ≢ pid) before
      → let l = after before enabled in
        let (l', found) = find_location debug pid name l in
        (found ≡ shows name (debug l.reads pid))
        × ((find_location debug pid name' (after later l')).1 ≡ shows name' (debug l.reads pid))
        × ((find_location debug pid name (after before disabled)).1 ≡ none)
  unfolding enabled disabled
  find_location_lem before later pid name name' h =
      let l = after before enabled in
      let fresh = after-Holds before pid none enabled ([], refl, refl) (all_others before pid h) in
      let (found, kept) = find_first pid name l fresh in
      let built = build debug l.reads pid in
      let l' = (find_location debug pid name l).0 in
      let still = after-Holds later pid (some built) l' kept (all_some later pid built) in
      (
        found,
        find_again pid name' built (after later l') still ∙ build-shows l.reads pid name',
        not_asked pid name (after before disabled) (after-none before disabled refl),
      )
