-- ===== src/Runtime/Lookup.antt =====
-- src/runtime/location.rs: the locations of a process's functions, by the debug information of its
-- executable, which is read once for each process, whatever it runs later.
pub mod Cache
use cargo_capslock.Prelude.{ℕ, suc, Option, none, some, List, [], ◌∷◌, Text, text_ord, nat_ord}
use cargo_capslock.Collections.OrdMap
use cargo_capslock.Collections.OrdMap.{OrdMap}
use cargo_capslock.Capslock.Report.{Location}
use cargo_capslock.Paths.{join, parent, file_name}
use cargo_capslock.Locations.{file_or_dots}

-- What is read of a function of `symbolic`'s debug session: its name, the compilation directory, and the
-- file and the line of its first line entry.
pub record DebugFunction : Type 0 where
  pub name : Text
  pub compilation_dir : Text
  pub first_line : Option (Text × ℕ)

-- What reading an executable gives, for the number of the reading and the process: its functions, each of
-- which may be unreadable, or `none` where the executable or its debug information cannot be read. What
-- `/proc/{pid}/exe` shows changes as time goes by, so that each reading may give something else.
abbrev pub DebugInfo : Type 0
DebugInfo = ℕ → ℕ → Option (List (Option DebugFunction))

-- `Process` of this file: a location for each name.
abbrev pub Locations : Type 0
Locations = OrdMap Text Location

unfoldable pub location_of : Text → Text → ℕ → Location
location_of dir file line =
    let path = join dir file in
    record {
      directory = parent path;
      filename = file_or_dots (file_name path);
      line = line;
      column = none;
    }

-- The loop of `Process::build`.
unfoldable pub insert_functions : List (Option DebugFunction) → Locations → Locations
insert_functions [] m = m
insert_functions (none ∷ fs) m = insert_functions fs m
insert_functions (some f ∷ fs) m = insert_functions fs (elim f.first_line [
  | none ↦ m
  | some (file, line) ↦ OrdMap.insert f.name (location_of f.compilation_dir file line) m
])

-- `Process::build`
unfoldable pub build : DebugInfo → ℕ → ℕ → Option Locations
build debug reading pid = elim (debug reading pid) [
  | none ↦ none
  | some fs ↦ some (insert_functions fs [])
]

-- `Lookup`, and how many executables have been read so far.
pub record Lookup : Type 0 where
  pub processes : Option (OrdMap ℕ (Option Locations))
  pub reads : ℕ

unfoldable pub disabled : Lookup
disabled = record { processes = none; reads = 0 }

unfoldable pub enabled : Lookup
enabled = record { processes = some []; reads = 0 }

-- The process of a lookup, built by the next reading where the map has no entry for it.
abbrev pub process_in : DebugInfo → ℕ → ℕ → OrdMap ℕ (Option Locations) → Lookup × Option Locations
process_in debug pid reads m = elim (OrdMap.lookup pid m) [
  | some known ↦ (record { processes = some m; reads = reads }, known)
  | none ↦
      let built = build debug reads pid in
      (record { processes = some (OrdMap.insert pid built m); reads = suc reads }, built)
]

abbrev pub name_in : Text → Option Locations → Option Location
name_in mangled none = none
name_in mangled (some locations) = OrdMap.lookup mangled locations

-- `Lookup::lookup`
unfoldable pub find_location : DebugInfo → ℕ → Text → Lookup → Lookup × Option Location
find_location debug pid mangled l = elim l.processes [
  | none ↦ (l, none)
  | some m ↦ let (l', locations) = process_in debug pid l.reads m in (l', name_in mangled locations)
]
