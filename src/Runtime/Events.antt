-- ===== src/Runtime/Events.antt =====
-- src/runtime/mod.rs: the events of the tracer, and what each does to the state of the analysis.
pub mod Known
pub mod Pids
pub mod Stays
pub mod Reporting
pub mod Lasts
pub mod Chain
pub mod Typed
pub mod Start
pub mod Counting
pub mod Ledger
pub mod Accounts
pub mod Stacks
pub mod Frames
pub mod Traces
pub mod Pictured
mod Tests
use cargo_capslock.Prelude.{
  ℕ, ◌==◌, ◌+◌, ◌≡◌, if◌then◌else◌, Bool, true, false, not, ◌&&◌, Option, none, some, List, [], ◌∷◌,
  ◌++◌, Text, Result, text_ord, beq, ok_or,
}
use cargo_capslock.Collections.OrdSet
use cargo_capslock.Collections.OrdSet.{OrdSet}
use cargo_capslock.Capslock.Caps.{Capability}
use cargo_capslock.Capslock.Caps.Types.{CapabilityType}
use cargo_capslock.Capslock.Report.{Function, Location, insert_syscall}
use cargo_capslock.Functions.Build.{Symbolic, ToFunction, to_function_with_caps}
use cargo_capslock.Runtime.Platform.{Platform, Procfs}
use cargo_capslock.Runtime.Fd.{Error}
use cargo_capslock.Runtime.Process.{
  State, Map, StartBehaviour, Exec, new_map, exit, get_active, set_active, spawn, add_edge,
  extend_caps, get_start_symbol, is_waiting_for_start, start_seen, upsert_function,
}
use cargo_capslock.Runtime.Syscall.{Syscall, Meta, CapTable, try_from_syscall, into_capabilities}
use cargo_capslock.Runtime.Lookup.{Lookup, DebugInfo, find_location, enabled, disabled}

-- A stack frame as libunwind shows it: the instruction pointer, the name of the procedure with the
-- offset in it, and where the procedure starts. Each may fail to be read.
pub record Frame : Type 0 where
  pub ip : Option ℕ
  pub name : Option (Text × ℕ)
  pub start_ip : Option ℕ

-- The name of a frame that is at the instruction that its name and offset say.
unfoldable pub frame_name : Frame → ℕ → Option Text
frame_name f ip = elim f.name [
  | none ↦ none
  | some (name, offset) ↦ elim f.start_ip [
    | none ↦ none
    | some start ↦ if ip == start + offset then some name else none
  ]
]

-- How the walk over the stack ends: at a frame without an instruction pointer, at the start symbol, or at
-- the end with the names that were seen.
pub data Walk : Type 0 where
  unreadable at_start : Walk
  finished : List Text → Walk

abbrev pub is_start : Option Text → Text → Bool
is_start none name = false
is_start (some after) name = beq name after

-- The loop over the frames; the last argument holds the names so far.
unfoldable pub walk : Option Text → List Frame → List Text → Walk
walk start [] seen = Walk.finished seen
walk start (f ∷ fs) seen = elim f.ip [
  | none ↦ Walk.unreadable
  | some ip ↦ elim (frame_name f ip) [
    | none ↦ walk start fs seen
    | some name ↦
        let rest = walk start fs (seen ++ name ∷ []) in
        if is_start start name then Walk.at_start else rest
  ]
]

-- What unwinding the stack of a process gives, unless ptrace or the cursor fails. libunwind fails to make
-- the address space, which is unwrapped, only where no memory is left; that is not modelled.
abbrev pub Stack : Type 0
Stack = Option (List Frame)

abbrev pub frame_type : Option ℕ → CapabilityType
frame_type none = CapabilityType.direct
frame_type (some _) = CapabilityType.transitive

-- What the analysis is given and does not change: the demangler, what each reading of an executable gives,
-- and the capabilities of syscalls.
pub record Env : Type 0 where
  pub symbolic : Symbolic
  pub debug : DebugInfo
  pub table : CapTable

module _ (P : Platform) (env : Env) where
  open P use {Fd, Sysno}
  open env use {symbolic, debug, table}

  -- `GlobalState`; `address_spaces` is a cache of libunwind's, which changes no result.
  pub record GlobalState : Type 0 where
    pub processes : Map P
    pub include_syscalls : Bool
    pub location_lookup : Lookup

  -- `GlobalState::new`
  unfoldable pub new_state : ℕ → Exec → Text → StartBehaviour → Bool → Bool → GlobalState
  unfolding new_map
  new_state pid exec wd start include_syscalls lookup_locations = record {
    processes = new_map P pid exec wd start;
    include_syscalls = include_syscalls;
    location_lookup = if lookup_locations then enabled else disabled;
  }

  -- The state of the loop over the names: the process, the locations and the last frame seen.
  pub record Recorded : Type 0 where
    pub state : State P
    pub lookup : Lookup
    pub child_idx : Option ℕ

  abbrev add_call : ℕ → Option ℕ → State P → State P
  add_call func_idx none s = s
  add_call func_idx (some child_idx) s = add_edge P func_idx child_idx s

  -- The syscall of a direct frame, where syscalls are asked for.
  abbrev note_syscall : Bool → CapabilityType → Option Sysno → Function → Function
  note_syscall true CapabilityType.direct (some nr) f = insert_syscall (P.to_string nr) f
  note_syscall true CapabilityType.direct none f = f
  note_syscall true CapabilityType.unspecified nr f = f
  note_syscall true CapabilityType.transitive nr f = f
  note_syscall false ty nr f = f

  -- One name of the stack whose function could be built.
  unfoldable pub record_function : ℕ → Text → Function → Recorded → Recorded
  record_function pid name func r =
      let (lookup', location) = find_location debug pid name r.lookup in
      let (state', func_idx) =
        upsert_function P name (record func { location = location }) r.state in
      record {
        state = add_call func_idx r.child_idx state';
        lookup = lookup';
        child_idx = some func_idx;
      }

  unfoldable pub record_name :
      Bool → ℕ → Option Sysno → OrdSet Capability → Text → Recorded → Recorded
  record_name include_syscalls pid nr caps name r =
      let ty = frame_type r.child_idx in
      elim (to_function_with_caps symbolic (record { debugloc = none; mangled_name = name }) ty
        caps) [
          | Result.err _ ↦ r
          | Result.ok func ↦ record_function pid name (note_syscall include_syscalls ty nr func) r
        ]

  -- The loop over the names of the stack, the innermost first.
  unfoldable pub record_names :
      Bool → ℕ → Option Sysno → OrdSet Capability → List Text → Recorded → Recorded
  record_names include_syscalls pid nr caps [] r = r
  record_names include_syscalls pid nr caps (name ∷ names) r =
      record_names include_syscalls pid nr caps names
        (record_name include_syscalls pid nr caps name r)

  -- The capabilities of a syscall, for a process that has started.
  abbrev pub count_caps : OrdSet Capability → State P → State P
  count_caps caps s = if not (is_waiting_for_start P s) then extend_caps P caps s else s

  -- The end of `handle_syscall_exit`, by how the walk over the stack ends.
  unfoldable pub after_walk :
      Bool → ℕ → Option Sysno → OrdSet Capability → Walk → State P → Lookup → State P × Lookup
  after_walk include_syscalls pid nr caps Walk.unreadable s l = (s, l)
  after_walk include_syscalls pid nr caps Walk.at_start s l = (start_seen P s, l)
  after_walk include_syscalls pid nr caps (Walk.finished names) s l =
      if not (is_waiting_for_start P s)
      then (let r =
            record_names include_syscalls pid nr caps names
              (record { state = s; lookup = l; child_idx = none }) in
          (r.state, r.lookup))
      else (s, l)

  -- A change of the active process, and of the locations.
  abbrev pub put : ℕ → State P → Lookup → GlobalState → GlobalState
  put pid s l g = record g { processes = set_active P pid s g.processes; location_lookup = l }

  -- `handle_syscall_entry`: the data that the tracer keeps until the syscall returns.
  unfoldable pub handle_syscall_entry :
      Procfs P
      → ℕ
      → Sysno
      → Syscall P
      → GlobalState
      → GlobalState × Result (Error Fd Sysno) (Meta P)
  handle_syscall_entry proc pid nr syscall g = elim (get_active P pid g.processes) [
    | none ↦ (g, Result.err (Error.process_unknown pid))
    | some s ↦
        let (s', r) = try_from_syscall P proc nr syscall s in (put pid s' g.location_lookup g, r)
  ]

  -- From the capabilities on.
  abbrev pub exit_with :
      ℕ
      → Option Sysno
      → Stack
      → GlobalState
      → State P × Result (Error Fd Sysno) (OrdSet Capability)
      → GlobalState × Option (Error Fd Sysno)
  exit_with pid nr stack g (s, Result.err e) = (put pid s g.location_lookup g, some e)
  exit_with pid nr stack g (s, Result.ok caps) =
      let s' = count_caps caps s in
      elim stack [
        | none ↦ (put pid s' g.location_lookup g, some Error.unwind)
        | some frames ↦
            let (s'', l) =
              after_walk g.include_syscalls pid nr caps (walk (get_start_symbol P s') frames []) s'
                g.location_lookup in
            (put pid s'' l g, none)
      ]

  -- `handle_syscall_exit`, of the data kept since the entry, the 64 bits returned, the syscall if the
  -- event has it, and the stack.
  unfoldable pub handle_syscall_exit :
      Procfs P
      → ℕ
      → Option (Meta P)
      → ℕ
      → Option Sysno
      → Stack
      → GlobalState
      → GlobalState × Option (Error Fd Sysno)
  handle_syscall_exit proc pid none sval nr stack g = (g, some Error.syscall_meta_missing)
  handle_syscall_exit proc pid (some meta) sval nr stack g = elim (get_active P pid g.processes) [
    | none ↦ (g, some (Error.process_unknown pid))
    | some s ↦ exit_with pid nr stack g (into_capabilities P table proc meta sval s)
  ]

  -- `Event`: the processes and the data of each kind that is handled.
  pub data Event : Type 0 where
    clone : ℕ → ℕ → Event
    exited : ℕ → Event
    syscall_entry : Procfs P → ℕ → Sysno → Syscall P → Event
    -- with the flag of `is_error`
    syscall_exit : Bool → Procfs P → ℕ → Option (Meta P) → ℕ → Option Sysno → Stack → Event
    other : Event

  abbrev failed : {A : Type 0} → Result (Error Fd Sysno) A → Option (Error Fd Sysno)
  failed (Result.ok _) = none
  failed (Result.err e) = some e

  -- `handle_event`
  unfoldable pub handle_event : Event → GlobalState → GlobalState × Option (Error Fd Sysno)
  handle_event (Event.clone parent child) g =
      let (m, e) = spawn P parent child g.processes in (record g { processes = m }, e)
  handle_event (Event.exited pid) g = (record g { processes = exit P pid g.processes }, none)
  handle_event (Event.syscall_entry proc pid nr syscall) g =
      let (g', r) = handle_syscall_entry proc pid nr syscall g in (g', failed r)
  handle_event (Event.syscall_exit true proc pid meta sval nr stack) g = (g, none)
  handle_event (Event.syscall_exit false proc pid meta sval nr stack) g =
      handle_syscall_exit proc pid meta sval nr stack g
  handle_event Event.other g = (g, none)

  -- The loop of `Runtime::main`: an event that fails is logged, and the analysis goes on.
  unfoldable pub handle_events : List Event → GlobalState → GlobalState
  handle_events [] g = g
  handle_events (e ∷ es) g = handle_events es (handle_event e g).0
