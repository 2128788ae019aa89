-- ===== src/Runtime/Events/Ledger.antt =====
-- src/runtime/mod.rs: what the events of a run add to one process, for whatever is kept account of.
pub mod Came
pub mod Followed
use cargo_capslock.Prelude.{
  ℕ, ◌≡◌, ◌≢◌, refl, sym, ◌∙◌, subst, ◌⊎◌, inl, inr, Bool, true, false, ◌==◌, ==_iff, if◌then◌else◌,
  Option, none, some, List, [], ◌∷◌, ◌++◌, arith, All, All-map, Result, Option-cases, Bool-cases,
  nat_ord, Text,
}
use cargo_capslock.Collections.OrdMap
use cargo_capslock.Capslock.Report.{Report}
use cargo_capslock.Runtime.Platform.{Platform, Procfs}
use cargo_capslock.Runtime.Process.{
  State, Map, StartBehaviour, Exec, exit, spawn, get_active, set_active, into_process, into_report,
  new_map, fresh_state, inherited,
}
use cargo_capslock.Runtime.Process.Grows.{Leaves}
use cargo_capslock.Runtime.Process.Tree.{exit_lem}
use cargo_capslock.Runtime.Syscall.{Syscall, Meta, try_from_syscall, into_capabilities}
use cargo_capslock.Runtime.Syscall.Exit.{try_from_syscall-Leaves}
use cargo_capslock.Runtime.Events.{
  Env, GlobalState, Stack, Event, exit_with, handle_syscall_entry, handle_syscall_exit,
  handle_event, handle_events, new_state,
}
use cargo_capslock.Runtime.Events.Reporting.{children_of, into_report-first}

module _ (P : Platform) (env : Env) where
  -- The event creates no process with the pid, and does not end it unless it is the first one.
  abbrev pub Spares : ℕ → ℕ → Event P env → Type 0
  Spares pid first (Event.clone parent child) = child ≢ pid
  Spares pid first (Event.exited other) = (other ≢ pid) ⊎ (pid ≡ first)
  Spares pid first (Event.syscall_entry proc p nr syscall) = Unit
  Spares pid first (Event.syscall_exit error proc p meta sval nr stack) = Unit
  Spares pid first Event.other = Unit

  -- The event creates no process with the pid.
  abbrev pub CreatesOther : ℕ → Event P env → Type 0
  CreatesOther pid (Event.clone parent child) = child ≢ pid
  CreatesOther pid (Event.exited other) = Unit
  CreatesOther pid (Event.syscall_entry proc p nr syscall) = Unit
  CreatesOther pid (Event.syscall_exit error proc p meta sval nr stack) = Unit
  CreatesOther pid Event.other = Unit

  pub CreatesOther-Spares : (pid : ℕ) (e : Event P env) → CreatesOther pid e → Spares pid pid e
  CreatesOther-Spares pid (Event.clone parent child) h = h
  CreatesOther-Spares pid (Event.exited other) h = inr refl
  CreatesOther-Spares pid (Event.syscall_entry proc p nr syscall) h = tt
  CreatesOther-Spares pid (Event.syscall_exit error proc p meta sval nr stack) h = tt
  CreatesOther-Spares pid Event.other h = tt

-- An account of a process: entries, which of them the return of a syscall adds, and what it means that a
-- state has come from another by some entries.
pub record Ledger (P : Platform) (env : Env) : Type 1 where
  pub Entry : Type 0
  pub adds :
      Procfs P → Meta P → ℕ → Option P.Sysno → Stack → GlobalState P env → State P → List Entry
  pub Logs : State P → List Entry → State P → Type 0
  pub leaves : (s s' : State P) → Leaves P s s' → Logs s [] s'
  pub follows :
      (s t u : State P) (xs ys : List Entry) → Logs s xs t → Logs t ys u → Logs s (xs ++ ys) u
  pub returns :
      (proc : Procfs P) (pid : ℕ) (meta : Meta P) (sval : ℕ) (nr : Option P.Sysno) (stack : Stack)
      (g : GlobalState P env) (s : State P)
      → (t : State P) × ((exit_with P env pid nr stack g
            (into_capabilities P env.table proc meta sval s)).0.processes
          ≡ set_active P pid t g.processes)
        × Logs s (adds proc meta sval nr stack g s) t

module _ (P : Platform) (env : Env) (ledger : Ledger P env) where
  open P use {Fd, Sysno}
  open ledger use {Entry, adds, Logs, leaves, follows, returns}

  abbrev pub of_active :
      Procfs P
      → Meta P
      → ℕ
      → Option Sysno
      → Stack
      → GlobalState P env
      → Option (State P)
      → List Entry
  of_active proc meta sval nr stack g none = []
  of_active proc meta sval nr stack g (some s) = adds proc meta sval nr stack g s

  -- What an event adds for a process.
  abbrev pub added : ℕ → Event P env → GlobalState P env → List Entry
  added pid (Event.syscall_exit false proc p (some meta) sval nr stack) g =
      if pid == p
      then of_active proc meta sval nr stack g (OrdMap.lookup p g.processes.active)
      else []
  added pid (Event.syscall_exit false proc p none sval nr stack) g = []
  added pid (Event.syscall_exit true proc p meta sval nr stack) g = []
  added pid (Event.syscall_entry proc p nr syscall) g = []
  added pid (Event.clone parent child) g = []
  added pid (Event.exited p) g = []
  added pid Event.other g = []

  -- What the events of a run add for a process, each in the state that it comes in.
  abbrev pub logged : ℕ → List (Event P env) → GlobalState P env → List Entry
  logged pid [] g = []
  logged pid (e ∷ es) g = added pid e g ++ logged pid es (handle_event P env e g).0
