-- ===== src/Runtime/Events/Ledger/Followed.antt =====
-- src/runtime/mod.rs: one process through a run, by the events of the run.
use cargo_capslock.Prelude.{
  ℕ, ◌≡◌, refl, Bool, some, List, [], ◌∷◌, arith, All, All-map, Result, nat_ord, Text,
}
use cargo_capslock.Collections.OrdMap
use cargo_capslock.Capslock.Report.{Report}
use cargo_capslock.Runtime.Platform.{Platform}
use cargo_capslock.Runtime.Process.{
  State, StartBehaviour, Exec, into_process, into_report, new_map, fresh_state,
}
use cargo_capslock.Runtime.Events.{Env, GlobalState, Event, handle_events, new_state}
use cargo_capslock.Runtime.Events.Reporting.{children_of, into_report-first}
use cargo_capslock.Runtime.Events.Ledger.{Ledger, Spares, CreatesOther, CreatesOther-Spares, logged}
use cargo_capslock.Runtime.Events.Ledger.Came.{handle_events-Came}

module _ (P : Platform) (env : Env) (ledger : Ledger P env) where
  open P use {Fd, Sysno}
  open ledger use {Entry, adds, Logs, leaves, follows, returns}

  -- A process that no event of the list creates again, nor ends unless it is the first one, is active
  -- after them, and has come by what the events add for it.
  pub handle_events-logged :
      (es : List (Event P env)) (g : GlobalState P env) (pid : ℕ) (s : State P)
      → All (Spares P env pid g.processes.init_pid) es
      → OrdMap.lookup pid g.processes.active ≡ some s
      → (s' : State P) × (OrdMap.lookup pid (handle_events P env es g).processes.active ≡ some s')
        × Logs s (logged P env ledger pid es g) s'
  handle_events-logged es g pid s h at = (handle_events-Came P env ledger es g pid s h at).0

  -- The state that the first process starts in.
  abbrev pub first_state : ℕ → Exec → Text → StartBehaviour → State P
  first_state pid exec wd start = fresh_state P (exec ∷ []) [] pid start wd

  -- The process of the report of a run in which no new process has the pid of the first one: it has come
  -- by what the events add for it.
  pub report-logged :
      (pid : ℕ) (exec : Exec) (wd : Text) (start : StartBehaviour)
      (syscalls locations children : Bool) (es : List (Event P env))
      → All (CreatesOther P env pid) es
      → let g = new_state P env pid exec wd start syscalls locations in
        (r : Report) × (into_report P children (handle_events P env es g).processes ≡ Result.ok r)
        × ((s : State P) × (r.process ≡ into_process P s)
            × Logs (first_state pid exec wd start) (logged P env ledger pid es g) s)
  unfolding new_state new_map
  report-logged pid exec wd start syscalls locations children es h =
      let g = new_state P env pid exec wd start syscalls locations in
      let fresh = first_state pid exec wd start in
      let ((s, at, come), first) =
        handle_events-Came P env ledger es g pid fresh
          (All-map (CreatesOther P env pid) (Spares P env pid pid) es
            (CreatesOther-Spares P env pid) h)
          (ground (arith, OrdMap.lookup-insert pid pid fresh [])) in
      let end = (handle_events P env es g).processes in
      (
        record { process = into_process P s; children = children_of P children end },
        into_report-first P children end s (rw first at),
        (s, refl, come),
      )
