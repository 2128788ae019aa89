-- ===== src/Runtime/Events/Stays.antt =====
-- src/runtime/mod.rs: what is known of an active process stays known while the events go on.
use cargo_capslock.Prelude.{
  ℕ, ◌≡◌, ◌≢◌, true, false, some, List, [], ◌∷◌, arith, All, Option-cases, Bool-cases, inl, inr,
  ◌==◌, not, nat_ord,
}
use cargo_capslock.Collections.OrdMap
use cargo_capslock.Runtime.Platform.{Platform}
use cargo_capslock.Runtime.Process.{State, Map, exit, spawn, get_active, fresh_state, inherited}
use cargo_capslock.Runtime.Process.Grows.{Grows, Grows-refl, Grows-trans}
use cargo_capslock.Runtime.Events.{Env, GlobalState, Event, handle_event, handle_events}
use cargo_capslock.Runtime.Events.Pids.{
  Update-Grows, handle_syscall_entry-Update, handle_syscall_exit-Update,
}

module _ (P : Platform) where
  -- The process is active in the second map with what the first knows of it, or more.
  abbrev pub Follows : ℕ → State P → Map P → Type 0
  Follows pid s m = (s' : State P) × (OrdMap.lookup pid m.active ≡ some s') × Grows P s s'

  spawn-Follows :
      (parent child pid : ℕ) (s : State P) (m : Map P)
      → child ≢ pid
      → OrdMap.lookup pid m.active ≡ some s
      → Follows pid s (spawn P parent child m).0
  unfolding spawn get_active
  spawn-Follows parent child pid s m ne e = elim (Option-cases (OrdMap.lookup parent m.active)) [
    | inl f ↦ rw (f, spawn) (s, e, Grows-refl P s)
    | inr (t, f) ↦
        let fresh = fresh_state P [] (inherited P t.fds) child m.start_behaviour t.wd in
        rw (f, spawn)
          (s, ground (arith, OrdMap.lookup-insert pid child fresh m.active), Grows-refl P s)
  ]

  exit-Follows :
      (other pid : ℕ) (s : State P) (m : Map P)
      → other ≢ pid
      → OrdMap.lookup pid m.active ≡ some s
      → Follows pid s (exit P other m)
  unfolding exit
  exit-Follows other pid s m ne e = elim (Bool-cases (other == m.init_pid)) [
    | inl same ↦ rw (same, exit) (s, e, Grows-refl P s)
    | inr differ ↦ elim (Option-cases (OrdMap.lookup other m.active)) [
      | inl f ↦ rw (differ, f, exit) (s, e, Grows-refl P s)
      | inr (t, f) ↦
          rw (differ, f, exit)
            (
              s,
              ground (arith, OrdMap.lookup-retain pid (λ k. not (k == other)) m.active),
              Grows-refl P s,
            )
    ]
  ]

module _ (P : Platform) (env : Env) where
  -- The event does not end the process, and creates none with its pid.
  abbrev pub Stays : ℕ → Event P env → Type 0
  Stays pid (Event.clone parent child) = child ≢ pid
  Stays pid (Event.exited other) = other ≢ pid
  Stays pid (Event.syscall_entry proc p nr syscall) = Unit
  Stays pid (Event.syscall_exit error proc p meta sval nr stack) = Unit
  Stays pid Event.other = Unit

  handle_event-Follows :
      (e : Event P env) (g : GlobalState P env) (pid : ℕ) (s : State P)
      → Stays pid e
      → OrdMap.lookup pid g.processes.active ≡ some s
      → Follows P pid s (handle_event P env e g).0.processes
  unfolding handle_event
  handle_event-Follows (Event.clone parent child) g pid s stays h =
      spawn-Follows P parent child pid s g.processes stays h
  handle_event-Follows (Event.exited other) g pid s stays h =
      exit-Follows P other pid s g.processes stays h
  handle_event-Follows (Event.syscall_entry proc p nr syscall) g pid s stays h =
      Update-Grows P g.processes _ (handle_syscall_entry-Update P env proc p nr syscall g) pid s h
  handle_event-Follows (Event.syscall_exit true proc p meta sval nr stack) g pid s stays h =
      (s, h, Grows-refl P s)
  handle_event-Follows (Event.syscall_exit false proc p meta sval nr stack) g pid s stays h =
      Update-Grows P g.processes _ (handle_syscall_exit-Update P env proc p meta sval nr stack g)
        pid s h
  handle_event-Follows Event.other g pid s stays h = (s, h, Grows-refl P s)

  -- An active process that no event of the list ends or creates again is active after them, under the
  -- same pid; it is sound if it was, and each of its functions is still there under its index, unchanged.
  pub handle_events_stable :
      (es : List (Event P env)) (g : GlobalState P env) (pid : ℕ) (s : State P)
      → All (Stays pid) es
      → OrdMap.lookup pid g.processes.active ≡ some s
      → (s' : State P) × (OrdMap.lookup pid (handle_events P env es g).processes.active ≡ some s')
        × Grows P s s'
  unfolding handle_events
  handle_events_stable [] g pid s stays h = (s, h, Grows-refl P s)
  handle_events_stable (e ∷ es) g pid s stays h =
      let (t, ht, st) = handle_event-Follows e g pid s stays.0 h in
      let (u, hu, tu) = handle_events_stable es (handle_event P env e g).0 pid t stays.1 ht in
      (u, hu, Grows-trans P s t u st tu)
