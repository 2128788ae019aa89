-- ===== src/Runtime/Events/Ledger/Came.antt =====
-- src/runtime/mod.rs: how each event, and a list of them, leaves one process.
use cargo_capslock.Prelude.{
  ℕ, ◌≡◌, ◌≢◌, refl, sym, ◌∙◌, subst, ◌⊎◌, inl, inr, Bool, true, false, ◌==◌, ==_iff, if◌then◌else◌,
  Option, none, some, List, [], ◌∷◌, arith, All, Option-cases, Bool-cases, nat_ord,
}
use cargo_capslock.Collections.OrdMap
use cargo_capslock.Runtime.Platform.{Platform, Procfs}
use cargo_capslock.Runtime.Process.{
  State, Map, exit, spawn, get_active, set_active, fresh_state, inherited,
}
use cargo_capslock.Runtime.Process.Tree.{exit_lem}
use cargo_capslock.Runtime.Syscall.{Syscall, Meta, try_from_syscall}
use cargo_capslock.Runtime.Syscall.Exit.{try_from_syscall-Leaves}
use cargo_capslock.Runtime.Events.{
  Env, GlobalState, Stack, Event, handle_syscall_entry, handle_syscall_exit, handle_event,
  handle_events,
}
use cargo_capslock.Runtime.Events.Ledger.{Ledger, Spares, of_active, added, logged}

module _ (P : Platform) (env : Env) (ledger : Ledger P env) where
  open P use {Fd, Sysno}
  open ledger use {Entry, adds, Logs, leaves, follows, returns}

  -- The process is active, and has come by the entries.
  abbrev Came : ℕ → State P → Map P → List Entry → Type 0
  Came pid s m xs = (s' : State P) × (OrdMap.lookup pid m.active ≡ some s') × Logs s xs s'

  no_more : (b : Bool) → if◌then◌else◌ {A = List Entry} b [] [] ≡ []
  no_more true = refl
  no_more false = refl

  same-Came :
      (pid : ℕ) (s : State P) (m : Map P) → OrdMap.lookup pid m.active ≡ some s → Came pid s m []
  same-Came pid s m e = (s, e, leaves s s refl)

  set_active-Came :
      (pid p : ℕ) (s old new : State P) (m : Map P) (xs : List Entry)
      → OrdMap.lookup pid m.active ≡ some s
      → OrdMap.lookup p m.active ≡ some old
      → Logs old xs new
      → Came pid s (set_active P p new m) (if pid == p then xs else [])
  unfolding set_active
  set_active-Came pid p s old new m xs at_pid at_p h = elim (Bool-cases (pid == p)) [
    | inl same ↦
        let ep : pid ≡ p = (==_iff pid p).0 same in
        let es : old ≡ s = ground arith in
        rw same (
          new,
          ground (arith, OrdMap.lookup-insert pid p new m.active),
          subst (λ (t : State P). Logs t xs new) es h,
        )
    | inr other ↦ rw other (
        same-Came pid s (set_active P p new m)
          (ground (arith, OrdMap.lookup-insert pid p new m.active)))
  ]

  spawn-Came :
      (parent child pid : ℕ) (s : State P) (m : Map P)
      → child ≢ pid
      → OrdMap.lookup pid m.active ≡ some s
      → Came pid s (spawn P parent child m).0 []
        × ((spawn P parent child m).0.init_pid ≡ m.init_pid)
  unfolding spawn get_active
  spawn-Came parent child pid s m ne e = elim (Option-cases (OrdMap.lookup parent m.active)) [
    | inl f ↦ rw (f, spawn) (same-Came pid s m e, refl)
    | inr (t, f) ↦
        let fresh = fresh_state P [] (inherited P t.fds) child m.start_behaviour t.wd in
        rw (f, spawn)
          (
            same-Came pid s (record m { active = OrdMap.insert child fresh m.active })
                (ground (arith, OrdMap.lookup-insert pid child fresh m.active)),
            refl,
          )
  ]

  exit-Came :
      (other pid : ℕ) (s : State P) (m : Map P)
      → (other ≢ pid) ⊎ (pid ≡ m.init_pid)
      → OrdMap.lookup pid m.active ≡ some s
      → Came pid s (exit P other m) []
  unfolding get_active
  exit-Came other pid s m h e =
      let (stays, unknown, moves, _) = exit_lem P other m in
      let same = λ (k : exit P other m ≡ m).
        subst (λ (m' : Map P). Came pid s m' []) (sym k) (same-Came pid s m e) in
      elim (Bool-cases (other == m.init_pid)) [
        | inl first ↦ same (stays ((==_iff other m.init_pid).0 first))
        | inr later ↦ elim (Option-cases (OrdMap.lookup other m.active)) [
          | inl gone ↦ same (unknown gone)
          | inr (t, at) ↦
              let differ : other ≢ m.init_pid = λ k. ground (arith, ==_iff other m.init_pid) in
              let apart : pid ≢ other =
                λ k. elim h [ inl ne ↦ ne (sym k) | inr first ↦ differ (sym k ∙ first) ] in
              same-Came pid s (exit P other m) ((moves t differ at).2 pid apart ∙ e)
        ]
      ]

  entry-Came :
      (proc : Procfs P) (p pid : ℕ) (nr : Sysno) (syscall : Syscall P) (g : GlobalState P env)
      (s : State P)
      → OrdMap.lookup pid g.processes.active ≡ some s
      → Came pid s (handle_syscall_entry P env proc p nr syscall g).0.processes []
        × ((handle_syscall_entry P env proc p nr syscall g).0.processes.init_pid
            ≡ g.processes.init_pid)
  unfolding handle_syscall_entry get_active set_active
  entry-Came proc p pid nr syscall g s e =
      elim (Option-cases (OrdMap.lookup p g.processes.active)) [
        | inl f ↦ rw (f, handle_syscall_entry) (same-Came pid s g.processes e, refl)
        | inr (t, f) ↦
            let t' = (try_from_syscall P proc nr syscall t).0 in
            let moved =
              set_active-Came pid p s t t' g.processes [] e f
                (leaves t t' (try_from_syscall-Leaves P proc nr syscall t)) in
            let none_more = no_more (pid == p) in
            rw (f, handle_syscall_entry) (rw none_more at moved, refl)
      ]

  -- The return of a syscall.
  exit-returned :
      (proc : Procfs P) (p pid : ℕ) (meta : Meta P) (sval : ℕ) (nr : Option Sysno) (stack : Stack)
      (g : GlobalState P env) (s : State P)
      → OrdMap.lookup pid g.processes.active ≡ some s
      → let g' = (handle_syscall_exit P env proc p (some meta) sval nr stack g).0 in
        Came pid s g'.processes (
          if pid == p
          then of_active P env ledger proc meta sval nr stack g (OrdMap.lookup p g.processes.active)
          else [])
        × (g'.processes.init_pid ≡ g.processes.init_pid)
  unfolding handle_syscall_exit get_active set_active
  exit-returned proc p pid meta sval nr stack g s e =
      elim (Option-cases (OrdMap.lookup p g.processes.active)) [
        | inl f ↦
            let none_more = no_more (pid == p) in
            rw (f, handle_syscall_exit, none_more) (same-Came pid s g.processes e, refl)
        | inr (t, f) ↦
            let (new, at, come) = returns proc p meta sval nr stack g t in
            let moved =
              set_active-Came pid p s t new g.processes (adds proc meta sval nr stack g t) e f
                come in
            rw (f, handle_syscall_exit) (rw at (moved, refl))
      ]

  handle_event-Came :
      (e : Event P env) (g : GlobalState P env) (pid : ℕ) (s : State P)
      → Spares P env pid g.processes.init_pid e
      → OrdMap.lookup pid g.processes.active ≡ some s
      → Came pid s (handle_event P env e g).0.processes (added P env ledger pid e g)
        × ((handle_event P env e g).0.processes.init_pid ≡ g.processes.init_pid)
  unfolding handle_event
  handle_event-Came (Event.clone parent child) g pid s h at =
      spawn-Came parent child pid s g.processes h at
  handle_event-Came (Event.exited other) g pid s h at =
      (exit-Came other pid s g.processes h at, (exit_lem P other g.processes).3)
  handle_event-Came (Event.syscall_entry proc p nr syscall) g pid s h at =
      entry-Came proc p pid nr syscall g s at
  handle_event-Came (Event.syscall_exit true proc p meta sval nr stack) g pid s h at =
      (same-Came pid s g.processes at, refl)
  handle_event-Came (Event.syscall_exit false proc p none sval nr stack) g pid s h at =
      unfold handle_syscall_exit in (same-Came pid s g.processes at, refl)
  handle_event-Came (Event.syscall_exit false proc p (some meta) sval nr stack) g pid s h at =
      exit-returned proc p pid meta sval nr stack g s at
  handle_event-Came Event.other g pid s h at = (same-Came pid s g.processes at, refl)

  -- Over a list of events.
  pub handle_events-Came :
      (es : List (Event P env)) (g : GlobalState P env) (pid : ℕ) (s : State P)
      → All (Spares P env pid g.processes.init_pid) es
      → OrdMap.lookup pid g.processes.active ≡ some s
      → Came pid s (handle_events P env es g).processes (logged P env ledger pid es g)
        × ((handle_events P env es g).processes.init_pid ≡ g.processes.init_pid)
  unfolding handle_events
  handle_events-Came [] g pid s h at = (same-Came pid s g.processes at, refl)
  handle_events-Came (e ∷ es) g pid s h at =
      let g' = (handle_event P env e g).0 in
      let ((t, at', come), first) = handle_event-Came e g pid s h.0 at in
      let ((u, at_u, later), first') =
        handle_events-Came es g' pid t
          (subst (λ (i : ℕ). All (Spares P env pid i) es) (sym first) h.1) at' in
      (
        (
          u,
          at_u,
          follows s t u (added P env ledger pid e g) (logged P env ledger pid es g') come later,
        ),
        first' ∙ first,
      )
