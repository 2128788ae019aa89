-- ===== src/Runtime/Events/Pids.antt =====
-- src/runtime/mod.rs, src/runtime/process.rs: the processes of the tracer stay filed under their pids, the
-- first one stays active, and what is known of a process only grows.
use cargo_capslock.Prelude.{
  ℕ, ◌≡◌, refl, ◌∙◌, Bool, true, false, Option, none, some, List, [], ◌∷◌, arith, Result, Text,
  Option-cases, Bool-cases, inl, inr, ◌==◌, not, nat_ord,
}
use cargo_capslock.Collections.OrdMap
use cargo_capslock.Collections.OrdMap.{OrdMap}
use cargo_capslock.Collections.Entries.{Each, Each-lookup, Each-insert, Each-retain, Each-last}
use cargo_capslock.Collections.OrdSet.{OrdSet}
use cargo_capslock.Capslock.Caps.{Capability}
use cargo_capslock.Functions.Map.Upsert.{empty-IsValid}
use cargo_capslock.Runtime.Platform.{Platform, Procfs}
use cargo_capslock.Runtime.Fd.{FdMeta, Error}
use cargo_capslock.Runtime.Process.{
  State, Map, StartBehaviour, Exec, new_map, exit, get_active, set_active, spawn, get_start_symbol,
  fresh_state, inherited,
}
use cargo_capslock.Runtime.Process.Grows.{IsSound, Grows, Grows-refl, Grows-trans, Leaves-Grows}
use cargo_capslock.Runtime.Syscall.{Syscall, Meta, try_from_syscall, into_capabilities}
use cargo_capslock.Runtime.Syscall.Exit.{try_from_syscall-Leaves, into_capabilities-Leaves}
use cargo_capslock.Runtime.Events.{
  Env, GlobalState, new_state, Stack, walk, after_walk, count_caps, exit_with, handle_syscall_entry,
  handle_syscall_exit, Event, handle_event, handle_events,
}
use cargo_capslock.Runtime.Events.Known.{after_walk-Grows, count_caps-Grows}

module _ (P : Platform) where
  -- A process is filed under its pid, and is sound.
  abbrev pub Filed : ℕ → State P → Type 0
  Filed pid s = (s.pid ≡ pid) × IsSound P s

  -- What the tracer relies on between two events.
  pub record IsTraced (m : Map P) : Type 0 where
    pub first : (s : State P) × (OrdMap.lookup m.init_pid m.active ≡ some s)
    pub named : Each Filed m.active
    pub gone : Each Filed m.inactive

  -- What a syscall does to the processes: nothing, or one active process is changed, and has grown.
  pub data Update (m : Map P) : Map P → Type 0 where
    kept : Update m m
    moved :
        (pid : ℕ) (s s' : State P)
        → OrdMap.lookup pid m.active ≡ some s
        → Grows P s s'
        → Update m (set_active P pid s' m)

  present-insert :
      (j k : ℕ) (v : State P) (m : OrdMap ℕ (State P))
      → (s : State P) × (OrdMap.lookup k m ≡ some s)
      → (s : State P) × (OrdMap.lookup k (OrdMap.insert j v m) ≡ some s)
  present-insert j k v m (s, e) = elim (Bool-cases (k == j)) [
    | inl same ↦ (v, ground (arith, OrdMap.lookup-insert k j v m))
    | inr other ↦ (s, ground (arith, OrdMap.lookup-insert k j v m))
  ]

  Update-IsTraced : (m m' : Map P) → Update m m' → IsTraced m → IsTraced m'
  unfolding set_active
  Update-IsTraced m _ Update.kept h = h
  Update-IsTraced m _ (Update.moved pid s s' e g) h =
      let (named, sound) = Each-lookup Filed pid s m.active h.named e in
      record {
        first = present-insert pid m.init_pid s' m.active h.first;
        named = Each-insert Filed pid s' m.active (g.pid ∙ named, g.sound sound) h.named;
        gone = h.gone;
      }

  -- A process that is active stays active through a syscall, and only grows.
  pub Update-Grows :
      (m m' : Map P)
      → Update m m'
      → (k : ℕ) (s : State P) → OrdMap.lookup k m.active ≡ some s
      → (s' : State P) × (OrdMap.lookup k m'.active ≡ some s') × Grows P s s'
  unfolding set_active
  Update-Grows m _ Update.kept k s e = (s, e, Grows-refl P s)
  Update-Grows m _ (Update.moved pid t t' f g) k s e = elim (Bool-cases (k == pid)) [
    | inl same ↦
        let ek : k ≡ pid = ground arith in
        let es : s ≡ t = cc in (t', ground (arith, OrdMap.lookup-insert k pid t' m.active), rw es g)
    | inr other ↦ (s, ground (arith, OrdMap.lookup-insert k pid t' m.active), Grows-refl P s)
  ]

  fresh_state-IsSound :
      (execs : List Exec) (fds : OrdMap P.Fd FdMeta) (pid : ℕ) (start : StartBehaviour) (wd : Text)
      → IsSound P (fresh_state P execs fds pid start wd)
  fresh_state-IsSound execs fds pid start wd = record {
    valid = empty-IsValid;
    within = rw P.petgraph.all_edges-new tt;
  }

  spawn-IsTraced : (parent child : ℕ) (m : Map P) → IsTraced m → IsTraced (spawn P parent child m).0
  unfolding spawn get_active
  spawn-IsTraced parent child m h = after (OrdMap.lookup parent m.active)
    where
      after :
          (o : Option (State P))
          → let r : Map P × Option (Error P.Fd P.Sysno) = elim o [
            | none ↦ (m, some (Error.process_find parent))
            | some state ↦ (
              record m {
                active =
                    OrdMap.insert child
                      (fresh_state P [] (inherited P state.fds) child m.start_behaviour state.wd)
                      m.active;
              },
              none,
            )
          ] in
            IsTraced r.0
      after none = h
      after (some s) =
          let fresh = fresh_state P [] (inherited P s.fds) child m.start_behaviour s.wd in
          record {
            first = present-insert child m.init_pid fresh m.active h.first;
            named =
                Each-insert Filed child fresh m.active (refl, fresh_state-IsSound _ _ _ _ _)
                  h.named;
            gone = h.gone;
          }

  exit-IsTraced : (pid : ℕ) (m : Map P) → IsTraced m → IsTraced (exit P pid m)
  unfolding exit
  exit-IsTraced pid m h = elim (Bool-cases (pid == m.init_pid)) [
    | inl same ↦ rw (same, exit) h
    | inr other ↦ elim (Option-cases (OrdMap.lookup pid m.active)) [
      | inl e ↦ rw (other, e, exit) h
      | inr (s, e) ↦
          rw (other, e, exit)
            (record {
              first = (
                h.first.0,
                ground (
                  arith,
                  OrdMap.lookup-retain m.init_pid (λ k. not (k == pid)) m.active,
                  h.first.1,
                ),
              );
              named = Each-retain Filed (λ k. not (k == pid)) m.active h.named;
              gone =
                  Each-last Filed m.inactive pid s h.gone
                    (Each-lookup Filed pid s m.active h.named e);
            })
    ]
  ]

module _ (P : Platform) (env : Env) where
  open P use {Fd, Sysno}

  pub handle_syscall_entry-Update :
      (proc : Procfs P) (pid : ℕ) (nr : Sysno) (syscall : Syscall P) (g : GlobalState P env)
      → Update P g.processes (handle_syscall_entry P env proc pid nr syscall g).0.processes
  unfolding get_active handle_syscall_entry
  handle_syscall_entry-Update proc pid nr syscall g =
      elim (Option-cases (OrdMap.lookup pid g.processes.active)) [
        | inl e ↦ rw (e, handle_syscall_entry) (Update.kept)
        | inr (s, e) ↦
            rw (e, handle_syscall_entry)
              (Update.moved pid s (try_from_syscall P proc nr syscall s).0 e
                (Leaves-Grows P s _ (try_from_syscall-Leaves P proc nr syscall s)))
      ]

  exit_with-Update :
      (pid : ℕ) (nr : Option Sysno) (stack : Stack) (g : GlobalState P env) (s : State P)
      (r : State P × Result (Error Fd Sysno) (OrdSet Capability))
      → OrdMap.lookup pid g.processes.active ≡ some s
      → Grows P s r.0
      → Update P g.processes (exit_with P env pid nr stack g r).0.processes
  exit_with-Update pid nr stack g s (s', Result.err e) at h = Update.moved pid s s' at h
  exit_with-Update pid nr none g s (s', Result.ok caps) at h =
      Update.moved pid s (count_caps P env caps s') at
        (Grows-trans P s s' _ h (count_caps-Grows P env caps s'))
  exit_with-Update pid nr (some frames) g s (s', Result.ok caps) at h =
      let t = count_caps P env caps s' in
      let w = walk (get_start_symbol P t) frames [] in
      Update.moved pid s (after_walk P env g.include_syscalls pid nr caps w t g.location_lookup).0
        at
        (Grows-trans P s t _ (Grows-trans P s s' t h (count_caps-Grows P env caps s'))
          (after_walk-Grows P env g.include_syscalls pid nr caps w t g.location_lookup))

  pub handle_syscall_exit-Update :
      (proc : Procfs P) (pid : ℕ) (meta : Option (Meta P)) (sval : ℕ) (nr : Option Sysno)
      (stack : Stack) (g : GlobalState P env)
      → Update P g.processes (handle_syscall_exit P env proc pid meta sval nr stack g).0.processes
  unfolding handle_syscall_exit get_active
  handle_syscall_exit-Update proc pid none sval nr stack g = Update.kept
  handle_syscall_exit-Update proc pid (some meta) sval nr stack g =
      elim (Option-cases (OrdMap.lookup pid g.processes.active)) [
        | inl e ↦ rw (e, handle_syscall_exit) (Update.kept)
        | inr (s, e) ↦
            rw (e, handle_syscall_exit)
              (exit_with-Update pid nr stack g s (into_capabilities P env.table proc meta sval s) e
                (Leaves-Grows P s _ (into_capabilities-Leaves P proc env.table meta sval s)))
      ]

  pub handle_event-IsTraced :
      (e : Event P env) (g : GlobalState P env)
      → IsTraced P g.processes
      → IsTraced P (handle_event P env e g).0.processes
  unfolding handle_event
  handle_event-IsTraced (Event.clone parent child) g h = spawn-IsTraced P parent child g.processes h
  handle_event-IsTraced (Event.exited pid) g h = exit-IsTraced P pid g.processes h
  handle_event-IsTraced (Event.syscall_entry proc pid nr syscall) g h =
      Update-IsTraced P g.processes _ (handle_syscall_entry-Update proc pid nr syscall g) h
  handle_event-IsTraced (Event.syscall_exit true proc pid meta sval nr stack) g h = h
  handle_event-IsTraced (Event.syscall_exit false proc pid meta sval nr stack) g h =
      Update-IsTraced P g.processes _ (handle_syscall_exit-Update proc pid meta sval nr stack g) h
  handle_event-IsTraced Event.other g h = h

  pub handle_events-IsTraced :
      (es : List (Event P env)) (g : GlobalState P env)
      → IsTraced P g.processes
      → IsTraced P (handle_events P env es g).processes
  unfolding handle_events
  handle_events-IsTraced [] g h = h
  handle_events-IsTraced (e ∷ es) g h =
      handle_events-IsTraced es (handle_event P env e g).0 (handle_event-IsTraced e g h)

  -- The tracer starts with the first process alone.
  pub new_state-IsTraced :
      (pid : ℕ) (exec : Exec) (wd : Text) (start : StartBehaviour) (syscalls locations : Bool)
      → IsTraced P (new_state P env pid exec wd start syscalls locations).processes
  unfolding new_state new_map
  new_state-IsTraced pid exec wd start syscalls locations =
      let fresh = fresh_state P (exec ∷ []) [] pid start wd in
      record {
        first = (fresh, ground (arith, OrdMap.lookup-insert pid pid fresh []));
        named = Each-insert (Filed P) pid fresh [] (refl, fresh_state-IsSound P _ _ _ _ _) tt;
        gone = tt;
      }
