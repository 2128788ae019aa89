-- ===== src/Runtime/Process/Tree.antt =====
-- src/runtime/process.rs: what a new process takes over, and the table of descriptors of a process.
use cargo_capslock.Prelude.{
  ℕ, ◌≡◌, ◌≢◌, refl, true, not, Option, none, some, [], ◌∷◌, arith, beq, beq_iff, if◌then◌else◌,
  nat_ord, ◌==◌, ◌++◌,
}
use cargo_capslock.Collections.OrdMap
use cargo_capslock.Collections.OrdMap.{OrdMap}
use cargo_capslock.Functions.Map.{empty}
use cargo_capslock.Runtime.Platform.{Platform}
use cargo_capslock.Runtime.Fd.{FdMeta, Error, is_cloexec}
use cargo_capslock.Runtime.Process.{
  State, Map, spawn, exit, get_active, fresh_state, inherited, get_fd, insert_fd, close,
  close_range, in_range,
}

module _ (P : Platform) where
  open P use {Fd, fd_ord, libc}

  -- The descriptor that a new process has for one of its parent.
  abbrev pub kept_at_clone : Option FdMeta → Option FdMeta
  kept_at_clone none = none
  kept_at_clone (some meta) = if is_cloexec libc meta then none else some meta

  lookup-inherited :
      (fds : OrdMap Fd FdMeta) (fd : Fd)
      → OrdMap.IsSorted ⦃o = fd_ord⦄ fds
      → OrdMap.lookup ⦃o = fd_ord⦄ fd (inherited P fds)
        ≡ kept_at_clone (OrdMap.lookup ⦃o = fd_ord⦄ fd fds)
  lookup-inherited [] fd h = refl
  lookup-inherited ((k, meta) ∷ fds) fd h =
      let absent : beq ⦃o = fd_ord⦄ fd k ≡ true → OrdMap.lookup ⦃o = fd_ord⦄ fd fds ≡ none = λ same.
        let e : fd ≡ k = (beq_iff ⦃o = fd_ord⦄ fd k).0 same in
        rw e (OrdMap.lookup-Above ⦃o = fd_ord⦄ k fds h.0) in
      ground (
        arith,
        lookup-inherited fds fd h.1,
        OrdMap.lookup-insert ⦃o = fd_ord⦄ fd k meta (inherited P fds),
        absent,
      )

  -- Without an active parent nothing changes, and the error names the parent. Otherwise the child is an
  -- active process under its pid, with the working directory of its parent and of its parent's
  -- descriptors exactly those that are not closed on exec; it starts without programs, functions and
  -- capabilities; every other active process and all those that have exited are as they were, and so are
  -- the pid of the first process and how processes start. The descriptors of the parent are in order.
  pub spawn_lem :
      (parent child : ℕ) (m : Map P)
      → ((s : State P) → get_active P parent m ≡ some s → OrdMap.IsSorted ⦃o = fd_ord⦄ s.fds)
      → let (m', failed) = spawn P parent child m in
        (get_active P parent m ≡ none → (m' ≡ m) × (failed ≡ some (Error.process_find parent)))
        × ((s : State P)
            → get_active P parent m ≡ some s
            → (failed ≡ none)
              × ((c : State P) × (get_active P child m' ≡ some c)
                  × (c.pid ≡ child)
                  × (c.wd ≡ s.wd)
                  × ((fd : Fd) → get_fd P fd c ≡ kept_at_clone (get_fd P fd s))
                  × (c.execs ≡ [])
                  × (c.functions ≡ empty)
                  × (c.caps ≡ []))
              × ((k : ℕ) → k ≢ child → get_active P k m' ≡ get_active P k m)
              × (m'.inactive ≡ m.inactive)
              × (m'.init_pid ≡ m.init_pid)
              × (m'.start_behaviour ≡ m.start_behaviour))
  unfolding spawn get_active get_fd
  spawn_lem parent child m h = (
    λ e. rw (e, spawn) (refl, refl),
    λ s e.
        let fresh = fresh_state P [] (inherited P s.fds) child m.start_behaviour s.wd in
        let at = λ (k : ℕ). OrdMap.lookup-insert k child fresh m.active in
        rw (e, spawn)
          (
            refl,
            (
              fresh,
              ground (arith, at child),
              refl,
              refl,
              λ fd. lookup-inherited s.fds fd (h s e),
              refl,
              refl,
              refl,
            ),
            λ k ne. ground (arith, at k),
            refl,
            refl,
            refl,
          ),
  )

  -- The descriptors after one is inserted, one is closed, or a range is closed.
  pub get_fd-insert_fd :
      (k fd : Fd) (meta : FdMeta) (s : State P)
      → get_fd P k (insert_fd P fd meta s)
        ≡ (if beq ⦃o = fd_ord⦄ k fd then some meta else get_fd P k s)
  unfolding get_fd insert_fd
  get_fd-insert_fd k fd meta s = OrdMap.lookup-insert ⦃o = fd_ord⦄ k fd meta s.fds

  pub get_fd-close :
      (k fd : Fd) (s : State P)
      → get_fd P k (close P fd s) ≡ (if beq ⦃o = fd_ord⦄ k fd then none else get_fd P k s)
  unfolding get_fd close
  get_fd-close k fd s =
      ground (arith, OrdMap.lookup-retain ⦃o = fd_ord⦄ k (λ j. not (beq ⦃o = fd_ord⦄ j fd)) s.fds)

  get_fd-close_range :
      (k first last : Fd) (s : State P)
      → get_fd P k (close_range P first last s)
        ≡ (if in_range P first last k then none else get_fd P k s)
  unfolding get_fd close_range
  get_fd-close_range k first last s =
      ground (arith, OrdMap.lookup-retain ⦃o = fd_ord⦄ k (λ j. not (in_range P first last j)) s.fds)

  exit_step :
      (pid : ℕ) (s : State P) (m : Map P)
      → pid ≢ m.init_pid
      → get_active P pid m ≡ some s
      → exit P pid m ≡ record m {
        active = OrdMap.retain (λ k. not (k == pid)) m.active;
        inactive = m.inactive ++ (pid, s) ∷ [];
      }
  unfolding exit get_active
  exit_step pid s m ne e = ground arith

  -- The processes after one that is not the first has exited: it is the last of the inactive ones, with
  -- the state that it had, and no other process has changed. The first process is never moved.
  pub exit_lem :
      (pid : ℕ) (m : Map P)
      → let m' = exit P pid m in
        (pid ≡ m.init_pid → m' ≡ m)
        × (get_active P pid m ≡ none → m' ≡ m)
        × ((s : State P)
            → pid ≢ m.init_pid
            → get_active P pid m ≡ some s
            → (get_active P pid m' ≡ none)
              × (m'.inactive ≡ m.inactive ++ (pid, s) ∷ [])
              × ((k : ℕ) → k ≢ pid → get_active P k m' ≡ get_active P k m))
        × (m'.init_pid ≡ m.init_pid)
  unfolding exit get_active
  exit_lem pid m =
      let at = λ (k : ℕ). OrdMap.lookup-retain k (λ j. not (j == pid)) m.active in
      (
        λ e. ground arith,
        λ e. ground arith,
        λ s ne e.
            rw (exit_step pid s m ne e)
              (ground (arith, at pid), refl, λ k ne'. ground (arith, at k)),
        ground arith,
      )
