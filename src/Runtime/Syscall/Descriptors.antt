-- ===== src/Runtime/Syscall/Descriptors.antt =====
-- src/runtime/syscall/mod.rs: what one system call of a process means for a later one.
use cargo_capslock.Prelude.{
  ℕ, ◌≡◌, ◌≢◌, refl, true, false, some, [], ◌∷◌, arith, Text, Result, beq_iff,
}
use cargo_capslock.Paths.{is_absolute, join}
use cargo_capslock.Runtime.Platform.{Platform, Procfs}
use cargo_capslock.Runtime.Fd.{FdMeta, FdType}
use cargo_capslock.Runtime.Process.{State, get_fd, insert_fd, resolve, set_working_directory}
use cargo_capslock.Runtime.Process.Tree.{get_fd-insert_fd}
use cargo_capslock.Runtime.Syscall.{
  CapTable, Syscall, Typed, Meta, ioctl_caps, caps_or_lookup, fd_or_infer, return_typed,
  into_capabilities, try_from_syscall, typed_of, resolve_at_syscall, lookup_sysno,
}

is_absolute-join :
    (p q : Text) → is_absolute q ≡ false → p ≢ [] → is_absolute (join p q) ≡ is_absolute p
unfolding join is_absolute
is_absolute-join [] q rel ne = absurd (ne refl)
is_absolute-join (c ∷ p) q rel ne = ground arith

module _ (P : Platform) (proc : Procfs P) (table : CapTable) where
  open P use {Fd, fd_ord, Sysno, try_from_arg, is_at_working_directory}

  -- The return of a syscall that creates a descriptor.
  create-step :
      (nr : Sysno) (meta : FdMeta) (sval : ℕ) (fd : Fd) (s : State P)
      → try_from_arg sval ≡ some fd
      → into_capabilities P table proc
          (record { nr = nr; typed = some (Typed.fd_create meta) })
          sval
          s
        ≡ (insert_fd P fd meta s, lookup_sysno P table nr)
  unfolding into_capabilities return_typed
  create-step nr meta sval fd s e = rw (e, into_capabilities, return_typed) refl

  get_fd-inserted :
      (fd : Fd) (meta : FdMeta) (s : State P) → get_fd P fd (insert_fd P fd meta s) ≡ some meta
  get_fd-inserted fd meta s =
      ground (arith, get_fd-insert_fd P fd fd meta s, (beq_iff ⦃o = fd_ord⦄ fd fd).1 refl)

  created-known :
      (nr : Sysno) (meta : FdMeta) (sval : ℕ) (fd : Fd) (s : State P)
      → try_from_arg sval ≡ some fd
      → get_fd P fd
          (into_capabilities P table proc
            (record { nr = nr; typed = some (Typed.fd_create meta) })
            sval
            s).0
        ≡ some meta
  created-known nr meta sval fd s e =
      rw (create-step nr meta sval fd s e) (get_fd-inserted fd meta s)

  ioctl_known :
      (nr : Sysno) (meta : FdMeta) (sval cmd : ℕ) (fd : Fd) (s : State P)
      → get_fd P fd s ≡ some meta
      → into_capabilities P table proc
          (record { nr = nr; typed = some (Typed.ioctl cmd fd) })
          sval
          s
        ≡ (s, caps_or_lookup P table nr (ioctl_caps meta.ty))
  unfolding into_capabilities return_typed
  ioctl_known nr meta sval cmd fd s e = rw (e, fd_or_infer) refl

  openat_known :
      (nr : Sysno) (flags flags' : ℕ) (dir local : Text) (dfd : Fd) (s : State P)
      → get_fd P dfd s ≡ some (record { flags = flags; ty = FdType.file dir })
      → is_at_working_directory dfd ≡ false
      → is_absolute local ≡ false
      → try_from_syscall P proc nr (Syscall.openat dfd flags' (some local)) s ≡ (
        s,
        Result.ok (record {
          nr = nr;
          typed =
              some (Typed.fd_create (record { flags = flags'; ty = FdType.file (join dir local) }));
        }),
      )
  unfolding try_from_syscall typed_of resolve_at_syscall
  openat_known nr flags flags' dir local dfd s e at rel = rw (rel, at, e, resolve_at_syscall) refl

  -- A descriptor that a syscall of the process has created is not inferred again: an ioctl on it changes
  -- nothing, and has the capabilities of the type that the descriptor was created with, or of the
  -- syscall where that type has none.
  pub ioctl_after_create :
      (nr nr' : Sysno) (meta : FdMeta) (sval sval' cmd : ℕ) (fd : Fd) (s : State P)
      → try_from_arg sval ≡ some fd
      → let s' =
          (into_capabilities P table proc
            (record { nr = nr; typed = some (Typed.fd_create meta) })
            sval
            s).0 in
        into_capabilities P table proc
          (record { nr = nr'; typed = some (Typed.ioctl cmd fd) })
          sval'
          s'
        ≡ (s', caps_or_lookup P table nr' (ioctl_caps meta.ty))
  ioctl_after_create nr nr' meta sval sval' cmd fd s e =
      ioctl_known nr' meta sval' cmd fd _ (created-known nr meta sval fd s e)

  -- A relative path is opened behind the directory that the process has just opened: under the path that
  -- the descriptor was opened with.
  pub openat_after_open :
      (nr nr' : Sysno) (flags flags' sval : ℕ) (dir local : Text) (dfd : Fd) (s : State P)
      → try_from_arg sval ≡ some dfd
      → is_at_working_directory dfd ≡ false
      → is_absolute local ≡ false
      → (meta : Meta P) × (try_from_syscall P proc nr (Syscall.open_file flags (some dir)) s
          ≡ (s, Result.ok meta))
        × (let s' = (into_capabilities P table proc meta sval s).0 in
            try_from_syscall P proc nr' (Syscall.openat dfd flags' (some local)) s' ≡ (
              s',
              Result.ok (record {
                nr = nr';
                typed = some (
                    Typed.fd_create (record { flags = flags'; ty = FdType.file (join dir local) }));
              }),
            ))
  unfolding try_from_syscall typed_of
  openat_after_open nr nr' flags flags' sval dir local dfd s e at rel =
      let meta : FdMeta = record { flags = flags; ty = FdType.file dir } in
      (
        record { nr = nr; typed = some (Typed.fd_create meta) },
        refl,
        openat_known nr' flags flags' dir local dfd _ (created-known nr meta sval dfd s e) at rel,
      )

  -- `open` of an absolute path and `openat` of it, relative to the working directory or to any
  -- descriptor, are remembered as the same descriptor. For a relative path `openat` at the working
  -- directory keeps the path resolved, and `open` keeps it as it is.
  pub open_openat :
      (nr : Sysno) (flags : ℕ) (path : Text) (dfd : Fd) (s : State P)
      → (is_absolute path ≡ true
          → try_from_syscall P proc nr (Syscall.openat dfd flags (some path)) s
            ≡ try_from_syscall P proc nr (Syscall.open_file flags (some path)) s)
        × (is_absolute path ≡ false
            → is_at_working_directory dfd ≡ true
            → try_from_syscall P proc nr (Syscall.openat dfd flags (some path)) s
              ≡ try_from_syscall P proc nr (Syscall.open_file flags (some (resolve P path s))) s)
  unfolding try_from_syscall typed_of resolve_at_syscall
  open_openat nr flags path dfd s =
      (λ e. rw (e, resolve_at_syscall) refl, λ e at. rw (e, at, resolve_at_syscall) refl)

module _ (P : Platform) (proc : Procfs P) (table : CapTable) where
  -- Paths after a change of the working directory: a relative path is resolved against the path that
  -- chdir was given, so it becomes absolute if and only if that path is absolute.
  pub resolve_after_chdir :
      (nr : P.Sysno) (dir path : Text) (sval : ℕ) (s : State P)
      → is_absolute path ≡ false
      → dir ≢ []
      → (meta : Meta P) × (try_from_syscall P proc nr (Syscall.chdir (some dir)) s
          ≡ (s, Result.ok meta))
        × (let s' = (into_capabilities P table proc meta sval s).0 in
            (s'.wd ≡ dir) × (is_absolute (resolve P path s') ≡ is_absolute dir))
  unfolding try_from_syscall typed_of into_capabilities return_typed set_working_directory resolve
  resolve_after_chdir nr dir path sval s rel ne = (
    record { nr = nr; typed = some (Typed.chdir dir) },
    refl,
    (refl, is_absolute-join dir path rel ne),
  )
