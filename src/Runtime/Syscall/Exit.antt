-- ===== src/Runtime/Syscall/Exit.antt =====
-- src/runtime/syscall/mod.rs: entering and returning from a syscall leave the functions, the calls and the
-- capabilities of the process alone, and whether it waits for its start.
use cargo_capslock.Prelude.{
  ℕ, Bool, true, false, if◌then◌else◌, refl, Option, none, some, Text, Result, Option-cases, inl,
  inr, ◌%◌, ◌^◌,
}
use cargo_capslock.Paths.{is_absolute}
use cargo_capslock.Runtime.Platform.{Platform, Procfs}
use cargo_capslock.Runtime.Fd.{FdMeta, Error}
use cargo_capslock.Runtime.Process.{
  State, add_exec, close, close_range, get_fd, infer_fd, insert_fd, set_working_directory, resolve,
}
use cargo_capslock.Runtime.Process.Grows.{Leaves, infer_fd-Leaves}
use cargo_capslock.Runtime.Syscall.{
  Syscall, Typed, Meta, CapTable, behind, behind_inferred, resolve_at_syscall, opened, resolved,
  typed_of, with_nr, try_from_syscall, fd_or_infer, return_typed, into_capabilities,
}

module _ (P : Platform) (proc : Procfs P) where
  open P use {Fd, Sysno}

  behind_inferred-Leaves :
      (dfd : Fd) (local : Text) (s : State P) (r : State P × Result (Error Fd Sysno) FdMeta)
      → Leaves P s r.0
      → Leaves P s (behind_inferred P s dfd local r).0
  behind_inferred-Leaves dfd local s (s', Result.err e) h = h
  behind_inferred-Leaves dfd local s (s', Result.ok meta) h = h

  resolve_at_syscall-Leaves :
      (dfd : Fd) (local : Text) (s : State P) → Leaves P s (resolve_at_syscall P proc dfd local s).0
  unfolding resolve_at_syscall
  resolve_at_syscall-Leaves dfd local s =
      after (is_absolute local) (P.is_at_working_directory dfd) (get_fd P dfd s)
    where
      after :
          (a b : Bool) (o : Option FdMeta)
          → Leaves P s
              (if a
                then (s, Result.ok local)
                else if b
                then (s, Result.ok (resolve P local s))
                else (elim o as (λ _. State P × Result (Error Fd Sysno) Text) [
                  | some meta ↦ (s, behind P s dfd local meta)
                  | none ↦ behind_inferred P s dfd local (infer_fd P proc dfd s)
                ])).0
      after true b o = refl
      after false true o = refl
      after false false (some meta) = refl
      after false false none =
          behind_inferred-Leaves dfd local s (infer_fd P proc dfd s) (infer_fd-Leaves P proc dfd s)

  opened-Leaves :
      (flags : ℕ) (s : State P) (r : State P × Result (Error Fd Sysno) Text)
      → Leaves P s r.0
      → Leaves P s (opened P flags r).0
  opened-Leaves flags s (s', Result.err e) h = h
  opened-Leaves flags s (s', Result.ok path) h = h

  resolved-Leaves :
      (dfd : Fd) (flags : ℕ) (filename : Option Text) (s : State P)
      → Leaves P s (resolved P proc dfd flags filename s).0
  resolved-Leaves dfd flags none s = refl
  resolved-Leaves dfd flags (some local) s =
      opened-Leaves flags s (resolve_at_syscall P proc dfd local s)
        (resolve_at_syscall-Leaves dfd local s)

  typed_of-Leaves : (syscall : Syscall P) (s : State P) → Leaves P s (typed_of P proc syscall s).0
  unfolding typed_of
  typed_of-Leaves (Syscall.openat dfd flags filename) s = resolved-Leaves dfd flags filename s
  typed_of-Leaves (Syscall.openat2 dfd none filename) s = refl
  typed_of-Leaves (Syscall.openat2 dfd (some flags) filename) s =
      resolved-Leaves dfd (flags % 2 ^ 32) filename s
  typed_of-Leaves _ s = refl

  with_nr-Leaves :
      (nr : Sysno) (s : State P) (r : State P × Result (Error Fd Sysno) (Option (Typed P)))
      → Leaves P s r.0
      → Leaves P s (with_nr P nr r).0
  with_nr-Leaves nr s (s', Result.err e) h = h
  with_nr-Leaves nr s (s', Result.ok typed) h = h

  pub try_from_syscall-Leaves :
      (nr : Sysno) (syscall : Syscall P) (s : State P)
      → Leaves P s (try_from_syscall P proc nr syscall s).0
  unfolding try_from_syscall
  try_from_syscall-Leaves nr syscall s =
      with_nr-Leaves nr s (typed_of P proc syscall s) (typed_of-Leaves syscall s)

  fd_or_infer-Leaves : (fd : Fd) (s : State P) → Leaves P s (fd_or_infer P proc fd s).0
  fd_or_infer-Leaves fd s = elim (Option-cases (get_fd P fd s)) [
    | inr (meta, e) ↦ rw (e, fd_or_infer) refl
    | inl e ↦ rw (e, fd_or_infer) (infer_fd-Leaves P proc fd s)
  ]

  return_typed-Leaves :
      (table : CapTable) (nr : Sysno) (typed : Typed P) (sval : ℕ) (s : State P)
      → Leaves P s (return_typed P table proc nr typed sval s).0
  unfolding return_typed set_working_directory close close_range add_exec insert_fd
  return_typed-Leaves table nr (Typed.chdir path) sval s = refl
  return_typed-Leaves table nr (Typed.close_fd fd) sval s = refl
  return_typed-Leaves table nr (Typed.close_fds first last) sval s = refl
  return_typed-Leaves table nr (Typed.exec path argv envp) sval s = refl
  return_typed-Leaves table nr (Typed.fd_create meta) sval s =
      elim (Option-cases (P.try_from_arg sval)) [
        | inl e ↦ rw (e, return_typed) refl
        | inr (fd, e) ↦ rw (e, return_typed) refl
      ]
  return_typed-Leaves table nr (Typed.ioctl cmd fd) sval s = fd_or_infer-Leaves fd s

  pub into_capabilities-Leaves :
      (table : CapTable) (meta : Meta P) (sval : ℕ) (s : State P)
      → Leaves P s (into_capabilities P table proc meta sval s).0
  unfolding into_capabilities
  into_capabilities-Leaves table meta sval s = elim (Option-cases meta.typed) [
    | inl e ↦ rw e refl
    | inr (typed, e) ↦ rw e (return_typed-Leaves table meta.nr typed sval s)
  ]
