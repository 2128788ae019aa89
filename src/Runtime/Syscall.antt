-- ===== src/Runtime/Syscall.antt =====
-- src/runtime/syscall/: what a system call is remembered as when it begins, and what it does to the
-- state of its process, and which capabilities it has, when it returns.
pub mod Sockets
pub mod Descriptors
pub mod Exit
mod Tests
use Prim.Native.Nat.{bit_and}
use cargo_capslock.Prelude.{
  ℕ, ◌==◌, ◌%◌, ◌^◌, if◌then◌else◌, Bool, true, false, Option, none, some, List, [], ◌∷◌, Text,
  text_ord, Result, ok_or, and_then,
}
use cargo_capslock.Collections.OrdMap
use cargo_capslock.Collections.OrdMap.{OrdMap}
use cargo_capslock.Collections.OrdSet
use cargo_capslock.Collections.OrdSet.{OrdSet}
use cargo_capslock.Capslock.Caps.{Capability, capability_ord}
use cargo_capslock.Paths.{join, is_absolute}
use cargo_capslock.Runtime.Platform.{AddressFamily, Platform, Procfs, Libc}
use cargo_capslock.Runtime.Fd.{FdType, SockType, FdMeta, Error, has_flag}
use cargo_capslock.Runtime.Process.{
  State, Exec, add_exec, close, close_range, get_fd, infer_fd, insert_fd, resolve,
  set_working_directory,
}

-- `ioctl::caps`, of a descriptor's type; the error carries the command and the type.
unfoldable pub ioctl_caps : FdType → Option (List Capability)
ioctl_caps (FdType.char _) = some (Capability.safe ∷ [])
ioctl_caps (FdType.directory _) = some (Capability.files ∷ [])
ioctl_caps (FdType.file _) = some (Capability.files ∷ [])
ioctl_caps (FdType.socket AddressFamily.unix _) = some (Capability.files ∷ [])
ioctl_caps (FdType.socket AddressFamily.unspec _) = some (Capability.network ∷ [])
ioctl_caps (FdType.socket (AddressFamily.other _) _) = some (Capability.network ∷ [])
ioctl_caps (FdType.socket_inode _) = some (Capability.network ∷ [])
ioctl_caps (FdType.block _) = none
ioctl_caps FdType.fifo = none
ioctl_caps FdType.unknown = none

-- The type of a new socket: the tests in the order of the arms.
unfoldable pub sock_type : Libc → ℕ → Option SockType
sock_type libc t =
    if has_flag t libc.sock_stream
    then some SockType.stream
    else if has_flag t libc.sock_dgram
    then some SockType.datagram
    else if has_flag t libc.sock_seqpacket
    then some SockType.seq_packet
    else if has_flag t libc.sock_raw
    then some SockType.raw
    else if has_flag t libc.sock_rdm
    then some SockType.rdm
    else none

-- `lookup`, which capslock-cm generates from syscalls.cm: the capabilities of a name of a syscall.
abbrev pub CapTable : Type 0
CapTable = OrdMap Text (List Capability)

-- `try_collect` over reads of a process's memory.
abbrev pub all_read : List (Option Text) → Option (List Text)
all_read [] = some []
all_read (none ∷ xs) = none
all_read (some x ∷ xs) = elim (all_read xs) [ none ↦ none | some ys ↦ some (x ∷ ys) ]

module _ (P : Platform) where
  open P use {Fd, Sysno, libc, from_i32, is_at_working_directory, try_from_arg}

  -- `ptrace_iterator::Syscall`, as far as it is told apart. What is read of the memory of the process
  -- may fail to be read.
  pub data Syscall : Type 0 where
    chdir : Option Text → Syscall
    close_fd : Fd → Syscall
    close_fds : Fd → Fd → Syscall
    open_file : ℕ → Option Text → Syscall
    openat : Fd → ℕ → Option Text → Syscall
    openat2 : Fd → Option ℕ → Option Text → Syscall
    pipe : Syscall
    pipe2 : ℕ → Syscall
    socket : ℕ → ℕ → Syscall
    ioctl : ℕ → Fd → Syscall
    execve execveat : Option Text → List (Option Text) → List (Option Text) → Syscall
    other : Syscall

  pub data Typed : Type 0 where
    chdir : Text → Typed
    close_fd : Fd → Typed
    close_fds : Fd → Fd → Typed
    exec : Text → List Text → List Text → Typed
    fd_create : FdMeta → Typed
    ioctl : ℕ → Fd → Typed

  pub record Meta : Type 0 where
    pub nr : Sysno
    pub typed : Option Typed

  -- The path behind a descriptor, for a local path that is not absolute.
  abbrev pub behind : State P → Fd → Text → FdMeta → Result (Error Fd Sysno) Text
  behind s dfd local meta = elim meta.ty [
    | FdType.directory path ↦ Result.ok (join path local)
    | FdType.file path ↦ Result.ok (join path local)
    | _ ↦ Result.err (Error.resolve dfd local s.pid)
  ]

  abbrev pub behind_inferred :
      State P
      → Fd
      → Text
      → State P × Result (Error Fd Sysno) FdMeta
      → State P × Result (Error Fd Sysno) Text
  behind_inferred s dfd local (s', Result.err e) = (s', Result.err e)
  behind_inferred s dfd local (s', Result.ok meta) = (s', behind s dfd local meta)

  -- `resolve_at_syscall`
  unfoldable pub resolve_at_syscall :
      Procfs P → Fd → Text → State P → State P × Result (Error Fd Sysno) Text
  resolve_at_syscall proc dfd local s =
      if is_absolute local
      then (s, Result.ok local)
      else if is_at_working_directory dfd
      then (s, Result.ok (resolve P local s))
      else elim (get_fd P dfd s) [
        | some meta ↦ (s, behind s dfd local meta)
        | none ↦ behind_inferred s dfd local (infer_fd P proc dfd s)
      ]

  abbrev created : ℕ → FdType → Typed
  created flags ty = Typed.fd_create (record { flags = flags; ty = ty })

  -- `Openat` and `Openat2`, from the flags and the resolved path.
  abbrev pub opened :
      ℕ → State P × Result (Error Fd Sysno) Text → State P × Result (Error Fd Sysno) (Option Typed)
  opened flags (s, Result.err e) = (s, Result.err e)
  opened flags (s, Result.ok path) = (s, Result.ok (some (created flags (FdType.file path))))

  abbrev resolved :
      Procfs P → Fd → ℕ → Option Text → State P → State P × Result (Error Fd Sysno) (Option Typed)
  resolved proc dfd flags none s = (s, Result.err Error.tracer_core)
  resolved proc dfd flags (some local) s = opened flags (resolve_at_syscall proc dfd local s)

  abbrev exec_of :
      Option Text → List (Option Text) → List (Option Text) → Result (Error Fd Sysno) (Option Typed)
  exec_of filename argv envp = and_then (ok_or filename Error.tracer_core) λ path.
      and_then (ok_or (all_read argv) Error.tracer_core) λ args.
        and_then (ok_or (all_read envp) Error.tracer_core)
          λ env. Result.ok (some (Typed.exec path args env))

  abbrev family_or_unspec : Option AddressFamily → AddressFamily
  family_or_unspec none = AddressFamily.unspec
  family_or_unspec (some family) = family

  -- The `typed` part of `Meta::try_from_syscall`.
  unfoldable pub typed_of :
      Procfs P → Syscall → State P → State P × Result (Error Fd Sysno) (Option Typed)
  typed_of proc (Syscall.chdir filename) s =
      (s, and_then (ok_or filename Error.tracer_core) λ path. Result.ok (some (Typed.chdir path)))
  typed_of proc (Syscall.close_fd fd) s = (s, Result.ok (some (Typed.close_fd fd)))
  typed_of proc (Syscall.close_fds fd max_fd) s = (s, Result.ok (some (Typed.close_fds fd max_fd)))
  typed_of proc (Syscall.open_file flags filename) s = (
    s,
    and_then (ok_or filename Error.tracer_core)
        λ path. Result.ok (some (created flags (FdType.file path))),
  )
  typed_of proc (Syscall.openat dfd flags filename) s = resolved proc dfd flags filename s
  typed_of proc (Syscall.openat2 dfd none filename) s = (s, Result.err Error.tracer_core)
  typed_of proc (Syscall.openat2 dfd (some flags) filename) s =
      resolved proc dfd (flags % 2 ^ 32) filename s
  typed_of proc Syscall.pipe s = (s, Result.ok (some (created 0 FdType.fifo)))
  typed_of proc (Syscall.pipe2 flags) s = (s, Result.ok (some (created flags FdType.fifo)))
  typed_of proc (Syscall.socket family t) s = (
    s,
    and_then (ok_or (sock_type libc t) (Error.socket_type_unknown t)) λ ty. Result.ok (
        some (
          created (if has_flag t libc.sock_cloexec then libc.o_cloexec else 0)
            (FdType.socket (family_or_unspec (from_i32 family)) ty))),
  )
  typed_of proc (Syscall.ioctl cmd fd) s = (s, Result.ok (some (Typed.ioctl cmd fd)))
  typed_of proc (Syscall.execve filename argv envp) s = (s, exec_of filename argv envp)
  typed_of proc (Syscall.execveat filename argv envp) s = (s, exec_of filename argv envp)
  typed_of proc Syscall.other s = (s, Result.ok none)

  abbrev with_nr :
      Sysno
      → State P × Result (Error Fd Sysno) (Option Typed)
      → State P × Result (Error Fd Sysno) Meta
  with_nr nr (s, Result.err e) = (s, Result.err e)
  with_nr nr (s, Result.ok typed) = (s, Result.ok (record { nr = nr; typed = typed }))

  -- `Meta::try_from_syscall`
  unfoldable pub try_from_syscall :
      Procfs P → Sysno → Syscall → State P → State P × Result (Error Fd Sysno) Meta
  unfolding typed_of
  try_from_syscall proc nr syscall s = with_nr nr (typed_of proc syscall s)

  -- `lookup_sysno`
  unfoldable pub lookup_sysno : CapTable → Sysno → Result (Error Fd Sysno) (OrdSet Capability)
  lookup_sysno table nr =
      and_then (ok_or (OrdMap.lookup (P.name nr) table) (Error.syscall_missing_from_map nr))
        λ caps. Result.ok (OrdSet.collect caps)

  -- The descriptor of an ioctl, inferred if it is not known; `none` where that fails.
  abbrev pub fd_or_infer : Procfs P → Fd → State P → State P × Option FdMeta
  fd_or_infer proc fd s = elim (get_fd P fd s) [
    | some meta ↦ (s, some meta)
    | none ↦
        let (s', r) = infer_fd P proc fd s in
        (s', elim r [ Result.ok meta ↦ some meta | Result.err _ ↦ none ])
  ]

  abbrev pub caps_of_meta : Option FdMeta → Option (List Capability)
  caps_of_meta none = none
  caps_of_meta (some meta) = ioctl_caps meta.ty

  abbrev pub caps_or_lookup :
      CapTable → Sysno → Option (List Capability) → Result (Error Fd Sysno) (OrdSet Capability)
  caps_or_lookup table nr none = lookup_sysno table nr
  caps_or_lookup table nr (some caps) = Result.ok (OrdSet.collect caps)

  -- What the return of a remembered syscall does, of the 64 bits that it returned.
  unfoldable pub return_typed :
      CapTable
      → Procfs P
      → Sysno
      → Typed
      → ℕ
      → State P
      → State P × Result (Error Fd Sysno) (OrdSet Capability)
  return_typed table proc nr (Typed.chdir path) sval s =
      (set_working_directory P path s, lookup_sysno table nr)
  return_typed table proc nr (Typed.close_fd fd) sval s = (close P fd s, lookup_sysno table nr)
  return_typed table proc nr (Typed.close_fds first last) sval s =
      (close_range P first last s, lookup_sysno table nr)
  return_typed table proc nr (Typed.exec path argv envp) sval s =
      (add_exec P (record { command = path; argv = argv; envp = envp }) s, lookup_sysno table nr)
  return_typed table proc nr (Typed.fd_create meta) sval s = elim (try_from_arg sval) [
    | none ↦ (s, Result.err (Error.fd_parse sval))
    | some fd ↦ (insert_fd P fd meta s, lookup_sysno table nr)
  ]
  return_typed table proc nr (Typed.ioctl cmd fd) sval s =
      let (s', meta) = fd_or_infer proc fd s in (s', caps_or_lookup table nr (caps_of_meta meta))

  -- `Meta::into_capabilities`
  unfoldable pub into_capabilities :
      CapTable
      → Procfs P
      → Meta
      → ℕ
      → State P
      → State P × Result (Error Fd Sysno) (OrdSet Capability)
  unfolding return_typed
  into_capabilities table proc meta sval s = elim meta.typed [
    | none ↦ (s, lookup_sysno table meta.nr)
    | some typed ↦ return_typed table proc meta.nr typed sval s
  ]
