-- ===== src/Runtime/Fd.antt =====
-- src/runtime/fd.rs and src/runtime/error.rs: what is known of a file descriptor, and how it is inferred
-- from procfs.
pub mod Inference
pub mod Links
pub mod Inferred
use Prim.Native.Nat.{bit_and}
use cargo_capslock.Prelude.{
  ℕ, ◌==◌, if◌then◌else◌, Bool, Option, none, some, List, [], ◌∷◌, Text, codes, Result, ok_or,
  and_then, strip_prefix, trim_ascii, parse_u64, parse_octal, is_utf8, reverse,
}
use cargo_capslock.Runtime.Platform.{AddressFamily, Libc, Platform, FileKind, Procfs}

-- `nix::sys::socket::SockType`
pub data SockType : Type 0 where
  stream datagram seq_packet raw rdm : SockType

-- `fd::Type`
pub data FdType : Type 0 where
  block char directory file : Text → FdType
  fifo unknown : FdType
  socket : AddressFamily → SockType → FdType
  socket_inode : ℕ → FdType

-- `fd::Meta`; `OFlag` is the 32 bits of a C int.
pub record FdMeta : Type 0 where
  pub flags : ℕ
  pub ty : FdType

-- `OFlag::contains`
abbrev pub has_flag : ℕ → ℕ → Bool
has_flag flags flag = bit_and flags flag == flag

-- `Meta::is_cloexec`
unfoldable pub is_cloexec : Libc → FdMeta → Bool
is_cloexec libc meta = has_flag meta.flags libc.o_cloexec

-- `runtime::error::Error`, without the causes of the errors of other packages.
pub data Error (Fd Sysno : Type 0) : Type 0 where
  argv0 cwd kill output_create output_write signal signals spawn : Error Fd Sysno
  syscall_meta_missing syscall_missing_in_exit tracer tracer_core unwind : Error Fd Sysno
  child_missing process_find process_unknown : ℕ → Error Fd Sysno
  fd_parse socket_type_unknown : ℕ → Error Fd Sysno
  ioctl : ℕ → FdType → Error Fd Sysno
  procfs_fd procfs_fdinfo procfs_fdinfo_missing : Fd → ℕ → Error Fd Sysno
  -- the descriptor, the text of the flags and the process
  procfs_fdinfo_flag : Fd → Text → ℕ → Error Fd Sysno
  -- the descriptor, the path and the process
  resolve : Fd → Text → ℕ → Error Fd Sysno
  syscall_missing_from_map : Sysno → Error Fd Sysno

-- The flags that a line of fdinfo shows, if it shows some in UTF-8.
unfoldable pub flags_line : Text → Option Text
flags_line line = elim (strip_prefix (codes "flags:") line) [
  | none ↦ none
  | some bytes ↦ if is_utf8 bytes then some bytes else none
]

-- The branches of `Type::try_from_procfs` for a path that is there.
unfoldable pub type_of_kind : FileKind → Text → FdType
type_of_kind FileKind.dir path = FdType.directory path
type_of_kind FileKind.file path = FdType.file path
type_of_kind FileKind.block_device path = FdType.block path
type_of_kind FileKind.char_device path = FdType.char path
type_of_kind FileKind.fifo path = FdType.fifo
type_of_kind FileKind.other path = FdType.unknown

-- `strip_suffix` of one byte.
abbrev strip_last : ℕ → Text → Option Text
strip_last b s = elim (reverse s) [ [] ↦ none | c ∷ r ↦ if c == b then some (reverse r) else none ]

-- The inode between the brackets of a link to a socket.
unfoldable pub socket_inode_of : Text → Option ℕ
socket_inode_of path = elim (strip_prefix (codes "socket:[") path) [
  | none ↦ none
  | some rem ↦ elim (strip_last b']' rem) [
    | none ↦ none
    | some bytes ↦ if is_utf8 bytes then parse_u64 bytes else none
  ]
]

-- The type by the text of the link alone.
unfoldable pub type_of_link : Text → FdType
type_of_link path = elim (socket_inode_of path) [
  | some inode ↦ FdType.socket_inode inode
  | none ↦ elim (strip_prefix (codes "pipe:[") path) [
    | some _ ↦ FdType.fifo
    | none ↦ FdType.unknown
  ]
]

module _ (P : Platform) where
  open P use {Fd, Sysno}

  -- The loop of `pid_fd_flags` over the lines.
  unfoldable pub scan_fdinfo : ℕ → Fd → List (Option Text) → Result (Error Fd Sysno) (Option ℕ)
  scan_fdinfo pid fd [] = Result.ok none
  scan_fdinfo pid fd (none ∷ lines) = Result.err (Error.procfs_fdinfo fd pid)
  scan_fdinfo pid fd (some line ∷ lines) = elim (flags_line line) [
    | none ↦ scan_fdinfo pid fd lines
    | some flags ↦ elim (parse_octal (trim_ascii flags)) [
      | none ↦ Result.err (Error.procfs_fdinfo_flag fd flags pid)
      | some n ↦ Result.ok (some n)
    ]
  ]

  -- `pid_fd_flags`
  unfoldable pub pid_fd_flags : Procfs P → ℕ → Fd → Result (Error Fd Sysno) (Option ℕ)
  pid_fd_flags proc pid fd =
      and_then (ok_or (proc.fdinfo pid fd) (Error.procfs_fdinfo fd pid)) (scan_fdinfo pid fd)

  -- `Type::try_from_procfs`
  unfoldable pub type_from_procfs : Procfs P → Text → FdType
  type_from_procfs proc link = elim (proc.canonicalize link) [
    | none ↦ type_of_link link
    | some path ↦ elim (proc.file_kind path) [
      | none ↦ type_of_link link
      | some kind ↦ type_of_kind kind path
    ]
  ]

  -- `Meta::try_from_procfs`
  unfoldable pub meta_from_procfs : Procfs P → ℕ → Fd → Result (Error Fd Sysno) FdMeta
  meta_from_procfs proc pid fd = and_then (pid_fd_flags proc pid fd) λ found.
      and_then (ok_or found (Error.procfs_fdinfo_missing fd pid)) λ flags.
        and_then (ok_or (proc.read_link pid fd) (Error.procfs_fd fd pid))
          λ link. Result.ok (record { flags = flags; ty = type_from_procfs proc link })
