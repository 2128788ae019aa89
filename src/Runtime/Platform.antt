-- ===== src/Runtime/Platform.antt =====
-- What the runtime analysis takes from other packages and from the system: descriptors and syscall
-- numbers of ptrace_iterator, the constants of libc, the address families of nix, and what procfs shows.
use cargo_capslock.Prelude.{ℕ, Bool, Option, List, Text, Ord}
use cargo_capslock.Graph.CallGraph.{DiGraphMap}

-- `nix::sys::socket::AddressFamily`, as far as the program tells families apart.
pub data AddressFamily : Type 0 where
  unix unspec : AddressFamily
  other : ℕ → AddressFamily

-- `libc`, for the target.
pub record Libc : Type 0 where
  pub o_cloexec : ℕ
  pub sock_cloexec : ℕ
  pub sock_stream : ℕ
  pub sock_dgram : ℕ
  pub sock_raw : ℕ
  pub sock_rdm : ℕ
  pub sock_seqpacket : ℕ

pub record Platform : Type 1 where
  pub Fd : Type 0
  pub fd_ord : Ord Fd
  pub is_at_working_directory : Fd → Bool
  -- `Fd::try_from_arg`, of the 64 bits of an argument.
  pub try_from_arg : ℕ → Option Fd
  pub Sysno : Type 0
  pub name : Sysno → Text
  pub to_string : Sysno → Text
  -- `AddressFamily::from_i32`, of the 32 bits.
  pub from_i32 : ℕ → Option AddressFamily
  pub libc : Libc
  pub petgraph : DiGraphMap

-- `FileType` of a path's metadata.
pub data FileKind : Type 0 where
  dir file block_device char_device fifo other : FileKind

-- What the file system shows at the time of an event; `none` is an error.
pub record Procfs (P : Platform) : Type 0 where
  -- The lines of `/proc/{pid}/fdinfo/{fd}`, each of which may fail to be read.
  pub fdinfo : ℕ → P.Fd → Option (List (Option Text))
  -- The link `/proc/{pid}/fd/{fd}`.
  pub read_link : ℕ → P.Fd → Option Text
  pub canonicalize : Text → Option Text
  pub file_kind : Text → Option FileKind
