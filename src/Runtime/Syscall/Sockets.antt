-- ===== src/Runtime/Syscall/Sockets.antt =====
-- src/runtime/syscall/mod.rs: the type of a new socket, with the constants of Linux.
use cargo_capslock.Prelude.{
  ℕ, ◌≡◌, ◌==◌, ◌%◌, ◌/◌, Option, none, some, arith, if◌then◌else◌, bit_and_low,
}
use cargo_capslock.Runtime.Platform.{Libc}
use cargo_capslock.Runtime.Fd.{SockType}
use cargo_capslock.Runtime.Syscall.{sock_type}

-- The constants of Linux.
abbrev pub linux : Libc
linux = record {
  o_cloexec = 524288;
  sock_cloexec = 524288;
  sock_stream = 1;
  sock_dgram = 2;
  sock_raw = 3;
  sock_rdm = 4;
  sock_seqpacket = 5;
}

-- The type by the three low bits.
abbrev pub by_low_bits : ℕ → Option SockType
by_low_bits t =
    if t % 2 == 1
    then some SockType.stream
    else if (t / 2) % 2 == 1
    then some SockType.datagram
    else if (t / 4) % 2 == 1
    then some SockType.rdm
    else none

-- With the constants of Linux, the type of a new socket is decided by the lowest set bit of the three low
-- bits, whatever flags the number has above them: 5 and 3 are never told from 1, and 3 is never raw.
pub sock_type_lem : (t : ℕ) → sock_type linux t ≡ by_low_bits t
unfolding sock_type
sock_type_lem t =
    ground
      (arith, bit_and_low t 1, bit_and_low t 2, bit_and_low t 3, bit_and_low t 4, bit_and_low t 5)
