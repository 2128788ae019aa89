-- ===== src/Runtime/Syscall/Tests.antt =====
-- src/runtime/syscall/: the properties of system calls at a small traced program.
use cargo_capslock.Prelude.{◌≡◌, ◌≢◌, refl, true, false, some, [], codes, Result, nat_ord}
use cargo_capslock.Paths.{is_absolute, join}
use cargo_capslock.Runtime.Platform.{AddressFamily}
use cargo_capslock.Runtime.Fd.{FdMeta, FdType, SockType}
use cargo_capslock.Runtime.Process.{resolve}
use cargo_capslock.Runtime.Syscall.{
  Syscall, Typed, Meta, ioctl_caps, sock_type, caps_or_lookup, into_capabilities, try_from_syscall,
}
use cargo_capslock.Runtime.Syscall.Descriptors.{
  ioctl_after_create, openat_after_open, open_openat, resolve_after_chdir,
}
use cargo_capslock.Runtime.Syscall.Sockets.{linux, sock_type_lem}
use cargo_capslock.Runtime.Tests.{platform, no_procfs, table, shell}

relative_hosts : is_absolute (codes "hosts") ≡ false
unfolding is_absolute
relative_hosts = refl

not_empty : codes "sub" ≢ []
not_empty e = cc

abbrev socket : FdMeta
socket = record { flags = 0; ty = FdType.socket (AddressFamily.other 2) SockType.stream }

ioctl_after_create_example :
    let s' =
      (into_capabilities platform table no_procfs
        (record { nr = 41; typed = some (Typed.fd_create socket) })
        5
        shell).0 in
    into_capabilities platform table no_procfs
      (record { nr = 16; typed = some (Typed.ioctl 1 5) })
      0
      s'
    ≡ (s', caps_or_lookup platform table 16 (ioctl_caps socket.ty))
ioctl_after_create_example =
    ioctl_after_create platform no_procfs table 41 16 socket 5 0 1 5 shell refl

openat_after_open_example :
    (meta : Meta platform) × (try_from_syscall platform no_procfs 2
        (Syscall.open_file 0 (some (codes "/etc")))
        shell
      ≡ (shell, Result.ok meta))
    × (let s' = (into_capabilities platform table no_procfs meta 5 shell).0 in
        try_from_syscall platform no_procfs 257 (Syscall.openat 5 0 (some (codes "hosts"))) s' ≡ (
          s',
          Result.ok (record {
            nr = 257;
            typed = some (
                Typed.fd_create
                  (record { flags = 0; ty = FdType.file (join (codes "/etc") (codes "hosts")) }));
          }),
        ))
openat_after_open_example =
    openat_after_open platform no_procfs table 2 257 0 0 5 (codes "/etc") (codes "hosts") 5 shell
      refl refl relative_hosts

open_openat_example :
    (is_absolute (codes "x") ≡ true
      → try_from_syscall platform no_procfs 257 (Syscall.openat 100 0 (some (codes "x"))) shell
        ≡ try_from_syscall platform no_procfs 257 (Syscall.open_file 0 (some (codes "x"))) shell)
    × (is_absolute (codes "x") ≡ false
        → true ≡ true
        → try_from_syscall platform no_procfs 257 (Syscall.openat 100 0 (some (codes "x"))) shell
          ≡ try_from_syscall platform no_procfs 257
              (Syscall.open_file 0 (some (resolve platform (codes "x") shell)))
              shell)
open_openat_example = open_openat platform no_procfs table 257 0 (codes "x") 100 shell

resolve_after_chdir_example :
    (meta : Meta platform) × (try_from_syscall platform no_procfs 80
        (Syscall.chdir (some (codes "sub")))
        shell
      ≡ (shell, Result.ok meta))
    × (let s' = (into_capabilities platform table no_procfs meta 0 shell).0 in
        (s'.wd ≡ codes "sub")
        × (is_absolute (resolve platform (codes "hosts") s') ≡ is_absolute (codes "sub")))
resolve_after_chdir_example =
    resolve_after_chdir platform no_procfs table 80 (codes "sub") (codes "hosts") 0 shell
      relative_hosts not_empty

sock_type_lem_example : sock_type linux 524293 ≡ some SockType.stream
sock_type_lem_example = sock_type_lem 524293
