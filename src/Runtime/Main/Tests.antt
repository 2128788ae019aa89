-- ===== src/Runtime/Main/Tests.antt =====
-- src/runtime/: runs of the whole command, of the forwarding of signals and of the reading of fdinfo.
use cargo_capslock.Prelude.{
  ℕ, ◌≡◌, refl, ◌==◌, true, false, Option, none, some, List, [], ◌∷◌, arith, All, Text, codes,
  Result, if◌then◌else◌, parse_u64, parse_octal, trim_ascii, is_utf8,
}
use cargo_capslock.Collections.OrdSet
use cargo_capslock.Capslock.Caps.{Capability, capability_ord}
use cargo_capslock.Capslock.Report.{Report}
use cargo_capslock.Runtime.Platform.{Procfs}
use cargo_capslock.Runtime.Fd.{
  FdType, Error, scan_fdinfo, meta_from_procfs, pid_fd_flags, flags_line, type_from_procfs,
  type_of_link, socket_inode_of,
}
use cargo_capslock.Runtime.Fd.Inference.{Scanned, scan_fdinfo-Scanned}
use cargo_capslock.Runtime.Fd.Inferred.{Inferred, meta_from_procfs-Inferred}
use cargo_capslock.Runtime.Process.{StartBehaviour, into_report}
use cargo_capslock.Runtime.Events.{Event, new_state, handle_events}
use cargo_capslock.Runtime.Events.Accounts.{counted, report_counted}
use cargo_capslock.Graph.Pictured.{Pictures}
use cargo_capslock.Runtime.Events.Stacks.{seen_name, Shows}
use cargo_capslock.Runtime.Events.Traces.{all_seen, all_calls}
use cargo_capslock.Runtime.Events.Pictured.{traced, report_pictured}
use cargo_capslock.Runtime.Events.Reporting.{IsClosed}
use cargo_capslock.Runtime.Signals.{Signals, listen, Ended, listen-Ended}
use cargo_capslock.Runtime.Main.{Runtime, System, create_output, main}
use cargo_capslock.Runtime.Main.Outcome.{Traced, end_state, main_writes}
use cargo_capslock.Runtime.Main.Failing.{Fails, main-Fails}
use cargo_capslock.Runtime.Tests.{platform, env, exec, opens}

report_counted_example :
    let g = new_state platform env 7 exec (codes "/home") StartBehaviour.include_all true false in
    (r : Report) × (into_report platform true (handle_events platform env opens g).processes
      ≡ Result.ok r)
    × ((c : Capability)
        → OrdSet.contains c r.process.capabilities
          ≡ OrdSet.contains c (counted platform env 7 opens g))
report_counted_example =
    report_counted platform env 7 exec (codes "/home") StartBehaviour.include_all true false true
      opens (ground arith)

report_pictured_example :
    let g = new_state platform env 7 exec (codes "/home") StartBehaviour.include_all true false in
    (r : Report) × (into_report platform true (handle_events platform env opens g).processes
      ≡ Result.ok r)
    × Pictures seen_name
        (Shows env.symbolic)
        (all_seen platform env (traced platform env 7 opens g))
        (all_calls platform env (traced platform env 7 opens g))
        r.process
report_pictured_example =
    report_pictured platform env 7 exec (codes "/home") StartBehaviour.include_all true false true
      opens (ground arith)

abbrev arguments : Runtime
arguments = record {
  include_children = true;
  include_before_start = false;
  include_syscalls = true;
  lookup_locations = false;
  output = some (codes "/tmp/out");
  start_symbol = codes "gettid";
  argv = codes "/bin/a" ∷ codes "-v" ∷ [];
}

-- The tracer gives an error between its events.
abbrev results : List (Option (Event platform env))
results = none ∷ some (Event.clone 7 8) ∷ none ∷ some (Event.exited 8) ∷ []

abbrev machine : System platform env
machine = record {
  spawn = λ path argv. some 7;
  forward = λ pid. true;
  current_dir = some (codes "/home");
  trace = λ pid. some results;
  create = λ path. true;
  write = λ output r. true;
  status = some 3;
}

machine-Traced :
    Traced platform env arguments machine
      (codes "/bin/a")
      (codes "-v" ∷ [])
      7
      (codes "/home")
      results
machine-Traced = record {
  command = refl;
  spawned = refl;
  forwarded = refl;
  directory = refl;
  traced = refl;
}

output_created : create_output platform env arguments.output machine ≡ Result.ok tt
unfolding create_output
output_created = refl

main_writes_example :
    (r : Report) × (into_report platform true
        (end_state platform env arguments machine
          (codes "/bin/a")
          (codes "-v" ∷ [])
          7
          (codes "/home")
          results).processes
      ≡ Result.ok r)
    × IsClosed r.process
    × All IsClosed r.children
    × (true ≡ true
        → main platform env arguments machine
          ≡ Result.ok (record { output = some (codes "/tmp/out"); report = r; code = some 3 }))
    × (true ≡ false → main platform env arguments machine ≡ Result.err Error.output_write)
main_writes_example =
    main_writes platform env arguments machine (codes "/bin/a") (codes "-v" ∷ []) 7 (codes "/home")
      results machine-Traced output_created

abbrev no_arguments : Runtime
no_arguments = record arguments { argv = [] }

no_arguments_run : main platform env no_arguments machine ≡ Result.err Error.argv0
unfolding main
no_arguments_run = refl

main-Fails_example : Fails platform env no_arguments machine Error.argv0
main-Fails_example = main-Fails platform env no_arguments machine Error.argv0 no_arguments_run

-- Signals are numbers below 65, and 9 cannot be sent.
abbrev nix : Signals
nix = record {
  Signal = ℕ;
  try_into = λ n. if n == 65 then none else some n;
  kill = λ pid s. if s == 9 then false else true;
}

listen-Ended_example :
    let (sent, e) = listen platform nix 7 (2 ∷ 2 ∷ 9 ∷ 2 ∷ []) in
    Ended platform nix 7 (2 ∷ 2 ∷ 9 ∷ 2 ∷ []) sent e
listen-Ended_example = listen-Ended platform nix 7 (2 ∷ 2 ∷ 9 ∷ 2 ∷ [])

abbrev lines : List (Option Text)
lines = some (codes "pos: 0") ∷ some (codes "flags: 02") ∷ none ∷ []

scan_fdinfo-Scanned_example : Scanned platform 7 3 lines (scan_fdinfo platform 7 3 lines)
scan_fdinfo-Scanned_example = scan_fdinfo-Scanned platform 7 3 lines

-- Descriptors that are sockets.
abbrev sockets : Procfs platform
sockets = record {
  fdinfo = λ pid fd. some (some (codes "pos: 0") ∷ some (codes "flags:\t02") ∷ []);
  read_link = λ pid fd. some (codes "socket:[42]");
  canonicalize = λ path. none;
  file_kind = λ path. none;
}

meta_from_procfs-Inferred_example :
    Inferred platform sockets 7 3 (meta_from_procfs platform sockets 7 3)
meta_from_procfs-Inferred_example = meta_from_procfs-Inferred platform sockets 7 3

socket_run :
    meta_from_procfs platform sockets 7 3
    ≡ Result.ok (record { flags = 2; ty = FdType.socket_inode 42 })
unfolding meta_from_procfs pid_fd_flags scan_fdinfo flags_line type_from_procfs type_of_link
    socket_inode_of parse_u64 parse_octal trim_ascii is_utf8
socket_run = refl
