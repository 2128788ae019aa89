-- ===== src/Runtime/Tests.antt =====
-- src/runtime/: a small traced program, and the properties of the analysis at it.
use cargo_capslock.Prelude.{
  ℕ, zero, suc, ◌≡◌, ◌≢◌, refl, ◌==◌, true, false, Option, none, some, List, [], ◌∷◌, ◌++◌, arith,
  Text, codes, Result, All, nat_ord, if◌then◌else◌, subst,
}
use cargo_capslock.Collections.OrdMap
use cargo_capslock.Capslock.Caps.{Capability}
use cargo_capslock.Capslock.Report.{Report}
use cargo_capslock.Functions.Tests.{plain_names}
use cargo_capslock.Functions.Map.{empty}
use cargo_capslock.Graph.EdgeList.{edge_list}
use cargo_capslock.Runtime.Platform.{AddressFamily, Platform, Procfs}
use cargo_capslock.Runtime.Fd.{FdType, Error}
use cargo_capslock.Runtime.Process.{
  State, Map, StartBehaviour, Exec, exit, get_active, spawn, get_fd, into_report, fresh_state,
}
use cargo_capslock.Runtime.Process.Grows.{Grows}
use cargo_capslock.Runtime.Process.Tree.{kept_at_clone, spawn_lem, exit_lem}
use cargo_capslock.Runtime.Lookup.{DebugInfo, find_location, enabled, disabled}
use cargo_capslock.Runtime.Lookup.Cache.{after, shows, find_location_lem}
use cargo_capslock.Runtime.Syscall.{CapTable, Syscall, Typed}
use cargo_capslock.Runtime.Syscall.Sockets.{linux}
use cargo_capslock.Runtime.Events.{Env, Frame, GlobalState, Event, new_state, handle_events}
use cargo_capslock.Runtime.Events.Reporting.{IsClosed, run_report}
use cargo_capslock.Runtime.Events.Stays.{handle_events_stable}

abbrev pub name_of : ℕ → Text
name_of n = if n == 257 then codes "openat" else codes "write"

-- Descriptors and the numbers of syscalls are numbers; 100 stands for the working directory.
abbrev pub platform : Platform
platform = record {
  Fd = ℕ;
  fd_ord = nat_ord;
  is_at_working_directory = λ fd. fd == 100;
  try_from_arg = λ n. some n;
  Sysno = ℕ;
  name = name_of;
  to_string = name_of;
  from_i32 = λ n. some (if n == 1 then AddressFamily.unix else AddressFamily.other n);
  libc = linux;
  petgraph = edge_list;
}

-- A file system that shows nothing.
abbrev pub no_procfs : Procfs platform
no_procfs = record {
  fdinfo = λ pid fd. none;
  read_link = λ pid fd. none;
  canonicalize = λ path. none;
  file_kind = λ path. none;
}

abbrev pub table : CapTable
table = (codes "openat", Capability.files ∷ []) ∷ (codes "write", Capability.safe ∷ []) ∷ []

abbrev pub env : Env
env = record { symbolic = plain_names; debug = λ reading pid. none; table = table }

abbrev pub exec : Exec
exec = record { command = codes "/bin/a"; argv = []; envp = [] }

-- A state with a descriptor that a child keeps, and one that it does not.
abbrev pub shell : State platform
shell =
    fresh_state platform (exec ∷ [])
      ((3, record { flags = 0; ty = FdType.file (codes "/a") })
        ∷ (4, record { flags = 524288; ty = FdType.file (codes "/b") })
        ∷ [])
      7 StartBehaviour.include_all (codes "/home")

abbrev two : Map platform
two = record {
  active =
      (7, shell) ∷ (8, fresh_state platform [] [] 8 StartBehaviour.include_all (codes "/")) ∷ [];
  inactive = [];
  start_behaviour = StartBehaviour.include_all;
  init_pid = 7;
}

abbrev frame : ℕ → Text → Frame
frame ip name = record { ip = some ip; name = some (name, 1); start_ip = some 41 }

-- `f`, which `main` calls, opens a file.
abbrev pub opens : List (Event platform env)
opens =
    Event.clone 7 8
    ∷ Event.syscall_entry no_procfs 7 257 (Syscall.openat 100 0 (some (codes "x")))
    ∷ Event.syscall_exit false no_procfs 7
        (some (record {
          nr = 257;
          typed = some (Typed.fd_create (record { flags = 0; ty = FdType.file (codes "/home/x") }));
        }))
        3 (some 257) (some (frame 42 (codes "f") ∷ frame 42 (codes "main") ∷ []))
    ∷ Event.exited 8
    ∷ []

abbrev FdsSorted : Option (State platform) → Type 0
FdsSorted none = Unit
FdsSorted (some s) = OrdMap.IsSorted ⦃o = nat_ord⦄ s.fds

shell-IsSorted :
    (s : State platform) → get_active platform 7 two ≡ some s → OrdMap.IsSorted ⦃o = nat_ord⦄ s.fds
unfolding get_active
shell-IsSorted s e = subst (λ (o : Option (State platform)). FdsSorted o) e ((refl, tt), (tt, tt))

run_report_example :
    let end =
      handle_events platform env opens
        (new_state platform env 7 exec (codes "/home") StartBehaviour.include_all true false) in
    (r : Report) × (into_report platform true end.processes ≡ Result.ok r)
    × IsClosed r.process
    × All IsClosed r.children
run_report_example =
    run_report platform env 7 exec (codes "/home") StartBehaviour.include_all true false true opens

abbrev tracing : GlobalState platform env
tracing = record {
  processes = two;
  include_syscalls = true;
  location_lookup = record { processes = none; reads = 0 };
}

abbrev later : List (Event platform env)
later = Event.clone 7 9 ∷ Event.exited 8 ∷ []

handle_events_stable_example :
    (s' : State platform) × (OrdMap.lookup 7
        (handle_events platform env later tracing).processes.active
      ≡ some s')
    × Grows platform shell s'
handle_events_stable_example =
    handle_events_stable platform env later tracing 7 shell (ground arith) refl

spawn_lem_example :
    let (m', failed) = spawn platform 7 9 two in
    (get_active platform 7 two ≡ none → (m' ≡ two) × (failed ≡ some (Error.process_find 7)))
    × ((s : State platform)
        → get_active platform 7 two ≡ some s
        → (failed ≡ none)
          × ((c : State platform) × (get_active platform 9 m' ≡ some c)
              × (c.pid ≡ 9)
              × (c.wd ≡ s.wd)
              × ((fd : ℕ) → get_fd platform fd c ≡ kept_at_clone platform (get_fd platform fd s))
              × (c.execs ≡ [])
              × (c.functions ≡ empty)
              × (c.caps ≡ []))
          × ((k : ℕ) → k ≢ 9 → get_active platform k m' ≡ get_active platform k two)
          × (m'.inactive ≡ two.inactive)
          × (m'.init_pid ≡ two.init_pid)
          × (m'.start_behaviour ≡ two.start_behaviour))
spawn_lem_example = spawn_lem platform 7 9 two shell-IsSorted

exit_lem_example :
    let m' = exit platform 8 two in
    (8 ≡ two.init_pid → m' ≡ two)
    × (get_active platform 8 two ≡ none → m' ≡ two)
    × ((s : State platform)
        → 8 ≢ two.init_pid
        → get_active platform 8 two ≡ some s
        → (get_active platform 8 m' ≡ none)
          × (m'.inactive ≡ two.inactive ++ (8, s) ∷ [])
          × ((k : ℕ) → k ≢ 8 → get_active platform k m' ≡ get_active platform k two))
    × (m'.init_pid ≡ two.init_pid)
exit_lem_example = exit_lem platform 8 two

-- The executable of process 7 at its first reading, and another at all later ones.
abbrev executables : DebugInfo
executables zero pid = some (
    some (record {
      name = codes "main";
      compilation_dir = codes "/p";
      first_line = some (codes "src/main.rs", 3);
    })
    ∷ [])
executables (suc _) pid = some []

find_location_lem_example :
    let l = after executables [] enabled in
    let (l', found) = find_location executables 7 (codes "main") l in
    (found ≡ shows (codes "main") (executables l.reads 7))
    × ((find_location executables 7 (codes "main") (after executables ((8, codes "f") ∷ []) l')).1
        ≡ shows (codes "main") (executables l.reads 7))
    × ((find_location executables 7 (codes "main") (after executables [] disabled)).1 ≡ none)
find_location_lem_example =
    find_location_lem executables [] ((8, codes "f") ∷ []) 7 (codes "main") (codes "main") tt
