-- ===== src/Runtime/Process.antt =====
-- src/runtime/process.rs: the processes being traced, and what is known of each.
pub mod Grows
pub mod Tree
use cargo_capslock.Prelude.{
  ℕ, ◌==◌, ◌≡◌, if◌then◌else◌, Bool, true, false, not, ◌&&◌, Option, none, some, List, [], ◌∷◌,
  ◌++◌, map, Text, Result, Ord, Ordering, nat_ord, beq, ok_or, and_then,
}
use cargo_capslock.Collections.OrdMap
use cargo_capslock.Collections.OrdMap.{OrdMap}
use cargo_capslock.Collections.OrdSet
use cargo_capslock.Collections.OrdSet.{OrdSet}
use cargo_capslock.Capslock.Caps.{Capability, capability_ord}
use cargo_capslock.Capslock.Report.{Function, Report, Process}
use cargo_capslock.Functions.Map.{FunctionMap, empty, upsert, into_functions}
use cargo_capslock.Graph.CallGraph.{into_edges}
use cargo_capslock.Paths.{join}
use cargo_capslock.Runtime.Platform.{Platform, Procfs}
use cargo_capslock.Runtime.Fd.{FdMeta, Error, is_cloexec, meta_from_procfs}

pub data StartBehaviour : Type 0 where
  include_all : StartBehaviour
  only_after : Text → StartBehaviour

-- `StartBehaviour::waiting_for_start_default`
unfoldable pub waiting_for_start_default : StartBehaviour → Bool
waiting_for_start_default StartBehaviour.include_all = false
waiting_for_start_default (StartBehaviour.only_after _) = true

pub record Exec : Type 0 where
  pub command : Text
  pub argv : List Text
  pub envp : List Text

abbrev is_lt : Ordering → Bool
is_lt Ordering.lt = true
is_lt Ordering.eq = false
is_lt Ordering.gt = false

module _ (P : Platform) where
  open P use {Fd, fd_ord, Sysno, libc, petgraph}

  pub record State : Type 0 where
    pub execs : List Exec
    pub fds : OrdMap Fd FdMeta
    pub pid : ℕ
    pub start_behaviour : StartBehaviour
    pub waiting_for_start : Bool
    pub wd : Text
    pub call_graph : petgraph.Graph
    pub caps : OrdSet Capability
    pub functions : FunctionMap

  pub record Map : Type 0 where
    pub active : OrdMap ℕ State
    pub inactive : List (ℕ × State)
    pub start_behaviour : StartBehaviour
    pub init_pid : ℕ

  -- A process that nothing is known of but what its parent or the command line gives.
  abbrev pub fresh_state : List Exec → OrdMap Fd FdMeta → ℕ → StartBehaviour → Text → State
  fresh_state execs fds pid start wd = record {
    execs = execs;
    fds = fds;
    pid = pid;
    start_behaviour = start;
    waiting_for_start = waiting_for_start_default start;
    wd = wd;
    call_graph = petgraph.new;
    caps = [];
    functions = empty;
  }

  -- `Map::new`
  unfoldable pub new_map : ℕ → Exec → Text → StartBehaviour → Map
  new_map init_pid init_exec init_wd start = record {
    active = OrdMap.insert init_pid (fresh_state (init_exec ∷ []) [] init_pid start init_wd) [];
    inactive = [];
    start_behaviour = start;
    init_pid = init_pid;
  }

  -- `Map::exit`: the first process is never moved away.
  unfoldable pub exit : ℕ → Map → Map
  exit pid m = if pid == m.init_pid then m else elim (OrdMap.lookup pid m.active) [
    | none ↦ m
    | some state ↦ record m {
      active = OrdMap.retain (λ k. not (k == pid)) m.active;
      inactive = m.inactive ++ (pid, state) ∷ [];
    }
  ]

  -- `Map::get_active` and `Map::get_mut_active`
  unfoldable pub get_active : ℕ → Map → Option State
  get_active pid m = OrdMap.lookup pid m.active

  -- A write through `get_mut_active`.
  unfoldable pub set_active : ℕ → State → Map → Map
  set_active pid state m = record m { active = OrdMap.insert pid state m.active }

  -- The descriptors that `spawn` gives to the child.
  abbrev pub inherited : OrdMap Fd FdMeta → OrdMap Fd FdMeta
  inherited [] = []
  inherited ((fd, meta) ∷ fds) =
      if not (is_cloexec libc meta)
      then OrdMap.insert ⦃o = fd_ord⦄ fd meta (inherited fds)
      else inherited fds

  -- `Map::spawn`
  unfoldable pub spawn : ℕ → ℕ → Map → Map × Option (Error Fd Sysno)
  unfolding get_active
  spawn parent child m = elim (get_active parent m) [
    | none ↦ (m, some (Error.process_find parent))
    | some state ↦ (
      record m {
        active =
            OrdMap.insert child
              (fresh_state [] (inherited state.fds) child m.start_behaviour state.wd) m.active;
      },
      none,
    )
  ]

  -- `State::add_edge`
  unfoldable pub add_edge : ℕ → ℕ → State → State
  add_edge from to s = record s { call_graph = petgraph.add_edge from to none s.call_graph }

  -- `State::add_exec`
  unfoldable pub add_exec : Exec → State → State
  add_exec exec s = record s { execs = s.execs ++ exec ∷ [] }

  -- `State::close`
  unfoldable pub close : Fd → State → State
  close fd s = record s {
    fds = OrdMap.retain ⦃o = fd_ord⦄ (λ k. not (beq ⦃o = fd_ord⦄ k fd)) s.fds;
  }

  -- `RangeInclusive::contains`
  abbrev pub in_range : Fd → Fd → Fd → Bool
  in_range first last fd = not (is_lt (fd_ord.cmp fd first)) && not (is_lt (fd_ord.cmp last fd))

  -- `State::close_range`
  unfoldable pub close_range : Fd → Fd → State → State
  close_range first last s = record s {
    fds = OrdMap.retain ⦃o = fd_ord⦄ (λ k. not (in_range first last k)) s.fds;
  }

  -- `State::extend_caps`
  unfoldable pub extend_caps : List Capability → State → State
  extend_caps caps s = record s { caps = OrdSet.extend s.caps caps }

  -- `State::get_fd`
  unfoldable pub get_fd : Fd → State → Option FdMeta
  get_fd fd s = OrdMap.lookup ⦃o = fd_ord⦄ fd s.fds

  -- `State::insert_fd`
  unfoldable pub insert_fd : Fd → FdMeta → State → State
  insert_fd fd meta s = record s { fds = OrdMap.insert ⦃o = fd_ord⦄ fd meta s.fds }

  -- `State::infer_fd`: what procfs says is kept.
  unfoldable pub infer_fd : Procfs P → Fd → State → State × Result (Error Fd Sysno) FdMeta
  unfolding insert_fd
  infer_fd proc fd s = elim (meta_from_procfs P proc s.pid fd) [
    | Result.err e ↦ (s, Result.err e)
    | Result.ok meta ↦ (insert_fd fd meta s, Result.ok meta)
  ]

  -- `State::get_start_symbol`
  unfoldable pub get_start_symbol : State → Option Text
  get_start_symbol s = elim s.start_behaviour [
    | StartBehaviour.include_all ↦ none
    | StartBehaviour.only_after after ↦ some after
  ]

  -- `State::is_waiting_for_start`
  unfoldable pub is_waiting_for_start : State → Bool
  is_waiting_for_start s = s.waiting_for_start

  -- `State::start_seen`
  unfoldable pub start_seen : State → State
  start_seen s = record s { waiting_for_start = false }

  -- `State::resolve`
  unfoldable pub resolve : Text → State → Text
  resolve path s = join s.wd path

  -- `State::set_working_directory`
  unfoldable pub set_working_directory : Text → State → State
  set_working_directory path s = record s { wd = path }

  -- `State::upsert_function`
  unfoldable pub upsert_function : Text → Function → State → State × ℕ
  upsert_function mangled f s =
      let (functions, idx) = upsert mangled f s.functions in
      (record s { functions = functions }, idx)

  -- `State::into_process`
  unfoldable pub into_process : State → Process
  unfolding into_functions
  into_process s = record {
    path = elim s.execs [ [] ↦ [] | exec ∷ _ ↦ exec.command ];
    capabilities = s.caps;
    functions = into_functions s.functions;
    edges = into_edges petgraph s.call_graph;
  }

  abbrev pub values : OrdMap ℕ State → List State
  values [] = []
  values ((_, s) ∷ m) = s ∷ values m

  -- `Map::into_report`. The capabilities that it first gathers are not used.
  unfoldable pub into_report : Bool → Map → Result (Error Fd Sysno) Report
  unfolding into_process
  into_report include_children m =
      and_then (ok_or (OrdMap.lookup m.init_pid m.active) (Error.child_missing m.init_pid)) λ state.
        let others = OrdMap.retain (λ k. not (k == m.init_pid)) m.active in
        Result.ok (record {
          process = into_process state;
          children =
              if include_children
              then map into_process (values others) ++ map into_process (values m.inactive)
              else [];
        })
