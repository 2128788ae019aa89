-- ===== src/Runtime/Main.antt =====
-- src/runtime/mod.rs: `Runtime::main`, from the command line to the code that the program exits with.
pub mod Outcome
pub mod Failing
mod Tests
use cargo_capslock.Prelude.{
  ℕ, Bool, true, false, Option, none, some, List, [], ◌∷◌, Text, Result, and_then, ok_or,
  if◌then◌else◌,
}
use cargo_capslock.Prelude.Fallible.{◌>>=◌, check}
use cargo_capslock.Capslock.Report.{Report}
use cargo_capslock.Runtime.Platform.{Platform}
use cargo_capslock.Runtime.Fd.{Error}
use cargo_capslock.Runtime.Process.{StartBehaviour, Exec, into_report}
use cargo_capslock.Runtime.Events.{Env, Event, GlobalState, new_state, handle_event}

-- The arguments of the command.
pub record Runtime : Type 0 where
  pub include_children : Bool
  pub include_before_start : Bool
  pub include_syscalls : Bool
  pub lookup_locations : Bool
  pub output : Option Text
  pub start_symbol : Text
  pub argv : List Text

unfoldable pub start_behaviour : Runtime → StartBehaviour
start_behaviour self =
    if self.include_before_start
    then StartBehaviour.include_all
    else StartBehaviour.only_after self.start_symbol

-- `VecDeque::pop_front`
abbrev pub pop_front : {A : Type 0} → List A → Option (A × List A)
pop_front [] = none
pop_front (x ∷ xs) = some (x, xs)

module _ (P : Platform) (env : Env) where
  open P use {Fd, Sysno}

  -- What the system answers: `none` and `false` are errors.
  pub record System : Type 0 where
    -- The process that is spawned under ptrace, by its pid.
    pub spawn : Text → List Text → Option ℕ
    -- `SignalForwarder::spawn`
    pub forward : ℕ → Bool
    pub current_dir : Option Text
    -- What the iterator of the tracer gives, where a tracer of the child can be made.
    pub trace : ℕ → Option (List (Option (Event P env)))
    -- `File::create`
    pub create : Text → Bool
    -- Writing the report to a file, or to the standard output.
    pub write : Option Text → Report → Bool
    -- The code of the child's exit status, once it is traced.
    pub status : Option ℕ

  -- What the command leaves: the report, where it was written to, and the code that it exits with.
  pub record Written : Type 0 where
    pub output : Option Text
    pub report : Report
    pub code : Option ℕ

  -- The loop over the tracer's results, of which errors are logged and skipped.
  unfoldable pub handle_results :
      List (Option (Event P env)) → GlobalState P env → GlobalState P env
  handle_results [] g = g
  handle_results (none ∷ results) g = handle_results results g
  handle_results (some event ∷ results) g = handle_results results (handle_event P env event g).0

  unfoldable pub create_output : Option Text → System → Result (Error Fd Sysno) Unit
  create_output none sys = Result.ok tt
  create_output (some path) sys = check (sys.create path) Error.output_create

  -- `Runtime::main`
  unfoldable pub main : Runtime → System → Result (Error Fd Sysno) Written
  unfolding start_behaviour
  main self sys = do
    (path, argv) ← ok_or (pop_front self.argv) Error.argv0
    child_pid ← ok_or (sys.spawn path argv) Error.spawn
    _ ← check (sys.forward child_pid) Error.signals
    wd ← ok_or sys.current_dir Error.cwd
    results ← ok_or (sys.trace child_pid) Error.tracer
    let exec : Exec = record { command = path; argv = argv; envp = [] }
    let global_state = handle_results results (
        new_state P env child_pid exec wd (start_behaviour self) self.include_syscalls
          self.lookup_locations)
    _ ← create_output self.output sys
    report ← into_report P self.include_children global_state.processes
    _ ← check (sys.write self.output report) Error.output_write
    Result.ok (record { output = self.output; report = report; code = sys.status })
