-- ===== src/Runtime/Main/Outcome.antt =====
-- src/runtime/mod.rs: how `Runtime::main` ends.
use cargo_capslock.Prelude.{
  ℕ, ◌≡◌, refl, ◌∙◌, true, false, Option, none, some, List, [], ◌∷◌, Text, Result, All, and_then,
}
use cargo_capslock.Prelude.Fallible.{check}
use cargo_capslock.Capslock.Report.{Report}
use cargo_capslock.Runtime.Platform.{Platform}
use cargo_capslock.Runtime.Fd.{Error}
use cargo_capslock.Runtime.Process.{into_report}
use cargo_capslock.Runtime.Events.{Env, Event, GlobalState, new_state, handle_event, handle_events}
use cargo_capslock.Runtime.Events.Reporting.{IsClosed, run_report}
use cargo_capslock.Runtime.Main.{
  Runtime, System, Written, start_behaviour, handle_results, create_output, main,
}

module _ (P : Platform) (env : Env) where
  open P use {Fd, Sysno}

  -- The events of the tracer's results.
  abbrev pub events : List (Option (Event P env)) → List (Event P env)
  events [] = []
  events (none ∷ results) = events results
  events (some e ∷ results) = e ∷ events results

  handle_results-events :
      (results : List (Option (Event P env))) (g : GlobalState P env)
      → handle_results P env results g ≡ handle_events P env (events results) g
  unfolding handle_results handle_events
  handle_results-events [] g = refl
  handle_results-events (none ∷ results) g = handle_results-events results g
  handle_results-events (some e ∷ results) g =
      handle_results-events results (handle_event P env e g).0

module _ (P : Platform) (env : Env) (self : Runtime) (sys : System P env) where
  open P use {Fd, Sysno}

  -- The steps up to the loop over the events.
  pub record Traced (path : Text) (argv : List Text) (pid : ℕ) (wd : Text)
      (results : List (Option (Event P env))) : Type 0 where
    pub command : self.argv ≡ path ∷ argv
    pub spawned : sys.spawn path argv ≡ some pid
    pub forwarded : sys.forward pid ≡ true
    pub directory : sys.current_dir ≡ some wd
    pub traced : sys.trace pid ≡ some results

  -- The state before and after the events.
  abbrev pub start_state : Text → List Text → ℕ → Text → GlobalState P env
  start_state path argv pid wd =
      new_state P env pid (record { command = path; argv = argv; envp = [] }) wd
        (start_behaviour self) self.include_syscalls self.lookup_locations

  abbrev pub end_state :
      Text → List Text → ℕ → Text → List (Option (Event P env)) → GlobalState P env
  end_state path argv pid wd results =
      handle_events P env (events P env results) (start_state path argv pid wd)

  -- What is left to do after the events.
  abbrev pub finish : GlobalState P env → Result (Error Fd Sysno) (Written P env)
  finish g = and_then (create_output P env self.output sys) λ _.
      and_then (into_report P self.include_children g.processes) λ report.
        and_then (check (sys.write self.output report) Error.output_write)
          λ _. Result.ok (record { output = self.output; report = report; code = sys.status })

  pub main-finish :
      (path : Text) (argv : List Text) (pid : ℕ) (wd : Text) (results : List (Option (Event P env)))
      → Traced path argv pid wd results
      → main P env self sys ≡ finish (end_state path argv pid wd results)
  unfolding main
  main-finish path argv pid wd results t =
      rw
        (
          t.command,
          t.spawned,
          t.forwarded,
          t.directory,
          t.traced,
          ← handle_results-events P env results (start_state path argv pid wd),
        )
        refl

  -- A child that is traced to its end, with somewhere to write to: there is a report of the events that the
  -- tracer gave without an error, with every edge between two listed functions. The command leaves it,
  -- with the code of the child, if it can be written, and only otherwise ends in an error.
  pub main_writes :
      (path : Text) (argv : List Text) (pid : ℕ) (wd : Text) (results : List (Option (Event P env)))
      → Traced path argv pid wd results
      → create_output P env self.output sys ≡ Result.ok tt
      → (r : Report) × (into_report P self.include_children
            (end_state path argv pid wd results).processes
          ≡ Result.ok r)
        × IsClosed r.process
        × All IsClosed r.children
        × (sys.write self.output r ≡ true
            → main P env self sys
              ≡ Result.ok (record { output = self.output; report = r; code = sys.status }))
        × (sys.write self.output r ≡ false → main P env self sys ≡ Result.err Error.output_write)
  main_writes path argv pid wd results t created =
      let (r, e, closed, children) =
        run_report P env pid (record { command = path; argv = argv; envp = [] }) wd
          (start_behaviour self) self.include_syscalls self.lookup_locations self.include_children
          (events P env results) in
      let ends = main-finish path argv pid wd results t in
      (
        r,
        e,
        closed,
        children,
        λ w. ends ∙ rw (created, e, w) refl,
        λ w. ends ∙ rw (created, e, w) refl,
      )
