-- ===== src/Runtime/Events/Pictured.antt =====
-- src/runtime/mod.rs: the functions and calls of a process after a run, against the stacks recorded in it.
use cargo_capslock.Prelude.{ℕ, ◌≡◌, refl, ap, subst, Bool, List, [], ◌∷◌, Text, Result, All, In}
use cargo_capslock.Capslock.Report.{Report, Process}
use cargo_capslock.Functions.Map.{into_functions}
use cargo_capslock.Functions.Map.Filled.{empty-IsFilled}
use cargo_capslock.Graph.{Arc}
use cargo_capslock.Graph.CallGraph.{into_edges}
use cargo_capslock.Graph.Pictured.{Pictures, drawn-Pictures}
use cargo_capslock.Runtime.Platform.{Platform}
use cargo_capslock.Runtime.Process.{StartBehaviour, Exec, into_process, into_report, fresh_state}
use cargo_capslock.Runtime.Syscall.{into_capabilities}
use cargo_capslock.Runtime.Events.{Env, GlobalState, Event, handle_events, new_state}
use cargo_capslock.Runtime.Events.Ledger.{Ledger, logged, CreatesOther}
use cargo_capslock.Runtime.Events.Ledger.Followed.{report-logged}
use cargo_capslock.Runtime.Events.Stacks.{seen_name, shown, Shows}
use cargo_capslock.Runtime.Events.Stacks.Holding.{Holds}
use cargo_capslock.Runtime.Events.Frames.{Trace}
use cargo_capslock.Runtime.Events.Traces.{
  all_seen, all_calls, recordings, Records, Leaves-Records, Records-follows, returned-Records,
}

module _ (P : Platform) (env : Env) where
  open P use {Fd, Sysno, petgraph}

  abbrev pub stacks : Ledger P env
  stacks = record {
    Entry = Trace;
    adds = λ proc meta sval nr stack g s.
        recordings P env (shown P g.include_syscalls nr) stack
          (into_capabilities P env.table proc meta sval s);
    Logs = Records P env;
    leaves = Leaves-Records P env;
    follows = Records-follows P env;
    returns = returned-Records P env;
  }

  -- The stacks that the events of a run record for a process, each in the state that it comes in.
  abbrev pub traced : ℕ → List (Event P env) → GlobalState P env → List Trace
  traced = logged P env stacks

  fresh-Holds :
      (pid : ℕ) (exec : Exec) (wd : Text) (start : StartBehaviour)
      → Holds P env [] [] (fresh_state P (exec ∷ []) [] pid start wd)
  fresh-Holds pid exec wd start = record {
    table = empty-IsFilled seen_name (Shows env.symbolic);
    drawn = record {
      sound =
          λ i j w q. absurd (subst (λ (es : List Arc). In (i, j, w) es) petgraph.all_edges-new q);
      complete = λ a b d q. absurd q;
    };
  }

  -- A run in which no new process has the pid of the first one has a report, and its process is the picture
  -- of the stacks that were recorded for the first process. A stack is recorded when a syscall has returned
  -- with capabilities while the process does not wait for its start symbol, every frame has an instruction
  -- pointer and none shows the start symbol; its names are those that the frames show, the innermost first,
  -- where the instruction pointer stands at the offset of the name. The process has one function for each name
  -- that can be parsed, with the parsed name and exactly the capabilities of the syscall that the name was first
  -- seen in, direct if it was the innermost name there and transitive otherwise; it has that syscall if it was
  -- the innermost and syscalls were to be included, and no other; and the calls between its functions are those
  -- from each name of a stack to the one inside it.
  pub report_pictured :
      (pid : ℕ) (exec : Exec) (wd : Text) (start : StartBehaviour)
      (syscalls locations children : Bool) (es : List (Event P env))
      → All (CreatesOther P env pid) es
      → let g = new_state P env pid exec wd start syscalls locations in
        (r : Report) × (into_report P children (handle_events P env es g).processes ≡ Result.ok r)
        × Pictures seen_name
            (Shows env.symbolic)
            (all_seen P env (traced pid es g))
            (all_calls P env (traced pid es g))
            r.process
  unfolding into_process into_functions into_edges
  report_pictured pid exec wd start syscalls locations children es h =
      let g = new_state P env pid exec wd start syscalls locations in
      let (r, e, (s, same, records)) =
        report-logged P env stacks pid exec wd start syscalls locations children es h in
      let holds = records [] [] (fresh-Holds pid exec wd start) in
      let seen = all_seen P env (traced pid es g) in
      (
        r,
        e,
        drawn-Pictures seen_name (Shows env.symbolic) seen (all_calls P env (traced pid es g))
            s.functions s.functions (petgraph.all_edges s.call_graph) r.process holds.table.valid
            holds.table.missing holds.table.built refl holds.drawn
            (ap (λ (p : Process). p.functions) same) (ap (λ (p : Process). p.edges) same),
      )
