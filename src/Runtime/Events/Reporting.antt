-- ===== src/Runtime/Events/Reporting.antt =====
-- src/runtime/mod.rs, src/runtime/process.rs: the report after a run of the tracer.
use cargo_capslock.Prelude.{
  some, ℕ, ◌<◌, ◌≡◌, refl, Bool, true, false, List, [], ◌∷◌, ◌++◌, map, Text, Result, All, length,
  ◌==◌, not, nat_ord, if◌then◌else◌,
}
use cargo_capslock.Collections.OrdMap
use cargo_capslock.Collections.OrdMap.{OrdMap}
use cargo_capslock.Capslock.Report.{Edge, Process, Report}
use cargo_capslock.Functions.Map.{into_functions}
use cargo_capslock.Graph.{Arc}
use cargo_capslock.Graph.Ends.{IsWithin}
use cargo_capslock.Graph.CallGraph.{edge_of, into_edges}
use cargo_capslock.Runtime.Platform.{Platform}
use cargo_capslock.Runtime.Process.{
  State, Map, StartBehaviour, Exec, into_process, values, into_report,
}
use cargo_capslock.Runtime.Process.Grows.{IsSound}
use cargo_capslock.Runtime.Events.{Env, Event, new_state, handle_events}
use cargo_capslock.Collections.Entries.{Each, Each-retain, Each-lookup}
use cargo_capslock.Runtime.Events.Pids.{IsTraced, Filed, handle_events-IsTraced, new_state-IsTraced}

-- Every edge of a process is between two of its functions.
abbrev pub IsClosed : Process → Type 0
IsClosed p =
    All (λ (e : Edge). (e.caller < length p.functions) × (e.callee < length p.functions)) p.edges

edges_within :
    (n : ℕ) (es : List Arc)
    → All (IsWithin n) es
    → All (λ (e : Edge). (e.caller < n) × (e.callee < n)) (map edge_of es)
edges_within n [] h = tt
edges_within n (e ∷ es) h = (h.0, edges_within n es h.1)

All-append {ℓ} :
    {A : Type 0} (Q : A → Type ℓ) (xs ys : List A) → All Q xs → All Q ys → All Q (xs ++ ys)
All-append Q [] ys h k = k
All-append Q (x ∷ xs) ys h k = (h.0, All-append Q xs ys h.1 k)

module _ (P : Platform) where
  into_process-IsClosed : (s : State P) → IsSound P s → IsClosed (into_process P s)
  unfolding into_process into_functions into_edges
  into_process-IsClosed s h =
      edges_within (length s.functions.functions) (P.petgraph.all_edges s.call_graph) h.within

  processes-IsClosed :
      (m : OrdMap ℕ (State P)) → Each (Filed P) m → All IsClosed (map (into_process P) (values P m))
  processes-IsClosed [] h = tt
  processes-IsClosed ((pid, s) ∷ m) h = (into_process-IsClosed s h.0.1, processes-IsClosed m h.1)

  -- The children of the report.
  abbrev pub children_of : Bool → Map P → List Process
  children_of include_children m =
      if include_children
      then map (into_process P) (values P (OrdMap.retain (λ k. not (k == m.init_pid)) m.active))
        ++ map (into_process P) (values P m.inactive)
      else []

  children-IsClosed :
      (include_children : Bool) (m : Map P)
      → IsTraced P m
      → All IsClosed (children_of include_children m)
  children-IsClosed false m h = tt
  children-IsClosed true m h =
      let others = OrdMap.retain (λ k. not (k == m.init_pid)) m.active in
      All-append IsClosed (map (into_process P) (values P others))
        (map (into_process P) (values P m.inactive))
        (processes-IsClosed others
          (Each-retain (Filed P) (λ k. not (k == m.init_pid)) m.active h.named))
        (processes-IsClosed m.inactive h.gone)

  -- The process of the report is the first one.
  pub into_report-first :
      (include_children : Bool) (m : Map P) (s : State P)
      → OrdMap.lookup m.init_pid m.active ≡ some s
      → into_report P include_children m
        ≡ Result.ok
            (record { process = into_process P s; children = children_of include_children m })
  unfolding into_report
  into_report-first include_children m s e = rw e refl

  into_report_total :
      (include_children : Bool) (m : Map P)
      → IsTraced P m
      → (r : Report) × (into_report P include_children m ≡ Result.ok r)
        × IsClosed r.process
        × All IsClosed r.children
  into_report_total include_children m h =
      let (s, e) = h.first in
      (
        record { process = into_process P s; children = children_of include_children m },
        into_report-first include_children m s e,
        into_process-IsClosed s (Each-lookup (Filed P) m.init_pid s m.active h.named e).1,
        children-IsClosed include_children m h,
      )

-- However the tracer starts, and whatever events it handles: it has a report, and in the report of the
-- first process and of each child, every edge is between two functions that are listed.
pub run_report :
    (P : Platform) (env : Env) (pid : ℕ) (exec : Exec) (wd : Text) (start : StartBehaviour)
    (syscalls locations include_children : Bool) (es : List (Event P env))
    → let end = handle_events P env es (new_state P env pid exec wd start syscalls locations) in
      (r : Report) × (into_report P include_children end.processes ≡ Result.ok r)
      × IsClosed r.process
      × All IsClosed r.children
run_report P env pid exec wd start syscalls locations include_children es =
    into_report_total P include_children _ (
      handle_events-IsTraced P env es _
        (new_state-IsTraced P env pid exec wd start syscalls locations))
