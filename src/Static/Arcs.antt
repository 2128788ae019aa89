-- ===== src/Static/Arcs.antt =====
-- src/static/bitcode.rs: the call graph of the builder, against the calls of the modules.
use cargo_capslock.Prelude.{◌≡◌, some, List, [], ◌∷◌, ◌++◌, append_assoc, append-nil, subst}
use cargo_capslock.Functions.Map.{FunctionMap}
use cargo_capslock.Graph.CallGraph.{DiGraphMap}
use cargo_capslock.Graph.Drawn.{Draws, add_edge-Draws}
use cargo_capslock.Locations.{into_option_location}
use cargo_capslock.Static.Bitcode.{Call, upsert_call_graph}
use cargo_capslock.Static.Bitcode.Calls.{upsert_call_graph-inv}

module _ (petgraph : DiGraphMap) where
  open petgraph use {Graph, add_edge, all_edges}

  pub upsert_call_graph-Draws :
      (calls done : List Call) (m : FunctionMap) (g g' : Graph)
      → upsert_call_graph petgraph m calls g ≡ some g'
      → Draws done m (all_edges g)
      → Draws (done ++ calls) m (all_edges g')
  upsert_call_graph-Draws [] done m g g' e h =
      let same : g ≡ g' = unfold upsert_call_graph in cc in rw (append-nil done, ← same) h
  upsert_call_graph-Draws ((a, b, d) ∷ calls) done m g g' e h =
      let (i, j, ha, hb, rest) = upsert_call_graph-inv petgraph m a b d calls g g' e in
      subst (λ (cs : List Call). Draws cs m (all_edges g'))
        (append_assoc done ((a, b, d) ∷ []) calls)
        (upsert_call_graph-Draws calls (done ++ (a, b, d) ∷ []) m
          (add_edge i j (into_option_location d) g) g' rest
          (add_edge-Draws petgraph done m a b d i j g ha hb h))
