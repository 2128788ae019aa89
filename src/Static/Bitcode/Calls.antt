-- ===== src/Static/Bitcode/Calls.antt =====
-- src/static/bitcode.rs: the builder stays well formed.
use cargo_capslock.Prelude.{
  ℕ, ◌≡◌, refl, inl, inr, Option, none, some, List, [], ◌∷◌, arith, Text, Result, ◌∙◌, All, length,
  Option-cases,
}
use cargo_capslock.Functions.Map.{FunctionMap, get_index}
use cargo_capslock.Functions.Map.Upsert.{IsValid}
use cargo_capslock.Functions.Names.{Error}
use cargo_capslock.Functions.Build.{Symbolic, FunctionCaps}
use cargo_capslock.Graph.Ends.{IsWithin, IsWithin-more}
use cargo_capslock.Graph.CallGraph.{DiGraphMap, all_edges-add_edge}
use cargo_capslock.Locations.{DebugLoc, into_option_location}
use cargo_capslock.Static.Bitcode.{
  Module, Call, Bitcode, Added, AddError, upsert_function_map, upsert_call_graph, add_module,
}
use cargo_capslock.Static.Bitcode.Modules.{Knows, upsert_function_map-Extends}

module _ (petgraph : DiGraphMap) where
  open petgraph use {Graph, add_edge, all_edges}

  pub upsert_call_graph_step :
      (m : FunctionMap) (caller callee : Text) (debugloc : Option DebugLoc) (calls : List Call)
      (g : Graph) (a b : ℕ)
      → get_index caller m ≡ some a
      → get_index callee m ≡ some b
      → upsert_call_graph petgraph m ((caller, callee, debugloc) ∷ calls) g
        ≡ upsert_call_graph petgraph m calls (add_edge a b (into_option_location debugloc) g)
  unfolding upsert_call_graph
  upsert_call_graph_step m caller callee debugloc calls g a b ha hb = rw (ha, hb) refl

  -- Between known names every call is recorded.
  pub upsert_call_graph_total :
      (m : FunctionMap) (calls : List Call) (g : Graph)
      → All (λ (caller, callee, _). Knows m caller × Knows m callee) calls
      → (g' : Graph) × (upsert_call_graph petgraph m calls g ≡ some g')
  upsert_call_graph_total m [] g h = unfold upsert_call_graph in (g, refl)
  upsert_call_graph_total m ((caller, callee, d) ∷ calls) g (((a, ha), (b, hb)), h) =
      let (g', e) = upsert_call_graph_total m calls (add_edge a b (into_option_location d) g) h in
      (g', upsert_call_graph_step m caller callee d calls g a b ha hb ∙ e)

  pub upsert_call_graph-inv :
      (m : FunctionMap) (caller callee : Text) (d : Option DebugLoc) (calls : List Call)
      (g g' : Graph)
      → upsert_call_graph petgraph m ((caller, callee, d) ∷ calls) g ≡ some g'
      → (a : ℕ) × (b : ℕ) × (get_index caller m ≡ some a)
        × (get_index callee m ≡ some b)
        × (upsert_call_graph petgraph m calls (add_edge a b (into_option_location d) g) ≡ some g')
  unfolding upsert_call_graph
  upsert_call_graph-inv m caller callee d calls g g' h = elim (Option-cases (get_index caller m)) [
    | inl e ↦ cc (rw e at h)
    | inr (a, ha) ↦ elim (Option-cases (get_index callee m)) [
      | inl e ↦ cc (rw (ha, e) at h)
      | inr (b, hb) ↦ (a, b, ha, hb, rw (ha, hb) at h)
    ]
  ]

  -- A graph is given only if every call is between known names.
  pub upsert_call_graph-Knows :
      (m : FunctionMap) (calls : List Call) (g g' : Graph)
      → upsert_call_graph petgraph m calls g ≡ some g'
      → All (λ (caller, callee, _). Knows m caller × Knows m callee) calls
  upsert_call_graph-Knows m [] g g' e = tt
  upsert_call_graph-Knows m ((caller, callee, d) ∷ calls) g g' e =
      let (a, b, ha, hb, rest) = upsert_call_graph-inv m caller callee d calls g g' e in
      (
        ((a, ha), (b, hb)),
        upsert_call_graph-Knows m calls (add_edge a b (into_option_location d) g) g' rest,
      )

  upsert_call_graph-IsWithin :
      (m : FunctionMap) (calls : List Call) (g g' : Graph)
      → IsValid m
      → upsert_call_graph petgraph m calls g ≡ some g'
      → All (IsWithin (length m.functions)) (all_edges g)
      → All (IsWithin (length m.functions)) (all_edges g')
  upsert_call_graph-IsWithin m [] g g' v e w =
      let same : g ≡ g' = unfold upsert_call_graph in cc in rw (← same) w
  upsert_call_graph-IsWithin m ((caller, callee, d) ∷ calls) g g' v e w =
      let (a, b, ha, hb, rest) = upsert_call_graph-inv m caller callee d calls g g' e in
      upsert_call_graph-IsWithin m calls (add_edge a b (into_option_location d) g) g' v rest (
        all_edges-add_edge petgraph (IsWithin (length m.functions)) a b (into_option_location d) g
          (λ _. (v.in_range caller a ha, v.in_range callee b hb)) w)

-- The names and the indices of the functions correspond, and every edge is between functions.
pub record IsWellFormed (petgraph : DiGraphMap) (b : Bitcode petgraph) : Type 0 where
  pub valid : IsValid b.functions
  pub within : All (IsWithin (length b.functions.functions)) (petgraph.all_edges b.call_graph)

module _ (petgraph : DiGraphMap) (symbolic : Symbolic) (fc : FunctionCaps) (module_ : Module)
    (b : Bitcode petgraph) where
  -- The map of the functions once those of the module are in it.
  abbrev pub upserted : FunctionMap × Option Error
  upserted = upsert_function_map symbolic fc module_ b.functions

  pub add_module_named :
      (x : Error)
      → upserted.1 ≡ some x
      → add_module petgraph symbolic fc (Result.ok module_) b
        ≡ (record b { functions = upserted.0 }, Added.err (AddError.name x))
  unfolding add_module
  add_module_named x e = ground arith

  pub add_module_stuck :
      upserted.1 ≡ none
      → upsert_call_graph petgraph upserted.0 module_.calls b.call_graph ≡ none
      → add_module petgraph symbolic fc (Result.ok module_) b
        ≡ (record b { functions = upserted.0 }, Added.panicked)
  unfolding add_module
  add_module_stuck e p = ground arith

  pub add_module_done :
      (g : petgraph.Graph)
      → upserted.1 ≡ none
      → upsert_call_graph petgraph upserted.0 module_.calls b.call_graph ≡ some g
      → add_module petgraph symbolic fc (Result.ok module_) b
        ≡ (record b { functions = upserted.0; call_graph = g }, Added.ok)
  unfolding add_module
  add_module_done g e p = ground arith

  with_functions-IsWellFormed :
      IsWellFormed petgraph b → IsWellFormed petgraph (record b { functions = upserted.0 })
  with_functions-IsWellFormed wf =
      let ext = upsert_function_map-Extends symbolic fc module_ b.functions in
      record {
        valid = ext.valid wf.valid;
        within =
            IsWithin-more (length b.functions.functions) (length upserted.0.functions)
              (petgraph.all_edges b.call_graph) ext.size wf.within;
      }

  loaded-IsWellFormed :
      IsWellFormed petgraph b
      → IsWellFormed petgraph (add_module petgraph symbolic fc (Result.ok module_) b).0
  loaded-IsWellFormed wf =
      let grown = with_functions-IsWellFormed wf in
      elim (Option-cases upserted.1) [
        | inr (x, e) ↦ rw (add_module_named x e) grown
        | inl e ↦
            elim (Option-cases (upsert_call_graph petgraph upserted.0 module_.calls b.call_graph)) [
              | inl p ↦ rw (add_module_stuck e p) grown
              | inr (g, p) ↦ rw (add_module_done g e p) (record {
                valid = grown.valid;
                within =
                    upsert_call_graph-IsWithin petgraph upserted.0 module_.calls b.call_graph g
                      grown.valid p grown.within;
              })
            ]
      ]

-- Whatever is loaded, and however adding it ends, the builder stays well formed if it was.
pub add_module-IsWellFormed :
    (petgraph : DiGraphMap) (symbolic : Symbolic) (fc : FunctionCaps) (loaded : Result Text Module)
    (b : Bitcode petgraph)
    → IsWellFormed petgraph b
    → IsWellFormed petgraph (add_module petgraph symbolic fc loaded b).0
add_module-IsWellFormed petgraph symbolic fc (Result.err e) b wf = unfold add_module in wf
add_module-IsWellFormed petgraph symbolic fc (Result.ok module_) b wf =
    loaded-IsWellFormed petgraph symbolic fc module_ b wf
