-- ===== src/Static/Bitcode/Panics.antt =====
-- src/static/bitcode.rs: when adding a module panics.
use cargo_capslock.Prelude.{
  ◌≡◌, ◌⊎◌, inl, inr, Option, none, arith, Text, Result, subst, ap, In, All, All-map, All-In,
  Option-cases,
}
use cargo_capslock.Functions.Map.{FunctionMap, get_index}
use cargo_capslock.Functions.Names.{Error}
use cargo_capslock.Functions.Build.{Symbolic, FunctionCaps, ToFunction}
use cargo_capslock.Graph.CallGraph.{DiGraphMap}
use cargo_capslock.Locations.{DebugLoc}
use cargo_capslock.Static.Bitcode.{
  Module, Call, Bitcode, Added, AddError, upsert_function_map, upsert_call_graph, add_module,
}
use cargo_capslock.Static.Bitcode.Modules.{Knows, upsert_function_map-Knows}
use cargo_capslock.Static.Bitcode.Calls.{
  upsert_call_graph_total, upsert_call_graph-Knows, upserted, add_module_named, add_module_stuck,
  add_module_done,
}

-- The module defines or declares the name.
abbrev pub Names : Module → Text → Type 0
Names module_ k =
    ((f : ToFunction) × In f module_.functions × (f.mangled_name ≡ k))
    ⊎ ((f : ToFunction) × In f module_.func_declarations × (f.mangled_name ≡ k))

-- The calls of the module are between functions that it defines or declares.
abbrev pub IsSelfContained : Module → Type 0
IsSelfContained module_ =
    All (λ (caller, callee, _). Names module_ caller × Names module_ callee) module_.calls

module _ (petgraph : DiGraphMap) (symbolic : Symbolic) (fc : FunctionCaps) (module_ : Module)
    (b : Bitcode petgraph) where
  named-Knows :
      (k : Text)
      → (upserted petgraph symbolic fc module_ b).1 ≡ none
      → Names module_ k
      → Knows (upserted petgraph symbolic fc module_ b).0 k
  named-Knows k e named =
      let whole : upserted petgraph symbolic fc module_ b
          ≡ ((upserted petgraph symbolic fc module_ b).0, none) =
        ground arith in
      let (funs, decls) =
        upsert_function_map-Knows symbolic fc module_ b.functions
          (upserted petgraph symbolic fc module_ b).0 whole in
      elim named [
        | inl (f, q, same) ↦ subst (Knows (upserted petgraph symbolic fc module_ b).0) same (
            All-In
              (λ (f : ToFunction). Knows (upserted petgraph symbolic fc module_ b).0 f.mangled_name)
              module_.functions funs f q)
        | inr (f, q, same) ↦ subst (Knows (upserted petgraph symbolic fc module_ b).0) same (
            All-In
              (λ (f : ToFunction). Knows (upserted petgraph symbolic fc module_ b).0 f.mangled_name)
              module_.func_declarations decls f q)
      ]

  self_contained-Knows :
      (upserted petgraph symbolic fc module_ b).1 ≡ none
      → IsSelfContained module_
      → All
          (λ (caller, callee, _).
            Knows (upserted petgraph symbolic fc module_ b).0 caller
            × Knows (upserted petgraph symbolic fc module_ b).0 callee)
          module_.calls
  self_contained-Knows e h =
      All-map (λ (caller, callee, _). Names module_ caller × Names module_ callee)
        (λ (caller, callee, _).
          Knows (upserted petgraph symbolic fc module_ b).0 caller
          × Knows (upserted petgraph symbolic fc module_ b).0 callee)
        module_.calls
        (λ (caller, callee, _) (p, q). (named-Knows caller e p, named-Knows callee e q)) h

-- A module whose calls are between functions that it defines or declares does not make the builder
-- panic: either a name cannot be parsed, or the module is added.
pub add_module_total :
    (petgraph : DiGraphMap) (symbolic : Symbolic) (fc : FunctionCaps) (module_ : Module)
    (b : Bitcode petgraph)
    → IsSelfContained module_
    → ((x : Error) × ((add_module petgraph symbolic fc (Result.ok module_) b).1
          ≡ Added.err (AddError.name x)))
      ⊎ ((add_module petgraph symbolic fc (Result.ok module_) b).1 ≡ Added.ok)
add_module_total petgraph symbolic fc module_ b h =
    elim (Option-cases (upsert_function_map symbolic fc module_ b.functions).1) [
      | inr (x, e) ↦ inl (x, ap (λ r. r.1) (add_module_named petgraph symbolic fc module_ b x e))
      | inl e ↦
          let (g, p) =
            upsert_call_graph_total petgraph (upserted petgraph symbolic fc module_ b).0
              module_.calls b.call_graph
              (self_contained-Knows petgraph symbolic fc module_ b e h) in
          inr (ap (λ r. r.1) (add_module_done petgraph symbolic fc module_ b g e p))
    ]

-- A module with a call to a name that the map lacks once the functions and declarations of the module
-- are in it makes the builder panic, if the names of those can be parsed.
pub add_module_unknown :
    (petgraph : DiGraphMap) (symbolic : Symbolic) (fc : FunctionCaps) (module_ : Module)
    (b : Bitcode petgraph) (m : FunctionMap) (caller callee : Text) (d : Option DebugLoc)
    → upsert_function_map symbolic fc module_ b.functions ≡ (m, none)
    → In (caller, callee, d) module_.calls
    → get_index callee m ≡ none
    → (add_module petgraph symbolic fc (Result.ok module_) b).1 ≡ Added.panicked
add_module_unknown petgraph symbolic fc module_ b m caller callee d e q h =
    elim (Option-cases (upsert_call_graph petgraph (up.0) module_.calls b.call_graph)) [
      | inl p ↦ ap (λ r. r.1) (add_module_stuck petgraph symbolic fc module_ b (ap (λ r. r.1) e) p)
      | inr (g, p) ↦
          let known =
            All-In (λ ((caller, callee, _) : Call). Knows up.0 caller × Knows up.0 callee)
              module_.calls (upsert_call_graph-Knows petgraph up.0 module_.calls b.call_graph g p)
              (caller, callee, d) q in
          cc (known.1.1, ap (λ r. get_index callee r.0) e)
    ]
  where
    up : FunctionMap × Option Error
    up = upserted petgraph symbolic fc module_ b
