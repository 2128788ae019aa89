-- ===== src/Static/Added.antt =====
-- src/static/bitcode.rs: which modules are added to the builder, by the functions listed so far.
use cargo_capslock.Prelude.{
  ℕ, ◌≡◌, refl, sym, ◌∙◌, ap, ◌⊎◌, inl, inr, none, some, List, [], ◌∷◌, ◌++◌, Text, Result, true,
  Result-cases, Option-cases, Bool-cases, In, All, All-map, All-append, text_ord, beq, beq_iff,
  and_then-eq-ok,
}
use cargo_capslock.Capslock.Report.{FunctionName}
use cargo_capslock.Functions.Map.{FunctionMap, get_index}
use cargo_capslock.Functions.Map.Filled.{first, first-name}
use cargo_capslock.Functions.Build.{
  Symbolic, FunctionCaps, ToFunction, parse_mangled_name, upsert_with_caps,
  to_function_with_fn_caps,
}
use cargo_capslock.Functions.Build.Caps.{to_function_with_fn_caps-inv}
use cargo_capslock.Graph.CallGraph.{DiGraphMap}
use cargo_capslock.Locations.{into_option_location}
use cargo_capslock.Static.Bitcode.{
  Module, Call, upsert_functions, upsert_function_map, upsert_call_graph,
}
use cargo_capslock.Static.Bitcode.Modules.{
  Knows, upsert_functions_step, upsert_functions_stop, upsert_function_map-inv,
}
use cargo_capslock.Static.Bitcode.Calls.{upsert_call_graph_step, upsert_call_graph-Knows}
use cargo_capslock.Static.Table.{listed_in, mangled, Builds, IsBuilt}

-- The name of a function can be parsed.
abbrev pub IsParsable : Symbolic → ToFunction → Type 0
IsParsable symbolic t =
    (name : FunctionName) × (parse_mangled_name symbolic t.mangled_name ≡ Result.ok name)

-- One of the functions has the name.
abbrev pub HasName : List ToFunction → Text → Type 0
HasName funs k = (t : ToFunction) × In t funs × (t.mangled_name ≡ k)

abbrev pub IsBetween : List ToFunction → Call → Type 0
IsBetween funs (caller, callee, d) = HasName funs caller × HasName funs callee

-- After the functions given, the module is added: its names can be parsed, and its calls are between
-- those functions and its own.
abbrev pub Adds : Symbolic → List ToFunction → Module → Type 0
Adds symbolic funs module_ =
    All (IsParsable symbolic) (listed_in module_)
    × All (IsBetween (funs ++ listed_in module_)) module_.calls

-- After the functions given, the modules are added in turn.
abbrev pub AddsAll : Symbolic → List ToFunction → List Module → Type 0
AddsAll symbolic funs [] = Unit
AddsAll symbolic funs (m ∷ ms) = Adds symbolic funs m × AddsAll symbolic (funs ++ listed_in m) ms

first-In :
    (k : Text) (ts : List ToFunction) (t : ToFunction) → first mangled k ts ≡ some t → In t ts
first-In k [] t h = cc
first-In k (u ∷ ts) t h = elim (Bool-cases (beq k u.mangled_name)) [
  | inl e ↦ inl (let same : some u ≡ some t = rw e at h in cc)
  | inr e ↦ inr (first-In k ts t (rw e at h))
]

first-missed : (k : Text) (ts : List ToFunction) → first mangled k ts ≡ none → ¬ HasName ts k
first-missed k [] h (t, q, e) = absurd q
first-missed k (u ∷ ts) h (t, q, e) = elim (Bool-cases (beq k u.mangled_name)) [
  | inl same ↦ let no : some u ≡ none = rw same at h in cc
  | inr other ↦ elim q [
    | inl is ↦
        let name : k ≡ u.mangled_name = sym e ∙ ap mangled is in
        let same : beq k u.mangled_name ≡ true = (beq_iff k u.mangled_name).1 name in cc
    | inr q' ↦ first-missed k ts (rw other at h) (t, q', e)
  ]
]

module _ (symbolic : Symbolic) (fc : FunctionCaps) (funs : List ToFunction) (m : FunctionMap)
    (built : IsBuilt symbolic fc funs m) where
  known-HasName : (k : Text) → Knows m k → HasName funs k
  known-HasName k (i, h) =
      let (t, f, e, _, _) = built.built k i h in
      (t, first-In k funs t e, sym (first-name mangled (Builds symbolic fc) k funs t e))

  unknown-HasName : (k : Text) → get_index k m ≡ none → ¬ HasName funs k
  unknown-HasName k h = first-missed k funs (built.missing k h)

module _ (petgraph : DiGraphMap) where
  open petgraph use {Graph, add_edge}

  -- The graph is not given only because of a call with a name that the map lacks.
  upsert_call_graph-inv-none :
      (m : FunctionMap) (calls : List Call) (g : Graph)
      → upsert_call_graph petgraph m calls g ≡ none
      → (call : Call) × In call calls × ((get_index call.0 m ≡ none) ⊎ (get_index call.1 m ≡ none))
  upsert_call_graph-inv-none m [] g h = unfold upsert_call_graph in cc
  upsert_call_graph-inv-none m ((caller, callee, d) ∷ calls) g h =
      elim (Option-cases (get_index caller m)) [
        | inl e ↦ ((caller, callee, d), inl refl, inl e)
        | inr (a, ha) ↦ elim (Option-cases (get_index callee m)) [
          | inl e ↦ ((caller, callee, d), inl refl, inr e)
          | inr (b, hb) ↦
              let (call, q, why) =
                upsert_call_graph-inv-none m calls (add_edge a b (into_option_location d) g)
                  (sym (upsert_call_graph_step petgraph m caller callee d calls g a b ha hb) ∙ h) in
              (call, inr q, why)
        ]
      ]

  module _ (symbolic : Symbolic) (fc : FunctionCaps) (funs : List ToFunction) (m : FunctionMap)
      (calls : List Call) (g : Graph) (built : IsBuilt symbolic fc funs m) where
    pub drawn-IsBetween :
        (g' : Graph) → upsert_call_graph petgraph m calls g ≡ some g' → All (IsBetween funs) calls
    drawn-IsBetween g' h =
        All-map (λ ((caller, callee, _) : Call). Knows m caller × Knows m callee) (IsBetween funs)
          calls
          (λ (caller, callee, _) (p, q). (
            known-HasName symbolic fc funs m built caller p,
            known-HasName symbolic fc funs m built callee q,
          ))
          (upsert_call_graph-Knows petgraph m calls g g' h)

    pub stuck-IsBetween :
        upsert_call_graph petgraph m calls g ≡ none
        → (call : Call) × In call calls × (¬ IsBetween funs call)
    stuck-IsBetween h =
        let (call, q, why) = upsert_call_graph-inv-none m calls g h in
        (
          call,
          q,
          λ (p, p'). elim why [
            | inl e ↦ unknown-HasName symbolic fc funs m built call.0 e p
            | inr e ↦ unknown-HasName symbolic fc funs m built call.1 e p'
          ],
        )

module _ (symbolic : Symbolic) (fc : FunctionCaps) where
  upsert_with_caps-IsParsable :
      (t : ToFunction) (m : FunctionMap) (r : FunctionMap × ℕ)
      → upsert_with_caps symbolic fc t m ≡ Result.ok r
      → IsParsable symbolic t
  unfolding upsert_with_caps
  upsert_with_caps-IsParsable t m r h =
      let (f, e, _) = and_then-eq-ok (to_function_with_fn_caps symbolic fc t) _ h in
      (f.name, (to_function_with_fn_caps-inv symbolic fc t f e).0)

  upsert_functions-IsParsable :
      (ts : List ToFunction) (m m' : FunctionMap)
      → upsert_functions symbolic fc ts m ≡ (m', none)
      → All (IsParsable symbolic) ts
  upsert_functions-IsParsable [] m m' h = tt
  upsert_functions-IsParsable (t ∷ ts) m m' h =
      elim (Result-cases (upsert_with_caps symbolic fc t m)) [
        | inr (x, e) ↦ cc (upsert_functions_stop symbolic fc t ts m x e)
        | inl ((m₁, i), e) ↦ (
          upsert_with_caps-IsParsable t m (m₁, i) e,
          upsert_functions-IsParsable ts m₁ m'
              (sym (upsert_functions_step symbolic fc t ts m m₁ i e) ∙ h),
        )
      ]

  pub upsert_function_map-IsParsable :
      (module_ : Module) (m m' : FunctionMap)
      → upsert_function_map symbolic fc module_ m ≡ (m', none)
      → All (IsParsable symbolic) (listed_in module_)
  upsert_function_map-IsParsable module_ m m' h =
      let (m₁, funs, decls) = upsert_function_map-inv symbolic fc module_ m m' h in
      All-append (IsParsable symbolic) module_.functions module_.func_declarations
        (upsert_functions-IsParsable module_.functions m m₁ funs)
        (upsert_functions-IsParsable module_.func_declarations m₁ m' decls)
