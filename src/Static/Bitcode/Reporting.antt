-- ===== src/Static/Bitcode/Reporting.antt =====
-- src/static/bitcode.rs: the report of a builder.
use cargo_capslock.Prelude.{
  ℕ, zero, suc, ◌≡◌, refl, ◌↔◌, inl, inr, Bool, true, false, ◌||◌, some, List, [], ◌∷◌, arith,
  Bool-cases, ap, sym, ◌∙◌, get_elem?, is_some,
}
use cargo_capslock.Collections.OrdMap
use cargo_capslock.Collections.OrdSet
use cargo_capslock.Collections.OrdSet.{OrdSet}
use cargo_capslock.Capslock.Caps.{Capability, capability_ord}
use cargo_capslock.Capslock.Report.{Function, Report}
use cargo_capslock.Functions.Map.{FunctionMap, get, into_functions}
use cargo_capslock.Graph.{Arc}
use cargo_capslock.Graph.Visit.{type_at, type_in}
use cargo_capslock.Graph.Reach.{here, Has, IsBubbled, bubble_correct}
use cargo_capslock.Graph.CallGraph.{DiGraphMap, bubble_transitive_capabilities, into_edges}
use cargo_capslock.Static.Bitcode.{Bitcode, collect_from, into_report, report_of}
use cargo_capslock.Static.Bitcode.Calls.{IsWellFormed}

-- Some function of the list has the capability.
abbrev pub any_capability : Capability → List Function → Bool
any_capability c [] = false
any_capability c (f ∷ fs) = is_some (OrdMap.lookup c f.capabilities) || any_capability c fs

contains-collect_from :
    (c : Capability) (acc : OrdSet Capability) (fs : List Function)
    → OrdSet.contains c (collect_from acc fs) ≡ (OrdSet.contains c acc || any_capability c fs)
contains-collect_from c acc [] = ground arith
contains-collect_from c acc (f ∷ fs) = ground (
  arith,
  contains-collect_from c (OrdSet.extend acc (OrdMap.keys f.capabilities)) fs,
  OrdSet.contains-extend c acc (OrdMap.keys f.capabilities),
  OrdMap.contains-keys c f.capabilities,
)

collect_from-IsSorted :
    (acc : OrdSet Capability) (fs : List Function)
    → OrdSet.IsSorted acc
    → OrdSet.IsSorted (collect_from acc fs)
collect_from-IsSorted acc [] h = h
collect_from-IsSorted acc (f ∷ fs) h =
    collect_from-IsSorted (OrdSet.extend acc (OrdMap.keys f.capabilities)) fs
      (OrdSet.extend-IsSorted acc (OrdMap.keys f.capabilities) h)

any_capability-index :
    (c : Capability) (fs : List Function)
    → any_capability c fs ≡ true
    → (i : ℕ) × (is_some (type_in (get_elem? fs i) c) ≡ true)
any_capability-index c [] h = cc
any_capability-index c (f ∷ fs) h = elim (Bool-cases (is_some (OrdMap.lookup c f.capabilities))) [
  | inl e ↦ (0, e)
  | inr e ↦ let (i, p) = any_capability-index c fs (ground arith) in (suc i, p)
]

index-any_capability :
    (c : Capability) (fs : List Function) (i : ℕ)
    → is_some (type_in (get_elem? fs i) c) ≡ true
    → any_capability c fs ≡ true
index-any_capability c [] i h = cc
index-any_capability c (f ∷ fs) zero h = ground arith
index-any_capability c (f ∷ fs) (suc i) h = ground (arith, index-any_capability c fs i)

-- The capabilities of a whole map are those that some function has.
capabilities_iff :
    (c : Capability) (m : FunctionMap)
    → (OrdSet.contains c (collect_from [] m.functions) ≡ true) ↔ ((i : ℕ) × Has m i c)
unfolding type_at get
capabilities_iff c m = (
  λ h. any_capability-index c m.functions (sym (contains-collect_from c [] m.functions) ∙ h),
  λ (i, p). contains-collect_from c [] m.functions ∙ index-any_capability c m.functions i p,
)

-- Taking over capabilities gives no capability that no function had.
capabilities_kept :
    (es : List Arc) (m m' : FunctionMap) (c : Capability)
    → IsBubbled es m m'
    → ((i : ℕ) × Has m' i c) ↔ ((i : ℕ) × Has m i c)
capabilities_kept es m m' c b = (
  λ (i, h). let (j, _, q) = (b.exact i c).0 h in (j, q),
  λ (i, h). (i, (b.exact i c).1 (i, here i, h)),
)

-- A well-formed builder has a report. Its functions are those of the map, each with exactly the
-- capabilities of the functions that it reaches by calls; the capabilities of the process are, in
-- order, exactly those that some function had before; the edges are those of the call graph, and
-- there are no children.
pub into_report_correct :
    (petgraph : DiGraphMap) (b : Bitcode petgraph)
    → IsWellFormed petgraph b
    → (r : Report) × (into_report petgraph b ≡ some r)
      × ((m : FunctionMap) × (r.process.functions ≡ m.functions)
          × IsBubbled (petgraph.all_edges b.call_graph) b.functions m)
      × ((c : Capability)
          → (OrdSet.contains c r.process.capabilities ≡ true) ↔ ((i : ℕ) × Has b.functions i c))
      × OrdSet.IsSorted r.process.capabilities
      × (r.process.path ≡ b.path)
      × (r.process.edges ≡ into_edges petgraph b.call_graph)
      × (r.children ≡ [])
unfolding into_report bubble_transitive_capabilities into_functions
into_report_correct petgraph b wf =
    let es = petgraph.all_edges b.call_graph in
    let (m, e, done) = bubble_correct es b.functions wf.within in
    (
      record {
        process = record {
          path = b.path;
          capabilities = collect_from [] m.functions;
          functions = m.functions;
          edges = into_edges petgraph b.call_graph;
        };
        children = [];
      },
      ap (report_of petgraph b) e,
      (m, refl, done),
      λ c.
          let (to, from) = capabilities_iff c m in
          let (down, up) = capabilities_kept es b.functions m c done in
          (λ h. down (to h), λ h. from (up h)),
      collect_from-IsSorted [] m.functions tt,
      refl,
      refl,
      refl,
    )
