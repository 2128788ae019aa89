-- ===== src/Static/Meaning.antt =====
-- src/static/: what the report says of the functions and calls that the modules list.
use cargo_capslock.Prelude.{
  ℕ, ◌≡◌, refl, ◌↔◌, inl, inr, true, none, some, List, [], arith, Text, text_ord, is_some,
  lt-length, length, ◌<◌, if◌then◌else◌, Option-cases, Result, subst, get_elem?, ◌∙◌,
}
use cargo_capslock.Collections.OrdMap
use cargo_capslock.Collections.OrdSet
use cargo_capslock.Capslock.Caps.{Capability, capability_ord}
use cargo_capslock.Capslock.Caps.Types.{CapabilityType}
use cargo_capslock.Capslock.Report.{Function, FunctionName, Report}
use cargo_capslock.Functions.Map.{FunctionMap, get, get_index}
use cargo_capslock.Functions.Build.{Symbolic, FunctionCaps, ToFunction, parse_mangled_name}
use cargo_capslock.Functions.Build.Caps.{listed, to_function_with_fn_caps-inv}
use cargo_capslock.Graph.{Arc}
use cargo_capslock.Graph.Visit.{type_at, Keeps-function}
use cargo_capslock.Graph.Reach.{Has, IsBubbled}
use cargo_capslock.Graph.CallGraph.{DiGraphMap, into_edges}
use cargo_capslock.Locations.{into_option_location}
use cargo_capslock.Static.Bitcode.{Call, Bitcode, into_report}
use cargo_capslock.Static.Bitcode.Calls.{IsWellFormed}
use cargo_capslock.Static.Bitcode.Reporting.{into_report_correct}
use cargo_capslock.Functions.Map.Filled.{first, first-name}
use cargo_capslock.Static.Table.{mangled, Builds, IsBuilt}
use cargo_capslock.Graph.Pictured.{Pictures, drawn-Pictures}
use cargo_capslock.Graph.Drawn.{Draws, CallsTo, CallsTo-Reach, Reach-CallsTo}

-- The mapping lists the capability for what the name is parsed to.
abbrev pub ListedFor : Symbolic → FunctionCaps → Text → Capability → Type 0
ListedFor symbolic fc k c =
    (name : FunctionName) × (parse_mangled_name symbolic k ≡ Result.ok name)
    × (OrdSet.contains c (listed fc name) ≡ true)

module _ (symbolic : Symbolic) (fc : FunctionCaps) (calls : List Call) where
  -- A function of the report, of the first of the functions that has its name: a capability is direct
  -- if the mapping lists it for the name, and is there if it is listed for a name that is called.
  pub record IsOf (t : ToFunction) (f : Function) : Type 0 where
    pub name : parse_mangled_name symbolic t.mangled_name ≡ Result.ok f.name
    pub location : f.location ≡ into_option_location t.debugloc
    pub syscalls : f.syscalls ≡ []
    pub direct :
        (c : Capability)
        → (OrdMap.lookup c f.capabilities ≡ some CapabilityType.direct)
          ↔ ListedFor symbolic fc t.mangled_name c
    pub reached :
        (c : Capability)
        → (is_some (OrdMap.lookup c f.capabilities) ≡ true)
          ↔ ((k' : Text) × CallsTo calls t.mangled_name k' × ListedFor symbolic fc k' c)

module _ (symbolic : Symbolic) (fc : FunctionCaps) (funs : List ToFunction)
    (calls : List Call) where
  -- A report of the functions and the calls: one function for each name, one edge at least for each call
  -- and none without, and for the process what is listed for one of the names.
  pub record IsReport (r : Report) : Type 0 where
    pub pictured : Pictures mangled (IsOf symbolic fc calls) funs calls r.process
    pub capabilities :
        (c : Capability)
        → (OrdSet.contains c r.process.capabilities ≡ true) ↔ (
            (k : Text) × (t : ToFunction) × (first mangled k funs ≡ some t)
            × ListedFor symbolic fc k c)
    pub children : r.children ≡ []

module _ (symbolic : Symbolic) (fc : FunctionCaps) (funs : List ToFunction) (m : FunctionMap)
    (b : IsBuilt symbolic fc funs m) where
  -- Before capabilities are taken over, a function has what the mapping lists for its name, directly.
  built-type_at :
      (k : Text) (i : ℕ) (c : Capability)
      → get_index k m ≡ some i
      → (name : FunctionName) × (parse_mangled_name symbolic k ≡ Result.ok name)
        × (type_at m i c
            ≡ (if OrdSet.contains c (listed fc name) then some CapabilityType.direct else none))
  unfolding type_at
  built-type_at k i c h =
      let (t, f, e, at_i, built) = b.built k i h in
      let (parsed, _, _, lookup) = to_function_with_fn_caps-inv symbolic fc t f built in
      (f.name, rw (first-name mangled (Builds symbolic fc) k funs t e) parsed, rw at_i (lookup c))

  Has-ListedFor :
      (k : Text) (i : ℕ) (c : Capability)
      → get_index k m ≡ some i
      → Has m i c ↔ ListedFor symbolic fc k c
  Has-ListedFor k i c h =
      let (name, parsed, now) = built-type_at k i c h in
      (
        λ has. (name, parsed, ground arith),
        λ (name', parsed', q). let same : name' ≡ name = cc in ground arith,
      )

module _ (symbolic : Symbolic) (fc : FunctionCaps) (funs : List ToFunction) (calls : List Call)
    (m m' : FunctionMap) (es : List Arc) (b : IsBuilt symbolic fc funs m) (drawn : Draws calls m es)
    (bubbled : IsBubbled es m m') where
  abbrev Reached : Text → Capability → Type 0
  Reached k c = (k' : Text) × CallsTo calls k k' × ListedFor symbolic fc k' c

  direct_iff :
      (k : Text) (i : ℕ) (c : Capability)
      → get_index k m ≡ some i
      → (type_at m' i c ≡ some CapabilityType.direct) ↔ ListedFor symbolic fc k c
  direct_iff k i c h =
      let (to, from) = Has-ListedFor symbolic fc funs m b k i c h in
      let (name, parsed, now) = built-type_at symbolic fc funs m b k i c h in
      (
        λ direct. elim (Option-cases (type_at m i c)) [
          | inl e ↦ cc (bubbled.fresh i c e (rw direct refl))
          | inr (ty, e) ↦ to (rw e refl)
        ],
        λ p. let has = from p in ground (arith, bubbled.keeps i c has),
      )

  Reached-iff :
      (k : Text) (i : ℕ) (c : Capability) → get_index k m ≡ some i → Has m' i c ↔ Reached k c
  Reached-iff k i c h = (
    λ has.
        let (j, path, old) = (bubbled.exact i c).0 has in
        let (k', at_j, called) = Reach-CallsTo calls m es drawn i j path b.valid k h in
        (k', called, (Has-ListedFor symbolic fc funs m b k' j c at_j).0 old),
    λ (k', called, p).
        let (j, at_j, path) = CallsTo-Reach calls m es drawn k k' called i h in
        (bubbled.exact i c).1 (j, path, (Has-ListedFor symbolic fc funs m b k' j c at_j).1 p),
  )

  -- The function of a name, in the report.
  bubbled-IsOf :
      (k : Text) (i : ℕ)
      → get_index k m ≡ some i
      → (t : ToFunction) × (f : Function) × (first mangled k funs ≡ some t)
        × (get i m' ≡ some f)
        × IsOf symbolic fc calls t f
  bubbled-IsOf k i h =
      let (t, old, e, at_old, built) = b.built k i h in
      let same : k ≡ t.mangled_name = first-name mangled (Builds symbolic fc) k funs t e in
      let (parsed, at, none_yet, _) = to_function_with_fn_caps-inv symbolic fc t old built in
      let (f, at_new, name, location, syscalls) = Keeps-function m m' i old bubbled.others at_old in
      let now : (c : Capability) → type_at m' i c ≡ OrdMap.lookup c f.capabilities =
        λ c. unfold type_at in rw at_new refl in
      (
        t,
        f,
        e,
        at_new,
        record {
          name = rw name parsed;
          location = location ∙ at;
          syscalls = syscalls ∙ none_yet;
          direct = λ c.
              subst (λ o. (o ≡ some CapabilityType.direct) ↔ ListedFor symbolic fc t.mangled_name c)
                (now c) (direct_iff t.mangled_name i c (rw same at h));
          reached = λ c.
              subst (λ o. (is_some o ≡ true) ↔ Reached t.mangled_name c) (now c)
                (Reached-iff t.mangled_name i c (rw same at h));
        },
      )

-- What the builder holds once the functions and the calls are in it.
pub record IsDone (petgraph : DiGraphMap) (symbolic : Symbolic) (fc : FunctionCaps)
    (funs : List ToFunction) (calls : List Call) (b : Bitcode petgraph) : Type 0 where
  pub built : IsBuilt symbolic fc funs b.functions
  pub drawn : Draws calls b.functions (petgraph.all_edges b.call_graph)

module _ (symbolic : Symbolic) (fc : FunctionCaps) (funs : List ToFunction) (m : FunctionMap)
    (b : IsBuilt symbolic fc funs m) where
  Has-lt : (i : ℕ) (c : Capability) → Has m i c → i < length m.functions
  unfolding type_at get
  Has-lt i c has = elim (Option-cases (get_elem? m.functions i)) [
    | inl e ↦ ground arith
    | inr (f, e) ↦ lt-length m.functions i e
  ]

  -- Some function has the capability if it is listed for the name of one.
  any_iff :
      (c : Capability)
      → ((i : ℕ) × Has m i c) ↔ (
          (k : Text) × (t : ToFunction) × (first mangled k funs ≡ some t)
          × ListedFor symbolic fc k c)
  any_iff c = (
    λ (i, has).
        let (k, h) = b.valid.onto i (Has-lt i c has) in
        let (t, _, e, _, _) = b.built k i h in
        (k, t, e, (Has-ListedFor symbolic fc funs m b k i c h).0 has),
    λ (k, t, e, p). elim (Option-cases (get_index k m)) [
      | inl h ↦ cc (b.missing k h)
      | inr (i, h) ↦ (i, (Has-ListedFor symbolic fc funs m b k i c h).1 p)
    ],
  )

-- The report of a builder that holds the functions and the calls.
pub into_report-IsReport :
    (petgraph : DiGraphMap) (symbolic : Symbolic) (fc : FunctionCaps) (funs : List ToFunction)
    (calls : List Call) (b : Bitcode petgraph)
    → IsDone petgraph symbolic fc funs calls b
    → IsWellFormed petgraph b
    → (r : Report) × (into_report petgraph b ≡ some r) × IsReport symbolic fc funs calls r
unfolding into_edges
into_report-IsReport petgraph symbolic fc funs calls b done wf =
    let (r, e, (m, same, bubbled), caps, _, _, edges, children) =
      into_report_correct petgraph b wf in
    let es = petgraph.all_edges b.call_graph in
    (
      r,
      e,
      record {
        pictured =
            drawn-Pictures mangled (IsOf symbolic fc calls) funs calls b.functions m es r.process
              wf.valid done.built.missing
              (bubbled-IsOf symbolic fc funs calls b.functions m es done.built done.drawn bubbled)
              bubbled.others.size done.drawn same edges;
        capabilities = λ c.
            let (to, from) = any_iff symbolic fc funs b.functions done.built c in
            (λ h. to ((caps c).0 h), λ h. (caps c).1 (from h));
        children = children;
      },
    )
