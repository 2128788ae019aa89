-- ===== src/Graph/Pictured.antt =====
-- src/graph.rs, src/function.rs: a process of a report as the picture of entries and of calls by name.
use cargo_capslock.Prelude.{
  ℕ, ◌≡◌, inl, inr, Option, none, some, List, [], ◌∷◌, map, Text, In, ap, get_elem?, lt-length,
  length,
}
use cargo_capslock.Capslock.Report.{Function, Process, Edge, Location}
use cargo_capslock.Functions.Map.{FunctionMap, get, get_index}
use cargo_capslock.Functions.Map.Upsert.{IsValid}
use cargo_capslock.Functions.Map.Filled.{first}
use cargo_capslock.Graph.{Arc}
use cargo_capslock.Graph.CallGraph.{edge_of}
use cargo_capslock.Graph.Drawn.{NamedCall, Draws}
use cargo_capslock.Locations.{DebugLoc, into_option_location}

In-edges :
    (es : List Arc) (i j : ℕ) (w : Option Location)
    → In (i, j, w) es
    → In (edge_of (i, j, w)) (map edge_of es)
In-edges [] i j w q = absurd q
In-edges (x ∷ es) i j w (inl e) = inl (ap edge_of e)
In-edges (x ∷ es) i j w (inr q) = inr (In-edges es i j w q)

In-edges-inv :
    (es : List Arc) (e : Edge) → In e (map edge_of es) → In (e.caller, e.callee, e.location) es
In-edges-inv [] e q = absurd q
In-edges-inv ((i, j, w) ∷ es) e (inl same) =
    inl (ap (λ (x : Edge). (x.caller, x.callee, x.location)) same)
In-edges-inv (x ∷ es) e (inr q) = inr (In-edges-inv es e q)

module _ {E : Type 0} (name : E → Text) (Shows : E → Function → Type 0) (done : List E)
    (calls : List NamedCall) where
  -- One function for each name, which is that of the first entry with the name; one edge at least for
  -- each call, and none without, between the functions of its names.
  pub record Pictures (p : Process) : Type 0 where
    pub index : Text → Option ℕ
    pub unlisted : (k : Text) → index k ≡ none → first name k done ≡ none
    pub at_index :
        (k : Text) (i : ℕ)
        → index k ≡ some i
        → (t : E) × (f : Function) × (first name k done ≡ some t)
          × (get_elem? p.functions i ≡ some f)
          × Shows t f
    pub onto :
        (i : ℕ) (f : Function) → get_elem? p.functions i ≡ some f → (k : Text) × (index k ≡ some i)
    pub injective : (j k : Text) (i : ℕ) → index j ≡ some i → index k ≡ some i → j ≡ k
    pub called :
        (e : Edge)
        → In e p.edges
        → (a : Text) × (b : Text) × (d : Option DebugLoc) × In (a, b, d) calls
          × (index a ≡ some e.caller)
          × (index b ≡ some e.callee)
          × (e.location ≡ into_option_location d)
    pub edge :
        (a b : Text) (d : Option DebugLoc)
        → In (a, b, d) calls
        → (e : Edge) × In e p.edges × (index a ≡ some e.caller) × (index b ≡ some e.callee)

  -- A process with the functions of a second map, which has the indices of a first one, and with the
  -- edges of a graph.
  pub drawn-Pictures :
      (m m' : FunctionMap) (es : List Arc) (p : Process)
      → IsValid m
      → ((k : Text) → get_index k m ≡ none → first name k done ≡ none)
      → ((k : Text) (i : ℕ)
          → get_index k m ≡ some i
          → (t : E) × (f : Function) × (first name k done ≡ some t)
            × (get i m' ≡ some f)
            × Shows t f)
      → length m'.functions ≡ length m.functions
      → Draws calls m es
      → p.functions ≡ m'.functions
      → p.edges ≡ map edge_of es
      → Pictures p
  unfolding get
  drawn-Pictures m m' es p valid missing at_index size drawn same edges = record {
    index = λ k. get_index k m;
    unlisted = missing;
    at_index = λ k i h. rw same (at_index k i h);
    onto =
        λ i f h. let lt = lt-length m'.functions i (rw same at h) in valid.onto i (rw size at lt);
    injective = valid.injective;
    called = λ x q.
        let (a, b, d, made, (ha, hb), at) =
          drawn.sound x.caller x.callee x.location (In-edges-inv es x (rw edges at q)) in
        (a, b, d, made, ha, hb, at);
    edge = λ a b d made.
        let (i, j, w, (ha, hb), arc) = drawn.complete a b d made in
        (edge_of (i, j, w), rw edges (In-edges es i j w arc), ha, hb);
  }
