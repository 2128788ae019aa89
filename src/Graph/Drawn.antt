-- ===== src/Graph/Drawn.antt =====
-- src/graph.rs: the edges of a call graph, against the calls by name that were recorded in it.
use cargo_capslock.Prelude.{
  ℕ, ◌≡◌, refl, ◌⊎◌, inl, inr, Option, some, List, [], ◌∷◌, ◌++◌, arith, Text, In, In-append_left,
  subst, ap,
}
use cargo_capslock.Capslock.Report.{Location}
use cargo_capslock.Functions.Map.{FunctionMap, get_index}
use cargo_capslock.Functions.Map.Upsert.{IsValid}
use cargo_capslock.Graph.{Arc}
use cargo_capslock.Graph.Reach.{Reach, here, call}
use cargo_capslock.Graph.CallGraph.{DiGraphMap, add_edge-here, add_edge-inv, add_edge-kept}
use cargo_capslock.Locations.{DebugLoc, into_option_location}

In-append_last : {A : Type 0} (a : A) (xs : List A) → In a (xs ++ a ∷ [])
In-append_last a [] = inl refl
In-append_last a (x ∷ xs) = inr (In-append_last a xs)

In-append-inv : {A : Type 0} (a b : A) (xs : List A) → In a (xs ++ b ∷ []) → (a ≡ b) ⊎ In a xs
In-append-inv a b [] (inl e) = inl e
In-append-inv a b [] (inr q) = absurd q
In-append-inv a b (x ∷ xs) (inl e) = inr (inl e)
In-append-inv a b (x ∷ xs) (inr q) = elim (In-append-inv a b xs q) [
  | inl e ↦ inl e
  | inr r ↦ inr (inr r)
]

-- A call by the names of the caller and the callee, with its debug location.
abbrev pub NamedCall : Type 0
NamedCall = Text × Text × Option DebugLoc

-- What a call is an edge of: the indices of its names.
abbrev pub Joins : FunctionMap → NamedCall → ℕ → ℕ → Type 0
Joins m (a, b, _) i j = (get_index a m ≡ some i) × (get_index b m ≡ some j)

-- Every edge is that of a call, with its location, and every call has an edge.
pub record Draws (calls : List NamedCall) (m : FunctionMap) (es : List Arc) : Type 0 where
  pub sound :
      (i j : ℕ) (w : Option Location)
      → In (i, j, w) es
      → (a : Text) × (b : Text) × (d : Option DebugLoc) × In (a, b, d) calls
        × Joins m (a, b, d) i j
        × (w ≡ into_option_location d)
  pub complete :
      (a b : Text) (d : Option DebugLoc)
      → In (a, b, d) calls
      → (i : ℕ) × (j : ℕ) × (w : Option Location) × Joins m (a, b, d) i j × In (i, j, w) es

-- Names keep their indices while the map grows.
pub Draws-more :
    (calls : List NamedCall) (m m' : FunctionMap) (es : List Arc)
    → ((k : Text) (i : ℕ) → get_index k m ≡ some i → get_index k m' ≡ some i)
    → Draws calls m es
    → Draws calls m' es
Draws-more calls m m' es names h = record {
  sound = λ i j w q.
      let (a, b, d, made, (ha, hb), at) = h.sound i j w q in
      (a, b, d, made, (names a i ha, names b j hb), at);
  complete = λ a b d made.
      let (i, j, w, (ha, hb), q) = h.complete a b d made in
      (i, j, w, (names a i ha, names b j hb), q);
}

module _ (petgraph : DiGraphMap) where
  open petgraph use {Graph, add_edge, all_edges}

  pub add_edge-Draws :
      (done : List NamedCall) (m : FunctionMap) (a b : Text) (d : Option DebugLoc) (i j : ℕ)
      (g : Graph)
      → get_index a m ≡ some i
      → get_index b m ≡ some j
      → Draws done m (all_edges g)
      → Draws (done ++ (a, b, d) ∷ []) m (all_edges (add_edge i j (into_option_location d) g))
  add_edge-Draws done m a b d i j g ha hb h = record {
    sound = λ x y w q. elim (add_edge-inv petgraph i j x y (into_option_location d) w g q) [
      | inl (ex, ey, ew) ↦ (a, b, d, In-append_last (a, b, d) done, (rw ex ha, rw ey hb), ew)
      | inr old ↦
          let (p, q, e, made, ends, at) = h.sound x y w old in
          (p, q, e, In-append_left (p, q, e) done ((a, b, d) ∷ []) made, ends, at)
    ];
    complete = λ p q e made. elim (In-append-inv (p, q, e) (a, b, d) done made) [
      | inl same ↦
          let ep : p ≡ a = ap (λ (c : NamedCall). c.0) same in
          let eq : q ≡ b = ap (λ (c : NamedCall). c.1) same in
          (
            i,
            j,
            into_option_location d,
            (rw ep ha, rw eq hb),
            add_edge-here petgraph i j (into_option_location d) g,
          )
      | inr old ↦
          let (x, y, w, ends, q) = h.complete p q e old in
          let (u, kept) = add_edge-kept petgraph i j x y (into_option_location d) w g q in
          (x, y, u, ends, kept)
    ];
  }

-- The names that a name calls, itself or through others.
pub data CallsTo (calls : List NamedCall) : Text → Text → Type 0 where
  itself : (a : Text) → CallsTo calls a a
  through :
      (a b c : Text) (d : Option DebugLoc)
      → In (a, b, d) calls
      → CallsTo calls b c
      → CallsTo calls a c

module _ (calls : List NamedCall) (m : FunctionMap) (es : List Arc) (drawn : Draws calls m es) where
  -- Calls by name are paths of the graph.
  pub CallsTo-Reach :
      (a b : Text)
      → CallsTo calls a b
      → (i : ℕ) → get_index a m ≡ some i
      → (j : ℕ) × (get_index b m ≡ some j) × Reach es i j
  CallsTo-Reach a b (itself _) i h = (i, h, here i)
  CallsTo-Reach a c (through _ b _ d made rest) i h =
      let (x, y, w, (ha, hb), arc) = drawn.complete a b d made in
      let (j, hc, path) = CallsTo-Reach b c rest y hb in
      let same : x ≡ i = ground arith in
      (j, hc, call i y j w (subst (λ (n : ℕ). In (n, y, w) es) same arc) path)

  pub Reach-CallsTo :
      (i j : ℕ)
      → Reach es i j
      → IsValid m
      → (a : Text) → get_index a m ≡ some i
      → (b : Text) × (get_index b m ≡ some j) × CallsTo calls a b
  Reach-CallsTo i j (here _) v a h = (a, h, itself a)
  Reach-CallsTo i k (call _ j _ w arc path) v a h =
      let (p, q, d, made, (hp, hq), at) = drawn.sound i j w arc in
      let same : p ≡ a = v.injective p a i hp h in
      let (b, hb, rest) = Reach-CallsTo j k path v q hq in
      (b, hb, through a q b d (subst (λ (n : Text). In (n, q, d) calls) same made) rest)
