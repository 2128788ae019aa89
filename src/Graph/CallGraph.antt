-- ===== src/Graph/CallGraph.antt =====
-- src/graph.rs: `CallGraph`, a directed graph of petgraph with a location on each edge.
use cargo_capslock.Prelude.{
  ℕ, ◌≡◌, ◌&&◌, ◌==◌, Option, none, some, List, [], ◌∷◌, map, if◌then◌else◌, inl, inr, In, All,
  All-In, All-of_In, Bool-cases, arith, ==_iff, ◌∙◌, ◌⊎◌,
}
use cargo_capslock.Capslock.Report.{Location, Edge}
use cargo_capslock.Functions.Map.{FunctionMap}
use cargo_capslock.Graph.{Arc, Bubbled, bubble}

-- The weight of the edge from `a` to `b` in a list of edges.
abbrev pub weight : ℕ → ℕ → List Arc → Option (Option Location)
weight a b [] = none
weight a b ((x, y, w) ∷ es) = if a == x && b == y then some w else weight a b es

-- petgraph's `DiGraphMap<usize, Option<Location>>`: `all_edges` has one item for each pair of nodes
-- that `add_edge` was called with, with the weight of the last such call.
pub record DiGraphMap : Type 1 where
  pub Graph : Type 0
  pub new : Graph
  pub add_edge : ℕ → ℕ → Option Location → Graph → Graph
  pub all_edges : Graph → List Arc
  pub all_edges-new : all_edges new ≡ []
  pub weight-add_edge :
      (a b x y : ℕ) (w : Option Location) (g : Graph)
      → weight x y (all_edges (add_edge a b w g))
        ≡ (if x == a && y == b then some w else weight x y (all_edges g))
  pub unique :
      (g : Graph) (a b : ℕ) (w : Option Location)
      → In (a, b, w) (all_edges g)
      → weight a b (all_edges g) ≡ some w

abbrev pub edge_of : Arc → Edge
edge_of (a, b, w) = record { caller = a; callee = b; location = w }

module _ (petgraph : DiGraphMap) where
  open petgraph use {Graph, all_edges}

  -- `CallGraph::bubble_transitive_capabilities`
  unfoldable pub bubble_transitive_capabilities : Graph → FunctionMap → Bubbled
  bubble_transitive_capabilities graph functions = bubble (all_edges graph) functions

  -- `From<CallGraph> for Vec<Edge>`
  unfoldable pub into_edges : Graph → List Edge
  into_edges graph = map edge_of (all_edges graph)

In-weight :
    (a b : ℕ) (w : Option Location) (es : List Arc) → weight a b es ≡ some w → In (a, b, w) es
In-weight a b w [] h = cc
In-weight a b w ((x, y, v) ∷ es) h = elim (Bool-cases (a == x && b == y)) [
  | inl same ↦ inl (ground arith)
  | inr other ↦ inr (In-weight a b w es (ground arith))
]

module _ (petgraph : DiGraphMap) where
  open petgraph use {Graph, add_edge, all_edges, weight-add_edge, unique}

  -- An added edge is between the two given nodes, and every other edge was there.
  pub all_edges-add_edge {ℓ} :
      (P : Arc → Type ℓ) (a b : ℕ) (w : Option Location) (g : Graph)
      → ((v : Option Location) → P (a, b, v))
      → All P (all_edges g)
      → All P (all_edges (add_edge a b w g))
  all_edges-add_edge P a b w g new old = All-of_In P (all_edges (add_edge a b w g)) λ (x, y, v) q.
      elim (Bool-cases (x == a && y == b)) [
        | inl same ↦
            let ex : x ≡ a = ground arith in let ey : y ≡ b = ground arith in rw (ex, ey) (new v)
        | inr other ↦
            All-In P (all_edges g) old (x, y, v)
              (In-weight x y v (all_edges g)
                (ground (arith, weight-add_edge a b x y w g, unique (add_edge a b w g) x y v q)))
      ]

  -- The edges after `add_edge`: the new one is there, with its weight; an edge that is there is the new
  -- one or was there before; and no two nodes lose their edge.
  pub add_edge-here :
      (a b : ℕ) (w : Option Location) (g : Graph) → In (a, b, w) (all_edges (add_edge a b w g))
  add_edge-here a b w g =
      In-weight a b w (all_edges (add_edge a b w g))
        (weight-add_edge a b a b w g ∙ ground (arith, ==_iff a a, ==_iff b b))

  pub add_edge-inv :
      (a b x y : ℕ) (w v : Option Location) (g : Graph)
      → In (x, y, v) (all_edges (add_edge a b w g))
      → ((x ≡ a) × (y ≡ b) × (v ≡ w)) ⊎ In (x, y, v) (all_edges g)
  add_edge-inv a b x y w v g q = elim (Bool-cases (x == a && y == b)) [
    | inl same ↦ inl (
        ground (
          arith,
          weight-add_edge a b x y w g,
          unique (add_edge a b w g) x y v q,
          ==_iff x a,
          ==_iff y b,
        ))
    | inr other ↦ inr (
        In-weight x y v (all_edges g)
          (ground (arith, weight-add_edge a b x y w g, unique (add_edge a b w g) x y v q)))
  ]

  pub add_edge-kept :
      (a b x y : ℕ) (w v : Option Location) (g : Graph)
      → In (x, y, v) (all_edges g)
      → (u : Option Location) × In (x, y, u) (all_edges (add_edge a b w g))
  add_edge-kept a b x y w v g q = elim (Bool-cases (x == a && y == b)) [
    | inl same ↦ (
      w,
      In-weight x y w (all_edges (add_edge a b w g)) (ground (arith, weight-add_edge a b x y w g)),
    )
    | inr other ↦ (
      v,
      In-weight x y v (all_edges (add_edge a b w g))
          (ground (arith, weight-add_edge a b x y w g, unique g x y v q)),
    )
  ]
