-- ===== src/Graph/EdgeList.antt =====
-- src/graph.rs: a list of edges as a `DiGraphMap`, which shows that the laws of the interface can hold.
use cargo_capslock.Prelude.{
  ℕ, ◌≡◌, refl, false, ◌&&◌, ◌==◌, Option, some, List, [], ◌∷◌, if◌then◌else◌, inl, inr, In,
  Bool-cases, arith,
}
use cargo_capslock.Capslock.Report.{Location}
use cargo_capslock.Graph.{Arc}
use cargo_capslock.Graph.CallGraph.{DiGraphMap, weight}

-- The edges but the one from `a` to `b`.
abbrev pub without : ℕ → ℕ → List Arc → List Arc
without a b [] = []
without a b ((x, y, w) ∷ es) =
    if x == a && y == b then without a b es else (x, y, w) ∷ without a b es

-- The edges of a list of calls, of which the first is the last one made.
abbrev pub edges_of : List Arc → List Arc
edges_of [] = []
edges_of ((a, b, w) ∷ es) = (a, b, w) ∷ without a b (edges_of es)

weight-without :
    (a b x y : ℕ) (es : List Arc)
    → x == a && y == b ≡ false
    → weight x y (without a b es) ≡ weight x y es
weight-without a b x y [] h = refl
weight-without a b x y ((p, q, w) ∷ es) h = ground (arith, weight-without a b x y es h)

In-without :
    (a b x y : ℕ) (v : Option Location) (es : List Arc)
    → In (x, y, v) (without a b es)
    → (x == a && y == b ≡ false) × In (x, y, v) es
In-without a b x y v [] h = absurd h
In-without a b x y v ((p, q, w) ∷ es) h = elim (Bool-cases (p == a && q == b)) [
  | inl same ↦ let (differs, old) = In-without a b x y v es (rw same at h) in (differs, inr old)
  | inr other ↦
      elim (rw other at h) as (λ _. (x == a && y == b ≡ false) × In (x, y, v) ((p, q, w) ∷ es)) [
        | inl e ↦ (ground arith, inl e)
        | inr old ↦ let (differs, deep) = In-without a b x y v es old in (differs, inr deep)
      ]
]

pub weight-edges_of :
    (a b x y : ℕ) (w : Option Location) (es : List Arc)
    → weight x y (edges_of ((a, b, w) ∷ es))
      ≡ (if x == a && y == b then some w else weight x y (edges_of es))
weight-edges_of a b x y w es = ground (arith, weight-without a b x y (edges_of es))

pub unique-edges_of :
    (es : List Arc) (a b : ℕ) (w : Option Location)
    → In (a, b, w) (edges_of es)
    → weight a b (edges_of es) ≡ some w
unique-edges_of [] a b w q = absurd q
unique-edges_of ((x, y, v) ∷ es) a b w (inl same) = ground arith
unique-edges_of ((x, y, v) ∷ es) a b w (inr q) =
    let (differs, old) = In-without x y a b w (edges_of es) q in
    ground (arith, weight-without x y a b (edges_of es), unique-edges_of es a b w old)

abbrev pub edge_list : DiGraphMap
edge_list = record {
  Graph = List Arc;
  new = [];
  add_edge = λ a b w es. (a, b, w) ∷ es;
  all_edges = edges_of;
  all_edges-new = refl;
  weight-add_edge = λ a b x y w es. weight-edges_of a b x y w es;
  unique = unique-edges_of;
}
