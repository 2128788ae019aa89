-- ===== src/Runtime/Events/Lasts.antt =====
-- src/runtime/mod.rs: the functions and calls of a process stay while more are recorded.
use cargo_capslock.Prelude.{
  ℕ, ◌<◌, ◌≡◌, ◌∙◌, true, none, some, is_some, List, [], ◌∷◌, arith, Text, Option-cases, length,
  lt-length, inl, inr,
}
use cargo_capslock.Capslock.Report.{Function}
use cargo_capslock.Functions.Map.{FunctionMap, get, get_index, upsert}
use cargo_capslock.Functions.Map.Upsert.{upsert_lem}
use cargo_capslock.Graph.CallGraph.{weight}
use cargo_capslock.Runtime.Platform.{Platform}
use cargo_capslock.Runtime.Process.{State, add_edge, upsert_function}

-- An index stays what it is when another function is upserted.
get_index-upsert_stable :
    (mangled : Text) (f : Function) (m : FunctionMap) (k : Text) (i : ℕ)
    → get_index k m ≡ some i
    → get_index k (upsert mangled f m).0 ≡ some i
get_index-upsert_stable mangled f m k i h =
    let (_, others, _, _, known) = upsert_lem mangled f m in
    elim (Option-cases (get_index mangled m)) [
      | inr (j, e) ↦ rw (known j e).1 h
      | inl e ↦ others k (λ same. cc) ∙ h
    ]

lt-get : (m : FunctionMap) (i : ℕ) (g : Function) → get i m ≡ some g → i < length m.functions
unfolding get
lt-get m i g h = lt-length m.functions i h

get-upsert_stable :
    (mangled : Text) (f : Function) (m : FunctionMap) (i : ℕ) (g : Function)
    → get i m ≡ some g
    → get i (upsert mangled f m).0 ≡ some g
get-upsert_stable mangled f m i g h = (upsert_lem mangled f m).2 i (lt-get m i g h) ∙ h

module _ (P : Platform) where
  open P use {petgraph}

  -- The process has a function of the name, under the index.
  abbrev pub IsIndex : State P → Text → ℕ → Type 0
  IsIndex s name i = get_index name s.functions ≡ some i

  -- The process has a call from the one index to the other.
  abbrev pub IsCall : State P → ℕ → ℕ → Type 0
  IsCall s a b = is_some (weight a b (petgraph.all_edges s.call_graph)) ≡ true

  -- The first name has an index; and each later one has one too, with a call from it to the name before.
  abbrev pub IsChain : State P → List Text → Type 0
  IsChain s [] = Unit
  IsChain s (x ∷ []) = (i : ℕ) × IsIndex s x i
  IsChain s (x ∷ y ∷ names) =
      ((i : ℕ) × (j : ℕ) × IsIndex s x i × IsIndex s y j × IsCall s j i) × IsChain s (y ∷ names)

  -- Indices, calls and functions that are there stay.
  pub record Lasts (s s' : State P) : Type 0 where
    pub index : (k : Text) (i : ℕ) → IsIndex s k i → IsIndex s' k i
    pub call : (a b : ℕ) → IsCall s a b → IsCall s' a b
    pub entry : (i : ℕ) (f : Function) → get i s.functions ≡ some f → get i s'.functions ≡ some f

  pub Lasts-trans : (s t u : State P) → Lasts s t → Lasts t u → Lasts s u
  Lasts-trans s t u h k = record {
    index = λ n i e. k.index n i (h.index n i e);
    call = λ a b e. k.call a b (h.call a b e);
    entry = λ i f e. k.entry i f (h.entry i f e);
  }

  pub upsert_function-Lasts :
      (name : Text) (f : Function) (s : State P) → Lasts s (upsert_function P name f s).0
  unfolding upsert_function
  upsert_function-Lasts name f s = record {
    index = get_index-upsert_stable name f s.functions;
    call = λ a b e. e;
    entry = get-upsert_stable name f s.functions;
  }

  pub add_edge-Lasts : (a b : ℕ) (s : State P) → Lasts s (add_edge P a b s)
  unfolding add_edge
  add_edge-Lasts a b s = record {
    index = λ k i e. e;
    call = λ x y e. ground (arith, petgraph.weight-add_edge a b x y none s.call_graph);
    entry = λ i f e. e;
  }

  pub add_edge-IsCall : (a b : ℕ) (s : State P) → IsCall (add_edge P a b s) a b
  unfolding add_edge
  add_edge-IsCall a b s = ground (arith, petgraph.weight-add_edge a b a b none s.call_graph)

  pub upsert_function-IsIndex :
      (name : Text) (f : Function) (s : State P)
      → let (s', i) = upsert_function P name f s in IsIndex s' name i
  unfolding upsert_function
  upsert_function-IsIndex name f s = (upsert_lem name f s.functions).0
