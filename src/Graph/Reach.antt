-- ===== src/Graph/Reach.antt =====
-- src/graph.rs: which capabilities a function ends with, against the paths of the graph.
use cargo_capslock.Prelude.{
  ℕ, zero, suc, ◌≡◌, refl, inl, inr, ◌↔◌, Bool, true, false, Option, none, some, List, [], ◌∷◌,
  arith, ◌==◌, if◌then◌else◌, is_some, length, Option-cases, Bool-cases, In, All, ap, sym, subst,
  ==_iff,
}
use cargo_capslock.Capslock.Caps.{Capability}
use cargo_capslock.Capslock.Caps.Types.{CapabilityType}
use cargo_capslock.Capslock.Report.{Location}
use cargo_capslock.Functions.Map.{FunctionMap}
use cargo_capslock.Graph.{Arc, visit, sweep, bubble_loop, bubble, rounds, Bubbled}
use cargo_capslock.Graph.Missing.{fill}
use cargo_capslock.Graph.Visit.{
  visit-inv, type_at, type_at-visited, visited_quiet, Keeps, Keeps-trans,
}
use cargo_capslock.Graph.Ends.{sweep-Keeps, bubble_ends, IsWithin}

-- The functions that a function calls, itself or through others.
pub data Reach (es : List Arc) : ℕ → ℕ → Type 0 where
  here : (i : ℕ) → Reach es i i
  call : (i j k : ℕ) (w : Option Location) → In (i, j, w) es → Reach es j k → Reach es i k

-- A function has the capability, of whatever type.
abbrev pub Has : FunctionMap → ℕ → Capability → Type 0
Has m i c = is_some (type_at m i c) ≡ true

type_at-visit :
    (a b : ℕ) (w : Option Location) (s t : FunctionMap × Bool)
    → visit (a, b, w) s ≡ some t
    → (i : ℕ) (c : Capability)
    → type_at t.0 i c ≡ (
        if i == a
        then fill CapabilityType.transitive (type_at s.0 a c) (is_some (type_at s.0 b c))
        else type_at s.0 i c)
type_at-visit a b w (m, changed) t h i c =
    let (caller, callee, ha, hb, e) = visit-inv a b w m changed t h in
    rw e (type_at-visited a b caller callee m changed ha hb i c)

module _ (es : List Arc) (m₀ : FunctionMap) where
  -- While the loop runs: a capability comes from a function that is called; what was there stays, with
  -- its type; what is new is transitive.
  record Inv (m : FunctionMap) : Type 0 where
    sound : (i : ℕ) (c : Capability) → Has m i c → (j : ℕ) × Reach es i j × Has m₀ j c
    keeps : (i : ℕ) (c : Capability) → Has m₀ i c → type_at m i c ≡ type_at m₀ i c
    fresh :
        (i : ℕ) (c : Capability)
        → type_at m₀ i c ≡ none
        → Has m i c
        → type_at m i c ≡ some CapabilityType.transitive

  Inv-start : Inv m₀
  Inv-start = record {
    sound = λ i c h. (i, here i, h);
    keeps = λ i c h. refl;
    fresh = λ i c e h. ground arith;
  }

  Inv-visit :
      (a b : ℕ) (w : Option Location) (s t : FunctionMap × Bool)
      → In (a, b, w) es
      → visit (a, b, w) s ≡ some t
      → Inv s.0
      → Inv t.0
  Inv-visit a b w s t arc h inv =
      let now = λ (i : ℕ) (c : Capability). type_at-visit a b w s t h i c in
      record {
        sound = λ i c p. elim (Bool-cases (is_some (type_at s.0 i c))) [
          | inl old ↦ inv.sound i c old
          | inr new ↦
              let at_caller : i ≡ a = ground (arith, now i c, ==_iff i a) in
              let (j, r, q) = inv.sound b c (ground (arith, now i c)) in
              (j, subst (λ (x : ℕ). Reach es x j) (sym at_caller) (call a b j w arc r), q)
        ];
        keeps = λ i c p. ground (arith, now i c, inv.keeps i c p, ==_iff i a);
        fresh = λ i c e p. ground (arith, now i c, inv.fresh i c e, ==_iff i a);
      }

  Inv-sweep :
      (fs : List Arc) (s t : FunctionMap × Bool)
      → ((e : Arc) → In e fs → In e es)
      → sweep fs s ≡ some t
      → Inv s.0
      → Inv t.0
  unfolding sweep
  Inv-sweep [] s t sub h inv = let same : s ≡ t = cc in rw (← same) inv
  Inv-sweep ((a, b, w) ∷ fs) s t sub h inv = elim (Option-cases (visit (a, b, w) s)) [
    | inl p ↦ cc p
    | inr (u, p) ↦
        Inv-sweep fs u t (λ e q. sub e (inr q)) (ground arith)
          (Inv-visit a b w s u (sub (a, b, w) (inl refl)) p inv)
  ]

-- Nothing is left to take over along the edges.
abbrev pub IsClosed : List Arc → FunctionMap → Type 0
IsClosed es m =
    (a b : ℕ) (w : Option Location) (c : Capability) → In (a, b, w) es → Has m b c → Has m a c

pub visit_quiet :
    (a b : ℕ) (w : Option Location) (s t : FunctionMap × Bool)
    → visit (a, b, w) s ≡ some t
    → t.1 ≡ false
    → (t ≡ s) × ((c : Capability) → Has s.0 b c → Has s.0 a c)
visit_quiet a b w (m, changed) t h quiet =
    let (caller, callee, ha, hb, e) = visit-inv a b w m changed t h in
    let (same, down, closed) =
      visited_quiet a b caller callee m changed ha hb
        (ground (arith, ap (λ (x : FunctionMap × Bool). x.1) e)) in
    (ground arith, closed)

pub sweep_quiet :
    (es : List Arc) (s t : FunctionMap × Bool)
    → sweep es s ≡ some t
    → t.1 ≡ false
    → (t ≡ s) × IsClosed es s.0
unfolding sweep
sweep_quiet [] s t h quiet = (cc, λ a b w c q p. absurd q)
sweep_quiet ((a, b, w) ∷ es) s t h quiet = elim (Option-cases (visit (a, b, w) s)) [
  | inl p ↦ cc p
  | inr (u, p) ↦
      let (same, closed) = sweep_quiet es u t (ground arith) quiet in
      let (same', here_closed) = visit_quiet a b w s u p (ground arith) in
      (
        cc,
        λ x y z c q has. elim q [
          | inl e ↦
              let at_caller : x ≡ a = ap (λ (r : Arc). r.0) e in
              let at_callee : y ≡ b = ap (λ (r : Arc). r.1) e in
              subst (λ (n : ℕ). Has s.0 n c) (sym at_caller)
                (here_closed c (subst (λ (n : ℕ). Has s.0 n c) at_callee has))
          | inr q' ↦ subst (λ (v : FunctionMap × Bool). IsClosed es v.0) same' closed x y z c q' has
        ],
      )
]

bubble_loop_lem :
    (es : List Arc) (m₀ m : FunctionMap) (fuel : ℕ) (m' : FunctionMap)
    → bubble_loop es fuel m ≡ Bubbled.done m'
    → Inv es m₀ m
    → Inv es m₀ m' × IsClosed es m' × Keeps m m'
unfolding bubble_loop
bubble_loop_lem es m₀ m zero m' h inv = ground arith
bubble_loop_lem es m₀ m (suc fuel) m' h inv = elim (Option-cases (sweep es (m, false))) [
  | inl p ↦ ground arith
  | inr (s, p) ↦
      let now = Inv-sweep es m₀ es (m, false) s (λ e q. q) p inv in
      let kept = sweep-Keeps es (m, false) s p in
      elim (Bool-cases s.1) [
        | inl again ↦
            let (inv', closed, kept') = bubble_loop_lem es m₀ s.0 fuel m' (ground arith) now in
            (inv', closed, Keeps-trans m s.0 m' kept kept')
        | inr stop ↦
            let (same, closed) = sweep_quiet es (m, false) s p stop in
            let last : s.0 ≡ m' = ground arith in
            (
              subst (Inv es m₀) last now,
              subst (λ (v : FunctionMap). IsClosed es v)
                  (ground (arith, ap (λ (v : FunctionMap × Bool). v.0) same)) closed,
              subst (Keeps m) last kept,
            )
      ]
]

closed_reach :
    (es : List Arc) (m : FunctionMap)
    → IsClosed es m
    → (c : Capability) (i j : ℕ) → Reach es i j
    → Has m j c
    → Has m i c
closed_reach es m closed c i j (here _) h = h
closed_reach es m closed c i k (call _ j _ w arc r) h =
    closed i j w c arc (closed_reach es m closed c j k r h)

-- What the loop computes: a function ends with exactly the capabilities of the functions that it
-- reaches by calls, those that it had keep their types, and the new ones are transitive.
pub record IsBubbled (es : List Arc) (m m' : FunctionMap) : Type 0 where
  pub exact : (i : ℕ) (c : Capability) → Has m' i c ↔ ((j : ℕ) × Reach es i j × Has m j c)
  pub keeps : (i : ℕ) (c : Capability) → Has m i c → type_at m' i c ≡ type_at m i c
  pub fresh :
      (i : ℕ) (c : Capability)
      → type_at m i c ≡ none
      → Has m' i c
      → type_at m' i c ≡ some CapabilityType.transitive
  pub others : Keeps m m'

Has-kept :
    (m m' : FunctionMap) (i : ℕ) (c : Capability)
    → type_at m' i c ≡ type_at m i c
    → Has m i c
    → Has m' i c
Has-kept m m' i c e h = ground arith

pub bubble-IsBubbled :
    (es : List Arc) (m m' : FunctionMap) → bubble es m ≡ Bubbled.done m' → IsBubbled es m m'
unfolding bubble
bubble-IsBubbled es m m' h =
    let (inv, closed, kept) = bubble_loop_lem es m m (rounds m) m' h (Inv-start es m) in
    record {
      exact = λ i c. (
        inv.sound i c,
        λ (j, r, q). closed_reach es m' closed c i j r (Has-kept m m' j c (inv.keeps j c q) q),
      );
      keeps = inv.keeps;
      fresh = inv.fresh;
      others = kept;
    }

-- With every edge between two functions of the map, the loop ends, and then a function has exactly the
-- capabilities that it or a function which it reaches by calls had; types that were there stay, new
-- ones are transitive, and nothing but capabilities changes.
pub bubble_correct :
    (es : List Arc) (m : FunctionMap)
    → All (IsWithin (length m.functions)) es
    → (m' : FunctionMap) × (bubble es m ≡ Bubbled.done m') × IsBubbled es m m'
bubble_correct es m w = let (m', e) = bubble_ends es m w in (m', e, bubble-IsBubbled es m m' e)
