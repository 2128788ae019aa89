-- ===== src/Graph/Ends.antt =====
-- src/graph.rs: the `while` loop ends, and does not panic if every edge is between known functions.
use cargo_capslock.Prelude.{
  ℕ, zero, suc, ◌+◌, ◌*◌, ◌≤◌, ◌<◌, ◌≡◌, refl, ◌⊎◌, inl, inr, Bool, true, false, some, List, [],
  ◌∷◌, arith, length, get_elem?, set, ◌∙◌, All, All-map, Option-cases, Bool-cases,
}
use cargo_capslock.Collections.OrdSet
use cargo_capslock.Capslock.Caps.{Capability, capability_ord, variants}
use cargo_capslock.Capslock.Caps.Types.{CapabilityType}
use cargo_capslock.Capslock.Report.{Function}
use cargo_capslock.Functions.Map.{FunctionMap, get, set_function}
use cargo_capslock.Graph.{Arc, take_over, visit, sweep, bubble_loop, bubble, rounds, Bubbled}
use cargo_capslock.Graph.Missing.{
  missing, missing-le-length, missing-insert_missing-le, missing-insert_missing-lt,
}
use cargo_capslock.Graph.Visit.{
  visit-inv, visit_total, visited, callee_caps, taken, Keeps, Keeps-refl, Keeps-trans,
  visited-Keeps,
}

contains-variants : (c : Capability) → OrdSet.contains c variants ≡ true
contains-variants Capability.unspecified = refl
contains-variants _ = refl

-- How many capabilities a function lacks, and all functions together.
lacks : Function → ℕ
lacks f = missing variants f.capabilities

lacking : List Function → ℕ
lacking [] = 0
lacking (f ∷ fs) = lacks f + lacking fs

lacks-le : (f : Function) → lacks f ≤ length variants
unfolding lacks
lacks-le f = missing-le-length variants f.capabilities

lacking-le : (fs : List Function) → lacking fs ≤ length variants * length fs
unfolding lacking
lacking-le [] = omega arith
lacking-le (f ∷ fs) = omega (arith, lacks-le f, lacking-le fs)

lacking-set :
    (fs : List Function) (i : ℕ) (f g : Function)
    → get_elem? fs i ≡ some f
    → lacking (set fs i g) + lacks f ≡ lacking fs + lacks g
unfolding lacking
lacking-set [] i f g h = cc
lacking-set (e ∷ fs) zero f g h = let same : e ≡ f = cc in rw same (omega arith)
lacking-set (e ∷ fs) (suc i) f g h = omega (arith, lacking-set fs i f g h)

module _ (a : ℕ) (caller callee : Function) (m : FunctionMap) (ha : get a m ≡ some caller) where
  lacks-taken-le : (changed : Bool) → lacks (taken caller callee changed) ≤ lacks caller
  unfolding lacks
  lacks-taken-le changed =
      missing-insert_missing-le CapabilityType.transitive variants (callee_caps callee)
        caller.capabilities changed

  lacks-taken-lt :
      (take_over caller callee false).1 ≡ true → lacks (taken caller callee false) < lacks caller
  unfolding lacks
  lacks-taken-lt h =
      missing-insert_missing-lt CapabilityType.transitive variants (callee_caps callee)
        caller.capabilities contains-variants h

  lacking-visited-le :
      (changed : Bool)
      → lacking (visited a caller callee m changed).0.functions ≤ lacking m.functions
  unfolding get set_function
  lacking-visited-le changed = omega (
    arith,
    lacking-set m.functions a caller (taken caller callee changed) ha,
    lacks-taken-le changed,
  )

  lacking-visited-lt :
      (take_over caller callee false).1 ≡ true
      → lacking (visited a caller callee m false).0.functions < lacking m.functions
  unfolding get set_function
  lacking-visited-lt h =
      omega
        (arith, lacking-set m.functions a caller (taken caller callee false) ha, lacks-taken-lt h)

-- Rounds never make the functions lack more, and one that raises the flag makes them lack fewer.
abbrev Falls : FunctionMap × Bool → FunctionMap × Bool → Type 0
Falls (m, changed) (m', changed') =
    (lacking m'.functions ≤ lacking m.functions)
    × (changed' ≡ true → (changed ≡ true) ⊎ (lacking m'.functions < lacking m.functions))

visited-Falls :
    (a : ℕ) (caller callee : Function) (m : FunctionMap) (changed : Bool)
    → get a m ≡ some caller
    → Falls (m, changed) (visited a caller callee m changed)
visited-Falls a caller callee m true ha =
    (lacking-visited-le a caller callee m ha true, λ _. inl refl)
visited-Falls a caller callee m false ha = (
  lacking-visited-le a caller callee m ha false,
  λ h. inr (lacking-visited-lt a caller callee m ha h),
)

visit-Falls : (e : Arc) (s t : FunctionMap × Bool) → visit e s ≡ some t → Falls s t
visit-Falls (a, b, w) (m, changed) t h =
    let (caller, callee, ha, _, e) = visit-inv a b w m changed t h in
    rw e (visited-Falls a caller callee m changed ha)

sweep-Falls : (es : List Arc) (s t : FunctionMap × Bool) → sweep es s ≡ some t → Falls s t
unfolding sweep
sweep-Falls [] s t h = ground arith
sweep-Falls (e ∷ es) s t h = elim (Option-cases (visit e s)) [
  | inl p ↦ ground arith
  | inr (u, p) ↦ ground (arith, visit-Falls e s u p, sweep-Falls es u t)
]

-- Every edge is between two functions that the map has.
abbrev pub IsWithin : ℕ → Arc → Type 0
IsWithin n (a, b, _) = (a < n) × (b < n)

pub IsWithin-more : (n n' : ℕ) (es : List Arc) → n ≤ n' → All (IsWithin n) es → All (IsWithin n') es
IsWithin-more n n' es le h =
    All-map (IsWithin n) (IsWithin n') es (λ (a, b, w) (p, q). (omega arith, omega arith)) h

visit-Keeps : (e : Arc) (s t : FunctionMap × Bool) → visit e s ≡ some t → Keeps s.0 t.0
visit-Keeps (a, b, w) (m, changed) t h =
    let (caller, callee, ha, hb, e) = visit-inv a b w m changed t h in
    rw e (visited-Keeps a b caller callee m changed ha hb)

pub sweep-Keeps : (es : List Arc) (s t : FunctionMap × Bool) → sweep es s ≡ some t → Keeps s.0 t.0
unfolding sweep
sweep-Keeps [] s t h = let same : s ≡ t = cc in rw (← same) (Keeps-refl s.0)
sweep-Keeps (e ∷ es) s t h = elim (Option-cases (visit e s)) [
  | inl p ↦ cc p
  | inr (u, p) ↦ Keeps-trans s.0 u.0 t.0 (visit-Keeps e s u p) (sweep-Keeps es u t (ground arith))
]

visit_ends :
    (e : Arc) (s : FunctionMap × Bool)
    → IsWithin (length s.0.functions) e
    → (t : FunctionMap × Bool) × (visit e s ≡ some t)
visit_ends (a, b, w) (m, changed) h = visit_total a b w m changed h.0 h.1

sweep_ends :
    (es : List Arc) (s : FunctionMap × Bool) (n : ℕ)
    → length s.0.functions ≡ n
    → All (IsWithin n) es
    → (t : FunctionMap × Bool) × (sweep es s ≡ some t)
unfolding sweep
sweep_ends [] s n e h = (s, refl)
sweep_ends (x ∷ es) s n e h =
    let (u, p) = visit_ends x s (rw e h.0) in
    let (t, q) = sweep_ends es u n ((visit-Keeps x s u p).size ∙ e) h.1 in (t, rw p q)

-- A round of the `while` loop, by the flag that it leaves.
module _ (es : List Arc) (fuel : ℕ) (m : FunctionMap) (s : FunctionMap × Bool)
    (round : sweep es (m, false) ≡ some s) where
  pub bubble_loop_again : s.1 ≡ true → bubble_loop es (suc fuel) m ≡ bubble_loop es fuel s.0
  unfolding bubble_loop
  bubble_loop_again h = ground arith

  pub bubble_loop_stops : s.1 ≡ false → bubble_loop es (suc fuel) m ≡ Bubbled.done s.0
  unfolding bubble_loop
  bubble_loop_stops h = ground arith

bubble_loop_ends :
    (es : List Arc) (fuel : ℕ) (m : FunctionMap)
    → All (IsWithin (length m.functions)) es
    → lacking m.functions < fuel
    → (m' : FunctionMap) × (bubble_loop es fuel m ≡ Bubbled.done m')
bubble_loop_ends es zero m w h = elim h [ ]
bubble_loop_ends es (suc fuel) m w h =
    let (s, round) = sweep_ends es (m, false) (length m.functions) refl w in
    elim (Bool-cases s.1) [
      | inl again ↦
          let falls = sweep-Falls es (m, false) s round in
          let size = (sweep-Keeps es (m, false) s round).size in
          let (m', e) = bubble_loop_ends es fuel s.0 (rw size w) (ground (arith, falls.1 again)) in
          (m', bubble_loop_again es fuel m s round again ∙ e)
      | inr stop ↦ (s.0, bubble_loop_stops es fuel m s round stop)
    ]

-- With every edge between two functions of the map the loop neither panics nor runs for ever: the
-- rounds that the model allows are enough.
pub bubble_ends :
    (es : List Arc) (m : FunctionMap)
    → All (IsWithin (length m.functions)) es
    → (m' : FunctionMap) × (bubble es m ≡ Bubbled.done m')
unfolding bubble
bubble_ends es m w = bubble_loop_ends es (rounds m) m w (omega (arith, lacking-le m.functions))
