-- ===== src/Graph/Order.antt =====
-- src/graph.rs: the result does not depend on the order of the edges, and is a fixed point.
use cargo_capslock.Prelude.{
  ℕ, zero, suc, ◌≡◌, refl, inl, inr, sym, ◌∙◌, Bool, false, some, List, arith, Option-cases,
  Bool-cases, In, subst, ap,
}
use cargo_capslock.Capslock.Caps.{Capability}
use cargo_capslock.Functions.Map.{FunctionMap}
use cargo_capslock.Graph.{Arc, sweep, bubble_loop, bubble, rounds, Bubbled}
use cargo_capslock.Graph.Visit.{type_at}
use cargo_capslock.Graph.Ends.{bubble_loop_stops}
use cargo_capslock.Graph.Reach.{Reach, here, call, Has, IsBubbled, bubble-IsBubbled, sweep_quiet}

Reach-subset :
    (es fs : List Arc) → ((e : Arc) → In e es → In e fs) → (i j : ℕ) → Reach es i j → Reach fs i j
Reach-subset es fs sub i j (here _) = here i
Reach-subset es fs sub i k (call _ j _ w arc r) =
    call i j k w (sub (i, j, w) arc) (Reach-subset es fs sub j k r)

Has-both :
    (es fs : List Arc) (m m₁ m₂ : FunctionMap)
    → ((e : Arc) → In e es → In e fs)
    → IsBubbled es m m₁
    → IsBubbled fs m m₂
    → (i : ℕ) (c : Capability) → Has m₁ i c
    → Has m₂ i c
Has-both es fs m m₁ m₂ sub b₁ b₂ i c h =
    let (j, r, q) = (b₁.exact i c).0 h in (b₂.exact i c).1 (j, Reach-subset es fs sub i j r, q)

types_agree :
    (es fs : List Arc) (m m₁ m₂ : FunctionMap)
    → ((e : Arc) → In e es → In e fs)
    → ((e : Arc) → In e fs → In e es)
    → IsBubbled es m m₁
    → IsBubbled fs m m₂
    → (i : ℕ) (c : Capability) → type_at m₁ i c ≡ type_at m₂ i c
types_agree es fs m m₁ m₂ sub sup b₁ b₂ i c = elim (Option-cases (type_at m i c)) [
  | inl lacks ↦ ground (
    arith,
    b₁.fresh i c lacks,
    b₂.fresh i c lacks,
    Has-both es fs m m₁ m₂ sub b₁ b₂ i c,
    Has-both fs es m m₂ m₁ sup b₂ b₁ i c,
  )
  | inr (t, has) ↦ ground (arith, b₁.keeps i c, b₂.keeps i c)
]

-- Two lists of the same edges, in any order and with any repetition, give every function the same
-- capabilities under the same types.
pub bubble_order :
    (es fs : List Arc) (m m₁ m₂ : FunctionMap)
    → ((e : Arc) → In e es → In e fs)
    → ((e : Arc) → In e fs → In e es)
    → bubble es m ≡ Bubbled.done m₁
    → bubble fs m ≡ Bubbled.done m₂
    → (i : ℕ) (c : Capability) → type_at m₁ i c ≡ type_at m₂ i c
bubble_order es fs m m₁ m₂ sub sup h k =
    types_agree es fs m m₁ m₂ sub sup (bubble-IsBubbled es m m₁ h) (bubble-IsBubbled fs m m₂ k)

bubble_loop_last :
    (es : List Arc) (fuel : ℕ) (m m' : FunctionMap)
    → bubble_loop es fuel m ≡ Bubbled.done m'
    → sweep es (m', false) ≡ some (m', false)
unfolding bubble_loop
bubble_loop_last es zero m m' h = ground arith
bubble_loop_last es (suc fuel) m m' h = elim (Option-cases (sweep es (m, false))) [
  | inl p ↦ ground arith
  | inr (s, p) ↦ elim (Bool-cases s.1) [
    | inl again ↦ bubble_loop_last es fuel s.0 m' (ground arith)
    | inr stop ↦
        let same = (sweep_quiet es (m, false) s p stop).0 in
        let last : s.0 ≡ m' = ground arith in
        let start : m ≡ m' = sym (ap (λ (v : FunctionMap × Bool). v.0) same) ∙ last in
        subst (λ (v : FunctionMap). sweep es (v, false) ≡ some (v, false)) start (p ∙ ap some same)
  ]
]

-- Running the loop on its own result changes nothing.
pub bubble_idempotent :
    (es : List Arc) (m m' : FunctionMap)
    → bubble es m ≡ Bubbled.done m'
    → bubble es m' ≡ Bubbled.done m'
unfolding bubble
bubble_idempotent es m m' h =
    bubble_loop_stops es _ m' (m', false) (bubble_loop_last es (rounds m) m m' h) refl
