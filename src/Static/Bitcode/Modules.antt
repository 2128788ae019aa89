-- ===== src/Static/Bitcode/Modules.antt =====
-- src/static/bitcode.rs: what adding a module does to the builder.
use cargo_capslock.Prelude.{
  ℕ, ◌≡◌, inl, inr, Option, none, some, List, [], ◌∷◌, arith, Text, Result, and_then-eq-ok,
  Result-cases, subst, sym, ◌∙◌, All, All-map,
}
use cargo_capslock.Functions.Map.{FunctionMap, get_index, upsert}
use cargo_capslock.Functions.Map.Upsert.{
  upsert_lem, Extends, Extends-refl, Extends-trans, upsert-Extends,
}
use cargo_capslock.Functions.Names.{Error}
use cargo_capslock.Functions.Build.{
  Symbolic, FunctionCaps, ToFunction, upsert_with_caps, to_function_with_fn_caps,
}
use cargo_capslock.Static.Bitcode.{Module, upsert_functions, upsert_function_map}

-- The name has an index.
abbrev pub Knows : FunctionMap → Text → Type 0
Knows m k = (i : ℕ) × (get_index k m ≡ some i)

module _ (symbolic : Symbolic) (fc : FunctionCaps) where
  upsert_with_caps-inv :
      (f : ToFunction) (m m' : FunctionMap) (i : ℕ)
      → upsert_with_caps symbolic fc f m ≡ Result.ok (m', i)
      → Extends m m' × (get_index f.mangled_name m' ≡ some i)
  unfolding upsert_with_caps
  upsert_with_caps-inv f m m' i h =
      let (g, _, e) = and_then-eq-ok (to_function_with_fn_caps symbolic fc f) _ h in
      let pair : upsert f.mangled_name g m ≡ (m', i) = cc in
      (
        subst (λ (r : FunctionMap × ℕ). Extends m r.0) pair (upsert-Extends f.mangled_name g m),
        subst (λ (r : FunctionMap × ℕ). get_index f.mangled_name r.0 ≡ some r.1) pair
            (upsert_lem f.mangled_name g m).0,
      )

  -- The steps of the two loops.
  pub upsert_functions_step :
      (f : ToFunction) (fs : List ToFunction) (m m' : FunctionMap) (i : ℕ)
      → upsert_with_caps symbolic fc f m ≡ Result.ok (m', i)
      → upsert_functions symbolic fc (f ∷ fs) m ≡ upsert_functions symbolic fc fs m'
  unfolding upsert_functions
  upsert_functions_step f fs m m' i e = ground arith

  pub upsert_functions_stop :
      (f : ToFunction) (fs : List ToFunction) (m : FunctionMap) (x : Error)
      → upsert_with_caps symbolic fc f m ≡ Result.err x
      → upsert_functions symbolic fc (f ∷ fs) m ≡ (m, some x)
  unfolding upsert_functions
  upsert_functions_stop f fs m x e = ground arith

  upsert_functions-Extends :
      (fs : List ToFunction) (m : FunctionMap) → Extends m (upsert_functions symbolic fc fs m).0
  upsert_functions-Extends [] m = unfold upsert_functions in Extends-refl m
  upsert_functions-Extends (f ∷ fs) m = elim (Result-cases (upsert_with_caps symbolic fc f m)) [
    | inl ((m', i), e) ↦
        rw (upsert_functions_step f fs m m' i e) (
          Extends-trans m m' _ (upsert_with_caps-inv f m m' i e).0 (upsert_functions-Extends fs m'))
    | inr (x, e) ↦ rw (upsert_functions_stop f fs m x e) (Extends-refl m)
  ]

  upsert_functions-Knows :
      (fs : List ToFunction) (m m' : FunctionMap)
      → upsert_functions symbolic fc fs m ≡ (m', none)
      → All (λ f. Knows m' f.mangled_name) fs
  upsert_functions-Knows [] m m' h = tt
  upsert_functions-Knows (f ∷ fs) m m' h = elim (Result-cases (upsert_with_caps symbolic fc f m)) [
    | inl ((m₁, i), e) ↦
        let rest = sym (upsert_functions_step f fs m m₁ i e) ∙ h in
        let later =
          subst (λ (r : FunctionMap × Option Error). Extends m₁ r.0) rest
            (upsert_functions-Extends fs m₁) in
        (
          (i, later.names f.mangled_name i (upsert_with_caps-inv f m m₁ i e).1),
          upsert_functions-Knows fs m₁ m' rest,
        )
    | inr (x, e) ↦ cc (upsert_functions_stop f fs m x e)
  ]

  pub upsert_function_map-inv :
      (module_ : Module) (m m' : FunctionMap)
      → upsert_function_map symbolic fc module_ m ≡ (m', none)
      → (m₁ : FunctionMap) × (upsert_functions symbolic fc module_.functions m ≡ (m₁, none))
        × (upsert_functions symbolic fc module_.func_declarations m₁ ≡ (m', none))
  unfolding upsert_function_map
  upsert_function_map-inv module_ m m' h =
      ((upsert_functions symbolic fc module_.functions m).0, ground arith, ground arith)

  pub upsert_function_map-Extends :
      (module_ : Module) (m : FunctionMap) → Extends m (upsert_function_map symbolic fc module_ m).0
  unfolding upsert_function_map
  upsert_function_map-Extends module_ m =
      after (upsert_functions symbolic fc module_.functions m).1
        (upsert_functions-Extends module_.functions m)
    where
      m₁ : FunctionMap
      m₁ = (upsert_functions symbolic fc module_.functions m).0

      after :
          (e : Option Error)
          → Extends m m₁
          → Extends m
              (elim e as (λ _. FunctionMap × Option Error) [
                | some x ↦ (m₁, some x)
                | none ↦ upsert_functions symbolic fc module_.func_declarations m₁
              ]).0
      after (some x) h = h
      after none h = Extends-trans m m₁ _ h (upsert_functions-Extends module_.func_declarations m₁)

  -- Without an error every function and every declaration of the module has an index.
  pub upsert_function_map-Knows :
      (module_ : Module) (m m' : FunctionMap)
      → upsert_function_map symbolic fc module_ m ≡ (m', none)
      → All (λ f. Knows m' f.mangled_name) module_.functions
        × All (λ f. Knows m' f.mangled_name) module_.func_declarations
  upsert_function_map-Knows module_ m m' h =
      let (m₁, first, second) = upsert_function_map-inv module_ m m' h in
      let later =
        subst (λ (r : FunctionMap × Option Error). Extends m₁ r.0) second
          (upsert_functions-Extends module_.func_declarations m₁) in
      (
        All-map (λ f. Knows m₁ f.mangled_name) (λ f. Knows m' f.mangled_name) module_.functions
            (λ f (i, e). (i, later.names f.mangled_name i e))
            (upsert_functions-Knows module_.functions m m₁ first),
        upsert_functions-Knows module_.func_declarations m₁ m' second,
      )
