-- ===== src/Static/Table.antt =====
-- src/static/bitcode.rs: the functions of the builder, against the functions that the modules list.
use cargo_capslock.Prelude.{
  ℕ, ◌≡◌, inl, inr, none, List, [], ◌∷◌, ◌++◌, append_assoc, append-nil, Text, text_ord, Result,
  Result-cases, and_then-eq-ok, subst, ap, sym, ◌∙◌,
}
use cargo_capslock.Capslock.Report.{Function}
use cargo_capslock.Functions.Map.{FunctionMap, empty, upsert}
use cargo_capslock.Functions.Map.Filled.{IsFilled, upsert-IsFilled, empty-IsFilled}
use cargo_capslock.Functions.Build.{
  Symbolic, FunctionCaps, ToFunction, upsert_with_caps, to_function_with_fn_caps,
}
use cargo_capslock.Static.Bitcode.{Module, upsert_functions, upsert_function_map}
use cargo_capslock.Static.Bitcode.Modules.{
  upsert_functions_step, upsert_functions_stop, upsert_function_map-inv,
}

-- The functions that a module lists: those that it defines, and those that it declares.
abbrev pub listed_in : Module → List ToFunction
listed_in module_ = module_.functions ++ module_.func_declarations

abbrev pub mangled : ToFunction → Text
mangled t = t.mangled_name

module _ (symbolic : Symbolic) (fc : FunctionCaps) where
  -- The function is built from the mapping.
  abbrev pub Builds : ToFunction → Function → Type 0
  Builds t f = to_function_with_fn_caps symbolic fc t ≡ Result.ok f

  -- The map holds what the functions give, one for each name.
  abbrev pub IsBuilt : List ToFunction → FunctionMap → Type 0
  IsBuilt = IsFilled mangled Builds

  upsert_with_caps-IsBuilt :
      (t : ToFunction) (done : List ToFunction) (m m₁ : FunctionMap) (i : ℕ)
      → upsert_with_caps symbolic fc t m ≡ Result.ok (m₁, i)
      → IsBuilt done m
      → IsBuilt (done ++ t ∷ []) m₁
  unfolding upsert_with_caps
  upsert_with_caps-IsBuilt t done m m₁ i h b =
      let (f, e, pushed) = and_then-eq-ok (to_function_with_fn_caps symbolic fc t) _ h in
      let to : upsert t.mangled_name f m ≡ (m₁, i) = cc in
      subst (λ (r : FunctionMap × ℕ). IsBuilt (done ++ t ∷ []) r.0) to
        (upsert-IsFilled mangled Builds done m t f e b)

  upsert_functions-IsBuilt :
      (ts done : List ToFunction) (m m' : FunctionMap)
      → upsert_functions symbolic fc ts m ≡ (m', none)
      → IsBuilt done m
      → IsBuilt (done ++ ts) m'
  upsert_functions-IsBuilt [] done m m' h b =
      let same : m ≡ m' = unfold upsert_functions in ap (λ r. r.0) h in
      rw (append-nil done, ← same) b
  upsert_functions-IsBuilt (t ∷ ts) done m m' h b =
      elim (Result-cases (upsert_with_caps symbolic fc t m)) [
        | inr (x, e) ↦ cc (upsert_functions_stop symbolic fc t ts m x e)
        | inl ((m₁, i), e) ↦
            subst (λ (us : List ToFunction). IsBuilt us m') (append_assoc done (t ∷ []) ts)
              (upsert_functions-IsBuilt ts (done ++ t ∷ []) m₁ m'
                (sym (upsert_functions_step symbolic fc t ts m m₁ i e) ∙ h)
                (upsert_with_caps-IsBuilt t done m m₁ i e b))
      ]

  pub upsert_function_map-IsBuilt :
      (module_ : Module) (done : List ToFunction) (m m' : FunctionMap)
      → upsert_function_map symbolic fc module_ m ≡ (m', none)
      → IsBuilt done m
      → IsBuilt (done ++ listed_in module_) m'
  upsert_function_map-IsBuilt module_ done m m' h b =
      let (m₁, funs, decls) = upsert_function_map-inv symbolic fc module_ m m' h in
      subst (λ (us : List ToFunction). IsBuilt us m')
        (append_assoc done module_.functions module_.func_declarations)
        (upsert_functions-IsBuilt module_.func_declarations (done ++ module_.functions) m₁ m' decls
          (upsert_functions-IsBuilt module_.functions done m m₁ funs b))

  pub empty-IsBuilt : IsBuilt [] empty
  empty-IsBuilt = empty-IsFilled mangled Builds
