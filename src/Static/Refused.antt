-- ===== src/Static/Refused.antt =====
-- src/static/bitcode.rs: why the functions of a module are not added.
use cargo_capslock.Prelude.{
  ◌≡◌, refl, inl, inr, some, List, [], ◌∷◌, arith, Text, Option-cases, Result, Result-cases, In,
  In-append_left, In-append_right, ap, sym, ◌∙◌,
}
use cargo_capslock.Functions.Map.{FunctionMap}
use cargo_capslock.Functions.Build.{
  Symbolic, FunctionCaps, ToFunction, parse_mangled_name, upsert_with_caps,
  to_function_with_fn_caps,
}
use cargo_capslock.Functions.Names.{Error}
use cargo_capslock.Static.Bitcode.{Module, AddError, upsert_functions, upsert_function_map}
use cargo_capslock.Static.Bitcode.Modules.{upsert_functions_step, upsert_functions_stop}
use cargo_capslock.Static.Table.{listed_in}

-- Why what was loaded is not added.
abbrev pub Refuses : Symbolic → Result Text Module → AddError → Type 0
Refuses symbolic (Result.err x) e = e ≡ AddError.load x
Refuses symbolic (Result.ok module_) e =
    (t : ToFunction) × (x : Error) × In t (listed_in module_)
    × (parse_mangled_name symbolic t.mangled_name ≡ Result.err x)
    × (e ≡ AddError.name x)

module _ (symbolic : Symbolic) (fc : FunctionCaps) where
  upsert_with_caps-err :
      (t : ToFunction) (m : FunctionMap) (x : Error)
      → upsert_with_caps symbolic fc t m ≡ Result.err x
      → parse_mangled_name symbolic t.mangled_name ≡ Result.err x
  unfolding upsert_with_caps to_function_with_fn_caps
  upsert_with_caps-err t m x h = elim (Result-cases (parse_mangled_name symbolic t.mangled_name)) [
    | inl (name, e) ↦ ground arith
    | inr (y, e) ↦ ground arith
  ]

  -- The error is that of a name of the list.
  upsert_functions-err :
      (ts : List ToFunction) (m : FunctionMap) (x : Error)
      → (upsert_functions symbolic fc ts m).1 ≡ some x
      → (t : ToFunction) × In t ts × (parse_mangled_name symbolic t.mangled_name ≡ Result.err x)
  upsert_functions-err [] m x h = unfold upsert_functions in cc
  upsert_functions-err (t ∷ ts) m x h = elim (Result-cases (upsert_with_caps symbolic fc t m)) [
    | inl ((m', i), e) ↦
        let (u, q, p) =
          upsert_functions-err ts m' x
            (sym (ap (λ r. r.1) (upsert_functions_step symbolic fc t ts m m' i e)) ∙ h) in
        (u, inr q, p)
    | inr (y, e) ↦
        let stop = ap (λ r. r.1) (upsert_functions_stop symbolic fc t ts m y e) in
        (t, inl refl, upsert_with_caps-err t m x (ground arith))
  ]

  pub upsert_function_map-err :
      (module_ : Module) (m : FunctionMap) (x : Error)
      → (upsert_function_map symbolic fc module_ m).1 ≡ some x
      → (t : ToFunction) × In t (listed_in module_)
        × (parse_mangled_name symbolic t.mangled_name ≡ Result.err x)
  unfolding upsert_function_map
  upsert_function_map-err module_ m x h =
      let m₁ = (upsert_functions symbolic fc module_.functions m).0 in
      elim (Option-cases (upsert_functions symbolic fc module_.functions m).1) [
        | inr (y, e) ↦
            let (t, q, p) = upsert_functions-err module_.functions m x (ground arith) in
            (t, In-append_left t module_.functions module_.func_declarations q, p)
        | inl e ↦
            let (t, q, p) = upsert_functions-err module_.func_declarations m₁ x (ground arith) in
            (t, In-append_right t module_.functions module_.func_declarations q, p)
      ]
