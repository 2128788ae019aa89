-- ===== src/Static/Means.antt =====
-- src/static/mod.rs: what an end of the loop over the files says of what was loaded.
use cargo_capslock.Prelude.{
  ◌≡◌, List, [], ◌∷◌, ◌++◌, map, append_assoc, Text, Result, In, All, subst, ap,
}
use cargo_capslock.Functions.Build.{Symbolic, FunctionCaps, ToFunction}
use cargo_capslock.Static.Bitcode.{Module, Call}
use cargo_capslock.Static.Run.{Analysed}
use cargo_capslock.Static.Refused.{Refuses}
use cargo_capslock.Static.Added.{IsParsable, IsBetween, Adds, AddsAll}
use cargo_capslock.Static.Table.{listed_in}
use cargo_capslock.Static.Meaning.{IsReport}

-- All functions that the modules list, and all their calls.
abbrev pub all_functions : List Module → List ToFunction
all_functions [] = []
all_functions (m ∷ ms) = listed_in m ++ all_functions ms

abbrev pub all_calls : List Module → List Call
all_calls [] = []
all_calls (m ∷ ms) = m.calls ++ all_calls ms

-- After the functions given, the names of the module can be parsed, but it has a call to or from a name
-- that none of those functions and of its own has.
abbrev pub Stuck : Symbolic → List ToFunction → Module → Type 0
Stuck symbolic funs module_ =
    All (IsParsable symbolic) (listed_in module_)
    × ((call : Call) × In call module_.calls × (¬ IsBetween (funs ++ listed_in module_) call))

-- What an end of the loop says of what was loaded, after the functions and the calls given.
abbrev pub Means :
    Symbolic
    → FunctionCaps
    → List ToFunction
    → List Call
    → List (Result Text Module)
    → Analysed
    → Type 0
Means symbolic fc funs calls loaded (Analysed.report r) =
    (modules : List Module) × (loaded ≡ map Result.ok modules)
    × AddsAll symbolic funs modules
    × IsReport symbolic fc (funs ++ all_functions modules) (calls ++ all_calls modules) r
Means symbolic fc funs calls loaded (Analysed.failed e) =
    (modules : List Module) × (l : Result Text Module) × (rest : List (Result Text Module))
    × (loaded ≡ map Result.ok modules ++ l ∷ rest)
    × AddsAll symbolic funs modules
    × Refuses symbolic l e
Means symbolic fc funs calls loaded Analysed.panicked =
    (modules : List Module) × (module_ : Module) × (rest : List (Result Text Module)) × (loaded
      ≡ map Result.ok modules ++ Result.ok module_ ∷ rest)
    × AddsAll symbolic funs modules
    × Stuck symbolic (funs ++ all_functions modules) module_

pub Means-cons :
    (symbolic : Symbolic) (fc : FunctionCaps) (funs : List ToFunction) (calls : List Call)
    (module_ : Module) (loaded : List (Result Text Module)) (end : Analysed)
    → Adds symbolic funs module_
    → Means symbolic fc (funs ++ listed_in module_) (calls ++ module_.calls) loaded end
    → Means symbolic fc funs calls (Result.ok module_ ∷ loaded) end
Means-cons symbolic fc funs calls module_ loaded (Analysed.report r) adds (ms, e, all, is) = (
  module_ ∷ ms,
  ap (λ (ls : List (Result Text Module)). Result.ok module_ ∷ ls) e,
  (adds, all),
  rw
      (
        ← append_assoc funs (listed_in module_) (all_functions ms),
        ← append_assoc calls module_.calls (all_calls ms),
      )
      is,
)
Means-cons symbolic fc funs calls module_ loaded (Analysed.failed x) adds
      (ms, l, rest, e, all, why) =
    (
      module_ ∷ ms,
      l,
      rest,
      ap (λ (ls : List (Result Text Module)). Result.ok module_ ∷ ls) e,
      (adds, all),
      why,
    )
Means-cons symbolic fc funs calls module_ loaded Analysed.panicked adds
      (ms, m, rest, e, all, stuck) =
    (
      module_ ∷ ms,
      m,
      rest,
      ap (λ (ls : List (Result Text Module)). Result.ok module_ ∷ ls) e,
      (adds, all),
      subst (λ (fs : List ToFunction). Stuck symbolic fs m)
          (append_assoc funs (listed_in module_) (all_functions ms)) stuck,
    )
