-- ===== src/Static/Reported.antt =====
-- src/static/mod.rs: when the command has a report.
use cargo_capslock.Prelude.{
  ◌≡◌, refl, inl, inr, List, [], ◌∷◌, ◌++◌, map, Result, In, In-append_left, In-append_right, All,
  All-In, ap, subst, sym, ◌∙◌, Text,
}
use cargo_capslock.Capslock.Report.{Report}
use cargo_capslock.Functions.Build.{Symbolic, FunctionCaps, ToFunction}
use cargo_capslock.Graph.CallGraph.{DiGraphMap}
use cargo_capslock.Static.Bitcode.{Module, Call, AddError}
use cargo_capslock.Static.Bitcode.Panics.{Names, IsSelfContained}
use cargo_capslock.Static.Run.{Analysed, analyse}
use cargo_capslock.Static.Table.{listed_in}
use cargo_capslock.Static.Meaning.{IsReport}
use cargo_capslock.Static.Added.{IsParsable, HasName}
use cargo_capslock.Static.Refused.{Refuses}
use cargo_capslock.Static.Means.{all_functions, all_calls, Stuck, Means}
use cargo_capslock.Static.Correct.{analyse_correct}

abbrev as_loaded : List Module → List (Result Text Module)
as_loaded ms = map Result.ok ms

abbrev module_or : Module → Result Text Module → Module
module_or m (Result.ok n) = n
module_or m (Result.err _) = m

as_loaded-injective : (ms ms' : List Module) → as_loaded ms ≡ as_loaded ms' → ms ≡ ms'
as_loaded-injective [] [] h = refl
as_loaded-injective [] (m' ∷ ms') h = cc
as_loaded-injective (m ∷ ms) [] h = cc
as_loaded-injective (m ∷ ms) (m' ∷ ms') h =
    let same : m ≡ m' = cc in
    let rest : as_loaded ms ≡ as_loaded ms' = cc in
    ap (λ (x : Module). x ∷ ms) same
    ∙ ap (λ (xs : List Module). m' ∷ xs) (as_loaded-injective ms ms' rest)

-- What is as_loaded is one of the modules.
In-as_loaded :
    (ms : List Module) (l : Result Text Module)
    → In l (as_loaded ms)
    → (m : Module) × (l ≡ Result.ok m) × In m ms
In-as_loaded [] l q = absurd q
In-as_loaded (m ∷ ms) l (inl e) = (m, e, inl refl)
In-as_loaded (m ∷ ms) l (inr q) = let (x, e, p) = In-as_loaded ms l q in (x, e, inr p)

In-all_functions :
    (ms : List Module) (m : Module) (t : ToFunction)
    → In m ms
    → In t (listed_in m)
    → In t (all_functions ms)
In-all_functions [] m t q p = absurd q
In-all_functions (x ∷ ms) m t (inl e) p =
    In-append_left t (listed_in x) (all_functions ms)
      (subst (λ (y : Module). In t (listed_in y)) e p)
In-all_functions (x ∷ ms) m t (inr q) p =
    In-append_right t (listed_in x) (all_functions ms) (In-all_functions ms m t q p)

listed-HasName :
    (funs : List ToFunction) (module_ : Module) (k : Text)
    → Names module_ k
    → HasName (funs ++ listed_in module_) k
listed-HasName funs module_ k (inl (t, q, e)) = (
  t,
  In-append_right t funs (listed_in module_)
      (In-append_left t module_.functions module_.func_declarations q),
  e,
)
listed-HasName funs module_ k (inr (t, q, e)) = (
  t,
  In-append_right t funs (listed_in module_)
      (In-append_right t module_.functions module_.func_declarations q),
  e,
)

-- A module whose calls are between functions that it lists has all names of its calls.
not-Stuck :
    (symbolic : Symbolic) (funs : List ToFunction) (module_ : Module)
    → IsSelfContained module_
    → ¬ Stuck symbolic funs module_
not-Stuck symbolic funs module_ closed (_, (call, q, unknown)) =
    let (p, p') =
      All-In (λ ((caller, callee, _) : Call). Names module_ caller × Names module_ callee)
        module_.calls closed call q in
    unknown (listed-HasName funs module_ call.0 p, listed-HasName funs module_ call.1 p')

module _ (symbolic : Symbolic) (fc : FunctionCaps) (modules : List Module) where
  -- Nothing is refused where all names can be parsed.
  not_refused :
      (l : Result Text Module) (m : Module) (e : AddError)
      → l ≡ Result.ok m
      → In m modules
      → All (IsParsable symbolic) (all_functions modules)
      → ¬ Refuses symbolic l e
  not_refused (Result.err x) m e h q parsable why = cc
  not_refused (Result.ok n) m e h q parsable (t, x, p, unparsed, _) =
      let same : n ≡ m = ap (module_or m) h in
      let (name, parsed) =
        All-In (IsParsable symbolic) (all_functions modules) parsable t
          (In-all_functions modules n t (rw same q) p) in
      cc

  reported :
      (end : Analysed)
      → Means symbolic fc [] [] (as_loaded modules) end
      → All IsSelfContained modules
      → All (IsParsable symbolic) (all_functions modules)
      → (r : Report) × (end ≡ Analysed.report r)
        × IsReport symbolic fc (all_functions modules) (all_calls modules) r
  reported (Analysed.report r) (ms, e, _, is) closed parsable =
      (r, refl, rw (as_loaded-injective modules ms e) is)
  reported (Analysed.failed e) (ms, l, rest, h, _, why) closed parsable =
      let at_l : In l (as_loaded ms ++ l ∷ rest) =
        In-append_right l (as_loaded ms) (l ∷ rest) (inl refl) in
      let (m, same, q) =
        In-as_loaded modules l (subst (λ (ls : List (Result Text Module)). In l ls) (sym h) at_l) in
      absurd (not_refused l m e same q parsable why)
  reported Analysed.panicked (ms, m, rest, h, _, stuck) closed parsable =
      let at_m : In (Result.ok m) (as_loaded ms ++ Result.ok m ∷ rest) =
        In-append_right (Result.ok m) (as_loaded ms) (Result.ok m ∷ rest) (inl refl) in
      let (n, same, p) =
        In-as_loaded modules (Result.ok m)
          (subst (λ (ls : List (Result Text Module)). In (Result.ok m) ls) (sym h) at_m) in
      absurd (
        not-Stuck symbolic (all_functions ms) m
          (rw (ap (module_or m) same) (All-In IsSelfContained modules closed n p)) stuck)

  -- If every file is a module whose calls are between functions that it defines or declares, and all
  -- names can be parsed, then the command ends with a report, of all functions and calls of the modules.
  pub analyse_reports :
      (petgraph : DiGraphMap)
      → All IsSelfContained modules
      → All (IsParsable symbolic) (all_functions modules)
      → (r : Report) × (analyse petgraph symbolic fc (as_loaded modules) ≡ Analysed.report r)
        × IsReport symbolic fc (all_functions modules) (all_calls modules) r
  analyse_reports petgraph =
      reported (analyse petgraph symbolic fc (as_loaded modules))
        (analyse_correct petgraph symbolic fc (as_loaded modules))

module _ (symbolic : Symbolic) (fc : FunctionCaps) (petgraph : DiGraphMap) where
  -- What is loaded is a module whose calls are between functions that it defines or declares.
  abbrev pub IsClosed : Result Text Module → Type 0
  IsClosed (Result.ok module_) = IsSelfContained module_
  IsClosed (Result.err _) = Unit

  -- The command ends in a report, or with the error of a module.
  abbrev pub Ends : Analysed → Type 0
  Ends (Analysed.report _) = Unit
  Ends (Analysed.failed _) = Unit
  Ends Analysed.panicked = ⊥

  Means-Ends :
      (ls : List (Result Text Module)) (end : Analysed)
      → Means symbolic fc [] [] ls end
      → All IsClosed ls
      → Ends end
  Means-Ends ls (Analysed.report _) h closed = tt
  Means-Ends ls (Analysed.failed _) h closed = tt
  Means-Ends ls Analysed.panicked (ms, m, rest, h, _, stuck) closed =
      let at_m = In-append_right (Result.ok m) (as_loaded ms) (Result.ok m ∷ rest) (inl refl) in
      let is_closed = subst (λ (xs : List (Result Text Module)). All IsClosed xs) h closed in
      not-Stuck symbolic (all_functions ms) m
        (All-In IsClosed (as_loaded ms ++ Result.ok m ∷ rest) is_closed (Result.ok m) at_m) stuck

  -- If every module that is loaded has calls only between functions that it defines or declares, the
  -- command ends without a panic.
  pub analyse-Ends :
      (ls : List (Result Text Module)) → All IsClosed ls → Ends (analyse petgraph symbolic fc ls)
  analyse-Ends ls =
      Means-Ends ls (analyse petgraph symbolic fc ls) (analyse_correct petgraph symbolic fc ls)
