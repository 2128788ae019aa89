-- ===== src/Static/Command/Outcome.antt =====
-- src/static/mod.rs: how the static command ends.
use cargo_capslock.Prelude.{
  ◌≡◌, refl, subst, ◌⊎◌, inl, inr, List, [], map, Text, Result, Result-cases,
}
use cargo_capslock.Capslock.Report.{Report}
use cargo_capslock.Functions.Build.{Symbolic, FunctionCaps}
use cargo_capslock.Graph.CallGraph.{DiGraphMap}
use cargo_capslock.Static.Bitcode.{Module, AddError}
use cargo_capslock.Static.Run.{Analysed, analyse}
use cargo_capslock.Static.Added.{AddsAll}
use cargo_capslock.Static.Meaning.{IsReport}
use cargo_capslock.Static.Means.{all_functions, all_calls, Means}
use cargo_capslock.Static.Correct.{analyse_correct}
use cargo_capslock.Static.Command.{
  Static, Escargot, System, deps_dir, loaded, written, printed, prepared, main,
}
use cargo_capslock.Static.Command.Walk.{Walked, loaded-Walked}
use cargo_capslock.Static.Command.Steps.{Steps, prepared-Steps}

module _ (escargot : Escargot) (symbolic : Symbolic) (self : Static) (sys : System) where
  -- The steps before the walk succeed with the mapping and the target directory, and the walk over its
  -- dependencies loads the list.
  abbrev pub Loads : FunctionCaps → Text → List (Result Text Module) → Type 0
  Loads fc target loads =
      Steps escargot self sys (Result.ok (fc, target))
      × Walked sys (sys.walk (deps_dir self target)) loads

  -- What the end of the command says of the steps.
  abbrev pub MainMeans : Analysed → Type 0
  MainMeans (Analysed.report r) =
      (fc : FunctionCaps) × (target : Text) × (modules : List Module) × Loads fc target
        (map Result.ok modules)
      × AddsAll symbolic [] modules
      × IsReport symbolic fc (all_functions modules) (all_calls modules) r
      × (sys.write r ≡ Result.ok tt)
  MainMeans (Analysed.failed e) =
      ((x : Text) × Steps escargot self sys (Result.err x) × (e ≡ AddError.load x))
      ⊎ ((fc : FunctionCaps) × (target : Text) × (loads : List (Result Text Module)) × Loads fc
            target loads
          × (Means symbolic fc [] [] loads (Analysed.failed e)
              ⊎ ((r : Report) × (x : Text) × Means symbolic fc [] [] loads (Analysed.report r)
                  × (sys.write r ≡ Result.err x)
                  × (e ≡ AddError.load x))))
  MainMeans Analysed.panicked =
      (fc : FunctionCaps) × (target : Text) × (loads : List (Result Text Module)) × Loads fc target
        loads
      × Means symbolic fc [] [] loads Analysed.panicked

  printed-MainMeans :
      (fc : FunctionCaps) (target : Text) (loads : List (Result Text Module)) (end : Analysed)
      → Loads fc target loads
      → Means symbolic fc [] [] loads end
      → MainMeans (printed sys end)
  printed-MainMeans fc target loads (Analysed.report r) (steps, walked) means =
      let (modules, read, all, is) = means in by_write modules read all is (sys.write r) refl
    where
      by_write :
          (modules : List Module)
          → loads ≡ map Result.ok modules
          → AddsAll symbolic [] modules
          → IsReport symbolic fc (all_functions modules) (all_calls modules) r
          → (w : Result Text Unit) → sys.write r ≡ w
          → MainMeans (written r w)
      by_write modules read all is (Result.ok tt) h =
          let all_read = subst (Walked sys (sys.walk (deps_dir self target))) read walked in
          (fc, target, modules, (steps, all_read), all, is, h)
      by_write modules read all is (Result.err x) h =
          inr (fc, target, loads, (steps, walked), inr (r, x, (modules, read, all, is), h, refl))
  printed-MainMeans fc target loads (Analysed.failed x) got h = inr (fc, target, loads, got, inl h)
  printed-MainMeans fc target loads Analysed.panicked got h = (fc, target, loads, got, h)

module _ (escargot : Escargot) (petgraph : DiGraphMap) (symbolic : Symbolic) (self : Static)
    (sys : System) where
  main_unprepared :
      (x : Text)
      → prepared escargot petgraph symbolic self sys ≡ Result.err x
      → main escargot petgraph symbolic self sys ≡ Analysed.failed (AddError.load x)
  unfolding main
  main_unprepared x e = rw (e, main) refl

  main-prepared :
      (fc : FunctionCaps) (target : Text)
      → prepared escargot petgraph symbolic self sys ≡ Result.ok (fc, target)
      → main escargot petgraph symbolic self sys
        ≡ printed sys (analyse petgraph symbolic fc (loaded sys (sys.walk (deps_dir self target))))
  unfolding main
  main-prepared fc target e = rw (e, main) refl

  -- What the command ends with. It prints a report only after every step has succeeded: the mapping was
  -- read, and cargo has built the project, in the given path or else the current directory, with no message
  -- that is an error. Then every entry of the walk was readable, the modules are those that loading gave for
  -- the files of the walk whose names end in `.bc` and are more than that, in its order, the names of each can
  -- be parsed and its calls are between functions listed so far, and the report is that of all their functions
  -- and calls. Otherwise the error is that of the first step before the walk that failed, or that of the first
  -- entry or module that is not added: it could not be read or loaded, or it has a name that cannot be parsed;
  -- or the report could not be written. A panic is that of the first module that is not added, which has a
  -- call with a name that no function listed so far has.
  pub main_correct : MainMeans escargot symbolic self sys (main escargot petgraph symbolic self sys)
  main_correct =
      let steps = prepared-Steps escargot self sys petgraph symbolic in
      elim (Result-cases (prepared escargot petgraph symbolic self sys)) [
        | inr (x, e) ↦
            rw (main_unprepared x e) (inl (x, subst (Steps escargot self sys) e steps, refl))
        | inl ((fc, target), e) ↦
            let loads = loaded sys (sys.walk (deps_dir self target)) in
            rw (main-prepared fc target e) (
              printed-MainMeans escargot symbolic self sys fc target loads
                (analyse petgraph symbolic fc loads)
                (
                  subst (Steps escargot self sys) e steps,
                  loaded-Walked sys (sys.walk (deps_dir self target)),
                )
                (analyse_correct petgraph symbolic fc loads))
      ]
