-- ===== src/Static/Run.antt =====
-- src/static/mod.rs: the loop over the bitcode files, and the report at its end.
use cargo_capslock.Prelude.{Option, none, some, List, [], ◌∷◌, Text, Result}
use cargo_capslock.Capslock.Report.{Report}
use cargo_capslock.Functions.Map.Upsert.{empty-IsValid}
use cargo_capslock.Functions.Build.{Symbolic, FunctionCaps}
use cargo_capslock.Graph.CallGraph.{DiGraphMap}
use cargo_capslock.Static.Bitcode.{
  Module, AddError, Added, Bitcode, new_bitcode, add_module, into_report,
}
use cargo_capslock.Static.Bitcode.Calls.{IsWellFormed}

-- How the command ends: with a report, with the error of a module, or in a panic; a loop over the call
-- graph that would not end counts as a panic.
pub data Analysed : Type 0 where
  report : Report → Analysed
  failed : AddError → Analysed
  panicked : Analysed

abbrev reported : Option Report → Analysed
reported none = Analysed.panicked
reported (some r) = Analysed.report r

module _ (petgraph : DiGraphMap) (symbolic : Symbolic) (fc : FunctionCaps) where
  -- The loop over the modules, of what loading each gave, up to the first that cannot be added.
  unfoldable pub analyse_from : List (Result Text Module) → Bitcode petgraph → Analysed
  analyse_from [] b = reported (into_report petgraph b)
  analyse_from (loaded ∷ rest) b =
      let (b', added) = add_module petgraph symbolic fc loaded b in
      let later = analyse_from rest b' in
      elim added [
        | Added.ok ↦ later
        | Added.panicked ↦ Analysed.panicked
        | Added.err e ↦ Analysed.failed e
      ]

  -- The command, once the bitcode files are loaded.
  unfoldable pub analyse : List (Result Text Module) → Analysed
  analyse loaded = analyse_from loaded (new_bitcode petgraph [])

  pub new-IsWellFormed : (path : Text) → IsWellFormed petgraph (new_bitcode petgraph path)
  unfolding new_bitcode
  new-IsWellFormed path = record { valid = empty-IsValid; within = rw petgraph.all_edges-new tt }
