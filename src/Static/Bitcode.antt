-- ===== src/Static/Bitcode.antt =====
-- src/static/bitcode.rs: the report of the functions and calls of a set of LLVM modules.
pub mod Modules
pub mod Calls
pub mod Panics
pub mod Reporting
use cargo_capslock.Prelude.{
  ℕ, Option, none, some, List, [], ◌∷◌, Text, text_ord, Result, and_then, ◌>>=◌,
}
use cargo_capslock.Collections.OrdMap
use cargo_capslock.Collections.OrdSet
use cargo_capslock.Collections.OrdSet.{OrdSet}
use cargo_capslock.Capslock.Caps.{Capability, capability_ord}
use cargo_capslock.Capslock.Report.{Function, Report, Process}
use cargo_capslock.Locations.{DebugLoc, into_option_location}
use cargo_capslock.Functions.Map.{FunctionMap, empty, get_index, into_functions}
use cargo_capslock.Functions.Names.{Error}
use cargo_capslock.Functions.Build.{Symbolic, FunctionCaps, ToFunction, upsert_with_caps}
use cargo_capslock.Graph.{Bubbled}
use cargo_capslock.Graph.CallGraph.{DiGraphMap, bubble_transitive_capabilities, into_edges}

-- An edge of the call graph of `llvm-ir-analysis`: the names of the caller and the callee, and the debug
-- location of the call.
abbrev pub Call : Type 0
Call = Text × Text × Option DebugLoc

-- What is read of an LLVM module, and the edges of the call graph that its analysis gives.
pub record Module : Type 0 where
  pub functions : List ToFunction
  pub func_declarations : List ToFunction
  pub calls : List Call

pub data AddError : Type 0 where
  load : Text → AddError
  name : Error → AddError

-- How `add_module` ends.
pub data Added : Type 0 where
  ok panicked : Added
  err : AddError → Added

abbrev pub collect_from : OrdSet Capability → List Function → OrdSet Capability
collect_from acc [] = acc
collect_from acc (f ∷ fs) = collect_from (OrdSet.extend acc (OrdMap.keys f.capabilities)) fs

-- The loops of `Builder::upsert_function_map`: up to the first name that cannot be parsed.
unfoldable pub upsert_functions :
    Symbolic → FunctionCaps → List ToFunction → FunctionMap → FunctionMap × Option Error
upsert_functions symbolic fc [] m = (m, none)
upsert_functions symbolic fc (f ∷ fs) m = elim (upsert_with_caps symbolic fc f m) [
  | Result.ok (m', _) ↦ upsert_functions symbolic fc fs m'
  | Result.err e ↦ (m, some e)
]

-- `Builder::upsert_function_map`
unfoldable pub upsert_function_map :
    Symbolic → FunctionCaps → Module → FunctionMap → FunctionMap × Option Error
upsert_function_map symbolic fc module_ m =
    let (m', e) = upsert_functions symbolic fc module_.functions m in
    elim e [
      | some x ↦ (m', some x)
      | none ↦ upsert_functions symbolic fc module_.func_declarations m'
    ]

module _ (petgraph : DiGraphMap) where
  open petgraph use {Graph, add_edge}

  pub record Bitcode : Type 0 where
    pub path : Text
    pub functions : FunctionMap
    pub call_graph : Graph

  -- `Bitcode::new`
  unfoldable pub new_bitcode : Text → Bitcode
  new_bitcode path = record { path = path; functions = empty; call_graph = petgraph.new }

  -- `Builder::upsert_call_graph`: `none` is a panic of `unwrap`, on a name that is not in the map.
  unfoldable pub upsert_call_graph : FunctionMap → List Call → Graph → Option Graph
  upsert_call_graph m [] g = some g
  upsert_call_graph m ((caller, callee, debugloc) ∷ calls) g = do
    a ← get_index caller m
    b ← get_index callee m
    upsert_call_graph m calls (add_edge a b (into_option_location debugloc) g)

  -- `Builder::add_module`, of what loading the module gave. A panic ends the program, so the builder
  -- that is left after one is seen by nobody.
  unfoldable pub add_module :
      Symbolic → FunctionCaps → Result Text Module → Bitcode → Bitcode × Added
  add_module symbolic fc (Result.err e) b = (b, Added.err (AddError.load e))
  add_module symbolic fc (Result.ok module_) b =
      let (m, failed) = upsert_function_map symbolic fc module_ b.functions in
      elim failed [
        | some e ↦ (record b { functions = m }, Added.err (AddError.name e))
        | none ↦ elim (upsert_call_graph m module_.calls b.call_graph) [
          | none ↦ (record b { functions = m }, Added.panicked)
          | some g ↦ (record b { functions = m; call_graph = g }, Added.ok)
        ]
      ]

  abbrev pub report_of : Bitcode → Bubbled → Option Report
  report_of b (Bubbled.done m) = some (record {
    process = record {
      path = b.path;
      capabilities = collect_from [] (into_functions m);
      functions = into_functions m;
      edges = into_edges petgraph b.call_graph;
    };
    children = [];
  })
  report_of b Bubbled.panicked = none
  report_of b Bubbled.out_of_fuel = none

  -- `Bitcode::into_report`: `none` if the loop over the call graph does not end, or panics.
  unfoldable pub into_report : Bitcode → Option Report
  into_report b = report_of b (bubble_transitive_capabilities petgraph b.call_graph b.functions)
