-- ===== src/Static/Tests.antt =====
-- src/static/bitcode.rs: the properties of the builder at small modules.
use cargo_capslock.Prelude.{
  ℕ, ◌≡◌, ◌↔◌, refl, inl, inr, true, none, some, [], ◌∷◌, codes, text_ord, Result, All,
}
use cargo_capslock.Collections.OrdSet
use cargo_capslock.Capslock.Caps.{Capability, capability_ord}
use cargo_capslock.Capslock.Report.{Report}
use cargo_capslock.Functions.Tests.{plain_names, std_caps, named}
use cargo_capslock.Functions.Map.{FunctionMap, empty, upsert, get_index}
use cargo_capslock.Functions.Map.Upsert.{empty-IsValid}
use cargo_capslock.Functions.Names.{parse_rust_function_name, parse_plain}
use cargo_capslock.Functions.Build.{upsert_with_caps, to_function_with_fn_caps, parse_mangled_name}
use cargo_capslock.Graph.CallGraph.{into_edges}
use cargo_capslock.Graph.EdgeList.{edge_list}
use cargo_capslock.Graph.Reach.{Has, IsBubbled}
use cargo_capslock.Static.Bitcode.{
  Module, Bitcode, Added, upsert_functions, upsert_function_map, add_module, into_report,
}
use cargo_capslock.Static.Bitcode.Calls.{IsWellFormed, add_module-IsWellFormed}
use cargo_capslock.Static.Bitcode.Panics.{IsSelfContained, add_module_unknown}
use cargo_capslock.Static.Means.{Means, all_functions, all_calls}
use cargo_capslock.Static.Correct.{analyse_correct}
use cargo_capslock.Static.Meaning.{IsReport}
use cargo_capslock.Static.Added.{IsParsable}
use cargo_capslock.Static.Reported.{analyse_reports}
use cargo_capslock.Static.Run.{Analysed, analyse}
use cargo_capslock.Static.Bitcode.Reporting.{into_report_correct}

-- `main` calls a function of std, which another module defines.
abbrev pub calls_read : Module
calls_read = record {
  functions = named (codes "main") ∷ [];
  func_declarations = named (codes "std::fs::read") ∷ [];
  calls = (codes "main", codes "std::fs::read", none) ∷ [];
}

-- `main` calls what no module names.
abbrev calls_alias : Module
calls_alias = record {
  functions = named (codes "main") ∷ [];
  func_declarations = [];
  calls = (codes "main", codes "alias", none) ∷ [];
}

abbrev start : Bitcode edge_list
start = record { path = codes "a"; functions = empty; call_graph = [] }

start-IsWellFormed : IsWellFormed edge_list start
start-IsWellFormed = record { valid = empty-IsValid; within = tt }

-- The builder once the first module is in it.
abbrev built : Bitcode edge_list
built = (add_module edge_list plain_names std_caps (Result.ok calls_read) start).0

add_module-IsWellFormed_example : IsWellFormed edge_list built
add_module-IsWellFormed_example =
    add_module-IsWellFormed edge_list plain_names std_caps (Result.ok calls_read) start
      start-IsWellFormed

built-IsWellFormed : IsWellFormed edge_list built
built-IsWellFormed =
    add_module-IsWellFormed edge_list plain_names std_caps (Result.ok calls_read) start
      start-IsWellFormed

calls_read-IsSelfContained : IsSelfContained calls_read
calls_read-IsSelfContained = (
  (inl (named (codes "main"), inl refl, refl), inr (named (codes "std::fs::read"), inl refl, refl)),
  tt,
)

alias_functions :
    upsert_function_map plain_names std_caps calls_alias empty
    ≡ ((upsert_function_map plain_names std_caps calls_alias empty).0, none)
unfolding upsert_function_map upsert_functions upsert_with_caps to_function_with_fn_caps
    parse_mangled_name parse_rust_function_name parse_plain
alias_functions = refl

alias_unknown :
    get_index (codes "alias") (upsert_function_map plain_names std_caps calls_alias empty).0 ≡ none
unfolding upsert_function_map upsert_functions upsert_with_caps to_function_with_fn_caps
    parse_mangled_name parse_rust_function_name parse_plain get_index upsert
alias_unknown = refl

add_module_unknown_example :
    (add_module edge_list plain_names std_caps (Result.ok calls_alias) start).1 ≡ Added.panicked
add_module_unknown_example =
    add_module_unknown edge_list plain_names std_caps calls_alias start
      (upsert_function_map plain_names std_caps calls_alias empty).0 (codes "main") (codes "alias")
      none alias_functions (inl refl) alias_unknown

into_report_correct_example :
    (r : Report) × (into_report edge_list built ≡ some r)
    × ((m : FunctionMap) × (r.process.functions ≡ m.functions)
        × IsBubbled (edge_list.all_edges built.call_graph) built.functions m)
    × ((c : Capability)
        → (OrdSet.contains c r.process.capabilities ≡ true) ↔ ((i : ℕ) × Has built.functions i c))
    × OrdSet.IsSorted r.process.capabilities
    × (r.process.path ≡ built.path)
    × (r.process.edges ≡ into_edges edge_list built.call_graph)
    × (r.children ≡ [])
into_report_correct_example = into_report_correct edge_list built built-IsWellFormed

-- The module that `calls_read` declares a function of.
abbrev defines_read : Module
defines_read = record {
  functions = named (codes "std::fs::read") ∷ [];
  func_declarations = [];
  calls = [];
}

analyse_correct_example :
    Means plain_names std_caps [] []
      (Result.ok calls_read ∷ Result.ok defines_read ∷ [])
      (analyse edge_list plain_names std_caps (Result.ok calls_read ∷ Result.ok defines_read ∷ []))
analyse_correct_example =
    analyse_correct edge_list plain_names std_caps
      (Result.ok calls_read ∷ Result.ok defines_read ∷ [])

parsable : All (IsParsable plain_names) (all_functions (calls_read ∷ defines_read ∷ []))
unfolding parse_mangled_name parse_rust_function_name parse_plain
parsable = ((_, refl), ((_, refl), ((_, refl), tt)))

analyse_reports_example :
    (r : Report) × (analyse edge_list plain_names std_caps
        (Result.ok calls_read ∷ Result.ok defines_read ∷ [])
      ≡ Analysed.report r)
    × IsReport plain_names std_caps
        (all_functions (calls_read ∷ defines_read ∷ []))
        (all_calls (calls_read ∷ defines_read ∷ []))
        r
analyse_reports_example =
    analyse_reports plain_names std_caps (calls_read ∷ defines_read ∷ []) edge_list
      (calls_read-IsSelfContained, (tt, tt)) parsable
