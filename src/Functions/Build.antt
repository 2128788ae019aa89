-- ===== src/Functions/Build.antt =====
-- src/function.rs and src/caps.rs: a function of the report, from what a front end knows of it.
pub mod Caps
use cargo_capslock.Prelude.{
  ℕ, Option, none, some, List, [], ◌∷◌, Text, text_ord, Result, and_then, ok_or,
}
use cargo_capslock.Collections.OrdMap
use cargo_capslock.Collections.OrdMap.{OrdMap}
use cargo_capslock.Collections.OrdSet.{OrdSet}
use cargo_capslock.Capslock.Caps.{Capability, capability_ord}
use cargo_capslock.Capslock.Caps.Types.{CapabilityType}
use cargo_capslock.Capslock.Report.{Function, FunctionName, display_name}
use cargo_capslock.Locations.{DebugLoc, into_option_location}
use cargo_capslock.Functions.Map.{FunctionMap, upsert}
use cargo_capslock.Functions.Names.{Error, parse_rust_function_name}

-- `symbolic::common::Language`: Rust, or another by the text that it is printed as.
pub data Language : Type 0 where
  rust : Language
  other : Text → Language

-- The demangler, of the package `symbolic`, on a mangled name.
pub record Symbolic : Type 0 where
  pub detect_language : Text → Language
  pub demangle : Text → Option Text
  pub try_demangle : Text → Text

-- capslock-rust/src/lib.rs: `Function`, an entry of the capability mapping. `caps` is a `HashSet`,
-- in the order of its iterator.
pub record RustFunction : Type 0 where
  pub caps : List Capability
  pub syscalls : OrdSet Text

-- src/caps.rs: `FunctionCaps`, a `HashMap` that is read by key only.
pub record FunctionCaps : Type 0 where
  pub entries : OrdMap Text RustFunction

-- `FunctionCaps::get`
unfoldable pub get_caps : Text → FunctionCaps → Option RustFunction
get_caps name fc = OrdMap.lookup name fc.entries

-- Of a map collected from an iterator of pairs the last pair of a key stays.
abbrev pub collect_caps : CapabilityType → List Capability → OrdMap Capability CapabilityType
collect_caps ty cs = OrdMap.insert_all ty [] cs

-- `direct_fn_caps`
unfoldable pub direct_fn_caps : FunctionCaps → FunctionName → OrdMap Capability CapabilityType
direct_fn_caps fc name = elim (get_caps (display_name name) fc) [
  | some f ↦ collect_caps CapabilityType.direct f.caps
  | none ↦ []
]

-- The trait `ToFunction`, as the two values that its implementations provide.
pub record ToFunction : Type 0 where
  pub debugloc : Option DebugLoc
  pub mangled_name : Text

module _ (symbolic : Symbolic) where
  -- `parse_mangled_name`
  unfoldable pub parse_mangled_name : Text → Result Error FunctionName
  parse_mangled_name mangled = elim (symbolic.detect_language mangled) [
    | Language.rust ↦
        and_then (ok_or (symbolic.demangle mangled) (Error.demangle mangled)) λ demangled.
          and_then (parse_rust_function_name demangled)
            λ name. Result.ok (FunctionName.rust demangled name)
    | Language.other lang ↦ Result.ok (FunctionName.other (symbolic.try_demangle mangled) lang)
  ]

  -- `ToFunction::to_function`
  unfoldable pub to_function : ToFunction → Result Error Function
  to_function f = and_then (parse_mangled_name f.mangled_name) λ name. Result.ok (record {
    name = name;
    location = into_option_location f.debugloc;
    capabilities = [];
    syscalls = [];
  })

  -- `ToFunction::to_function_with_caps`, of capabilities that all have one type.
  unfoldable pub to_function_with_caps :
      ToFunction → CapabilityType → List Capability → Result Error Function
  to_function_with_caps f ty caps = and_then (parse_mangled_name f.mangled_name) λ name.
      Result.ok (record {
        name = name;
        location = into_option_location f.debugloc;
        capabilities = collect_caps ty caps;
        syscalls = [];
      })

  -- `ToFunction::to_function_with_fn_caps`
  unfoldable pub to_function_with_fn_caps : FunctionCaps → ToFunction → Result Error Function
  to_function_with_fn_caps fc f = and_then (parse_mangled_name f.mangled_name) λ name.
      Result.ok (record {
        name = name;
        location = into_option_location f.debugloc;
        capabilities = direct_fn_caps fc name;
        syscalls = [];
      })

  -- `FunctionMap::upsert_with_caps`
  unfoldable pub upsert_with_caps :
      FunctionCaps → ToFunction → FunctionMap → Result Error (FunctionMap × ℕ)
  upsert_with_caps fc f m =
      and_then (to_function_with_fn_caps fc f)
        λ function. Result.ok (upsert f.mangled_name function m)
