-- ===== src/Functions/Tests.antt =====
-- src/function.rs: the cases of its tests, and the properties of names and of the map at examples.
use cargo_capslock.Prelude.{
  ℕ, ◌<◌, ◌≡◌, ◌≢◌, refl, none, some, [], ◌∷◌, ◌++◌, Text, codes, text_ord, Result, length,
  split_once, rsplit_once, if◌then◌else◌,
}
use cargo_capslock.Collections.OrdMap
use cargo_capslock.Collections.OrdSet
use cargo_capslock.Capslock.Caps.{Capability, capability_ord}
use cargo_capslock.Capslock.Caps.Types.{CapabilityType}
use cargo_capslock.Capslock.Report.{Function, FunctionName, RustFunctionName}
use cargo_capslock.Functions.Map.{empty, get, get_index, upsert}
use cargo_capslock.Functions.Map.Upsert.{IsValid, empty-IsValid, upsert-IsValid, upsert_lem}
use cargo_capslock.Functions.Names.{
  Error, less, as_word, close_colons, colons, parse_qualified, parse_plain,
  parse_rust_function_name,
}
use cargo_capslock.Functions.Names.Parse.{
  Explains, parse-Explains, parse_trait_method, parse_struct_method,
}
use cargo_capslock.Functions.Build.{
  Language, Symbolic, FunctionCaps, ToFunction, parse_mangled_name, to_function_with_fn_caps,
}
use cargo_capslock.Functions.Build.Caps.{listed, to_function_with_fn_caps_lem}

-- A demangler that takes every name for a Rust name that is not mangled.
abbrev pub plain_names : Symbolic
plain_names = record {
  detect_language = λ s. Language.rust;
  demangle = λ s. some s;
  try_demangle = λ s. s;
}

-- The mapping of one function of std.
abbrev pub std_caps : FunctionCaps
std_caps = record {
  entries = (codes "std::fs::read", record { caps = Capability.files ∷ []; syscalls = [] }) ∷ [];
}

abbrev pub named : Text → ToFunction
named name = record { debugloc = none; mangled_name = name }

no_mangle_run :
    parse_rust_function_name (codes "no_mangle")
    ≡ Result.ok (RustFunctionName.bare (codes "no_mangle"))
unfolding parse_rust_function_name parse_plain rsplit_once
no_mangle_run = refl

trait_run :
    parse_rust_function_name (codes "<axum::Path<T> as axum_core::FromRequestParts<S>>::from_parts")
    ≡ Result.ok (
        RustFunctionName.trait_method
          (codes "axum_core::FromRequestParts<S>")
          (codes "axum::Path<T>")
          (codes "from_parts"))
unfolding parse_rust_function_name parse_qualified split_once rsplit_once
trait_run = refl

malformed_trait_run :
    parse_rust_function_name (codes "<foo as bar")
    ≡ Result.err (Error.malformed_trait_method (codes "foo as bar"))
unfolding parse_rust_function_name parse_qualified split_once rsplit_once
malformed_trait_run = refl

malformed_run :
    parse_rust_function_name (codes "<foo>") ≡ Result.err (Error.malformed_method (codes "foo>"))
unfolding parse_rust_function_name parse_qualified split_once rsplit_once
malformed_run = refl

-- A type that is itself qualified is cut at its own ` as `.
nested_run :
    parse_rust_function_name (codes "<<T as Iterator>::Item as Foo>::bar")
    ≡ Result.ok
        (RustFunctionName.trait_method (codes "Iterator>::Item as Foo") (codes "<T") (codes "bar"))
unfolding parse_rust_function_name parse_qualified split_once rsplit_once
nested_run = refl

parse-Explains_example :
    Explains (codes "<foo as bar") (parse_rust_function_name (codes "<foo as bar"))
parse-Explains_example = parse-Explains (codes "<foo as bar")

parse_trait_method_example :
    parse_rust_function_name
      (less ++ (codes "Foo" ++ (as_word ++ (codes "Bar" ++ (close_colons ++ codes "baz")))))
    ≡ Result.ok (RustFunctionName.trait_method (codes "Bar") (codes "Foo") (codes "baz"))
parse_trait_method_example =
    parse_trait_method (codes "Foo") (codes "Bar") (codes "baz") (refl, (refl, (refl, tt)))
      (refl, (refl, (refl, refl)))

parse_struct_method_example :
    parse_rust_function_name (codes "foo" ++ (colons ++ codes "bar"))
    ≡ Result.ok (RustFunctionName.struct_method (codes "foo") (codes "bar"))
parse_struct_method_example =
    parse_struct_method (codes "foo") (codes "bar") refl refl (refl, (refl, (refl, (refl, refl))))

to_function_with_fn_caps_lem_example :
    ((e : Error)
      → parse_mangled_name plain_names (codes "std::fs::read") ≡ Result.err e
      → to_function_with_fn_caps plain_names std_caps (named (codes "std::fs::read"))
        ≡ Result.err e)
    × ((name : FunctionName)
        → parse_mangled_name plain_names (codes "std::fs::read") ≡ Result.ok name
        → (f : Function) × (to_function_with_fn_caps plain_names std_caps
              (named (codes "std::fs::read"))
            ≡ Result.ok f)
          × (f.name ≡ name)
          × OrdMap.IsSorted f.capabilities
          × (f.syscalls ≡ [])
          × ((c : Capability)
              → OrdMap.lookup c f.capabilities ≡ (
                  if OrdSet.contains c (listed std_caps name)
                  then some CapabilityType.direct
                  else none)))
to_function_with_fn_caps_lem_example =
    to_function_with_fn_caps_lem plain_names std_caps (named (codes "std::fs::read"))

abbrev main : Function
main = record {
  name = FunctionName.rust (codes "main") (RustFunctionName.bare (codes "main"));
  location = none;
  capabilities = [];
  syscalls = [];
}

upsert-IsValid_example : IsValid (upsert (codes "main") main empty).0
upsert-IsValid_example = upsert-IsValid (codes "main") main empty empty-IsValid

upsert_lem_example :
    let (m', i) = upsert (codes "main") main empty in
    (get_index (codes "main") m' ≡ some i)
    × ((k : Text) → k ≢ codes "main" → get_index k m' ≡ get_index k empty)
    × ((j : ℕ) → j < length empty.functions → get j m' ≡ get j empty)
    × ((get_index (codes "main") empty ≡ none)
        → (get i m' ≡ some main) × (i ≡ length empty.functions))
    × ((j : ℕ) → get_index (codes "main") empty ≡ some j → (i ≡ j) × (m' ≡ empty))
upsert_lem_example = upsert_lem (codes "main") main empty
