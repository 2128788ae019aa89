-- ===== src/Functions/Map.antt =====
-- src/function.rs: `FunctionMap`, the functions by index and the index of each mangled name.
pub mod Upsert
pub mod Filled
use cargo_capslock.Prelude.{
  ℕ, ◌<◌, ◌≡◌, Option, none, some, List, [], ◌∷◌, ◌++◌, Text, text_ord, length, get_elem?, set,
}
use cargo_capslock.Collections.OrdMap
use cargo_capslock.Collections.OrdMap.{OrdMap}
use cargo_capslock.Capslock.Report.{Function}

-- `ids` is a `HashMap`, which is read by key only.
pub record FunctionMap : Type 0 where
  pub functions : List Function
  pub ids : OrdMap Text ℕ

-- `Default`
abbrev pub empty : FunctionMap
empty = record { functions = []; ids = [] }

unfoldable pub get : ℕ → FunctionMap → Option Function
get idx m = get_elem? m.functions idx

unfoldable pub get_index : Text → FunctionMap → Option ℕ
get_index mangled m = OrdMap.lookup mangled m.ids

-- A write through `get_mut`; out of range there is no reference to write to.
unfoldable pub set_function : ℕ → Function → FunctionMap → FunctionMap
set_function idx f m = record m { functions = set m.functions idx f }

unfoldable pub into_functions : FunctionMap → List Function
into_functions m = m.functions

-- `FunctionMap::upsert`: the index of the name, and the function pushed if the name is new.
unfoldable pub upsert : Text → Function → FunctionMap → FunctionMap × ℕ
upsert mangled function m = elim (OrdMap.lookup mangled m.ids) [
  | some idx ↦ (m, idx)
  | none ↦ (
    record {
      functions = m.functions ++ function ∷ [];
      ids = OrdMap.insert mangled (length m.functions) m.ids;
    },
    length m.functions,
  )
]
