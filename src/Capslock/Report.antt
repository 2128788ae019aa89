-- ===== src/Capslock/Report.antt =====
-- capslock/src/report.rs: the report, its functions, and what is written of a process.
pub mod Functions
pub mod Processes
use cargo_capslock.Prelude.{
  ℕ, Bool, Option, none, some, List, [], ◌∷◌, Text, text_ord, if◌then◌else◌, not, beq, codes, true,
  false,
}
use cargo_capslock.Collections.OrdMap
use cargo_capslock.Collections.OrdMap.{OrdMap}
use cargo_capslock.Collections.OrdSet
use cargo_capslock.Collections.OrdSet.{OrdSet}
use cargo_capslock.Capslock.Caps.{Capability, capability_ord}
use cargo_capslock.Capslock.Caps.Types.{CapabilityType, max_type}

pub record Location : Type 0 where
  pub directory : Option Text
  pub filename : Text
  pub line : ℕ
  pub column : Option ℕ

pub data RustFunctionName : Type 0 where
  -- the trait, the type and the method
  trait_method : Text → Text → Text → RustFunctionName
  -- the type and the method
  struct_method : Text → Text → RustFunctionName
  bare : Text → RustFunctionName

pub data FunctionName : Type 0 where
  -- the display name and the name
  rust : Text → RustFunctionName → FunctionName
  -- the display name and the language
  other : Text → Text → FunctionName

-- `FunctionName::display_name`
unfoldable pub display_name : FunctionName → Text
display_name (FunctionName.rust display _) = display
display_name (FunctionName.other display _) = display

pub record Function : Type 0 where
  pub name : FunctionName
  pub location : Option Location
  pub capabilities : OrdMap Capability CapabilityType
  pub syscalls : OrdSet Text

-- `Function::display_name`, and what `Display` prints.
unfoldable pub function_display_name : Function → Text
unfolding display_name
function_display_name f = display_name f.name

-- The entry of `insert_capability`: vacant or occupied.
abbrev merge_type : Option CapabilityType → CapabilityType → CapabilityType
merge_type none ty = ty
merge_type (some old) ty = max_type old ty

unfoldable pub insert_capability : Capability → CapabilityType → Function → Function
insert_capability capability ty f = record f {
  capabilities =
      OrdMap.insert capability (merge_type (OrdMap.lookup capability f.capabilities) ty)
        f.capabilities;
}

unfoldable pub insert_syscall : Text → Function → Function
insert_syscall syscall f = record f { syscalls = OrdSet.insert syscall f.syscalls }

pub record Edge : Type 0 where
  pub caller : ℕ
  pub callee : ℕ
  pub location : Option Location

pub record Process : Type 0 where
  pub path : Text
  pub capabilities : OrdSet Capability
  pub functions : List Function
  pub edges : List Edge

pub record Report : Type 0 where
  pub process : Process
  pub children : List Process

-- What `impl Serialize for FunctionName` writes: the display name, the name of a Rust function, and
-- the language.
pub record RawName : Type 0 where
  pub display_name : Text
  pub name : Option RustFunctionName
  pub language : Text

-- `impl Serialize for FunctionName`
unfoldable pub serialize_name : FunctionName → RawName
serialize_name (FunctionName.rust display n) = record {
  display_name = display;
  name = some n;
  language = codes "rust";
}
serialize_name (FunctionName.other display l) = record {
  display_name = display;
  name = none;
  language = l;
}

-- `Raw` of `impl Serialize for Process`; an empty set of syscalls is not written.
pub record RawProcess : Type 0 where
  pub path : Text
  pub capabilities : OrdSet Capability
  pub functions : List Function
  pub edges : List Edge
  pub syscalls : OrdSet Text

-- The filter of the serialisation: everything but `Safe`.
abbrev pub without_safe : List Capability → List Capability
without_safe = OrdSet.filter (λ c. not (beq c Capability.safe))

abbrev pub collect_from : OrdSet Text → List Function → OrdSet Text
collect_from acc [] = acc
collect_from acc (f ∷ fs) = collect_from (OrdSet.extend acc f.syscalls) fs

unfoldable pub collect_syscalls : List Function → OrdSet Text
collect_syscalls fs = collect_from [] fs

-- `impl Serialize for Process`
unfoldable pub serialize_process : Process → RawProcess
unfolding collect_syscalls
serialize_process p = record {
  path = p.path;
  capabilities = OrdSet.collect (without_safe p.capabilities);
  functions = p.functions;
  edges = p.edges;
  syscalls = collect_syscalls p.functions;
}

-- `skip_serializing_if` on the children of a report.
unfoldable pub writes_children : Report → Bool
writes_children r = elim r.children [ [] ↦ false | _ ∷ _ ↦ true ]
