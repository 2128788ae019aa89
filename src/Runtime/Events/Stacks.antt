-- ===== src/Runtime/Events/Stacks.antt =====
-- src/runtime/mod.rs: the names of a stack that can be parsed, and the calls between them.
pub mod Holding
use cargo_capslock.Prelude.{
  ◌≡◌, refl, Bool, true, false, if◌then◌else◌, Option, none, some, List, [], ◌∷◌, ◌++◌, Text,
  text_ord, Result,
}
use cargo_capslock.Collections.OrdMap
use cargo_capslock.Collections.OrdSet
use cargo_capslock.Capslock.Caps.{Capability, capability_ord}
use cargo_capslock.Capslock.Caps.Types.{CapabilityType}
use cargo_capslock.Capslock.Report.{Function, FunctionName}
use cargo_capslock.Functions.Names.{Error as NameError}
use cargo_capslock.Functions.Build.{Symbolic, parse_mangled_name}
use cargo_capslock.Graph.Drawn.{NamedCall}
use cargo_capslock.Runtime.Platform.{Platform}

-- A name of a stack, the capabilities that it is seen with, and the syscall that it is seen to make.
pub record Seen : Type 0 where
  pub mangled : Text
  pub ty : CapabilityType
  pub caps : List Capability
  pub syscall : Option Text

abbrev pub seen_name : Seen → Text
seen_name t = t.mangled

-- The name can be parsed.
abbrev pub is_parsed : Result NameError FunctionName → Bool
is_parsed (Result.ok _) = true
is_parsed (Result.err _) = false

abbrev pub as_list : Option Text → List Text
as_list none = []
as_list (some s) = s ∷ []

module _ (symbolic : Symbolic) where
  -- The names of a stack that can be parsed, the innermost first: it is seen with direct capabilities, and
  -- the others with transitive ones, and the syscall is that of the innermost.
  abbrev pub stack_seen : List Capability → Option Text → CapabilityType → List Text → List Seen
  stack_seen caps call ty [] = []
  stack_seen caps call ty (n ∷ names) =
      let outer = stack_seen caps none CapabilityType.transitive names in
      let passed = stack_seen caps call ty names in
      if is_parsed (parse_mangled_name symbolic n)
      then record { mangled = n; ty = ty; caps = caps; syscall = call } ∷ outer
      else passed

  -- The calls of a stack: each name that can be parsed calls the last one before it.
  abbrev pub stack_calls : Option Text → List Text → List NamedCall
  stack_calls inner [] = []
  stack_calls none (n ∷ names) =
      let outer = stack_calls (some n) names in
      let passed = stack_calls none names in
      if is_parsed (parse_mangled_name symbolic n) then outer else passed
  stack_calls (some i) (n ∷ names) =
      let outer = stack_calls (some n) names in
      let passed = stack_calls (some i) names in
      if is_parsed (parse_mangled_name symbolic n) then (n, i, none) ∷ outer else passed

  pub stack_seen-parsed :
      (caps : List Capability) (call : Option Text) (ty : CapabilityType) (n : Text)
      (name : FunctionName) (names : List Text)
      → parse_mangled_name symbolic n ≡ Result.ok name
      → stack_seen caps call ty (n ∷ names)
        ≡ record { mangled = n; ty = ty; caps = caps; syscall = call }
          ∷ stack_seen caps none CapabilityType.transitive names
  stack_seen-parsed caps call ty n name names h = rw h refl

  pub stack_seen-passed :
      (caps : List Capability) (call : Option Text) (ty : CapabilityType) (n : Text) (e : NameError)
      (names : List Text)
      → parse_mangled_name symbolic n ≡ Result.err e
      → stack_seen caps call ty (n ∷ names) ≡ stack_seen caps call ty names
  stack_seen-passed caps call ty n e names h = rw h refl

  -- The call of a name to the last one before it.
  abbrev pub call_of : Option Text → Text → List NamedCall
  call_of none n = []
  call_of (some i) n = (n, i, none) ∷ []

  pub stack_calls-parsed :
      (inner : Option Text) (n : Text) (name : FunctionName) (names : List Text)
      → parse_mangled_name symbolic n ≡ Result.ok name
      → stack_calls inner (n ∷ names) ≡ call_of inner n ++ stack_calls (some n) names
  stack_calls-parsed none n name names h = rw h refl
  stack_calls-parsed (some i) n name names h = rw h refl

  pub stack_calls-passed :
      (inner : Option Text) (n : Text) (e : NameError) (names : List Text)
      → parse_mangled_name symbolic n ≡ Result.err e
      → stack_calls inner (n ∷ names) ≡ stack_calls inner names
  stack_calls-passed none n e names h = rw h refl
  stack_calls-passed (some i) n e names h = rw h refl

  -- A function is the one that a name was seen as.
  abbrev pub Shows : Seen → Function → Type 0
  Shows t f =
      (parse_mangled_name symbolic t.mangled ≡ Result.ok f.name)
      × ((c : Capability)
          → OrdMap.lookup c f.capabilities ≡ (if OrdSet.contains c t.caps then some t.ty else none))
      × (f.syscalls ≡ as_list t.syscall)

-- The type of a name, by the one seen before it.
abbrev pub type_after : Option Text → CapabilityType
type_after none = CapabilityType.direct
type_after (some _) = CapabilityType.transitive

-- The syscall of a name, by the one seen before it.
abbrev pub call_after : Option Text → Option Text → Option Text
call_after none call = call
call_after (some _) call = none

-- What is shown of the number of a syscall, if syscalls are to be included.
abbrev pub shown : (P : Platform) → Bool → Option P.Sysno → Option Text
shown P true (some nr) = some (P.to_string nr)
shown P true none = none
shown P false nr = none
