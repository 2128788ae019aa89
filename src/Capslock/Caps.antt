-- ===== src/Capslock/Caps.antt =====
-- capslock/src/caps.rs: the capabilities, their discriminants and their names.
pub mod Names
pub mod Types
use cargo_capslock.Prelude.{
  ℕ, ◌≡◌, refl, ap, ◌↔◌, Option, none, some, List, [], ◌∷◌, arith, Ord, Ordering, compare,
  compare_eq, compare_flip, compare_trans, get_elem?,
}

pub data Capability : Type 0 where
  unspecified safe files network runtime read_system_state modify_system_state : Capability
  operating_system system_calls arbitrary_execution cgo unanalyzed unsafe_pointer : Capability
  reflect exec dynamic_loading instrumentation native_code : Capability

-- `#[repr(u32)]`
abbrev pub discriminant : Capability → ℕ
discriminant Capability.unspecified = 0
discriminant Capability.safe = 1
discriminant Capability.files = 2
discriminant Capability.network = 3
discriminant Capability.runtime = 4
discriminant Capability.read_system_state = 5
discriminant Capability.modify_system_state = 6
discriminant Capability.operating_system = 7
discriminant Capability.system_calls = 8
discriminant Capability.arbitrary_execution = 9
discriminant Capability.cgo = 10
discriminant Capability.unanalyzed = 11
discriminant Capability.unsafe_pointer = 12
discriminant Capability.reflect = 13
discriminant Capability.exec = 14
discriminant Capability.dynamic_loading = 15
discriminant Capability.instrumentation = 16
discriminant Capability.native_code = 17

-- `VARIANTS`, in the order of the declaration.
abbrev pub variants : List Capability
variants =
    Capability.unspecified ∷ Capability.safe ∷ Capability.files ∷ Capability.network
    ∷ Capability.runtime ∷ Capability.read_system_state ∷ Capability.modify_system_state
    ∷ Capability.operating_system ∷ Capability.system_calls ∷ Capability.arbitrary_execution
    ∷ Capability.cgo ∷ Capability.unanalyzed ∷ Capability.unsafe_pointer ∷ Capability.reflect
    ∷ Capability.exec ∷ Capability.dynamic_loading ∷ Capability.instrumentation
    ∷ Capability.native_code ∷ []

-- The variant of a discriminant.
pub get_elem?-variants : (c : Capability) → get_elem? variants (discriminant c) ≡ some c
get_elem?-variants Capability.unspecified = refl
get_elem?-variants Capability.safe = refl
get_elem?-variants Capability.files = refl
get_elem?-variants Capability.network = refl
get_elem?-variants Capability.runtime = refl
get_elem?-variants Capability.read_system_state = refl
get_elem?-variants Capability.modify_system_state = refl
get_elem?-variants Capability.operating_system = refl
get_elem?-variants Capability.system_calls = refl
get_elem?-variants Capability.arbitrary_execution = refl
get_elem?-variants Capability.cgo = refl
get_elem?-variants Capability.unanalyzed = refl
get_elem?-variants Capability.unsafe_pointer = refl
get_elem?-variants Capability.reflect = refl
get_elem?-variants Capability.exec = refl
get_elem?-variants Capability.dynamic_loading = refl
get_elem?-variants Capability.instrumentation = refl
get_elem?-variants Capability.native_code = refl

pub discriminant_injective : (a b : Capability) → discriminant a ≡ discriminant b → a ≡ b
discriminant_injective a b h =
    cc (get_elem?-variants a, get_elem?-variants b, ap (get_elem? variants) h)

-- `derive(Ord)`: the order of the discriminants.
abbrev pub capability_cmp : Capability → Capability → Ordering
capability_cmp a b = compare (discriminant a) (discriminant b)

pub capability_cmp_eq : (a b : Capability) → (capability_cmp a b ≡ Ordering.eq) ↔ (a ≡ b)
capability_cmp_eq a b = (
  λ h. discriminant_injective a b ((compare_eq _ _).0 h),
  λ e. (compare_eq _ _).1 (ap discriminant e),
)

pub capability_cmp_flip :
    (a b : Capability) → (capability_cmp a b ≡ Ordering.lt) ↔ (capability_cmp b a ≡ Ordering.gt)
capability_cmp_flip a b = compare_flip (discriminant a) (discriminant b)

pub capability_cmp_trans :
    (a b c : Capability)
    → capability_cmp a b ≡ Ordering.lt
    → capability_cmp b c ≡ Ordering.lt
    → capability_cmp a c ≡ Ordering.lt
capability_cmp_trans a b c = compare_trans (discriminant a) (discriminant b) (discriminant c)

instance abbrev pub capability_ord : Ord Capability
capability_ord = record {
  cmp = capability_cmp;
  cmp_eq = capability_cmp_eq;
  cmp_flip = capability_cmp_flip;
  cmp_trans = capability_cmp_trans;
}
