-- ===== src/Capslock/Caps/Types.antt =====
-- capslock/src/caps.rs: `CapabilityType` and its order, which is written by hand and is not that of
-- the discriminants.
use cargo_capslock.Prelude.{
  ℕ, ◌<◌, ◌≡◌, refl, ◌↔◌, Option, none, some, arith, Ordering, Text, codes, beq, text_ord,
  if◌then◌else◌,
}

pub data CapabilityType : Type 0 where
  unspecified direct transitive : CapabilityType

-- `Ord::cmp`
unfoldable pub cmp : CapabilityType → CapabilityType → Ordering
cmp CapabilityType.direct CapabilityType.direct = Ordering.eq
cmp CapabilityType.direct _ = Ordering.gt
cmp CapabilityType.transitive CapabilityType.direct = Ordering.lt
cmp CapabilityType.transitive CapabilityType.transitive = Ordering.eq
cmp CapabilityType.transitive _ = Ordering.gt
cmp CapabilityType.unspecified CapabilityType.unspecified = Ordering.eq
cmp CapabilityType.unspecified _ = Ordering.lt

-- `PartialOrd::partial_cmp`
unfoldable pub partial_cmp : CapabilityType → CapabilityType → Option Ordering
unfolding cmp
partial_cmp a b = some (cmp a b)

-- `std::cmp::max`, which gives the second of two equal values.
unfoldable pub max_type : CapabilityType → CapabilityType → CapabilityType
unfolding cmp
max_type a b = elim (cmp a b) [ Ordering.gt ↦ a | _ ↦ b ]

unfoldable pub type_to_string : CapabilityType → Text
type_to_string CapabilityType.unspecified = codes "CAPABILITY_TYPE_UNSPECIFIED"
type_to_string CapabilityType.direct = codes "CAPABILITY_TYPE_DIRECT"
type_to_string CapabilityType.transitive = codes "CAPABILITY_TYPE_TRANSITIVE"

unfoldable pub type_from_str : Text → Option CapabilityType
unfolding type_to_string
type_from_str s =
    if beq s (type_to_string CapabilityType.unspecified)
    then some CapabilityType.unspecified
    else if beq s (type_to_string CapabilityType.direct)
    then some CapabilityType.direct
    else if beq s (type_to_string CapabilityType.transitive)
    then some CapabilityType.transitive
    else none

-- How much a type says: nothing, that a callee has the capability, that the function itself has it.
abbrev pub strength : CapabilityType → ℕ
strength CapabilityType.unspecified = 0
strength CapabilityType.transitive = 1
strength CapabilityType.direct = 2

-- The hand-written order is that of how much a type says.
pub cmp_strength : (a b : CapabilityType) → (cmp a b ≡ Ordering.lt) ↔ (strength a < strength b)
unfolding cmp
cmp_strength CapabilityType.unspecified CapabilityType.unspecified = ground arith
cmp_strength _ _ = ground arith

pub max_type_comm : (a b : CapabilityType) → max_type a b ≡ max_type b a
unfolding max_type
max_type_comm a b = ground arith

pub max_type_assoc :
    (a b c : CapabilityType) → max_type (max_type a b) c ≡ max_type a (max_type b c)
unfolding max_type
max_type_assoc a b c = ground arith

pub type_from_str-to_string : (t : CapabilityType) → type_from_str (type_to_string t) ≡ some t
unfolding type_from_str
type_from_str-to_string CapabilityType.unspecified = refl
type_from_str-to_string _ = refl
