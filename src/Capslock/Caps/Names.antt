-- ===== src/Capslock/Caps/Names.antt =====
-- capslock/src/caps.rs: the names of the capabilities, as `strum` derives them from the attributes,
-- and the serialisation built on them.
use cargo_capslock.Prelude.{
  ◌≡◌, refl, ◌↔◌, Option, none, some, List, [], ◌∷◌, arith, Text, codes, beq, beq_iff, text_ord,
  if◌then◌else◌,
}
use cargo_capslock.Capslock.Caps.{Capability, variants}

-- `strum::Display`: the `serialize` attribute of each variant.
unfoldable pub to_string : Capability → Text
to_string Capability.unspecified = codes "CAPABILITY_UNSPECIFIED"
to_string Capability.safe = codes "CAPABILITY_SAFE"
to_string Capability.files = codes "CAPABILITY_FILES"
to_string Capability.network = codes "CAPABILITY_NETWORK"
to_string Capability.runtime = codes "CAPABILITY_RUNTIME"
to_string Capability.read_system_state = codes "CAPABILITY_READ_SYSTEM_STATE"
to_string Capability.modify_system_state = codes "CAPABILITY_MODIFY_SYSTEM_STATE"
to_string Capability.operating_system = codes "CAPABILITY_OPERATING_SYSTEM"
to_string Capability.system_calls = codes "CAPABILITY_SYSTEM_CALLS"
to_string Capability.arbitrary_execution = codes "CAPABILITY_ARBITRARY_EXECUTION"
to_string Capability.cgo = codes "CAPABILITY_CGO"
to_string Capability.unanalyzed = codes "CAPABILITY_UNANALYZED"
to_string Capability.unsafe_pointer = codes "CAPABILITY_UNSAFE_POINTER"
to_string Capability.reflect = codes "CAPABILITY_REFLECT"
to_string Capability.exec = codes "CAPABILITY_EXEC"
to_string Capability.dynamic_loading = codes "CAPABILITY_DYNAMIC_LOADING"
to_string Capability.instrumentation = codes "CAPABILITY_INSTRUMENTATION"
to_string Capability.native_code = codes "CAPABILITY_NATIVE_CODE"

-- The first of the variants whose attribute is the text.
abbrev pub find_variant : Text → List Capability → Option Capability
find_variant s [] = none
find_variant s (c ∷ cs) = if beq s (to_string c) then some c else find_variant s cs

-- `strum::EnumString`
unfoldable pub from_str : Text → Option Capability
from_str s = find_variant s variants

-- `unknown_variant` of serde carries the text that was read.
pub data DeserializeError : Type 0 where
  unknown_variant : Text → DeserializeError

pub data Deserialized : Type 0 where
  ok : Capability → Deserialized
  err : DeserializeError → Deserialized

or_unknown : Text → Option Capability → Deserialized
or_unknown s none = Deserialized.err (DeserializeError.unknown_variant s)
or_unknown s (some c) = Deserialized.ok c

-- `impl Deserialize for Capability`, of the string that the deserializer yields.
unfoldable pub deserialize : Text → Deserialized
unfolding or_unknown
deserialize s = or_unknown s (from_str s)

-- `impl Serialize for Capability`, as the string handed to the serializer.
unfoldable pub serialize : Capability → Text
serialize c = to_string c

-- Every name is read back as the capability that it was written for.
pub from_str-to_string : (c : Capability) → from_str (to_string c) ≡ some c
unfolding from_str to_string
from_str-to_string Capability.unspecified = refl
from_str-to_string Capability.safe = refl
from_str-to_string Capability.files = refl
from_str-to_string Capability.network = refl
from_str-to_string Capability.runtime = refl
from_str-to_string Capability.read_system_state = refl
from_str-to_string Capability.modify_system_state = refl
from_str-to_string Capability.operating_system = refl
from_str-to_string Capability.system_calls = refl
from_str-to_string Capability.arbitrary_execution = refl
from_str-to_string Capability.cgo = refl
from_str-to_string Capability.unanalyzed = refl
from_str-to_string Capability.unsafe_pointer = refl
from_str-to_string Capability.reflect = refl
from_str-to_string Capability.exec = refl
from_str-to_string Capability.dynamic_loading = refl
from_str-to_string Capability.instrumentation = refl
from_str-to_string Capability.native_code = refl

find_variant_sound :
    (s : Text) (cs : List Capability) (c : Capability)
    → find_variant s cs ≡ some c
    → to_string c ≡ s
find_variant_sound s [] c h = cc
find_variant_sound s (d ∷ cs) c h =
    ground (arith, beq_iff s (to_string d), find_variant_sound s cs c)

pub from_str_sound : (s : Text) (c : Capability) → from_str s ≡ some c → to_string c ≡ s
unfolding from_str
from_str_sound s c h = find_variant_sound s variants c h

-- A text is accepted exactly when it is the serialised form of the result, and any other text is
-- refused with an error that carries it.
pub deserialize_iff :
    (s : Text) (c : Capability) → (deserialize s ≡ Deserialized.ok c) ↔ (serialize c ≡ s)
unfolding deserialize serialize
deserialize_iff s c = ground (arith, from_str_sound s c, from_str-to_string c)
