-- ===== src/Capslock/Report/Functions.antt =====
-- capslock/src/report.rs: what `insert_capability` and `insert_syscall` do to a function.
use cargo_capslock.Prelude.{
  ◌≡◌, ◌≢◌, ◌≤◌, ◌⊎◌, refl, sym, ap, ◌∙◌, Option, none, some, arith, beq, beq_iff, text_ord,
  if◌then◌else◌,
}
use cargo_capslock.Collections.OrdMap
use cargo_capslock.Capslock.Caps.{Capability, capability_ord}
use cargo_capslock.Capslock.Caps.Types.{
  CapabilityType, strength, max_type, max_type_comm, max_type_assoc,
}
use cargo_capslock.Capslock.Report.{Function, insert_capability, merge_type}

-- The type under which a function has a capability.
abbrev pub type_of : Capability → Function → Option CapabilityType
type_of c f = OrdMap.lookup c f.capabilities

merge_type_comm :
    (o : Option CapabilityType) (s t : CapabilityType)
    → merge_type (some (merge_type o s)) t ≡ merge_type (some (merge_type o t)) s
merge_type_comm none s t = max_type_comm s t
merge_type_comm (some u) s t =
    max_type_assoc u s t ∙ ap (max_type u) (max_type_comm s t) ∙ sym (max_type_assoc u t s)

pub type_of-insert_capability :
    (c d : Capability) (ty : CapabilityType) (f : Function)
    → type_of c (insert_capability d ty f)
      ≡ (if beq c d then some (merge_type (type_of d f) ty) else type_of c f)
unfolding insert_capability
type_of-insert_capability c d ty f =
    OrdMap.lookup-insert c d (merge_type (type_of d f) ty) f.capabilities

-- The types that a function is given for a capability may come in any order: each capability ends
-- with the same type.
pub insert_capability_comm :
    (c d e : Capability) (s t : CapabilityType) (f : Function)
    → type_of c (insert_capability d s (insert_capability e t f))
      ≡ type_of c (insert_capability e t (insert_capability d s f))
insert_capability_comm c d e s t f = ground (
  arith,
  type_of-insert_capability c d s (insert_capability e t f),
  type_of-insert_capability c e t (insert_capability d s f),
  type_of-insert_capability d e t f,
  type_of-insert_capability e d s f,
  type_of-insert_capability c d s f,
  type_of-insert_capability c e t f,
  merge_type_comm (type_of d f) s t,
  beq_iff c d,
  beq_iff c e,
  beq_iff d e,
  beq_iff e d,
)

-- The stronger of the type that was there, if one was, and the new one: one of the two, and neither says
-- more, where direct says more than transitive and transitive more than unspecified.
abbrev pub IsStronger : Option CapabilityType → CapabilityType → CapabilityType → Type 0
IsStronger none ty t = t ≡ ty
IsStronger (some old) ty t =
    ((t ≡ old) ⊎ (t ≡ ty)) × (strength old ≤ strength t) × (strength ty ≤ strength t)

max_type-IsStronger : (old ty : CapabilityType) → IsStronger (some old) ty (max_type old ty)
unfolding max_type
max_type-IsStronger CapabilityType.unspecified CapabilityType.unspecified = ground arith
max_type-IsStronger _ _ = ground arith

merge_type-IsStronger :
    (o : Option CapabilityType) (ty : CapabilityType) → IsStronger o ty (merge_type o ty)
merge_type-IsStronger none ty = refl
merge_type-IsStronger (some old) ty = max_type-IsStronger old ty

-- `insert_capability` changes the one capability, to the stronger of the two types, direct being stronger
-- than transitive and transitive than unspecified, and leaves the name, the location and the syscalls
-- alone; the capabilities stay in order.
pub insert_capability_lem :
    (d : Capability) (ty : CapabilityType) (f : Function)
    → OrdMap.IsSorted f.capabilities
    → let g = insert_capability d ty f in
      ((t : CapabilityType) × (type_of d g ≡ some t) × IsStronger (type_of d f) ty t)
      × ((c : Capability) → c ≢ d → type_of c g ≡ type_of c f)
      × OrdMap.IsSorted g.capabilities
      × (g.name ≡ f.name)
      × (g.location ≡ f.location)
      × (g.syscalls ≡ f.syscalls)
unfolding insert_capability
insert_capability_lem d ty f s =
    let merged = merge_type (type_of d f) ty in
    let at = λ (c : Capability). OrdMap.lookup-insert c d merged f.capabilities in
    (
      (merged, ground (arith, at d, beq_iff d d), merge_type-IsStronger (type_of d f) ty),
      λ c ne. ground (arith, at c, beq_iff c d),
      OrdMap.insert-IsSorted d merged f.capabilities s,
      refl,
      refl,
      refl,
    )
