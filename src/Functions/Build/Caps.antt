-- ===== src/Functions/Build/Caps.antt =====
-- src/function.rs: the capabilities that a function begins with.
use cargo_capslock.Prelude.{
  ◌≡◌, refl, none, some, List, [], arith, text_ord, if◌then◌else◌, Result, and_then-eq-ok,
}
use cargo_capslock.Collections.OrdMap
use cargo_capslock.Collections.OrdMap.{OrdMap}
use cargo_capslock.Collections.OrdSet
use cargo_capslock.Capslock.Caps.{Capability, capability_ord}
use cargo_capslock.Capslock.Caps.Types.{CapabilityType}
use cargo_capslock.Capslock.Report.{Function, FunctionName, display_name}
use cargo_capslock.Functions.Names.{Error}
use cargo_capslock.Locations.{into_option_location}
use cargo_capslock.Functions.Build.{
  Symbolic, FunctionCaps, get_caps, direct_fn_caps, ToFunction, to_function_with_fn_caps,
  parse_mangled_name,
}

-- The capabilities that the mapping lists for a function name.
abbrev pub listed : FunctionCaps → FunctionName → List Capability
listed fc name = elim (get_caps (display_name name) fc) [ some f ↦ f.caps | none ↦ [] ]

direct_fn_caps-eq-collect :
    (fc : FunctionCaps) (name : FunctionName)
    → direct_fn_caps fc name ≡ OrdMap.insert_all CapabilityType.direct [] (listed fc name)
unfolding direct_fn_caps
direct_fn_caps-eq-collect fc name = ground arith

-- A function built from the mapping has the parsed name, has exactly the capabilities that the
-- mapping lists for the display name of it, all direct and in order, and no syscalls. It is
-- built exactly when the name can be parsed, and otherwise the error is that of the name.
pub to_function_with_fn_caps_lem :
    (symbolic : Symbolic) (fc : FunctionCaps) (t : ToFunction)
    → ((e : Error)
        → parse_mangled_name symbolic t.mangled_name ≡ Result.err e
        → to_function_with_fn_caps symbolic fc t ≡ Result.err e)
      × ((name : FunctionName)
          → parse_mangled_name symbolic t.mangled_name ≡ Result.ok name
          → (f : Function) × (to_function_with_fn_caps symbolic fc t ≡ Result.ok f)
            × (f.name ≡ name)
            × OrdMap.IsSorted f.capabilities
            × (f.syscalls ≡ [])
            × ((c : Capability)
                → OrdMap.lookup c f.capabilities ≡ (
                    if OrdSet.contains c (listed fc name)
                    then some CapabilityType.direct
                    else none)))
unfolding to_function_with_fn_caps
to_function_with_fn_caps_lem symbolic fc t = (
  λ e h. rw h refl,
  λ name h. rw h (
    _,
    refl,
    refl,
    rw (direct_fn_caps-eq-collect fc name)
        (OrdMap.insert_all-IsSorted CapabilityType.direct [] (listed fc name) tt),
    refl,
    λ c.
        rw (direct_fn_caps-eq-collect fc name)
          (OrdMap.lookup-insert_all c CapabilityType.direct [] (listed fc name)),
  ),
)

-- What a function that is built from the mapping is.
pub to_function_with_fn_caps-inv :
    (symbolic : Symbolic) (fc : FunctionCaps) (t : ToFunction) (f : Function)
    → to_function_with_fn_caps symbolic fc t ≡ Result.ok f
    → (parse_mangled_name symbolic t.mangled_name ≡ Result.ok f.name)
      × (f.location ≡ into_option_location t.debugloc)
      × (f.syscalls ≡ [])
      × ((c : Capability)
          → OrdMap.lookup c f.capabilities
            ≡ (if OrdSet.contains c (listed fc f.name) then some CapabilityType.direct else none))
unfolding to_function_with_fn_caps
to_function_with_fn_caps-inv symbolic fc t f h =
    let (name, parsed, built) = and_then-eq-ok (parse_mangled_name symbolic t.mangled_name) _ h in
    let same : f ≡ record {
      name = name;
      location = into_option_location t.debugloc;
      capabilities = direct_fn_caps fc name;
      syscalls = [];
    } =
      cc in
    rw same (
      parsed,
      refl,
      refl,
      λ c.
          rw (direct_fn_caps-eq-collect fc name)
            (OrdMap.lookup-insert_all c CapabilityType.direct [] (listed fc name)),
    )
