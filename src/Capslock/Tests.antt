-- ===== src/Capslock/Tests.antt =====
-- The crate capslock: runs, and the properties of its parts at them.
use cargo_capslock.Prelude.{
  ◌≡◌, ◌≢◌, refl, ◌↔◌, not, ◌&&◌, none, some, [], ◌∷◌, Text, codes, text_ord, beq,
}
use cargo_capslock.Collections.OrdMap
use cargo_capslock.Collections.OrdSet
use cargo_capslock.Capslock.Caps.{Capability, capability_ord}
use cargo_capslock.Capslock.Caps.Names.{
  to_string, from_str, deserialize, serialize, Deserialized, from_str-to_string, deserialize_iff,
}
use cargo_capslock.Capslock.Caps.Types.{CapabilityType}
use cargo_capslock.Capslock.Report.{
  Function, FunctionName, RustFunctionName, Process, insert_capability, serialize_process,
}
use cargo_capslock.Capslock.Report.Functions.{type_of, IsStronger, insert_capability_lem}
use cargo_capslock.Capslock.Report.Processes.{any_syscall, serialize_process_lem}

abbrev reader : Function
reader = record {
  name =
      FunctionName.rust (codes "a::read")
        (RustFunctionName.struct_method (codes "a") (codes "read"));
  location = none;
  capabilities =
      (Capability.safe, CapabilityType.direct) ∷ (Capability.files, CapabilityType.direct) ∷ [];
  syscalls = codes "openat" ∷ codes "read" ∷ [];
}

abbrev process : Process
process = record {
  path = codes "/bin/a";
  capabilities = Capability.safe ∷ Capability.files ∷ [];
  functions = reader ∷ [];
  edges = [];
}

from_str-to_string_example : from_str (to_string Capability.network) ≡ some Capability.network
from_str-to_string_example = from_str-to_string Capability.network

deserialize_iff_example :
    (deserialize (codes "CAPABILITY_FILES") ≡ Deserialized.ok Capability.files)
    ↔ (serialize Capability.files ≡ codes "CAPABILITY_FILES")
deserialize_iff_example = deserialize_iff (codes "CAPABILITY_FILES") Capability.files

insert_capability_lem_example :
    let g = insert_capability Capability.files CapabilityType.transitive reader in
    ((t : CapabilityType) × (type_of Capability.files g ≡ some t)
      × IsStronger (type_of Capability.files reader) CapabilityType.transitive t)
    × ((c : Capability) → c ≢ Capability.files → type_of c g ≡ type_of c reader)
    × OrdMap.IsSorted g.capabilities
    × (g.name ≡ reader.name)
    × (g.location ≡ reader.location)
    × (g.syscalls ≡ reader.syscalls)
insert_capability_lem_example =
    insert_capability_lem Capability.files CapabilityType.transitive reader (((refl, tt), (tt, tt)))

serialize_process_lem_example :
    let raw = serialize_process process in
    ((c : Capability)
      → OrdSet.contains c raw.capabilities
        ≡ (OrdSet.contains c process.capabilities && not (beq c Capability.safe)))
    × ((s : Text) → OrdSet.contains s raw.syscalls ≡ any_syscall s process.functions)
    × OrdSet.IsSorted raw.capabilities
    × OrdSet.IsSorted raw.syscalls
    × (raw.path ≡ process.path)
    × (raw.functions ≡ process.functions)
    × (raw.edges ≡ process.edges)
serialize_process_lem_example = serialize_process_lem process

-- What is written of the process leaves `Safe` out.
serialize_process_run : (serialize_process process).capabilities ≡ Capability.files ∷ []
unfolding serialize_process
serialize_process_run = refl
