-- ===== src/Capslock/Report/Processes.antt =====
-- capslock/src/report.rs: what is written of a process.
use cargo_capslock.Prelude.{
  ◌≡◌, refl, ◌∙◌, Bool, false, ◌&&◌, ◌||◌, not, List, [], ◌∷◌, arith, Text, beq, text_ord,
}
use cargo_capslock.Collections.OrdSet
use cargo_capslock.Capslock.Caps.{Capability, capability_ord}
use cargo_capslock.Capslock.Report.{
  Function, Process, serialize_process, without_safe, collect_from,
}

-- Some function of the list has made the syscall.
abbrev pub any_syscall : Text → List Function → Bool
any_syscall s [] = false
any_syscall s (f ∷ fs) = OrdSet.contains s f.syscalls || any_syscall s fs

contains-collect_from :
    (s : Text) (acc : List Text) (fs : List Function)
    → OrdSet.contains s (collect_from acc fs) ≡ (OrdSet.contains s acc || any_syscall s fs)
contains-collect_from s acc [] = ground arith
contains-collect_from s acc (f ∷ fs) = ground (
  arith,
  contains-collect_from s (OrdSet.extend acc f.syscalls) fs,
  OrdSet.contains-extend s acc f.syscalls,
)

collect_from-IsSorted :
    (acc : List Text) (fs : List Function)
    → OrdSet.IsSorted acc
    → OrdSet.IsSorted (collect_from acc fs)
collect_from-IsSorted acc [] h = h
collect_from-IsSorted acc (f ∷ fs) h =
    collect_from-IsSorted (OrdSet.extend acc f.syscalls) fs
      (OrdSet.extend-IsSorted acc f.syscalls h)

-- A written process lists exactly the capabilities of the process other than `Safe`, and exactly the
-- syscalls that one of its functions has, both in order and without repetition; its path, functions
-- and edges are those of the process.
pub serialize_process_lem :
    (p : Process)
    → let raw = serialize_process p in
      ((c : Capability)
        → OrdSet.contains c raw.capabilities
          ≡ (OrdSet.contains c p.capabilities && not (beq c Capability.safe)))
      × ((s : Text) → OrdSet.contains s raw.syscalls ≡ any_syscall s p.functions)
      × OrdSet.IsSorted raw.capabilities
      × OrdSet.IsSorted raw.syscalls
      × (raw.path ≡ p.path)
      × (raw.functions ≡ p.functions)
      × (raw.edges ≡ p.edges)
unfolding serialize_process
serialize_process_lem p = (
  λ c.
      OrdSet.contains-extend c [] (without_safe p.capabilities)
      ∙ OrdSet.contains-filter c (λ d. not (beq d Capability.safe)) p.capabilities,
  λ s. contains-collect_from s [] p.functions,
  OrdSet.extend-IsSorted [] (without_safe p.capabilities) tt,
  collect_from-IsSorted [] p.functions tt,
  refl,
  refl,
  refl,
)
