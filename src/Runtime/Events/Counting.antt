-- ===== src/Runtime/Events/Counting.antt =====
-- src/runtime/mod.rs: the capabilities that a process is given by its system calls.
use cargo_capslock.Prelude.{
  ℕ, ◌≡◌, refl, ◌∙◌, ap, Bool, true, false, not, ◌||◌, if◌then◌else◌, Option, none, some, List, [],
  ◌∷◌, Text, Result,
}
use cargo_capslock.Collections.OrdSet
use cargo_capslock.Collections.OrdSet.{OrdSet}
use cargo_capslock.Capslock.Caps.{Capability, capability_ord}
use cargo_capslock.Capslock.Report.{Function}
use cargo_capslock.Functions.Names.{Error as NameError}
use cargo_capslock.Functions.Build.{to_function_with_caps}
use cargo_capslock.Runtime.Platform.{Platform}
use cargo_capslock.Runtime.Process.{
  State, add_edge, extend_caps, upsert_function, is_waiting_for_start, start_seen, get_start_symbol,
}
use cargo_capslock.Runtime.Lookup.{Lookup, find_location}
use cargo_capslock.Runtime.Events.{
  Env, Stack, Walk, walk, GlobalState, Recorded, add_call, note_syscall, frame_type,
  record_function, record_name, record_names, count_caps, after_walk, put, exit_with,
}

module _ (P : Platform) (env : Env) where
  open P use {Sysno}

  add_call-caps :
      (i : ℕ) (child : Option ℕ) (s : State P) → (add_call P env i child s).caps ≡ s.caps
  unfolding add_edge
  add_call-caps i none s = refl
  add_call-caps i (some c) s = refl

  record_function-caps :
      (pid : ℕ) (name : Text) (f : Function) (r : Recorded P env)
      → (record_function P env pid name f r).state.caps ≡ r.state.caps
  unfolding record_function upsert_function
  record_function-caps pid name f r =
      let loc = (find_location env.debug pid name r.lookup).1 in
      let up = upsert_function P name (record f { location = loc }) r.state in
      add_call-caps up.1 r.child_idx up.0

  module _ (inc : Bool) (pid : ℕ) (nr : Option Sysno) (caps : OrdSet Capability) where
    record_name-caps :
        (name : Text) (r : Recorded P env)
        → (record_name P env inc pid nr caps name r).state.caps ≡ r.state.caps
    unfolding record_name
    record_name-caps name r = after (
        to_function_with_caps env.symbolic (record { debugloc = none; mangled_name = name })
          (frame_type r.child_idx) caps)
      where
        after :
            (built : Result NameError Function)
            → let r' : Recorded P env = elim built [
              | Result.err _ ↦ r
              | Result.ok func ↦
                  record_function P env pid name
                    (note_syscall P env inc (frame_type r.child_idx) nr func)
                    r
            ] in
              r'.state.caps ≡ r.state.caps
        after (Result.err _) = refl
        after (Result.ok func) =
            record_function-caps pid name (note_syscall P env inc (frame_type r.child_idx) nr func)
              r

    record_names-caps :
        (names : List Text) (r : Recorded P env)
        → (record_names P env inc pid nr caps names r).state.caps ≡ r.state.caps
    unfolding record_names
    record_names-caps [] r = refl
    record_names-caps (x ∷ names) r =
        record_names-caps names (record_name P env inc pid nr caps x r) ∙ record_name-caps x r

    pub after_walk-caps :
        (w : Walk) (s : State P) (l : Lookup)
        → (after_walk P env inc pid nr caps w s l).0.caps ≡ s.caps
    unfolding after_walk start_seen
    after_walk-caps Walk.unreadable s l = refl
    after_walk-caps Walk.at_start s l = refl
    after_walk-caps (Walk.finished names) s l = started (is_waiting_for_start P s)
      where
        started :
            (waiting : Bool)
            → let after : State P × Lookup =
                if not waiting
                then (let r =
                      record_names P env inc pid nr caps names
                        (record { state = s; lookup = l; child_idx = none }) in
                    (r.state, r.lookup))
                else (s, l) in
              after.0.caps ≡ s.caps
        started true = refl
        started false = record_names-caps names (record { state = s; lookup = l; child_idx = none })

  count_caps-contains :
      (caps : OrdSet Capability) (s : State P) (c : Capability)
      → is_waiting_for_start P s ≡ false
      → OrdSet.contains c (count_caps P env caps s).caps
        ≡ (OrdSet.contains c s.caps || OrdSet.contains c caps)
  unfolding extend_caps
  count_caps-contains caps s c w = rw w (OrdSet.contains-extend c s.caps caps)

  -- The return of a syscall of a process that does not wait for its start symbol adds the capabilities of
  -- the syscall to those of the process, and no others, however unwinding the stack ends.
  pub exit_with_counts :
      (pid : ℕ) (nr : Option Sysno) (stack : Stack) (g : GlobalState P env) (s : State P)
      (caps : OrdSet Capability)
      → is_waiting_for_start P s ≡ false
      → (t : State P) × (l : Lookup) × ((exit_with P env pid nr stack g (s, Result.ok caps)).0
          ≡ put P env pid t l g)
        × ((c : Capability)
            → OrdSet.contains c t.caps ≡ (OrdSet.contains c s.caps || OrdSet.contains c caps))
  exit_with_counts pid nr none g s caps w =
      (count_caps P env caps s, g.location_lookup, refl, λ c. count_caps-contains caps s c w)
  exit_with_counts pid nr (some frames) g s caps w =
      let t = count_caps P env caps s in
      let end =
        after_walk P env g.include_syscalls pid nr caps (walk (get_start_symbol P t) frames []) t
          g.location_lookup in
      (
        end.0,
        end.1,
        refl,
        λ c.
            ap (OrdSet.contains c)
              (after_walk-caps g.include_syscalls pid nr caps _ t g.location_lookup)
            ∙ count_caps-contains caps s c w,
      )
