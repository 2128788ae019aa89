-- ===== src/Runtime/Events/Typed.antt =====
-- src/runtime/mod.rs: the capabilities that a function is recorded with.
use cargo_capslock.Prelude.{
  ℕ, ◌≡◌, refl, ap, sym, ◌∙◌, subst, Bool, true, false, if◌then◌else◌, Option, none, some, List, [],
  ◌∷◌, Text, Result,
}
use cargo_capslock.Collections.OrdMap
use cargo_capslock.Collections.OrdMap.{OrdMap}
use cargo_capslock.Collections.OrdSet
use cargo_capslock.Collections.OrdSet.{OrdSet}
use cargo_capslock.Capslock.Caps.{Capability, capability_ord}
use cargo_capslock.Capslock.Caps.Types.{CapabilityType}
use cargo_capslock.Capslock.Report.{Function, FunctionName, insert_syscall}
use cargo_capslock.Functions.Map.{get, get_index, upsert}
use cargo_capslock.Functions.Map.Upsert.{upsert_lem}
use cargo_capslock.Functions.Build.{parse_mangled_name, to_function_with_caps, collect_caps}
use cargo_capslock.Locations.{into_option_location}
use cargo_capslock.Runtime.Platform.{Platform}
use cargo_capslock.Runtime.Process.{State, add_edge, upsert_function}
use cargo_capslock.Runtime.Lookup.{find_location}
use cargo_capslock.Runtime.Events.{
  Env, Recorded, add_call, note_syscall, frame_type, record_function, record_name, record_names,
}
use cargo_capslock.Runtime.Events.Lasts.{IsIndex, Lasts}
use cargo_capslock.Runtime.Events.Chain.{names-Lasts}

-- The type of a capability by whether a frame inside has been recorded.
abbrev pub type_behind : Option ℕ → CapabilityType
type_behind none = CapabilityType.direct
type_behind (some _) = CapabilityType.transitive

frame_type-type_behind : (inner : Option ℕ) → frame_type inner ≡ type_behind inner
frame_type-type_behind none = refl
frame_type-type_behind (some _) = refl

module _ (P : Platform) (env : Env) where
  open P use {Sysno}

  -- The process has a function of the name with the capabilities of a map.
  abbrev pub HasFunction : State P → Text → FunctionName → OrdMap Capability CapabilityType → Type 0
  HasFunction s x n caps =
      (i : ℕ) × (f : Function) × IsIndex P s x i
      × (get i s.functions ≡ some f)
      × (f.name ≡ n)
      × (f.capabilities ≡ caps)

  Lasts-HasFunction :
      (s s' : State P) (x : Text) (n : FunctionName) (caps : OrdMap Capability CapabilityType)
      → Lasts P s s'
      → HasFunction s x n caps
      → HasFunction s' x n caps
  Lasts-HasFunction s s' x n caps h (i, f, ix, at, named, same) =
      (i, f, h.index x i ix, h.entry i f at, named, same)

  add_call-HasFunction :
      (i : ℕ) (child : Option ℕ) (s : State P) (x : Text) (n : FunctionName)
      (caps : OrdMap Capability CapabilityType)
      → HasFunction s x n caps
      → HasFunction (add_call P env i child s) x n caps
  unfolding add_edge
  add_call-HasFunction i none s x n caps h = h
  add_call-HasFunction i (some c) s x n caps h = h

  upsert_function-HasFunction :
      (x : Text) (f : Function) (s : State P)
      → get_index x s.functions ≡ none
      → HasFunction (upsert_function P x f s).0 x f.name f.capabilities
  unfolding upsert_function
  upsert_function-HasFunction x f s h =
      let (named, _, _, new, _) = upsert_lem x f s.functions in
      ((upsert x f s.functions).1, f, named, (new h).0, refl, refl)

  pub note_syscall-same :
      (inc : Bool) (ty : CapabilityType) (nr : Option Sysno) (f : Function)
      → ((note_syscall P env inc ty nr f).name ≡ f.name)
        × ((note_syscall P env inc ty nr f).capabilities ≡ f.capabilities)
  unfolding insert_syscall
  note_syscall-same true CapabilityType.direct (some nr) f = (refl, refl)
  note_syscall-same true CapabilityType.direct none f = (refl, refl)
  note_syscall-same true CapabilityType.unspecified nr f = (refl, refl)
  note_syscall-same true CapabilityType.transitive nr f = (refl, refl)
  note_syscall-same false ty nr f = (refl, refl)

  record_function-HasFunction :
      (pid : ℕ) (x : Text) (f : Function) (r : Recorded P env)
      → get_index x r.state.functions ≡ none
      → HasFunction (record_function P env pid x f r).state x f.name f.capabilities
  unfolding record_function
  record_function-HasFunction pid x f r h =
      let loc = (find_location env.debug pid x r.lookup).1 in
      let g : Function = record f { location = loc } in
      add_call-HasFunction (upsert_function P x g r.state).1 r.child_idx
        (upsert_function P x g r.state).0 x f.name f.capabilities
        (upsert_function-HasFunction x g r.state h)

  module _ (inc : Bool) (pid : ℕ) (nr : Option Sysno) (caps : OrdSet Capability) where
    -- The function that is made of a name, before its location is known.
    abbrev pub recorded : FunctionName → Option ℕ → Function
    recorded n child = note_syscall P env inc (frame_type child) nr (record {
      name = n;
      location = none;
      capabilities = collect_caps (frame_type child) caps;
      syscalls = [];
    })

    pub record_name_step :
        (x : Text) (n : FunctionName) (r : Recorded P env)
        → parse_mangled_name env.symbolic x ≡ Result.ok n
        → record_name P env inc pid nr caps x r
          ≡ record_function P env pid x (recorded n r.child_idx) r
    unfolding record_name to_function_with_caps into_option_location
    record_name_step x n r h = rw (h, record_name, to_function_with_caps) refl

    record_name-HasFunction :
        (x : Text) (n : FunctionName) (r : Recorded P env)
        → parse_mangled_name env.symbolic x ≡ Result.ok n
        → get_index x r.state.functions ≡ none
        → HasFunction
            (record_name P env inc pid nr caps x r).state
            x
            n
            (collect_caps (frame_type r.child_idx) caps)
    record_name-HasFunction x n r h new =
        let (i, f, ix, at, named, same) =
          record_function-HasFunction pid x (recorded n r.child_idx) r new in
        let (name_kept, caps_kept) = note_syscall-same inc (frame_type r.child_idx) nr _ in
        subst
          (λ (q : Recorded P env).
            HasFunction q.state x n (collect_caps (frame_type r.child_idx) caps))
          (sym (record_name_step x n r h)) (i, f, ix, at, named ∙ name_kept, same ∙ caps_kept)

    -- A name that can be parsed and has no function when its turn comes has one once the stack is recorded,
    -- with the name that it was parsed to and exactly the capabilities of the syscall: direct if no name was
    -- recorded before it, and transitive otherwise.
    pub record_names_typed :
        (x : Text) (n : FunctionName) (names : List Text) (r : Recorded P env)
        → parse_mangled_name env.symbolic x ≡ Result.ok n
        → get_index x r.state.functions ≡ none
        → let end = record_names P env inc pid nr caps (x ∷ names) r in
          (i : ℕ) × (f : Function) × IsIndex P end.state x i
          × (get i end.state.functions ≡ some f)
          × (f.name ≡ n)
          × ((c : Capability)
              → OrdMap.lookup c f.capabilities
                ≡ (if OrdSet.contains c caps then some (type_behind r.child_idx) else none))
    unfolding record_names
    record_names_typed x n names r h new =
        let r' = record_name P env inc pid nr caps x r in
        let (i, f, ix, at, named, same) =
          Lasts-HasFunction r'.state _ x n (collect_caps (frame_type r.child_idx) caps)
            (names-Lasts P env inc pid nr caps names r') (record_name-HasFunction x n r h new) in
        (
          i,
          f,
          ix,
          at,
          named,
          λ c.
              ap (OrdMap.lookup c) same
              ∙ OrdMap.lookup-insert_all c (frame_type r.child_idx) [] caps
              ∙ ap (λ (ty : CapabilityType). if OrdSet.contains c caps then some ty else none)
                  (frame_type-type_behind r.child_idx),
        )
