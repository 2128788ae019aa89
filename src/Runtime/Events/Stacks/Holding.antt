-- ===== src/Runtime/Events/Stacks/Holding.antt =====
-- src/runtime/mod.rs: what recording a stack adds to the functions and calls of a process.
use cargo_capslock.Prelude.{
  ℕ, ◌≡◌, refl, sym, ◌∙◌, ap, Bool, if◌then◌else◌, inl, inr, Option, none, some, true, false, List,
  [], ◌∷◌, ◌++◌, append_assoc, append-nil, Text, text_ord, Result, Result-cases,
}
use cargo_capslock.Collections.OrdMap
use cargo_capslock.Collections.OrdSet
use cargo_capslock.Collections.OrdSet.{OrdSet}
use cargo_capslock.Capslock.Caps.{Capability, capability_ord}
use cargo_capslock.Capslock.Caps.Types.{CapabilityType}
use cargo_capslock.Capslock.Report.{Function, FunctionName, insert_syscall}
use cargo_capslock.Functions.Map.{FunctionMap, get_index, upsert}
use cargo_capslock.Functions.Map.Upsert.{upsert_lem, Extends, upsert-Extends}
use cargo_capslock.Functions.Map.Filled.{IsFilled, upsert-IsFilled}
use cargo_capslock.Functions.Names.{Error as NameError}
use cargo_capslock.Functions.Build.{parse_mangled_name, to_function_with_caps}
use cargo_capslock.Graph.Drawn.{NamedCall, Draws, Draws-more, add_edge-Draws}
use cargo_capslock.Locations.{into_option_location}
use cargo_capslock.Runtime.Platform.{Platform}
use cargo_capslock.Runtime.Process.{State, add_edge, upsert_function}
use cargo_capslock.Runtime.Lookup.{find_location}
use cargo_capslock.Runtime.Events.{
  Env, Recorded, add_call, frame_type, note_syscall, record_function, record_name, record_names,
}
use cargo_capslock.Runtime.Events.Typed.{note_syscall-same, recorded, record_name_step}
use cargo_capslock.Runtime.Events.Stacks.{
  Seen, seen_name, stack_seen, stack_calls, stack_seen-parsed, stack_seen-passed, call_of,
  stack_calls-parsed, stack_calls-passed, as_list, call_after, shown, Shows, type_after,
}

module _ (P : Platform) (env : Env) where
  open P use {Sysno, petgraph}

  -- The functions of the process are those of the names seen, the first time for each, and its edges
  -- those of the calls.
  pub record Holds (seen : List Seen) (calls : List NamedCall) (s : State P) : Type 0 where
    pub table : IsFilled seen_name (Shows env.symbolic) seen s.functions
    pub drawn : Draws calls s.functions (petgraph.all_edges s.call_graph)

  -- The last function recorded is that of the last name.
  abbrev IsInner : FunctionMap → Option Text → Option ℕ → Type 0
  IsInner m none none = Unit
  IsInner m none (some c) = ⊥
  IsInner m (some i) none = ⊥
  IsInner m (some i) (some c) = get_index i m ≡ some c

  IsInner-type :
      (m : FunctionMap) (inner : Option Text) (child : Option ℕ)
      → IsInner m inner child
      → frame_type child ≡ type_after inner
  IsInner-type m none none h = refl
  IsInner-type m none (some c) h = absurd h
  IsInner-type m (some i) none h = absurd h
  IsInner-type m (some i) (some c) h = refl

  -- A name is noted with the syscall if it is the innermost one.
  note_syscall-syscalls :
      (inc : Bool) (nr : Option Sysno) (f : Function)
      → f.syscalls ≡ []
      → ((note_syscall P env inc CapabilityType.direct nr f).syscalls ≡ as_list (shown P inc nr))
        × ((note_syscall P env inc CapabilityType.transitive nr f).syscalls ≡ [])
  unfolding insert_syscall
  note_syscall-syscalls true (some nr) f h = (rw h refl, h)
  note_syscall-syscalls true none f h = (h, h)
  note_syscall-syscalls false nr f h = (h, h)

  frame_type-syscalls :
      (inc : Bool) (nr : Option Sysno) (m : FunctionMap) (inner : Option Text) (child : Option ℕ)
      (f : Function)
      → IsInner m inner child
      → f.syscalls ≡ []
      → (note_syscall P env inc (frame_type child) nr f).syscalls
        ≡ as_list (call_after inner (shown P inc nr))
  frame_type-syscalls inc nr m none none f is h = (note_syscall-syscalls inc nr f h).0
  frame_type-syscalls inc nr m none (some c) f is h = absurd is
  frame_type-syscalls inc nr m (some i) none f is h = absurd is
  frame_type-syscalls inc nr m (some i) (some c) f is h = (note_syscall-syscalls inc nr f h).1

  add_call-Draws :
      (calls : List NamedCall) (n : Text) (idx : ℕ) (inner : Option Text) (child : Option ℕ)
      (s : State P)
      → get_index n s.functions ≡ some idx
      → IsInner s.functions inner child
      → Draws calls s.functions (petgraph.all_edges s.call_graph)
      → Draws
          (calls ++ call_of env.symbolic inner n)
          s.functions
          (petgraph.all_edges (add_call P env idx child s).call_graph)
  unfolding add_edge into_option_location
  add_call-Draws calls n idx none none s at h d = rw (append-nil calls) d
  add_call-Draws calls n idx none (some c) s at h d = absurd h
  add_call-Draws calls n idx (some i) none s at h d = absurd h
  add_call-Draws calls n idx (some i) (some c) s at h d =
      add_edge-Draws petgraph calls s.functions n i none idx c s.call_graph at h d

  add_call-functions :
      (idx : ℕ) (child : Option ℕ) (s : State P)
      → (add_call P env idx child s).functions ≡ s.functions
  unfolding add_edge
  add_call-functions idx none s = refl
  add_call-functions idx (some c) s = refl

  IsInner-more :
      (m m' : FunctionMap) (inner : Option Text) (child : Option ℕ)
      → Extends m m'
      → IsInner m inner child
      → IsInner m' inner child
  IsInner-more m m' none none e h = tt
  IsInner-more m m' none (some c) e h = h
  IsInner-more m m' (some i) none e h = h
  IsInner-more m m' (some i) (some c) e h = e.names i c h

  module _ (inc : Bool) (pid : ℕ) (nr : Option Sysno) (caps : OrdSet Capability) where
    abbrev made : Text → FunctionName → Recorded P env → Function
    made n name r = record (recorded P env inc pid nr caps name r.child_idx) {
      location = (find_location env.debug pid n r.lookup).1;
    }

    -- What a name is seen as, by the last one before it.
    abbrev seen_as : Text → Option Text → Seen
    seen_as n inner = record {
      mangled = n;
      ty = type_after inner;
      caps = caps;
      syscall = call_after inner (shown P inc nr);
    }

    made-Shows :
        (n : Text) (name : FunctionName) (inner : Option Text) (r : Recorded P env)
        → parse_mangled_name env.symbolic n ≡ Result.ok name
        → IsInner r.state.functions inner r.child_idx
        → Shows env.symbolic (seen_as n inner) (made n name r)
    made-Shows n name inner r h is =
        let ty = frame_type r.child_idx in
        let (name_kept, caps_kept) = note_syscall-same P env inc ty nr _ in
        let typed = IsInner-type r.state.functions inner r.child_idx is in
        (
          h ∙ ap Result.ok (sym name_kept),
          λ c.
              ap (OrdMap.lookup c) caps_kept
              ∙ OrdMap.lookup-insert_all c ty [] caps
              ∙ ap (λ (u : CapabilityType). if OrdSet.contains c caps then some u else none) typed,
          frame_type-syscalls inc nr r.state.functions inner r.child_idx _ is refl,
        )

    record_function-Holds :
        (n : Text) (name : FunctionName) (inner : Option Text) (r : Recorded P env)
        (seen : List Seen) (calls : List NamedCall)
        → parse_mangled_name env.symbolic n ≡ Result.ok name
        → IsInner r.state.functions inner r.child_idx
        → Holds seen calls r.state
        → let r' =
            record_function P env pid n (recorded P env inc pid nr caps name r.child_idx) r in
          Holds (seen ++ seen_as n inner ∷ []) (calls ++ call_of env.symbolic inner n) r'.state
          × IsInner r'.state.functions (some n) r'.child_idx
    unfolding record_function upsert_function
    record_function-Holds n name inner r seen calls h is holds =
        let f = made n name r in
        let (m', idx) = upsert n f r.state.functions in
        let s' : State P = record r.state { functions = m' } in
        let ext = upsert-Extends n f r.state.functions in
        let at = (upsert_lem n f r.state.functions).0 in
        let same = add_call-functions idx r.child_idx s' in
        let now = IsInner-more r.state.functions m' inner r.child_idx ext is in
        let kept =
          Draws-more calls r.state.functions m' (petgraph.all_edges r.state.call_graph) ext.names
            holds.drawn in
        let t : Seen = seen_as n inner in
        (
          record {
            table = rw same (
                upsert-IsFilled seen_name (Shows env.symbolic) seen r.state.functions t f
                  (made-Shows n name inner r h is) holds.table);
            drawn = rw same (add_call-Draws calls n idx inner r.child_idx s' at now kept);
          },
          rw same at,
        )

    record_name_passed :
        (n : Text) (e : NameError) (r : Recorded P env)
        → parse_mangled_name env.symbolic n ≡ Result.err e
        → record_name P env inc pid nr caps n r ≡ r
    unfolding record_name to_function_with_caps
    record_name_passed n e r h = rw (h, record_name, to_function_with_caps) refl

    record_names_step :
        (n : Text) (names : List Text) (r : Recorded P env)
        → record_names P env inc pid nr caps (n ∷ names) r
          ≡ record_names P env inc pid nr caps names (record_name P env inc pid nr caps n r)
    unfolding record_names
    record_names_step n names r = refl

    -- Recording a stack, from the last name before it on.
    pub record_names-Holds :
        (names : List Text) (inner : Option Text) (r : Recorded P env) (seen : List Seen)
        (calls : List NamedCall)
        → IsInner r.state.functions inner r.child_idx
        → Holds seen calls r.state
        → Holds
            (seen
              ++ stack_seen env.symbolic caps
                  (call_after inner (shown P inc nr))
                  (type_after inner)
                  names)
            (calls ++ stack_calls env.symbolic inner names)
            (record_names P env inc pid nr caps names r).state
    record_names-Holds [] inner r seen calls is holds =
        unfold record_names in rw (append-nil seen, append-nil calls) holds
    record_names-Holds (n ∷ names) inner r seen calls is holds =
        elim (Result-cases (parse_mangled_name env.symbolic n)) [
          | inl (name, h) ↦
              let t : Seen = seen_as n inner in
              let (now, last) = record_function-Holds n name inner r seen calls h is holds in
              let rest =
                record_names-Holds names (some n)
                  (record_function P env pid n (recorded P env inc pid nr caps name r.child_idx) r)
                  (seen ++ t ∷ []) (calls ++ call_of env.symbolic inner n) last now in
              rw
                (
                  record_names_step n names r,
                  record_name_step P env inc pid nr caps n name r h,
                  stack_seen-parsed env.symbolic caps (call_after inner (shown P inc nr))
                      (type_after inner) n name names h,
                  stack_calls-parsed env.symbolic inner n name names h,
                  ← append_assoc seen (t ∷ [])
                      (stack_seen env.symbolic caps none CapabilityType.transitive names),
                  ← append_assoc calls (call_of env.symbolic inner n)
                      (stack_calls env.symbolic (some n) names),
                )
                rest
          | inr (e, h) ↦
              rw
                (
                  record_names_step n names r,
                  record_name_passed n e r h,
                  stack_seen-passed env.symbolic caps (call_after inner (shown P inc nr))
                      (type_after inner) n e names h,
                  stack_calls-passed env.symbolic inner n e names h,
                )
                (record_names-Holds names inner r seen calls is holds)
        ]
