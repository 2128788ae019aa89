-- ===== src/Runtime/Events/Traces.antt =====
-- src/runtime/mod.rs: what the return of a syscall records of its stack.
use cargo_capslock.Prelude.{
  ℕ, ◌≡◌, refl, sym, ◌∙◌, ap, subst, Bool, true, false, not, if◌then◌else◌, Option, none, some,
  List, [], ◌∷◌, ◌++◌, append_assoc, append-nil, Text, Result,
}
use cargo_capslock.Collections.OrdSet.{OrdSet}
use cargo_capslock.Capslock.Caps.{Capability}
use cargo_capslock.Capslock.Caps.Types.{CapabilityType}
use cargo_capslock.Graph.Drawn.{NamedCall}
use cargo_capslock.Runtime.Platform.{Platform, Procfs}
use cargo_capslock.Runtime.Fd.{Error}
use cargo_capslock.Runtime.Lookup.{Lookup}
use cargo_capslock.Runtime.Process.{
  State, StartBehaviour, set_active, is_waiting_for_start, start_seen, extend_caps,
  get_start_symbol,
}
use cargo_capslock.Runtime.Process.Grows.{Leaves, Leaves-functions, Leaves-calls}
use cargo_capslock.Runtime.Syscall.{Meta, into_capabilities}
use cargo_capslock.Runtime.Syscall.Exit.{into_capabilities-Leaves}
use cargo_capslock.Runtime.Events.{
  Env, GlobalState, Stack, Walk, walk, Recorded, record_names, count_caps, after_walk, exit_with,
}
use cargo_capslock.Runtime.Events.Stacks.{shown, Seen, stack_seen, stack_calls}
use cargo_capslock.Runtime.Events.Stacks.Holding.{Holds, record_names-Holds}
use cargo_capslock.Runtime.Events.Frames.{Trace, of_walk, of_frames, walk-of_frames}

module _ (P : Platform) (env : Env) where
  open P use {Fd, Sysno, petgraph}

  -- The names and the calls of stacks recorded in turn.
  abbrev pub all_seen : List Trace → List Seen
  all_seen [] = []
  all_seen ((caps, call, names) ∷ traces) =
      stack_seen env.symbolic caps call CapabilityType.direct names ++ all_seen traces

  abbrev pub all_calls : List Trace → List NamedCall
  all_calls [] = []
  all_calls ((caps, call, names) ∷ traces) = stack_calls env.symbolic none names ++ all_calls traces

  all_seen-append : (xs ys : List Trace) → all_seen (xs ++ ys) ≡ all_seen xs ++ all_seen ys
  all_seen-append [] ys = refl
  all_seen-append ((caps, call, names) ∷ xs) ys =
      let here = stack_seen env.symbolic caps call CapabilityType.direct names in
      ap (λ (l : List Seen). here ++ l) (all_seen-append xs ys)
      ∙ sym (append_assoc here (all_seen xs) (all_seen ys))

  all_calls-append : (xs ys : List Trace) → all_calls (xs ++ ys) ≡ all_calls xs ++ all_calls ys
  all_calls-append [] ys = refl
  all_calls-append ((caps, call, names) ∷ xs) ys =
      let here = stack_calls env.symbolic none names in
      ap (λ (l : List NamedCall). here ++ l) (all_calls-append xs ys)
      ∙ sym (append_assoc here (all_calls xs) (all_calls ys))

  -- The start symbol of a process, if it has one.
  abbrev pub start_of : StartBehaviour → Option Text
  start_of StartBehaviour.include_all = none
  start_of (StartBehaviour.only_after after) = some after

  get_start_symbol_lem : (s : State P) → get_start_symbol P s ≡ start_of s.start_behaviour
  unfolding get_start_symbol
  get_start_symbol_lem s = by_behaviour s.start_behaviour
    where
      by_behaviour :
          (b : StartBehaviour)
          → (elim b as (λ _. Option Text) [
            | StartBehaviour.include_all ↦ none
            | StartBehaviour.only_after after ↦ some after
          ])
            ≡ start_of b
      by_behaviour StartBehaviour.include_all = refl
      by_behaviour (StartBehaviour.only_after after) = refl

  -- What is recorded of the stack of a syscall that has returned: nothing, unless every frame has an
  -- instruction pointer, none shows the start symbol and the process does not wait for it.
  abbrev pub recordings :
      Option Text → Stack → State P × Result (Error Fd Sysno) (OrdSet Capability) → List Trace
  recordings call stack (s, Result.err e) = []
  recordings call none (s, Result.ok caps) = []
  recordings call (some frames) (s, Result.ok caps) =
      of_frames s.waiting_for_start (start_of s.start_behaviour) caps call frames []

  -- The account of stacks: the functions and calls of a state are those of the earlier one and those of
  -- the stacks.
  abbrev pub Records : State P → List Trace → State P → Type 0
  Records s traces s' =
      (seen : List Seen) (calls : List NamedCall)
      → Holds P env seen calls s
      → Holds P env (seen ++ all_seen traces) (calls ++ all_calls traces) s'

  same-Records :
      (s s' : State P) → s'.functions ≡ s.functions → s'.call_graph ≡ s.call_graph → Records s [] s'
  same-Records s s' f c seen calls h = record {
    table = rw (append-nil seen, f) h.table;
    drawn = rw (append-nil calls, f, c) h.drawn;
  }

  pub Leaves-Records : (s s' : State P) → Leaves P s s' → Records s [] s'
  Leaves-Records s s' h = same-Records s s' (Leaves-functions P s s' h) (Leaves-calls P s s' h)

  pub Records-follows :
      (s t u : State P) (xs ys : List Trace)
      → Records s xs t
      → Records t ys u
      → Records s (xs ++ ys) u
  Records-follows s t u xs ys h k seen calls at =
      rw
        (
          all_seen-append xs ys,
          all_calls-append xs ys,
          ← append_assoc seen (all_seen xs) (all_seen ys),
          ← append_assoc calls (all_calls xs) (all_calls ys),
        )
        (k (seen ++ all_seen xs) (calls ++ all_calls xs) (h seen calls at))

  count_caps-same :
      (caps : OrdSet Capability) (s : State P)
      → let s' = count_caps P env caps s in
        (s'.functions ≡ s.functions)
        × (s'.call_graph ≡ s.call_graph)
        × (is_waiting_for_start P s' ≡ is_waiting_for_start P s)
        × (get_start_symbol P s' ≡ get_start_symbol P s)
  unfolding extend_caps is_waiting_for_start get_start_symbol
  count_caps-same caps s = by_case (is_waiting_for_start P s)
    where
      by_case :
          (waiting : Bool)
          → let s' : State P = if not waiting then extend_caps P caps s else s in
            (s'.functions ≡ s.functions)
            × (s'.call_graph ≡ s.call_graph)
            × (is_waiting_for_start P s' ≡ is_waiting_for_start P s)
            × (get_start_symbol P s' ≡ get_start_symbol P s)
      by_case true = (refl, refl, refl, refl)
      by_case false = (refl, refl, refl, refl)

  after_walk-Records :
      (inc : Bool) (pid : ℕ) (nr : Option Sysno) (caps : OrdSet Capability) (w : Walk) (s : State P)
      (l : Lookup)
      → Records s
          (of_walk (is_waiting_for_start P s) caps (shown P inc nr) w)
          (after_walk P env inc pid nr caps w s l).0
  unfolding after_walk start_seen
  after_walk-Records inc pid nr caps Walk.unreadable s l = same-Records s s refl refl
  after_walk-Records inc pid nr caps Walk.at_start s l = same-Records s (start_seen P s) refl refl
  after_walk-Records inc pid nr caps (Walk.finished names) s l = started (is_waiting_for_start P s)
    where
      first : Recorded P env
      first = record { state = s; lookup = l; child_idx = none }

      started :
          (waiting : Bool)
          → let after : State P × Lookup =
              if not waiting
              then (let r = record_names P env inc pid nr caps names first in (r.state, r.lookup))
              else (s, l) in
            Records s (of_walk waiting caps (shown P inc nr) (Walk.finished names)) after.0
      started true = same-Records s s refl refl
      started false = λ seen calls h.
          rw
            (
              append-nil
                  (stack_seen env.symbolic caps (shown P inc nr) CapabilityType.direct names),
              append-nil (stack_calls env.symbolic none names),
            )
            (record_names-Holds P env inc pid nr caps names none first seen calls tt h)

  exit_with-Records :
      (pid : ℕ) (nr : Option Sysno) (stack : Stack) (g : GlobalState P env)
      (r : State P × Result (Error Fd Sysno) (OrdSet Capability))
      → (t : State P) × ((exit_with P env pid nr stack g r).0.processes
          ≡ set_active P pid t g.processes)
        × Records r.0 (recordings (shown P g.include_syscalls nr) stack r) t
  unfolding is_waiting_for_start
  exit_with-Records pid nr stack g (s, Result.err e) = (s, refl, same-Records s s refl refl)
  exit_with-Records pid nr none g (s, Result.ok caps) =
      let (f, c, _, _) = count_caps-same caps s in
      (count_caps P env caps s, refl, same-Records s (count_caps P env caps s) f c)
  exit_with-Records pid nr (some frames) g (s, Result.ok caps) =
      let t = count_caps P env caps s in
      let (f, c, waits, starts) = count_caps-same caps s in
      let w = walk (get_start_symbol P t) frames [] in
      let u = (after_walk P env g.include_syscalls pid nr caps w t g.location_lookup).0 in
      let step = after_walk-Records g.include_syscalls pid nr caps w t g.location_lookup in
      let call = shown P g.include_syscalls nr in
      let here = of_walk (is_waiting_for_start P t) caps call w in
      (
        u,
        refl,
        subst (λ (ts : List Trace). Records s ts u)
            (walk-of_frames (get_start_symbol P s) caps call frames (is_waiting_for_start P s)
              ∙ ap (λ (o : Option Text). of_frames (is_waiting_for_start P s) o caps call frames [])
                  (get_start_symbol_lem s))
            (subst
              (λ (b : Bool).
                Records s (of_walk b caps call (walk (get_start_symbol P s) frames [])) u)
              waits
              (subst
                (λ (o : Option Text).
                  Records s (of_walk (is_waiting_for_start P t) caps call (walk o frames [])) u)
                starts (Records-follows s t u [] here (same-Records s t f c) step))),
      )

  pub returned-Records :
      (proc : Procfs P) (pid : ℕ) (meta : Meta P) (sval : ℕ) (nr : Option Sysno) (stack : Stack)
      (g : GlobalState P env) (s : State P)
      → let r = into_capabilities P env.table proc meta sval s in
        (t : State P) × ((exit_with P env pid nr stack g r).0.processes
          ≡ set_active P pid t g.processes)
        × Records s (recordings (shown P g.include_syscalls nr) stack r) t
  returned-Records proc pid meta sval nr stack g s =
      let r = into_capabilities P env.table proc meta sval s in
      let kept = Leaves-Records s r.0 (into_capabilities-Leaves P proc env.table meta sval s) in
      let (t, at, more) = exit_with-Records pid nr stack g r in
      (
        t,
        at,
        Records-follows s r.0 t [] (recordings (shown P g.include_syscalls nr) stack r) kept more,
      )
