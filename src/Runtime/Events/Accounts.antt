-- ===== src/Runtime/Events/Accounts.antt =====
-- src/runtime/mod.rs: the capabilities of a process after a run, against the syscalls that returned in it.
use cargo_capslock.Prelude.{
  ℕ, ◌≡◌, refl, ◌∙◌, ap, Bool, ◌||◌, if◌then◌else◌, Option, none, some, List, [], ◌++◌, arith, All,
  Result, Bool-cases, inl, inr, Text,
}
use cargo_capslock.Collections.OrdSet
use cargo_capslock.Collections.OrdSet.{OrdSet}
use cargo_capslock.Capslock.Caps.{Capability, capability_ord}
use cargo_capslock.Capslock.Report.{Report, Process}
use cargo_capslock.Runtime.Platform.{Platform, Procfs}
use cargo_capslock.Runtime.Fd.{Error}
use cargo_capslock.Runtime.Process.{
  State, StartBehaviour, Exec, set_active, is_waiting_for_start, extend_caps, into_process,
  into_report, get_start_symbol,
}
use cargo_capslock.Runtime.Process.Grows.{Leaves, Leaves-caps}
use cargo_capslock.Runtime.Syscall.{Meta, into_capabilities}
use cargo_capslock.Runtime.Syscall.Exit.{into_capabilities-Leaves}
use cargo_capslock.Runtime.Events.{
  Env, GlobalState, Stack, Event, walk, count_caps, after_walk, exit_with, handle_events, new_state,
}
use cargo_capslock.Runtime.Events.Counting.{after_walk-caps}
use cargo_capslock.Runtime.Events.Ledger.{Ledger, logged, CreatesOther}
use cargo_capslock.Runtime.Events.Ledger.Followed.{report-logged}

module _ (P : Platform) (env : Env) where
  open P use {Fd, Sysno}

  -- The capabilities that the return of a syscall counts for its process: those of the syscall, unless
  -- it fails or the process waits for its start symbol.
  abbrev pub allowed : State P × Result (Error Fd Sysno) (OrdSet Capability) → List Capability
  allowed (s, Result.err e) = []
  allowed (s, Result.ok caps) = if is_waiting_for_start P s then [] else caps

  count_caps-allowed :
      (caps : OrdSet Capability) (s : State P) (c : Capability)
      → OrdSet.contains c (count_caps P env caps s).caps
        ≡ (OrdSet.contains c s.caps || OrdSet.contains c (allowed (s, Result.ok caps)))
  unfolding extend_caps
  count_caps-allowed caps s c = elim (Bool-cases (is_waiting_for_start P s)) [
    | inl w ↦ rw w (ground arith)
    | inr w ↦ rw w (OrdSet.contains-extend c s.caps caps)
  ]

  -- The end of the return of a syscall.
  exit_with-allowed :
      (pid : ℕ) (nr : Option Sysno) (stack : Stack) (g : GlobalState P env)
      (r : State P × Result (Error Fd Sysno) (OrdSet Capability))
      → (t : State P) × ((exit_with P env pid nr stack g r).0.processes
          ≡ set_active P pid t g.processes)
        × ((c : Capability)
            → OrdSet.contains c t.caps
              ≡ (OrdSet.contains c r.0.caps || OrdSet.contains c (allowed r)))
  exit_with-allowed pid nr stack g (s, Result.err e) = (s, refl, λ c. ground arith)
  exit_with-allowed pid nr none g (s, Result.ok caps) =
      (count_caps P env caps s, refl, count_caps-allowed caps s)
  exit_with-allowed pid nr (some frames) g (s, Result.ok caps) =
      let t = count_caps P env caps s in
      let w = walk (get_start_symbol P t) frames [] in
      (
        (after_walk P env g.include_syscalls pid nr caps w t g.location_lookup).0,
        refl,
        λ c.
            ap (OrdSet.contains c)
              (after_walk-caps P env g.include_syscalls pid nr caps w t g.location_lookup)
            ∙ count_caps-allowed caps s c,
      )

  -- The account of capabilities: those of a state are those of the earlier one and the entries.
  abbrev pub Gains : State P → List Capability → State P → Type 0
  Gains s more s' =
      (c : Capability)
      → OrdSet.contains c s'.caps ≡ (OrdSet.contains c s.caps || OrdSet.contains c more)

  pub Leaves-Gains : (s s' : State P) → Leaves P s s' → Gains s [] s'
  Leaves-Gains s s' h c = ap (OrdSet.contains c) (Leaves-caps P s s' h) ∙ ground arith

  pub Gains-follows :
      (s t u : State P) (xs ys : List Capability)
      → Gains s xs t
      → Gains t ys u
      → Gains s (xs ++ ys) u
  Gains-follows s t u xs ys h k c = ground (arith, k c, h c, OrdSet.contains-append c xs ys)

  pub returned-Gains :
      (proc : Procfs P) (pid : ℕ) (meta : Meta P) (sval : ℕ) (nr : Option Sysno) (stack : Stack)
      (g : GlobalState P env) (s : State P)
      → let r = into_capabilities P env.table proc meta sval s in
        (t : State P) × ((exit_with P env pid nr stack g r).0.processes
          ≡ set_active P pid t g.processes)
        × Gains s (allowed r) t
  returned-Gains proc pid meta sval nr stack g s =
      let r = into_capabilities P env.table proc meta sval s in
      let kept = Leaves-caps P s r.0 (into_capabilities-Leaves P proc env.table meta sval s) in
      let (t, at, more) = exit_with-allowed pid nr stack g r in
      (
        t,
        at,
        λ c.
            more c
            ∙ ap (λ (cs : OrdSet Capability). OrdSet.contains c cs || OrdSet.contains c (allowed r))
                kept,
      )

  abbrev pub capabilities : Ledger P env
  capabilities = record {
    Entry = Capability;
    adds = λ proc meta sval nr stack g s. allowed (into_capabilities P env.table proc meta sval s);
    Logs = Gains;
    leaves = Leaves-Gains;
    follows = Gains-follows;
    returns = returned-Gains;
  }

  -- What the events of a run count for a process, each in the state that it comes in.
  abbrev pub counted : ℕ → List (Event P env) → GlobalState P env → List Capability
  counted = logged P env capabilities

  -- A run in which no new process has the pid of the first one has a report, and the capabilities of
  -- its process are exactly those that the events count for the first process: those of each syscall
  -- that returned in it without an error, while it did not wait for its start symbol.
  pub report_counted :
      (pid : ℕ) (exec : Exec) (wd : Text) (start : StartBehaviour)
      (syscalls locations children : Bool) (es : List (Event P env))
      → All (CreatesOther P env pid) es
      → let g = new_state P env pid exec wd start syscalls locations in
        (r : Report) × (into_report P children (handle_events P env es g).processes ≡ Result.ok r)
        × ((c : Capability)
            → OrdSet.contains c r.process.capabilities ≡ OrdSet.contains c (counted pid es g))
  unfolding into_process
  report_counted pid exec wd start syscalls locations children es h =
      let (r, e, (s, same, gains)) =
        report-logged P env capabilities pid exec wd start syscalls locations children es h in
      (r, e, λ c. ap (λ (p : Process). OrdSet.contains c p.capabilities) same ∙ gains c)
