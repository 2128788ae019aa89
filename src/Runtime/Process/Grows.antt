-- ===== src/Runtime/Process/Grows.antt =====
-- src/runtime/process.rs: what holds of the functions and calls of a process, and how they may change.
use cargo_capslock.Prelude.{
  ℕ, ◌<◌, ◌≤◌, ◌≡◌, refl, ◌∙◌, ap, Bool, none, arith, Text, All, length, Result,
}
use cargo_capslock.Capslock.Report.{Function}
use cargo_capslock.Collections.OrdSet.{OrdSet}
use cargo_capslock.Capslock.Caps.{Capability}
use cargo_capslock.Functions.Map.{FunctionMap, get, upsert}
use cargo_capslock.Functions.Map.Upsert.{IsValid, upsert-IsValid, upsert_lem, upsert-Extends}
use cargo_capslock.Graph.Ends.{IsWithin, IsWithin-more}
use cargo_capslock.Graph.CallGraph.{all_edges-add_edge}
use cargo_capslock.Runtime.Platform.{Platform, Procfs}
use cargo_capslock.Runtime.Fd.{FdMeta, Error, meta_from_procfs}
use cargo_capslock.Runtime.Process.{
  State, StartBehaviour, add_edge, upsert_function, infer_fd, insert_fd, is_waiting_for_start,
}

module _ (P : Platform) where
  open P use {petgraph}

  -- Names and indices correspond, and every edge of the call graph is between functions.
  pub record IsSound (s : State P) : Type 0 where
    pub valid : IsValid s.functions
    pub within : All (IsWithin (length s.functions.functions)) (petgraph.all_edges s.call_graph)

  -- A later state of the same process: it is sound if the earlier one is, and every function that
  -- was known is still there, unchanged.
  pub record Grows (s s' : State P) : Type 0 where
    pub pid : s'.pid ≡ s.pid
    pub sound : IsSound s → IsSound s'
    pub size : length s.functions.functions ≤ length s'.functions.functions
    pub stable : (i : ℕ) → i < length s.functions.functions → get i s'.functions ≡ get i s.functions

  pub Grows-refl : (s : State P) → Grows s s
  Grows-refl s = record { pid = refl; sound = λ h. h; size = omega arith; stable = λ i h. refl }

  pub Grows-trans : (s t u : State P) → Grows s t → Grows t u → Grows s u
  Grows-trans s t u h k = record {
    pid = k.pid ∙ h.pid;
    sound = λ v. k.sound (h.sound v);
    size = omega (arith, h.size, k.size);
    stable = λ i lt. k.stable i (omega (arith, h.size)) ∙ h.stable i lt;
  }

  -- A step that leaves the functions and the calls alone.
  pub same-Grows :
      (s s' : State P)
      → s'.pid ≡ s.pid
      → s'.functions ≡ s.functions
      → s'.call_graph ≡ s.call_graph
      → Grows s s'
  same-Grows s s' p f g = record {
    pid = p;
    sound = λ v. record { valid = rw f v.valid; within = rw (f, g) v.within };
    size = rw f (omega arith);
    stable = λ i lt. rw f refl;
  }

  -- What the bookkeeping of descriptors, programs and directories leaves alone.
  abbrev core :
      State P → ℕ × FunctionMap × petgraph.Graph × OrdSet Capability × Bool × StartBehaviour
  core s = (s.pid, s.functions, s.call_graph, s.caps, s.waiting_for_start, s.start_behaviour)

  abbrev pub Leaves : State P → State P → Type 0
  Leaves s s' = core s' ≡ core s

  pub Leaves-Grows : (s s' : State P) → Leaves s s' → Grows s s'
  Leaves-Grows s s' h = same-Grows s s' (ap (λ c. c.0) h) (ap (λ c. c.1) h) (ap (λ c. c.2) h)

  pub Leaves-functions : (s s' : State P) → Leaves s s' → s'.functions ≡ s.functions
  Leaves-functions s s' h = ap (λ c. c.1) h

  pub Leaves-calls : (s s' : State P) → Leaves s s' → s'.call_graph ≡ s.call_graph
  Leaves-calls s s' h = ap (λ c. c.2) h

  pub Leaves-caps : (s s' : State P) → Leaves s s' → s'.caps ≡ s.caps
  Leaves-caps s s' h = ap (λ c. c.3) h

  pub Leaves-waiting :
      (s s' : State P) → Leaves s s' → is_waiting_for_start P s' ≡ is_waiting_for_start P s
  unfolding is_waiting_for_start
  Leaves-waiting s s' h = ap (λ c. c.4) h

  pub infer_fd-Leaves :
      (proc : Procfs P) (fd : P.Fd) (s : State P) → Leaves s (infer_fd P proc fd s).0
  unfolding infer_fd insert_fd
  infer_fd-Leaves proc fd s = after (meta_from_procfs P proc s.pid fd)
    where
      after :
          (r : Result (Error P.Fd P.Sysno) FdMeta)
          → Leaves s
              (elim r as (λ _. State P × Result (Error P.Fd P.Sysno) FdMeta) [
                | Result.err e ↦ (s, Result.err e)
                | Result.ok meta ↦ (insert_fd P fd meta s, Result.ok meta)
              ]).0
      after (Result.err e) = refl
      after (Result.ok meta) = refl

  module _ (mangled : Text) (f : Function) (s : State P) where
    abbrev upserted : State P × ℕ
    upserted = upsert_function P mangled f s

    pub upsert_function-Grows : Grows s upserted.0
    unfolding upsert_function
    upsert_function-Grows =
        let ext = upsert-Extends mangled f s.functions in
        let n = length s.functions.functions in
        record {
          pid = refl;
          sound = λ v. record {
            valid = ext.valid v.valid;
            within =
                IsWithin-more n (length upserted.0.functions.functions)
                  (petgraph.all_edges s.call_graph) ext.size v.within;
          };
          size = ext.size;
          stable = (upsert_lem mangled f s.functions).2;
        }

    -- The index that is returned is of a function.
    pub upsert_function-in_range : IsSound s → upserted.1 < length upserted.0.functions.functions
    unfolding upsert_function
    upsert_function-in_range v =
        let grown = upsert-IsValid mangled f s.functions v.valid in
        grown.in_range mangled (upsert mangled f s.functions).1 (upsert_lem mangled f s.functions).0

  -- An edge between functions keeps the state sound.
  pub add_edge-IsSound :
      (a b : ℕ) (s : State P)
      → a < length s.functions.functions
      → b < length s.functions.functions
      → IsSound s
      → IsSound (add_edge P a b s)
  unfolding add_edge
  add_edge-IsSound a b s ha hb v = record {
    valid = v.valid;
    within =
        all_edges-add_edge petgraph (IsWithin (length s.functions.functions)) a b none s.call_graph
          (λ _. (ha, hb)) v.within;
  }
