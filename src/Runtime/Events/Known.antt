-- ===== src/Runtime/Events/Known.antt =====
-- src/runtime/mod.rs: recording a stack keeps the process sound, and changes no function that was known.
use cargo_capslock.Prelude.{
  ℕ, ◌<◌, ◌≡◌, refl, Bool, true, false, not, Option, none, some, List, [], ◌∷◌, arith, Text, Result,
  if◌then◌else◌, length, subst,
}
use cargo_capslock.Collections.OrdSet.{OrdSet}
use cargo_capslock.Capslock.Caps.{Capability}
use cargo_capslock.Capslock.Report.{Function}
use cargo_capslock.Functions.Names.{Error as NameError}
use cargo_capslock.Functions.Build.{to_function_with_caps}
use cargo_capslock.Runtime.Platform.{Platform}
use cargo_capslock.Runtime.Process.{
  State, add_edge, upsert_function, extend_caps, start_seen, is_waiting_for_start,
}
use cargo_capslock.Runtime.Process.Grows.{
  IsSound, Grows, Grows-refl, Grows-trans, same-Grows, upsert_function-Grows,
  upsert_function-in_range, add_edge-IsSound,
}
use cargo_capslock.Runtime.Lookup.{Lookup, find_location}
use cargo_capslock.Runtime.Events.{
  Env, Recorded, add_call, record_function, record_name, record_names, count_caps, after_walk, Walk,
  note_syscall, frame_type,
}

module _ (P : Platform) (env : Env) where
  open P use {Sysno}

  -- From the state `s₀` on: the process has grown, and the last frame has a known function.
  record Ready (s₀ : State P) (r : Recorded P env) : Type 0 where
    grows : Grows P s₀ r.state
    child : IsSound P s₀ → (c : ℕ) → r.child_idx ≡ some c → c < length r.state.functions.functions

  Ready-start :
      (s₀ : State P) (l : Lookup) → Ready s₀ (record { state = s₀; lookup = l; child_idx = none })
  Ready-start s₀ l = record { grows = Grows-refl P s₀; child = λ v c e. cc }

  -- A function is upserted, and called from the last frame's function.
  call-Ready :
      (s₀ : State P) (name : Text) (f : Function) (s : State P) (child : Option ℕ) (l : Lookup)
      → Grows P s₀ s
      → (IsSound P s₀ → (c : ℕ) → child ≡ some c → c < length s.functions.functions)
      → let (s', idx) = upsert_function P name f s in
        Ready s₀ (record { state = add_call P env idx child s'; lookup = l; child_idx = some idx })
  unfolding add_edge
  call-Ready s₀ name f s none l g h =
      let new = upsert_function-Grows P name f s in
      record {
        grows = Grows-trans P s₀ s _ g new;
        child = λ v c e.
            subst (λ (n : ℕ). n < length (upsert_function P name f s).0.functions.functions) (cc)
              (upsert_function-in_range P name f s (g.sound v));
      }
  call-Ready s₀ name f s (some callee) l g h =
      let new = upsert_function-Grows P name f s in
      let both = Grows-trans P s₀ s _ g new in
      let (s', idx) = upsert_function P name f s in
      let below = λ (v : IsSound P s₀). upsert_function-in_range P name f s (g.sound v) in
      record {
        grows = record {
          pid = both.pid;
          sound = λ v.
              unfold add_edge in
              (add_edge-IsSound P idx callee s' (below v) (omega (arith, h v callee refl, new.size))
                (both.sound v));
          size = both.size;
          stable = both.stable;
        };
        child = λ v c e. subst (λ (n : ℕ). n < length s'.functions.functions) (cc) (below v);
      }

  record_function-Ready :
      (s₀ : State P) (pid : ℕ) (name : Text) (f : Function) (r : Recorded P env)
      → Ready s₀ r
      → Ready s₀ (record_function P env pid name f r)
  unfolding record_function
  record_function-Ready s₀ pid name f r h =
      let (l, loc) = find_location env.debug pid name r.lookup in
      call-Ready s₀ name (record f { location = loc }) r.state r.child_idx l h.grows h.child

  record_name-Ready :
      (s₀ : State P) (inc : Bool) (pid : ℕ) (nr : Option Sysno) (caps : OrdSet Capability)
      (name : Text) (r : Recorded P env)
      → Ready s₀ r
      → Ready s₀ (record_name P env inc pid nr caps name r)
  unfolding record_name
  record_name-Ready s₀ inc pid nr caps name r h = after (
      to_function_with_caps env.symbolic (record { debugloc = none; mangled_name = name })
        (frame_type r.child_idx) caps)
    where
      after :
          (built : Result NameError Function)
          → Ready s₀ (elim built as (λ _. Recorded P env) [
            | Result.err _ ↦ r
            | Result.ok func ↦
                record_function P env pid name
                  (note_syscall P env inc (frame_type r.child_idx) nr func)
                  r
          ])
      after (Result.err _) = h
      after (Result.ok func) =
          record_function-Ready s₀ pid name
            (note_syscall P env inc (frame_type r.child_idx) nr func) r h

  record_names-Ready :
      (s₀ : State P) (inc : Bool) (pid : ℕ) (nr : Option Sysno) (caps : OrdSet Capability)
      (names : List Text) (r : Recorded P env)
      → Ready s₀ r
      → Ready s₀ (record_names P env inc pid nr caps names r)
  unfolding record_names
  record_names-Ready s₀ inc pid nr caps [] r h = h
  record_names-Ready s₀ inc pid nr caps (name ∷ names) r h =
      record_names-Ready s₀ inc pid nr caps names (record_name P env inc pid nr caps name r)
        (record_name-Ready s₀ inc pid nr caps name r h)

  pub after_walk-Grows :
      (inc : Bool) (pid : ℕ) (nr : Option Sysno) (caps : OrdSet Capability) (w : Walk) (s : State P)
      (l : Lookup)
      → Grows P s (after_walk P env inc pid nr caps w s l).0
  unfolding after_walk start_seen
  after_walk-Grows inc pid nr caps Walk.unreadable s l = Grows-refl P s
  after_walk-Grows inc pid nr caps Walk.at_start s l = same-Grows P s _ refl refl refl
  after_walk-Grows inc pid nr caps (Walk.finished names) s l = started (is_waiting_for_start P s)
    where
      started :
          (waiting : Bool)
          → let after : State P × Lookup =
              if not waiting
              then (let r =
                    record_names P env inc pid nr caps names
                      (record { state = s; lookup = l; child_idx = none }) in
                  (r.state, r.lookup))
              else (s, l) in
            Grows P s after.0
      started true = Grows-refl P s
      started false =
          (record_names-Ready s inc pid nr caps names
            (record { state = s; lookup = l; child_idx = none }) (Ready-start s l)).grows

  pub count_caps-Grows :
      (caps : OrdSet Capability) (s : State P) → Grows P s (count_caps P env caps s)
  unfolding extend_caps
  count_caps-Grows caps s = started (is_waiting_for_start P s)
    where
      started : (waiting : Bool) → Grows P s (if not waiting then extend_caps P caps s else s)
      started true = Grows-refl P s
      started false = same-Grows P s _ refl refl refl
