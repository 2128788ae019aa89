-- ===== src/Runtime/Events/Start.antt =====
-- src/runtime/mod.rs: nothing is counted before the start symbol has been seen.
use cargo_capslock.Prelude.{
  ℕ, ◌≡◌, ◌≢◌, refl, sym, ◌∙◌, ap, Bool, true, false, Option, none, some, List, [], ◌∷◌, ◌++◌,
  arith, Text, text_ord, Result, Option-cases, Bool-cases, inl, inr, beq, beq_iff, if◌then◌else◌,
}
use cargo_capslock.Collections.OrdSet.{OrdSet}
use cargo_capslock.Capslock.Caps.{Capability}
use cargo_capslock.Runtime.Platform.{Platform}
use cargo_capslock.Runtime.Fd.{Error}
use cargo_capslock.Runtime.Lookup.{Lookup}
use cargo_capslock.Runtime.Process.{
  State, StartBehaviour, get_start_symbol, is_waiting_for_start, start_seen,
}
use cargo_capslock.Runtime.Events.{
  Env, Frame, frame_name, Walk, walk, GlobalState, count_caps, after_walk, put, exit_with,
}

-- A frame of the stack has the name, and every frame from the innermost to it has an instruction pointer.
pub data Reaches (after : Text) : List Frame → Type 0 where
  found :
      (f : Frame) (ip : ℕ) (fs : List Frame)
      → f.ip ≡ some ip
      → frame_name f ip ≡ some after
      → Reaches after (f ∷ fs)
  outside :
      (f : Frame) (ip : ℕ) (fs : List Frame)
      → f.ip ≡ some ip
      → Reaches after fs
      → Reaches after (f ∷ fs)

walk_unreadable :
    (start : Option Text) (f : Frame) (fs : List Frame) (seen : List Text)
    → f.ip ≡ none
    → walk start (f ∷ fs) seen ≡ Walk.unreadable
unfolding walk
walk_unreadable start f fs seen e = ground arith

walk_unnamed :
    (start : Option Text) (f : Frame) (ip : ℕ) (fs : List Frame) (seen : List Text)
    → f.ip ≡ some ip
    → frame_name f ip ≡ none
    → walk start (f ∷ fs) seen ≡ walk start fs seen
unfolding walk
walk_unnamed start f ip fs seen e h = ground arith

walk_named :
    (after : Text) (f : Frame) (ip : ℕ) (name : Text) (fs : List Frame) (seen : List Text)
    → f.ip ≡ some ip
    → frame_name f ip ≡ some name
    → walk (some after) (f ∷ fs) seen
      ≡ (if beq name after then Walk.at_start else walk (some after) fs (seen ++ name ∷ []))
unfolding walk
walk_named after f ip name fs seen e h = ground arith

-- The walk ends at the start symbol exactly if the stack has it in a frame that the walk comes to.
walk-Reaches :
    (after : Text) (fs : List Frame) (seen : List Text)
    → Reaches after fs
    → walk (some after) fs seen ≡ Walk.at_start
walk-Reaches after _ seen (Reaches.found f ip fs e h) =
    walk_named after f ip after fs seen e h ∙ rw ((beq_iff after after).1 refl) refl
walk-Reaches after _ seen (Reaches.outside f ip fs e r) = elim (Option-cases (frame_name f ip)) [
  | inl h ↦ walk_unnamed (some after) f ip fs seen e h ∙ walk-Reaches after fs seen r
  | inr (name, h) ↦ elim (Bool-cases (beq name after)) [
    | inl same ↦ walk_named after f ip name fs seen e h ∙ rw same refl
    | inr other ↦
        walk_named after f ip name fs seen e h
        ∙ rw other (walk-Reaches after fs (seen ++ name ∷ []) r)
  ]
]

Reaches-walk :
    (after : Text) (fs : List Frame) (seen : List Text)
    → walk (some after) fs seen ≡ Walk.at_start
    → Reaches after fs
unfolding walk
Reaches-walk after [] seen h = cc
Reaches-walk after (f ∷ fs) seen h = elim (Option-cases f.ip) [
  | inl e ↦ cc (sym (walk_unreadable (some after) f fs seen e) ∙ h)
  | inr (ip, e) ↦ elim (Option-cases (frame_name f ip)) [
    | inl n ↦
        Reaches.outside f ip fs e
          (Reaches-walk after fs seen (sym (walk_unnamed (some after) f ip fs seen e n) ∙ h))
    | inr (name, n) ↦ elim (Bool-cases (beq name after)) [
      | inl same ↦ Reaches.found f ip fs e (n ∙ ap some ((beq_iff name after).0 same))
      | inr other ↦ Reaches.outside f ip fs e (
          Reaches-walk after fs (seen ++ name ∷ [])
            (rw other at (sym (walk_named after f ip name fs seen e n) ∙ h)))
    ]
  ]
]

module _ (P : Platform) (env : Env) where
  open P use {Fd, Sysno}

  waiting_is : (s : State P) → s.waiting_for_start ≡ true → is_waiting_for_start P s ≡ true
  unfolding is_waiting_for_start
  waiting_is s w = w

  start_symbol_is :
      (s : State P) (after : Text)
      → s.start_behaviour ≡ StartBehaviour.only_after after
      → get_start_symbol P s ≡ some after
  unfolding get_start_symbol
  start_symbol_is s after b = rw b refl

  count_caps-waiting :
      (caps : OrdSet Capability) (s : State P)
      → is_waiting_for_start P s ≡ true
      → count_caps P env caps s ≡ s
  count_caps-waiting caps s w = rw w refl

  after_walk-waiting :
      (inc : Bool) (pid : ℕ) (nr : Option Sysno) (caps : OrdSet Capability) (w : Walk) (s : State P)
      (l : Lookup)
      → is_waiting_for_start P s ≡ true
      → w ≢ Walk.at_start
      → after_walk P env inc pid nr caps w s l ≡ (s, l)
  unfolding after_walk
  after_walk-waiting inc pid nr caps Walk.unreadable s l h ne = refl
  after_walk-waiting inc pid nr caps Walk.at_start s l h ne = absurd (ne refl)
  after_walk-waiting inc pid nr caps (Walk.finished names) s l h ne = rw h refl

  after_walk-at_start :
      (inc : Bool) (pid : ℕ) (nr : Option Sysno) (caps : OrdSet Capability) (s : State P)
      (l : Lookup)
      → after_walk P env inc pid nr caps Walk.at_start s l
        ≡ (record s { waiting_for_start = false }, l)
  unfolding after_walk start_seen
  after_walk-at_start inc pid nr caps s l = refl

  module _ (pid : ℕ) (nr : Option Sysno) (g : GlobalState P env) (caps : OrdSet Capability) where
    -- The end of the return of a syscall, from how the walk over the stack ends.
    abbrev ended : State P × Lookup → GlobalState P env × Option (Error Fd Sysno)
    ended (s, l) = (put P env pid s l g, none)

    exit_with_step :
        (frames : List Frame) (s : State P) (after : Text)
        → is_waiting_for_start P s ≡ true
        → get_start_symbol P s ≡ some after
        → exit_with P env pid nr (some frames) g (s, Result.ok caps)
          ≡ ended (
              after_walk P env g.include_syscalls pid nr caps
                (walk (some after) frames [])
                s
                g.location_lookup)
    exit_with_step frames s after w b =
        ap
          (λ (t : State P). ended (
            after_walk P env g.include_syscalls pid nr caps (walk (get_start_symbol P t) frames [])
              t g.location_lookup))
          (count_caps-waiting caps s w)
        ∙ ap
            (λ (start : Option Text). ended (
              after_walk P env g.include_syscalls pid nr caps (walk start frames []) s
                g.location_lookup))
            b

  -- For a process that waits for its start symbol, the end of the return of a syscall counts no
  -- capability and records no function and no call: the process keeps the state that the syscall left it
  -- in, but that it waits no longer if the stack reaches the start symbol.
  pub exit_with_waiting :
      (pid : ℕ) (nr : Option P.Sysno) (frames : List Frame) (g : GlobalState P env) (s : State P)
      (caps : OrdSet Capability) (after : Text)
      → s.waiting_for_start ≡ true
      → s.start_behaviour ≡ StartBehaviour.only_after after
      → (Reaches after frames
          → exit_with P env pid nr (some frames) g (s, Result.ok caps)
            ≡ (put P env pid (record s { waiting_for_start = false }) g.location_lookup g, none))
        × (¬ Reaches after frames
            → exit_with P env pid nr (some frames) g (s, Result.ok caps)
              ≡ (put P env pid s g.location_lookup g, none))
  exit_with_waiting pid nr frames g s caps after w b =
      let waits = waiting_is s w in
      let step = exit_with_step pid nr g caps frames s after waits (start_symbol_is s after b) in
      let inc = g.include_syscalls in
      let l = g.location_lookup in
      (
        λ r.
            step
            ∙ ap (λ (v : Walk). ended pid nr g caps (after_walk P env inc pid nr caps v s l))
                (walk-Reaches after frames [] r)
            ∙ ap (ended pid nr g caps) (after_walk-at_start inc pid nr caps s l),
        λ far.
            step
            ∙ ap (ended pid nr g caps) (
                after_walk-waiting inc pid nr caps (walk (some after) frames []) s l waits
                  (λ e. far (Reaches-walk after frames [] e))),
      )
