-- ===== src/Runtime/Main/Failing.antt =====
-- src/runtime/mod.rs: why `Runtime::main` ends in an error.
use cargo_capslock.Prelude.{
  ℕ, ◌≡◌, refl, ◌∙◌, sym, subst, inl, inr, true, false, Option, none, some, List, [], ◌∷◌, Text,
  Result, Bool-cases, Option-cases, List-cases, ◌⊎◌,
}
use cargo_capslock.Capslock.Report.{Report}
use cargo_capslock.Runtime.Platform.{Platform}
use cargo_capslock.Runtime.Fd.{Error}
use cargo_capslock.Runtime.Process.{into_report}
use cargo_capslock.Runtime.Events.{Env, Event}
use cargo_capslock.Runtime.Main.{Runtime, System, create_output, main}
use cargo_capslock.Runtime.Main.Outcome.{Traced, end_state, main-finish, main_writes}

module _ (P : Platform) (env : Env) (self : Runtime) (sys : System P env) where
  open P use {Fd, Sysno}

  -- Why the command ends in an error: the first step that failed.
  pub data Fails : Error Fd Sysno → Type 0 where
    argv0 : self.argv ≡ [] → Fails Error.argv0
    spawn :
        (path : Text) (argv : List Text)
        → self.argv ≡ path ∷ argv
        → sys.spawn path argv ≡ none
        → Fails Error.spawn
    signals :
        (path : Text) (argv : List Text) (pid : ℕ)
        → self.argv ≡ path ∷ argv
        → sys.spawn path argv ≡ some pid
        → sys.forward pid ≡ false
        → Fails Error.signals
    cwd :
        (path : Text) (argv : List Text) (pid : ℕ)
        → self.argv ≡ path ∷ argv
        → sys.spawn path argv ≡ some pid
        → sys.forward pid ≡ true
        → sys.current_dir ≡ none
        → Fails Error.cwd
    tracer :
        (path : Text) (argv : List Text) (pid : ℕ) (wd : Text)
        → self.argv ≡ path ∷ argv
        → sys.spawn path argv ≡ some pid
        → sys.forward pid ≡ true
        → sys.current_dir ≡ some wd
        → sys.trace pid ≡ none
        → Fails Error.tracer
    output_create :
        (path : Text) (argv : List Text) (pid : ℕ) (wd : Text)
        (results : List (Option (Event P env))) (to : Text)
        → Traced P env self sys path argv pid wd results
        → self.output ≡ some to
        → sys.create to ≡ false
        → Fails Error.output_create
    output_write :
        (path : Text) (argv : List Text) (pid : ℕ) (wd : Text)
        (results : List (Option (Event P env))) (r : Report)
        → Traced P env self sys path argv pid wd results
        → create_output P env self.output sys ≡ Result.ok tt
        → into_report P self.include_children
            (end_state P env self sys path argv pid wd results).processes
          ≡ Result.ok r
        → sys.write self.output r ≡ false
        → Fails Error.output_write

  created_or :
      (output : Option Text)
      → (create_output P env output sys ≡ Result.ok tt)
        ⊎ ((to : Text) × (output ≡ some to)
            × (sys.create to ≡ false)
            × (create_output P env output sys ≡ Result.err Error.output_create))
  unfolding create_output
  created_or none = inl refl
  created_or (some to) = elim (Bool-cases (sys.create to)) [
    | inl e ↦ inl (rw e refl)
    | inr e ↦ inr (to, refl, e, rw e refl)
  ]

  finish-Fails :
      (path : Text) (argv : List Text) (pid : ℕ) (wd : Text) (results : List (Option (Event P env)))
      (e : Error Fd Sysno)
      → Traced P env self sys path argv pid wd results
      → main P env self sys ≡ Result.err e
      → Fails e
  finish-Fails path argv pid wd results e t h = elim (created_or self.output) [
    | inr (to, at, refused, failed) ↦
        let ends = sym (main-finish P env self sys path argv pid wd results t) ∙ h in
        let same : Error.output_create ≡ e = cc (rw failed at ends) in
        subst Fails same (Fails.output_create path argv pid wd results to t at refused)
    | inl created ↦
        let (r, is, _, _, written, unwritten) =
          main_writes P env self sys path argv pid wd results t created in
        elim (Bool-cases (sys.write self.output r)) [
          | inl w ↦ cc (written w)
          | inr w ↦
              let same : Error.output_write ≡ e = cc (unwritten w) in
              subst Fails same (Fails.output_write path argv pid wd results r t created is w)
        ]
  ]

  -- Every error of the command is that of the first of its steps that fails; it never ends in the error
  -- that the first process is missing.
  pub main-Fails : (e : Error Fd Sysno) → main P env self sys ≡ Result.err e → Fails e
  unfolding main
  main-Fails e h = elim (List-cases self.argv) [
    | inl a ↦ let same : Error.argv0 ≡ e = cc (rw a at h) in subst Fails same (Fails.argv0 a)
    | inr (path, argv, a) ↦ elim (Option-cases (sys.spawn path argv)) [
      | inl s ↦
          let same : Error.spawn ≡ e = cc (rw (a, s) at h) in
          subst Fails same (Fails.spawn path argv a s)
      | inr (pid, s) ↦ elim (Bool-cases (sys.forward pid)) [
        | inr f ↦
            let same : Error.signals ≡ e = cc (rw (a, s, f) at h) in
            subst Fails same (Fails.signals path argv pid a s f)
        | inl f ↦ elim (Option-cases sys.current_dir) [
          | inl d ↦
              let same : Error.cwd ≡ e = cc (rw (a, s, f, d) at h) in
              subst Fails same (Fails.cwd path argv pid a s f d)
          | inr (wd, d) ↦ elim (Option-cases (sys.trace pid)) [
            | inl t ↦
                let same : Error.tracer ≡ e = cc (rw (a, s, f, d, t) at h) in
                subst Fails same (Fails.tracer path argv pid wd a s f d t)
            | inr (results, t) ↦
                finish-Fails path argv pid wd results e
                  (record { command = a; spawned = s; forwarded = f; directory = d; traced = t }) h
          ]
        ]
      ]
    ]
  ]
