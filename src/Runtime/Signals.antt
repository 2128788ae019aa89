-- ===== src/Runtime/Signals.antt =====
-- src/runtime/signal.rs: the thread that passes signals on to the traced process.
use cargo_capslock.Prelude.{
  ℕ, ◌≡◌, refl, ◌⊎◌, inl, inr, Bool, true, false, Option, none, some, List, [], ◌∷◌, ◌++◌,
  Option-cases, Bool-cases, ap, if◌then◌else◌,
}
use cargo_capslock.Runtime.Platform.{Platform}
use cargo_capslock.Runtime.Fd.{Error}

-- `nix::sys::signal`: the signal of a raw number, and `kill`, of which false is an error.
pub record Signals : Type 1 where
  pub Signal : Type 0
  pub try_into : ℕ → Option Signal
  pub kill : ℕ → Signal → Bool

module _ (P : Platform) (nix : Signals) where
  open P use {Fd, Sysno}
  open nix use {Signal, try_into, kill}

  -- `SignalForwarder::listen`, of the signals until the handle is closed: those that were passed on, and
  -- the error that ended the loop.
  unfoldable pub listen : ℕ → List ℕ → List Signal × Option (Error Fd Sysno)
  listen pid [] = ([], none)
  listen pid (signal ∷ signals) =
      let (sent, e) = listen pid signals in
      elim (try_into signal) [
        | none ↦ ([], some Error.signal)
        | some s ↦ if kill pid s then (s ∷ sent, e) else ([], some Error.kill)
      ]

  -- All signals up to here are passed on, in order.
  abbrev pub PassedOn : ℕ → List ℕ → List Signal → Type 0
  PassedOn pid [] [] = Unit
  PassedOn pid [] (s ∷ sent) = ⊥
  PassedOn pid (n ∷ ns) [] = ⊥
  PassedOn pid (n ∷ ns) (s ∷ sent) =
      (try_into n ≡ some s) × (kill pid s ≡ true) × PassedOn pid ns sent

  -- Why the loop ends at a signal.
  abbrev pub StopsAt : ℕ → ℕ → Error Fd Sysno → Type 0
  StopsAt pid n e =
      ((try_into n ≡ none) × (e ≡ Error.signal))
      ⊎ ((s : Signal) × (try_into n ≡ some s) × (kill pid s ≡ false) × (e ≡ Error.kill))

  -- What ends the loop.
  abbrev pub Ended : ℕ → List ℕ → List Signal → Option (Error Fd Sysno) → Type 0
  Ended pid signals sent none = PassedOn pid signals sent
  Ended pid signals sent (some e) =
      (before : List ℕ) × (n : ℕ) × (after : List ℕ) × (signals ≡ before ++ n ∷ after)
      × PassedOn pid before sent
      × StopsAt pid n e

  Ended-cons :
      (pid n : ℕ) (s : Signal) (ns : List ℕ) (sent : List Signal) (e : Option (Error Fd Sysno))
      → try_into n ≡ some s
      → kill pid s ≡ true
      → Ended pid ns sent e
      → Ended pid (n ∷ ns) (s ∷ sent) e
  Ended-cons pid n s ns sent none h k rest = (h, k, rest)
  Ended-cons pid n s ns sent (some e) h k (before, m, after, same, passed, stop) =
      (n ∷ before, m, after, ap (λ (xs : List ℕ). n ∷ xs) same, (h, k, passed), stop)

  -- Every signal up to the first that is not known or cannot be sent is passed on to the process, in
  -- order; the loop ends there with the error of it, and otherwise passes on all signals.
  pub listen-Ended :
      (pid : ℕ) (signals : List ℕ) → let (sent, e) = listen pid signals in Ended pid signals sent e
  unfolding listen
  listen-Ended pid [] = tt
  listen-Ended pid (n ∷ ns) = elim (Option-cases (try_into n)) [
    | inl h ↦ rw (h, listen) ([], n, ns, refl, tt, inl (h, refl))
    | inr (s, h) ↦ elim (Bool-cases (kill pid s)) [
      | inl k ↦ rw (h, k, listen) (Ended-cons pid n s ns _ _ h k (listen-Ended pid ns))
      | inr k ↦ rw (h, k, listen) ([], n, ns, refl, tt, inr (s, h, k, refl))
    ]
  ]
