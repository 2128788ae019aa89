-- ===== src/Runtime/Fd/Inference.antt =====
-- src/runtime/fd.rs: what is inferred of a descriptor from procfs.
use cargo_capslock.Prelude.{
  ◌⊎◌, ℕ, ◌≡◌, refl, ap, inl, inr, Option, none, some, List, [], ◌∷◌, ◌++◌, Text, Result, All,
  Option-cases, trim_ascii, parse_octal,
}
use cargo_capslock.Runtime.Platform.{Platform}
use cargo_capslock.Runtime.Fd.{Error, flags_line, scan_fdinfo}

-- The line can be read, and shows no flags.
abbrev pub ShowsNone : Option Text → Type 0
ShowsNone none = ⊥
ShowsNone (some line) = flags_line line ≡ none

module _ (P : Platform) where
  open P use {Fd, Sysno}

  -- What the loop over the lines gives: the flags of the first line that shows some, unless that line has
  -- no number or a line before it cannot be read.
  abbrev pub Scanned : ℕ → Fd → List (Option Text) → Result (Error Fd Sysno) (Option ℕ) → Type 0
  Scanned pid fd lines (Result.ok none) = All ShowsNone lines
  Scanned pid fd lines (Result.ok (some n)) =
      (before : List (Option Text)) × (line : Text) × (flags : Text) × (after : List (Option Text))
      × (lines ≡ before ++ some line ∷ after)
      × All ShowsNone before
      × (flags_line line ≡ some flags)
      × (parse_octal (trim_ascii flags) ≡ some n)
  Scanned pid fd lines (Result.err e) =
      (before : List (Option Text)) × (line : Option Text) × (after : List (Option Text)) × (lines
        ≡ before ++ line ∷ after)
      × All ShowsNone before
      × (((line ≡ none) × (e ≡ Error.procfs_fdinfo fd pid))
          ⊎ ((text : Text) × (flags : Text) × (line ≡ some text)
              × (flags_line text ≡ some flags)
              × (parse_octal (trim_ascii flags) ≡ none)
              × (e ≡ Error.procfs_fdinfo_flag fd flags pid)))

  Scanned-cons :
      (pid : ℕ) (fd : Fd) (line : Text) (lines : List (Option Text))
      (r : Result (Error Fd Sysno) (Option ℕ))
      → flags_line line ≡ none
      → Scanned pid fd lines r
      → Scanned pid fd (some line ∷ lines) r
  Scanned-cons pid fd line lines (Result.ok none) h rest = (h, rest)
  Scanned-cons pid fd line lines (Result.ok (some n)) h (before, l, flags, after, e, all, at, p) = (
    some line ∷ before,
    l,
    flags,
    after,
    ap (λ (xs : List (Option Text)). some line ∷ xs) e,
    (h, all),
    at,
    p,
  )
  Scanned-cons pid fd line lines (Result.err x) h (before, l, after, e, all, why) = (
    some line ∷ before,
    l,
    after,
    ap (λ (xs : List (Option Text)). some line ∷ xs) e,
    (h, all),
    why,
  )

  -- The loop over the lines of fdinfo gives the number of the first line that shows flags, or none where no
  -- line does; it fails at a line before that which cannot be read, or at that line if it shows no number.
  pub scan_fdinfo-Scanned :
      (pid : ℕ) (fd : Fd) (lines : List (Option Text))
      → Scanned pid fd lines (scan_fdinfo P pid fd lines)
  unfolding scan_fdinfo
  scan_fdinfo-Scanned pid fd [] = tt
  scan_fdinfo-Scanned pid fd (none ∷ lines) = ([], none, lines, refl, tt, inl (refl, refl))
  scan_fdinfo-Scanned pid fd (some line ∷ lines) = elim (Option-cases (flags_line line)) [
    | inl h ↦
        rw (h, scan_fdinfo)
          (Scanned-cons pid fd line lines (scan_fdinfo P pid fd lines) h
            (scan_fdinfo-Scanned pid fd lines))
    | inr (flags, h) ↦ elim (Option-cases (parse_octal (trim_ascii flags))) [
      | inl p ↦
          rw (h, p, scan_fdinfo)
            ([], some line, lines, refl, tt, inr (line, flags, refl, h, p, refl))
      | inr (n, p) ↦ rw (h, p, scan_fdinfo) ([], line, flags, lines, refl, tt, h, p)
    ]
  ]
