-- ===== src/Runtime/Fd/Inferred.antt =====
-- src/runtime/fd.rs: what is inferred of a descriptor from procfs, or why it fails.
use cargo_capslock.Prelude.{
  ◌⊎◌, ℕ, ◌<◌, ◌^◌, ◌≡◌, refl, inl, inr, Option, none, some, List, Text, Result, and_then, ok_or,
  trim_ascii, parse_octal-bound,
}
use cargo_capslock.Runtime.Platform.{Platform, Procfs}
use cargo_capslock.Runtime.Fd.{
  FdMeta, Error, scan_fdinfo, pid_fd_flags, type_from_procfs, meta_from_procfs,
}
use cargo_capslock.Runtime.Fd.Inference.{Scanned, scan_fdinfo-Scanned}
use cargo_capslock.Runtime.Fd.Links.{TypeOf, type_from_procfs-TypeOf}

module _ (P : Platform) (proc : Procfs P) where
  open P use {Fd, Sysno}

  -- What is inferred of a descriptor, or why nothing is.
  abbrev pub Inferred : ℕ → Fd → Result (Error Fd Sysno) FdMeta → Type 0
  Inferred pid fd (Result.ok meta) =
      (lines : List (Option Text)) × (link : Text) × (proc.fdinfo pid fd ≡ some lines)
      × Scanned P pid fd lines (Result.ok (some meta.flags))
      × (meta.flags < 2 ^ 32)
      × (proc.read_link pid fd ≡ some link)
      × TypeOf P proc link meta.ty
  Inferred pid fd (Result.err e) =
      ((proc.fdinfo pid fd ≡ none) × (e ≡ Error.procfs_fdinfo fd pid))
      ⊎ ((lines : List (Option Text)) × (proc.fdinfo pid fd ≡ some lines)
          × (Scanned P pid fd lines (Result.err e)
              ⊎ ((Scanned P pid fd lines (Result.ok none)
                    × (e ≡ Error.procfs_fdinfo_missing fd pid))
                  ⊎ ((n : ℕ) × Scanned P pid fd lines (Result.ok (some n))
                      × (proc.read_link pid fd ≡ none)
                      × (e ≡ Error.procfs_fd fd pid)))))

  abbrev by_link_text : ℕ → Text → Result (Error Fd Sysno) FdMeta
  by_link_text flags link = Result.ok (record { flags = flags; ty = type_from_procfs P proc link })

  module _ (pid : ℕ) (fd : Fd) where
    abbrev with_flags : ℕ → Result (Error Fd Sysno) FdMeta
    with_flags flags =
        and_then (ok_or (proc.read_link pid fd) (Error.procfs_fd fd pid)) (by_link_text flags)

    abbrev with_found : Option ℕ → Result (Error Fd Sysno) FdMeta
    with_found found = and_then (ok_or found (Error.procfs_fdinfo_missing fd pid)) with_flags

    flags-Inferred :
        (lines : List (Option Text)) (n : ℕ) (o : Option Text)
        → proc.fdinfo pid fd ≡ some lines
        → Scanned P pid fd lines (Result.ok (some n))
        → proc.read_link pid fd ≡ o
        → Inferred pid fd (and_then (ok_or o (Error.procfs_fd fd pid)) (by_link_text n))
    flags-Inferred lines n none shown scanned e =
        inr (lines, shown, inr (inr (n, scanned, e, refl)))
    flags-Inferred lines n (some link) shown scanned e =
        let (_, _, flags, _, _, _, _, parsed) = scanned in
        (
          lines,
          link,
          shown,
          scanned,
          parse_octal-bound (trim_ascii flags) n parsed,
          e,
          type_from_procfs-TypeOf P proc link,
        )

    Scanned-Inferred :
        (lines : List (Option Text)) (r : Result (Error Fd Sysno) (Option ℕ))
        → proc.fdinfo pid fd ≡ some lines
        → Scanned P pid fd lines r
        → Inferred pid fd (and_then r with_found)
    Scanned-Inferred lines (Result.err e) shown scanned = inr (lines, shown, inl scanned)
    Scanned-Inferred lines (Result.ok none) shown scanned =
        inr (lines, shown, inr (inl (scanned, refl)))
    Scanned-Inferred lines (Result.ok (some n)) shown scanned =
        flags-Inferred lines n (proc.read_link pid fd) shown scanned refl

    lines-Inferred :
        (o : Option (List (Option Text)))
        → proc.fdinfo pid fd ≡ o
        → Inferred pid fd (
            and_then
              (and_then (ok_or o (Error.procfs_fdinfo fd pid)) (scan_fdinfo P pid fd))
              with_found)
    lines-Inferred none e = inl (e, refl)
    lines-Inferred (some lines) e =
        Scanned-Inferred lines (scan_fdinfo P pid fd lines) e (scan_fdinfo-Scanned P pid fd lines)

  -- What is inferred of a descriptor from procfs. Its flags are the number of the first line of fdinfo that
  -- shows flags, and fit the 32 bits of a C int. Its type is that of the file that its link resolves to, with
  -- the resolved path; only where there is none, a link `socket:[n]` gives a socket with the inode n, which
  -- fits 64 bits, a link that begins with `pipe:[` a pipe, and any other an unknown type. It fails only
  -- where fdinfo cannot be read, or shows no flags or no number, or where the link cannot be read, with the
  -- error of that.
  pub meta_from_procfs-Inferred :
      (pid : ℕ) (fd : Fd) → Inferred pid fd (meta_from_procfs P proc pid fd)
  unfolding meta_from_procfs pid_fd_flags
  meta_from_procfs-Inferred pid fd = lines-Inferred pid fd (proc.fdinfo pid fd) refl
