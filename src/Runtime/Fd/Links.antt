-- ===== src/Runtime/Fd/Links.antt =====
-- src/runtime/fd.rs: the type of a descriptor by what its link resolves to, or by its text.
use cargo_capslock.Prelude.{
  ◌⊎◌, ◌∙◌, ℕ, ◌<◌, ◌^◌, ◌≡◌, refl, ap, inl, inr, Option, none, some, [], ◌∷◌, ◌++◌, Bool-cases,
  true, is_utf8, parse_u64, reverse, reverse-append, reverse-cons, reverse-reverse,
  strip_prefix_sound, strip_prefix-append, ◌==◌, ==_iff, sym, List-cases, Text, arith, Option-cases,
  codes, strip_prefix, parse_u64-bound,
}
use cargo_capslock.Runtime.Platform.{Platform, Procfs, FileKind}
use cargo_capslock.Runtime.Fd.{
  FdType, type_of_kind, socket_inode_of, type_of_link, strip_last, type_from_procfs,
}

-- The link of a socket with the number of an inode, which fits 64 bits.
abbrev pub IsSocket : Text → ℕ → Type 0
IsSocket link n =
    (digits : Text) × (link ≡ codes "socket:[" ++ (digits ++ codes "]"))
    × (is_utf8 digits ≡ true)
    × (parse_u64 digits ≡ some n)
    × (n < 2 ^ 64)

abbrev pub IsPipe : Text → Type 0
IsPipe link = (rest : Text) × (link ≡ codes "pipe:[" ++ rest)

strip_last_sound : (b : ℕ) (s r : Text) → strip_last b s ≡ some r → s ≡ r ++ b ∷ []
strip_last_sound b s r h = elim (List-cases (reverse s)) [
  | inl e ↦ cc (rw (e, strip_last) at h)
  | inr (c, t, e) ↦ elim (Bool-cases (c == b)) [
    | inr other ↦ cc (rw (e, other, strip_last) at h)
    | inl same ↦
        let kept : some (reverse t) ≡ some r = rw (e, same, strip_last) at h in
        let is : reverse t ≡ r = cc in
        let last : c ≡ b = (==_iff c b).0 same in
        sym (reverse-reverse s)
        ∙ ap reverse e
        ∙ reverse-cons c t
        ∙ ap (λ (u : Text). u ++ c ∷ []) is
        ∙ ap (λ (d : ℕ). r ++ d ∷ []) last
  ]
]

socket_inode_of_sound : (link : Text) (n : ℕ) → socket_inode_of link ≡ some n → IsSocket link n
unfolding socket_inode_of
socket_inode_of_sound link n h = elim (Option-cases (strip_prefix (codes "socket:[") link)) [
  | inl e ↦ ground arith
  | inr (rem, e) ↦ elim (Option-cases (strip_last b']' rem)) [
    | inl f ↦ ground arith
    | inr (bytes, f) ↦ elim (Bool-cases (is_utf8 bytes)) [
      | inr u ↦ cc (rw (e, f, u) at h)
      | inl u ↦
          let parsed : parse_u64 bytes ≡ some n = rw (e, f, u) at h in
          (
            bytes,
            strip_prefix_sound (codes "socket:[") link rem e
                ∙ ap (λ (t : Text). codes "socket:[" ++ t) (strip_last_sound b']' rem bytes f),
            u,
            parsed,
            parse_u64-bound bytes n parsed,
          )
    ]
  ]
]

strip_last-append : (b : ℕ) (r : Text) → strip_last b (r ++ b ∷ []) ≡ some r
strip_last-append b r =
    let turned : reverse (r ++ b ∷ []) ≡ b ∷ reverse r = reverse-append r (b ∷ []) in
    let same : (b == b) ≡ true = (==_iff b b).1 refl in
    let back = reverse-reverse r in rw (turned, same, back, strip_last) refl

socket_inode_of-IsSocket : (link : Text) (n : ℕ) → IsSocket link n → socket_inode_of link ≡ some n
unfolding socket_inode_of
socket_inode_of-IsSocket link n (digits, at, u, parsed, _) =
    let last = strip_last-append b']' digits in rw (at, last, u) parsed

-- The path behind the link cannot be resolved, or shows no metadata.
abbrev pub IsMissing : (P : Platform) → Procfs P → Text → Type 0
IsMissing P proc link =
    (proc.canonicalize link ≡ none)
    ⊎ ((path : Text) × (proc.canonicalize link ≡ some path) × (proc.file_kind path ≡ none))

abbrev pub IsKind : (P : Platform) → Procfs P → Text → Text → FileKind → Type 0
IsKind P proc link path kind =
    (proc.canonicalize link ≡ some path) × (proc.file_kind path ≡ some kind)

-- The type of a descriptor by its link: by the kind of the file that it resolves to, with the resolved
-- path, and only without such a file by the text of the link.
pub data TypeOf (P : Platform) (proc : Procfs P) (link : Text) : FdType → Type 0 where
  directory :
      (path : Text)
      → IsKind P proc link path FileKind.dir
      → TypeOf P proc link (FdType.directory path)
  file :
      (path : Text) → IsKind P proc link path FileKind.file → TypeOf P proc link (FdType.file path)
  block :
      (path : Text)
      → IsKind P proc link path FileKind.block_device
      → TypeOf P proc link (FdType.block path)
  char :
      (path : Text)
      → IsKind P proc link path FileKind.char_device
      → TypeOf P proc link (FdType.char path)
  named_pipe :
      (path : Text) → IsKind P proc link path FileKind.fifo → TypeOf P proc link FdType.fifo
  strange :
      (path : Text) → IsKind P proc link path FileKind.other → TypeOf P proc link FdType.unknown
  socket_inode :
      (n : ℕ) → IsMissing P proc link → IsSocket link n → TypeOf P proc link (FdType.socket_inode n)
  pipe : IsMissing P proc link → IsPipe link → TypeOf P proc link FdType.fifo
  unknown :
      IsMissing P proc link
      → ((n : ℕ) → ¬ IsSocket link n)
      → (¬ IsPipe link)
      → TypeOf P proc link FdType.unknown

module _ (P : Platform) (proc : Procfs P) where
  open P use {Fd, Sysno}

  kind-TypeOf :
      (link path : Text) (kind : FileKind)
      → IsKind P proc link path kind
      → TypeOf P proc link (type_of_kind kind path)
  unfolding type_of_kind
  kind-TypeOf link path FileKind.dir h = TypeOf.directory path h
  kind-TypeOf link path FileKind.file h = TypeOf.file path h
  kind-TypeOf link path FileKind.block_device h = TypeOf.block path h
  kind-TypeOf link path FileKind.char_device h = TypeOf.char path h
  kind-TypeOf link path FileKind.fifo h = TypeOf.named_pipe path h
  kind-TypeOf link path FileKind.other h = TypeOf.strange path h

  link-TypeOf : (link : Text) → IsMissing P proc link → TypeOf P proc link (type_of_link link)
  unfolding type_of_link
  link-TypeOf link missing = elim (Option-cases (socket_inode_of link)) [
    | inr (n, e) ↦
        rw (e, type_of_link) (TypeOf.socket_inode n missing (socket_inode_of_sound link n e))
    | inl e ↦ elim (Option-cases (strip_prefix (codes "pipe:[") link)) [
      | inr (rest, f) ↦
          rw (e, f, type_of_link)
            (TypeOf.pipe missing (rest, strip_prefix_sound (codes "pipe:[") link rest f))
      | inl f ↦
          rw (e, f, type_of_link)
            (TypeOf.unknown missing (λ n is. let found = socket_inode_of-IsSocket link n is in cc)
              (λ (rest, at).
                let found : strip_prefix (codes "pipe:[") link ≡ some rest =
                  ap (strip_prefix (codes "pipe:[")) at
                  ∙ strip_prefix-append (codes "pipe:[") rest in
                cc))
    ]
  ]

  pub type_from_procfs-TypeOf : (link : Text) → TypeOf P proc link (type_from_procfs P proc link)
  unfolding type_from_procfs
  type_from_procfs-TypeOf link = by_path (proc.canonicalize link) refl
    where
      by_kind :
          (path : Text)
          → proc.canonicalize link ≡ some path
          → (o : Option FileKind) → proc.file_kind path ≡ o
          → TypeOf P proc link
              (elim o [ none ↦ type_of_link link | some kind ↦ type_of_kind kind path ])
      by_kind path e none f = link-TypeOf link (inr (path, e, f))
      by_kind path e (some kind) f = kind-TypeOf link path kind (e, f)

      by_path :
          (o : Option Text)
          → proc.canonicalize link ≡ o
          → TypeOf P proc link (elim o [
            | none ↦ type_of_link link
            | some path ↦ elim (proc.file_kind path) [
              | none ↦ type_of_link link
              | some kind ↦ type_of_kind kind path
            ]
          ])
      by_path none e = link-TypeOf link (inl e)
      by_path (some path) e = by_kind path e (proc.file_kind path) refl
