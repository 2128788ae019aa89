-- ===== src/Paths/Pieces.antt =====
-- The operations of `std::path` on a path whose last component is a plain name.
use cargo_capslock.Prelude.{
  ℕ, ◌==◌, ==_iff, ◌≡◌, ◌≢◌, refl, sym, ◌∙◌, ap, inl, inr, false, Bool-cases, some, [], ◌∷◌, ◌++◌,
  Text, codes, reverse, reverse-append, reverse-reverse, append_assoc, reverse-cons, All,
  All-reverse,
}
use cargo_capslock.Paths.{
  slash, dot, prefix, body, trim_right, last_piece, before_piece, last_component, is_dot_dot,
  parent, file_name,
}

-- The byte is no separator.
abbrev pub IsOther : ℕ → Type 0
IsOther c = c ≢ slash

-- A name without a separator, and none of the special ones.
pub record IsPlain (name : Text) : Type 0 where
  pub whole : All IsOther name
  pub named : name ≢ []
  pub not_dot : name ≢ codes "."
  pub not_dots : name ≢ codes ".."

-- A path that ends in a byte that is no separator and no dot.
abbrev pub EndsPlain : Text → Type 0
EndsPlain base = (b : Text) × (e : ℕ) × (base ≡ b ++ e ∷ []) × (e ≢ slash) × (e ≢ dot)

differs : (a b : ℕ) → a ≢ b → (a == b) ≡ false
differs a b h = elim (Bool-cases (a == b)) [ inl e ↦ absurd (h ((==_iff a b).0 e)) | inr e ↦ e ]

-- A reversed path whose last component is a plain name.
trim_right-kept :
    (n rest : Text)
    → All IsOther n
    → n ≢ []
    → n ≢ dot ∷ []
    → trim_right (n ++ slash ∷ rest) ≡ n ++ slash ∷ rest
trim_right-kept [] rest h named not_dot = absurd (named refl)
trim_right-kept (x ∷ []) rest (h, _) named not_dot =
    let no_slash = differs x slash h in
    let no_dot = differs x dot (λ e. not_dot (ap (λ (c : ℕ). c ∷ []) e)) in
    rw (no_slash, no_dot) refl
trim_right-kept (x ∷ y ∷ n) rest (h, (k, _)) named not_dot =
    let no_slash = differs x slash h in
    let after = differs y slash k in
    elim (Bool-cases (x == dot)) [
      | inl e ↦ rw (no_slash, e, after) refl
      | inr e ↦ rw (no_slash, e) refl
    ]

last_piece-slash : (n rest : Text) → All IsOther n → last_piece (n ++ slash ∷ rest) ≡ n
last_piece-slash [] rest h = refl
last_piece-slash (x ∷ n) rest (h, hs) =
    let no_slash = differs x slash h in
    rw no_slash (ap (λ (t : Text). x ∷ t) (last_piece-slash n rest hs))

before_piece-slash : (n rest : Text) → All IsOther n → before_piece (n ++ slash ∷ rest) ≡ rest
before_piece-slash [] rest h = refl
before_piece-slash (x ∷ n) rest (h, hs) =
    let no_slash = differs x slash h in rw no_slash (before_piece-slash n rest hs)

trim_right-plain : (e : ℕ) (rest : Text) → e ≢ slash → e ≢ dot → trim_right (e ∷ rest) ≡ e ∷ rest
trim_right-plain e [] h k =
    let no_slash = differs e slash h in let no_dot = differs e dot k in rw (no_slash, no_dot) refl
trim_right-plain e (d ∷ rest) h k =
    let no_slash = differs e slash h in let no_dot = differs e dot k in rw (no_slash, no_dot) refl

-- A path behind which a separator and more stands: what is before its components is that of the longer
-- path.
abbrev SplitBefore : Text → ℕ → Text → Type 0
SplitBefore b e rest =
    (b' : Text) × (body (b ++ e ∷ slash ∷ rest) ≡ b' ++ e ∷ slash ∷ rest)
    × (b ++ e ∷ [] ≡ prefix (b ++ e ∷ slash ∷ rest) ++ (b' ++ e ∷ []))

split_before : (b : Text) (e : ℕ) (rest : Text) → e ≢ slash → e ≢ dot → SplitBefore b e rest
split_before [] e rest h k =
    let no_slash = differs e slash h in
    let no_dot = differs e dot k in rw (no_slash, no_dot) ([], refl, refl)
split_before (c ∷ []) e rest h k =
    let no_slash = differs e slash h in
    elim (Bool-cases (c == slash)) [
      | inl s ↦ rw s ([], refl, ap (λ (x : ℕ). x ∷ e ∷ []) ((==_iff c slash).0 s))
      | inr s ↦ elim (Bool-cases (c == dot)) [
        | inl t ↦ rw (s, t, no_slash) (c ∷ [], refl, refl)
        | inr t ↦ rw (s, t) (c ∷ [], refl, refl)
      ]
    ]
split_before (c ∷ d ∷ b) e rest h k =
    let begun = λ (x : ℕ). x ∷ d ∷ b ++ e ∷ [] in
    elim (Bool-cases (c == slash)) [
      | inl s ↦ rw s (d ∷ b, refl, ap begun ((==_iff c slash).0 s))
      | inr s ↦ elim (Bool-cases (c == dot)) [
        | inr t ↦ rw (s, t) (c ∷ d ∷ b, refl, refl)
        | inl t ↦ elim (Bool-cases (d == slash)) [
          | inl u ↦ rw (s, t, u) (d ∷ b, refl, ap begun ((==_iff c dot).0 t))
          | inr u ↦ rw (s, t, u) (c ∷ d ∷ b, refl, refl)
        ]
      ]
    ]

is_dot_dot_only : (name : Text) → name ≢ codes ".." → is_dot_dot name ≡ false
unfolding is_dot_dot
is_dot_dot_only [] h = refl
is_dot_dot_only (c ∷ []) h = refl
is_dot_dot_only (c ∷ d ∷ []) h = elim (Bool-cases (c == dot)) [
  | inr s ↦ rw s refl
  | inl s ↦ elim (Bool-cases (d == dot)) [
    | inr t ↦ rw (s, t) refl
    | inl t ↦
        let same : c ∷ d ∷ [] ≡ codes ".." = cc ((==_iff c dot).0 s, (==_iff d dot).0 t) in
        absurd (h same)
  ]
]
is_dot_dot_only (c ∷ d ∷ x ∷ name) h = refl

parent-cons :
    (p t : Text)
    → trim_right (reverse (body p)) ≡ t
    → t ≢ []
    → parent p ≡ some (prefix p ++ reverse (trim_right (before_piece t)))
unfolding parent
parent-cons p [] e h = absurd (h refl)
parent-cons p (c ∷ r) e h = rw (e, parent) refl

last_component-cons :
    (p t : Text)
    → trim_right (reverse (body p)) ≡ t
    → t ≢ []
    → last_component p ≡ some (reverse (last_piece t))
unfolding last_component
last_component-cons p [] e h = absurd (h refl)
last_component-cons p (c ∷ r) e h = rw (e, last_component) refl

append-cons : (n rest : Text) (c : ℕ) → n ++ c ∷ rest ≢ []
append-cons [] rest c h = cc
append-cons (x ∷ n) rest c h = cc

module _ (name b : Text) (e : ℕ) (plain : IsPlain name) (h : e ≢ slash) (k : e ≢ dot) where
  abbrev whole_path : Text
  whole_path = b ++ e ∷ slash ∷ name

  turned : (b' : Text) → reverse (b' ++ e ∷ slash ∷ name) ≡ reverse name ++ slash ∷ e ∷ reverse b'
  turned b' =
      reverse-append b' (e ∷ slash ∷ name)
      ∙ ap (λ (t : Text). t ++ reverse b')
          (reverse-cons e (slash ∷ name)
            ∙ ap (λ (t : Text). t ++ e ∷ []) (reverse-cons slash name)
            ∙ append_assoc (reverse name) (slash ∷ []) (e ∷ []))
      ∙ append_assoc (reverse name) (slash ∷ e ∷ []) (reverse b')

  trimmed :
      (b' : Text)
      → body whole_path ≡ b' ++ e ∷ slash ∷ name
      → trim_right (reverse (body whole_path)) ≡ reverse name ++ slash ∷ e ∷ reverse b'
  trimmed b' at =
      ap (λ (t : Text). trim_right (reverse t)) at
      ∙ ap trim_right (turned b')
      ∙ trim_right-kept (reverse name) (e ∷ reverse b') (All-reverse IsOther name plain.whole)
          (λ q. plain.named (sym (reverse-reverse name) ∙ ap reverse q))
          (λ q. plain.not_dot (sym (reverse-reverse name) ∙ ap reverse q))

  parent_whole : parent whole_path ≡ some (b ++ e ∷ [])
  parent_whole =
      let (b', at, base) = split_before b e name h k in
      let left = reverse name ++ slash ∷ e ∷ reverse b' in
      parent-cons whole_path left (trimmed b' at)
        (append-cons (reverse name) (e ∷ reverse b') slash)
      ∙ ap (λ (t : Text). some (prefix whole_path ++ reverse (trim_right t)))
          (before_piece-slash (reverse name) (e ∷ reverse b')
            (All-reverse IsOther name plain.whole))
      ∙ ap (λ (t : Text). some (prefix whole_path ++ reverse t))
          (trim_right-plain e (reverse b') h k)
      ∙ ap (λ (t : Text). some (prefix whole_path ++ t))
          (reverse-cons e (reverse b') ∙ ap (λ (t : Text). t ++ e ∷ []) (reverse-reverse b'))
      ∙ ap some (sym base)

  file_name_whole : file_name whole_path ≡ some name
  unfolding file_name
  file_name_whole =
      let (b', at, base) = split_before b e name h k in
      let left = reverse name ++ slash ∷ e ∷ reverse b' in
      let last : last_component whole_path ≡ some name =
        last_component-cons whole_path left (trimmed b' at)
          (append-cons (reverse name) (e ∷ reverse b') slash)
        ∙ ap (λ (t : Text). some (reverse t))
            (last_piece-slash (reverse name) (e ∷ reverse b')
              (All-reverse IsOther name plain.whole))
        ∙ ap some (reverse-reverse name) in
      let no_dots = is_dot_dot_only name plain.not_dots in rw (last, no_dots, file_name) refl

-- Behind a path that ends plainly and a separator, a plain name is the file name, and the path the parent.
pub pieces :
    (base name : Text)
    → EndsPlain base
    → IsPlain name
    → (parent (base ++ slash ∷ name) ≡ some base) × (file_name (base ++ slash ∷ name) ≡ some name)
pieces base name (b, e, at, h, k) plain =
    let path : base ++ slash ∷ name ≡ b ++ e ∷ slash ∷ name =
      ap (λ (t : Text). t ++ slash ∷ name) at ∙ append_assoc b (e ∷ []) (slash ∷ name) in
    (
      ap parent path ∙ parent_whole name b e plain h k ∙ ap some (sym at),
      ap file_name path ∙ file_name_whole name b e plain h k,
    )
