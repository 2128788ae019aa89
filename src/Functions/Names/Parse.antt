-- ===== src/Functions/Names/Parse.antt =====
-- src/function.rs: `parse_rust_function_name` against the forms of a demangled name.
use cargo_capslock.Prelude.{
  ◌≡◌, refl, ap, ◌⊎◌, inl, inr, none, some, false, ◌∷◌, ◌++◌, arith, Text, codes, Result,
  strip_prefix, split_once, rsplit_once, ends_with, strip_prefix_sound, split_once_sound,
  rsplit_once_sound, rsplit_once-append, split_once-append, Misses, NoneIn, Misses-rsplit_once,
  Option-cases, Bool-cases,
}
use cargo_capslock.Capslock.Report.{RustFunctionName}
use cargo_capslock.Functions.Names.{
  Error, less, as_word, close_colons, colons, parse_qualified, parse_plain,
  parse_rust_function_name,
}

-- The texts that a name stands for.
abbrev pub Spells : RustFunctionName → Text → Type 0
Spells (RustFunctionName.trait_method trait_ type_ method) s =
    s ≡ less ++ (type_ ++ (as_word ++ (trait_ ++ (close_colons ++ method))))
Spells (RustFunctionName.struct_method type_ method) s =
    (s ≡ less ++ (type_ ++ (close_colons ++ method))) ⊎ (s ≡ type_ ++ (colons ++ method))
Spells (RustFunctionName.bare function) s = s ≡ function

-- The results that the parser has for each outcome of its searches.
module _ (s : Text) where
  parse_qualified_trait :
      (t rem trait_ m : Text)
      → split_once as_word s ≡ some (t, rem)
      → rsplit_once close_colons rem ≡ some (trait_, m)
      → parse_qualified s ≡ Result.ok (RustFunctionName.trait_method trait_ t m)
  unfolding parse_qualified
  parse_qualified_trait t rem trait_ m e e' = ground arith

  parse_qualified_no_trait :
      (t rem : Text)
      → split_once as_word s ≡ some (t, rem)
      → rsplit_once close_colons rem ≡ none
      → parse_qualified s ≡ Result.err (Error.malformed_trait_method s)
  unfolding parse_qualified
  parse_qualified_no_trait t rem e e' = ground arith

  parse_qualified_struct :
      (t m : Text)
      → split_once as_word s ≡ none
      → rsplit_once close_colons s ≡ some (t, m)
      → parse_qualified s ≡ Result.ok (RustFunctionName.struct_method t m)
  unfolding parse_qualified
  parse_qualified_struct t m e e' = ground arith

  parse_qualified_no_struct :
      split_once as_word s ≡ none
      → rsplit_once close_colons s ≡ none
      → parse_qualified s ≡ Result.err (Error.malformed_method s)
  unfolding parse_qualified
  parse_qualified_no_struct e e' = ground arith

-- What the parser makes of a text behind `<`: a name that spells it, or the error that says which
-- part of it is missing.
abbrev Judges : Text → Result Error RustFunctionName → Type 0
Judges s (Result.ok n) = Spells n (less ++ s)
Judges s (Result.err e) =
    ((split_once as_word s ≡ none) × Misses close_colons s × (e ≡ Error.malformed_method s))
    ⊎ ((t : Text) × (rem : Text) × (s ≡ t ++ (as_word ++ rem))
        × Misses close_colons rem
        × (e ≡ Error.malformed_trait_method s))

parse_qualified-Judges : (s : Text) → Judges s (parse_qualified s)
parse_qualified-Judges s = elim (Option-cases (split_once as_word s)) [
  | inl e ↦ elim (Option-cases (rsplit_once close_colons s)) [
    | inl e' ↦
        rw (parse_qualified_no_struct s e e') (inl (e, Misses-rsplit_once close_colons s e', refl))
    | inr ((t, m), e') ↦
        rw (parse_qualified_struct s t m e e')
          (inl (ap (λ (r : Text). less ++ r) (rsplit_once_sound close_colons s t m e')))
  ]
  | inr ((t, rem), e) ↦ elim (Option-cases (rsplit_once close_colons rem)) [
    | inl e' ↦ rw (parse_qualified_no_trait s t rem e e') (
        inr (
          t,
          rem,
          split_once_sound as_word s t rem e,
          Misses-rsplit_once close_colons rem e',
          refl,
        ))
    | inr ((trait_, m), e') ↦
        rw (parse_qualified_trait s t rem trait_ m e e')
          (cc (split_once_sound as_word s t rem e, rsplit_once_sound close_colons rem trait_ m e'))
  ]
]

parse_plain-Spells : (s : Text) → Spells (parse_plain s) s
unfolding parse_plain
parse_plain-Spells s = elim (Bool-cases (ends_with b'>' s)) [
  | inl e ↦ rw e refl
  | inr e ↦ elim (Option-cases (rsplit_once colons s)) [
    | inl e' ↦ rw (e, e') refl
    | inr ((t, m), e') ↦ rw (e, e') (inr (rsplit_once_sound colons s t m e'))
  ]
]

-- The result of the parser on a text: a name that spells the text, or an error that carries the
-- text behind `<`. The first error is for a text that has no ` as ` and no `>::`, the second for one that
-- has no `>::` behind its ` as `.
abbrev pub Explains : Text → Result Error RustFunctionName → Type 0
Explains s (Result.ok n) = Spells n s
Explains s (Result.err e) =
    (rest : Text) × (s ≡ less ++ rest)
    × (((split_once as_word rest ≡ none)
          × Misses close_colons rest
          × (e ≡ Error.malformed_method rest))
        ⊎ ((t : Text) × (rem : Text) × (rest ≡ t ++ (as_word ++ rem))
            × Misses close_colons rem
            × (e ≡ Error.malformed_trait_method rest)))

lift-Judges :
    (s rest : Text) (r : Result Error RustFunctionName)
    → s ≡ less ++ rest
    → Judges rest r
    → Explains s r
lift-Judges s rest (Result.ok n) e j = rw e j
lift-Judges s rest (Result.err x) e j = (rest, e, j)

-- Every text is parsed to a name that spells it, so no part of a name is lost, or is refused for one
-- of the two reasons above; a text that does not begin with `<` is never refused.
pub parse-Explains : (s : Text) → Explains s (parse_rust_function_name s)
unfolding parse_rust_function_name
parse-Explains s = elim (Option-cases (strip_prefix less s)) [
  | inl e ↦ rw e (parse_plain-Spells s)
  | inr (rest, e) ↦ rw e (
      lift-Judges s rest (parse_qualified rest) (strip_prefix_sound less s rest e)
        (parse_qualified-Judges rest))
]

-- `<type as trait>::method` is parsed to its three parts, if no ` as ` starts in the type and the method
-- has no `>::`.
pub parse_trait_method :
    (t trait_ m : Text)
    → NoneIn as_word t (as_word ++ (trait_ ++ (close_colons ++ m)))
    → Misses close_colons m
    → parse_rust_function_name (less ++ (t ++ (as_word ++ (trait_ ++ (close_colons ++ m)))))
      ≡ Result.ok (RustFunctionName.trait_method trait_ t m)
unfolding parse_rust_function_name
parse_trait_method t trait_ m h k =
    parse_qualified_trait _ t (trait_ ++ (close_colons ++ m)) trait_ m
      (split_once-append b' ' (codes "as ") t (trait_ ++ (close_colons ++ m)) h)
      (rsplit_once-append b'>' colons trait_ m (refl, (refl, k)))

parse_unqualified_method :
    (s t m : Text)
    → strip_prefix less s ≡ none
    → ends_with b'>' s ≡ false
    → rsplit_once colons s ≡ some (t, m)
    → parse_rust_function_name s ≡ Result.ok (RustFunctionName.struct_method t m)
unfolding parse_rust_function_name parse_plain
parse_unqualified_method s t m h k l = ground arith

-- `type::method` is parsed to its two parts, if it does not begin with `<`, and the method does not
-- end in `>` and has no `::`, also none that begins in the separator.
pub parse_struct_method :
    (t m : Text)
    → strip_prefix less (t ++ (colons ++ m)) ≡ none
    → ends_with b'>' (t ++ (colons ++ m)) ≡ false
    → Misses colons (b':' ∷ m)
    → parse_rust_function_name (t ++ (colons ++ m)) ≡ Result.ok (RustFunctionName.struct_method t m)
parse_struct_method t m h k l =
    parse_unqualified_method (t ++ (colons ++ m)) t m h k
      (rsplit_once-append b':' (codes ":") t m l)
