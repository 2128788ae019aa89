-- ===== src/Prelude/Search.antt =====
-- The searches of `str` that the program uses, over bytes: `strip_prefix`, `split_once`,
-- `rsplit_once` and `ends_with`.
use Prim.Native.Nat.{ℕ}
use mathlib.Core.Path.{◌≡◌, refl}
use mathlib.Core.Bool.{Bool, false}
use mathlib.Core.List.{[], ◌∷◌, ◌++◌}
use mathlib.Core.Option.{Option, none, some}
use native.Mathlib.Omega.{arith}
use mathlib.Core.Logic.{inl, inr}
use cargo_capslock.Prelude.Tests.{◌==◌, if◌then◌else◌, Option-cases}
use cargo_capslock.Prelude.Bytes.{Text}

-- The text behind the pattern, if it begins with the pattern.
abbrev pub strip_prefix : Text → Text → Option Text
strip_prefix [] s = some s
strip_prefix (p ∷ ps) [] = none
strip_prefix (p ∷ ps) (c ∷ s) = if p == c then strip_prefix ps s else none

abbrev before : ℕ → Option (Text × Text) → Option (Text × Text)
before c none = none
before c (some (a, b)) = some (c ∷ a, b)

-- A match at the head of the text.
abbrev pub here : Option Text → Option (Text × Text)
here none = none
here (some rest) = some ([], rest)

abbrev or_else : Option (Text × Text) → Option (Text × Text) → Option (Text × Text)
or_else none r = r
or_else (some m) r = some m

-- The text before and behind the first match.
unfoldable pub split_once : Text → Text → Option (Text × Text)
split_once pat [] = here (strip_prefix pat [])
split_once pat (c ∷ s) = or_else (here (strip_prefix pat (c ∷ s))) (before c (split_once pat s))

-- The text before and behind the last match.
unfoldable pub rsplit_once : Text → Text → Option (Text × Text)
rsplit_once pat [] = here (strip_prefix pat [])
rsplit_once pat (c ∷ s) = or_else (before c (rsplit_once pat s)) (here (strip_prefix pat (c ∷ s)))

-- `ends_with` of one byte.
abbrev pub ends_with : ℕ → Text → Bool
ends_with b [] = false
ends_with b (c ∷ []) = c == b
ends_with b (c ∷ d ∷ s) = ends_with b (d ∷ s)

pub strip_prefix_sound : (pat s rest : Text) → strip_prefix pat s ≡ some rest → s ≡ pat ++ rest
strip_prefix_sound [] s rest h = ground arith
strip_prefix_sound (p ∷ ps) [] rest h = cc
strip_prefix_sound (p ∷ ps) (c ∷ s) rest h = ground (arith, strip_prefix_sound ps s rest)

pub strip_prefix-append : (pat rest : Text) → strip_prefix pat (pat ++ rest) ≡ some rest
strip_prefix-append [] rest = refl
strip_prefix-append (p ∷ ps) rest = ground (arith, strip_prefix-append ps rest)

-- The pattern stands nowhere in the text.
abbrev pub Misses : Text → Text → Type 0
Misses pat [] = strip_prefix pat [] ≡ none
Misses pat (c ∷ s) = (strip_prefix pat (c ∷ s) ≡ none) × Misses pat s

-- The parts and the pattern spell the text.
pub split_once_sound : (pat s a b : Text) → split_once pat s ≡ some (a, b) → s ≡ a ++ (pat ++ b)
unfolding split_once
split_once_sound pat [] a b h = ground (arith, strip_prefix_sound pat [] b)
split_once_sound pat (c ∷ s) a b h = elim (Option-cases (strip_prefix pat (c ∷ s))) [
  | inl e ↦ elim (Option-cases (split_once pat s)) [
    | inl e' ↦ ground arith
    | inr ((x, y), e') ↦ ground (arith, split_once_sound pat s x y)
  ]
  | inr (rest, e) ↦ ground (arith, strip_prefix_sound pat (c ∷ s) rest)
]

pub rsplit_once_sound : (pat s a b : Text) → rsplit_once pat s ≡ some (a, b) → s ≡ a ++ (pat ++ b)
unfolding rsplit_once
rsplit_once_sound pat [] a b h = ground (arith, strip_prefix_sound pat [] b)
rsplit_once_sound pat (c ∷ s) a b h = elim (Option-cases (rsplit_once pat s)) [
  | inl e' ↦ elim (Option-cases (strip_prefix pat (c ∷ s))) [
    | inl e ↦ ground arith
    | inr (rest, e) ↦ ground (arith, strip_prefix_sound pat (c ∷ s) rest)
  ]
  | inr ((x, y), e') ↦ ground (arith, rsplit_once_sound pat s x y)
]

-- Without a match there is nothing to split at, and the other way round.
pub split_once-Misses : (pat s : Text) → Misses pat s → split_once pat s ≡ none
unfolding split_once
split_once-Misses pat [] h = ground arith
split_once-Misses pat (c ∷ s) h = ground (arith, split_once-Misses pat s h.1)

pub rsplit_once-Misses : (pat s : Text) → Misses pat s → rsplit_once pat s ≡ none
unfolding rsplit_once
rsplit_once-Misses pat [] h = ground arith
rsplit_once-Misses pat (c ∷ s) h = ground (arith, rsplit_once-Misses pat s h.1)

pub Misses-rsplit_once : (pat s : Text) → rsplit_once pat s ≡ none → Misses pat s
unfolding rsplit_once
Misses-rsplit_once pat [] h = ground arith
Misses-rsplit_once pat (c ∷ s) h = ground (arith, Misses-rsplit_once pat s)

-- The last match, where none starts later.
pub rsplit_once-append :
    (p : ℕ) (ps a b : Text)
    → Misses (p ∷ ps) (ps ++ b)
    → rsplit_once (p ∷ ps) (a ++ (p ∷ (ps ++ b))) ≡ some (a, b)
unfolding rsplit_once
rsplit_once-append p ps [] b m =
    ground (arith, rsplit_once-Misses (p ∷ ps) (ps ++ b) m, strip_prefix-append (p ∷ ps) b)
rsplit_once-append p ps (c ∷ a) b m = ground (arith, rsplit_once-append p ps a b m)

-- No match of the pattern starts in the first of the two texts.
abbrev pub NoneIn : Text → Text → Text → Type 0
NoneIn pat [] t = Unit
NoneIn pat (c ∷ a) t = (strip_prefix pat (c ∷ (a ++ t)) ≡ none) × NoneIn pat a t

-- The first match, where none starts earlier.
pub split_once-append :
    (p : ℕ) (ps a b : Text)
    → NoneIn (p ∷ ps) a (p ∷ (ps ++ b))
    → split_once (p ∷ ps) (a ++ (p ∷ (ps ++ b))) ≡ some (a, b)
unfolding split_once
split_once-append p ps [] b m = ground (arith, strip_prefix-append (p ∷ ps) b)
split_once-append p ps (c ∷ a) b m = ground (arith, split_once-append p ps a b m.1)
