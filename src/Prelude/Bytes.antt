-- ===== src/Prelude/Bytes.antt =====
-- Text as its UTF-8 bytes: `str`, `String`, `OsString` and `PathBuf` on Unix.
use Prim.Native.Nat.{ℕ, compare, Ordering}
use Prim.Native.Char.{code}
use Prim.Native.String.{String}
use mathlib.Core.Path.{◌≡◌, refl}
use mathlib.Core.Logic.{◌↔◌}
use mathlib.Core.List.{List, [], ◌∷◌}
use native.Mathlib.Omega.{arith}
use cargo_capslock.Prelude.Order.{Ord}

abbrev pub Text : Type 0
Text = List ℕ

-- The code points of a literal, which are its bytes if it is ASCII.
abbrev pub codes : String → Text
codes String.[] = []
codes (String.◌∷◌ c s) = code c ∷ codes s

-- Byte order, as `Ord for str`.
abbrev pub text_cmp : Text → Text → Ordering
text_cmp [] [] = Ordering.eq
text_cmp [] (b ∷ t) = Ordering.lt
text_cmp (a ∷ s) [] = Ordering.gt
text_cmp (a ∷ s) (b ∷ t) = elim (compare a b) [
  | Ordering.lt ↦ Ordering.lt
  | Ordering.gt ↦ Ordering.gt
  | Ordering.eq ↦ text_cmp s t
]

pub text_cmp_eq : (s t : Text) → (text_cmp s t ≡ Ordering.eq) ↔ (s ≡ t)
text_cmp_eq [] [] = ground arith
text_cmp_eq [] (b ∷ t) = ground arith
text_cmp_eq (a ∷ s) [] = ground arith
text_cmp_eq (a ∷ s) (b ∷ t) = ground (arith, text_cmp_eq s t)

pub text_cmp_flip : (s t : Text) → (text_cmp s t ≡ Ordering.lt) ↔ (text_cmp t s ≡ Ordering.gt)
text_cmp_flip [] [] = ground arith
text_cmp_flip [] (b ∷ t) = ground arith
text_cmp_flip (a ∷ s) [] = ground arith
text_cmp_flip (a ∷ s) (b ∷ t) = ground (arith, text_cmp_flip s t)

pub text_cmp_trans :
    (s t u : Text)
    → text_cmp s t ≡ Ordering.lt
    → text_cmp t u ≡ Ordering.lt
    → text_cmp s u ≡ Ordering.lt
text_cmp_trans [] [] u h k = cc
text_cmp_trans [] (b ∷ t) [] h k = cc
text_cmp_trans [] (b ∷ t) (c ∷ u) h k = refl
text_cmp_trans (a ∷ s) [] u h k = cc
text_cmp_trans (a ∷ s) (b ∷ t) [] h k = cc
text_cmp_trans (a ∷ s) (b ∷ t) (c ∷ u) h k = ground (arith, text_cmp_trans s t u)

instance abbrev pub text_ord : Ord Text
text_ord = record {
  cmp = text_cmp;
  cmp_eq = text_cmp_eq;
  cmp_flip = text_cmp_flip;
  cmp_trans = text_cmp_trans;
}
