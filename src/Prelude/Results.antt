-- ===== src/Prelude/Results.antt =====
-- Results with an error, and code that may panic.
use mathlib.Core.Path.{◌≡◌, refl}
use mathlib.Core.Logic.{◌⊎◌, inl, inr}
use mathlib.Core.Option.{Option, none, some}

pub data Result (E A : Type 0) : Type 0 where
  ok : A → Result E A
  err : E → Result E A

-- `?`
abbrev pub try {ℓ} : {E A : Type 0} {B : Type ℓ} → Result E A → (A → B) → (E → B) → B
try (Result.ok a) f g = f a
try (Result.err e) f g = g e

abbrev pub and_then : {E A B : Type 0} → Result E A → (A → Result E B) → Result E B
and_then (Result.ok a) f = f a
and_then (Result.err e) f = Result.err e

abbrev pub ok_or : {E A : Type 0} → Option A → E → Result E A
ok_or none e = Result.err e
ok_or (some a) e = Result.ok a

pub and_then-eq-ok :
    {E A B : Type 0} (m : Result E A) (f : A → Result E B) {b : B}
    → and_then m f ≡ Result.ok b
    → (a : A) × (m ≡ Result.ok a) × (f a ≡ Result.ok b)
and_then-eq-ok (Result.ok a) f h = (a, refl, h)
and_then-eq-ok (Result.err e) f h = cc

pub Result-cases :
    {E A : Type 0} (r : Result E A) → ((a : A) × (r ≡ Result.ok a)) ⊎ ((e : E) × (r ≡ Result.err e))
Result-cases (Result.ok a) = inl (a, refl)
Result-cases (Result.err e) = inr (e, refl)

pub ok_or-eq-ok :
    {E A : Type 0} (o : Option A) (x : E) {a : A} → ok_or o x ≡ Result.ok a → o ≡ some a
ok_or-eq-ok none x h = cc
ok_or-eq-ok (some b) x h = cc
