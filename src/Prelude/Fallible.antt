-- ===== src/Prelude/Fallible.antt =====
-- `do` blocks over results with an error.
use mathlib.Core.Bool.{Bool, true, false}
use cargo_capslock.Prelude.Results.{Result, and_then}

infixl 5 ◌>>=◌
abbrev pub ◌>>=◌ : {E A B : Type 0} → Result E A → (A → Result E B) → Result E B
r >>= f = and_then r f

-- A step that gives nothing but may fail.
abbrev pub check : {E : Type 0} → Bool → E → Result E Unit
check true e = Result.ok tt
check false e = Result.err e
