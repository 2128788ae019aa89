-- ===== src/Functions/Map/Filled.antt =====
-- src/function.rs: a map of functions, against the entries that were upserted into it in turn.
use cargo_capslock.Prelude.{
  ℕ, ◌≡◌, refl, inl, inr, Option, none, some, List, [], ◌∷◌, ◌++◌, arith, Text, text_ord, beq,
  beq_iff, if◌then◌else◌, Bool-cases, Option-cases, subst, ◌∙◌,
}
use cargo_capslock.Capslock.Report.{Function}
use cargo_capslock.Functions.Map.{FunctionMap, empty, get, get_index, upsert}
use cargo_capslock.Functions.Map.Upsert.{
  IsValid, upsert_lem, upsert-IsValid, get_index-upsert, upsert-Extends, empty-IsValid,
}

-- The first of the entries with the name.
abbrev pub first : {E : Type 0} → (E → Text) → Text → List E → Option E
first name k [] = none
first name k (t ∷ ts) = if beq k (name t) then some t else first name k ts

abbrev pub or_else : {E : Type 0} → Option E → Option E → Option E
or_else none o = o
or_else (some t) o = some t

-- Entries of some kind, each with a name, and what it means that a function is that of an entry.
module _ {E : Type 0} (name : E → Text) (Shows : E → Function → Type 0) where
  first-append :
      (k : Text) (ts us : List E)
      → first name k (ts ++ us) ≡ or_else (first name k ts) (first name k us)
  first-append k [] us = refl
  first-append k (t ∷ ts) us = ground (arith, first-append k ts us)

  pub first-name : (k : Text) (ts : List E) (t : E) → first name k ts ≡ some t → k ≡ name t
  first-name k [] t h = cc
  first-name k (u ∷ ts) t h = ground (arith, first-name k ts t, beq_iff k (name u))

  -- A function of the map is that of the first entry that has its name.
  abbrev pub FilledBy : List E → FunctionMap → Text → ℕ → Type 0
  FilledBy done m k i =
      (t : E) × (f : Function) × (first name k done ≡ some t) × (get i m ≡ some f) × Shows t f

  -- The map holds the functions of the entries, one for each name.
  pub record IsFilled (done : List E) (m : FunctionMap) : Type 0 where
    pub valid : IsValid m
    pub built : (k : Text) (i : ℕ) → get_index k m ≡ some i → FilledBy done m k i
    pub missing : (k : Text) → get_index k m ≡ none → first name k done ≡ none

  module _ (done : List E) (m : FunctionMap) (t : E) (f : Function) (e : Shows t f)
      (b : IsFilled done m) where
    abbrev grown : FunctionMap
    grown = (upsert (name t) f m).0

    first-pushed :
        (k : Text)
        → first name k (done ++ t ∷ [])
          ≡ or_else (first name k done) (if beq k (name t) then some t else none)
    first-pushed k = first-append k done (t ∷ [])

    -- A name that was known before.
    old-FilledBy : (k : Text) (i : ℕ) → get_index k m ≡ some i → FilledBy (done ++ t ∷ []) grown k i
    old-FilledBy k i h =
        let (u, g, eu, eg, built) = b.built k i h in
        (
          u,
          g,
          ground (arith, first-pushed k),
          (upsert_lem (name t) f m).2 i (b.valid.in_range k i h) ∙ eg,
          built,
        )

    -- The name that is added.
    new-FilledBy :
        (k : Text) (i : ℕ)
        → get_index k m ≡ none
        → get_index k grown ≡ some i
        → FilledBy (done ++ t ∷ []) grown k i
    new-FilledBy k i old now = elim (Bool-cases (beq k (name t))) [
      | inl same ↦
          let same_name : k ≡ name t = ground (arith, beq_iff k (name t)) in
          let at_new = (upsert_lem (name t) f m).3 (rw same_name at old) in
          let index : (upsert (name t) f m).1 ≡ i =
            ground (arith, get_index-upsert (name t) f m k) in
          (
            t,
            f,
            ground (arith, first-pushed k, b.missing k),
            subst (λ (n : ℕ). get n grown ≡ some f) index at_new.0,
            e,
          )
      | inr other ↦ ground (arith, get_index-upsert (name t) f m k)
    ]

    pub upsert-IsFilled : IsFilled (done ++ t ∷ []) grown
    upsert-IsFilled = record {
      valid = upsert-IsValid (name t) f m b.valid;
      built = λ k i h. elim (Option-cases (get_index k m)) [
        | inl old ↦ new-FilledBy k i old h
        | inr (j, old) ↦
            let kept = (upsert-Extends (name t) f m).names k j old in
            let same : j ≡ i = ground arith in old-FilledBy k i (rw same at old)
      ];
      missing = λ k h. ground (arith, first-pushed k, b.missing k, get_index-upsert (name t) f m k);
    }

  pub empty-IsFilled : IsFilled [] empty
  unfolding get_index
  empty-IsFilled = record { valid = empty-IsValid; built = λ k i h. cc; missing = λ k h. refl }
