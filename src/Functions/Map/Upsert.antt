-- ===== src/Functions/Map/Upsert.antt =====
-- src/function.rs: `upsert` keeps names and indices in bijection, and never moves a function.
use cargo_capslock.Prelude.{
  ℕ, ◌<◌, ◌≡◌, refl, ◌≤◌, ◌≢◌, inl, inr, ◌∙◌, subst, none, some, [], ◌∷◌, ◌++◌, arith, Text,
  text_ord, beq, beq_iff, length, length-append, get_elem?-append_left, get_elem?-append_last,
  Option-cases, Bool-cases, ◌==◌, if◌then◌else◌,
}
use cargo_capslock.Collections.OrdMap
use cargo_capslock.Capslock.Report.{Function}
use cargo_capslock.Functions.Map.{FunctionMap, empty, get, get_index, upsert}

-- Each name has an index of the vector, no two names have the same one, and every index has a name.
pub record IsValid (m : FunctionMap) : Type 0 where
  pub in_range : (k : Text) (i : ℕ) → get_index k m ≡ some i → i < length m.functions
  pub injective : (j k : Text) (i : ℕ) → get_index j m ≡ some i → get_index k m ≡ some i → j ≡ k
  pub onto : (i : ℕ) → i < length m.functions → (k : Text) × (get_index k m ≡ some i)

module _ (mangled : Text) (f : Function) (m : FunctionMap) where
  -- What `upsert` does where the name is known, and where it is new.
  pub upsert_known : (i : ℕ) → get_index mangled m ≡ some i → upsert mangled f m ≡ (m, i)
  unfolding upsert get_index
  upsert_known i h = ground arith

  pub upsert_new :
      get_index mangled m ≡ none
      → upsert mangled f m ≡ (
        record {
          functions = m.functions ++ f ∷ [];
          ids = OrdMap.insert mangled (length m.functions) m.ids;
        },
        length m.functions,
      )
  unfolding upsert get_index
  upsert_new h = ground arith

  pub get_index-upsert :
      (k : Text)
      → let (m', i) = upsert mangled f m in
        get_index k m' ≡ (if beq k mangled then some i else get_index k m)
  unfolding upsert get_index
  get_index-upsert k =
      ground (arith, beq_iff k mangled, OrdMap.lookup-insert k mangled (length m.functions) m.ids)

module _ (mangled : Text) (f : Function) (m : FunctionMap) where
  -- The map that a new name leads to.
  abbrev pushed : FunctionMap
  pushed = record {
    functions = m.functions ++ f ∷ [];
    ids = OrdMap.insert mangled (length m.functions) m.ids;
  }

  get_index-pushed :
      (k : Text)
      → get_index k pushed ≡ (if beq k mangled then some (length m.functions) else get_index k m)
  unfolding get_index
  get_index-pushed k = OrdMap.lookup-insert k mangled (length m.functions) m.ids

  pushed-IsValid : get_index mangled m ≡ none → IsValid m → IsValid pushed
  pushed-IsValid h v = record {
    in_range = λ k i e.
        ground (arith, get_index-pushed k, v.in_range k i, length-append m.functions (f ∷ []));
    injective = λ j k i e e'. ground (
      arith,
      get_index-pushed j,
      get_index-pushed k,
      beq_iff j mangled,
      beq_iff k mangled,
      v.in_range j i,
      v.in_range k i,
      v.injective j k i,
    );
    onto = λ i lt. elim (Bool-cases (i == length m.functions)) [
      | inl last ↦ (mangled, ground (arith, get_index-pushed mangled, beq_iff mangled mangled))
      | inr old ↦
          let (k, e) = v.onto i (ground (arith, length-append m.functions (f ∷ []))) in
          (k, ground (arith, get_index-pushed k, beq_iff k mangled))
    ];
  }

  -- `upsert` keeps the bijection of names and indices.
  pub upsert-IsValid : IsValid m → IsValid (upsert mangled f m).0
  upsert-IsValid v = elim (Option-cases (get_index mangled m)) [
    | inl h ↦ rw (upsert_new mangled f m h) (pushed-IsValid h v)
    | inr (i, h) ↦ rw (upsert_known mangled f m i h) v
  ]

  -- After `upsert` the name has the returned index, every other name has the one that it had, and every
  -- function that was in the map stands where it stood. A new name's function is the last one; for a
  -- known name the given function is dropped and the map is as before.
  pub upsert_lem :
      let (m', i) = upsert mangled f m in
      (get_index mangled m' ≡ some i)
      × ((k : Text) → k ≢ mangled → get_index k m' ≡ get_index k m)
      × ((j : ℕ) → j < length m.functions → get j m' ≡ get j m)
      × ((get_index mangled m ≡ none) → (get i m' ≡ some f) × (i ≡ length m.functions))
      × ((j : ℕ) → get_index mangled m ≡ some j → (i ≡ j) × (m' ≡ m))
  unfolding get
  upsert_lem = elim (Option-cases (get_index mangled m)) [
    | inl h ↦ rw (upsert_new mangled f m h) (
      ground (arith, get_index-pushed mangled, beq_iff mangled mangled),
      λ k ne. ground (arith, get_index-pushed k, beq_iff k mangled),
      λ j lt. get_elem?-append_left m.functions (f ∷ []) j lt,
      λ _. (get_elem?-append_last m.functions f, refl),
      λ j e. cc,
    )
    | inr (i, h) ↦
        rw (upsert_known mangled f m i h)
          (h, λ k ne. refl, λ j lt. refl, λ e. cc, λ j e. ground arith)
  ]

-- Later maps know the names of earlier ones under the same indices.
pub record Extends (m m' : FunctionMap) : Type 0 where
  pub valid : IsValid m → IsValid m'
  pub names : (k : Text) (i : ℕ) → get_index k m ≡ some i → get_index k m' ≡ some i
  pub size : length m.functions ≤ length m'.functions

pub Extends-refl : (m : FunctionMap) → Extends m m
Extends-refl m = record { valid = λ v. v; names = λ k i e. e; size = omega arith }

pub Extends-trans : (m m' m'' : FunctionMap) → Extends m m' → Extends m' m'' → Extends m m''
Extends-trans m m' m'' h k = record {
  valid = λ v. k.valid (h.valid v);
  names = λ n i e. k.names n i (h.names n i e);
  size = omega arith;
}

pub upsert-Extends :
    (mangled : Text) (f : Function) (m : FunctionMap) → Extends m (upsert mangled f m).0
upsert-Extends mangled f m = elim (Option-cases (get_index mangled m)) [
  | inl h ↦ record {
    valid = λ v. upsert-IsValid mangled f m v;
    names = λ k i e.
        (upsert_lem mangled f m).1 k
          (λ same. cc (subst (λ (n : Text). get_index n m ≡ some i) same e, h))
        ∙ e;
    size = rw (upsert_new mangled f m h) (omega (arith, length-append m.functions (f ∷ [])));
  }
  | inr (i, h) ↦ rw (upsert_known mangled f m i h) (Extends-refl m)
]

not_lt_zero : (i : ℕ) → ¬ (i < 0)
not_lt_zero i lt = omega arith

-- A map without functions.
pub empty-IsValid : IsValid empty
unfolding get_index
empty-IsValid = record {
  in_range = λ k i h. cc;
  injective = λ j k i h h'. cc;
  onto = λ i lt. absurd (not_lt_zero i lt);
}
