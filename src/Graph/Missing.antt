-- ===== src/Graph/Missing.antt =====
-- src/graph.rs: the loop over the capabilities of a callee, and how many keys a map lacks.
use cargo_capslock.Prelude.{
  ℕ, suc, ◌≤◌, ◌<◌, ◌≡◌, refl, inl, inr, Bool, true, false, ◌||◌, Option, none, some, List, [], ◌∷◌,
  arith, Ord, beq_iff, if◌then◌else◌, length, Bool-cases,
}
use cargo_capslock.Collections.OrdMap
use cargo_capslock.Collections.OrdMap.{OrdMap}
use cargo_capslock.Collections.OrdSet
use cargo_capslock.Graph.{insert_missing}

-- A key keeps its value, and gets the new one if it has none and is asked for.
abbrev pub fill {ℓ} : {V : Type ℓ} → V → Option V → Bool → Option V
fill v none b = if b then some v else none
fill v (some w) b = some w

module _ {K V : Type 0} ⦃o : Ord K⦄ where
  -- How many of the keys of the list the map lacks.
  abbrev pub missing : List K → OrdMap K V → ℕ
  missing [] m = 0
  missing (k ∷ ks) m = if OrdMap.contains_key k m then missing ks m else suc (missing ks m)

module _ {K V : Type 0} ⦃o : Ord K⦄ (v : V) where
  pub lookup-insert_missing :
      (k : K) (ks : List K) (m : OrdMap K V) (b : Bool)
      → OrdMap.lookup k (insert_missing v ks (m, b)).0
        ≡ fill v (OrdMap.lookup k m) (OrdSet.contains k ks)
  unfolding insert_missing
  lookup-insert_missing k [] m b = ground arith
  lookup-insert_missing k (j ∷ ks) m b = ground (
    arith,
    lookup-insert_missing k ks m b,
    lookup-insert_missing k ks (OrdMap.insert j v m) true,
    OrdMap.lookup-insert k j v m,
    beq_iff k j,
  )

  pub insert_missing-IsSorted :
      (ks : List K) (m : OrdMap K V) (b : Bool)
      → OrdMap.IsSorted m
      → OrdMap.IsSorted (insert_missing v ks (m, b)).0
  unfolding insert_missing
  insert_missing-IsSorted [] m b s = s
  insert_missing-IsSorted (j ∷ ks) m b s = ground (
    arith,
    insert_missing-IsSorted ks m b,
    insert_missing-IsSorted ks (OrdMap.insert j v m) true,
    OrdMap.insert-IsSorted j v m s,
  )

  -- The flag never falls.
  insert_missing-true : (ks : List K) (m : OrdMap K V) → (insert_missing v ks (m, true)).1 ≡ true
  unfolding insert_missing
  insert_missing-true [] m = refl
  insert_missing-true (j ∷ ks) m =
      ground (arith, insert_missing-true ks m, insert_missing-true ks (OrdMap.insert j v m))

  -- With the flag still down the map is the old one.
  pub insert_missing-false :
      (ks : List K) (m : OrdMap K V) (b : Bool)
      → (insert_missing v ks (m, b)).1 ≡ false
      → ((insert_missing v ks (m, b)).0 ≡ m) × (b ≡ false)
  unfolding insert_missing
  insert_missing-false [] m b h = (refl, h)
  insert_missing-false (j ∷ ks) m b h =
      ground (arith, insert_missing-false ks m b, insert_missing-true ks (OrdMap.insert j v m))

  -- With the flag newly up a key of the list was missing.
  pub insert_missing-raised :
      (ks : List K) (m : OrdMap K V)
      → (insert_missing v ks (m, false)).1 ≡ true
      → (k : K) × (OrdSet.contains k ks ≡ true) × (OrdMap.contains_key k m ≡ false)
  unfolding insert_missing
  insert_missing-raised [] m h = cc
  insert_missing-raised (j ∷ ks) m h = elim (Bool-cases (OrdMap.contains_key j m)) [
    | inl has ↦
        let (k, asked, lacks) = insert_missing-raised ks m (ground arith) in
        (k, ground arith, lacks)
    | inr lacks ↦ (j, ground (arith, beq_iff j j), lacks)
  ]

module _ {K V : Type 0} ⦃o : Ord K⦄ where
  pub missing-le-length : (ks : List K) (m : OrdMap K V) → missing ks m ≤ length ks
  missing-le-length [] m = omega arith
  missing-le-length (k ∷ ks) m = ground (arith, missing-le-length ks m)

  module _ (m m' : OrdMap K V)
      (grows : (k : K) → OrdMap.contains_key k m ≡ true → OrdMap.contains_key k m' ≡ true) where
    pub missing_mono : (ks : List K) → missing ks m' ≤ missing ks m
    missing_mono [] = omega arith
    missing_mono (k ∷ ks) = ground (arith, grows k, missing_mono ks)

    pub missing_lt :
        (ks : List K) (k : K)
        → OrdSet.contains k ks ≡ true
        → OrdMap.contains_key k m ≡ false
        → OrdMap.contains_key k m' ≡ true
        → missing ks m' < missing ks m
    missing_lt [] k h lacks has = cc
    missing_lt (j ∷ ks) k h lacks has =
        ground (arith, beq_iff k j, grows j, missing_mono ks, missing_lt ks k)

module _ {K V : Type 0} ⦃o : Ord K⦄ (v : V) (all ks : List K) (m : OrdMap K V) where
  contains_key-insert_missing :
      (b : Bool) (k : K)
      → OrdMap.contains_key k (insert_missing v ks (m, b)).0
        ≡ (OrdMap.contains_key k m || OrdSet.contains k ks)
  contains_key-insert_missing b k = ground (arith, lookup-insert_missing v k ks m b)

  -- The loop never makes a map lack more keys.
  pub missing-insert_missing-le :
      (b : Bool) → missing all (insert_missing v ks (m, b)).0 ≤ missing all m
  missing-insert_missing-le b =
      missing_mono m (insert_missing v ks (m, b)).0
        (λ k h. ground (arith, contains_key-insert_missing b k)) all

  -- And fewer, if it raises the flag.
  pub missing-insert_missing-lt :
      ((k : K) → OrdSet.contains k all ≡ true)
      → (insert_missing v ks (m, false)).1 ≡ true
      → missing all (insert_missing v ks (m, false)).0 < missing all m
  missing-insert_missing-lt full h =
      let (k, asked, lacks) = insert_missing-raised v ks m h in
      missing_lt m (insert_missing v ks (m, false)).0
        (λ j hj. ground (arith, contains_key-insert_missing false j)) all k (full k) lacks
        (ground (arith, contains_key-insert_missing false k))
