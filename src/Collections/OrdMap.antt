-- ===== src/Collections/OrdMap.antt =====
-- `BTreeMap` as its entries in the order of the keys. `insert` keeps that order.
use cargo_capslock.Prelude.{
  ◌≡◌, refl, Bool, Option, none, some, List, [], ◌∷◌, ◌++◌, arith, Ordering, Ord, beq,
  if◌then◌else◌, is_some,
}
use cargo_capslock.Collections.OrdSet

abbrev pub OrdMap : Type 0 → Type 0 → Type 0
OrdMap K V = List (K × V)

module _ {K V : Type 0} ⦃o : Ord K⦄ where
  abbrev pub lookup : K → OrdMap K V → Option V
  lookup k [] = none
  lookup k ((j, v) ∷ m) = if beq k j then some v else lookup k m

  abbrev pub contains_key : K → OrdMap K V → Bool
  contains_key k m = is_some (lookup k m)

  abbrev pub insert : K → V → OrdMap K V → OrdMap K V
  insert k v [] = (k, v) ∷ []
  insert k v ((j, w) ∷ m) = elim (o.cmp k j) [
    | Ordering.lt ↦ (k, v) ∷ (j, w) ∷ m
    | Ordering.eq ↦ (k, v) ∷ m
    | Ordering.gt ↦ (j, w) ∷ insert k v m
  ]

  -- One value under each of the keys of an iterator.
  abbrev pub insert_all : V → OrdMap K V → List K → OrdMap K V
  insert_all v m [] = m
  insert_all v m (k ∷ ks) = insert_all v (insert k v m) ks

  abbrev pub keys : OrdMap K V → List K
  keys [] = []
  keys ((j, _) ∷ m) = j ∷ keys m

  -- `retain` on the keys.
  abbrev pub retain : (K → Bool) → OrdMap K V → OrdMap K V
  retain p [] = []
  retain p ((j, w) ∷ m) = if p j then (j, w) ∷ retain p m else retain p m

  -- Every key is above `k`.
  abbrev pub Above : K → OrdMap K V → Type 0
  Above k [] = Unit
  Above k ((j, _) ∷ m) = (o.cmp k j ≡ Ordering.lt) × Above k m

  abbrev pub IsSorted : OrdMap K V → Type 0
  IsSorted [] = Unit
  IsSorted ((j, _) ∷ m) = Above j m × IsSorted m

module _ {K V : Type 0} ⦃o : Ord K⦄ where
  pub lookup-insert :
      (k j : K) (v : V) (m : OrdMap K V)
      → lookup k (insert j v m) ≡ (if beq k j then some v else lookup k m)
  lookup-insert k j v [] = refl
  lookup-insert k j v ((i, w) ∷ m) =
      ground (arith, o.cmp_eq k j, o.cmp_eq j i, o.cmp_eq k i, lookup-insert k j v m)

  pub lookup-retain :
      (k : K) (p : K → Bool) (m : OrdMap K V)
      → lookup k (retain p m) ≡ (if p k then lookup k m else none)
  lookup-retain k p [] = ground arith
  lookup-retain k p ((i, w) ∷ m) = ground (arith, o.cmp_eq k i, lookup-retain k p m)

  Above-insert :
      (k j : K) (v : V) (m : OrdMap K V)
      → o.cmp k j ≡ Ordering.lt
      → Above k m
      → Above k (insert j v m)
  Above-insert k j v [] h a = (h, tt)
  Above-insert k j v ((i, w) ∷ m) h a = ground (arith, Above-insert k j v m h a.1)

  Above-trans : (k j : K) (m : OrdMap K V) → o.cmp k j ≡ Ordering.lt → Above j m → Above k m
  Above-trans k j [] h a = tt
  Above-trans k j ((i, w) ∷ m) h a = (o.cmp_trans k j i h a.0, Above-trans k j m h a.1)

  pub insert-IsSorted : (k : K) (v : V) (m : OrdMap K V) → IsSorted m → IsSorted (insert k v m)
  insert-IsSorted k v [] s = (tt, tt)
  insert-IsSorted k v ((i, w) ∷ m) s = ground (
    arith,
    o.cmp_eq k i,
    o.cmp_flip i k,
    Above-insert i k v m,
    Above-trans k i m,
    insert-IsSorted k v m s.1,
  )

  Above-retain : (k : K) (p : K → Bool) (m : OrdMap K V) → Above k m → Above k (retain p m)
  Above-retain k p [] a = tt
  Above-retain k p ((i, w) ∷ m) a = ground (arith, Above-retain k p m a.1)

  pub retain-IsSorted : (p : K → Bool) (m : OrdMap K V) → IsSorted m → IsSorted (retain p m)
  retain-IsSorted p [] s = tt
  retain-IsSorted p ((i, w) ∷ m) s = ground (arith, Above-retain i p m s.0, retain-IsSorted p m s.1)

  pub lookup-insert_all :
      (k : K) (v : V) (m : OrdMap K V) (ks : List K)
      → lookup k (insert_all v m ks) ≡ (if OrdSet.contains k ks then some v else lookup k m)
  lookup-insert_all k v m [] = refl
  lookup-insert_all k v m (j ∷ ks) =
      ground (arith, lookup-insert_all k v (insert j v m) ks, lookup-insert k j v m)

  pub insert_all-IsSorted :
      (v : V) (m : OrdMap K V) (ks : List K) → IsSorted m → IsSorted (insert_all v m ks)
  insert_all-IsSorted v m [] s = s
  insert_all-IsSorted v m (k ∷ ks) s =
      insert_all-IsSorted v (insert k v m) ks (insert-IsSorted k v m s)

  pub contains-keys : (k : K) (m : OrdMap K V) → OrdSet.contains k (keys m) ≡ contains_key k m
  contains-keys k [] = refl
  contains-keys k ((j, w) ∷ m) = ground (arith, contains-keys k m)

  -- A key that is less than every key of the map.
  pub lookup-Above : (k : K) (m : OrdMap K V) → Above k m → lookup k m ≡ none
  lookup-Above k [] a = refl
  lookup-Above k ((j, w) ∷ m) a = ground (arith, lookup-Above k m a.1)

  Above-middle :
      (j k : K) (v : V) (s t : OrdMap K V) → Above j (s ++ (k, v) ∷ t) → o.cmp j k ≡ Ordering.lt
  Above-middle j k v [] t h = h.0
  Above-middle j k v (i ∷ s) t h = Above-middle j k v s t h.1

  -- A key that is above all others is inserted at the end.
  pub insert-last :
      (k : K) (v : V) (s t : OrdMap K V)
      → IsSorted (s ++ (k, v) ∷ t)
      → insert k v s ≡ s ++ (k, v) ∷ []
  insert-last k v [] t h = refl
  insert-last k v ((j, w) ∷ s) t h =
      ground (arith, insert-last k v s t h.1, Above-middle j k v s t h.0, o.cmp_flip j k)
