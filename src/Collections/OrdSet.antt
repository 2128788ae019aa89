-- ===== src/Collections/OrdSet.antt =====
-- `BTreeSet` as its elements in order.
use cargo_capslock.Prelude.{
  ◌≡◌, refl, Bool, false, ◌&&◌, ◌||◌, if◌then◌else◌, List, [], ◌∷◌, ◌++◌, append_assoc, append-nil,
  reverse, reverse-cons, ap, sym, ◌∙◌, arith, Ordering, Ord, beq,
}

abbrev pub OrdSet : Type 0 → Type 0
OrdSet K = List K

module _ {K : Type 0} ⦃o : Ord K⦄ where
  abbrev pub contains : K → OrdSet K → Bool
  contains k [] = false
  contains k (j ∷ s) = beq k j || contains k s

  abbrev pub insert : K → OrdSet K → OrdSet K
  insert k [] = k ∷ []
  insert k (j ∷ s) = elim (o.cmp k j) [
    | Ordering.lt ↦ k ∷ j ∷ s
    | Ordering.eq ↦ j ∷ s
    | Ordering.gt ↦ j ∷ insert k s
  ]

  -- `extend` inserts in the order of the iterator.
  abbrev pub extend : OrdSet K → List K → OrdSet K
  extend s [] = s
  extend s (k ∷ ks) = extend (insert k s) ks

  -- `collect` from an iterator.
  abbrev pub collect : List K → OrdSet K
  collect ks = extend [] ks

  -- `filter` on the iterator.
  abbrev pub filter : (K → Bool) → List K → List K
  filter p [] = []
  filter p (k ∷ ks) = if p k then k ∷ filter p ks else filter p ks

  abbrev pub Above : K → OrdSet K → Type 0
  Above k [] = Unit
  Above k (j ∷ s) = (o.cmp k j ≡ Ordering.lt) × Above k s

  abbrev pub IsSorted : OrdSet K → Type 0
  IsSorted [] = Unit
  IsSorted (j ∷ s) = Above j s × IsSorted s

module _ {K : Type 0} ⦃o : Ord K⦄ where
  pub contains-insert :
      (k j : K) (s : OrdSet K) → contains k (insert j s) ≡ (beq k j || contains k s)
  contains-insert k j [] = refl
  contains-insert k j (i ∷ s) =
      ground (arith, o.cmp_eq k j, o.cmp_eq j i, o.cmp_eq k i, contains-insert k j s)

  pub contains-extend :
      (k : K) (s : OrdSet K) (ks : List K)
      → contains k (extend s ks) ≡ (contains k s || contains k ks)
  contains-extend k s [] = ground arith
  contains-extend k s (j ∷ ks) =
      ground (arith, contains-extend k (insert j s) ks, contains-insert k j s)

  pub contains-append :
      (k : K) (s : OrdSet K) (t : OrdSet K) → contains k (s ++ t) ≡ (contains k s || contains k t)
  contains-append k [] t = refl
  contains-append k (j ∷ s) t = ground (arith, contains-append k s t)

  pub contains-reverse : (k : K) (s : List K) → contains k (reverse s) ≡ contains k s
  contains-reverse k [] = refl
  contains-reverse k (j ∷ s) =
      ap (contains k) (reverse-cons j s)
      ∙ contains-append k (reverse s) (j ∷ [])
      ∙ ground (arith, contains-reverse k s)

  pub contains-filter :
      (k : K) (p : K → Bool) (ks : List K) → contains k (filter p ks) ≡ (contains k ks && p k)
  contains-filter k p [] = refl
  contains-filter k p (j ∷ ks) = ground (arith, o.cmp_eq k j, contains-filter k p ks)

  Above-insert :
      (k j : K) (s : OrdSet K) → o.cmp k j ≡ Ordering.lt → Above k s → Above k (insert j s)
  Above-insert k j [] h a = (h, tt)
  Above-insert k j (i ∷ s) h a = ground (arith, Above-insert k j s h a.1)

  Above-trans : (k j : K) (s : OrdSet K) → o.cmp k j ≡ Ordering.lt → Above j s → Above k s
  Above-trans k j [] h a = tt
  Above-trans k j (i ∷ s) h a = (o.cmp_trans k j i h a.0, Above-trans k j s h a.1)

  pub insert-IsSorted : (k : K) (s : OrdSet K) → IsSorted s → IsSorted (insert k s)
  insert-IsSorted k [] h = (tt, tt)
  insert-IsSorted k (i ∷ s) h =
      ground (arith, o.cmp_flip i k, Above-insert i k s, Above-trans k i s, insert-IsSorted k s h.1)

  pub extend-IsSorted : (s : OrdSet K) (ks : List K) → IsSorted s → IsSorted (extend s ks)
  extend-IsSorted s [] h = h
  extend-IsSorted s (k ∷ ks) h = extend-IsSorted (insert k s) ks (insert-IsSorted k s h)

  Above-middle : (j k : K) (s t : OrdSet K) → Above j (s ++ k ∷ t) → o.cmp j k ≡ Ordering.lt
  Above-middle j k [] t h = h.0
  Above-middle j k (i ∷ s) t h = Above-middle j k s t h.1

  insert-last : (k : K) (s t : OrdSet K) → IsSorted (s ++ k ∷ t) → insert k s ≡ s ++ k ∷ []
  insert-last k [] t h = refl
  insert-last k (j ∷ s) t h =
      ground (arith, insert-last k s t h.1, Above-middle j k s t h.0, o.cmp_flip j k)

  extend-sorted : (s t : OrdSet K) → IsSorted (s ++ t) → extend s t ≡ s ++ t
  extend-sorted s [] h = sym (append-nil s)
  extend-sorted s (k ∷ t) h =
      let e = insert-last k s t h in
      let step : (s ++ k ∷ []) ++ t ≡ s ++ k ∷ t = append_assoc s (k ∷ []) t in
      rw e (extend-sorted (s ++ k ∷ []) t (rw step h) ∙ step)

  -- A set that is collected in its order is the set.
  pub collect-sorted : (s : OrdSet K) → IsSorted s → collect s ≡ s
  collect-sorted s h = extend-sorted [] s h
