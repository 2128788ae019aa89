-- ===== src/Collections/Entries.antt =====
-- A property of every entry of a map with numbers as keys.
use cargo_capslock.Prelude.{
  ℕ, ◌≡◌, Bool, some, [], ◌∷◌, ◌++◌, arith, Bool-cases, inl, inr, ◌==◌, nat_ord,
}
use cargo_capslock.Collections.OrdMap
use cargo_capslock.Collections.OrdMap.{OrdMap}

module _ {V : Type 0} (F : ℕ → V → Type 0) where
  -- A property of every entry.
  abbrev pub Each : OrdMap ℕ V → Type 0
  Each [] = Unit
  Each ((k, v) ∷ m) = F k v × Each m

  pub Each-lookup : (k : ℕ) (v : V) (m : OrdMap ℕ V) → Each m → OrdMap.lookup k m ≡ some v → F k v
  Each-lookup k v [] h e = cc
  Each-lookup k v ((j, w) ∷ m) h e = elim (Bool-cases (k == j)) [
    | inl same ↦ let ek : k ≡ j = ground arith in let ev : v ≡ w = ground arith in rw (ek, ev) h.0
    | inr other ↦ Each-lookup k v m h.1 (ground arith)
  ]

  pub Each-insert : (j : ℕ) (w : V) (m : OrdMap ℕ V) → F j w → Each m → Each (OrdMap.insert j w m)
  Each-insert j w [] new h = (new, tt)
  Each-insert j w ((k, v) ∷ m) new h = ground (arith, Each-insert j w m new h.1)

  pub Each-retain : (p : ℕ → Bool) (m : OrdMap ℕ V) → Each m → Each (OrdMap.retain p m)
  Each-retain p [] h = tt
  Each-retain p ((k, v) ∷ m) h = ground (arith, Each-retain p m h.1)

  pub Each-last : (xs : OrdMap ℕ V) (j : ℕ) (w : V) → Each xs → F j w → Each (xs ++ (j, w) ∷ [])
  Each-last [] j w h new = (new, tt)
  Each-last (x ∷ xs) j w h new = (h.0, Each-last xs j w h.1 new)
