-- ===== src/CapMap/Tokens.antt =====
-- capslock-cm/src/lib.rs: the table that the generated code makes of its tokens.
use cargo_capslock.Prelude.{
  Bool-cases, ◌≡◌, refl, ap, sym, ◌∙◌, Option, none, some, List, [], ◌∷◌, map, arith, Text,
  text_ord, beq, inl, inr, beq_iff,
}
use cargo_capslock.Collections.OrdMap
use cargo_capslock.Collections.OrdMap.{OrdMap}
use cargo_capslock.Collections.OrdSet
use cargo_capslock.Collections.OrdSet.{OrdSet}
use cargo_capslock.Capslock.Caps.{Capability, capability_ord}
use cargo_capslock.Capslock.Caps.Names.{to_string, from_str-to_string}
use cargo_capslock.CapMap.{CapSet, Hashing, Tokens, iterated, to_tokens, run_caps, run_entries}

run_caps-to_string : (cs : List Capability) → run_caps (map to_string cs) ≡ some cs
run_caps-to_string [] = refl
run_caps-to_string (c ∷ cs) = ground (arith, from_str-to_string c, run_caps-to_string cs)

abbrev pub or_else : Option (List Capability) → Option (List Capability) → Option (List Capability)
or_else none r = r
or_else (some caps) r = some caps

-- The set that is made of the capabilities of a list.
abbrev pub as_set : Option (List Capability) → Option (OrdSet Capability)
as_set none = none
as_set (some caps) = some (OrdSet.collect caps)

module _ (hashing : Hashing) where
  run_entries_step :
      (name : Text) (caps : OrdSet Capability) (tokens : Tokens) (s : CapSet)
      → run_entries ((name, map to_string (hashing.iter name caps)) ∷ tokens) s
        ≡ run_entries tokens (OrdMap.insert name (OrdSet.collect (hashing.iter name caps)) s)
  run_entries_step name caps tokens s =
      rw (run_caps-to_string (hashing.iter name caps), run_entries) refl

  -- The set of a name once the generated code has made it again.
  abbrev pub again : Text → CapSet → Option (OrdSet Capability)
  again k t = as_set (iterated hashing k (OrdMap.lookup k t))

  -- The generated code adds a table, by its own tokens, to the entries that it has.
  pub run_entries-to_tokens :
      (t s : CapSet)
      → OrdMap.IsSorted t
      → (s' : CapSet) × (run_entries (to_tokens hashing t) s ≡ some s')
        × ((k : Text) → OrdMap.lookup k s' ≡ or_else (again k t) (OrdMap.lookup k s))
  unfolding to_tokens
  run_entries-to_tokens [] s h = (s, refl, λ k. refl)
  run_entries-to_tokens ((name, caps) ∷ t) s h =
      let made = OrdSet.collect (hashing.iter name caps) in
      let (s', e, at) = run_entries-to_tokens t (OrdMap.insert name made s) h.1 in
      let absent = OrdMap.lookup-Above name t h.0 in
      (
        s',
        run_entries_step name caps (to_tokens hashing t) s ∙ e,
        λ k. elim (Bool-cases (beq k name)) [
          | inr other ↦
              let kept = OrdMap.lookup-insert k name made s in at k ∙ rw (kept, other) refl
          | inl same ↦
              let is : name ≡ k = sym ((beq_iff k name).0 same) in
              let none_later : OrdMap.lookup k t ≡ none = rw is at absent in
              let put = OrdMap.lookup-insert k name made s in
              at k
              ∙ rw (none_later, put, same)
                  (ap (λ (n : Text). some (OrdSet.collect (hashing.iter n caps))) is)
        ],
      )

pub or_else-none : (a : Option (OrdSet Capability)) → or_else a none ≡ a
or_else-none none = refl
or_else-none (some a) = refl

-- Both are there with the same capabilities, in any order, or neither is there.
abbrev pub SameCaps : Option (List Capability) → Option (List Capability) → Type 0
SameCaps none none = Unit
SameCaps none (some _) = ⊥
SameCaps (some _) none = ⊥
SameCaps (some xs) (some ys) = (c : Capability) → OrdSet.contains c xs ≡ OrdSet.contains c ys

-- A set that was made of a list, iterated, made again and iterated again has what the list has.
pub iterated-SameCaps :
    (build run : Hashing) (k : Text) (o : Option (List Capability))
    → SameCaps (iterated run k (as_set (iterated build k (as_set o)))) o
iterated-SameCaps build run k none = tt
iterated-SameCaps build run k (some caps) = λ c.
    let made = OrdSet.collect caps in
    let shown = build.iter k made in
    run.iter-contains k (OrdSet.collect shown) c
    ∙ OrdSet.contains-extend c [] shown
    ∙ build.iter-contains k made c
    ∙ OrdSet.contains-extend c [] caps
