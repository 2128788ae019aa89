-- ===== src/Runtime/Events/Chain.antt =====
-- src/runtime/mod.rs: the calls that a stack leaves in the call graph of its process.
use cargo_capslock.Prelude.{
  ℕ, ◌≡◌, refl, sym, ap, subst, Bool, true, false, if◌then◌else◌, Option, none, some, List, [], ◌∷◌,
  Text, Result, Result-cases, inl, inr,
}
use cargo_capslock.Collections.OrdSet.{OrdSet}
use cargo_capslock.Capslock.Caps.{Capability}
use cargo_capslock.Capslock.Report.{Function, FunctionName}
use cargo_capslock.Functions.Names.{Error as NameError}
use cargo_capslock.Functions.Build.{parse_mangled_name, to_function_with_caps}
use cargo_capslock.Runtime.Platform.{Platform}
use cargo_capslock.Runtime.Process.{State, add_edge, upsert_function}
use cargo_capslock.Runtime.Lookup.{Lookup, find_location}
use cargo_capslock.Runtime.Events.{
  Env, Recorded, add_call, record_function, record_name, record_names,
}
use cargo_capslock.Runtime.Events.Lasts.{
  IsIndex, IsCall, IsChain, Lasts, Lasts-trans, upsert_function-Lasts, add_edge-Lasts,
  add_edge-IsCall, upsert_function-IsIndex,
}

module _ (P : Platform) (env : Env) where
  open P use {petgraph, Sysno}

  -- What recording a name does.
  record Step (name : Text) (r r' : Recorded P env) : Type 0 where
    lasts : Lasts P r.state r'.state
    idx : ℕ
    child : r'.child_idx ≡ some idx
    named : IsIndex P r'.state name idx
    called : (c : ℕ) → r.child_idx ≡ some c → IsCall P r'.state idx c

  call-Step :
      (name : Text) (f : Function) (s : State P) (child : Option ℕ) (l l' : Lookup)
      → let (s', i) = upsert_function P name f s in
        Step name
          (record { state = s; lookup = l; child_idx = child })
          (record { state = add_call P env i child s'; lookup = l'; child_idx = some i })
  call-Step name f s none l l' = record {
    lasts = upsert_function-Lasts P name f s;
    idx = (upsert_function P name f s).1;
    child = refl;
    named = upsert_function-IsIndex P name f s;
    called = λ c e. cc;
  }
  call-Step name f s (some callee) l l' =
      let (s', i) = upsert_function P name f s in
      let added = add_edge-Lasts P i callee s' in
      record {
        lasts = Lasts-trans P s s' _ (upsert_function-Lasts P name f s) added;
        idx = i;
        child = refl;
        named = added.index name i (upsert_function-IsIndex P name f s);
        called = λ c e.
            let same : callee ≡ c = cc in
            subst (λ (d : ℕ). IsCall P (add_edge P i callee s') i d) same
              (add_edge-IsCall P i callee s');
      }

  record_function-Step :
      (pid : ℕ) (name : Text) (f : Function) (r : Recorded P env)
      → Step name r (record_function P env pid name f r)
  unfolding record_function
  record_function-Step pid name f r =
      let (l', loc) = find_location env.debug pid name r.lookup in
      call-Step name (record f { location = loc }) r.state r.child_idx r.lookup l'

  -- The names of a stack that can be parsed.
  abbrev pub is_ok : Result NameError FunctionName → Bool
  is_ok (Result.ok _) = true
  is_ok (Result.err _) = false

  abbrev pub parsable : List Text → List Text
  parsable [] = []
  parsable (name ∷ names) =
      if is_ok (parse_mangled_name env.symbolic name) then name ∷ parsable names else parsable names

  module _ (inc : Bool) (pid : ℕ) (nr : Option Sysno) (caps : OrdSet Capability) where
    record_name-skip :
        (name : Text) (r : Recorded P env) (e : NameError)
        → parse_mangled_name env.symbolic name ≡ Result.err e
        → record_name P env inc pid nr caps name r ≡ r
    unfolding record_name to_function_with_caps
    record_name-skip name r e h = rw (h, record_name, to_function_with_caps) refl

    record_names-skip :
        (name : Text) (names : List Text) (r : Recorded P env) (e : NameError)
        → parse_mangled_name env.symbolic name ≡ Result.err e
        → record_names P env inc pid nr caps (name ∷ names) r
          ≡ record_names P env inc pid nr caps names r
    unfolding record_names
    record_names-skip name names r e h =
        ap (record_names P env inc pid nr caps names) (record_name-skip name r e h)

    record_name-Step :
        (name : Text) (r : Recorded P env) (n : FunctionName)
        → parse_mangled_name env.symbolic name ≡ Result.ok n
        → Step name r (record_name P env inc pid nr caps name r)
    unfolding record_name to_function_with_caps
    record_name-Step name r n h =
        rw (h, record_name, to_function_with_caps) (record_function-Step pid name _ r)

    -- Behind a name that has been recorded last.
    names-IsChain :
        (x : Text) (names : List Text) (r : Recorded P env) (i : ℕ)
        → r.child_idx ≡ some i
        → IsIndex P r.state x i
        → let end = record_names P env inc pid nr caps names r in
          Lasts P r.state end.state × IsChain P end.state (x ∷ parsable names)
    unfolding record_names
    names-IsChain x [] r i child named =
        (record { index = λ k j e. e; call = λ a b e. e; entry = λ j f e. e }, (i, named))
    names-IsChain x (y ∷ names) r i child named =
        elim (Result-cases (parse_mangled_name env.symbolic y)) [
          | inr (e, h) ↦ rw h (
              subst
                (λ (q : Recorded P env).
                  Lasts P r.state q.state × IsChain P q.state (x ∷ parsable names))
                (sym (record_names-skip y names r e h)) (names-IsChain x names r i child named))
          | inl (n, h) ↦
              let r' = record_name P env inc pid nr caps y r in
              let step = record_name-Step y r n h in
              let (later, chain) = names-IsChain y names r' step.idx step.child step.named in
              let before = Lasts-trans P r.state r'.state _ step.lasts later in
              rw h (
                before,
                (
                  (
                    i,
                    step.idx,
                    before.index x i named,
                    later.index y step.idx step.named,
                    later.call step.idx i (step.called i child),
                  ),
                  chain,
                ),
              )
        ]

    -- After a stack is recorded, every name of it that can be parsed has a function, and each one but the
    -- innermost has a call to the one inside it: names that cannot be parsed are passed over.
    pub record_names-IsChain :
        (names : List Text) (s : State P) (l : Lookup)
        → IsChain P
            (record_names P env inc pid nr caps names
              (record { state = s; lookup = l; child_idx = none })).state
            (parsable names)
    unfolding record_names
    record_names-IsChain [] s l = tt
    record_names-IsChain (x ∷ names) s l =
        let r : Recorded P env = record { state = s; lookup = l; child_idx = none } in
        elim (Result-cases (parse_mangled_name env.symbolic x)) [
          | inr (e, h) ↦ rw (h, record_names-skip x names r e h) (record_names-IsChain names s l)
          | inl (n, h) ↦
              let step = record_name-Step x r n h in
              rw h
                (names-IsChain x names (record_name P env inc pid nr caps x r) step.idx step.child
                  step.named).1
        ]

    -- Recording a stack takes nothing away.
    pub names-Lasts :
        (names : List Text) (r : Recorded P env)
        → Lasts P r.state (record_names P env inc pid nr caps names r).state
    unfolding record_names
    names-Lasts [] r = record { index = λ k j e. e; call = λ a b e. e; entry = λ j f e. e }
    names-Lasts (x ∷ names) r = elim (Result-cases (parse_mangled_name env.symbolic x)) [
      | inr (e, h) ↦
          subst (λ (q : Recorded P env). Lasts P r.state q.state)
            (sym (record_names-skip x names r e h)) (names-Lasts names r)
      | inl (n, h) ↦
          let r' = record_name P env inc pid nr caps x r in
          Lasts-trans P r.state r'.state _ (record_name-Step x r n h).lasts (names-Lasts names r')
    ]
