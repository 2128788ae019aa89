-- ===== src/Static/Command/Steps.antt =====
-- src/static/mod.rs: the steps before the bitcode files are read, and how they fail.
use cargo_capslock.Prelude.{
  ◌≡◌, refl, ap, subst, ◌⊎◌, inl, inr, Option, none, some, List, [], ◌∷◌, ◌++◌, map, Text, Result,
  Result-cases, and_then,
}
use cargo_capslock.Functions.Build.{Symbolic, FunctionCaps}
use cargo_capslock.Graph.CallGraph.{DiGraphMap}
use cargo_capslock.Static.Command.{
  Static, Escargot, System, read_messages, or_current, cargo_of, build, prepared,
}

-- Without an error, all messages are read; else the messages are read up to the first error.
abbrev pub Reads : List (Result Text Unit) → Result Text Unit → Type 0
Reads msgs (Result.ok _) = (units : List Unit) × (msgs ≡ map Result.ok units)
Reads msgs (Result.err x) =
    (units : List Unit) × (rest : List (Result Text Unit)) × (msgs
      ≡ map Result.ok units ++ Result.err x ∷ rest)

Reads-cons :
    (u : Unit) (msgs : List (Result Text Unit)) (r : Result Text Unit)
    → Reads msgs r
    → Reads (Result.ok u ∷ msgs) r
Reads-cons u msgs (Result.ok _) (units, e) =
    (u ∷ units, ap (λ (ms : List (Result Text Unit)). Result.ok u ∷ ms) e)
Reads-cons u msgs (Result.err x) (units, rest, e) =
    (u ∷ units, rest, ap (λ (ms : List (Result Text Unit)). Result.ok u ∷ ms) e)

read_messages-Reads : (msgs : List (Result Text Unit)) → Reads msgs (read_messages msgs)
read_messages-Reads [] = ([], refl)
read_messages-Reads (Result.err x ∷ msgs) = ([], msgs, refl)
read_messages-Reads (Result.ok u ∷ msgs) =
    Reads-cons u msgs (read_messages msgs) (read_messages-Reads msgs)

module _ (escargot : Escargot) (self : Static) (sys : System) where
  -- The project is built: the given path, or else the current directory, is where cargo runs, and all its
  -- messages are read.
  pub record IsBuilding (fc : FunctionCaps) (target path : Text) (msgs : List (Result Text Unit))
      : Type 0 where
    pub mapping : sys.from_path self.function_caps ≡ Result.ok fc
    pub directory : sys.temp_dir ≡ Result.ok target
    pub place : (self.path ≡ some path) ⊎ ((self.path ≡ none) × (sys.current_dir ≡ Result.ok path))
    pub started : escargot.messages path (cargo_of escargot self target) ≡ Result.ok msgs

  -- How the steps end: with the mapping and the target directory after a build without an error, or
  -- with the error of the first step that fails.
  pub data Steps : Result Text (FunctionCaps × Text) → Type 0 where
    built :
        (fc : FunctionCaps) (target path : Text) (units : List Unit)
        → IsBuilding fc target path (map Result.ok units)
        → Steps (Result.ok (fc, target))
    from_path : (x : Text) → sys.from_path self.function_caps ≡ Result.err x → Steps (Result.err x)
    temp_dir :
        (fc : FunctionCaps) (x : Text)
        → sys.from_path self.function_caps ≡ Result.ok fc
        → sys.temp_dir ≡ Result.err x
        → Steps (Result.err x)
    current_dir :
        (fc : FunctionCaps) (target x : Text)
        → sys.from_path self.function_caps ≡ Result.ok fc
        → sys.temp_dir ≡ Result.ok target
        → self.path ≡ none
        → sys.current_dir ≡ Result.err x
        → Steps (Result.err x)
    cargo :
        (fc : FunctionCaps) (target path x : Text)
        → sys.from_path self.function_caps ≡ Result.ok fc
        → sys.temp_dir ≡ Result.ok target
        → (self.path ≡ some path) ⊎ ((self.path ≡ none) × (sys.current_dir ≡ Result.ok path))
        → escargot.messages path (cargo_of escargot self target) ≡ Result.err x
        → Steps (Result.err x)
    message :
        (fc : FunctionCaps) (target path x : Text) (units : List Unit)
        (rest : List (Result Text Unit))
        → IsBuilding fc target path (map Result.ok units ++ Result.err x ∷ rest)
        → Steps (Result.err x)

  or_current-some :
      (given : Option Text) (dir : Result Text Text) (path : Text)
      → or_current given dir ≡ Result.ok path
      → (given ≡ some path) ⊎ ((given ≡ none) × (dir ≡ Result.ok path))
  or_current-some none dir path h = inr (refl, h)
  or_current-some (some p) dir path h = inl cc

  or_current-err :
      (given : Option Text) (dir : Result Text Text) (x : Text)
      → or_current given dir ≡ Result.err x
      → (given ≡ none) × (dir ≡ Result.err x)
  or_current-err none dir x h = (refl, h)
  or_current-err (some p) dir x h = cc

  -- The steps after the messages have begun.
  read-Steps :
      (fc : FunctionCaps) (target path : Text) (msgs : List (Result Text Unit))
      (r : Result Text Unit)
      → IsBuilding fc target path msgs
      → Reads msgs r
      → Steps (and_then r (λ _. Result.ok (fc, target)))
  read-Steps fc target path msgs (Result.ok tt) is (units, e) =
      Steps.built fc target path units (subst (IsBuilding fc target path) e is)
  read-Steps fc target path msgs (Result.err x) is (units, rest, e) =
      Steps.message fc target path x units rest (subst (IsBuilding fc target path) e is)

  build-Steps :
      (fc : FunctionCaps) (target : Text)
      → sys.from_path self.function_caps ≡ Result.ok fc
      → sys.temp_dir ≡ Result.ok target
      → Steps (and_then (build escargot self sys target) (λ _. Result.ok (fc, target)))
  unfolding build
  build-Steps fc target mapping directory =
      elim (Result-cases (or_current self.path sys.current_dir)) [
        | inr (x, e) ↦
            let (no_path, no_dir) = or_current-err self.path sys.current_dir x e in
            rw e (Steps.current_dir fc target x mapping directory no_path no_dir)
        | inl (path, e) ↦
            let place = or_current-some self.path sys.current_dir path e in
            elim (Result-cases (escargot.messages path (cargo_of escargot self target))) [
              | inr (x, f) ↦ rw (e, f) (Steps.cargo fc target path x mapping directory place f)
              | inl (msgs, f) ↦
                  let is : IsBuilding fc target path msgs = record {
                    mapping = mapping;
                    directory = directory;
                    place = place;
                    started = f;
                  } in
                  rw (e, f)
                    (read-Steps fc target path msgs (read_messages msgs) is
                      (read_messages-Reads msgs))
            ]
      ]

  temp_dir-Steps :
      (fc : FunctionCaps) (dir : Result Text Text)
      → sys.from_path self.function_caps ≡ Result.ok fc
      → sys.temp_dir ≡ dir
      → Steps (
          and_then dir
            (λ target. and_then (build escargot self sys target) (λ _. Result.ok (fc, target))))
  temp_dir-Steps fc (Result.err x) e f = Steps.temp_dir fc x e f
  temp_dir-Steps fc (Result.ok target) e f = build-Steps fc target e f

  pub prepared-Steps :
      (petgraph : DiGraphMap) (symbolic : Symbolic)
      → Steps (prepared escargot petgraph symbolic self sys)
  prepared-Steps petgraph symbolic = from_path-Steps (sys.from_path self.function_caps) refl
    where
      from_path-Steps :
          (caps : Result Text FunctionCaps)
          → sys.from_path self.function_caps ≡ caps
          → Steps (
              and_then caps (λ fc. and_then sys.temp_dir (λ target.
                and_then (build escargot self sys target) (λ _. Result.ok (fc, target)))))
      from_path-Steps (Result.err x) e = Steps.from_path x e
      from_path-Steps (Result.ok fc) e = temp_dir-Steps fc sys.temp_dir e refl
