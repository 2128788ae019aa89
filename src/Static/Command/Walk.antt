-- ===== src/Static/Command/Walk.antt =====
-- src/static/mod.rs: what is loaded of the walk over the target directory.
use cargo_capslock.Prelude.{
  ◌≡◌, refl, ◌∙◌, ap, inl, inr, Bool, true, false, ◌↔◌, ℕ, Option, none, some, List, [], ◌∷◌, ◌++◌,
  Text, codes, beq_iff, text_ord, if◌then◌else◌, Result, Option-cases, Bool-cases, arith,
  rsplit_once, rsplit_once_sound, rsplit_once-append,
}
use cargo_capslock.Paths.{extension, extension_of, file_name, dot}
use cargo_capslock.Static.Bitcode.{Module}
use cargo_capslock.Static.Command.{Entry, System, is_bitcode, loaded}

-- A file with a name that ends in `.bc` and is more than that.
abbrev pub IsBitcode : Entry → Type 0
IsBitcode entry =
    (entry.is_file ≡ true)
    × ((c : ℕ) × (stem : Text) × (file_name entry.path ≡ some ((c ∷ stem) ++ codes ".bc")))

-- What is loaded of the entries of a walk.
pub data Walked (sys : System) : List (Result Text Entry) → List (Result Text Module) → Type 0 where
  done : Walked sys [] []
  unread :
      (x : Text) (entries : List (Result Text Entry)) (loads : List (Result Text Module))
      → Walked sys entries loads
      → Walked sys (Result.err x ∷ entries) (Result.err x ∷ loads)
  bitcode :
      (entry : Entry) (entries : List (Result Text Entry)) (loads : List (Result Text Module))
      → IsBitcode entry
      → Walked sys entries loads
      → Walked sys (Result.ok entry ∷ entries) (sys.load entry.path ∷ loads)
  passed :
      (entry : Entry) (entries : List (Result Text Entry)) (loads : List (Result Text Module))
      → ¬ IsBitcode entry
      → Walked sys entries loads
      → Walked sys (Result.ok entry ∷ entries) loads

extension_of-eq-some :
    (r : Option (Text × Text)) (e : Text)
    → extension_of r ≡ some e
    → (c : ℕ) × (stem : Text) × (r ≡ some (c ∷ stem, e))
extension_of-eq-some none e h = cc
extension_of-eq-some (some ([], after)) e h = cc
extension_of-eq-some (some (c ∷ stem, after)) e h = (c, stem, cc)

-- A path with an extension has a name that ends in it.
extension_sound :
    (p e : Text)
    → extension p ≡ some e
    → (c : ℕ) × (stem : Text) × (file_name p ≡ some ((c ∷ stem) ++ dot ∷ e))
unfolding extension
extension_sound p e h = elim (Option-cases (file_name p)) [
  | inl none_there ↦ cc (rw (none_there, extension) at h)
  | inr (name, there) ↦
      let of_name : extension_of (rsplit_once (dot ∷ []) name) ≡ some e =
        rw (there, extension) at h in
      let (c, stem, split) = extension_of-eq-some (rsplit_once (dot ∷ []) name) e of_name in
      (c, stem, there ∙ ap some (rsplit_once_sound (dot ∷ []) name (c ∷ stem) e split))
]

extension_bc :
    (p : Text) (c : ℕ) (stem : Text)
    → file_name p ≡ some ((c ∷ stem) ++ codes ".bc")
    → extension p ≡ some (codes "bc")
unfolding extension
extension_bc p c stem h =
    rw (h, extension)
      (ap extension_of (rsplit_once-append dot [] (c ∷ stem) (codes "bc") (refl, (refl, refl))))

is_bitcode-IsBitcode : (entry : Entry) → (is_bitcode entry ≡ true) ↔ IsBitcode entry
unfolding is_bitcode
is_bitcode-IsBitcode entry = (forth, back)
  where
    forth : is_bitcode entry ≡ true → IsBitcode entry
    forth h = elim (Option-cases (extension entry.path)) [
      | inl e ↦ ground arith
      | inr (ext, e) ↦
          let file : entry.is_file ≡ true = ground arith in
          let bc : ext ≡ codes "bc" = ground (arith, beq_iff ext (codes "bc")) in
          (file, extension_sound entry.path (codes "bc") (e ∙ ap some bc))
    ]

    back : IsBitcode entry → is_bitcode entry ≡ true
    back (file, (c, stem, h)) = rw (file, extension_bc entry.path c stem h) refl

loaded_step :
    (sys : System) (entry : Entry) (entries : List (Result Text Entry)) (b : Bool)
    → is_bitcode entry ≡ b
    → loaded sys (Result.ok entry ∷ entries)
      ≡ (if b then sys.load entry.path ∷ loaded sys entries else loaded sys entries)
unfolding loaded
loaded_step sys entry entries b h = rw h refl

pub loaded-Walked :
    (sys : System) (entries : List (Result Text Entry)) → Walked sys entries (loaded sys entries)
unfolding loaded
loaded-Walked sys [] = Walked.done
loaded-Walked sys (Result.err x ∷ entries) =
    Walked.unread x entries (loaded sys entries) (loaded-Walked sys entries)
loaded-Walked sys (Result.ok entry ∷ entries) =
    let rest = loaded-Walked sys entries in
    elim (Bool-cases (is_bitcode entry)) [
      | inl e ↦ rw (loaded_step sys entry entries true e) (
          Walked.bitcode entry entries (loaded sys entries) ((is_bitcode-IsBitcode entry).0 e) rest)
      | inr e ↦ rw (loaded_step sys entry entries false e) (
          Walked.passed entry entries (loaded sys entries)
            (λ is. cc ((is_bitcode-IsBitcode entry).1 is)) rest)
    ]
