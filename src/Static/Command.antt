-- ===== src/Static/Command.antt =====
-- src/static/mod.rs: the static command, from its arguments to the report that it prints.
pub mod Walk
pub mod Steps
pub mod Outcome
mod Tests
use cargo_capslock.Prelude.{
  ◌≡◌, refl, inl, inr, Bool, false, Option, none, some, List, [], ◌∷◌, map, ◌&&◌, Text, codes,
  text_ord, beq, if◌then◌else◌, Result, Result-cases, and_then, and_then-eq-ok,
}
use cargo_capslock.Prelude.Fallible.{◌>>=◌}
use cargo_capslock.Capslock.Report.{Report}
use cargo_capslock.Paths.{join, extension}
use cargo_capslock.Functions.Build.{Symbolic, FunctionCaps}
use cargo_capslock.Graph.CallGraph.{DiGraphMap}
use cargo_capslock.Static.Bitcode.{Module, AddError}
use cargo_capslock.Static.Run.{Analysed, analyse}
use cargo_capslock.Static.Meaning.{IsReport}
use cargo_capslock.Static.Means.{all_functions, all_calls, Means}
use cargo_capslock.Static.Correct.{analyse_correct}

-- The arguments of the command.
pub record Static : Type 0 where
  pub bin : Option Text
  pub function_caps : Text
  pub package_ : Option Text
  pub release : Bool
  pub rust_toolchain : Text
  pub workspace : Bool
  pub path : Option Text

-- `escargot::CargoBuild`, and the messages of cargo when it is run in a directory.
pub record Escargot : Type 1 where
  pub CargoBuild : Type 0
  pub new : CargoBuild
  pub env : Text → Text → CargoBuild → CargoBuild
  pub target_dir : Text → CargoBuild → CargoBuild
  pub bin : Text → CargoBuild → CargoBuild
  pub package_ : Text → CargoBuild → CargoBuild
  pub release : CargoBuild → CargoBuild
  pub arg : Text → CargoBuild → CargoBuild
  pub messages : Text → CargoBuild → Result Text (List (Result Text Unit))

-- An entry of the walk over a directory.
pub record Entry : Type 0 where
  pub is_file : Bool
  pub path : Text

-- The filter on the entries: files whose extension is `bc`.
abbrev pub has_extension : Text → Option Text → Bool
has_extension ext none = false
has_extension ext (some e) = beq e ext

unfoldable pub is_bitcode : Entry → Bool
is_bitcode entry = entry.is_file && has_extension (codes "bc") (extension entry.path)

abbrev given : {A C : Type 0} → Option A → (A → C → C) → C → C
given none f c = c
given (some a) f c = f a c

-- The loop over the messages of cargo: up to the first error.
abbrev pub read_messages : List (Result Text Unit) → Result Text Unit
read_messages [] = Result.ok tt
read_messages (Result.err e ∷ msgs) = Result.err e
read_messages (Result.ok _ ∷ msgs) = read_messages msgs

-- What the system answers: an error is its message.
pub record System : Type 0 where
  -- `FunctionCaps::from_path`
  pub from_path : Text → Result Text FunctionCaps
  pub temp_dir : Result Text Text
  pub current_dir : Result Text Text
  pub walk : Text → List (Result Text Entry)
  -- The module of a bitcode file, with the analysis of its calls.
  pub load : Text → Result Text Module
  pub write : Report → Result Text Unit

abbrev pub or_current : Option Text → Result Text Text → Result Text Text
or_current (some path) dir = Result.ok path
or_current none dir = dir

module _ (escargot : Escargot) where
  open escargot use {CargoBuild}

  -- What cargo is asked to build.
  unfoldable pub cargo_of : Static → Text → CargoBuild
  cargo_of self target =
      let flags =
        escargot.env (codes "RUSTFLAGS")
          (codes
            "--emit=llvm-bc -Cno-prepopulate-passes -Cllvm-args=--inline-threshold=999999999 -Zinline-mir=no")
          escargot.new in
      let bootstrap = escargot.env (codes "RUSTC_BOOTSTRAP") (codes "1") flags in
      let toolchain = escargot.env (codes "RUSTUP_TOOLCHAIN") self.rust_toolchain bootstrap in
      let built = escargot.target_dir target toolchain in
      let binary = given self.bin escargot.bin built in
      let packaged = given self.package_ escargot.package_ binary in
      let profiled = if self.release then escargot.release packaged else packaged in
      if self.workspace then escargot.arg (codes "--workspace") profiled else profiled

  -- `Static::build`
  unfoldable pub build : Static → System → Text → Result Text Unit
  build self sys target = do
    path ← or_current self.path sys.current_dir
    messages ← escargot.messages path (cargo_of self target)
    read_messages messages

-- Where the bitcode files are looked for.
unfoldable pub deps_dir : Static → Text → Text
deps_dir self target =
    join (join target (if self.release then codes "release" else codes "debug")) (codes "deps")

-- What is loaded, in the order of the walk; an entry that cannot be read is an error.
unfoldable pub loaded : System → List (Result Text Entry) → List (Result Text Module)
loaded sys [] = []
loaded sys (Result.err e ∷ entries) = Result.err e ∷ loaded sys entries
loaded sys (Result.ok entry ∷ entries) =
    let rest = loaded sys entries in if is_bitcode entry then sys.load entry.path ∷ rest else rest

abbrev pub written : Report → Result Text Unit → Analysed
written r (Result.ok _) = Analysed.report r
written r (Result.err e) = Analysed.failed (AddError.load e)

abbrev pub printed : System → Analysed → Analysed
printed sys (Analysed.report r) = written r (sys.write r)
printed sys (Analysed.failed e) = Analysed.failed e
printed sys Analysed.panicked = Analysed.panicked

module _ (escargot : Escargot) (petgraph : DiGraphMap) (symbolic : Symbolic) where
  -- The steps before the bitcode files are read.
  abbrev pub prepared : Static → System → Result Text (FunctionCaps × Text)
  prepared self sys = do
    function_caps ← sys.from_path self.function_caps
    target ← sys.temp_dir
    _ ← build escargot self sys target
    Result.ok (function_caps, target)

  -- `Static::main`. An error with a message is one of loading.
  unfoldable pub main : Static → System → Analysed
  unfolding deps_dir loaded
  main self sys = elim (prepared self sys) [
    | Result.err e ↦ Analysed.failed (AddError.load e)
    | Result.ok (function_caps, target) ↦
        printed sys
          (analyse petgraph symbolic function_caps (loaded sys (sys.walk (deps_dir self target))))
  ]
