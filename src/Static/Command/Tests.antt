-- ===== src/Static/Command/Tests.antt =====
-- src/static/mod.rs: a run of the static command.
use cargo_capslock.Prelude.{
  ◌≡◌, refl, true, false, none, List, [], ◌∷◌, Text, codes, Result, rsplit_once,
}
use cargo_capslock.Paths.{extension, file_name, join, is_absolute}
use cargo_capslock.Functions.Tests.{plain_names, std_caps}
use cargo_capslock.Graph.EdgeList.{edge_list}
use cargo_capslock.Static.Tests.{calls_read}
use cargo_capslock.Static.Command.{Static, Escargot, Entry, System, is_bitcode, main, deps_dir}
use cargo_capslock.Static.Command.Outcome.{MainMeans, main_correct}

-- A build as the list of what it is asked for.
abbrev cargo_words : Escargot
cargo_words = record {
  CargoBuild = List Text;
  new = [];
  env = λ k v c. k ∷ v ∷ c;
  target_dir = λ t c. t ∷ c;
  bin = λ t c. t ∷ c;
  package_ = λ t c. t ∷ c;
  release = λ c. codes "--release" ∷ c;
  arg = λ t c. t ∷ c;
  messages = λ dir c. Result.ok [];
}

abbrev arguments : Static
arguments = record {
  bin = none;
  function_caps = codes "caps.json";
  package_ = none;
  release = false;
  rust_toolchain = codes "1.86.0";
  workspace = true;
  path = none;
}

abbrev file : Text → Entry
file path = record { is_file = true; path = path }

-- A walk over a file of bitcode and one of another kind.
abbrev machine : System
machine = record {
  from_path = λ path. Result.ok std_caps;
  temp_dir = Result.ok (codes "/t");
  current_dir = Result.ok (codes "/home");
  walk = λ path. Result.ok (file (codes "/t/a.bc")) ∷ Result.ok (file (codes "/t/a.d")) ∷ [];
  load = λ path. Result.ok calls_read;
  write = λ r. Result.ok tt;
}

bitcode_run : is_bitcode (file (codes "/t/a.bc")) ≡ true
unfolding is_bitcode extension file_name rsplit_once
bitcode_run = refl

hidden_run : is_bitcode (file (codes "/t/.bc")) ≡ false
unfolding is_bitcode extension file_name rsplit_once
hidden_run = refl

release_run : deps_dir arguments (codes "/t") ≡ codes "/t/debug/deps"
unfolding deps_dir join is_absolute
release_run = refl

main_correct_example :
    MainMeans cargo_words plain_names arguments machine
      (main cargo_words edge_list plain_names arguments machine)
main_correct_example = main_correct cargo_words edge_list plain_names arguments machine
