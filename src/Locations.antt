-- ===== src/Locations.antt =====
-- src/location.rs: source locations, from LLVM's debug locations.
pub mod Rebuilt
mod Tests
use cargo_capslock.Prelude.{ℕ, Option, none, some, Text, codes}
use cargo_capslock.Paths.{join, parent, file_name}
use cargo_capslock.Capslock.Report.{Location}

-- The fields of `llvm_ir::DebugLoc` that are read. `line` and `col` are `u32`, which widen to `u64`.
pub record DebugLoc : Type 0 where
  pub line : ℕ
  pub col : Option ℕ
  pub filename : Text
  pub directory : Option Text

-- The path that a location is rebuilt from.
abbrev pub full_path : Option Text → Text → Text
full_path none filename = filename
full_path (some dir) filename = join dir filename

abbrev pub file_or_dots : Option Text → Text
file_or_dots none = codes ".."
file_or_dots (some name) = name

-- `IntoLocation for DebugLoc`
unfoldable pub into_location : DebugLoc → Location
into_location loc =
    let path = full_path loc.directory loc.filename in
    record {
      directory = parent path;
      filename = file_or_dots (file_name path);
      line = loc.line;
      column = loc.col;
    }

-- `IntoOptionLocation`
unfoldable pub into_option_location : Option DebugLoc → Option Location
into_option_location none = none
into_option_location (some loc) = some (into_location loc)
