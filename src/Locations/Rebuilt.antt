-- ===== src/Locations/Rebuilt.antt =====
-- src/location.rs: the parts of the path that a location is rebuilt from.
use cargo_capslock.Prelude.{◌≡◌, ap, some, ◌∷◌, ◌++◌, Text}
use cargo_capslock.Paths.{slash, parent, file_name}
use cargo_capslock.Paths.Pieces.{EndsPlain, IsPlain, pieces}
use cargo_capslock.Locations.{DebugLoc, full_path, file_or_dots, into_location}

-- Where the directory and the file name of a debug location, joined, read `base/name`, the location has the
-- directory `base` and the file name `name`, its line and its column, if `base` does not end in a
-- separator or a dot, and `name` has no separator and is not empty, `.` or `..`.
pub into_location_lem :
    (loc : DebugLoc) (base name : Text)
    → full_path loc.directory loc.filename ≡ base ++ slash ∷ name
    → EndsPlain base
    → IsPlain name
    → into_location loc
      ≡ record { directory = some base; filename = name; line = loc.line; column = loc.col }
unfolding into_location
into_location_lem loc base name at ends plain =
    let (dir, file) = pieces base name ends plain in
    let dir' : parent (full_path loc.directory loc.filename) ≡ some base = rw at dir in
    let file' : file_name (full_path loc.directory loc.filename) ≡ some name = rw at file in
    cc (dir', ap file_or_dots file')
