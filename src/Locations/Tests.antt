-- ===== src/Locations/Tests.antt =====
-- src/location.rs: a location below the directory of a project.
use cargo_capslock.Prelude.{◌≡◌, refl, none, some, codes}
use cargo_capslock.Paths.{join, is_absolute}
use cargo_capslock.Paths.Pieces.{EndsPlain, IsPlain}
use cargo_capslock.Locations.{DebugLoc, full_path, into_location}
use cargo_capslock.Locations.Rebuilt.{into_location_lem}

abbrev main_rs : DebugLoc
main_rs = record {
  line = 3;
  col = none;
  filename = codes "src/main.rs";
  directory = some (codes "/p");
}

main_rs_path : full_path main_rs.directory main_rs.filename ≡ codes "/p/src/main.rs"
unfolding join is_absolute
main_rs_path = refl

src-EndsPlain : EndsPlain (codes "/p/src")
src-EndsPlain = (codes "/p/sr", b'c', refl, λ e. cc, λ e. cc)

main-IsPlain : IsPlain (codes "main.rs")
main-IsPlain = record {
  whole = (λ e. cc, (λ e. cc, (λ e. cc, (λ e. cc, (λ e. cc, (λ e. cc, (λ e. cc, tt)))))));
  named = λ e. cc;
  not_dot = λ e. cc;
  not_dots = λ e. cc;
}

into_location_lem_example : into_location main_rs ≡ record {
  directory = some (codes "/p/src");
  filename = codes "main.rs";
  line = 3;
  column = none;
}
into_location_lem_example =
    into_location_lem main_rs (codes "/p/src") (codes "main.rs") main_rs_path src-EndsPlain
      main-IsPlain
