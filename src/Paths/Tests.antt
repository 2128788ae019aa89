-- ===== src/Paths/Tests.antt =====
-- Runs of the path operations.
use cargo_capslock.Prelude.{◌≡◌, refl, none, some, codes, []}
use cargo_capslock.Paths.{join, parent, file_name}

join_runs :
    (join (codes "/src") (codes "a.rs") ≡ codes "/src/a.rs")
    × (join (codes "/src/") (codes "a.rs") ≡ codes "/src/a.rs")
    × (join (codes "/src") (codes "/a.rs") ≡ codes "/a.rs")
    × (join [] (codes "a.rs") ≡ codes "a.rs")
unfolding join
join_runs = (refl, refl, refl, refl)

parent_runs :
    (parent (codes "/p/src/main.rs") ≡ some (codes "/p/src"))
    × (parent (codes "/a//b/./") ≡ some (codes "/a"))
    × (parent (codes "/a") ≡ some (codes "/"))
    × (parent (codes "a") ≡ some [])
    × (parent (codes "/") ≡ none)
    × (parent (codes "./a") ≡ some (codes "."))
    × (parent (codes ".") ≡ some [])
    × (parent [] ≡ none)
unfolding parent
parent_runs = (refl, refl, refl, refl, refl, refl, refl, refl)

file_name_runs :
    (file_name (codes "/p/src/main.rs") ≡ some (codes "main.rs"))
    × (file_name (codes "/a/..") ≡ none)
    × (file_name (codes "/") ≡ none)
    × (file_name (codes ".") ≡ none)
    × (file_name (codes "x/./") ≡ some (codes "x"))
unfolding file_name
file_name_runs = (refl, refl, refl, refl, refl)
