-- ===== src/Tests/Files.antt =====
-- The linked map of files of main/repository/Repository.cpp on concrete files.
use hycast.Prelude.{ℕ, ◌<◌, ◌≡◌, refl, some, [], ◌∷◌, arith, ℕ_discrete, ok}
use hycast.Prelude.Dict
use hycast.Repository.LinkedProdMap.{LinkedProdMap, new, append_key, find, size, ensure_room}
use hycast.Repository.LinkedProdMap.Order.{Files}
use hycast.Repository.LinkedProdMap.Models.{Models, new-Models, append_key-Models}
use hycast.Repository.LinkedProdMap.Refines.{spec_find, SameResult, Agrees, find-Refines}
use hycast.Repository.LinkedProdMap.Room.{held, ensure_room-closes}

abbrev two_files : Files ℕ
two_files = held ((1, 10) ∷ (2, 20) ∷ [])

abbrev two_files_map : LinkedProdMap ℕ
two_files_map = append_key 2 (some 20) (append_key 1 (some 10) new)

two_files_map-Models : Models two_files two_files_map
unfolding Dict.find ℕ_discrete
two_files_map-Models =
    append_key-Models 2 (some 20) (held ((1, 10) ∷ [])) _ (omega arith) refl
      (append_key-Models 1 (some 10) [] _ (omega arith) refl new-Models)

find-Refines_example : Agrees SameResult (spec_find 1 two_files) (find 1 two_files_map)
find-Refines_example = find-Refines 1 two_files two_files_map two_files_map-Models

ensure_room-closes_example :
    (r : LinkedProdMap ℕ) × (ensure_room 3 2 two_files_map ≡ some (ok (10 ∷ [], r)))
    × Models (held ((2, 20) ∷ [])) r
    × (size r < 2)
ensure_room-closes_example =
    ensure_room-closes 3 2 ((1, 10) ∷ (2, 20) ∷ []) two_files_map two_files_map-Models (omega arith)
      (omega arith)
