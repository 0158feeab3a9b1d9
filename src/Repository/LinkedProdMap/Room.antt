-- ===== src/Repository/LinkedProdMap/Room.antt =====
-- `ensureRoom()`: which files it closes, and what it leaves.
use hycast.Prelude.{
  ℕ, zero, suc, ◌-◌, ◌<◌, ◌≡◌, refl, ◌∙◌, Option, none, some, List, [], ◌∷◌, ◌++◌, arith,
  ℕ_discrete, ap, length-drop, ok, err, true, false, leb, length, null_dereference, drop, take,
}
use hycast.Prelude.Dict.{Dict, UniqueKeys}
use hycast.Prelude.Dict
use hycast.Repository.LinkedProdMap.{
  LinkedProdMap, size, get_head, remove, find, evict, ensure_room,
}
use hycast.Repository.LinkedProdMap.Order.{Files, Keyless}
use hycast.Repository.LinkedProdMap.Models.{Models}
use hycast.Repository.LinkedProdMap.Refines.{
  spec_find, spec_remove, SameResult, Agrees-ok, find-Refines, remove-Refines,
}

module _ {A : Type 0} where
  find_first :
      (k : ℕ) (f : Option A) (ks : Files A)
      → Keyless k ks
      → spec_find k ((k, f) ∷ ks) ≡ ok (f, ks ++ (k, f) ∷ [])
  unfolding Dict.find Dict.erase
  find_first k f ks h = ground (arith, Dict.erase_absent ℕ_discrete k ks)

  remove_last :
      (k : ℕ) (f : Option A) (ks : Files A)
      → Keyless k ks
      → spec_remove k (ks ++ (k, f) ∷ []) ≡ ok (f, ks)
  remove_last k f ks h =
      rw
        (
          Dict.find-append_self ℕ_discrete k f ks h,
          spec_remove,
          Dict.erase-append_self ℕ_discrete k f ks h,
        )
        refl

  get_head-first :
      (k : ℕ) (f : Option A) (ks : Files A) (m : LinkedProdMap A)
      → Models ((k, f) ∷ ks) m
      → get_head m ≡ k
  unfolding get_head
  get_head-first k f ks m v = v.head

  -- One round closes the least recently used file and takes it out.
  evict-first :
      (k : ℕ) (file : A) (ks : Files A) (m : LinkedProdMap A)
      → Models ((k, some file) ∷ ks) m
      → (r : LinkedProdMap A) × (evict m ≡ ok (file, r)) × Models ks r
  unfolding evict
  evict-first k file ks m v =
      let no_key = v.distinct.0 in
      let ((handle, moved), found, (same, models)) =
        Agrees-ok SameResult (some file, ks ++ (k, some file) ∷ []) (find k m)
          (rw (find_first k (some file) ks no_key) at (find-Refines k ((k, some file) ∷ ks) m v)) in
      let ((handle', rest), removed, (same', models')) =
        Agrees-ok SameResult (some file, ks) (remove k moved)
          (rw (remove_last k (some file) ks no_key) at
            (remove-Refines k (ks ++ (k, some file) ∷ []) moved models)) in
      (rest, rw (get_head-first k (some file) ks m v, found, ← same, removed) refl, models')

  -- A sequence of files that are all there.
  abbrev pub held : List (ℕ × A) → Files A
  held [] = []
  held ((k, file) ∷ fs) = (k, some file) ∷ held fs

  abbrev pub files : List (ℕ × A) → List A
  files [] = []
  files ((k, file) ∷ fs) = file ∷ files fs

  pub size-held :
      (fs : List (ℕ × A)) (m : LinkedProdMap A) → Models (held fs) m → size m ≡ length fs
  unfolding size
  size-held fs m v = v.count ∙ go fs
    where
      go : (fs : List (ℕ × A)) → length (held fs) ≡ length fs
      go [] = refl
      go ((k, file) ∷ fs) = ap suc (go fs)

  make_room :
      (fuel max_open_files n : ℕ) (fs : List (ℕ × A)) (m : LinkedProdMap A)
      → 0 < max_open_files
      → length fs < fuel
      → n ≡ suc (length fs) - max_open_files
      → Models (held fs) m
      → (r : LinkedProdMap A) × (ensure_room fuel max_open_files m
          ≡ some (ok (files (take n fs), r)))
        × Models (held (drop n fs)) r
  unfolding ensure_room
  make_room zero max_open_files n fs m pos enough e v = absurd (omega arith)
  make_room (suc fuel) max_open_files zero fs m pos enough e v =
      let room : (leb max_open_files (size m) ≡ false) = ground (arith, size-held fs m v) in
      (m, rw (room, ensure_room) refl, v)
  make_room (suc fuel) max_open_files (suc n) [] m pos enough e v = absurd (omega arith)
  make_room (suc fuel) max_open_files (suc n) ((k, file) ∷ fs) m pos enough e v =
      let full : (leb max_open_files (size m) ≡ true) =
        ground (arith, size-held ((k, file) ∷ fs) m v) in
      let (rest, evicted, models) = evict-first k file (held fs) m v in
      let (r, run, left) =
        make_room fuel max_open_files n fs rest pos (omega arith) (omega arith) models in
      (r, rw (full, ensure_room, evicted, run) refl, left)

  -- On a map that models a sequence of open files, with a positive limit and more fuel than
  -- files, `ensureRoom()` ends. It closes just as many files as make the map smaller than the
  -- limit, the least recently used ones first, and keeps the others in their order.
  pub ensure_room-closes :
      (fuel max_open_files : ℕ) (fs : List (ℕ × A)) (m : LinkedProdMap A)
      → Models (held fs) m
      → 0 < max_open_files
      → length fs < fuel
      → let n = suc (length fs) - max_open_files in
        (r : LinkedProdMap A) × (ensure_room fuel max_open_files m
          ≡ some (ok (files (take n fs), r)))
        × Models (held (drop n fs)) r
        × (size r < max_open_files)
  ensure_room-closes fuel max_open_files fs m v pos enough =
      let n = suc (length fs) - max_open_files in
      let (r, run, models) = make_room fuel max_open_files n fs m pos enough refl v in
      (r, run, models, omega (arith, size-held (drop n fs) r models, length-drop n fs))

  evict-empty : (m : LinkedProdMap A) → Models [] m → evict m ≡ err null_dereference
  unfolding evict Dict.find
  evict-empty m v =
      let (found, run, (same, models)) =
        Agrees-ok SameResult (none, []) (find (get_head m) m) (find-Refines (get_head m) [] m v) in
      rw (run, ← same) refl

  -- On a map that models a sequence of open files, with the limit 0 and more fuel than files,
  -- `ensureRoom()` calls `close()` through a handle that holds no object.
  ensure_room_of_zero :
      (fuel : ℕ) (fs : List (ℕ × A)) (m : LinkedProdMap A)
      → Models (held fs) m
      → length fs < fuel
      → ensure_room fuel 0 m ≡ some (err null_dereference)
  unfolding ensure_room
  ensure_room_of_zero zero fs m v enough = absurd (omega arith)
  ensure_room_of_zero (suc fuel) [] m v enough =
      let full : (leb 0 (size m) ≡ true) = ground arith in
      rw (full, ensure_room, evict-empty m v) refl
  ensure_room_of_zero (suc fuel) ((k, file) ∷ fs) m v enough =
      let (rest, evicted, models) = evict-first k file (held fs) m v in
      let full : (leb 0 (size m) ≡ true) = ground arith in
      rw (full, ensure_room, evicted, ensure_room_of_zero fuel fs rest models (omega arith)) refl
