-- ===== src/Repository/SubRepo/Get.antt =====
-- The two functions `getProdFile()` of a subscriber's repository (main/repository/Repository.cpp).
use hycast.Prelude.{
  ℕ, ◌≤◌, ◌<◌, ◌≡◌, refl, ◌∙◌, ◌⊎◌, inl, inr, true, false, none, some, List, [], ◌∷◌, ◌++◌, arith,
  drop, ok, Bool-cases, length-append,
}
use hycast.Repository.LinkedProdMap.{size}
use hycast.Repository.SubRepo.{SubRepo, Env, add_open, reopen, get_prod_file}
use hycast.Repository.Objects.{open_object}
use hycast.Repository.Shelf.Uses.{size-own, nonzero, used-Fits, found-Fits, moved-Fits}
use hycast.Repository.Own.{
  contains, touch, contains-touch, contains-append, length-touch, absent-drop,
}
use hycast.Repository.SubRepo.Opens.{opened-Wf}
use hycast.Repository.SubRepo.Files.{Wf, Same, make_room-Wf}
use hycast.Repository.Shelf.{find-own, find-own_absent, add-own}

pub Same-then : (r s t : SubRepo) → Same r s → Same s t → Same r t
Same-then r s t a b = record {
  files = λ j. b.files j ∙ a.files j;
  queue = b.queue ∙ a.queue;
  limit = b.limit ∙ a.limit;
  seg_size = b.seg_size ∙ a.seg_size;
}

pub Same-refl : (r : SubRepo) → Same r r
Same-refl r = record { files = λ j. refl; queue = refl; limit = refl; seg_size = refl }

-- A file that is known but not open.
reopen-Wf :
    (env : Env) (k : ℕ) (known recent : List ℕ) (r : SubRepo)
    → Wf known recent r
    → 0 < r.max_open_files
    → env.opens ≡ true
    → contains k known ≡ true
    → contains k recent ≡ false
    → (recent' : List ℕ) × (s : SubRepo) × (reopen env k k r ≡ some (ok k, s))
      × Wf known recent' s
      × Same r s
      × (contains k recent' ≡ true)
      × (size s.open_files ≤ r.max_open_files)
unfolding reopen add_open
reopen-Wf env k known recent r w pos opens h free =
    let (n, room, made, roomy, same, fits) = make_room-Wf known recent r w pos in
    let free' = absent-drop k n recent w.opens.distinct free in
    let (m, added, models) =
      add-own k (drop n recent) room.open_files
        (nonzero k known recent r.prod_files r.open_files r.objects w h) roomy.opens free' in
    let (done, same') = opened-Wf k known (drop n recent) room m roomy h free' models in
    let s : SubRepo = record room { open_files = m; objects = open_object k room.objects } in
    (
      drop n recent ++ k ∷ [],
      s,
      rw (made, reopen, opens, added, add_open) refl,
      done,
      Same-then r room s same same',
      contains-append k k (drop n recent) ∙ ground arith,
      omega (
        arith,
        fits,
        size-own (drop n recent) room.open_files roomy.opens,
        size-own (drop n recent ++ k ∷ []) m models,
        length-append (drop n recent) (k ∷ []),
      ),
    )

-- On a repository that fits together, whose files can be opened, and with a positive limit,
-- `getProdFile()` of a known index returns its file, which is open then. No file has changed, and
-- there are not more files open than before, or not more than the limit.
pub get_prod_file-known :
    (env : Env) (k : ℕ) (known recent : List ℕ) (r : SubRepo)
    → Wf known recent r
    → 0 < r.max_open_files
    → env.opens ≡ true
    → contains k known ≡ true
    → (known' recent' : List ℕ) × (s : SubRepo) × (get_prod_file env k r ≡ some (ok (some k), s))
      × Wf known' recent' s
      × Same r s
      × (contains k known' ≡ true)
      × (contains k recent' ≡ true)
      × ((size s.open_files ≤ size r.open_files) ⊎ (size s.open_files ≤ r.max_open_files))
unfolding get_prod_file
get_prod_file-known env k known recent r w pos opens h = elim (Bool-cases (contains k recent)) [
  | inl opened ↦
      let (m, found, models) = find-own k recent r.open_files w.opens opened in
      (
        known,
        touch k recent,
        record r { open_files = m },
        rw (found, get_prod_file) refl,
        used-Fits k known recent r.prod_files r.open_files m r.objects w opened models,
        record { files = λ j. refl; queue = refl; limit = refl; seg_size = refl },
        h,
        contains-touch k k recent opened ∙ opened,
        inl (
            omega (
              arith,
              size-own recent r.open_files w.opens,
              size-own (touch k recent) m models,
              length-touch k recent opened,
            )),
      )
  | inr free ↦
      let (m, lost, models) = find-own_absent k recent r.open_files w.opens free in
      let (n, found, all) = find-own k known r.prod_files w.prods h in
      let r' : SubRepo = record r { open_files = m } in
      let moved =
        moved-Fits known recent r.prod_files r.open_files r.prod_files m r.objects w w.prods
          models in
      let known' = contains-touch k k known h ∙ h in
      let looked = found-Fits k known recent r.prod_files m n r.objects moved h all in
      let (recent', s, run, done, same, opened, fits) =
        reopen-Wf env k (touch k known) recent (record r' { prod_files = n }) looked pos opens
          known' free in
      (
        touch k known,
        recent',
        s,
        rw (lost, get_prod_file, found, run) refl,
        done,
        record {
          files = same.files;
          queue = same.queue;
          limit = same.limit;
          seg_size = same.seg_size;
        },
        known',
        opened,
        inr fits,
      )
]

-- Of an index that is not known there is no file.
pub get_prod_file-unknown :
    (env : Env) (k : ℕ) (known recent : List ℕ) (r : SubRepo)
    → Wf known recent r
    → contains k known ≡ false
    → (s : SubRepo) × (get_prod_file env k r ≡ some (ok none, s)) × Wf known recent s × Same r s
unfolding get_prod_file
get_prod_file-unknown env k known recent r w h =
    let free : (contains k recent ≡ false) = elim (Bool-cases (contains k recent)) [
      | inl opened ↦ let known' = w.sub k opened in absurd (cc)
      | inr free ↦ free
    ] in
    let (m, lost, models) = find-own_absent k recent r.open_files w.opens free in
    let (n, lost', all) = find-own_absent k known r.prod_files w.prods h in
    (
      record r { open_files = m; prod_files = n },
      rw (lost, get_prod_file, lost') refl,
      moved-Fits known recent r.prod_files r.open_files n m r.objects w all models,
      record { files = λ j. refl; queue = refl; limit = refl; seg_size = refl },
    )
