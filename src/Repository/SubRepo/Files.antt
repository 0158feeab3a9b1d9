-- ===== src/Repository/SubRepo/Files.antt =====
-- When the parts of a subscriber's repository (main/repository/Repository.cpp) fit together, and what
-- making room for a file does.
use hycast.Prelude.{
  ℕ, suc, ◌-◌, ◌<◌, ◌≡◌, refl, ap, ◌∙◌, Option, some, List, arith, ℕ_discrete, length, take, drop,
  ok,
}
use hycast.Prelude.Dict
use hycast.Repository.LinkedProdMap.{size}
use hycast.Repository.LinkedProdMap.Room.{ensure_room-closes, size-held}
use hycast.Repository.RcvProdFile.{RcvProdFile}
use hycast.Repository.SubRepo.{SubRepo, make_room}
use hycast.Repository.Objects.{close_all, find-close_all}
use hycast.Repository.Shelf.{Fits, file_of, closed-file, close-Fits}
use hycast.Repository.Own.{contains, own, files-own, drop-own}

abbrev pub file_at : ℕ → SubRepo → Option RcvProdFile
file_at j r = file_of (Dict.find ℕ_discrete j r.objects)

abbrev pub Wf : (known recent : List ℕ) → SubRepo → Type 0
Wf known recent r = Fits known recent r.prod_files r.open_files r.objects

-- The same files, queue and limits.
pub record Same (r s : SubRepo) : Type 0 where
  pub files : (j : ℕ) → file_at j s ≡ file_at j r
  pub queue : s.complete_prods ≡ r.complete_prods
  pub limit : s.max_open_files ≡ r.max_open_files
  pub seg_size : s.seg_size ≡ r.seg_size

-- On a repository that fits together, with a positive limit, `ensureRoom()` ends without an
-- exception, and there is room then.
pub make_room-Wf :
    (known recent : List ℕ) (r : SubRepo)
    → Wf known recent r
    → 0 < r.max_open_files
    → (n : ℕ) × (s : SubRepo) × (make_room r ≡ some (ok tt, s))
      × Wf known (drop n recent) s
      × Same r s
      × (size s.open_files < r.max_open_files)
unfolding make_room
make_room-Wf known recent r w pos =
    let n = suc (length (own recent)) - r.max_open_files in
    let fuel = suc (size r.open_files) in
    let (m, made, models, room) =
      ensure_room-closes fuel r.max_open_files (own recent) r.open_files w.opens pos
        (omega (arith, size-held (own recent) r.open_files w.opens)) in
    let closed = files-own n recent in
    let s : SubRepo = record r { open_files = m; objects = close_all (take n recent) r.objects } in
    (
      n,
      s,
      rw (made, make_room, closed) refl,
      close-Fits known recent n r.prod_files r.open_files m r.objects w
          (rw (drop-own n recent) at models),
      record {
        files = λ j.
            ap file_of (find-close_all j (take n recent) r.objects)
            ∙ closed-file (contains j (take n recent)) (Dict.find ℕ_discrete j r.objects);
        queue = refl;
        limit = refl;
        seg_size = refl;
      },
      room,
    )
