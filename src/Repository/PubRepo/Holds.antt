-- ===== src/Repository/PubRepo/Holds.antt =====
-- What a publisher's repository (main/repository/Repository.cpp) keeps of the products that it has
-- published, and `getProdFile()`.
use hycast.Prelude.{
  ℕ, ◌≤◌, ◌<◌, ◌≡◌, ◌≢◌, refl, ap, ◌∙◌, ite, ◌||◌, true, false, Option, some, List, [], ◌∷◌, ◌++◌,
  arith, ℕ_discrete, take, drop, ok, length-append,
}
use hycast.Prelude.Dict
use hycast.Repository.LinkedProdMap.{LinkedProdMap, size}
use hycast.Repository.LinkedProdMap.Models.{Models}
use hycast.Repository.Objects.{Held, close_all}
use hycast.Repository.Own.{contains, sequence, absent-drop}
use hycast.Repository.Shelf.{Fits, file_of, closed-file, add-own}
use hycast.Repository.Shelf.Uses.{size-own, ensure_room-own, opened-Fits, find-opened}
use hycast.Repository.PubRepo.{Tree, SndProdFile, PubRepo, make_room, add_open, enter}

abbrev pub file_at : ℕ → PubRepo → Option SndProdFile
file_at j r = file_of (Dict.find ℕ_discrete j r.objects)

-- The files of the products, by index.
abbrev pub Store : Type 0
Store = ℕ → Option SndProdFile

-- What does not change while files are used.
pub record Setting : Type 0 where
  pub limit : ℕ
  pub seg_size : ℕ
  pub root_pathname : List ℕ
  pub root_prefix_len : ℕ
  pub last : ℕ
  pub queue : List ℕ

abbrev pub setting : PubRepo → Setting
setting r = record {
  limit = r.max_open_files;
  seg_size = r.seg_size;
  root_pathname = r.root_pathname;
  root_prefix_len = r.root_prefix_len;
  last = r.prod_index;
  queue = r.prod_queue;
}

-- The repository has the files of the store, which are on disk as they were mapped. No more of them
-- are open than may be.
pub record Holds (tree : Tree) (g : Setting) (store : Store) (r : PubRepo) : Type 0 where
  pub known : List ℕ
  pub recent : List ℕ
  pub wf : Fits known recent r.prod_files r.open_files r.objects
  pub files : (j : ℕ) → file_at j r ≡ store j
  pub on_disk : (j : ℕ) (f : SndProdFile) → store j ≡ some f → tree f.pathname ≡ some f.bytes
  pub fresh : (j : ℕ) → contains j known ≡ true → j ≤ g.last
  pub same : setting r ≡ g
  pub root : r.root_is_open ≡ true
  pub few : size r.open_files ≤ g.limit

-- A file that has been opened is entered.
pub enter-Fits :
    (k : ℕ) (o : Held SndProdFile) (known known' recent : List ℕ) (all : LinkedProdMap ℕ)
    (r : PubRepo)
    → Fits known recent r.prod_files r.open_files r.objects
    → ((j : ℕ) → contains j known' ≡ contains j known || ite (ℕ_discrete k j) true false)
    → o.is_open ≡ true
    → contains k recent ≡ false
    → k ≢ 0
    → Models (sequence known') all
    → 0 < r.max_open_files
    → let objects = Dict.put ℕ_discrete k o r.objects in
      (n : ℕ) × (m : LinkedProdMap ℕ) × (enter k (record r { prod_files = all; objects = objects })
        ≡ some (
          ok tt,
          record r {
            prod_files = all;
            open_files = m;
            objects = close_all (take n recent) objects;
          },
        ))
      × Fits known' (drop n recent ++ k ∷ []) all m (close_all (take n recent) objects)
      × (size m ≤ r.max_open_files)
unfolding enter make_room add_open
enter-Fits k o known known' recent all r w grown on free valid models pos =
    let (n, room, made, roomy, fits) =
      ensure_room-own r.max_open_files recent r.open_files w.opens pos in
    let free' = absent-drop k n recent w.opens.distinct free in
    let (m, added, models') = add-own k (drop n recent) room valid roomy free' in
    (
      n,
      m,
      rw (made, enter, make_room, added, add_open) refl,
      opened-Fits k n o known known' recent r.prod_files r.open_files all m r.objects w grown on
          free models models',
      omega (
        arith,
        fits,
        size-own (drop n recent) room roomy,
        size-own (drop n recent ++ k ∷ []) m models',
        length-append (drop n recent) (k ∷ []),
      ),
    )

-- The files behind the handles, after that.
pub files-opened :
    (j k : ℕ) (o : Held SndProdFile) (closed : List ℕ) (r : PubRepo)
    → file_of (Dict.find ℕ_discrete j (close_all closed (Dict.put ℕ_discrete k o r.objects)))
      ≡ ite (ℕ_discrete k j) (some o.file) (file_at j r)
files-opened j k o closed r =
    ap file_of (find-opened j k o closed r.objects)
    ∙ closed-file (contains j closed) _
    ∙ ground arith
