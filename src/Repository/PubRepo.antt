-- ===== src/Repository/PubRepo.antt =====
-- `PubRepo::Impl` of main/repository/Repository.cpp, with `SndProdFile::Impl` of ProdFile.cpp. Pathnames
-- are bytes. A product-file is made under its product-index, which is its handle here. What the file
-- system has under a pathname that is relative to the root directory is an argument. A function under
-- the mutex is one step. After an exception the state is what it was when that was thrown.
pub mod Holds
pub mod Gets
pub mod Adds
pub mod Events
pub mod Serves
pub mod Roots
use hycast.Prelude.{
  ℕ, zero, suc, ◌+◌, ◌%◌, ◌^◌, Bool, true, false, not, Option, none, some, List, [], ◌∷◌, ◌++◌,
  ◌==◌, leb, if◌then◌else◌, length, take, drop, ℕ_discrete, Result, ok, err, Error,
  invalid_argument, runtime_error, system_error, out_of_range, null_dereference, ◌>>=◌,
}
use hycast.Prelude.Dict.{Dict}
use hycast.Prelude.Dict
use hycast.Protocol.ProdIndex.{increment}
use hycast.Protocol.PeerProto.{ProdInfo, SegInfo}
use hycast.Repository.LinkedProdMap.{LinkedProdMap, size, add, find, ensure_room}
use hycast.Repository.LinkedProdMap
use hycast.Repository.Objects.{Held, close_all}
use hycast.Repository.ProdFile.{ProdFile, is_offset, get_seg_size}
use hycast.Repository.ProdFile

-- The bytes of the file with a pathname.
abbrev pub Tree : Type 0
Tree = List ℕ → Option (List ℕ)

-- A file of the publisher, with the bytes that its memory map gives access to.
pub record SndProdFile : Type 0 where
  pub pathname : List ℕ
  pub geometry : ProdFile
  pub bytes : List ℕ

pub record PubRepo : Type 0 where
  pub root_pathname : List ℕ
  pub root_prefix_len : ℕ
  pub root_is_open : Bool
  pub seg_size : ℕ
  pub max_open_files : ℕ
  pub prod_files : LinkedProdMap ℕ
  pub open_files : LinkedProdMap ℕ
  pub objects : Dict ℕ (Held SndProdFile)
  pub prod_queue : List ℕ
  pub prod_index : ℕ

-- The byte '/'.
abbrev pub slash : ℕ
slash = 47

-- `makeAbsolute()`, in the directory `cwd`
unfoldable pub make_absolute : (cwd pathname : List ℕ) → Result (List ℕ)
make_absolute cwd [] = err out_of_range
make_absolute cwd (c ∷ cs) = ok (if c == slash then c ∷ cs else cwd ++ slash ∷ c ∷ cs)

-- The members that the constructors set.
abbrev pub fresh_repo :
    (root_pathname : List ℕ) → (root_prefix_len seg_size max_open_files : ℕ) → PubRepo
fresh_repo root_pathname root_prefix_len seg_size max_open_files = record {
  root_pathname = root_pathname;
  root_prefix_len = root_prefix_len;
  root_is_open = not (max_open_files == 0);
  seg_size = seg_size;
  max_open_files = max_open_files;
  prod_files = LinkedProdMap.new;
  open_files = LinkedProdMap.new;
  objects = [];
  prod_queue = [];
  prod_index = 0;
}

-- The constructor, where the root directory can be made and opened. The length of the prefix is that of
-- the argument. That the limit is 0 makes it close the directory; the exception is caught.
unfoldable pub new : (cwd root_pathname : List ℕ) → (seg_size max_open_files : ℕ) → Result PubRepo
unfolding make_absolute
new cwd root_pathname seg_size max_open_files = do
  absolute ← make_absolute cwd root_pathname
  ok (fresh_repo absolute (length root_pathname + 1) seg_size max_open_files)

-- `none` means that the fuel of `ensureRoom()` ran out.
abbrev pub Outcome : Type 0 → Type 0
Outcome A = Option (Result A × PubRepo)

abbrev pub then_in : {A B : Type 0} → (A → PubRepo → Outcome B) → Outcome A → Outcome B
then_in k none = none
then_in k (some (err e, r)) = some (err e, r)
then_in k (some (ok a, r)) = k a r

-- `::openat()` below the root directory
unfoldable pub open_at : Tree → (pathname : List ℕ) → PubRepo → Result (List ℕ)
open_at tree pathname r =
    if r.root_is_open
    then elim (tree pathname) [ none ↦ err system_error | some bytes ↦ ok bytes ]
    else err system_error

-- The constructor of a file. The size is one of 32 bits.
unfoldable pub new_file : Tree → (pathname : List ℕ) → PubRepo → Result SndProdFile
unfolding open_at
new_file tree pathname r = do
  bytes ← open_at tree pathname r
  geometry ← ProdFile.new (length bytes % 2 ^ 32) r.seg_size
  ok (record { pathname = pathname; geometry = geometry; bytes = bytes })

-- `ensureRoom<SndProdFile>(openFiles, maxOpenFiles)`
unfoldable pub make_room : PubRepo → Outcome Unit
make_room r = elim (ensure_room (suc (size r.open_files)) r.max_open_files r.open_files) [
  | none ↦ none
  | some (err e) ↦ some (err e, r)
  | some (ok (closed, m)) ↦
      some (ok tt, record r { open_files = m; objects = close_all closed r.objects })
]

-- `openFiles.add()`
unfoldable pub add_open : ℕ → PubRepo → Outcome Unit
add_open k r = elim (add k (some k) r.open_files) [
  | err e ↦ some (err e, r)
  | ok m ↦ some (ok tt, record r { open_files = m })
]

-- The file is open already; it becomes the last of the open files once there is room for it.
unfoldable pub enter : ℕ → PubRepo → Outcome Unit
unfolding make_room add_open
enter k r = then_in (λ done s. add_open k s) (make_room r)

-- `addProdFile()`
unfoldable pub add_prod_file : ℕ → SndProdFile → PubRepo → Outcome Unit
unfolding enter
add_prod_file k file r = elim (add k (some k) r.prod_files) [
  | err e ↦ some (err e, r)
  | ok m ↦
      then_in (λ done s. some (ok tt, record s { prod_queue = s.prod_queue ++ k ∷ [] }))
        (enter k (record r {
          prod_files = m;
          objects = Dict.put ℕ_discrete k (record { file = file; is_open = true }) r.objects;
        }))
]

-- `open()` of a file through its handle, which does nothing to one that is open
unfoldable pub open_file : Tree → ℕ → PubRepo → Result PubRepo
unfolding open_at
open_file tree h r = elim (Dict.find ℕ_discrete h r.objects) [
  | none ↦ err null_dereference
  | some o ↦ if o.is_open then ok r else do
    bytes ← open_at tree o.file.pathname r
    let file : SndProdFile = record o.file { bytes = bytes }
    ok (record r {
      objects = Dict.put ℕ_discrete h (record { file = file; is_open = true }) r.objects;
    })
]

-- `getProdFile()`, which opens a file before it makes room for it; the answer is the handle.
unfoldable pub get_prod_file : Tree → ℕ → PubRepo → Outcome (Option ℕ)
unfolding enter open_file
get_prod_file tree k r = elim (find k r.open_files) [
  | err e ↦ some (err e, r)
  | ok (some h, m) ↦ some (ok (some h), record r { open_files = m })
  | ok (none, m) ↦ elim (find k r.prod_files) [
    | err e ↦ some (err e, record r { open_files = m })
    | ok (none, n) ↦ some (ok none, record r { open_files = m; prod_files = n })
    | ok (some h, n) ↦
        let moved = record r { open_files = m; prod_files = n } in
        elim (open_file tree h moved) [
          | err e ↦ some (err e, moved)
          | ok s ↦ then_in (λ done t. some (ok (some h), t)) (enter k s)
        ]
  ]
]

-- `std::throw_with_nested()` in `getNextProd()`
abbrev pub nested : {A : Type 0} → Outcome A → Outcome A
nested none = none
nested (some (err e, r)) = some (err runtime_error, r)
nested (some (ok a, r)) = some (ok a, r)

-- The file that was made, or the exception, in `getNextProd()`
abbrev pub publish_file :
    (prod_index : ℕ) → (prod_name : List ℕ) → PubRepo → Result SndProdFile → Outcome ProdInfo
publish_file k prod_name r (err e) = some (err e, r)
publish_file k prod_name r (ok file) =
    let info : ProdInfo = record {
      prod_index = k;
      prod_size = file.geometry.prod_size;
      name = prod_name;
    } in
    then_in (λ done s. some (ok info, s)) (add_prod_file k file r)

-- `getNextProd()` from the event of the watcher on, which has the pathname of a new file
unfoldable pub publish : Tree → (prod_index : ℕ) → (pathname : List ℕ) → PubRepo → Outcome ProdInfo
unfolding new_file add_prod_file
publish tree k pathname r =
    if leb r.root_prefix_len (length pathname)
    then (let prod_name = drop r.root_prefix_len pathname in
        publish_file k prod_name r (new_file tree prod_name r))
    else some (err out_of_range, r)

unfoldable pub get_next_prod : Tree → (pathname : List ℕ) → PubRepo → Outcome ProdInfo
unfolding publish increment
get_next_prod tree pathname r =
    let k = increment r.prod_index in nested (publish tree k pathname (record r { prod_index = k }))

-- What `getProdInfo()` and `getMemSeg()` have in common, with `none` for what tests false.
unfoldable pub ask :
    {A : Type 0}
    → (Held SndProdFile → Result A)
    → Tree
    → (prod_index : ℕ) → PubRepo
    → Outcome (Option A)
unfolding get_prod_file
ask question tree k r =
    then_in
      (λ found s. elim found [
        | none ↦ some (ok none, s)
        | some h ↦ elim (Dict.find ℕ_discrete h s.objects) [
          | none ↦ some (err null_dereference, s)
          | some o ↦ elim (question o) [ err e ↦ some (err e, s) | ok a ↦ some (ok (some a), s) ]
        ]
      ])
      (get_prod_file tree k r)

unfoldable pub info_of : ℕ → SndProdFile → ProdInfo
info_of k file = record {
  prod_index = k;
  prod_size = file.geometry.prod_size;
  name = file.pathname;
}

unfoldable pub get_prod_info : Tree → (prod_index : ℕ) → PubRepo → Outcome (Option ProdInfo)
unfolding ask info_of
get_prod_info tree k r = ask (λ o. ok (info_of k o.file)) tree k r

-- A segment and its bytes; the offset is vetted for the size and for the data.
unfoldable pub mem_seg : (prod_index offset : ℕ) → SndProdFile → Result (SegInfo × List ℕ)
mem_seg k offset file = do
  seg_size ← get_seg_size offset file.geometry
  let info : SegInfo = record {
    id = record { prod_index = k; seg_offset = offset };
    prod_size = file.geometry.prod_size;
    seg_size = seg_size;
  }
  ok (info, take seg_size (drop offset file.bytes))

-- A file that is not open has no data.
unfoldable pub get_mem_seg :
    Tree → (prod_index offset : ℕ) → PubRepo → Outcome (Option (SegInfo × List ℕ))
unfolding ask mem_seg
get_mem_seg tree k offset r =
    ask (λ o. if o.is_open then mem_seg k offset o.file else err null_dereference) tree k r
