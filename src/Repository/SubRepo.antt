-- ===== src/Repository/SubRepo.antt =====
-- `SubRepo::Impl` of main/repository/Repository.cpp. Each file is made under its product-index, which
-- is its handle here: the files themselves are shared objects in a store of their own. A function under
-- the mutex is one step. After an exception the state is what it was when that was thrown.
pub mod Calls
pub mod Opens
pub mod Questions
pub mod Files
pub mod Get
pub mod Saves
pub mod Runs
pub mod Stores
pub mod Savers
use Prim.Native.String.{String}
use hycast.Prelude.{
  ℕ, zero, suc, Bool, true, false, ◌&&◌, Option, none, some, List, [], ◌∷◌, ◌++◌, if◌then◌else◌,
  ℕ_discrete, Result, ok, err, Error, system_error, null_dereference, ◌>>=◌,
}
use hycast.Prelude.Dict.{Dict}
use hycast.Prelude.Dict
use hycast.Repository.LinkedProdMap.{LinkedProdMap, size, add, find, ensure_room}
use hycast.Repository.LinkedProdMap
use hycast.Repository.Objects.{Held, close_all, open_object}
use hycast.Repository.RcvProdFile.{
  ProdInfo, RcvProdFile, save_info, save_seg, is_complete, get_prod_info,
}
use hycast.Repository.RcvProdFile

-- A product-file, and whether its data can be accessed.
abbrev pub Object : Type 0
Object = Held RcvProdFile

pub record SubRepo : Type 0 where
  pub seg_size : ℕ
  pub max_open_files : ℕ
  pub complete_prods : List ProdInfo
  pub prod_files : LinkedProdMap ℕ
  pub open_files : LinkedProdMap ℕ
  pub objects : Dict ℕ Object

-- The answers of the file system during a call, and the text of an index.
pub record Env : Type 0 where
  pub opens : Bool
  pub creates : Bool
  pub renames : Bool
  pub to_string : ℕ → String

unfoldable pub new : (seg_size max_open_files : ℕ) → SubRepo
new seg_size max_open_files = record {
  seg_size = seg_size;
  max_open_files = max_open_files;
  complete_prods = [];
  prod_files = LinkedProdMap.new;
  open_files = LinkedProdMap.new;
  objects = [];
}

-- `none` means that the fuel of `ensureRoom()` ran out.
abbrev pub Outcome : Type 0 → Type 0
Outcome A = Option (Result A × SubRepo)

abbrev pub then_in : {A B : Type 0} → (A → SubRepo → Outcome B) → Outcome A → Outcome B
then_in k none = none
then_in k (some (err e, r)) = some (err e, r)
then_in k (some (ok a, r)) = k a r

-- `ensureRoom<RcvProdFile>(openFiles, maxOpenFiles)`
unfoldable pub make_room : SubRepo → Outcome Unit
make_room r = elim (ensure_room (suc (size r.open_files)) r.max_open_files r.open_files) [
  | none ↦ none
  | some (err e) ↦ some (err e, r)
  | some (ok (closed, m)) ↦
      some (ok tt, record r { open_files = m; objects = close_all closed r.objects })
]

-- `openFiles.add()`
unfoldable pub add_open : ℕ → ℕ → SubRepo → Outcome ℕ
add_open k h r = elim (add k (some h) r.open_files) [
  | err e ↦ some (err e, r)
  | ok m ↦ some (ok h, record r { open_files = m })
]

-- A known file that is not open. Its `open()` is by its pathname: whether that succeeds is an answer of
-- the file system, and what it maps is what was written there, since the file is only renamed together
-- with its pathname. No call of a new repository comes here, since `addProdFile()` enters each file among
-- the open ones without `ensureRoom()`, whatever the limit.
unfoldable pub reopen : Env → ℕ → ℕ → SubRepo → Outcome ℕ
unfolding make_room add_open open_object
reopen env k h r =
    then_in
      (λ _ s.
        if env.opens
        then add_open k h (record s { objects = open_object h s.objects })
        else some (err system_error, s))
      (make_room r)

-- `getProdFile(prodIndex)`; the answer is the handle that it returns.
unfoldable pub get_prod_file : Env → ℕ → SubRepo → Outcome (Option ℕ)
unfolding reopen
get_prod_file env k r = elim (find k r.open_files) [
  | err e ↦ some (err e, r)
  | ok (some h, m) ↦ some (ok (some h), record r { open_files = m })
  | ok (none, m) ↦ elim (find k r.prod_files) [
    | err e ↦ some (err e, record r { open_files = m })
    | ok (none, n) ↦ some (ok none, record r { open_files = m; prod_files = n })
    | ok (some h, n) ↦
        then_in (λ g s. some (ok (some g), s))
          (reopen env k h (record r { open_files = m; prod_files = n }))
  ]
]

-- `addProdFile()`
unfoldable pub add_prod_file : ℕ → RcvProdFile → SubRepo → Outcome ℕ
unfolding add_open
add_prod_file k file r = elim (add k (some k) r.prod_files) [
  | err e ↦ some (err e, r)
  | ok m ↦ add_open k k (record r {
    prod_files = m;
    objects = Dict.put ℕ_discrete k (record { file = file; is_open = true }) r.objects;
  })
]

-- The constructor of a new file.
unfoldable pub new_file : Env → (seg_size prod_index prod_size : ℕ) → Result RcvProdFile
new_file env seg_size k prod_size = do
  file ← RcvProdFile.new env.to_string k prod_size seg_size
  if env.creates then ok file else err system_error

-- `getProdFile(prodIndex, prodSize)`
unfoldable pub get_or_create : Env → (prod_index prod_size : ℕ) → SubRepo → Outcome ℕ
unfolding get_prod_file add_prod_file
get_or_create env k prod_size r =
    then_in
      (λ found s. elim found [
        | some h ↦ some (ok h, s)
        | none ↦ elim (new_file env s.seg_size k prod_size) [
          | err e ↦ some (err e, s)
          | ok file ↦ add_prod_file k file s
        ]
      ])
      (get_prod_file env k r)

-- A call of the file behind a handle, which must be open.
unfoldable pub save_in : (RcvProdFile → Result (Bool × RcvProdFile)) → ℕ → SubRepo → Outcome Bool
save_in act h r = elim (Dict.find ℕ_discrete h r.objects) [
  | none ↦ some (err null_dereference, r)
  | some o ↦
      if o.is_open
      then elim (act o.file) [
        | err e ↦ some (err e, r)
        | ok (was_saved, file) ↦ some (
          ok was_saved,
          record r { objects = Dict.put ℕ_discrete h (record o { file = file }) r.objects },
        )
      ]
      else some (err null_dereference, r)
]

-- `if (wasSaved && prodFile.isComplete()) finish(prodFile)`
unfoldable pub finish_if_complete : (was_saved : Bool) → ℕ → SubRepo → SubRepo
finish_if_complete was_saved h r = elim (Dict.find ℕ_discrete h r.objects) [
  | none ↦ r
  | some o ↦
      if was_saved && is_complete o.file
      then record r { complete_prods = r.complete_prods ++ get_prod_info o.file ∷ [] }
      else r
]

-- What the two functions `save()` have in common, with no other thread between their parts.
unfoldable pub save_with :
    Env
    → (RcvProdFile → Result (Bool × RcvProdFile))
    → (prod_index prod_size : ℕ) → SubRepo
    → Outcome Bool
unfolding get_or_create
save_with env act k prod_size r =
    then_in
      (λ h s.
        then_in (λ was_saved t. some (ok was_saved, finish_if_complete was_saved h t))
          (save_in act h s))
      (get_or_create env k prod_size r)

-- `save(ProdInfo)`
unfoldable pub save_prod_info : Env → ProdInfo → SubRepo → Outcome Bool
save_prod_info env info r =
    save_with env (save_info env.renames info) info.prod_index info.prod_size r

-- `save(DataSeg)`
unfoldable pub save_data_seg :
    Env → (prod_index prod_size offset seg_size : ℕ) → (ℕ → ℕ) → SubRepo → Outcome Bool
save_data_seg env k prod_size offset seg_size source r =
    save_with env (save_seg offset seg_size source) k prod_size r

-- `getNextProd()`, with `none` while it waits
unfoldable pub get_next_prod : SubRepo → Option (ProdInfo × SubRepo)
get_next_prod r = elim r.complete_prods [
  | [] ↦ none
  | info ∷ infos ↦ some (info, record r { complete_prods = infos })
]
