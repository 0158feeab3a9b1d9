-- ===== src/Repository/LinkedProdMap.antt =====
-- `Repository::Impl::LinkedProdMap` and `ensureRoom()` of main/repository/Repository.cpp.
-- A handle of a product-file is an `Option`: `none` is a default-constructed one, which tests
-- false. A product-index is its number, and 0 is the invalid one.
pub mod Order
pub mod Unlinked
pub mod Models
pub mod Removal
pub mod Refines
pub mod Room
use hycast.Prelude.{
  ℕ, zero, suc, ◌≡◌, Bool, true, false, Option, none, some, List, [], ◌∷◌, Result, ok, err,
  invalid_argument, logic_error, null_dereference, ◌>>=◌, ◌==◌, leb, if◌then◌else◌, length,
  ℕ_discrete,
}
use hycast.Prelude.Dict.{Dict, or_default}
use hycast.Prelude.Dict

pub record Entry (A : Type 0) : Type 0 where
  pub prod_file : Option A
  pub prev : ℕ
  pub next : ℕ

pub record LinkedProdMap (A : Type 0) : Type 0 where
  pub map : Dict ℕ (Entry A)
  pub head : ℕ
  pub tail : ℕ

module _ {A : Type 0} where
  unfoldable pub new : LinkedProdMap A
  new = record { map = []; head = 0; tail = 0 }

  -- `Entry()`, which `map[key]` makes for a key that is not there
  abbrev pub default_entry : Entry A
  default_entry = record { prod_file = none; prev = 0; next = 0 }

  -- `map[k].next = n`
  unfoldable pub write_next : ℕ → ℕ → Dict ℕ (Entry A) → Dict ℕ (Entry A)
  write_next k n m =
      Dict.put ℕ_discrete k
        (record (or_default default_entry (Dict.find ℕ_discrete k m)) { next = n }) m

  -- `map[k].prev = p`
  unfoldable pub write_prev : ℕ → ℕ → Dict ℕ (Entry A) → Dict ℕ (Entry A)
  write_prev k p m =
      Dict.put ℕ_discrete k
        (record (or_default default_entry (Dict.find ℕ_discrete k m)) { prev = p }) m

  unfoldable pub size : LinkedProdMap A → ℕ
  size m = length m.map

  unfoldable pub get_head : LinkedProdMap A → ℕ
  get_head m = m.head

  -- the list work of `add()`, after the insertion
  unfoldable pub append_key : ℕ → Option A → LinkedProdMap A → LinkedProdMap A
  append_key k file m =
      let entry : Entry A = record { prod_file = file; prev = m.tail; next = 0 } in
      let inserted = Dict.put ℕ_discrete k entry m.map in
      if m.tail == 0
      then record { map = inserted; head = k; tail = k }
      else record { map = write_next m.tail k inserted; head = m.head; tail = k }

  unfoldable pub add : ℕ → Option A → LinkedProdMap A → Result (LinkedProdMap A)
  unfolding append_key
  add k file m = if k == 0 then err invalid_argument else elim (Dict.find ℕ_discrete k m.map) [
    | some e ↦ err logic_error
    | none ↦ ok (append_key k file m)
  ]

  -- in `remove()`, the write to the entry before the removed one
  unfoldable pub join_next : Entry A → Dict ℕ (Entry A) → Dict ℕ (Entry A)
  unfolding write_next
  join_next e m = if e.prev == 0 then m else write_next e.prev e.next m

  -- in `remove()`, the write to the entry after the removed one
  unfoldable pub join_prev : Entry A → Dict ℕ (Entry A) → Dict ℕ (Entry A)
  unfolding write_prev
  join_prev e m = if e.next == 0 then m else write_prev e.next e.prev m

  -- `remove()`, once it has found the entry
  unfoldable pub unlink : ℕ → Entry A → LinkedProdMap A → LinkedProdMap A
  unfolding join_next join_prev
  unlink k e m = record {
    map = Dict.erase ℕ_discrete k (join_prev e (join_next e m.map));
    head = if e.prev == 0 then e.next else m.head;
    tail = if e.next == 0 then e.prev else m.tail;
  }

  unfoldable pub remove : ℕ → LinkedProdMap A → Result (Option A × LinkedProdMap A)
  unfolding unlink
  remove k m = elim (Dict.find ℕ_discrete k m.map) [
    | none ↦ err invalid_argument
    | some e ↦ ok (e.prod_file, unlink k e m)
  ]

  -- `find()` moves the entry that it finds to the end of the list
  unfoldable pub find : ℕ → LinkedProdMap A → Result (Option A × LinkedProdMap A)
  unfolding remove add
  find k m = elim (Dict.find ℕ_discrete k m.map) [
    | none ↦ ok (none, m)
    | some e ↦ do (file, removed) ← remove k m; added ← add k file removed; ok (file, added)
  ]

  -- `close()` through a handle
  abbrev pub close : Option A → Result A
  close none = err null_dereference
  close (some file) = ok file

  -- One round of `ensureRoom()`: the file that it closes, and the map without it.
  unfoldable pub evict : LinkedProdMap A → Result (A × LinkedProdMap A)
  evict m = do
    (handle, moved) ← find (get_head m) m
    file ← close handle
    (_, rest) ← remove (get_head m) moved
    ok (file, rest)

  -- `ensureRoom()`, with the files that it closes, in order. `none` means that the fuel ran out.
  unfoldable pub ensure_room : ℕ → ℕ → LinkedProdMap A → Option (Result (List A × LinkedProdMap A))
  ensure_room zero max_open_files m = none
  ensure_room (suc fuel) max_open_files m = elim (leb max_open_files (size m)) [
    | false ↦ some (ok ([], m))
    | true ↦ elim (evict m) [
      | err e ↦ some (err e)
      | ok (file, rest) ↦ elim (ensure_room fuel max_open_files rest) [
        | none ↦ none
        | some (err e) ↦ some (err e)
        | some (ok (files, final)) ↦ some (ok (file ∷ files, final))
      ]
    ]
  ]
