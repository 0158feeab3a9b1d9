-- ===== src/Misc/LinkedHashMap.antt =====
-- `LinkedHashMap` of main/misc/LinkedHashMap.h. A pointer to a key is an `Option`, and keys are
-- numbers; allocation is taken to succeed.
pub mod Forgets
use hycast.Prelude.{
  ℕ, ◌≡◌, Bool, true, false, Option, none, some, List, [], ◌∷◌, ℕ_discrete, Result, ok, err,
  out_of_range, ◌>>=◌,
}
use hycast.Prelude.Dict.{Dict}
use hycast.Prelude.Dict

pub record MapValue (A : Type 0) : Type 0 where
  pub prev : Option ℕ
  pub next : Option ℕ
  pub value : A

pub record LinkedHashMap (A : Type 0) : Type 0 where
  pub map : Dict ℕ (MapValue A)
  pub front : Option ℕ
  pub back : Option ℕ

-- the new `back` of `pop()`, and the new ends of `remove()`: an end moves if there is no neighbour
abbrev pub end_of : Option ℕ → Option ℕ → Option ℕ → Option ℕ
end_of none moved old = moved
end_of (some neighbour) moved old = old

module _ {A : Type 0} where
  unfoldable pub new : LinkedHashMap A
  new = record { map = []; front = none; back = none }

  unfoldable pub insert : ℕ → A → LinkedHashMap A → Bool × LinkedHashMap A
  insert key value m = elim (Dict.find ℕ_discrete key m.map) [
    | some old ↦ (false, m)
    | none ↦
        let entry : MapValue A = record { prev = m.back; next = none; value = value } in
        (
          true,
          record {
            map = Dict.put ℕ_discrete key entry m.map;
            front = elim m.front [ none ↦ some key | some first ↦ some first ];
            back = some key;
          },
        )
  ]

  -- `map.at(key)`
  unfoldable pub at : ℕ → Dict ℕ (MapValue A) → Result (MapValue A)
  at key m = elim (Dict.find ℕ_discrete key m) [ none ↦ err out_of_range | some e ↦ ok e ]

  -- `map.at(*key).prev = prev`, for a key that is there
  unfoldable pub write_prev :
      Option ℕ → Option ℕ → Dict ℕ (MapValue A) → Result (Dict ℕ (MapValue A))
  unfolding at
  write_prev none prev m = ok m
  write_prev (some key) prev m = do
    e ← at key m
    ok (Dict.put ℕ_discrete key (record e { prev = prev }) m)

  unfoldable pub write_next :
      Option ℕ → Option ℕ → Dict ℕ (MapValue A) → Result (Dict ℕ (MapValue A))
  unfolding at
  write_next none next m = ok m
  write_next (some key) next m = do
    e ← at key m
    ok (Dict.put ℕ_discrete key (record e { next = next }) m)

  -- `pop()`, from a front that is there. An exception of `at()` would end the program.
  unfoldable pub pop_front : ℕ → LinkedHashMap A → Result (Option A × LinkedHashMap A)
  unfolding at write_prev
  pop_front key m = do
    e ← at key m.map
    written ← write_prev e.next none m.map
    ok (
      some e.value,
      record {
        map = Dict.erase ℕ_discrete key written;
        front = e.next;
        back = end_of e.next none m.back;
      },
    )

  unfoldable pub pop : LinkedHashMap A → Result (Option A × LinkedHashMap A)
  unfolding pop_front
  pop m = elim m.front [ none ↦ ok (none, m) | some key ↦ pop_front key m ]

  unfoldable pub remove : ℕ → LinkedHashMap A → Result (Bool × LinkedHashMap A)
  unfolding write_next write_prev
  remove key m = elim (Dict.find ℕ_discrete key m.map) [
    | none ↦ ok (false, m)
    | some e ↦ do
      joined ← write_next e.prev e.next m.map
      written ← write_prev e.next e.prev joined
      ok (
        true,
        record {
          map = Dict.erase ℕ_discrete key written;
          front = end_of e.prev e.next m.front;
          back = end_of e.next e.prev m.back;
        },
      )
  ]
