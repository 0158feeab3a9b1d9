-- ===== src/Misc/LinkedHashMap/Forgets.antt =====
-- `insert()` of main/misc/LinkedHashMap.h does not link the previous last entry to the new one.
use hycast.Prelude.{
  ℕ, ◌≡◌, refl, ite, Option, none, some, List, [], ◌∷◌, arith, ℕ_discrete, ok, ◌>>=◌, Option-cases,
  inl, inr,
}
use hycast.Prelude.Dict.{Dict}
use hycast.Prelude.Dict
use hycast.Misc.LinkedHashMap.{
  MapValue, LinkedHashMap, new, insert, at, write_prev, end_of, pop_front, pop,
}

module _ {A : Type 0} where
  -- The map after some insertions, the latest first.
  abbrev pub insert_all : List (ℕ × A) → LinkedHashMap A → LinkedHashMap A
  insert_all [] m = m
  insert_all ((key, value) ∷ es) m = (insert key value (insert_all es m)).1

  -- The front is the key `k` with the value `v`, and its entry has no next one.
  record Unlinked (k : ℕ) (v : A) (m : LinkedHashMap A) : Type 0 where
    front : m.front ≡ some k
    entry :
        (p : Option ℕ) × (Dict.find ℕ_discrete k m.map
          ≡ some (record { prev = p; next = none; value = v }))

  insert-first : (k : ℕ) (v : A) → Unlinked k v (insert k v new).1
  unfolding insert new Dict.find Dict.put
  insert-first k v = record { front = ground arith; entry = (none, ground arith) }

  insert_old :
      (j : ℕ) (w : A) (old : MapValue A) (m : LinkedHashMap A)
      → Dict.find ℕ_discrete j m.map ≡ some old
      → (insert j w m).1 ≡ m
  unfolding insert
  insert_old j w old m e = ground arith

  insert_new :
      (j k : ℕ) (w : A) (m : LinkedHashMap A)
      → Dict.find ℕ_discrete j m.map ≡ none
      → m.front ≡ some k
      → ((insert j w m).1.front ≡ some k)
        × ((insert j w m).1.map
            ≡ Dict.put ℕ_discrete j (record { prev = m.back; next = none; value = w }) m.map)
  unfolding insert
  insert_new j k w m e f = (ground arith, ground arith)

  insert-Unlinked :
      (j k : ℕ) (w v : A) (m : LinkedHashMap A) → Unlinked k v m → Unlinked k v (insert j w m).1
  insert-Unlinked j k w v m u =
      let (p, e) = u.entry in
      let new_entry : MapValue A = record { prev = m.back; next = none; value = w } in
      let put = Dict.find-put ℕ_discrete j k new_entry m.map in
      elim (Option-cases (Dict.find ℕ_discrete j m.map)) [
        | inr (old, there) ↦ rw (insert_old j w old m there) u
        | inl absent ↦
            let (front, map) = insert_new j k w m absent u.front in
            record { front = front; entry = (p, ground (arith, map, put)) }
      ]

  insert_all-Unlinked :
      (k : ℕ) (v : A) (es : List (ℕ × A)) → Unlinked k v (insert_all es (insert k v new).1)
  insert_all-Unlinked k v [] = insert-first k v
  insert_all-Unlinked k v ((j, w) ∷ es) = insert-Unlinked j k w v _ (insert_all-Unlinked k v es)

  pop-Unlinked :
      (k : ℕ) (v : A) (p : Option ℕ) (m : LinkedHashMap A)
      → m.front ≡ some k
      → Dict.find ℕ_discrete k m.map ≡ some (record { prev = p; next = none; value = v })
      → pop m
        ≡ ok (some v, record { map = Dict.erase ℕ_discrete k m.map; front = none; back = none })
  unfolding pop Dict.erase
  pop-Unlinked k v p m f e = rw (f, pop, pop_front, at, e, ◌>>=◌, write_prev, end_of) refl

  pop_empty : (m : LinkedHashMap A) → m.front ≡ none → pop m ≡ ok (none, m)
  unfolding pop
  pop_empty m f = rw f refl

  -- After a first and any number of further insertions into a new map, `pop()` returns the
  -- first value and takes out its key alone; a second `pop()` then finds nothing, however many
  -- entries are left.
  pub pop_forgets :
      (k : ℕ) (v : A) (es : List (ℕ × A))
      → (m : LinkedHashMap A) × (pop (insert_all es (insert k v new).1) ≡ ok (some v, m))
        × (pop m ≡ ok (none, m))
        × ((j : ℕ)
            → Dict.find ℕ_discrete j m.map
              ≡ ite
                  (ℕ_discrete k j)
                  none
                  (Dict.find ℕ_discrete j (insert_all es (insert k v new).1).map))
  pop_forgets k v es =
      let m = insert_all es (insert k v new).1 in
      let u = insert_all-Unlinked k v es in
      let (p, e) = u.entry in
      (
        record { map = Dict.erase ℕ_discrete k m.map; front = none; back = none },
        pop-Unlinked k v p m u.front e,
        pop_empty _ refl,
        (λ j. Dict.find-erase ℕ_discrete k j m.map),
      )
