-- ===== src/Repository/LinkedProdMap/Models.antt =====
-- When a linked map holds a given sequence of files, and what `add()` does to one that does.
use hycast.Prelude.{
  ℕ, ◌≡◌, refl, sym, ◌≢◌, ◌∙◌, ite, Option, none, some, [], ◌∷◌, ◌++◌, arith, ℕ_discrete, ◌==◌,
  true, false, length, length-append,
}
use hycast.Prelude.Dict.{UniqueKeys}
use hycast.Prelude.Dict
use hycast.Repository.LinkedProdMap.{Entry, LinkedProdMap, new, write_next, write_prev, append_key}
use hycast.Repository.LinkedProdMap.Order.{
  Files, first, last_from, entry_at, set_next, set_prev, Keyless, entry_at-none, entry_at-append,
  last_from-append, last_from-tail, entry_at-last,
}

module _ {A : Type 0} where
  -- The map holds the files of `ks`, linked in that order.
  pub record Models (ks : Files A) (m : LinkedProdMap A) : Type 0 where
    pub unique : UniqueKeys ℕ_discrete m.map
    pub entries : (j : ℕ) → Dict.find ℕ_discrete j m.map ≡ entry_at 0 ks j
    pub head : m.head ≡ first ks
    pub tail : m.tail ≡ last_from 0 ks
    pub count : length m.map ≡ length ks
    pub distinct : UniqueKeys ℕ_discrete ks
    pub nonzero : Keyless 0 ks

  pub new-Models : Models [] (new {A = A})
  unfolding new Dict.find
  new-Models = record {
    unique = tt;
    entries = λ j. refl;
    head = refl;
    tail = refl;
    count = refl;
    distinct = tt;
    nonzero = refl;
  }

  pub find-write_next :
      (k n j : ℕ) (m : Dict.Dict ℕ (Entry A)) (e : Entry A)
      → Dict.find ℕ_discrete k m ≡ some e
      → Dict.find ℕ_discrete j (write_next k n m)
        ≡ ite (ℕ_discrete k j) (set_next n (Dict.find ℕ_discrete j m)) (Dict.find ℕ_discrete j m)
  unfolding write_next
  find-write_next k n j m e h = elim (ℕ_discrete k j) [
    | yes same ↦ ground (arith, Dict.find-put ℕ_discrete k j (record e { next = n }) m)
    | no other ↦ ground (arith, Dict.find-put ℕ_discrete k j (record e { next = n }) m)
  ]

  pub find-write_prev :
      (k n j : ℕ) (m : Dict.Dict ℕ (Entry A)) (e : Entry A)
      → Dict.find ℕ_discrete k m ≡ some e
      → Dict.find ℕ_discrete j (write_prev k n m)
        ≡ ite (ℕ_discrete k j) (set_prev n (Dict.find ℕ_discrete j m)) (Dict.find ℕ_discrete j m)
  unfolding write_prev
  find-write_prev k n j m e h =
      ground (arith, Dict.find-put ℕ_discrete k j (record e { prev = n }) m)

  -- A write to an entry that is there adds no key.
  pub write_next_keys :
      (k n : ℕ) (m : Dict.Dict ℕ (Entry A)) (e : Entry A)
      → Dict.find ℕ_discrete k m ≡ some e
      → UniqueKeys ℕ_discrete m
      → UniqueKeys ℕ_discrete (write_next k n m) × (length (write_next k n m) ≡ length m)
  unfolding write_next
  write_next_keys k n m e h u =
      (Dict.put-UniqueKeys ℕ_discrete k _ m u, Dict.length-put_present ℕ_discrete k _ e m h)

  pub write_prev_keys :
      (k n : ℕ) (m : Dict.Dict ℕ (Entry A)) (e : Entry A)
      → Dict.find ℕ_discrete k m ≡ some e
      → UniqueKeys ℕ_discrete m
      → UniqueKeys ℕ_discrete (write_prev k n m) × (length (write_prev k n m) ≡ length m)
  unfolding write_prev
  write_prev_keys k n m e h u =
      (Dict.put-UniqueKeys ℕ_discrete k _ m u, Dict.length-put_present ℕ_discrete k _ e m h)

  -- A key added at the end of the sequence.
  append-keys :
      (k : ℕ) (f : Option A) (ks : Files A)
      → k ≢ 0
      → Keyless k ks
      → Keyless 0 ks
      → UniqueKeys ℕ_discrete ks
      → UniqueKeys ℕ_discrete (ks ++ (k, f) ∷ []) × Keyless 0 (ks ++ (k, f) ∷ [])
  append-keys k f ks n h h0 u =
      rw (← Dict.put_absent ℕ_discrete k f ks h)
        (Dict.put-UniqueKeys ℕ_discrete k f ks u, ground (arith, Dict.find-put ℕ_discrete k 0 f ks))

  -- The map of a list that is not empty, after `add()`.
  module _ (k : ℕ) (f : Option A) (i : ℕ) (g : Option A) (r : Files A) (m : LinkedProdMap A)
      (n : k ≢ 0) (h : Keyless k ((i, g) ∷ r)) (v : Models ((i, g) ∷ r) m) where
    abbrev entry : Entry A
    entry = record { prod_file = f; prev = m.tail; next = 0 }

    abbrev inserted : Dict.Dict ℕ (Entry A)
    inserted = Dict.put ℕ_discrete k entry m.map

    absent : Dict.find ℕ_discrete k m.map ≡ none
    absent = v.entries k ∙ entry_at-none 0 k ((i, g) ∷ r) h

    tail_there : (d : Entry A) × (Dict.find ℕ_discrete m.tail inserted ≡ some d)
    tail_there =
        let (d, at) = entry_at-last 0 i g r in
        (
          d,
          ground
              (arith, v.entries m.tail, at, absent, Dict.find-put ℕ_discrete k m.tail entry m.map),
        )

    appended-entries :
        (j : ℕ)
        → Dict.find ℕ_discrete j (write_next m.tail k inserted)
          ≡ entry_at 0 ((i, g) ∷ r ++ (k, f) ∷ []) j
    appended-entries j =
        let (d, at) = tail_there in
        ground (
          arith,
          find-write_next m.tail k j inserted d at,
          Dict.find-put ℕ_discrete k j entry m.map,
          v.entries j,
          entry_at-append 0 k j f ((i, g) ∷ r) v.distinct h,
          absent,
          last_from-tail k i g r v.distinct h,
        )

    appended-Models : Models ((i, g) ∷ r ++ (k, f) ∷ []) (append_key k f m)
    unfolding append_key
    appended-Models =
        let (d, at) = tail_there in
        let u = Dict.put-UniqueKeys ℕ_discrete k entry m.map v.unique in
        let kept = write_next_keys m.tail k inserted d at u in
        let keys = append-keys k f ((i, g) ∷ r) n h v.nonzero v.distinct in
        let tail_ne = last_from-tail 0 i g r v.distinct v.nonzero in
        let two : ((m.tail == 0) ≡ false) = ground (arith) in
        rw two (record {
          unique = kept.0;
          entries = appended-entries;
          head = v.head;
          tail = sym (last_from-append 0 k f ((i, g) ∷ r));
          count = omega (
            arith,
            kept.1,
            Dict.length-put_absent ℕ_discrete k entry m.map absent,
            length-append ((i, g) ∷ r) ((k, f) ∷ []),
          );
          distinct = keys.0;
          nonzero = keys.1;
        })

  pub append_key-Models :
      (k : ℕ) (f : Option A) (ks : Files A) (m : LinkedProdMap A)
      → k ≢ 0
      → Keyless k ks
      → Models ks m
      → Models (ks ++ (k, f) ∷ []) (append_key k f m)
  unfolding append_key
  append_key-Models k f ((i, g) ∷ r) m n h v = appended-Models k f i g r m n h v
  append_key-Models k f [] m n h v =
      let entry : Entry A = record { prod_file = f; prev = m.tail; next = 0 } in
      let keys = append-keys k f [] n h v.nonzero v.distinct in
      let two : ((m.tail == 0) ≡ true) = ground (arith) in
      rw two (record {
        unique = Dict.put-UniqueKeys ℕ_discrete k entry m.map v.unique;
        entries = λ j. ground (arith, Dict.find-put ℕ_discrete k j entry m.map, v.entries j);
        head = refl;
        tail = refl;
        count = omega (arith, Dict.length-put_absent ℕ_discrete k entry m.map (v.entries k));
        distinct = keys.0;
        nonzero = keys.1;
      })
