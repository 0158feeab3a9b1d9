-- ===== src/Repository/LinkedProdMap/Removal.antt =====
-- What `remove()` does to a linked map that holds a given sequence of files.
use hycast.Prelude.{
  ℕ, ◌≡◌, refl, ◌≢◌, ◌∙◌, Option, none, some, arith, ℕ_discrete, ◌==◌, length, Bool-cases, inl, inr,
}
use hycast.Prelude.Dict.{Dict, UniqueKeys}
use hycast.Prelude.Dict
use hycast.Repository.LinkedProdMap.{Entry, LinkedProdMap, join_next, join_prev, unlink}
use hycast.Repository.LinkedProdMap.Order.{
  Files, entry_at, entry_at-none, find_of_entry_at, entry_at-prev, entry_at-next,
}
use hycast.Repository.LinkedProdMap.Unlinked.{
  mend_next, mend_prev, entry_at-erase, last_from-erase, first-erase,
}
use hycast.Repository.LinkedProdMap.Models.{
  Models, find-write_next, find-write_prev, write_next_keys, write_prev_keys,
}

module _ {A : Type 0} where
  -- An entry that is joined to others is still there.
  mended_some :
      (e d : Entry A) (j : ℕ) (x : Option (Entry A))
      → x ≡ some d
      → (d' : Entry A) × (mend_prev e j (mend_next e j x) ≡ some d')
  mended_some e d j none h = absurd (cc)
  mended_some e d j (some c) h = elim (ℕ_discrete e.prev j) [
    | yes p ↦ elim (ℕ_discrete e.next j) [
      | yes n ↦ (record { prod_file = c.prod_file; prev = e.prev; next = e.next }, ground arith)
      | no n ↦ (record c { next = e.next }, ground arith)
    ]
    | no p ↦ elim (ℕ_discrete e.next j) [
      | yes n ↦ (record c { prev = e.prev }, ground arith)
      | no n ↦ (c, ground arith)
    ]
  ]

  -- The two joins, where the neighbours that the entry names are there.
  module _ (e : Entry A) (m : Dict ℕ (Entry A)) (no_zero : Dict.find ℕ_discrete 0 m ≡ none)
      (u : UniqueKeys ℕ_discrete m) where
    join_next_effect :
        (e.prev ≢ 0 → (d : Entry A) × (Dict.find ℕ_discrete e.prev m ≡ some d))
        → ((j : ℕ)
            → Dict.find ℕ_discrete j (join_next e m) ≡ mend_next e j (Dict.find ℕ_discrete j m))
          × UniqueKeys ℕ_discrete (join_next e m)
          × (length (join_next e m) ≡ length m)
    unfolding join_next
    join_next_effect there = elim (Bool-cases (e.prev == 0)) [
      | inl zero ↦ rw zero (λ j. ground arith, u, refl)
      | inr more ↦
          let (d, at) = there (ground arith) in
          let (keys, count) = write_next_keys e.prev e.next m d at u in
          rw more (λ j. find-write_next e.prev e.next j m d at, keys, count)
    ]

    join_prev_effect :
        (e.next ≢ 0 → (d : Entry A) × (Dict.find ℕ_discrete e.next m ≡ some d))
        → ((j : ℕ)
            → Dict.find ℕ_discrete j (join_prev e m) ≡ mend_prev e j (Dict.find ℕ_discrete j m))
          × UniqueKeys ℕ_discrete (join_prev e m)
          × (length (join_prev e m) ≡ length m)
    unfolding join_prev
    join_prev_effect there = elim (Bool-cases (e.next == 0)) [
      | inl zero ↦ rw zero (λ j. ground arith, u, refl)
      | inr more ↦
          let (d, at) = there (ground arith) in
          let (keys, count) = write_prev_keys e.next e.prev m d at u in
          rw more (λ j. find-write_prev e.next e.prev j m d at, keys, count)
    ]

  module _ (k : ℕ) (ks : Files A) (m : LinkedProdMap A) (e : Entry A) (v : Models ks m)
      (at : entry_at 0 ks k ≡ some e) where
    abbrev forward : Dict ℕ (Entry A)
    forward = join_next e m.map

    no_zero : Dict.find ℕ_discrete 0 m.map ≡ none
    no_zero = v.entries 0 ∙ entry_at-none 0 0 ks v.nonzero

    prev_there : e.prev ≢ 0 → (d : Entry A) × (Dict.find ℕ_discrete e.prev m.map ≡ some d)
    prev_there n = let (d, h) = entry_at-prev 0 k ks e at n in (d, v.entries e.prev ∙ h)

    next_there : e.next ≢ 0 → (d : Entry A) × (Dict.find ℕ_discrete e.next forward ≡ some d)
    next_there n =
        let (d, h) = entry_at-next 0 k ks e at n in
        let mended = (join_next_effect e m.map no_zero v.unique prev_there).0 in
        elim (ℕ_discrete e.prev e.next) [
          | yes same ↦ (record d { next = e.next }, ground (arith, mended e.next, v.entries e.next))
          | no other ↦ (d, ground (arith, mended e.next, v.entries e.next))
        ]

    pub unlink-Models : Models (Dict.erase ℕ_discrete k ks) (unlink k e m)
    unfolding unlink
    unlink-Models =
        let (mended, u, c) = join_next_effect e m.map no_zero v.unique prev_there in
        let zero_forward : (Dict.find ℕ_discrete 0 forward ≡ none) =
          ground (arith, mended 0, no_zero) in
        let (joined, u', c') = join_prev_effect e forward zero_forward u next_there in
        let both = join_prev e forward in
        let gone : ((d : Entry A) × (Dict.find ℕ_discrete k both ≡ some d)) =
          (let (d, h) = mended_some e e k (Dict.find ℕ_discrete k m.map) (v.entries k ∙ at) in
            (d, ground (arith, joined k, mended k, h))) in
        record {
          unique = Dict.erase-UniqueKeys ℕ_discrete k both u';
          entries = λ j. ground (
            arith,
            Dict.find-erase ℕ_discrete k j both,
            joined j,
            mended j,
            v.entries j,
            entry_at-erase 0 k j ks e v.distinct v.nonzero v.nonzero at,
          );
          head = ground (arith, first-erase k ks e v.distinct v.nonzero at, v.head);
          tail = ground (arith, last_from-erase 0 k ks e v.distinct v.nonzero at, v.tail);
          count = omega (
            arith,
            Dict.length-erase ℕ_discrete k gone.0 both u' gone.1,
            Dict.length-erase ℕ_discrete k e.prod_file ks v.distinct (find_of_entry_at 0 k ks e at),
            v.count,
            c,
            c',
          );
          distinct = Dict.erase-UniqueKeys ℕ_discrete k ks v.distinct;
          nonzero = ground (arith, Dict.find-erase ℕ_discrete k 0 ks, v.nonzero);
        }
