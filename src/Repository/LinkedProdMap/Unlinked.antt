-- ===== src/Repository/LinkedProdMap/Unlinked.antt =====
-- What the removal of a key does to the entries of the others.
use hycast.Prelude.{ℕ, ◌≡◌, refl, ◌≢◌, ite, Option, none, some, [], ◌∷◌, arith, ℕ_discrete}
use hycast.Prelude.Dict.{UniqueKeys}
use hycast.Prelude.Dict
use hycast.Repository.LinkedProdMap.{Entry}
use hycast.Repository.LinkedProdMap.Order.{
  Files, first, last_from, entry_at, set_next, set_prev, Keyless, entry_at-none,
}

module _ {A : Type 0} where
  first_ne : (q : ℕ) (ks : Files A) → Keyless q ks → q ≢ 0 → first ks ≢ q
  unfolding Dict.find
  first_ne q [] h n = λ e. n (ground arith)
  first_ne q ((i, g) ∷ r) h n = ground arith

  next_ne :
      (p k q : ℕ) (ks : Files A) (e : Entry A)
      → entry_at p ks k ≡ some e
      → Keyless q ks
      → q ≢ 0
      → e.next ≢ q
  unfolding Dict.find
  next_ne p k q [] e at h n = absurd (cc)
  next_ne p k q ((i, g) ∷ r) e at h n = ground (arith, first_ne q r, next_ne i k q r e)

  prev_ne :
      (p k q : ℕ) (ks : Files A) (e : Entry A)
      → entry_at p ks k ≡ some e
      → first ks ≢ k
      → Keyless q ks
      → e.prev ≢ q
  unfolding Dict.find
  prev_ne p k q [] e at f h = absurd (cc)
  prev_ne p k q ((i, g) ∷ []) e at f h = ground arith
  prev_ne p k q ((i, g) ∷ (i', g') ∷ r) e at f h = elim (ℕ_discrete i' k) [
    | yes same ↦ ground arith
    | no other ↦ prev_ne i k q ((i', g') ∷ r) e (ground arith) other (ground arith)
  ]

  -- The entry of the first key names the sequence's predecessor.
  first-entry_at :
      (p k : ℕ) (ks : Files A) (e : Entry A)
      → entry_at p ks k ≡ some e
      → first ks ≡ k
      → UniqueKeys ℕ_discrete ks
      → (e.prev ≡ p) × (first (Dict.erase ℕ_discrete k ks) ≡ e.next)
  unfolding Dict.find Dict.erase
  first-entry_at p k [] e at f u = absurd (cc)
  first-entry_at p k ((i, g) ∷ r) e at f u = ground (arith, Dict.erase_absent ℕ_discrete i r)

  -- The first key after a removal.
  first-erase_ne :
      (k : ℕ) (ks : Files A) → first ks ≢ k → first (Dict.erase ℕ_discrete k ks) ≡ first ks
  unfolding Dict.erase
  first-erase_ne k [] f = refl
  first-erase_ne k ((i, g) ∷ r) f = ground arith

  -- Only the first entry depends on what precedes the sequence.
  entry_at-shift :
      (p q j : ℕ) (ks : Files A) → first ks ≢ j → j ≢ 0 → entry_at p ks j ≡ entry_at q ks j
  entry_at-shift p q j [] f n = refl
  entry_at-shift p q j ((i, g) ∷ r) f n = ground arith

  entry_at-first :
      (p q j : ℕ) (ks : Files A)
      → first ks ≡ j
      → j ≢ 0
      → entry_at p ks j ≡ set_prev p (entry_at q ks j)
  entry_at-first p q j [] f n = refl
  entry_at-first p q j ((i, g) ∷ r) f n = ground arith

  abbrev pub mend_next : Entry A → ℕ → Option (Entry A) → Option (Entry A)
  mend_next e j x = ite (ℕ_discrete e.prev j) (set_next e.next x) x

  abbrev pub mend_prev : Entry A → ℕ → Option (Entry A) → Option (Entry A)
  mend_prev e j x = ite (ℕ_discrete e.next j) (set_prev e.prev x) x

  -- The first entry removed.
  entry_at-erase_first :
      (p k j : ℕ) (g : Option A) (r : Files A) (e : Entry A)
      → UniqueKeys ℕ_discrete ((k, g) ∷ r)
      → Keyless p ((k, g) ∷ r)
      → Keyless 0 ((k, g) ∷ r)
      → e ≡ record { prod_file = g; prev = p; next = first r }
      → k ≢ j
      → entry_at p r j ≡ mend_prev e j (mend_next e j (entry_at k r j))
  unfolding Dict.find
  entry_at-erase_first p k j g [] e u hp h0 q n = ground arith
  entry_at-erase_first p k j g ((i, h) ∷ r) e u hp h0 q n =
      ground (arith, entry_at-none i p r, entry_at-none i k r)

  -- A later entry removed, seen at the first one.
  entry_at-erase_later :
      (p i k : ℕ) (g : Option A) (r : Files A) (e : Entry A)
      → UniqueKeys ℕ_discrete ((i, g) ∷ r)
      → Keyless 0 ((i, g) ∷ r)
      → entry_at i r k ≡ some e
      → ◌≡◌ {A = Option (Entry A)}
          (some (record { prod_file = g; prev = p; next = first (Dict.erase ℕ_discrete k r) }))
          (mend_prev e i
            (mend_next e i (some (record { prod_file = g; prev = p; next = first r }))))
  unfolding Dict.find
  entry_at-erase_later p i k g r e u h0 at = elim (ℕ_discrete (first r) k) [
    | yes same ↦ ground (arith, first-entry_at i k r e at same u.1, next_ne i k i r e)
    | no other ↦ ground (arith, first-erase_ne k r other, next_ne i k i r e, prev_ne i k i r e)
  ]

  -- The neighbours of a removed key are joined, and nothing else changes.
  pub entry_at-erase :
      (p k j : ℕ) (ks : Files A) (e : Entry A)
      → UniqueKeys ℕ_discrete ks
      → Keyless p ks
      → Keyless 0 ks
      → entry_at p ks k ≡ some e
      → entry_at p (Dict.erase ℕ_discrete k ks) j
        ≡ ite (ℕ_discrete k j) none (mend_prev e j (mend_next e j (entry_at p ks j)))
  unfolding Dict.find Dict.erase
  entry_at-erase p k j [] e u hp h0 at = absurd (cc)
  entry_at-erase p k j ((i, g) ∷ r) e u hp h0 at = elim (ℕ_discrete i k) [
    | yes same ↦ ground (
      arith,
      Dict.erase_absent ℕ_discrete i r,
      entry_at-none p i r u.0,
      entry_at-erase_first p i j g r e u hp h0,
    )
    | no other ↦
        ground (arith, entry_at-erase_later p i k g r e u h0, entry_at-erase i k j r e u.1 u.0)
  ]

  -- The tail after a removal.
  pub last_from-erase :
      (p k : ℕ) (ks : Files A) (e : Entry A)
      → UniqueKeys ℕ_discrete ks
      → Keyless 0 ks
      → entry_at p ks k ≡ some e
      → last_from p (Dict.erase ℕ_discrete k ks) ≡ ite (ℕ_discrete e.next 0) e.prev (last_from p ks)
  unfolding Dict.find Dict.erase
  last_from-erase p k [] e u h0 at = absurd (cc)
  last_from-erase p k ((i, g) ∷ []) e u h0 at = ground arith
  last_from-erase p k ((i, g) ∷ (i', g') ∷ r) e u h0 at = elim (ℕ_discrete i k) [
    | yes same ↦ ground (arith, Dict.erase_absent ℕ_discrete i ((i', g') ∷ r))
    | no other ↦ ground (arith, last_from-erase i k ((i', g') ∷ r) e u.1)
  ]

  -- The head after a removal.
  pub first-erase :
      (k : ℕ) (ks : Files A) (e : Entry A)
      → UniqueKeys ℕ_discrete ks
      → Keyless 0 ks
      → entry_at 0 ks k ≡ some e
      → first (Dict.erase ℕ_discrete k ks) ≡ ite (ℕ_discrete e.prev 0) e.next (first ks)
  first-erase k ks e u h0 at = elim (ℕ_discrete (first ks) k) [
    | yes same ↦ ground (arith, first-entry_at 0 k ks e at same u)
    | no other ↦ ground (arith, first-erase_ne k ks other, prev_ne 0 k 0 ks e at other h0)
  ]
