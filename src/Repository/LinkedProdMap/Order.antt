-- ===== src/Repository/LinkedProdMap/Order.antt =====
-- The doubly linked list inside the map, described by the sequence of its keys and files from head
-- to tail: which entry such a sequence puts under each key.
use hycast.Prelude.{
  ℕ, ◌≡◌, refl, ◌≢◌, ite, Option, none, some, List, [], ◌∷◌, ◌++◌, arith, ℕ_discrete,
}
use hycast.Prelude.Dict.{Dict, UniqueKeys}
use hycast.Prelude.Dict
use hycast.Repository.LinkedProdMap.{Entry}

-- A sequence of keys with their files.
abbrev pub Files : Type 0 → Type 0
Files A = List (ℕ × Option A)

module _ {A : Type 0} where
  -- The first key, 0 if there is none.
  abbrev pub first : Files A → ℕ
  first [] = 0
  first ((k, f) ∷ ks) = k

  -- The last key, `p` if there is none.
  abbrev pub last_from : ℕ → Files A → ℕ
  last_from p [] = p
  last_from p ((k, f) ∷ ks) = last_from k ks

  -- The entry under a key of a sequence that follows the key `p`.
  abbrev pub entry_at : ℕ → Files A → ℕ → Option (Entry A)
  entry_at p [] j = none
  entry_at p ((k, f) ∷ ks) j =
      ite (ℕ_discrete k j) (some (record { prod_file = f; prev = p; next = first ks }))
        (entry_at k ks j)

  abbrev pub set_next : ℕ → Option (Entry A) → Option (Entry A)
  set_next n none = none
  set_next n (some e) = some (record e { next = n })

  abbrev pub set_prev : ℕ → Option (Entry A) → Option (Entry A)
  set_prev n none = none
  set_prev n (some e) = some (record e { prev = n })

  abbrev pub Keyless : ℕ → Files A → Type 0
  Keyless k ks = Dict.find ℕ_discrete k ks ≡ none

  pub entry_at-none : (p k : ℕ) (ks : Files A) → Keyless k ks → entry_at p ks k ≡ none
  unfolding Dict.find
  entry_at-none p k [] h = refl
  entry_at-none p k ((i, g) ∷ r) h = ground (arith, entry_at-none i k r)

  pub entry_at-some :
      (p k : ℕ) (ks : Files A) (f : Option A)
      → Dict.find ℕ_discrete k ks ≡ some f
      → (e : Entry A) × (entry_at p ks k ≡ some e) × (e.prod_file ≡ f)
  unfolding Dict.find
  entry_at-some p k [] f h = absurd (cc)
  entry_at-some p k ((i, g) ∷ r) f h = elim (ℕ_discrete i k) [
    | yes same ↦ (record { prod_file = g; prev = p; next = first r }, ground arith, ground arith)
    | no other ↦ let (e, at, file) = entry_at-some i k r f (ground arith) in (e, ground arith, file)
  ]

  pub find_of_entry_at :
      (p k : ℕ) (ks : Files A) (e : Entry A)
      → entry_at p ks k ≡ some e
      → Dict.find ℕ_discrete k ks ≡ some e.prod_file
  unfolding Dict.find
  find_of_entry_at p k [] e h = absurd (cc)
  find_of_entry_at p k ((i, g) ∷ r) e h = ground (arith, find_of_entry_at i k r e)

  last_from_ne : (p q : ℕ) (ks : Files A) → Keyless q ks → p ≢ q → last_from p ks ≢ q
  unfolding Dict.find
  last_from_ne p q [] h n = n
  last_from_ne p q ((i, g) ∷ r) h n = last_from_ne i q r (ground arith) (ground arith)

  -- A sequence that is not empty ends in one of its own keys.
  pub last_from-tail :
      (p : ℕ) (i : ℕ) (g : Option A) (r : Files A)
      → UniqueKeys ℕ_discrete ((i, g) ∷ r)
      → Keyless p ((i, g) ∷ r)
      → last_from i r ≢ p
  unfolding Dict.find
  last_from-tail p i g r u h = last_from_ne i p r (ground arith) (ground arith)

  -- A key added at the end.
  pub entry_at-append :
      (p k j : ℕ) (f : Option A) (ks : Files A)
      → UniqueKeys ℕ_discrete ks
      → Keyless k ks
      → entry_at p (ks ++ (k, f) ∷ []) j
        ≡ ite
            (ℕ_discrete k j)
            (some (record { prod_file = f; prev = last_from p ks; next = 0 }))
            (ite (ℕ_discrete (last_from p ks) j) (set_next k (entry_at p ks j)) (entry_at p ks j))
  unfolding Dict.find
  entry_at-append p k j f [] u h = ground arith
  entry_at-append p k j f ((i, g) ∷ []) u h = ground arith
  entry_at-append p k j f ((i, g) ∷ (i', g') ∷ r) u h =
      ground (arith, entry_at-append i k j f ((i', g') ∷ r) u.1, last_from-tail i i' g' r u.1 u.0)

  pub last_from-append :
      (p k : ℕ) (f : Option A) (ks : Files A) → last_from p (ks ++ (k, f) ∷ []) ≡ k
  last_from-append p k f [] = refl
  last_from-append p k f ((i, g) ∷ r) = last_from-append i k f r

  entry_at-lift :
      (p i q : ℕ) (g : Option A) (r : Files A) (d : Entry A)
      → entry_at i r q ≡ some d
      → (d' : Entry A) × (entry_at p ((i, g) ∷ r) q ≡ some d')
  entry_at-lift p i q g r d h = elim (ℕ_discrete i q) [
    | yes same ↦ (record { prod_file = g; prev = p; next = first r }, ground arith)
    | no other ↦ (d, ground arith)
  ]

  entry_at_self :
      (p i : ℕ) (g : Option A) (r : Files A) → (d : Entry A) × (entry_at p ((i, g) ∷ r) i ≡ some d)
  entry_at_self p i g r = (record { prod_file = g; prev = p; next = first r }, ground arith)

  -- The last key, and the neighbours that an entry names, have entries.
  pub entry_at-last :
      (p i : ℕ) (g : Option A) (r : Files A)
      → (d : Entry A) × (entry_at p ((i, g) ∷ r) (last_from i r) ≡ some d)
  entry_at-last p i g [] = entry_at_self p i g []
  entry_at-last p i g ((i', g') ∷ r) =
      let (d, h) = entry_at-last i i' g' r in
      entry_at-lift p i (last_from i' r) g ((i', g') ∷ r) d h

  pub entry_at-prev :
      (p k : ℕ) (ks : Files A) (e : Entry A)
      → entry_at p ks k ≡ some e
      → e.prev ≢ p
      → (d : Entry A) × (entry_at p ks e.prev ≡ some d)
  entry_at-prev p k [] e h n = absurd (cc)
  entry_at-prev p k ((i, g) ∷ r) e h n = elim (ℕ_discrete i e.prev) [
    | yes same ↦ (record { prod_file = g; prev = p; next = first r }, ground arith)
    | no other ↦
        let (d, at) = entry_at-prev i k r e (ground arith) (λ x. other (ground arith)) in
        entry_at-lift p i e.prev g r d at
  ]

  pub entry_at-next :
      (p k : ℕ) (ks : Files A) (e : Entry A)
      → entry_at p ks k ≡ some e
      → e.next ≢ 0
      → (d : Entry A) × (entry_at p ks e.next ≡ some d)
  entry_at-next p k [] e h n = absurd (cc)
  entry_at-next p k ((i, g) ∷ []) e h n = absurd (n (ground arith))
  entry_at-next p k ((i, g) ∷ (i', g') ∷ r) e h n = elim (ℕ_discrete i k) [
    | yes same ↦
        entry_at-lift p i e.next g ((i', g') ∷ r)
          (record { prod_file = g'; prev = i; next = first r }) (ground arith)
    | no other ↦
        let (d, at) = entry_at-next i k ((i', g') ∷ r) e (ground arith) n in
        entry_at-lift p i e.next g ((i', g') ∷ r) d at
  ]
