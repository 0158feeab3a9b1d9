-- ===== src/P2p/WorstPeer.antt =====
-- The loop of the three `getWorstPeer()` of main/p2p/Bookkeeper.cpp, over the entries of a map in
-- the order of its iteration. A peer is the address of its object; no peer is `none`.
use hycast.Prelude.{
  ℕ, ◌-◌, ◌^◌, ◌≤◌, ◌<◌, ◌≡◌, refl, ◌⊎◌, inl, inr, Bool, true, ◌&&◌, Option, some, [], ◌∷◌, arith,
  Bool-cases, ltb, if◌then◌else◌, ℕ_discrete, All,
}
use hycast.Prelude.Dict.{Dict, UniqueKeys}
use hycast.Prelude.Dict

-- `ULONG_MAX`, where `long` has 64 bits
abbrev pub ulong_max : ℕ
ulong_max = 2 ^ 64 - 1

-- `p` is among the entries, with the value `v`.
abbrev pub Has : {V : Type 0} → ℕ → V → Dict ℕ V → Type 0
Has p v [] = ⊥
Has p v ((q, w) ∷ m) = ((p ≡ q) × (v ≡ w)) ⊎ Has p v m

module _ {V : Type 0} (count : V → ℕ) (wanted : ℕ → Bool) where
  unfoldable pub worst_from : ℕ → Option ℕ → Dict ℕ V → Option ℕ
  worst_from min_count peer [] = peer
  worst_from min_count peer ((p, v) ∷ m) =
      let hit = wanted p && ltb (count v) min_count in
      worst_from (if hit then count v else min_count) (if hit then some p else peer) m

  -- No entry of a wanted peer counts less than `n`.
  abbrev pub NoneBelow : ℕ → Dict ℕ V → Type 0
  NoneBelow n = All (λ e. wanted e.0 ≡ true → n ≤ count e.1)

  NoneBelow-mono : (n k : ℕ) (m : Dict ℕ V) → k ≤ n → NoneBelow n m → NoneBelow k m
  NoneBelow-mono n k [] h b = tt
  NoneBelow-mono n k ((q, w) ∷ m) h b =
      ((λ x. let y = b.0 x in omega arith), NoneBelow-mono n k m h b.1)

  -- What the loop returns from `min_count` and `peer`: that peer, if no entry is worse, or one of the
  -- worst entries.
  abbrev pub Outcome : ℕ → Option ℕ → Dict ℕ V → Option ℕ → Type 0
  Outcome min_count peer m r =
      ((r ≡ peer) × NoneBelow min_count m)
      ⊎ ((p : ℕ) × (v : V) × (r ≡ some p)
          × Has p v m
          × (wanted p ≡ true)
          × (count v < min_count)
          × NoneBelow (count v) m)

  pub worst_from-Outcome :
      (min_count : ℕ) (peer : Option ℕ) (m : Dict ℕ V)
      → Outcome min_count peer m (worst_from min_count peer m)
  unfolding worst_from
  worst_from-Outcome min_count peer [] = inl (refl, tt)
  worst_from-Outcome min_count peer ((q, w) ∷ m) =
      elim (Bool-cases (wanted q && ltb (count w) min_count)) [
        | inl hit ↦
            let chosen : ((wanted q ≡ true) × (count w < min_count)) = ground arith in
            rw hit (elim (worst_from-Outcome (count w) (some q) m) [
              | inl (e, rest) ↦
                  inr (q, w, e, inl (refl, refl), chosen.0, chosen.1, ((λ x. omega arith), rest))
              | inr (p, v, e, has, good, lt, rest) ↦
                  inr (p, v, e, inr has, good, omega arith, ((λ x. omega arith), rest))
            ])
        | inr miss ↦
            let above : (wanted q ≡ true → min_count ≤ count w) = λ x. ground arith in
            rw miss (elim (worst_from-Outcome min_count peer m) [
              | inl (e, rest) ↦ inl (e, (above, rest))
              | inr (p, v, e, has, good, lt, rest) ↦
                  inr (p, v, e, inr has, good, lt, ((λ x. let y = above x in omega arith), rest))
            ])
      ]

-- Under unique keys an entry that is there is the one that `find()` finds.
pub find-Has :
    {V : Type 0} (p : ℕ) (v : V) (m : Dict ℕ V)
    → UniqueKeys ℕ_discrete m
    → Has p v m
    → Dict.find ℕ_discrete p m ≡ some v
unfolding Dict.find
find-Has p v [] u h = absurd h
find-Has p v ((q, w) ∷ m) u (inl (e, e')) = ground arith
find-Has p v ((q, w) ∷ m) u (inr h) = ground (arith, find-Has p v m u.1 h)
