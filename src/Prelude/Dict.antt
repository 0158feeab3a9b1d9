-- ===== src/Prelude/Dict.antt =====
-- `std::unordered_map` as the sequence of its entries, in the order in which an iteration meets
-- them. Keys are compared by a decision of equality.
use Prim.Native.Nat.{◌+◌}
use mathlib.Core.Path.{◌≡◌, refl}
use mathlib.Core.Logic.{ite, inl, inr}
use mathlib.Core.List.{List, [], ◌∷◌, ◌++◌}
use mathlib.Core.Option.{Option, none, some}
use native.Mathlib.Omega.{arith}
use hycast.Prelude.Lists.{length}
use hycast.Prelude.Tests.{Option-cases}

abbrev pub Dict {ℓ} : Type ℓ → Type ℓ → Type ℓ
Dict K V = List (K × V)

abbrev pub or_default {ℓ} : {A : Type ℓ} → A → Option A → A
or_default d none = d
or_default d (some a) = a

module _ {ℓ} {K V : Type ℓ} (dec : Discrete K) where
  -- `find()`, with `none` for `end()`
  unfoldable pub find : K → Dict K V → Option V
  find k [] = none
  find k ((j, v) ∷ m) = ite (dec j k) (some v) (find k m)

  -- the write `m[k] = v`; also the effect of `insert()` for a key that is not there
  unfoldable pub put : K → V → Dict K V → Dict K V
  put k v [] = (k, v) ∷ []
  put k v ((j, w) ∷ m) = ite (dec j k) ((j, v) ∷ m) ((j, w) ∷ put k v m)

  -- `insert()` and `emplace()` keep the entry that is there
  unfoldable pub insert : K → V → Dict K V → Dict K V
  insert k v m = elim (find k m) [ none ↦ put k v m | some w ↦ m ]

  -- `erase()`
  unfoldable pub erase : K → Dict K V → Dict K V
  erase k [] = []
  erase k ((j, v) ∷ m) = ite (dec j k) (erase k m) ((j, v) ∷ erase k m)

  -- No key has two entries.
  abbrev pub UniqueKeys : Dict K V → Type ℓ
  UniqueKeys [] = Unit
  UniqueKeys ((k, v) ∷ m) = (find k m ≡ none) × UniqueKeys m

  pub find-put :
      (k j : K) (v : V) (m : Dict K V) → find j (put k v m) ≡ ite (dec k j) (some v) (find j m)
  unfolding find put
  find-put k j v [] = refl
  find-put k j v ((i, w) ∷ m) = ground (arith, find-put k j v m)

  pub find-erase : (k j : K) (m : Dict K V) → find j (erase k m) ≡ ite (dec k j) none (find j m)
  unfolding find erase
  find-erase k j [] = ground arith
  find-erase k j ((i, w) ∷ m) = ground (arith, find-erase k j m)

  pub erase_absent : (k : K) (m : Dict K V) → find k m ≡ none → erase k m ≡ m
  unfolding find erase
  erase_absent k [] h = refl
  erase_absent k ((i, w) ∷ m) h = ground (arith, erase_absent k m)

  pub length-put_absent :
      (k : K) (v : V) (m : Dict K V) → find k m ≡ none → length (put k v m) ≡ length m + 1
  unfolding find put
  length-put_absent k v [] h = omega arith
  length-put_absent k v ((i, w) ∷ m) h = ground (arith, length-put_absent k v m)

  pub length-put_present :
      (k : K) (v w : V) (m : Dict K V) → find k m ≡ some w → length (put k v m) ≡ length m
  unfolding find put
  length-put_present k v w [] h = cc
  length-put_present k v w ((i, u) ∷ m) h = ground (arith, length-put_present k v w m)

  pub length-erase :
      (k : K) (v : V) (m : Dict K V)
      → UniqueKeys m
      → find k m ≡ some v
      → length (erase k m) + 1 ≡ length m
  unfolding find erase
  length-erase k v [] u h = cc
  length-erase k v ((i, w) ∷ m) u h = ground (arith, length-erase k v m u.1, erase_absent k m)

  pub put-UniqueKeys : (k : K) (v : V) (m : Dict K V) → UniqueKeys m → UniqueKeys (put k v m)
  unfolding find put
  put-UniqueKeys k v [] u = (refl, u)
  put-UniqueKeys k v ((i, w) ∷ m) u = ground (arith, find-put k i v m, put-UniqueKeys k v m u.1)

  pub erase-UniqueKeys : (k : K) (m : Dict K V) → UniqueKeys m → UniqueKeys (erase k m)
  unfolding find erase
  erase-UniqueKeys k [] u = u
  erase-UniqueKeys k ((i, w) ∷ m) u = ground (arith, find-erase k i m, erase-UniqueKeys k m u.1)

  pub put_absent : (k : K) (v : V) (m : Dict K V) → find k m ≡ none → put k v m ≡ m ++ (k, v) ∷ []
  unfolding find put
  put_absent k v [] h = refl
  put_absent k v ((i, w) ∷ m) h = ground (arith, put_absent k v m)

  -- The entry at the end, of a key that stands nowhere else.
  pub find-append_self :
      (k : K) (v : V) (m : Dict K V) → find k m ≡ none → find k (m ++ (k, v) ∷ []) ≡ some v
  unfolding find
  find-append_self k v [] h = ground arith
  find-append_self k v ((i, w) ∷ m) h = ground (arith, find-append_self k v m)

  pub erase-append_self :
      (k : K) (v : V) (m : Dict K V) → find k m ≡ none → erase k (m ++ (k, v) ∷ []) ≡ m
  unfolding find erase
  erase-append_self k v [] h = ground arith
  erase-append_self k v ((i, w) ∷ m) h = ground (arith, erase-append_self k v m)

  pub insert-UniqueKeys : (k : K) (v : V) (m : Dict K V) → UniqueKeys m → UniqueKeys (insert k v m)
  unfolding insert
  insert-UniqueKeys k v m u = elim (Option-cases (find k m)) [
    | inl e ↦ rw (e, insert) (put-UniqueKeys k v m u)
    | inr (w, e) ↦ rw (e, insert) u
  ]

  pub find-insert :
      (k j : K) (v : V) (m : Dict K V)
      → find j (insert k v m) ≡ ite (dec k j) (some (or_default v (find k m))) (find j m)
  unfolding insert
  find-insert k j v m = elim (Option-cases (find k m)) [
    | inl e ↦ rw (e, insert) (find-put k j v m)
    | inr (w, e) ↦ elim (dec k j) [ yes same ↦ ground arith | no other ↦ ground arith ]
  ]
