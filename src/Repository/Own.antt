-- ===== src/Repository/Own.antt =====
-- Sequences of files that are held under their own index, as main/repository/Repository.cpp does.
use hycast.Prelude.{
  ℕ, zero, suc, ◌+◌, ◌≤◌, ◌≡◌, ◌≢◌, refl, ap, ◌∙◌, ite, Bool, true, false, ◌||◌, none, some, List,
  [], ◌∷◌, ◌++◌, arith, ℕ_discrete, length, take, drop, Bool-cases, length-append, inl, inr, ok,
  ◌==◌, if◌then◌else◌,
}
use hycast.Prelude.Dict.{Dict, UniqueKeys}
use hycast.Prelude.Dict
use hycast.Repository.LinkedProdMap.Order.{Files}
use hycast.Repository.LinkedProdMap.Refines.{spec_add, spec_find}
use hycast.Repository.LinkedProdMap.Room.{held, files}

abbrev pub own : List ℕ → List (ℕ × ℕ)
own [] = []
own (k ∷ ks) = (k, k) ∷ own ks

abbrev pub contains : ℕ → List ℕ → Bool
contains j [] = false
contains j (k ∷ ks) = ite (ℕ_discrete k j) true (contains j ks)

abbrev pub without : ℕ → List ℕ → List ℕ
without j [] = []
without j (k ∷ ks) = ite (ℕ_discrete k j) (without j ks) (k ∷ without j ks)

-- The sequence, as the linked map has it.
abbrev pub sequence : List ℕ → Files ℕ
sequence ks = held (own ks)

pub find-sequence :
    (j : ℕ) (ks : List ℕ)
    → Dict.find ℕ_discrete j (sequence ks) ≡ (if contains j ks then some (some j) else none)
unfolding Dict.find
find-sequence j [] = refl
find-sequence j (k ∷ ks) = ground (arith, find-sequence j ks)

erase-sequence :
    (j : ℕ) (ks : List ℕ) → Dict.erase ℕ_discrete j (sequence ks) ≡ sequence (without j ks)
unfolding Dict.erase
erase-sequence j [] = refl
erase-sequence j (k ∷ ks) = ground (arith, erase-sequence j ks)

pub sequence-append :
    (j : ℕ) (ks : List ℕ) → sequence (ks ++ j ∷ []) ≡ sequence ks ++ (j, some j) ∷ []
sequence-append j [] = refl
sequence-append j (k ∷ ks) = ap (λ (l : Files ℕ). (k, some k) ∷ l) (sequence-append j ks)

-- The index becomes the last one.
abbrev pub touch : ℕ → List ℕ → List ℕ
touch j ks = without j ks ++ j ∷ []

pub contains-append :
    (j k : ℕ) (ks : List ℕ)
    → contains j (ks ++ k ∷ []) ≡ contains j ks || ite (ℕ_discrete k j) true false
contains-append j k [] = ground arith
contains-append j k (i ∷ ks) = ground (arith, contains-append j k ks)

contains-without :
    (j k : ℕ) (ks : List ℕ) → contains j (without k ks) ≡ ite (ℕ_discrete k j) false (contains j ks)
contains-without j k [] = ground arith
contains-without j k (i ∷ ks) = ground (arith, contains-without j k ks)

pub contains-touch :
    (j k : ℕ) (ks : List ℕ) → contains k ks ≡ true → contains j (touch k ks) ≡ contains j ks
contains-touch j k ks h =
    contains-append j k (without k ks) ∙ ground (arith, contains-without j k ks)

length-without : (k : ℕ) (ks : List ℕ) → length (without k ks) ≤ length ks
length-without k [] = omega arith
length-without k (i ∷ ks) = ground (arith, length-without k ks)

without-length :
    (k : ℕ) (ks : List ℕ) → contains k ks ≡ true → length (without k ks) + 1 ≤ length ks
without-length k [] h = absurd (cc)
without-length k (i ∷ ks) h = ground (arith, without-length k ks, length-without k ks)

pub length-touch : (k : ℕ) (ks : List ℕ) → contains k ks ≡ true → length (touch k ks) ≤ length ks
length-touch k ks h = omega (arith, length-append (without k ks) (k ∷ []), without-length k ks h)

-- `find()` on such a sequence.
pub spec_find-own :
    (k : ℕ) (ks : List ℕ)
    → spec_find k (sequence ks)
      ≡ (if contains k ks then ok (some k, sequence (touch k ks)) else ok (none, sequence ks))
spec_find-own k ks = elim (Bool-cases (contains k ks)) [
  | inl yes' ↦
      let found : (Dict.find ℕ_discrete k (sequence ks) ≡ some (some k)) =
        rw yes' at (find-sequence k ks) in
      rw (found, spec_find, yes', erase-sequence k ks, sequence-append k (without k ks)) refl
  | inr no' ↦
      let found : (Dict.find ℕ_discrete k (sequence ks) ≡ none) = rw no' at (find-sequence k ks) in
      rw (found, spec_find, no') refl
]

pub spec_add-own :
    (k : ℕ) (ks : List ℕ)
    → k ≢ 0
    → contains k ks ≡ false
    → spec_add k (some k) (sequence ks) ≡ ok (sequence (ks ++ k ∷ []))
spec_add-own k ks valid no' =
    let nonzero : ((k == 0) ≡ false) = ground arith in
    let found : (Dict.find ℕ_discrete k (sequence ks) ≡ none) = rw no' at (find-sequence k ks) in
    rw (nonzero, found, sequence-append k ks) refl

pub files-own : (n : ℕ) (ks : List ℕ) → files (take n (own ks)) ≡ take n ks
files-own zero ks = refl
files-own (suc n) [] = refl
files-own (suc n) (k ∷ ks) = ap (λ (l : List ℕ). k ∷ l) (files-own n ks)

pub drop-own : (n : ℕ) (ks : List ℕ) → held (drop n (own ks)) ≡ sequence (drop n ks)
drop-own zero ks = refl
drop-own (suc n) [] = refl
drop-own (suc n) (k ∷ ks) = drop-own n ks

pub length-own : (ks : List ℕ) → length (own ks) ≡ length ks
length-own [] = refl
length-own (k ∷ ks) = ap suc (length-own ks)

pub absent :
    (k : ℕ) (ks : List ℕ) → Dict.find ℕ_discrete k (sequence ks) ≡ none → contains k ks ≡ false
absent k ks h = elim (Bool-cases (contains k ks)) [
  | inl yes' ↦ let found = rw yes' at (find-sequence k ks) in absurd (cc)
  | inr no' ↦ no'
]

-- In a sequence without duplicates, what is dropped is not kept.
pub contains-drop :
    (j n : ℕ) (ks : List ℕ)
    → UniqueKeys ℕ_discrete (sequence ks)
    → contains j (drop n ks) ≡ (if contains j (take n ks) then false else contains j ks)
unfolding Dict.find
contains-drop j zero ks u = refl
contains-drop j (suc n) [] u = refl
contains-drop j (suc n) (k ∷ ks) (new, u) = elim (ℕ_discrete k j) [
  | yes same ↦ ground (arith, contains-drop j n ks u, absent k ks new)
  | no other ↦ ground (arith, contains-drop j n ks u)
]

pub absent-drop :
    (j n : ℕ) (ks : List ℕ)
    → UniqueKeys ℕ_discrete (sequence ks)
    → contains j ks ≡ false
    → contains j (drop n ks) ≡ false
absent-drop j n ks u h = ground (arith, contains-drop j n ks u, h)
