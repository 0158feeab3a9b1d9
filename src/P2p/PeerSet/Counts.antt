-- ===== src/P2p/PeerSet/Counts.antt =====
-- Which threads of the peers of main/p2p/PeerSet.cpp have put their peer among the inactive ones.
use hycast.Prelude.{
  ℕ, ◌+◌, ◌≡◌, ◌≢◌, refl, sym, ◌∙◌, none, some, List, [], ◌∷◌, ◌++◌, arith, length, ℕ_discrete, All,
}
use hycast.Prelude.Dict.{
  Dict, UniqueKeys, find-put, find-erase, length-put_present, length-put_absent, length-erase,
  put-UniqueKeys, erase-UniqueKeys,
}
use hycast.Prelude.Dict
use hycast.P2p.PeerSet.{deactivated, Member, PeerSet, new}

abbrev pub Threads : Type 0
Threads = Dict ℕ Member

-- How many threads have put their peer among the inactive ones.
abbrev pub off : Member → ℕ
off m = elim (m.thread) [ deactivated ↦ 1 | _ ↦ 0 ]

abbrev pub count_off : Threads → ℕ
count_off [] = 0
count_off ((k, m) ∷ d) = off m + count_off d

-- How many threads execute their peer, or were ended by an exception.
abbrev pub count_on : Threads → ℕ
count_on [] = 0
count_on ((k, m) ∷ d) = elim (m.thread) [ deactivated ↦ count_on d | _ ↦ count_on d + 1 ]

pub count_on-add-off : (d : Threads) → count_on d + count_off d ≡ length d
count_on-add-off [] = refl
count_on-add-off ((k, m) ∷ d) = ground (arith, count_on-add-off d)

pub count_off-put_present :
    (k : ℕ) (v w : Member) (d : Threads)
    → Dict.find ℕ_discrete k d ≡ some v
    → count_off (Dict.put ℕ_discrete k w d) + off v ≡ count_off d + off w
unfolding Dict.find Dict.put
count_off-put_present k v w [] h = cc
count_off-put_present k v w ((i, u) ∷ d) h = ground (arith, count_off-put_present k v w d)

pub count_off-put_absent :
    (k : ℕ) (w : Member) (d : Threads)
    → Dict.find ℕ_discrete k d ≡ none
    → count_off (Dict.put ℕ_discrete k w d) ≡ count_off d + off w
unfolding Dict.find Dict.put
count_off-put_absent k w [] h = omega arith
count_off-put_absent k w ((i, u) ∷ d) h = ground (arith, count_off-put_absent k w d)

pub count_off-erase :
    (k : ℕ) (v : Member) (d : Threads)
    → UniqueKeys ℕ_discrete d
    → Dict.find ℕ_discrete k d ≡ some v
    → count_off (Dict.erase ℕ_discrete k d) + off v ≡ count_off d
unfolding Dict.find Dict.erase
count_off-erase k v [] u h = cc
count_off-erase k v ((i, w) ∷ d) u h =
    ground (arith, count_off-erase k v d u.1, Dict.erase_absent ℕ_discrete k d)

-- The thread of a peer has put it among the inactive ones.
abbrev pub Deactivated : Threads → ℕ → Type 0
Deactivated d k = (m : Member) × (Dict.find ℕ_discrete k d ≡ some m) × (m.thread ≡ deactivated)

abbrev pub Distinct : List ℕ → Type 0
Distinct [] = Unit
Distinct (k ∷ ks) = All (λ j. j ≢ k) ks × Distinct ks

pub record Inv (s : PeerSet) : Type 0 where
  pub unique : UniqueKeys ℕ_discrete s.threads
  pub listed : All (Deactivated s.threads) s.inactive_peers
  pub distinct : Distinct s.inactive_peers
  pub counted : length s.inactive_peers ≡ count_off s.threads

pub new-Inv : Inv new
unfolding new
new-Inv = record { unique = tt; listed = tt; distinct = tt; counted = refl }

-- A write keeps that of every key whose thread stays as it is.
pub Deactivated-put :
    (k : ℕ) (v w : Member) (d : Threads)
    → Dict.find ℕ_discrete k d ≡ some v
    → (v.thread ≡ deactivated → w.thread ≡ deactivated)
    → (j : ℕ) → Deactivated d j
    → Deactivated (Dict.put ℕ_discrete k w d) j
Deactivated-put k v w d at_k keeps j (m, found, off) = elim (ℕ_discrete k j) [
  | yes same ↦
      let one : (some v ≡ some m) = sym at_k ∙ rw same found in
      (w, rw (find-put ℕ_discrete k j w d) (ground arith), keeps (ground arith))
  | no other ↦ (m, rw (find-put ℕ_discrete k j w d) (ground arith), off)
]

pub Deactivated-put_absent :
    (k : ℕ) (w : Member) (d : Threads)
    → Dict.find ℕ_discrete k d ≡ none
    → (j : ℕ) → Deactivated d j
    → Deactivated (Dict.put ℕ_discrete k w d) j
Deactivated-put_absent k w d absent j (m, found, off) = elim (ℕ_discrete k j) [
  | yes same ↦ absurd (cc (rw same at absent, found))
  | no other ↦ (m, rw (find-put ℕ_discrete k j w d) (ground arith), off)
]

pub All-listed :
    (d d' : Threads)
    → ((j : ℕ) → Deactivated d j → Deactivated d' j)
    → (ks : List ℕ) → All (Deactivated d) ks
    → All (Deactivated d') ks
All-listed d d' f [] h = tt
All-listed d d' f (k ∷ ks) (h, hs) = (f k h, All-listed d d' f ks hs)

-- The peer of a thread that executes is not among the inactive ones.
pub not_listed :
    (k : ℕ) (v : Member) (d : Threads)
    → Dict.find ℕ_discrete k d ≡ some v
    → v.thread ≢ deactivated
    → (ks : List ℕ) → All (Deactivated d) ks
    → All (λ j. j ≢ k) ks
not_listed k v d found on [] h = tt
not_listed k v d found on (j ∷ ks) ((m, at_j, off), hs) =
    (λ same. on (ground (arith, rw same at at_j)), not_listed k v d found on ks hs)

pub Distinct-append :
    (k : ℕ) (ks : List ℕ) → All (λ j. j ≢ k) ks → Distinct ks → Distinct (ks ++ k ∷ [])
Distinct-append k [] h d = (tt, tt)
Distinct-append k (j ∷ ks) (h, hs) (apart, d) = (apart_append ks apart, Distinct-append k ks hs d)
  where
    apart_append : (l : List ℕ) → All (λ i. i ≢ j) l → All (λ i. i ≢ j) (l ++ k ∷ [])
    apart_append [] a = (λ e. h (sym e), tt)
    apart_append (i ∷ l) (a, others) = (a, apart_append l others)
