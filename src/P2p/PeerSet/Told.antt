-- ===== src/P2p/PeerSet/Told.antt =====
-- The loop of `notify()` of main/p2p/PeerSet.cpp does not change what the peers' threads are at.
use hycast.Prelude.{
  ℕ, ◌≡◌, refl, Bool, none, some, [], ◌∷◌, arith, ℕ_discrete, Result, ok, err, inl, inr, Bool-cases,
}
use hycast.Prelude.Dict.{
  Dict, UniqueKeys, find-put, find-erase, length-put_present, length-put_absent, length-erase,
  put-UniqueKeys, erase-UniqueKeys,
}
use hycast.Prelude.Dict
use hycast.Protocol.ChunkId.{ChunkId}
use hycast.P2p.Peer.{Peer, notify}
use hycast.P2p.PeerSet.{Member, tell, Notified, notify_each}
use hycast.P2p.PeerSet.Counts.{Threads, count_off}

-- A notice changes no thread.
abbrev pub SameThreads : Threads → Threads → Type 0
SameThreads [] [] = Unit {0}
SameThreads [] (e ∷ d) = ⊥
SameThreads (e ∷ d) [] = ⊥
SameThreads ((k, m) ∷ d) ((k', m') ∷ d') = (k ≡ k') × (m.thread ≡ m'.thread) × SameThreads d d'

pub SameThreads-refl : (d : Threads) → SameThreads d d
SameThreads-refl [] = tt
SameThreads-refl ((k, m) ∷ d) = (refl, refl, SameThreads-refl d)

tell-SameThreads :
    (r : Result Peer) (k : ℕ) (m : Member) (d : Threads) (others : Notified)
    → SameThreads d others.1
    → SameThreads ((k, m) ∷ d) (tell r k m d others).1
tell-SameThreads (err e) k m d others h = (refl, refl, SameThreads-refl d)
tell-SameThreads (ok peer) k m d others h = (refl, refl, h)

pub notify_each-SameThreads :
    (skips : ℕ → Bool) (c : ChunkId) (d : Threads) → SameThreads d (notify_each skips c d).1
unfolding notify_each
notify_each-SameThreads skips c [] = tt
notify_each-SameThreads skips c ((k, m) ∷ d) =
    let others = notify_each skips c d in
    let same = notify_each-SameThreads skips c d in
    elim (Bool-cases (skips k)) [
      | inl skipped ↦ rw (skipped, notify_each) (refl, refl, same)
      | inr told ↦ rw (told, notify_each) (tell-SameThreads (notify c m.peer) k m d others same)
    ]

pub SameThreads-find :
    (d d' : Threads) (k : ℕ) (m : Member)
    → SameThreads d d'
    → Dict.find ℕ_discrete k d ≡ some m
    → (m' : Member) × (Dict.find ℕ_discrete k d' ≡ some m') × (m.thread ≡ m'.thread)
unfolding Dict.find
SameThreads-find [] d' k m h e = absurd (cc)
SameThreads-find (x ∷ d) [] k m h e = absurd h
SameThreads-find ((i, v) ∷ d) ((j, w) ∷ d') k m (same, at, h) e = elim (ℕ_discrete i k) [
  | yes here ↦ (w, ground arith, ground arith)
  | no there ↦
      let (m', found, same') = SameThreads-find d d' k m h (ground arith) in
      (m', ground arith, same')
]

pub SameThreads-absent :
    (d d' : Threads) (k : ℕ)
    → SameThreads d d'
    → Dict.find ℕ_discrete k d ≡ none
    → Dict.find ℕ_discrete k d' ≡ none
unfolding Dict.find
SameThreads-absent [] [] k h e = refl
SameThreads-absent [] (x ∷ d') k h e = absurd h
SameThreads-absent (x ∷ d) [] k h e = refl
SameThreads-absent ((i, v) ∷ d) ((j, w) ∷ d') k (same, at, h) e =
    ground (arith, SameThreads-absent d d' k h)

pub SameThreads-UniqueKeys :
    (d d' : Threads) → SameThreads d d' → UniqueKeys ℕ_discrete d → UniqueKeys ℕ_discrete d'
SameThreads-UniqueKeys [] [] h u = tt
SameThreads-UniqueKeys [] (x ∷ d') h u = absurd h
SameThreads-UniqueKeys (x ∷ d) [] h u = tt
SameThreads-UniqueKeys ((i, v) ∷ d) ((j, w) ∷ d') (same, at, h) (fresh, u) =
    (SameThreads-absent d d' j h (rw same at fresh), SameThreads-UniqueKeys d d' h u)

pub SameThreads-count : (d d' : Threads) → SameThreads d d' → count_off d ≡ count_off d'
SameThreads-count [] [] h = refl
SameThreads-count [] (x ∷ d') h = absurd h
SameThreads-count (x ∷ d) [] h = absurd h
SameThreads-count ((i, v) ∷ d) ((j, w) ∷ d') (same, at, h) =
    let rest = SameThreads-count d d' h in ground (arith, rest)
