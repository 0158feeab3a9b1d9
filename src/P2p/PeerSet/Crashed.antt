-- ===== src/P2p/PeerSet/Crashed.antt =====
-- A peer of main/p2p/PeerSet.cpp that has ended with an exception.
use hycast.Prelude.{
  ℕ, ◌≤◌, ◌≡◌, ◌≢◌, refl, sym, ap, ◌∙◌, if_pos, Bool, false, some, List, [], ◌∷◌, arith, ℕ_discrete,
  ok, Option-cases, inl, inr, ◌==◌,
}
use hycast.Prelude.Dict.{
  Dict, UniqueKeys, find-put, find-erase, length-put_present, length-put_absent, length-erase,
  put-UniqueKeys, erase-UniqueKeys,
}
use hycast.Prelude.Dict
use hycast.Protocol.ChunkId.{ChunkId}
use hycast.P2p.Peer.{Peer, Run, waits, returns, throws, run, set_done, stop_tasks, handle_exception}
use hycast.P2p.PeerSet.{
  executes, deactivated, crashed, Member, PeerSet, new, activate, size, executed, ended, reap,
  change, notify_each, notify_all, notify_others, Step, activates, ends, halts, fails, closes,
  reaps, announces, forwards, Reach, starts, goes,
}
use hycast.P2p.PeerSet.Counts.{Threads, off, count_on, count_on-add-off, Inv, new-Inv}
use hycast.P2p.PeerSet.Told.{notify_each-SameThreads, SameThreads-find}
use hycast.P2p.PeerSet.Reaper.{Step-Inv, Reach-Inv}

-- The entry of a peer whose thread an exception has ended.
abbrev pub Crashed : PeerSet → ℕ → Type 0
Crashed s k = (m : Member) × (Dict.find ℕ_discrete k s.threads ≡ some m) × (m.thread ≡ crashed)

-- A write to another entry, or one that keeps what the thread is at.
Crashed-put :
    (k j : ℕ) (v w : Member) (s : PeerSet)
    → Dict.find ℕ_discrete k s.threads ≡ some v
    → (v.thread ≡ crashed → w.thread ≡ crashed)
    → Crashed s j
    → Crashed (record s { threads = Dict.put ℕ_discrete k w s.threads }) j
Crashed-put k j v w s found keeps (m, at_j, is_crashed) = elim (ℕ_discrete k j) [
  | yes same ↦
      let one : (some v ≡ some m) = sym found ∙ rw same at_j in
      (w, rw (find-put ℕ_discrete k j w s.threads) (ground arith), keeps (ground arith))
  | no other ↦ (m, rw (find-put ℕ_discrete k j w s.threads) (ground arith), is_crashed)
]

Crashed-ended :
    (r : Run) (key j : ℕ) (m : Member) (s : PeerSet)
    → Dict.find ℕ_discrete key s.threads ≡ some m
    → m.thread ≡ executes
    → Crashed s j
    → Crashed (ended r key m s).1 j
Crashed-ended waits key j m s found on c = c
Crashed-ended returns key j m s found on c =
    Crashed-put key j m (record { peer = stop_tasks m.peer; thread = deactivated }) s found
      (λ is. absurd (cc)) c
Crashed-ended throws key j m s found on c =
    Crashed-put key j m (record { peer = stop_tasks m.peer; thread = crashed }) s found (λ is. refl)
      c

Crashed-activate :
    (key j : ℕ) (peer : Peer) (s t : PeerSet)
    → activate key peer s ≡ ok t
    → Crashed s j
    → Crashed t j
unfolding activate
Crashed-activate key j peer s t e (m, at_j, is_crashed) =
    elim (Option-cases (Dict.find ℕ_discrete key s.threads)) [
      | inr (v, found) ↦ absurd (cc (rw (found, activate) at e))
      | inl absent ↦
          let w : Member = record { peer = peer; thread = executes } in
          let more : PeerSet = record s { threads = Dict.put ℕ_discrete key w s.threads } in
          let same : (more ≡ t) = ground (arith, rw (absent, activate) at e) in
          let other : (key ≢ j) = λ here. cc (rw here at absent, at_j) in
          let after : Crashed more j =
            (m, rw (find-put ℕ_discrete key j w s.threads) (ground arith), is_crashed) in
          rw (← same) after
    ]

-- The thread that is reaped is another one.
Crashed-reap :
    (done : Bool) (d : Threads) (keys : List ℕ) (j : ℕ) (t : PeerSet)
    → let s : PeerSet = record { done = done; threads = d; inactive_peers = keys } in
      reap s ≡ some t → Inv s → Crashed s j → Crashed t j
unfolding reap
Crashed-reap done d [] j t e i (m, at_j, is_crashed) = (m, ground arith, is_crashed)
Crashed-reap done d (k ∷ ks) j t e i (m, at_j, is_crashed) =
    let ((v, found, off), rest) = i.listed in
    let other : (k ≢ j) = λ same. cc (rw same at found, at_j, off, is_crashed) in
    let u : PeerSet = record {
      done = done;
      threads = Dict.erase ℕ_discrete k d;
      inactive_peers = ks;
    } in
    let same : (u ≡ t) = ground (arith, rw (found, reap) at e) in
    let after : Crashed u j = (m, rw (find-erase ℕ_discrete k j d) (ground arith), is_crashed) in
    rw (← same) after

Crashed-told :
    (s : PeerSet) (skips : ℕ → Bool) (c : ChunkId) (j : ℕ)
    → Crashed s j
    → Crashed (record s { threads = (notify_each skips c s.threads).1 }) j
Crashed-told s skips c j (m, at_j, is_crashed) =
    let same = notify_each-SameThreads skips c s.threads in
    let (m', found, at) =
      SameThreads-find s.threads (notify_each skips c s.threads).1 j m same at_j in
    (m', found, sym at ∙ is_crashed)

Crashed-Step : {s t : PeerSet} (j : ℕ) → Step s t → Inv s → Crashed s j → Crashed t j
unfolding executed change notify_all notify_others
Crashed-Step {s} j (activates key peer t e) i c = Crashed-activate key j peer s t e c
Crashed-Step {s} j (ends key m found on) i c = Crashed-ended (run m.peer) key j m s found on c
Crashed-Step {s} j (halts key m found) i c =
    Crashed-put key j m (record m { peer = set_done m.peer }) s found (λ is. is) c
Crashed-Step {s} j (fails key m found on) i c =
    Crashed-put key j m (record m { peer = handle_exception m.peer }) s found (λ is. is) c
Crashed-Step {s} j (closes key m found on stopping) i c =
    Crashed-put key j m (record m { peer = stop_tasks m.peer }) s found (λ is. is) c
Crashed-Step {s} j (reaps t e) i c = Crashed-reap s.done s.threads s.inactive_peers j t e i c
Crashed-Step {s} j (announces id) i c = Crashed-told s (λ key. false) id j c
Crashed-Step {s} j (forwards id not_peer) i c = Crashed-told s (λ key. key == not_peer) id j c

Crashed-Reach : {s t : PeerSet} (j : ℕ) → Reach s t → Inv s → Crashed s j → Inv t × Crashed t j
Crashed-Reach j starts i c = (i, c)
Crashed-Reach j (goes r step) i c =
    let (i', c') = Crashed-Reach j r i c in (Step-Inv step i', Crashed-Step j step i' c')

count_on-pos :
    (d : Threads) (k : ℕ) (m : Member)
    → Dict.find ℕ_discrete k d ≡ some m
    → m.thread ≡ crashed
    → 1 ≤ count_on d
unfolding Dict.find
count_on-pos [] k m e c = absurd (cc)
count_on-pos ((i, v) ∷ d) k m e c = ground (arith, count_on-pos d k m)

-- Suppose that in a state that a new set has come to, the `operator()` of a peer ends with an
-- exception. Then the manager is not told that the peer has stopped; and in every later state the
-- entry of the peer's thread is still there, and `size()` is at least 1, since it counts the peer.
pub failure_keeps_place :
    {s t : PeerSet} (key : ℕ) (m : Member)
    → Reach new s
    → Dict.find ℕ_discrete key s.threads ≡ some m
    → m.thread ≡ executes
    → run m.peer ≡ throws
    → Reach (executed key m s).1 t
    → ((executed key m s).0 ≡ false) × Crashed t key × (1 ≤ size t)
unfolding executed size
failure_keeps_place {s} {t} key m from found on fails_now later =
    let i = Reach-Inv from new-Inv in
    let w : Member = record { peer = stop_tasks m.peer; thread = crashed } in
    let after : PeerSet = record s { threads = Dict.put ℕ_discrete key w s.threads } in
    let here : ((executed key m s) ≡ (false, after)) = rw (fails_now, executed) refl in
    let ended_here : Inv after =
      rw (ap (λ (p : Bool × PeerSet). p.1) here) at (Step-Inv (ends key m found on) i) in
    let mine : Crashed after key = (
      w,
      rw (find-put ℕ_discrete key key w s.threads) (if_pos (ℕ_discrete key key) refl _ _),
      refl,
    ) in
    let rest : Reach after t = rw (ap (λ (p : Bool × PeerSet). p.1) here) at later in
    let (j, still) = Crashed-Reach key rest ended_here mine in
    let (v, at_key, is_crashed) = still in
    (
      ap (λ (p : Bool × PeerSet). p.0) here,
      still,
      omega (
        arith,
        j.counted,
        count_on-add-off t.threads,
        count_on-pos t.threads key v at_key is_crashed,
      ),
    )
