-- ===== src/P2p/PeerSet/Reaper.antt =====
-- What the reaping thread of main/p2p/PeerSet.cpp finds, and what `size()` counts.
use hycast.Prelude.{
  ℕ, ◌≤◌, ◌≡◌, ◌≢◌, refl, sym, ◌∙◌, if_pos, if_neg, Bool, false, none, some, List, [], ◌∷◌, arith,
  length, ℕ_discrete, ok, All, Option-cases, inl, inr, ◌==◌, length-append, All-append,
}
use hycast.Prelude.Dict.{
  Dict, UniqueKeys, find-put, find-erase, length-put_present, length-put_absent, length-erase,
  put-UniqueKeys, erase-UniqueKeys,
}
use hycast.Prelude.Dict
use hycast.P2p.Peer.{Peer, Run, waits, returns, throws, run, set_done, stop_tasks, handle_exception}
use hycast.P2p.PeerSet.{
  executes, deactivated, crashed, Member, PeerSet, new, activate, size, executed, ended, reap,
  change, notify_all, notify_others, Step, activates, ends, halts, fails, closes, reaps, announces,
  forwards, Reach, starts, goes,
}
use hycast.P2p.PeerSet.Counts.{
  Threads, off, count_on, count_on-add-off, count_off-put_present, count_off-put_absent,
  count_off-erase, Deactivated, Inv, new-Inv, Deactivated-put, Deactivated-put_absent, All-listed,
  not_listed, Distinct-append,
}
use hycast.P2p.PeerSet.Told.{
  SameThreads, notify_each-SameThreads, SameThreads-find, SameThreads-UniqueKeys, SameThreads-count,
}

-- A write to a thread's entry that leaves what the thread is at.
rewritten-Inv :
    (key : ℕ) (v w : Member) (s : PeerSet)
    → Dict.find ℕ_discrete key s.threads ≡ some v
    → (v.thread ≡ deactivated → w.thread ≡ deactivated)
    → off v ≡ off w
    → Inv s
    → Inv (record s { threads = Dict.put ℕ_discrete key w s.threads })
rewritten-Inv key v w s found keeps same i = record {
  unique = put-UniqueKeys ℕ_discrete key w s.threads i.unique;
  listed =
      All-listed s.threads (Dict.put ℕ_discrete key w s.threads)
        (Deactivated-put key v w s.threads found keeps) s.inactive_peers i.listed;
  distinct = i.distinct;
  counted = omega (arith, i.counted, count_off-put_present key v w s.threads found);
}

activate-Inv : (key : ℕ) (peer : Peer) (s t : PeerSet) → activate key peer s ≡ ok t → Inv s → Inv t
unfolding activate
activate-Inv key peer s t e i = elim (Option-cases (Dict.find ℕ_discrete key s.threads)) [
  | inr (m, found) ↦ absurd (cc (rw (found, activate) at e))
  | inl absent ↦
      let w : Member = record { peer = peer; thread = executes } in
      let more : PeerSet = record s { threads = Dict.put ℕ_discrete key w s.threads } in
      let same : (more ≡ t) = ground (arith, rw (absent, activate) at e) in
      let i' : Inv more = record {
        unique = put-UniqueKeys ℕ_discrete key w s.threads i.unique;
        listed =
            All-listed s.threads more.threads (Deactivated-put_absent key w s.threads absent)
              s.inactive_peers i.listed;
        distinct = i.distinct;
        counted = omega (arith, i.counted, count_off-put_absent key w s.threads absent);
      } in
      rw (← same) i'
]

ended-Inv :
    (r : Run) (key : ℕ) (m : Member) (s : PeerSet)
    → Dict.find ℕ_discrete key s.threads ≡ some m
    → m.thread ≡ executes
    → Inv s
    → Inv (ended r key m s).1
ended-Inv waits key m s found on i = i
ended-Inv throws key m s found on i =
    rewritten-Inv key m (record { peer = stop_tasks m.peer; thread = crashed }) s found
      (λ off. absurd (cc)) (rw on refl) i
ended-Inv returns key m s found on i =
    let w : Member = record { peer = stop_tasks m.peer; thread = deactivated } in
    let after = Dict.put ℕ_discrete key w s.threads in
    record {
      unique = put-UniqueKeys ℕ_discrete key w s.threads i.unique;
      listed =
          All-append (Deactivated after) s.inactive_peers (key ∷ [])
            (All-listed s.threads after (Deactivated-put key m w s.threads found (λ off. refl))
              s.inactive_peers i.listed)
            (
              (
                w,
                rw (find-put ℕ_discrete key key w s.threads) (if_pos (ℕ_discrete key key) refl _ _),
                refl,
              ),
              tt,
            );
      distinct =
          Distinct-append key s.inactive_peers
            (not_listed key m s.threads found (λ off. cc) s.inactive_peers i.listed) i.distinct;
      counted = ground (
        arith,
        i.counted,
        count_off-put_present key m w s.threads found,
        length-append s.inactive_peers (key ∷ []),
      );
    }

others_listed :
    (k : ℕ) (d : Threads) (ks : List ℕ)
    → All (Deactivated d) ks
    → All (λ j. j ≢ k) ks
    → All (Deactivated (Dict.erase ℕ_discrete k d)) ks
others_listed k d [] h apart = tt
others_listed k d (j ∷ ks) ((m, found, off), hs) (ne, apart) = (
  (
    m,
    rw
        (
          find-erase ℕ_discrete k j d,
          if_neg (ℕ_discrete k j) (λ e. ne (sym e)) none (Dict.find ℕ_discrete j d),
        )
        found,
    off,
  ),
  others_listed k d ks hs apart,
)

-- The front of the inactive peers is found, and its entry goes.
reap_keys-Inv :
    (done : Bool) (d : Threads) (keys : List ℕ)
    → let s : PeerSet = record { done = done; threads = d; inactive_peers = keys } in
      Inv s → (t : PeerSet) × (reap s ≡ some t) × Inv t
unfolding reap
reap_keys-Inv done d [] i = (_, refl, i)
reap_keys-Inv done d (k ∷ ks) i =
    let ((m, found, off), rest) = i.listed in
    let t : PeerSet = record {
      done = done;
      threads = Dict.erase ℕ_discrete k d;
      inactive_peers = ks;
    } in
    (
      t,
      rw (found, reap) refl,
      record {
        unique = erase-UniqueKeys ℕ_discrete k d i.unique;
        listed = others_listed k d ks rest i.distinct.0;
        distinct = i.distinct.1;
        counted = ground (arith, i.counted, count_off-erase k m d i.unique found);
      },
    )

reap-Inv : (s : PeerSet) → Inv s → (t : PeerSet) × (reap s ≡ some t) × Inv t
reap-Inv s i = reap_keys-Inv s.done s.threads s.inactive_peers i

notified-Inv :
    (s : PeerSet) (d' : Threads)
    → SameThreads s.threads d'
    → Inv s
    → Inv (record s { threads = d' })
notified-Inv s d' same i = record {
  unique = SameThreads-UniqueKeys s.threads d' same i.unique;
  listed =
      All-listed s.threads d'
        (λ j (m, found, off).
          let (m', found', at) = SameThreads-find s.threads d' j m same found in
          (m', found', sym at ∙ off))
        s.inactive_peers i.listed;
  distinct = i.distinct;
  counted = i.counted ∙ SameThreads-count s.threads d' same;
}

pub Step-Inv : {s t : PeerSet} → Step s t → Inv s → Inv t
unfolding executed change notify_all notify_others
Step-Inv {s} (activates key peer t e) i = activate-Inv key peer s t e i
Step-Inv {s} (ends key m found on) i = ended-Inv (run m.peer) key m s found on i
Step-Inv {s} (halts key m found) i =
    rewritten-Inv key m (record m { peer = set_done m.peer }) s found (λ off. off) refl i
Step-Inv {s} (fails key m found on) i =
    rewritten-Inv key m (record m { peer = handle_exception m.peer }) s found (λ off. off) refl i
Step-Inv {s} (closes key m found on stopping) i =
    rewritten-Inv key m (record m { peer = stop_tasks m.peer }) s found (λ off. off) refl i
Step-Inv {s} (reaps t e) i =
    let (u, done, after) = reap-Inv s i in let same : (u ≡ t) = cc (done, e) in rw (← same) after
Step-Inv {s} (announces c) i =
    notified-Inv s _ (notify_each-SameThreads (λ key. false) c s.threads) i
Step-Inv {s} (forwards c not_peer) i =
    notified-Inv s _ (notify_each-SameThreads (λ key. key == not_peer) c s.threads) i

pub Reach-Inv : {s t : PeerSet} → Reach s t → Inv s → Inv t
Reach-Inv starts i = i
Reach-Inv (goes r step) i = Step-Inv step (Reach-Inv r i)

-- Whatever the peers of a new set do, and whoever halts them and announces chunks to them, in any
-- order: there are never more inactive peers than entries of threads; what `size()` returns is the
-- number of threads that execute their peer or were ended by an exception; and the assertion of the
-- reaping thread, that a peer that it takes from the queue has an entry, never fails.
pub size-counts :
    {s : PeerSet}
    → Reach new s
    → (length s.inactive_peers ≤ length s.threads) × (size s ≡ count_on s.threads) × (reap s ≢ none)
unfolding size
size-counts {s} r =
    let i = Reach-Inv r new-Inv in
    let (t, done, after) = reap-Inv s i in
    let both = count_on-add-off s.threads in
    (omega (arith, i.counted), omega (arith, i.counted), λ e. cc (done, e))
