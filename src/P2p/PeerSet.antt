-- ===== src/P2p/PeerSet.antt =====
-- `PeerSet::Impl` of main/p2p/PeerSet.cpp: the peers that run on threads of their own, and the thread
-- that reaps those that have ended. Each section under the mutex is one function. A peer is known by a
-- number, and the entry of its thread stands with the peer itself.
pub mod Counts
pub mod Told
pub mod Reaper
pub mod Crashed
pub mod Notices
pub mod Locks
use hycast.Prelude.{
  ℕ, ◌-◌, ◌≡◌, ◌≢◌, Bool, true, false, not, ◌&&◌, Option, none, some, List, [], ◌∷◌, ◌++◌, ◌==◌,
  if◌then◌else◌, length, ℕ_discrete, Result, ok, err, logic_error,
}
use hycast.Prelude.Dict.{Dict}
use hycast.Prelude.Dict
use hycast.Protocol.ChunkId.{ChunkId}
use hycast.P2p.Peer.{
  Peer, Run, waits, returns, throws, notify, run, set_done, stop_tasks, handle_exception,
}

-- What a peer's thread is at: it executes the peer; it has put the peer among the inactive ones; or an
-- exception has ended it.
pub data Thread : Type 0 where
  executes deactivated crashed : Thread

pub record Member : Type 0 where
  pub peer : Peer
  pub thread : Thread

pub record PeerSet : Type 0 where
  pub done : Bool
  pub threads : Dict ℕ Member
  pub inactive_peers : List ℕ

unfoldable pub new : PeerSet
new = record { done = false; threads = []; inactive_peers = [] }

-- `activate()`
unfoldable pub activate : (key : ℕ) → Peer → PeerSet → Result PeerSet
activate key peer s = elim (Dict.find ℕ_discrete key s.threads) [
  | some m ↦ err logic_error
  | none ↦ ok (record s {
    threads = Dict.put ℕ_discrete key (record { peer = peer; thread = executes }) s.threads;
  })
]

-- `size()`, a difference of numbers of 64 bits
unfoldable pub size : PeerSet → ℕ
size s = length s.threads - length s.inactive_peers

-- `execute()` once the peer's `operator()` has ended, which closes the peer's queues, up to the call of the manager's `stopped()`; it
-- is made exactly where the answer is true. Where the peer throws, the exception is logged.
abbrev pub ended : Run → (key : ℕ) → Member → PeerSet → Bool × PeerSet
ended waits key m s = (false, s)
ended returns key m s = (
  true,
  record s {
    threads =
        Dict.put ℕ_discrete key (record { peer = stop_tasks m.peer; thread = deactivated })
          s.threads;
    inactive_peers = s.inactive_peers ++ key ∷ [];
  },
)
ended throws key m s = (
  false,
  record s {
    threads =
        Dict.put ℕ_discrete key (record { peer = stop_tasks m.peer; thread = crashed }) s.threads;
  },
)

unfoldable pub executed : (key : ℕ) → Member → PeerSet → Bool × PeerSet
executed key m s = ended (run m.peer) key m s

-- One round of `reapPeers()`; `none` for its assertion.
unfoldable pub reap : PeerSet → Option PeerSet
reap s = elim s.inactive_peers [
  | [] ↦ some s
  | key ∷ keys ↦ elim (Dict.find ℕ_discrete key s.threads) [
    | none ↦ none
    | some m ↦
        some (record s { threads = Dict.erase ℕ_discrete key s.threads; inactive_peers = keys })
  ]
]

-- A change of a peer by its own threads or by a call of `halt()`.
unfoldable pub change : (key : ℕ) → (Peer → Peer) → Member → PeerSet → PeerSet
change key act m s = record s {
  threads = Dict.put ℕ_discrete key (record m { peer = act m.peer }) s.threads;
}

-- The loop of `notify()`: an exception leaves it.
abbrev pub Notified : Type 0
Notified = Result (Unit {0}) × Dict ℕ Member

abbrev pub tell : Result Peer → (key : ℕ) → Member → (rest : Dict ℕ Member) → Notified → Notified
tell (err e) key m rest others = (err e, (key, m) ∷ rest)
tell (ok peer) key m rest (answer, others) = (answer, (key, record m { peer = peer }) ∷ others)

abbrev pub skip : (key : ℕ) → Member → Notified → Notified
skip key m (answer, others) = (answer, (key, m) ∷ others)

unfoldable pub notify_each : (skips : ℕ → Bool) → ChunkId → Dict ℕ Member → Notified
notify_each skips c [] = (ok tt, [])
notify_each skips c ((key, m) ∷ rest) =
    let others = notify_each skips c rest in
    if skips key then skip key m others else tell (notify c m.peer) key m rest others

-- `notify()` of all peers, and of all but one
unfoldable pub notify_all : ChunkId → PeerSet → Result (Unit {0}) × PeerSet
unfolding notify_each
notify_all c s =
    let (answer, threads) = notify_each (λ key. false) c s.threads in
    (answer, record s { threads = threads })

unfoldable pub notify_others : ChunkId → (not_peer : ℕ) → PeerSet → Result (Unit {0}) × PeerSet
unfolding notify_each
notify_others c not_peer s =
    let (answer, threads) = notify_each (λ key. key == not_peer) c s.threads in
    (answer, record s { threads = threads })

-- What can happen: a peer is activated, halts, fails, closes its queues, or ends; one is reaped; a chunk is announced.
pub data Step (s : PeerSet) : PeerSet → Type 0 where
  activates : (key : ℕ) (peer : Peer) (t : PeerSet) → activate key peer s ≡ ok t → Step s t
  ends :
      (key : ℕ) (m : Member)
      → Dict.find ℕ_discrete key s.threads ≡ some m
      → m.thread ≡ executes
      → Step s (executed key m s).1
  halts :
      (key : ℕ) (m : Member)
      → Dict.find ℕ_discrete key s.threads ≡ some m
      → Step s (change key set_done m s)
  fails :
      (key : ℕ) (m : Member)
      → Dict.find ℕ_discrete key s.threads ≡ some m
      → m.thread ≡ executes
      → Step s (change key handle_exception m s)
  closes :
      (key : ℕ) (m : Member)
      → Dict.find ℕ_discrete key s.threads ≡ some m
      → m.thread ≡ executes
      → run m.peer ≢ waits
      → Step s (change key stop_tasks m s)
  reaps : (t : PeerSet) → reap s ≡ some t → Step s t
  announces : (c : ChunkId) → Step s (notify_all c s).1
  forwards : (c : ChunkId) (not_peer : ℕ) → Step s (notify_others c not_peer s).1

pub data Reach (s : PeerSet) : PeerSet → Type 0 where
  starts : Reach s s
  goes : {t u : PeerSet} → Reach s t → Step t u → Reach s u
