-- ===== src/P2p/Reassign.antt =====
-- How `SubP2pMgr` of main/p2p/P2pMgr.cpp uses its bookkeeper: `reassignPending()` and `stopped()`,
-- and the other calls that peers cause. A request that is sent to a peer is part of the result. What
-- the other peers do to the requests depends on their own threads, and is an argument.
pub mod Sets
pub mod OnePeer
pub mod Exclusive
pub mod Halted
pub mod Orphans
pub mod HandedOver
use hycast.Prelude.{
  ℕ, ◌≢◌, Bool, true, false, Option, none, some, List, [], ◌∷◌, ◌++◌, Error, logic_error, Result,
  ok, err, ◌>>=◌,
}
use hycast.Protocol.ChunkId.{ChunkId}
use hycast.P2p.SubBookkeeper.{
  SubBookkeeper, new, add, should_request, received, reset_counts, get_requested, pop_best_alt,
  requested, erase,
}

-- What `request()` of a peer does: it puts the chunk into the peer's queue of requests; the queue has
-- been closed and ignores it; or it throws, since the peer has been halted.
pub data Request : Type 0 where
  queues ignores throws : Request

-- The requests that a call makes of the peers, each for another chunk.
abbrev pub Requests : Type 0
Requests = ℕ → ChunkId → Request

-- a peer, and a chunk that is in its queue of requests
abbrev pub Sent : Type 0
Sent = List (ℕ × ChunkId)

-- What was sent, whether the call returns, and the state after it.
abbrev pub Outcome : Type 0
Outcome = Sent × Result (Unit {0}) × SubBookkeeper

-- the body of the loop of `reassignPending()`, after `popBestAlt()`
abbrev pub requested_of : Request → (alt_peer : ℕ) → ChunkId → SubBookkeeper → Outcome
requested_of queues alt_peer c b = ((alt_peer, c) ∷ [], ok tt, requested alt_peer c b)
requested_of ignores alt_peer c b = ([], ok tt, requested alt_peer c b)
requested_of throws alt_peer c b = ([], err logic_error, b)

unfoldable pub give_to : Requests → ChunkId → Option ℕ × SubBookkeeper → Outcome
give_to requests c (none, b) = ([], ok tt, b)
give_to requests c (some alt_peer, b) = requested_of (requests alt_peer c) alt_peer c b

abbrev pub then_go : (rest : SubBookkeeper → Outcome) → Outcome → Outcome
then_go rest (sent, err e, b) = (sent, err e, b)
then_go rest (sent, ok u, b) = let (more, end, final) = rest b in (sent ++ more, end, final)

-- the loop over the chunks of the stopped peer, which an exception leaves
unfoldable pub reassign : Requests → List ChunkId → SubBookkeeper → Outcome
unfolding give_to
reassign requests [] b = ([], ok tt, b)
reassign requests (c ∷ cs) b =
    then_go (reassign requests cs) (give_to requests c (pop_best_alt c b))

unfoldable pub reassign_pending : Requests → ℕ → SubBookkeeper → Outcome
reassign_pending requests peer b = elim (get_requested peer b) [
  | err e ↦ ([], err e, b)
  | ok cs ↦ reassign requests cs b
]

-- the end of `stopped()`
abbrev pub forget : ℕ → SubBookkeeper → Outcome
forget peer b = ([], ok tt, reset_counts (erase peer b))

-- `stopped()` of a manager that is not done, with the part of `resetImprovement()` that concerns the
-- bookkeeper. An exception leaves it before the peer is erased.
unfoldable pub stopped : Requests → ℕ → SubBookkeeper → Outcome
unfolding reassign_pending
stopped requests peer b = then_go (forget peer) (reassign_pending requests peer b)

-- What peers cause: a peer is added, or dropped because it could not be started; it offers a chunk,
-- delivers one, or stops; and a period of measurement ends.
pub data Call : Type 0 where
  adds drops : ℕ → Call
  stops : Requests → ℕ → Call
  offers delivers : ℕ → ChunkId → Call
  resets : Call

-- The state after a call that may throw, which then has changed nothing.
abbrev pub settle {ℓ} : {A : Type ℓ} → SubBookkeeper → Result (A × SubBookkeeper) → SubBookkeeper
settle b (ok (answer, after)) = after
settle b (err e) = b

unfoldable pub step : Call → SubBookkeeper → SubBookkeeper
step (adds peer) b = add peer b
step (drops peer) b = erase peer b
step (stops requests peer) b = (stopped requests peer b).2
step (offers peer c) b = settle b (should_request peer c b)
step (delivers peer c) b = settle b (received peer c b)
step resets b = reset_counts b

-- The state after some calls, from a given state, the latest call first.
unfoldable pub run : List Call → SubBookkeeper → SubBookkeeper
run [] b = b
run (c ∷ cs) b = step c (run cs b)

-- Where a peer stops, no request throws.
abbrev pub NoneHalted : Call → Type 0
NoneHalted (stops requests peer) = (a : ℕ) (c : ChunkId) → requests a c ≢ throws
NoneHalted call = Unit {0}
