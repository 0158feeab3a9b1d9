-- ===== src/P2p/Peer.antt =====
-- `Peer::Impl` and `SubPeer` of main/p2p/Peer.cpp: the state of a peer that a subscriber has, and the
-- methods that change it. What its connection to the remote peer sends is Protocol/PeerProto.
use hycast.Prelude.{
  ℕ, ◌≡◌, refl, Bool, true, false, not, List, [], ◌∷◌, arith, ◌==◌, if◌then◌else◌, Result, ok, err,
  logic_error,
}
use hycast.Protocol.ChunkId.{ChunkId}
use hycast.Protocol.PeerProto.Connect.{publisher, no_path_to_publisher}
use hycast.P2p.ChunkIdQueue.{ChunkIdQueue, push, close}
use hycast.P2p.ChunkIdQueue

-- `failed` is whether an exception has been kept in `exceptPtr`.
pub record Peer : Type 0 where
  pub rmt_node_type : ℕ
  pub from_connect : Bool
  pub rmt_has_path_to_pub : Bool
  pub done : Bool
  pub failed : Bool
  pub notice_queue : ChunkIdQueue
  pub request_queue : ChunkIdQueue

-- The constructors. The flag is made from the number of the remote node's type.
unfoldable pub new : (from_connect : Bool) → (rmt_node_type : ℕ) → Peer
new from_connect rmt_node_type = record {
  rmt_node_type = rmt_node_type;
  from_connect = from_connect;
  rmt_has_path_to_pub = not (rmt_node_type == 0);
  done = false;
  failed = false;
  notice_queue = ChunkIdQueue.new;
  request_queue = ChunkIdQueue.new;
}

-- `setDone()`, and `halt()`
unfoldable pub set_done : Peer → Peer
set_done p = record p { done = true }

-- `handleException()`
unfoldable pub handle_exception : Peer → Peer
handle_exception p = if p.failed then p else record p { failed = true }

-- `notify()` of `Peer::Impl`, which is what `Peer::notify()` calls: it is not virtual, so that the
-- `notify()` of `SubPeer` never runs. A closed queue ignores the chunk.
unfoldable pub notify : ChunkId → Peer → Result Peer
notify c p =
    if p.done then err logic_error else ok (record p { notice_queue = push c p.notice_queue })

-- What `stopTasks()` does to the queues.
unfoldable pub stop_tasks : Peer → Peer
stop_tasks p = record p {
  notice_queue = close p.notice_queue;
  request_queue = close p.request_queue;
}

-- `request()` of `SubPeer`
unfoldable pub request : ChunkId → Peer → Result Peer
request c p =
    if p.done then err logic_error else ok (record p { request_queue = push c p.request_queue })

-- `pathToPub()` and `noPathToPub()`; whether the manager is told
unfoldable pub path_to_pub : Peer → Bool × Peer
path_to_pub p =
    if p.rmt_node_type == publisher
    then (false, p)
    else (true, record p { rmt_has_path_to_pub = true })

unfoldable pub no_path_to_pub : Peer → Bool × Peer
no_path_to_pub p =
    if p.rmt_node_type == publisher
    then (false, p)
    else (true, record p { rmt_has_path_to_pub = false })

-- How `operator()` ends, or that it waits.
pub data Run : Type 0 where
  waits returns throws : Run

unfoldable pub run : Peer → Run
run p = if p.done then returns else if p.failed then throws else waits

-- What the connection hands to the peer.
pub data Heard : Type 0 where
  has_path has_no_path : Heard

unfoldable pub hear : Heard → Peer → Bool × Peer
hear has_path p = path_to_pub p
hear has_no_path p = no_path_to_pub p

-- Notices in turn; how often the manager is told.
unfoldable pub hear_all : List Heard → Peer → List Heard × Peer
hear_all [] p = ([], p)
hear_all (h ∷ hs) p =
    let (told, after) = hear h p in
    let (more, final) = hear_all hs after in (if told then h ∷ more else more, final)

publisher_hears_nothing :
    (hs : List Heard) (p : Peer) → p.rmt_node_type ≡ publisher → hear_all hs p ≡ ([], p)
unfolding hear_all hear path_to_pub no_path_to_pub
publisher_hears_nothing [] p e = refl
publisher_hears_nothing (has_path ∷ hs) p e = ground (arith, publisher_hears_nothing hs p e)
publisher_hears_nothing (has_no_path ∷ hs) p e = ground (arith, publisher_hears_nothing hs p e)

-- A new peer whose remote node is the publisher counts as one without a path to the publisher, and
-- whatever notices come from it, it goes on to count so, and the manager is told of no path; whereas a
-- new peer whose remote node has no path to the publisher counts as one that has it.
pub first_flag_is_wrong :
    (from_connect : Bool) (hs : List Heard)
    → (hear_all hs (new from_connect publisher) ≡ ([], new from_connect publisher))
      × ((new from_connect publisher).rmt_has_path_to_pub ≡ false)
      × ((new from_connect no_path_to_publisher).rmt_has_path_to_pub ≡ true)
unfolding new
first_flag_is_wrong from_connect hs =
    (publisher_hears_nothing hs (new from_connect publisher) refl, refl, refl)
