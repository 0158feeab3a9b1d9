-- ===== src/P2p/SubBookkeeper.antt =====
-- `SubBookkeeper` of main/p2p/Bookkeeper.cpp: which peer has requested which chunks, and which peers
-- could request a chunk instead. A peer is the address of its object; no peer is `none`.
pub mod Effects
pub mod Cases
pub mod Invariant
pub mod Worst
use mathlib.Core.List.{filter}
use hycast.Prelude.{
  ℕ, ◌+◌, ◌%◌, ◌^◌, Bool, true, false, not, ◌&&◌, ◌||◌, Option, none, some, List, [], ◌∷◌, ◌++◌,
  ite, ltb, ◌==◌, if◌then◌else◌, ℕ_discrete, length, Result, ok, err, logic_error, out_of_range,
  ◌>>=◌,
}
use hycast.Prelude.Dict.{Dict, or_default}
use hycast.Prelude.Dict
use hycast.Protocol.ChunkId.{ChunkId, ChunkId-discrete}
use hycast.P2p.WorstPeer.{ulong_max, worst_from}

pub record PeerInfo : Type 0 where
  pub req_chunks : List ChunkId
  pub chunk_count : ℕ

pub record SubBookkeeper : Type 0 where
  pub peer_infos : Dict ℕ PeerInfo
  pub alt_peers : Dict ChunkId (List ℕ)

abbrev pub default_info : PeerInfo
default_info = record { req_chunks = []; chunk_count = 0 }

unfoldable pub new : SubBookkeeper
new = record { peer_infos = []; alt_peers = [] }

-- `std::unordered_set<ChunkId>`: membership, insertion and removal
unfoldable pub contains : ChunkId → List ChunkId → Bool
contains c [] = false
contains c (d ∷ ds) = ite (ChunkId-discrete d c) true (contains c ds)

unfoldable pub insert_chunk : ChunkId → List ChunkId → List ChunkId
insert_chunk c ds = if contains c ds then ds else c ∷ ds

unfoldable pub erase_chunk : ChunkId → List ChunkId → List ChunkId
erase_chunk c [] = []
erase_chunk c (d ∷ ds) = ite (ChunkId-discrete d c) (erase_chunk c ds) (d ∷ erase_chunk c ds)

-- `std::list<Peer>::remove()`
unfoldable pub remove_peer : ℕ → List ℕ → List ℕ
remove_peer p [] = []
remove_peer p (q ∷ qs) = ite (ℕ_discrete q p) (remove_peer p qs) (q ∷ remove_peer p qs)

unfoldable pub add : ℕ → SubBookkeeper → SubBookkeeper
add peer b = record b { peer_infos = Dict.insert ℕ_discrete peer default_info b.peer_infos }

-- `getSrcPathCounts()`: with a path to the publisher, and without. Whether a peer has one is the
-- state of the peer's object.
unfoldable pub path_counts : (ℕ → Bool) → Dict ℕ PeerInfo → ℕ × ℕ
path_counts is_path_to_pub [] = (0, 0)
path_counts is_path_to_pub ((p, i) ∷ m) =
    let (num_path, num_no_path) = path_counts is_path_to_pub m in
    if is_path_to_pub p then (num_path + 1, num_no_path) else (num_path, num_no_path + 1)

-- Whether the set of requested chunks of a peer holds a chunk.
unfoldable pub has_in : ℕ → ChunkId → Dict ℕ PeerInfo → Bool
has_in peer c infos = elim (Dict.find ℕ_discrete peer infos) [
  | none ↦ false
  | some i ↦ contains c i.req_chunks
]

abbrev pub has_requested : ℕ → ChunkId → SubBookkeeper → Bool
has_requested peer c b = has_in peer c b.peer_infos

-- in `shouldRequest()`, the first request for a chunk
unfoldable pub note_request : ℕ → ChunkId → PeerInfo → SubBookkeeper → SubBookkeeper
note_request peer c i b = record {
  peer_infos =
      Dict.put ℕ_discrete peer (record i { req_chunks = insert_chunk c i.req_chunks }) b.peer_infos;
  alt_peers = Dict.put ChunkId-discrete c [] b.alt_peers;
}

unfoldable pub request_first : ℕ → ChunkId → SubBookkeeper → Result (Bool × SubBookkeeper)
request_first peer c b = elim (Dict.find ℕ_discrete peer b.peer_infos) [
  | none ↦ err out_of_range
  | some i ↦ if contains c i.req_chunks then err logic_error else ok (true, note_request peer c i b)
]

-- in `shouldRequest()`, one more alternative peer for a chunk, after `peers`
unfoldable pub note_alt : ℕ → ChunkId → List ℕ → SubBookkeeper → SubBookkeeper
note_alt peer c peers b = record b {
  alt_peers = Dict.put ChunkId-discrete c (peers ++ peer ∷ []) b.alt_peers;
}

unfoldable pub should_request : ℕ → ChunkId → SubBookkeeper → Result (Bool × SubBookkeeper)
unfolding request_first
should_request peer c b = elim (Dict.find ChunkId-discrete c b.alt_peers) [
  | none ↦ request_first peer c b
  | some peers ↦
      if has_requested peer c b then err logic_error else ok (false, note_alt peer c peers b)
]

-- in `received()`, a chunk that the peer has requested
unfoldable pub note_received : ℕ → ChunkId → PeerInfo → SubBookkeeper → SubBookkeeper
note_received peer c i b = record {
  peer_infos =
      Dict.put ℕ_discrete peer
        (record {
          req_chunks = erase_chunk c i.req_chunks;
          chunk_count = (i.chunk_count + 1) % 2 ^ 64;
        })
        b.peer_infos;
  alt_peers = Dict.erase ChunkId-discrete c b.alt_peers;
}

unfoldable pub received : ℕ → ChunkId → SubBookkeeper → Result (Bool × SubBookkeeper)
received peer c b = elim (Dict.find ℕ_discrete peer b.peer_infos) [
  | none ↦ err out_of_range
  | some i ↦ if contains c i.req_chunks then ok (true, note_received peer c i b) else ok (false, b)
]

-- `getWorstPeer()`
unfoldable pub get_worst_peer : SubBookkeeper → Option ℕ
get_worst_peer b = worst_from (λ i. i.chunk_count) (λ _. true) ulong_max none b.peer_infos

-- `getWorstPeer(isPathToSrc)`
unfoldable pub get_worst_peer_with : (ℕ → Bool) → Bool → SubBookkeeper → Option ℕ
get_worst_peer_with is_path_to_pub is_path_to_src b =
    if ltb 1 (length b.peer_infos)
    then worst_from (λ i. i.chunk_count)
        (λ p. if is_path_to_src then is_path_to_pub p else not (is_path_to_pub p)) ulong_max none
        b.peer_infos
    else none

unfoldable pub reset_infos : Dict ℕ PeerInfo → Dict ℕ PeerInfo
reset_infos [] = []
reset_infos ((p, i) ∷ m) = (p, record i { chunk_count = 0 }) ∷ reset_infos m

unfoldable pub reset_counts : SubBookkeeper → SubBookkeeper
reset_counts b = record b { peer_infos = reset_infos b.peer_infos }

unfoldable pub get_requested : ℕ → SubBookkeeper → Result (List ChunkId)
get_requested peer b = elim (Dict.find ℕ_discrete peer b.peer_infos) [
  | none ↦ err out_of_range
  | some i ↦ ok i.req_chunks
]

unfoldable pub pop_best_alt : ChunkId → SubBookkeeper → Option ℕ × SubBookkeeper
pop_best_alt c b = elim (Dict.find ChunkId-discrete c b.alt_peers) [
  | none ↦ (none, b)
  | some [] ↦ (none, b)
  | some (peer ∷ peers) ↦
      (some peer, record b { alt_peers = Dict.put ChunkId-discrete c peers b.alt_peers })
]

-- `requested()`: `peerInfos[peer].reqChunks.insert(chunkId)`
unfoldable pub requested : ℕ → ChunkId → SubBookkeeper → SubBookkeeper
requested peer c b =
    let i = or_default default_info (Dict.find ℕ_discrete peer b.peer_infos) in
    record b {
      peer_infos =
          Dict.put ℕ_discrete peer (record i { req_chunks = insert_chunk c i.req_chunks })
            b.peer_infos;
    }

unfoldable pub remove_alt : ℕ → Dict ChunkId (List ℕ) → Dict ChunkId (List ℕ)
remove_alt peer [] = []
remove_alt peer ((c, peers) ∷ m) = (c, remove_peer peer peers) ∷ remove_alt peer m

unfoldable pub erase : ℕ → SubBookkeeper → SubBookkeeper
erase peer b = record {
  peer_infos = Dict.erase ℕ_discrete peer b.peer_infos;
  alt_peers = remove_alt peer b.alt_peers;
}
