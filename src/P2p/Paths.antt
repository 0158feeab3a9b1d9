-- ===== src/P2p/Paths.antt =====
-- Whether the local node has a path to the publisher: `pathToPub()` and `noPathToPub()` of
-- main/p2p/P2pMgr.cpp, which the threads of the peers (main/p2p/Peer.cpp) call after they have changed
-- their flags without the manager's mutex. The bookkeeper's map has the peers by number.
pub mod InTurn
pub mod Missed
use hycast.Prelude.{
  ℕ, ◌+◌, ◌≤◌, ◌<◌, ◌≡◌, ◌≢◌, refl, sym, ap, ◌∙◌, ◌⊎◌, inl, inr, Bool, true, false, not, ◌&&◌, ◌||◌,
  Option, none, some, List, [], ◌∷◌, arith, ◌==◌, if◌then◌else◌, ℕ_discrete, if_pos, Bool-cases,
  Option-cases,
}
use hycast.Prelude.Dict.{Dict, UniqueKeys}
use hycast.Prelude.Dict
use hycast.Protocol.PeerProto.Connect.{publisher, path_to_publisher, no_path_to_publisher}
use hycast.P2p.Peer.{Peer, Heard, has_path, has_no_path, hear, path_to_pub, no_path_to_pub}

pub record Paths : Type 0 where
  pub lcl_node_type : ℕ
  pub peers : Dict ℕ Peer

-- The first number of `getPubPathCounts()`
unfoldable pub num_path : Dict ℕ Peer → ℕ
num_path [] = 0
num_path ((k, p) ∷ d) = if p.rmt_has_path_to_pub then num_path d + 1 else num_path d

-- `gotPath()` and `lostPath()` of the set of peers: whom they send something to.
unfoldable pub others : (not_peer : ℕ) → Dict ℕ Peer → List ℕ
others not_peer [] = []
others not_peer ((k, p) ∷ d) =
    let rest = others not_peer d in
    if k == not_peer || p.rmt_node_type == publisher then rest else k ∷ rest

-- `pathToPub()` and `noPathToPub()` of the manager
unfoldable pub handle : Heard → (key : ℕ) → Paths → List ℕ × Paths
unfolding num_path others
handle has_path key s =
    if num_path s.peers == 1
    then (others key s.peers, record s { lcl_node_type = path_to_publisher })
    else ([], s)
handle has_no_path key s =
    if num_path s.peers == 0
    then (others key s.peers, record s { lcl_node_type = no_path_to_publisher })
    else ([], s)

-- `pathToPub()` and `noPathToPub()` of the peer, up to the call of the manager
unfoldable pub mark : Heard → (key : ℕ) → Paths → Bool × Paths
mark h key s = elim (Dict.find ℕ_discrete key s.peers) [
  | none ↦ (false, s)
  | some p ↦
      let (tells, after) = hear h p in
      (tells, record s { peers = Dict.put ℕ_discrete key after s.peers })
]

-- A notice of which the manager hears before another peer changes its flag.
unfoldable pub receive : Heard → (key : ℕ) → Paths → Paths
unfolding mark handle
receive h key s =
    let (tells, after) = mark h key s in if tells then (handle h key after).1 else after

unfoldable pub receive_all : List (ℕ × Heard) → Paths → Paths
unfolding receive
receive_all [] s = s
receive_all ((key, h) ∷ hs) s = receive_all hs (receive h key s)

-- The type of the local node says whether a peer has a path.
abbrev pub IsRight : Paths → Type 0
IsRight s =
    ((s.lcl_node_type ≡ path_to_publisher) × (0 < num_path s.peers))
    ⊎ ((s.lcl_node_type ≡ no_path_to_publisher) × (num_path s.peers ≡ 0))
