-- ===== src/P2p.antt =====
-- main/p2p: the peers of a node and what they exchange.
pub mod WorstPeer
pub mod PubBookkeeper
pub mod SubBookkeeper
pub mod Reassign
pub mod Admission
pub mod ChunkIdQueue
pub mod Peer
pub mod PeerSet
pub mod Paths
