-- ===== src/Protocol.antt =====
-- main/protocol: the identifiers and the messages that nodes exchange.
pub mod ProdIndex
pub mod ChunkId
pub mod PeerProto
pub mod McastProto
