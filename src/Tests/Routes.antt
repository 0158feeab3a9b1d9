-- ===== src/Tests/Routes.antt =====
-- Three peers of a subscriber (main/p2p/P2pMgr.cpp), one of them of the publisher.
use hycast.Prelude.{◌≡◌, refl, true, false, [], ◌∷◌, inr, arith, ℕ_discrete}
use hycast.Prelude.Dict
use hycast.P2p.Peer.{Peer, has_path, has_no_path}
use hycast.P2p.Peer
use hycast.Protocol.PeerProto.Connect.{no_path_to_publisher}
use hycast.P2p.Paths.{Paths, num_path, handle, mark, receive_all, IsRight}
use hycast.P2p.Paths.InTurn.{receive_all-IsRight}
use hycast.P2p.Paths.Missed.{both_missed}

abbrev without : Peer
without = record (Peer.new true 2) { rmt_has_path_to_pub = false }

abbrev none_yet : Paths
none_yet = record {
  lcl_node_type = no_path_to_publisher;
  peers = (5, without) ∷ (6, without) ∷ (7, Peer.new true 0) ∷ [];
}

receive_all-IsRight_example :
    IsRight
      (receive_all ((5, has_path) ∷ (7, has_path) ∷ (6, has_path) ∷ (5, has_no_path) ∷ []) none_yet)
unfolding num_path Peer.new
receive_all-IsRight_example = receive_all-IsRight _ none_yet (inr (refl, refl))

both_missed_example :
    let (tells, s1) = mark has_path 5 none_yet in
    let (tells', s2) = mark has_path 6 s1 in
    let (told, s3) = handle has_path 5 s2 in
    let (told', s4) = handle has_path 6 s3 in
    (tells ≡ true)
    × (tells' ≡ true)
    × (told ≡ [])
    × (told' ≡ [])
    × (num_path s4.peers ≡ 2)
    × (s4.lcl_node_type ≡ no_path_to_publisher)
unfolding num_path Peer.new Dict.find ℕ_discrete
both_missed_example =
    both_missed none_yet 5 6 without without (λ e. omega arith) refl refl refl refl refl refl
