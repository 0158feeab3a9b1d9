-- ===== src/P2p/Paths/Missed.antt =====
-- When the type of the local node goes wrong (main/p2p/P2pMgr.cpp).
use hycast.Prelude.{ℕ, ◌≡◌, ◌≢◌, refl, true, false, some, [], arith, ◌==◌, ℕ_discrete}
use hycast.Prelude.Dict.{Dict}
use hycast.Prelude.Dict
use hycast.Protocol.PeerProto.Connect.{publisher, no_path_to_publisher}
use hycast.P2p.Peer.{Peer, has_path}
use hycast.P2p.Paths.{Paths, num_path, handle, mark}
use hycast.P2p.Paths.InTurn.{num_path-put, mark-flag}

handle-quiet : (key : ℕ) (s : Paths) → num_path s.peers ≡ 2 → handle has_path key s ≡ ([], s)
unfolding handle
handle-quiet key s two =
    let more : ((num_path s.peers == 1) ≡ false) = ground (arith, two) in rw (more, handle) refl

-- No peer has a path to the publisher, and two of them, whose remote nodes are not the publisher, hear
-- that theirs have one. If both change their flags before the manager handles either notice, it handles
-- both and finds two peers with a path each time: it tells nobody, and the local node goes on to count as
-- one without a path.
pub both_missed :
    (s : Paths) (j k : ℕ) (p q : Peer)
    → j ≢ k
    → Dict.find ℕ_discrete j s.peers ≡ some p
    → Dict.find ℕ_discrete k s.peers ≡ some q
    → (p.rmt_node_type == publisher) ≡ false
    → (q.rmt_node_type == publisher) ≡ false
    → num_path s.peers ≡ 0
    → s.lcl_node_type ≡ no_path_to_publisher
    → let (tells, s1) = mark has_path j s in
      let (tells', s2) = mark has_path k s1 in
      let (told, s3) = handle has_path j s2 in
      let (told', s4) = handle has_path k s3 in
      (tells ≡ true)
      × (tells' ≡ true)
      × (told ≡ [])
      × (told' ≡ [])
      × (num_path s4.peers ≡ 2)
      × (s4.lcl_node_type ≡ no_path_to_publisher)
both_missed s j k p q distinct at_j at_k p_other q_other nobody lcl =
    let p' : Peer = record p { rmt_has_path_to_pub = true } in
    let q' : Peer = record q { rmt_has_path_to_pub = true } in
    let s1 : Paths = record s { peers = Dict.put ℕ_discrete j p' s.peers } in
    let s2 : Paths = record s1 { peers = Dict.put ℕ_discrete k q' s1.peers } in
    let still : (Dict.find ℕ_discrete k s1.peers ≡ some q) =
      ground (arith, Dict.find-put ℕ_discrete j k p' s.peers, at_k, distinct) in
    let one = num_path-put j p p' s.peers at_j in
    let two = num_path-put k q q' s1.peers still in
    let no_p = num_path-put j p (record p { rmt_has_path_to_pub = false }) s.peers at_j in
    let no_q = num_path-put k q (record q { rmt_has_path_to_pub = false }) s.peers at_k in
    let counted : (num_path s2.peers ≡ 2) = omega (arith, one, two, nobody, no_p, no_q) in
    rw
      (
        (mark-flag j p s at_j p_other).0,
        (mark-flag k q s1 still q_other).0,
        handle-quiet j s2 counted,
        handle-quiet k s2 counted,
      )
      (refl, refl, refl, refl, counted, lcl)
