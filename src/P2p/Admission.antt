-- ===== src/P2p/Admission.antt =====
-- `maybeAdd()`, and `maybeAdd2()` of the subscriber, of main/p2p/P2pMgr.cpp: whether a new peer is
-- added, and which peer it replaces. The number of active peers is that of the set of peers, and
-- whether the set can activate the peer is its answer.
use hycast.Prelude.{
  ℕ, ◌≡◌, Bool, true, false, not, Option, none, some, arith, ltb, if◌then◌else◌, Option-cases, inl,
  inr,
}
use hycast.P2p.WorstPeer.{Has, NoneBelow}
use hycast.P2p.SubBookkeeper.{
  PeerInfo, SubBookkeeper, add, erase, reset_counts, path_counts, get_worst_peer_with,
}
use hycast.P2p.SubBookkeeper.Worst.{get_worst_peer-Outcome}

-- What becomes of the new peer, with the peer that is told to halt. Where the addition fails, an
-- exception follows.
pub data Answer : Type 0 where
  refused added : Answer
  replaces : (halted : ℕ) → Answer
  failed : (halted : Option ℕ) → Answer

-- `add()`; where the peer cannot be activated, an exception follows
unfoldable pub add_active : (activates : Bool) → ℕ → SubBookkeeper → Bool × SubBookkeeper
add_active activates peer b =
    if activates then (true, reset_counts (add peer b)) else (false, erase peer (add peer b))

-- `==` of two Booleans
abbrev pub same_bool : Bool → Bool → Bool
same_bool true b = b
same_bool false b = not b

unfoldable pub replace_worst :
    (activates : Bool) → ℕ → Option ℕ → SubBookkeeper → Answer × SubBookkeeper
unfolding add_active
replace_worst activates peer none b = (refused, b)
replace_worst activates peer (some worst) b =
    let (success, after) = add_active activates peer b in
    (if success then replaces worst else failed (some worst), after)

-- `maybeAdd2()`
unfoldable pub maybe_add_full :
    (is_path_to_pub : ℕ → Bool) (activates : Bool) → ℕ → SubBookkeeper → Answer × SubBookkeeper
unfolding replace_worst
maybe_add_full is_path_to_pub activates peer b =
    let (num_path, num_no_path) = path_counts is_path_to_pub b.peer_infos in
    if same_bool (ltb num_path num_no_path) (is_path_to_pub peer)
    then replace_worst activates peer (get_worst_peer_with is_path_to_pub (is_path_to_pub peer) b) b
    else (refused, b)

unfoldable pub maybe_add :
    (is_path_to_pub : ℕ → Bool) (activates : Bool) (num_peers max_peers : ℕ)
    → ℕ
    → SubBookkeeper
    → Answer × SubBookkeeper
unfolding add_active maybe_add_full
maybe_add is_path_to_pub activates num_peers max_peers peer b =
    if ltb num_peers max_peers
    then (let (success, after) = add_active activates peer b in
        (if success then added else failed none, after))
    else if ltb max_peers num_peers
    then (refused, b)
    else maybe_add_full is_path_to_pub activates peer b

-- When it replaces a peer, that is the worst one of the new peer's own side.
replaces-worst :
    (is_path_to_pub : ℕ → Bool) (activates : Bool) (num_peers max_peers peer worst : ℕ)
    (b after : SubBookkeeper)
    → maybe_add is_path_to_pub activates num_peers max_peers peer b ≡ (replaces worst, after)
    → (get_worst_peer_with is_path_to_pub (is_path_to_pub peer) b ≡ some worst)
      × (num_peers ≡ max_peers)
unfolding maybe_add maybe_add_full replace_worst add_active
replaces-worst is_path_to_pub activates num_peers max_peers peer worst b after h =
    elim (Option-cases (get_worst_peer_with is_path_to_pub (is_path_to_pub peer) b)) [
      | inl nobody ↦ absurd (ground arith)
      | inr (w, found) ↦ (ground arith, ground arith)
    ]

-- When `maybeAdd()` of a subscriber replaces a peer, the set of peers is just full, and the peer that
-- is told to halt has a path to the publisher exactly if the new one has. It is one of the peers known
-- to the bookkeeper, and no peer of the same side has received fewer chunks.
maybe_add-replaces :
    (is_path_to_pub : ℕ → Bool) (activates : Bool) (num_peers max_peers peer worst : ℕ)
    (b after : SubBookkeeper)
    → maybe_add is_path_to_pub activates num_peers max_peers peer b ≡ (replaces worst, after)
    → (num_peers ≡ max_peers)
      × (is_path_to_pub worst ≡ is_path_to_pub peer)
      × ((i : PeerInfo) × Has worst i b.peer_infos
          × NoneBelow
              (λ (j : PeerInfo). j.chunk_count)
              (λ p. if is_path_to_pub peer then is_path_to_pub p else not (is_path_to_pub p))
              i.chunk_count
              b.peer_infos)
maybe_add-replaces is_path_to_pub activates num_peers max_peers peer worst b after h =
    let (found, full) =
      replaces-worst is_path_to_pub activates num_peers max_peers peer worst b after h in
    elim (get_worst_peer-Outcome is_path_to_pub (is_path_to_pub peer) b).1 [
      | inl (few, nobody) ↦ absurd (cc)
      | inr (many, inl (nobody, rest)) ↦ absurd (cc)
      | inr (many, inr (p, i, e, has, good, lt, rest)) ↦
          let same : (p ≡ worst) = cc in (full, ground arith, (i, rw (← same) has, rest))
    ]
