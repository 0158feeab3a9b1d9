-- ===== src/P2p/SubBookkeeper/Worst.antt =====
-- What the two `getWorstPeer()` and `getSrcPathCounts()` of `SubBookkeeper` in main/p2p/Bookkeeper.cpp
-- answer.
use hycast.Prelude.{
  ℕ, ◌+◌, ◌≤◌, ◌<◌, ◌≡◌, refl, ◌⊎◌, inl, inr, Bool, true, not, none, [], ◌∷◌, arith, ltb,
  if◌then◌else◌, length, Bool-cases,
}
use hycast.Prelude.Dict.{Dict}
use hycast.P2p.WorstPeer.{ulong_max, Outcome, worst_from-Outcome}
use hycast.P2p.SubBookkeeper.{
  PeerInfo, SubBookkeeper, get_worst_peer, get_worst_peer_with, path_counts,
}

path_counts-total :
    (is_path_to_pub : ℕ → Bool) (m : Dict ℕ PeerInfo)
    → (path_counts is_path_to_pub m).0 + (path_counts is_path_to_pub m).1 ≡ length m
unfolding path_counts
path_counts-total is_path_to_pub [] = refl
path_counts-total is_path_to_pub ((p, i) ∷ m) =
    let rest = path_counts-total is_path_to_pub m in ground arith

abbrev on_side : (ℕ → Bool) → Bool → ℕ → Bool
on_side is_path_to_pub is_path_to_src p =
    if is_path_to_src then is_path_to_pub p else not (is_path_to_pub p)

-- Without a restriction, the answer is a peer that no other undercuts in its count of received chunks.
-- With one, the answer is none when there are fewer than two peers; else it is such a peer among those
-- of the required side, where the two path counts add up to the number of peers. There is no answer
-- only if every candidate has counted `ULONG_MAX` chunks or more.
pub get_worst_peer-Outcome :
    (is_path_to_pub : ℕ → Bool) (is_path_to_src : Bool) (b : SubBookkeeper)
    → let counts = path_counts is_path_to_pub b.peer_infos in
      let count : PeerInfo → ℕ = λ i. i.chunk_count in
      Outcome count (λ _. true) ulong_max none b.peer_infos (get_worst_peer b)
      × (((counts.0 + counts.1 ≤ 1) × (get_worst_peer_with is_path_to_pub is_path_to_src b ≡ none))
          ⊎ ((1 < counts.0 + counts.1)
              × Outcome count
                  (on_side is_path_to_pub is_path_to_src)
                  ulong_max
                  none
                  b.peer_infos
                  (get_worst_peer_with is_path_to_pub is_path_to_src b)))
unfolding get_worst_peer get_worst_peer_with
get_worst_peer-Outcome is_path_to_pub is_path_to_src b =
    let total = path_counts-total is_path_to_pub b.peer_infos in
    let count : PeerInfo → ℕ = λ i. i.chunk_count in
    (
      worst_from-Outcome count (λ _. true) ulong_max none b.peer_infos,
      elim (Bool-cases (ltb 1 (length b.peer_infos))) [
        | inr few ↦ inl (ground arith, rw (few) refl)
        | inl many ↦ inr (
          ground arith,
          rw (many) (
              worst_from-Outcome count (on_side is_path_to_pub is_path_to_src) ulong_max none
                b.peer_infos),
        )
      ],
    )
