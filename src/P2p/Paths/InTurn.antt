-- ===== src/P2p/Paths/InTurn.antt =====
-- Notices of a path to the publisher, handled one after the other (main/p2p/P2pMgr.cpp).
use hycast.Prelude.{
  ℕ, ◌+◌, ◌≤◌, ◌<◌, ◌≡◌, refl, ◌∙◌, ◌⊎◌, inl, inr, Bool, true, false, some, List, [], ◌∷◌, arith,
  ◌==◌, ℕ_discrete, if_pos, Bool-cases, Option-cases,
}
use hycast.Prelude.Dict.{Dict, UniqueKeys}
use hycast.Prelude.Dict
use hycast.Protocol.PeerProto.Connect.{publisher, path_to_publisher, no_path_to_publisher}
use hycast.P2p.Peer.{Peer, Heard, has_path, has_no_path, hear, path_to_pub, no_path_to_pub}
use hycast.P2p.Paths.{Paths, num_path, handle, mark, receive, receive_all, IsRight}

abbrev pub one_if : Bool → ℕ
one_if true = 1
one_if false = 0

pub num_path-put :
    (k : ℕ) (p q : Peer) (d : Dict ℕ Peer)
    → Dict.find ℕ_discrete k d ≡ some p
    → num_path (Dict.put ℕ_discrete k q d) + one_if p.rmt_has_path_to_pub
      ≡ num_path d + one_if q.rmt_has_path_to_pub
unfolding num_path Dict.find Dict.put
num_path-put k p q [] h = cc
num_path-put k p q ((i, r) ∷ d) h = ground (arith, num_path-put k p q d)

-- The flag of a peer whose remote node is not the publisher.
pub mark-flag :
    (k : ℕ) (p : Peer) (s : Paths)
    → Dict.find ℕ_discrete k s.peers ≡ some p
    → (p.rmt_node_type == publisher) ≡ false
    → (mark has_path k s ≡ (
      true,
      record s { peers = Dict.put ℕ_discrete k (record p { rmt_has_path_to_pub = true }) s.peers },
    ))
      × (mark has_no_path k s ≡ (
        true,
        record s {
          peers = Dict.put ℕ_discrete k (record p { rmt_has_path_to_pub = false }) s.peers;
        },
      ))
unfolding mark hear path_to_pub no_path_to_pub
mark-flag k p s found other = (
  rw (found, mark, hear, path_to_pub, other) refl,
  rw (found, mark, hear, no_path_to_pub, other) refl,
)

-- The type is right for the `n` flags that there were before.
handle_path-IsRight :
    (key n : ℕ) (s : Paths)
    → ((s.lcl_node_type ≡ path_to_publisher) × (0 < n))
      ⊎ ((s.lcl_node_type ≡ no_path_to_publisher) × (n ≡ 0))
    → 0 < num_path s.peers
    → num_path s.peers ≤ n + 1
    → IsRight (handle has_path key s).1
unfolding handle
handle_path-IsRight key n s right some_path few = elim (Bool-cases (num_path s.peers == 1)) [
  | inl one ↦ rw (one, handle) (inl (refl, some_path))
  | inr more ↦
      rw (more, handle)
        (elim right [
          | inl (path, _) ↦ inl (path, some_path)
          | inr (_, nothing) ↦ absurd (ground (arith, more))
        ])
]

handle_no_path-IsRight :
    (key n : ℕ) (s : Paths)
    → ((s.lcl_node_type ≡ path_to_publisher) × (0 < n))
      ⊎ ((s.lcl_node_type ≡ no_path_to_publisher) × (n ≡ 0))
    → num_path s.peers ≤ n
    → IsRight (handle has_no_path key s).1
unfolding handle
handle_no_path-IsRight key n s right few = elim (Bool-cases (num_path s.peers == 0)) [
  | inl none' ↦ rw (none', handle) (inr (refl, ground (arith, none')))
  | inr some' ↦
      rw (some', handle)
        (elim right [
          | inl (path, _) ↦ inl (path, ground (arith, some'))
          | inr (_, nothing) ↦ absurd (ground (arith, some'))
        ])
]

-- Nothing changes by a notice of the publisher's, or of a peer that is not there.
mark-publisher :
    (h : Heard) (k : ℕ) (p : Peer) (s : Paths)
    → Dict.find ℕ_discrete k s.peers ≡ some p
    → (p.rmt_node_type == publisher) ≡ true
    → mark h k s ≡ (false, record s { peers = Dict.put ℕ_discrete k p s.peers })
unfolding mark hear path_to_pub no_path_to_pub
mark-publisher has_path k p s found same = rw (found, mark, hear, path_to_pub, same) refl
mark-publisher has_no_path k p s found same = rw (found, mark, hear, no_path_to_pub, same) refl

num_path-pos :
    (k : ℕ) (p : Peer) (d : Dict ℕ Peer)
    → Dict.find ℕ_discrete k d ≡ some p
    → p.rmt_has_path_to_pub ≡ true
    → 0 < num_path d
unfolding num_path Dict.find
num_path-pos k p [] h path = absurd (cc)
num_path-pos k p ((i, r) ∷ d) h path = ground (arith, num_path-pos k p d)

receive-IsRight : (h : Heard) (key : ℕ) (s : Paths) → IsRight s → IsRight (receive h key s)
unfolding receive mark
receive-IsRight h key s right = elim (Option-cases (Dict.find ℕ_discrete key s.peers)) [
  | inl absent ↦ rw (absent, receive, mark) right
  | inr (p, found) ↦ elim (Bool-cases (p.rmt_node_type == publisher)) [
    | inl same ↦
        let count = num_path-put key p p s.peers found in
        rw (mark-publisher h key p s found same, receive)
          (elim right [
            | inl (path, some') ↦ inl (path, omega (arith, count, some'))
            | inr (no', none') ↦ inr (no', omega (arith, count, none'))
          ])
    | inr other ↦ heard h p found other
  ]
]
  where
    heard :
        (h : Heard) (p : Peer)
        → Dict.find ℕ_discrete key s.peers ≡ some p
        → (p.rmt_node_type == publisher) ≡ false
        → IsRight (receive h key s)
    heard has_path p found other =
        let q : Peer = record p { rmt_has_path_to_pub = true } in
        let count = num_path-put key p q s.peers found in
        rw ((mark-flag key p s found other).0, receive)
          (handle_path-IsRight key (num_path s.peers)
            (record s { peers = Dict.put ℕ_discrete key q s.peers }) right
            (num_path-pos key q _
              (Dict.find-put ℕ_discrete key key q s.peers ∙ if_pos (ℕ_discrete key key) refl _ _)
              refl)
            (omega (arith, count)))
    heard has_no_path p found other =
        let q : Peer = record p { rmt_has_path_to_pub = false } in
        let count = num_path-put key p q s.peers found in
        rw ((mark-flag key p s found other).1, receive)
          (handle_no_path-IsRight key (num_path s.peers)
            (record s { peers = Dict.put ℕ_discrete key q s.peers }) right (omega (arith, count)))

-- If the type of the local node says whether a peer has a path to the publisher, it goes on to do so
-- after any sequence of notices of peers, each one handled by the manager before the next one changes
-- its peer's flag.
pub receive_all-IsRight :
    (hs : List (ℕ × Heard)) (s : Paths) → IsRight s → IsRight (receive_all hs s)
unfolding receive_all
receive_all-IsRight [] s right = right
receive_all-IsRight ((key, h) ∷ hs) s right =
    receive_all-IsRight hs (receive h key s) (receive-IsRight h key s right)
