-- ===== src/P2p/SubBookkeeper/Effects.antt =====
-- What each operation of `SubBookkeeper` does to the requests of each peer and to the alternative
-- peers of each chunk.
use mathlib.Core.Option
use hycast.Prelude.{
  ℕ, ◌≡◌, refl, ap, ite, Bool, true, false, none, some, List, [], ◌∷◌, ◌++◌, arith, ℕ_discrete, inl,
  inr, Option-cases,
}
use hycast.Prelude.Dict.{Dict, or_default}
use hycast.Prelude.Dict
use hycast.Protocol.ChunkId.{ChunkId, ChunkId-discrete}
use hycast.P2p.SubBookkeeper.{
  PeerInfo, SubBookkeeper, default_info, contains, insert_chunk, erase_chunk, remove_peer, has_in,
  has_requested, reset_infos, remove_alt, note_request, note_received, requested,
}

pub contains-insert_chunk :
    (c d : ChunkId) (ds : List ChunkId)
    → contains c (insert_chunk d ds) ≡ ite (ChunkId-discrete d c) true (contains c ds)
unfolding insert_chunk contains
contains-insert_chunk c d ds = elim (ChunkId-discrete d c) [
  | yes same ↦ ground (arith, ap (λ e. contains e ds) same)
  | no other ↦ ground arith
]

pub contains-erase_chunk :
    (c d : ChunkId) (ds : List ChunkId)
    → contains c (erase_chunk d ds) ≡ ite (ChunkId-discrete d c) false (contains c ds)
unfolding erase_chunk contains
contains-erase_chunk c d [] = ground arith
contains-erase_chunk c d (e ∷ ds) = ground (arith, contains-erase_chunk c d ds)

-- `p` is in a list of peers.
unfoldable pub listed : ℕ → List ℕ → Bool
listed p [] = false
listed p (q ∷ qs) = ite (ℕ_discrete q p) true (listed p qs)

pub listed-append :
    (p q : ℕ) (qs : List ℕ) → listed p (qs ++ q ∷ []) ≡ ite (ℕ_discrete q p) true (listed p qs)
unfolding listed
listed-append p q [] = refl
listed-append p q (r ∷ qs) = ground (arith, listed-append p q qs)

pub listed-remove_peer :
    (p q : ℕ) (qs : List ℕ) → listed p (remove_peer q qs) ≡ ite (ℕ_discrete q p) false (listed p qs)
unfolding listed remove_peer
listed-remove_peer p q [] = ground arith
listed-remove_peer p q (r ∷ qs) = ground (arith, listed-remove_peer p q qs)

pub has_in-put :
    (p q : ℕ) (c : ChunkId) (i : PeerInfo) (m : Dict ℕ PeerInfo)
    → has_in q c (Dict.put ℕ_discrete p i m)
      ≡ ite (ℕ_discrete p q) (contains c i.req_chunks) (has_in q c m)
unfolding has_in
has_in-put p q c i m = ground (arith, Dict.find-put ℕ_discrete p q i m)

pub has_in-erase :
    (p q : ℕ) (c : ChunkId) (m : Dict ℕ PeerInfo)
    → has_in q c (Dict.erase ℕ_discrete p m) ≡ ite (ℕ_discrete p q) false (has_in q c m)
unfolding has_in
has_in-erase p q c m = ground (arith, Dict.find-erase ℕ_discrete p q m)

pub has_in-insert :
    (p q : ℕ) (c : ChunkId) (m : Dict ℕ PeerInfo)
    → has_in q c (Dict.insert ℕ_discrete p default_info m) ≡ has_in q c m
unfolding has_in contains
has_in-insert p q c m = elim (ℕ_discrete p q) [
  | yes same ↦ ground (
    arith,
    Dict.find-insert ℕ_discrete p q default_info m,
    ap (λ r. Dict.find ℕ_discrete r m) same,
  )
  | no other ↦ ground (arith, Dict.find-insert ℕ_discrete p q default_info m)
]

pub has_in-reset_infos :
    (q : ℕ) (c : ChunkId) (m : Dict ℕ PeerInfo) → has_in q c (reset_infos m) ≡ has_in q c m
unfolding has_in reset_infos Dict.find
has_in-reset_infos q c [] = refl
has_in-reset_infos q c ((p, i) ∷ m) = ground (arith, has_in-reset_infos q c m)

pub find-remove_alt :
    (p : ℕ) (c : ChunkId) (m : Dict ChunkId (List ℕ))
    → Dict.find ChunkId-discrete c (remove_alt p m)
      ≡ Option.map (remove_peer p) (Dict.find ChunkId-discrete c m)
unfolding remove_alt Dict.find
find-remove_alt p c [] = refl
find-remove_alt p c ((d, peers) ∷ m) = ground (arith, find-remove_alt p c m)

pub has-known :
    (p : ℕ) (d : ChunkId) (b : SubBookkeeper) (i : PeerInfo)
    → Dict.find ℕ_discrete p b.peer_infos ≡ some i
    → has_requested p d b ≡ contains d i.req_chunks
unfolding has_in
has-known p d b i known = rw (known, has_in) refl

pub has-unknown :
    (p : ℕ) (d : ChunkId) (b : SubBookkeeper)
    → Dict.find ℕ_discrete p b.peer_infos ≡ none
    → has_requested p d b ≡ false
unfolding has_in
has-unknown p d b unknown = rw (unknown, has_in) refl

-- What the operations that change a peer's requests do to those of each peer `q`.
module _ (p q : ℕ) (c d : ChunkId) (b : SubBookkeeper) where
  abbrev changed : Bool → Bool
  changed answer =
      ite (ℕ_discrete p q) (ite (ChunkId-discrete c d) answer (has_requested q d b))
        (has_requested q d b)

  requests_after :
      (i : PeerInfo) (answer : Bool)
      → contains d i.req_chunks ≡ ite (ChunkId-discrete c d) answer (has_requested p d b)
      → has_in q d (Dict.put ℕ_discrete p i b.peer_infos) ≡ changed answer
  requests_after i answer e = elim (ℕ_discrete p q) [
    | yes same ↦ ground (arith, has_in-put p q d i b.peer_infos, ap (λ r. has_requested r d b) same)
    | no other ↦ ground (arith, has_in-put p q d i b.peer_infos)
  ]

  pub has-note_request :
      (i : PeerInfo)
      → Dict.find ℕ_discrete p b.peer_infos ≡ some i
      → has_requested q d (note_request p c i b) ≡ changed true
  unfolding note_request
  has-note_request i known =
      requests_after _ true (rw (has-known p d b i known) (contains-insert_chunk d c i.req_chunks))

  pub has-note_received :
      (i : PeerInfo)
      → Dict.find ℕ_discrete p b.peer_infos ≡ some i
      → has_requested q d (note_received p c i b) ≡ changed false
  unfolding note_received
  has-note_received i known =
      requests_after _ false (rw (has-known p d b i known) (contains-erase_chunk d c i.req_chunks))

  pub has_requested-requested : has_requested q d (requested p c b) ≡ changed true
  unfolding requested contains
  has_requested-requested = elim (Option-cases (Dict.find ℕ_discrete p b.peer_infos)) [
    | inr (i, known) ↦
        requests_after _ true
          (rw (has-known p d b i known, known) (contains-insert_chunk d c i.req_chunks))
    | inl unknown ↦
        requests_after _ true
          (rw (has-unknown p d b unknown, unknown) (contains-insert_chunk d c []))
  ]
