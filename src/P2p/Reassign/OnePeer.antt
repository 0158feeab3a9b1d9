-- ===== src/P2p/Reassign/OnePeer.antt =====
-- The requests for a chunk are of one peer: what the single calls of `SubBookkeeper` in
-- main/p2p/Bookkeeper.cpp do to this.

use hycast.Prelude.{ℕ, ◌≡◌, Bool, true, false, none, some, [], ◌∷◌, ◌++◌, arith, ℕ_discrete}
use hycast.Prelude.Dict.{Dict, or_default}
use hycast.Prelude.Dict
use hycast.Protocol.ChunkId.{ChunkId, ChunkId-discrete}
use hycast.P2p.SubBookkeeper.{
  PeerInfo, SubBookkeeper, contains, has_requested, add, note_request, note_alt, should_request,
  note_received, received, reset_counts, erase,
}
use hycast.P2p.SubBookkeeper.Effects.{
  has_in-insert, has_in-erase, has_in-reset_infos, find-remove_alt, has-known, has-note_request,
  has-note_received,
}
use hycast.P2p.SubBookkeeper.Cases.{should_request-cases, received-cases}
use hycast.P2p.Reassign.{settle}

-- The bookkeeper has an entry, perhaps empty, for the alternative peers of a chunk.
abbrev pub is_tracked : ChunkId → SubBookkeeper → Bool
is_tracked c b = elim (Dict.find ChunkId-discrete c b.alt_peers) [ none ↦ false | some qs ↦ true ]

pub record Exclusive (b : SubBookkeeper) : Type 0 where
  pub one :
      (p q : ℕ) (c : ChunkId) → has_requested p c b ≡ true → has_requested q c b ≡ true → p ≡ q
  pub tracked : (p : ℕ) (c : ChunkId) → has_requested p c b ≡ true → is_tracked c b ≡ true

pub add-Exclusive : (p : ℕ) (b : SubBookkeeper) → Exclusive b → Exclusive (add p b)
unfolding add
add-Exclusive p b v = record {
  one = λ q r c h k.
      ground
        (arith, has_in-insert p q c b.peer_infos, has_in-insert p r c b.peer_infos, v.one q r c);
  tracked = λ q c h. ground (arith, has_in-insert p q c b.peer_infos, v.tracked q c);
}

note_request-Exclusive :
    (p : ℕ) (c : ChunkId) (i : PeerInfo) (b : SubBookkeeper)
    → Dict.find ChunkId-discrete c b.alt_peers ≡ none
    → Dict.find ℕ_discrete p b.peer_infos ≡ some i
    → Exclusive b
    → Exclusive (note_request p c i b)
unfolding note_request
note_request-Exclusive p c i b fresh known v = record {
  one = λ q r d h k. ground (
    arith,
    has-note_request p q c d b i known,
    has-note_request p r c d b i known,
    v.one q r d,
    v.tracked q d,
    v.tracked r d,
  );
  tracked = λ q d h. ground (
    arith,
    has-note_request p q c d b i known,
    v.tracked q d,
    Dict.find-put ChunkId-discrete c d [] b.alt_peers,
  );
}

pub should_request-Exclusive :
    (p : ℕ) (c : ChunkId) (b : SubBookkeeper)
    → Exclusive b
    → Exclusive (settle b (should_request p c b))
unfolding note_alt
should_request-Exclusive p c b v =
    should_request-cases (λ r. Exclusive (settle b r)) p c b (λ e. v)
      (λ i fresh known lacks. note_request-Exclusive p c i b fresh known v)
      (λ peers asked lacks. record {
        one = v.one;
        tracked = λ q d h. ground (
          arith,
          v.tracked q d,
          Dict.find-put ChunkId-discrete c d (peers ++ p ∷ []) b.alt_peers,
        );
      })

note_received-Exclusive :
    (p : ℕ) (c : ChunkId) (i : PeerInfo) (b : SubBookkeeper)
    → Dict.find ℕ_discrete p b.peer_infos ≡ some i
    → contains c i.req_chunks ≡ true
    → Exclusive b
    → Exclusive (note_received p c i b)
unfolding note_received
note_received-Exclusive p c i b known has v = record {
  one = λ q r d h k. ground (
    arith,
    has-note_received p q c d b i known,
    has-note_received p r c d b i known,
    v.one q r d,
  );
  tracked = λ q d h. ground (
    arith,
    has-note_received p q c d b i known,
    v.tracked q d,
    v.one p q d,
    has-known p c b i known,
    Dict.find-erase ChunkId-discrete c d b.alt_peers,
  );
}

pub received-Exclusive :
    (p : ℕ) (c : ChunkId) (b : SubBookkeeper) → Exclusive b → Exclusive (settle b (received p c b))
received-Exclusive p c b v =
    received-cases (λ r. Exclusive (settle b r)) p c b (λ e. v)
      (λ i known has. note_received-Exclusive p c i b known has v) (λ i known lacks. v)

pub erase-Exclusive : (p : ℕ) (b : SubBookkeeper) → Exclusive b → Exclusive (erase p b)
unfolding erase
erase-Exclusive p b v = record {
  one = λ q r c h k.
      ground (arith, has_in-erase p q c b.peer_infos, has_in-erase p r c b.peer_infos, v.one q r c);
  tracked = λ q c h.
      ground
        (arith, has_in-erase p q c b.peer_infos, v.tracked q c, find-remove_alt p c b.alt_peers);
}

pub reset_counts-Exclusive : (b : SubBookkeeper) → Exclusive b → Exclusive (reset_counts b)
unfolding reset_counts
reset_counts-Exclusive b v = record {
  one = λ q r c h k. ground (
    arith,
    has_in-reset_infos q c b.peer_infos,
    has_in-reset_infos r c b.peer_infos,
    v.one q r c,
  );
  tracked = λ q c h. ground (arith, has_in-reset_infos q c b.peer_infos, v.tracked q c);
}
