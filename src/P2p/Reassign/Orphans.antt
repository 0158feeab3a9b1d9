-- ===== src/P2p/Reassign/Orphans.antt =====
-- A chunk that a stopped peer had requested, and for which no other peer was noted: the entry for its
-- alternative peers stays, and keeps the chunk from being requested again.

use hycast.Prelude.{
  ℕ, ◌≡◌, ◌≢◌, refl, ap, All, sym, ◌∙◌, inl, inr, Bool, true, false, some, List, [], ◌∷◌, ◌++◌,
  arith, Option-cases, Bool-cases, Result, ok, err,
}
use hycast.Prelude.Dict.{Dict, or_default}
use hycast.Prelude.Dict
use hycast.Protocol.ChunkId.{ChunkId, ChunkId-discrete}
use hycast.P2p.SubBookkeeper.{
  SubBookkeeper, new, contains, has_requested, add, note_request, note_alt, should_request,
  note_received, received, reset_counts, pop_best_alt, requested, erase,
}
use hycast.P2p.SubBookkeeper.Effects.{
  has_in-insert, has_in-erase, has_in-reset_infos, find-remove_alt, has-known, has-unknown,
  has-note_request, has-note_received, has_requested-requested,
}
use hycast.P2p.SubBookkeeper.Cases.{should_request-cases, received-cases}
use hycast.P2p.Reassign.{
  throws, Requests, Outcome, NoneHalted, forget, give_to, reassign, stopped, Call, adds, drops,
  stops, offers, delivers, resets, settle, step, run,
}
use hycast.P2p.Reassign.Sets.{
  give_to-cases, then_go-keeps, then_go-returns, reassign-returns, stopped-cases,
}
use hycast.P2p.Reassign.OnePeer.{Exclusive, is_tracked}
use hycast.P2p.Reassign.Exclusive.{run-Exclusive}

-- Nobody has requested the chunk, and it has an entry for its alternative peers.
pub record Orphan (c : ChunkId) (b : SubBookkeeper) : Type 0 where
  pub tracked : is_tracked c b ≡ true
  pub idle : (p : ℕ) → has_requested p c b ≡ false

-- While a peer's chunks are given away, for a chunk without alternative peers.
record Stranded (p : ℕ) (c : ChunkId) (b : SubBookkeeper) : Type 0 where
  empty : Dict.find ChunkId-discrete c b.alt_peers ≡ some []
  idle : (q : ℕ) → q ≢ p → has_requested q c b ≡ false

give_to-Stranded :
    (requests : Requests) (p : ℕ) (c d : ChunkId) (b : SubBookkeeper)
    → Stranded p c b
    → Stranded p c (give_to requests d (pop_best_alt d b)).2
give_to-Stranded requests p c d b v = give_to-cases (Stranded p c) requests d b v λ a peers asked.
    let b' : SubBookkeeper = record b {
      alt_peers = Dict.put ChunkId-discrete d peers b.alt_peers;
    } in
    let other : (d ≢ c) = λ e. ground (arith, v.empty) in
    let put = Dict.find-put ChunkId-discrete d c peers b.alt_peers in
    (
      record {
        empty = unfold requested in ground (arith, v.empty, put, other);
        idle = λ q nq. ground (arith, has_requested-requested a q d c b', v.idle q nq, other);
      },
      record { empty = ground (arith, v.empty, put, other); idle = v.idle },
    )

reassign-Stranded :
    (requests : Requests) (p : ℕ) (c : ChunkId) (cs : List ChunkId) (b : SubBookkeeper)
    → Stranded p c b
    → Stranded p c (reassign requests cs b).2
unfolding reassign
reassign-Stranded requests p c [] b v = v
reassign-Stranded requests p c (d ∷ cs) b v =
    then_go-keeps (Stranded p c) (reassign requests cs) (give_to requests d (pop_best_alt d b))
      (give_to-Stranded requests p c d b v) (reassign-Stranded requests p c cs)

erase-Stranded : (p : ℕ) (c : ChunkId) (b : SubBookkeeper) → Stranded p c b → Orphan c (erase p b)
unfolding erase
erase-Stranded p c b v = record {
  tracked = ground (arith, v.empty, find-remove_alt p c b.alt_peers);
  idle = λ q. ground (arith, has_in-erase p q c b.peer_infos, v.idle q);
}

reset_counts-Orphan : (c : ChunkId) (b : SubBookkeeper) → Orphan c b → Orphan c (reset_counts b)
unfolding reset_counts
reset_counts-Orphan c b v = record {
  tracked = v.tracked;
  idle = λ q. ground (arith, has_in-reset_infos q c b.peer_infos, v.idle q);
}

-- The stop of a peer that was responsible for the chunk, with no alternative peer, makes an orphan.
stopped-Orphan :
    (requests : Requests) (p : ℕ) (c : ChunkId) (b : SubBookkeeper)
    → ((a : ℕ) (d : ChunkId) → requests a d ≢ throws)
    → Exclusive b
    → has_requested p c b ≡ true
    → Dict.find ChunkId-discrete c b.alt_peers ≡ some []
    → Orphan c (stopped requests p b).2
stopped-Orphan requests p c b alive v has empty =
    let start : Stranded p c b = record {
      empty = empty;
      idle = λ q nq. elim (Bool-cases (has_requested q c b)) [
        | inl too ↦ absurd (nq (v.one q p c too has))
        | inr lacks ↦ lacks
      ];
    } in
    stopped-cases (λ r. Orphan c r.2) requests p b
      (λ e. let gone = has-unknown p c b e in absurd (cc))
      λ i known.
        let o = reassign requests i.req_chunks b in
        let returned = reassign-returns requests i.req_chunks b alive in
        rw (ap (λ (x : Outcome). x.2) (then_go-returns (forget p) o returned)) (
          reset_counts-Orphan c (erase p o.2)
            (erase-Stranded p c o.2 (reassign-Stranded requests p c i.req_chunks b start)))

erase-Orphan : (p : ℕ) (c : ChunkId) (b : SubBookkeeper) → Orphan c b → Orphan c (erase p b)
unfolding erase
erase-Orphan p c b v = record {
  tracked = ground (arith, v.tracked, find-remove_alt p c b.alt_peers);
  idle = λ q. ground (arith, has_in-erase p q c b.peer_infos, v.idle q);
}

add-Orphan : (p : ℕ) (c : ChunkId) (b : SubBookkeeper) → Orphan c b → Orphan c (add p b)
unfolding add
add-Orphan p c b v = record {
  tracked = v.tracked;
  idle = λ q. ground (arith, has_in-insert p q c b.peer_infos, v.idle q);
}

should_request-Orphan :
    (p : ℕ) (c d : ChunkId) (b : SubBookkeeper)
    → Orphan c b
    → Orphan c (settle b (should_request p d b))
unfolding note_request note_alt
should_request-Orphan p c d b v =
    should_request-cases (λ r. Orphan c (settle b r)) p d b (λ e. v)
      (λ i fresh known lacks. record {
        tracked = ground (arith, v.tracked, Dict.find-put ChunkId-discrete d c [] b.alt_peers);
        idle = λ q. ground (arith, has-note_request p q d c b i known, v.idle q, v.tracked);
      })
      (λ peers asked lacks. record {
        tracked =
            ground
              (arith, v.tracked, Dict.find-put ChunkId-discrete d c (peers ++ p ∷ []) b.alt_peers);
        idle = v.idle;
      })

received-Orphan :
    (p : ℕ) (c d : ChunkId) (b : SubBookkeeper) → Orphan c b → Orphan c (settle b (received p d b))
unfolding note_received
received-Orphan p c d b v =
    received-cases (λ r. Orphan c (settle b r)) p d b (λ e. v)
      (λ i known has. record {
        tracked = ground (
          arith,
          v.tracked,
          Dict.find-erase ChunkId-discrete d c b.alt_peers,
          has-known p d b i known,
          v.idle p,
        );
        idle = λ q. ground (arith, has-note_received p q d c b i known, v.idle q);
      })
      (λ i known lacks. v)

reassign-Orphan :
    (requests : Requests) (c : ChunkId) (cs : List ChunkId) (b : SubBookkeeper)
    → contains c cs ≡ false
    → Orphan c b
    → Orphan c (reassign requests cs b).2
unfolding reassign contains
reassign-Orphan requests c [] b n v = v
reassign-Orphan requests c (d ∷ cs) b n v =
    then_go-keeps (Orphan c) (reassign requests cs) (give_to requests d (pop_best_alt d b))
      (give_to-cases (Orphan c) requests d b v λ a peers asked.
        let b' : SubBookkeeper = record b {
          alt_peers = Dict.put ChunkId-discrete d peers b.alt_peers;
        } in
        let kept : (is_tracked c b' ≡ true) =
          ground (arith, v.tracked, Dict.find-put ChunkId-discrete d c peers b.alt_peers) in
        (
          record {
            tracked = unfold requested in kept;
            idle = λ q. ground (arith, has_requested-requested a q d c b', v.idle q);
          },
          record { tracked = kept; idle = v.idle },
        ))
      (λ after kept. reassign-Orphan requests c cs after (ground arith) kept)

stopped_later-Orphan :
    (requests : Requests) (p : ℕ) (c : ChunkId) (b : SubBookkeeper)
    → Orphan c b
    → Orphan c (stopped requests p b).2
stopped_later-Orphan requests p c b v =
    stopped-cases (λ r. Orphan c r.2) requests p b (λ e. v)
      λ i known.
        then_go-keeps (Orphan c) (forget p) (reassign requests i.req_chunks b)
          (reassign-Orphan requests c i.req_chunks b (sym (has-known p c b i known) ∙ v.idle p) v)
          (λ after kept. reset_counts-Orphan c (erase p after) (erase-Orphan p c after kept))

run-Orphan : (c : ChunkId) (cs : List Call) (b : SubBookkeeper) → Orphan c b → Orphan c (run cs b)
unfolding run step
run-Orphan c [] b v = v
run-Orphan c (adds p ∷ cs) b v = add-Orphan p c _ (run-Orphan c cs b v)
run-Orphan c (drops p ∷ cs) b v = erase-Orphan p c _ (run-Orphan c cs b v)
run-Orphan c (stops requests p ∷ cs) b v = stopped_later-Orphan requests p c _ (run-Orphan c cs b v)
run-Orphan c (offers p d ∷ cs) b v = should_request-Orphan p c d _ (run-Orphan c cs b v)
run-Orphan c (delivers p d ∷ cs) b v = received-Orphan p c d _ (run-Orphan c cs b v)
run-Orphan c (resets ∷ cs) b v = reset_counts-Orphan c _ (run-Orphan c cs b v)

-- The call returns, and the answer is no.
abbrev pub Declines : Result (Bool × SubBookkeeper) → Type 0
Declines (ok (answer, b)) = answer ≡ false
Declines (err e) = ⊥

should_request-Declines :
    (q : ℕ) (c : ChunkId) (b : SubBookkeeper) → Orphan c b → Declines (should_request q c b)
unfolding should_request
should_request-Declines q c b v = elim (Option-cases (Dict.find ChunkId-discrete c b.alt_peers)) [
  | inl fresh ↦ let known = v.tracked in absurd (ground arith)
  | inr (peers, asked) ↦ rw (asked, should_request, v.idle q) refl
]

-- After any calls from the start, a peer stops that a chunk was requested of, and the chunk's list of
-- alternative peers is empty. No request to an alternative peer has thrown in these calls or throws in
-- this stop, since the peer has been halted. Then whatever calls follow, the bookkeeper declines each
-- further offer of the chunk by any peer.
pub stopped-Declines :
    (history : List Call) (requests : Requests) (p : ℕ) (c : ChunkId)
    → All NoneHalted (stops requests p ∷ history)
    → has_requested p c (run history new) ≡ true
    → Dict.find ChunkId-discrete c (run history new).alt_peers ≡ some []
    → (later : List Call) (q : ℕ)
    → Declines (should_request q c (run later (run (stops requests p ∷ history) new)))
unfolding run step
stopped-Declines history requests p c (alive, h) has empty later q = should_request-Declines q c _ (
    run-Orphan c later _
      (stopped-Orphan requests p c (run history new) alive (run-Exclusive history h) has empty))
