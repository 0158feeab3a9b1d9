-- ===== src/P2p/Reassign/Exclusive.antt =====
-- What the bookkeeper is for: no chunk is requested of two peers at a time, also across the handover
-- of a stopped peer's requests.
use hycast.Prelude.{
  ℕ, ◌≡◌, ◌≢◌, refl, ◌∙◌, inl, inr, true, false, some, List, [], ◌∷◌, arith, ℕ_discrete, Bool-cases,
  All, ap,
}
use hycast.Prelude.Dict.{Dict, or_default}
use hycast.Prelude.Dict
use hycast.Protocol.ChunkId.{ChunkId, ChunkId-discrete}
use hycast.P2p.SubBookkeeper.{
  PeerInfo, SubBookkeeper, new, contains, has_in, has_requested, pop_best_alt, requested, erase,
}
use hycast.P2p.SubBookkeeper.Effects.{
  has_in-erase, find-remove_alt, has-known, has_requested-requested,
}
use hycast.P2p.Reassign.{
  throws, Requests, Outcome, give_to, reassign, forget, stopped, Call, adds, drops, stops, offers,
  delivers, resets, NoneHalted, step, run,
}
use hycast.P2p.Reassign.Sets.{
  IsASet, Sets, requests_of-known, then_go-returns, give_to-returns, reassign-returns,
  give_to-cases, stopped-cases, new-Sets, run-Sets,
}
use hycast.P2p.Reassign.OnePeer.{
  Exclusive, is_tracked, add-Exclusive, should_request-Exclusive, received-Exclusive,
  erase-Exclusive, reset_counts-Exclusive,
}

-- In the middle of a handover, with the chunks `cs` of the stopped peer `p` still to be given away:
-- apart from `p` no two peers have requested the same chunk, and no one has requested those of `cs`.
record Handover (p : ℕ) (cs : List ChunkId) (b : SubBookkeeper) : Type 0 where
  one :
      (q r : ℕ) (c : ChunkId)
      → q ≢ p
      → r ≢ p
      → has_requested q c b ≡ true
      → has_requested r c b ≡ true
      → q ≡ r
  todo : (q : ℕ) (c : ChunkId) → q ≢ p → contains c cs ≡ true → has_requested q c b ≡ false
  tracked : (q : ℕ) (c : ChunkId) → has_requested q c b ≡ true → is_tracked c b ≡ true

tracked-requested :
    (a : ℕ) (c d : ChunkId) (b : SubBookkeeper) → is_tracked d (requested a c b) ≡ is_tracked d b
unfolding requested
tracked-requested a c d b = refl

-- One chunk given away.
requested-Handover :
    (p a : ℕ) (c : ChunkId) (cs : List ChunkId) (b : SubBookkeeper)
    → contains c cs ≡ false
    → is_tracked c b ≡ true
    → Handover p (c ∷ cs) b
    → Handover p cs (requested a c b)
unfolding contains
requested-Handover p a c cs b new known v = record {
  one = λ q r d nq nr h k. ground (
    arith,
    has_requested-requested a q c d b,
    has_requested-requested a r c d b,
    v.one q r d nq nr,
    v.todo q c nq,
    v.todo r c nr,
  );
  todo = λ q d nq h. ground (arith, has_requested-requested a q c d b, v.todo q d nq);
  tracked = λ q d h.
      ground (arith, has_requested-requested a q c d b, v.tracked q d, tracked-requested a c d b);
}

-- One round of the loop.
give_to-Handover :
    (requests : Requests) (p : ℕ) (c : ChunkId) (cs : List ChunkId) (b : SubBookkeeper)
    → contains c cs ≡ false
    → Handover p (c ∷ cs) b
    → Handover p cs (give_to requests c (pop_best_alt c b)).2
unfolding contains
give_to-Handover requests p c cs b new v =
    give_to-cases (Handover p cs) requests c b
      (record {
        one = v.one;
        todo = λ q d nq h. ground (arith, v.todo q d nq);
        tracked = v.tracked;
      })
      λ a peers asked.
        let popped : SubBookkeeper = record b {
          alt_peers = Dict.put ChunkId-discrete c peers b.alt_peers;
        } in
        let kept : ((q : ℕ) (d : ChunkId)
            → has_requested q d b ≡ true
            → is_tracked d popped ≡ true) =
          λ q d h.
            ground (arith, v.tracked q d, Dict.find-put ChunkId-discrete c d peers b.alt_peers) in
        (
          requested-Handover p a c cs popped new
              (ground (arith, Dict.find-put ChunkId-discrete c c peers b.alt_peers))
              (record { one = v.one; todo = v.todo; tracked = kept }),
          record { one = v.one; todo = λ q d nq h. ground (arith, v.todo q d nq); tracked = kept },
        )

reassign-Handover :
    (requests : Requests) (p : ℕ) (cs : List ChunkId) (b : SubBookkeeper)
    → ((a : ℕ) (d : ChunkId) → requests a d ≢ throws)
    → IsASet cs
    → Handover p cs b
    → Handover p [] (reassign requests cs b).2
unfolding reassign
reassign-Handover requests p [] b alive s v = v
reassign-Handover requests p (c ∷ cs) b alive s v =
    let o = give_to requests c (pop_best_alt c b) in
    let returned = give_to-returns requests c (pop_best_alt c b) alive in
    rw (ap (λ (x : Outcome). x.2) (then_go-returns (reassign requests cs) o returned))
      (reassign-Handover requests p cs o.2 alive s.1 (give_to-Handover requests p c cs b s.0 v))

-- At the start, what `p` has requested no one else has; at the end `p` is forgotten.
Handover-starts :
    (p : ℕ) (i : PeerInfo) (b : SubBookkeeper)
    → Dict.find ℕ_discrete p b.peer_infos ≡ some i
    → Exclusive b
    → Handover p i.req_chunks b
Handover-starts p i b known v = record {
  one = λ q r c nq nr h k. v.one q r c h k;
  todo = λ q c nq h. elim (Bool-cases (has_requested q c b)) [
    | inl has ↦ absurd (nq (v.one q p c has (has-known p c b i known ∙ h)))
    | inr lacks ↦ lacks
  ];
  tracked = v.tracked;
}

Handover-ends : (p : ℕ) (b : SubBookkeeper) → Handover p [] b → Exclusive (erase p b)
unfolding erase
Handover-ends p b v = record {
  one = λ q r c h k.
      ground (arith, has_in-erase p q c b.peer_infos, has_in-erase p r c b.peer_infos, v.one q r c);
  tracked = λ q c h.
      ground
        (arith, has_in-erase p q c b.peer_infos, v.tracked q c, find-remove_alt p c b.alt_peers);
}

stopped-Exclusive :
    (requests : Requests) (p : ℕ) (b : SubBookkeeper)
    → ((a : ℕ) (d : ChunkId) → requests a d ≢ throws)
    → Sets b
    → Exclusive b
    → Exclusive (stopped requests p b).2
stopped-Exclusive requests p b alive s v =
    stopped-cases (λ r. Exclusive r.2) requests p b (λ e. v)
      λ i known.
        let o = reassign requests i.req_chunks b in
        let returned = reassign-returns requests i.req_chunks b alive in
        let handed =
          reassign-Handover requests p i.req_chunks b alive
            (rw (requests_of-known p b.peer_infos i known) at (s p))
            (Handover-starts p i b known v) in
        rw (ap (λ (x : Outcome). x.2) (then_go-returns (forget p) o returned))
          (reset_counts-Exclusive (erase p o.2) (Handover-ends p o.2 handed))

step-Exclusive :
    (c : Call) (b : SubBookkeeper) → NoneHalted c → Sets b → Exclusive b → Exclusive (step c b)
unfolding step
step-Exclusive (adds p) b n s v = add-Exclusive p b v
step-Exclusive (drops p) b n s v = erase-Exclusive p b v
step-Exclusive (stops requests p) b n s v = stopped-Exclusive requests p b n s v
step-Exclusive (offers p c) b n s v = should_request-Exclusive p c b v
step-Exclusive (delivers p c) b n s v = received-Exclusive p c b v
step-Exclusive resets b n s v = reset_counts-Exclusive b v

new-Exclusive : Exclusive new
unfolding new has_in Dict.find
new-Exclusive = record { one = λ p q c h k. absurd (cc); tracked = λ p c h. absurd (cc) }

-- After any calls from the start in which no request to an alternative peer throws, since the peer has
-- been halted, no chunk is requested of two peers, and each chunk that is requested has an entry for
-- its alternative peers.
pub run-Exclusive : (cs : List Call) → All NoneHalted cs → Exclusive (run cs new)
unfolding run
run-Exclusive [] h = new-Exclusive
run-Exclusive (c ∷ cs) (alive, h) =
    step-Exclusive c (run cs new) alive (run-Sets cs new new-Sets) (run-Exclusive cs h)
