-- ===== src/P2p/Reassign/HandedOver.antt =====
-- A chunk that a stopped peer had requested, and for which other peers were noted: the first of them
-- gets the request.

use hycast.Prelude.{
  ℕ, ◌≡◌, ◌≢◌, refl, sym, ◌∙◌, ◌⊎◌, inl, inr, true, false, some, List, [], ◌∷◌, ◌++◌, arith,
  ℕ_discrete, ok,
}
use hycast.Prelude.Dict.{Dict, or_default}
use hycast.Prelude.Dict
use hycast.Protocol.ChunkId.{ChunkId, ChunkId-discrete}
use hycast.P2p.SubBookkeeper.{
  SubBookkeeper, new, contains, has_requested, reset_counts, pop_best_alt, requested, erase,
  remove_peer,
}
use hycast.P2p.SubBookkeeper.Effects.{
  has_in-erase, has_in-reset_infos, find-remove_alt, has-known, has-unknown,
  has_requested-requested,
}
use hycast.P2p.Reassign.{
  queues, throws, Requests, Sent, forget, give_to, reassign, stopped, Call, run,
}
use hycast.P2p.Reassign.Sets.{
  IsASet, Sets, requests_of-known, give_to-cases, then_go-keeps, then_go-returns, give_to-returns,
  reassign-returns, stopped-cases, new-Sets, run-Sets,
}

-- The chunk was requested of the peer.
abbrev pub IsSent : ℕ → ChunkId → Sent → Type 0
IsSent a c [] = ⊥
IsSent a c ((p, d) ∷ s) = ((p ≡ a) × (d ≡ c)) ⊎ IsSent a c s

IsSent-append :
    (a : ℕ) (c : ChunkId) (s t : Sent) → IsSent a c s ⊎ IsSent a c t → IsSent a c (s ++ t)
IsSent-append a c [] t (inl h) = absurd h
IsSent-append a c [] t (inr h) = h
IsSent-append a c ((p, d) ∷ s) t (inl (inl h)) = inl h
IsSent-append a c ((p, d) ∷ s) t (inl (inr h)) = inr (IsSent-append a c s t (inl h))
IsSent-append a c ((p, d) ∷ s) t (inr h) = inr (IsSent-append a c s t (inr h))

-- The peer `a` has requested the chunk, and the peers `rest` remain as alternatives.
pub record Holds (a : ℕ) (c : ChunkId) (rest : List ℕ) (b : SubBookkeeper) : Type 0 where
  pub has : has_requested a c b ≡ true
  pub alternatives : Dict.find ChunkId-discrete c b.alt_peers ≡ some rest

module _ (requests : Requests) (a : ℕ) (c : ChunkId) (rest : List ℕ)
    (alive : (q : ℕ) (d : ChunkId) → requests q d ≢ throws) where
  -- Rounds for other chunks change nothing of this.
  give_to-Holds :
      (d : ChunkId) (b : SubBookkeeper)
      → d ≢ c
      → Holds a c rest b
      → Holds a c rest (give_to requests d (pop_best_alt d b)).2
  give_to-Holds d b n v = give_to-cases (Holds a c rest) requests d b v λ q peers asked.
      let b' : SubBookkeeper = record b {
        alt_peers = Dict.put ChunkId-discrete d peers b.alt_peers;
      } in
      let put = Dict.find-put ChunkId-discrete d c peers b.alt_peers in
      (
        record {
          has = ground (arith, has_requested-requested q a d c b', v.has);
          alternatives = unfold requested in ground (arith, v.alternatives, put);
        },
        record { has = v.has; alternatives = ground (arith, v.alternatives, put) },
      )

  reassign-Holds :
      (cs : List ChunkId) (b : SubBookkeeper)
      → contains c cs ≡ false
      → Holds a c rest b
      → Holds a c rest (reassign requests cs b).2
  unfolding reassign contains
  reassign-Holds [] b n v = v
  reassign-Holds (d ∷ cs) b n v =
      then_go-keeps (Holds a c rest) (reassign requests cs) (give_to requests d (pop_best_alt d b))
        (give_to-Holds d b (λ e. ground arith) v) (λ b'. reassign-Holds cs b' (ground arith))

  -- The round for the chunk, whose alternative queues the request.
  give_to-first :
      (b : SubBookkeeper)
      → requests a c ≡ queues
      → Dict.find ChunkId-discrete c b.alt_peers ≡ some (a ∷ rest)
      → let o = give_to requests c (pop_best_alt c b) in (o.0 ≡ (a, c) ∷ []) × Holds a c rest o.2
  unfolding give_to pop_best_alt
  give_to-first b q e =
      let b' : SubBookkeeper = record b {
        alt_peers = Dict.put ChunkId-discrete c rest b.alt_peers;
      } in
      rw (e, pop_best_alt, q)
        (
          refl,
          record {
            has = ground (arith, has_requested-requested a a c c b');
            alternatives =
                unfold requested in
                ground (arith, Dict.find-put ChunkId-discrete c c rest b.alt_peers);
          },
        )

  -- Rounds before it leave its alternatives alone.
  give_to-before :
      (d : ChunkId) (b : SubBookkeeper)
      → d ≢ c
      → Dict.find ChunkId-discrete c b.alt_peers ≡ some (a ∷ rest)
      → Dict.find ChunkId-discrete c (give_to requests d (pop_best_alt d b)).2.alt_peers
        ≡ some (a ∷ rest)
  give_to-before d b n e =
      give_to-cases (λ b'. Dict.find ChunkId-discrete c b'.alt_peers ≡ some (a ∷ rest)) requests d b
        e
        λ q peers asked.
          let put = Dict.find-put ChunkId-discrete d c peers b.alt_peers in
          (unfold requested in ground (arith, e, put), ground (arith, e, put))

  reassign-first :
      (cs : List ChunkId) (b : SubBookkeeper)
      → requests a c ≡ queues
      → IsASet cs
      → contains c cs ≡ true
      → Dict.find ChunkId-discrete c b.alt_peers ≡ some (a ∷ rest)
      → IsSent a c (reassign requests cs b).0 × Holds a c rest (reassign requests cs b).2
  unfolding reassign contains
  reassign-first [] b q s h e = absurd (cc)
  reassign-first (d ∷ cs) b q s h e =
      let o = give_to requests d (pop_best_alt d b) in
      let goes_on =
        then_go-returns (reassign requests cs) o
          (give_to-returns requests d (pop_best_alt d b) alive) in
      rw goes_on (elim (ChunkId-discrete d c) [
        | yes same ↦
            let new : (contains c cs ≡ false) = rw same at (s.0) in
            let (sent, holds) = give_to-first b q e in
            let first : (o.0 ≡ (a, c) ∷ []) = rw same sent in
            (
              IsSent-append a c o.0 (reassign requests cs o.2).0
                  (inl (rw first (inl (refl, refl)))),
              reassign-Holds cs o.2 new (rw same holds),
            )
        | no other ↦
            let (sent, holds) =
              reassign-first cs o.2 q s.1 (ground arith) (give_to-before d b other e) in
            (IsSent-append a c o.0 (reassign requests cs o.2).0 (inr sent), holds)
      ])

-- What `stopped()` makes of a chunk of the stopped peer that has an alternative.
stopped-Holds :
    (requests : Requests) (p a : ℕ) (c : ChunkId) (rest : List ℕ) (b : SubBookkeeper)
    → ((q : ℕ) (d : ChunkId) → requests q d ≢ throws)
    → Sets b
    → has_requested p c b ≡ true
    → Dict.find ChunkId-discrete c b.alt_peers ≡ some (a ∷ rest)
    → a ≢ p
    → requests a c ≡ queues
    → (sent : Sent) × (after : SubBookkeeper) × (stopped requests p b ≡ (sent, ok tt, after))
      × IsSent a c sent
      × Holds a c (remove_peer p rest) after
stopped-Holds requests p a c rest b alive s has e n q =
    stopped-cases
      (λ r.
        (sent : Sent) × (after : SubBookkeeper) × (r ≡ (sent, ok tt, after))
        × IsSent a c sent
        × Holds a c (remove_peer p rest) after)
      requests p b (λ unknown. let gone = has-unknown p c b unknown in absurd (cc))
      λ i known.
        let set : IsASet i.req_chunks = rw (requests_of-known p b.peer_infos i known) at (s p) in
        let o = reassign requests i.req_chunks b in
        let (sent, v) =
          reassign-first requests a c rest alive i.req_chunks b q set
            (sym (has-known p c b i known) ∙ has) e in
        let after = o.2 in
        (
          o.0 ++ [],
          reset_counts (erase p after),
          then_go-returns (forget p) o (reassign-returns requests i.req_chunks b alive),
          IsSent-append a c o.0 [] (inl sent),
          unfold erase reset_counts in
              record {
                has = ground (
                  arith,
                  v.has,
                  has_in-erase p a c after.peer_infos,
                  has_in-reset_infos a c (Dict.erase ℕ_discrete p after.peer_infos),
                );
                alternatives = ground (arith, v.alternatives, find-remove_alt p c after.alt_peers);
              },
        )

-- After any calls from the start, a peer stops that a chunk was requested of, and no request to an
-- alternative peer throws, since the peer has been halted. If the first alternative peer noted for the
-- chunk is another one, and its queue of requests is not closed, then `stopped()` returns, the
-- alternative peer gets the request for the chunk into that queue and is noted as the one it is
-- requested of, and the other alternatives stay, less the stopped peer.
pub stopped_hands_over :
    (history : List Call) (requests : Requests) (p a : ℕ) (c : ChunkId) (rest : List ℕ)
    → ((q : ℕ) (d : ChunkId) → requests q d ≢ throws)
    → has_requested p c (run history new) ≡ true
    → Dict.find ChunkId-discrete c (run history new).alt_peers ≡ some (a ∷ rest)
    → a ≢ p
    → requests a c ≡ queues
    → (sent : Sent) × (after : SubBookkeeper) × (stopped requests p (run history new)
        ≡ (sent, ok tt, after))
      × IsSent a c sent
      × Holds a c (remove_peer p rest) after
stopped_hands_over history requests p a c rest alive =
    stopped-Holds requests p a c rest (run history new) alive (run-Sets history new new-Sets)
