-- ===== src/P2p/Reassign/Sets.antt =====
-- No call puts a chunk twice into the set of a peer's requests.
use hycast.Prelude.{
  ℕ, ◌≡◌, ◌≢◌, refl, ap, ◌∙◌, Option, inl, inr, false, none, some, List, [], ◌∷◌, ◌++◌, arith,
  ℕ_discrete, Option-cases, Bool-cases, ok, err, out_of_range,
}
use hycast.Prelude.Dict.{Dict, or_default}
use hycast.Prelude.Dict
use hycast.Protocol.ChunkId.{ChunkId, ChunkId-discrete}
use hycast.P2p.SubBookkeeper.{
  PeerInfo, SubBookkeeper, default_info, new, contains, insert_chunk, erase_chunk, add,
  note_request, note_alt, should_request, note_received, received, reset_infos, reset_counts,
  get_requested, pop_best_alt, requested, erase,
}
use hycast.P2p.SubBookkeeper.Effects.{contains-erase_chunk}
use hycast.P2p.SubBookkeeper.Cases.{should_request-cases, received-cases, pop_best_alt-cases}
use hycast.P2p.Reassign.{
  Request, queues, ignores, throws, Requests, Outcome, requested_of, then_go, forget, give_to,
  reassign, reassign_pending, stopped, Call, adds, drops, stops, offers, delivers, resets, settle,
  step, run,
}

abbrev pub IsASet : List ChunkId → Type 0
IsASet [] = Unit
IsASet (c ∷ cs) = (contains c cs ≡ false) × IsASet cs

-- The set of requested chunks of a peer, empty if the peer is not known.
unfoldable pub requests_of : ℕ → Dict ℕ PeerInfo → List ChunkId
requests_of p infos = elim (Dict.find ℕ_discrete p infos) [ none ↦ [] | some i ↦ i.req_chunks ]

abbrev pub Sets : SubBookkeeper → Type 0
Sets b = (p : ℕ) → IsASet (requests_of p b.peer_infos)

insert_chunk-IsASet : (c : ChunkId) (cs : List ChunkId) → IsASet cs → IsASet (insert_chunk c cs)
unfolding insert_chunk
insert_chunk-IsASet c cs s = elim (Bool-cases (contains c cs)) [
  | inl old ↦ rw (old, insert_chunk) s
  | inr new ↦ rw (new, insert_chunk) (new, s)
]

erase_chunk-IsASet : (c : ChunkId) (cs : List ChunkId) → IsASet cs → IsASet (erase_chunk c cs)
unfolding erase_chunk
erase_chunk-IsASet c [] s = tt
erase_chunk-IsASet c (d ∷ ds) s =
    ground (arith, erase_chunk-IsASet c ds s.1, contains-erase_chunk d c ds)

pub requests_of-known :
    (p : ℕ) (m : Dict ℕ PeerInfo) (i : PeerInfo)
    → Dict.find ℕ_discrete p m ≡ some i
    → requests_of p m ≡ i.req_chunks
unfolding requests_of
requests_of-known p m i h = ground arith

-- A write of a set.
put-Sets :
    (p : ℕ) (i : PeerInfo) (m : Dict ℕ PeerInfo)
    → IsASet i.req_chunks
    → ((q : ℕ) → IsASet (requests_of q m))
    → (q : ℕ) → IsASet (requests_of q (Dict.put ℕ_discrete p i m))
unfolding requests_of
put-Sets p i m s v q = elim (ℕ_discrete p q) [
  | yes same ↦
      let e : (requests_of q (Dict.put ℕ_discrete p i m) ≡ i.req_chunks) =
        ground (arith, Dict.find-put ℕ_discrete p q i m) in
      rw e s
  | no other ↦
      let e : (requests_of q (Dict.put ℕ_discrete p i m) ≡ requests_of q m) =
        ground (arith, Dict.find-put ℕ_discrete p q i m) in
      rw e (v q)
]

add-Sets : (p : ℕ) (b : SubBookkeeper) → Sets b → Sets (add p b)
unfolding add Dict.insert
add-Sets p b v = elim (Option-cases (Dict.find ℕ_discrete p b.peer_infos)) [
  | inl fresh ↦ rw (fresh, Dict.insert) (put-Sets p default_info b.peer_infos tt v)
  | inr (i, known) ↦ rw (known, Dict.insert) v
]

requested-Sets : (p : ℕ) (c : ChunkId) (b : SubBookkeeper) → Sets b → Sets (requested p c b)
unfolding requested requests_of
requested-Sets p c b v = elim (Option-cases (Dict.find ℕ_discrete p b.peer_infos)) [
  | inl unknown ↦
      rw (unknown, requested) (put-Sets p _ b.peer_infos (insert_chunk-IsASet c [] tt) v)
  | inr (i, known) ↦
      rw (known, requested)
        (put-Sets p _ b.peer_infos
          (insert_chunk-IsASet c i.req_chunks
            (rw (requests_of-known p b.peer_infos i known) at (v p)))
          v)
]

should_request-Sets :
    (p : ℕ) (c : ChunkId) (b : SubBookkeeper) → Sets b → Sets (settle b (should_request p c b))
unfolding note_request note_alt
should_request-Sets p c b v =
    should_request-cases (λ r. Sets (settle b r)) p c b (λ e. v)
      (λ i fresh known lacks.
        put-Sets p _ b.peer_infos
          (insert_chunk-IsASet c i.req_chunks
            (rw (requests_of-known p b.peer_infos i known) at (v p)))
          v)
      (λ peers asked lacks. v)

received-Sets :
    (p : ℕ) (c : ChunkId) (b : SubBookkeeper) → Sets b → Sets (settle b (received p c b))
unfolding note_received
received-Sets p c b v =
    received-cases (λ r. Sets (settle b r)) p c b (λ e. v)
      (λ i known has.
        put-Sets p _ b.peer_infos
          (erase_chunk-IsASet c i.req_chunks
            (rw (requests_of-known p b.peer_infos i known) at (v p)))
          v)
      (λ i known lacks. v)

erase-Sets : (p : ℕ) (b : SubBookkeeper) → Sets b → Sets (erase p b)
unfolding erase requests_of
erase-Sets p b v q = elim (ℕ_discrete p q) [
  | yes same ↦
      let e : (requests_of q (Dict.erase ℕ_discrete p b.peer_infos) ≡ []) =
        ground (arith, Dict.find-erase ℕ_discrete p q b.peer_infos) in
      rw e tt
  | no other ↦
      let e : (requests_of q (Dict.erase ℕ_discrete p b.peer_infos) ≡ requests_of q b.peer_infos) =
        ground (arith, Dict.find-erase ℕ_discrete p q b.peer_infos) in
      rw e (v q)
]

requests_of-reset_infos :
    (q : ℕ) (m : Dict ℕ PeerInfo) → requests_of q (reset_infos m) ≡ requests_of q m
unfolding requests_of reset_infos Dict.find
requests_of-reset_infos q [] = refl
requests_of-reset_infos q ((p, i) ∷ m) = ground (arith, requests_of-reset_infos q m)

reset_counts-Sets : (b : SubBookkeeper) → Sets b → Sets (reset_counts b)
unfolding reset_counts
reset_counts-Sets b v q = rw (requests_of-reset_infos q b.peer_infos) (v q)

-- A rule for the state after one round: nothing was asked, a peer was asked, or that threw.
pub give_to-cases {ℓ} :
    (P : SubBookkeeper → Type ℓ) (requests : Requests) (c : ChunkId) (b : SubBookkeeper)
    → P b
    → ((peer : ℕ) (peers : List ℕ)
        → Dict.find ChunkId-discrete c b.alt_peers ≡ some (peer ∷ peers)
        → let popped : SubBookkeeper = record b {
          alt_peers = Dict.put ChunkId-discrete c peers b.alt_peers;
        } in
          P (requested peer c popped) × P popped)
    → P (give_to requests c (pop_best_alt c b)).2
unfolding give_to
give_to-cases P requests c b nothing asks =
    pop_best_alt-cases (λ r. P (give_to requests c r).2) c b nothing
      λ peer peers asked. after (requests peer c) peer peers asked
  where
    after :
        (r : Request) (peer : ℕ) (peers : List ℕ)
        → Dict.find ChunkId-discrete c b.alt_peers ≡ some (peer ∷ peers)
        → P
            (requested_of r peer c
              (record b { alt_peers = Dict.put ChunkId-discrete c peers b.alt_peers })).2
    after queues peer peers asked = (asks peer peers asked).0
    after ignores peer peers asked = (asks peer peers asked).0
    after throws peer peers asked = (asks peer peers asked).1

-- What holds of the loop's state: it is kept by each round, and by the exception that ends it.
pub then_go-keeps {ℓ} :
    (P : SubBookkeeper → Type ℓ) (rest : SubBookkeeper → Outcome) (o : Outcome)
    → P o.2
    → ((b : SubBookkeeper) → P b → P (rest b).2)
    → P (then_go rest o).2
then_go-keeps P rest (sent, err e, b) now later = now
then_go-keeps P rest (sent, ok u, b) now later = later b now

-- Nothing has thrown before.
pub then_go-returns :
    (rest : SubBookkeeper → Outcome) (o : Outcome)
    → o.1 ≡ ok tt
    → then_go rest o ≡ (o.0 ++ (rest o.2).0, (rest o.2).1, (rest o.2).2)
then_go-returns rest (sent, err e, b) h = absurd (cc)
then_go-returns rest (sent, ok u, b) h = refl

give_to-Sets :
    (requests : Requests) (c : ChunkId) (b : SubBookkeeper)
    → Sets b
    → Sets (give_to requests c (pop_best_alt c b)).2
give_to-Sets requests c b v =
    give_to-cases Sets requests c b v λ peer peers asked. (requested-Sets peer c _ v, v)

reassign-Sets :
    (requests : Requests) (cs : List ChunkId) (b : SubBookkeeper)
    → Sets b
    → Sets (reassign requests cs b).2
unfolding reassign
reassign-Sets requests [] b v = v
reassign-Sets requests (c ∷ cs) b v =
    then_go-keeps Sets (reassign requests cs) _ (give_to-Sets requests c b v)
      (reassign-Sets requests cs)

-- Where no request throws, the loop comes to its end.
pub give_to-returns :
    (requests : Requests) (c : ChunkId) (o : Option ℕ × SubBookkeeper)
    → ((a : ℕ) (d : ChunkId) → requests a d ≢ throws)
    → (give_to requests c o).1 ≡ ok tt
unfolding give_to
give_to-returns requests c (none, b) alive = refl
give_to-returns requests c (some a, b) alive = of_request (requests a c) (alive a c)
  where
    of_request : (r : Request) → r ≢ throws → (requested_of r a c b).1 ≡ ok tt
    of_request queues n = refl
    of_request ignores n = refl
    of_request throws n = absurd (n refl)

pub reassign-returns :
    (requests : Requests) (cs : List ChunkId) (b : SubBookkeeper)
    → ((a : ℕ) (d : ChunkId) → requests a d ≢ throws)
    → (reassign requests cs b).1 ≡ ok tt
unfolding reassign
reassign-returns requests [] b alive = refl
reassign-returns requests (c ∷ cs) b alive =
    let o = give_to requests c (pop_best_alt c b) in
    ap (λ (x : Outcome). x.1)
      (then_go-returns (reassign requests cs) o
        (give_to-returns requests c (pop_best_alt c b) alive))
    ∙ reassign-returns requests cs o.2 alive

-- `stopped()`, where the peer is known: what its parts amount to.
pub stopped-cases {ℓ} :
    (P : Outcome → Type ℓ) (requests : Requests) (p : ℕ) (b : SubBookkeeper)
    → (Dict.find ℕ_discrete p b.peer_infos ≡ none → P ([], err out_of_range, b))
    → ((i : PeerInfo)
        → Dict.find ℕ_discrete p b.peer_infos ≡ some i
        → P (then_go (forget p) (reassign requests i.req_chunks b)))
    → P (stopped requests p b)
unfolding stopped reassign_pending get_requested
stopped-cases P requests p b unknown known =
    elim (Option-cases (Dict.find ℕ_discrete p b.peer_infos)) [
      | inl e ↦ rw (e, stopped, reassign_pending, get_requested) (unknown e)
      | inr (i, e) ↦ rw (e, stopped, reassign_pending, get_requested) (known i e)
    ]

step-Sets : (c : Call) (b : SubBookkeeper) → Sets b → Sets (step c b)
unfolding step
step-Sets (adds p) b v = add-Sets p b v
step-Sets (drops p) b v = erase-Sets p b v
step-Sets (stops requests p) b v =
    stopped-cases (λ r. Sets r.2) requests p b (λ e. v)
      λ i e.
        then_go-keeps Sets (forget p) (reassign requests i.req_chunks b)
          (reassign-Sets requests i.req_chunks b v)
          λ after kept. reset_counts-Sets (erase p after) (erase-Sets p after kept)
step-Sets (offers p c) b v = should_request-Sets p c b v
step-Sets (delivers p c) b v = received-Sets p c b v
step-Sets resets b v = reset_counts-Sets b v

pub new-Sets : Sets new
unfolding new requests_of Dict.find
new-Sets p = tt

pub run-Sets : (cs : List Call) (b : SubBookkeeper) → Sets b → Sets (run cs b)
unfolding run
run-Sets [] b v = v
run-Sets (c ∷ cs) b v = step-Sets c (run cs b) (run-Sets cs b v)
