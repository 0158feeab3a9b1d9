-- ===== src/Tests/Books.antt =====
-- The bookkeepers of main/p2p/Bookkeeper.cpp on concrete calls.
use hycast.Prelude.{
  ℕ, ltb, ◌≡◌, refl, Bool, true, false, some, List, [], ◌∷◌, arith, ℕ_discrete, ok, err,
  logic_error, ite, ◌≢◌,
}
use hycast.Prelude.Dict
use hycast.Protocol.ChunkId.{ChunkId, prod, ChunkId-discrete}
use hycast.P2p.WorstPeer.{worst_from}
use hycast.P2p.PubBookkeeper.{count_after}
use hycast.P2p.PubBookkeeper
use hycast.P2p.SubBookkeeper.{
  SubBookkeeper, PeerInfo, new, contains, note_received, insert_chunk, erase_chunk, remove_peer,
  has_in, has_requested, note_request, note_alt, should_request, received, pop_best_alt, requested,
  erase, get_worst_peer, get_worst_peer_with, path_counts,
}
use hycast.P2p.SubBookkeeper
use hycast.P2p.SubBookkeeper.Invariant.{Inv, After, add-Inv, should_request-Inv, calls-Inv}
use hycast.P2p.Reassign.{
  queues, throws, Requests, Sent, Call, adds, offers, settle, step, run, stopped,
}
use hycast.P2p.Admission.{replaces, add_active, replace_worst, maybe_add, maybe_add_full}
use hycast.P2p.Reassign.OnePeer.{Exclusive}
use hycast.P2p.Reassign.Exclusive.{run-Exclusive}
use hycast.P2p.Reassign.Orphans.{Declines, stopped-Declines}
use hycast.P2p.Reassign.Halted.{halted_alternative_requests_twice}
use hycast.P2p.Reassign.HandedOver.{IsSent, Holds, stopped_hands_over}

abbrev pub_calls : List PubBookkeeper.Call
pub_calls =
    PubBookkeeper.requests 1
    ∷ PubBookkeeper.requests 2
    ∷ PubBookkeeper.requests 1
    ∷ PubBookkeeper.adds 2
    ∷ PubBookkeeper.adds 1
    ∷ []

worst_is_2 : PubBookkeeper.get_worst_peer (PubBookkeeper.run pub_calls) ≡ some 2
unfolding PubBookkeeper.run PubBookkeeper.step PubBookkeeper.add PubBookkeeper.requested
    PubBookkeeper.get_worst_peer Dict.put Dict.find Dict.insert worst_from ℕ_discrete
worst_is_2 = refl

-- Peer 1 is asked for a chunk that the peers 2 and 3 offer, too.
abbrev chunk : ChunkId
chunk = prod 7

abbrev history : List Call
history = offers 3 chunk ∷ offers 2 chunk ∷ offers 1 chunk ∷ adds 3 ∷ adds 2 ∷ adds 1 ∷ []

run-Exclusive_example : Exclusive (run history new)
run-Exclusive_example = run-Exclusive history (tt, (tt, (tt, (tt, (tt, (tt, tt))))))

history-requested : has_requested 1 chunk (run history new) ≡ true
unfolding run step should_request SubBookkeeper.add new note_request note_alt
    SubBookkeeper.request_first has_in contains insert_chunk Dict.find Dict.put Dict.insert
    ChunkId-discrete ℕ_discrete
history-requested = refl

history-alternatives :
    Dict.find ChunkId-discrete chunk (run history new).alt_peers ≡ some (2 ∷ 3 ∷ [])
unfolding run step should_request SubBookkeeper.add new note_request note_alt
    SubBookkeeper.request_first has_in contains insert_chunk Dict.find Dict.put Dict.insert
    ChunkId-discrete ℕ_discrete
history-alternatives = refl

abbrev all_queue : Requests
all_queue = λ peer c. queues

all_queue-alive : (peer : ℕ) (c : ChunkId) → all_queue peer c ≢ throws
all_queue-alive peer c e = absurd (cc)

stopped_hands_over_example :
    (sent : Sent) × (after : SubBookkeeper) × (stopped all_queue 1 (run history new)
      ≡ (sent, ok tt, after))
    × IsSent 2 chunk sent
    × Holds 2 chunk (remove_peer 1 (3 ∷ [])) after
stopped_hands_over_example =
    stopped_hands_over history all_queue 1 2 chunk (3 ∷ []) all_queue-alive history-requested
      history-alternatives (omega arith) refl

-- Peer 1 is asked for two chunks, of which peer 2 has one and peer 3, which is halted, the other.
abbrev second_chunk : ChunkId
second_chunk = prod 8

abbrev both : List Call
both =
    offers 3 second_chunk
    ∷ offers 2 chunk
    ∷ offers 1 chunk
    ∷ offers 1 second_chunk
    ∷ adds 3
    ∷ adds 2
    ∷ adds 1
    ∷ []

abbrev three_halted : Requests
three_halted = λ peer c. ite (ℕ_discrete peer 3) throws queues

abbrev asked_twice : PeerInfo
asked_twice = record { req_chunks = chunk ∷ second_chunk ∷ []; chunk_count = 0 }

both-facts :
    (Dict.find ℕ_discrete 1 (run both new).peer_infos ≡ some asked_twice)
    × (Dict.find ChunkId-discrete chunk (run both new).alt_peers ≡ some (2 ∷ []))
    × (Dict.find ChunkId-discrete second_chunk (run both new).alt_peers ≡ some (3 ∷ []))
    × (three_halted 2 chunk ≡ queues)
    × (three_halted 3 second_chunk ≡ throws)
unfolding run step should_request SubBookkeeper.add new note_request note_alt
    SubBookkeeper.request_first has_in contains insert_chunk Dict.find Dict.put Dict.insert
    ChunkId-discrete ℕ_discrete
both-facts = (refl, refl, refl, refl, refl)

halted_alternative_requests_twice_example :
    (after : SubBookkeeper) × (stopped three_halted 1 (run both new)
      ≡ ((2, chunk) ∷ [], err logic_error, after))
    × (has_requested 1 chunk after ≡ true)
    × (has_requested 2 chunk after ≡ true)
    × ¬ Exclusive after
halted_alternative_requests_twice_example =
    halted_alternative_requests_twice both three_halted 1 2 3 chunk second_chunk [] [] []
      asked_twice both-facts.0 refl both-facts.1 both-facts.2 (omega arith) both-facts.3
      both-facts.4

-- Only peer 1 has offered the chunk.
abbrev alone : List Call
alone = offers 1 chunk ∷ adds 1 ∷ []

alone-requested : has_requested 1 chunk (run alone new) ≡ true
unfolding run step should_request SubBookkeeper.add new note_request note_alt
    SubBookkeeper.request_first has_in contains insert_chunk Dict.find Dict.put Dict.insert
    ChunkId-discrete ℕ_discrete
alone-requested = refl

alone-alternatives : Dict.find ChunkId-discrete chunk (run alone new).alt_peers ≡ some []
unfolding run step should_request SubBookkeeper.add new note_request note_alt
    SubBookkeeper.request_first has_in contains insert_chunk Dict.find Dict.put Dict.insert
    ChunkId-discrete ℕ_discrete
alone-alternatives = refl

stopped-Declines_example :
    Declines (should_request 2 chunk (run (adds 2 ∷ []) (run (Call.stops all_queue 1 ∷ alone) new)))
stopped-Declines_example =
    stopped-Declines alone all_queue 1 chunk (all_queue-alive, (tt, (tt, tt))) alone-requested
      alone-alternatives (adds 2 ∷ []) 2

new-Inv : Inv new
unfolding new has_in Dict.find
new-Inv p c h = absurd (cc)

abbrev started : SubBookkeeper
started = SubBookkeeper.add 2 (SubBookkeeper.add 1 new)

started-Inv : Inv started
started-Inv = add-Inv 2 _ (add-Inv 1 _ new-Inv)

-- Peer 1 is asked for the chunk, and peer 2 could be.
abbrev asked : SubBookkeeper
asked =
    note_alt 2 chunk [] (note_request 1 chunk (record { req_chunks = []; chunk_count = 0 }) started)

asked-result :
    should_request 2 chunk (settle started (should_request 1 chunk started)) ≡ ok (false, asked)
unfolding should_request SubBookkeeper.add new note_request note_alt SubBookkeeper.request_first
    has_in contains insert_chunk Dict.find Dict.put Dict.insert ChunkId-discrete ℕ_discrete
asked-result = refl

first-result :
    should_request 1 chunk started
    ≡ ok (true, note_request 1 chunk (record { req_chunks = []; chunk_count = 0 }) started)
unfolding should_request SubBookkeeper.add new SubBookkeeper.request_first has_in contains Dict.find
    Dict.put Dict.insert ChunkId-discrete ℕ_discrete
first-result = refl

asked-Inv : Inv asked
asked-Inv =
    let first = rw first-result at (should_request-Inv 1 chunk started started-Inv) in
    rw asked-result at (
      should_request-Inv 2 chunk (settle started (should_request 1 chunk started))
        (rw first-result first))

-- Peer 1 has a path to the publisher, peer 2 and the new peer 3 have none.
abbrev is_first : ℕ → Bool
is_first p = ltb p 2

abbrev with_third : SubBookkeeper
with_third = SubBookkeeper.reset_counts (SubBookkeeper.add 3 started)

abbrev two_peers : ℕ
two_peers = 2

started-maybe_add : maybe_add is_first true 2 2 3 started ≡ (replaces 2, with_third)
unfolding maybe_add maybe_add_full replace_worst add_active path_counts get_worst_peer_with
    worst_from SubBookkeeper.add new Dict.find Dict.put Dict.insert ℕ_discrete
started-maybe_add = refl

calls-Inv_example :
    Inv (SubBookkeeper.add 2 asked)
    × Inv (erase 2 asked)
    × Inv (pop_best_alt chunk asked).1
    × Inv (SubBookkeeper.reset_counts asked)
    × After Inv (should_request 2 chunk asked)
    × After Inv (received 2 chunk asked)
calls-Inv_example = calls-Inv 2 chunk asked asked-Inv
