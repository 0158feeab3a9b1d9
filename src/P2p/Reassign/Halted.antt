-- ===== src/P2p/Reassign/Halted.antt =====
-- A stop whose handover an exception cuts short: the alternative peer of a later chunk has been halted.
use hycast.Prelude.{
  ℕ, ◌≡◌, ◌≢◌, refl, true, some, List, [], ◌∷◌, arith, ℕ_discrete, err, logic_error,
}
use hycast.Prelude.Dict
use hycast.Protocol.ChunkId.{ChunkId, ChunkId-discrete}
use hycast.P2p.SubBookkeeper.{
  PeerInfo, SubBookkeeper, new, contains, has_requested, get_requested, pop_best_alt, requested,
}
use hycast.P2p.SubBookkeeper.Effects.{has-known, has_requested-requested}
use hycast.P2p.Reassign.{
  queues, throws, Requests, give_to, reassign, reassign_pending, stopped, Call, run,
}
use hycast.P2p.Reassign.Sets.{IsASet, requests_of-known, new-Sets, run-Sets}
use hycast.P2p.Reassign.OnePeer.{Exclusive}

module _ (requests : Requests) (p a a' : ℕ) (c d : ChunkId) (cs : List ChunkId)
    (more more' : List ℕ) (b : SubBookkeeper) where
  -- The state when the exception is thrown: the first chunk is given away, the second one popped.
  abbrev given : SubBookkeeper
  given = requested a c (record b { alt_peers = Dict.put ChunkId-discrete c more b.alt_peers })

  abbrev cut_short : SubBookkeeper
  cut_short = record given { alt_peers = Dict.put ChunkId-discrete d more' given.alt_peers }

  given-alternatives :
      c ≢ d
      → Dict.find ChunkId-discrete d b.alt_peers ≡ some (a' ∷ more')
      → Dict.find ChunkId-discrete d given.alt_peers ≡ some (a' ∷ more')
  unfolding requested
  given-alternatives n e = ground (arith, e, Dict.find-put ChunkId-discrete c d more b.alt_peers)

  stopped-cut_short :
      (i : PeerInfo)
      → Dict.find ℕ_discrete p b.peer_infos ≡ some i
      → i.req_chunks ≡ c ∷ d ∷ cs
      → c ≢ d
      → Dict.find ChunkId-discrete c b.alt_peers ≡ some (a ∷ more)
      → Dict.find ChunkId-discrete d b.alt_peers ≡ some (a' ∷ more')
      → requests a c ≡ queues
      → requests a' d ≡ throws
      → stopped requests p b ≡ ((a, c) ∷ [], err logic_error, cut_short)
  unfolding stopped reassign_pending get_requested reassign give_to pop_best_alt
  stopped-cut_short i known has n first second alive halted =
      let later = given-alternatives n second in
      rw (known, stopped, reassign_pending, get_requested, has)
        (rw (first, reassign, pop_best_alt, give_to, alive)
          (rw (later, reassign, pop_best_alt, give_to, halted) refl))

-- After any calls from the start, a peer stops whose set of requested chunks has a chunk first, then a
-- second one, and perhaps others. The first alternative peer of the first chunk is not the stopped one, and queues the
-- request; that of the second chunk has been halted, and its `request()` throws. Then `stopped()`
-- throws, the stopped peer stays with the bookkeeper, and the first chunk is requested both of it and
-- of the alternative peer.
pub halted_alternative_requests_twice :
    (history : List Call) (requests : Requests) (p a a' : ℕ) (c d : ChunkId) (cs : List ChunkId)
    (more more' : List ℕ) (i : PeerInfo)
    → let b = run history new in
      Dict.find ℕ_discrete p b.peer_infos ≡ some i
      → i.req_chunks ≡ c ∷ d ∷ cs
      → Dict.find ChunkId-discrete c b.alt_peers ≡ some (a ∷ more)
      → Dict.find ChunkId-discrete d b.alt_peers ≡ some (a' ∷ more')
      → a ≢ p
      → requests a c ≡ queues
      → requests a' d ≡ throws
      → (after : SubBookkeeper) × (stopped requests p b ≡ ((a, c) ∷ [], err logic_error, after))
        × (has_requested p c after ≡ true)
        × (has_requested a c after ≡ true)
        × ¬ Exclusive after
unfolding contains
halted_alternative_requests_twice history requests p a a' c d cs more more' i known has first second
      n alive halted =
    let b = run history new in
    let set : IsASet i.req_chunks =
      rw (requests_of-known p b.peer_infos i known) at (run-Sets history new new-Sets p) in
    let two : IsASet (c ∷ d ∷ cs) = rw has at set in
    let apart : (c ≢ d) = λ e. let new = two.0 in ground arith in
    let popped : SubBookkeeper = record b {
      alt_peers = Dict.put ChunkId-discrete c more b.alt_peers;
    } in
    let by_p : (has_requested p c b ≡ true) = ground (arith, has-known p c b i known, has) in
    let p_has : (has_requested p c (requested a c popped) ≡ true) =
      ground (arith, has_requested-requested a p c c popped, by_p) in
    let a_has : (has_requested a c (requested a c popped) ≡ true) =
      ground (arith, has_requested-requested a a c c popped) in
    (
      cut_short requests p a a' c d cs more more' b,
      stopped-cut_short requests p a a' c d cs more more' b i known has apart first second alive
          halted,
      p_has,
      a_has,
      λ v. n (v.one a p c a_has p_has),
    )
