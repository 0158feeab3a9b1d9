-- ===== src/P2p/SubBookkeeper/Cases.antt =====
-- The branches of the operations of `SubBookkeeper`, as rules for what holds of their results.
use hycast.Prelude.{
  ℕ, ◌≡◌, inl, inr, Bool, true, false, Option, none, some, List, ◌∷◌, [], Option-cases, Bool-cases,
  Error, Result, ok, err, ℕ_discrete,
}
use hycast.Prelude.Dict
use hycast.Protocol.ChunkId.{ChunkId, ChunkId-discrete}
use hycast.P2p.SubBookkeeper.{
  PeerInfo, SubBookkeeper, contains, has_requested, note_request, request_first, note_alt,
  should_request, note_received, received, pop_best_alt,
}

module _ {ℓ} (P : Result (Bool × SubBookkeeper) → Type ℓ) (p : ℕ) (c : ChunkId) (b : SubBookkeeper)
    (failed : (e : Error) → P (err e)) where
  pub should_request-cases :
      ((i : PeerInfo)
        → Dict.find ChunkId-discrete c b.alt_peers ≡ none
        → Dict.find ℕ_discrete p b.peer_infos ≡ some i
        → contains c i.req_chunks ≡ false
        → P (ok (true, note_request p c i b)))
      → ((peers : List ℕ)
          → Dict.find ChunkId-discrete c b.alt_peers ≡ some peers
          → has_requested p c b ≡ false
          → P (ok (false, note_alt p c peers b)))
      → P (should_request p c b)
  unfolding should_request
  should_request-cases first later =
      elim (Option-cases (Dict.find ChunkId-discrete c b.alt_peers)) [
        | inl fresh ↦ elim (Option-cases (Dict.find ℕ_discrete p b.peer_infos)) [
          | inl unknown ↦ rw (fresh, should_request, unknown, request_first) (failed _)
          | inr (i, known) ↦ elim (Bool-cases (contains c i.req_chunks)) [
            | inl has ↦ rw (fresh, should_request, known, request_first, has) (failed _)
            | inr lacks ↦
                rw (fresh, should_request, known, request_first, lacks) (first i fresh known lacks)
          ]
        ]
        | inr (peers, asked) ↦ elim (Bool-cases (has_requested p c b)) [
          | inl has ↦ rw (asked, should_request, has) (failed _)
          | inr lacks ↦ rw (asked, should_request, lacks) (later peers asked lacks)
        ]
      ]

  pub received-cases :
      ((i : PeerInfo)
        → Dict.find ℕ_discrete p b.peer_infos ≡ some i
        → contains c i.req_chunks ≡ true
        → P (ok (true, note_received p c i b)))
      → ((i : PeerInfo)
          → Dict.find ℕ_discrete p b.peer_infos ≡ some i
          → contains c i.req_chunks ≡ false
          → P (ok (false, b)))
      → P (received p c b)
  unfolding received
  received-cases had lacked = elim (Option-cases (Dict.find ℕ_discrete p b.peer_infos)) [
    | inl unknown ↦ rw (unknown, received) (failed _)
    | inr (i, known) ↦ elim (Bool-cases (contains c i.req_chunks)) [
      | inl has ↦ rw (known, received, has) (had i known has)
      | inr lacks ↦ rw (known, received, lacks) (lacked i known lacks)
    ]
  ]

pub pop_best_alt-cases {ℓ} :
    (P : Option ℕ × SubBookkeeper → Type ℓ) (c : ChunkId) (b : SubBookkeeper)
    → P (none, b)
    → ((peer : ℕ) (peers : List ℕ)
        → Dict.find ChunkId-discrete c b.alt_peers ≡ some (peer ∷ peers)
        → P (some peer, record b { alt_peers = Dict.put ChunkId-discrete c peers b.alt_peers }))
    → P (pop_best_alt c b)
unfolding pop_best_alt
pop_best_alt-cases P c b empty full =
    elim (Option-cases (Dict.find ChunkId-discrete c b.alt_peers)) [
      | inl none_known ↦ rw (none_known, pop_best_alt) empty
      | inr (peers, known) ↦ go peers known
    ]
  where
    go :
        (peers : List ℕ)
        → Dict.find ChunkId-discrete c b.alt_peers ≡ some peers
        → P (pop_best_alt c b)
    go [] known = rw (known, pop_best_alt) empty
    go (peer ∷ peers) known = rw (known, pop_best_alt) (full peer peers known)
