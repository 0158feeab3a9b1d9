-- ===== src/P2p/SubBookkeeper/Invariant.antt =====
-- The invariant that main/p2p/Bookkeeper.cpp states for `SubBookkeeper`: no peer that has requested a
-- chunk is among the alternative peers for it.

use hycast.Prelude.{ℕ, ◌≡◌, Bool, true, false, List, [], ◌∷◌, ◌++◌, arith, Result, ok, err}
use hycast.Prelude.Dict.{Dict, or_default}
use hycast.Prelude.Dict
use hycast.Protocol.ChunkId.{ChunkId, ChunkId-discrete}
use hycast.P2p.SubBookkeeper.{
  SubBookkeeper, has_requested, add, note_request, note_alt, note_received, should_request,
  received, reset_counts, pop_best_alt, requested, erase,
}
use hycast.P2p.SubBookkeeper.Effects.{
  listed, listed-append, listed-remove_peer, has_in-erase, has_in-insert, has_in-reset_infos,
  find-remove_alt, has-note_request, has-note_received, has_requested-requested,
}
use hycast.P2p.SubBookkeeper.Cases.{should_request-cases, received-cases, pop_best_alt-cases}

abbrev pub alternatives : ChunkId → SubBookkeeper → List ℕ
alternatives c b = or_default [] (Dict.find ChunkId-discrete c b.alt_peers)

abbrev pub Inv : SubBookkeeper → Type 0
Inv b = (p : ℕ) (c : ChunkId) → has_requested p c b ≡ true → listed p (alternatives c b) ≡ false

-- `P` of the state after a call that returns; nothing is said of a call that throws.
abbrev pub After : (SubBookkeeper → Type 0) → Result (Bool × SubBookkeeper) → Type 0
After P (ok (answer, b)) = P b
After P (err e) = Unit

pub add-Inv : (p : ℕ) (b : SubBookkeeper) → Inv b → Inv (add p b)
unfolding add
add-Inv p b v q c h = v q c (ground (arith, has_in-insert p q c b.peer_infos))

-- If no peer that has requested a chunk is among the alternative peers for it, the same holds
-- after any call of `shouldRequest()` that returns.
pub should_request-Inv :
    (p : ℕ) (c : ChunkId) (b : SubBookkeeper) → Inv b → After Inv (should_request p c b)
unfolding note_request note_alt listed
should_request-Inv p c b v =
    should_request-cases (After Inv) p c b (λ e. tt)
      (λ i fresh known lacks q d h. ground (
        arith,
        has-note_request p q c d b i known,
        Dict.find-put ChunkId-discrete c d [] b.alt_peers,
        v q d,
      ))
      (λ peers asked lacks q d h. ground (
        arith,
        Dict.find-put ChunkId-discrete c d (peers ++ p ∷ []) b.alt_peers,
        listed-append q p peers,
        v q d,
      ))

-- If no peer that has requested a chunk is among the alternative peers for it, the same holds
-- after any call of `received()` that returns.
received-Inv : (p : ℕ) (c : ChunkId) (b : SubBookkeeper) → Inv b → After Inv (received p c b)
unfolding note_received listed
received-Inv p c b v =
    received-cases (After Inv) p c b (λ e. tt)
      (λ i known has q d h. ground (
        arith,
        has-note_received p q c d b i known,
        Dict.find-erase ChunkId-discrete c d b.alt_peers,
        v q d,
      ))
      (λ i known lacks. v)

-- If no peer that has requested a chunk is among the alternative peers for it, the same holds
-- after `popBestAlt()`.
pop_best_alt-Inv : (c : ChunkId) (b : SubBookkeeper) → Inv b → Inv (pop_best_alt c b).1
unfolding listed
pop_best_alt-Inv c b v =
    pop_best_alt-cases (λ r. Inv r.1) c b v
      λ peer peers asked q d h.
        ground (arith, Dict.find-put ChunkId-discrete c d peers b.alt_peers, v q d)

-- If no peer that has requested a chunk is among the alternative peers for it, the same holds
-- after `requested()`, provided that the peer is not among the alternative peers for the chunk.
requested-Inv :
    (p : ℕ) (c : ChunkId) (b : SubBookkeeper)
    → Inv b
    → listed p (alternatives c b) ≡ false
    → Inv (requested p c b)
unfolding requested
requested-Inv p c b v free q d h = ground (arith, has_requested-requested p q c d b, v q d)

-- If no peer that has requested a chunk is among the alternative peers for it, the same holds
-- after `erase()`.
erase-Inv : (p : ℕ) (b : SubBookkeeper) → Inv b → Inv (erase p b)
unfolding erase listed
erase-Inv p b v q d h = ground (
  arith,
  has_in-erase p q d b.peer_infos,
  find-remove_alt p d b.alt_peers,
  listed-remove_peer q p (alternatives d b),
  v q d,
)

pub reset_counts-Inv : (b : SubBookkeeper) → Inv b → Inv (reset_counts b)
unfolding reset_counts
reset_counts-Inv b v q d h = ground (arith, has_in-reset_infos q d b.peer_infos, v q d)

-- If no peer that has requested a chunk is among the alternative peers for it, the same holds after
-- `add()`, `erase()`, `popBestAlt()` and `resetCounts()`, and after any call of `shouldRequest()` and
-- of `received()` that returns. Nothing is said of a call that throws.
pub calls-Inv :
    (p : ℕ) (c : ChunkId) (b : SubBookkeeper)
    → Inv b
    → Inv (add p b)
      × Inv (erase p b)
      × Inv (pop_best_alt c b).1
      × Inv (reset_counts b)
      × After Inv (should_request p c b)
      × After Inv (received p c b)
calls-Inv p c b v = (
  add-Inv p b v,
  erase-Inv p b v,
  pop_best_alt-Inv c b v,
  reset_counts-Inv b v,
  should_request-Inv p c b v,
  received-Inv p c b v,
)
