-- ===== src/Protocol/McastProto/Losses.antt =====
-- Which of the chunks that are sent by main/protocol/McastProto.cpp are handed over by the other end.
use hycast.Prelude.{
  ℕ, zero, suc, ◌+◌, ◌*◌, ◌/◌, ◌≤◌, ◌<◌, ◌≡◌, refl, sym, ap, ◌∙◌, Bool, true, List, [], ◌∷◌, ◌++◌,
  arith, length, map, All, ok, ◌>>=◌,
}
use mathlib.Core.List.{append_assoc, append-nil}
use hycast.Inet.TcpSock.{pad_len}
use hycast.Inet.UdpSock.{
  max_payload, UdpOut, Sending, then_send, new_out, new_in, peek, discard, reset_for_next_peek,
}
use hycast.Inet.UdpSock.Peeks.{add_peek_number-fits, peeking}
use hycast.Protocol.PeerProto.{SegInfo, Chunk, info_chunk, seg_chunk, declined, End, halted}
use hycast.Protocol.PeerProto.Messages.{IsInfo, IsSegInfo}
use hycast.Protocol.PeerProto.Segments.{take-all}
use hycast.Protocol.McastProto.{multicast_info, multicast_seg, ends, hands, turn, goes_on, receive}
use hycast.Protocol.McastProto.Datagrams.{
  info_datagram, seg_datagram, idle, multicast_info-sends, multicast_seg-sends,
}
use hycast.Protocol.McastProto.Receipt.{chunk_of, turn-info, turn-seg}

-- The datagram of a chunk, and the call that sends it.
abbrev pub datagram : Chunk → List ℕ
datagram (info_chunk info) = info_datagram info
datagram (seg_chunk info bytes) = seg_datagram info bytes
datagram (declined info) = []

abbrev pub send_chunk : Chunk → Sending
send_chunk (info_chunk info) o = multicast_info true info o
send_chunk (seg_chunk info bytes) o = multicast_seg true info bytes o
send_chunk (declined info) o = (ok tt, o)

abbrev pub send_all : List Chunk → Sending
send_all [] o = (ok tt, o)
send_all (c ∷ cs) o = then_send (send_all cs) (send_chunk c o)

-- The chunk fits into a datagram.
abbrev pub Fits : Chunk → Type 0
Fits (info_chunk info) = IsInfo info × (length info.name + 12 ≤ max_payload)
Fits (seg_chunk info bytes) =
    IsSegInfo info × (length bytes ≡ info.seg_size) × (info.seg_size + 16 ≤ max_payload)
Fits (declined info) = ⊥

-- What the subscriber makes of a chunk.
abbrev pub seen : (SegInfo → Bool) → Chunk → Chunk
seen takes (seg_chunk info bytes) = chunk_of takes info bytes
seen takes c = c

-- The first, the third, the fifth, and so on.
abbrev pub every_other {ℓ} : {A : Type ℓ} → List A → List A
every_other [] = []
every_other (x ∷ []) = x ∷ []
every_other (x ∷ y ∷ xs) = x ∷ every_other xs

module _ (takes : SegInfo → Bool) (iov_max : ℕ) (few : 4 < iov_max) where
  pub turn-datagram :
      (c : Chunk) (packets : List (List ℕ))
      → Fits c
      → turn takes (new_in iov_max (datagram c ∷ packets))
        ≡ ok (hands (seen takes c), new_in iov_max packets)
  turn-datagram (info_chunk info) packets (valid, short) =
      turn-info takes iov_max few packets info valid short
  turn-datagram (seg_chunk info bytes) packets (valid, size, short) =
      turn-seg takes iov_max few packets info bytes valid size short
  turn-datagram (declined info) packets h = absurd h

  -- No datagram is left.
  pub turn-ends : turn takes (new_in iov_max []) ≡ ok (ends, peeking 2 (new_in iov_max []))
  unfolding turn pad_len peek
  turn-ends =
      rw (add_peek_number-fits 2 (new_in iov_max []) refl (omega arith) (omega arith), ◌>>=◌) refl

  receive-nothing : (fuel : ℕ) → 0 < fuel → receive takes fuel (new_in iov_max []) ≡ ([], halted)
  unfolding receive
  receive-nothing zero h = absurd (omega arith)
  receive-nothing (suc fuel) h = ap (goes_on (receive takes fuel)) turn-ends

  -- The datagram behind one that was received is lost.
  every_other_received :
      (cs : List Chunk) (fuel : ℕ)
      → All Fits cs
      → length cs < fuel
      → receive takes fuel (new_in iov_max (map datagram cs))
        ≡ (map (seen takes) (every_other cs), halted)
  unfolding receive discard reset_for_next_peek
  every_other_received cs zero fits h = absurd (omega arith)
  every_other_received [] (suc fuel) fits h = receive-nothing (suc fuel) (omega arith)
  every_other_received (c ∷ []) (suc fuel) (fits, rest) h =
      ap (goes_on (receive takes fuel)) (turn-datagram c [] fits)
      ∙ ap (λ (p : List Chunk × End). (seen takes c ∷ p.0, p.1))
          (receive-nothing fuel (omega arith))
  every_other_received (c ∷ d ∷ cs) (suc fuel) (fits, (lost, rest)) h =
      ap (goes_on (receive takes fuel)) (turn-datagram c (map datagram (d ∷ cs)) fits)
      ∙ ap (λ (p : List Chunk × End). (seen takes c ∷ p.0, p.1))
          (every_other_received cs fuel rest (omega arith))

-- The socket sends each chunk as a datagram as long as its arrays have room.
pub send_all-sends :
    (cs : List Chunk) (iov_max : ℕ) (sent : List (List ℕ)) (nxt16 nxt32 : ℕ)
    → 5 < iov_max
    → All Fits cs
    → nxt16 + length cs * 2 ≤ max_payload / 2
    → nxt32 + length cs * 3 ≤ max_payload / 4
    → (o : UdpOut) × (send_all cs (idle iov_max sent nxt16 nxt32) ≡ (ok tt, o))
      × (o.sent ≡ sent ++ map datagram cs)
send_all-sends [] iov_max sent nxt16 nxt32 few fits h k =
    (idle iov_max sent nxt16 nxt32, refl, sym (append-nil sent))
send_all-sends (info_chunk info ∷ cs) iov_max sent nxt16 nxt32 few (fits, rest) h k =
    let first =
      multicast_info-sends iov_max sent nxt16 nxt32 few info fits.1 (omega arith) (omega arith) in
    let (o, done, all) =
      send_all-sends cs iov_max (sent ++ info_datagram info ∷ []) (nxt16 + 1 + 1) (nxt32 + 1 + 1)
        few rest (omega arith) (omega arith) in
    (o, ap (then_send (send_all cs)) first ∙ done, all ∙ append_assoc sent _ (map datagram cs))
send_all-sends (seg_chunk info bytes ∷ cs) iov_max sent nxt16 nxt32 few (fits, rest) h k =
    let whole = take-all info.seg_size bytes fits.1 in
    let first = rw whole at (
      multicast_seg-sends iov_max sent nxt16 nxt32 few info bytes
        (rw whole (omega (arith, fits.1, fits.2))) (omega arith) (omega arith)) in
    let (o, done, all) =
      send_all-sends cs iov_max (sent ++ seg_datagram info bytes ∷ []) (nxt16 + 1 + 1)
        (nxt32 + 1 + 1 + 1) few rest (omega arith) (omega arith) in
    (o, ap (then_send (send_all cs)) first ∙ done, all ∙ append_assoc sent _ (map datagram cs))
send_all-sends (declined info ∷ cs) iov_max sent nxt16 nxt32 few (fits, rest) h k = absurd fits

-- Chunks that fit into datagrams, no more of them than the sender's arrays have room for, are sent on
-- a new socket, and all datagrams arrive, in order, until the receiver is halted. Then the receiving
-- loop hands over the first chunk, the third one, and so on, and halts: the datagram behind each one
-- that it hands over is discarded, since the loop discards a datagram after the handler has done so.
pub every_other_arrives :
    (takes : SegInfo → Bool) (cs : List Chunk) (iov_max fuel : ℕ)
    → 5 < iov_max
    → All Fits cs
    → length cs * 3 ≤ max_payload / 4
    → length cs < fuel
    → (o : UdpOut) × (send_all cs (new_out iov_max) ≡ (ok tt, o))
      × (o.sent ≡ map datagram cs)
      × (receive takes fuel (new_in iov_max o.sent) ≡ (map (seen takes) (every_other cs), halted))
unfolding new_out
every_other_arrives takes cs iov_max fuel few fits room enough =
    let (o, done, all) = send_all-sends cs iov_max [] 0 0 few fits (omega arith) (omega arith) in
    let received = every_other_received takes iov_max (omega arith) cs fuel fits enough in
    (o, done, all, ap (λ (l : List (List ℕ)). receive takes fuel (new_in iov_max l)) all ∙ received)
