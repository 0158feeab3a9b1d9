-- ===== src/Protocol/McastProto/Worn.antt =====
-- How long a socket of main/inet/Socket.cpp can send the messages of main/protocol/McastProto.cpp: the
-- places of its arrays for numbers are used once.
use hycast.Prelude.{
  ℕ, ◌+◌, ◌/◌, ◌%◌, ◌^◌, ◌≤◌, ◌<◌, ◌≡◌, refl, ap, ◌∙◌, true, List, [], ◌∷◌, arith, length, take,
  All, Result, ok, err, out_of_range, dec_lt,
}
use hycast.Inet.TcpSock.{pad_len, network16, network32}
use hycast.Inet.UdpSock.{
  max_payload, UdpOut, Sending, ◌andthen◌, then_send, add_write, add_write16, add_write32, write,
  new_out,
}
use hycast.Inet.UdpSock.Writes.{added, add_write16-fits, add_write32-fits, add_write32-full}
use hycast.Protocol.PeerProto.{Chunk, info_chunk, seg_chunk, declined, prod_info_id, data_seg_id}
use hycast.Protocol.PeerProto.Segments.{take-all}
use hycast.Protocol.McastProto.{multicast_info, multicast_seg}
use hycast.Protocol.McastProto.Datagrams.{
  idle, andthen-step, multicast_info-sends, multicast_seg-sends,
}
use hycast.Protocol.McastProto.Losses.{Fits, send_chunk, send_all}

-- The numbers of 32 bits in a chunk.
abbrev pub words : Chunk → ℕ
words (info_chunk info) = 2
words (seg_chunk info bytes) = 3
words (declined info) = 0

abbrev pub words_of : List Chunk → ℕ
words_of [] = 0
words_of (c ∷ cs) = words c + words_of cs

-- What comes after an exception is not done.
abbrev Fails : Sending → UdpOut → Type 0
Fails call o = (call o).0 ≡ err out_of_range

then_send-Fails :
    (next : Sending) (p : Result (Unit {0}) × UdpOut)
    → p.0 ≡ err out_of_range
    → (then_send next p).0 ≡ err out_of_range
then_send-Fails next (ok u, o) e = absurd (cc)
then_send-Fails next (err x, o) e = e

module _ (iov_max : ℕ) (sent : List (List ℕ)) (nxt16 nxt32 : ℕ) (few : 5 < iov_max)
    (places : nxt16 + 1 < max_payload / 2) where
  -- Two numbers of 16 bits, and then one, two and three of 32 bits.
  abbrev one_word : (a b c : ℕ) → Sending
  one_word a b c = add_write16 a andthen add_write16 b andthen add_write32 c

  abbrev two_words : (a b c d : ℕ) → Sending
  two_words a b c d = one_word a b c andthen add_write32 d

  abbrev three_words : (a b c d e : ℕ) → Sending
  three_words a b c d e = two_words a b c d andthen add_write32 e

  abbrev after16 : (a b : ℕ) → UdpOut
  after16 a b =
      added (network16 b)
        (record (added (network16 a)
          (record (idle iov_max sent nxt16 nxt32) { nxt16 = nxt16 + 1 })) { nxt16 = nxt16 + 1 + 1 })

  after16-added :
      (a b : ℕ)
      → (add_write16 a andthen add_write16 b) (idle iov_max sent nxt16 nxt32) ≡ (ok tt, after16 a b)
  unfolding pad_len
  after16-added a b =
      let o = idle iov_max sent nxt16 nxt32 in
      let o1 = added (network16 a) (record o { nxt16 = nxt16 + 1 }) in
      andthen-step (add_write16 a) (add_write16 b) o o1
        (add_write16-fits a o refl (omega arith) (omega arith) (omega arith))
      ∙ add_write16-fits b o1 refl (omega arith) (omega arith) (omega arith)

  abbrev after32 : (a b c : ℕ) → UdpOut
  after32 a b c = added (network32 c) (record (after16 a b) { nxt32 = nxt32 + 1 })

  after32-added :
      (a b c : ℕ)
      → nxt32 < max_payload / 4
      → one_word a b c (idle iov_max sent nxt16 nxt32) ≡ (ok tt, after32 a b c)
  unfolding pad_len
  after32-added a b c room =
      ap (then_send (add_write32 c)) (after16-added a b)
      ∙ add_write32-fits c (after16 a b) refl (omega arith) (omega arith) room

  one_word-Fails :
      (a b c : ℕ) → max_payload / 4 ≤ nxt32 → Fails (one_word a b c) (idle iov_max sent nxt16 nxt32)
  unfolding pad_len
  one_word-Fails a b c full =
      ap (λ (p : Result (Unit {0}) × UdpOut). p.0)
        (ap (then_send (add_write32 c)) (after16-added a b)
          ∙ add_write32-full c (after16 a b) refl full)

  two_words-Fails :
      (a b c d : ℕ)
      → max_payload / 4 < nxt32 + 2
      → Fails (two_words a b c d) (idle iov_max sent nxt16 nxt32)
  unfolding pad_len
  two_words-Fails a b c d full = elim (dec_lt nxt32 (max_payload / 4)) [
    | no late ↦
        then_send-Fails (add_write32 d) (one_word a b c (idle iov_max sent nxt16 nxt32))
          (one_word-Fails a b c (omega arith))
    | yes room ↦
        ap (λ (p : Result (Unit {0}) × UdpOut). p.0)
          (ap (then_send (add_write32 d)) (after32-added a b c room)
            ∙ add_write32-full d (after32 a b c) refl (omega arith))
  ]

  three_words-Fails :
      (a b c d e : ℕ)
      → max_payload / 4 < nxt32 + 3
      → Fails (three_words a b c d e) (idle iov_max sent nxt16 nxt32)
  unfolding pad_len
  three_words-Fails a b c d e full = elim (dec_lt (nxt32 + 1) (max_payload / 4)) [
    | no late ↦
        then_send-Fails (add_write32 e) (two_words a b c d (idle iov_max sent nxt16 nxt32))
          (two_words-Fails a b c d (omega arith))
    | yes room ↦
        let o3 = after32 a b c in
        let o4 = added (network32 d) (record o3 { nxt32 = nxt32 + 1 + 1 }) in
        ap (λ (p : Result (Unit {0}) × UdpOut). p.0)
          (ap (λ q. then_send (add_write32 e) (then_send (add_write32 d) q))
              (after32-added a b c (omega arith))
            ∙ ap (then_send (add_write32 e))
                (add_write32-fits d o3 refl (omega arith) (omega arith) (omega arith))
            ∙ add_write32-full e o4 refl (omega arith))
  ]

  send_chunk-Fails :
      (c : Chunk)
      → Fits c
      → max_payload / 4 < nxt32 + words c
      → Fails (send_chunk c) (idle iov_max sent nxt16 nxt32)
  unfolding multicast_info multicast_seg
  send_chunk-Fails (info_chunk info) fits full = then_send-Fails (write true) _ (
      then_send-Fails (add_write info.name) _ (
        two_words-Fails prod_info_id (length info.name % 2 ^ 16) info.prod_index info.prod_size
          full))
  send_chunk-Fails (seg_chunk info bytes) fits full = then_send-Fails (write true) _ (
      then_send-Fails (add_write (take info.seg_size bytes)) _ (
        three_words-Fails data_seg_id info.seg_size info.id.prod_index info.prod_size
          info.id.seg_offset full))
  send_chunk-Fails (declined info) fits full = absurd fits

wears_from :
    (cs : List Chunk) (iov_max : ℕ) (sent : List (List ℕ)) (nxt16 nxt32 : ℕ)
    → 5 < iov_max
    → All Fits cs
    → nxt16 ≤ nxt32
    → nxt32 ≤ max_payload / 4
    → max_payload / 4 < nxt32 + words_of cs
    → Fails (send_all cs) (idle iov_max sent nxt16 nxt32)
wears_from [] iov_max sent nxt16 nxt32 few fits less used h = absurd (omega arith)
wears_from (info_chunk info ∷ cs) iov_max sent nxt16 nxt32 few (fits, rest) less used h =
    elim (dec_lt (max_payload / 4) (nxt32 + 2)) [
      | yes full ↦
          then_send-Fails (send_all cs) _ (
            send_chunk-Fails iov_max sent nxt16 nxt32 few (omega arith) (info_chunk info) fits full)
      | no room ↦
          ap (λ (p : Result (Unit {0}) × UdpOut). (then_send (send_all cs) p).0)
            (multicast_info-sends iov_max sent nxt16 nxt32 few info fits.1 (omega arith)
              (omega arith))
          ∙ wears_from cs iov_max _ (nxt16 + 1 + 1) (nxt32 + 1 + 1) few rest (omega arith)
              (omega arith) (omega arith)
    ]
wears_from (seg_chunk info bytes ∷ cs) iov_max sent nxt16 nxt32 few (fits, rest) less used h =
    elim (dec_lt (max_payload / 4) (nxt32 + 3)) [
      | yes full ↦ then_send-Fails (send_all cs) _ (
          send_chunk-Fails iov_max sent nxt16 nxt32 few (omega arith) (seg_chunk info bytes) fits
            full)
      | no room ↦
          let whole = take-all info.seg_size bytes fits.1 in
          ap (λ (p : Result (Unit {0}) × UdpOut). (then_send (send_all cs) p).0)
            (multicast_seg-sends iov_max sent nxt16 nxt32 few info bytes
              (rw whole (omega (arith, fits.1, fits.2))) (omega arith) (omega arith))
          ∙ wears_from cs iov_max _ (nxt16 + 1 + 1) (nxt32 + 1 + 1 + 1) few rest (omega arith)
              (omega arith) (omega arith)
    ]
wears_from (declined info ∷ cs) iov_max sent nxt16 nxt32 few (fits, rest) less used h = absurd fits

-- On one socket, chunks that each fit into a datagram cannot all be sent once the numbers of 32 bits
-- in them, two for product-information and three for a segment, are more than a single datagram has
-- room for: a number is then written behind the end of the socket's array of them.
pub sender_wears_out :
    (cs : List Chunk) (iov_max : ℕ)
    → 5 < iov_max
    → All Fits cs
    → max_payload / 4 < words_of cs
    → (send_all cs (new_out iov_max)).0 ≡ err out_of_range
unfolding new_out
sender_wears_out cs iov_max few fits many =
    wears_from cs iov_max [] 0 0 few fits (omega arith) (omega arith) (omega arith)
