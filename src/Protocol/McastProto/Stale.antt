-- ===== src/Protocol/McastProto/Stale.antt =====
-- Product-information that does not fit into a datagram of main/protocol/McastProto.cpp: what it
-- leaves behind in the socket, and what that does to the receivers.
use hycast.Prelude.{
  ℕ, suc, ◌+◌, ◌%◌, ◌/◌, ◌^◌, ◌<◌, ◌≡◌, refl, ap, ◌∙◌, Bool, true, List, [], ◌∷◌, ◌++◌, arith,
  length, take, Result, ok, err, ◌>>=◌, invalid_argument, runtime_error,
}
use hycast.Inet.TcpSock.{pad_len, network16, host}
use hycast.Inet.UdpSock.{
  max_payload, UdpOut, ◌andthen◌, then_send, add_write, add_write32, write, new_in, add_peek,
}
use hycast.Inet.UdpSock.Appends.{
  Appends, add_write-OnlyAppends, andthen-OnlyAppends, add_write32-OnlyAppends, body-Sent,
  two_numbers-OnlyAppends,
}
use hycast.Inet.UdpSock.Peeks.{add_peek_number-fits, peek-long, add_peek-exceeds}
use hycast.Inet.UdpSock.Writes.{add_write-exceeds}
use hycast.Protocol.PeerProto.{ProdInfo, SegInfo, Chunk, info_chunk, seg_chunk, declined, failed}
use hycast.Protocol.PeerProto.Messages.{IsInfo}
use hycast.Protocol.McastProto.{
  multicast_info, multicast_seg, if_there, turn, recv_prod_info, recv_name, goes_on, receive,
}
use hycast.Protocol.McastProto.Datagrams.{
  info_header, idle, put_info_header, put_seg_header, after_info, info_header-added,
}
use hycast.Protocol.McastProto.Losses.{Fits, send_chunk}
use hycast.Protocol.McastProto.Receipt.{skipped, add_common-asks, host-network16}

send_chunk-Sent :
    (c : Chunk) (o o' : UdpOut)
    → Fits c
    → send_chunk c o ≡ (ok tt, o')
    → (m : UdpOut) × Appends o m × (o'.sent ≡ m.sent ++ m.pending ∷ [])
unfolding multicast_info multicast_seg
send_chunk-Sent (info_chunk info) o o' h e =
    body-Sent (put_info_header (length info.name % 2 ^ 16) info andthen add_write info.name) o o'
      (andthen-OnlyAppends (put_info_header (length info.name % 2 ^ 16) info) (add_write info.name)
        (andthen-OnlyAppends _ (add_write32 info.prod_size) (two_numbers-OnlyAppends _ _ _)
          (add_write32-OnlyAppends info.prod_size))
        (add_write-OnlyAppends info.name))
      e
send_chunk-Sent (seg_chunk info bytes) o o' h e =
    body-Sent (put_seg_header info andthen add_write (take info.seg_size bytes)) o o'
      (andthen-OnlyAppends (put_seg_header info) (add_write (take info.seg_size bytes))
        (andthen-OnlyAppends _ (add_write32 info.id.seg_offset)
          (andthen-OnlyAppends _ (add_write32 info.prod_size) (two_numbers-OnlyAppends _ _ _)
            (add_write32-OnlyAppends info.prod_size))
          (add_write32-OnlyAppends info.id.seg_offset))
        (add_write-OnlyAppends (take info.seg_size bytes)))
      e
send_chunk-Sent (declined info) o o' h e = absurd h

-- The numbers of the information are left in the socket.
pub multicast_info-exceeds :
    (iov_max : ℕ) (sent : List (List ℕ)) (nxt16 nxt32 : ℕ) (few : 5 < iov_max) (info : ProdInfo)
    → max_payload < length info.name + 12
    → length info.name < 2 ^ 16
    → nxt16 + 1 < max_payload / 2
    → nxt32 + 1 < max_payload / 4
    → multicast_info true info (idle iov_max sent nxt16 nxt32)
      ≡ (err invalid_argument, after_info iov_max sent nxt16 nxt32 few (length info.name) info)
unfolding multicast_info
multicast_info-exceeds iov_max sent nxt16 nxt32 few info big cut places16 places32 =
    let small : (length info.name % 2 ^ 16 ≡ length info.name) = omega arith in
    let left = after_info iov_max sent nxt16 nxt32 few (length info.name) info in
    let header =
      info_header-added iov_max sent nxt16 nxt32 few (length info.name) info places16 places32 in
    rw (small, multicast_info)
      (ap (λ p. then_send (write true) (then_send (add_write info.name) p)) header
        ∙ ap (then_send (write true)) (add_write-exceeds info.name left (omega arith)))

-- A name that is announced to be longer than a datagram.
turn-exceeds :
    (takes : SegInfo → Bool) (iov_max : ℕ) (few : 4 < iov_max) (info : ProdInfo) (bytes : List ℕ)
    (packets : List (List ℕ))
    → IsInfo info
    → max_payload < length info.name + 12
    → length info.name < 2 ^ 16
    → turn takes (new_in iov_max ((info_header (length info.name) info ++ bytes) ∷ packets))
      ≡ err invalid_argument
unfolding turn recv_prod_info recv_name pad_len
turn-exceeds takes iov_max few info bytes packets valid big cut =
    let p = info_header (length info.name) info ++ bytes in
    let len = host-network16 (length info.name) cut in
    let i = skipped iov_max few p packets 12 in
    let refused : (add_peek (host (network16 (length info.name)) 0) i ≡ err invalid_argument) =
      rw len (add_peek-exceeds (length info.name) i (omega arith)) in
    rw
      (
        add_peek_number-fits 2 (skipped iov_max few p packets 0) refl (omega arith) (omega arith),
        ◌>>=◌,
        peek-long iov_max 0 2 2 p packets (omega arith),
        if_there,
        add_common-asks iov_max few p packets,
        ◌>>=◌,
        peek-long iov_max 2 10 4 p packets (omega arith),
        if_there,
      )
      (rw (refused, ◌>>=◌) refl)

-- Product-information whose name does not fit into a datagram, but is shorter than 2^16 bytes, is
-- refused with an exception. But its numbers stay in the socket, and if a chunk that would fit is sent
-- next, they are what its datagram begins with. Every receiving loop that gets this datagram first
-- ends with an exception and has handed over nothing, whatever comes after it.
pub failed_send_ends_reception :
    (takes : SegInfo → Bool) (info : ProdInfo) (c : Chunk) (iov_max nxt16 nxt32 fuel : ℕ)
    (sent : List (List ℕ)) (o : UdpOut)
    → IsInfo info
    → max_payload < length info.name + 12
    → length info.name < 2 ^ 16
    → Fits c
    → 5 < iov_max
    → nxt16 + 1 < max_payload / 2
    → nxt32 + 1 < max_payload / 4
    → let left = (multicast_info true info (idle iov_max sent nxt16 nxt32)).1 in
      send_chunk c left ≡ (ok tt, o)
      → ((multicast_info true info (idle iov_max sent nxt16 nxt32)).0 ≡ err invalid_argument)
        × ((p : List ℕ) × (o.sent ≡ sent ++ p ∷ [])
            × ((packets : List (List ℕ))
                → receive takes (suc fuel) (new_in iov_max (p ∷ packets))
                  ≡ ([], failed runtime_error)))
unfolding receive
failed_send_ends_reception takes info c iov_max nxt16 nxt32 fuel sent o valid big cut fits few
      places16 places32 e =
    let start = after_info iov_max sent nxt16 nxt32 few (length info.name) info in
    let refused =
      multicast_info-exceeds iov_max sent nxt16 nxt32 few info big cut places16 places32 in
    let next : (send_chunk c start ≡ (ok tt, o)) = rw refused at e in
    let (m, a, written) = send_chunk-Sent c start o fits next in
    (
      ap (λ (p : Result (Unit {0}) × UdpOut). p.0) refused,
      (
        m.pending,
        written ∙ ap (λ (l : List (List ℕ)). l ++ m.pending ∷ []) a.same_sent,
        λ packets.
            ap (λ (l : List ℕ). receive takes (suc fuel) (new_in iov_max (l ∷ packets))) a.appends
            ∙ ap (goes_on (receive takes fuel))
                (turn-exceeds takes iov_max (omega arith) info a.bytes packets valid big cut),
      ),
    )
