-- ===== src/Tests/Datagrams.antt =====
-- Datagrams of main/protocol/McastProto.cpp on sockets whose vectors have 1024 elements.
use hycast.Prelude.{
  ℕ, ◌≡◌, refl, true, List, [], ◌∷◌, ◌++◌, arith, map, length, replicate, zero, suc, ap,
  length-replicate, All, Result, ok, err, out_of_range, invalid_argument, runtime_error,
}
use hycast.Inet.TcpSock.{pad_len}
use hycast.Inet.UdpSock.{
  UdpOut, new_out, new_in, add_write, add_write16, add_write32, align_write_to, vet_io_elt, write,
}
use hycast.Protocol.PeerProto.{ProdInfo, SegInfo, Chunk, info_chunk, seg_chunk, halted, failed}
use hycast.Protocol.McastProto.{multicast_info, receive}
use hycast.Protocol.McastProto.Datagrams.{idle, after_info}
use hycast.Protocol.McastProto.Losses.{
  datagram, send_all, send_chunk, Fits, seen, every_other, every_other_arrives,
}
use hycast.Protocol.McastProto.Stale.{multicast_info-exceeds, failed_send_ends_reception}
use hycast.Protocol.McastProto.Worn.{sender_wears_out}

abbrev short : ProdInfo
short = record { prod_index = 1; prod_size = 2; name = 97 ∷ [] }

abbrev segment : SegInfo
segment = record { id = record { prod_index = 1; seg_offset = 0 }; prod_size = 2; seg_size = 2 }

abbrev chunks : List Chunk
chunks = info_chunk short ∷ seg_chunk segment (7 ∷ 8 ∷ []) ∷ info_chunk short ∷ []

segment-Fits : Fits (seg_chunk segment (7 ∷ 8 ∷ []))
segment-Fits =
    ((((omega arith, omega arith), omega arith), omega arith, omega arith), refl, omega arith)

short-Fits : Fits (info_chunk short)
short-Fits = (((omega arith, omega arith), omega arith), omega arith)

every_other_arrives_example :
    (o : UdpOut) × (send_all chunks (new_out 1024) ≡ (ok tt, o))
    × (o.sent ≡ map datagram chunks)
    × (receive (λ info. true) 4 (new_in 1024 o.sent)
        ≡ (map (seen (λ info. true)) (every_other chunks), halted))
every_other_arrives_example =
    every_other_arrives (λ info. true) chunks 1024 4 (omega arith)
      (short-Fits, (segment-Fits, (short-Fits, tt))) (omega arith) (omega arith)

sender_wears_out_example :
    (send_all (replicate 185 (info_chunk short)) (new_out 1024)).0 ≡ err out_of_range
sender_wears_out_example =
    sender_wears_out (replicate 185 (info_chunk short)) 1024 (omega arith) (many 185) (omega arith)
  where
    many : (n : ℕ) → All Fits (replicate n (info_chunk short))
    many zero = tt
    many (suc n) = (short-Fits, many n)

-- A name with one byte more than there is room for.
abbrev long : ProdInfo
long = record { prod_index = 1; prod_size = 2; name = replicate 1461 97 }

long-length : length long.name ≡ 1461
long-length = length-replicate 1461 (let z : ℕ = 97 in z)

abbrev left : UdpOut
left = after_info 1024 [] 0 0 (omega arith) 1461 long

abbrev later : UdpOut
later = (send_chunk (info_chunk short) left).1

left-sends : send_chunk (info_chunk short) left ≡ (ok tt, later)
unfolding multicast_info add_write16 add_write32 add_write align_write_to vet_io_elt write pad_len
left-sends = refl

long-left : (multicast_info true long (idle 1024 [] 0 0)).1 ≡ left
long-left =
    ap (λ (p : Result (Unit {0}) × UdpOut). p.1)
      (multicast_info-exceeds 1024 [] 0 0 (omega arith) long (omega (arith, long-length))
        (omega (arith, long-length)) (omega arith) (omega arith))

failed_send_ends_reception_example :
    ((multicast_info true long (idle 1024 [] 0 0)).0 ≡ err invalid_argument)
    × ((p : List ℕ) × (later.sent ≡ [] ++ p ∷ [])
        × ((packets : List (List ℕ))
            → receive (λ info. true) 1 (new_in 1024 (p ∷ packets)) ≡ ([], failed runtime_error)))
failed_send_ends_reception_example =
    failed_send_ends_reception (λ info. true) long (info_chunk short) 1024 0 0 0 [] later
      ((omega arith, omega arith), omega arith) (omega (arith, long-length))
      (omega (arith, long-length)) short-Fits (omega arith) (omega arith) (omega arith)
      (rw long-left left-sends)
