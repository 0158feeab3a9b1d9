-- ===== src/Protocol/McastProto/Receipt.antt =====
-- One turn of the receiving loop of main/protocol/McastProto.cpp on a datagram as it is sent.
use hycast.Prelude.{
  ℕ, ◌+◌, ◌^◌, ◌≤◌, ◌<◌, ◌≡◌, refl, ◌∙◌, Bool, false, List, ◌∷◌, arith, Bool-cases, inl, inr,
  length, ok, ◌>>=◌, if◌then◌else◌, ◌==◌,
}
use hycast.Inet.TcpSock.{pad_len, network16, network32, host}
use hycast.Inet.UdpSock.{max_payload, UdpIn, discard, reset_for_next_peek, new_in}
use hycast.Inet.UdpSock.Peeks.{peeking, add_peek-fits, add_peek_number-fits, peek-long}
use hycast.Protocol.PeerProto.{ProdInfo, SegInfo, Chunk, info_chunk, seg_chunk, declined}
use hycast.Protocol.PeerProto.Messages.{IsInfo, IsSegInfo}
use hycast.Protocol.PeerProto.Segments.{take-all}
use hycast.Protocol.McastProto.{
  hands, if_there, add_common, recv_name, recv_prod_info, here_is, hand_over, recv_data_seg, turn,
}
use hycast.Protocol.McastProto.Datagrams.{info_datagram, seg_datagram}

pub host-network16 : (v : ℕ) → v < 2 ^ 16 → host (network16 v) 0 ≡ v
host-network16 v h = omega arith

pub host-network32 : (v : ℕ) → v < 2 ^ 32 → host (network32 v) 0 ≡ v
host-network32 v h = omega arith

module _ (iov_max : ℕ) (few : 4 < iov_max) (packet : List ℕ) (packets : List (List ℕ)) where
  -- So many bytes of the first datagram were peeked at.
  abbrev pub skipped : ℕ → UdpIn
  skipped skip = record {
    iov_max = iov_max;
    packets = packet ∷ packets;
    skip = skip;
    num_peek = 0;
    iovlen = 1;
  }

  pub add_common-asks :
      add_common (skipped 2) ≡ ok (2, 4, 8, peeking 4 (peeking 4 (peeking 2 (skipped 2))))
  unfolding add_common pad_len
  add_common-asks =
      let i1 = peeking 2 (skipped 2) in
      let i2 = peeking 4 i1 in
      rw
        (
          add_peek_number-fits 2 (skipped 2) refl (omega arith) (omega arith),
          ◌>>=◌,
          add_peek_number-fits 4 i1 refl (omega arith) (omega arith),
          ◌>>=◌,
          add_peek_number-fits 4 i2 refl (omega arith) (omega arith),
        )
        refl

-- What the chunk is that is sent as `bytes`.
abbrev pub chunk_of : (SegInfo → Bool) → SegInfo → List ℕ → Chunk
chunk_of takes info bytes = if takes info then seg_chunk info bytes else declined info

module _ (takes : SegInfo → Bool) (iov_max : ℕ) (few : 4 < iov_max) (packets : List (List ℕ)) where
  recv_name-reads :
      (info : ProdInfo)
      → IsInfo info
      → length info.name + 12 ≤ max_payload
      → recv_name info.prod_index info.prod_size
          (length info.name)
          (skipped iov_max few (info_datagram info) packets 12)
        ≡ ok (hands (info_chunk info), new_in iov_max packets)
  unfolding recv_name discard reset_for_next_peek
  recv_name-reads info valid short =
      let p = info_datagram info in
      let i = skipped iov_max few p packets 12 in
      let n = length info.name in
      let index : ((info.prod_index == 0) ≡ false) = ground (arith, valid.0.0) in
      rw
        (
          add_peek-fits n i (omega arith) (omega arith),
          ◌>>=◌,
          peek-long iov_max 12 (0 + n) 2 p packets (omega arith),
          if_there,
          index,
          take-all n info.name refl,
        )
        refl

  recv_prod_info-reads :
      (info : ProdInfo)
      → IsInfo info
      → length info.name + 12 ≤ max_payload
      → recv_prod_info (skipped iov_max few (info_datagram info) packets 2)
        ≡ ok (hands (info_chunk info), new_in iov_max packets)
  unfolding recv_prod_info
  recv_prod_info-reads info valid short =
      let p = info_datagram info in
      let i = skipped iov_max few p packets 12 in
      let index = host-network32 info.prod_index (valid.0.1) in
      let size = host-network32 info.prod_size (valid.1) in
      let len : (host (network16 (length info.name)) 0 ≡ length info.name) = omega arith in
      let same : (recv_name (host (network32 info.prod_index) 0) (host (network32 info.prod_size) 0)
            (host (network16 (length info.name)) 0) i
          ≡ recv_name info.prod_index info.prod_size (length info.name) i) =
        λ j. recv_name (index j) (size j) (len j) i in
      rw
        (
          add_common-asks iov_max few p packets,
          ◌>>=◌,
          peek-long iov_max 2 10 4 p packets (omega arith),
          if_there,
        )
        (same ∙ recv_name-reads info valid short)

  -- Product-information that fits into a datagram is handed over.
  pub turn-info :
      (info : ProdInfo)
      → IsInfo info
      → length info.name + 12 ≤ max_payload
      → turn takes (new_in iov_max (info_datagram info ∷ packets))
        ≡ ok (hands (info_chunk info), new_in iov_max packets)
  unfolding turn pad_len
  turn-info info valid short =
      let p = info_datagram info in
      let i = skipped iov_max few p packets 0 in
      rw
        (
          add_peek_number-fits 2 i refl (omega arith) (omega arith),
          ◌>>=◌,
          peek-long iov_max 0 2 2 p packets (omega arith),
          if_there,
        )
        (recv_prod_info-reads info valid short)

  hand_over-reads :
      (info : SegInfo) (bytes : List ℕ)
      → 0 < info.id.prod_index
      → length bytes ≡ info.seg_size
      → info.seg_size + 16 ≤ max_payload
      → hand_over takes info (skipped iov_max few (seg_datagram info bytes) packets 16)
        ≡ ok (hands (chunk_of takes info bytes), new_in iov_max packets)
  unfolding hand_over here_is discard reset_for_next_peek
  hand_over-reads info bytes pos size short =
      let there : ((info.id.prod_index == 0) ≡ false) = ground arith in
      elim (Bool-cases (takes info)) [
        | inl takes_it ↦
            let p = seg_datagram info bytes in
            let n = info.seg_size in
            let i = skipped iov_max few p packets 16 in
            rw
              (
                there,
                takes_it,
                if◌then◌else◌,
                add_peek-fits n i (omega arith) (omega arith),
                ◌>>=◌,
                peek-long iov_max 16 (0 + n) 2 p packets (omega arith),
                take-all n bytes size,
              )
              refl
        | inr declines ↦ rw (there, declines, if◌then◌else◌) refl
      ]

  recv_data_seg-reads :
      (info : SegInfo) (bytes : List ℕ)
      → IsSegInfo info
      → length bytes ≡ info.seg_size
      → info.seg_size + 16 ≤ max_payload
      → recv_data_seg takes (skipped iov_max few (seg_datagram info bytes) packets 2)
        ≡ ok (hands (chunk_of takes info bytes), new_in iov_max packets)
  unfolding recv_data_seg pad_len
  recv_data_seg-reads info bytes valid size short =
      let p = seg_datagram info bytes in
      let i = skipped iov_max few p packets 2 in
      let index = host-network32 info.id.prod_index (valid.0.0.1) in
      let offset = host-network32 info.id.seg_offset (valid.0.1) in
      let prod_size = host-network32 info.prod_size (valid.1) in
      let len = host-network16 info.seg_size (valid.2) in
      let after = skipped iov_max few p packets 16 in
      let same : (hand_over takes (read_info info) after ≡ hand_over takes info after) = λ j.
        hand_over takes
          (record {
            id = record { prod_index = index j; seg_offset = offset j };
            prod_size = prod_size j;
            seg_size = len j;
          })
          after in
      rw
        (
          add_common-asks iov_max few p packets,
          ◌>>=◌,
          add_peek_number-fits 4 (peeking 4 (peeking 4 (peeking 2 i))) refl (omega arith)
              (omega arith),
          ◌>>=◌,
          peek-long iov_max 2 14 5 p packets (omega arith),
          if_there,
        )
        (same ∙ hand_over-reads info bytes valid.0.0.0 size short)
    where
      read_info : SegInfo → SegInfo
      read_info info = record {
        id = record {
          prod_index = host (network32 info.id.prod_index) 0;
          seg_offset = host (network32 info.id.seg_offset) 0;
        };
        prod_size = host (network32 info.prod_size) 0;
        seg_size = host (network16 info.seg_size) 0;
      }

  -- A segment that fits into a datagram is handed over.
  pub turn-seg :
      (info : SegInfo) (bytes : List ℕ)
      → IsSegInfo info
      → length bytes ≡ info.seg_size
      → info.seg_size + 16 ≤ max_payload
      → turn takes (new_in iov_max (seg_datagram info bytes ∷ packets))
        ≡ ok (hands (chunk_of takes info bytes), new_in iov_max packets)
  unfolding turn pad_len
  turn-seg info bytes valid size short =
      let p = seg_datagram info bytes in
      let i = skipped iov_max few p packets 0 in
      rw
        (
          add_peek_number-fits 2 i refl (omega arith) (omega arith),
          ◌>>=◌,
          peek-long iov_max 0 2 2 p packets (omega arith),
          if_there,
        )
        (recv_data_seg-reads info bytes valid size short)
