-- ===== src/Protocol/McastProto/Datagrams.antt =====
-- The datagrams of main/protocol/McastProto.cpp, and when a socket has room for what they need.
use hycast.Prelude.{
  ℕ, ◌+◌, ◌/◌, ◌%◌, ◌^◌, ◌≤◌, ◌<◌, ◌≡◌, refl, ap, ◌∙◌, true, List, [], ◌∷◌, ◌++◌, arith, length,
  take, ok,
}
use hycast.Inet.TcpSock.{pad_len, network16, network32}
use hycast.Inet.UdpSock.{
  max_payload, UdpOut, Sending, then_send, ◌andthen◌, add_write, add_write16, add_write32, write,
}
use hycast.Inet.UdpSock.Writes.{added, add_write-fits, add_write16-fits, add_write32-fits}
use hycast.Protocol.PeerProto.{ProdInfo, SegInfo, prod_info_id, data_seg_id}
use hycast.Protocol.McastProto.{multicast_info, multicast_seg}

abbrev pub info_header : (name_len : ℕ) → ProdInfo → List ℕ
info_header name_len info =
    network16 prod_info_id
    ++ (network16 name_len ++ (network32 info.prod_index ++ network32 info.prod_size))

abbrev pub info_datagram : ProdInfo → List ℕ
info_datagram info = info_header (length info.name) info ++ info.name

abbrev pub seg_header : SegInfo → List ℕ
seg_header info =
    network16 data_seg_id
    ++ (network16 info.seg_size
        ++ (network32 info.id.prod_index
            ++ (network32 info.prod_size ++ network32 info.id.seg_offset)))

abbrev pub seg_datagram : SegInfo → List ℕ → List ℕ
seg_datagram info bytes = seg_header info ++ bytes

-- Nothing is pending.
abbrev pub idle : (iov_max : ℕ) → (sent : List (List ℕ)) → (nxt16 nxt32 : ℕ) → UdpOut
idle iov_max sent nxt16 nxt32 = record {
  iov_max = iov_max;
  sent = sent;
  pending = [];
  num_write = 0;
  write_iov_cnt = 0;
  nxt16 = nxt16;
  nxt32 = nxt32;
}

-- The numbers of a message, in order.
abbrev pub put_info_header : (name_len : ℕ) → ProdInfo → Sending
put_info_header name_len info =
    add_write16 prod_info_id
    andthen add_write16 name_len
    andthen add_write32 info.prod_index
    andthen add_write32 info.prod_size

abbrev pub put_seg_header : SegInfo → Sending
put_seg_header info =
    add_write16 data_seg_id
    andthen add_write16 info.seg_size
    andthen add_write32 info.id.prod_index
    andthen add_write32 info.prod_size
    andthen add_write32 info.id.seg_offset

pub andthen-step :
    (first next : Sending) (o o' : UdpOut)
    → first o ≡ (ok tt, o')
    → (first andthen next) o ≡ next o'
andthen-step first next o o' e = ap (then_send next) e

module _ (iov_max : ℕ) (sent : List (List ℕ)) (nxt16 nxt32 : ℕ) (few : 5 < iov_max) where
  -- The state after the numbers of the information, and after those of a segment.
  abbrev pub after_info : (name_len : ℕ) → ProdInfo → UdpOut
  after_info name_len info = record {
    iov_max = iov_max;
    sent = sent;
    pending = info_header name_len info;
    num_write = 12;
    write_iov_cnt = 4;
    nxt16 = nxt16 + 1 + 1;
    nxt32 = nxt32 + 1 + 1;
  }

  abbrev pub after_seg : SegInfo → UdpOut
  after_seg info = record {
    iov_max = iov_max;
    sent = sent;
    pending = seg_header info;
    num_write = 16;
    write_iov_cnt = 5;
    nxt16 = nxt16 + 1 + 1;
    nxt32 = nxt32 + 1 + 1 + 1;
  }

  pub info_header-added :
      (name_len : ℕ) (info : ProdInfo)
      → nxt16 + 1 < max_payload / 2
      → nxt32 + 1 < max_payload / 4
      → put_info_header name_len info (idle iov_max sent nxt16 nxt32)
        ≡ (ok tt, after_info name_len info)
  unfolding pad_len
  info_header-added name_len info places16 places32 =
      let o = idle iov_max sent nxt16 nxt32 in
      let o1 = added (network16 prod_info_id) (record o { nxt16 = nxt16 + 1 }) in
      let o2 = added (network16 name_len) (record o1 { nxt16 = nxt16 + 1 + 1 }) in
      let o3 = added (network32 info.prod_index) (record o2 { nxt32 = nxt32 + 1 }) in
      let first = add_write16 prod_info_id in
      let second = first andthen add_write16 name_len in
      let third = second andthen add_write32 info.prod_index in
      let e1 = add_write16-fits prod_info_id o refl (omega arith) (omega arith) (omega arith) in
      let e2 =
        andthen-step first _ o o1 e1
        ∙ add_write16-fits name_len o1 refl (omega arith) (omega arith) (omega arith) in
      let e3 =
        andthen-step second _ o o2 e2
        ∙ add_write32-fits info.prod_index o2 refl (omega arith) (omega arith) (omega arith) in
      andthen-step third _ o o3 e3
      ∙ add_write32-fits info.prod_size o3 refl (omega arith) (omega arith) (omega arith)

  pub seg_header-added :
      (info : SegInfo)
      → nxt16 + 1 < max_payload / 2
      → nxt32 + 2 < max_payload / 4
      → put_seg_header info (idle iov_max sent nxt16 nxt32) ≡ (ok tt, after_seg info)
  unfolding pad_len
  seg_header-added info places16 places32 =
      let o = idle iov_max sent nxt16 nxt32 in
      let o1 = added (network16 data_seg_id) (record o { nxt16 = nxt16 + 1 }) in
      let o2 = added (network16 info.seg_size) (record o1 { nxt16 = nxt16 + 1 + 1 }) in
      let o3 = added (network32 info.id.prod_index) (record o2 { nxt32 = nxt32 + 1 }) in
      let o4 = added (network32 info.prod_size) (record o3 { nxt32 = nxt32 + 1 + 1 }) in
      let first = add_write16 data_seg_id in
      let second = first andthen add_write16 info.seg_size in
      let third = second andthen add_write32 info.id.prod_index in
      let fourth = third andthen add_write32 info.prod_size in
      let e1 = add_write16-fits data_seg_id o refl (omega arith) (omega arith) (omega arith) in
      let e2 =
        andthen-step first _ o o1 e1
        ∙ add_write16-fits info.seg_size o1 refl (omega arith) (omega arith) (omega arith) in
      let e3 =
        andthen-step second _ o o2 e2
        ∙ add_write32-fits info.id.prod_index o2 refl (omega arith) (omega arith) (omega arith) in
      let e4 =
        andthen-step third _ o o3 e3
        ∙ add_write32-fits info.prod_size o3 refl (omega arith) (omega arith) (omega arith) in
      andthen-step fourth _ o o4 e4
      ∙ add_write32-fits info.id.seg_offset o4 refl (omega arith) (omega arith) (omega arith)

  pub multicast_info-sends :
      (info : ProdInfo)
      → length info.name + 12 ≤ max_payload
      → nxt16 + 1 < max_payload / 2
      → nxt32 + 1 < max_payload / 4
      → multicast_info true info (idle iov_max sent nxt16 nxt32)
        ≡ (ok tt, idle iov_max (sent ++ info_datagram info ∷ []) (nxt16 + 1 + 1) (nxt32 + 1 + 1))
  unfolding multicast_info write
  multicast_info-sends info short places16 places32 =
      let small : (length info.name % 2 ^ 16 ≡ length info.name) = omega arith in
      let o = idle iov_max sent nxt16 nxt32 in
      let o4 = after_info (length info.name) info in
      let header = put_info_header (length info.name) info in
      rw (small, multicast_info)
        (andthen-step (header andthen add_write info.name) (write true) o (added info.name o4) (
          andthen-step header (add_write info.name) o o4
            (info_header-added (length info.name) info places16 places32)
          ∙ add_write-fits info.name o4 (omega arith) (omega arith)))

  pub multicast_seg-sends :
      (info : SegInfo) (bytes : List ℕ)
      → length (take info.seg_size bytes) + 16 ≤ max_payload
      → nxt16 + 1 < max_payload / 2
      → nxt32 + 2 < max_payload / 4
      → multicast_seg true info bytes (idle iov_max sent nxt16 nxt32) ≡ (
        ok tt,
        idle iov_max
            (sent ++ seg_datagram info (take info.seg_size bytes) ∷ [])
            (nxt16 + 1 + 1)
            (nxt32 + 1 + 1 + 1),
      )
  unfolding multicast_seg write
  multicast_seg-sends info bytes short places16 places32 =
      let o = idle iov_max sent nxt16 nxt32 in
      let o5 = after_seg info in
      let all = take info.seg_size bytes in
      andthen-step (put_seg_header info andthen add_write all) (write true) o (added all o5) (
        andthen-step (put_seg_header info) (add_write all) o o5
          (seg_header-added info places16 places32)
        ∙ add_write-fits all o5 (omega arith) (omega arith))
