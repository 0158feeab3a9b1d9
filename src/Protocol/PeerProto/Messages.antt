-- ===== src/Protocol/PeerProto/Messages.antt =====
-- Each message is read as it was sent.
use mathlib.Core.List.{append-nil}
use hycast.Prelude.{
  ℕ, ◌%◌, ◌^◌, ◌<◌, ◌≡◌, refl, sym, Bool, false, List, [], arith, ◌==◌, if◌then◌else◌, length, take,
}
use hycast.Protocol.ChunkId.{SegId}
use hycast.Inet.TcpSock.{Reader, ◌>>=◌, returned, write, write16, write32, read, read16, read32}
use hycast.Inet.TcpSock.Decodes.{
  Writer, Leads, Decodes, length-take, then-Leads, returned-Decodes, write-Decodes,
}
use hycast.Inet.TcpSock.Decodes.Numbers.{write16-Decodes, write32-Decodes}
use hycast.Protocol.PeerProto.{
  ProdInfo, SegInfo, send_prod, send_seg, send_info, valid_index, Notice, has_path, has_no_path,
  prod_notice, seg_notice, recv_prod_notice, recv_seg_notice, recv_notice, Request, prod_request,
  seg_request, recv_prod_req, recv_seg_req, recv_request, Chunk, info_chunk, recv_common,
  recv_prod_info, get_data, declined, recv_data_seg, recv_chunk, prod_info_notice, data_seg_notice,
  prod_info_request, data_seg_request, data_seg_id, path_to_pub, no_path_to_pub,
}

-- A product-index that is valid.
abbrev pub IsIndex : ℕ → Type 0
IsIndex index = (0 < index) × (index < 2 ^ 32)

abbrev pub IsSegId : SegId → Type 0
IsSegId id = IsIndex id.prod_index × (id.seg_offset < 2 ^ 32)

valid_index-Leads :
    {A : Type 0} (w : Writer) (r next : Reader A) (index : ℕ)
    → 0 < index
    → Leads w r next
    → Leads w (valid_index index r) next
valid_index-Leads w r next index pos d =
    let some_index : ((index == 0) ≡ false) = ground arith in rw some_index d

-- A value that is read last.
last-Decodes :
    {A B : Type 0} (w : Writer) (r : Reader A) (f : A → B) (a : A)
    → Decodes w r a
    → Decodes w (r >>= λ x. returned (f x)) (f a)
last-Decodes w r f a d =
    then-Leads w (λ o. o) r (λ x. returned (f x)) a (returned (f a)) d (returned-Decodes (f a))

-- The writer of a notice: `notify()`, `gotPath()` or `lostPath()`.
abbrev pub send_notice : Notice → Writer
send_notice has_path = write16 path_to_pub
send_notice has_no_path = write16 no_path_to_pub
send_notice (prod_notice index) = send_prod prod_info_notice index
send_notice (seg_notice id) = send_seg data_seg_notice id

abbrev pub IsNotice : Notice → Type 0
IsNotice (prod_notice index) = IsIndex index
IsNotice (seg_notice id) = IsSegId id
IsNotice _ = Unit

prod-Decodes :
    {A : Type 0} (f : ℕ → A) (index : ℕ)
    → IsIndex index
    → Decodes (write32 index) (read32 >>= λ i. valid_index i (returned (f i))) (f index)
prod-Decodes f index (pos, lt) =
    then-Leads (write32 index) (λ o. o) read32 (λ i. valid_index i (returned (f i))) index
      (returned (f index)) (write32-Decodes index lt)
      (valid_index-Leads (λ o. o) (returned (f index)) (returned (f index)) index pos
        (returned-Decodes (f index)))

pub notice-Decodes : (m : Notice) → IsNotice m → Decodes (send_notice m) recv_notice m
unfolding recv_notice send_prod send_seg recv_prod_notice recv_seg_notice
notice-Decodes has_path h =
    then-Leads (write16 7) (λ o. o) read16 _ 7 (returned has_path) (write16-Decodes 7 (omega arith))
      (returned-Decodes has_path)
notice-Decodes has_no_path h =
    then-Leads (write16 8) (λ o. o) read16 _ 8 (returned has_no_path)
      (write16-Decodes 8 (omega arith)) (returned-Decodes has_no_path)
notice-Decodes (prod_notice index) h =
    then-Leads (write16 1) (write32 index) read16 _ 1 (returned (prod_notice index))
      (write16-Decodes 1 (omega arith)) (prod-Decodes prod_notice index h)
notice-Decodes (seg_notice id) h =
    then-Leads (write16 2) (λ o. write32 id.seg_offset (write32 id.prod_index o)) read16 _ 2
      (returned (seg_notice id)) (write16-Decodes 2 (omega arith))
      (then-Leads (write32 id.prod_index) (write32 id.seg_offset) read32 _ id.prod_index
        (returned (seg_notice id)) (write32-Decodes id.prod_index h.0.1)
        (valid_index-Leads (write32 id.seg_offset) _ (returned (seg_notice id)) id.prod_index h.0.0
          (last-Decodes (write32 id.seg_offset) read32
            (λ offset. seg_notice (record { prod_index = id.prod_index; seg_offset = offset }))
            id.seg_offset (write32-Decodes id.seg_offset h.1))))

-- The writer of a request: `request()`.
abbrev pub send_request : Request → Writer
send_request (prod_request index) = send_prod prod_info_request index
send_request (seg_request id) = send_seg data_seg_request id

abbrev pub IsRequest : Request → Type 0
IsRequest (prod_request index) = IsIndex index
IsRequest (seg_request id) = IsSegId id

pub request-Decodes : (m : Request) → IsRequest m → Decodes (send_request m) recv_request m
unfolding recv_request send_prod send_seg recv_prod_req recv_seg_req
request-Decodes (prod_request index) h =
    then-Leads (write16 3) (write32 index) read16 _ 3 (returned (prod_request index))
      (write16-Decodes 3 (omega arith)) (prod-Decodes prod_request index h)
request-Decodes (seg_request id) h =
    let offset = id.seg_offset in
    let index = id.prod_index in
    then-Leads (write16 4) (λ o. write32 offset (write32 index o)) read16 _ 4
      (returned (seg_request id)) (write16-Decodes 4 (omega arith))
      (then-Leads (write32 index) (write32 offset) read32 _ index (returned (seg_request id))
        (write32-Decodes index h.0.1)
        (then-Leads (write32 offset) (λ o. o) read32 _ offset (returned (seg_request id))
          (write32-Decodes offset h.1)
          (valid_index-Leads (λ o. o) _ (returned (seg_request id)) index h.0.0
            (returned-Decodes (seg_request id)))))

-- The name as it arrives.
abbrev pub cut_name : List ℕ → List ℕ
cut_name name = take (length name % 2 ^ 16) name

abbrev pub cut_info : ProdInfo → ProdInfo
cut_info info = record info { name = cut_name info.name }

abbrev pub IsInfo : ProdInfo → Type 0
IsInfo info = IsIndex info.prod_index × (info.prod_size < 2 ^ 32)

common-Decodes :
    (index prod_size size : ℕ)
    → IsIndex index
    → prod_size < 2 ^ 32
    → size < 2 ^ 16
    → Decodes
        (λ o. write32 prod_size (write32 index (write16 size o)))
        recv_common
        (index, prod_size, size)
unfolding recv_common
common-Decodes index prod_size size h fits small =
    let value : ℕ × ℕ × ℕ = (index, prod_size, size) in
    then-Leads (write16 size) (λ o. write32 prod_size (write32 index o)) read16 _ size
      (returned value) (write16-Decodes size small)
      (then-Leads (write32 index) (write32 prod_size) read32 _ index (returned value)
        (write32-Decodes index h.1)
        (then-Leads (write32 prod_size) (λ o. o) read32 _ prod_size (returned value)
          (write32-Decodes prod_size fits)
          (valid_index-Leads (λ o. o) _ (returned value) index h.0 (returned-Decodes value))))

pub info-Decodes :
    (takes : SegInfo → Bool) (info : ProdInfo)
    → IsInfo info
    → Decodes (send_info info) (recv_chunk takes) (info_chunk (cut_info info))
unfolding recv_chunk send_info recv_prod_info
info-Decodes takes info h =
    let index = info.prod_index in
    let name = cut_name info.name in
    let n : ℕ = length info.name % 2 ^ 16 in
    let value = info_chunk (cut_info info) in
    let size = length-take n info.name (omega arith) in
    let body : Decodes (write name) (read n) name = rw size at (write-Decodes name) in
    then-Leads (write16 5) (λ o. write name (write32 info.prod_size (write32 index (write16 n o))))
      read16 _ 5 (returned value) (write16-Decodes 5 (omega arith))
      (then-Leads (λ o. write32 info.prod_size (write32 index (write16 n o))) (write name)
        recv_common _ (index, info.prod_size, n) (returned value)
        (common-Decodes index info.prod_size n h.0 h.1 (omega arith))
        (last-Decodes (write name) (read n)
          (λ bs. info_chunk (record { prod_index = index; prod_size = info.prod_size; name = bs }))
          name body))

abbrev pub IsSegInfo : SegInfo → Type 0
IsSegInfo info = IsSegId info.id × (info.prod_size < 2 ^ 32) × (info.seg_size < 2 ^ 16)

-- What `send(MemSeg)` writes before the data.
abbrev pub send_header : SegInfo → Writer
send_header info o = write32 info.id.seg_offset (
    write32 info.prod_size
      (write32 info.id.prod_index (write16 info.seg_size (write16 data_seg_id o))))

-- How `recvDataSeg()` goes on after the header.
abbrev pub hand_over : (SegInfo → Bool) → SegInfo → Reader Chunk
hand_over takes info = if takes info then get_data info else returned (declined info)

nothing-Leads : {A : Type 0} (r : Reader A) → Leads (λ o. o) r r
nothing-Leads r o = record {
  bytes = [];
  appends = sym (append-nil o.sent);
  reads = λ rest. refl;
  cut = λ k h. absurd (omega arith);
}

pub header-Leads :
    (takes : SegInfo → Bool) (info : SegInfo)
    → IsSegInfo info
    → Leads (send_header info) (recv_chunk takes) (hand_over takes info)
unfolding recv_chunk recv_data_seg
header-Leads takes info (h, fits, small) =
    let index = info.id.prod_index in
    let offset = info.id.seg_offset in
    let size = info.seg_size in
    let go_on = hand_over takes info in
    then-Leads (write16 6)
      (λ o. write32 offset (write32 info.prod_size (write32 index (write16 size o)))) read16 _ 6
      go_on (write16-Decodes 6 (omega arith))
      (then-Leads (λ o. write32 info.prod_size (write32 index (write16 size o))) (write32 offset)
        recv_common _ (index, info.prod_size, size) go_on
        (common-Decodes index info.prod_size size h.0 fits small)
        (then-Leads (write32 offset) (λ o. o) read32 _ offset go_on (write32-Decodes offset h.1)
          (nothing-Leads go_on)))
