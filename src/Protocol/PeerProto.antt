-- ===== src/Protocol/PeerProto.antt =====
-- `PeerProto::Impl` and `SubPeerProto` of main/protocol/PeerProto.cpp: the messages between two peers.
-- Notices, requests and chunks have a connection each. A name and the data of a segment are bytes.
pub mod Messages
pub mod Connect
pub mod Halts
pub mod Loops
pub mod RoundTrip
pub mod Segments
use hycast.Prelude.{
  ℕ, zero, suc, ◌+◌, ◌%◌, ◌^◌, Bool, true, false, List, [], ◌∷◌, ◌==◌, if◌then◌else◌, length, take,
  drop, Error, invalid_argument, runtime_error,
}
use hycast.Protocol.ChunkId.{SegId}
use hycast.Inet.TcpSock.{
  Out, In, Got, got, eof, throws, Reader, ◌>>=◌, returned, write, write16, write32, read, read16,
  read32,
}

-- The values of `MsgId` in main/protocol/protocol.h.
abbrev pub prod_info_notice : ℕ
prod_info_notice = 1

abbrev pub data_seg_notice : ℕ
data_seg_notice = 2

abbrev pub prod_info_request : ℕ
prod_info_request = 3

abbrev pub data_seg_request : ℕ
data_seg_request = 4

abbrev pub prod_info_id : ℕ
prod_info_id = 5

abbrev pub data_seg_id : ℕ
data_seg_id = 6

abbrev pub path_to_pub : ℕ
path_to_pub = 7

abbrev pub no_path_to_pub : ℕ
no_path_to_pub = 8

pub record ProdInfo : Type 0 where
  pub prod_index : ℕ
  pub prod_size : ℕ
  pub name : List ℕ

pub record SegInfo : Type 0 where
  pub id : SegId
  pub prod_size : ℕ
  pub seg_size : ℕ

-- the two `send()` of an identifier
unfoldable pub send_prod : (msg_id : ℕ) → ℕ → Out → Out
send_prod msg_id prod_index o = write32 prod_index (write16 msg_id o)

unfoldable pub send_seg : (msg_id : ℕ) → SegId → Out → Out
send_seg msg_id id o = write32 id.seg_offset (write32 id.prod_index (write16 msg_id o))

-- `send(ProdInfo)`. The length of the name is cut to the 16 bits of a `SegSize`.
unfoldable pub send_info : ProdInfo → Out → Out
send_info info o =
    let name_len = length info.name % 2 ^ 16 in
    write (take name_len info.name)
      (write32 info.prod_size (write32 info.prod_index (write16 name_len (write16 prod_info_id o))))

-- `send(MemSeg)`
unfoldable pub send_data : SegInfo → List ℕ → Out → Out
send_data info bytes o = write (take info.seg_size bytes) (
    write32 info.id.seg_offset (
      write32 info.prod_size
        (write32 info.id.prod_index (write16 info.seg_size (write16 data_seg_id o)))))

-- The constructor of a product-index from a number refuses 0.
abbrev pub valid_index : {A : Type 0} → ℕ → Reader A → Reader A
valid_index index r = if index == 0 then (λ i. (throws invalid_argument, i)) else r

abbrev pub invalid_message : {A : Type 0} → Reader A
invalid_message i = (throws runtime_error, i)

pub data Notice : Type 0 where
  has_path has_no_path : Notice
  prod_notice : ℕ → Notice
  seg_notice : SegId → Notice

-- The body of the loop of `recvNotices()`, with `recvProdNotice()` and `recvSegNotice()`: the call of
-- the receiving peer that it makes.
unfoldable pub recv_prod_notice : Reader Notice
recv_prod_notice = read32 >>= λ index. valid_index index (returned (prod_notice index))

unfoldable pub recv_seg_notice : Reader Notice
recv_seg_notice = read32 >>= λ index. valid_index index (
    read32 >>= λ offset. returned (seg_notice (record { prod_index = index; seg_offset = offset })))

unfoldable pub recv_notice : Reader Notice
recv_notice = read16 >>= λ msg_id.
    if msg_id == path_to_pub
    then returned has_path
    else if msg_id == no_path_to_pub
    then returned has_no_path
    else if msg_id == prod_info_notice
    then recv_prod_notice
    else if msg_id == data_seg_notice
    then recv_seg_notice
    else invalid_message

pub data Request : Type 0 where
  prod_request : ℕ → Request
  seg_request : SegId → Request

-- The body of the loop of `recvRequests()`, with `recvProdReq()` and `recvSegReq()`.
unfoldable pub recv_prod_req : Reader Request
recv_prod_req = read32 >>= λ index. valid_index index (returned (prod_request index))

unfoldable pub recv_seg_req : Reader Request
recv_seg_req = read32 >>= λ index. read32 >>= λ offset.
    valid_index index (returned (seg_request (record { prod_index = index; seg_offset = offset })))

unfoldable pub recv_request : Reader Request
recv_request = read16 >>= λ msg_id.
    if msg_id == prod_info_request
    then recv_prod_req
    else if msg_id == data_seg_request
    then recv_seg_req
    else invalid_message

-- A segment is handed over before its data is read. The receiving peer takes the data, or declines.
pub data Chunk : Type 0 where
  info_chunk : ProdInfo → Chunk
  seg_chunk : SegInfo → List ℕ → Chunk
  declined : SegInfo → Chunk

-- `recvCommon()`: index, product-size, and the size of what varies
unfoldable pub recv_common : Reader (ℕ × ℕ × ℕ)
recv_common = read16 >>= λ size. read32 >>= λ index.
    read32 >>= λ prod_size. valid_index index (returned (index, prod_size, size))

unfoldable pub recv_prod_info : Reader Chunk
recv_prod_info = recv_common >>= λ (index, prod_size, name_len). read name_len >>= λ name.
    returned (info_chunk (record { prod_index = index; prod_size = prod_size; name = name }))

-- `TcpSegData::getData()` of main/protocol/hycast.cpp ignores what `read()` returns; at the end of the
-- stream the buffer has what was left.
unfoldable pub get_data : SegInfo → Reader Chunk
get_data info i = (got (seg_chunk info (take info.seg_size i.incoming)), (read info.seg_size i).1)

unfoldable pub recv_data_seg : (takes : SegInfo → Bool) → Reader Chunk
unfolding get_data
recv_data_seg takes = recv_common >>= λ (index, prod_size, data_len). read32 >>= λ offset.
    let info : SegInfo = record {
      id = record { prod_index = index; seg_offset = offset };
      prod_size = prod_size;
      seg_size = data_len;
    } in
    if takes info then get_data info else returned (declined info)

-- The body of the loop of `recvChunks()`.
unfoldable pub recv_chunk : (takes : SegInfo → Bool) → Reader Chunk
recv_chunk takes = read16 >>= λ msg_id.
    if msg_id == prod_info_id
    then recv_prod_info
    else if msg_id == data_seg_id
    then recv_data_seg takes
    else invalid_message

-- How a loop ends: the peer is told to halt, or an exception is kept; or the fuel ran out.
pub data End : Type 0 where
  halted : End
  failed : Error → End
  out_of_fuel : End

abbrev pub ends_or : {M : Type 0} → (In → List M × End) → Got M × In → List M × End
ends_or rest (got m, i) = let (ms, end) = rest i in (m ∷ ms, end)
ends_or rest (eof, i) = ([], halted)
ends_or rest (throws e, i) = ([], failed e)

-- The loop of `recvNotices()`, `recvRequests()` and `recvChunks()`: what it hands over, in order.
unfoldable pub receive : {M : Type 0} → Reader M → (fuel : ℕ) → In → List M × End
receive r zero i = ([], out_of_fuel)
receive r (suc fuel) i = ends_or (receive r fuel) (r i)
