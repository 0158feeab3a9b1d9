-- ===== src/Protocol/McastProto.antt =====
-- `McastSndr::Impl` and `McastRcvr::Impl` of main/protocol/McastProto.cpp: product-information and
-- data-segments, each in a datagram. Names and the data of segments are bytes.
pub mod Datagrams
pub mod Receipt
pub mod Losses
pub mod Stale
pub mod Worn
use hycast.Prelude.{
  ℕ, zero, suc, ◌%◌, ◌^◌, Bool, true, false, not, List, [], ◌∷◌, ◌==◌, if◌then◌else◌, length, take,
  invalid_argument, runtime_error, Result, ok, err, ◌>>=◌,
}
use hycast.Inet.UdpSock.{
  Sending, ◌andthen◌, add_write, add_write16, add_write32, write, UdpIn, add_peek, add_peek_number,
  peek, discard, bytes_at, number_at,
}
use hycast.Protocol.PeerProto.{
  ProdInfo, SegInfo, Chunk, info_chunk, seg_chunk, declined, End, halted, failed, out_of_fuel,
  prod_info_id, data_seg_id,
}

-- `multicast(ProdInfo)`, its exceptions not nested. The length of the name is cut to 16 bits, but the
-- whole name is written.
unfoldable pub multicast_info : (sends : Bool) → ProdInfo → Sending
multicast_info sends info =
    add_write16 prod_info_id
    andthen add_write16 (length info.name % 2 ^ 16)
    andthen add_write32 info.prod_index
    andthen add_write32 info.prod_size
    andthen add_write info.name
    andthen write sends

-- `multicast(MemSeg)`
unfoldable pub multicast_seg : (sends : Bool) → SegInfo → List ℕ → Sending
multicast_seg sends info bytes =
    add_write16 data_seg_id
    andthen add_write16 info.seg_size
    andthen add_write32 info.id.prod_index
    andthen add_write32 info.prod_size
    andthen add_write32 info.id.seg_offset
    andthen add_write (take info.seg_size bytes)
    andthen write sends

-- What one turn of the receiving loop comes to: the loop ends, goes on, or has handed over a chunk.
pub data Turn : Type 0 where
  ends : Turn
  skips : Turn
  hands : Chunk → Turn

-- `if (!sock.peek()) return false;`
abbrev pub if_there : (next : UdpIn → Result (Turn × UdpIn)) → Bool × UdpIn → Result (Turn × UdpIn)
if_there next (true, i) = next i
if_there next (false, i) = ok (ends, i)

-- `addCommon()`: where the size of what varies, the index and the product-size will be found
unfoldable pub add_common : UdpIn → Result (ℕ × ℕ × ℕ × UdpIn)
add_common i = do
  (size_at, i1) ← add_peek_number 2 i
  (index_at, i2) ← add_peek_number 4 i1
  (prod_size_at, i3) ← add_peek_number 4 i2
  ok (size_at, index_at, prod_size_at, i3)

-- The constructor of a product-index from a number refuses 0.
abbrev pub valid_index : {A : Type 0} → ℕ → Result A → Result A
valid_index index r = if index == 0 then err invalid_argument else r

-- `recvProdInfo()` from its second `peek()` on
unfoldable pub recv_name : (prod_index prod_size name_len : ℕ) → UdpIn → Result (Turn × UdpIn)
recv_name prod_index prod_size name_len i = add_peek name_len i >>= λ added.
    if_there
      (λ peeked.
        let info : ProdInfo = record {
          prod_index = prod_index;
          prod_size = prod_size;
          name = bytes_at i.skip name_len peeked;
        } in
        valid_index prod_index (ok (hands (info_chunk info), discard peeked)))
      (peek added)

unfoldable pub recv_prod_info : UdpIn → Result (Turn × UdpIn)
unfolding add_common recv_name
recv_prod_info i = add_common i >>= λ (size_at, index_at, prod_size_at, added).
    if_there
      (λ peeked.
        recv_name (number_at index_at 4 peeked) (number_at prod_size_at 4 peeked)
          (number_at size_at 2 peeked) peeked)
      (peek added)

-- What the subscriber does to a segment: it takes the data, by `getData()`, which ignores what `peek()`
-- returns, or declines.
unfoldable pub here_is : (takes : SegInfo → Bool) → SegInfo → UdpIn → Result (Chunk × UdpIn)
here_is takes info i =
    if takes info
    then (add_peek info.seg_size i >>= λ added.
        ok (seg_chunk info (bytes_at i.skip info.seg_size i), (peek added).1))
    else ok (declined info, i)

-- `recvDataSeg()` from the making of the segment on
unfoldable pub hand_over : (takes : SegInfo → Bool) → SegInfo → UdpIn → Result (Turn × UdpIn)
unfolding here_is
hand_over takes info i =
    valid_index info.id.prod_index
      (here_is takes info i >>= λ (chunk, after). ok (hands chunk, discard after))

unfoldable pub recv_data_seg : (takes : SegInfo → Bool) → UdpIn → Result (Turn × UdpIn)
unfolding add_common
recv_data_seg takes i = add_common i >>= λ (size_at, index_at, prod_size_at, added).
    add_peek_number 4 added >>= λ (offset_at, all_added).
    if_there
      (λ peeked.
        let info : SegInfo = record {
          id = record {
            prod_index = number_at index_at 4 peeked;
            seg_offset = number_at offset_at 4 peeked;
          };
          prod_size = number_at prod_size_at 4 peeked;
          seg_size = number_at size_at 2 peeked;
        } in
        hand_over takes info peeked)
      (peek all_added)

-- The body of the loop of `operator()`; the loop discards a datagram after it, whatever was received.
unfoldable pub turn : (takes : SegInfo → Bool) → UdpIn → Result (Turn × UdpIn)
turn takes i = add_peek_number 2 i >>= λ (id_at, added).
    if_there
      (λ peeked.
        let msg_id = number_at id_at 2 peeked in
        if msg_id == prod_info_id
        then recv_prod_info peeked
        else if msg_id == data_seg_id
        then recv_data_seg takes peeked
        else ok (skips, peeked))
      (peek added)

abbrev pub goes_on : (rest : UdpIn → List Chunk × End) → Result (Turn × UdpIn) → List Chunk × End
goes_on rest (err e) = ([], failed runtime_error)
goes_on rest (ok (ends, i)) = ([], halted)
goes_on rest (ok (skips, i)) = rest (discard i)
goes_on rest (ok (hands c, i)) = let (cs, end) = rest (discard i) in (c ∷ cs, end)

-- `operator()`: the chunks that it hands over, in order, and how it ends.
unfoldable pub receive : (takes : SegInfo → Bool) → (fuel : ℕ) → UdpIn → List Chunk × End
receive takes zero i = ([], out_of_fuel)
receive takes (suc fuel) i = goes_on (receive takes fuel) (turn takes i)
