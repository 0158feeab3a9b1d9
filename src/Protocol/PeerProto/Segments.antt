-- ===== src/Protocol/PeerProto/Segments.antt =====
-- Product-information and data-segments in `recvChunks()` of main/protocol/PeerProto.cpp: whole, cut
-- inside the data, and declined.
use hycast.Prelude.{
  ℕ, zero, suc, ◌+◌, ◌*◌, ◌-◌, ◌%◌, ◌^◌, ◌≤◌, ◌<◌, ◌≡◌, ◌≢◌, refl, sym, ap, ◌∙◌, Bool, true, false,
  List, [], ◌∷◌, ◌++◌, arith, length, take, All, leb, ◌==◌, length-append, runtime_error,
}
use mathlib.Core.List.{append_assoc, append-nil}
use hycast.Inet.TcpSock.{Out, In, Got, got, throws, read, write, write16, write32, pad_len}
use hycast.Inet.TcpSock.Decodes.{
  read-short, take-append_right, Writer, stream, take-append, drop-append, length-take,
}
use hycast.Inet.TcpSock.Decodes.Numbers.{
  read_number-aligned, write32-aligned, write32-below, pad_len-aligned,
}
use hycast.Protocol.PeerProto.{
  SegInfo, Chunk, info_chunk, seg_chunk, declined, get_data, recv_chunk, prod_info_id, data_seg_id,
  halted, failed, receive, send_info, send_data,
}
use hycast.Protocol.PeerProto.Messages.{
  cut_info, IsInfo, info-Decodes, IsSegInfo, send_header, header-Leads,
}
use hycast.Protocol.PeerProto.Loops.{fails, goes_on, stops, Whole, sent_bytes, arrives}
use hycast.Protocol.PeerProto.RoundTrip.{chunk-ends, All-of}

-- The writer of a chunk: `send()`.
abbrev pub send_chunk : Chunk → Writer
send_chunk (info_chunk info) = send_info info
send_chunk (seg_chunk info bytes) = send_data info bytes
send_chunk (declined info) = send_data info []

abbrev pub IsChunk : (SegInfo → Bool) → Chunk → Type 0
IsChunk takes (info_chunk info) = IsInfo info × (length info.name < 2 ^ 16)
IsChunk takes (seg_chunk info bytes) =
    IsSegInfo info × (takes info ≡ true) × (length bytes ≡ info.seg_size)
IsChunk takes (declined info) = ⊥

get_data-reads :
    (info : SegInfo) (bytes rest : List ℕ) (count : ℕ)
    → length bytes ≡ info.seg_size
    → get_data info (stream (bytes ++ rest) count)
      ≡ (got (seg_chunk info bytes), stream rest ((count + length bytes) % 2 ^ 32))
unfolding get_data read
get_data-reads info bytes rest count e =
    let enough : (leb (length bytes) (length (bytes ++ rest)) ≡ true) =
      ground (arith, length-append bytes rest) in
    rw (sym e, enough, take-append, drop-append) refl

pub take-all : (n : ℕ) (bytes : List ℕ) → length bytes ≡ n → take n bytes ≡ bytes
take-all n bytes e =
    ap (λ (k : ℕ). take k bytes) (sym e)
    ∙ ap (λ (l : List ℕ). take (length bytes) l) (sym (append-nil bytes))
    ∙ take-append bytes []

take-more : (n : ℕ) (bytes : List ℕ) → length bytes < n → take n bytes ≡ bytes
take-more zero bytes h = absurd (omega arith)
take-more (suc n) [] h = refl
take-more (suc n) (b ∷ bytes) h = ap (λ (l : List ℕ). b ∷ l) (take-more n bytes (omega arith))

segment-Whole :
    (takes : SegInfo → Bool) (info : SegInfo) (bytes : List ℕ)
    → IsChunk takes (seg_chunk info bytes)
    → (o : Out) → Whole send_chunk (recv_chunk takes) (seg_chunk info bytes) o
unfolding send_data write
segment-Whole takes info bytes (valid, taken, size) o =
    let header = header-Leads takes info valid o in
    let hs = header.bytes in
    let count = o.bytes_written in
    let after = (send_header info o).bytes_written in
    let whole = take-all info.seg_size bytes size in
    record {
      bytes = hs ++ bytes;
      appends =
          ap (λ (l : List ℕ). (send_header info o).sent ++ l) whole
          ∙ ap (λ (l : List ℕ). l ++ bytes) header.appends
          ∙ append_assoc o.sent hs bytes;
      reads = λ rest.
          ap (λ (l : List ℕ). recv_chunk takes (stream l count)) (append_assoc hs bytes rest)
          ∙ header.reads (bytes ++ rest)
          ∙ rw taken (get_data-reads info bytes rest after size)
          ∙ ap
              (λ (l : List ℕ).
                (got (seg_chunk info bytes), stream rest ((after + length l) % 2 ^ 32)))
              (sym whole);
    }

chunk-Whole :
    (takes : SegInfo → Bool) (m : Chunk)
    → IsChunk takes m
    → (o : Out) → Whole send_chunk (recv_chunk takes) m o
unfolding send_data write
chunk-Whole takes (info_chunk info) (valid, short) o =
    let name = take-all (length info.name % 2 ^ 16) info.name (omega arith) in
    let same : (info_chunk (cut_info info) ≡ info_chunk info) =
      ap (λ (l : List ℕ). info_chunk (record info { name = l })) name in
    let whole = info-Decodes takes info valid o in
    record {
      bytes = whole.bytes;
      appends = whole.appends;
      reads = λ rest.
          whole.reads rest
          ∙ ap (λ (m : Chunk). (got m, stream rest (send_info info o).bytes_written)) same;
    }
chunk-Whole takes (seg_chunk info bytes) h o = segment-Whole takes info bytes h o
chunk-Whole takes (declined info) h o = elim h [ ]

-- Of product-information with names shorter than 2^16 bytes and of segments that the receiving peer
-- takes, all with valid fields and the data of each segment as long as its header says,
-- `recvChunks()` hands over all, in order, and then halts.
pub recv_chunks-sent :
    (takes : SegInfo → Bool) (ms : List Chunk) (fuel count : ℕ)
    → All (IsChunk takes) ms
    → length ms < fuel
    → receive (recv_chunk takes) fuel (stream (sent_bytes send_chunk ms count) count) ≡ (ms, halted)
recv_chunks-sent takes ms fuel count h enough =
    arrives send_chunk (recv_chunk takes) (chunk-ends takes) ms fuel count
      (All-of _ _ (chunk-Whole takes) ms h) enough

-- What is left of the data is handed over, and nothing is left in the stream.
get_data-short :
    (info : SegInfo) (bytes : List ℕ) (count : ℕ)
    → length bytes < info.seg_size
    → (next : ℕ) × (get_data info (stream bytes count)
        ≡ (got (seg_chunk info bytes), stream [] next))
unfolding get_data
get_data-short info bytes count h =
    let left = read-short info.seg_size bytes count h in
    let all : (take info.seg_size bytes ≡ bytes) = take-more info.seg_size bytes h in
    (
      (count + length bytes) % 2 ^ 32,
      ap (λ (p : Got (List ℕ) × In). (got (seg_chunk info (take info.seg_size bytes)), p.1)) left
          ∙ ap
              (λ (l : List ℕ).
                (got (seg_chunk info l), stream [] ((count + length bytes) % 2 ^ 32)))
              all,
    )

-- If the last `lost` bytes of a segment that is sent do not arrive, at least one and no more than
-- its data, and the receiving peer takes segments of that identity, then it is given the segment with
-- the bytes that did arrive, and `recvChunks()` halts without an exception.
truncated_is_handed_over :
    (takes : SegInfo → Bool) (info : SegInfo) (bytes : List ℕ) (fuel count lost : ℕ)
    → IsSegInfo info
    → takes info ≡ true
    → length bytes ≡ info.seg_size
    → 0 < lost
    → lost ≤ info.seg_size
    → 1 < fuel
    → let sent = (send_data info bytes (record { sent = []; bytes_written = count })).sent in
      receive (recv_chunk takes) fuel (stream (take (length sent - lost) sent) count)
      ≡ (seg_chunk info (take (info.seg_size - lost) bytes) ∷ [], halted)
unfolding send_data write
truncated_is_handed_over takes info bytes fuel count lost valid taken size some fits enough =
    let o : Out = record { sent = []; bytes_written = count } in
    let header = header-Leads takes info valid o in
    let hs = header.bytes in
    let part = take (info.seg_size - lost) bytes in
    let appends : ((send_data info bytes o).sent ≡ hs ++ bytes) =
      ap (λ (l : List ℕ). (send_header info o).sent ++ l) (take-all info.seg_size bytes size)
      ∙ ap (λ (l : List ℕ). l ++ bytes) header.appends in
    let kept : (take (length (hs ++ bytes) - lost) (hs ++ bytes) ≡ hs ++ part) =
      let n = length (hs ++ bytes) - lost in
      let rest : (n - length hs ≡ info.seg_size - lost) = omega (arith, length-append hs bytes) in
      take-append_right n hs bytes (omega (arith, length-append hs bytes))
      ∙ ap (λ (k : ℕ). hs ++ take k bytes) rest in
    let short = length-take (info.seg_size - lost) bytes (omega arith) in
    let (next, given) =
      get_data-short info part (send_header info o).bytes_written (omega (arith, short)) in
    ap (λ (l : List ℕ). receive (recv_chunk takes) fuel (stream (take (length l - lost) l) count))
      appends
    ∙ ap (λ (l : List ℕ). receive (recv_chunk takes) fuel (stream l count)) kept
    ∙ goes_on send_chunk (recv_chunk takes) (chunk-ends takes) (seg_chunk info part) [] halted fuel
        (stream (hs ++ part) count) (stream [] next) (omega arith)
        (header.reads part ∙ rw taken given)
        (stops send_chunk (recv_chunk takes) (chunk-ends takes) (fuel - 1) (stream [] next)
          (omega arith) (chunk-ends takes next))

-- The first two bytes of the data are read as the identifier of a message.
stray_id :
    (takes : SegInfo → Bool) (x y : ℕ) (rest : List ℕ) (count : ℕ)
    → pad_len count 2 ≡ 0
    → x * 2 ^ 8 + y ≢ prod_info_id
    → x * 2 ^ 8 + y ≢ data_seg_id
    → (recv_chunk takes (stream (x ∷ y ∷ rest) count)).0 ≡ throws runtime_error
unfolding recv_chunk
stray_id takes x y rest count pad not_info not_seg =
    let id = read_number-aligned (x ∷ y ∷ []) rest count pad in
    let info : (((0 + x) * 2 ^ 8 + y == prod_info_id) ≡ false) = ground arith in
    let seg : (((0 + x) * 2 ^ 8 + y == data_seg_id) ≡ false) = ground arith in
    rw (id, info, seg) refl

-- If the receiving peer does not take a segment, the data stays in the stream: unless its first two
-- bytes are by chance the identifier of a chunk, `recvChunks()` hands over the segment and ends with
-- an exception, whatever is sent after it.
pub declined_fails :
    (takes : SegInfo → Bool) (info : SegInfo) (x y : ℕ) (bytes rest : List ℕ) (fuel count : ℕ)
    → IsSegInfo info
    → takes info ≡ false
    → length bytes + 2 ≡ info.seg_size
    → x * 2 ^ 8 + y ≢ prod_info_id
    → x * 2 ^ 8 + y ≢ data_seg_id
    → 1 < fuel
    → let sent =
        (send_data info (x ∷ y ∷ bytes) (record { sent = []; bytes_written = count })).sent in
      receive (recv_chunk takes) fuel (stream (sent ++ rest) count)
      ≡ (declined info ∷ [], failed runtime_error)
unfolding send_data write
declined_fails takes info x y bytes rest fuel count valid refused size not_info not_seg enough =
    let o : Out = record { sent = []; bytes_written = count } in
    let header = header-Leads takes info valid o in
    let after = (send_header info o).bytes_written in
    let last : Out =
      write32 info.prod_size
        (write32 info.id.prod_index (write16 info.seg_size (write16 data_seg_id o))) in
    let below =
      write32-below info.prod_size
        (write32 info.id.prod_index (write16 info.seg_size (write16 data_seg_id o))) in
    let aligned =
      pad_len-aligned after (write32-below info.id.seg_offset last)
        (write32-aligned info.id.seg_offset last below) in
    let seg_data = x ∷ y ∷ bytes in
    let hs = header.bytes in
    let appends =
      ap (λ (l : List ℕ). (send_header info o).sent ++ l)
        (take-all info.seg_size seg_data (omega arith))
      ∙ ap (λ (l : List ℕ). l ++ seg_data) header.appends in
    let stray = stray_id takes x y (bytes ++ rest) after aligned not_info not_seg in
    ap (λ (l : List ℕ). receive (recv_chunk takes) fuel (stream (l ++ rest) count)) appends
    ∙ ap (λ (l : List ℕ). receive (recv_chunk takes) fuel (stream l count))
        (append_assoc hs seg_data rest)
    ∙ goes_on send_chunk (recv_chunk takes) (chunk-ends takes) (declined info) []
        (failed runtime_error) fuel (stream (hs ++ (seg_data ++ rest)) count)
        (stream (seg_data ++ rest) after) (omega arith)
        (header.reads (seg_data ++ rest) ∙ rw refused refl)
        (fails send_chunk (recv_chunk takes) (chunk-ends takes) runtime_error (fuel - 1)
          (stream (seg_data ++ rest) after) (omega arith) stray)
