-- ===== src/Protocol/PeerProto/RoundTrip.antt =====
-- What the receiving peer is told, of what was sent: the loops of main/protocol/PeerProto.cpp on whole
-- and on cut streams of messages.
use hycast.Prelude.{ℕ, ◌<◌, ◌≡◌, Bool, List, [], ◌∷◌, arith, length, take, All}
use hycast.Inet.TcpSock.{eof, read16}
use hycast.Inet.TcpSock.Decodes.{stream, followed_by-eof}
use hycast.Inet.TcpSock.Decodes.Numbers.{read_number-ends}
use hycast.Protocol.PeerProto.{
  SegInfo, Notice, recv_notice, Request, recv_request, recv_chunk, halted, receive,
}
use hycast.Protocol.PeerProto.Messages.{
  send_notice, IsNotice, notice-Decodes, send_request, IsRequest, request-Decodes,
}
use hycast.Protocol.PeerProto.Loops.{Fits, Decodes-Whole, sent_bytes, arrives, arrives-part}

-- At the end of the stream.
read16-ends : (count : ℕ) → (read16 (stream [] count)).0 ≡ eof
read16-ends count = read_number-ends 2 count (omega arith)

notice-ends : (count : ℕ) → (recv_notice (stream [] count)).0 ≡ eof
unfolding recv_notice
notice-ends count = followed_by-eof _ (read16 (stream [] count)) (read16-ends count)

request-ends : (count : ℕ) → (recv_request (stream [] count)).0 ≡ eof
unfolding recv_request
request-ends count = followed_by-eof _ (read16 (stream [] count)) (read16-ends count)

pub chunk-ends : (takes : SegInfo → Bool) (count : ℕ) → (recv_chunk takes (stream [] count)).0 ≡ eof
unfolding recv_chunk
chunk-ends takes count = followed_by-eof _ (read16 (stream [] count)) (read16-ends count)

pub All-of :
    {A : Type 0} (P Q : A → Type 0) → ((a : A) → P a → Q a) → (xs : List A) → All P xs → All Q xs
All-of P Q f [] h = tt
All-of P Q f (x ∷ xs) h = (f x h.0, All-of P Q f xs h.1)

-- Of notices, and of requests, with valid indexes, sent one after the other from any count of bytes
-- on, `recvNotices()` and `recvRequests()` hand over all, in order, and then halt, at any bound on
-- their steps above the number of messages.
pub messages_arrive :
    (ms : List Notice) (rs : List Request) (fuel count : ℕ)
    → All IsNotice ms
    → All IsRequest rs
    → length ms < fuel
    → length rs < fuel
    → (receive recv_notice fuel (stream (sent_bytes send_notice ms count) count) ≡ (ms, halted))
      × (receive recv_request fuel (stream (sent_bytes send_request rs count) count) ≡ (rs, halted))
messages_arrive ms rs fuel count m r few_ms few_rs = (
  arrives send_notice recv_notice notice-ends ms fuel count
      (All-of _ _ (λ x v. Decodes-Whole send_notice recv_notice x (notice-Decodes x v)) ms m)
      few_ms,
  arrives send_request recv_request request-ends rs fuel count
      (All-of _ _ (λ x v. Decodes-Whole send_request recv_request x (request-Decodes x v)) rs r)
      few_rs,
)

-- If only the first `k` bytes of notices or requests with valid indexes arrive, sent one after the
-- other, just those are handed over whose bytes have all arrived, as they were sent, and the loop
-- halts without an exception.
pub messages_cut :
    (ms : List Notice) (rs : List Request) (fuel count k : ℕ)
    → All IsNotice ms
    → All IsRequest rs
    → length ms < fuel
    → length rs < fuel
    → ((n : ℕ) × Fits send_notice ms (record { sent = []; bytes_written = count }) n k
        × (receive recv_notice fuel (stream (take k (sent_bytes send_notice ms count)) count)
            ≡ (take n ms, halted)))
      × ((n : ℕ) × Fits send_request rs (record { sent = []; bytes_written = count }) n k
          × (receive recv_request fuel (stream (take k (sent_bytes send_request rs count)) count)
              ≡ (take n rs, halted)))
messages_cut ms rs fuel count k m r few_ms few_rs = (
  arrives-part send_notice recv_notice notice-ends ms fuel count k (All-of _ _ notice-Decodes ms m)
      few_ms,
  arrives-part send_request recv_request request-ends rs fuel count k
      (All-of _ _ request-Decodes rs r) few_rs,
)
