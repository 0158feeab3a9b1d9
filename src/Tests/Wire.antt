-- ===== src/Tests/Wire.antt =====
-- Messages and connections of main/protocol/PeerProto.cpp.
use hycast.Prelude.{
  ℕ, ◌||◌, ◌≡◌, ◌≢◌, refl, Bool, true, false, none, some, List, [], ◌∷◌, ◌++◌, arith, take, All,
  ◌==◌, runtime_error, system_error,
}
use hycast.Inet.TcpSock.{read, write, write16, align_write_to, pad_len, read_number, align_read_to}
use hycast.Inet.TcpSock.Decodes.{stream}
use hycast.Inet.PortPool
use hycast.Protocol.PeerProto.{
  ProdInfo, SegInfo, Notice, has_path, prod_notice, seg_notice, recv_notice, Request, prod_request,
  seg_request, recv_request, info_chunk, seg_chunk, declined, recv_chunk, halted, failed,
  out_of_fuel, receive, send_data,
}
use hycast.Protocol.PeerProto.Messages.{send_notice, IsNotice, send_request, IsRequest, IsSegInfo}
use hycast.Protocol.PeerProto.Loops.{Fits, sent_bytes}
use hycast.Protocol.PeerProto.RoundTrip.{messages_arrive, messages_cut}
use hycast.Protocol.PeerProto.Segments.{send_chunk, recv_chunks-sent, declined_fails}
use hycast.Protocol.PeerProto.Halts.{loops_end}
use hycast.Protocol.PeerProto.Connect.{
  Wire, Made, made, fails, Served, create_srvr_sock, offer_port, serve, serve_sub, connect,
  try_ports, init,
}
use hycast.Protocol.PeerProto.Connect.Ports.{Keeps, serve-Keeps, serve_sub-loses_port}
use hycast.Protocol.PeerProto.Connect.Pairs.{new_wire, new_out, sub_pair}

abbrev notices : List Notice
notices = has_path ∷ prod_notice 3 ∷ seg_notice (record { prod_index = 3; seg_offset = 1500 }) ∷ []

abbrev requests : List Request
requests = prod_request 3 ∷ seg_request (record { prod_index = 3; seg_offset = 1500 }) ∷ []

notices-valid : All IsNotice notices
notices-valid = (tt, ((omega arith, omega arith), (((omega arith, omega arith), omega arith), tt)))

requests-valid : All IsRequest requests
requests-valid = ((omega arith, omega arith), (((omega arith, omega arith), omega arith), tt))

messages_arrive_example :
    (receive recv_notice 4 (stream (sent_bytes send_notice notices 6) 6) ≡ (notices, halted))
    × (receive recv_request 4 (stream (sent_bytes send_request requests 6) 6) ≡ (requests, halted))
messages_arrive_example =
    messages_arrive notices requests 4 6 notices-valid requests-valid (omega arith) (omega arith)

messages_cut_example :
    ((n : ℕ) × Fits send_notice notices (record { sent = []; bytes_written = 6 }) n 11
      × (receive recv_notice 4 (stream (take 11 (sent_bytes send_notice notices 6)) 6)
          ≡ (take n notices, halted)))
    × ((n : ℕ) × Fits send_request requests (record { sent = []; bytes_written = 6 }) n 11
        × (receive recv_request 4 (stream (take 11 (sent_bytes send_request requests 6)) 6)
            ≡ (take n requests, halted)))
messages_cut_example =
    messages_cut notices requests 4 6 11 notices-valid requests-valid (omega arith) (omega arith)

abbrev info : ProdInfo
info = record { prod_index = 3; prod_size = 4; name = 97 ∷ 98 ∷ [] }

abbrev segment : SegInfo
segment = record { id = record { prod_index = 3; seg_offset = 0 }; prod_size = 4; seg_size = 4 }

abbrev seg_bytes : List ℕ
seg_bytes = 1 ∷ 2 ∷ 3 ∷ 4 ∷ []

abbrev takes_3 : SegInfo → Bool
takes_3 i = i.id.prod_index == 3

abbrev takes_none : SegInfo → Bool
takes_none i = false

segment-valid : IsSegInfo segment
segment-valid = (((omega arith, omega arith), omega arith), omega arith, omega arith)

recv_chunks-sent_example :
    let ms = info_chunk info ∷ seg_chunk segment seg_bytes ∷ [] in
    receive (recv_chunk takes_3) 3 (stream (sent_bytes send_chunk ms 0) 0) ≡ (ms, halted)
recv_chunks-sent_example =
    recv_chunks-sent takes_3 (info_chunk info ∷ seg_chunk segment seg_bytes ∷ []) 3 0
      ((((omega arith, omega arith), omega arith), omega arith), ((segment-valid, refl, refl), tt))
      (omega arith)

declined_fails_example :
    let sent = (send_data segment seg_bytes (record { sent = []; bytes_written = 0 })).sent in
    receive (recv_chunk takes_none) 2 (stream (sent ++ []) 0)
    ≡ (declined segment ∷ [], failed runtime_error)
declined_fails_example =
    declined_fails takes_none segment 1 2 (3 ∷ 4 ∷ []) [] 2 0 segment-valid refl refl
      (λ e. omega arith) (λ e. omega arith) (omega arith)

loops_end_example :
    let i = stream (0 ∷ 7 ∷ 0 ∷ []) 0 in
    ((receive recv_notice 4 i).1 ≢ out_of_fuel)
    × ((receive recv_request 4 i).1 ≢ out_of_fuel)
    × ((receive (recv_chunk takes_3) 4 i).1 ≢ out_of_fuel)
loops_end_example = loops_end takes_3 (stream (0 ∷ 7 ∷ 0 ∷ []) 0) 4 (omega arith)

-- Ports from 40 on. Only even ones are free; nobody connects to 44.
abbrev is_even : ℕ → Bool
is_even p = p == 42 || p == 44

abbrev accepts_42 : ℕ → Bool
accepts_42 p = p == 42

abbrev any_port : ℕ → Bool
any_port p = true

abbrev begun : Wire
begun = new_wire (write16 1 new_out).sent (41 ∷ 42 ∷ 43 ∷ 44 ∷ [])

serve-Keeps_example :
    Keeps 42 (41 ∷ 42 ∷ 43 ∷ 44 ∷ []) (λ (s : Served). s.srvr_port) (serve is_even any_port 0 begun)
serve-Keeps_example = serve-Keeps is_even any_port 0 42 begun

-- The server that is made on the port 42, and fails on the port 44.
abbrev half_made : Made Served × Wire
half_made = serve is_even accepts_42 1 begun

abbrev half : Served
half = record { rmt_node_type = 1; srvr_port = 42; clnt_port = none }

half-made : half_made ≡ (made half, half_made.1)
unfolding serve init offer_port create_srvr_sock try_ports PortPool.take PortPool.add PortPool.size
    read_number align_read_to read pad_len write16 write align_write_to
half-made = refl

half-fails :
    offer_port is_even accepts_42 half_made.1
    ≡ (fails system_error, (offer_port is_even accepts_42 half_made.1).1)
unfolding serve init offer_port create_srvr_sock try_ports PortPool.take PortPool.add PortPool.size
    read_number align_read_to read pad_len write16 write align_write_to
half-fails = refl

serve_sub-loses_port_example :
    (serve_sub is_even accepts_42 1 begun
      ≡ (fails system_error, (offer_port is_even accepts_42 half_made.1).1))
    × (PortPool.count 42 (42 ∷ (offer_port is_even accepts_42 half_made.1).1.pool)
        ≡ PortPool.count 42 (41 ∷ 42 ∷ 43 ∷ 44 ∷ []))
serve_sub-loses_port_example =
    serve_sub-loses_port is_even accepts_42 1 42 begun half_made.1
      (offer_port is_even accepts_42 half_made.1).1 half system_error half-made half-fails

abbrev both_made : Made Served × Wire
both_made = serve_sub is_even any_port 2 begun

abbrev whole : Served
whole = record { rmt_node_type = 1; srvr_port = 42; clnt_port = some 44 }

both-made : both_made ≡ (made whole, both_made.1)
unfolding serve serve_sub init offer_port create_srvr_sock try_ports PortPool.take PortPool.add
    PortPool.size read_number align_read_to read pad_len write16 write align_write_to
both-made = refl

sub_pair_example :
    (whole.rmt_node_type ≡ 1)
    × ((connect any_port 1 (new_wire both_made.1.out.sent [])).0
        ≡ made (record { rmt_node_type = 2; clnt_port = 42; srvr_port = some 44 }))
sub_pair_example =
    sub_pair is_even any_port any_port 2 1 44 (41 ∷ 42 ∷ 43 ∷ 44 ∷ []) [] whole both_made.1
      (λ e. omega arith) (omega arith) (λ e. omega arith) (omega arith) both-made refl (omega arith)
      (omega arith) refl refl
