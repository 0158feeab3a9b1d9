-- ===== src/Inet/UdpSock.antt =====
-- `UdpSock::Impl` of main/inet/Socket.cpp: numbers and bytes in datagrams. What is written is gathered
-- and becomes one datagram; a datagram is peeked at piece by piece and then discarded. The elements of
-- the vectors for the system's calls are counted, and the bytes behind them kept as a list. The state
-- after an exception is kept.
pub mod Appends
pub mod Writes
pub mod Peeks
use hycast.Prelude.{
  ℕ, zero, suc, ◌+◌, ◌-◌, ◌/◌, ◌%◌, ◌^◌, Bool, true, false, List, [], ◌∷◌, ◌++◌, leb, ltb, ◌==◌,
  if◌then◌else◌, length, take, drop, replicate, Error, invalid_argument, logic_error, out_of_range,
  system_error, Result, ok, err, ◌>>=◌,
}
use hycast.Inet.TcpSock.{pad_len, network16, network32, host}

abbrev pub max_payload : ℕ
max_payload = 1472

-- `nxt16` and `nxt32` are how many places of their arrays have been used. `iov_max` is the system's
-- limit on the elements of a vector.
pub record UdpOut : Type 0 where
  pub iov_max : ℕ
  pub sent : List (List ℕ)
  pub pending : List ℕ
  pub num_write : ℕ
  pub write_iov_cnt : ℕ
  pub nxt16 : ℕ
  pub nxt32 : ℕ

abbrev pub Sending : Type 0
Sending = UdpOut → Result (Unit {0}) × UdpOut

abbrev pub then_send : (next : Sending) → Result (Unit {0}) × UdpOut → Result (Unit {0}) × UdpOut
then_send next (ok u, o) = next o
then_send next (err e, o) = (err e, o)

infixl 5 ◌andthen◌
abbrev pub ◌andthen◌ : Sending → Sending → Sending
(first andthen next) o = then_send next (first o)

-- `vetIoElt()`
unfoldable pub vet_io_elt : (iov_max nbytes iovlen : ℕ) → Result (Unit {0})
vet_io_elt iov_max nbytes iovlen =
    if ltb max_payload nbytes
    then err invalid_argument
    else if iovlen == iov_max
    then err logic_error
    else ok tt

-- `addWriteElt()`, and `addWrite()` of bytes
unfoldable pub add_write : List ℕ → Sending
add_write bytes o = elim (vet_io_elt o.iov_max (o.num_write + length bytes) o.write_iov_cnt) [
  | err e ↦ (err e, o)
  | ok u ↦ (
    ok tt,
    record o {
      pending = o.pending ++ bytes;
      num_write = o.num_write + length bytes;
      write_iov_cnt = o.write_iov_cnt + 1;
    },
  )
]

unfoldable pub align_write_to : ℕ → Sending
align_write_to nbytes o =
    let len = pad_len o.num_write nbytes in
    if len == 0 then (ok tt, o) else add_write (replicate len 0) o

-- A write behind the end of an array, which the language leaves undefined, is an `out_of_range`.
unfoldable pub add_write16 : ℕ → Sending
unfolding add_write align_write_to
add_write16 value = align_write_to 2 andthen λ o.
    if leb (max_payload / 2) o.nxt16
    then (err out_of_range, o)
    else add_write (network16 value) (record o { nxt16 = o.nxt16 + 1 })

unfoldable pub add_write32 : ℕ → Sending
unfolding add_write align_write_to
add_write32 value = align_write_to 4 andthen λ o.
    if leb (max_payload / 4) o.nxt32
    then (err out_of_range, o)
    else add_write (network32 value) (record o { nxt32 = o.nxt32 + 1 })

-- `write()`; whether the datagram is sent is the system's answer
unfoldable pub write : (sends : Bool) → Sending
write sends o =
    if sends
    then (
      ok tt,
      record o { sent = o.sent ++ o.pending ∷ []; pending = []; num_write = 0; write_iov_cnt = 0 },
    )
    else (err system_error, o)

-- A new sending socket.
unfoldable pub new_out : (iov_max : ℕ) → UdpOut
new_out iov_max = record {
  iov_max = iov_max;
  sent = [];
  pending = [];
  num_write = 0;
  write_iov_cnt = 0;
  nxt16 = 0;
  nxt32 = 0;
}

-- The datagrams that come until the socket is shut down. `skip` is the length of the first element of
-- the vector: how many bytes of the first datagram have been peeked at.
pub record UdpIn : Type 0 where
  pub iov_max : ℕ
  pub packets : List (List ℕ)
  pub skip : ℕ
  pub num_peek : ℕ
  pub iovlen : ℕ

-- `addPeekElt()`, and `addPeek()` of bytes
unfoldable pub add_peek : ℕ → UdpIn → Result UdpIn
unfolding vet_io_elt
add_peek nbytes i = do
  vetted ← vet_io_elt i.iov_max (i.skip + i.num_peek + nbytes) i.iovlen
  ok (record i { num_peek = i.num_peek + nbytes; iovlen = i.iovlen + 1 })

unfoldable pub align_peek_to : ℕ → UdpIn → Result UdpIn
unfolding add_peek
align_peek_to nbytes i =
    let len = pad_len (i.skip + i.num_peek) nbytes in if len == 0 then ok i else add_peek len i

-- `addPeek()` of a number; the position at which `peek()` will find it
unfoldable pub add_peek_number : (nbytes : ℕ) → UdpIn → Result (ℕ × UdpIn)
unfolding add_peek align_peek_to
add_peek_number nbytes i = do
  aligned ← align_peek_to nbytes i
  added ← add_peek nbytes aligned
  ok (aligned.skip + aligned.num_peek, added)

unfoldable pub reset_for_next_peek : ℕ → UdpIn → UdpIn
reset_for_next_peek num_to_skip i = record i { num_peek = 0; iovlen = 1; skip = num_to_skip }

-- `discard()` drops the first datagram.
unfoldable pub discard : UdpIn → UdpIn
unfolding reset_for_next_peek
discard i = reset_for_next_peek 0 (record i { packets = drop 1 i.packets })

-- `peek()`. It returns false after the socket was shut down, and for a datagram that is too short.
unfoldable pub peek : UdpIn → Bool × UdpIn
unfolding discard reset_for_next_peek
peek i = elim i.packets [
  | [] ↦ (false, i)
  | packet ∷ packets ↦
      if leb (i.skip + i.num_peek) (length packet)
      then (true, reset_for_next_peek (i.skip + i.num_peek) i)
      else (false, discard i)
]

-- A new receiving socket.
abbrev pub new_in : (iov_max : ℕ) → (packets : List (List ℕ)) → UdpIn
new_in iov_max packets = record {
  iov_max = iov_max;
  packets = packets;
  skip = 0;
  num_peek = 0;
  iovlen = 1;
}

-- What was peeked at: bytes of the first datagram from a position on, and the number they give after
-- `ntoh()`.
abbrev pub bytes_at : (position nbytes : ℕ) → UdpIn → List ℕ
bytes_at position nbytes i = elim i.packets [
  | [] ↦ []
  | packet ∷ packets ↦ take nbytes (drop position packet)
]

abbrev pub number_at : (position nbytes : ℕ) → UdpIn → ℕ
number_at position nbytes i = host (bytes_at position nbytes i) 0
