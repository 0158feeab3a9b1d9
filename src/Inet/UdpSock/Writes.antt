-- ===== src/Inet/UdpSock/Writes.antt =====
-- What is added to a datagram of main/inet/Socket.cpp, where it fits.
use hycast.Prelude.{
  ℕ, ◌+◌, ◌/◌, ◌≤◌, ◌<◌, ◌≡◌, refl, true, false, List, ◌++◌, arith, leb, length, ok, err,
  out_of_range, invalid_argument,
}
use hycast.Inet.TcpSock.{pad_len, network16, network32}
use hycast.Inet.UdpSock.{
  max_payload, UdpOut, vet_io_elt, add_write, align_write_to, add_write16, add_write32, then_send,
}

-- The state with more bytes.
abbrev pub added : List ℕ → UdpOut → UdpOut
added bytes o = record o {
  pending = o.pending ++ bytes;
  num_write = o.num_write + length bytes;
  write_iov_cnt = o.write_iov_cnt + 1;
}

pub add_write-fits :
    (bytes : List ℕ) (o : UdpOut)
    → o.num_write + length bytes ≤ max_payload
    → o.write_iov_cnt < o.iov_max
    → add_write bytes o ≡ (ok tt, added bytes o)
unfolding add_write vet_io_elt
add_write-fits bytes o room few = ground arith

pub align_write_to-aligned :
    (n : ℕ) (o : UdpOut) → pad_len o.num_write n ≡ 0 → align_write_to n o ≡ (ok tt, o)
unfolding align_write_to
align_write_to-aligned n o e = rw e refl

pub add_write16-fits :
    (value : ℕ) (o : UdpOut)
    → pad_len o.num_write 2 ≡ 0
    → o.num_write + 2 ≤ max_payload
    → o.write_iov_cnt < o.iov_max
    → o.nxt16 < max_payload / 2
    → add_write16 value o ≡ (ok tt, added (network16 value) (record o { nxt16 = o.nxt16 + 1 }))
unfolding add_write16
add_write16-fits value o aligned room few places =
    let there : (leb (max_payload / 2) o.nxt16 ≡ false) = ground arith in
    rw (align_write_to-aligned 2 o aligned, then_send, there)
      (add_write-fits (network16 value) (record o { nxt16 = o.nxt16 + 1 }) room few)

pub add_write32-fits :
    (value : ℕ) (o : UdpOut)
    → pad_len o.num_write 4 ≡ 0
    → o.num_write + 4 ≤ max_payload
    → o.write_iov_cnt < o.iov_max
    → o.nxt32 < max_payload / 4
    → add_write32 value o ≡ (ok tt, added (network32 value) (record o { nxt32 = o.nxt32 + 1 }))
unfolding add_write32
add_write32-fits value o aligned room few places =
    let there : (leb (max_payload / 4) o.nxt32 ≡ false) = ground arith in
    rw (align_write_to-aligned 4 o aligned, then_send, there)
      (add_write-fits (network32 value) (record o { nxt32 = o.nxt32 + 1 }) room few)

-- The arrays are used up.
pub add_write32-full :
    (value : ℕ) (o : UdpOut)
    → pad_len o.num_write 4 ≡ 0
    → max_payload / 4 ≤ o.nxt32
    → add_write32 value o ≡ (err out_of_range, o)
unfolding add_write32
add_write32-full value o aligned used =
    let full : (leb (max_payload / 4) o.nxt32 ≡ true) = ground arith in
    rw (align_write_to-aligned 4 o aligned, then_send, full) refl

pub add_write-exceeds :
    (bytes : List ℕ) (o : UdpOut)
    → max_payload < o.num_write + length bytes
    → add_write bytes o ≡ (err invalid_argument, o)
unfolding add_write vet_io_elt
add_write-exceeds bytes o big = ground arith
