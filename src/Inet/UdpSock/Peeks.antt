-- ===== src/Inet/UdpSock/Peeks.antt =====
-- Peeking at a datagram of main/inet/Socket.cpp that is long enough.
use hycast.Prelude.{
  ℕ, ◌+◌, ◌≤◌, ◌<◌, ◌≡◌, refl, true, false, List, ◌∷◌, arith, leb, ◌==◌, length, ok, err,
  invalid_argument, if◌then◌else◌, ◌>>=◌,
}
use hycast.Inet.TcpSock.{pad_len}
use hycast.Inet.UdpSock.{
  max_payload, UdpIn, vet_io_elt, add_peek, align_peek_to, add_peek_number, peek, discard,
  reset_for_next_peek,
}

abbrev pub peeking : (nbytes : ℕ) → UdpIn → UdpIn
peeking nbytes i = record i { num_peek = i.num_peek + nbytes; iovlen = i.iovlen + 1 }

pub add_peek-fits :
    (n : ℕ) (i : UdpIn)
    → i.skip + i.num_peek + n ≤ max_payload
    → i.iovlen < i.iov_max
    → add_peek n i ≡ ok (peeking n i)
unfolding add_peek vet_io_elt
add_peek-fits n i room few = ground arith

pub add_peek_number-fits :
    (n : ℕ) (i : UdpIn)
    → pad_len (i.skip + i.num_peek) n ≡ 0
    → i.skip + i.num_peek + n ≤ max_payload
    → i.iovlen < i.iov_max
    → add_peek_number n i ≡ ok (i.skip + i.num_peek, peeking n i)
unfolding add_peek_number align_peek_to
add_peek_number-fits n i aligned room few =
    rw (aligned, ◌==◌, if◌then◌else◌, ◌>>=◌, add_peek-fits n i room few) refl

-- The state after a peek at as many bytes of the first datagram as were asked for.
abbrev pub peeked : UdpIn → UdpIn
peeked i = record i { num_peek = 0; iovlen = 1; skip = i.skip + i.num_peek }

module _ (iov_max skip num_peek iovlen : ℕ) (packet : List ℕ) (packets : List (List ℕ)) where
  abbrev before : UdpIn
  before = record {
    iov_max = iov_max;
    packets = packet ∷ packets;
    skip = skip;
    num_peek = num_peek;
    iovlen = iovlen;
  }

  pub peek-long : skip + num_peek ≤ length packet → peek before ≡ (true, peeked before)
  unfolding peek reset_for_next_peek
  peek-long long =
      let enough : (leb (skip + num_peek) (length packet) ≡ true) = ground arith in rw enough refl

  pub peek-short : length packet < skip + num_peek → peek before ≡ (false, discard before)
  unfolding peek
  peek-short short =
      let few : (leb (skip + num_peek) (length packet) ≡ false) = ground arith in rw few refl

pub add_peek-exceeds :
    (n : ℕ) (i : UdpIn)
    → max_payload < i.skip + i.num_peek + n
    → add_peek n i ≡ err invalid_argument
unfolding add_peek vet_io_elt
add_peek-exceeds n i big = ground arith
