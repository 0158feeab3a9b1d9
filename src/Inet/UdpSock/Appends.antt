-- ===== src/Inet/UdpSock/Appends.antt =====
-- What the writing calls of the UDP socket (main/inet/Socket.cpp) do to the datagram that is under way.
use hycast.Prelude.{
  ℕ, ◌+◌, ◌/◌, ◌≤◌, ◌≡◌, refl, sym, ap, ◌∙◌, true, List, [], ◌∷◌, ◌++◌, arith, length, Result, ok,
  err, ◌==◌, leb, replicate, length-append, Bool-cases, inl, inr,
}
use mathlib.Core.List.{append_assoc, append-nil}
use hycast.Inet.TcpSock.{pad_len, network16, network32}
use hycast.Inet.UdpSock.{
  max_payload, UdpOut, Sending, ◌andthen◌, then_send, vet_io_elt, add_write, align_write_to,
  add_write16, add_write32, write,
}

-- Bytes were appended to the datagram that is under way, and counted.
pub record Appends (o o' : UdpOut) : Type 0 where
  pub bytes : List ℕ
  pub same_sent : o'.sent ≡ o.sent
  pub appends : o'.pending ≡ o.pending ++ bytes
  pub counted : o'.num_write ≡ o.num_write + length bytes
  pub fits : o.num_write ≤ max_payload → o'.num_write ≤ max_payload

-- A call that returns does only that.
abbrev pub OnlyAppends : Sending → Type 0
OnlyAppends call = (o o' : UdpOut) → call o ≡ (ok tt, o') → Appends o o'

pub add_write-OnlyAppends : (bytes : List ℕ) → OnlyAppends (add_write bytes)
unfolding add_write vet_io_elt
add_write-OnlyAppends bytes o o' e = record {
  bytes = bytes;
  same_sent = ground arith;
  appends = ground arith;
  counted = ground arith;
  fits = λ h. ground arith;
}

nothing-Appends : (o o' : UdpOut) → o ≡ o' → Appends o o'
nothing-Appends o o' e = record {
  bytes = [];
  same_sent = ap (λ (p : UdpOut). p.sent) (sym e);
  appends = ap (λ (p : UdpOut). p.pending) (sym e) ∙ sym (append-nil o.pending);
  counted = ap (λ (p : UdpOut). p.num_write) (sym e) ∙ omega arith;
  fits = λ h. rw (← e) h;
}

then_send-returns :
    (next : Sending) (p : Result (Unit {0}) × UdpOut) (o' : UdpOut)
    → then_send next p ≡ (ok tt, o')
    → (p ≡ (ok tt, p.1)) × (next p.1 ≡ (ok tt, o'))
then_send-returns next (ok tt, o) o' e = (refl, e)
then_send-returns next (err x, o) o' e = absurd (cc)

both-Appends : (o m o' : UdpOut) → Appends o m → Appends m o' → Appends o o'
both-Appends o m o' a b = record {
  bytes = a.bytes ++ b.bytes;
  same_sent = b.same_sent ∙ a.same_sent;
  appends =
      b.appends
      ∙ ap (λ (l : List ℕ). l ++ b.bytes) a.appends
      ∙ append_assoc o.pending a.bytes b.bytes;
  counted = omega (arith, a.counted, b.counted, length-append a.bytes b.bytes);
  fits = λ h. b.fits (a.fits h);
}

pub andthen-OnlyAppends :
    (first next : Sending) → OnlyAppends first → OnlyAppends next → OnlyAppends (first andthen next)
andthen-OnlyAppends first next f g o o' e =
    let (one, two) = then_send-returns next (first o) o' e in
    both-Appends o (first o).1 o' (f o (first o).1 one) (g (first o).1 o' two)

align_write_to-OnlyAppends : (n : ℕ) → OnlyAppends (align_write_to n)
unfolding align_write_to
align_write_to-OnlyAppends n o o' e = elim (Bool-cases (pad_len o.num_write n == 0)) [
  | inl aligned ↦
      nothing-Appends o o' (ap (λ (p : Result (Unit {0}) × UdpOut). p.1) (rw aligned at e))
  | inr pads ↦ add_write-OnlyAppends (replicate (pad_len o.num_write n) 0) o o' (rw pads at e)
]

-- The places in the arrays do not matter to it.
other_places-Appends :
    (places16 places32 : ℕ) (o o' : UdpOut)
    → Appends (record o { nxt16 = places16; nxt32 = places32 }) o'
    → Appends o o'
other_places-Appends places16 places32 o o' a = record {
  bytes = a.bytes;
  same_sent = a.same_sent;
  appends = a.appends;
  counted = a.counted;
  fits = a.fits;
}

add_write16-OnlyAppends : (value : ℕ) → OnlyAppends (add_write16 value)
unfolding add_write16
add_write16-OnlyAppends value =
    andthen-OnlyAppends (align_write_to 2) _ (align_write_to-OnlyAppends 2) (λ o o' e.
      elim (Bool-cases (leb (max_payload / 2) o.nxt16)) [
        | inl full ↦ absurd (cc (rw full at e))
        | inr room ↦ other_places-Appends (o.nxt16 + 1) o.nxt32 o o' (
            add_write-OnlyAppends (network16 value) (record o { nxt16 = o.nxt16 + 1 }) o'
              (rw room at e))
      ])

pub add_write32-OnlyAppends : (value : ℕ) → OnlyAppends (add_write32 value)
unfolding add_write32
add_write32-OnlyAppends value =
    andthen-OnlyAppends (align_write_to 4) _ (align_write_to-OnlyAppends 4) (λ o o' e.
      elim (Bool-cases (leb (max_payload / 4) o.nxt32)) [
        | inl full ↦ absurd (cc (rw full at e))
        | inr room ↦ other_places-Appends o.nxt16 (o.nxt32 + 1) o o' (
            add_write-OnlyAppends (network32 value) (record o { nxt32 = o.nxt32 + 1 }) o'
              (rw room at e))
      ])

-- What a message consists of before it is written.
pub body-Sent :
    (body : Sending) (o o' : UdpOut)
    → OnlyAppends body
    → (body andthen write true) o ≡ (ok tt, o')
    → (m : UdpOut) × Appends o m × (o'.sent ≡ m.sent ++ m.pending ∷ [])
unfolding write
body-Sent body o o' f e =
    let (one, two) = then_send-returns (write true) (body o) o' e in
    ((body o).1, f o (body o).1 one, ap (λ (p : Result (Unit {0}) × UdpOut). p.1.sent) (sym two))

pub two_numbers-OnlyAppends :
    (a b c : ℕ) → OnlyAppends (add_write16 a andthen add_write16 b andthen add_write32 c)
two_numbers-OnlyAppends a b c =
    andthen-OnlyAppends _ (add_write32 c)
      (andthen-OnlyAppends (add_write16 a) (add_write16 b) (add_write16-OnlyAppends a)
        (add_write16-OnlyAppends b))
      (add_write32-OnlyAppends c)
