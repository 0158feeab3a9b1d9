-- ===== src/Protocol/PeerProto/Connect/Pairs.antt =====
-- The ports of main/protocol/PeerProto.cpp at both ends of a connection.
use hycast.Prelude.{
  ℕ, ◌^◌, ◌<◌, ◌≡◌, ◌≢◌, refl, sym, ap, ◌∙◌, inl, inr, Bool, true, false, none, some, List, [],
  ◌++◌, arith, ◌==◌, Bool-cases,
}
use mathlib.Core.List.{append_assoc, append-nil}
use hycast.Inet.TcpSock.{Out, In, Got, got, eof, throws, write16, read16}
use hycast.Inet.TcpSock.Decodes.{stream}
use hycast.Inet.TcpSock.Decodes.Numbers.{write16-Decodes}
use hycast.Protocol.PeerProto.Connect.{
  publisher, Tried, opened, refused, waits, create_srvr_sock, Wire, Made, made, fails, blocks,
  Served, serve_port, offer_port, or_eof, init, and_then, serve, serve_sub, take_port, connect,
}

-- A new connection, on which the other end has sent these bytes.
abbrev pub new_wire : List ℕ → List ℕ → Wire
new_wire bytes pool = record {
  out = record { sent = []; bytes_written = 0 };
  incoming = stream bytes 0;
  pool = pool;
}

and_then-made :
    {A B : Type 0} (k : A → Wire → Made B × Wire) (m : Made A × Wire) (b : B) (v : Wire)
    → and_then k m ≡ (made b, v)
    → (a : A) × (u : Wire) × (m ≡ (made a, u)) × (k a u ≡ (made b, v))
and_then-made k (made a, u) b v e = (a, u, refl, e)
and_then-made k (fails x, u) b v e = absurd (cc)
and_then-made k (blocks, u) b v e = absurd (cc)

serve_port-told :
    (accepts : ℕ → Bool) (w : Wire) (t : Tried × List ℕ) (port : ℕ) (v : Wire)
    → serve_port accepts w t ≡ (made port, v)
    → v.out ≡ write16 port w.out
serve_port-told accepts w (opened q, left) port v h = elim (Bool-cases (accepts q)) [
  | inl yes' ↦ let h' = rw yes' at h in cc
  | inr no' ↦ let h' = rw no' at h in absurd (cc)
]
serve_port-told accepts w (refused, left) port v h = absurd (cc)
serve_port-told accepts w (waits, left) port v h = absurd (cc)

or_eof-made :
    (w : Wire) (r : Got ℕ × In) (n : ℕ) (v : Wire)
    → or_eof (λ k. made k) w r ≡ (made n, v)
    → (v.out ≡ w.out) × (r.0 ≡ got n)
or_eof-made w (got k, i) n v h = (cc, cc)
or_eof-made w (eof, i) n v h = absurd (cc)
or_eof-made w (throws e, i) n v h = absurd (cc)

made_of-told :
    {B : Type 0} (accepts : ℕ → Bool) (w : Wire) (t : Tried × List ℕ) (f : ℕ → B) (b : B) (v : Wire)
    → and_then (λ port u. (made (f port), u)) (serve_port accepts w t) ≡ (made b, v)
    → (port : ℕ) × (f port ≡ b) × (v.out ≡ write16 port w.out)
made_of-told accepts w t f b v e =
    let (port, u, told, same) =
      and_then-made (λ port u. (made (f port), u)) (serve_port accepts w t) b v e in
    let out = serve_port-told accepts w t port u told in (port, cc, cc)

-- What a server that is made has sent.
serve-told :
    (binds accepts : ℕ → Bool) (node_type : ℕ) (w : Wire) (s : Served) (v : Wire)
    → serve binds accepts node_type w ≡ (made s, v)
    → (v.out ≡ write16 s.srvr_port (write16 node_type w.out))
      × ((read16 w.incoming).0 ≡ got s.rmt_node_type)
unfolding serve init offer_port
serve-told binds accepts node_type w s v e =
    let start : Wire = record w { out = write16 node_type w.out } in
    let (rmt, u, begun, rest) =
      and_then-made _ (or_eof (λ k. made k) start (read16 w.incoming)) s v e in
    let (told, type) = or_eof-made start (read16 w.incoming) rmt u begun in
    let (port, same, out) =
      made_of-told accepts u (create_srvr_sock binds u.pool)
        (λ port. record { rmt_node_type = rmt; srvr_port = port; clnt_port = none }) s v rest in
    let port_eq = ap (λ (x : Served). x.srvr_port) same in
    let type_eq = ap (λ (x : Served). x.rmt_node_type) same in (cc, cc)

serve_sub-told :
    (binds accepts : ℕ → Bool) (node_type : ℕ) (w : Wire) (s : Served) (v : Wire)
    → serve_sub binds accepts node_type w ≡ (made s, v)
    → (second : ℕ) × (s.clnt_port ≡ some second)
      × (v.out ≡ write16 second (write16 s.srvr_port (write16 node_type w.out)))
      × ((read16 w.incoming).0 ≡ got s.rmt_node_type)
unfolding serve_sub offer_port
serve_sub-told binds accepts node_type w s v e =
    let (base, u, begun, rest) = and_then-made _ (serve binds accepts node_type w) s v e in
    let (told, type) = serve-told binds accepts node_type w base u begun in
    let (second, same, out) =
      made_of-told accepts u (create_srvr_sock binds u.pool)
        (λ port. record base { clnt_port = some port }) s v rest in
    let port_eq = ap (λ (x : Served). x.srvr_port) same in
    let type_eq = ap (λ (x : Served). x.rmt_node_type) same in
    let second_eq = ap (λ (x : Served). x.clnt_port) same in (second, cc, cc, cc)

abbrev pub new_out : Out
new_out = record { sent = []; bytes_written = 0 }

-- What a client makes of three numbers.
connect-reads :
    (connects : ℕ → Bool) (node_type a b d : ℕ) (pool : List ℕ)
    → node_type ≢ publisher
    → a ≢ publisher
    → a < 2 ^ 16
    → b < 2 ^ 16
    → d < 2 ^ 16
    → connects b ≡ true
    → connects d ≡ true
    → (connect connects node_type
        (new_wire (write16 d (write16 b (write16 a new_out))).sent pool)).0
      ≡ made (record { rmt_node_type = a; clnt_port = b; srvr_port = some d })
unfolding connect init take_port
connect-reads connects node_type a b d pool subscribes has_second la lb ld first second =
    let x = write16-Decodes a la new_out in
    let y = write16-Decodes b lb (write16 a new_out) in
    let z = write16-Decodes d ld (write16 b (write16 a new_out)) in
    let sent : ((write16 d (write16 b (write16 a new_out))).sent
        ≡ x.bytes ++ (y.bytes ++ (z.bytes ++ []))) =
      z.appends
      ∙ ap (λ (l : List ℕ). l ++ z.bytes) y.appends
      ∙ ap (λ (l : List ℕ). (l ++ y.bytes) ++ z.bytes) x.appends
      ∙ append_assoc x.bytes y.bytes z.bytes
      ∙ ap (λ (l : List ℕ). x.bytes ++ (y.bytes ++ l)) (sym (append-nil z.bytes)) in
    let sub : ((node_type == publisher) ≡ false) = ground arith in
    let two : ((a == publisher) ≡ false) = ground arith in
    let r1 = x.reads (y.bytes ++ (z.bytes ++ [])) in
    let r2 = y.reads (z.bytes ++ []) in
    let r3 = z.reads [] in rw (sub, sent, r1, r2, first, two, r3, second) refl

-- If a subscriber's server is made on a new connection to a subscriber, and the client can connect to
-- the two ports that it is told, then the client is made, on what the server has sent: it has
-- connected its side for requests to the port where the server receives them, and the other side to
-- the port from which the server sends them, and each end has the type of the other.
pub sub_pair :
    (binds accepts connects : ℕ → Bool) (srvr_type clnt_type second : ℕ) (pool pool' : List ℕ)
    (s : Served) (v : Wire)
    → srvr_type ≢ publisher
    → srvr_type < 2 ^ 16
    → clnt_type ≢ publisher
    → clnt_type < 2 ^ 16
    → serve_sub binds accepts srvr_type (new_wire (write16 clnt_type new_out).sent pool)
      ≡ (made s, v)
    → s.clnt_port ≡ some second
    → s.srvr_port < 2 ^ 16
    → second < 2 ^ 16
    → connects s.srvr_port ≡ true
    → connects second ≡ true
    → (s.rmt_node_type ≡ clnt_type)
      × ((connect connects clnt_type (new_wire v.out.sent pool')).0
          ≡ made (record {
            rmt_node_type = srvr_type;
            clnt_port = s.srvr_port;
            srvr_port = s.clnt_port;
          }))
sub_pair binds accepts connects srvr_type clnt_type second pool pool' s v sub st sub' ct served two
      p1 p2 c1 c2 =
    let w = new_wire (write16 clnt_type new_out).sent pool in
    let (port, port_eq, out, type) = serve_sub-told binds accepts srvr_type w s v served in
    let x = write16-Decodes clnt_type ct new_out in
    let told : ((read16 w.incoming).0 ≡ got clnt_type) =
      ap (λ (l : List ℕ). (read16 (stream l 0)).0) (x.appends ∙ sym (append-nil x.bytes))
      ∙ ap (λ (p : Got ℕ × In). p.0) (x.reads []) in
    let same : (some port ≡ some second) = sym port_eq ∙ two in
    let port_same : (port ≡ second) = cc in
    let sent : (v.out ≡ write16 second (write16 s.srvr_port (write16 srvr_type new_out))) =
      rw port_same at out in
    let read =
      connect-reads connects clnt_type srvr_type s.srvr_port second pool' sub' sub st p1 p2 c1 c2 in
    (cc, rw (sent, two) read)
