-- ===== src/Protocol/PeerProto/Connect.antt =====
-- How the connections between two peers are made: the constructors of `PeerProto::Impl`,
-- `PubPeerProto` and `SubPeerProto` in main/protocol/PeerProto.cpp, with the pool of ports. What the
-- network does with a port is a parameter: whether a server socket can be bound to it, whether a
-- connection to it is accepted, and whether one can be made.
pub mod Ports
pub mod Pairs
use hycast.Prelude.{
  ℕ, zero, suc, ◌+◌, ◌^◌, ◌<◌, ◌≡◌, refl, Bool, true, false, Option, none, some, List, [], ◌∷◌,
  if◌then◌else◌, ◌==◌, Error, logic_error, runtime_error, system_error,
}
use hycast.Inet.TcpSock.{Out, In, Got, got, eof, throws, write16, read16}
use hycast.Inet.PortPool

-- The values of `NodeType` in main/node/NodeType.h.
abbrev pub publisher : ℕ
publisher = 0

abbrev pub path_to_publisher : ℕ
path_to_publisher = 1

abbrev pub no_path_to_publisher : ℕ
no_path_to_publisher = 2

pub data Tried : Type 0 where
  opened : ℕ → Tried
  refused waits : Tried

-- The loop of `createSrvrSock()`, with `n` rounds to go. It waits where `take()` finds no port.
unfoldable pub try_ports : (binds : ℕ → Bool) → ℕ → List ℕ → Tried × List ℕ
try_ports binds zero pool = (refused, pool)
try_ports binds (suc n) pool = elim (PortPool.take pool) [
  | none ↦ (waits, pool)
  | some (port, ports) ↦
      let again = try_ports binds n (PortPool.add port ports) in
      if binds port then (opened port, ports) else again
]

unfoldable pub create_srvr_sock : (binds : ℕ → Bool) → List ℕ → Tried × List ℕ
create_srvr_sock binds pool = try_ports binds (PortPool.size pool) pool

-- The socket for notices, in both directions, and the pool.
pub record Wire : Type 0 where
  pub out : Out
  pub incoming : In
  pub pool : List ℕ

pub data Made (A : Type 0) : Type 0 where
  made : A → Made A
  fails : Error → Made A
  blocks : Made A

-- A peer that was made by a server: the type of the remote node, the port on which it receives
-- requests and, at a subscriber, the port on which it sends them.
pub record Served : Type 0 where
  pub rmt_node_type : ℕ
  pub srvr_port : ℕ
  pub clnt_port : Option ℕ

-- A temporary server on the port that was found, whose number the remote peer is told.
abbrev pub serve_port : (accepts : ℕ → Bool) → Wire → Tried × List ℕ → Made ℕ × Wire
serve_port accepts w (opened port, pool) =
    let told = record w { out = write16 port w.out; pool = pool } in
    if accepts port
    then (made port, told)
    else (fails system_error, record told { pool = PortPool.add port pool })
serve_port accepts w (refused, pool) = (fails runtime_error, record w { pool = pool })
serve_port accepts w (waits, pool) = (blocks, record w { pool = pool })

unfoldable pub offer_port : (binds accepts : ℕ → Bool) → Wire → Made ℕ × Wire
offer_port binds accepts w = serve_port accepts w (create_srvr_sock binds w.pool)

-- What a constructor makes of a number that it reads.
abbrev pub or_eof : {A : Type 0} → (ℕ → Made A) → Wire → Got ℕ × In → Made A × Wire
or_eof k w (got value, i) = (k value, record w { incoming = i })
or_eof k w (eof, i) = (fails runtime_error, record w { incoming = i })
or_eof k w (throws e, i) = (fails e, record w { incoming = i })

-- `init()`
unfoldable pub init : (lcl_node_type : ℕ) → Wire → Made ℕ × Wire
init lcl_node_type w =
    or_eof (λ node_type. made node_type) (record w { out = write16 lcl_node_type w.out })
      (read16 w.incoming)

-- If the first part is made, the second goes on.
abbrev pub and_then : {A B : Type 0} → (A → Wire → Made B × Wire) → Made A × Wire → Made B × Wire
and_then k (made a, w) = k a w
and_then k (fails e, w) = (fails e, w)
and_then k (blocks, w) = (blocks, w)

-- The constructor of a server in `PeerProto::Impl`, which `PubPeerProto` adds nothing to.
unfoldable pub serve : (binds accepts : ℕ → Bool) (lcl_node_type : ℕ) → Wire → Made Served × Wire
serve binds accepts lcl_node_type w =
    and_then
      (λ node_type u.
        and_then
          (λ port v.
            (made (record { rmt_node_type = node_type; srvr_port = port; clnt_port = none }), v))
          (offer_port binds accepts u))
      (init lcl_node_type w)

-- The constructor of a server in `SubPeerProto`. If it throws, the destructor of the part that
-- `serve` has made does not give a port back.
unfoldable pub serve_sub :
    (binds accepts : ℕ → Bool) (lcl_node_type : ℕ) → Wire → Made Served × Wire
serve_sub binds accepts lcl_node_type w =
    and_then
      (λ base u.
        and_then (λ port v. (made (record base { clnt_port = some port }), v))
          (offer_port binds accepts u))
      (serve binds accepts lcl_node_type w)

-- A peer that was made by a client: the ports that it has connected to.
pub record Connected : Type 0 where
  pub rmt_node_type : ℕ
  pub clnt_port : ℕ
  pub srvr_port : Option ℕ

-- A connection to the port that the remote peer tells.
unfoldable pub take_port : (connects : ℕ → Bool) → Wire → Made ℕ × Wire
take_port connects w =
    or_eof (λ port. if connects port then made port else fails system_error) w (read16 w.incoming)

-- The constructor of a client in `SubPeerProto`.
unfoldable pub connect : (connects : ℕ → Bool) (lcl_node_type : ℕ) → Wire → Made Connected × Wire
connect connects lcl_node_type w =
    if lcl_node_type == publisher
    then (fails logic_error, w)
    else and_then
        (λ node_type u.
          and_then
            (λ port v.
              let alone : Connected = record {
                rmt_node_type = node_type;
                clnt_port = port;
                srvr_port = none;
              } in
              if node_type == publisher
              then (made alone, v)
              else and_then (λ second x. (made (record alone { srvr_port = some second }), x))
                  (take_port connects v))
            (take_port connects u))
        (init lcl_node_type w)
