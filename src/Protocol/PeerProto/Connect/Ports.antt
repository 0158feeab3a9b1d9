-- ===== src/Protocol/PeerProto/Connect/Ports.antt =====
-- Which ports of the pool the servers of main/protocol/PeerProto.cpp take, and which they give back.
use mathlib.Core.Path.{subst}
use mathlib.Core.List.{append_assoc, append-nil}
use hycast.Prelude.{
  ◌≢◌, ℕ, zero, suc, ◌+◌, ◌≡◌, refl, sym, ap, ◌∙◌, ◌⊎◌, inl, inr, Bool, true, false, none, List, [],
  ◌∷◌, ◌++◌, arith, length, All, Bool-cases, length-append, Error,
}
use hycast.Inet.TcpSock.{Got, got, eof, throws, In, read16, write16}
use hycast.Inet.PortPool
use hycast.Protocol.PeerProto.Connect.{
  Tried, opened, refused, waits, try_ports, create_srvr_sock, Wire, Made, made, fails, blocks,
  Served, serve_port, offer_port, or_eof, init, and_then, serve, serve_sub,
}

module _ (binds : ℕ → Bool) where
  -- No server socket can be bound to any of the ports.
  abbrev NoneBinds : List ℕ → Type 0
  NoneBinds ports = All (λ port. binds port ≡ false) ports

  first_to_bind :
      (pool : List ℕ)
      → NoneBinds pool
        ⊎ ((xs : List ℕ) × (port : ℕ) × (ys : List ℕ) × (pool ≡ xs ++ port ∷ ys)
            × NoneBinds xs
            × (binds port ≡ true))
  first_to_bind [] = inl tt
  first_to_bind (x ∷ pool) = elim (Bool-cases (binds x)) [
    | inl e ↦ inr ([], x, pool, refl, tt, e)
    | inr e ↦ elim (first_to_bind pool) [
      | inl idle ↦ inl (e, idle)
      | inr (xs, port, ys, split, idle, b) ↦
          inr (x ∷ xs, port, ys, ap (λ (l : List ℕ). x ∷ l) split, (e, idle), b)
    ]
  ]

  tries_all :
      (xs ys : List ℕ) (m n : ℕ)
      → NoneBinds xs
      → m ≡ length xs + n
      → try_ports binds m (xs ++ ys) ≡ try_ports binds n (ys ++ xs)
  unfolding try_ports PortPool.take PortPool.add
  tries_all [] ys m n h e =
      ap (λ (k : ℕ). try_ports binds k ys) (omega arith)
      ∙ ap (try_ports binds n) (sym (append-nil ys))
  tries_all (x ∷ xs) ys zero n h e = absurd (omega arith)
  tries_all (x ∷ xs) ys (suc m) n (idle, h) e = rw idle (
      ap (try_ports binds m) (append_assoc xs ys (x ∷ []))
      ∙ tries_all xs (ys ++ x ∷ []) m n h (omega arith)
      ∙ ap (try_ports binds n) (append_assoc ys (x ∷ []) xs))

  none_bound : (xs : List ℕ) → NoneBinds xs → create_srvr_sock binds xs ≡ (refused, xs)
  unfolding create_srvr_sock PortPool.size try_ports
  none_bound xs h =
      ap (try_ports binds (length xs)) (sym (append-nil xs))
      ∙ tries_all xs [] (length xs) 0 h (omega arith)

  -- `createSrvrSock()` tries each port of the pool once, the longest unused first. The first one that
  -- a server socket can be bound to is taken, and those before it are put behind the others. If there
  -- is none, it throws, and the pool is as before.
  create_srvr_sock-first :
      (xs ys : List ℕ) (port : ℕ)
      → All (λ p. binds p ≡ false) xs
      → binds port ≡ true
      → (create_srvr_sock binds xs ≡ (refused, xs))
        × (create_srvr_sock binds (xs ++ port ∷ ys) ≡ (opened port, ys ++ xs))
  unfolding create_srvr_sock PortPool.size try_ports PortPool.take
  create_srvr_sock-first xs ys port h free =
      let before =
        tries_all xs (port ∷ ys) (length (xs ++ port ∷ ys)) (suc (length ys)) h
          (omega (arith, length-append xs (port ∷ ys))) in
      (none_bound xs h, before ∙ rw free refl)

-- The ports of the pool, one of them in the hands of a server.
abbrev Accounts : (p : ℕ) (pool : List ℕ) → Tried × List ℕ → Type 0
Accounts p pool (opened port, left) = PortPool.count p (port ∷ left) ≡ PortPool.count p pool
Accounts p pool (refused, left) = left ≡ pool
Accounts p pool (waits, left) = ⊥

create_srvr_sock-Accounts :
    (binds : ℕ → Bool) (p : ℕ) (pool : List ℕ) → Accounts p pool (create_srvr_sock binds pool)
create_srvr_sock-Accounts binds p pool = elim (first_to_bind binds pool) [
  | inl idle ↦
      let none_opened = none_bound binds pool idle in subst (Accounts p pool) (sym none_opened) refl
  | inr (xs, port, ys, split, idle, free) ↦
      let first = (create_srvr_sock-first binds xs ys port idle free).1 in
      let found = ap (create_srvr_sock binds) split ∙ first in
      let same : (PortPool.count p (port ∷ (ys ++ xs)) ≡ PortPool.count p pool) = omega (
        arith,
        PortPool.count-append p ys xs,
        PortPool.count-append p xs (port ∷ ys),
        ap (PortPool.count p) split,
      ) in
      subst (Accounts p pool) (sym found) same
]

-- Of the ports of `pool`, a constructor holds the one that it has made something with. If it fails,
-- it has given back all.
abbrev pub Keeps : {A : Type 0} (p : ℕ) (pool : List ℕ) (port_of : A → ℕ) → Made A × Wire → Type 0
Keeps p pool port_of (made a, w) = PortPool.count p (port_of a ∷ w.pool) ≡ PortPool.count p pool
Keeps p pool port_of (fails e, w) = PortPool.count p w.pool ≡ PortPool.count p pool
Keeps p pool port_of (blocks, w) = ⊥

serve_port-Keeps :
    (accepts : ℕ → Bool) (p : ℕ) (w : Wire) (t : Tried × List ℕ)
    → Accounts p w.pool t
    → Keeps p w.pool (λ port. port) (serve_port accepts w t)
unfolding PortPool.add
serve_port-Keeps accepts p w (opened port, left) h = elim (Bool-cases (accepts port)) [
  | inl e ↦ rw e h
  | inr e ↦ rw e (omega (arith, h, PortPool.count-append p left (port ∷ [])))
]
serve_port-Keeps accepts p w (refused, left) h = ap (PortPool.count p) h
serve_port-Keeps accepts p w (waits, left) h = h

offer_port-Keeps :
    (binds accepts : ℕ → Bool) (p : ℕ) (w : Wire)
    → Keeps p w.pool (λ port. port) (offer_port binds accepts w)
unfolding offer_port
offer_port-Keeps binds accepts p w =
    serve_port-Keeps accepts p w (create_srvr_sock binds w.pool)
      (create_srvr_sock-Accounts binds p w.pool)

-- The pool after a part that does not use it, and the part that follows.
and_then-Keeps :
    {A B : Type 0} (p : ℕ) (pool : List ℕ) (port_of : B → ℕ) (k : A → Wire → Made B × Wire)
    (m : Made A × Wire)
    → m.1.pool ≡ pool
    → m.0 ≢ blocks
    → ((a : A) → (w : Wire) → w.pool ≡ pool → Keeps p pool port_of (k a w))
    → Keeps p pool port_of (and_then k m)
and_then-Keeps p pool port_of k (made a, w) same goes h = h a w same
and_then-Keeps p pool port_of k (fails e, w) same goes h = ap (PortPool.count p) same
and_then-Keeps p pool port_of k (blocks, w) same goes h = goes refl

or_eof-pool :
    {A : Type 0} (k : ℕ → Made A) (w : Wire) (r : Got ℕ × In) → (or_eof k w r).1.pool ≡ w.pool
or_eof-pool k w (got value, i) = refl
or_eof-pool k w (eof, i) = refl
or_eof-pool k w (throws e, i) = refl

or_eof-goes : (w : Wire) (r : Got ℕ × In) → (or_eof (λ n. made n) w r).0 ≢ blocks
or_eof-goes w (got value, i) = λ e. absurd (cc)
or_eof-goes w (eof, i) = λ e. absurd (cc)
or_eof-goes w (throws x, i) = λ e. absurd (cc)

made_of-Keeps :
    {A B : Type 0} (p : ℕ) (pool : List ℕ) (port_of : A → ℕ) (port_of' : B → ℕ) (f : A → B)
    (m : Made A × Wire)
    → ((a : A) → port_of' (f a) ≡ port_of a)
    → Keeps p pool port_of m
    → Keeps p pool port_of' (and_then (λ a w. (made (f a), w)) m)
made_of-Keeps p pool port_of port_of' f (made a, w) same h = rw (same a) h
made_of-Keeps p pool port_of port_of' f (fails e, w) same h = h
made_of-Keeps p pool port_of port_of' f (blocks, w) same h = h

-- A server of a publisher takes one port of the pool. If it fails, whatever the remote peer sends and
-- wherever it fails, each port is as often in the pool as before. It never waits for a port.
pub serve-Keeps :
    (binds accepts : ℕ → Bool) (lcl_node_type p : ℕ) (w : Wire)
    → Keeps p w.pool (λ (s : Served). s.srvr_port) (serve binds accepts lcl_node_type w)
unfolding serve init
serve-Keeps binds accepts lcl_node_type p w =
    let start : Wire = record w { out = write16 lcl_node_type w.out } in
    and_then-Keeps p w.pool (λ (s : Served). s.srvr_port) _
      (or_eof (λ n. made n) start (read16 w.incoming))
      (or_eof-pool (λ n. made n) start (read16 w.incoming)) (or_eof-goes start (read16 w.incoming))
      (λ node_type u same.
        made_of-Keeps p w.pool (λ port. port) (λ (s : Served). s.srvr_port)
          (λ port. record { rmt_node_type = node_type; srvr_port = port; clnt_port = none })
          (offer_port binds accepts u) (λ port. refl)
          (subst (λ l. Keeps p l (λ port. port) (offer_port binds accepts u)) same
            (offer_port-Keeps binds accepts p u)))

-- If a server of a subscriber has made the connection for requests to it, but fails to make the other
-- one, the constructor throws, and the port of the first connection is not in the pool any more: with
-- it, each port would be as often there as before.
pub serve_sub-loses_port :
    (binds accepts : ℕ → Bool) (lcl_node_type p : ℕ) (w u v : Wire) (s : Served) (e : Error)
    → serve binds accepts lcl_node_type w ≡ (made s, u)
    → offer_port binds accepts u ≡ (fails e, v)
    → (serve_sub binds accepts lcl_node_type w ≡ (fails e, v))
      × (PortPool.count p (s.srvr_port ∷ v.pool) ≡ PortPool.count p w.pool)
unfolding serve_sub
serve_sub-loses_port binds accepts lcl_node_type p w u v s e first second =
    let kept = rw first at (serve-Keeps binds accepts lcl_node_type p w) in
    let given = rw second at (offer_port-Keeps binds accepts p u) in
    (rw (first, second) refl, omega (arith, kept, given))
