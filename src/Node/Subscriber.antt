-- ===== src/Node/Subscriber.antt =====
-- How a subscribing node decides on chunks: `Subscriber::Impl` of main/node/Node.cpp with the calls
-- that `SubP2pMgr::Impl` of main/p2p/P2pMgr.cpp makes of it and of the bookkeeper.
pub mod Duplicates
pub mod Requests
use hycast.Prelude.{
  ℕ, ◌+◌, ◌%◌, ◌^◌, Bool, true, false, Option, none, some, if◌then◌else◌, Result, ok, err,
}
use hycast.Protocol.ChunkId.{prod, seg}
use hycast.P2p.SubBookkeeper.{SubBookkeeper, should_request, received}
use hycast.Repository.RcvProdFile.{ProdInfo}
use hycast.Repository.SubRepo.{SubRepo, Env, Outcome, save_prod_info, save_data_seg}

pub record Subscriber : Type 0 where
  pub bookkeeper : SubBookkeeper
  pub repo : SubRepo
  pub num_udp_orig : ℕ
  pub num_tcp_orig : ℕ
  pub num_udp_dup : ℕ
  pub num_tcp_dup : ℕ

-- What a call returns, and whether the peers are notified; `none` if the fuel ran out.
abbrev pub Reply : Type 0
Reply = Option (Result Bool × Bool × Subscriber)

-- The counters after a save from the multicast, which notifies all peers of what is new.
abbrev pub counted_udp : Subscriber → Outcome Bool → Reply
counted_udp n none = none
counted_udp n (some (err e, r)) = some (err e, false, record n { repo = r })
counted_udp n (some (ok true, r)) =
    some (ok true, true, record n { repo = r; num_udp_orig = (n.num_udp_orig + 1) % 2 ^ 64 })
counted_udp n (some (ok false, r)) =
    some (ok false, false, record n { repo = r; num_udp_dup = (n.num_udp_dup + 1) % 2 ^ 64 })

unfoldable pub here_is_mcast_info : Env → ProdInfo → Subscriber → Reply
here_is_mcast_info env info n = counted_udp n (save_prod_info env info n.repo)

unfoldable pub here_is_mcast_seg :
    Env → (prod_index prod_size offset seg_size : ℕ) → (ℕ → ℕ) → Subscriber → Reply
here_is_mcast_seg env k prod_size offset size source n =
    counted_udp n (save_data_seg env k prod_size offset size source n.repo)

-- The counters after a save from a peer. The other peers are notified of what is new.
abbrev pub counted_tcp : Subscriber → Outcome Bool → Reply
counted_tcp n none = none
counted_tcp n (some (err e, r)) = some (err e, false, record n { repo = r })
counted_tcp n (some (ok true, r)) =
    some (ok true, true, record n { repo = r; num_tcp_orig = (n.num_tcp_orig + 1) % 2 ^ 64 })
counted_tcp n (some (ok false, r)) =
    some (ok false, false, record n { repo = r; num_tcp_dup = (n.num_tcp_dup + 1) % 2 ^ 64 })

-- A chunk that the peer was asked for goes on to the repository.
abbrev pub if_requested : (Subscriber → Reply) → Subscriber → Result (Bool × SubBookkeeper) → Reply
if_requested save n (err e) = some (err e, false, n)
if_requested save n (ok (false, b)) = some (ok false, false, record n { bookkeeper = b })
if_requested save n (ok (true, b)) = save (record n { bookkeeper = b })

unfoldable pub here_is_info : Env → (peer : ℕ) → ProdInfo → Subscriber → Reply
here_is_info env peer info n =
    if_requested (λ m. counted_tcp m (save_prod_info env info m.repo)) n
      (received peer (prod info.prod_index) n.bookkeeper)

unfoldable pub here_is_seg :
    Env → (peer prod_index prod_size offset seg_size : ℕ) → (ℕ → ℕ) → Subscriber → Reply
here_is_seg env peer k prod_size offset size source n =
    if_requested (λ m. counted_tcp m (save_data_seg env k prod_size offset size source m.repo)) n
      (received peer (seg (record { prod_index = k; seg_offset = offset })) n.bookkeeper)
