-- ===== src/Node/Subscriber/Requests.antt =====
-- What a subscriber requests of its peers: `shouldRequest()` of `Subscriber::Impl` in main/node/Node.cpp
-- and of `SubP2pMgr::Impl` in main/p2p/P2pMgr.cpp.
use hycast.Prelude.{
  ℕ, ◌<◌, ◌≡◌, ◌≢◌, refl, ap, ◌∙◌, Bool, true, false, Option, none, some, List, arith, ℕ_discrete,
  Result, ok, err, sym, if_pos,
}
use hycast.Protocol.ChunkId.{prod, seg}
use hycast.P2p.SubBookkeeper.{SubBookkeeper, should_request}
use hycast.Repository.RcvProdFile.{
  ProdInfo, RcvProdFile, save_seg, claim, finish, is_complete, get_prod_info,
}
use hycast.Repository.RcvProdFile
use hycast.Repository.SubRepo.{Env, Outcome, save_data_seg, new_file}
use hycast.Repository.SubRepo.Questions.{exists_prod, exists_seg, is_info}
use hycast.Repository.SubRepo.Stores.{Store, store_put, spec_save, spec_acted, Holds}
use hycast.Repository.SubRepo.Saves.{save_with-Implements}
use hycast.Repository.SubRepo.Runs.{spec_ask, ask-Implements}
use hycast.Node.Subscriber.{Subscriber, counted_udp, here_is_mcast_seg}

-- Whether an offered chunk is requested; `none` if the fuel ran out.
abbrev pub Decision : Type 0
Decision = Option (Result Bool × Subscriber)

-- The bookkeeper is asked about what the repository does not have.
abbrev pub unless_stored :
    (SubBookkeeper → Result (Bool × SubBookkeeper)) → Subscriber → Outcome Bool → Decision
unless_stored asks n none = none
unless_stored asks n (some (err e, r)) = some (err e, record n { repo = r })
unless_stored asks n (some (ok true, r)) = some (ok false, record n { repo = r })
unless_stored asks n (some (ok false, r)) = elim (asks n.bookkeeper) [
  | err e ↦ some (err e, record n { repo = r })
  | ok (should, b) ↦ some (ok should, record n { repo = r; bookkeeper = b })
]

unfoldable pub should_request_info : Env → (peer prod_index : ℕ) → Subscriber → Decision
should_request_info env peer k n =
    unless_stored (should_request peer (prod k)) n (exists_prod env k n.repo)

unfoldable pub should_request_seg : Env → (peer prod_index offset : ℕ) → Subscriber → Decision
should_request_seg env peer k offset n =
    unless_stored (should_request peer (seg (record { prod_index = k; seg_offset = offset }))) n
      (exists_seg env k offset n.repo)

is_info-true : (i : ProdInfo) → is_info i ≡ true
unfolding is_info
is_info-true i = refl

-- Of a product with a file, the information is not requested.
should_request_info-stored :
    (env : Env) (peer k limit seg_size : ℕ) (n : Subscriber) (store : Store) (queue : List ProdInfo)
    (file : RcvProdFile)
    → Holds limit seg_size store queue n.repo
    → 0 < limit
    → env.opens ≡ true
    → store k ≡ some file
    → (m : Subscriber) × (should_request_info env peer k n ≡ some (ok false, m))
      × (m.bookkeeper ≡ n.bookkeeper)
unfolding should_request_info exists_prod
should_request_info-stored env peer k limit seg_size n store queue file holds pos opens known =
    let (r, done, after) =
      ask-Implements false _ (λ f. ok (is_info (get_prod_info f))) env k n.repo limit seg_size store
        queue holds pos opens (λ o is_open. refl) in
    let answer : (spec_ask false (λ f. ok (is_info (get_prod_info f))) k store ≡ ok true) =
      rw (known, spec_ask, is_info-true) refl in
    (
      record n { repo = r },
      ap (unless_stored (should_request peer (prod k)) n)
          (done ∙ ap (λ (a : Result Bool). some (a, r)) answer),
      refl,
    )

-- A new file has no name, and a segment gives it none.
new_file-unnamed :
    (env : Env) (seg_size k prod_size offset size : ℕ) (source : ℕ → ℕ) (made saved : RcvProdFile)
    → new_file env seg_size k prod_size ≡ ok made
    → save_seg offset size source made ≡ ok (true, saved)
    → is_complete saved ≡ false
unfolding new_file RcvProdFile.new save_seg claim finish is_complete
new_file-unnamed env seg_size k prod_size offset size source made saved makes e = ground arith

-- What the multicast brings of a new product is saved.
first_seg-saved :
    (env : Env) (k prod_size offset size limit seg_size : ℕ) (source : ℕ → ℕ) (n : Subscriber)
    (store : Store) (queue : List ProdInfo) (made saved : RcvProdFile)
    → Holds limit seg_size store queue n.repo
    → 0 < limit
    → env.opens ≡ true
    → k ≢ 0
    → store k ≡ none
    → new_file env seg_size k prod_size ≡ ok made
    → save_seg offset size source made ≡ ok (true, saved)
    → (m : Subscriber) × (here_is_mcast_seg env k prod_size offset size source n
        ≡ some (ok true, true, m))
      × (m.bookkeeper ≡ n.bookkeeper)
      × ((later : List ProdInfo) × Holds limit seg_size (store_put k saved store) later m.repo)
unfolding here_is_mcast_seg save_data_seg
first_seg-saved env k prod_size offset size limit seg_size source n store queue made saved holds pos
      opens valid unknown makes e =
    let act = save_seg offset size source in
    let (r, done, after) =
      save_with-Implements env act k prod_size n.repo limit seg_size store queue holds pos opens
        valid in
    let spec = spec_save (new_file env seg_size k prod_size) act k store queue in
    let result : (spec ≡ (ok true, store_put k saved store, spec.2)) =
      rw (unknown, spec_save, makes, spec_acted, e) refl in
    let answer : (spec.0 ≡ ok true) =
      ap (λ (x : Result Bool × Store × List ProdInfo). x.0) result in
    let stored : (spec.1 ≡ store_put k saved store) =
      ap (λ (x : Result Bool × Store × List ProdInfo). x.1) result in
    (
      record n { repo = r; num_udp_orig = _ },
      ap (counted_udp n) (done ∙ ap (λ (a : Result Bool). some (a, r)) answer),
      refl,
      (spec.2, rw (sym stored) after),
    )

-- Suppose that the repository has nothing of a product, and that the multicast brings one of its
-- segments, which is saved. Then the node does not request the information on the product when a
-- peer offers it, whichever peer that is, and does not ask its bookkeeper, although the product is not
-- complete.
pub first_seg_hides_info :
    (env : Env) (k prod_size offset size limit seg_size : ℕ) (source : ℕ → ℕ) (n : Subscriber)
    (store : Store) (queue : List ProdInfo) (made saved : RcvProdFile)
    → Holds limit seg_size store queue n.repo
    → 0 < limit
    → env.opens ≡ true
    → k ≢ 0
    → store k ≡ none
    → new_file env seg_size k prod_size ≡ ok made
    → save_seg offset size source made ≡ ok (true, saved)
    → (m : Subscriber) × (here_is_mcast_seg env k prod_size offset size source n
        ≡ some (ok true, true, m))
      × (is_complete saved ≡ false)
      × ((peer : ℕ)
          → (l : Subscriber) × (should_request_info env peer k m ≡ some (ok false, l))
            × (l.bookkeeper ≡ n.bookkeeper))
first_seg_hides_info env k prod_size offset size limit seg_size source n store queue made saved
      holds pos opens valid unknown makes e =
    let (m, done, books, (later, after)) =
      first_seg-saved env k prod_size offset size limit seg_size source n store queue made saved
        holds pos opens valid unknown makes e in
    (
      m,
      done,
      new_file-unnamed env seg_size k prod_size offset size source made saved makes e,
      λ peer.
          let (l, decided, same) =
            should_request_info-stored env peer k limit seg_size m (store_put k saved store) later
              saved after pos opens (if_pos (ℕ_discrete k k) refl (some saved) (store k)) in
          (l, decided, same ∙ books),
    )
