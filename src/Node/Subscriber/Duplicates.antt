-- ===== src/Node/Subscriber/Duplicates.antt =====
-- What becomes of the connection to a peer when a segment that the peer was asked for is in the
-- repository of main/node/Node.cpp by the time it comes.
use hycast.Prelude.{
  ℕ, ◌+◌, ◌*◌, ◌^◌, ◌<◌, ◌≡◌, ◌≢◌, refl, ap, ◌∙◌, Bool, true, false, some, List, [], ◌∷◌, ◌++◌,
  arith, length, Result, ok, runtime_error,
}
use hycast.Protocol.ChunkId.{seg}
use hycast.P2p.SubBookkeeper.{SubBookkeeper, received}
use hycast.Repository.ProdFile.{seg_len}
use hycast.Repository.RcvProdFile.{ProdInfo, RcvProdFile, exists, save_seg, claim}
use hycast.Repository.SubRepo.{Env, save_data_seg, new_file}
use hycast.Repository.SubRepo.Stores.{Store, spec_save, spec_acted, Holds}
use hycast.Repository.SubRepo.Saves.{save_with-Implements}
use hycast.Protocol.PeerProto.{
  SegInfo, declined, recv_chunk, receive, failed, send_data, prod_info_id, data_seg_id,
}
use hycast.Protocol.PeerProto.Messages.{IsSegInfo}
use hycast.Protocol.PeerProto.Segments.{declined_fails}
use hycast.Inet.TcpSock.Decodes.{stream}
use hycast.Inet.TcpSock.{Out}
use hycast.Node.Subscriber.{Subscriber, Reply, if_requested, here_is_seg}

-- Whether the node takes the data of a segment from a peer.
abbrev pub accepted : Reply → Bool
accepted (some (ok answer, notified, n)) = answer
accepted _ = false

abbrev pub takes_of : Env → (peer : ℕ) → Subscriber → SegInfo → Bool
takes_of env peer n info = accepted (
    here_is_seg env peer info.id.prod_index info.prod_size info.id.seg_offset info.seg_size (λ j. 0)
      n)

-- A segment that the file has is not saved again.
save_seg-again :
    (offset size : ℕ) (source : ℕ → ℕ) (file : RcvProdFile)
    → exists offset file ≡ ok true
    → seg_len offset file.file ≡ size
    → save_seg offset size source file ≡ ok (false, file)
unfolding save_seg claim exists
save_seg-again offset size source file there e = ground arith

here_is_seg-old :
    (env : Env) (peer limit seg_size : ℕ) (info : SegInfo) (n : Subscriber) (b : SubBookkeeper)
    (store : Store) (queue : List ProdInfo) (file : RcvProdFile)
    → received peer (seg info.id) n.bookkeeper ≡ ok (true, b)
    → Holds limit seg_size store queue n.repo
    → 0 < limit
    → env.opens ≡ true
    → info.id.prod_index ≢ 0
    → store info.id.prod_index ≡ some file
    → exists info.id.seg_offset file ≡ ok true
    → seg_len info.id.seg_offset file.file ≡ info.seg_size
    → takes_of env peer n info ≡ false
unfolding here_is_seg save_data_seg
here_is_seg-old env peer limit seg_size info n b store queue file asked holds pos opens valid known
      there e =
    let k = info.id.prod_index in
    let act = save_seg info.id.seg_offset info.seg_size (λ j. 0) in
    let again = save_seg-again info.id.seg_offset info.seg_size (λ j. 0) file there e in
    let (s, done, after) =
      save_with-Implements env act k info.prod_size n.repo limit seg_size store queue holds pos
        opens valid in
    let answer : ((spec_save (new_file env seg_size k info.prod_size) act k store queue).0
        ≡ ok false) =
      rw (known, spec_save, spec_acted, again) refl in
    let old = done ∙ ap (λ (a : Result Bool). some (a, s)) answer in
    rw (asked, here_is_seg, if_requested, save_data_seg, old) refl

-- Suppose that a peer was asked for a segment, and that the file of the product has the segment when
-- it comes from that peer, for example since the multicast has brought it. Then the node does not take
-- it, and the data stays in the connection: unless the first two bytes of the data are by chance the
-- identifier of a chunk, the receiving loop ends with an exception, whatever the peer sends after it.
pub duplicate_fails :
    (env : Env) (peer limit seg_size : ℕ) (info : SegInfo) (n : Subscriber) (b : SubBookkeeper)
    (store : Store) (queue : List ProdInfo) (file : RcvProdFile) (x y : ℕ) (bytes rest : List ℕ)
    (fuel count : ℕ)
    → received peer (seg info.id) n.bookkeeper ≡ ok (true, b)
    → Holds limit seg_size store queue n.repo
    → 0 < limit
    → env.opens ≡ true
    → store info.id.prod_index ≡ some file
    → exists info.id.seg_offset file ≡ ok true
    → seg_len info.id.seg_offset file.file ≡ info.seg_size
    → IsSegInfo info
    → length bytes + 2 ≡ info.seg_size
    → x * 2 ^ 8 + y ≢ prod_info_id
    → x * 2 ^ 8 + y ≢ data_seg_id
    → 1 < fuel
    → let start : Out = record { sent = []; bytes_written = count } in
      let sent = (send_data info (x ∷ y ∷ bytes) start).sent in
      receive (recv_chunk (takes_of env peer n)) fuel (stream (sent ++ rest) count)
      ≡ (declined info ∷ [], failed runtime_error)
duplicate_fails env peer limit seg_size info n b store queue file x y bytes rest fuel count asked
      holds pos opens known there e valid size not_info not_seg enough =
    let nonzero : (info.id.prod_index ≢ 0) = λ z. omega (arith, z, valid.0.0.0) in
    declined_fails (takes_of env peer n) info x y bytes rest fuel count valid
      (here_is_seg-old env peer limit seg_size info n b store queue file asked holds pos opens
        nonzero known there e)
      size not_info not_seg enough
