-- ===== src/Repository/RcvProdFile/Reads.antt =====
-- What is read of a file of main/repository/ProdFile.cpp after a segment was saved.
use hycast.Prelude.{
  ℕ, ◌+◌, ◌*◌, ◌^◌, ◌<◌, ◌≤◌, ◌≡◌, refl, sym, ap, ◌∙◌, true, false, arith, ok, length,
  get_or-set_self,
}
use hycast.Repository.ProdFile.{geometry, seg_index, seg_len, get_seg_size}
use hycast.Repository.ProdFile.Geometry.{lengths_agree}
use hycast.Repository.RcvProdFile.{RcvProdFile, save_seg, claim, finish, exists, get_data}
use hycast.Repository.SubRepo.Questions.{MemSeg, mem_seg}

-- A segment that was new has the size that it should have, exists, and its bytes are in the file.
save_seg-stored :
    (offset size : ℕ) (source : ℕ → ℕ) (s t : RcvProdFile)
    → seg_index offset s.file < length s.have_segs
    → save_seg offset size source s ≡ ok (true, t)
    → (exists offset t ≡ ok true)
      × (t.file ≡ s.file)
      × (seg_len offset s.file ≡ size)
      × ((j : ℕ) → j < size → t.bytes (offset + j) ≡ source j)
unfolding save_seg claim finish exists
save_seg-stored offset size source s t lt e =
    ground (arith, get_or-set_self s.have_segs (seg_index offset s.file) true false lt)

-- Take a positive segment-size and sizes whose sum is at most 2 ^ 32, and a file of that product with
-- a mark for each segment. After a `save()` of a segment that was new, the segment can be read: it has
-- the size that was sent, and its bytes are those that were sent.
pub save_seg-mem_seg :
    (prod_size seg_size : ℕ)
    → 0 < seg_size
    → prod_size + seg_size ≤ 2 ^ 32
    → (i k size : ℕ) (source : ℕ → ℕ) (s t : RcvProdFile) → i * seg_size < prod_size
    → s.file ≡ geometry prod_size seg_size
    → length s.have_segs ≡ s.file.num_segs
    → save_seg (i * seg_size) size source s ≡ ok (true, t)
    → (m : MemSeg) × (mem_seg k (i * seg_size) t ≡ ok m)
      × (m.prod_size ≡ t.file.prod_size)
      × (m.seg_size ≡ size)
      × ((j : ℕ) → j < size → m.bytes j ≡ source j)
unfolding mem_seg get_data
save_seg-mem_seg prod_size seg_size pos fits i k size source s t inside made marks e =
    let (valid, index, below, long, read) = lengths_agree prod_size seg_size pos fits i inside in
    let lt : (seg_index (i * seg_size) s.file < length s.have_segs) =
      rw (marks, made, index) below in
    let (there, same, has_size, bytes) = save_seg-stored (i * seg_size) size source s t lt e in
    let sized : (get_seg_size (i * seg_size) t.file ≡ ok size) =
      ap (get_seg_size (i * seg_size)) (same ∙ made)
      ∙ read
      ∙ ap ok (sym long ∙ ap (seg_len (i * seg_size)) (sym made) ∙ has_size) in
    (
      record {
        prod_index = k;
        seg_offset = i * seg_size;
        prod_size = t.file.prod_size;
        seg_size = size;
        bytes = λ j. t.bytes (i * seg_size + j);
      },
      rw (mem_seg, sized, get_data, there) refl,
      refl,
      refl,
      bytes,
    )
