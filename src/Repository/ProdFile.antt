-- ===== src/Repository/ProdFile.antt =====
-- `ProdFile::Impl` of main/repository/ProdFile.cpp: how a product of `prod_size` bytes is cut into
-- segments of `seg_size` bytes. `ProdSize` has 32 bits and `SegSize` 16.
pub mod Geometry
use hycast.Prelude.{
  ℕ, zero, suc, ◌+◌, ◌-◌, ◌*◌, ◌/◌, ◌%◌, ◌^◌, Bool, true, false, not, ◌&&◌, ◌||◌, ◌==◌, ltb, leb,
  if◌then◌else◌, Result, ok, err, invalid_argument, ◌>>=◌,
}

pub record ProdFile : Type 0 where
  pub prod_size : ℕ
  pub num_segs : ℕ
  pub seg_size : ℕ
  pub last_seg_size : ℕ

-- the initialisers of the constructor; the sum is one of 32-bit numbers
unfoldable pub geometry : ℕ → ℕ → ProdFile
geometry prod_size seg_size = record {
  prod_size = prod_size;
  num_segs = if seg_size == 0 then 0 else (prod_size + seg_size + 2 ^ 32 - 1) % 2 ^ 32 / seg_size;
  seg_size = seg_size;
  last_seg_size =
      if seg_size == 0
      then 0
      else if prod_size % seg_size == 0
      then seg_size
      else prod_size % seg_size;
}

unfoldable pub new : ℕ → ℕ → Result ProdFile
unfolding geometry
new prod_size seg_size =
    if not (prod_size == 0) && seg_size == 0
    then err invalid_argument
    else ok (geometry prod_size seg_size)

unfoldable pub seg_index : ℕ → ProdFile → ℕ
seg_index offset f = offset / f.seg_size

unfoldable pub seg_len : ℕ → ProdFile → ℕ
seg_len offset f =
    if ltb ((seg_index offset f + 1) % 2 ^ 32) f.num_segs then f.seg_size else f.last_seg_size

-- `vet()`, as the test that its exception depends on
unfoldable pub is_offset : ℕ → ProdFile → Bool
is_offset offset f = not (leb f.prod_size offset || not (offset % f.seg_size == 0))

-- `getSegSize()`; the sum is one of 32-bit numbers
unfoldable pub get_seg_size : ℕ → ProdFile → Result ℕ
get_seg_size offset f =
    if is_offset offset f
    then ok (
        if ltb f.prod_size ((offset + f.seg_size) % 2 ^ 32)
        then f.prod_size - offset
        else f.seg_size)
    else err invalid_argument
