-- ===== src/Repository/RcvProdFile.antt =====
-- `RcvProdFile::Impl` of main/repository/ProdFile.cpp: a product-file that receives its segments and
-- its product-information in any order. The memory map of the file is a function from positions to
-- bytes. A segment is saved in two sections under the mutex, with the copy of the data between them.
pub mod Flags
pub mod Threads
pub mod Complete
pub mod Reads
use Prim.Native.String.{String}
use text.Mathlib.Text.{◌==◌ as str_eq}
use hycast.Prelude.{
  ℕ, ◌+◌, ◌-◌, ◌%◌, ◌^◌, Bool, true, false, not, ◌&&◌, List, ◌==◌, ltb, leb, if◌then◌else◌, Result,
  ok, err, invalid_argument, system_error, ◌>>=◌, get_or, set, replicate,
}
use hycast.Repository.ProdFile.{ProdFile, seg_index, seg_len, is_offset}
use hycast.Repository.ProdFile

pub record ProdInfo : Type 0 where
  pub prod_index : ℕ
  pub prod_size : ℕ
  pub prod_name : String

-- `ProdInfo::operator ==()`
unfoldable pub same_info : ProdInfo → ProdInfo → Bool
same_info a b =
    a.prod_index == b.prod_index && a.prod_size == b.prod_size && str_eq a.prod_name b.prod_name

pub record RcvProdFile : Type 0 where
  pub file : ProdFile
  pub prod_index : ℕ
  pub pathname : String
  pub path_is_name : Bool
  pub have_segs : List Bool
  pub seg_count : ℕ
  pub bytes : ℕ → ℕ

-- The constructor, of a new file that is filled with zeros. The pathname is the text of the index.
unfoldable pub new : (ℕ → String) → ℕ → ℕ → ℕ → Result RcvProdFile
new to_string prod_index prod_size seg_size = do
  file ← ProdFile.new prod_size seg_size
  ok (record {
    file = file;
    prod_index = prod_index;
    pathname = to_string prod_index;
    path_is_name = false;
    have_segs = replicate file.num_segs false;
    seg_count = 0;
    bytes = λ _. 0;
  })

unfoldable pub exists : ℕ → RcvProdFile → Result Bool
exists offset s =
    if is_offset offset s.file
    then ok (get_or s.have_segs (seg_index offset s.file) false)
    else err invalid_argument

-- `getData()`: the bytes from the offset on
unfoldable pub get_data : ℕ → RcvProdFile → Result (ℕ → ℕ)
get_data offset s = do
  is_there ← exists offset s
  if is_there then ok (λ j. s.bytes (offset + j)) else err invalid_argument

unfoldable pub is_complete : RcvProdFile → Bool
is_complete s = s.path_is_name && s.seg_count == s.file.num_segs

-- `save(ProdInfo)`. Whether the directory is made and the file renamed is the file system's answer.
unfoldable pub save_info : (renames : Bool) → ProdInfo → RcvProdFile → Result (Bool × RcvProdFile)
unfolding same_info
save_info renames info s =
    let expected : ProdInfo = record {
      prod_index = s.prod_index;
      prod_size = s.file.prod_size;
      prod_name = info.prod_name;
    } in
    if not (same_info info expected)
    then err invalid_argument
    else if s.path_is_name
    then ok (false, s)
    else if renames
    then ok (true, record s { pathname = info.prod_name; path_is_name = true })
    else err system_error

-- `save(DataSeg)` up to the end of its first section: the segment is vetted, and marked if it is new.
unfoldable pub claim : (offset seg_size : ℕ) → RcvProdFile → Result (Bool × RcvProdFile)
claim offset seg_size s =
    if not (is_offset offset s.file)
    then err invalid_argument
    else if not (seg_size == seg_len offset s.file)
    then err invalid_argument
    else if get_or s.have_segs (seg_index offset s.file) false
    then ok (false, s)
    else ok (true, record s { have_segs = set s.have_segs (seg_index offset s.file) true })

-- The rest of `save(DataSeg)` for a segment that was new: the copy of its data, and the second
-- section.
unfoldable pub finish : (offset seg_size : ℕ) → (ℕ → ℕ) → RcvProdFile → RcvProdFile
finish offset seg_size source s = record s {
  bytes = λ j. if leb offset j && ltb j (offset + seg_size) then source (j - offset) else s.bytes j;
  seg_count = (s.seg_count + 1) % 2 ^ 32;
}

-- `save(DataSeg)` with no other thread between its sections
unfoldable pub save_seg :
    (offset seg_size : ℕ) → (ℕ → ℕ) → RcvProdFile → Result (Bool × RcvProdFile)
save_seg offset seg_size source s = do
  (was_saved, claimed) ← claim offset seg_size s
  ok (was_saved, if was_saved then finish offset seg_size source claimed else claimed)

unfoldable pub get_prod_info : RcvProdFile → ProdInfo
get_prod_info s = record {
  prod_index = s.prod_index;
  prod_size = s.file.prod_size;
  prod_name = s.pathname;
}
