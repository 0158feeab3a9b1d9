-- ===== src/Repository/SubRepo/Questions.antt =====
-- The questions to `SubRepo::Impl` of main/repository/Repository.cpp: what it has, and the reading of
-- a segment.
use hycast.Prelude.{
  ℕ, Bool, true, false, Option, none, some, if◌then◌else◌, ℕ_discrete, Result, ok, err,
  null_dereference, ◌>>=◌,
}
use hycast.Prelude.Dict
use hycast.Repository.ProdFile.{get_seg_size}
use hycast.Repository.RcvProdFile.{ProdInfo, RcvProdFile, get_prod_info, exists, get_data}
use hycast.Repository.SubRepo.{Object, SubRepo, Env, Outcome, then_in, get_prod_file}

-- What the questions have in common: something is asked of the file of an index.
unfoldable pub ask :
    {A : Type 0} → A → (Object → Result A) → Env → (prod_index : ℕ) → SubRepo → Outcome A
unfolding get_prod_file
ask if_absent question env k r =
    then_in
      (λ found s. elim found [
        | none ↦ some (ok if_absent, s)
        | some h ↦ elim (Dict.find ℕ_discrete h s.objects) [
          | none ↦ some (err null_dereference, s)
          | some o ↦ some (question o, s)
        ]
      ])
      (get_prod_file env k r)

-- `getProdInfo()`, with `none` for one that tests false
unfoldable pub info_of : Env → (prod_index : ℕ) → SubRepo → Outcome (Option ProdInfo)
info_of env k r = ask none (λ o. ok (some (get_prod_info o.file))) env k r

-- `exists(SegId)`
unfoldable pub exists_seg : Env → (prod_index offset : ℕ) → SubRepo → Outcome Bool
exists_seg env k offset r = ask false (λ o. exists offset o.file) env k r

-- Whether product-information tests true: what is made by a constructor with arguments does.
unfoldable pub is_info : ProdInfo → Bool
is_info info = true

-- `exists(ProdIndex)`
unfoldable pub exists_prod : Env → (prod_index : ℕ) → SubRepo → Outcome Bool
exists_prod env k r = ask false (λ o. ok (is_info (get_prod_info o.file))) env k r

-- A segment in memory, with a function from positions to its bytes.
pub record MemSeg : Type 0 where
  pub prod_index : ℕ
  pub seg_offset : ℕ
  pub prod_size : ℕ
  pub seg_size : ℕ
  pub bytes : ℕ → ℕ

unfoldable pub mem_seg : (prod_index offset : ℕ) → RcvProdFile → Result MemSeg
mem_seg k offset s = do
  size ← get_seg_size offset s.file
  bytes ← get_data offset s
  ok (record {
    prod_index = k;
    seg_offset = offset;
    prod_size = s.file.prod_size;
    seg_size = size;
    bytes = bytes;
  })

-- `getMemSeg()`, with `none` for one that tests false; a file that is not open has no data
unfoldable pub get_mem_seg : Env → (prod_index offset : ℕ) → SubRepo → Outcome (Option MemSeg)
get_mem_seg env k offset r =
    ask none
      (λ o.
        if o.is_open
        then elim (mem_seg k offset o.file) [ err e ↦ err e | ok s ↦ ok (some s) ]
        else err null_dereference)
      env k r
