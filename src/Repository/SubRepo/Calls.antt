-- ===== src/Repository/SubRepo/Calls.antt =====
-- Sequences of calls of a subscriber's repository (main/repository/Repository.cpp), with their answers.
use hycast.Prelude.{ℕ, Bool, Option, none, some, List, [], ◌∷◌, Result}
use hycast.Repository.RcvProdFile.{ProdInfo}
use hycast.Repository.SubRepo.{SubRepo, Env, Outcome, save_prod_info, save_data_seg, get_next_prod}
use hycast.Repository.SubRepo.Questions.{MemSeg, info_of, exists_seg, exists_prod, get_mem_seg}

-- The calls of a user of the repository, and what they answer.
pub data Call : Type 0 where
  saves_info : ProdInfo → Call
  saves_seg : (prod_index prod_size offset seg_size : ℕ) → (ℕ → ℕ) → Call
  asks_info : (prod_index : ℕ) → Call
  asks_seg : (prod_index offset : ℕ) → Call
  asks_prod : (prod_index : ℕ) → Call
  reads_seg : (prod_index offset : ℕ) → Call
  takes_next : Call

pub data Answer : Type 0 where
  saved : Result Bool → Answer
  info : Result (Option ProdInfo) → Answer
  is_there : Result Bool → Answer
  segment : Result (Option MemSeg) → Answer
  next : Option ProdInfo → Answer

abbrev pub answered : {A : Type 0} → (Result A → Answer) → Outcome A → Option (Answer × SubRepo)
answered kind none = none
answered kind (some (answer, r)) = some (kind answer, r)

unfoldable pub step : Env → Call → SubRepo → Option (Answer × SubRepo)
step env (saves_info i) r = answered saved (save_prod_info env i r)
step env (saves_seg k prod_size offset size source) r =
    answered saved (save_data_seg env k prod_size offset size source r)
step env (asks_info k) r = answered info (info_of env k r)
step env (asks_seg k offset) r = answered is_there (exists_seg env k offset r)
step env (asks_prod k) r = answered is_there (exists_prod env k r)
step env (reads_seg k offset) r = answered segment (get_mem_seg env k offset r)
step env takes_next r = elim (get_next_prod r) [
  | none ↦ some (next none, r)
  | some (i, s) ↦ some (next (some i), s)
]

-- One call after the other, as the mutex has it.
unfoldable pub run : Env → List Call → SubRepo → Option (List Answer × SubRepo)
run env [] r = some ([], r)
run env (c ∷ cs) r = elim (step env c r) [
  | none ↦ none
  | some (answer, s) ↦ elim (run env cs s) [
    | none ↦ none
    | some (answers, t) ↦ some (answer ∷ answers, t)
  ]
]
