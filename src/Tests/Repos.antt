-- ===== src/Tests/Repos.antt =====
-- The repository of main/repository/Repository.cpp with room for one open file.
use hycast.Prelude.{ℕ, ◌+◌, ◌≡◌, refl, true, none, some, List, [], ◌∷◌, arith}
use hycast.Repository.RcvProdFile.{ProdInfo}
use hycast.Repository.SubRepo.{SubRepo, Env, new}
use hycast.Repository.SubRepo.Calls.{
  Call, saves_info, saves_seg, asks_info, asks_seg, asks_prod, reads_seg, takes_next, run,
}
use hycast.Repository.SubRepo.Runs.{spec_run, run-Implements}

abbrev env : Env
env = record { opens = true; creates = true; renames = true; to_string = λ k. "index" }

abbrev info_1 : ProdInfo
info_1 = record { prod_index = 1; prod_size = 2; prod_name = "one" }

abbrev info_2 : ProdInfo
info_2 = record { prod_index = 2; prod_size = 2; prod_name = "two" }

abbrev source : ℕ → ℕ
source j = j + 7

-- Two products in turn, the first one completed and taken.
abbrev calls : List Call
calls =
    saves_info info_1
    ∷ saves_info info_2
    ∷ saves_seg 1 2 0 2 source
    ∷ asks_seg 1 0
    ∷ asks_info 2
    ∷ asks_prod 3
    ∷ reads_seg 1 0
    ∷ takes_next
    ∷ takes_next
    ∷ []

run-Implements_example :
    (s : SubRepo) × (run env calls (new 2 1) ≡ some ((spec_run env 2 calls (λ k. none) []).0, s))
run-Implements_example = run-Implements env calls 1 2 (omega arith) refl (
  (λ e. omega arith),
  ((λ e. omega arith), ((λ e. omega arith), (tt, (tt, (tt, (tt, (tt, (tt, tt)))))))),
)
