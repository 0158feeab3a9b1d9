-- ===== src/Tests/Publishers.antt =====
-- The repository of a publisher of main/repository/Repository.cpp.
use hycast.Prelude.{
  ℕ, ◌≡◌, ◌<◌, ◌≤◌, refl, none, some, List, [], ◌∷◌, ◌++◌, arith, ok, err, length, runtime_error,
  ◌==◌, if◌then◌else◌,
}
use hycast.Repository.LinkedProdMap.{size}
use hycast.Repository.PubRepo.{Tree, PubRepo, slash, new, get_next_prod}
use hycast.Repository.PubRepo.Serves.{
  Call, publishes, asks_info, reads_seg, spec_run, initial, run, run-Serves,
}
use hycast.Repository.PubRepo.Roots.{relative_root_misses}

-- Two files with names of one byte.
abbrev tree : Tree
tree [] = none
tree (c ∷ []) =
    if c == 97 then some (1 ∷ 2 ∷ 3 ∷ []) else if c == 98 then some (4 ∷ 5 ∷ []) else none
tree (c ∷ d ∷ cs) = none

-- With room for one open file, the first is closed when the second comes, and opened again.
abbrev calls : List Call
calls =
    publishes (97 ∷ [])
    ∷ publishes (98 ∷ [])
    ∷ reads_seg 1 2
    ∷ publishes (99 ∷ [])
    ∷ asks_info 2
    ∷ asks_info 3
    ∷ reads_seg 2 4
    ∷ []

run-Serves_example :
    (r s : PubRepo) × (new (47 ∷ []) (47 ∷ 114 ∷ []) 2 1 ≡ ok r)
    × (run tree calls r ≡ some (spec_run tree calls (initial (47 ∷ 114 ∷ []) 2 1) (λ k. none), s))
    × (size s.open_files ≤ 1)
run-Serves_example = run-Serves tree calls (47 ∷ []) (114 ∷ []) 2 1 (omega arith) (omega arith)

longest : (p : List ℕ) → 1 < length p → tree p ≡ none
longest [] h = refl
longest (c ∷ []) h = absurd (omega arith)
longest (c ∷ d ∷ cs) h = refl

relative_root_misses_example :
    (r : PubRepo) × (new (47 ∷ 104 ∷ []) (114 ∷ []) 2 1 ≡ ok r)
    × (r.root_pathname ≡ 47 ∷ 104 ∷ 47 ∷ 114 ∷ [])
    × (get_next_prod tree (r.root_pathname ++ slash ∷ 97 ∷ []) r
        ≡ some (err runtime_error, record r { prod_index = 1 }))
relative_root_misses_example =
    relative_root_misses tree (47 ∷ 104 ∷ []) (97 ∷ []) [] 114 2 1 (λ e. omega arith) longest
