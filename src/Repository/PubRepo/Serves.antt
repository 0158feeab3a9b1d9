-- ===== src/Repository/PubRepo/Serves.antt =====
-- Any sequence of calls of a publisher's repository (main/repository/Repository.cpp), against the store
-- that it promises.
use hycast.Prelude.{
  ℕ, ◌+◌, ◌≤◌, ◌<◌, ◌≡◌, ◌^◌, refl, ap, ◌∙◌, Option, none, some, List, [], ◌∷◌, ◌++◌, arith, length,
  Result, ok, err,
}
use hycast.Prelude.Dict
use hycast.Protocol.PeerProto.{ProdInfo, SegInfo}
use hycast.Repository.LinkedProdMap.{size}
use hycast.Repository.LinkedProdMap
use hycast.Repository.LinkedProdMap.Models.{new-Models}
use hycast.Repository.PubRepo.{
  Tree, SndProdFile, PubRepo, Outcome, slash, fresh_repo, new, get_next_prod, get_prod_info,
  get_mem_seg, info_of, mem_seg,
}
use hycast.Repository.PubRepo.Holds.{Store, Setting, Holds}
use hycast.Repository.PubRepo.Gets.{spec_ask, ask-Holds}
use hycast.Repository.PubRepo.Adds.{spec_file, published}
use hycast.Repository.PubRepo.Events.{get_next_prod-Holds}

-- The calls of a user of the repository, the first on the event of a file below the root directory, and
-- what they answer.
pub data Call : Type 0 where
  publishes : (name : List ℕ) → Call
  asks_info : (prod_index : ℕ) → Call
  reads_seg : (prod_index offset : ℕ) → Call

pub data Answer : Type 0 where
  next : Result ProdInfo → Answer
  info : Result (Option ProdInfo) → Answer
  segment : Result (Option (SegInfo × List ℕ)) → Answer

abbrev pub answered : {A : Type 0} → (Result A → Answer) → Outcome A → Option (Answer × PubRepo)
answered kind none = none
answered kind (some (answer, r)) = some (kind answer, r)

unfoldable pub step : Tree → Call → PubRepo → Option (Answer × PubRepo)
step tree (publishes name) r =
    answered next (get_next_prod tree (r.root_pathname ++ slash ∷ name) r)
step tree (asks_info k) r = answered info (get_prod_info tree k r)
step tree (reads_seg k offset) r = answered segment (get_mem_seg tree k offset r)

unfoldable pub run : Tree → List Call → PubRepo → Option (List Answer × PubRepo)
unfolding step
run tree [] r = some ([], r)
run tree (c ∷ cs) r = elim (step tree c r) [
  | none ↦ none
  | some (answer, s) ↦ elim (run tree cs s) [
    | none ↦ none
    | some (answers, t) ↦ some (answer ∷ answers, t)
  ]
]

-- The store that the repository promises: nothing is ever closed in it.
abbrev pub spec_step : Tree → Call → Setting → Store → Answer × Setting × Store
spec_step tree (publishes name) g store =
    let (answer, g', store') = published g store (spec_file tree g.seg_size name) in
    (next answer, g', store')
spec_step tree (asks_info k) g store =
    (info (spec_ask tree g store (λ file. ok (info_of k file)) k), g, store)
spec_step tree (reads_seg k offset) g store =
    (segment (spec_ask tree g store (mem_seg k offset) k), g, store)

abbrev pub spec_run : Tree → List Call → Setting → Store → List Answer
spec_run tree [] g store = []
spec_run tree (c ∷ cs) g store =
    let (answer, g', store') = spec_step tree c g store in answer ∷ spec_run tree cs g' store'

-- The number of calls that may publish something.
abbrev pub publishing : List Call → ℕ
publishing [] = 0
publishing (publishes name ∷ cs) = publishing cs + 1
publishing (c ∷ cs) = publishing cs

abbrev pub initial : (root_pathname : List ℕ) → (seg_size limit : ℕ) → Setting
initial root_pathname seg_size limit = record {
  limit = limit;
  seg_size = seg_size;
  root_pathname = root_pathname;
  root_prefix_len = length root_pathname + 1;
  last = 0;
  queue = [];
}

-- What all steps keep.
record Kept (g g' : Setting) (c : Call) : Type 0 where
  limit : g'.limit ≡ g.limit
  prefix :
      g.root_prefix_len ≡ length g.root_pathname + 1
      → g'.root_prefix_len ≡ length g'.root_pathname + 1
  few : (n : ℕ) → g.last + publishing (c ∷ []) + n < 2 ^ 32 → g'.last + n < 2 ^ 32

published-Kept :
    (g : Setting) (store : Store) (name : List ℕ) (file : Result SndProdFile)
    → Kept g (published g store file).1 (publishes name)
published-Kept g store name (err e) = record {
  limit = refl;
  prefix = λ e. e;
  few = λ n h. omega (arith, h);
}
published-Kept g store name (ok file) = record {
  limit = refl;
  prefix = λ e. e;
  few = λ n h. omega (arith, h);
}

same-Kept : (g : Setting) (c : Call) → publishing (c ∷ []) ≡ 0 → Kept g g c
same-Kept g c e = record { limit = refl; prefix = λ e. e; few = λ n h. omega (arith, h, e) }

step-Serves :
    (tree : Tree) (c : Call) (g : Setting) (store : Store) (r : PubRepo)
    → Holds tree g store r
    → g.root_prefix_len ≡ length g.root_pathname + 1
    → 0 < g.limit
    → g.last + publishing (c ∷ []) < 2 ^ 32
    → let (answer, g', store') = spec_step tree c g store in
      (s : PubRepo) × (step tree c r ≡ some (answer, s)) × Holds tree g' store' s × Kept g g' c
unfolding step get_prod_info get_mem_seg
step-Serves tree (publishes name) g store r h prefix pos few =
    let (s, done, holds) =
      get_next_prod-Holds tree g store name r h prefix pos (omega (arith, few)) in
    let path =
      ap (λ (x : Setting). get_next_prod tree (x.root_pathname ++ slash ∷ name) r) h.same in
    (s, ap (answered next) (path ∙ done), holds, published-Kept g store name _)
step-Serves tree (asks_info k) g store r h prefix pos few =
    let (s, done, holds) =
      ask-Holds tree g store _ (λ file. ok (info_of k file)) k r h pos (λ o on. refl) in
    (s, ap (answered info) done, holds, same-Kept g (asks_info k) refl)
step-Serves tree (reads_seg k offset) g store r h prefix pos few =
    let (s, done, holds) =
      ask-Holds tree g store _ (mem_seg k offset) k r h pos (λ o on. rw on refl) in
    (s, ap (answered segment) done, holds, same-Kept g (reads_seg k offset) refl)

publishing-step :
    (c : Call) (cs : List Call) → publishing (c ∷ cs) ≡ publishing (c ∷ []) + publishing cs
publishing-step (publishes name) cs = omega arith
publishing-step (asks_info k) cs = omega arith
publishing-step (reads_seg k offset) cs = omega arith

run-from :
    (tree : Tree) (cs : List Call) (g : Setting) (store : Store) (r : PubRepo)
    → Holds tree g store r
    → g.root_prefix_len ≡ length g.root_pathname + 1
    → 0 < g.limit
    → g.last + publishing cs < 2 ^ 32
    → (s : PubRepo) × (run tree cs r ≡ some (spec_run tree cs g store, s))
      × (size s.open_files ≤ g.limit)
unfolding run
run-from tree [] g store r h prefix pos few = (r, refl, h.few)
run-from tree (c ∷ cs) g store r h prefix pos few =
    let sum = publishing-step c cs in
    let (s, done, holds, kept) =
      step-Serves tree c g store r h prefix pos (omega (arith, few, sum)) in
    let (t, all, bound) =
      run-from tree cs (spec_step tree c g store).1 (spec_step tree c g store).2 s holds
        (kept.prefix prefix) (omega (arith, pos, kept.limit))
        (kept.few (publishing cs) (omega (arith, few, sum))) in
    (t, rw (done, run, all) refl, omega (arith, bound, kept.limit))

fresh_repo-Holds :
    (tree : Tree) (root_pathname : List ℕ) (seg_size limit : ℕ)
    → 0 < limit
    → Holds tree
        (initial root_pathname seg_size limit)
        (λ k. none)
        (fresh_repo root_pathname (length root_pathname + 1) seg_size limit)
unfolding Dict.find size LinkedProdMap.new
fresh_repo-Holds tree root_pathname seg_size limit pos = record {
  known = [];
  recent = [];
  wf = record {
    prods = new-Models;
    opens = new-Models;
    sub = λ j h. absurd (cc);
    missing = λ j h. refl;
    stored = λ j h. absurd (cc);
  };
  files = λ j. refl;
  on_disk = λ j f e. absurd (cc);
  fresh = λ j e. absurd (cc);
  same = refl;
  root = ground arith;
  few = omega arith;
}

-- A new repository has an absolute root pathname and a positive limit on open files; the files below
-- the root directory do not change. Then any sequence of calls, of which fewer than 2 ^ 32 are on
-- events of the watcher, ends, and each call is answered, exceptions included, as by a store without a
-- limit, which keeps every product that it has published, under indexes that count from 1 and of which
-- a failed call uses up one. In the end no more files are open than may be.
pub run-Serves :
    (tree : Tree) (cs : List Call) (cwd rest : List ℕ) (seg_size limit : ℕ)
    → 0 < limit
    → publishing cs < 2 ^ 32
    → (r s : PubRepo) × (new cwd (slash ∷ rest) seg_size limit ≡ ok r)
      × (run tree cs r
          ≡ some (spec_run tree cs (initial (slash ∷ rest) seg_size limit) (λ k. none), s))
      × (size s.open_files ≤ limit)
unfolding new
run-Serves tree cs cwd rest seg_size limit pos few =
    let root = slash ∷ rest in
    let r = fresh_repo root (length root + 1) seg_size limit in
    let (s, done, bound) =
      run-from tree cs (initial root seg_size limit) (λ k. none) r
        (fresh_repo-Holds tree root seg_size limit pos) refl pos (omega (arith, few)) in
    (r, s, refl, done, bound)
