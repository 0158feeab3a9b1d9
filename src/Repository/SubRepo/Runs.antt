-- ===== src/Repository/SubRepo/Runs.antt =====
-- Any sequence of calls of a subscriber's repository (main/repository/Repository.cpp), against the
-- store that it promises.
use hycast.Prelude.{
  ℕ, ◌<◌, ◌≡◌, ◌≢◌, refl, sym, ap, ◌∙◌, inl, inr, Bool, true, false, Option, none, some, List, [],
  ◌∷◌, arith, Result, ok, err, Bool-cases, All,
}
use hycast.Prelude.Dict
use hycast.Repository.LinkedProdMap.Models.{new-Models}
use hycast.Repository.RcvProdFile.{
  ProdInfo, RcvProdFile, save_info, save_seg, get_prod_info, exists,
}
use hycast.Repository.SubRepo.{
  Object, SubRepo, Env, new, then_in, new_file, save_prod_info, save_data_seg, get_next_prod,
}
use hycast.Repository.SubRepo.Calls.{
  Call, saves_info, saves_seg, asks_info, asks_seg, asks_prod, reads_seg, takes_next, Answer, saved,
  info, is_there, segment, next, answered, step, run,
}
use hycast.Repository.Own.{contains}
use hycast.Repository.SubRepo.Questions.{
  MemSeg, ask, info_of, exists_seg, exists_prod, is_info, mem_seg, get_mem_seg,
}
use hycast.Repository.SubRepo.Files.{Wf, Same}
use hycast.Repository.Shelf.{file_of}
use hycast.Repository.SubRepo.Get.{get_prod_file-known, get_prod_file-unknown}
use hycast.Repository.SubRepo.Stores.{Store, spec_save, Holds}
use hycast.Repository.SubRepo.Saves.{save_with-Implements}

-- What is asked is asked of the file in the store.
abbrev pub spec_ask : {A : Type 0} → A → (RcvProdFile → Result A) → ℕ → Store → Result A
spec_ask if_absent question k store = elim (store k) [
  | none ↦ ok if_absent
  | some file ↦ question file
]

abbrev pub read_seg : (prod_index offset : ℕ) → RcvProdFile → Result (Option MemSeg)
read_seg k offset file = elim (mem_seg k offset file) [ err e ↦ err e | ok s ↦ ok (some s) ]

abbrev pub spec_saved : Result Bool × Store × List ProdInfo → Answer × Store × List ProdInfo
spec_saved (answer, store, queue) = (saved answer, store, queue)

abbrev pub spec_step :
    Env → (seg_size : ℕ) → Call → Store → List ProdInfo → Answer × Store × List ProdInfo
spec_step env seg_size (saves_info i) store queue = spec_saved (
    spec_save (new_file env seg_size i.prod_index i.prod_size) (save_info env.renames i)
      i.prod_index store queue)
spec_step env seg_size (saves_seg k prod_size offset size source) store queue =
    spec_saved
      (spec_save (new_file env seg_size k prod_size) (save_seg offset size source) k store queue)
spec_step env seg_size (asks_info k) store queue =
    (info (spec_ask none (λ file. ok (some (get_prod_info file))) k store), store, queue)
spec_step env seg_size (asks_seg k offset) store queue =
    (is_there (spec_ask false (exists offset) k store), store, queue)
spec_step env seg_size (asks_prod k) store queue =
    (is_there (spec_ask false (λ file. ok (is_info (get_prod_info file))) k store), store, queue)
spec_step env seg_size (reads_seg k offset) store queue =
    (segment (spec_ask none (read_seg k offset) k store), store, queue)
spec_step env seg_size takes_next store [] = (next none, store, [])
spec_step env seg_size takes_next store (i ∷ queue) = (next (some i), store, queue)

abbrev pub spec_run :
    Env → (seg_size : ℕ) → List Call → Store → List ProdInfo → List Answer × Store × List ProdInfo
spec_run env seg_size [] store queue = ([], store, queue)
spec_run env seg_size (c ∷ cs) store queue =
    let (answer, store', queue') = spec_step env seg_size c store queue in
    let (answers, last_store, last_queue) = spec_run env seg_size cs store' queue' in
    (answer ∷ answers, last_store, last_queue)

-- The constructor of a product-index refuses 0.
abbrev pub IsCall : Call → Type 0
IsCall (saves_info i) = i.prod_index ≢ 0
IsCall (saves_seg k prod_size offset size source) = k ≢ 0
IsCall _ = Unit

pub new-Wf : (limit seg_size : ℕ) → Wf [] [] (new seg_size limit)
unfolding new Dict.find
new-Wf limit seg_size = record {
  prods = new-Models;
  opens = new-Models;
  sub = λ j h. absurd (cc);
  missing = λ j h. refl;
  stored = λ j h. absurd (cc);
}

new-Holds : (limit seg_size : ℕ) → Holds limit seg_size (λ k. none) [] (new seg_size limit)
unfolding new Dict.find
new-Holds limit seg_size = record {
  known = [];
  recent = [];
  wf = new-Wf limit seg_size;
  files = λ j. refl;
  same_queue = refl;
  same_limit = refl;
  same_size = refl;
}

pub ask-Implements :
    {A : Type 0} (if_absent : A) (asks : Object → Result A) (question : RcvProdFile → Result A)
    (env : Env) (k : ℕ) (r : SubRepo) (limit seg_size : ℕ) (store : Store) (queue : List ProdInfo)
    → Holds limit seg_size store queue r
    → 0 < limit
    → env.opens ≡ true
    → ((o : Object) → o.is_open ≡ true → asks o ≡ question o.file)
    → (s : SubRepo) × (ask if_absent asks env k r ≡ some (spec_ask if_absent question k store, s))
      × Holds limit seg_size store queue s
unfolding ask
ask-Implements if_absent asks question env k r limit seg_size store queue v pos opens same_answer =
    elim (Bool-cases (contains k v.known)) [
      | inl there ↦
          let pos' : (0 < r.max_open_files) = omega (arith, v.same_limit) in
          let (known, recent, s, got, wf, same, there', opened, sizes) =
            get_prod_file-known env k v.known v.recent r v.wf pos' opens there in
          let (o, found, open_o) = wf.stored k there' in
          let mine : (store k ≡ some o.file) = sym (same.files k ∙ v.files k) ∙ ap file_of found in
          let answer : (asks o ≡ question o.file) = same_answer o (open_o ∙ opened) in
          rw (mine, spec_ask, got, ask, then_in, found, answer)
            (s, refl, kept known recent s wf same)
      | inr unknown ↦
          let (s, got, wf, same) = get_prod_file-unknown env k v.known v.recent r v.wf unknown in
          let nothing : (store k ≡ none) = sym (v.files k) ∙ ap file_of (v.wf.missing k unknown) in
          rw (nothing, spec_ask, got, ask, then_in) (s, refl, kept v.known v.recent s wf same)
    ]
  where
    kept :
        (known recent : List ℕ) (s : SubRepo)
        → Wf known recent s
        → Same r s
        → Holds limit seg_size store queue s
    kept known recent s wf same = record {
      known = known;
      recent = recent;
      wf = wf;
      files = λ j. same.files j ∙ v.files j;
      same_queue = same.queue ∙ v.same_queue;
      same_limit = same.limit ∙ v.same_limit;
      same_size = same.seg_size ∙ v.same_size;
    }

-- One call.
abbrev StepImplements :
    (limit seg_size : ℕ) → Answer × Store × List ProdInfo → Option (Answer × SubRepo) → Type 0
StepImplements limit seg_size (answer, store, queue) outcome =
    (s : SubRepo) × (outcome ≡ some (answer, s)) × Holds limit seg_size store queue s

nothing_next : (r : SubRepo) → r.complete_prods ≡ [] → get_next_prod r ≡ none
unfolding get_next_prod
nothing_next r e = rw (e, get_next_prod) refl

step-Implements :
    (env : Env) (c : Call) (r : SubRepo) (limit seg_size : ℕ) (store : Store)
    (queue : List ProdInfo)
    → Holds limit seg_size store queue r
    → 0 < limit
    → env.opens ≡ true
    → IsCall c
    → StepImplements limit seg_size (spec_step env seg_size c store queue) (step env c r)
unfolding step save_prod_info save_data_seg info_of exists_seg exists_prod get_mem_seg get_next_prod
step-Implements env (saves_info i) r limit seg_size store queue v pos opens valid =
    let (s, done, holds) =
      save_with-Implements env (save_info env.renames i) i.prod_index i.prod_size r limit seg_size
        store queue v pos opens valid in
    (s, ap (answered saved) done, holds)
step-Implements env (saves_seg k prod_size offset size source) r limit seg_size store queue v pos
      opens valid =
    let (s, done, holds) =
      save_with-Implements env (save_seg offset size source) k prod_size r limit seg_size store
        queue v pos opens valid in
    (s, ap (answered saved) done, holds)
step-Implements env (asks_info k) r limit seg_size store queue v pos opens valid =
    let (s, done, holds) =
      ask-Implements _ _ _ env k r limit seg_size store queue v pos opens (λ o is_open. refl) in
    (s, ap (answered info) done, holds)
step-Implements env (asks_seg k offset) r limit seg_size store queue v pos opens valid =
    let (s, done, holds) =
      ask-Implements _ _ _ env k r limit seg_size store queue v pos opens (λ o is_open. refl) in
    (s, ap (answered is_there) done, holds)
step-Implements env (asks_prod k) r limit seg_size store queue v pos opens valid =
    let (s, done, holds) =
      ask-Implements _ _ _ env k r limit seg_size store queue v pos opens (λ o is_open. refl) in
    (s, ap (answered is_there) done, holds)
step-Implements env (reads_seg k offset) r limit seg_size store queue v pos opens valid =
    let (s, done, holds) =
      ask-Implements _ _ (read_seg k offset) env k r limit seg_size store queue v pos opens
        (λ o is_open. rw (is_open) refl) in
    (s, ap (answered segment) done, holds)
step-Implements env takes_next r limit seg_size store [] v pos opens valid =
    let waits : (get_next_prod r ≡ none) = nothing_next r v.same_queue in
    (r, rw (waits, step) refl, v)
step-Implements env takes_next r limit seg_size store (i ∷ queue) v pos opens valid =
    let full : (r.complete_prods ≡ i ∷ queue) = v.same_queue in
    (
      record r { complete_prods = queue },
      rw (full, step, get_next_prod) refl,
      record {
        known = v.known;
        recent = v.recent;
        wf = record {
          prods = v.wf.prods;
          opens = v.wf.opens;
          sub = v.wf.sub;
          missing = v.wf.missing;
          stored = v.wf.stored;
        };
        files = v.files;
        same_queue = refl;
        same_limit = v.same_limit;
        same_size = v.same_size;
      },
    )

run-from :
    (env : Env) (cs : List Call) (r : SubRepo) (limit seg_size : ℕ) (store : Store)
    (queue : List ProdInfo)
    → Holds limit seg_size store queue r
    → 0 < limit
    → env.opens ≡ true
    → All IsCall cs
    → (s : SubRepo) × (run env cs r ≡ some ((spec_run env seg_size cs store queue).0, s))
unfolding run
run-from env [] r limit seg_size store queue v pos opens valid = (r, refl)
run-from env (c ∷ cs) r limit seg_size store queue v pos opens (valid, rest) =
    let (s, done, holds) = step-Implements env c r limit seg_size store queue v pos opens valid in
    let (t, all) = run-from env cs s limit seg_size _ _ holds pos opens rest in
    (t, rw (done, run, all) refl)

-- From a new repository with a positive limit on open files, whose files can be opened: any sequence
-- of calls in which no save is of the product-index 0 ends, and each call is answered, exceptions
-- included, as by a store without a limit, in which a save makes the file if there is none, and puts
-- the product into the queue if it has saved something and the file is complete then.
pub run-Implements :
    (env : Env) (cs : List Call) (limit seg_size : ℕ)
    → 0 < limit
    → env.opens ≡ true
    → All IsCall cs
    → (s : SubRepo) × (run env cs (new seg_size limit)
        ≡ some ((spec_run env seg_size cs (λ k. none) []).0, s))
run-Implements env cs limit seg_size pos opens valid =
    run-from env cs (new seg_size limit) limit seg_size (λ k. none) [] (new-Holds limit seg_size)
      pos opens valid
