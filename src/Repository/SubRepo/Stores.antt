-- ===== src/Repository/SubRepo/Stores.antt =====
-- What a subscriber's repository (main/repository/Repository.cpp) promises: a store of files without
-- a limit on how many are open, and a queue of the complete ones. Its saves implement those of such a
-- store.
use hycast.Prelude.{
  ℕ, ◌≡◌, refl, sym, ap, ◌∙◌, ◌⊎◌, inl, inr, ite, Bool, true, ◌&&◌, Option, none, some, List, [],
  ◌∷◌, ◌++◌, arith, ℕ_discrete, Result, ok, err, Bool-cases, if◌then◌else◌,
}
use hycast.Prelude.Dict
use hycast.Repository.RcvProdFile.{ProdInfo, RcvProdFile, is_complete, get_prod_info}
use hycast.Repository.SubRepo.{
  Object, SubRepo, Outcome, then_in, new_file, save_in, finish_if_complete,
}
use hycast.Repository.Own.{contains}
use hycast.Repository.SubRepo.Files.{file_at, Wf}
use hycast.Repository.Shelf.{file_of}

abbrev pub Store : Type 0
Store = ℕ → Option RcvProdFile

abbrev pub store_put : ℕ → RcvProdFile → Store → Store
store_put k file store j = ite (ℕ_discrete k j) (some file) (store j)

-- A save in a file, which is complete if the save makes it so.
abbrev pub spec_acted :
    (RcvProdFile → Result (Bool × RcvProdFile))
    → ℕ
    → RcvProdFile
    → Store
    → List ProdInfo
    → Result Bool × Store × List ProdInfo
spec_acted act k file store queue = elim (act file) [
  | err e ↦ (err e, store_put k file store, queue)
  | ok (was_saved, new_file) ↦ (
    ok was_saved,
    store_put k new_file store,
    if was_saved && is_complete new_file then queue ++ get_prod_info new_file ∷ [] else queue,
  )
]

-- The file is made if there is none.
abbrev pub spec_save :
    Result RcvProdFile
    → (RcvProdFile → Result (Bool × RcvProdFile))
    → ℕ
    → Store
    → List ProdInfo
    → Result Bool × Store × List ProdInfo
spec_save make act k store queue = elim (store k) [
  | some file ↦ spec_acted act k file store queue
  | none ↦ elim make [ err e ↦ (err e, store, queue) | ok file ↦ spec_acted act k file store queue ]
]

-- The repository has this store and this queue, and fits together.
pub record Holds (limit seg_size : ℕ) (store : Store) (queue : List ProdInfo) (r : SubRepo)
    : Type 0 where
  pub known : List ℕ
  pub recent : List ℕ
  pub wf : Wf known recent r
  pub files : (j : ℕ) → file_at j r ≡ store j
  pub same_queue : r.complete_prods ≡ queue
  pub same_limit : r.max_open_files ≡ limit
  pub same_size : r.seg_size ≡ seg_size

-- The call ends with the answer of the specification, and its store and queue.
abbrev pub Implements :
    (limit seg_size : ℕ) → Result Bool × Store × List ProdInfo → Outcome Bool → Type 0
Implements limit seg_size (answer, store, queue) outcome =
    (s : SubRepo) × (outcome ≡ some (answer, s)) × Holds limit seg_size store queue s

-- The file is replaced in its object.
saved-Wf :
    (k : ℕ) (known recent : List ℕ) (r : SubRepo) (o : Object) (file : RcvProdFile)
    → Wf known recent r
    → contains k known ≡ true
    → Dict.find ℕ_discrete k r.objects ≡ some o
    → Wf known recent
        (record r { objects = Dict.put ℕ_discrete k (record o { file = file }) r.objects })
saved-Wf k known recent r o file w h at =
    let put = λ (j : ℕ). Dict.find-put ℕ_discrete k j (record o { file = file }) r.objects in
    record {
      prods = w.prods;
      opens = w.opens;
      sub = w.sub;
      missing = λ j e. ground (arith, put j, w.missing j e, h, e);
      stored = λ j e.
          let (p, found, opened) = w.stored j e in
          elim (ℕ_discrete k j) [
            | yes same ↦ (
              record o { file = file },
              put j ∙ ground (arith, same),
              (let alike : (some p ≡ some o) = cc in let here : (p ≡ o) = cc in cc),
            )
            | no other ↦ (p, put j ∙ ground (arith, other, found), opened)
          ];
    }

-- The end of a save only changes the queue.
pub finished :
    (was_saved : Bool) (k : ℕ) (r : SubRepo) (o : Object)
    → Dict.find ℕ_discrete k r.objects ≡ some o
    → finish_if_complete was_saved k r ≡ record r {
      complete_prods =
          if was_saved && is_complete o.file
          then r.complete_prods ++ get_prod_info o.file ∷ []
          else r.complete_prods;
    }
unfolding finish_if_complete
finished was_saved k r o at = elim (Bool-cases (was_saved && is_complete o.file)) [
  | inl e ↦ rw (at, finish_if_complete, e) refl
  | inr e ↦ rw (at, finish_if_complete, e) refl
]

queued-Wf :
    (known recent : List ℕ) (r : SubRepo) (queue : List ProdInfo)
    → Wf known recent r
    → Wf known recent (record r { complete_prods = queue })
queued-Wf known recent r queue w = record {
  prods = w.prods;
  opens = w.opens;
  sub = w.sub;
  missing = w.missing;
  stored = w.stored;
}

-- The part of a save that follows `getProdFile()`.
abbrev pub act_on : (RcvProdFile → Result (Bool × RcvProdFile)) → ℕ → SubRepo → Outcome Bool
act_on act h s =
    then_in (λ was_saved t. some (ok was_saved, finish_if_complete was_saved h t)) (save_in act h s)

pub Result-cases : {A : Type 0} (r : Result A) → ((e : _) × (r ≡ err e)) ⊎ ((a : A) × (r ≡ ok a))
Result-cases (err e) = inl (e, refl)
Result-cases (ok a) = inr (a, refl)

pub act_on-Implements :
    (act : RcvProdFile → Result (Bool × RcvProdFile)) (k : ℕ) (known recent : List ℕ) (r : SubRepo)
    (file : RcvProdFile) (limit seg_size : ℕ) (store : Store) (queue : List ProdInfo)
    → Wf known recent r
    → contains k known ≡ true
    → contains k recent ≡ true
    → ((j : ℕ) → file_at j r ≡ store_put k file store j)
    → r.complete_prods ≡ queue
    → r.max_open_files ≡ limit
    → r.seg_size ≡ seg_size
    → Implements limit seg_size (spec_acted act k file store queue) (act_on act k r)
unfolding save_in
act_on-Implements act k known recent r file limit seg_size store queue w h opened files q l z =
    let (p, there, open_p) = w.stored k h in
    let mine : (some p.file ≡ some file) = ap file_of (sym there) ∙ files k ∙ ground arith in
    let same : (p.file ≡ file) = cc in
    let o : Object = record { file = file; is_open = true } in
    let at : (Dict.find ℕ_discrete k r.objects ≡ some o) =
      there
      ∙ ap (λ (b : Bool). some (record { file = p.file; is_open = b })) (open_p ∙ opened)
      ∙ ap (λ (f : RcvProdFile). some (record { file = f; is_open = true })) same in
    elim (Result-cases (act file)) [
      | inl (e, thrown) ↦
          rw (thrown, spec_acted)
            (
              r,
              rw (at, save_in, thrown) refl,
              record {
                known = known;
                recent = recent;
                wf = w;
                files = files;
                same_queue = q;
                same_limit = l;
                same_size = z;
              },
            )
      | inr ((was_saved, g), saved) ↦
          let new_o : Object = record o { file = g } in
          let t : SubRepo = record r { objects = Dict.put ℕ_discrete k new_o r.objects } in
          let put = λ (j : ℕ). Dict.find-put ℕ_discrete k j new_o r.objects in
          let infos : List ProdInfo =
            if was_saved && is_complete g
            then r.complete_prods ++ get_prod_info g ∷ []
            else r.complete_prods in
          let done = finished was_saved k t new_o (put k ∙ ground arith) in
          rw (saved, spec_acted)
            (
              record t { complete_prods = infos },
              rw (at, save_in, saved, done) refl,
              record {
                known = known;
                recent = recent;
                wf = queued-Wf known recent t infos (saved-Wf k known recent r o g w h at);
                files = λ j. elim (ℕ_discrete k j) [
                  | yes same ↦ ap file_of (put j) ∙ ground (arith, same)
                  | no other ↦ ap file_of (put j) ∙ ground (arith, other, files j)
                ];
                same_queue =
                    ap
                      (λ (infos : List ProdInfo).
                        if was_saved && is_complete g then infos ++ get_prod_info g ∷ [] else infos)
                      q;
                same_limit = l;
                same_size = z;
              },
            )
    ]
