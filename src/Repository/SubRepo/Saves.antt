-- ===== src/Repository/SubRepo/Saves.antt =====
-- The functions `save()` of a subscriber's repository (main/repository/Repository.cpp), against the
-- store that it promises.
use hycast.Prelude.{
  ℕ, ◌<◌, ◌≡◌, ◌≢◌, refl, sym, ap, ◌∙◌, inl, inr, ite, Bool, true, false, Option, none, some, List,
  [], ◌∷◌, ◌++◌, arith, ℕ_discrete, Result, ok, Bool-cases,
}
use hycast.Prelude.Dict
use hycast.Repository.LinkedProdMap.{LinkedProdMap}
use hycast.Repository.LinkedProdMap.Models.{Models}
use hycast.Repository.RcvProdFile.{ProdInfo, RcvProdFile}
use hycast.Repository.SubRepo.{
  Object, SubRepo, Env, then_in, add_open, add_prod_file, new_file, get_or_create, save_with,
}
use hycast.Repository.Own.{contains, sequence, contains-append}
use hycast.Repository.SubRepo.Files.{file_at, Wf}
use hycast.Repository.Shelf.{file_of, add-own}
use hycast.Repository.SubRepo.Get.{get_prod_file-known, get_prod_file-unknown}
use hycast.Repository.SubRepo.Stores.{
  Store, store_put, spec_save, Holds, Implements, act_on-Implements, Result-cases,
}

-- A file is added to the maps.
created-Wf :
    (k : ℕ) (known recent : List ℕ) (r : SubRepo) (file : RcvProdFile) (m n : LinkedProdMap ℕ)
    → Wf known recent r
    → contains k known ≡ false
    → Models (sequence (known ++ k ∷ [])) m
    → Models (sequence (recent ++ k ∷ [])) n
    → Wf (known ++ k ∷ []) (recent ++ k ∷ []) (record r {
      prod_files = m;
      open_files = n;
      objects = Dict.put ℕ_discrete k (record { file = file; is_open = true }) r.objects;
    })
created-Wf k known recent r file m n w new all opened =
    let o : Object = record { file = file; is_open = true } in
    let put = λ (j : ℕ). Dict.find-put ℕ_discrete k j o r.objects in
    let known' = λ (j : ℕ). contains-append j k known in
    let recent' = λ (j : ℕ). contains-append j k recent in
    record {
      prods = all;
      opens = opened;
      sub = λ j e. ground (arith, known' j, recent' j, w.sub j, e);
      missing = λ j e. ground (arith, known' j, put j, w.missing j, e);
      stored = λ j e. elim (ℕ_discrete k j) [
        | yes same ↦ (o, put j ∙ ground (arith, same), sym (recent' j ∙ ground (arith, same)))
        | no other ↦
            let old : (contains j known ≡ true) = ground (arith, known' j, other, e) in
            let (p, found, open_p) = w.stored j old in
            (
              p,
              put j ∙ ground (arith, other, found),
              open_p ∙ sym (recent' j ∙ ground (arith, other)),
            )
      ];
    }

pub add_prod_file-Wf :
    (k : ℕ) (known recent : List ℕ) (r : SubRepo) (file : RcvProdFile)
    → Wf known recent r
    → k ≢ 0
    → contains k known ≡ false
    → (s : SubRepo) × (add_prod_file k file r ≡ some (ok k, s))
      × Wf (known ++ k ∷ []) (recent ++ k ∷ []) s
      × ((j : ℕ) → file_at j s ≡ store_put k file (λ i. file_at i r) j)
      × (s.complete_prods ≡ r.complete_prods)
      × (s.max_open_files ≡ r.max_open_files)
      × (s.seg_size ≡ r.seg_size)
unfolding add_prod_file add_open
add_prod_file-Wf k known recent r file w valid new =
    let closed : (contains k recent ≡ false) = elim (Bool-cases (contains k recent)) [
      | inl opened ↦ let there = w.sub k opened in absurd (cc)
      | inr free ↦ free
    ] in
    let o : Object = record { file = file; is_open = true } in
    let (m, added, all) = add-own k known r.prod_files valid w.prods new in
    let (n, opened, recents) = add-own k recent r.open_files valid w.opens closed in
    let put = λ (j : ℕ). Dict.find-put ℕ_discrete k j o r.objects in
    (
      record r { prod_files = m; open_files = n; objects = Dict.put ℕ_discrete k o r.objects },
      rw (added, add_prod_file, opened, add_open) refl,
      created-Wf k known recent r file m n w new all recents,
      λ j. elim (ℕ_discrete k j) [
        | yes same ↦ ap file_of (put j) ∙ ground (arith, same)
        | no other ↦ ap file_of (put j) ∙ ground (arith, other)
      ],
      refl,
      refl,
      refl,
    )

module _ (env : Env) (act : RcvProdFile → Result (Bool × RcvProdFile)) (k prod_size : ℕ) where
  save_known :
      (r : SubRepo) (limit seg_size : ℕ) (store : Store) (queue : List ProdInfo)
      → (v : Holds limit seg_size store queue r) → 0 < limit
      → env.opens ≡ true
      → contains k v.known ≡ true
      → Implements limit seg_size
          (spec_save (new_file env seg_size k prod_size) act k store queue)
          (save_with env act k prod_size r)
  unfolding save_with get_or_create
  save_known r limit seg_size store queue v pos opens h =
      let pos' : (0 < r.max_open_files) = omega (arith, v.same_limit) in
      let (known, recent, s, got, wf, same, there, opened, sizes) =
        get_prod_file-known env k v.known v.recent r v.wf pos' opens h in
      let (o, found, open_o) = v.wf.stored k h in
      let mine : (store k ≡ some o.file) = sym (v.files k) ∙ ap file_of found in
      let all : ((j : ℕ) → file_at j s ≡ store_put k o.file store j) = λ j.
        same.files j
        ∙ v.files j
        ∙ elim (ℕ_discrete k j) [ yes e ↦ ground (arith, e, mine) | no e ↦ ground (arith, e) ] in
      rw (mine, spec_save, got, save_with, get_or_create)
        (act_on-Implements act k known recent s o.file limit seg_size store queue wf there opened
          all (same.queue ∙ v.same_queue) (same.limit ∙ v.same_limit) (same.seg_size ∙ v.same_size))

  save_unknown :
      (r : SubRepo) (limit seg_size : ℕ) (store : Store) (queue : List ProdInfo)
      → (v : Holds limit seg_size store queue r) → k ≢ 0
      → contains k v.known ≡ false
      → Implements limit seg_size
          (spec_save (new_file env seg_size k prod_size) act k store queue)
          (save_with env act k prod_size r)
  unfolding save_with get_or_create
  save_unknown r limit seg_size store queue v valid h =
      let (s, got, wf, same) = get_prod_file-unknown env k v.known v.recent r v.wf h in
      let nothing : (store k ≡ none) = sym (v.files k) ∙ ap file_of (v.wf.missing k h) in
      let size : (s.seg_size ≡ seg_size) = same.seg_size ∙ v.same_size in
      let make = ap (λ (n : ℕ). new_file env n k prod_size) size in
      elim (Result-cases (new_file env seg_size k prod_size)) [
        | inl (e, thrown) ↦
            let thrown' = make ∙ thrown in
            rw (nothing, spec_save, thrown, got, save_with, get_or_create, then_in, thrown')
              (
                s,
                refl,
                record {
                  known = v.known;
                  recent = v.recent;
                  wf = wf;
                  files = λ j. same.files j ∙ v.files j;
                  same_queue = same.queue ∙ v.same_queue;
                  same_limit = same.limit ∙ v.same_limit;
                  same_size = size;
                },
              )
        | inr (file, made) ↦
            let made' = make ∙ made in
            let (t, added, wf', files, q, l, z) =
              add_prod_file-Wf k v.known v.recent s file wf valid h in
            let all : ((j : ℕ) → file_at j t ≡ store_put k file store j) = λ j.
              files j
              ∙ ap (λ (x : Option RcvProdFile). ite (ℕ_discrete k j) (some file) x)
                  (same.files j ∙ v.files j) in
            rw (nothing, spec_save, made, got, save_with, get_or_create, then_in, made', added)
              (act_on-Implements act k (v.known ++ k ∷ []) (v.recent ++ k ∷ []) t file limit
                seg_size store queue wf' (contains-append k k v.known ∙ ground arith)
                (contains-append k k v.recent ∙ ground arith) all (q ∙ same.queue ∙ v.same_queue)
                (l ∙ same.limit ∙ v.same_limit) (z ∙ size))
      ]

  pub save_with-Implements :
      (r : SubRepo) (limit seg_size : ℕ) (store : Store) (queue : List ProdInfo)
      → Holds limit seg_size store queue r
      → 0 < limit
      → env.opens ≡ true
      → k ≢ 0
      → Implements limit seg_size
          (spec_save (new_file env seg_size k prod_size) act k store queue)
          (save_with env act k prod_size r)
  save_with-Implements r limit seg_size store queue v pos opens valid =
      elim (Bool-cases (contains k v.known)) [
        | inl there ↦ save_known r limit seg_size store queue v pos opens there
        | inr new ↦ save_unknown r limit seg_size store queue v valid new
      ]
