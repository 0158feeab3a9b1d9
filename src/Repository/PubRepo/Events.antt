-- ===== src/Repository/PubRepo/Events.antt =====
-- `getNextProd()` of a publisher's repository (main/repository/Repository.cpp), on the file of an event.
use hycast.Prelude.{
  ℕ, suc, ◌+◌, ◌<◌, ◌≡◌, ◌^◌, refl, sym, ap, ◌∙◌, inl, inr, true, false, some, List, [], ◌∷◌, ◌++◌,
  arith, length, drop, Result, Error, ok, err, ◌⊎◌, Bool-cases, length-append, leb,
}
use hycast.Protocol.ProdIndex.{increment}
use hycast.Repository.Own.{contains}
use hycast.Repository.PubRepo.{
  Tree, SndProdFile, PubRepo, then_in, slash, new_file, add_prod_file, nested, publish_file,
  publish, get_next_prod, info_of,
}
use hycast.Repository.PubRepo.Holds.{Store, Setting, Holds}
use hycast.Repository.PubRepo.Adds.{
  spec_file, published, new_file-made, spec_file-on_disk, add_prod_file-Holds,
}

drop_root : (root name : List ℕ) → drop (suc (length root)) (root ++ slash ∷ name) ≡ name
drop_root [] name = refl
drop_root (c ∷ root) name = drop_root root name

pub drop_prefix :
    (n : ℕ) (root name : List ℕ)
    → n ≡ length root + 1
    → (drop n (root ++ slash ∷ name) ≡ name) × (leb n (length (root ++ slash ∷ name)) ≡ true)
drop_prefix n root name e =
    let one : (n ≡ suc (length root)) = omega (arith, e) in
    (
      ap (λ (m : ℕ). drop m (root ++ slash ∷ name)) one ∙ drop_root root name,
      ground (arith, length-append root (slash ∷ name), e),
    )

increment_small : (n : ℕ) → n + 1 < 2 ^ 32 → increment n ≡ n + 1
unfolding increment
increment_small n h = ground arith

module _ (tree : Tree) (k : ℕ) (root name : List ℕ) (r : PubRepo)
    (prefix : r.root_prefix_len ≡ length root + 1) (opened : r.root_is_open ≡ true) where
  publish-fails :
      (e : Error)
      → spec_file tree r.seg_size name ≡ err e
      → publish tree k (root ++ slash ∷ name) r ≡ some (err e, r)
  unfolding publish
  publish-fails e h =
      let (named, long) = drop_prefix r.root_prefix_len root name prefix in
      rw (long, publish)
        (ap (λ (x : List ℕ). publish_file k x r (new_file tree x r)) named
          ∙ ap (publish_file k name r) (new_file-made tree name r opened ∙ h))

  publish-adds :
      (file : SndProdFile) (s : PubRepo)
      → spec_file tree r.seg_size name ≡ ok file
      → file.pathname ≡ name
      → add_prod_file k file r ≡ some (ok tt, s)
      → publish tree k (root ++ slash ∷ name) r ≡ some (ok (info_of k file), s)
  unfolding publish info_of
  publish-adds file s h same added =
      let (named, long) = drop_prefix r.root_prefix_len root name prefix in
      rw (long, publish)
        (ap (λ (x : List ℕ). publish_file k x r (new_file tree x r)) named
          ∙ ap (publish_file k name r) (new_file-made tree name r opened ∙ h)
          ∙ ap
              (then_in (λ done t. some (
                ok (record { prod_index = k; prod_size = file.geometry.prod_size; name = name }),
                t,
              )))
              added
          ∙ ap
              (λ (x : List ℕ).
                some (
                  ok (record { prod_index = k; prod_size = file.geometry.prod_size; name = x }),
                  s,
                ))
              (sym same))

Result-cases : {A : Type 0} (a : Result A) → ((e : Error) × (a ≡ err e)) ⊎ ((x : A) × (a ≡ ok x))
Result-cases (err e) = inl (e, refl)
Result-cases (ok x) = inr (x, refl)

-- The index is used up.
numbered :
    (tree : Tree) (g : Setting) (store : Store) (r : PubRepo) (h : Holds tree g store r)
    → (h' : Holds tree
        (record g { last = g.last + 1 })
        store
        (record r { prod_index = g.last + 1 }))
      × (h'.known ≡ h.known)
numbered tree g store r h = (
  record {
    known = h.known;
    recent = h.recent;
    wf = h.wf;
    files = h.files;
    on_disk = h.on_disk;
    fresh = λ j e. omega (arith, h.fresh j e);
    same = ap (λ (x : Setting). record x { last = g.last + 1 }) h.same;
    root = h.root;
    few = h.few;
  },
  refl,
)

-- A repository that holds the store publishes the file of an event, or throws.
pub get_next_prod-Holds :
    (tree : Tree) (g : Setting) (store : Store) (name : List ℕ) (r : PubRepo)
    → Holds tree g store r
    → g.root_prefix_len ≡ length g.root_pathname + 1
    → 0 < g.limit
    → g.last + 1 < 2 ^ 32
    → let (answer, g', store') = published g store (spec_file tree g.seg_size name) in
      (s : PubRepo) × (get_next_prod tree (g.root_pathname ++ slash ∷ name) r ≡ some (answer, s))
      × Holds tree g' store' s
unfolding get_next_prod
get_next_prod-Holds tree g store name r h prefix pos few =
    let k = g.last + 1 in
    let path = g.root_pathname ++ slash ∷ name in
    let r1 : PubRepo = record r { prod_index = k } in
    let (h1, as_before) = numbered tree g store r h in
    let next : (increment r.prod_index ≡ k) =
      ap (λ (x : Setting). increment x.last) h.same ∙ increment_small g.last few in
    let start : (get_next_prod tree path r ≡ nested (publish tree k path r1)) =
      ap (λ (n : ℕ). nested (publish tree n path (record r { prod_index = n }))) next in
    let prefix1 : (r.root_prefix_len ≡ length g.root_pathname + 1) =
      ap (λ (x : Setting). x.root_prefix_len) h.same ∙ prefix in
    let size_same : (spec_file tree r.seg_size name ≡ spec_file tree g.seg_size name) =
      ap (λ (x : Setting). spec_file tree x.seg_size name) h.same in
    elim (Result-cases (spec_file tree g.seg_size name)) [
      | inl (e, bad) ↦
          rw (bad, published)
            (
              r1,
              start
                  ∙ ap nested (
                      publish-fails tree k g.root_pathname name r1 prefix1 h.root e
                        (size_same ∙ bad)),
              h1,
            )
      | inr (file, good) ↦
          let (same, on_disk) = spec_file-on_disk tree g.seg_size name file good in
          let (s, added, holds) =
            add_prod_file-Holds tree (record g { last = k }) store k file r1 h1
              (ap (contains k) as_before ∙ new h) (omega arith) (omega arith) pos on_disk in
          rw (good, published)
            (
              s,
              start
                  ∙ ap nested (
                      publish-adds tree k g.root_pathname name r1 prefix1 h.root file s
                        (size_same ∙ good) same added),
              holds,
            )
    ]
  where
    new : (h : Holds tree g store r) → contains (g.last + 1) h.known ≡ false
    new h = elim (Bool-cases (contains (g.last + 1) h.known)) [
      | inl there ↦ absurd (omega (arith, h.fresh (g.last + 1) there))
      | inr free ↦ free
    ]
