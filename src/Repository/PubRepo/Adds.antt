-- ===== src/Repository/PubRepo/Adds.antt =====
-- A new file in a publisher's repository (main/repository/Repository.cpp).
use hycast.Prelude.{
  ℕ, ◌+◌, ◌≤◌, ◌<◌, ◌≡◌, ◌≢◌, ◌%◌, ◌^◌, refl, sym, ap, ◌∙◌, inl, inr, ite, true, false, none, some,
  List, [], ◌∷◌, ◌++◌, arith, ℕ_discrete, length, take, drop, Result, ok, err, Bool-cases,
  Option-cases, ◌>>=◌, runtime_error, system_error,
}
use hycast.Prelude.Dict
use hycast.Protocol.PeerProto.{ProdInfo}
use hycast.Repository.Objects.{Held, close_all}
use hycast.Repository.Own.{contains, contains-append}
use hycast.Repository.Shelf.{add-own}
use hycast.Repository.ProdFile
use hycast.Repository.PubRepo.{
  Tree, SndProdFile, PubRepo, open_at, new_file, add_prod_file, info_of,
}
use hycast.Repository.PubRepo.Holds.{Store, Setting, Holds, enter-Fits, files-opened}

-- A product is put into the store.
abbrev pub put_store : ℕ → SndProdFile → Store → Store
put_store k file store j = ite (ℕ_discrete k j) (some file) (store j)

-- What is made of a file on disk.
abbrev pub spec_file : Tree → (seg_size : ℕ) → (name : List ℕ) → Result SndProdFile
spec_file tree seg_size name = elim (tree name) [
  | none ↦ err system_error
  | some bytes ↦ do
    geometry ← ProdFile.new (length bytes % 2 ^ 32) seg_size
    ok (record { pathname = name; geometry = geometry; bytes = bytes })
]

-- A file that can be made is published under the next index; the index is used up in any case.
abbrev pub published : Setting → Store → Result SndProdFile → Result ProdInfo × Setting × Store
published g store (err e) = (err runtime_error, record g { last = g.last + 1 }, store)
published g store (ok file) = (
  ok (info_of (g.last + 1) file),
  record g { last = g.last + 1; queue = g.queue ++ (g.last + 1) ∷ [] },
  put_store (g.last + 1) file store,
)

pub new_file-made :
    (tree : Tree) (name : List ℕ) (r : PubRepo)
    → r.root_is_open ≡ true
    → new_file tree name r ≡ spec_file tree r.seg_size name
unfolding new_file open_at
new_file-made tree name r root = elim (Option-cases (tree name)) [
  | inl absent ↦ rw (root, new_file, open_at, absent, spec_file) refl
  | inr (bytes, there) ↦ rw (root, new_file, open_at, there, spec_file) refl
]

made_of :
    (name bytes : List ℕ) (geometry : Result ProdFile.ProdFile) (file : SndProdFile)
    → (geometry >>= λ p. ok (record { pathname = name; geometry = p; bytes = bytes })) ≡ ok file
    → (file.pathname ≡ name) × (file.bytes ≡ bytes)
made_of name bytes (err e) file h = absurd (cc)
made_of name bytes (ok p) file h =
    let made : SndProdFile = record { pathname = name; geometry = p; bytes = bytes } in
    let same : (made ≡ file) = ground (arith, h) in
    (sym (ap (λ (f : SndProdFile). f.pathname) same), sym (ap (λ (f : SndProdFile). f.bytes) same))

pub spec_file-on_disk :
    (tree : Tree) (seg_size : ℕ) (name : List ℕ) (file : SndProdFile)
    → spec_file tree seg_size name ≡ ok file
    → (file.pathname ≡ name) × (tree file.pathname ≡ some file.bytes)
spec_file-on_disk tree seg_size name file h = elim (Option-cases (tree name)) [
  | inl absent ↦ absurd (cc (rw (absent, spec_file) at h))
  | inr (bytes, there) ↦
      let (named, same) = made_of name bytes _ file (rw (there, spec_file) at h) in
      (named, ap tree named ∙ there ∙ ap some (sym same))
]

-- A new file is put into the repository.
pub add_prod_file-Holds :
    (tree : Tree) (g : Setting) (store : Store) (k : ℕ) (file : SndProdFile) (r : PubRepo)
    (h : Holds tree g store r)
    → contains k h.known ≡ false
    → 0 < k
    → k ≤ g.last
    → 0 < g.limit
    → tree file.pathname ≡ some file.bytes
    → (s : PubRepo) × (add_prod_file k file r ≡ some (ok tt, s))
      × Holds tree (record g { queue = g.queue ++ k ∷ [] }) (put_store k file store) s
unfolding add_prod_file
add_prod_file-Holds tree g store k file r h new valid last pos on_disk =
    let o : Held SndProdFile = record { file = file; is_open = true } in
    let nonzero : (k ≢ 0) = λ e. omega arith in
    let limit : (r.max_open_files ≡ g.limit) = ap (λ (x : Setting). x.limit) h.same in
    let (m, added, models) = add-own k h.known r.prod_files nonzero h.wf.prods new in
    let free : (contains k h.recent ≡ false) = elim (Bool-cases (contains k h.recent)) [
      | inl opened ↦ let there = h.wf.sub k opened in absurd (cc)
      | inr free ↦ free
    ] in
    let (i, m', entered, fits, few) =
      enter-Fits k o h.known (h.known ++ k ∷ []) h.recent m r h.wf
        (λ j. contains-append j k h.known) refl free nonzero models (omega (arith, pos, limit)) in
    let objects' = close_all (take i h.recent) (Dict.put ℕ_discrete k o r.objects) in
    let s : PubRepo = record r {
      prod_files = m;
      open_files = m';
      objects = objects';
      prod_queue = r.prod_queue ++ k ∷ [];
    } in
    (
      s,
      rw (added, add_prod_file, entered) refl,
      record {
        known = h.known ++ k ∷ [];
        recent = drop i h.recent ++ k ∷ [];
        wf = fits;
        files = λ j. files-opened j k o (take i h.recent) r ∙ ground (arith, h.files j);
        on_disk = λ j f e. elim (ℕ_discrete k j) [
          | yes same ↦ let mine : (file ≡ f) = ground (arith, e, same) in rw mine at on_disk
          | no other ↦ h.on_disk j f (ground (arith, e, other))
        ];
        fresh = λ j e. ground (arith, contains-append j k h.known, h.fresh j, e);
        same = ap (λ (x : Setting). record x { queue = x.queue ++ k ∷ [] }) h.same;
        root = h.root;
        few = omega (arith, few, limit);
      },
    )
