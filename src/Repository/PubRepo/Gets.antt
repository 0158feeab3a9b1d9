-- ===== src/Repository/PubRepo/Gets.antt =====
-- `getProdFile()` of a publisher's repository (main/repository/Repository.cpp), and what is asked of the
-- file that it finds.
use hycast.Prelude.{
  ℕ, ◌<◌, ◌≡◌, refl, sym, ap, ◌∙◌, inl, inr, true, false, Option, none, some, List, [], ◌∷◌, ◌++◌,
  arith, ℕ_discrete, take, drop, Result, ok, err, Bool-cases, ◌>>=◌,
}
use hycast.Prelude.Dict
use hycast.Repository.Objects.{Held, close_all}
use hycast.Repository.Own.{contains, touch, contains-touch, length-touch}
use hycast.Repository.Shelf.{file_of, find-own, find-own_absent}
use hycast.Repository.Shelf.Uses.{size-own, nonzero, used-Fits, moved-Fits, find-opened, not_taken}
use hycast.Repository.PubRepo.{
  Tree, SndProdFile, PubRepo, Outcome, then_in, open_at, open_file, get_prod_file, ask,
}
use hycast.Repository.PubRepo.Holds.{Store, Setting, Holds, enter-Fits, files-opened}

pub opens_at :
    (tree : Tree) (pathname bytes : List ℕ) (r : PubRepo)
    → r.root_is_open ≡ true
    → tree pathname ≡ some bytes
    → open_at tree pathname r ≡ ok bytes
unfolding open_at
opens_at tree pathname bytes r root on_disk = rw (root, open_at, on_disk) refl

-- The state goes with the answer.
answer_in :
    {A : Type 0} (a : Result A) (s : PubRepo)
    → elim a as (λ x. Outcome (Option A)) [ err e ↦ some (err e, s) | ok b ↦ some (ok (some b), s) ]
      ≡ some (elim a as (λ x. Result (Option A)) [ err e ↦ err e | ok b ↦ ok (some b) ], s)
answer_in (err e) s = refl
answer_in (ok b) s = refl

module _ (tree : Tree) (g : Setting) (store : Store) where
  limit_of : (r : PubRepo) → Holds tree g store r → r.max_open_files ≡ g.limit
  limit_of r h = ap (λ (x : Setting). x.limit) h.same

  -- What `getProdFile()` gives of a product in the store.
  abbrev pub Opened : ℕ → PubRepo → PubRepo → Type 0
  Opened k r s =
      (get_prod_file tree k r ≡ some (ok (some k), s))
      × Holds tree g store s
      × ((o : Held SndProdFile) × (Dict.find ℕ_discrete k s.objects ≡ some o)
          × (o.is_open ≡ true)
          × (store k ≡ some o.file))

  -- A file that is open is used.
  get_prod_file-open :
      (k : ℕ) (r : PubRepo) (h : Holds tree g store r)
      → contains k h.known ≡ true
      → contains k h.recent ≡ true
      → (s : PubRepo) × Opened k r s
  unfolding get_prod_file
  get_prod_file-open k r h there opened =
      let (m, found, models) = find-own k h.recent r.open_files h.wf.opens opened in
      let (o, at, on) = h.wf.stored k there in
      let s : PubRepo = record r { open_files = m } in
      (
        s,
        (
          rw (found, get_prod_file) refl,
          record {
            known = h.known;
            recent = touch k h.recent;
            wf =
                used-Fits k h.known h.recent r.prod_files r.open_files m r.objects h.wf opened
                  models;
            files = h.files;
            on_disk = h.on_disk;
            fresh = h.fresh;
            same = h.same;
            root = h.root;
            few = omega (
              arith,
              h.few,
              size-own h.recent r.open_files h.wf.opens,
              size-own (touch k h.recent) m models,
              length-touch k h.recent opened,
            );
          },
          (o, at, on ∙ opened, sym (h.files k) ∙ ap file_of at),
        ),
      )

  opens_again :
      (k : ℕ) (r : PubRepo) (o : Held SndProdFile)
      → Dict.find ℕ_discrete k r.objects ≡ some o
      → o.is_open ≡ false
      → r.root_is_open ≡ true
      → tree o.file.pathname ≡ some o.file.bytes
      → open_file tree k r
        ≡ ok (record r {
          objects = Dict.put ℕ_discrete k (record { file = o.file; is_open = true }) r.objects;
        })
  unfolding open_file
  opens_again k r o at closed root on_disk =
      rw (at, open_file, closed)
        (ap (λ (b : Result (List ℕ)). b >>= reopened)
          (opens_at tree o.file.pathname o.file.bytes r root on_disk))
    where
      reopened : List ℕ → Result PubRepo
      reopened bytes = ok (record r {
        objects =
            Dict.put ℕ_discrete k
              (record { file = record o.file { bytes = bytes }; is_open = true }) r.objects;
      })

  -- A file that has been closed is opened again, as it was.
  get_prod_file-closed :
      (k : ℕ) (r : PubRepo) (h : Holds tree g store r)
      → 0 < g.limit
      → contains k h.known ≡ true
      → contains k h.recent ≡ false
      → (s : PubRepo) × Opened k r s
  unfolding get_prod_file
  get_prod_file-closed k r h pos there free =
      let (m, lost, models) = find-own_absent k h.recent r.open_files h.wf.opens free in
      let (n, found, all) = find-own k h.known r.prod_files h.wf.prods there in
      let (o, at, off) = h.wf.stored k there in
      let closed : (o.is_open ≡ false) = off ∙ free in
      let mine : (store k ≡ some o.file) = sym (h.files k) ∙ ap file_of at in
      let on_disk = h.on_disk k o.file mine in
      let o' : Held SndProdFile = record { file = o.file; is_open = true } in
      let opened =
        opens_again k (record r { prod_files = n; open_files = m }) o at closed h.root on_disk in
      let r1 : PubRepo = record r { open_files = m } in
      let w1 =
        moved-Fits h.known h.recent r.prod_files r.open_files r.prod_files m r.objects h.wf
          h.wf.prods models in
      let known' = touch k h.known in
      let (i, m', entered, fits, few) =
        enter-Fits k o' h.known known' h.recent n r1 w1
          (λ j. ground (arith, contains-touch j k h.known there, there)) refl free
          (nonzero k h.known h.recent r.prod_files r.open_files r.objects h.wf there) all
          (omega (arith, pos, limit_of r h)) in
      let objects' = close_all (take i h.recent) (Dict.put ℕ_discrete k o' r.objects) in
      let at' : (Dict.find ℕ_discrete k objects' ≡ some o') =
        find-opened k k o' (take i h.recent) r.objects
        ∙ ground (arith, not_taken k i h.recent free) in
      let s : PubRepo = record r { prod_files = n; open_files = m'; objects = objects' } in
      (
        s,
        (
          rw (lost, get_prod_file, found, opened, entered) refl,
          record {
            known = known';
            recent = drop i h.recent ++ k ∷ [];
            wf = fits;
            files = λ j. files-opened j k o' (take i h.recent) r ∙ ground (arith, h.files j, mine);
            on_disk = h.on_disk;
            fresh = λ j e. h.fresh j (sym (contains-touch j k h.known there) ∙ e);
            same = h.same;
            root = h.root;
            few = omega (arith, few, limit_of r h);
          },
          (o', at', refl, mine),
        ),
      )

  -- On a repository that holds the store, `getProdFile()` of a product gives its file, which is open.
  pub get_prod_file-known :
      (k : ℕ) (r : PubRepo) (h : Holds tree g store r)
      → 0 < g.limit
      → contains k h.known ≡ true
      → (s : PubRepo) × Opened k r s
  get_prod_file-known k r h pos there = elim (Bool-cases (contains k h.recent)) [
    | inl opened ↦ get_prod_file-open k r h there opened
    | inr free ↦ get_prod_file-closed k r h pos there free
  ]

  pub get_prod_file-unknown :
      (k : ℕ) (r : PubRepo) (h : Holds tree g store r)
      → contains k h.known ≡ false
      → (s : PubRepo) × (get_prod_file tree k r ≡ some (ok none, s))
        × Holds tree g store s
        × (store k ≡ none)
  unfolding get_prod_file
  get_prod_file-unknown k r h unknown =
      let free : (contains k h.recent ≡ false) = elim (Bool-cases (contains k h.recent)) [
        | inl opened ↦ let known' = h.wf.sub k opened in absurd (cc)
        | inr free ↦ free
      ] in
      let (m, lost, models) = find-own_absent k h.recent r.open_files h.wf.opens free in
      let (n, lost', all) = find-own_absent k h.known r.prod_files h.wf.prods unknown in
      (
        record r { open_files = m; prod_files = n },
        rw (lost, get_prod_file, lost') refl,
        record {
          known = h.known;
          recent = h.recent;
          wf = moved-Fits h.known h.recent r.prod_files r.open_files n m r.objects h.wf all models;
          files = h.files;
          on_disk = h.on_disk;
          fresh = h.fresh;
          same = h.same;
          root = h.root;
          few =
              omega (
                arith,
                h.few,
                size-own h.recent r.open_files h.wf.opens,
                size-own h.recent m models,
              );
        },
        sym (h.files k) ∙ ap file_of (h.wf.missing k unknown),
      )

  -- What is asked is asked of the file in the store.
  abbrev pub spec_ask : {A : Type 0} → (SndProdFile → Result A) → ℕ → Result (Option A)
  spec_ask question k = elim (store k) [
    | none ↦ ok none
    | some file ↦ elim (question file) [ err e ↦ err e | ok a ↦ ok (some a) ]
  ]

  pub ask-Holds :
      {A : Type 0} (asks : Held SndProdFile → Result A) (question : SndProdFile → Result A) (k : ℕ)
      (r : PubRepo)
      → Holds tree g store r
      → 0 < g.limit
      → ((o : Held SndProdFile) → o.is_open ≡ true → asks o ≡ question o.file)
      → (s : PubRepo) × (ask asks tree k r ≡ some (spec_ask question k, s)) × Holds tree g store s
  unfolding ask
  ask-Holds asks question k r h pos same_answer = elim (Bool-cases (contains k h.known)) [
    | inl there ↦
        let (s, (got, holds, (o, found, on, mine))) = get_prod_file-known k r h pos there in
        let answer : (asks o ≡ question o.file) = same_answer o on in
        (
          s,
          rw (got, ask, then_in, found, answer, mine, spec_ask) (answer_in (question o.file) s),
          holds,
        )
    | inr unknown ↦
        let (s, got, holds, nothing) = get_prod_file-unknown k r h unknown in
        (s, rw (got, ask, nothing, spec_ask) refl, holds)
  ]
