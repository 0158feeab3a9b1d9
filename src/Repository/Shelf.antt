-- ===== src/Repository/Shelf.antt =====
-- When the parts of a repository of main/repository/Repository.cpp fit together: the map of all files,
-- that of the open ones, and the files behind their handles.
pub mod Uses
use hycast.Prelude.{
  ℕ, suc, ◌-◌, ◌<◌, ◌≡◌, ◌≢◌, refl, sym, ap, ◌∙◌, inl, inr, ite, Bool, true, false, Option, none,
  some, List, [], ◌∷◌, ◌++◌, arith, ℕ_discrete, length, take, drop, ok, Bool-cases, if◌then◌else◌,
}
use hycast.Prelude.Dict.{Dict}
use hycast.Prelude.Dict
use hycast.Repository.LinkedProdMap.{LinkedProdMap, add, find}
use hycast.Repository.LinkedProdMap.Models.{Models}
use hycast.Repository.LinkedProdMap.Refines.{SameResult, Agrees-ok, find-Refines, add-Refines}
use hycast.Repository.Objects.{Held, close_all, closed_if, find-close_all}
use hycast.Repository.Own.{contains, sequence, touch, spec_find-own, spec_add-own, contains-drop}

pub find-own :
    (k : ℕ) (ks : List ℕ) (m : LinkedProdMap ℕ)
    → Models (sequence ks) m
    → contains k ks ≡ true
    → (n : LinkedProdMap ℕ) × (find k m ≡ ok (some k, n)) × Models (sequence (touch k ks)) n
find-own k ks m v h =
    let spec = rw h at (spec_find-own k ks) in
    let ((f, n), found, (same, models)) =
      Agrees-ok SameResult (some k, sequence (touch k ks)) (find k m)
        (rw spec at (find-Refines k (sequence ks) m v)) in
    (n, found ∙ ap (λ (x : Option ℕ). ok (x, n)) (sym same), models)

pub find-own_absent :
    (k : ℕ) (ks : List ℕ) (m : LinkedProdMap ℕ)
    → Models (sequence ks) m
    → contains k ks ≡ false
    → (n : LinkedProdMap ℕ) × (find k m ≡ ok (none, n)) × Models (sequence ks) n
find-own_absent k ks m v h =
    let spec = rw h at (spec_find-own k ks) in
    let ((f, n), found, (same, models)) =
      Agrees-ok SameResult (none, sequence ks) (find k m)
        (rw spec at (find-Refines k (sequence ks) m v)) in
    (n, found ∙ ap (λ (x : Option ℕ). ok (x, n)) (sym same), models)

pub add-own :
    (k : ℕ) (ks : List ℕ) (m : LinkedProdMap ℕ)
    → k ≢ 0
    → Models (sequence ks) m
    → contains k ks ≡ false
    → (n : LinkedProdMap ℕ) × (add k (some k) m ≡ ok n) × Models (sequence (ks ++ k ∷ [])) n
add-own k ks m valid v h =
    let spec = spec_add-own k ks valid h in
    let (n, added, models) =
      Agrees-ok Models (sequence (ks ++ k ∷ [])) (add k (some k) m)
        (rw spec at (add-Refines k (some k) (sequence ks) m v)) in
    (n, added, models)

-- The files with the indexes `known` are there; of these, `recent` are open, in the order of their
-- use.
pub record Fits {F : Type 0} (known recent : List ℕ) (all opened : LinkedProdMap ℕ)
    (objects : Dict ℕ (Held F)) : Type 0 where
  pub prods : Models (sequence known) all
  pub opens : Models (sequence recent) opened
  pub sub : (j : ℕ) → contains j recent ≡ true → contains j known ≡ true
  pub missing : (j : ℕ) → contains j known ≡ false → Dict.find ℕ_discrete j objects ≡ none
  pub stored :
      (j : ℕ)
      → contains j known ≡ true
      → (o : Held F) × (Dict.find ℕ_discrete j objects ≡ some o) × (o.is_open ≡ contains j recent)

module _ {F : Type 0} where
  -- The map of files, apart from which are open.
  abbrev pub file_of : Option (Held F) → Option F
  file_of none = none
  file_of (some o) = some o.file

  -- What is closed is not open any more.
  pub closed-file : (b : Bool) (x : Option (Held F)) → file_of (closed_if b x) ≡ file_of x
  closed-file b none = refl
  closed-file true (some o) = refl
  closed-file false (some o) = refl

  -- The first `n` open files are closed.
  pub close-Fits :
      (known recent : List ℕ) (n : ℕ) (all opened m : LinkedProdMap ℕ) (objects : Dict ℕ (Held F))
      → Fits known recent all opened objects
      → Models (sequence (drop n recent)) m
      → Fits known (drop n recent) all m (close_all (take n recent) objects)
  close-Fits known recent n all opened m objects w models =
      let left : ((j : ℕ) → _) = λ j. contains-drop j n recent w.opens.distinct in
      record {
        prods = w.prods;
        opens = models;
        sub = λ j h. w.sub j (kept j (contains j (take n recent)) (sym (left j) ∙ h));
        missing = λ j h.
            find-close_all j (take n recent) objects
            ∙ ap (closed_if (contains j (take n recent))) (w.missing j h);
        stored = λ j h.
            let (o, found, same) = w.stored j h in
            elim (Bool-cases (contains j (take n recent))) [
              | inl closed ↦ (
                record o { is_open = false },
                find-close_all j (take n recent) objects ∙ rw (closed, found) refl,
                sym (left j ∙ rw closed refl),
              )
              | inr still ↦ (
                o,
                find-close_all j (take n recent) objects ∙ rw (still, found) refl,
                same ∙ sym (left j ∙ rw still refl),
              )
            ];
      }
    where
      kept :
          (j : ℕ) (b : Bool)
          → (if b then false else contains j recent) ≡ true
          → contains j recent ≡ true
      kept j true h = absurd (cc)
      kept j false h = h
