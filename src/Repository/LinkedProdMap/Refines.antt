-- ===== src/Repository/LinkedProdMap/Refines.antt =====
-- What `LinkedProdMap` promises: a sequence of files in the order of their last use. Its operations
-- implement those of the sequence, exceptions included.
use hycast.Prelude.{
  ℕ, ◌≡◌, refl, ◌≢◌, ◌∙◌, ◌⊎◌, Option, none, some, [], ◌∷◌, ◌++◌, arith, ℕ_discrete, Result, ok,
  err, invalid_argument, logic_error, ◌>>=◌, ◌==◌, false, if◌then◌else◌, Bool-cases, Option-cases,
  inl, inr,
}
use hycast.Prelude.Dict.{Dict, UniqueKeys}
use hycast.Prelude.Dict
use hycast.Repository.LinkedProdMap.{Entry, LinkedProdMap, append_key, add, unlink, remove, find}
use hycast.Repository.LinkedProdMap.Order.{
  Files, entry_at, Keyless, entry_at-none, entry_at-some, find_of_entry_at,
}
use hycast.Repository.LinkedProdMap.Models.{Models, append_key-Models}
use hycast.Repository.LinkedProdMap.Removal.{unlink-Models}

-- Both throw the same exception, or both return, with related results.
abbrev pub Agrees : {S T : Type 0} → (S → T → Type 0) → Result S → Result T → Type 0
Agrees R (ok s) (ok t) = R s t
Agrees R (err e) (err e') = e ≡ e'
Agrees R _ _ = ⊥

pub Agrees-ok :
    {S T : Type 0} (R : S → T → Type 0) (s : S) (r : Result T)
    → Agrees R (ok s) r
    → (t : T) × (r ≡ ok t) × R s t
Agrees-ok R s (ok t) h = (t, refl, h)
Agrees-ok R s (err e) h = absurd h

module _ {A : Type 0} where
  -- A new key is added at the end.
  abbrev pub spec_add : ℕ → Option A → Files A → Result (Files A)
  spec_add k f ks = if k == 0 then err invalid_argument else elim (Dict.find ℕ_discrete k ks) [
    | some g ↦ err logic_error
    | none ↦ ok (ks ++ (k, f) ∷ [])
  ]

  abbrev pub spec_remove : ℕ → Files A → Result (Option A × Files A)
  spec_remove k ks = elim (Dict.find ℕ_discrete k ks) [
    | none ↦ err invalid_argument
    | some f ↦ ok (f, Dict.erase ℕ_discrete k ks)
  ]

  -- A key that is found becomes the last one.
  abbrev pub spec_find : ℕ → Files A → Result (Option A × Files A)
  spec_find k ks = elim (Dict.find ℕ_discrete k ks) [
    | none ↦ ok (none, ks)
    | some f ↦ ok (f, Dict.erase ℕ_discrete k ks ++ (k, f) ∷ [])
  ]

  abbrev pub SameResult : Option A × Files A → Option A × LinkedProdMap A → Type 0
  SameResult (f, ks) (g, m) = (f ≡ g) × Models ks m

  -- A key is in the map exactly when it is in the sequence, with the same file.
  pub entry-cases :
      (k : ℕ) (ks : Files A) (m : LinkedProdMap A)
      → Models ks m
      → ((Dict.find ℕ_discrete k ks ≡ none) × (Dict.find ℕ_discrete k m.map ≡ none))
        ⊎ ((e : Entry A) × (entry_at 0 ks k ≡ some e)
            × (Dict.find ℕ_discrete k ks ≡ some e.prod_file)
            × (Dict.find ℕ_discrete k m.map ≡ some e))
  entry-cases k ks m v = elim (Option-cases (Dict.find ℕ_discrete k ks)) [
    | inl no_file ↦ inl (no_file, v.entries k ∙ entry_at-none 0 k ks no_file)
    | inr (f, file) ↦
        let (e, at, same) = entry_at-some 0 k ks f file in
        inr (e, at, find_of_entry_at 0 k ks e at, v.entries k ∙ at)
  ]

  -- On a map that models a sequence of files, `add()` puts a new key at the end, and throws for
  -- the key 0 and for a key that is there, as the sequence does.
  pub add-Refines :
      (k : ℕ) (f : Option A) (ks : Files A) (m : LinkedProdMap A)
      → Models ks m
      → Agrees Models (spec_add k f ks) (add k f m)
  unfolding add
  add-Refines k f ks m v = elim (Bool-cases (k == 0)) [
    | inl invalid ↦ rw (invalid, add) refl
    | inr valid ↦ elim (entry-cases k ks m v) [
      | inl (no_file, no_entry) ↦
          rw (valid, add, no_file, no_entry) (append_key-Models k f ks m (ground arith) no_file v)
      | inr (e, at, file, entry) ↦ rw (valid, add, file, entry) refl
    ]
  ]

  -- On a map that models a sequence of files, `remove()` takes out the key and returns its
  -- file, and throws for a key that is not there, as the sequence does.
  pub remove-Refines :
      (k : ℕ) (ks : Files A) (m : LinkedProdMap A)
      → Models ks m
      → Agrees SameResult (spec_remove k ks) (remove k m)
  unfolding remove
  remove-Refines k ks m v = elim (entry-cases k ks m v) [
    | inl (no_file, no_entry) ↦ rw (no_file, spec_remove, no_entry, remove) refl
    | inr (e, at, file, entry) ↦
        rw (file, spec_remove, entry, remove) (refl, unlink-Models k ks m e v at)
  ]

  -- A key that was removed can be added again.
  readd :
      (k : ℕ) (ks : Files A) (m : LinkedProdMap A) (e : Entry A)
      → Models ks m
      → entry_at 0 ks k ≡ some e
      → (r : LinkedProdMap A) × (add k e.prod_file (unlink k e m) ≡ ok r)
        × Models (Dict.erase ℕ_discrete k ks ++ (k, e.prod_file) ∷ []) r
  unfolding add
  readd k ks m e v at =
      let removed = unlink-Models k ks m e v at in
      let no_file : (Keyless k (Dict.erase ℕ_discrete k ks)) =
        ground (arith, Dict.find-erase ℕ_discrete k k ks) in
      let no_entry = removed.entries k ∙ entry_at-none 0 k (Dict.erase ℕ_discrete k ks) no_file in
      let file = find_of_entry_at 0 k ks e at in
      let nonzero : (k ≢ 0) = λ z. ground (arith, v.nonzero) in
      let valid : ((k == 0) ≡ false) = ground arith in
      (
        append_key k e.prod_file (unlink k e m),
        rw (valid, add, no_entry) refl,
        append_key-Models k e.prod_file _ _ nonzero no_file removed,
      )

  -- On a map that models a sequence of files, `find()` returns the file of the key and moves it
  -- to the end, and returns an empty handle and leaves all as it is for a key that is not
  -- there, as the sequence does; it never throws.
  pub find-Refines :
      (k : ℕ) (ks : Files A) (m : LinkedProdMap A)
      → Models ks m
      → Agrees SameResult (spec_find k ks) (find k m)
  unfolding find
  find-Refines k ks m v = elim (entry-cases k ks m v) [
    | inl (no_file, no_entry) ↦ rw (no_file, spec_find, no_entry, find) (refl, v)
    | inr (e, at, file, entry) ↦
        let (r, added, models) = readd k ks m e v at in
        rw (file, spec_find, entry, find, entry, remove, added, ◌>>=◌) (refl, models)
  ]
