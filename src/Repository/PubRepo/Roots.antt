-- ===== src/Repository/PubRepo/Roots.antt =====
-- The root pathname of a publisher's repository (main/repository/Repository.cpp).
use hycast.Prelude.{
  ℕ, ◌+◌, ◌<◌, ◌≡◌, ◌≢◌, refl, ap, inl, inr, none, some, List, ◌∷◌, ◌++◌, arith, length, drop, ok,
  err, true, false, leb, ◌==◌, Bool-cases, length-append, length-drop, runtime_error, system_error,
}
use hycast.Repository.PubRepo.{
  Tree, PubRepo, slash, make_absolute, fresh_repo, new, new_file, open_at, nested, publish_file,
  publish, get_next_prod,
}
use hycast.Protocol.ProdIndex.{increment}

new_file-fails :
    (tree : Tree) (name : List ℕ) (r : PubRepo)
    → tree name ≡ none
    → new_file tree name r ≡ err system_error
unfolding new_file open_at
new_file-fails tree name r absent = elim (Bool-cases r.root_is_open) [
  | inl opened ↦ rw (opened, new_file, open_at, absent) refl
  | inr closed ↦ rw (closed, new_file, open_at) refl
]

-- The name that is cut from a pathname is longer than what stands behind the root.
get_next_prod-misses :
    (tree : Tree) (root name : List ℕ) (r : PubRepo)
    → r.root_prefix_len + length name < length (root ++ slash ∷ name)
    → ((p : List ℕ) → length name < length p → tree p ≡ none)
    → get_next_prod tree (root ++ slash ∷ name) r
      ≡ some (err runtime_error, record r { prod_index = increment r.prod_index })
unfolding get_next_prod publish
get_next_prod-misses tree root name r more longest =
    let path = root ++ slash ∷ name in
    let cut = drop r.root_prefix_len path in
    let r1 : PubRepo = record r { prod_index = increment r.prod_index } in
    let long : (leb r.root_prefix_len (length path) ≡ true) = ground (arith, more) in
    let absent = longest cut (omega (arith, length-drop r.root_prefix_len path, more)) in
    rw (long, get_next_prod, publish)
      (ap (λ x. nested (publish_file (increment r.prod_index) cut r1 x))
        (new_file-fails tree cut r1 absent))

-- A repository is made with a relative root pathname, in any directory. The length of that pathname is
-- taken for the length of the prefix of the pathnames that the watcher gives, which are absolute: the
-- product's name that is cut from the pathname of a new file is longer than the pathname of the file
-- below the root. Unless there are files with longer pathnames than it has, the call throws, and
-- nothing has been published.
pub relative_root_misses :
    (tree : Tree) (cwd name rest : List ℕ) (first seg_size limit : ℕ)
    → first ≢ slash
    → ((p : List ℕ) → length name < length p → tree p ≡ none)
    → (r : PubRepo) × (new cwd (first ∷ rest) seg_size limit ≡ ok r)
      × (r.root_pathname ≡ cwd ++ slash ∷ first ∷ rest)
      × (get_next_prod tree (r.root_pathname ++ slash ∷ name) r
          ≡ some (err runtime_error, record r { prod_index = 1 }))
unfolding new make_absolute increment
relative_root_misses tree cwd name rest first seg_size limit relative longest =
    let root = cwd ++ slash ∷ first ∷ rest in
    let r = fresh_repo root (length (first ∷ rest) + 1) seg_size limit in
    let other : ((first == slash) ≡ false) = ground arith in
    let longer : (length (first ∷ rest) + 1 + length name < length (root ++ slash ∷ name)) =
      omega (arith, length-append root (slash ∷ name), length-append cwd (slash ∷ first ∷ rest)) in
    (
      r,
      rw (other, new, make_absolute) refl,
      refl,
      get_next_prod-misses tree root name r longer longest,
    )
