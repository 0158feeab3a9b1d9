-- ===== src/Repository/Objects.antt =====
-- The files behind the handles of main/repository/Repository.cpp, by handle: `close()` and `open()`.
use hycast.Prelude.{
  ℕ, ◌≡◌, refl, ◌∙◌, inl, inr, ite, Bool, true, false, Option, none, some, List, [], ◌∷◌, arith,
  ℕ_discrete, Option-cases,
}
use hycast.Prelude.Dict.{Dict}
use hycast.Prelude.Dict
use hycast.Repository.Own.{contains}

-- A product-file, and whether its data can be accessed.
pub record Held (F : Type 0) : Type 0 where
  pub file : F
  pub is_open : Bool

module _ {F : Type 0} where
  -- `close()` of files
  unfoldable pub close_all : List ℕ → Dict ℕ (Held F) → Dict ℕ (Held F)
  close_all [] objects = objects
  close_all (h ∷ hs) objects = elim (Dict.find ℕ_discrete h objects) [
    | none ↦ close_all hs objects
    | some o ↦ close_all hs (Dict.put ℕ_discrete h (record o { is_open = false }) objects)
  ]

  -- `open()` of a file
  unfoldable pub open_object : ℕ → Dict ℕ (Held F) → Dict ℕ (Held F)
  open_object h objects = elim (Dict.find ℕ_discrete h objects) [
    | none ↦ objects
    | some o ↦ Dict.put ℕ_discrete h (record o { is_open = true }) objects
  ]

  -- What `close()` does to the objects, and `open()`.
  abbrev pub closed_if : Bool → Option (Held F) → Option (Held F)
  closed_if b none = none
  closed_if true (some o) = some (record o { is_open = false })
  closed_if false (some o) = some o

  pub find-close_all :
      (j : ℕ) (hs : List ℕ) (objects : Dict ℕ (Held F))
      → Dict.find ℕ_discrete j (close_all hs objects)
        ≡ closed_if (contains j hs) (Dict.find ℕ_discrete j objects)
  unfolding close_all
  find-close_all j [] objects = elim (Option-cases (Dict.find ℕ_discrete j objects)) [
    | inl e ↦ rw e refl
    | inr (o, e) ↦ rw e refl
  ]
  find-close_all j (h ∷ hs) objects = elim (Option-cases (Dict.find ℕ_discrete h objects)) [
    | inl e ↦ rw (e, close_all) (find-close_all j hs objects ∙ ground (arith, e))
    | inr (o, e) ↦
        let rest = Dict.put ℕ_discrete h (record o { is_open = false }) objects in
        rw (e, close_all)
          (find-close_all j hs rest
            ∙ ground
                (arith, e, Dict.find-put ℕ_discrete h j (record o { is_open = false }) objects))
  ]

  pub find-open_object :
      (j k : ℕ) (o : Held F) (objects : Dict ℕ (Held F))
      → Dict.find ℕ_discrete k objects ≡ some o
      → Dict.find ℕ_discrete j (open_object k objects)
        ≡ ite (ℕ_discrete k j) (some (record o { is_open = true })) (Dict.find ℕ_discrete j objects)
  unfolding open_object
  find-open_object j k o objects h =
      rw (h, open_object) (Dict.find-put ℕ_discrete k j (record o { is_open = true }) objects)
