-- ===== src/Prelude/Errors.antt =====
-- The exceptions of main/misc/error.h, as values.
use mathlib.Core.Path.{◌≡◌, refl}

-- `null_dereference` is a call through a handle that holds no object, which the language leaves
-- undefined.
pub data Error : Type 0 where
  invalid_argument : Error
  logic_error : Error
  out_of_range : Error
  domain_error : Error
  runtime_error : Error
  system_error : Error
  null_dereference : Error

-- What a call returns, or the exception that it throws.
pub data Result {ℓ} (A : Type ℓ) : Type ℓ where
  err : (thrown : Error) → Result A
  ok : (returned : A) → Result A

module _ {ℓ κ} {A : Type ℓ} {B : Type κ} where
  infixl 5 ◌>>=◌
  abbrev pub ◌>>=◌ : (first : Result A) (rest : A → Result B) → Result B
  first >>= rest = elim first [ err thrown ↦ err thrown | ok returned ↦ rest returned ]

  -- A sequence returns only if both its parts do.
  pub >>=-eq-ok :
      (first : Result A) (rest : A → Result B) {b : B}
      → (first >>= rest) ≡ ok b
      → (a : A) × (first ≡ ok a) × (rest a ≡ ok b)
  >>=-eq-ok (err thrown) rest e = cc
  >>=-eq-ok (ok a) rest e = (a, refl, e)
