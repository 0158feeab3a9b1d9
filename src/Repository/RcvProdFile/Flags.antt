-- ===== src/Repository/RcvProdFile/Flags.antt =====
-- Counting the marks of the segments that are there.
use hycast.Prelude.{
  ℕ, zero, suc, ◌+◌, ◌≤◌, ◌<◌, ◌≡◌, refl, Bool, true, false, List, [], ◌∷◌, arith, get_or, set,
  replicate, length,
}

abbrev pub marked : List Bool → ℕ
marked [] = 0
marked (true ∷ bs) = suc (marked bs)
marked (false ∷ bs) = marked bs

pub marked-le : (bs : List Bool) → marked bs ≤ length bs
marked-le [] = omega arith
marked-le (true ∷ bs) = omega (arith, marked-le bs)
marked-le (false ∷ bs) = omega (arith, marked-le bs)

pub marked-set :
    (bs : List Bool) (i : ℕ)
    → i < length bs
    → get_or bs i false ≡ false
    → marked (set bs i true) ≡ marked bs + 1
marked-set [] i h e = absurd (omega arith)
marked-set (true ∷ bs) zero h e = absurd (cc)
marked-set (false ∷ bs) zero h e = omega arith
marked-set (true ∷ bs) (suc i) h e = omega (arith, marked-set bs i (omega arith) e)
marked-set (false ∷ bs) (suc i) h e = omega (arith, marked-set bs i (omega arith) e)

pub marked-replicate : (n : ℕ) → marked (replicate n false) ≡ 0
marked-replicate zero = refl
marked-replicate (suc n) = marked-replicate n

-- If all are marked, each one is.
pub marked_all :
    (bs : List Bool) (i : ℕ) → length bs ≤ marked bs → i < length bs → get_or bs i false ≡ true
marked_all [] i h lt = absurd (omega arith)
marked_all (true ∷ bs) zero h lt = refl
marked_all (false ∷ bs) zero h lt = absurd (omega (arith, marked-le bs))
marked_all (true ∷ bs) (suc i) h lt = marked_all bs i (omega arith) (omega arith)
marked_all (false ∷ bs) (suc i) h lt = absurd (omega (arith, marked-le bs))
