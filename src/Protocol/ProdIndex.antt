-- ===== src/Protocol/ProdIndex.antt =====
-- `ProdIndex` of main/protocol/hycast.h: a 32-bit number, of which 0 is invalid.
use hycast.Prelude.{
  ℕ, zero, suc, ◌+◌, ◌-◌, ◌%◌, ◌^◌, ◌<◌, ◌≡◌, ◌≢◌, refl, Bool, not, arith, ◌==◌, if◌then◌else◌,
  Result, ok, err, invalid_argument,
}

-- The explicit constructor refuses 0.
unfoldable pub from_value : ℕ → Result ℕ
from_value index = if index == 0 then err invalid_argument else ok index

-- `operator bool()`
abbrev pub is_valid : ℕ → Bool
is_valid index = not (index == 0)

-- `operator ++()`
unfoldable pub increment : ℕ → ℕ
increment index = let next = (index + 1) % 2 ^ 32 in if next == 0 then 1 else next

-- `n` increments
unfoldable pub advance : ℕ → ℕ → ℕ
unfolding increment
advance zero index = index
advance (suc n) index = increment (advance n index)

increment-valid : (i : ℕ) → i < 2 ^ 32 → (0 < increment i) × (increment i < 2 ^ 32)
unfolding increment
increment-valid i h = ground arith

-- From a valid index, `n` increments lead to the index that is `n` places further on the circle
-- of the valid indexes 1 to 2 ^ 32 - 1.
advance-circle : (n i : ℕ) → 0 < i → i < 2 ^ 32 → advance n i ≡ (i - 1 + n) % (2 ^ 32 - 1) + 1
unfolding advance
advance-circle zero i pos lt = omega arith
advance-circle (suc n) i pos lt = ground (arith, advance-circle n i pos lt)

-- From the default-constructed, invalid index, `n + 1` increments lead to the index that is `n`
-- places after 1 on the circle of the valid indexes 1 to 2 ^ 32 - 1.
pub advance_from_default : (n : ℕ) → advance (suc n) 0 ≡ n % (2 ^ 32 - 1) + 1
unfolding advance
advance_from_default zero = refl
advance_from_default (suc n) = ground (arith, advance_from_default n)

-- For a valid index, any number of increments that is positive and less than 2 ^ 32 - 1 leads to
-- another index.
advance-fresh : (n i : ℕ) → 0 < i → i < 2 ^ 32 → 0 < n → n < 2 ^ 32 - 1 → advance n i ≢ i
advance-fresh n i pos lt more few = omega (arith, advance-circle n i pos lt)
