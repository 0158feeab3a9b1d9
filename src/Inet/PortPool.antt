-- ===== src/Inet/PortPool.antt =====
-- `PortPool::Impl` of main/inet/PortPool.cpp. A port has 16 bits.
use hycast.Prelude.{
  ℕ, zero, suc, ◌+◌, ◌%◌, ◌^◌, ◌<◌, ◌≡◌, refl, ap, ◌∙◌, Option, none, some, List, [], ◌∷◌, ◌++◌,
  arith, ◌==◌, if◌then◌else◌, length, ite, ℕ_discrete, false,
}

-- The loop of the constructor, from `port` to `end`; `none` means that the fuel ran out.
unfoldable pub fill : ℕ → ℕ → ℕ → Option (List ℕ)
fill zero port end = none
fill (suc fuel) port end =
    if port == end then some [] else elim (fill fuel ((port + 1) % 2 ^ 16) end) [
      | none ↦ none
      | some ports ↦ some (port ∷ ports)
    ]

-- The constructor. The sum is one of 32 bits, and is cut to 16.
unfoldable pub new : ℕ → ℕ → ℕ → Option (List ℕ)
new fuel min num = fill fuel min ((min + num) % 2 ^ 32 % 2 ^ 16)

unfoldable pub size : List ℕ → ℕ
size pool = length pool

-- `take()`, with `none` while it waits
unfoldable pub take : List ℕ → Option (ℕ × List ℕ)
take [] = none
take (port ∷ ports) = some (port, ports)

unfoldable pub add : ℕ → List ℕ → List ℕ
add port pool = pool ++ port ∷ []

-- `n` ports from the `k`-th one after `min` on, around the circle of all ports
abbrev pub ports_after : ℕ → ℕ → ℕ → List ℕ
ports_after min k zero = []
ports_after min k (suc n) = (min + k) % 2 ^ 16 ∷ ports_after min (k + 1) n

fill-ports_after :
    (fuel min k n : ℕ)
    → n < fuel
    → n < 2 ^ 16
    → fill fuel ((min + k) % 2 ^ 16) ((min + (k + n)) % 2 ^ 16) ≡ some (ports_after min k n)
unfolding fill
fill-ports_after zero min k n enough few = absurd (omega arith)
fill-ports_after (suc fuel) min k zero enough few = ground arith
fill-ports_after (suc fuel) min k (suc n) enough few =
    let rest = fill-ports_after fuel min (k + 1) n (omega arith) (omega arith) in
    let one : (((min + k) % 2 ^ 16 + 1) % 2 ^ 16 ≡ (min + (k + 1)) % 2 ^ 16) = omega arith in
    let same : (k + 1 + n ≡ k + suc n) = omega arith in
    let rest' = rw same at rest in
    let apart : (((min + k) % 2 ^ 16 == (min + (k + suc n)) % 2 ^ 16) ≡ false) = ground arith in
    rw (apart, one, rest') refl

-- For a port of 16 bits and a number of 32 bits, with more fuel than the ports that result, the
-- constructor ends. The pool has as many ports as the number modulo 2 ^ 16, from the given port
-- upwards, and after the largest port from 0 on.
new-ports_after :
    (fuel min num : ℕ)
    → min < 2 ^ 16
    → num < 2 ^ 32
    → num % 2 ^ 16 < fuel
    → new fuel min num ≡ some (ports_after min 0 (num % 2 ^ 16))
unfolding new
new-ports_after fuel min num small lt enough =
    let filled = fill-ports_after fuel min 0 (num % 2 ^ 16) enough (omega arith) in
    let start : ((min + 0) % 2 ^ 16 ≡ min) = omega arith in
    let stop : ((min + num) % 2 ^ 32 % 2 ^ 16 ≡ (min + (0 + num % 2 ^ 16)) % 2 ^ 16) =
      omega arith in
    rw stop (rw start at filled)

-- The pool, and the ports that its users hold.
pub record Users : Type 0 where
  pub pool : List ℕ
  pub held : List ℕ

-- A user takes a port, or gives back one that it holds.
pub data Step (u v : Users) : Type 0 where
  takes : (port : ℕ) → take u.pool ≡ some (port, v.pool) → v.held ≡ port ∷ u.held → Step u v
  gives_back :
      (port : ℕ) (before after : List ℕ)
      → u.held ≡ before ++ port ∷ after
      → v.pool ≡ add port u.pool
      → v.held ≡ before ++ after
      → Step u v

pub data Run (u : Users) : Users → Type 0 where
  starts : Run u u
  follows : {v w : Users} → Step v w → Run u v → Run u w

abbrev pub count : ℕ → List ℕ → ℕ
count p [] = 0
count p (q ∷ qs) = ite (ℕ_discrete q p) 1 0 + count p qs

pub count-append : (p : ℕ) (ps qs : List ℕ) → count p (ps ++ qs) ≡ count p ps + count p qs
count-append p [] qs = omega arith
count-append p (x ∷ ps) qs = omega (arith, count-append p ps qs)

take-front : (port : ℕ) (ps qs : List ℕ) → take ps ≡ some (port, qs) → ps ≡ port ∷ qs
unfolding take
take-front port [] qs e = absurd (cc)
take-front port (p ∷ ps) qs e = cc

Step-count :
    (p : ℕ) (u v : Users)
    → Step u v
    → count p v.pool + count p v.held ≡ count p u.pool + count p u.held
unfolding add
Step-count p u v (takes port e h) =
    omega (arith, ap (count p) (take-front port u.pool v.pool e), ap (count p) h)
Step-count p u v (gives_back port before after e h g) = omega (
  arith,
  ap (count p) e,
  ap (count p) h,
  ap (count p) g,
  count-append p before (port ∷ after),
  count-append p before after,
  count-append p u.pool (port ∷ []),
)

-- Whatever ports the users take and give back in any order, where they give back only ports that
-- they hold, each port is as often in the pool and in the hands of users together as at the
-- start.
pub Run-count :
    (p : ℕ) {u v : Users}
    → Run u v
    → count p v.pool + count p v.held ≡ count p u.pool + count p u.held
Run-count p starts = refl
Run-count p (follows s r) = Step-count p _ _ s ∙ Run-count p r
