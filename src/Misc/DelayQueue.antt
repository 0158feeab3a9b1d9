-- ===== src/Misc/DelayQueue.antt =====
-- `DelayQueue::Impl` of main/misc/DelayQueue.cpp: a queue whose values are revealed at given times.
-- Times are numbers of one clock. The priority queue is a list; which of two elements with the same
-- time is the top one is not fixed by the library, and no theorem depends on it.
pub mod Order
use hycast.Prelude.{
  ℕ, ◌≤◌, ◌<◌, ◌≡◌, ◌↔◌, refl, ap, Bool, true, false, not, ◌&&◌, Option, none, some, List, [], ◌∷◌,
  ◌++◌, arith, leb, ltb, if◌then◌else◌, Result, ok, err, domain_error, All, Bool-cases, inl, inr,
}

pub record Element (A : Type 0) : Type 0 where
  pub value : A
  pub when : ℕ

pub record DelayQueue (A : Type 0) : Type 0 where
  pub queue : List (Element A)
  pub is_closed : Bool

-- One round of the loop of `pop()`: it waits for another call, it waits until the earliest time, or
-- it returns a value.
pub data Round (A : Type 0) : Type 0 where
  waits : Round A
  waits_until : ℕ → Round A
  returns : A → DelayQueue A → Round A

pub data Call (A : Type 0) : Type 0 where
  pushes : A → ℕ → Call A
  pops : (now : ℕ) → Call A
  clears closes : Call A

module _ {A : Type 0} where
  unfoldable pub new : DelayQueue A
  new = record { queue = []; is_closed = false }

  unfoldable pub push : A → ℕ → DelayQueue A → Result (DelayQueue A)
  push value when q =
      if q.is_closed
      then err domain_error
      else ok (record q { queue = q.queue ++ record { value = value; when = when } ∷ [] })

  -- `top()`, with what `pop()` of the priority queue leaves: an element with the earliest time of a
  -- list with the head `e`
  unfoldable pub top : Element A → List (Element A) → Element A × List (Element A)
  top e [] = (e, [])
  top e (f ∷ fs) =
      let (first, rest) = top f fs in
      if leb e.when first.when then (e, f ∷ fs) else (first, e ∷ rest)

  unfoldable pub pop : (now : ℕ) → DelayQueue A → Result (Round A)
  pop now q = if q.is_closed then err domain_error else elim q.queue [
    | [] ↦ ok waits
    | e ∷ es ↦
        let (first, rest) = top e es in
        if ltb now first.when
        then ok (waits_until first.when)
        else ok (returns first.value (record q { queue = rest }))
  ]

  unfoldable pub ready : (now : ℕ) → DelayQueue A → Bool
  ready now q = elim q.queue [ [] ↦ false | e ∷ es ↦ leb (top e es).0.when now ]

  unfoldable pub empty : DelayQueue A → Bool
  empty q = elim q.queue [ [] ↦ true | e ∷ es ↦ false ]

  unfoldable pub clear : DelayQueue A → DelayQueue A
  clear q = record q { queue = [] }

  unfoldable pub close : DelayQueue A → DelayQueue A
  close q = record { queue = []; is_closed = true }

  -- The state after a call; one that throws or waits has changed nothing.
  abbrev pub pushed : DelayQueue A → Result (DelayQueue A) → DelayQueue A
  pushed q (ok after) = after
  pushed q (err e) = q

  abbrev pub popped : DelayQueue A → Result (Round A) → DelayQueue A
  popped q (ok (returns value after)) = after
  popped q _ = q

  unfoldable pub step : Call A → DelayQueue A → DelayQueue A
  step (pushes value when) q = pushed q (push value when q)
  step (pops now) q = popped q (pop now q)
  step clears q = clear q
  step closes q = close q

  -- The state after some calls, the latest call first.
  unfoldable pub run : List (Call A) → DelayQueue A → DelayQueue A
  run [] q = q
  run (c ∷ cs) q = step c (run cs q)
