-- ===== src/Misc/FixedDelayQueue.antt =====
-- `FixedDelayQueue::Impl` of main/misc/FixedDelayQueue.cpp: values are revealed in the order of their
-- insertion, each a fixed time after it. `pop()` gives up the mutex while it waits, so that it is two
-- functions here: what it reads before it waits for a time, and what it does after that. `push()` is
-- taken to be one step, though it does not hold the mutex. Times are numbers of one clock, and the
-- delay is not negative.
use hycast.Prelude.{
  List-cases, ℕ, ◌+◌, ◌≤◌, ◌<◌, ◌≡◌, sym, ap, ◌∙◌, Option, none, some, List, [], ◌∷◌, ◌++◌, arith,
  ltb, if◌then◌else◌, Result, ok, err, null_dereference, length, inl, inr, false,
}
use mathlib.Core.List.{append_assoc, append-nil}

pub record Element (A : Type 0) : Type 0 where
  pub value : A
  pub when : ℕ

pub record FixedDelayQueue (A : Type 0) : Type 0 where
  pub queue : List (Element A)
  pub delay : ℕ

module _ {A : Type 0} where
  unfoldable pub new : ℕ → FixedDelayQueue A
  new delay = record { queue = []; delay = delay }

  -- `Element(value, delay)` at the time `now`
  abbrev pub element : ℕ → ℕ → A → Element A
  element now delay value = record { value = value; when = now + delay }

  unfoldable pub push : (now : ℕ) → A → FixedDelayQueue A → FixedDelayQueue A
  push now value q = record q { queue = q.queue ++ element now q.delay value ∷ [] }

  -- the first loop of `pop()` and the time that it then reads; `none` while the queue is empty
  unfoldable pub begin_pop : FixedDelayQueue A → Option ℕ
  begin_pop q = elim q.queue [ [] ↦ none | e ∷ es ↦ some e.when ]

  -- the second loop of `pop()`, which waits for the time that was read, and what follows it; no value
  -- while it waits, and an error for `front()` of an empty queue, which the language leaves undefined
  unfoldable pub end_pop :
      (now time : ℕ) → FixedDelayQueue A → Result (Option (A × FixedDelayQueue A))
  end_pop now time q = if ltb now time then ok none else elim q.queue [
    | [] ↦ err null_dereference
    | e ∷ es ↦ ok (some (e.value, record q { queue = es }))
  ]

  unfoldable pub size : FixedDelayQueue A → ℕ
  size q = length q.queue

  -- Some insertions, each with its time, in order.
  abbrev pub push_all : List (ℕ × A) → FixedDelayQueue A → FixedDelayQueue A
  push_all [] q = q
  push_all ((now, value) ∷ ps) q = push_all ps (push now value q)

  abbrev pub elements : ℕ → List (ℕ × A) → List (Element A)
  elements delay [] = []
  elements delay ((now, value) ∷ ps) = element now delay value ∷ elements delay ps

  abbrev holding : ℕ → List (Element A) → FixedDelayQueue A
  holding delay es = record { queue = es; delay = delay }

  push_all-queue :
      (ps : List (ℕ × A)) (es : List (Element A)) (delay : ℕ)
      → push_all ps (holding delay es) ≡ holding delay (es ++ elements delay ps)
  unfolding push
  push_all-queue [] es delay = ap (holding delay) (sym (append-nil es))
  push_all-queue ((now, value) ∷ ps) es delay =
      let first = element now delay value in
      push_all-queue ps (es ++ first ∷ []) delay
      ∙ ap (holding delay) (append_assoc es (first ∷ []) (elements delay ps))

  push_all-eq :
      (ps : List (ℕ × A)) (q : FixedDelayQueue A) (es : List (Element A))
      → q.queue ≡ es
      → push_all ps q ≡ holding q.delay (es ++ elements q.delay ps)
  push_all-eq ps q es h =
      push_all-queue ps q.queue q.delay
      ∙ ap (λ (l : List (Element A)). holding q.delay (l ++ elements q.delay ps)) h

  begin_pop-none : (q : FixedDelayQueue A) (time : ℕ) → q.queue ≡ [] → begin_pop q ≡ some time → ⊥
  unfolding begin_pop
  begin_pop-none q time h b = ground arith

  begin_pop-some :
      (q : FixedDelayQueue A) (e : Element A) (es : List (Element A)) (time : ℕ)
      → q.queue ≡ e ∷ es
      → begin_pop q ≡ some time
      → e.when ≡ time
  unfolding begin_pop
  begin_pop-some q e es time h b = ground arith

  end_pop-due :
      (now time : ℕ) (e : Element A) (es : List (Element A)) (delay : ℕ)
      → time ≤ now
      → end_pop now time (holding delay (e ∷ es)) ≡ ok (some (e.value, holding delay es))
  unfolding end_pop
  end_pop-due now time e es delay due = ground arith

  -- A `pop()` waits for the time of the oldest element, while other threads only insert. When it ends,
  -- that time has come, and it returns the value of this element; the others stay in their order,
  -- followed by the inserted ones. And it does end as soon as the time has come.
  pop-oldest :
      (now time : ℕ) (ps : List (ℕ × A)) (q : FixedDelayQueue A)
      → begin_pop q ≡ some time
      → time ≤ now
      → (e : Element A) × (es : List (Element A)) × (q.queue ≡ e ∷ es)
        × (e.when ≤ now)
        × (end_pop now time (push_all ps q)
            ≡ ok (some (e.value, record { queue = es ++ elements q.delay ps; delay = q.delay })))
  pop-oldest now time ps q b due = elim (List-cases q.queue) [
    | inl no_element ↦ absurd (begin_pop-none q time no_element b)
    | inr (e, es, h) ↦
        let waited : (e.when ≡ time) = begin_pop-some q e es time h b in
        (
          e,
          es,
          h,
          omega arith,
          ap (end_pop now time) (push_all-eq ps q (e ∷ es) h)
              ∙ end_pop-due now time e (es ++ elements q.delay ps) q.delay due,
        )
  ]

  -- Two threads that both wait for the time of the oldest element of a queue with at least two: when
  -- that time has come, the first one returns the oldest value, and the second one returns the next
  -- value, though its time is still to come.
  rival_is_early :
      (q : FixedDelayQueue A) (e f : Element A) (fs : List (Element A))
      → q.queue ≡ e ∷ f ∷ fs
      → e.when < f.when
      → (time : ℕ) × (r s : FixedDelayQueue A) × (begin_pop q ≡ some time)
        × (end_pop time time q ≡ ok (some (e.value, r)))
        × (end_pop time time r ≡ ok (some (f.value, s)))
        × (time < f.when)
  unfolding begin_pop end_pop
  rival_is_early q e f fs h early =
      let first : (ltb e.when e.when ≡ false) = ground arith in
      (
        e.when,
        holding q.delay (f ∷ fs),
        holding q.delay fs,
        ground arith,
        ground arith,
        ground arith,
        early,
      )
