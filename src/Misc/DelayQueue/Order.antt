-- ===== src/Misc/DelayQueue/Order.antt =====
-- Which value `pop()` of main/misc/DelayQueue.cpp returns, and when.
use mathlib.Core.Path.{subst}
use hycast.Prelude.{
  List-cases, ℕ, ◌≤◌, ◌<◌, ◌≡◌, ◌↔◌, refl, sym, ap, true, false, List, [], ◌∷◌, ◌++◌, arith, leb,
  ltb, if◌then◌else◌, ok, err, domain_error, All, Bool-cases, inl, inr,
}
use hycast.Misc.DelayQueue.{
  Element, DelayQueue, Round, waits, waits_until, returns, push, top, pop, ready, clear, close,
  Call, pushes, pops, clears, closes, step, run,
}

module _ {A : Type 0} where
  -- All elements have at least this time.
  abbrev pub AtLeast : ℕ → List (Element A) → Type 0
  AtLeast t es = All (λ e. t ≤ e.when) es

  AtLeast-mono : (t u : ℕ) (es : List (Element A)) → u ≤ t → AtLeast t es → AtLeast u es
  AtLeast-mono t u [] le h = tt
  AtLeast-mono t u (e ∷ es) le h = let first = h.0 in (omega arith, AtLeast-mono t u es le h.1)

  -- `rest` is `es` without the element `e`.
  pub record Removes (e : Element A) (es rest : List (Element A)) : Type 0 where
    pub before : List (Element A)
    pub after : List (Element A)
    pub whole : es ≡ before ++ e ∷ after
    pub left : rest ≡ before ++ after

  -- The two cases of a longer list.
  top-first :
      (e f : Element A) (fs : List (Element A))
      → leb e.when (top f fs).0.when ≡ true
      → top e (f ∷ fs) ≡ (e, f ∷ fs)
  unfolding top
  top-first e f fs h = rw h refl

  top-later :
      (e f : Element A) (fs : List (Element A))
      → leb e.when (top f fs).0.when ≡ false
      → top e (f ∷ fs) ≡ ((top f fs).0, e ∷ (top f fs).1)
  unfolding top
  top-later e f fs h = rw h refl

  top-one : (e : Element A) → top e [] ≡ (e, [])
  unfolding top
  top-one e = refl

  abbrev IsTop : Element A × List (Element A) → List (Element A) → Type 0
  IsTop t es = Removes t.0 es t.1 × AtLeast t.0.when es

  -- The top element is one of the queue, and no other has an earlier time.
  top-IsTop : (e : Element A) (es : List (Element A)) → IsTop (top e es) (e ∷ es)
  top-IsTop e [] =
      subst (λ t. IsTop t (e ∷ [])) (sym (top-one e))
        (record { before = []; after = []; whole = refl; left = refl }, (omega arith, tt))
  top-IsTop e (f ∷ fs) =
      let (removes, least) = top-IsTop f fs in
      elim (Bool-cases (leb e.when (top f fs).0.when)) [
        | inl this ↦
            let le : (e.when ≤ (top f fs).0.when) = ground arith in
            subst (λ t. IsTop t (e ∷ f ∷ fs)) (sym (top-first e f fs this))
              (
                record { before = []; after = f ∷ fs; whole = refl; left = refl },
                (omega arith, AtLeast-mono (top f fs).0.when e.when (f ∷ fs) le least),
              )
        | inr other ↦
            let le : ((top f fs).0.when ≤ e.when) = ground arith in
            subst (λ t. IsTop t (e ∷ f ∷ fs)) (sym (top-later e f fs other))
              (
                record {
                  before = e ∷ removes.before;
                  after = removes.after;
                  whole = ap (λ (es : List (Element A)). e ∷ es) removes.whole;
                  left = ap (λ (es : List (Element A)). e ∷ es) removes.left;
                },
                (le, least),
              )
      ]

  pop_of_none :
      (now : ℕ) (q : DelayQueue A)
      → q.is_closed ≡ false
      → q.queue ≡ []
      → (pop now q ≡ ok waits) × (ready now q ≡ false)
  unfolding pop ready
  pop_of_none now q still e = (rw (still, e) refl, rw e refl)

  -- What a call does to an open queue with elements.
  pop_of_some :
      (now : ℕ) (q : DelayQueue A) (f : Element A) (fs : List (Element A))
      → q.is_closed ≡ false
      → q.queue ≡ f ∷ fs
      → (pop now q ≡ (
          if ltb now (top f fs).0.when
          then ok (waits_until (top f fs).0.when)
          else ok
              (returns (top f fs).0.value (record { queue = (top f fs).1; is_closed = false }))))
        × (ready now q ≡ leb (top f fs).0.when now)
  unfolding pop ready
  pop_of_some now q f fs still e = (ground arith, ground arith)

  pop_of_closed : (now : ℕ) (q : DelayQueue A) → q.is_closed ≡ true → pop now q ≡ err domain_error
  unfolding pop
  pop_of_closed now q e = rw e refl

  -- A call that does not throw finds an open queue.
  pop-open :
      (now : ℕ) (q : DelayQueue A) (round : Round A) → pop now q ≡ ok round → q.is_closed ≡ false
  pop-open now q round h = elim (Bool-cases q.is_closed) [
    | inl closed ↦ let thrown = pop_of_closed now q closed in absurd (cc)
    | inr still ↦ still
  ]

  -- If `pop()` returns a value, then it is that of an element of the queue whose time has come and
  -- is the earliest of all, and exactly this element is taken out of the queue.
  pub pop-earliest :
      (now : ℕ) (value : A) (q r : DelayQueue A)
      → pop now q ≡ ok (returns value r)
      → (e : Element A) × (value ≡ e.value)
        × (e.when ≤ now)
        × AtLeast e.when q.queue
        × Removes e q.queue r.queue
  pop-earliest now value q r h =
      let still = pop-open now q (returns value r) h in
      elim (List-cases q.queue) [
        | inl none_left ↦ let waiting = (pop_of_none now q still none_left).0 in absurd (cc)
        | inr (f, fs, e) ↦
            let (popped, _) = pop_of_some now q f fs still e in
            let (removes, least) = top-IsTop f fs in
            elim (Bool-cases (ltb now (top f fs).0.when)) [
              | inl early ↦ let waiting = rw early at popped in absurd (cc)
              | inr due ↦
                  let returned = rw due at popped in
                  let same : (value ≡ (top f fs).0.value) = cc in
                  let rest : (r.queue ≡ (top f fs).1) = cc in
                  ((top f fs).0, same, ground arith, rw e least, rw (e, rest) removes)
            ]
      ]

  -- On an open queue, `ready()` is true exactly if `pop()` returns a value at that time.
  ready-pop :
      (now : ℕ) (q : DelayQueue A)
      → q.is_closed ≡ false
      → (ready now q ≡ true)
        ↔ ((value : A) × (r : DelayQueue A) × (pop now q ≡ ok (returns value r)))
  ready-pop now q still = elim (List-cases q.queue) [
    | inl none_left ↦
        let (waiting, idle) = pop_of_none now q still none_left in
        ((λ h. absurd (cc)), (λ (value, r, h). absurd (cc)))
    | inr (f, fs, e) ↦
        let (popped, due) = pop_of_some now q f fs still e in
        elim (Bool-cases (ltb now (top f fs).0.when)) [
          | inl early ↦
              let waiting = rw early at popped in
              ((λ h. absurd (ground arith)), (λ (value, r, h). absurd (cc)))
          | inr come ↦
              let returned = rw come at popped in
              ((λ h. ((top f fs).0.value, _, returned)), (λ h. ground arith))
        ]
  ]

  -- If `pop()` waits until a time, then that time is later, and a `pop()` at that time of the same
  -- queue returns a value.
  waits_until-returns :
      (now later : ℕ) (q : DelayQueue A)
      → pop now q ≡ ok (waits_until later)
      → (now < later) × ((value : A) × (r : DelayQueue A) × (pop later q ≡ ok (returns value r)))
  waits_until-returns now later q h =
      let still = pop-open now q (waits_until later) h in
      elim (List-cases q.queue) [
        | inl none_left ↦ let waiting = (pop_of_none now q still none_left).0 in absurd (cc)
        | inr (f, fs, e) ↦
            let (popped, _) = pop_of_some now q f fs still e in
            let (popped_later, _) = pop_of_some later q f fs still e in
            elim (Bool-cases (ltb now (top f fs).0.when)) [
              | inl early ↦
                  let waiting = rw early at popped in
                  let until : (later ≡ (top f fs).0.when) = cc in
                  let due : (ltb later (top f fs).0.when ≡ false) = ground arith in
                  (ground arith, ((top f fs).0.value, _, rw due at popped_later))
              | inr come ↦ let returned = rw come at popped in absurd (cc)
            ]
      ]

  step-closed : (c : Call A) (q : DelayQueue A) → q.is_closed ≡ true → (step c q).is_closed ≡ true
  unfolding step push pop clear close
  step-closed (pushes value when) q h = ground arith
  step-closed (pops now) q h = ground arith
  step-closed clears q h = h
  step-closed closes q h = refl

  run-closed :
      (cs : List (Call A)) (q : DelayQueue A) → q.is_closed ≡ true → (run cs q).is_closed ≡ true
  unfolding run
  run-closed [] q h = h
  run-closed (c ∷ cs) q h = step-closed c (run cs q) (run-closed cs q h)

  -- After `close()`, and whatever calls follow it, `push()` and `pop()` throw.
  closed-throws :
      (cs : List (Call A)) (q : DelayQueue A) (value : A) (when now : ℕ)
      → (push value when (run cs (close q)) ≡ err domain_error)
        × (pop now (run cs (close q)) ≡ err domain_error)
  unfolding push close
  closed-throws cs q value when now =
      let closed = run-closed cs (close q) refl in
      (rw closed refl, pop_of_closed now (run cs (close q)) closed)
