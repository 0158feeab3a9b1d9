-- ===== src/Repository/SubRepo/Savers.antt =====
-- Any number of threads in `save()` of a subscriber's repository (main/repository/Repository.cpp) for one
-- product. Each of the file's sections under its mutex is a step, then the call of `isComplete()` by a
-- thread that has saved something, then the call of `finish()`.
use Prim.Native.String.{String}
use hycast.Prelude.{
  ℕ, suc, ◌+◌, ◌^◌, ◌≤◌, ◌<◌, ◌≡◌, refl, ap, ◌∙◌, Bool, true, false, List, [], ◌∷◌, ◌++◌, arith,
  not, ◌&&◌, ◌==◌, ok, length, length-append, ◌⊎◌, inl, inr, Bool-cases, if◌then◌else◌,
}
use hycast.Repository.ProdFile
use hycast.Repository.RcvProdFile.{
  ProdInfo, RcvProdFile, new, is_complete, get_prod_info, save_info, claim,
}
use hycast.Repository.RcvProdFile.Flags.{marked-le}
use hycast.Repository.RcvProdFile.Threads.{
  System, Step, claims, finishes, saves_info, Reach, rests, moves, Inv, Reach-Inv,
}
use hycast.Repository.RcvProdFile.Complete.{new-state, new-Inv, complete-counts, all_counted}

-- The file with the copies under way; how many threads have saved something and not yet called
-- `isComplete()`, and how many have found that true and not yet called `finish()`; and the queue, from which nothing is
-- taken.
pub record Savers : Type 0 where
  pub files : System
  pub untested : ℕ
  pub found : ℕ
  pub queue : List ProdInfo

-- The entries that the queue has, and those that may still come.
abbrev pub total : Savers → ℕ
total m = m.untested + m.found + length m.queue

-- A new file, with nobody in `save()` and nothing in the queue.
abbrev pub at_start : RcvProdFile → Savers
at_start s = record {
  files = record { state = s; pending = [] };
  untested = 0;
  found = 0;
  queue = [];
}

module _ (source : ℕ → ℕ) (prod_size seg_size : ℕ) where
  -- Whether the section ends a `save()` of the file that returns true.
  abbrev pub new_saves : {m n : System} → Step source prod_size seg_size m n → ℕ
  new_saves (claims offset size e p) = 0
  new_saves (finishes offset before after p e q) = 1
  new_saves (saves_info renames true info e p) = 1
  new_saves (saves_info renames false info e p) = 0

  pub data Saving (m n : Savers) : Type 0 where
    acts :
        (s : Step source prod_size seg_size m.files n.files)
        → n.untested ≡ m.untested + new_saves s
        → n.found ≡ m.found
        → n.queue ≡ m.queue
        → Saving m n
    tests :
        m.untested ≡ suc n.untested
        → n.files ≡ m.files
        → n.found ≡ (if is_complete m.files.state then m.found + 1 else m.found)
        → n.queue ≡ m.queue
        → Saving m n
    queues :
        m.found ≡ suc n.found
        → n.files ≡ m.files
        → n.untested ≡ m.untested
        → n.queue ≡ m.queue ++ get_prod_info m.files.state ∷ []
        → Saving m n

  pub data Run (m : Savers) : Savers → Type 0 where
    starts : Run m m
    goes : {n o : Savers} → Run m n → Saving n o → Run m o

  Run-Reach : {m n : Savers} → Run m n → Reach source prod_size seg_size m.files n.files
  Run-Reach starts = rests
  Run-Reach {m = m} (goes r (acts s u f q)) = moves s (Run-Reach r)
  Run-Reach {m = m} (goes {n} r (tests u same f q)) = rw same (Run-Reach r)
  Run-Reach {m = m} (goes {n} r (queues f same u q)) = rw same (Run-Reach r)

claim-same :
    (offset size : ℕ) (s t : RcvProdFile)
    → claim offset size s ≡ ok (true, t)
    → (t.seg_count ≡ s.seg_count) × (t.file ≡ s.file) × (is_complete t ≡ is_complete s)
unfolding claim is_complete
claim-same offset size s t e = ground arith

save_info-known :
    (renames : Bool) (info : ProdInfo) (s t : RcvProdFile)
    → save_info renames info s ≡ ok (false, t)
    → t ≡ s
unfolding save_info
save_info-known renames info s t e = ground arith

save_info-incomplete :
    (renames : Bool) (info : ProdInfo) (s t : RcvProdFile)
    → save_info renames info s ≡ ok (true, t)
    → is_complete s ≡ false
unfolding save_info is_complete
save_info-incomplete renames info s t e = ground arith

new-incomplete :
    (to_string : ℕ → String) (index prod_size seg_size : ℕ) (s : RcvProdFile)
    → new to_string index prod_size seg_size ≡ ok s
    → is_complete s ≡ false
unfolding new ProdFile.new is_complete
new-incomplete to_string index prod_size seg_size s e =
    elim (Bool-cases (not (prod_size == 0) && seg_size == 0)) [
      | inl bad ↦ absurd (let e' = rw bad at e in cc)
      | inr good ↦ let e' = rw good at e in ground arith
    ]

empty_queue : (found : ℕ) (q : List ProdInfo) → found + length q ≡ 0 → q ≡ []
empty_queue found [] e = refl
empty_queue found (i ∷ q) e = absurd (omega arith)

module _ (source : ℕ → ℕ) (prod_size seg_size : ℕ) (pos : 0 < seg_size)
    (fits : prod_size + seg_size ≤ 2 ^ 32) where
  -- Once the product is complete, nothing more is saved.
  act_complete :
      (m n : System) (s : Step source prod_size seg_size m n)
      → Inv source prod_size seg_size m
      → Inv source prod_size seg_size n
      → is_complete m.state ≡ true
      → (is_complete n.state ≡ true) × (new_saves source prod_size seg_size s ≡ 0)
  act_complete m n (claims offset size e p) v w c =
      let full = complete-counts m.state c in
      let (count, same, _) = claim-same offset size m.state n.state e in
      let (none_waits, _) = all_counted source prod_size seg_size pos fits m v full in
      let num = ap (λ (f : _). f.num_segs) v.same_file in
      let few = marked-le n.state.have_segs in
      absurd (omega (arith, w.counted, w.width, num, full, count, ap length p, none_waits, few))
  act_complete m n (finishes offset before after p e q) v w c =
      let full = complete-counts m.state c in
      let (none_waits, _) = all_counted source prod_size seg_size pos fits m v full in
      absurd (some_wait before (ap length p) none_waits)
    where
      some_wait : {k : ℕ} (l : List ℕ) → k ≡ length (l ++ offset ∷ after) → k ≡ 0 → ⊥
      some_wait [] e z = omega arith
      some_wait (x ∷ l) e z = omega arith
  act_complete m n (saves_info renames true info e p) v w c =
      absurd (let no = save_info-incomplete renames info m.state n.state e in cc)
  act_complete m n (saves_info renames false info e p) v w c =
      (ap is_complete (save_info-known renames info m.state n.state e) ∙ c, refl)

  -- The section that completes the product saves something.
  act_completes :
      (m n : System) (s : Step source prod_size seg_size m n)
      → is_complete m.state ≡ false
      → is_complete n.state ≡ true
      → new_saves source prod_size seg_size s ≡ 1
  act_completes m n (claims offset size e p) c d =
      let (_, _, same) = claim-same offset size m.state n.state e in absurd (cc)
  act_completes m n (finishes offset before after p e q) c d = refl
  act_completes m n (saves_info renames true info e p) c d = refl
  act_completes m n (saves_info renames false info e p) c d =
      let same = ap is_complete (save_info-known renames info m.state n.state e) in absurd (cc)

  record Sound (m : Savers) : Type 0 where
    inv : Inv source prod_size seg_size m.files
    early : is_complete m.files.state ≡ false → m.found + length m.queue ≡ 0
    late : is_complete m.files.state ≡ true → 1 ≤ total m

  -- Once the product is complete, the entries and those still to come are a fixed number.
  Saving-complete :
      (m n : Savers)
      → Saving source prod_size seg_size m n
      → Inv source prod_size seg_size m.files
      → Inv source prod_size seg_size n.files
      → is_complete m.files.state ≡ true
      → (is_complete n.files.state ≡ true) × (total n ≡ total m)
  Saving-complete m n (acts s u f q) v w c =
      let (still, nothing) = act_complete m.files n.files s v w c in
      (still, omega (arith, u, f, ap length q, nothing))
  Saving-complete m n (tests u same f q) v w c =
      let f' = rw c at f in
      (ap (λ (x : System). is_complete x.state) same ∙ c, omega (arith, u, f', ap length q))
  Saving-complete m n (queues f same u q) v w c =
      let more = ap length q ∙ length-append m.queue (get_prod_info m.files.state ∷ []) in
      (ap (λ (x : System). is_complete x.state) same ∙ c, omega (arith, u, f, more))

  Saving-Inv :
      (m n : Savers)
      → Saving source prod_size seg_size m n
      → Inv source prod_size seg_size m.files
      → Inv source prod_size seg_size n.files
  Saving-Inv m n (acts s u f q) v = Reach-Inv source prod_size seg_size pos fits v (moves s rests)
  Saving-Inv m n (tests u same f q) v = rw same v
  Saving-Inv m n (queues f same u q) v = rw same v

  -- Before the product is complete, nothing is found so or put into the queue.
  Saving-early :
      (m n : Savers)
      → Saving source prod_size seg_size m n
      → Sound m
      → is_complete m.files.state ≡ false
      → n.found + length n.queue ≡ 0
  Saving-early m n (acts s u f q) v c =
      let none_yet = v.early c in omega (arith, f, ap length q, none_yet)
  Saving-early m n (tests u same f q) v c =
      let none_yet = v.early c in let f' = rw c at f in omega (arith, f', ap length q, none_yet)
  Saving-early m n (queues f same u q) v c =
      let none_yet = v.early c in absurd (omega (arith, f, none_yet))

  Saving-late :
      (m n : Savers)
      → Saving source prod_size seg_size m n
      → is_complete m.files.state ≡ false
      → is_complete n.files.state ≡ true
      → 1 ≤ total n
  Saving-late m n (acts s u f q) c d =
      let one = act_completes m.files n.files s c d in omega (arith, u, one)
  Saving-late m n (tests u same f q) c d =
      let e = ap (λ (x : System). is_complete x.state) same in absurd (cc)
  Saving-late m n (queues f same u q) c d =
      let e = ap (λ (x : System). is_complete x.state) same in absurd (cc)

  Saving-Sound : (m n : Savers) → Saving source prod_size seg_size m n → Sound m → Sound n
  Saving-Sound m n s v =
      let w = Saving-Inv m n s v.inv in
      elim (Bool-cases (is_complete m.files.state)) [
        | inl c ↦
            let (still, same) = Saving-complete m n s v.inv w c in
            record {
              inv = w;
              early = λ d. absurd (cc);
              late = λ d. let before = v.late c in omega (arith, same, before);
            }
        | inr c ↦ record {
          inv = w;
          early = λ d. Saving-early m n s v c;
          late = λ d. Saving-late m n s c d;
        }
      ]

  Run-Sound : {m n : Savers} → Run source prod_size seg_size m n → Sound m → Sound n
  Run-Sound starts v = v
  Run-Sound {m} {n = o} (goes {n} r s) v = Saving-Sound n o s (Run-Sound r v)

  Run-complete :
      {m n : Savers}
      → Run source prod_size seg_size m n
      → Sound m
      → is_complete m.files.state ≡ true
      → (is_complete n.files.state ≡ true) × (total n ≡ total m)
  Run-complete starts v c = (c, refl)
  Run-complete {m} {n = o} (goes {n} r s) v c =
      let (c', same) = Run-complete r v c in
      let w = Run-Sound r v in
      let (c'', same') = Saving-complete n o s w.inv (Saving-Inv n o s w.inv) c' in
      (c'', same' ∙ same)

  -- Threads start from a new file, for a product with a positive segment-size and sizes whose sum is at
  -- most 2 ^ 32, and call `save()` of the repository, in any interleaving of its sections, while nobody
  -- takes from the queue. Take any time of such a run, and a later one at which no thread has a test or a
  -- `finish()` left to make. Either the product is not complete at the first time, and nothing is in the
  -- queue then; or it is, and at the later time the queue has as many entries as at the first one, plus
  -- one for each thread that had found the product complete and not called `finish()`, plus one for each
  -- that had saved something and not made its test; and it has at least one.
  pub queued_for_each :
      (to_string : ℕ → String) (index : ℕ) (s : RcvProdFile) (m n : Savers)
      → new to_string index prod_size seg_size ≡ ok s
      → Run source prod_size seg_size (at_start s) m
      → Run source prod_size seg_size m n
      → n.untested ≡ 0
      → n.found ≡ 0
      → ((is_complete m.files.state ≡ false) × (m.queue ≡ []))
        ⊎ ((is_complete m.files.state ≡ true)
            × (length n.queue ≡ length m.queue + m.found + m.untested)
            × (1 ≤ length n.queue))
  queued_for_each to_string index s m n e before after no_test no_finish =
      let (f, h, z) = new-state to_string index prod_size seg_size s e in
      let start : Sound (at_start s) = record {
        inv = new-Inv source prod_size seg_size pos fits s f h z;
        early = λ c. refl;
        late = λ c. let no = new-incomplete to_string index prod_size seg_size s e in absurd (cc);
      } in
      let v = Run-Sound before start in
      elim (Bool-cases (is_complete m.files.state)) [
        | inl c ↦
            let (_, same) = Run-complete after v c in
            let at_least = v.late c in
            inr (
              c,
              omega (arith, same, no_test, no_finish),
              omega (arith, same, no_test, no_finish, at_least),
            )
        | inr c ↦ inl (c, empty_queue m.found m.queue (v.early c))
      ]
