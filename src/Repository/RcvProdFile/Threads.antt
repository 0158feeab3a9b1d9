-- ===== src/Repository/RcvProdFile/Threads.antt =====
-- Several threads that save segments of one product at the same time: each section under the mutex is
-- a step, and the segments between their two sections are pending.
use hycast.Prelude.{
  ℕ, suc, ◌+◌, ◌-◌, ◌*◌, ◌%◌, ◌^◌, ◌≤◌, ◌<◌, ◌≡◌, refl, sym, ap, ◌∙◌, ◌⊎◌, inl, inr, Bool, true,
  false, List, [], ◌∷◌, ◌++◌, arith, ltb, leb, ◌&&◌, Bool-cases, ok, get_or, set, length,
  length-set, get_or-set_ne, ℕ_discrete,
}
use hycast.Repository.ProdFile.{ProdFile, geometry, seg_index, seg_len, is_offset}
use hycast.Repository.ProdFile.Geometry.{offset-index, num_segs-lt}
use hycast.Repository.RcvProdFile.{ProdInfo, RcvProdFile, save_info, claim, finish}
use hycast.Repository.RcvProdFile.Flags.{marked, marked-le, marked-set}

pub record System : Type 0 where
  pub state : RcvProdFile
  pub pending : List ℕ

abbrev pub IsIn : ℕ → List ℕ → Type 0
IsIn o [] = ⊥
IsIn o (p ∷ ps) = (o ≡ p) ⊎ IsIn o ps

IsIn-without :
    (o p : ℕ) (before after : List ℕ)
    → IsIn o (before ++ p ∷ after)
    → (o ≡ p) ⊎ IsIn o (before ++ after)
IsIn-without o p [] after h = h
IsIn-without o p (q ∷ before) after (inl e) = inr (inl e)
IsIn-without o p (q ∷ before) after (inr h) = elim (IsIn-without o p before after h) [
  | inl e ↦ inl e
  | inr k ↦ inr (inr k)
]

length-without :
    (p : ℕ) (before after : List ℕ) → length (before ++ p ∷ after) ≡ suc (length (before ++ after))
length-without p [] after = refl
length-without p (q ∷ before) after = ap suc (length-without p before after)

-- The product has the bytes `source` at its `prod_size` positions.
module _ (source : ℕ → ℕ) (prod_size seg_size : ℕ) where
  abbrev pub file : ProdFile
  file = geometry prod_size seg_size

  -- A thread claims a segment that is new, a thread with a pending segment copies its data and counts
  -- it, or a thread saves the product-information.
  pub data Step (m n : System) : Type 0 where
    claims :
        (offset size : ℕ)
        → claim offset size m.state ≡ ok (true, n.state)
        → n.pending ≡ offset ∷ m.pending
        → Step m n
    finishes :
        (offset : ℕ) (before after : List ℕ)
        → m.pending ≡ before ++ offset ∷ after
        → n.state ≡ finish offset (seg_len offset file) (λ j. source (offset + j)) m.state
        → n.pending ≡ before ++ after
        → Step m n
    saves_info :
        (renames answer : Bool) (info : ProdInfo)
        → save_info renames info m.state ≡ ok (answer, n.state)
        → n.pending ≡ m.pending
        → Step m n

  pub data Reach (m : System) : System → Type 0 where
    rests : Reach m m
    moves : {o n : System} → Step n o → Reach m n → Reach m o

  -- The segment at the offset has the product's bytes.
  abbrev pub IsWritten : ℕ → RcvProdFile → Type 0
  IsWritten offset s =
      (j : ℕ) → offset ≤ j → j < offset + seg_len offset file → s.bytes j ≡ source j

  pub record Inv (m : System) : Type 0 where
    pub same_file : m.state.file ≡ file
    pub width : length m.state.have_segs ≡ file.num_segs
    pub counted : marked m.state.have_segs ≡ m.state.seg_count + length m.pending
    pub written :
        (offset : ℕ)
        → is_offset offset file ≡ true
        → get_or m.state.have_segs (seg_index offset file) false ≡ true
        → IsIn offset m.pending ⊎ IsWritten offset m.state

  -- What a successful claim tells.
  claim-ok :
      (offset size : ℕ) (s t : RcvProdFile)
      → claim offset size s ≡ ok (true, t)
      → (is_offset offset s.file ≡ true)
        × (get_or s.have_segs (seg_index offset s.file) false ≡ false)
        × (t.have_segs ≡ set s.have_segs (seg_index offset s.file) true)
        × (t.file ≡ s.file)
        × (t.seg_count ≡ s.seg_count)
        × (t.bytes ≡ s.bytes)
  unfolding claim
  claim-ok offset size s t e = ground arith

  finish-keeps :
      (offset size : ℕ) (bytes : ℕ → ℕ) (s : RcvProdFile)
      → ((finish offset size bytes s).file ≡ s.file)
        × ((finish offset size bytes s).have_segs ≡ s.have_segs)
        × ((finish offset size bytes s).seg_count ≡ (s.seg_count + 1) % 2 ^ 32)
  unfolding finish
  finish-keeps offset size bytes s = (refl, refl, refl)

  save_info-keeps :
      (renames answer : Bool) (info : ProdInfo) (s t : RcvProdFile)
      → save_info renames info s ≡ ok (answer, t)
      → (t.file ≡ s.file)
        × (t.have_segs ≡ s.have_segs)
        × (t.seg_count ≡ s.seg_count)
        × (t.bytes ≡ s.bytes)
  unfolding save_info
  save_info-keeps renames answer info s t e = ground arith

  module _ (pos : 0 < seg_size) (fits : prod_size + seg_size ≤ 2 ^ 32) where
    claims-Inv :
        (m n : System) (offset size : ℕ)
        → claim offset size m.state ≡ ok (true, n.state)
        → n.pending ≡ offset ∷ m.pending
        → Inv m
        → Inv n
    claims-Inv m n offset size e p v =
        let (is_one, free, marks, same, count, copied) = claim-ok offset size m.state n.state e in
        let ok_offset : (is_offset offset file ≡ true) = rw v.same_file at is_one in
        let (at, lt) = offset-index prod_size seg_size pos fits offset ok_offset in
        let k = seg_index offset file in
        let bs = m.state.have_segs in
        let free' : (get_or bs k false ≡ false) = rw v.same_file at free in
        let flags : (n.state.have_segs ≡ set bs k true) = rw v.same_file at marks in
        record {
          same_file = same ∙ v.same_file;
          width = rw flags (length-set bs k true ∙ v.width);
          counted = omega (
            arith,
            ap marked flags,
            marked-set bs k (rw v.width lt) free',
            ap length p,
            count,
            v.counted,
          );
          written = λ o h g. elim (ℕ_discrete k (seg_index o file)) [
            | yes hit ↦
                let (at', lt') = offset-index prod_size seg_size pos fits o h in
                inl (rw p (inl (at' ∙ ap (λ (i : ℕ). i * seg_size) (sym hit) ∙ sym at)))
            | no miss ↦
                let kept = get_or-set_ne bs k (seg_index o file) true false miss in
                elim (v.written o h (sym kept ∙ (rw flags at g))) [
                  | inl waits ↦ inl (rw p (inr waits))
                  | inr done ↦ inr (rw copied done)
                ]
          ];
        }

    -- The copy of a segment leaves the others as they are, and makes its own right.
    finish-bytes :
        (offset : ℕ) (s : RcvProdFile) (j : ℕ)
        → (offset ≤ j
            → j < offset + seg_len offset file
            → (finish offset (seg_len offset file) (λ i. source (offset + i)) s).bytes j ≡ source j)
          × (s.bytes j ≡ source j
              → (finish offset (seg_len offset file) (λ i. source (offset + i)) s).bytes j
                ≡ source j)
    unfolding finish
    finish-bytes offset s j =
        let n = seg_len offset file in
        elim (Bool-cases (leb offset j && ltb j (offset + n))) [
          | inl in_range ↦
              let e : (offset + (j - offset) ≡ j) = ground arith in
              rw in_range ((λ lo hi. ap source e), (λ old. ap source e))
          | inr outside ↦ rw outside ((λ lo hi. absurd (ground arith)), (λ old. old))
        ]

    finishes-Inv :
        (m n : System) (offset : ℕ) (before after : List ℕ)
        → m.pending ≡ before ++ offset ∷ after
        → n.state ≡ finish offset (seg_len offset file) (λ j. source (offset + j)) m.state
        → n.pending ≡ before ++ after
        → Inv m
        → Inv n
    finishes-Inv m n offset before after p e q v =
        let done = finish offset (seg_len offset file) (λ j. source (offset + j)) m.state in
        let (same, marks, count) =
          finish-keeps offset (seg_len offset file) (λ j. source (offset + j)) m.state in
        let few = marked-le m.state.have_segs in
        let bound = num_segs-lt prod_size seg_size pos fits in
        let shorter = length-without offset before after in
        rw e (record {
          same_file = same ∙ v.same_file;
          width = ap length marks ∙ v.width;
          counted = omega (
            arith,
            v.counted,
            v.width,
            ap marked marks,
            count,
            few,
            bound,
            shorter,
            ap length p,
            ap length q,
          );
          written = λ o h g. elim (v.written o h (rw marks at g)) [
            | inr old ↦ inr (λ j lo hi. (finish-bytes offset m.state j).1 (old j lo hi))
            | inl waits ↦ elim (IsIn-without o offset before after (rw p at waits)) [
              | inl this ↦
                  inr (λ j lo hi. (finish-bytes offset m.state j).0 (rw this at lo) (rw this at hi))
              | inr other ↦ inl (rw q other)
            ]
          ];
        })

    Step-Inv : (m n : System) → Step m n → Inv m → Inv n
    Step-Inv m n (claims offset size e p) v = claims-Inv m n offset size e p v
    Step-Inv m n (finishes offset before after p e q) v =
        finishes-Inv m n offset before after p e q v
    Step-Inv m n (saves_info renames answer info e p) v =
        let (same, marks, count, copied) = save_info-keeps renames answer info m.state n.state e in
        record {
          same_file = same ∙ v.same_file;
          width = ap length marks ∙ v.width;
          counted = omega (arith, v.counted, ap marked marks, count, ap length p);
          written = λ o h g. elim (v.written o h (rw marks at g)) [
            | inl waits ↦ inl (rw p waits)
            | inr done ↦ inr (rw copied done)
          ];
        }

    -- For a positive segment-size, and sizes whose sum is at most 2 ^ 32: if a state of the
    -- system satisfies the invariant, so does each state that threads reach from it by any
    -- interleaving of their sections. The invariant says that there is a mark for each
    -- segment, that the marks are as many as the segments counted and those pending, and that
    -- each marked segment is pending or has the bytes of the product.
    pub Reach-Inv : {m n : System} → Inv m → Reach m n → Inv n
    Reach-Inv v rests = v
    Reach-Inv {m = m} {n = o} v (moves {n = n} s r) = Step-Inv n o s (Reach-Inv v r)
