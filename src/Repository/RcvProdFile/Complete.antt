-- ===== src/Repository/RcvProdFile/Complete.antt =====
-- When `isComplete()` says so, the file holds the product.
use Prim.Native.String.{String}
use native.Mathlib.Nat.{div-add-mod', mod-lt}
use hycast.Prelude.{
  ℕ, not, ◌+◌, ◌-◌, ◌*◌, ◌/◌, ◌%◌, ◌^◌, ◌≤◌, ◌<◌, ◌≡◌, ap, ◌∙◌, inl, inr, true, false, ◌&&◌, List,
  [], ◌∷◌, arith, ◌==◌, ltb, if◌then◌else◌, ok, length, replicate, Bool-cases, length-replicate,
  get_or-replicate, get_or,
}
use hycast.Repository.ProdFile.{ProdFile, geometry, seg_index, seg_len, is_offset}
use hycast.Repository.ProdFile
use hycast.Repository.ProdFile.Geometry.{lengths_agree}
use hycast.Repository.RcvProdFile.{RcvProdFile, new, is_complete}
use hycast.Repository.RcvProdFile.Flags.{marked, marked-le, marked-replicate, marked_all}
use hycast.Repository.RcvProdFile.Threads.{System, IsIn, Reach, Inv, Reach-Inv}

-- What the constructor gives.
pub new-state :
    (to_string : ℕ → String) (index prod_size seg_size : ℕ) (s : RcvProdFile)
    → new to_string index prod_size seg_size ≡ ok s
    → (s.file ≡ geometry prod_size seg_size)
      × (s.have_segs ≡ replicate (geometry prod_size seg_size).num_segs false)
      × (s.seg_count ≡ 0)
unfolding new ProdFile.new
new-state to_string index prod_size seg_size s e =
    elim (Bool-cases (not (prod_size == 0) && seg_size == 0)) [
      | inl bad ↦ absurd (let e' = rw bad at e in cc)
      | inr good ↦ let e' = rw good at e in (cc, cc, cc)
    ]

nothing_in : (o : ℕ) (ps : List ℕ) → length ps ≡ 0 → IsIn o ps → ⊥
nothing_in o [] e h = h
nothing_in o (p ∷ ps) e h = omega arith

pub complete-counts : (s : RcvProdFile) → is_complete s ≡ true → s.seg_count ≡ s.file.num_segs
unfolding is_complete
complete-counts s e = ground arith

module _ (source : ℕ → ℕ) (prod_size seg_size : ℕ) (pos : 0 < seg_size)
    (fits : prod_size + seg_size ≤ 2 ^ 32) where
  length_at_covers :
      (j : ℕ)
      → j / seg_size * seg_size + j % seg_size ≡ j
      → j % seg_size < seg_size
      → j < prod_size
      → j
        < j / seg_size * seg_size
          + (if ltb prod_size (j / seg_size * seg_size + seg_size)
              then prod_size - j / seg_size * seg_size
              else seg_size)
  length_at_covers j whole rest lt = ground arith

  none_marked :
      (s : RcvProdFile) (o : ℕ)
      → (s.have_segs ≡ replicate (geometry prod_size seg_size).num_segs false)
      → get_or s.have_segs (seg_index o (geometry prod_size seg_size)) false ≡ true
      → ⊥
  none_marked s o h g =
      let n = (geometry prod_size seg_size).num_segs in
      let none_yet = get_or-replicate n (seg_index o (geometry prod_size seg_size)) false in
      let g' = rw h at g in cc

  pub new-Inv :
      (s : RcvProdFile)
      → (s.file ≡ geometry prod_size seg_size)
      → (s.have_segs ≡ replicate (geometry prod_size seg_size).num_segs false)
      → (s.seg_count ≡ 0)
      → Inv source prod_size seg_size (record { state = s; pending = [] })
  new-Inv s f h c =
      let n = (geometry prod_size seg_size).num_segs in
      record {
        same_file = f;
        width = ap length h ∙ length-replicate n false;
        counted = omega (arith, ap marked h, marked-replicate n, c);
        written = λ o k g. absurd (none_marked s o h g);
      }

  -- A byte of a segment that is marked, while none is pending.
  byte_written :
      (m : System) (j : ℕ)
      → Inv source prod_size seg_size m
      → length m.pending ≡ 0
      → length m.state.have_segs ≤ marked m.state.have_segs
      → j < prod_size
      → m.state.bytes j ≡ source j
  byte_written m j v none_waits all lt =
      let whole = div-add-mod' j seg_size in
      let rest = mod-lt j pos in
      let start : (j / seg_size * seg_size < prod_size) = omega arith in
      let (is_one, index, below, len, _) =
        lengths_agree prod_size seg_size pos fits (j / seg_size) start in
      let i = j / seg_size in
      let mark = marked_all m.state.have_segs i all (omega (arith, v.width)) in
      elim (v.written (i * seg_size) is_one (rw index mark)) [
        | inl waits ↦ absurd (nothing_in (i * seg_size) m.pending none_waits waits)
        | inr done ↦ done j (omega arith) (rw len (length_at_covers j whole rest lt))
      ]

  -- With all segments counted none is pending, and every byte is right.
  pub all_counted :
      (m : System)
      → Inv source prod_size seg_size m
      → m.state.seg_count ≡ m.state.file.num_segs
      → (length m.pending ≡ 0) × ((j : ℕ) → j < prod_size → m.state.bytes j ≡ source j)
  all_counted m v full =
      let few = marked-le m.state.have_segs in
      let same = ap (λ (f : ProdFile). f.num_segs) v.same_file in
      let none_waits : (length m.pending ≡ 0) = omega (arith, v.counted, v.width) in
      (none_waits, λ j lt. byte_written m j v none_waits (omega (arith, v.counted, v.width)) lt)

  -- Threads start from a new file, for a product with a positive segment-size and sizes whose
  -- sum is at most 2 ^ 32, and save product-information, and segments with the bytes of the
  -- product, in any interleaving of their sections. Whenever `isComplete()` is true, no copy of
  -- a segment is still under way, and every byte of the file is the byte of the product.
  pub complete_is_product :
      (to_string : ℕ → String) (index : ℕ) (s : RcvProdFile) (m : System)
      → new to_string index prod_size seg_size ≡ ok s
      → Reach source prod_size seg_size (record { state = s; pending = [] }) m
      → is_complete m.state ≡ true
      → (length m.pending ≡ 0) × ((j : ℕ) → j < prod_size → m.state.bytes j ≡ source j)
  complete_is_product to_string index s m e r c =
      let (f, h, z) = new-state to_string index prod_size seg_size s e in
      all_counted m (Reach-Inv source prod_size seg_size pos fits (new-Inv s f h z) r)
        (complete-counts m.state c)
