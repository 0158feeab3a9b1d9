-- ===== src/Repository/ProdFile/Geometry.antt =====
-- The segments of a product: how many there are, and how long each is.
use hycast.Prelude.{
  ℕ, ◌+◌, ◌-◌, ◌*◌, ◌/◌, ◌%◌, ◌^◌, ◌≤◌, ◌<◌, ◌≡◌, refl, sym, ap, ◌∙◌, dec_lt, true, false, arith,
  ◌==◌, ltb, if◌then◌else◌, ok,
}
use native.Mathlib.Nat.{
  div-add-mod', mod-lt, mul-div_cancel, mul-mod_left, mul-add-mod_self_right, mod-eq_of_lt,
  div-eq_of_lt,
}
use hycast.Repository.ProdFile.{ProdFile, geometry, seg_index, seg_len, is_offset, get_seg_size}

mul_mono : (a b c : ℕ) → a ≤ b → a * c ≤ b * c
mul_mono a b c h = grind arith

-- A product of `prod_size` bytes in segments of `seg_size` bytes, with sums that fit.
module _ (prod_size seg_size : ℕ) (pos : 0 < seg_size) (fits : prod_size + seg_size ≤ 2 ^ 32) where
  abbrev file : ProdFile
  file = geometry prod_size seg_size

  seg_size-file : file.seg_size ≡ seg_size
  unfolding geometry
  seg_size-file = refl

  prod_size-file : file.prod_size ≡ prod_size
  unfolding geometry
  prod_size-file = refl

  num_segs-eq : file.num_segs ≡ (prod_size + seg_size - 1) / seg_size
  unfolding geometry
  num_segs-eq =
      let wrapped : ((prod_size + seg_size + 2 ^ 32 - 1) % 2 ^ 32 ≡ prod_size + seg_size - 1) =
        omega arith in
      let some_size : ((seg_size == 0) ≡ false) = ground arith in rw (some_size, wrapped) refl

  -- For a positive segment-size, and sizes whose sum is at most 2 ^ 32: the segments cover the
  -- product, and one segment less would not.
  num_segs-covers :
      (prod_size ≤ file.num_segs * seg_size) × (file.num_segs * seg_size < prod_size + seg_size)
  num_segs-covers =
      let whole = div-add-mod' (prod_size + seg_size - 1) seg_size in
      let rest = mod-lt (prod_size + seg_size - 1) pos in rw num_segs-eq (omega arith, omega arith)

  module _ (i : ℕ) (h : i * seg_size < prod_size) where
    index-lt-num_segs : i < file.num_segs
    index-lt-num_segs =
        let covers = num_segs-covers.0 in
        elim (dec_lt i file.num_segs) [
          | yes lt ↦ lt
          | no ge ↦
              let more = mul_mono file.num_segs i seg_size (omega arith) in absurd (omega arith)
        ]

    -- The two cases of the length: a segment that others follow, and the last one.
    inner : i + 1 < file.num_segs → i * seg_size + seg_size < prod_size
    inner lt =
        let covers = num_segs-covers.1 in
        let more = mul_mono (i + 2) file.num_segs seg_size (omega arith) in omega arith

    outer : file.num_segs ≡ i + 1 → prod_size ≤ i * seg_size + seg_size
    outer e =
        let covers = num_segs-covers.0 in let same = ap (λ (n : ℕ). n * seg_size) e in omega arith

    last_length :
        prod_size ≤ i * seg_size + seg_size
        → file.last_seg_size
          ≡ (if ltb prod_size (i * seg_size + seg_size) then prod_size - i * seg_size else seg_size)
    unfolding geometry
    last_length le = elim (dec_lt prod_size (i * seg_size + seg_size)) [
      | yes short ↦
          let part = mul-add-mod_self_right i seg_size (prod_size - i * seg_size) in
          let small = mod-eq_of_lt {n = prod_size - i * seg_size} {m = seg_size} (omega arith) in
          let sum : (i * seg_size + (prod_size - i * seg_size) ≡ prod_size) = omega arith in
          let left : (prod_size % seg_size ≡ prod_size - i * seg_size) = rw sum at (part ∙ small) in
          ground arith
      | no long ↦
          let sum : ((i + 1) * seg_size ≡ prod_size) = omega arith in
          let left : (prod_size % seg_size ≡ 0) = rw sum at (mul-mod_left (i + 1) seg_size) in
          ground arith
    ]

    -- The least of the canonical length and what is left of the product.
    abbrev pub length_at : ℕ
    length_at =
        if ltb prod_size (i * seg_size + seg_size) then prod_size - i * seg_size else seg_size

    index-lt : i < prod_size
    index-lt = let more = mul_mono 1 seg_size i pos in omega (arith)

    seg_index-offset : seg_index (i * seg_size) file ≡ i
    unfolding seg_index geometry
    seg_index-offset = mul-div_cancel i pos

    is_offset-index : is_offset (i * seg_size) file ≡ true
    unfolding is_offset geometry
    is_offset-index = ground (arith, mul-mod_left i seg_size)

    seg_len-offset : seg_len (i * seg_size) file ≡ length_at
    unfolding seg_len geometry
    seg_len-offset =
        let small = index-lt in
        let wrap : ((i + 1) % 2 ^ 32 ≡ i + 1) = omega arith in
        rw (seg_index-offset, wrap)
          (elim (dec_lt (i + 1) file.num_segs) [
            | yes lt ↦ let more = inner lt in ground (arith, seg_size-file)
            | no ge ↦
                let bound = index-lt-num_segs in
                let le = outer (omega arith) in ground (arith, last_length le)
          ])

    get_seg_size-offset : get_seg_size (i * seg_size) file ≡ ok length_at
    unfolding get_seg_size
    get_seg_size-offset =
        let wrap : ((i * seg_size + seg_size) % 2 ^ 32 ≡ i * seg_size + seg_size) = omega arith in
        rw (is_offset-index, seg_size-file, prod_size-file, wrap) refl

    -- For a positive segment-size, and sizes whose sum is at most 2 ^ 32, at the offset of
    -- each segment inside the product: the offset passes the check, it has the index that it
    -- should have, below the number of segments, and both ways to compute the segment's
    -- length give the least of the segment-size and what is left of the product.
    pub lengths_agree :
        (is_offset (i * seg_size) file ≡ true)
        × (seg_index (i * seg_size) file ≡ i)
        × (i < file.num_segs)
        × (seg_len (i * seg_size) file ≡ length_at)
        × (get_seg_size (i * seg_size) file ≡ ok length_at)
    lengths_agree =
        (is_offset-index, seg_index-offset, index-lt-num_segs, seg_len-offset, get_seg_size-offset)

  is_offset-facts :
      (offset : ℕ) → is_offset offset file ≡ true → (offset < prod_size) × (offset % seg_size ≡ 0)
  unfolding is_offset geometry
  is_offset-facts offset h = ground arith

  seg_index-file : (offset : ℕ) → seg_index offset file ≡ offset / seg_size
  unfolding seg_index geometry
  seg_index-file offset = refl

  -- An offset that passes the check is that of the segment with its index.
  pub offset-index :
      (offset : ℕ)
      → is_offset offset file ≡ true
      → (offset ≡ seg_index offset file * seg_size) × (seg_index offset file < file.num_segs)
  offset-index offset h =
      let (lt, zero_rest) = is_offset-facts offset h in
      let whole = div-add-mod' offset seg_size in
      let e : (offset / seg_size * seg_size ≡ offset) = omega arith in
      rw seg_index-file (sym e, index-lt-num_segs (offset / seg_size) (rw e lt))

  pub num_segs-lt : file.num_segs < 2 ^ 32
  num_segs-lt =
      let covers = num_segs-covers.1 in
      let more = mul_mono 1 seg_size file.num_segs pos in omega arith

-- Where the sum of a product-size of 32 bits and a positive segment-size of 16 bits is more than
-- 2 ^ 32, the number of segments comes out as 0, though the product is not empty.
num_segs_wraps :
    (prod_size seg_size : ℕ)
    → prod_size < 2 ^ 32
    → 0 < seg_size
    → seg_size < 2 ^ 16
    → 2 ^ 32 < prod_size + seg_size
    → (geometry prod_size seg_size).num_segs ≡ 0
unfolding geometry
num_segs_wraps prod_size seg_size lt pos small over =
    let wrapped : ((prod_size + seg_size + 2 ^ 32 - 1) % 2 ^ 32 < seg_size) = omega arith in
    let some_size : ((seg_size == 0) ≡ false) = ground arith in rw some_size (div-eq_of_lt wrapped)
