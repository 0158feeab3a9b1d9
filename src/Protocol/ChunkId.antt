-- ===== src/Protocol/ChunkId.antt =====
-- `SegId` and `ChunkId` of main/protocol/hycast.h and hycast.cpp. The union in a `ChunkId` is one of
-- two constructors; `SegId` begins with its product-index, where the union holds a product's.
use hycast.Prelude.{ℕ, ◌≡◌, ◌↔◌, Bool, true, false, not, ◌&&◌, arith, ◌==◌, ℕ_discrete}

pub record SegId : Type 0 where
  pub prod_index : ℕ
  pub seg_offset : ℕ

pub data ChunkId : Type 0 where
  prod : ℕ → ChunkId
  seg : SegId → ChunkId

-- `SegId::operator ==()`
unfoldable pub same_seg : SegId → SegId → Bool
same_seg a b = a.prod_index == b.prod_index && a.seg_offset == b.seg_offset

-- `isProdIndex()`
unfoldable pub is_prod : ChunkId → Bool
is_prod (prod index) = true
is_prod (seg id) = false

-- `getProdIndex()` reads the start of the union
unfoldable pub get_prod_index : ChunkId → ℕ
get_prod_index (prod index) = index
get_prod_index (seg id) = id.prod_index

-- `ChunkId::operator ==()`
unfoldable pub same_chunk : ChunkId → ChunkId → Bool
unfolding same_seg
same_chunk (prod a) (prod b) = a == b
same_chunk (seg a) (seg b) = same_seg a b
same_chunk _ _ = false

-- `operator bool()`
unfoldable pub is_valid : ChunkId → Bool
is_valid (prod index) = not (index == 0)
is_valid (seg id) = true

-- `ChunkId::operator =()`: the members of the union are copied as the right side's `isProd` says, and
-- the left side keeps its own `isProd`.
unfoldable pub assign : ChunkId → ChunkId → ChunkId
assign (prod a) (prod b) = prod b
assign (seg a) (seg b) = seg b
assign (prod a) (seg b) = prod b.prod_index
assign (seg a) (prod b) = seg (record a { prod_index = b })

-- `operator ==` of two chunk-identifiers is true exactly when they are the same value.
same_chunk_iff : (a b : ChunkId) → (same_chunk a b ≡ true) ↔ (a ≡ b)
unfolding same_chunk
same_chunk_iff (prod a) (prod b) = ground arith
same_chunk_iff (seg a) (seg b) = ground arith
same_chunk_iff (prod a) (seg b) = ground arith
same_chunk_iff (seg a) (prod b) = ground arith

-- Assignment makes the left chunk-identifier equal to the right one exactly when both are of the
-- same kind before.
assign-eq_iff : (a b : ChunkId) → (assign a b ≡ b) ↔ (is_prod a ≡ is_prod b)
unfolding assign is_prod
assign-eq_iff (prod a) (prod b) = ground arith
assign-eq_iff (seg a) (seg b) = ground arith
assign-eq_iff (prod a) (seg b) = ground arith
assign-eq_iff (seg a) (prod b) = ground arith

unfoldable pub ChunkId-discrete : Discrete ChunkId
ChunkId-discrete = hlevel ℕ_discrete
