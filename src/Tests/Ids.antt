-- ===== src/Tests/Ids.antt =====
-- Product-indexes and chunk-identifiers of main/protocol/hycast.h on concrete values.
use hycast.Prelude.{◌-◌, ◌^◌, ◌≡◌, refl}
use hycast.Protocol.ProdIndex.{increment}
use hycast.Protocol.ChunkId.{ChunkId, seg}

increment_wraps : increment (2 ^ 32 - 1) ≡ 1
unfolding increment
increment_wraps = refl

abbrev a_segment : ChunkId
a_segment = seg (record { prod_index = 4; seg_offset = 1500 })
