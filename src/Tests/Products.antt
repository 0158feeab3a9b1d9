-- ===== src/Tests/Products.antt =====
-- The files of main/repository/ProdFile.cpp for a product of 3 bytes in segments of 2.
use Prim.Native.String.{String}
use hycast.Prelude.{
  ℕ, ◌+◌, ◌*◌, ◌≤◌, ◌<◌, ◌≡◌, ◌⊎◌, refl, true, false, List, [], ◌∷◌, arith, ok, length,
}
use hycast.Repository.ProdFile.{ProdFile, geometry, seg_index, seg_len, is_offset, get_seg_size}
use hycast.Repository.ProdFile
use hycast.Repository.ProdFile.Geometry.{lengths_agree}
use hycast.Repository.RcvProdFile.{
  ProdInfo, RcvProdFile, same_info, new, is_complete, save_info, claim, finish, save_seg,
  get_prod_info,
}
use hycast.Repository.RcvProdFile.Threads.{System, Reach, Inv, Reach-Inv}
use hycast.Repository.RcvProdFile.Threads
use hycast.Repository.RcvProdFile.Complete.{new-Inv, complete_is_product}
use hycast.Repository.RcvProdFile.Reads.{save_seg-mem_seg}
use hycast.Repository.SubRepo.Questions.{MemSeg, mem_seg}
use hycast.Repository.SubRepo.Savers.{
  Savers, acts, tests, queues, Run, starts, goes, at_start, queued_for_each,
}

lengths_agree_example :
    (is_offset 2 (geometry 3 2) ≡ true)
    × (seg_index 2 (geometry 3 2) ≡ 1)
    × (1 < (geometry 3 2).num_segs)
    × (seg_len 2 (geometry 3 2) ≡ 1)
    × (get_seg_size 2 (geometry 3 2) ≡ ok 1)
lengths_agree_example = lengths_agree 3 2 (omega arith) (omega arith) 1 (omega arith)

-- The bytes of the product.
abbrev source : ℕ → ℕ
source j = j * 10 + 7

abbrev index_name : ℕ → String
index_name i = "4"

abbrev info : ProdInfo
info = record { prod_index = 4; prod_size = 3; prod_name = "data" }

-- A new file, with the segments claimed by two threads; the copy of the second one ends first.
abbrev fresh : RcvProdFile
fresh = record {
  file = geometry 3 2;
  prod_index = 4;
  pathname = "4";
  path_is_name = false;
  have_segs = false ∷ false ∷ [];
  seg_count = 0;
  bytes = λ _. 0;
}

abbrev claimed : RcvProdFile
claimed = record fresh { have_segs = true ∷ false ∷ [] }

abbrev both : RcvProdFile
both = record fresh { have_segs = true ∷ true ∷ [] }

abbrev one_done : RcvProdFile
one_done = finish 2 (seg_len 2 (geometry 3 2)) (λ j. source (2 + j)) both

abbrev two_done : RcvProdFile
two_done = finish 0 (seg_len 0 (geometry 3 2)) (λ j. source (0 + j)) one_done

abbrev named : RcvProdFile
named = record two_done { pathname = "data"; path_is_name = true }

fresh-new : new index_name 4 3 2 ≡ ok fresh
unfolding new ProdFile.new geometry
fresh-new = refl

fresh-claim : claim 0 2 fresh ≡ ok (true, claimed)
unfolding claim is_offset seg_len seg_index geometry
fresh-claim = refl

claimed-claim : claim 2 1 claimed ≡ ok (true, both)
unfolding claim is_offset seg_len seg_index geometry
claimed-claim = refl

two_done-save_info : save_info true info two_done ≡ ok (true, named)
unfolding save_info same_info finish geometry
two_done-save_info = refl

abbrev system : RcvProdFile → List ℕ → System
system s waits = record { state = s; pending = waits }

Step-1 : Threads.Step source 3 2 (system fresh []) (system claimed (0 ∷ []))
Step-1 = Threads.claims 0 2 fresh-claim refl

Step-2 : Threads.Step source 3 2 (system claimed (0 ∷ [])) (system both (2 ∷ 0 ∷ []))
Step-2 = Threads.claims 2 1 claimed-claim refl

Step-3 : Threads.Step source 3 2 (system both (2 ∷ 0 ∷ [])) (system one_done (0 ∷ []))
Step-3 = Threads.finishes 2 [] (0 ∷ []) refl refl refl

Step-4 : Threads.Step source 3 2 (system one_done (0 ∷ [])) (system two_done [])
Step-4 = Threads.finishes 0 [] [] refl refl refl

Step-5 : Threads.Step source 3 2 (system two_done []) (system named [])
Step-5 = Threads.saves_info true true info two_done-save_info refl

run-Reach : Reach source 3 2 (system fresh []) (system named [])
run-Reach =
    Reach.moves Step-5 (
      Reach.moves Step-4 (Reach.moves Step-3 (Reach.moves Step-2 (Reach.moves Step-1 Reach.rests))))

fresh-Inv : Inv source 3 2 (system fresh [])
unfolding geometry
fresh-Inv = new-Inv source 3 2 (omega arith) (omega arith) fresh refl refl refl

Reach-Inv_example : Inv source 3 2 (system named [])
Reach-Inv_example = Reach-Inv source 3 2 (omega arith) (omega arith) fresh-Inv run-Reach

named_complete : is_complete named ≡ true
unfolding is_complete finish geometry
named_complete = refl

complete_is_product_example :
    (length ((system named []).pending) ≡ 0) × ((j : ℕ) → j < 3 → named.bytes j ≡ source j)
complete_is_product_example =
    complete_is_product source 3 2 (omega arith) (omega arith) index_name 4 fresh (system named [])
      fresh-new run-Reach named_complete

fresh-save_seg :
    save_seg 2 1 (λ j. 9) fresh
    ≡ ok (true, finish 2 1 (λ j. 9) (record fresh { have_segs = false ∷ true ∷ [] }))
unfolding save_seg claim is_offset seg_len seg_index geometry
fresh-save_seg = refl

abbrev saved : RcvProdFile
saved = finish 2 1 (λ j. 9) (record fresh { have_segs = false ∷ true ∷ [] })

fresh-marks : length fresh.have_segs ≡ fresh.file.num_segs
unfolding geometry
fresh-marks = refl

save_seg-mem_seg_example :
    (m : MemSeg) × (mem_seg 4 2 saved ≡ ok m)
    × (m.prod_size ≡ saved.file.prod_size)
    × (m.seg_size ≡ 1)
    × ((j : ℕ) → j < 1 → m.bytes j ≡ 9)
save_seg-mem_seg_example =
    save_seg-mem_seg 3 2 (omega arith) (omega arith) 1 4 1 (λ j. 9) fresh saved (omega arith) refl
      fresh-marks fresh-save_seg

-- The three threads save before any of them tests.
abbrev savers : ℕ → ℕ → List ProdInfo → Savers
savers untested found queue = record {
  files = system named [];
  untested = untested;
  found = found;
  queue = queue;
}

savers-Run : Run source 3 2 (at_start fresh) (savers 3 0 [])
savers-Run =
    let during : RcvProdFile → List ℕ → ℕ → Savers = λ s waits untested. record {
      files = system s waits;
      untested = untested;
      found = 0;
      queue = [];
    } in
    let run_1 : Run source 3 2 (during fresh [] 0) (during claimed (0 ∷ []) 0) =
      goes starts (acts (Threads.claims 0 2 fresh-claim refl) refl refl refl) in
    let run_2 : Run source 3 2 (during fresh [] 0) (during both (2 ∷ 0 ∷ []) 0) =
      goes run_1 (acts (Threads.claims 2 1 claimed-claim refl) refl refl refl) in
    let run_3 : Run source 3 2 (during fresh [] 0) (during one_done (0 ∷ []) 1) =
      goes run_2 (acts (Threads.finishes 2 [] (0 ∷ []) refl refl refl) refl refl refl) in
    let run_4 : Run source 3 2 (during fresh [] 0) (during two_done [] 2) =
      goes run_3 (acts (Threads.finishes 0 [] [] refl refl refl) refl refl refl) in
    goes run_4 (acts (Threads.saves_info true true info two_done-save_info refl) refl refl refl)

tested-Run : Run source 3 2 (savers 3 0 []) (savers 0 3 [])
unfolding is_complete finish geometry
tested-Run =
    let one : Run source 3 2 (savers 3 0 []) (savers 2 1 []) =
      goes starts (tests refl refl refl refl) in
    let two : Run source 3 2 (savers 3 0 []) (savers 1 2 []) =
      goes one (tests refl refl refl refl) in
    goes two (tests refl refl refl refl)

abbrev copies : List ProdInfo
copies = get_prod_info named ∷ get_prod_info named ∷ get_prod_info named ∷ []

queued-Run : Run source 3 2 (savers 3 0 []) (savers 0 0 copies)
queued-Run =
    let name = get_prod_info named in
    let one : Run source 3 2 (savers 3 0 []) (savers 0 2 (name ∷ [])) =
      goes tested-Run (queues refl refl refl refl) in
    let two : Run source 3 2 (savers 3 0 []) (savers 0 1 (name ∷ name ∷ [])) =
      goes one (queues refl refl refl refl) in
    goes two (queues refl refl refl refl)

queued_for_each_example :
    ((is_complete named ≡ false) × ((savers 3 0 []).queue ≡ []))
    ⊎ ((is_complete named ≡ true) × (length copies ≡ 0 + 0 + 3) × (1 ≤ length copies))
queued_for_each_example =
    queued_for_each source 3 2 (omega arith) (omega arith) index_name 4 fresh (savers 3 0 [])
      (savers 0 0 copies) fresh-new savers-Run queued-Run refl refl
