-- ===== src/Repository/SubRepo/Opens.antt =====
-- A file that is used, found or opened in a subscriber's repository (main/repository/Repository.cpp).
use hycast.Prelude.{
  ℕ, ◌≡◌, refl, sym, ap, ◌∙◌, ite, true, false, some, List, [], ◌∷◌, ◌++◌, arith, ℕ_discrete,
}
use hycast.Prelude.Dict
use hycast.Repository.LinkedProdMap.{LinkedProdMap}
use hycast.Repository.LinkedProdMap.Models.{Models}
use hycast.Repository.SubRepo.{Object, SubRepo}
use hycast.Repository.Objects.{open_object, find-open_object}
use hycast.Repository.Own.{contains, sequence, contains-append}
use hycast.Repository.SubRepo.Files.{Wf, Same}
use hycast.Repository.Shelf.{file_of}

-- A known file is opened.
pub opened-Wf :
    (k : ℕ) (known recent : List ℕ) (r : SubRepo) (m : LinkedProdMap ℕ)
    → Wf known recent r
    → contains k known ≡ true
    → contains k recent ≡ false
    → Models (sequence (recent ++ k ∷ [])) m
    → Wf known (recent ++ k ∷ []) (record r { open_files = m; objects = open_object k r.objects })
      × Same r (record r { open_files = m; objects = open_object k r.objects })
opened-Wf k known recent r m w h free models =
    let (p, at, closed) = w.stored k h in
    let opened_p : Object = record p { is_open = true } in
    let find' : ((j : ℕ)
        → Dict.find ℕ_discrete j (open_object k r.objects)
          ≡ ite (ℕ_discrete k j) (some opened_p) (Dict.find ℕ_discrete j r.objects)) =
      λ j. find-open_object j k p r.objects at in
    (
      record {
        prods = w.prods;
        opens = models;
        sub = λ j e. ground (arith, contains-append j k recent, w.sub j, h, e);
        missing = λ j e. ground (arith, find' j, w.missing j e, h, e);
        stored = λ j e. elim (ℕ_discrete k j) [
          | yes same ↦ (
            opened_p,
            find' j ∙ ground (arith, same),
            sym (contains-append j k recent ∙ ground (arith, same)),
          )
          | no other ↦
              let (o, found, open_j) = w.stored j e in
              (
                o,
                find' j ∙ ground (arith, other, found),
                open_j ∙ sym (contains-append j k recent ∙ ground (arith, other)),
              )
        ];
      },
      record {
        files = λ j. elim (ℕ_discrete k j) [
          | yes same ↦ ap file_of (find' j) ∙ ground (arith, same, at)
          | no other ↦ ap file_of (find' j) ∙ ground (arith, other)
        ];
        queue = refl;
        limit = refl;
        seg_size = refl;
      },
    )
