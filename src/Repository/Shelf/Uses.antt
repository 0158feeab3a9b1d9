-- ===== src/Repository/Shelf/Uses.antt =====
-- What the use, the opening and the making of a file do to a repository (main/repository/Repository.cpp)
-- whose parts fit together.
use hycast.Prelude.{
  ℕ, zero, suc, ◌-◌, ◌<◌, ◌≡◌, ◌≢◌, sym, ap, ◌∙◌, inl, inr, ite, ◌||◌, Bool, true, false, Option,
  none, some, List, [], ◌∷◌, ◌++◌, arith, ℕ_discrete, length, take, drop, ok, Bool-cases,
  if◌then◌else◌,
}
use hycast.Prelude.Dict.{Dict}
use hycast.Prelude.Dict
use hycast.Repository.LinkedProdMap.{LinkedProdMap, size, ensure_room}
use hycast.Repository.LinkedProdMap.Models.{Models}
use hycast.Repository.LinkedProdMap.Room.{ensure_room-closes, size-held}
use hycast.Repository.Objects.{Held, close_all, closed_if, find-close_all}
use hycast.Repository.Own.{
  contains, sequence, touch, own, absent, contains-touch, contains-append, contains-drop, files-own,
  drop-own, length-own,
}
use hycast.Repository.Shelf.{Fits}

pub size-own : (ks : List ℕ) (m : LinkedProdMap ℕ) → Models (sequence ks) m → size m ≡ length ks
size-own ks m v = size-held (own ks) m v ∙ length-own ks

-- Room for one more.
pub ensure_room-own :
    (max_open_files : ℕ) (recent : List ℕ) (opened : LinkedProdMap ℕ)
    → Models (sequence recent) opened
    → 0 < max_open_files
    → (n : ℕ) × (m : LinkedProdMap ℕ) × (ensure_room (suc (size opened)) max_open_files opened
        ≡ some (ok (take n recent, m)))
      × Models (sequence (drop n recent)) m
      × (size m < max_open_files)
ensure_room-own max_open_files recent opened v pos =
    let n = suc (length (own recent)) - max_open_files in
    let (m, made, models, room) =
      ensure_room-closes (suc (size opened)) max_open_files (own recent) opened v pos
        (omega (arith, size-held (own recent) opened v)) in
    (n, m, rw (files-own n recent) at made, rw (drop-own n recent) at models, room)

contains-take : (j n : ℕ) (ks : List ℕ) → contains j (take n ks) ≡ true → contains j ks ≡ true
contains-take j zero ks h = absurd (cc)
contains-take j (suc n) [] h = h
contains-take j (suc n) (k ∷ ks) h = ground (arith, contains-take j n ks)

pub not_taken : (j n : ℕ) (ks : List ℕ) → contains j ks ≡ false → contains j (take n ks) ≡ false
not_taken j n ks h = elim (Bool-cases (contains j (take n ks))) [
  | inl taken ↦ let there = contains-take j n ks taken in absurd (cc)
  | inr free ↦ free
]

module _ {F : Type 0} where
  pub nonzero :
      (k : ℕ) (known recent : List ℕ) (all opened : LinkedProdMap ℕ) (objects : Dict ℕ (Held F))
      → Fits known recent all opened objects
      → contains k known ≡ true
      → k ≢ 0
  nonzero k known recent all opened objects w h e =
      let free = absent 0 known w.prods.nonzero in
      let same = ap (λ (x : ℕ). contains x known) e in absurd (cc)

  -- A file that is open is used.
  pub used-Fits :
      (k : ℕ) (known recent : List ℕ) (all opened m : LinkedProdMap ℕ) (objects : Dict ℕ (Held F))
      → Fits known recent all opened objects
      → contains k recent ≡ true
      → Models (sequence (touch k recent)) m
      → Fits known (touch k recent) all m objects
  used-Fits k known recent all opened m objects w h models = record {
    prods = w.prods;
    opens = models;
    sub = λ j e. w.sub j (sym (contains-touch j k recent h) ∙ e);
    missing = w.missing;
    stored = λ j e.
        let (o, found, same) = w.stored j e in (o, found, same ∙ sym (contains-touch j k recent h));
  }

  -- A file is found among all.
  pub found-Fits :
      (k : ℕ) (known recent : List ℕ) (all opened m : LinkedProdMap ℕ) (objects : Dict ℕ (Held F))
      → Fits known recent all opened objects
      → contains k known ≡ true
      → Models (sequence (touch k known)) m
      → Fits (touch k known) recent m opened objects
  found-Fits k known recent all opened m objects w h models = record {
    prods = models;
    opens = w.opens;
    sub = λ j e. contains-touch j k known h ∙ w.sub j e;
    missing = λ j e. w.missing j (sym (contains-touch j k known h) ∙ e);
    stored = λ j e. w.stored j (sym (contains-touch j k known h) ∙ e);
  }

  -- Other maps with the same sequences.
  pub moved-Fits :
      (known recent : List ℕ) (all opened n m : LinkedProdMap ℕ) (objects : Dict ℕ (Held F))
      → Fits known recent all opened objects
      → Models (sequence known) n
      → Models (sequence recent) m
      → Fits known recent n m objects
  moved-Fits known recent all opened n m objects w models models' = record {
    prods = models;
    opens = models';
    sub = w.sub;
    missing = w.missing;
    stored = w.stored;
  }

  pub find-opened :
      (j k : ℕ) (o : Held F) (closed : List ℕ) (objects : Dict ℕ (Held F))
      → Dict.find ℕ_discrete j (close_all closed (Dict.put ℕ_discrete k o objects))
        ≡ closed_if
            (contains j closed)
            (ite (ℕ_discrete k j) (some o) (Dict.find ℕ_discrete j objects))
  find-opened j k o closed objects =
      find-close_all j closed (Dict.put ℕ_discrete k o objects)
      ∙ ap (closed_if (contains j closed)) (Dict.find-put ℕ_discrete k j o objects)

  -- Another file than the one that is opened, which may be among those that are closed.
  other_stored :
      (closed : Bool) (p : Held F) (before after : Bool) (found : Option (Held F))
      → found ≡ some p
      → p.is_open ≡ before
      → after ≡ (if closed then false else before)
      → (q : Held F) × (closed_if closed found ≡ some q) × (q.is_open ≡ after)
  other_stored true p before after found there was now =
      (record p { is_open = false }, ap (closed_if true) there, sym now)
  other_stored false p before after found there was now =
      (p, ap (closed_if false) there, was ∙ sym now)

  none_left :
      (closed : Bool) (found : Option (Held F)) → found ≡ none → closed_if closed found ≡ none
  none_left closed found e = ap (closed_if closed) e

  -- A file is opened, which may be new: `o` takes the place of its object, the first ones of the open
  -- files are closed, and it becomes the last one.
  pub opened-Fits :
      (k n : ℕ) (o : Held F) (known known' recent : List ℕ) (all opened all' m : LinkedProdMap ℕ)
      (objects : Dict ℕ (Held F))
      → Fits known recent all opened objects
      → ((j : ℕ) → contains j known' ≡ contains j known || ite (ℕ_discrete k j) true false)
      → o.is_open ≡ true
      → contains k recent ≡ false
      → Models (sequence known') all'
      → Models (sequence (drop n recent ++ k ∷ [])) m
      → Fits known'
          (drop n recent ++ k ∷ [])
          all'
          m
          (close_all (take n recent) (Dict.put ℕ_discrete k o objects))
  opened-Fits k n o known known' recent all opened all' m objects w grown on free models models' =
      let left : ((j : ℕ) → _) = λ j. contains-drop j n recent w.opens.distinct in
      let at : ((j : ℕ) → _) = λ j. find-opened j k o (take n recent) objects in
      let last : ((j : ℕ) → _) = λ j. contains-append j k (drop n recent) in
      record {
        prods = models;
        opens = models';
        sub = λ j e. ground (arith, last j, left j, w.sub j, grown j, e);
        missing = λ j e.
            at j
            ∙ none_left (contains j (take n recent)) _ (ground (arith, w.missing j, grown j, e));
        stored = λ j e. elim (ℕ_discrete k j) [
          | yes same ↦ (
            o,
            at j ∙ ground (arith, same, not_taken k n recent free),
            on ∙ sym (last j ∙ ground (arith, same)),
          )
          | no other ↦
              let (p, found, was) = w.stored j (ground (arith, grown j, e, other)) in
              let (q, there, is) =
                other_stored (contains j (take n recent)) p (contains j recent)
                  (contains j (drop n recent ++ k ∷ []))
                  (ite (ℕ_discrete k j) (some o) (Dict.find ℕ_discrete j objects))
                  (ground (arith, other, found)) was (last j ∙ ground (arith, other, left j)) in
              (q, at j ∙ there, is)
        ];
      }
