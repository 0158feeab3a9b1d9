-- ===== src/P2p/PeerSet/Locks.antt =====
-- The mutexes of the set of peers (main/p2p/PeerSet.cpp) and of its manager (main/p2p/P2pMgr.cpp): the
-- end of `execute()` with the manager's `stopped()`, `reapPeers()`, and `maybeAdd()`, whose calls of
-- `size()` and `activate()` lock the set. What they do besides is left out.
use hycast.Prelude.{
  ℕ, ◌≡◌, refl, sym, ◌∙◌, ◌⊎◌, inl, inr, ite, if_pos, if_neg, Option, none, some, arith, ℕ_discrete,
}

-- Where a thread is. `stopping` has put its peer among the inactive ones, and waits for the manager;
-- `joining` holds the set and waits for the end of a thread; `sizing` and `activating` hold the manager
-- and wait for the set.
pub data Place : Type 0 where
  stopping in_stopped ended : Place
  reaping : Place
  joining : (thread : ℕ) → Place
  adding sizing in_size activating in_activate added : Place

pub record System : Type 0 where
  pub manager : Option ℕ
  pub set : Option ℕ
  pub place : ℕ → Place

abbrev pub move : ℕ → Place → (ℕ → Place) → ℕ → Place
move i p place j = ite (ℕ_discrete i j) p (place j)

-- A step of one thread.
pub data Step (s : System) : System → Type 0 where
  stopped_locks :
      (i : ℕ)
      → s.place i ≡ stopping
      → s.manager ≡ none
      → Step s (record s { manager = some i; place = move i in_stopped s.place })
  stopped_ends :
      (i : ℕ)
      → s.place i ≡ in_stopped
      → Step s (record s { manager = none; place = move i ended s.place })
  reaper_locks :
      (i k : ℕ)
      → s.place i ≡ reaping
      → s.set ≡ none
      → (s.place k ≡ stopping) ⊎ ((s.place k ≡ in_stopped) ⊎ (s.place k ≡ ended))
      → Step s (record s { set = some i; place = move i (joining k) s.place })
  reaper_joins :
      (i k : ℕ)
      → s.place i ≡ joining k
      → s.place k ≡ ended
      → Step s (record s { set = none; place = move i reaping s.place })
  add_locks :
      (i : ℕ)
      → s.place i ≡ adding
      → s.manager ≡ none
      → Step s (record s { manager = some i; place = move i sizing s.place })
  size_locks :
      (i : ℕ)
      → s.place i ≡ sizing
      → s.set ≡ none
      → Step s (record s { set = some i; place = move i in_size s.place })
  size_ends :
      (i : ℕ) (next : Place)
      → s.place i ≡ in_size
      → (next ≡ activating) ⊎ (next ≡ added)
      → Step s (record s { set = none; place = move i next s.place })
  activate_locks :
      (i : ℕ)
      → s.place i ≡ activating
      → s.set ≡ none
      → Step s (record s { set = some i; place = move i in_activate s.place })
  activate_ends :
      (i : ℕ)
      → s.place i ≡ in_activate
      → Step s (record s { set = none; place = move i added s.place })
  add_ends :
      (i : ℕ)
      → s.place i ≡ added
      → Step s (record s { manager = none; place = move i adding s.place })

pub data Reach (s : System) : System → Type 0 where
  starts : Reach s s
  goes : {t u : System} → Reach s t → Step t u → Reach s u

-- No thread is inside of either mutex, nor joins another one.
abbrev pub Outside : Place → Type 0
Outside in_stopped = ⊥
Outside (joining k) = ⊥
Outside in_size = ⊥
Outside in_activate = ⊥
Outside added = ⊥
Outside p = Unit {0}

-- The reaper joins a thread that waits for the manager, whose holder waits for the set, which the
-- reaper holds. Nobody else is inside.
pub record Deadlock (reaper peer adder : ℕ) (s : System) : Type 0 where
  pub joins : s.place reaper ≡ joining peer
  pub stops : s.place peer ≡ stopping
  pub manager_held : s.manager ≡ some adder
  pub set_held : s.set ≡ some reaper
  pub outside : (i : ℕ) → (i ≡ reaper) ⊎ Outside (s.place i)

Outside-at :
    (r k a i : ℕ) (p : Place) (s : System) → Deadlock r k a s → s.place i ≡ p → (i ≡ r) ⊎ Outside p
Outside-at r k a i p s d at = rw at at (d.outside i)

reaper_only :
    (r k a i : ℕ) (p : Place) (s : System)
    → Deadlock r k a s
    → s.place i ≡ p
    → (Outside p → ⊥)
    → joining k ≡ p
reaper_only r k a i p s d at inside = elim (Outside-at r k a i p s d at) [
  | inl same ↦ sym d.joins ∙ (rw same at at)
  | inr out ↦ absurd (inside out)
]

Deadlock-stays : {s t : System} (r k a : ℕ) → Step s t → Deadlock r k a s → ⊥
Deadlock-stays {s} r k a (stopped_locks i here free) d = cc (d.manager_held, free)
Deadlock-stays {s} r k a (stopped_ends i here) d =
    cc (reaper_only r k a i in_stopped s d here (λ o. o))
Deadlock-stays {s} r k a (reaper_locks i j here free w) d = cc (d.set_held, free)
Deadlock-stays {s} r k a (reaper_joins i j here gone) d =
    cc (reaper_only r k a i (joining j) s d here (λ o. o), gone, d.stops)
Deadlock-stays {s} r k a (add_locks i here free) d = cc (d.manager_held, free)
Deadlock-stays {s} r k a (size_locks i here free) d = cc (d.set_held, free)
Deadlock-stays {s} r k a (size_ends i next here w) d =
    cc (reaper_only r k a i in_size s d here (λ o. o))
Deadlock-stays {s} r k a (activate_locks i here free) d = cc (d.set_held, free)
Deadlock-stays {s} r k a (activate_ends i here) d =
    cc (reaper_only r k a i in_activate s d here (λ o. o))
Deadlock-stays {s} r k a (add_ends i here) d = cc (reaper_only r k a i added s d here (λ o. o))

-- Suppose that no mutex is held, and that a peer's thread is about to call `stopped()`, the reaper is
-- about to reap, and some thread is about to add a peer, with any threads besides that are in none of
-- the sections. Then they can come to a state in which no thread can make a step any more: the reaper
-- holds the set's mutex and joins the peer's thread, which waits for the manager's, which the third one
-- holds and waits for the set's.
pub can_deadlock :
    (reaper peer adder : ℕ) (place : ℕ → Place)
    → place reaper ≡ reaping
    → place peer ≡ stopping
    → place adder ≡ adding
    → ((i : ℕ) → Outside (place i))
    → let s : System = record { manager = none; set = none; place = place } in
      (t : System) × Reach s t
      × (t.place reaper ≡ joining peer)
      × (t.place peer ≡ stopping)
      × (t.place adder ≡ sizing)
      × ((u : System) → Step t u → ⊥)
can_deadlock r k a place reaps stops adds outside =
    let s : System = record { manager = none; set = none; place = place } in
    let place1 = move r (joining k) place in
    let s1 : System = record { manager = none; set = some r; place = place1 } in
    let place2 = move a sizing place1 in
    let t : System = record { manager = some a; set = some r; place = place2 } in
    let adds1 : (place1 a ≡ adding) = ground (arith, reaps, adds) in
    let joins : (place2 r ≡ joining k) = ground (arith, reaps, adds) in
    let still : (place2 k ≡ stopping) = ground (arith, reaps, adds, stops) in
    let sizes : (place2 a ≡ sizing) = ground arith in
    let d : Deadlock r k a t = record {
      joins = joins;
      stops = still;
      manager_held = refl;
      set_held = refl;
      outside = λ i. elsewhere i;
    } in
    (
      t,
      Reach.goes (Reach.goes Reach.starts (reaper_locks r k reaps refl (inl stops)))
          (add_locks a adds1 refl),
      joins,
      still,
      sizes,
      λ u step. Deadlock-stays r k a step d,
    )
  where
    elsewhere : (i : ℕ) → (i ≡ r) ⊎ Outside (move a sizing (move r (joining k) place) i)
    elsewhere i = elim (ℕ_discrete i r) [
      | yes same ↦ inl same
      | no other ↦ elim (ℕ_discrete a i) [
        | yes here ↦ inr (rw (if_pos (ℕ_discrete a i) here sizing (move r (joining k) place i)) tt)
        | no there ↦ inr (
            rw
              (
                if_neg (ℕ_discrete a i) there sizing (move r (joining k) place i),
                if_neg (ℕ_discrete r i) (λ e. other (sym e)) (joining k) (place i),
              )
              (outside i))
      ]
    ]
