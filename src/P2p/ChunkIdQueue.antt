-- ===== src/P2p/ChunkIdQueue.antt =====
-- `ChunkIdQueue::Impl` of main/p2p/ChunkIdQueue.cpp: the queue of notices to be sent. Each method is
-- one step under the mutex.
use hycast.Prelude.{
  ℕ, ◌≡◌, refl, sym, ap, ◌∙◌, Bool, true, false, Option, none, some, List, [], ◌∷◌, ◌++◌,
  if◌then◌else◌, length, All, ◌↔◌, ◌+◌, arith,
}
use mathlib.Core.List.{append_assoc, append-nil}
use hycast.Protocol.ChunkId.{ChunkId, prod}

pub record ChunkIdQueue : Type 0 where
  pub queue : List ChunkId
  pub is_closed : Bool

unfoldable pub new : ChunkIdQueue
new = record { queue = []; is_closed = false }

unfoldable pub size : ChunkIdQueue → ℕ
size q = length q.queue

unfoldable pub push : ChunkId → ChunkIdQueue → ChunkIdQueue
push c q = if q.is_closed then q else record q { queue = q.queue ++ c ∷ [] }

-- `none` while it waits. The default-constructed chunk-identifier has the product-index 0.
unfoldable pub pop : ChunkIdQueue → Option (ChunkId × ChunkIdQueue)
pop q =
    if q.is_closed
    then some (prod 0, q)
    else elim q.queue [ [] ↦ none | c ∷ cs ↦ some (c, record q { queue = cs }) ]

unfoldable pub close : ChunkIdQueue → ChunkIdQueue
close q = record q { is_closed = true }

pub data Call : Type 0 where
  pushes : ChunkId → Call
  pops closes : Call

-- What the calls of `pop()` come to, in order, and the final state: `none` is a call that has to wait;
-- what it does when it is woken is a later call.
unfoldable pub run : List Call → ChunkIdQueue → List (Option ChunkId) × ChunkIdQueue
run [] q = ([], q)
run (pushes c ∷ cs) q = run cs (push c q)
run (closes ∷ cs) q = run cs (close q)
run (pops ∷ cs) q = elim (pop q) [
  | none ↦ let (more, final) = run cs q in (none ∷ more, final)
  | some (c, after) ↦ let (more, final) = run cs after in (some c ∷ more, final)
]

-- The chunk-identifiers that were returned.
abbrev pub given : List (Option ChunkId) → List ChunkId
given [] = []
given (none ∷ later) = given later
given (some c ∷ later) = c ∷ given later

-- How many calls of `pop()` there are.
abbrev pub pop_count : List Call → ℕ
pop_count [] = 0
pop_count (pops ∷ cs) = pop_count cs + 1
pop_count (_ ∷ cs) = pop_count cs

abbrev pub pushed : List Call → List ChunkId
pushed [] = []
pushed (pushes c ∷ cs) = c ∷ pushed cs
pushed (_ ∷ cs) = pushed cs

abbrev pub has_close : List Call → Bool
has_close [] = false
has_close (closes ∷ cs) = true
has_close (_ ∷ cs) = has_close cs

-- A queue in either state.
abbrev holding : List ChunkId → Bool → ChunkIdQueue
holding cs b = record { queue = cs; is_closed = b }

run-open :
    (cs : List Call) (qs : List ChunkId)
    → has_close cs ≡ false
    → let (answers, q) = run cs (holding qs false) in
      (given answers ++ q.queue ≡ qs ++ pushed cs) × (q.is_closed ≡ false)
unfolding run push pop close
run-open [] qs h = (sym (append-nil qs), refl)
run-open (pushes c ∷ cs) qs h =
    let (kept, still) = run-open cs (qs ++ c ∷ []) h in
    (kept ∙ append_assoc qs (c ∷ []) (pushed cs), still)
run-open (closes ∷ cs) qs h = absurd (cc)
run-open (pops ∷ cs) [] h = run-open cs [] h
run-open (pops ∷ cs) (c ∷ qs) h =
    let (kept, still) = run-open cs qs h in (ap (λ (ds : List ChunkId). c ∷ ds) kept, still)

run-closed :
    (cs : List Call) (qs : List ChunkId)
    → let (answers, q) = run cs (holding qs true) in
      All (λ a. a ≡ some (prod 0)) answers × (length answers ≡ pop_count cs) × (q ≡ holding qs true)
unfolding run push pop close
run-closed [] qs = (tt, refl, refl)
run-closed (pushes c ∷ cs) qs = run-closed cs qs
run-closed (closes ∷ cs) qs = run-closed cs qs
run-closed (pops ∷ cs) qs =
    let (all, count, same) = run-closed cs qs in ((refl, all), ground (arith, count), same)

-- A queue that is not closed makes a `pop()` wait exactly where it is empty.
pop-waits : (q : ChunkIdQueue) → q.is_closed ≡ false → (pop q ≡ none) ↔ (q.queue ≡ [])
unfolding pop
pop-waits q h = (λ e. ground arith, λ e. ground arith)

nothing_left : (cs ds : List ChunkId) → cs ++ ds ≡ cs → ds ≡ []
nothing_left [] ds h = h
nothing_left (c ∷ cs) ds h = nothing_left cs ds (cc)

-- For calls on a new queue of which none closes it: what was returned and what is still in the queue
-- is what was pushed, in the same order; and a further `pop()` waits if and only if all that was pushed
-- has been returned. If the queue is then closed, and whatever calls follow, each `pop()` of them
-- returns, without waiting, the invalid chunk-identifier, and the queue stays as it was.
pub run-fifo :
    (before after : List Call)
    → has_close before ≡ false
    → let (answers, q) = run before new in
      let (answers', q') = run after (close q) in
      (given answers ++ q.queue ≡ pushed before)
      × ((pop q ≡ none) ↔ (given answers ≡ pushed before))
      × All (λ a. a ≡ some (prod 0)) answers'
      × (length answers' ≡ pop_count after)
      × (q' ≡ close q)
unfolding new close
run-fifo before after h =
    let (answers, q) = run before new in
    let (kept, still) = run-open before [] h in
    let (all, count, same) = run-closed after q.queue in
    let (waits_so, so_waits) = pop-waits q still in
    (
      kept,
      (
        λ e.
            sym (append-nil (given answers))
            ∙ ap (λ (ds : List ChunkId). given answers ++ ds) (sym (waits_so e))
            ∙ kept,
        λ e. so_waits (nothing_left (given answers) q.queue (kept ∙ sym e)),
      ),
      all,
      count,
      same,
    )
