-- ===== src/Tests/Queues.antt =====
-- The queues of main/p2p, main/inet and main/misc on small inputs.
use hycast.Prelude.{
  ℕ, ◌+◌, ◌≤◌, ◌≡◌, refl, false, none, some, List, [], ◌∷◌, ◌++◌, ok, All, ◌↔◌, length, ite,
  ℕ_discrete,
}
use hycast.Protocol.ChunkId.{prod}
use hycast.P2p.ChunkIdQueue.{run-fifo, pushes, pops, closes, pushed, given, pop_count}
use hycast.P2p.ChunkIdQueue
use hycast.Inet.PortPool.{take, add, Users, Step, Run, count, Run-count}
use hycast.Misc.DelayQueue.{Element, Round, returns, waits_until, pop, push, top, ready, close}
use hycast.Misc.DelayQueue
use hycast.Misc.FixedDelayQueue
use hycast.Misc.LinkedHashMap
use hycast.Misc.LinkedHashMap.Forgets.{insert_all, pop_forgets}
use hycast.Prelude.Dict
use hycast.Misc.DelayQueue.Order.{AtLeast, Removes, pop-earliest}

abbrev before : List ChunkIdQueue.Call
before = pushes (prod 1) ∷ pushes (prod 2) ∷ pops ∷ []

abbrev after : List ChunkIdQueue.Call
after = pops ∷ pushes (prod 3) ∷ pops ∷ []

run-fifo_example :
    let (answers, q) = ChunkIdQueue.run before ChunkIdQueue.new in
    let (answers', q') = ChunkIdQueue.run after (ChunkIdQueue.close q) in
    (given answers ++ q.queue ≡ pushed before)
    × ((ChunkIdQueue.pop q ≡ none) ↔ (given answers ≡ pushed before))
    × All (λ a. a ≡ some (prod 0)) answers'
    × (length answers' ≡ pop_count after)
    × (q' ≡ ChunkIdQueue.close q)
run-fifo_example = run-fifo before after refl

-- A user takes port 5 and gives it back.
abbrev idle : Users
idle = record { pool = 5 ∷ 6 ∷ []; held = [] }

abbrev busy : Users
busy = record { pool = 6 ∷ []; held = 5 ∷ [] }

abbrev idle_again : Users
idle_again = record { pool = 6 ∷ 5 ∷ []; held = [] }

busy-take : take idle.pool ≡ some (5, busy.pool)
unfolding take
busy-take = refl

idle_again-add : idle_again.pool ≡ add 5 busy.pool
unfolding add
idle_again-add = refl

idle-Run : Run idle idle_again
idle-Run = Run.follows (Step.gives_back 5 [] [] refl idle_again-add refl) busy-Run
  where
    busy-Run : Run idle busy
    busy-Run = Run.follows (Step.takes 5 busy-take refl) Run.starts

Run-count_example :
    count 5 idle_again.pool + count 5 idle_again.held ≡ count 5 idle.pool + count 5 idle.held
Run-count_example = Run-count 5 idle-Run

abbrev late : Element ℕ
late = record { value = 10; when = 8 }

abbrev soon : Element ℕ
soon = record { value = 20; when = 3 }

abbrev two : DelayQueue.DelayQueue ℕ
two = record { queue = late ∷ soon ∷ []; is_closed = false }

abbrev one : DelayQueue.DelayQueue ℕ
one = record { queue = late ∷ []; is_closed = false }

two-pop : pop 4 two ≡ ok (returns 20 one)
unfolding pop top
two-pop = refl

two-pop_early : pop 2 two ≡ ok (waits_until 3)
unfolding pop top
two-pop_early = refl

pop-earliest_example :
    (e : Element ℕ) × (20 ≡ e.value)
    × (e.when ≤ 4)
    × AtLeast e.when two.queue
    × Removes e two.queue one.queue
pop-earliest_example = pop-earliest 4 20 two one two-pop

abbrev three : LinkedHashMap.LinkedHashMap ℕ
three = insert_all ((3, 30) ∷ (2, 20) ∷ []) (LinkedHashMap.insert 1 10 LinkedHashMap.new).1

pop_forgets_example :
    (m : LinkedHashMap.LinkedHashMap ℕ) × (LinkedHashMap.pop three ≡ ok (some 10, m))
    × (LinkedHashMap.pop m ≡ ok (none, m))
    × ((j : ℕ)
        → Dict.find ℕ_discrete j m.map
          ≡ ite (ℕ_discrete 1 j) none (Dict.find ℕ_discrete j three.map))
pop_forgets_example = pop_forgets 1 10 ((3, 30) ∷ (2, 20) ∷ [])

abbrev shared : FixedDelayQueue.FixedDelayQueue ℕ
shared = record {
  queue = record { value = 10; when = 5 } ∷ record { value = 20; when = 90 } ∷ [];
  delay = 4;
}

shared-begin_pop : FixedDelayQueue.begin_pop shared ≡ some 5
unfolding FixedDelayQueue.begin_pop
shared-begin_pop = refl

abbrev added : FixedDelayQueue.Element ℕ
added = record { value = 30; when = 7 }
