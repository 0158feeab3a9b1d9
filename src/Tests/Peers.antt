-- ===== src/Tests/Peers.antt =====
-- Sets of peers of main/p2p/PeerSet.cpp.
use hycast.Prelude.{
  ℕ, ◌≤◌, ◌≡◌, ◌≢◌, refl, ite, true, false, some, none, [], ◌∷◌, ◌++◌, arith, map, ℕ_discrete, ◌==◌,
  ok, err, logic_error,
}
use hycast.Prelude.Dict
use hycast.Protocol.ChunkId.{prod}
use hycast.P2p.Peer.{
  Peer, Heard, has_path, has_no_path, hear_all, first_flag_is_wrong, run, throws, handle_exception,
  set_done,
}
use hycast.P2p.Peer
use hycast.Protocol.PeerProto.Connect.{publisher, no_path_to_publisher}
use hycast.P2p.PeerSet.{
  executes, Member, PeerSet, new, activate, size, executed, reap, change, notify_all, notify_others,
  activates, fails, Reach, starts, goes,
}
use hycast.P2p.PeerSet.Counts.{count_on}
use hycast.P2p.PeerSet.Reaper.{size-counts}
use hycast.P2p.PeerSet.Crashed.{Crashed, failure_keeps_place}
use hycast.P2p.PeerSet.Notices.{told, nobody, notices_reach, notice_stops}
use hycast.P2p.PeerSet.Locks.{
  Place, stopping, reaping, adding, joining, sizing, System, Outside, can_deadlock,
}
use hycast.P2p.PeerSet.Locks

first_flag_is_wrong_example :
    (hear_all (has_path ∷ has_no_path ∷ has_path ∷ []) (Peer.new true publisher)
      ≡ ([], Peer.new true publisher))
    × ((Peer.new true publisher).rmt_has_path_to_pub ≡ false)
    × ((Peer.new true no_path_to_publisher).rmt_has_path_to_pub ≡ true)
first_flag_is_wrong_example = first_flag_is_wrong true (has_path ∷ has_no_path ∷ has_path ∷ [])

abbrev peer : Peer
peer = Peer.new true 1

abbrev running : Member
running = record { peer = peer; thread = executes }

abbrev one : PeerSet
one = record { done = false; threads = (5, running) ∷ []; inactive_peers = [] }

one-Reach : Reach new one
unfolding new activate Dict.find Dict.put
one-Reach = goes starts (activates 5 peer one refl)

one-find : Dict.find ℕ_discrete 5 one.threads ≡ some running
unfolding Dict.find ℕ_discrete
one-find = refl

abbrev failing : Member
failing = record { peer = handle_exception peer; thread = executes }

abbrev one_failing : PeerSet
one_failing = record { done = false; threads = (5, failing) ∷ []; inactive_peers = [] }

one_failing-Reach : Reach new one_failing
unfolding change Dict.put ℕ_discrete
one_failing-Reach = goes one-Reach (fails 5 running one-find refl)

failing-find : Dict.find ℕ_discrete 5 one_failing.threads ≡ some failing
unfolding Dict.find ℕ_discrete
failing-find = refl

failing-run : run failing.peer ≡ throws
unfolding run handle_exception Peer.new
failing-run = refl

size-counts_example :
    (0 ≤ 1) × (size one_failing ≡ count_on one_failing.threads) × (reap one_failing ≢ none)
size-counts_example = size-counts one_failing-Reach

failure_keeps_place_example :
    ((executed 5 failing one_failing).0 ≡ false)
    × Crashed (executed 5 failing one_failing).1 5
    × (1 ≤ size (executed 5 failing one_failing).1)
failure_keeps_place_example =
    failure_keeps_place 5 failing one_failing-Reach failing-find refl failing-run starts

abbrev other : Member
other = record { peer = Peer.new false 2; thread = executes }

abbrev two : PeerSet
two = record { done = false; threads = (5, running) ∷ (6, other) ∷ []; inactive_peers = [] }

notices_reach_example :
    (notify_all (prod 3) two
      ≡ (ok tt, record two { threads = map (told nobody (prod 3)) two.threads }))
    × (notify_others (prod 3) 6 two
        ≡ (ok tt, record two { threads = map (told (λ k. k == 6) (prod 3)) two.threads }))
unfolding Peer.new
notices_reach_example = notices_reach (prod 3) 6 two (refl, (refl, tt))

-- The second of three peers has been halted.
abbrev halted : Member
halted = record { peer = set_done (Peer.new true 1); thread = executes }

abbrev three : PeerSet
three = record {
  done = false;
  threads = (5, running) ∷ (7, halted) ∷ (6, other) ∷ [];
  inactive_peers = [];
}

notice_stops_example : notify_all (prod 3) three ≡ (
  err logic_error,
  record three {
    threads = map (told nobody (prod 3)) ((5, running) ∷ []) ++ (7, halted) ∷ (6, other) ∷ [];
  },
)
unfolding Peer.new set_done
notice_stops_example =
    notice_stops (prod 3) three ((5, running) ∷ []) ((6, other) ∷ []) 7 halted refl (refl, tt) refl

abbrev places : ℕ → Place
places i = ite (ℕ_discrete i 0) reaping (ite (ℕ_discrete i 1) stopping adding)

places-Outside : (i : ℕ) → Outside (places i)
places-Outside i = ground arith

can_deadlock_example :
    let s : System = record { manager = none; set = none; place = places } in
    (t : System) × Locks.Reach s t
    × (t.place 0 ≡ joining 1)
    × (t.place 1 ≡ stopping)
    × (t.place 2 ≡ sizing)
    × ((u : System) → Locks.Step t u → ⊥)
unfolding ℕ_discrete
can_deadlock_example = can_deadlock 0 1 2 places refl refl refl places-Outside
