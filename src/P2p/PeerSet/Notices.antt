-- ===== src/P2p/PeerSet/Notices.antt =====
-- Whom `notify()` of main/p2p/PeerSet.cpp reaches.
use hycast.Prelude.{
  ℕ, ◌≡◌, refl, ap, ◌∙◌, Bool, true, false, not, ◌||◌, [], ◌∷◌, ◌++◌, arith, map, All, ◌==◌,
  if◌then◌else◌, Result, ok, err, logic_error,
}
use hycast.Prelude.Dict.{Dict}
use hycast.Protocol.ChunkId.{ChunkId}
use hycast.P2p.ChunkIdQueue.{push}
use hycast.P2p.Peer.{notify}
use hycast.P2p.PeerSet.{Member, PeerSet, Notified, notify_each, notify_all, notify_others}

module _ (skips : ℕ → Bool) (c : ChunkId) where
  -- The peer is left out, or has not been told to end.
  abbrev pub Ready : ℕ × Member → Type 0
  Ready (key, m) = (skips key || not m.peer.done) ≡ true

  -- The peer with the chunk in its queue of notices, if that is not closed, unless it is left out.
  abbrev pub told : ℕ × Member → ℕ × Member
  told (key, m) = (
    key,
    if skips key
        then m
        else record m { peer = record m.peer { notice_queue = push c m.peer.notice_queue } },
  )

  notify_each-step :
      (key : ℕ) (m : Member) (rest : Dict ℕ Member)
      → Ready (key, m)
      → let others = notify_each skips c rest in
        notify_each skips c ((key, m) ∷ rest) ≡ (others.0, told (key, m) ∷ others.1)
  unfolding notify_each notify
  notify_each-step key m rest ready = ground arith

  notify_each-stops :
      (key : ℕ) (m : Member) (rest : Dict ℕ Member)
      → skips key ≡ false
      → m.peer.done ≡ true
      → notify_each skips c ((key, m) ∷ rest) ≡ (err logic_error, (key, m) ∷ rest)
  unfolding notify_each notify
  notify_each-stops key m rest wanted ended = rw (wanted, notify_each, notify, ended) refl

  notify_each-reaches :
      (d : Dict ℕ Member) → All Ready d → notify_each skips c d ≡ (ok tt, map told d)
  unfolding notify_each
  notify_each-reaches [] h = refl
  notify_each-reaches ((key, m) ∷ d) (ready, h) =
      notify_each-step key m d ready
      ∙ ap (λ (p : Notified). (p.0, told (key, m) ∷ p.1)) (notify_each-reaches d h)

  notify_each-breaks :
      (before : Dict ℕ Member) (key : ℕ) (m : Member) (rest : Dict ℕ Member)
      → All Ready before
      → skips key ≡ false
      → m.peer.done ≡ true
      → notify_each skips c (before ++ (key, m) ∷ rest)
        ≡ (err logic_error, map told before ++ (key, m) ∷ rest)
  notify_each-breaks [] key m rest h wanted ended = notify_each-stops key m rest wanted ended
  notify_each-breaks ((j, v) ∷ before) key m rest (ready, h) wanted ended =
      notify_each-step j v (before ++ (key, m) ∷ rest) ready
      ∙ ap (λ (p : Notified). (p.0, told (j, v) ∷ p.1))
          (notify_each-breaks before key m rest h wanted ended)

abbrev pub nobody : ℕ → Bool
nobody k = false

abbrev changed : PeerSet → Notified → Result (Unit {0}) × PeerSet
changed s (answer, threads) = (answer, record s { threads = threads })

All-Ready_others :
    (skips : ℕ → Bool) (c : ChunkId) (d : Dict ℕ Member)
    → All (Ready nobody c) d
    → All (Ready skips c) d
All-Ready_others skips c [] h = tt
All-Ready_others skips c ((key, m) ∷ d) (ready, h) = (ground arith, All-Ready_others skips c d h)

-- When a chunk is announced to all peers, or to all but one, and no peer has been told to end or seen
-- its connection closed, the call returns, and the chunk is put into the queue of notices of each peer,
-- a peer of the publisher too, except the one that is left out. A queue that has been closed, which is
-- that of a peer that an exception has ended, stays as it was.
pub notices_reach :
    (c : ChunkId) (not_peer : ℕ) (s : PeerSet)
    → All (Ready nobody c) s.threads
    → (notify_all c s ≡ (ok tt, record s { threads = map (told nobody c) s.threads }))
      × (notify_others c not_peer s
          ≡ (ok tt, record s { threads = map (told (λ k. k == not_peer) c) s.threads }))
unfolding notify_all notify_others
notices_reach c not_peer s h = (
  ap (changed s) (notify_each-reaches nobody c s.threads h),
  ap (changed s)
      (notify_each-reaches (λ k. k == not_peer) c s.threads (All-Ready_others _ c s.threads h)),
)

-- A peer that has been told to end, or has seen its connection closed, is in the set until it is
-- reaped. If a chunk is announced to all peers before that, the call throws: the peers that the
-- iteration has before it have been notified, as far as their queues are not closed, and that peer and
-- those after it are not.
pub notice_stops :
    (c : ChunkId) (s : PeerSet) (before rest : Dict ℕ Member) (key : ℕ) (m : Member)
    → s.threads ≡ before ++ (key, m) ∷ rest
    → All (Ready nobody c) before
    → m.peer.done ≡ true
    → notify_all c s
      ≡ (err logic_error, record s { threads = map (told nobody c) before ++ (key, m) ∷ rest })
unfolding notify_all
notice_stops c s before rest key m e h ended =
    ap (λ (d : Dict ℕ Member). changed s (notify_each nobody c d)) e
    ∙ ap (changed s) (notify_each-breaks nobody c before key m rest h refl ended)
