-- ===== src/P2p/PubBookkeeper.antt =====
-- `PubBookkeeper` of main/p2p/Bookkeeper.cpp: how many chunks each remote peer has requested.
use hycast.Prelude.{
  ℕ, ◌+◌, ◌%◌, ◌^◌, ◌≤◌, ◌<◌, ◌≡◌, refl, ◌⊎◌, inl, inr, ite, true, Option, none, some, List, [],
  ◌∷◌, ap, sym, ◌∙◌, arith, ltb, if◌then◌else◌, ℕ_discrete, length, Bool-cases,
}
use mathlib.Core.Option
use hycast.Prelude.Dict.{Dict, UniqueKeys, or_default}
use hycast.Prelude.Dict
use hycast.P2p.WorstPeer.{ulong_max, worst_from, NoneBelow, worst_from-Outcome, find-Has}

-- `numRequested`, from a peer to a `uint_fast32_t`, which has 64 bits
abbrev pub PubBookkeeper : Type 0
PubBookkeeper = Dict ℕ ℕ

unfoldable pub add : ℕ → PubBookkeeper → PubBookkeeper
add peer num_requested = Dict.insert ℕ_discrete peer 0 num_requested

-- both `requested()`: `++numRequested[peer]`
unfoldable pub requested : ℕ → PubBookkeeper → PubBookkeeper
requested peer num_requested =
    Dict.put ℕ_discrete peer ((or_default 0 (Dict.find ℕ_discrete peer num_requested) + 1) % 2 ^ 64)
      num_requested

unfoldable pub get_worst_peer : PubBookkeeper → Option ℕ
get_worst_peer num_requested =
    if ltb 1 (length num_requested)
    then worst_from (λ n. n) (λ _. true) ulong_max none num_requested
    else none

unfoldable pub reset_counts : PubBookkeeper → PubBookkeeper
reset_counts [] = []
reset_counts ((peer, n) ∷ m) = (peer, 0) ∷ reset_counts m

unfoldable pub erase : ℕ → PubBookkeeper → PubBookkeeper
erase peer num_requested = Dict.erase ℕ_discrete peer num_requested

pub data Call : Type 0 where
  adds requests erases : ℕ → Call
  resets : Call

unfoldable pub step : Call → PubBookkeeper → PubBookkeeper
unfolding add requested erase reset_counts
step (adds peer) = add peer
step (requests peer) = requested peer
step (erases peer) = erase peer
step resets = reset_counts

-- The state after some calls, the latest call first.
unfoldable pub run : List Call → PubBookkeeper
unfolding step
run [] = []
run (c ∷ cs) = step c (run cs)

-- What a single peer sees of a call: nothing, unless the call is about the peer or about all peers.
abbrev pub seen_by : ℕ → Call → Option ℕ → Option ℕ
seen_by j (adds peer) n = ite (ℕ_discrete peer j) (some (or_default 0 n)) n
seen_by j (requests peer) n = ite (ℕ_discrete peer j) (some ((or_default 0 n + 1) % 2 ^ 64)) n
seen_by j (erases peer) n = ite (ℕ_discrete peer j) none n
seen_by j resets n = Option.map (λ _. 0) n

abbrev pub count_after : ℕ → List Call → Option ℕ
count_after j [] = none
count_after j (c ∷ cs) = seen_by j c (count_after j cs)

find-reset_counts :
    (j : ℕ) (m : PubBookkeeper)
    → Dict.find ℕ_discrete j (reset_counts m) ≡ Option.map (λ _. 0) (Dict.find ℕ_discrete j m)
unfolding Dict.find reset_counts
find-reset_counts j [] = refl
find-reset_counts j ((p, n) ∷ m) = ground (arith, find-reset_counts j m)

find-step :
    (j : ℕ) (c : Call) (m : PubBookkeeper)
    → Dict.find ℕ_discrete j (step c m) ≡ seen_by j c (Dict.find ℕ_discrete j m)
unfolding step
find-step j (adds peer) m = ground (arith, Dict.find-insert ℕ_discrete peer j 0 m)
find-step j (requests peer) m =
    let n : ℕ = (or_default 0 (Dict.find ℕ_discrete peer m) + 1) % 2 ^ 64 in
    ground (arith, Dict.find-put ℕ_discrete peer j n m)
find-step j (erases peer) m = Dict.find-erase ℕ_discrete peer j m
find-step j resets m = find-reset_counts j m

-- After any calls from the start, the map holds for each peer what the calls about that peer and
-- the resets amount to, by a description that follows a single peer.
find-run : (j : ℕ) (cs : List Call) → Dict.find ℕ_discrete j (run cs) ≡ count_after j cs
unfolding run Dict.find
find-run j [] = refl
find-run j (c ∷ cs) = find-step j c (run cs) ∙ ap (seen_by j c) (find-run j cs)

reset_counts-UniqueKeys :
    (m : PubBookkeeper) → UniqueKeys ℕ_discrete m → UniqueKeys ℕ_discrete (reset_counts m)
unfolding reset_counts
reset_counts-UniqueKeys [] u = u
reset_counts-UniqueKeys ((p, n) ∷ m) u =
    (find-reset_counts p m ∙ ap (Option.map (λ _. 0)) u.0, reset_counts-UniqueKeys m u.1)

run-UniqueKeys : (cs : List Call) → UniqueKeys ℕ_discrete (run cs)
unfolding run
run-UniqueKeys [] = tt
run-UniqueKeys (adds peer ∷ cs) =
    Dict.insert-UniqueKeys ℕ_discrete peer 0 (run cs) (run-UniqueKeys cs)
run-UniqueKeys (requests peer ∷ cs) =
    Dict.put-UniqueKeys ℕ_discrete peer _ (run cs) (run-UniqueKeys cs)
run-UniqueKeys (erases peer ∷ cs) =
    Dict.erase-UniqueKeys ℕ_discrete peer (run cs) (run-UniqueKeys cs)
run-UniqueKeys (resets ∷ cs) = reset_counts-UniqueKeys (run cs) (run-UniqueKeys cs)

-- After any calls from the start: with fewer than two peers there is no worst peer. Otherwise the
-- worst peer is one with the smallest count, where its count is what the calls amount to, and
-- there is none only if all counts are `ULONG_MAX` or more.
get_worst_peer-run :
    (cs : List Call)
    → let m = run cs in
      ((length m ≤ 1) × (get_worst_peer m ≡ none))
      ⊎ ((1 < length m) × (get_worst_peer m ≡ none) × NoneBelow (λ n. n) (λ _. true) ulong_max m)
      ⊎ ((p n : ℕ) × (1 < length m)
          × (get_worst_peer m ≡ some p)
          × (count_after p cs ≡ some n)
          × NoneBelow (λ n. n) (λ _. true) n m)
unfolding get_worst_peer
get_worst_peer-run cs =
    let m = run cs in
    elim (Bool-cases (ltb 1 (length m))) [
      | inr few ↦ inl (ground arith, rw (few, get_worst_peer) refl)
      | inl many ↦
          let more : (1 < length m) = ground arith in
          elim (worst_from-Outcome (λ n. n) (λ _. true) ulong_max none m) [
            | inl (e, rest) ↦ inr (inl (more, rw (many, get_worst_peer) e, rest))
            | inr (p, n, e, has, good, lt, rest) ↦ inr (
                inr (
                  p,
                  n,
                  more,
                  rw (many, get_worst_peer) e,
                  sym (find-run p cs) ∙ find-Has p n m (run-UniqueKeys cs) has,
                  rest,
                ))
          ]
    ]
