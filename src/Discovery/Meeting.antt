-- ===== src/Discovery/Meeting.antt =====
-- RunPeer on both nodes: when two runs meet.
use velvet_fabric.Base.{
  ℕ, zero, suc, ◌+◌, ◌≤◌, ◌≡◌, refl, ap, ◌∙◌, inl, inr, Bool, true, false, Option, none, some, List,
  [], ◌∷◌, arith, ltb, Bool-cases, length, All, length-append,
}
use velvet_fabric.Base.Bytes.{Bytes}
use velvet_fabric.Net.{AddrPort}
use velvet_fabric.Net.Laws.{addr_port_eq_iff}
use velvet_fabric.Inference.{add, Observation, EndpointRange, count_range}
use velvet_fabric.Inference.Infer.{SurveyInput, CandidateBatch, Prediction}
use velvet_fabric.Inference.Plan.{infer}
use velvet_fabric.Discovery.State.{Peer, Limits}
use velvet_fabric.Discovery.Select.{
  count_ranges, pick, pick_ports, pick_ranges, pick_batches, oldest_first, select_candidates,
}
use velvet_fabric.Discovery.Search.{connected, survey_of}
use velvet_fabric.Discovery.Peer.{
  Ending, done, candidates_for, Arrival, Batch, PeerNetwork, PeerResult, PeerError, no_result,
  all_paths, least_path, reciprocal, add_counted, agreed_path, try_round, peer_round, peer_loop,
  is_valid_peer, run_peer,
}
use velvet_fabric.Discovery.Reciprocal.{has_path}
use velvet_fabric.Discovery.Symmetric.{IsText, IsReal, flipped, ends_of, agreed_path-reciprocal}

pick-le :
    (limit : ℕ) (ep : AddrPort) (xs : List AddrPort)
    → length xs ≤ limit
    → length (pick limit ep xs) ≤ limit
unfolding pick
pick-le limit ep xs h = ground arith

pick_ports-le :
    (limit : ℕ) (r : EndpointRange) (port left : ℕ) (xs : List AddrPort)
    → length xs ≤ limit
    → length (pick_ports limit r port left xs) ≤ limit
unfolding pick_ports
pick_ports-le limit r port zero xs h = h
pick_ports-le limit r port (suc left) xs h =
    pick_ports-le limit r (port + 1) left _
      (pick-le limit (record { addr = r.addr; port = port }) xs h)

pick_ranges-le :
    (limit : ℕ) (rs : List EndpointRange) (xs : List AddrPort)
    → length xs ≤ limit
    → length (pick_ranges limit rs xs) ≤ limit
unfolding pick_ranges
pick_ranges-le limit [] xs h = h
pick_ranges-le limit (r ∷ rs) xs h =
    pick_ranges-le limit rs _ (pick_ports-le limit r r.first (count_range r) xs h)

pick_batches-le :
    (limit : ℕ) (cs : List CandidateBatch) (xs : List AddrPort) (rejected : ℕ)
    → length xs ≤ limit
    → length (pick_batches limit cs (xs, rejected)).0 ≤ limit
unfolding pick_batches
pick_batches-le limit [] xs rejected h = h
pick_batches-le limit (c ∷ cs) xs rejected h =
    elim (Bool-cases (ltb limit (count_ranges limit 0 c.ranges))) [
      | inl many ↦ rw (many, pick_batches) (pick_batches-le limit cs xs (rejected + 1) h)
      | inr few ↦
          rw (few, pick_batches)
            (pick_batches-le limit cs (pick_ranges limit c.ranges xs) rejected
              (pick_ranges-le limit c.ranges xs h))
    ]

length-oldest_first : (xs : List AddrPort) → length (oldest_first xs) ≡ length xs
unfolding oldest_first
length-oldest_first [] = refl
length-oldest_first (x ∷ xs) =
    grind (arith, length-append (oldest_first xs) (x ∷ []), length-oldest_first xs)

select_candidates-le : (limit : ℕ) (p : Prediction) → length (select_candidates limit p).0 ≤ limit
unfolding select_candidates
select_candidates-le limit p = omega (
  arith,
  length-oldest_first (pick_batches limit p.candidates ([], 0)).0,
  pick_batches-le limit p.candidates [] 0 (omega arith),
)

-- What a node sends in the first round.
abbrev pub first_batch : Peer → Limits → Batch
first_batch p lim = record {
  endpoints = candidates_for (infer p.store (survey_of p)) lim.candidates;
  changed = true;
}

-- The run ended without an error, connected, with the two endpoints, in its first round.
pub record IsConnected (seen endpoint : AddrPort)
    (r : Option PeerError × PeerResult × List Observation) : Type 0 where
  pub error : r.0 ≡ none
  pub reason : r.1.reason ≡ some connected
  pub rounds : r.1.rounds ≡ 1
  pub seen_is : r.1.seen ≡ seen
  pub endpoint_is : r.1.endpoint ≡ endpoint

add_counted-rounds :
    (os : List Observation) (out : PeerResult) (store : List Observation)
    → (add_counted os (out, store)).0.rounds ≡ out.rounds
unfolding add_counted
add_counted-rounds [] out store = refl
add_counted-rounds (o ∷ os) out store = ground (
  arith,
  add_counted-rounds os (record out { observations = out.observations + 1 }) (add o store).1,
  add_counted-rounds os out (add o store).1,
)

-- A round that the other node agrees in.
try_round-IsConnected :
    (text : AddrPort → Bytes) (n : PeerNetwork) (input : SurveyInput) (endpoints : List AddrPort)
    (out : PeerResult) (store : List Observation) (os : List Observation) (xs : List Arrival)
    (other : List AddrPort) (x y : AddrPort)
    → n.try 1 endpoints ≡ some (os, xs)
    → n.agree 1 (reciprocal text os xs input.local) ≡ some other
    → agreed_path (reciprocal text os xs input.local) other ≡ some (x, y)
    → out.rounds ≡ 1
    → ((try_round text n 1 input endpoints (out, store)).0 ≡ done)
      × IsConnected x y (
        none,
        (try_round text n 1 input endpoints (out, store)).1,
        (try_round text n 1 input endpoints (out, store)).2,
      )
unfolding try_round
try_round-IsConnected text n input endpoints out store os xs other x y t a g r =
    ground (arith, t, a, g, r, add_counted-rounds os out store)

peer_loop-done :
    (text : AddrPort → Bytes) (n : PeerNetwork) (lim : Limits) (left round : ℕ)
    (input : SurveyInput) (changed : Bool) (out : PeerResult) (store : List Observation)
    → (peer_round text n lim round input changed (out, store)).0 ≡ done
    → peer_loop text n lim (suc left) round input changed (out, store) ≡ (
      none,
      (peer_round text n lim round input changed (out, store)).1,
      (peer_round text n lim round input changed (out, store)).2,
    )
unfolding peer_loop
peer_loop-done text n lim left round input changed out store h = ground (arith, h)

first_round-IsConnected :
    (text : AddrPort → Bytes) (n : PeerNetwork) (p : Peer) (lim : Limits) (batch : Batch)
    (os : List Observation) (xs : List Arrival) (other : List AddrPort) (x y : AddrPort)
    → is_valid_peer p lim ≡ true
    → n.exchange 1 (first_batch p lim) ≡ some batch
    → length batch.endpoints ≤ lim.candidates
    → n.try 1 batch.endpoints ≡ some (os, xs)
    → n.agree 1 (reciprocal text os xs p.local) ≡ some other
    → agreed_path (reciprocal text os xs p.local) other ≡ some (x, y)
    → IsConnected x y (run_peer text n p lim)
unfolding run_peer is_valid_peer
first_round-IsConnected text n p lim batch os xs other x y valid e few t a g =
    counted lim.max_iterations refl
  where
    first :
        peer_round text n lim 1 (survey_of p) true (no_result, p.store)
        ≡ try_round text n 1
            (survey_of p)
            batch.endpoints
            (record no_result { rounds = 1 }, p.store)
    first = unfold peer_round in ground (arith, e, few)

    counted : (m : ℕ) → lim.max_iterations ≡ m → IsConnected x y (run_peer text n p lim)
    counted zero k = absurd (ground (arith, valid, k))
    counted (suc left) k =
        let (ended, joined) =
          try_round-IsConnected text n (survey_of p) batch.endpoints
            (record no_result { rounds = 1 }) p.store os xs other x y t a g refl in
        let ended' = ap (λ (r : Ending × PeerResult × List Observation). r.0) first ∙ ended in
        let looped = peer_loop-done text n lim left 1 (survey_of p) true no_result p.store ended' in
        ground (
          arith, valid, k, looped, first, joined.error, joined.reason, joined.rounds,
          joined.seen_is, joined.endpoint_is,
        )

reciprocal-some :
    (text : AddrPort → Bytes) (os : List Observation) (xs : List Arrival) (local : AddrPort)
    (q : AddrPort × AddrPort)
    → has_path q (all_paths os xs local) ≡ true
    → (x : AddrPort) × (y : AddrPort) × (reciprocal text os xs local ≡ x ∷ y ∷ [])
unfolding reciprocal
reciprocal-some text os xs local q h = chosen (all_paths os xs local) refl
  where
    chosen :
        (ps : List (AddrPort × AddrPort))
        → all_paths os xs local ≡ ps
        → (x : AddrPort) × (y : AddrPort) × (reciprocal text os xs local ≡ x ∷ y ∷ [])
    chosen [] e = absurd (ground (arith, h, e))
    chosen (p ∷ ps) e = ((least_path text p ps).0, (least_path text p ps).1, ground (arith, e))

agreed_path-flip : (x y : AddrPort) → agreed_path (y ∷ x ∷ []) (x ∷ y ∷ []) ≡ some (y, x)
unfolding agreed_path
agreed_path-flip x y = ground (arith, (addr_port_eq_iff x x).1 refl, (addr_port_eq_iff y y).1 refl)

-- The two networks relay between the nodes in the first round: each node gets the batch and the path
-- that the other sends, and Try of each node answers for the endpoints that the other has sent.
pub record IsRelay (text : AddrPort → Bytes) (n n' : PeerNetwork) (p p' : Peer) (lim : Limits)
    (os os' : List Observation) (xs xs' : List Arrival) : Type 0 where
  pub sent : n'.exchange 1 (first_batch p' lim) ≡ some (first_batch p lim)
  pub received : n.exchange 1 (first_batch p lim) ≡ some (first_batch p' lim)
  pub tried : n.try 1 (first_batch p' lim).endpoints ≡ some (os, xs)
  pub tried' : n'.try 1 (first_batch p lim).endpoints ≡ some (os', xs')
  pub told : n.agree 1 (reciprocal text os xs p.local) ≡ some (reciprocal text os' xs' p'.local)
  pub told' : n'.agree 1 (reciprocal text os' xs' p'.local) ≡ some (reciprocal text os xs p.local)

-- Two nodes with valid configurations and the same limits, whose networks relay between them, end
-- connected in the first round without an error, on the same path in the two directions, when the
-- probes of that round show the nodes the same paths, each in its own direction, at least one of
-- them, and none also in the other direction. The samples of the first node are between endpoints,
-- and the texts of endpoints have no "/" and tell them apart.
pub run_peer-IsConnected :
    (text : AddrPort → Bytes) (n n' : PeerNetwork) (p p' : Peer) (lim : Limits)
    (os os' : List Observation) (xs xs' : List Arrival) (q : AddrPort × AddrPort)
    → IsText text
    → All IsReal os
    → is_valid_peer p lim ≡ true
    → is_valid_peer p' lim ≡ true
    → IsRelay text n n' p p' lim os os' xs xs'
    → ((x y : AddrPort)
        → has_path (x, y) (all_paths os xs p.local) ≡ has_path (y, x) (all_paths os' xs' p'.local))
    → ((x y : AddrPort)
        → has_path (x, y) (all_paths os xs p.local) ≡ true
        → has_path (y, x) (all_paths os xs p.local) ≡ false)
    → has_path q (all_paths os xs p.local) ≡ true
    → (x : AddrPort) × (y : AddrPort) × IsConnected x y (run_peer text n p lim)
      × IsConnected y x (run_peer text n' p' lim)
run_peer-IsConnected text n n' p p' lim os os' xs xs' q is real valid valid' relay same one here =
    let (x, y, mine) = reciprocal-some text os xs p.local q here in
    let (mirror, agreed) =
      agreed_path-reciprocal text os os' xs xs' p.local p'.local is real same one in
    let theirs : reciprocal text os' xs' p'.local ≡ y ∷ x ∷ [] = mirror ∙ ap flipped mine in
    let few = select_candidates-le lim.candidates (infer p.store (survey_of p)) in
    let few' = select_candidates-le lim.candidates (infer p'.store (survey_of p')) in
    let agreed' : agreed_path (reciprocal text os' xs' p'.local) (reciprocal text os xs p.local)
        ≡ some (y, x) =
      ap (λ (r : List AddrPort). agreed_path r (reciprocal text os xs p.local)) theirs
      ∙ ap (agreed_path (y ∷ x ∷ [])) mine
      ∙ agreed_path-flip x y in
    (
      x,
      y,
      first_round-IsConnected text n p lim (first_batch p' lim) os xs
          (reciprocal text os' xs' p'.local) x y valid relay.received few' relay.tried relay.told
          (agreed ∙ ap ends_of mine),
      first_round-IsConnected text n' p' lim (first_batch p lim) os' xs'
          (reciprocal text os xs p.local) y x valid' relay.sent few relay.tried' relay.told'
          agreed',
    )
