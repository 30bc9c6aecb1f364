-- ===== src/Discovery/Peer.antt =====
-- peer.go: the search of two nodes, each with its own network and store.
use velvet_fabric.Base.{
  ℕ, zero, suc, ◌+◌, Bool, true, not, ◌&&◌, ◌||◌, Option, none, some, List, [], ◌∷◌, ◌++◌, ltb,
  ◌==◌, if◌then◌else◌, length,
}
use velvet_fabric.Base.Bytes.{Bytes, bytes_lt}
use velvet_fabric.Net.{AddrPort, no_addr_port, addr_port_eq}
use velvet_fabric.Inference.{Observation, usable_endpoint, add}
use velvet_fabric.Inference.Infer.{Prediction, SurveyInput}
use velvet_fabric.Inference.Plan.{infer}
use velvet_fabric.Discovery.State.{Peer, Limits}
use velvet_fabric.Discovery.Select.{select_candidates}
use velvet_fabric.Discovery.Search.{Reason, connected, no_progress, budget_exhausted, survey_of}

pub record Arrival : Type 0 where
  pub destination : AddrPort
  pub source : AddrPort

pub record Batch : Type 0 where
  pub endpoints : List AddrPort
  pub changed : Bool

-- PeerNetwork, with the round of each call; `none` is an error.
pub record PeerNetwork : Type 0 where
  pub exchange : ℕ → Batch → Option Batch
  pub try : ℕ → List AddrPort → Option (List Observation × List Arrival)
  pub agree : ℕ → List AddrPort → Option (List AddrPort)
  pub observe : ℕ → SurveyInput → List Observation → Option (List Observation)

pub record PeerResult : Type 0 where
  pub local : AddrPort
  pub endpoint : AddrPort
  pub seen : AddrPort
  pub rounds : ℕ
  pub observations : ℕ
  pub reason : Option Reason

abbrev pub no_result : PeerResult
no_result = record {
  local = no_addr_port;
  endpoint = no_addr_port;
  seen = no_addr_port;
  rounds = 0;
  observations = 0;
  reason = none;
}

-- The errors of RunPeer: its own two, and those of the network.
pub data PeerError : Type 0 where
  invalid_configuration over_budget network_error : PeerError

-- CandidatesFor
abbrev pub candidates_for : Prediction → ℕ → List AddrPort
candidates_for prediction limit = (select_candidates limit prediction).0

-- The paths that a sample and one of the arrivals agree on.
unfoldable pub paths_of : Observation → List Arrival → List (AddrPort × AddrPort)
unfolding addr_port_eq
paths_of o [] = []
paths_of o (x ∷ xs) =
    let rest = paths_of o xs in
    if addr_port_eq o.seen x.destination && addr_port_eq o.remote x.source
    then (o.seen, o.remote) ∷ rest
    else rest

unfoldable pub all_paths : List Observation → List Arrival → AddrPort → List (AddrPort × AddrPort)
unfolding addr_port_eq paths_of
all_paths [] arrivals local = []
all_paths (o ∷ os) arrivals local =
    let rest = all_paths os arrivals local in
    if addr_port_eq o.local local then paths_of o arrivals ++ rest else rest

-- The two texts of a path in their order; "/" stands in no text.
unfoldable pub path_key : (AddrPort → Bytes) → AddrPort × AddrPort → Bytes
unfolding bytes_lt
path_key text (x, y) =
    if bytes_lt (text y) (text x) then text y ++ (47 ∷ text x) else text x ++ (47 ∷ text y)

-- The head of the sorted paths. SortFunc says no order for equal keys; here it is the first path,
-- as with its insertion sort of a few paths.
unfoldable pub least_path :
    (AddrPort → Bytes) → AddrPort × AddrPort → List (AddrPort × AddrPort) → AddrPort × AddrPort
unfolding bytes_lt path_key
least_path text p [] = p
least_path text p (q ∷ qs) =
    least_path text (if bytes_lt (path_key text q) (path_key text p) then q else p) qs

unfoldable pub reciprocal :
    (AddrPort → Bytes) → List Observation → List Arrival → AddrPort → List AddrPort
unfolding all_paths least_path
reciprocal text os arrivals local = elim (all_paths os arrivals local) [
  | [] ↦ []
  | p ∷ ps ↦ (let (x, y) = least_path text p ps in x ∷ y ∷ [])
]

-- The loops that add samples to the store and count them.
unfoldable pub add_counted :
    List Observation → PeerResult × List Observation → PeerResult × List Observation
unfolding add
add_counted [] acc = acc
add_counted (o ∷ os) (out, store) =
    let (added, store') = add o store in
    add_counted os
      (if added then record out { observations = out.observations + 1 } else out, store')

-- The test on the two paths: where this side was seen, and the endpoint of the other side.
unfoldable pub agreed_path : List AddrPort → List AddrPort → Option (AddrPort × AddrPort)
unfolding addr_port_eq
agreed_path (x ∷ y ∷ []) (x' ∷ y' ∷ []) =
    if addr_port_eq x y' && addr_port_eq y x' then some (x, y) else none
agreed_path _ _ = none

-- How a round ends: with an error or a nil error, or with the value of `changed`.
pub data Ending : Type 0 where
  failed : PeerError → Ending
  done : Ending
  next : Bool → Ending

-- The end of a round without an agreed path: the survey, when `before` samples are still all.
unfoldable pub observe_more :
    PeerNetwork
    → ℕ
    → SurveyInput
    → ℕ
    → PeerResult × List Observation
    → Ending × PeerResult × List Observation
unfolding add_counted
observe_more n round input before (out, store) =
    if not (length store == before)
    then (next (ltb before (length store)), out, store)
    else elim (n.observe round input store) [
      | none ↦ (failed network_error, out, store)
      | some os ↦
          (let (out', store') = add_counted os (out, store) in
            (next (ltb before (length store')), out', store'))
    ]

-- A round behind Exchange: Try, Agree and Observe.
unfoldable pub try_round :
    (AddrPort → Bytes)
    → PeerNetwork
    → ℕ
    → SurveyInput
    → List AddrPort
    → PeerResult × List Observation
    → Ending × PeerResult × List Observation
unfolding add_counted reciprocal agreed_path observe_more
try_round text n round input endpoints (out, store) = elim (n.try round endpoints) [
  | none ↦ (failed network_error, out, store)
  | some (os, arrivals) ↦
      (let (out', store') = add_counted os (out, store) in
        let path = reciprocal text os arrivals input.local in
        elim (n.agree round path) [
          | none ↦ (failed network_error, out', store')
          | some other ↦ elim (agreed_path path other) [
            | some (seen, endpoint) ↦ (
              done,
              record out' {
                local = input.local;
                seen = seen;
                endpoint = endpoint;
                reason = some connected;
              },
              store',
            )
            | none ↦ observe_more n round input (length store) (out', store')
          ]
        ])
]

-- The body of the loop.
unfoldable pub peer_round :
    (AddrPort → Bytes)
    → PeerNetwork
    → Limits
    → ℕ
    → SurveyInput
    → Bool
    → PeerResult × List Observation
    → Ending × PeerResult × List Observation
unfolding infer select_candidates try_round
peer_round text n lim round input changed (out0, store) =
    let out = record out0 { rounds = round } in
    let mine : Batch = record {
      endpoints = candidates_for (infer store input) lim.candidates;
      changed = changed;
    } in
    elim (n.exchange round mine) [
      | none ↦ (failed network_error, out, store)
      | some batch ↦
          if ltb lim.candidates (length batch.endpoints)
          then (failed over_budget, out, store)
          else if not changed && not batch.changed
          then (done, record out { reason = some no_progress }, store)
          else try_round text n round input batch.endpoints (out, store)
    ]

-- The loop from a round on, for `left` rounds.
unfoldable pub peer_loop :
    (AddrPort → Bytes)
    → PeerNetwork
    → Limits
    → ℕ
    → ℕ
    → SurveyInput
    → Bool
    → PeerResult × List Observation
    → Option PeerError × PeerResult × List Observation
unfolding peer_round
peer_loop text n lim zero round input changed (out, store) =
    (none, record out { reason = some budget_exhausted }, store)
peer_loop text n lim (suc left) round input changed acc =
    let (ending, out, store) = peer_round text n lim round input changed acc in
    elim ending [
      | failed why ↦ (some why, out, store)
      | done ↦ (none, out, store)
      | next changed' ↦ peer_loop text n lim left (round + 1) input changed' (out, store)
    ]

unfoldable pub is_valid_peer : Peer → Limits → Bool
unfolding usable_endpoint
is_valid_peer p lim =
    usable_endpoint p.local
    && usable_endpoint p.target
    && not (ltb lim.max_iterations 1 || ltb 16 lim.max_iterations || lim.timeout == 0)
    && not (ltb lim.candidates 1 || ltb 32 lim.candidates)

-- RunPeer: the error, the result, and the store.
unfoldable pub run_peer :
    (AddrPort → Bytes)
    → PeerNetwork
    → Peer
    → Limits
    → Option PeerError × PeerResult × List Observation
unfolding is_valid_peer peer_loop
run_peer text n p lim =
    if not (is_valid_peer p lim)
    then (some invalid_configuration, no_result, p.store)
    else peer_loop text n lim lim.max_iterations 1 (survey_of p) true (no_result, p.store)
