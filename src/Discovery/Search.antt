-- ===== src/Discovery/Search.antt =====
-- search.go: Run, the search of both sides by one engine.
use velvet_fabric.Base.{
  ℕ, zero, suc, ◌+◌, Bool, true, false, not, ◌&&◌, ◌||◌, Option, none, some, List, [], ◌∷◌, ◌==◌,
  ltb, leb, if◌then◌else◌,
}
use velvet_fabric.Net.{AddrPort, addr_port_eq, is4}
use velvet_fabric.Inference.{Observation, usable_endpoint, same, forget_local}
use velvet_fabric.Inference.Infer.{Measurement, MeasurementGroup, SurveyInput, Prediction}
use velvet_fabric.Inference.Plan.{is_measured, infer}
use velvet_fabric.Discovery.State.{
  Side, a, b, Probe, Stop, budget, cancelled, World, Peer, Limits, no_stats, Route, Socket, Engine,
  peer_of, check, open_socket,
}
use velvet_fabric.Discovery.Select.{select_for, try_pairs}
use velvet_fabric.Discovery.Window.{window, ingest}

-- engine.try
unfoldable pub try_candidates :
    World
    → Limits
    → List AddrPort
    → List AddrPort
    → Engine
    → (List Observation × List Observation) × Option Stop × Engine
unfolding try_pairs window
try_candidates w lim xs ys e =
    let p =
      try_pairs lim e.peer_a.local e.peer_b.local xs ys
        (record { probes = []; sends_a = []; sends_b = []; tried = e.tried; pairs = 0 }) in
    window w lim p.probes (record e { tried = p.tried })

abbrev pub measured_of : Side → Engine → List Measurement
measured_of a e = e.measured_a
measured_of b e = e.measured_b

abbrev pub set_measured : Side → Measurement → Engine → Engine
set_measured a m e = record e { measured_a = m ∷ e.measured_a }
set_measured b m e = record e { measured_b = m ∷ e.measured_b }

-- The first step of a branch counts the branch.
abbrev pub count_branch : Bool → Bool → Engine → Engine
count_branch true bootstrap e = e
count_branch false true e = record e {
  stats = record e.stats { bootstrap_branches = e.stats.bootstrap_branches + 1 };
}
count_branch false false e = record e {
  stats = record e.stats { other_branches = e.stats.other_branches + 1 };
}

-- One measurement: the socket is opened and one probe sent.
unfoldable pub measure : World → Limits → Side → Measurement → Engine → Option Stop × Engine
unfolding open_socket window ingest
measure w lim side m e =
    let marked : Engine =
      set_measured side m
        (record e { stats = record e.stats { measurements = e.stats.measurements + 1 } }) in
    let (closed, e1) = open_socket w lim side m.local marked in
    elim closed [
      | some why ↦ (some why, e1)
      | none ↦
          (let probe : Probe = record { id = 0; side = side; local = m.local; remote = m.remote } in
            let (seen, stop, e2) = window w lim (probe ∷ []) e1 in (stop, ingest seen e2))
    ]

-- The loop over the steps of a group; `entered` tells that the group is already counted.
unfoldable pub observe_steps :
    World → Limits → Side → Bool → Bool → List Measurement → Engine → Option Stop × Engine
unfolding is_measured measure
observe_steps w lim side bootstrap entered [] e = (none, e)
observe_steps w lim side bootstrap entered (m ∷ ms) e = elim (is_measured m (measured_of side e)) [
  | true ↦ observe_steps w lim side bootstrap entered ms e
  | false ↦ elim (leb lim.measurements e.stats.measurements) [
    | true ↦ (some budget, e)
    | false ↦
        (let (stop, e') = measure w lim side m (count_branch entered bootstrap e) in
          elim stop [
            | some why ↦ (some why, e')
            | none ↦ observe_steps w lim side bootstrap true ms e'
          ])
  ]
]

-- engine.observe: it ends with the first group that brings a new observation.
unfoldable pub observe :
    World → Limits → Side → List MeasurementGroup → Engine → Option Stop × Engine
unfolding observe_steps
observe w lim side [] e = (none, e)
observe w lim side (g ∷ gs) e =
    let (stop, e') = observe_steps w lim side g.bootstrap false g.steps e in
    elim stop [
      | some why ↦ (some why, e')
      | none ↦ elim (ltb e.stats.new_observations e'.stats.new_observations) [
        | true ↦ (none, e')
        | false ↦ observe w lim side gs e'
      ]
    ]

-- The inner loop of matchedPath.
unfoldable pub match_with : AddrPort → Observation → List Observation → Option Route
unfolding addr_port_eq
match_with local_b o [] = none
match_with local_b o (p ∷ ps) =
    if addr_port_eq p.local local_b && addr_port_eq o.remote p.seen && addr_port_eq p.remote o.seen
    then some
        (record { local_a = o.local; local_b = p.local; endpoint_a = o.seen; endpoint_b = p.seen })
    else match_with local_b o ps

-- matchedPath
unfoldable pub matched_path :
    AddrPort → AddrPort → List Observation → List Observation → Option Route
unfolding addr_port_eq match_with
matched_path local_a local_b [] ys = none
matched_path local_a local_b (o ∷ os) ys = elim (addr_port_eq o.local local_a) [
  | false ↦ matched_path local_a local_b os ys
  | true ↦ elim (match_with local_b o ys) [
    | some route ↦ some route
    | none ↦ matched_path local_a local_b os ys
  ]
]

-- Result.Reason
pub data Reason : Type 0 where
  invalid resource_error was_cancelled connected no_progress budget_exhausted execution_error :
      Reason

abbrev pub survey_of : Peer → SurveyInput
survey_of p = record {
  local = p.local;
  target = p.target;
  public_ips = p.public_ips;
  observers = p.observers;
  base_only = false;
}

-- The reason for an error of the loop.
abbrev pub reason_of : Stop → Reason
reason_of budget = budget_exhausted
reason_of cancelled = was_cancelled
reason_of _ = execution_error

-- What a round leads to.
pub data Turn : Type 0 where
  again : Turn
  ended : Reason → Option Route → Turn

-- The measurements of both sides, when a try brought nothing new since `before`.
unfoldable pub survey_both : World → Limits → ℕ → Prediction → Prediction → Engine → Turn × Engine
unfolding observe
survey_both w lim before pa pb e =
    let (stop, e1) = observe w lim a pa.plan e in
    elim stop [
      | some why ↦ (ended (reason_of why) none, e1)
      | none ↦
          (let (stop', e2) = observe w lim b pb.plan e1 in
            elim stop' [
              | some why ↦ (ended (reason_of why) none, e2)
              | none ↦ (
                if e2.stats.new_observations == before then ended no_progress none else again,
                e2,
              )
            ])
    ]

-- A round behind check.
unfoldable pub search_round : World → Limits → Engine → Turn × Engine
unfolding infer select_for try_candidates ingest matched_path survey_both
search_round w lim e0 =
    let e1 : Engine = record e0 {
      stats = record e0.stats { iterations = e0.stats.iterations + 1 };
    } in
    let before = e1.stats.new_observations in
    let pa = infer e1.peer_a.store (survey_of e1.peer_a) in
    let pb = infer e1.peer_b.store (survey_of e1.peer_b) in
    let (xs, e2) = select_for lim pa e1 in
    let (ys, e3) = select_for lim pb e2 in
    let (seen, stop, e4) = try_candidates w lim xs ys e3 in
    let e5 = ingest seen e4 in
    elim stop [
      | some why ↦ (ended (reason_of why) none, e5)
      | none ↦ elim (matched_path e5.peer_a.local e5.peer_b.local seen.0 seen.1) [
        | some route ↦ (ended connected (some route), e5)
        | none ↦ elim (ltb before e5.stats.new_observations) [
          | true ↦ (again, e5)
          | false ↦ survey_both w lim before pa pb e5
        ]
      ]
    ]

-- The loop of Run, for `left` more iterations.
unfoldable pub search_loop : World → Limits → ℕ → Engine → (Reason × Option Route) × Engine
unfolding check search_round
search_loop w lim zero e = ((budget_exhausted, none), e)
search_loop w lim (suc left) e =
    let (stop, e1) = check w lim e in
    elim stop [
      | some why ↦ ((reason_of why, none), e1)
      | none ↦
          (let (turn, e2) = search_round w lim e1 in
            elim turn [
              | ended reason route ↦ ((reason, route), e2)
              | again ↦ search_loop w lim left e2
            ])
    ]

abbrev pub resource_reason : Stop → Reason
resource_reason cancelled = was_cancelled
resource_reason _ = resource_error

-- Run before its deferred cleanup: both primary sockets, and the loop.
unfoldable pub search : World → Limits → Engine → (Reason × Option Route) × Engine
unfolding open_socket search_loop
search w lim e =
    let (stop, e1) = open_socket w lim a e.peer_a.local e in
    elim stop [
      | some why ↦ ((resource_reason why, none), e1)
      | none ↦
          (let (stop', e2) = open_socket w lim b e1.peer_b.local e1 in
            elim stop' [
              | some why ↦ ((resource_reason why, none), e2)
              | none ↦ search_loop w lim lim.max_iterations e2
            ])
    ]

-- The deferred loop over the sockets: which ones are closed, and the engine with the samples of
-- those forgotten. `kept` tells that there is a path.
unfoldable pub forget_socket : Socket → Engine → Engine
unfolding forget_local
forget_socket s e = elim s.side [
  | a ↦ record e { peer_a = record e.peer_a { store = forget_local s.local e.peer_a.store } }
  | b ↦ record e { peer_b = record e.peer_b { store = forget_local s.local e.peer_b.store } }
]

unfoldable pub release_all : Bool → List Socket → Engine → List Socket × Engine
unfolding forget_socket addr_port_eq
release_all kept [] e = ([], e)
release_all kept (s ∷ ss) e =
    let rest = release_all kept ss e in
    let closing = release_all kept ss (forget_socket s e) in
    if kept && addr_port_eq s.local (peer_of s.side e).local
    then rest
    else (s ∷ closing.0, closing.1)

unfoldable pub is_valid_search : Limits → Peer → Peer → Bool
unfolding usable_endpoint
is_valid_search lim p q =
    usable_endpoint p.local
    && usable_endpoint q.local
    && usable_endpoint p.target
    && usable_endpoint q.target
    && same (is4 p.local.addr) (is4 q.local.addr)
    && same (is4 p.local.addr) (is4 p.target.addr)
    && same (is4 q.local.addr) (is4 q.target.addr)
    && not (lim.timeout == 0 || lim.interval == 0 || lim.packets == 0 || lim.measurements == 0)
    && not (lim.candidates == 0 || lim.pairs == 0 || lim.repeats == 0 || lim.max_iterations == 0)

abbrev pub new_engine : World → Limits → Peer → Peer → Engine
new_engine w lim p q = record {
  peer_a = p;
  peer_b = q;
  until = w.now 0 + lim.timeout;
  stats = no_stats;
  next_id = 0;
  opened = [];
  tried = [];
  measured_a = [];
  measured_b = [];
  sends = [];
  calls = 1;
}

abbrev pub has_route : Option Route → Bool
has_route none = false
has_route (some r) = true

-- Run: the reason, the path, the sockets that were closed, and the engine. `invalid` is the error of
-- a configuration that is refused.
unfoldable pub run_search :
    World → Limits → Peer → Peer → (Reason × Option Route) × List Socket × Engine
unfolding is_valid_search search release_all
run_search w lim p q =
    if not (is_valid_search lim p q)
    then ((invalid, none), [], new_engine w lim p q)
    else (let (result, e) = search w lim (new_engine w lim p q) in
        let (closed, e') = release_all (has_route result.1) e.opened e in (result, closed, e'))
