-- ===== src/Discovery/Window.antt =====
-- search.go: engine.window, which sends probes and collects the reports on them.
use velvet_fabric.Base.{
  ℕ, zero, suc, ◌+◌, Bool, false, not, ◌&&◌, ◌||◌, Option, none, some, List, [], ◌∷◌, ◌==◌, ltb,
  leb, if◌then◌else◌,
}
use velvet_fabric.Net.{AddrPort}
use velvet_fabric.Inference.{Observation, observation_is_valid, add}
use velvet_fabric.Discovery.State.{a, b, Probe, Report, Stop, budget, World, Limits, Engine, check}

-- What window has sent and received: `sent` and `reports` are its maps. Ids rise, so a probe that is
-- sent is never in `sent` before.
pub record Sent : Type 0 where
  pub sent : List Probe
  pub reports : List (ℕ × AddrPort)

unfoldable pub probe_by_id : ℕ → List Probe → Option Probe
probe_by_id id [] = none
probe_by_id id (p ∷ ps) = if p.id == id then some p else probe_by_id id ps

unfoldable pub is_reported : ℕ → List (ℕ × AddrPort) → Bool
is_reported id [] = false
is_reported id ((j, seen) ∷ rs) = j == id || is_reported id rs

abbrev pub observed : Probe → AddrPort → Observation
observed p seen = record { local = p.local; remote = p.remote; seen = seen }

-- One report: only the first valid one on a probe that was sent counts.
unfoldable pub receive : Report → Sent → Sent
unfolding probe_by_id is_reported observation_is_valid
receive r s = elim (probe_by_id r.id s.sent) [
  | none ↦ s
  | some p ↦
      if observation_is_valid (observed p r.seen) && not (is_reported r.id s.reports)
      then record s { reports = (r.id, r.seen) ∷ s.reports }
      else s
]

unfoldable pub receive_all : List Report → Sent → Sent
unfolding receive
receive_all [] s = s
receive_all (r ∷ rs) s = receive_all rs (receive r s)

-- Sends one probe with a fresh id.
unfoldable pub send : World → Probe → Engine → Sent → Option Stop × Engine × Sent
send w p e s =
    let id = e.next_id + 1 in
    let e' : Engine = record e {
      next_id = id;
      stats = record e.stats { packets = e.stats.packets + 1 };
      sends = record p { id = id } ∷ e.sends;
      calls = e.calls + 1;
    } in
    (w.send_error e.calls, e', record s { sent = record p { id = id } ∷ s.sent })

-- The loop over the templates.
unfoldable pub send_all : World → Limits → List Probe → Engine → Sent → Option Stop × Engine × Sent
unfolding check send
send_all w lim [] e s = (none, e, s)
send_all w lim (p ∷ ps) e s =
    let (stop, e1) = check w lim e in
    elim stop [
      | some why ↦ (some why, e1, s)
      | none ↦
          (let (lost, e2, s2) = send w p e1 s in
            elim lost [ some why ↦ (some why, e2, s2) | none ↦ send_all w lim ps e2 s2 ])
    ]

-- The end of a repeat: Wait, the test of the deadline, and Reports.
unfoldable pub collect_reports : World → Engine → Sent → Option Stop × Engine × Sent
unfolding receive_all
collect_reports w e s =
    let e1 : Engine = record e { calls = e.calls + 4 } in
    elim (w.wait_error (e.calls + 1)) [
      | some why ↦ (some why, e1, s)
      | none ↦
          if leb e.until (w.now (e.calls + 2))
          then (some budget, e1, s)
          else elim (w.report_error (e.calls + 3)) [
            | some why ↦ (some why, e1, s)
            | none ↦ (none, e1, receive_all (w.reports (e.calls + 3)) s)
          ]
    ]

-- The loop of window, for `left` more repeats.
unfoldable pub repeat_window :
    World → Limits → List Probe → ℕ → Engine → Sent → Option Stop × Engine × Sent
unfolding send_all collect_reports
repeat_window w lim ps zero e s = (none, e, s)
repeat_window w lim ps (suc left) e s =
    let (stop, e1, s1) = send_all w lim ps e s in
    elim stop [
      | some why ↦ (some why, e1, s1)
      | none ↦
          (let (late, e2, s2) = collect_reports w e1 s1 in
            elim late [ some why ↦ (some why, e2, s2) | none ↦ repeat_window w lim ps left e2 s2 ])
    ]

-- sort.Slice by id.
unfoldable pub insert_report : ℕ × AddrPort → List (ℕ × AddrPort) → List (ℕ × AddrPort)
insert_report (i, x) [] = (i, x) ∷ []
insert_report (i, x) ((j, y) ∷ rs) =
    let rest = insert_report (i, x) rs in if ltb i j then (i, x) ∷ (j, y) ∷ rs else (j, y) ∷ rest

unfoldable pub sort_reports : List (ℕ × AddrPort) → List (ℕ × AddrPort)
unfolding insert_report
sort_reports [] = []
sort_reports (r ∷ rs) = insert_report r (sort_reports rs)

abbrev pub prepend :
    Probe → AddrPort → List Observation × List Observation → List Observation × List Observation
prepend p seen (xs, ys) = elim p.side [
  | a ↦ (observed p seen ∷ xs, ys)
  | b ↦ (xs, observed p seen ∷ ys)
]

-- The observations of both sides, in send order.
unfoldable pub sorted_out : List Probe → List (ℕ × AddrPort) → List Observation × List Observation
unfolding probe_by_id
sorted_out sent [] = ([], [])
sorted_out sent ((id, seen) ∷ rs) = elim (probe_by_id id sent) [
  | none ↦ sorted_out sent rs
  | some p ↦ prepend p seen (sorted_out sent rs)
]

abbrev pub none_sent : Sent
none_sent = record { sent = []; reports = [] }

-- engine.window: the observations come back also with an error.
unfoldable pub window :
    World
    → Limits
    → List Probe
    → Engine
    → (List Observation × List Observation) × Option Stop × Engine
unfolding repeat_window sort_reports sorted_out
window w lim [] e = (([], []), none, e)
window w lim (p ∷ ps) e =
    let (stop, e', s) = repeat_window w lim (p ∷ ps) lim.repeats e none_sent in
    (sorted_out s.sent (sort_reports s.reports), stop, e')

-- The inner loop of engine.ingest: the store and how many observations were new.
unfoldable pub ingest_side : List Observation → List Observation × ℕ → List Observation × ℕ
unfolding add
ingest_side [] acc = acc
ingest_side (o ∷ os) (store, count) =
    let (fresh, store') = add o store in ingest_side os (store', if fresh then count + 1 else count)

-- engine.ingest
unfoldable pub ingest : List Observation × List Observation → Engine → Engine
unfolding ingest_side
ingest (xs, ys) e =
    let (store_a, new_a) = ingest_side xs (e.peer_a.store, 0) in
    let (store_b, new_b) = ingest_side ys (e.peer_b.store, 0) in
    record e {
      peer_a = record e.peer_a { store = store_a };
      peer_b = record e.peer_b { store = store_b };
      stats = record e.stats { new_observations = e.stats.new_observations + new_a + new_b };
    }
