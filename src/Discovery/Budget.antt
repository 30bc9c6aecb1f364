-- ===== src/Discovery/Budget.antt =====
-- The search keeps its budgets.
use velvet_fabric.Base.{
  ℕ, zero, suc, ◌+◌, ◌≤◌, ◌<◌, ◌≡◌, refl, Bool, true, false, not, Option, none, List, [], ◌∷◌,
  arith, if_keeps, length, leb, Bool-cases, inl, inr, some,
}
use velvet_fabric.Net.{AddrPort}
use velvet_fabric.Inference.{Observation}
use velvet_fabric.Inference.Infer.{Measurement, MeasurementGroup, Prediction}
use velvet_fabric.Inference.Plan.{infer, is_measured}
use velvet_fabric.Discovery.State.{
  Side, a, b, Probe, Stop, World, Peer, Limits, Engine, Socket, Route, check, open_new, open_socket,
}
use velvet_fabric.Discovery.Select.{select_for, try_pairs}
use velvet_fabric.Discovery.Window.{
  Sent, none_sent, send, send_all, collect_reports, repeat_window, window, ingest,
}
use velvet_fabric.Discovery.Search.{
  Reason, survey_of, try_candidates, measure, measured_of, set_measured, count_branch,
  observe_steps, observe, survey_both, search_round, search_loop, search, forget_socket,
  release_all, is_valid_search, new_engine, has_route, run_search,
}

-- The engine has sent and measured no more than it may, in `n` iterations, and its statistics tell so.
pub record IsWithin (lim : Limits) (n : ℕ) (e : Engine) : Type 0 where
  pub packets : e.stats.packets ≤ lim.packets
  pub measurements : e.stats.measurements ≤ lim.measurements
  pub iterations : e.stats.iterations ≡ n
  pub sent : length e.sends ≡ e.stats.packets
  pub made : length e.measured_a + length e.measured_b ≡ e.stats.measurements

-- A call goes on behind another one that did not stop.
unless_stopped :
    (P : Engine → Type 0) (r : Option Stop × Engine) (go : Engine → Option Stop × Engine)
    → P r.1
    → (P r.1 → P (go r.1).1)
    → P (elim r.0 as (λ s. Option Stop × Engine) [ some why ↦ (some why, r.1) | none ↦ go r.1 ]).1
unless_stopped P (some why, e) go p k = p
unless_stopped P (none, e) go p k = k p

not_le : (m n : ℕ) → leb m n ≡ false → n < m
not_le m n h = ground (arith, h)

module _ (w : World) (lim : Limits) (n : ℕ) where
  check-IsWithin : (e : Engine) → IsWithin lim n e → IsWithin lim n (check w lim e).1
  unfolding check
  check-IsWithin e h = ground arith

  -- A check that passes leaves room for a packet.
  check-room :
      (e : Engine) → (check w lim e).0 ≡ none → (check w lim e).1.stats.packets < lim.packets
  unfolding check
  check-room e p = ground arith

  open_socket-IsWithin :
      (side : Side) (local : AddrPort) (e : Engine)
      → IsWithin lim n e
      → IsWithin lim n (open_socket w lim side local e).1
  unfolding open_socket check open_new
  open_socket-IsWithin side local e h = ground arith

  send-IsWithin :
      (p : Probe) (e : Engine) (s : Sent)
      → IsWithin lim n e
      → e.stats.packets < lim.packets
      → IsWithin lim n (send w p e s).1
  unfolding send
  send-IsWithin p e s h r = ground arith

  send_all-IsWithin :
      (ps : List Probe) (e : Engine) (s : Sent)
      → IsWithin lim n e
      → IsWithin lim n (send_all w lim ps e s).1
  unfolding send_all
  send_all-IsWithin [] e s h = h
  send_all-IsWithin (p ∷ ps) e s h =
      let (lost, e2, s2) = send w p (check w lim e).1 s in
      ground (
        arith,
        check-IsWithin e h,
        check-room e,
        send-IsWithin p (check w lim e).1 s,
        send_all-IsWithin ps e2 s2,
      )

  collect_reports-IsWithin :
      (e : Engine) (s : Sent) → IsWithin lim n e → IsWithin lim n (collect_reports w e s).1
  unfolding collect_reports
  collect_reports-IsWithin e s h = ground arith

  repeat_window-IsWithin :
      (ps : List Probe) (left : ℕ) (e : Engine) (s : Sent)
      → IsWithin lim n e
      → IsWithin lim n (repeat_window w lim ps left e s).1
  unfolding repeat_window
  repeat_window-IsWithin ps zero e s h = h
  repeat_window-IsWithin ps (suc left) e s h =
      let (stop, e1, s1) = send_all w lim ps e s in
      let (late, e2, s2) = collect_reports w e1 s1 in
      ground (
        arith,
        send_all-IsWithin ps e s h,
        collect_reports-IsWithin e1 s1,
        repeat_window-IsWithin ps left e2 s2,
      )

  window-IsWithin :
      (ps : List Probe) (e : Engine) → IsWithin lim n e → IsWithin lim n (window w lim ps e).2
  unfolding window
  window-IsWithin [] e h = h
  window-IsWithin (p ∷ ps) e h = repeat_window-IsWithin (p ∷ ps) lim.repeats e none_sent h

  ingest-IsWithin :
      (seen : List Observation × List Observation) (e : Engine)
      → IsWithin lim n e
      → IsWithin lim n (ingest seen e)
  unfolding ingest
  ingest-IsWithin (xs, ys) e h = ground arith

  try_candidates-IsWithin :
      (xs ys : List AddrPort) (e : Engine)
      → IsWithin lim n e
      → IsWithin lim n (try_candidates w lim xs ys e).2
  unfolding try_candidates
  try_candidates-IsWithin xs ys e h =
      let p =
        try_pairs lim e.peer_a.local e.peer_b.local xs ys
          (record { probes = []; sends_a = []; sends_b = []; tried = e.tried; pairs = 0 }) in
      let untried : IsWithin lim n (record e { tried = p.tried }) = ground arith in
      window-IsWithin p.probes (record e { tried = p.tried }) untried

  measure-IsWithin :
      (side : Side) (m : Measurement) (e : Engine)
      → IsWithin lim n e
      → e.stats.measurements < lim.measurements
      → IsWithin lim n (measure w lim side m e).1
  unfolding measure
  measure-IsWithin side m e h r =
      let marked : Engine =
        set_measured side m
          (record e { stats = record e.stats { measurements = e.stats.measurements + 1 } }) in
      let probe : Probe = record { id = 0; side = side; local = m.local; remote = m.remote } in
      let (closed, e1) = open_socket w lim side m.local marked in
      let (seen, stop, e2) = window w lim (probe ∷ []) e1 in
      let h0 : IsWithin lim n marked = ground arith in
      ground (
        arith,
        open_socket-IsWithin side m.local marked h0,
        window-IsWithin (probe ∷ []) e1,
        ingest-IsWithin seen e2,
      )

  count_branch-IsWithin :
      (entered bootstrap : Bool) (e : Engine)
      → IsWithin lim n e
      → IsWithin lim n (count_branch entered bootstrap e)
        × ((count_branch entered bootstrap e).stats.measurements ≡ e.stats.measurements)
  count_branch-IsWithin entered bootstrap e h = ground arith

  observe_steps-IsWithin :
      (side : Side) (bootstrap entered : Bool) (ms : List Measurement) (e : Engine)
      → IsWithin lim n e
      → IsWithin lim n (observe_steps w lim side bootstrap entered ms e).1
  unfolding observe_steps
  observe_steps-IsWithin side bootstrap entered [] e h = h
  observe_steps-IsWithin side bootstrap entered (m ∷ ms) e h =
      let (h1, same) = count_branch-IsWithin entered bootstrap e h in
      let made = measure-IsWithin side m (count_branch entered bootstrap e) h1 in
      elim (Bool-cases (is_measured m (measured_of side e))) [
        | inl old ↦ rw (old, observe_steps) (observe_steps-IsWithin side bootstrap entered ms e h)
        | inr fresh ↦ elim (Bool-cases (leb lim.measurements e.stats.measurements)) [
          | inl spent ↦ rw (fresh, spent, observe_steps) h
          | inr room ↦
              rw (fresh, room, observe_steps)
                (unless_stopped (IsWithin lim n)
                  (measure w lim side m (count_branch entered bootstrap e))
                  (observe_steps w lim side bootstrap true ms)
                  (made (rw same (not_le lim.measurements e.stats.measurements room)))
                  (λ k. observe_steps-IsWithin side bootstrap true ms _ k))
        ]
      ]

  observe-IsWithin :
      (side : Side) (gs : List MeasurementGroup) (e : Engine)
      → IsWithin lim n e
      → IsWithin lim n (observe w lim side gs e).1
  unfolding observe
  observe-IsWithin side [] e h = h
  observe-IsWithin side (g ∷ gs) e h =
      let (stop, e1) = observe_steps w lim side g.bootstrap false g.steps e in
      ground (
        arith,
        observe_steps-IsWithin side g.bootstrap false g.steps e h,
        observe-IsWithin side gs e1,
      )

  survey_both-IsWithin :
      (before : ℕ) (pa pb : Prediction) (e : Engine)
      → IsWithin lim n e
      → IsWithin lim n (survey_both w lim before pa pb e).1
  unfolding survey_both
  survey_both-IsWithin before pa pb e h =
      let (stop, e1) = observe w lim a pa.plan e in
      let (stop', e2) = observe w lim b pb.plan e1 in
      ground (arith, observe-IsWithin a pa.plan e h, observe-IsWithin b pb.plan e1)

  select_for-IsWithin :
      (p : Prediction) (e : Engine) → IsWithin lim n e → IsWithin lim n (select_for lim p e).1
  unfolding select_for
  select_for-IsWithin p e h = ground arith

search_round-IsWithin :
    (w : World) (lim : Limits) (n : ℕ) (e : Engine)
    → IsWithin lim n e
    → IsWithin lim (n + 1) (search_round w lim e).1
unfolding search_round
search_round-IsWithin w lim n e0 h =
    let e1 : Engine = record e0 {
      stats = record e0.stats { iterations = e0.stats.iterations + 1 };
    } in
    let h1 : IsWithin lim (n + 1) e1 = ground arith in
    let before = e1.stats.new_observations in
    let pa = infer e1.peer_a.store (survey_of e1.peer_a) in
    let pb = infer e1.peer_b.store (survey_of e1.peer_b) in
    let (xs, e2) = select_for lim pa e1 in
    let (ys, e3) = select_for lim pb e2 in
    let (seen, stop, e4) = try_candidates w lim xs ys e3 in
    let e5 = ingest seen e4 in
    let h3 = select_for-IsWithin w lim (n + 1) pb e2 (select_for-IsWithin w lim (n + 1) pa e1 h1) in
    let h5 =
      ingest-IsWithin w lim (n + 1) seen e4 (try_candidates-IsWithin w lim (n + 1) xs ys e3 h3) in
    ground (arith, h5, survey_both-IsWithin w lim (n + 1) before pa pb e5 h5)

-- The probes that were sent, the measurements that were made and the iterations are within their
-- limits, and the statistics count them.
abbrev pub KeepsBudgets : Limits → Engine → Type 0
KeepsBudgets lim e =
    (length e.sends ≤ lim.packets)
    × (length e.measured_a + length e.measured_b ≤ lim.measurements)
    × (e.stats.iterations ≤ lim.max_iterations)
    × (e.stats.packets ≡ length e.sends)
    × (e.stats.measurements ≡ length e.measured_a + length e.measured_b)

search_loop-KeepsBudgets :
    (w : World) (lim : Limits) (left n : ℕ) (e : Engine)
    → IsWithin lim n e
    → n + left ≤ lim.max_iterations
    → KeepsBudgets lim (search_loop w lim left e).1
unfolding search_loop
search_loop-KeepsBudgets w lim zero n e h k = ground arith
search_loop-KeepsBudgets w lim (suc left) n e h k =
    let h1 = check-IsWithin w lim n e h in
    let (stop, e1) = check w lim e in
    let (turn, e2) = search_round w lim e1 in
    let h2 = search_round-IsWithin w lim n e1 h1 in
    ground (arith, h1, h2, search_loop-KeepsBudgets w lim left (n + 1) e2)

search-KeepsBudgets :
    (w : World) (lim : Limits) (e : Engine) → IsWithin lim 0 e → KeepsBudgets lim (search w lim e).1
unfolding search
search-KeepsBudgets w lim e h =
    let h1 = open_socket-IsWithin w lim 0 a e.peer_a.local e h in
    let (stop, e1) = open_socket w lim a e.peer_a.local e in
    let h2 = open_socket-IsWithin w lim 0 b e1.peer_b.local e1 h1 in
    let (stop', e2) = open_socket w lim b e1.peer_b.local e1 in
    ground (arith, h1, h2, search_loop-KeepsBudgets w lim lim.max_iterations 0 e2 h2)

forget_socket-KeepsBudgets :
    (lim : Limits) (s : Socket) (e : Engine)
    → KeepsBudgets lim e
    → KeepsBudgets lim (forget_socket s e)
unfolding forget_socket
forget_socket-KeepsBudgets lim s e h = ground (arith, h)

release_all-KeepsBudgets :
    (lim : Limits) (kept : Bool) (ss : List Socket) (e : Engine)
    → KeepsBudgets lim e
    → KeepsBudgets lim (release_all kept ss e).1
unfolding release_all
release_all-KeepsBudgets lim kept [] e h = h
release_all-KeepsBudgets lim kept (s ∷ ss) e h =
    let freed = forget_socket-KeepsBudgets lim s e h in
    ground (
      arith,
      release_all-KeepsBudgets lim kept ss e h,
      release_all-KeepsBudgets lim kept ss (forget_socket s e) freed,
    )

-- Whatever the network answers, a search gives Send no more probes, makes no more measurements and
-- runs no more iterations than its limits say, and its statistics count the probes and the
-- measurements.
pub run_search-KeepsBudgets :
    (w : World) (lim : Limits) (p q : Peer) → KeepsBudgets lim (run_search w lim p q).2
unfolding run_search
run_search-KeepsBudgets w lim p q =
    let start = new_engine w lim p q in
    let (result, e) = search w lim start in
    let begins : IsWithin lim 0 start = ground arith in
    let kept = search-KeepsBudgets w lim start begins in
    if_keeps (λ (r : (Reason × Option Route) × List Socket × Engine). KeepsBudgets lim r.2)
      (not (is_valid_search lim p q)) _ _ (λ t. (omega arith, omega arith, omega arith, refl, refl))
      (release_all-KeepsBudgets lim (has_route result.1) e.opened e kept)
