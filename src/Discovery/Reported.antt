-- ===== src/Discovery/Reported.antt =====
-- window: what it returns are valid samples of probes it sent.
use velvet_fabric.Base.{
  ℕ, zero, suc, ◌+◌, ◌≤◌, ◌≡◌, refl, Bool, true, false, Option, none, some, List, [], ◌∷◌, arith,
  ltb, All, if_keeps,
}
use velvet_fabric.Net.{AddrPort}
use velvet_fabric.Inference.{Observation, observation_is_valid}
use velvet_fabric.Discovery.State.{Probe, Report, Stop, World, Limits, Engine, check}
use velvet_fabric.Discovery.Window.{
  Sent, none_sent, receive, receive_all, send, send_all, collect_reports, repeat_window,
  probe_by_id, insert_report, sort_reports, sorted_out, observed, window,
}

abbrev pub IsValidSample : Observation → Type 0
IsValidSample o = observation_is_valid o ≡ true

-- What window keeps: ids that were given out, and reports that stand for valid samples.
abbrev IdsTo : ℕ → List Probe → Type 0
IdsTo n ps = All (λ p. p.id ≤ n) ps

report_ok : List Probe → ℕ × AddrPort → Bool
unfolding probe_by_id
report_ok sent (id, seen) = elim (probe_by_id id sent) [
  | none ↦ false
  | some p ↦ observation_is_valid (observed p seen)
]

abbrev ReportsOk : ℕ → List Probe → List (ℕ × AddrPort) → Type 0
ReportsOk n sent rs = All (λ r. (r.0 ≤ n) × (report_ok sent r ≡ true)) rs

record IsWindow (n : ℕ) (s : Sent) : Type 0 where
  ids : IdsTo n s.sent
  reports : ReportsOk n s.sent s.reports

probe_by_id-le :
    (n id : ℕ) (ps : List Probe) (p : Probe) → IdsTo n ps → probe_by_id id ps ≡ some p → id ≤ n
unfolding probe_by_id
probe_by_id-le n id [] p h e = cc
probe_by_id-le n id (q ∷ qs) p (hq, h) e = ground (arith, probe_by_id-le n id qs p h)

IdsTo-suc : (n : ℕ) (ps : List Probe) → IdsTo n ps → IdsTo (n + 1) ps
IdsTo-suc n [] h = tt
IdsTo-suc n (p ∷ ps) (hp, h) = (omega arith, IdsTo-suc n ps h)

ReportsOk-suc :
    (n : ℕ) (q : Probe) (sent : List Probe) (rs : List (ℕ × AddrPort))
    → q.id ≡ n + 1
    → ReportsOk n sent rs
    → ReportsOk (n + 1) (q ∷ sent) rs
unfolding report_ok
ReportsOk-suc n q sent [] e h = tt
ReportsOk-suc n q sent ((id, seen) ∷ rs) e ((k, ok'), h) =
    ((omega arith, ground arith), ReportsOk-suc n q sent rs e h)

receive-IsWindow : (n : ℕ) (r : Report) (s : Sent) → IsWindow n s → IsWindow n (receive r s)
unfolding receive report_ok
receive-IsWindow n r s h = on (probe_by_id r.id s.sent) refl
  where
    on : (found : Option Probe) → probe_by_id r.id s.sent ≡ found → IsWindow n (receive r s)
    on none e = rw (e, receive) h
    on (some p) e =
        let le = probe_by_id-le n r.id s.sent p h.ids e in
        rw (e, receive)
          (record { ids = ground (arith, h.ids); reports = ground (arith, h.reports, le, e) })

receive_all-IsWindow :
    (n : ℕ) (rs : List Report) (s : Sent) → IsWindow n s → IsWindow n (receive_all rs s)
unfolding receive_all
receive_all-IsWindow n [] s h = h
receive_all-IsWindow n (r ∷ rs) s h =
    receive_all-IsWindow n rs (receive r s) (receive-IsWindow n r s h)

module _ (w : World) (lim : Limits) where
  send-IsWindow :
      (p : Probe) (e : Engine) (s : Sent)
      → IsWindow e.next_id s
      → IsWindow (send w p e s).1.next_id (send w p e s).2
  unfolding send
  send-IsWindow p e s h = record {
    ids = (omega arith, IdsTo-suc e.next_id s.sent h.ids);
    reports =
        ReportsOk-suc e.next_id (record p { id = e.next_id + 1 }) s.sent s.reports refl h.reports;
  }

  check-next_id : (e : Engine) → (check w lim e).1.next_id ≡ e.next_id
  unfolding check
  check-next_id e = ground arith

  send_all-IsWindow :
      (ps : List Probe) (e : Engine) (s : Sent)
      → IsWindow e.next_id s
      → IsWindow (send_all w lim ps e s).1.next_id (send_all w lim ps e s).2
  unfolding send_all
  send_all-IsWindow [] e s h = h
  send_all-IsWindow (p ∷ ps) e s h =
      let e1 = (check w lim e).1 in
      let h1 : IsWindow e1.next_id s = rw (check-next_id e) h in
      let h2 = send-IsWindow p e1 s h1 in
      let (lost, e2, s2) = send w p e1 s in ground (arith, h1, h2, send_all-IsWindow ps e2 s2 h2)

  collect_reports-IsWindow :
      (e : Engine) (s : Sent)
      → IsWindow e.next_id s
      → IsWindow (collect_reports w e s).1.next_id (collect_reports w e s).2
  unfolding collect_reports
  collect_reports-IsWindow e s h =
      collected (w.wait_error (e.calls + 1)) (w.report_error (e.calls + 3)) refl refl
    where
      collected :
          (lost found : Option Stop)
          → w.wait_error (e.calls + 1) ≡ lost
          → w.report_error (e.calls + 3) ≡ found
          → IsWindow (collect_reports w e s).1.next_id (collect_reports w e s).2
      collected (some why) found e1 e2 = rw (e1, collect_reports) h
      collected none (some why) e1 e2 = ground (arith, e1, e2, h)
      collected none none e1 e2 =
          ground (arith, e1, e2, h, receive_all-IsWindow e.next_id (w.reports (e.calls + 3)) s h)

  repeat_window-IsWindow :
      (ps : List Probe) (left : ℕ) (e : Engine) (s : Sent)
      → IsWindow e.next_id s
      → IsWindow (repeat_window w lim ps left e s).1.next_id (repeat_window w lim ps left e s).2
  unfolding repeat_window
  repeat_window-IsWindow ps zero e s h = h
  repeat_window-IsWindow ps (suc left) e s h =
      let h1 = send_all-IsWindow ps e s h in
      let (stop, e1, s1) = send_all w lim ps e s in
      let h2 = collect_reports-IsWindow e1 s1 h1 in
      let (late, e2, s2) = collect_reports w e1 s1 in
      ground (arith, h1, h2, repeat_window-IsWindow ps left e2 s2 h2)

insert_report-ReportsOk :
    (n : ℕ) (sent : List Probe) (r : ℕ × AddrPort) (rs : List (ℕ × AddrPort))
    → (r.0 ≤ n) × (report_ok sent r ≡ true)
    → ReportsOk n sent rs
    → ReportsOk n sent (insert_report r rs)
unfolding insert_report
insert_report-ReportsOk n sent (i, x) [] k h = (k, tt)
insert_report-ReportsOk n sent (i, x) ((j, y) ∷ rs) k (hj, h) =
    if_keeps (ReportsOk n sent) (ltb i j) _ _ (λ t. (k, (hj, h)))
      (hj, insert_report-ReportsOk n sent (i, x) rs k h)

sort_reports-ReportsOk :
    (n : ℕ) (sent : List Probe) (rs : List (ℕ × AddrPort))
    → ReportsOk n sent rs
    → ReportsOk n sent (sort_reports rs)
unfolding sort_reports
sort_reports-ReportsOk n sent [] h = tt
sort_reports-ReportsOk n sent (r ∷ rs) (k, h) =
    insert_report-ReportsOk n sent r (sort_reports rs) k (sort_reports-ReportsOk n sent rs h)

abbrev pub BothValid : List Observation × List Observation → Type 0
BothValid out = All IsValidSample out.0 × All IsValidSample out.1

sorted_out-BothValid :
    (n : ℕ) (sent : List Probe) (rs : List (ℕ × AddrPort))
    → ReportsOk n sent rs
    → BothValid (sorted_out sent rs)
unfolding sorted_out report_ok
sorted_out-BothValid n sent [] h = (tt, tt)
sorted_out-BothValid n sent ((id, seen) ∷ rs) (k, h) =
    ground (arith, k, sorted_out-BothValid n sent rs h)

pub window-BothValid :
    (w : World) (lim : Limits) (ps : List Probe) (e : Engine) → BothValid (window w lim ps e).0
unfolding window
window-BothValid w lim [] e = (tt, tt)
window-BothValid w lim (p ∷ ps) e =
    let h =
      repeat_window-IsWindow w lim (p ∷ ps) lim.repeats e none_sent
        (record { ids = tt; reports = tt }) in
    sorted_out-BothValid _ _ _ (sort_reports-ReportsOk _ _ _ h.reports)
