-- ===== src/Discovery/Path.antt =====
-- The path that a search finds was observed from both sides.
use velvet_fabric.Base.{
  ℕ, zero, suc, ◌+◌, ◌≡◌, refl, subst, ◌≢◌, inl, inr, true, false, Option, none, some, List, [],
  ◌∷◌, arith, Bool-cases, All,
}
use velvet_fabric.Net.{AddrPort, addr_port_eq}
use velvet_fabric.Net.Laws.{addr_port_eq_iff}
use velvet_fabric.Inference.{Observation, observation_eq, is_stored, add}
use velvet_fabric.Inference.Store.{observation_eq_iff, is_stored-put_last, forget_local-is_stored}
use velvet_fabric.Inference.Infer.{Prediction}
use velvet_fabric.Inference.Plan.{infer}
use velvet_fabric.Discovery.State.{
  Side, a, b, Stop, World, Peer, Limits, Engine, Socket, Route, check, open_socket, peer_of,
}
use velvet_fabric.Discovery.Select.{select_for}
use velvet_fabric.Discovery.Window.{ingest_side, ingest}
use velvet_fabric.Discovery.Search.{
  Reason, survey_of, Turn, again, ended, try_candidates, match_with, matched_path, survey_both,
  search_round, search_loop, search, forget_socket, release_all, is_valid_search, new_engine,
  run_search,
}
use velvet_fabric.Discovery.Reported.{IsValidSample, BothValid, window-BothValid}

-- The mapped endpoints of a path, as each side has observed them.
abbrev pub sample_a : Route → Observation
sample_a r = record { local = r.local_a; remote = r.endpoint_b; seen = r.endpoint_a }

abbrev pub sample_b : Route → Observation
sample_b r = record { local = r.local_b; remote = r.endpoint_a; seen = r.endpoint_b }

stored_head : (o p : Observation) (os : List Observation) → o ≡ p → is_stored p (o ∷ os) ≡ true
unfolding is_stored
stored_head o p os e = ground (arith, (observation_eq_iff o p).1 e)

stored_tail :
    (o p : Observation) (os : List Observation)
    → is_stored p os ≡ true
    → is_stored p (o ∷ os) ≡ true
unfolding is_stored
stored_tail o p os h = ground arith

match_with-stored :
    (local_b : AddrPort) (o : Observation) (ys : List Observation) (r : Route)
    → match_with local_b o ys ≡ some r
    → (sample_a r ≡ o) × (r.local_b ≡ local_b) × (is_stored (sample_b r) ys ≡ true)
unfolding match_with is_stored observation_eq
match_with-stored local_b o [] r e = cc
match_with-stored local_b o (p ∷ ps) r e = ground (
  arith,
  match_with-stored local_b o ps r,
  addr_port_eq_iff p.local local_b,
  addr_port_eq_iff o.remote p.seen,
  addr_port_eq_iff p.remote o.seen,
  observation_eq_iff p (sample_b r),
)

matched_path-stored :
    (local_a local_b : AddrPort) (xs ys : List Observation) (r : Route)
    → matched_path local_a local_b xs ys ≡ some r
    → (r.local_a ≡ local_a)
      × (r.local_b ≡ local_b)
      × (is_stored (sample_a r) xs ≡ true)
      × (is_stored (sample_b r) ys ≡ true)
unfolding matched_path is_stored
matched_path-stored local_a local_b [] ys r e = cc
matched_path-stored local_a local_b (o ∷ os) ys r e = ground (
  arith,
  matched_path-stored local_a local_b os ys r,
  match_with-stored local_b o ys r,
  addr_port_eq_iff o.local local_a,
  observation_eq_iff o (sample_a r),
)

add-stored :
    (o p : Observation) (store : List Observation)
    → is_stored p store ≡ true
    → is_stored p (add o store).1 ≡ true
unfolding add
add-stored o p store h = ground (arith, is_stored-put_last o p store)

add-stored_self :
    (o : Observation) (store : List Observation)
    → IsValidSample o
    → is_stored o (add o store).1 ≡ true
unfolding add
add-stored_self o store v = ground (arith, is_stored-put_last o o store, observation_eq_iff o o)

ingest_side-keeps :
    (os : List Observation) (p : Observation) (store : List Observation) (n : ℕ)
    → is_stored p store ≡ true
    → is_stored p (ingest_side os (store, n)).0 ≡ true
unfolding ingest_side
ingest_side-keeps [] p store n h = h
ingest_side-keeps (o ∷ os) p store n h =
    ingest_side-keeps os p (add o store).1 _ (add-stored o p store h)

ingest_side-stored :
    (os : List Observation) (p : Observation) (store : List Observation) (n : ℕ)
    → All IsValidSample os
    → is_stored p os ≡ true
    → is_stored p (ingest_side os (store, n)).0 ≡ true
unfolding ingest_side is_stored
ingest_side-stored [] p store n v h = cc
ingest_side-stored (o ∷ os) p store n (vo, v) h = elim (Bool-cases (observation_eq o p)) [
  | inl same ↦
      let e : o ≡ p = (observation_eq_iff o p).0 same in
      ingest_side-keeps os p (add o store).1 _
        (subst (λ q. is_stored q (add o store).1 ≡ true) e (add-stored_self o store vo))
  | inr other ↦ ingest_side-stored os p (add o store).1 _ v (ground arith)
]

-- The samples of a path are in the stores of both sides.
abbrev pub Stored : Route → Engine → Type 0
Stored r e =
    (r.local_a ≡ e.peer_a.local)
    × (r.local_b ≡ e.peer_b.local)
    × (is_stored (sample_a r) e.peer_a.store ≡ true)
    × (is_stored (sample_b r) e.peer_b.store ≡ true)

ingest-Stored :
    (seen : List Observation × List Observation) (e : Engine) (r : Route)
    → BothValid seen
    → matched_path (ingest seen e).peer_a.local (ingest seen e).peer_b.local seen.0 seen.1 ≡ some r
    → Stored r (ingest seen e)
unfolding ingest
ingest-Stored (xs, ys) e r (vx, vy) h =
    let (la, lb, sa, sb) = matched_path-stored e.peer_a.local e.peer_b.local xs ys r h in
    (
      la,
      lb,
      ingest_side-stored xs (sample_a r) e.peer_a.store 0 vx sa,
      ingest_side-stored ys (sample_b r) e.peer_b.store 0 vy sb,
    )

survey_both-none :
    (w : World) (lim : Limits) (before : ℕ) (pa pb : Prediction) (e : Engine) (why : Reason)
    (r : Route)
    → (survey_both w lim before pa pb e).0 ≢ ended why (some r)
unfolding survey_both
survey_both-none w lim before pa pb e why r h = ground arith

search_round-Stored :
    (w : World) (lim : Limits) (e : Engine) (why : Reason) (r : Route)
    → (search_round w lim e).0 ≡ ended why (some r)
    → Stored r (search_round w lim e).1
unfolding search_round
search_round-Stored w lim e0 why r h =
    let e1 : Engine = record e0 {
      stats = record e0.stats { iterations = e0.stats.iterations + 1 };
    } in
    let before = e1.stats.new_observations in
    let pa = infer e1.peer_a.store (survey_of e1.peer_a) in
    let pb = infer e1.peer_b.store (survey_of e1.peer_b) in
    let (xs, e2) = select_for lim pa e1 in
    let (ys, e3) = select_for lim pb e2 in
    let (seen, stop, e4) = try_candidates w lim xs ys e3 in
    let e5 = ingest seen e4 in
    let valid : BothValid seen = unfold try_candidates in window-BothValid w lim _ _ in
    ground
      (arith, h, valid, ingest-Stored seen e4 r valid, survey_both-none w lim before pa pb e5 why r)

search_loop-Stored :
    (w : World) (lim : Limits) (left : ℕ) (e : Engine) (r : Route)
    → (search_loop w lim left e).0.1 ≡ some r
    → Stored r (search_loop w lim left e).1
unfolding search_loop
search_loop-Stored w lim zero e r h = cc
search_loop-Stored w lim (suc left) e r h =
    let rest = search_loop-Stored w lim left (search_round w lim (check w lim e).1).1 r in
    turned rest (check w lim e).0 (search_round w lim (check w lim e).1).0 refl refl
  where
    turned :
        ((search_loop w lim left (search_round w lim (check w lim e).1).1).0.1 ≡ some r
          → Stored r (search_loop w lim left (search_round w lim (check w lim e).1).1).1)
        → (stop : Option Stop) (turn : Turn) → (check w lim e).0 ≡ stop
        → (search_round w lim (check w lim e).1).0 ≡ turn
        → Stored r (search_loop w lim (suc left) e).1
    turned rest (some why) turn e1 e2 = ground (arith, h, e1)
    turned rest none again e1 e2 = ground (arith, h, e1, e2, rest)
    turned rest none (ended why route) e1 e2 =
        ground (arith, h, e1, e2, search_round-Stored w lim (check w lim e).1 why r)

search-Stored :
    (w : World) (lim : Limits) (e : Engine) (r : Route)
    → (search w lim e).0.1 ≡ some r
    → Stored r (search w lim e).1
unfolding search
search-Stored w lim e r h =
    let (stop, e1) = open_socket w lim a e.peer_a.local e in
    let (stop', e2) = open_socket w lim b e1.peer_b.local e1 in
    ground (arith, h, search_loop-Stored w lim lim.max_iterations e2 r)

forget_socket-Stored :
    (s : Socket) (e : Engine) (r : Route)
    → addr_port_eq s.local (peer_of s.side e).local ≡ false
    → Stored r e
    → Stored r (forget_socket s e)
unfolding forget_socket
forget_socket-Stored s e r other (la, lb, sa, sb) = closed s.side refl
  where
    closed : (side : Side) → s.side ≡ side → Stored r (forget_socket s e)
    closed a e1 =
        let kept = forget_local-is_stored s.local (sample_a r) e.peer_a.store in
        let apart = addr_port_eq_iff r.local_a s.local in
        let apart' = addr_port_eq_iff s.local e.peer_a.local in
        ground (arith, e1, other, kept, apart, apart', la, lb, sa, sb)
    closed b e1 =
        let kept = forget_local-is_stored s.local (sample_b r) e.peer_b.store in
        let apart = addr_port_eq_iff r.local_b s.local in
        let apart' = addr_port_eq_iff s.local e.peer_b.local in
        ground (arith, e1, other, kept, apart, apart', la, lb, sa, sb)

release_all-Stored :
    (ss : List Socket) (e : Engine) (r : Route) → Stored r e → Stored r (release_all true ss e).1
unfolding release_all
release_all-Stored [] e r h = h
release_all-Stored (s ∷ ss) e r h =
    elim (Bool-cases (addr_port_eq s.local (peer_of s.side e).local)) [
      | inl primary ↦ rw (primary) (release_all-Stored ss e r h)
      | inr other ↦
          rw (other)
            (release_all-Stored ss (forget_socket s e) r (forget_socket-Stored s e r other h))
    ]

-- When a search returns a path, its local endpoints are those of the two peers, and each side still
-- stores the sample of it: the side's own local endpoint, the endpoint at which the other side was
-- seen, and the endpoint at which the side itself was seen.
pub run_search-Stored :
    (w : World) (lim : Limits) (p q : Peer) (r : Route)
    → (run_search w lim p q).0.1 ≡ some r
    → Stored r (run_search w lim p q).2
unfolding run_search
run_search-Stored w lim p q r h = elim (Bool-cases (is_valid_search lim p q)) [
  | inl valid ↦
      (let (result, e) = search w lim (new_engine w lim p q) in
        let found = search-Stored w lim (new_engine w lim p q) r in
        ground (arith, valid, h, found, release_all-Stored e.opened e r))
  | inr refused ↦ ground (arith, h, refused)
]
