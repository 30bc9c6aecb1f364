-- ===== src/Discovery/Select.antt =====
-- search.go: which candidates are tried, and which pairs of them are sent to.
use velvet_fabric.Base.{
  ℕ, zero, suc, ◌+◌, Bool, false, not, ◌&&◌, ◌||◌, List, [], ◌∷◌, ◌++◌, ltb, leb, if◌then◌else◌,
  length,
}
use velvet_fabric.Net.{AddrPort, addr_port_eq}
use velvet_fabric.Inference.{EndpointRange, count_range}
use velvet_fabric.Inference.Infer.{CandidateBatch, Prediction, has_endpoint}
use velvet_fabric.Discovery.State.{Side, a, b, Probe, Limits, Engine}

-- The first loop over a batch; it stops once the count is above the limit.
unfoldable pub count_ranges : ℕ → ℕ → List EndpointRange → ℕ
unfolding count_range
count_ranges limit count [] = count
count_ranges limit count (r ∷ rs) =
    let more = count_ranges limit (count + count_range r) rs in
    if ltb limit (count + count_range r) then count + count_range r else more

-- selected and seen, which hold the same endpoints; `selected` is kept newest first.
unfoldable pub pick : ℕ → AddrPort → List AddrPort → List AddrPort
unfolding has_endpoint
pick limit ep selected =
    if not (has_endpoint ep selected) && ltb (length selected) limit
    then ep ∷ selected
    else selected

-- The loop over the ports of a range, for `left` more of them.
unfoldable pub pick_ports : ℕ → EndpointRange → ℕ → ℕ → List AddrPort → List AddrPort
unfolding pick
pick_ports limit r port zero selected = selected
pick_ports limit r port (suc left) selected =
    pick_ports limit r (port + 1) left (pick limit (record { addr = r.addr; port = port }) selected)

unfoldable pub pick_ranges : ℕ → List EndpointRange → List AddrPort → List AddrPort
unfolding pick_ports count_range
pick_ranges limit [] selected = selected
pick_ranges limit (r ∷ rs) selected =
    pick_ranges limit rs (pick_ports limit r r.first (count_range r) selected)

-- The loop over the batches: the selected endpoints and the number of rejected batches.
unfoldable pub pick_batches : ℕ → List CandidateBatch → List AddrPort × ℕ → List AddrPort × ℕ
unfolding count_ranges pick_ranges
pick_batches limit [] acc = acc
pick_batches limit (c ∷ cs) (selected, rejected) = pick_batches limit cs (
    if ltb limit (count_ranges limit 0 c.ranges)
    then (selected, rejected + 1)
    else (pick_ranges limit c.ranges selected, rejected))

unfoldable pub oldest_first : List AddrPort → List AddrPort
oldest_first [] = []
oldest_first (x ∷ xs) = oldest_first xs ++ (x ∷ [])

-- selectCandidates, with the rejected batches that it counts.
unfoldable pub select_candidates : ℕ → Prediction → List AddrPort × ℕ
unfolding pick_batches oldest_first
select_candidates limit p =
    let (selected, rejected) = pick_batches limit p.candidates ([], 0) in
    (oldest_first selected, rejected)

-- engine.selectCandidates
unfoldable pub select_for : Limits → Prediction → Engine → List AddrPort × Engine
unfolding select_candidates
select_for lim p e =
    let (selected, rejected) = select_candidates lim.candidates p in
    (
      selected,
      record e {
        stats = record e.stats { rejected_batches = e.stats.rejected_batches + rejected };
      },
    )

-- e.tried[key]
unfoldable pub is_tried : AddrPort → AddrPort → List (AddrPort × AddrPort) → Bool
unfolding addr_port_eq
is_tried x y [] = false
is_tried x y ((x', y') ∷ ts) = addr_port_eq x' x && addr_port_eq y' y || is_tried x y ts

-- The locals of engine.try: the probes, the endpoints each side sends to, the tried pairs and their
-- number.
pub record Pairing : Type 0 where
  pub probes : List Probe
  pub sends_a : List AddrPort
  pub sends_b : List AddrPort
  pub tried : List (AddrPort × AddrPort)
  pub pairs : ℕ

-- add
unfoldable pub add_probe : Side → AddrPort → AddrPort → Pairing → Pairing
unfolding has_endpoint
add_probe a local remote p = if has_endpoint remote p.sends_a then p else record p {
  probes = p.probes ++ (record { id = 0; side = a; local = local; remote = remote } ∷ []);
  sends_a = remote ∷ p.sends_a;
}
add_probe b local remote p = if has_endpoint remote p.sends_b then p else record p {
  probes = p.probes ++ (record { id = 0; side = b; local = local; remote = remote } ∷ []);
  sends_b = remote ∷ p.sends_b;
}

unfoldable pub try_pair : Limits → AddrPort → AddrPort → AddrPort → AddrPort → Pairing → Pairing
unfolding is_tried add_probe
try_pair lim local_a local_b x y p =
    if is_tried x y p.tried || leb lim.pairs p.pairs
    then p
    else add_probe b local_b x
        (add_probe a local_a y (record p { tried = (x, y) ∷ p.tried; pairs = p.pairs + 1 }))

unfoldable pub try_row : Limits → AddrPort → AddrPort → AddrPort → List AddrPort → Pairing → Pairing
unfolding try_pair
try_row lim local_a local_b x [] p = p
try_row lim local_a local_b x (y ∷ ys) p =
    try_row lim local_a local_b x ys (try_pair lim local_a local_b x y p)

unfoldable pub try_pairs :
    Limits → AddrPort → AddrPort → List AddrPort → List AddrPort → Pairing → Pairing
unfolding try_row
try_pairs lim local_a local_b [] ys p = p
try_pairs lim local_a local_b (x ∷ xs) ys p =
    try_pairs lim local_a local_b xs ys (try_row lim local_a local_b x ys p)
