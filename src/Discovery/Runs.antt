-- ===== src/Discovery/Runs.antt =====
-- Runs of the two searches: between sockets that see each other directly, and of one node.
use velvet_fabric.Base.{
  ℕ, ◌+◌, ◌≡◌, refl, true, false, Option, none, some, List, [], ◌∷◌, arith, ◌==◌, All,
}
use velvet_fabric.Base.Bytes.{Bytes}
use velvet_fabric.Net.{Addr, none_addr, v4, v6, AddrPort, addr_is_valid}
use velvet_fabric.Inference.{Observation}
use velvet_fabric.Link.Derive.{codes}
use velvet_fabric.Discovery.State.{World, Peer, Limits, Route, Stop}
use velvet_fabric.Discovery.Search.{connected, run_search}
use velvet_fabric.Discovery.Budget.{KeepsBudgets, run_search-KeepsBudgets}
use velvet_fabric.Discovery.Path.{Stored, run_search-Stored}
use velvet_fabric.Discovery.Peer.{
  Arrival, PeerNetwork, is_valid_peer, run_peer, all_paths, reciprocal, agreed_path,
}
use velvet_fabric.Net.Laws.{addr_port_eq_iff}
use velvet_fabric.Discovery.Rounds.{EndsRun, run_peer-EndsRun}
use velvet_fabric.Discovery.Reciprocal.{has_path}
use velvet_fabric.Discovery.Found.{IsFound, run_peer-IsFound}
use velvet_fabric.Discovery.Meeting.{first_batch, IsConnected, IsRelay, run_peer-IsConnected}
use velvet_fabric.Discovery.Symmetric.{IsText, IsReal, flipped, ends_of, agreed_path-reciprocal}

abbrev left : AddrPort
left = record { addr = v4 167772161; port = 4000 }

abbrev right : AddrPort
right = record { addr = v4 167772162; port = 5000 }

abbrev peer_left : Peer
peer_left = record {
  local = left;
  target = right;
  public_ips = v4 167772161 ∷ [];
  observers = [];
  store = [];
}

abbrev peer_right : Peer
peer_right = record {
  local = right;
  target = left;
  public_ips = v4 167772162 ∷ [];
  observers = [];
  store = [];
}

abbrev limits : Limits
limits = record {
  timeout = 1000;
  interval = 10;
  packets = 8;
  measurements = 4;
  candidates = 2;
  pairs = 4;
  repeats = 1;
  max_iterations = 2;
}

abbrev never : ℕ → Option Stop
never n = none

-- The probes with the ids 1 and 2 are seen at the sockets that sent them.
abbrev world : World
world = record {
  context = λ n. false;
  now = λ n. 0;
  open_error = never;
  send_error = never;
  wait_error = never;
  report_error = never;
  reports = λ n. record { id = 2; seen = right } ∷ record { id = 1; seen = left } ∷ [];
}

abbrev direct : Route
direct = record { local_a = left; local_b = right; endpoint_a = left; endpoint_b = right }

found_direct : (run_search world limits peer_left peer_right).0.1 ≡ some direct
unfolding run_search
found_direct = refl

run_search-KeepsBudgets_example :
    KeepsBudgets limits (run_search world limits peer_left peer_right).2
run_search-KeepsBudgets_example = run_search-KeepsBudgets world limits peer_left peer_right

run_search-Stored_example : Stored direct (run_search world limits peer_left peer_right).2
run_search-Stored_example = run_search-Stored world limits peer_left peer_right direct found_direct

-- A text of endpoints without "/": the numbers themselves, from 48 up, and one text for all that are
-- not valid.
abbrev text_of : Addr → ℕ → Bytes
text_of none_addr port = codes "invalid AddrPort"
text_of (v4 n) port = 4 ∷ (48 + n) ∷ (48 + port) ∷ []
text_of (v6 n) port = 6 ∷ (48 + n) ∷ (48 + port) ∷ []

abbrev plain_text : AddrPort → Bytes
plain_text x = text_of x.addr x.port

-- The other node sends its own candidates and path, and the probe of each node reaches the other.
abbrev network : PeerNetwork
network = record {
  exchange = λ n batch. some (record { endpoints = right ∷ []; changed = true });
  try = λ n endpoints. some (
    record { local = left; remote = right; seen = left } ∷ [],
    record { destination = left; source = right } ∷ [],
  );
  agree = λ n path. some (right ∷ left ∷ []);
  observe = λ n input store. none;
}

connected_left : (run_peer plain_text network peer_left limits).1.reason ≡ some connected
unfolding run_peer
connected_left = refl

run_peer-EndsRun_example : EndsRun 0 2 (run_peer plain_text network peer_left limits)
unfolding is_valid_peer
run_peer-EndsRun_example = run_peer-EndsRun plain_text network peer_left limits tt

run_peer-IsFound_example : IsFound network left (run_peer plain_text network peer_left limits).1
run_peer-IsFound_example = run_peer-IsFound plain_text network peer_left limits tt connected_left

text_of-plain :
    (x : Addr) (port : ℕ) → addr_is_valid x ≡ true → All (λ c. (c == 47) ≡ false) (text_of x port)
text_of-plain none_addr port h = cc
text_of-plain (v4 n) port h = (refl, (ground arith, (ground arith, tt)))
text_of-plain (v6 n) port h = (refl, (ground arith, (ground arith, tt)))

text_of-injective :
    (x y : Addr) (i j : ℕ)
    → addr_is_valid x ≡ true
    → addr_is_valid y ≡ true
    → text_of x i ≡ text_of y j
    → (x ≡ y) × (i ≡ j)
text_of-injective none_addr y i j h k e = cc
text_of-injective (v4 n) none_addr i j h k e = cc
text_of-injective (v6 n) none_addr i j h k e = cc
text_of-injective (v4 n) (v4 m) i j h k e = ground (arith, e)
text_of-injective (v4 n) (v6 m) i j h k e = ground (arith, e)
text_of-injective (v6 n) (v4 m) i j h k e = ground (arith, e)
text_of-injective (v6 n) (v6 m) i j h k e = ground (arith, e)

plain_text-IsText : IsText plain_text
plain_text-IsText = record {
  plain = λ x r. text_of-plain x.addr x.port (ground (arith, r.0));
  injective = λ x y r s h.
      (let same =
          text_of-injective x.addr y.addr x.port y.port (ground (arith, r.0)) (ground (arith, s.0))
            h in
        ground (arith, same));
}

abbrev samples_left : List Observation
samples_left = record { local = left; remote = right; seen = left } ∷ []

abbrev samples_right : List Observation
samples_right = record { local = right; remote = left; seen = right } ∷ []

abbrev arrivals_left : List Arrival
arrivals_left = record { destination = left; source = right } ∷ []

abbrev arrivals_right : List Arrival
arrivals_right = record { destination = right; source = left } ∷ []

samples_left-IsReal : All IsReal samples_left
samples_left-IsReal = (((refl, omega arith, omega arith), (refl, omega arith, omega arith)), tt)

same_paths :
    (x y : AddrPort)
    → has_path (x, y) (all_paths samples_left arrivals_left left)
      ≡ has_path (y, x) (all_paths samples_right arrivals_right right)
unfolding all_paths
same_paths x y = ground arith

one_way :
    (x y : AddrPort)
    → has_path (x, y) (all_paths samples_left arrivals_left left) ≡ true
    → has_path (y, x) (all_paths samples_left arrivals_left left) ≡ false
unfolding all_paths
one_way x y h = ground (
  arith,
  h,
  addr_port_eq_iff left x,
  addr_port_eq_iff right y,
  addr_port_eq_iff left y,
  addr_port_eq_iff right x,
)

agreed_path-reciprocal_example :
    (reciprocal plain_text samples_right arrivals_right right
      ≡ flipped (reciprocal plain_text samples_left arrivals_left left))
    × (agreed_path
          (reciprocal plain_text samples_left arrivals_left left)
          (reciprocal plain_text samples_right arrivals_right right)
        ≡ ends_of (reciprocal plain_text samples_left arrivals_left left))
agreed_path-reciprocal_example =
    agreed_path-reciprocal plain_text samples_left samples_right arrivals_left arrivals_right left
      right plain_text-IsText samples_left-IsReal same_paths one_way

-- Two networks that relay between the nodes.
abbrev network_left : PeerNetwork
network_left = record {
  exchange = λ n batch. some (first_batch peer_right limits);
  try = λ n endpoints. some (samples_left, arrivals_left);
  agree = λ n path. some (reciprocal plain_text samples_right arrivals_right right);
  observe = λ n input store. none;
}

abbrev network_right : PeerNetwork
network_right = record {
  exchange = λ n batch. some (first_batch peer_left limits);
  try = λ n endpoints. some (samples_right, arrivals_right);
  agree = λ n path. some (reciprocal plain_text samples_left arrivals_left left);
  observe = λ n input store. none;
}

networks-IsRelay :
    IsRelay plain_text network_left network_right peer_left peer_right limits samples_left
      samples_right arrivals_left arrivals_right
networks-IsRelay = record {
  sent = refl;
  received = refl;
  tried = refl;
  tried' = refl;
  told = refl;
  told' = refl;
}

both_valid : (is_valid_peer peer_left limits ≡ true) × (is_valid_peer peer_right limits ≡ true)
unfolding is_valid_peer
both_valid = (refl, refl)

direct_path : has_path (left, right) (all_paths samples_left arrivals_left left) ≡ true
unfolding all_paths
direct_path = refl

run_peer-IsConnected_example :
    (x : AddrPort) × (y : AddrPort) × IsConnected x y
      (run_peer plain_text network_left peer_left limits)
    × IsConnected y x (run_peer plain_text network_right peer_right limits)
run_peer-IsConnected_example =
    run_peer-IsConnected plain_text network_left network_right peer_left peer_right limits
      samples_left samples_right arrivals_left arrivals_right (left, right) plain_text-IsText
      samples_left-IsReal both_valid.0 both_valid.1 networks-IsRelay same_paths one_way direct_path
