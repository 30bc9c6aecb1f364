-- ===== src/Discovery/State.antt =====
-- search.go: the types of the search. The network is an adversary that answers each call by its
-- number; a time is a number of nanoseconds.
use velvet_fabric.Base.{
  ℕ, ◌+◌, Bool, true, false, ◌&&◌, ◌||◌, Option, none, some, List, [], ◌∷◌, ◌++◌, leb,
  if◌then◌else◌,
}
use velvet_fabric.Net.{Addr, AddrPort, addr_port_eq}
use velvet_fabric.Inference.{Observation}
use velvet_fabric.Inference.Infer.{Observer, Measurement}

pub data Side : Type 0 where
  a b : Side

pub record Probe : Type 0 where
  pub id : ℕ
  pub side : Side
  pub local : AddrPort
  pub remote : AddrPort

pub record Report : Type 0 where
  pub id : ℕ
  pub seen : AddrPort

-- Why the engine stops: its own budget, a cancelled context, or an error of the network.
pub data Stop : Type 0 where
  budget cancelled failed : Stop

-- The context and the network: what the n-th call finds. `none` is a nil error.
pub record World : Type 0 where
  pub context : ℕ → Bool
  pub now : ℕ → ℕ
  pub open_error : ℕ → Option Stop
  pub send_error : ℕ → Option Stop
  pub wait_error : ℕ → Option Stop
  pub report_error : ℕ → Option Stop
  pub reports : ℕ → List Report

pub record Peer : Type 0 where
  pub local : AddrPort
  pub target : AddrPort
  pub public_ips : List Addr
  pub observers : List Observer
  pub store : List Observation

pub record Limits : Type 0 where
  pub timeout : ℕ
  pub interval : ℕ
  pub packets : ℕ
  pub measurements : ℕ
  pub candidates : ℕ
  pub pairs : ℕ
  pub repeats : ℕ
  pub max_iterations : ℕ

pub record Stats : Type 0 where
  pub iterations : ℕ
  pub packets : ℕ
  pub measurements : ℕ
  pub new_observations : ℕ
  pub rejected_batches : ℕ
  pub bootstrap_branches : ℕ
  pub other_branches : ℕ

abbrev pub no_stats : Stats
no_stats = record {
  iterations = 0;
  packets = 0;
  measurements = 0;
  new_observations = 0;
  rejected_batches = 0;
  bootstrap_branches = 0;
  other_branches = 0;
}

-- Path
pub record Route : Type 0 where
  pub local_a : AddrPort
  pub local_b : AddrPort
  pub endpoint_a : AddrPort
  pub endpoint_b : AddrPort

pub record Socket : Type 0 where
  pub side : Side
  pub local : AddrPort

-- engine; `sends` records the probes that Send was given, newest first, and `calls` numbers the calls
-- of the network and of the context.
pub record Engine : Type 0 where
  pub peer_a : Peer
  pub peer_b : Peer
  pub until : ℕ
  pub stats : Stats
  pub next_id : ℕ
  pub opened : List Socket
  pub tried : List (AddrPort × AddrPort)
  pub measured_a : List Measurement
  pub measured_b : List Measurement
  pub sends : List Probe
  pub calls : ℕ

abbrev pub peer_of : Side → Engine → Peer
peer_of a e = e.peer_a
peer_of b e = e.peer_b

abbrev pub same_side : Side → Side → Bool
same_side a a = true
same_side b b = true
same_side _ _ = false

-- One more call.
abbrev pub called : Engine → Engine
called e = record e { calls = e.calls + 1 }

-- engine.check
unfoldable pub check : World → Limits → Engine → Option Stop × Engine
check w lim e =
    if w.context e.calls
    then (some cancelled, called e)
    else if leb e.until (w.now e.calls) || leb lim.packets e.stats.packets
    then (some budget, called e)
    else (none, called e)

unfoldable pub is_open : Socket → List Socket → Bool
unfolding addr_port_eq
is_open s [] = false
is_open s (t ∷ ts) = same_side t.side s.side && addr_port_eq t.local s.local || is_open s ts

-- The call of network.Open, and append(e.opened, resource).
unfoldable pub open_new : World → Socket → Engine → Option Stop × Engine
open_new w s e = elim (w.open_error e.calls) [
  | some stop ↦ (some stop, called e)
  | none ↦ (none, record (called e) { opened = e.opened ++ (s ∷ []) })
]

-- engine.open
unfoldable pub open_socket : World → Limits → Side → AddrPort → Engine → Option Stop × Engine
unfolding check is_open open_new
open_socket w lim side local e =
    let (stop, e') = check w lim e in
    let s : Socket = record { side = side; local = local } in
    elim stop [
      | some why ↦ (some why, e')
      | none ↦ if is_open s e'.opened then (none, e') else open_new w s e'
    ]
