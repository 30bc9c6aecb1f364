-- ===== src/Inference.antt =====
-- internal/inference: endpoint evidence and the store of mapping samples. Infer and Plan have the
-- inference of candidates from the samples. A Link identity is a byte string.
pub mod Infer
pub mod Plan
pub mod Candidates
pub mod Steps
pub mod Store
pub mod Sets
pub mod Runs
use velvet_fabric.Base.{
  ℕ, suc, ◌+◌, ◌-◌, Bool, true, false, List, [], ◌∷◌, Option, none, some, if◌then◌else◌, ◌&&◌, ◌||◌,
  ◌==◌, ltb, not, length, Result, ok, err, plain,
}
use velvet_fabric.Base.Bytes.{Bytes}
use velvet_fabric.Net.{
  Addr, AddrPort, addr_port_is_valid, addr_is_valid, is_unspecified, is_multicast, is4,
  addr_port_eq,
}

pub record Evidence : Type 0 where
  pub link : Bytes
  pub local_listen_port : ℕ
  pub observed_endpoint : AddrPort

-- Evidence.Valid
unfoldable pub evidence_is_valid : Evidence → Bool
evidence_is_valid e =
    not (length e.link == 0)
    && not (e.local_listen_port == 0)
    && addr_port_is_valid e.observed_endpoint
    && not (e.observed_endpoint.port == 0)

-- The listen port is a Go int; a negative one fails like 0.
unfoldable pub new_evidence : Bytes → ℕ → AddrPort → Result Evidence
new_evidence link port observed =
    if length link == 0
    then err plain
    else if ltb port 1 || ltb 65535 port
    then err plain
    else if not (addr_port_is_valid observed) || observed.port == 0
    then err plain
    else ok (record { link = link; local_listen_port = port; observed_endpoint = observed })

unfoldable pub baseline : List Evidence → ℕ → Option AddrPort
unfolding evidence_is_valid
baseline [] port = none
baseline (e ∷ es) port =
    if not (evidence_is_valid e) || ltb port 1 || ltb 65535 port
    then none
    else some (record { addr = e.observed_endpoint.addr; port = port })

pub record Observation : Type 0 where
  pub local : AddrPort
  pub remote : AddrPort
  pub seen : AddrPort

unfoldable pub usable_endpoint : AddrPort → Bool
usable_endpoint ep =
    addr_port_is_valid ep
    && not (ep.port == 0)
    && not (is_unspecified ep.addr)
    && not (is_multicast ep.addr)

abbrev pub same : Bool → Bool → Bool
same true b = b
same false b = not b

-- Observation.Valid
unfoldable pub observation_is_valid : Observation → Bool
unfolding usable_endpoint
observation_is_valid o =
    usable_endpoint o.local
    && usable_endpoint o.remote
    && usable_endpoint o.seen
    && same (is4 o.local.addr) (is4 o.remote.addr)
    && same (is4 o.local.addr) (is4 o.seen.addr)

-- o == p on structs
unfoldable pub observation_eq : Observation → Observation → Bool
unfolding addr_port_eq
observation_eq o p =
    addr_port_eq o.local p.local && addr_port_eq o.remote p.remote && addr_port_eq o.seen p.seen

-- slices.Contains
unfoldable pub is_stored : Observation → List Observation → Bool
unfolding observation_eq
is_stored o [] = false
is_stored o (p ∷ ps) = observation_eq p o || is_stored o ps

-- append(s.observations, o)
unfoldable pub put_last : List Observation → Observation → List Observation
put_last [] o = o ∷ []
put_last (p ∷ ps) o = p ∷ put_last ps o

-- Store.Add
unfoldable pub add : Observation → List Observation → Bool × List Observation
unfolding observation_is_valid is_stored put_last
add o store =
    if not (observation_is_valid o) || is_stored o store
    then (false, store)
    else (true, put_last store o)

-- Store.ForgetLocal
unfoldable pub forget_local : AddrPort → List Observation → List Observation
unfolding addr_port_eq
forget_local local [] = []
forget_local local (o ∷ os) =
    let rest = forget_local local os in if addr_port_eq o.local local then rest else o ∷ rest

pub record EndpointRange : Type 0 where
  pub addr : Addr
  pub first : ℕ
  pub last : ℕ

-- EndpointRange.Count
unfoldable pub count_range : EndpointRange → ℕ
count_range r =
    if not (addr_is_valid r.addr) || r.first == 0 || ltb r.last r.first
    then 0
    else r.last - r.first + 1
