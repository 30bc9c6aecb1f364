-- ===== src/Inference/Infer.antt =====
-- internal/inference/survey.go: Infer, which derives candidate endpoints from the samples of a store.
-- A map from endpoints to samples is the list of its keys with a filter.
use velvet_fabric.Base.{
  ℕ, ◌+◌, ◌-◌, Bool, true, false, not, ◌&&◌, ◌||◌, List, [], ◌∷◌, ◌++◌, ◌==◌, ltb, leb,
  if◌then◌else◌, length,
}
use velvet_fabric.Net.{
  Addr, AddrPort, addr_is_valid, is_unspecified, is_multicast, is4, addr_eq, addr_port_eq,
}
use velvet_fabric.Inference.{
  Observation, usable_endpoint, observation_is_valid, same, EndpointRange,
}

-- Observer
pub record Observer : Type 0 where
  pub bootstrap : Bool
  pub endpoints : List AddrPort

pub record Measurement : Type 0 where
  pub local : AddrPort
  pub remote : AddrPort

pub record MeasurementGroup : Type 0 where
  pub bootstrap : Bool
  pub steps : List Measurement

-- CandidateBatch.Basis
pub data Basis : Type 0 where
  observed_target target_address shared_mapping port_preservation port_offset : Basis
  allocation_sequence unconstrained : Basis

pub record CandidateBatch : Type 0 where
  pub basis : Basis
  pub ranges : List EndpointRange

pub record SurveyInput : Type 0 where
  pub local : AddrPort
  pub target : AddrPort
  pub public_ips : List Addr
  pub observers : List Observer
  pub base_only : Bool

pub record Prediction : Type 0 where
  pub candidates : List CandidateBatch
  pub plan : List MeasurementGroup

-- slices.Contains on addresses, ranges, endpoints and ports
unfoldable pub has_addr : Addr → List Addr → Bool
unfolding addr_eq
has_addr a [] = false
has_addr a (b ∷ bs) = addr_eq b a || has_addr a bs

unfoldable pub range_eq : EndpointRange → EndpointRange → Bool
unfolding addr_eq
range_eq r s = addr_eq r.addr s.addr && r.first == s.first && r.last == s.last

unfoldable pub has_range : EndpointRange → List EndpointRange → Bool
unfolding range_eq
has_range r [] = false
has_range r (s ∷ ss) = range_eq s r || has_range r ss

unfoldable pub has_endpoint : AddrPort → List AddrPort → Bool
unfolding addr_port_eq
has_endpoint e [] = false
has_endpoint e (f ∷ fs) = addr_port_eq f e || has_endpoint e fs

unfoldable pub has_port : ℕ → List ℕ → Bool
has_port p [] = false
has_port p (q ∷ qs) = q == p || has_port p qs

-- addIP, with `four` for the family of the local endpoint
unfoldable pub add_ip : Bool → List Addr → Addr → List Addr
unfolding has_addr
add_ip four ips a =
    if addr_is_valid a
      && not (is_unspecified a)
      && not (is_multicast a)
      && same (is4 a) four
      && not (has_addr a ips)
    then ips ++ (a ∷ [])
    else ips

unfoldable pub add_ips : Bool → List Addr → List Addr → List Addr
unfolding add_ip
add_ips four ips [] = ips
add_ips four ips (a ∷ as') = add_ips four (add_ip four ips a) as'

-- The samples of our address, in order.
unfoldable pub relevant : AddrPort → List Observation → List Observation
unfolding observation_is_valid addr_eq
relevant local [] = []
relevant local (o ∷ os) =
    let rest = relevant local os in
    if not (observation_is_valid o) || not (addr_eq o.local.addr local.addr) then rest else o ∷ rest

-- The samples of our socket.
unfoldable pub current : AddrPort → List Observation → List Observation
unfolding addr_port_eq
current local [] = []
current local (o ∷ os) =
    let rest = current local os in if addr_port_eq o.local local then o ∷ rest else rest

abbrev pub seen_addrs : List Observation → List Addr
seen_addrs [] = []
seen_addrs (o ∷ os) = o.seen.addr ∷ seen_addrs os

abbrev pub single : AddrPort → EndpointRange
single ep = record { addr = ep.addr; first = ep.port; last = ep.port }

-- The loop of `add`: a range for each usable endpoint, each once.
unfoldable pub single_ranges : List EndpointRange → List AddrPort → List EndpointRange
unfolding usable_endpoint has_range
single_ranges ranges [] = ranges
single_ranges ranges (ep ∷ eps) =
    single_ranges
      (if usable_endpoint ep && not (has_range (single ep) ranges)
        then ranges ++ (single ep ∷ [])
        else ranges)
      eps

-- add: no batch without ranges
unfoldable pub add_batch : Basis → List AddrPort → List CandidateBatch → List CandidateBatch
unfolding single_ranges
add_batch basis eps out = elim (single_ranges [] eps) [
  | [] ↦ out
  | r ∷ rs ↦ out ++ (record { basis = basis; ranges = r ∷ rs } ∷ [])
]

-- baseline
unfoldable pub preserve_ports : ℕ → List Addr → List CandidateBatch → List CandidateBatch
unfolding add_batch
preserve_ports port [] out = out
preserve_ports port (a ∷ as') out =
    preserve_ports port as'
      (add_batch port_preservation (record { addr = a; port = port } ∷ []) out)

unfoldable pub seen_at_target :
    AddrPort → List Observation → List CandidateBatch → List CandidateBatch
unfolding add_batch addr_port_eq
seen_at_target target [] out = out
seen_at_target target (o ∷ os) out =
    seen_at_target target os
      (if addr_port_eq o.remote target then add_batch observed_target (o.seen ∷ []) out else out)

unfoldable pub seen_near_target :
    AddrPort → List Observation → List CandidateBatch → List CandidateBatch
unfolding add_batch addr_port_eq addr_eq
seen_near_target target [] out = out
seen_near_target target (o ∷ os) out = seen_near_target target os (
    if addr_eq o.remote.addr target.addr && not (addr_port_eq o.remote target)
    then add_batch target_address (o.seen ∷ []) out
    else out)

-- all
unfoldable pub all : (Observation → Bool) → List Observation → Bool
all p [] = true
all p (o ∷ os) = p o && all p os

unfoldable pub shared : List Observation → List CandidateBatch → List CandidateBatch
unfolding add_batch addr_port_eq all
shared [] out = out
shared (o ∷ os) out =
    if all (λ p. addr_port_eq p.seen o.seen) (o ∷ os)
    then add_batch shared_mapping (o.seen ∷ []) out
    else out

-- The test before the second use of baseline; `all` of no samples is true.
unfoldable pub keeps_ports : List Observation → Bool
unfolding all
keeps_ports os = all (λ o. o.seen.port == o.local.port) os

-- The keys of byRemote, in the order of their first sample.
unfoldable pub destinations : List AddrPort → List Observation → List AddrPort
unfolding has_endpoint
destinations keys [] = keys
destinations keys (o ∷ os) =
    destinations (if has_endpoint o.remote keys then keys else keys ++ (o.remote ∷ [])) os

-- byRemote[remote]
unfoldable pub samples_at : AddrPort → List Observation → List Observation
unfolding addr_port_eq
samples_at remote [] = []
samples_at remote (o ∷ os) =
    let rest = samples_at remote os in if addr_port_eq o.remote remote then o ∷ rest else rest

-- The number of distinct local sockets.
unfoldable pub count_locals : List AddrPort → List Observation → ℕ
unfolding has_endpoint
count_locals seen [] = length seen
count_locals seen (o ∷ os) =
    count_locals (if has_endpoint o.local seen then seen else o.local ∷ seen) os

-- The same difference of the seen and the local port, written without negative numbers.
abbrev pub same_offset : Observation → Observation → Bool
same_offset first o = o.seen.port + first.local.port == first.seen.port + o.local.port

-- The offset hypothesis for the samples at one destination; the port is local + (seen - local').
unfoldable pub offset_at : AddrPort → List Observation → List CandidateBatch → List CandidateBatch
unfolding add_batch all addr_eq count_locals
offset_at local [] out = out
offset_at local (o ∷ os) out =
    let port = local.port + o.seen.port - o.local.port in
    if all (λ p. addr_eq p.seen.addr o.seen.addr && same_offset o p) (o ∷ os)
      && leb 3 (count_locals [] (o ∷ os))
      && ltb o.local.port (local.port + o.seen.port)
      && leb port 65535
    then add_batch port_offset (record { addr = o.seen.addr; port = port } ∷ []) out
    else out

unfoldable pub offsets :
    AddrPort → List Observation → List AddrPort → List CandidateBatch → List CandidateBatch
unfolding offset_at samples_at
offsets local os [] out = out
offsets local os (d ∷ ds) out = offsets local os ds (offset_at local (samples_at d os) out)

-- The ports seen at an address, each once; the last three of them decide.
unfoldable pub ports_at : Addr → List ℕ → List Observation → List ℕ
unfolding addr_eq has_port
ports_at a ports [] = ports
ports_at a ports (o ∷ os) =
    ports_at a
      (if addr_eq o.seen.addr a && not (has_port o.seen.port ports)
        then o.seen.port ∷ ports
        else ports)
      os

abbrev pub max : ℕ → ℕ → ℕ
max a b = if ltb a b then b else a

abbrev pub min : ℕ → ℕ → ℕ
min a b = if ltb b a then b else a

-- The allocation hypothesis; the ports stand newest first.
unfoldable pub stride : Addr → List ℕ → List CandidateBatch → List CandidateBatch
stride a (p1 ∷ p2 ∷ p3 ∷ rest) out =
    if ltb p2 p1 && leb (p1 - p2) 8 && p1 + p3 == p2 + p2
    then out
      ++ (record {
        basis = allocation_sequence;
        ranges =
            record { addr = a; first = max 1 (p3 - 4); last = min 65535 (p1 + (p1 - p2) + 4) } ∷ [];
      }
          ∷ [])
    else out
stride a _ out = out

unfoldable pub strides : List Observation → List Addr → List CandidateBatch → List CandidateBatch
unfolding stride ports_at
strides os [] out = out
strides os (a ∷ as') out = strides os as' (stride a (ports_at a [] os) out)

unfoldable pub any_port : List Addr → List CandidateBatch
any_port [] = []
any_port (a ∷ as') =
    record { basis = unconstrained; ranges = record { addr = a; first = 1; last = 65535 } ∷ [] }
    ∷ any_port as'
