-- ===== src/Inference/Candidates.antt =====
-- What the candidates of Infer are.
use velvet_fabric.Base.{
  ℕ, ◌+◌, ◌-◌, ◌≤◌, ◌<◌, ◌≡◌, Bool, true, not, ◌&&◌, ◌||◌, List, [], ◌∷◌, ◌++◌, arith, ltb, leb,
  ◌==◌, length, All, All-append, if_keeps,
}
use velvet_fabric.Net.{
  Addr, AddrPort, addr_is_valid, is4, is_unspecified, is_multicast, addr_eq, addr_port_eq,
}
use velvet_fabric.Inference.{
  Observation, observation_is_valid, usable_endpoint, EndpointRange, same,
}
use velvet_fabric.Inference.Infer.{
  CandidateBatch, SurveyInput, Prediction, Basis, add_ip, add_ips, relevant, current, seen_addrs,
  single, single_ranges, add_batch, preserve_ports, seen_at_target, seen_near_target, shared,
  destinations, samples_at, offset_at, offsets, has_range, ports_at, stride, strides, any_port, all,
  same_offset, count_locals, has_port, has_addr, keeps_ports, max, min, port_preservation,
  observed_target, target_address, shared_mapping, port_offset, allocation_sequence,
}
use velvet_fabric.Inference.Plan.{hypotheses, or_any_port, infer}

-- A range that can be tried: an address and the ports from a first to a last one.
abbrev pub IsRange : EndpointRange → Type 0
IsRange r = (addr_is_valid r.addr ≡ true) × (1 ≤ r.first) × (r.first ≤ r.last) × (r.last ≤ 65535)

abbrev pub IsBatch : CandidateBatch → Type 0
IsBatch b = (0 < length b.ranges) × All IsRange b.ranges

-- The ports of a sample are 16-bit numbers.
abbrev pub FitsPorts : Observation → Type 0
FitsPorts o = (o.local.port ≤ 65535) × (o.remote.port ≤ 65535) × (o.seen.port ≤ 65535)

abbrev IsKnown : Addr → Type 0
IsKnown a = addr_is_valid a ≡ true

usable-IsRange : (ep : AddrPort) → usable_endpoint ep ≡ true → ep.port ≤ 65535 → IsRange (single ep)
unfolding usable_endpoint
usable-IsRange ep h k = ground arith

single_ranges-All :
    (eps : List AddrPort) (ranges : List EndpointRange)
    → All (λ ep. ep.port ≤ 65535) eps
    → All IsRange ranges
    → All IsRange (single_ranges ranges eps)
unfolding single_ranges
single_ranges-All [] ranges f h = h
single_ranges-All (ep ∷ eps) ranges (k, f) h = single_ranges-All eps _ f (
    if_keeps (All IsRange) (usable_endpoint ep && not (has_range (single ep) ranges))
      (ranges ++ (single ep ∷ [])) ranges
      (λ t. All-append IsRange ranges (single ep ∷ []) h (usable-IsRange ep (ground arith) k, tt))
      h)

add_batch-All :
    (basis : Basis) (eps : List AddrPort) (out : List CandidateBatch)
    → All (λ ep. ep.port ≤ 65535) eps
    → All IsBatch out
    → All IsBatch (add_batch basis eps out)
unfolding add_batch
add_batch-All basis eps out f h = on (single_ranges [] eps) (single_ranges-All eps [] f tt)
  where
    on :
        (rs : List EndpointRange)
        → All IsRange rs
        → All IsBatch (elim rs [
          | [] ↦ out
          | r ∷ rest ↦ out ++ (record { basis = basis; ranges = r ∷ rest } ∷ [])
        ])
    on [] a = h
    on (r ∷ rest) a = All-append IsBatch out _ h ((omega arith, a), tt)

add_one-All :
    (basis : Basis) (ep : AddrPort) (out : List CandidateBatch)
    → ep.port ≤ 65535
    → All IsBatch out
    → All IsBatch (add_batch basis (ep ∷ []) out)
add_one-All basis ep out k h = add_batch-All basis (ep ∷ []) out (k, tt) h

preserve_ports-All :
    (port : ℕ) (ips : List Addr) (out : List CandidateBatch)
    → port ≤ 65535
    → All IsBatch out
    → All IsBatch (preserve_ports port ips out)
unfolding preserve_ports
preserve_ports-All port [] out k h = h
preserve_ports-All port (a ∷ ips) out k h =
    preserve_ports-All port ips _ k
      (add_one-All port_preservation (record { addr = a; port = port }) out k h)

seen_at_target-All :
    (target : AddrPort) (os : List Observation) (out : List CandidateBatch)
    → All FitsPorts os
    → All IsBatch out
    → All IsBatch (seen_at_target target os out)
unfolding seen_at_target
seen_at_target-All target [] out f h = h
seen_at_target-All target (o ∷ os) out (k, f) h = seen_at_target-All target os _ f (
    if_keeps (All IsBatch) (addr_port_eq o.remote target)
      (add_batch observed_target (o.seen ∷ []) out) out
      (λ t. add_one-All observed_target o.seen out k.2 h) h)

seen_near_target-All :
    (target : AddrPort) (os : List Observation) (out : List CandidateBatch)
    → All FitsPorts os
    → All IsBatch out
    → All IsBatch (seen_near_target target os out)
unfolding seen_near_target
seen_near_target-All target [] out f h = h
seen_near_target-All target (o ∷ os) out (k, f) h = seen_near_target-All target os _ f (
    if_keeps (All IsBatch) (addr_eq o.remote.addr target.addr && not (addr_port_eq o.remote target))
      (add_batch target_address (o.seen ∷ []) out) out
      (λ t. add_one-All target_address o.seen out k.2 h) h)

shared-All :
    (os : List Observation) (out : List CandidateBatch)
    → All FitsPorts os
    → All IsBatch out
    → All IsBatch (shared os out)
unfolding shared
shared-All [] out f h = h
shared-All (o ∷ os) out (k, f) h =
    if_keeps (All IsBatch) (all (λ p. addr_port_eq p.seen o.seen) (o ∷ os))
      (add_batch shared_mapping (o.seen ∷ []) out) out
      (λ t. add_one-All shared_mapping o.seen out k.2 h) h

offset_at-All :
    (local : AddrPort) (os : List Observation) (out : List CandidateBatch)
    → All IsBatch out
    → All IsBatch (offset_at local os out)
unfolding offset_at
offset_at-All local [] out h = h
offset_at-All local (o ∷ os) out h =
    let port = local.port + o.seen.port - o.local.port in
    if_keeps (All IsBatch)
      (all (λ p. addr_eq p.seen.addr o.seen.addr && same_offset o p) (o ∷ os)
        && leb 3 (count_locals [] (o ∷ os))
        && ltb o.local.port (local.port + o.seen.port)
        && leb port 65535)
      (add_batch port_offset (record { addr = o.seen.addr; port = port } ∷ []) out) out
      (λ t.
        add_one-All port_offset (record { addr = o.seen.addr; port = port }) out (ground arith) h)
      h

offsets-All :
    (local : AddrPort) (os : List Observation) (ds : List AddrPort) (out : List CandidateBatch)
    → All IsBatch out
    → All IsBatch (offsets local os ds out)
unfolding offsets
offsets-All local os [] out h = h
offsets-All local os (d ∷ ds) out h =
    offsets-All local os ds _ (offset_at-All local (samples_at d os) out h)

ports_at-All :
    (a : Addr) (os : List Observation) (ports : List ℕ)
    → All FitsPorts os
    → All (λ p. p ≤ 65535) ports
    → All (λ p. p ≤ 65535) (ports_at a ports os)
unfolding ports_at
ports_at-All a [] ports f h = h
ports_at-All a (o ∷ os) ports (k, f) h = ports_at-All a os _ f (
    if_keeps (All (λ p. p ≤ 65535)) (addr_eq o.seen.addr a && not (has_port o.seen.port ports))
      (o.seen.port ∷ ports) ports (λ t. (k.2, h)) h)

stride-All :
    (a : Addr) (ports : List ℕ) (out : List CandidateBatch)
    → IsKnown a
    → All (λ p. p ≤ 65535) ports
    → All IsBatch out
    → All IsBatch (stride a ports out)
unfolding stride
stride-All a (p1 ∷ p2 ∷ p3 ∷ rest) out v f h =
    let range : EndpointRange = record {
      addr = a;
      first = max 1 (p3 - 4);
      last = min 65535 (p1 + (p1 - p2) + 4);
    } in
    let batch : CandidateBatch = record { basis = allocation_sequence; ranges = range ∷ [] } in
    if_keeps (All IsBatch) (ltb p2 p1 && leb (p1 - p2) 8 && p1 + p3 == p2 + p2)
      (out ++ (batch ∷ [])) out
      (λ t.
        All-append IsBatch out (batch ∷ []) h
          ((omega arith, ((v, ground arith, ground arith, ground arith), tt)), tt))
      h
stride-All a [] out v f h = h
stride-All a (p ∷ []) out v f h = h
stride-All a (p ∷ q ∷ []) out v f h = h

strides-All :
    (os : List Observation) (ips : List Addr) (out : List CandidateBatch)
    → All FitsPorts os
    → All IsKnown ips
    → All IsBatch out
    → All IsBatch (strides os ips out)
unfolding strides
strides-All os [] out f v h = h
strides-All os (a ∷ ips) out f (va, v) h =
    strides-All os ips _ f v (stride-All a _ out va (ports_at-All a os [] f tt) h)

any_port-All : (ips : List Addr) → All IsKnown ips → All IsBatch (any_port ips)
unfolding any_port
any_port-All [] v = tt
any_port-All (a ∷ ips) (va, v) =
    ((omega arith, ((va, omega arith, omega arith, omega arith), tt)), any_port-All ips v)

add_ips-All :
    (four : Bool) (more ips : List Addr) → All IsKnown ips → All IsKnown (add_ips four ips more)
unfolding add_ips add_ip
add_ips-All four [] ips v = v
add_ips-All four (a ∷ more) ips v = add_ips-All four more _ (
    if_keeps (All IsKnown)
      (addr_is_valid a
        && not (is_unspecified a)
        && not (is_multicast a)
        && same (is4 a) four
        && not (has_addr a ips))
      (ips ++ (a ∷ [])) ips (λ t. All-append IsKnown ips (a ∷ []) v (ground arith, tt)) v)

relevant-All :
    (local : AddrPort) (os : List Observation)
    → All FitsPorts os
    → All FitsPorts (relevant local os)
unfolding relevant
relevant-All local [] f = tt
relevant-All local (o ∷ os) (k, f) =
    let rest = relevant-All local os f in
    if_keeps (All FitsPorts) (not (observation_is_valid o) || not (addr_eq o.local.addr local.addr))
      (relevant local os) (o ∷ relevant local os) (λ t. rest) (k, rest)

current-All :
    (local : AddrPort) (os : List Observation) → All FitsPorts os → All FitsPorts (current local os)
unfolding current
current-All local [] f = tt
current-All local (o ∷ os) (k, f) =
    let rest = current-All local os f in
    if_keeps (All FitsPorts) (addr_port_eq o.local local) (o ∷ current local os) (current local os)
      (λ t. (k, rest)) rest

-- Every batch of candidates that Infer returns has a range, and every range has an address and ports
-- from a first to a last one, between 1 and 65535, for samples and a local endpoint with 16-bit ports.
pub infer-candidates :
    (samples : List Observation) (input : SurveyInput)
    → All FitsPorts samples
    → input.local.port ≤ 65535
    → All IsBatch (infer samples input).candidates
unfolding infer hypotheses
infer-candidates samples input f k =
    if_keeps P
      (not (usable_endpoint input.local)
        || not (usable_endpoint input.target)
        || not (same (is4 input.local.addr) (is4 input.target.addr)))
      _ _ (λ t. tt)
      (if_keeps P input.base_only _ _ (λ t. preserve_ports-All _ ips [] k tt)
        (or_any (hypotheses rel (current input.local rel) input) found))
  where
    P : Prediction → Type 0
    P p = All IsBatch p.candidates

    rel : List Observation
    rel = relevant input.local samples

    ips : List Addr
    ips =
        add_ips (is4 input.local.addr) (add_ips (is4 input.local.addr) [] input.public_ips)
          (seen_addrs rel)

    known : All IsKnown ips
    known = add_ips-All _ (seen_addrs rel) _ (add_ips-All _ input.public_ips [] tt)

    fits : All FitsPorts rel
    fits = relevant-All input.local samples f

    direct : All IsBatch (
        shared (current input.local rel) (
          seen_near_target input.target
            (current input.local rel)
            (seen_at_target input.target (current input.local rel) [])))
    direct =
        let own = current-All input.local rel fits in
        shared-All _ _ own (seen_near_target-All _ _ _ own (seen_at_target-All _ _ [] own tt))

    found : All IsBatch (hypotheses rel (current input.local rel) input)
    found = strides-All rel ips _ fits known (
        offsets-All input.local rel (destinations [] rel) _ (
          if_keeps (All IsBatch) (keeps_ports (current input.local rel)) _ _
            (λ t. preserve_ports-All _ ips _ k direct) direct))

    or_any : (bs : List CandidateBatch) → All IsBatch bs → All IsBatch (or_any_port rel input bs)
    or_any [] h = any_port-All ips known
    or_any (b ∷ bs) h = h
