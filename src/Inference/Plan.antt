-- ===== src/Inference/Plan.antt =====
-- internal/inference/survey.go: surveyPlan, and Infer put together from its hypotheses.
use velvet_fabric.Base.{
  ℕ, ◌+◌, ◌-◌, Bool, true, false, not, ◌&&◌, ◌||◌, List, [], ◌∷◌, ◌++◌, ltb, if◌then◌else◌, take,
}
use velvet_fabric.Net.{AddrPort, is4, addr_port_eq}
use velvet_fabric.Inference.{Observation, usable_endpoint, same}
use velvet_fabric.Inference.Infer.{
  Observer, Measurement, MeasurementGroup, SurveyInput, Prediction, CandidateBatch, add_ips,
  relevant, current, seen_addrs, preserve_ports, seen_at_target, seen_near_target, shared,
  keeps_ports, destinations, offsets, strides, any_port,
}

unfoldable pub measurement_eq : Measurement → Measurement → Bool
unfolding addr_port_eq
measurement_eq m n = addr_port_eq m.local n.local && addr_port_eq m.remote n.remote

-- seen[step]
unfoldable pub is_measured : Measurement → List Measurement → Bool
unfolding measurement_eq
is_measured m [] = false
is_measured m (n ∷ ns) = measurement_eq n m || is_measured m ns

unfoldable pub only : Bool → List Observer → List Observer
only kind [] = []
only kind (o ∷ os) = let rest = only kind os in if same kind o.bootstrap then o ∷ rest else rest

-- slices.SortStableFunc: bootstrap observers first.
unfoldable pub bootstrap_first : List Observer → List Observer
unfolding only
bootstrap_first os = only true os ++ only false os

-- The socket at `offset` ports from ours, upwards if there is such a port.
unfoldable pub auxiliary : AddrPort → ℕ → AddrPort
auxiliary local offset = record {
  addr = local.addr;
  port = if ltb 65535 (local.port + offset) then local.port - offset else local.port + offset;
}

unfoldable pub measured_pairs : List Observation → List Measurement
measured_pairs [] = []
measured_pairs (o ∷ os) = record { local = o.local; remote = o.remote } ∷ measured_pairs os

-- The loop over the endpoints of one observer for one socket: the steps and the set `seen`.
unfoldable pub add_steps :
    AddrPort
    → List AddrPort
    → List Measurement × List Measurement
    → List Measurement × List Measurement
unfolding usable_endpoint is_measured
add_steps local [] acc = acc
add_steps local (remote ∷ remotes) (steps, seen) =
    let step : Measurement = record { local = local; remote = remote } in
    add_steps local remotes (
      if usable_endpoint remote
        && same (is4 local.addr) (is4 remote.addr)
        && not (is_measured step seen)
      then (steps ++ (step ∷ []), step ∷ seen)
      else (steps, seen))

-- The loop over our sockets.
unfoldable pub group_steps :
    List AddrPort
    → List AddrPort
    → List Measurement × List Measurement
    → List Measurement × List Measurement
unfolding add_steps
group_steps [] remotes acc = acc
group_steps (local ∷ locals) remotes acc = group_steps locals remotes (add_steps local remotes acc)

-- append(plan, group), if the group has steps
abbrev pub with_group : Bool → List Measurement → List MeasurementGroup → List MeasurementGroup
with_group bootstrap [] plan = plan
with_group bootstrap (s ∷ ss) plan = record { bootstrap = bootstrap; steps = s ∷ ss } ∷ plan

-- The loop over the observers.
unfoldable pub plan_groups :
    List AddrPort → List Measurement → List Observer → List MeasurementGroup
unfolding group_steps
plan_groups locals seen [] = []
plan_groups locals seen (o ∷ os) =
    let (steps, seen') = group_steps locals (take 2 o.endpoints) ([], seen) in
    with_group o.bootstrap steps (plan_groups locals seen' os)

unfoldable pub survey_plan : List Observation → SurveyInput → List MeasurementGroup
unfolding plan_groups bootstrap_first measured_pairs auxiliary
survey_plan samples input =
    plan_groups (input.local ∷ auxiliary input.local 1 ∷ auxiliary input.local 2 ∷ [])
      (measured_pairs samples) (bootstrap_first input.observers)

-- The candidates of Infer from the relevant samples, our own among them, and the known addresses.
unfoldable pub hypotheses : List Observation → List Observation → SurveyInput → List CandidateBatch
unfolding add_ips seen_at_target seen_near_target shared keeps_ports preserve_ports destinations
    offsets strides
hypotheses rel cur input =
    let ips =
      add_ips (is4 input.local.addr) (add_ips (is4 input.local.addr) [] input.public_ips)
        (seen_addrs rel) in
    let direct =
      shared cur (seen_near_target input.target cur (seen_at_target input.target cur [])) in
    let kept = if keeps_ports cur then preserve_ports input.local.port ips direct else direct in
    strides rel ips (offsets input.local rel (destinations [] rel) kept)

-- The last resort: every port of the known addresses.
abbrev pub or_any_port : List Observation → SurveyInput → List CandidateBatch → List CandidateBatch
or_any_port rel input [] = any_port (
    add_ips (is4 input.local.addr) (add_ips (is4 input.local.addr) [] input.public_ips)
      (seen_addrs rel))
or_any_port rel input (b ∷ bs) = b ∷ bs

-- Infer
unfoldable pub infer : List Observation → SurveyInput → Prediction
unfolding usable_endpoint relevant current hypotheses survey_plan any_port
infer samples input =
    let rel = relevant input.local samples in
    if not (usable_endpoint input.local)
      || not (usable_endpoint input.target)
      || not (same (is4 input.local.addr) (is4 input.target.addr))
    then record { candidates = []; plan = [] }
    else if input.base_only
    then record {
      candidates =
          preserve_ports input.local.port
            (add_ips (is4 input.local.addr) (add_ips (is4 input.local.addr) [] input.public_ips)
              (seen_addrs rel))
            [];
      plan = [];
    }
    else record {
      candidates = or_any_port rel input (hypotheses rel (current input.local rel) input);
      plan = survey_plan rel input;
    }
