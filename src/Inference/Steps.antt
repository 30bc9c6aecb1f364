-- ===== src/Inference/Steps.antt =====
-- What the measurement plan of a survey holds.
use velvet_fabric.Base.{
  ℕ, zero, suc, ◌+◌, ◌*◌, ◌≤◌, ◌<◌, ◌≡◌, refl, subst, Bool, true, false, not, ◌&&◌, List, [], ◌∷◌,
  ◌++◌, arith, if◌then◌else◌, length, take, All, length-append, All-append,
}
use velvet_fabric.Net.{AddrPort, is4}
use velvet_fabric.Inference.{Observation, usable_endpoint, same}
use velvet_fabric.Inference.Infer.{Observer, Measurement, MeasurementGroup, SurveyInput}
use velvet_fabric.Inference.Plan.{
  is_measured, add_steps, group_steps, with_group, plan_groups, measured_pairs, bootstrap_first,
  auxiliary, survey_plan,
}

-- The steps of a plan in their order.
abbrev pub all_steps : List MeasurementGroup → List Measurement
all_steps [] = []
all_steps (g ∷ gs) = g.steps ++ all_steps gs

-- No step is in `seen`, and none comes twice.
abbrev pub Fresh : List Measurement → List Measurement → Type 0
Fresh seen [] = Unit
Fresh seen (m ∷ ms) = (is_measured m seen ≡ false) × Fresh (m ∷ seen) ms

-- A step that can be made: its target is usable, and of the family of its socket.
abbrev pub IsStep : Measurement → Type 0
IsStep m = (usable_endpoint m.remote ≡ true) × (same (is4 m.local.addr) (is4 m.remote.addr) ≡ true)

-- The set `seen` once `steps` were added to it, newest first.
abbrev after : List Measurement → List Measurement → List Measurement
after seen [] = seen
after seen (m ∷ ms) = after (m ∷ seen) ms

after-append : (seen xs ys : List Measurement) → after seen (xs ++ ys) ≡ after (after seen xs) ys
after-append seen [] ys = refl
after-append seen (x ∷ xs) ys = after-append (x ∷ seen) xs ys

Fresh-append :
    (seen xs ys : List Measurement)
    → Fresh seen xs
    → Fresh (after seen xs) ys
    → Fresh seen (xs ++ ys)
Fresh-append seen [] ys hx hy = hy
Fresh-append seen (x ∷ xs) ys (n, hx) hy = (n, Fresh-append (x ∷ seen) xs ys hx hy)

-- What holds of the steps collected so far from `start` on.
record IsPartial (start : List Measurement) (most : ℕ) (acc : List Measurement × List Measurement)
    : Type 0 where
  fresh : Fresh start acc.0
  seen : acc.1 ≡ after start acc.0
  steps : All IsStep acc.0
  few : length acc.0 ≤ most

add_one-IsPartial :
    (start : List Measurement) (most : ℕ) (steps seen : List Measurement) (step : Measurement)
    (b : Bool)
    → IsPartial start most (steps, seen)
    → (b ≡ true → IsStep step × (is_measured step seen ≡ false))
    → IsPartial start (most + 1) (if b then (steps ++ (step ∷ []), step ∷ seen) else (steps, seen))
add_one-IsPartial start most steps seen step false h new = record {
  fresh = h.fresh;
  seen = h.seen;
  steps = h.steps;
  few = omega (arith, h.few);
}
add_one-IsPartial start most steps seen step true h new =
    let (good, unseen) = new refl in
    record {
      fresh = Fresh-append start steps (step ∷ []) h.fresh (rw (← h.seen) unseen, tt);
      seen = rw (h.seen, after-append start steps (step ∷ [])) refl;
      steps = All-append IsStep steps (step ∷ []) h.steps (good, tt);
      few = omega (arith, h.few, length-append steps (step ∷ []));
    }

add_steps-IsPartial :
    (local : AddrPort) (remotes : List AddrPort) (start : List Measurement) (most : ℕ)
    (acc : List Measurement × List Measurement)
    → IsPartial start most acc
    → IsPartial start (most + length remotes) (add_steps local remotes acc)
unfolding add_steps
add_steps-IsPartial local [] start most acc h = let e : most + 0 ≡ most = omega arith in rw e h
add_steps-IsPartial local (remote ∷ remotes) start most (steps, seen) h =
    let step : Measurement = record { local = local; remote = remote } in
    let one =
      add_one-IsPartial start most steps seen step
        (usable_endpoint remote
          && same (is4 local.addr) (is4 remote.addr)
          && not (is_measured step seen))
        h (λ t. ((ground arith, ground arith), ground arith)) in
    let e : most + suc (length remotes) ≡ most + 1 + length remotes = omega arith in
    rw e (add_steps-IsPartial local remotes start (most + 1) _ one)

group_steps-IsPartial :
    (locals remotes : List AddrPort) (start : List Measurement) (most : ℕ)
    (acc : List Measurement × List Measurement)
    → IsPartial start most acc
    → IsPartial start (most + length locals * length remotes) (group_steps locals remotes acc)
unfolding group_steps
group_steps-IsPartial [] remotes start most acc h =
    let e : most + 0 * length remotes ≡ most = omega arith in rw e h
group_steps-IsPartial (local ∷ locals) remotes start most acc h =
    let one = add_steps-IsPartial local remotes start most acc h in
    let e : most + suc (length locals) * length remotes
        ≡ most + length remotes + length locals * length remotes =
      grind arith in
    rw e (group_steps-IsPartial locals remotes start (most + length remotes) _ one)

-- A group of the plan: between one and six steps that can be made.
abbrev pub IsGroup : MeasurementGroup → Type 0
IsGroup g = (0 < length g.steps) × (length g.steps ≤ 6) × All IsStep g.steps

with_group_lem :
    (bootstrap : Bool) (steps seen : List Measurement) (rest : List MeasurementGroup)
    → Fresh seen steps
    → length steps ≤ 6
    → All IsStep steps
    → Fresh (after seen steps) (all_steps rest) × All IsGroup rest
    → Fresh seen (all_steps (with_group bootstrap steps rest))
      × All IsGroup (with_group bootstrap steps rest)
with_group_lem bootstrap [] seen rest f few a (fr, ar) = (fr, ar)
with_group_lem bootstrap (s ∷ ss) seen rest f few a (fr, ar) =
    (Fresh-append seen (s ∷ ss) (all_steps rest) f fr, ((omega arith, few, a), ar))

take-le : (n : ℕ) (xs : List AddrPort) → length (take n xs) ≤ n
take-le zero xs = omega arith
take-le (suc n) [] = omega arith
take-le (suc n) (x ∷ xs) = omega (arith, take-le n xs)

plan_groups_lem :
    (locals : List AddrPort) (os : List Observer) (seen : List Measurement)
    → length locals ≤ 3
    → Fresh seen (all_steps (plan_groups locals seen os)) × All IsGroup (plan_groups locals seen os)
unfolding plan_groups
plan_groups_lem locals [] seen h = (tt, tt)
plan_groups_lem locals (o ∷ os) seen h =
    let part =
      group_steps-IsPartial locals (take 2 o.endpoints) seen 0 ([], seen)
        (record { fresh = tt; seen = refl; steps = tt; few = omega arith }) in
    let few : length (group_steps locals (take 2 o.endpoints) ([], seen)).0 ≤ 6 =
      grind (arith, part.few, take-le 2 o.endpoints, h) in
    let rest = plan_groups_lem locals os (group_steps locals (take 2 o.endpoints) ([], seen)).1 h in
    with_group_lem o.bootstrap _ seen _ part.fresh few part.steps (
      subst
          (λ s. Fresh s (
            all_steps
              (plan_groups locals (group_steps locals (take 2 o.endpoints) ([], seen)).1 os)))
          part.seen rest.0,
      rest.1,
    )

-- The plan of a survey has groups of one to six steps, each to a usable endpoint of the family of its
-- socket; no step was measured before, and none comes twice.
pub survey_plan_lem :
    (samples : List Observation) (input : SurveyInput)
    → Fresh (measured_pairs samples) (all_steps (survey_plan samples input))
      × All IsGroup (survey_plan samples input)
unfolding survey_plan
survey_plan_lem samples input =
    plan_groups_lem (input.local ∷ auxiliary input.local 1 ∷ auxiliary input.local 2 ∷ [])
      (bootstrap_first input.observers) (measured_pairs samples) (omega arith)
