-- ===== src/Inference/Runs.antt =====
-- Runs of the store of samples and of the inference from them.
use velvet_fabric.Base.{◌≡◌, refl, true, false, not, ◌&&◌, ◌||◌, [], ◌∷◌, List, arith, All}
use velvet_fabric.Net.{AddrPort, v4}
use velvet_fabric.Inference.{
  Observation, observation_is_valid, usable_endpoint, observation_eq, is_stored, add,
}
use velvet_fabric.Inference.Store.{IsStore, add_lem}
use velvet_fabric.Inference.Infer.{SurveyInput}
use velvet_fabric.Inference.Plan.{infer, survey_plan, measured_pairs}
use velvet_fabric.Inference.Candidates.{IsBatch, infer-candidates}
use velvet_fabric.Inference.Sets.{Change, added, forgot, changed, set_after, changed_lem}
use velvet_fabric.Inference.Steps.{Fresh, IsGroup, all_steps, survey_plan_lem}

abbrev home : AddrPort
home = record { addr = v4 167772161; port = 4000 }

abbrev observer : AddrPort
observer = record { addr = v4 3221225985; port = 5000 }

abbrev sample : Observation
sample = record {
  local = home;
  remote = observer;
  seen = record { addr = v4 3405803777; port = 4000 };
}

abbrev other_sample : Observation
other_sample = record { local = home; remote = home; seen = observer }

one_sample-IsStore : IsStore (sample ∷ [])
one_sample-IsStore =
    (unfold observation_is_valid usable_endpoint in refl, unfold is_stored in refl, tt)

add_lem_example :
    ((add other_sample (sample ∷ [])).0
      ≡ (observation_is_valid other_sample && not (is_stored other_sample (sample ∷ []))))
    × (is_stored sample (add other_sample (sample ∷ [])).1 ≡ (
        is_stored sample (sample ∷ [])
        || ((add other_sample (sample ∷ [])).0 && observation_eq other_sample sample)))
    × IsStore (add other_sample (sample ∷ [])).1
add_lem_example = add_lem other_sample sample (sample ∷ []) one_sample-IsStore

-- A survey of our socket towards the observer, which offers itself as the only one.
abbrev survey : SurveyInput
survey = record {
  local = home;
  target = observer;
  public_ips = [];
  observers = record { bootstrap = true; endpoints = observer ∷ [] } ∷ [];
  base_only = false;
}

infer-candidates_example : All IsBatch (infer (sample ∷ []) survey).candidates
infer-candidates_example =
    infer-candidates (sample ∷ []) survey ((omega arith, omega arith, omega arith), tt)
      (omega arith)

survey_plan_lem_example :
    Fresh (measured_pairs (sample ∷ [])) (all_steps (survey_plan (sample ∷ []) survey))
    × All IsGroup (survey_plan (sample ∷ []) survey)
survey_plan_lem_example = survey_plan_lem (sample ∷ []) survey

-- A sample is added, another one, the first again, and the socket of the first is forgotten.
abbrev changes : List Change
changes = added sample ∷ added other_sample ∷ added sample ∷ forgot home ∷ []

changed_lem_example :
    (is_stored sample (changed changes []) ≡ set_after changes (λ x. false) sample)
    × IsStore (changed changes [])
changed_lem_example = changed_lem changes sample
