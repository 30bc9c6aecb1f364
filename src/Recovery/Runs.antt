-- ===== src/Recovery/Runs.antt =====
-- Runs of the recovery tracker at concrete states.
use velvet_fabric.Base.{
  ◌+◌, ◌≡◌, refl, Bool, true, false, ◌||◌, [], ◌∷◌, arith, leb, ◌==◌, if◌then◌else◌, has,
}
use velvet_fabric.Recovery.{
  State, Tracker, Desired, empty_state, begin, progress, check, merge_tables,
}
use velvet_fabric.Recovery.Tables.{IsIncreasing, merge_tables_lem}
use velvet_fabric.Recovery.Episode.{
  restarted, unhealthy, failed, suffer_all, check-suffer_all, suffer, InEpisode,
}
use velvet_fabric.Recovery.Stable.{recover, recover-failure_since}
use velvet_fabric.Recovery.Invariant.{IsValid, empty, next, began, Reach-IsValid}

abbrev tracker : Tracker
tracker = record { window = 60; stable = 10 }

abbrev desired : Desired
desired = record {
  uuid = 7 ∷ [];
  fabric_table = 52;
  route_tables = 254 ∷ [];
  rule_tables = 52 ∷ [];
}

-- A daemon that began at 100 and has been healthy since 105.
abbrev ailing : State
ailing = record {
  node = 7 ∷ [];
  namespace = 9 ∷ [];
  tables = 52 ∷ 254 ∷ [];
  is_running = true;
  retired = false;
  failure_since = 100;
  healthy_since = 105;
  last_progress = 105;
  window = 60;
  stable = 10;
}

abbrev always : State → Bool
always s = true

check-suffer_all_example :
    (check (9 ∷ []) 160 always (
      suffer_all tracker desired
        (9 ∷ [])
        (failed 120 ∷ restarted 130 ∷ unhealthy 140 ∷ [])
        ailing)).1
    ≡ leb (100 + tracker.window) 160
check-suffer_all_example =
    check-suffer_all tracker desired (9 ∷ []) 100 160 always
      (failed 120 ∷ restarted 130 ∷ unhealthy 140 ∷ []) ailing (omega arith) (omega arith) refl refl
      refl refl refl refl

-- The troubled daemon is healthy from 130 on, and the stable time of 10 passes.
ailing-InEpisode : InEpisode tracker desired (9 ∷ []) 100 ailing
ailing-InEpisode = record {
  node = refl;
  namespace = refl;
  is_running = refl;
  retired = refl;
  failure_since = refl;
  window = refl;
}

recover-failure_since_example :
    (progress 140 true (
      recover
        (130 ∷ 135 ∷ [])
        (suffer tracker desired (9 ∷ []) (unhealthy 120) ailing))).failure_since
    ≡ (if leb (130 + tracker.stable) 140 then 0 else 100)
recover-failure_since_example =
    recover-failure_since tracker desired (9 ∷ []) 100 130 140 (unhealthy 120) (135 ∷ []) ailing
      (omega arith) (omega arith) (omega arith) (omega arith) ailing-InEpisode refl
      (omega arith, tt)

Reach-IsValid_example : IsValid (begin tracker desired (9 ∷ []) 100 empty_state)
Reach-IsValid_example = Reach-IsValid (next empty (began tracker desired (9 ∷ []) 100))

merge_tables_lem_example :
    (has 254 (merge_tables desired (7 ∷ [])) ≡ (
      (254 == desired.fabric_table || has 254 (7 ∷ []))
      || (has 254 desired.route_tables || (has 254 desired.rule_tables || false))))
    × IsIncreasing (merge_tables desired (7 ∷ []))
merge_tables_lem_example = merge_tables_lem desired (7 ∷ []) 254
