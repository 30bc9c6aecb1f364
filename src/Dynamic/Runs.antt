-- ===== src/Dynamic/Runs.antt =====
-- Runs of the targets of dynamic Links.
use velvet_fabric.Base.{◌*◌, ◌≤◌, ◌≡◌, refl, true, false, none, some, [], ◌∷◌, arith, length}
use velvet_fabric.Base.Bytes.{Bytes, bytes_eq}
use velvet_fabric.Net.{Addr, v6, addr_eq}
use velvet_fabric.Vfp.Kinds.{policy_query}
use velvet_fabric.Vfp.Message.{Message, blank}
use velvet_fabric.Dynamic.Targets.{Target, Targets, second, new_target, find}
use velvet_fabric.Dynamic.Binding.{Local, receive_policy, bind_policy_peer}
use velvet_fabric.Dynamic.Dialing.{
  Dialer, Surroundings, dialed, reserve_dial, visit, finish_routed_dial,
}
use velvet_fabric.Dynamic.Sending.{Setup, max_policy_sends, flush_policy}
use velvet_fabric.Dynamic.Kept.{IsKept}
use velvet_fabric.Dynamic.Attempts.{prepare_target, at_peer, committed, seed_targets}
use velvet_fabric.Dynamic.Sessions.{with_dial}
use velvet_fabric.Dynamic.System.{
  received, visited, opened, prepared, finished, raised, restarted, called, System, Reach, begun,
  then_step, new_dialer,
}
use velvet_fabric.Dynamic.Reach.{IsRunning, Reach-IsSound, flush_policy-IsFlushed}
use velvet_fabric.Dynamic.Spared.{SparedAt, receive_policy-SparedAt}
use velvet_fabric.Dynamic.Backoff.{IsGranted, reserve_dial-backoff}

abbrev peer : Addr
peer = v6 5

abbrev peer_uid : Bytes
peer_uid = 7 ∷ []

abbrev around : Surroundings
around = record {
  stopped = false;
  loopback = v6 1;
  is_direct = λ a. false;
  has_attempt = λ id. false;
  has_cleanup = λ id. false;
  attempt_is_up = λ id. false;
}

abbrev local_node : Local
local_node = record { uuid = 9 ∷ []; allows_inbound = true; stopped = false }

abbrev query : Message
query = record (blank policy_query) { uid = some (record { uuid = peer_uid; name = [] }) }

-- A scan visits the peer, which is dialed; its session is bound and makes an attempt, which comes up.
-- The dial ends, the Runner restarts, and the peer asks for our policy.
abbrev after_visit : Dialer
after_visit = (visit around true peer 3 20 (new_dialer 8)).1

abbrev after_attempt : Dialer
after_attempt = record after_visit {
  targets =
      at_peer committed peer_uid
        (prepare_target peer peer_uid (bind_policy_peer peer peer_uid 21 22 after_visit.targets).1);
}

abbrev after_restart : Dialer
after_restart = record (new_dialer 8) {
  targets = seed_targets (finish_routed_dial around peer false 3 30 after_attempt).targets;
}

abbrev at_end : System
at_end = record {
  dialer = record after_restart {
    targets = receive_policy local_node peer query 40 after_restart.targets;
  };
  dials = λ a. none;
}

attempt-Reach : Reach (record {
  dialer = after_attempt;
  dials = with_dial peer (some (some peer_uid)) (with_dial peer (some none) (λ a. none));
})
unfolding visit bind_policy_peer addr_eq reserve_dial
attempt-Reach =
    then_step
      (then_step
        (then_step (then_step (begun 8) (visited around true peer 3 20))
          (opened peer peer_uid 21 22 none refl refl))
        (prepared peer peer_uid refl))
      (called (raised peer_uid))

Reach-IsSound_example : IsRunning at_end
Reach-IsSound_example = Reach-IsSound (
    then_step (then_step (then_step attempt-Reach (finished around peer false 3 30)) (restarted 8))
      (called (received local_node peer query 40)))

abbrev one_target : Targets
one_target =
    (peer, record (new_target 10) { uid = peer_uid; bound = true; next_query = 500; failures = 3 })
    ∷ []

abbrev the_target : Target
the_target = record (new_target 10) { uid = peer_uid; bound = true; next_query = 500; failures = 3 }

one_target-IsKept : IsKept one_target
one_target-IsKept = record { table = (refl, unfold bytes_eq in refl, tt); few = omega arith }

receive_policy-SparedAt_example :
    SparedAt peer the_target (receive_policy local_node peer query 12 one_target)
receive_policy-SparedAt_example =
    receive_policy-SparedAt local_node peer peer query 12 the_target one_target
      (unfold find in refl)

abbrev setup : Setup
setup = record { uuid = 9 ∷ []; allows_inbound = true; revision = 4 }

flush_policy-IsFlushed_example :
    IsKept (flush_policy setup (λ n. 0) 900 0 one_target).targets
    × (length (flush_policy setup (λ n. 0) 900 0 one_target).sent ≤ max_policy_sends)
flush_policy-IsFlushed_example =
    flush_policy-IsFlushed setup (λ n. 0) 900 0 one_target one_target-IsKept

abbrev dialer : Dialer
dialer = record { targets = []; dial_window = 0; dial_count = 0; free = 8 }

abbrev after_dial : Target
after_dial = dialed 0 (100 * second) (new_target (100 * second))

granted : (reserve_dial around peer 0 (100 * second) dialer).0 ≡ true
unfolding reserve_dial
granted = refl

granted_target :
    find peer (reserve_dial around peer 0 (100 * second) dialer).1.targets ≡ some after_dial
unfolding reserve_dial
granted_target = refl

reserve_dial-backoff_example :
    IsGranted around peer 0 (100 * second) dialer
    × ((reserve_dial around peer 0
          (109 * second)
          (reserve_dial around peer 0 (100 * second) dialer).1).0
        ≡ false)
reserve_dial-backoff_example =
    reserve_dial-backoff around around peer 0 0 (100 * second) (109 * second) dialer
      (reserve_dial around peer 0 (100 * second) dialer).1 after_dial after_dial granted
      granted_target granted_target (omega arith) (omega arith)
