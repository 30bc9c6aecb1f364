-- ===== src/Dynamic/Reach.antt =====
-- What the calls of the engine keep, in any order.
use velvet_fabric.Base.{
  ℕ, zero, suc, ◌+◌, ◌%◌, ◌≤◌, ◌≡◌, refl, ap, ◌∙◌, inl, inr, true, Option, none, some, List, [],
  arith, ltb, Bool-cases, length,
}
use velvet_fabric.Net.{Addr}
use velvet_fabric.Vfp.Message.{Message}
use velvet_fabric.Dynamic.Targets.{Target, Targets, find}
use velvet_fabric.Dynamic.Binding.{bind_policy_peer}
use velvet_fabric.Dynamic.Dialing.{Dialer, visit}
use velvet_fabric.Dynamic.Sending.{
  Setup, max_policy_sends, flush_one, Sends, flush_key, flush_loop, flush_policy, key_at,
  sorted_keys,
}
use velvet_fabric.Dynamic.Kept.{
  IsKept, update-IsKept, bind_policy_peer-IsKept, receive_policy-IsKept,
}
use velvet_fabric.Dynamic.Steps.{IsSound, scan_targets-IsKept}
use velvet_fabric.Dynamic.Visits.{visit-IsSound, finish_routed_dial-IsSound}
use velvet_fabric.Dynamic.Attempts.{committed, fallen_back}
use velvet_fabric.Dynamic.Outcomes.{decline_target-IsKept, at_peer-IsKept, seed_targets-IsKept}
use velvet_fabric.Dynamic.Guards.{
  Guards, Guards-refl, found-eq, receive_policy-Guards, decline_target-Guards, at_peer-Guards,
  scan_targets-Guards,
}
use velvet_fabric.Dynamic.Dialed.{bind_policy_peer-IsBound, IsVisited, visit-IsVisited}
use velvet_fabric.Dynamic.Sessions.{
  flush_one-uid, flush_policy-Guards, Holds, Holds-Guards, with_dial-Holds,
  finish_routed_dial-Holds, prepare_target-IsKept, prepare_target-Holds,
}
use velvet_fabric.Dynamic.System.{
  System, Call, bound, received, flushed, scanned, freed, declined, raised, fell_back, Step, called,
  visited, opened, prepared, finished, restarted, Reach, begun, then_step,
}

flush_key-IsKept :
    (s : Setup) (random now : ℕ) (a : Addr) (d : Sends)
    → IsKept d.targets
    → IsKept (flush_key s random now a d).targets
unfolding flush_key
flush_key-IsKept s random now a d h = known (find a d.targets) refl
  where
    known :
        (found : Option Target)
        → find a d.targets ≡ found
        → IsKept (flush_key s random now a d).targets
    known none e = rw (e, flush_key) h
    known (some t) e = due (flush_one s random now t).0 refl
      where
        due :
            (m : Option Message)
            → (flush_one s random now t).0 ≡ m
            → IsKept (flush_key s random now a d).targets
        due none e' = rw (e, flush_key, e') h
        due (some m) e' =
            rw (e, flush_key, e')
              (update-IsKept a t (flush_one s random now t).1 d.targets h e
                (flush_one-uid s random now t))

length-flush_key :
    (s : Setup) (random now : ℕ) (a : Addr) (d : Sends)
    → length (flush_key s random now a d).sent ≤ length d.sent + 1
unfolding flush_key
length-flush_key s random now a d = ground arith

-- The sends of one flush stay within their number.
pub record IsFlushed (d : Sends) : Type 0 where
  pub kept : IsKept d.targets
  pub few : length d.sent ≤ max_policy_sends

flush_loop-IsFlushed :
    (s : Setup) (random : ℕ → ℕ) (now : ℕ) (keys : List Addr) (left : ℕ) (d : Sends)
    → IsFlushed d
    → IsFlushed (flush_loop s random now keys left d)
unfolding flush_loop
flush_loop-IsFlushed s random now keys zero d h = h
flush_loop-IsFlushed s random now keys (suc left) d h =
    elim (Bool-cases (ltb (length d.sent) max_policy_sends)) [
      | inr full ↦ rw (full, flush_loop) h
      | inl room ↦
          rw (room, flush_loop)
            (flush_loop-IsFlushed s random now keys left _
              (visited (key_at (d.cursor % length keys) keys) room))
    ]
  where
    moved : Sends
    moved = record d { cursor = (d.cursor % length keys + 1) % length keys }

    visited :
        (key : Option Addr)
        → ltb (length d.sent) max_policy_sends ≡ true
        → IsFlushed (elim key as (λ k. Sends) [
          | none ↦ moved
          | some a ↦ flush_key s (random left) now a moved
        ])
    visited none room = record { kept = h.kept; few = h.few }
    visited (some a) room = record {
      kept = flush_key-IsKept s (random left) now a moved h.kept;
      few = ground (arith, room, length-flush_key s (random left) now a moved);
    }

-- One flush sends at most 16 messages, and keeps the table.
pub flush_policy-IsFlushed :
    (s : Setup) (random : ℕ → ℕ) (now cursor : ℕ) (ts : Targets)
    → IsKept ts
    → IsKept (flush_policy s random now cursor ts).targets
      × (length (flush_policy s random now cursor ts).sent ≤ max_policy_sends)
unfolding flush_policy
flush_policy-IsFlushed s random now cursor ts h =
    let done =
      flush_loop-IsFlushed s random now (sorted_keys ts) (length (sorted_keys ts))
        (record { targets = ts; cursor = cursor; sent = [] })
        (record { kept = h; few = omega arith }) in
    (done.kept, done.few)

Call-IsSound : {d e : Dialer} → IsSound d → Call d e → IsSound e × Guards d.targets e.targets
Call-IsSound {d} h (bound a id now later) = (
  record { kept = bind_policy_peer-IsKept a id now later d.targets h.kept; dials = h.dials },
  (bind_policy_peer-IsBound a id now later d.targets h.kept).guards,
)
Call-IsSound {d} h (received local source m now) = (
  record { kept = receive_policy-IsKept local source m now d.targets h.kept; dials = h.dials },
  receive_policy-Guards local source m now d.targets,
)
Call-IsSound {d} h (flushed s random now cursor) = (
  record {
    kept = (flush_policy-IsFlushed s random now cursor d.targets h.kept).0;
    dials = h.dials;
  },
  flush_policy-Guards s random now cursor d.targets,
)
Call-IsSound {d} h (scanned s now reached) = (
  record { kept = scan_targets-IsKept s now reached d.targets h.kept; dials = h.dials },
  scan_targets-Guards s now reached d.targets,
)
Call-IsSound {d} h freed = (record { kept = h.kept; dials = h.dials }, Guards-refl d.targets)
Call-IsSound {d} h (declined a p) = (
  record { kept = decline_target-IsKept a p d.targets h.kept; dials = h.dials },
  decline_target-Guards a p d.targets,
)
Call-IsSound {d} h (raised id) = (
  record { kept = at_peer-IsKept committed id d.targets (λ t. refl) h.kept; dials = h.dials },
  at_peer-Guards committed id d.targets (λ t. refl) (λ t. refl),
)
Call-IsSound {d} h (fell_back id random now) = (
  record {
    kept = at_peer-IsKept (fallen_back random now) id d.targets (λ t. refl) h.kept;
    dials = h.dials;
  },
  at_peer-Guards (fallen_back random now) id d.targets (λ t. refl) (λ t. refl),
)

-- A sound engine in which every dial in progress has its target.
pub record IsRunning (s : System) : Type 0 where
  pub sound : IsSound s.dialer
  pub holds : Holds s.dialer.targets s.dials

Step-IsRunning : {s t : System} → IsRunning s → Step s t → IsRunning t
Step-IsRunning {s} h (called {d} c) =
    let (sound, guards) = Call-IsSound h.sound c in
    record { sound = sound; holds = Holds-Guards s.dialer.targets d.targets s.dials guards h.holds }
Step-IsRunning {s} h (visited around has_evidence target random now) = record {
  sound = visit-IsSound around has_evidence target random now s.dialer h.sound;
  holds = elim (Bool-cases (visit around has_evidence target random now s.dialer).0) [
    | inl granted ↦
        let (t, e, d) = left.stands granted in
        rw granted (with_dial-Holds target none t _ s.dials still e d tt)
    | inr refused ↦ rw refused still
  ];
}
  where
    left : IsVisited target s.dialer.targets (visit around has_evidence target random now s.dialer)
    left = visit-IsVisited around has_evidence target random now s.dialer

    still : Holds (visit around has_evidence target random now s.dialer).1.targets s.dials
    still = Holds-Guards s.dialer.targets _ s.dials left.guards h.holds
Step-IsRunning {s} h (opened a id now later o e won) =
    let result = bind_policy_peer-IsBound a id now later s.dialer.targets h.sound.kept in
    let us = (bind_policy_peer a id now later s.dialer.targets).1 in
    let still = Holds-Guards s.dialer.targets us s.dials result.guards h.holds in
    let (t, et, same) = result.stands won in
    let (u, eu, d, b) = still a o e in
    record {
      sound = record {
        kept = bind_policy_peer-IsKept a id now later s.dialer.targets h.sound.kept;
        dials = h.sound.dials;
      };
      holds =
          with_dial-Holds a (some id) t us s.dials still et
            (ap (λ (x : Target). x.dialing) (found-eq a u t us eu et) ∙ d) (inr same);
    }
Step-IsRunning {s} h (prepared a id e) = record {
  sound = record {
    kept = prepare_target-IsKept a id s.dialer.targets s.dials h.holds e h.sound.kept;
    dials = h.sound.dials;
  };
  holds = prepare_target-Holds a id s.dialer.targets s.dials h.holds e;
}
Step-IsRunning {s} h (finished around target lost random now) = record {
  sound = finish_routed_dial-IsSound around target lost random now s.dialer h.sound;
  holds = finish_routed_dial-Holds around target lost random now s.dialer s.dials h.holds;
}
Step-IsRunning {s} h (restarted free) = record {
  sound = record { kept = seed_targets-IsKept s.dialer.targets h.sound.kept; dials = omega arith };
  holds = λ a o e. cc;
}

-- In every state that the engine reaches from an empty one, by its calls in any order, at any
-- times and with any messages, and by restarts that take its targets over, there are at most 4096
-- targets, each address stands once, a UID that is not nil stands at one address only, and at most
-- 4 dials are counted for the current second; and the target of each dial in progress stands,
-- marked as dialing, with the UID that bindPolicyPeer has bound for the dial, unless that is the
-- nil one.
pub Reach-IsSound : {s : System} → Reach s → IsRunning s
Reach-IsSound (begun free) = record {
  sound = record { kept = record { table = tt; few = omega arith }; dials = omega arith };
  holds = λ a o e. cc;
}
Reach-IsSound (then_step r s) = Step-IsRunning (Reach-IsSound r) s
