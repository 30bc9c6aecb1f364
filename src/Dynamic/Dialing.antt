-- ===== src/Dynamic/Dialing.antt =====
-- dynamic_discovery.go: which targets stay, which are queried, and which are dialed.
use velvet_fabric.Base.{
  ℕ, ◌+◌, ◌-◌, ◌*◌, Bool, true, false, not, ◌&&◌, ◌||◌, Option, none, some, List, [], ◌∷◌, ltb, leb,
  ◌==◌, if◌then◌else◌, length,
}
use velvet_fabric.Base.Bytes.{Bytes}
use velvet_fabric.Net.{Addr, addr_eq}
use velvet_fabric.Vfp.Values.{Policy}
use velvet_fabric.Dynamic.Targets.{
  Target, Targets, new_target, max_dynamic_targets, second, find, put, retry_delay,
}

-- The engine as reserveDial reads it. d.attempts and d.pendingCleanups are asked for the UID only, and
-- outboundSessions is a channel with `free` places.
pub record Dialer : Type 0 where
  pub targets : Targets
  pub dial_window : ℕ
  pub dial_count : ℕ
  pub free : ℕ

pub record Surroundings : Type 0 where
  pub stopped : Bool
  pub loopback : Addr
  pub is_direct : Addr → Bool
  pub has_attempt : Bytes → Bool
  pub has_cleanup : Bytes → Bool
  pub attempt_is_up : Bytes → Bool

abbrev pub max_dials_per_second : ℕ
max_dials_per_second = 4

-- dynamicTargetRetention
abbrev pub target_retention : ℕ
target_retention = 1800 * second

abbrev pub is_denied : Option Policy → Bool
is_denied none = false
is_denied (some p) = not p.accept

-- The test on a target that is there.
unfoldable pub is_held : Surroundings → ℕ → Option Target → Bool
is_held s now none = false
is_held s now (some t) =
    t.dialing
    || ltb now t.next_attempt
    || is_denied t.policy
    || s.has_attempt t.uid
    || s.has_cleanup t.uid

-- state, or a new one
abbrev pub state_or_new : ℕ → Option Target → Target
state_or_new now none = new_target now
state_or_new now (some t) = t

-- What a dial writes to its target.
abbrev pub dialed : ℕ → ℕ → Target → Target
dialed random now t =
    let failures = if ltb (t.failures + 1) 7 then t.failures + 1 else 7 in
    record t {
      dialing = true;
      failures = failures;
      next_attempt = now + retry_delay random failures;
    }

abbrev pub is_full : Option Target → Targets → Bool
is_full none ts = leb max_dynamic_targets (length ts)
is_full (some t) ts = false

-- The window of a second; now.Sub(d.dialWindow) is at least a second.
abbrev pub in_window : ℕ → Dialer → Dialer
in_window now d =
    if leb (d.dial_window + second) now then record d { dial_window = now; dial_count = 0 } else d

-- The last test of reserveDial, and the select on outboundSessions.
unfoldable pub begin_dial : Addr → ℕ → ℕ → Target → Dialer → Bool × Dialer
unfolding put retry_delay
begin_dial target random now t d =
    if leb max_dials_per_second d.dial_count || d.free == 0 then (false, d) else (
      true,
      record d {
        targets = put target (dialed random now t) d.targets;
        dial_count = d.dial_count + 1;
        free = d.free - 1;
      },
    )

-- reserveDial
unfoldable pub reserve_dial : Surroundings → Addr → ℕ → ℕ → Dialer → Bool × Dialer
unfolding addr_eq is_held find begin_dial
reserve_dial s target random now d =
    let found = find target d.targets in
    if addr_eq target s.loopback || s.is_direct target
    then (false, d)
    else if s.stopped || is_held s now found
    then (false, d)
    else if is_full found d.targets
    then (false, d)
    else begin_dial target random now (state_or_new now found) (in_window now d)

-- finishRoutedDial
unfoldable pub finish_routed_dial : Surroundings → Addr → Bool → ℕ → ℕ → Dialer → Dialer
unfolding find put retry_delay
finish_routed_dial s target failed random now d = elim (find target d.targets) [
  | none ↦ d
  | some t ↦
      (let next = now + retry_delay random t.failures in
        let until =
          if failed && not (s.attempt_is_up t.uid) && ltb t.next_attempt next
          then next
          else t.next_attempt in
        record d {
          targets = put target (record t { dialing = false; next_attempt = until }) d.targets;
        })
]

-- The worker's deferred receive from outboundSessions.
abbrev pub free_place : Dialer → Dialer
free_place d = record d { free = d.free + 1 }

-- The first loop of scanLoopbacks.
unfoldable pub reset_targets : Targets → Targets
reset_targets [] = []
reset_targets ((a, t) ∷ ts) =
    (a, record t { reachable = false; pending_query = false }) ∷ reset_targets ts

-- The loop over the loopbacks that routes reach.
unfoldable pub mark_reachable : ℕ → List Addr → Targets → Targets
unfolding find put
mark_reachable now [] ts = ts
mark_reachable now (a ∷ as') ts = mark_reachable now as' (elim (find a ts) [
  | none ↦ ts
  | some t ↦ put a (record t { reachable = true; last_seen = now }) ts
])

abbrev pub is_idle : Surroundings → Target → Bool
is_idle s t = not t.dialing && not (s.has_attempt t.uid) && not (s.has_cleanup t.uid)

abbrev pub is_stale : Surroundings → ℕ → Target → Bool
is_stale s now t =
    not t.reachable
    && is_idle s t
    && ltb (t.last_seen + target_retention) now
    && leb t.next_attempt now
    && leb t.next_query now

-- The loop that deletes targets.
unfoldable pub evict : Surroundings → ℕ → Targets → Targets
evict s now [] = []
evict s now ((a, t) ∷ ts) =
    let rest = evict s now ts in if is_stale s now t then rest else (a, t) ∷ rest

-- The targets after the first part of scanLoopbacks.
unfoldable pub scan_targets : Surroundings → ℕ → List Addr → Targets → Targets
unfolding reset_targets mark_reachable evict
scan_targets s now reached ts = evict s now (mark_reachable now reached (reset_targets ts))

-- The second part, for an active node: a denied target is asked again, any other one is dialed. Each
-- reserveDial has its own time and random number.
unfoldable pub visit : Surroundings → Bool → Addr → ℕ → ℕ → Dialer → Bool × Dialer
unfolding addr_eq find put reserve_dial
visit s has_evidence target random now d =
    if addr_eq target s.loopback || s.is_direct target
    then (false, d)
    else elim (find target d.targets) [
      | none ↦ if not has_evidence then (false, d) else reserve_dial s target random now d
      | some t ↦
          if is_denied t.policy
          then (
            false,
            record d {
              targets =
                  if is_idle s t
                  then put target (record t { pending_query = true }) d.targets
                  else d.targets;
            },
          )
          else if not has_evidence
          then (false, d)
          else reserve_dial s target random now d
    ]
