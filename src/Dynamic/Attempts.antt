-- ===== src/Dynamic/Attempts.antt =====
-- internal/runtime: what the attempts of dynamic Links write to the targets (dynamic_negotiation.go and
-- dynamic_engine.go), and the targets that a restarted Runner begins with (runtime.go and dynamic.go).
use velvet_fabric.Base.{ℕ, ◌+◌, true, false, not, Option, none, some, [], ◌∷◌, ltb, if◌then◌else◌}
use velvet_fabric.Base.Bytes.{Bytes, bytes_eq}
use velvet_fabric.Net.{Addr}
use velvet_fabric.Vfp.Values.{Policy}
use velvet_fabric.Dynamic.Targets.{Target, Targets, nil_uid, new_target, find, put, retry_delay}
use velvet_fabric.Dynamic.Binding.{merge_policy}

-- prepareOutbound, up to the admission of the attempt.
unfoldable pub prepare_target : Addr → Bytes → Targets → Targets
unfolding find put
prepare_target a id ts = elim (find a ts) [
  | none ↦ put a (record (new_target 0) { uid = id; bound = true }) ts
  | some t ↦ put a (record t { uid = id; bound = true }) ts
]

-- handleDecline, before it falls back.
unfoldable pub decline_target : Addr → Option Policy → Targets → Targets
unfolding find put merge_policy
decline_target a p ts = elim (find a ts) [ none ↦ ts | some t ↦ put a (merge_policy p t) ts ]

-- A write through the pointer of targetForPeerLocked.
unfoldable pub at_peer : (Target → Target) → Bytes → Targets → Targets
unfolding bytes_eq
at_peer f id [] = []
at_peer f id ((a, t) ∷ ts) =
    let rest = at_peer f id ts in if bytes_eq t.uid id then (a, f t) ∷ ts else (a, t) ∷ rest

-- commitAttemptLocked
abbrev pub committed : Target → Target
committed t = record t { failures = 0; next_attempt = 0 }

-- fallbackLocked
abbrev pub fallen_back : ℕ → ℕ → Target → Target
fallen_back random now t = record t {
  next_attempt =
      if ltb t.next_attempt (now + retry_delay random t.failures)
      then now + retry_delay random t.failures
      else t.next_attempt;
}

-- policySeed, and the loop of start over it.
unfoldable pub seed_targets : Targets → Targets
unfolding bytes_eq
seed_targets [] = []
seed_targets ((a, t) ∷ ts) =
    (
      a,
      record t {
        dialing = false;
        pending_query = false;
        pending_update = not (bytes_eq t.uid nil_uid);
      },
    )
    ∷ seed_targets ts
