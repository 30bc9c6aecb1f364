-- ===== src/Dynamic/Targets.antt =====
-- dynamic.go and dynamic_policy.go: the targets, as an association list for the map d.targets.
use velvet_fabric.Base.{
  ℕ, ◌+◌, ◌-◌, ◌*◌, ◌/◌, ◌%◌, ◌^◌, Bool, false, not, ◌&&◌, ◌||◌, Option, none, some, List, [], ◌∷◌,
  ltb, leb, if◌then◌else◌, length,
}
use velvet_fabric.Base.Bytes.{Bytes, bytes_eq}
use velvet_fabric.Net.{Addr, addr_eq}
use velvet_fabric.Vfp.Values.{Policy}
use velvet_fabric.Vfp.Message.{zeros}

-- dynamicTarget
pub record Target : Type 0 where
  pub dialing : Bool
  pub uid : Bytes
  pub bound : Bool
  pub failures : ℕ
  pub next_attempt : ℕ
  pub next_query : ℕ
  pub next_update : ℕ
  pub policy : Option Policy
  pub pending_update : Bool
  pub pending_query : Bool
  pub reachable : Bool
  pub last_seen : ℕ

abbrev pub Targets : Type 0
Targets = List (Addr × Target)

-- uuid.Nil
abbrev pub nil_uid : Bytes
nil_uid = zeros 16

-- &dynamicTarget{lastSeen: now}
abbrev pub new_target : ℕ → Target
new_target now = record {
  dialing = false;
  uid = nil_uid;
  bound = false;
  failures = 0;
  next_attempt = 0;
  next_query = 0;
  next_update = 0;
  policy = none;
  pending_update = false;
  pending_query = false;
  reachable = false;
  last_seen = now;
}

abbrev pub max_dynamic_targets : ℕ
max_dynamic_targets = 4096

abbrev pub second : ℕ
second = 1000000000

-- d.targets[addr]
unfoldable pub find : Addr → Targets → Option Target
unfolding addr_eq
find a [] = none
find a ((b, t) ∷ ts) = if addr_eq b a then some t else find a ts

-- d.targets[addr] = t, and the writes through the pointer that the map holds
unfoldable pub put : Addr → Target → Targets → Targets
unfolding addr_eq
put a t [] = (a, t) ∷ []
put a t ((b, u) ∷ ts) = let rest = put a t ts in if addr_eq b a then (a, t) ∷ ts else (b, u) ∷ rest

-- The loop that looks for the UID at another address.
unfoldable pub is_taken : Addr → Bytes → Targets → Bool
unfolding addr_eq bytes_eq
is_taken a id [] = false
is_taken a id ((b, u) ∷ ts) = not (addr_eq b a) && bytes_eq u.uid id || is_taken a id ts

-- targetLocked: the target, and the targets with it.
unfoldable pub target_locked : Addr → ℕ → Targets → Option Target × Targets
unfolding find put
target_locked a now ts = elim (find a ts) [
  | some t ↦ (some t, ts)
  | none ↦
      if leb max_dynamic_targets (length ts)
      then (none, ts)
      else (some (new_target now), put a (new_target now) ts)
]

-- targetForPeerLocked; the order in which Go visits a map is not fixed, here it is the list's.
unfoldable pub target_for_peer : Bytes → Targets → Option Target
unfolding bytes_eq
target_for_peer id [] = none
target_for_peer id ((a, t) ∷ ts) = if bytes_eq t.uid id then some t else target_for_peer id ts

-- jitterDelay, for a random number
abbrev pub jitter_delay : ℕ → ℕ → ℕ
jitter_delay random base = base + random % (base / 4 + 1)

-- retryDelay
unfoldable pub retry_delay : ℕ → ℕ → ℕ
retry_delay random failures =
    let shift = (if ltb failures 6 then failures else 6) - 1 in
    let base = 10 * second * 2 ^ shift in
    jitter_delay random (if ltb base (300 * second) then base else 300 * second)
