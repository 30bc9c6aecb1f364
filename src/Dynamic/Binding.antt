-- ===== src/Dynamic/Binding.antt =====
-- dynamic_policy.go: what a routed session and a policy message change.
use velvet_fabric.Base.{
  ℕ, Bool, true, false, not, ◌&&◌, ◌||◌, Option, none, some, leb, ◌==◌, if◌then◌else◌,
}
use velvet_fabric.Base.Bytes.{Bytes, bytes_eq}
use velvet_fabric.Net.{Addr}
use velvet_fabric.Vfp.Kinds.{Kind, policy_update, policy_query}
use velvet_fabric.Vfp.Values.{Policy}
use velvet_fabric.Vfp.Message.{Message}
use velvet_fabric.Dynamic.Targets.{Target, Targets, nil_uid, find, put, is_taken, target_locked}

pub data BindError : Type 0 where
  cache_full identity_conflict already_bound : BindError

-- bindPolicyPeer; a target that it has made stays when the UID is taken.
unfoldable pub bind_policy_peer : Addr → Bytes → ℕ → ℕ → Targets → Option BindError × Targets
unfolding target_locked is_taken put bytes_eq
bind_policy_peer a id now later ts =
    let (found, ts') = target_locked a now ts in
    elim found [
      | none ↦ (some cache_full, ts')
      | some t ↦
          if not (bytes_eq t.uid nil_uid) && not (bytes_eq t.uid id)
          then (some identity_conflict, ts')
          else if is_taken a id ts'
          then (some already_bound, ts')
          else (none, put a (record t { uid = id; bound = true; last_seen = later }) ts')
    ]

-- t.policy == nil || p.Revision > t.policy.Revision
abbrev pub is_newer : ℕ → Option Policy → Bool
is_newer revision none = true
is_newer revision (some q) = not (leb revision q.revision)

-- mergePolicyLocked on a target that is there
unfoldable pub merge_policy : Option Policy → Target → Target
merge_policy none t = t
merge_policy (some p) t =
    if not (p.revision == 0) && is_newer p.revision t.policy
    then record t { policy = some p; pending_query = false }
    else t

-- What receivePolicy reads of the engine.
pub record Local : Type 0 where
  pub uuid : Bytes
  pub allows_inbound : Bool
  pub stopped : Bool

-- The first test on the target of the source: another UID is bound to it.
abbrev pub is_other : Bytes → Option Target → Bool
is_other id none = false
is_other id (some t) = not (bytes_eq t.uid nil_uid) && not (bytes_eq t.uid id)

-- PolicyUpdate
unfoldable pub receive_update : Addr → Bytes → Option Policy → Targets → Targets
unfolding find put merge_policy bytes_eq
receive_update source id p ts = elim (find source ts) [
  | none ↦ ts
  | some t ↦ if not t.bound || not (bytes_eq t.uid id) then ts else put source (merge_policy p t) ts
]

-- PolicyQuery
unfoldable pub receive_query : Local → Addr → Bytes → ℕ → Targets → Targets
unfolding target_locked put
receive_query local source id now ts =
    let (found, ts') = target_locked source now ts in
    let asked : Targets = elim found [
      | none ↦ ts'
      | some t ↦
          put source
            (record t { uid = id; last_seen = now; reachable = true; pending_update = true }) ts'
    ] in
    if not local.allows_inbound then ts else asked

abbrev pub is_update : Kind → Bool
is_update policy_update = true
is_update _ = false

abbrev pub is_query : Kind → Bool
is_query policy_query = true
is_query _ = false

-- The two cases on the type of the message.
abbrev pub receive_kind : Local → Addr → Message → Bytes → ℕ → Targets → Targets
receive_kind local source m id now ts =
    if is_update m.kind
    then receive_update source id m.policy ts
    else if is_query m.kind
    then receive_query local source id now ts
    else ts

-- receivePolicy
unfoldable pub receive_policy : Local → Addr → Message → ℕ → Targets → Targets
unfolding find is_taken receive_update receive_query bytes_eq
receive_policy local source m now ts = elim m.uid [
  | none ↦ ts
  | some uid ↦
      if bytes_eq uid.uuid nil_uid || bytes_eq uid.uuid local.uuid || local.stopped
      then ts
      else if is_other uid.uuid (find source ts) || is_taken source uid.uuid ts
      then ts
      else receive_kind local source m uid.uuid now ts
]
