-- ===== src/Dynamic/Sending.antt =====
-- dynamic_policy.go: flushPolicy, which sends the policy messages that are due.
use velvet_fabric.Base.{
  ℕ, zero, suc, ◌+◌, ◌*◌, ◌%◌, Bool, true, false, not, ◌&&◌, Option, none, some, List, [], ◌∷◌, ltb,
  leb, ◌==◌, if◌then◌else◌, length,
}
use velvet_fabric.Base.Bytes.{Bytes}
use velvet_fabric.Net.{Addr, none_addr, v4, v6}
use velvet_fabric.Vfp.Kinds.{policy_update, policy_query}
use velvet_fabric.Vfp.Message.{Message, blank}
use velvet_fabric.Dynamic.Targets.{Target, Targets, second, find, put, jitter_delay}
use velvet_fabric.Dynamic.Dialing.{is_denied}

-- What flushPolicy reads of the engine.
pub record Setup : Type 0 where
  pub uuid : Bytes
  pub allows_inbound : Bool
  pub revision : ℕ

abbrev pub max_policy_sends : ℕ
max_policy_sends = 16

-- dynamicUpdateInterval and dynamicQueryInterval
abbrev pub update_interval : ℕ
update_interval = 5 * second

abbrev pub query_interval : ℕ
query_interval = 300 * second

-- netip.Addr.Compare(b) < 0
unfoldable pub addr_lt : Addr → Addr → Bool
addr_lt none_addr none_addr = false
addr_lt none_addr b = true
addr_lt (v4 m) (v4 n) = ltb m n
addr_lt (v4 m) (v6 n) = true
addr_lt (v6 m) (v6 n) = ltb m n
addr_lt a b = false

unfoldable pub insert_key : Addr → List Addr → List Addr
unfolding addr_lt
insert_key a [] = a ∷ []
insert_key a (b ∷ bs) = let rest = insert_key a bs in if addr_lt b a then b ∷ rest else a ∷ b ∷ bs

-- The sorted keys of the map.
unfoldable pub sorted_keys : Targets → List Addr
unfolding insert_key
sorted_keys [] = []
sorted_keys ((a, t) ∷ ts) = insert_key a (sorted_keys ts)

unfoldable pub key_at : ℕ → List Addr → Option Addr
key_at i [] = none
key_at zero (a ∷ as') = some a
key_at (suc i) (a ∷ as') = key_at i as'

-- t.pendingUpdate && t.reachable && !now.Before(t.nextUpdate) && d.policyRevision != 0
abbrev pub update_is_due : Setup → ℕ → Target → Bool
update_is_due s now t =
    t.pending_update && t.reachable && leb t.next_update now && not (s.revision == 0)

abbrev pub query_is_due : ℕ → Target → Bool
query_is_due now t = t.pending_query && leb t.next_query now && t.bound && is_denied t.policy

-- The message that a target is due, and the target after it.
unfoldable pub flush_one : Setup → ℕ → ℕ → Target → Option Message × Target
flush_one s random now t =
    if update_is_due s now t
    then (
      some (record (blank policy_update) {
        uid = some (record { uuid = s.uuid; name = [] });
        policy = some (record { revision = s.revision; accept = s.allows_inbound });
      }),
      record t { pending_update = false; next_update = now + update_interval },
    )
    else if query_is_due now t
    then (
      some (record (blank policy_query) { uid = some (record { uuid = s.uuid; name = [] }) }),
      record t { pending_query = false; next_query = now + jitter_delay random query_interval },
    )
    else (none, t)

-- The locals of flushPolicy that change: the targets, policyCursor, and the sends, newest first.
pub record Sends : Type 0 where
  pub targets : Targets
  pub cursor : ℕ
  pub sent : List (Addr × Message)

-- The visit of a target; a key without a target cannot be.
unfoldable pub flush_key : Setup → ℕ → ℕ → Addr → Sends → Sends
unfolding find put flush_one
flush_key s random now a d = elim (find a d.targets) [
  | none ↦ d
  | some t ↦
      (let (m, u) = flush_one s random now t in
        elim m [
          | none ↦ d
          | some msg ↦ record d { targets = put a u d.targets; sent = (a, msg) ∷ d.sent }
        ])
]

-- The loop, for `left` more keys. The random numbers are those of the visits.
unfoldable pub flush_loop : Setup → (ℕ → ℕ) → ℕ → List Addr → ℕ → Sends → Sends
unfolding flush_key key_at
flush_loop s random now keys zero d = d
flush_loop s random now keys (suc left) d =
    let i = d.cursor % length keys in
    let moved : Sends = record d { cursor = (i + 1) % length keys } in
    let next = elim (key_at i keys) as (λ k. Sends) [
      | none ↦ moved
      | some a ↦ flush_key s (random left) now a moved
    ] in
    let rest = flush_loop s random now keys left next in
    if ltb (length d.sent) max_policy_sends then rest else d

-- flushPolicy with a policy socket: the targets, the cursor, and what is sent, newest first.
unfoldable pub flush_policy : Setup → (ℕ → ℕ) → ℕ → ℕ → Targets → Sends
unfolding sorted_keys flush_loop
flush_policy s random now cursor ts =
    let keys = sorted_keys ts in
    flush_loop s random now keys (length keys) (record { targets = ts; cursor = cursor; sent = [] })
