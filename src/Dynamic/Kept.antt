-- ===== src/Dynamic/Kept.antt =====
-- What the calls of dynamic_policy.go keep: the size of the table, and one address for a UID.
use velvet_fabric.Base.{
  ℕ, ◌+◌, ◌≤◌, ◌≡◌, refl, sym, ◌∙◌, subst, inl, inr, true, false, not, ◌&&◌, ◌||◌, Option, none,
  some, [], ◌∷◌, arith, leb, Bool-cases, length, if_keeps,
}
use velvet_fabric.Base.Bytes.{Bytes, bytes_eq}
use velvet_fabric.Net.{Addr}
use velvet_fabric.Net.Laws.{addr_eq_iff}
use velvet_fabric.Vfp.Values.{Policy, Uid}
use velvet_fabric.Vfp.Message.{Message}
use velvet_fabric.Dynamic.Targets.{
  Target, Targets, nil_uid, new_target, max_dynamic_targets, find, put, is_taken, target_locked,
}
use velvet_fabric.Dynamic.Binding.{
  bind_policy_peer, merge_policy, Local, is_other, receive_update, receive_query, is_update,
  is_query, receive_policy,
}
use velvet_fabric.Dynamic.Table.{IsTable, fits, put-IsTable, find-fits}

-- A table of at most 4096 targets.
pub record IsKept (ts : Targets) : Type 0 where
  pub table : IsTable ts
  pub few : length ts ≤ max_dynamic_targets

pub find-put : (a : Addr) (t : Target) (ts : Targets) → find a (put a t ts) ≡ some t
unfolding find put
find-put a t [] = ground (arith, (addr_eq_iff a a).1 refl)
find-put a t ((b, u) ∷ ts) = ground (arith, find-put a t ts, (addr_eq_iff a a).1 refl)

pub length-put : (a : Addr) (t : Target) (ts : Targets) → length (put a t ts) ≤ length ts + 1
unfolding put
length-put a t [] = omega arith
length-put a t ((b, u) ∷ ts) = ground (arith, length-put a t ts)

pub length-put_found :
    (a : Addr) (t u : Target) (ts : Targets) → find a ts ≡ some u → length (put a t ts) ≡ length ts
unfolding find put
length-put_found a t u [] e = cc
length-put_found a t u ((b, v) ∷ ts) e = ground (arith, e, length-put_found a t u ts)

is_taken-put :
    (a : Addr) (t : Target) (id : Bytes) (ts : Targets)
    → is_taken a id (put a t ts) ≡ is_taken a id ts
unfolding is_taken put
is_taken-put a t id [] = ground (arith, (addr_eq_iff a a).1 refl)
is_taken-put a t id ((b, u) ∷ ts) = ground (arith, is_taken-put a t id ts, (addr_eq_iff a a).1 refl)

-- A write to a target that is there.
pub put-IsKept :
    (a : Addr) (t u : Target) (ts : Targets)
    → IsKept ts
    → find a ts ≡ some u
    → fits a t ts ≡ true
    → IsKept (put a t ts)
put-IsKept a t u ts h e f = record {
  table = put-IsTable a t ts h.table f;
  few = omega (arith, length-put_found a t u ts e, h.few);
}

pub update-IsKept :
    (a : Addr) (t u : Target) (ts : Targets)
    → IsKept ts
    → find a ts ≡ some t
    → u.uid ≡ t.uid
    → IsKept (put a u ts)
update-IsKept a t u ts h e same = put-IsKept a u t ts h e (
    subst (λ (id : Bytes). (bytes_eq id nil_uid || not (is_taken a id ts)) ≡ true) (sym same)
      (find-fits a t ts h.table e))

-- What target_locked leaves: the table is kept, the target it returns stands there, and no UID is
-- taken that was not.
pub record IsLocked (a : Addr) (ts : Targets) (r : Option Target × Targets) : Type 0 where
  pub kept : IsKept r.1
  pub stands : (t : Target) → r.0 ≡ some t → find a r.1 ≡ some t
  pub same : (id : Bytes) → is_taken a id r.1 ≡ is_taken a id ts

pub target_locked-IsLocked :
    (a : Addr) (now : ℕ) (ts : Targets) → IsKept ts → IsLocked a ts (target_locked a now ts)
unfolding target_locked
target_locked-IsLocked a now ts h = found (find a ts) refl
  where
    added : leb max_dynamic_targets (length ts) ≡ false → IsKept (put a (new_target now) ts)
    added room = record {
      table = put-IsTable a (new_target now) ts h.table (unfold bytes_eq in refl);
      few = ground (arith, length-put a (new_target now) ts, room);
    }

    found : (t : Option Target) → find a ts ≡ t → IsLocked a ts (target_locked a now ts)
    found (some t) e =
        rw (e, target_locked) (record { kept = h; stands = λ u k. e ∙ k; same = λ id. refl })
    found none e = elim (Bool-cases (leb max_dynamic_targets (length ts))) [
      | inl full ↦
          rw (e, target_locked, full) (record { kept = h; stands = λ u k. cc; same = λ id. refl })
      | inr room ↦
          rw (e, target_locked, room)
            (record {
              kept = added room;
              stands = λ u k. find-put a (new_target now) ts ∙ k;
              same = λ id. is_taken-put a (new_target now) id ts;
            })
    ]

pub bind_policy_peer-IsKept :
    (a : Addr) (id : Bytes) (now later : ℕ) (ts : Targets)
    → IsKept ts
    → IsKept (bind_policy_peer a id now later ts).1
unfolding bind_policy_peer
bind_policy_peer-IsKept a id now later ts h = bound (target_locked a now ts).0 refl
  where
    locked : IsLocked a ts (target_locked a now ts)
    locked = target_locked-IsLocked a now ts h

    bound :
        (found : Option Target)
        → (target_locked a now ts).0 ≡ found
        → IsKept (bind_policy_peer a id now later ts).1
    bound none e = rw (e, bind_policy_peer) locked.kept
    bound (some t) e = elim (Bool-cases (not (bytes_eq t.uid nil_uid) && not (bytes_eq t.uid id))) [
      | inl other ↦ rw (e, bind_policy_peer, other) locked.kept
      | inr same ↦ elim (Bool-cases (is_taken a id (target_locked a now ts).1)) [
        | inl taken ↦ rw (e, bind_policy_peer, same, taken) locked.kept
        | inr free ↦
            rw (e, bind_policy_peer, same, free)
              (put-IsKept a (record t { uid = id; bound = true; last_seen = later }) t
                (target_locked a now ts).1 locked.kept (locked.stands t e) (ground (arith, free)))
      ]
    ]

pub merge_policy-uid : (p : Option Policy) (t : Target) → (merge_policy p t).uid ≡ t.uid
unfolding merge_policy
merge_policy-uid none t = refl
merge_policy-uid (some p) t = ground arith

receive_update-IsKept :
    (source : Addr) (id : Bytes) (p : Option Policy) (ts : Targets)
    → IsKept ts
    → IsKept (receive_update source id p ts)
unfolding receive_update
receive_update-IsKept source id p ts h = known (find source ts) refl
  where
    known :
        (found : Option Target) → find source ts ≡ found → IsKept (receive_update source id p ts)
    known none e = rw (e, receive_update) h
    known (some t) e =
        rw (e, receive_update)
          (if_keeps IsKept (not t.bound || not (bytes_eq t.uid id)) _ _ (λ w. h)
            (update-IsKept source t (merge_policy p t) ts h e (merge_policy-uid p t)))

receive_query-IsKept :
    (local : Local) (source : Addr) (id : Bytes) (now : ℕ) (ts : Targets)
    → IsKept ts
    → is_taken source id ts ≡ false
    → IsKept (receive_query local source id now ts)
unfolding receive_query
receive_query-IsKept local source id now ts h free = asked (target_locked source now ts).0 refl
  where
    locked : IsLocked source ts (target_locked source now ts)
    locked = target_locked-IsLocked source now ts h

    asked :
        (found : Option Target)
        → (target_locked source now ts).0 ≡ found
        → IsKept (receive_query local source id now ts)
    asked none e =
        rw (e, receive_query) (if_keeps IsKept (not local.allows_inbound) _ _ (λ w. h) locked.kept)
    asked (some t) e =
        let u : Target = record t {
          uid = id;
          last_seen = now;
          reachable = true;
          pending_update = true;
        } in
        rw (e, receive_query)
          (if_keeps IsKept (not local.allows_inbound) _ _ (λ w. h)
            (put-IsKept source u t (target_locked source now ts).1 locked.kept (locked.stands t e)
              (ground (arith, free, locked.same id))))

pub receive_policy-IsKept :
    (local : Local) (source : Addr) (m : Message) (now : ℕ) (ts : Targets)
    → IsKept ts
    → IsKept (receive_policy local source m now ts)
unfolding receive_policy
receive_policy-IsKept local source m now ts h = named m.uid refl
  where
    named : (uid : Option Uid) → m.uid ≡ uid → IsKept (receive_policy local source m now ts)
    named none e = rw (e, receive_policy) h
    named (some uid) e =
        let id = uid.uuid in
        elim (Bool-cases (is_taken source id ts)) [
          | inl taken ↦
              (let full : (is_other id (find source ts) || true) ≡ true = ground arith in
                rw (e, receive_policy, taken, full)
                  (if_keeps IsKept (bytes_eq id nil_uid || bytes_eq id local.uuid || local.stopped)
                    _ _ (λ w. h) h))
          | inr free ↦
              rw (e, receive_policy)
                (if_keeps IsKept (bytes_eq id nil_uid || bytes_eq id local.uuid || local.stopped) _
                  _ (λ w. h)
                  (if_keeps IsKept (is_other id (find source ts) || is_taken source id ts) _ _
                    (λ w. h)
                    (if_keeps IsKept (is_update m.kind) _ _
                      (λ w. receive_update-IsKept source id m.policy ts h)
                      (if_keeps IsKept (is_query m.kind) _ _
                        (λ w. receive_query-IsKept local source id now ts h free) h))))
        ]
