-- ===== src/Dynamic/Spared.antt =====
-- receivePolicy: what a message from a peer cannot change.
use velvet_fabric.Base.{
  ℕ, ◌<◌, ◌≡◌, refl, sym, ◌∙◌, subst, ◌⊎◌, inl, inr, true, false, not, ◌&&◌, ◌||◌, Option, none,
  some, [], ◌∷◌, arith, leb, ◌==◌, if◌then◌else◌, Bool-cases, length, if_keeps,
}
use velvet_fabric.Base.Bytes.{Bytes, bytes_eq, bytes_eq_iff}
use velvet_fabric.Net.{Addr, addr_eq}
use velvet_fabric.Net.Laws.{addr_eq_iff}
use velvet_fabric.Vfp.Values.{Policy, Uid}
use velvet_fabric.Vfp.Message.{Message}
use velvet_fabric.Dynamic.Targets.{
  Target, Targets, nil_uid, new_target, max_dynamic_targets, find, put, is_taken, target_locked,
}
use velvet_fabric.Dynamic.Binding.{
  is_newer, merge_policy, Local, is_other, is_update, is_query, receive_update, receive_query,
  receive_policy,
}
use velvet_fabric.Dynamic.Kept.{find-put}

-- The new policy is the old one or a later revision.
abbrev pub NotOlder : Option Policy → Option Policy → Type 0
NotOlder none q = Unit
NotOlder (some p) none = ⊥
NotOlder (some p) (some q) = (p ≡ q) ⊎ (p.revision < q.revision)

-- The backoff, the sending budgets and the dial of the target are the same, a binding stays, and so
-- does the newest policy.
pub record IsSpared (t u : Target) : Type 0 where
  pub dialing : u.dialing ≡ t.dialing
  pub failures : u.failures ≡ t.failures
  pub next_attempt : u.next_attempt ≡ t.next_attempt
  pub next_query : u.next_query ≡ t.next_query
  pub next_update : u.next_update ≡ t.next_update
  pub bound : u.bound ≡ t.bound
  pub uid : (bytes_eq t.uid nil_uid ≡ true) ⊎ (u.uid ≡ t.uid)
  pub policy : NotOlder t.policy u.policy

NotOlder-refl : (p : Option Policy) → NotOlder p p
NotOlder-refl none = tt
NotOlder-refl (some p) = inl refl

IsSpared-refl : (t : Target) → IsSpared t t
IsSpared-refl t = record {
  dialing = refl;
  failures = refl;
  next_attempt = refl;
  next_query = refl;
  next_update = refl;
  bound = refl;
  uid = inr refl;
  policy = NotOlder-refl t.policy;
}

newer-NotOlder :
    (p : Policy) (q : Option Policy) → is_newer p.revision q ≡ true → NotOlder q (some p)
newer-NotOlder p none h = tt
newer-NotOlder p (some q) h = inr (ground (arith, h))

pub merge_policy-IsSpared : (p : Option Policy) (t : Target) → IsSpared t (merge_policy p t)
unfolding merge_policy
merge_policy-IsSpared none t = IsSpared-refl t
merge_policy-IsSpared (some p) t = elim (Bool-cases (is_newer p.revision t.policy)) [
  | inr old ↦
      rw (old, merge_policy)
        (if_keeps (IsSpared t) (not (p.revision == 0) && false) _ _
          (λ w. absurd (ground (arith, w))) (IsSpared-refl t))
  | inl new ↦
      if_keeps (IsSpared t) (not (p.revision == 0) && is_newer p.revision t.policy) _ _
        (λ w. record {
          dialing = refl;
          failures = refl;
          next_attempt = refl;
          next_query = refl;
          next_update = refl;
          bound = refl;
          uid = inr refl;
          policy = newer-NotOlder p t.policy new;
        })
        (IsSpared-refl t)
]

pub find-put_other :
    (a b : Addr) (t : Target) (ts : Targets) → addr_eq a b ≡ false → find b (put a t ts) ≡ find b ts
unfolding find put
find-put_other a b t [] h = ground (arith, h)
find-put_other a b t ((c, u) ∷ ts) h =
    ground (arith, h, find-put_other a b t ts h, addr_eq_iff c a, addr_eq_iff c b)

-- The target at an address after a call, when there was one before.
abbrev pub SparedAt : Addr → Target → Targets → Type 0
SparedAt a t ts = (u : Target) × (find a ts ≡ some u) × IsSpared t u

-- A write to the target of one address that spares it.
put-SparedAt :
    (a b : Addr) (t u v : Target) (ts : Targets)
    → find b ts ≡ some u
    → IsSpared u v
    → find a ts ≡ some t
    → SparedAt a t (put b v ts)
put-SparedAt a b t u v ts eb s ea = elim (Bool-cases (addr_eq b a)) [
  | inr apart ↦ (t, find-put_other b a v ts apart ∙ ea, IsSpared-refl t)
  | inl same ↦
      let e : b ≡ a = (addr_eq_iff b a).0 same in
      let eq : t ≡ u = ground (arith, ea, eb, e) in
      (
        v,
        subst (λ (c : Addr). find c (put b v ts) ≡ some v) e (find-put b v ts),
        subst (λ (w : Target). IsSpared w v) (sym eq) s,
      )
]

receive_update-SparedAt :
    (a source : Addr) (id : Bytes) (p : Option Policy) (t : Target) (ts : Targets)
    → find a ts ≡ some t
    → SparedAt a t (receive_update source id p ts)
unfolding receive_update
receive_update-SparedAt a source id p t ts e = known (find source ts) refl
  where
    stays : SparedAt a t ts
    stays = (t, e, IsSpared-refl t)

    known :
        (found : Option Target)
        → find source ts ≡ found
        → SparedAt a t (receive_update source id p ts)
    known none k = rw (k, receive_update) stays
    known (some u) k =
        rw (k, receive_update)
          (if_keeps (SparedAt a t) (not u.bound || not (bytes_eq u.uid id)) _ _ (λ w. stays)
            (put-SparedAt a source t u (merge_policy p u) ts k (merge_policy-IsSpared p u) e))

-- What a query makes of its target.
abbrev asked : Bytes → ℕ → Target → Target
asked id now t = record t { uid = id; last_seen = now; reachable = true; pending_update = true }

asked-IsSpared :
    (id : Bytes) (now : ℕ) (t : Target) → is_other id (some t) ≡ false → IsSpared t (asked id now t)
asked-IsSpared id now t h = record {
  dialing = refl;
  failures = refl;
  next_attempt = refl;
  next_query = refl;
  next_update = refl;
  bound = refl;
  uid = elim (Bool-cases (bytes_eq t.uid nil_uid)) [
    | inl free ↦ inl free
    | inr held ↦ inr (sym ((bytes_eq_iff t.uid id).0 (ground (arith, h, held))))
  ];
  policy = NotOlder-refl t.policy;
}

receive_query-SparedAt :
    (local : Local) (a source : Addr) (id : Bytes) (now : ℕ) (t : Target) (ts : Targets)
    → is_other id (find source ts) ≡ false
    → find a ts ≡ some t
    → SparedAt a t (receive_query local source id now ts)
unfolding receive_query target_locked
receive_query-SparedAt local a source id now t ts h e = known (find source ts) refl
  where
    stays : SparedAt a t ts
    stays = (t, e, IsSpared-refl t)

    known :
        (found : Option Target)
        → find source ts ≡ found
        → SparedAt a t (receive_query local source id now ts)
    known (some u) k =
        let result : receive_query local source id now ts
            ≡ (if not local.allows_inbound then ts else put source (asked id now u) ts) =
          ground (arith, k) in
        let other = subst (λ (o : Option Target). is_other id o ≡ false) k h in
        subst (SparedAt a t) (sym result) (
          if_keeps (SparedAt a t) (not local.allows_inbound) _ _ (λ w. stays)
            (put-SparedAt a source t u (asked id now u) ts k (asked-IsSpared id now u other) e))
    known none k =
        let apart : addr_eq source a ≡ false = elim (Bool-cases (addr_eq source a)) [
          | inr apart ↦ apart
          | inl same ↦ absurd (ground (arith, k, e, (addr_eq_iff source a).0 same))
        ] in
        let fresh = new_target now in
        let added : Targets = put source (asked id now fresh) (put source fresh ts) in
        let after : find a added ≡ some t =
          find-put_other source a (asked id now fresh) (put source fresh ts) apart
          ∙ find-put_other source a fresh ts apart
          ∙ e in
        elim (Bool-cases (leb max_dynamic_targets (length ts))) [
          | inl full ↦
              let result : receive_query local source id now ts ≡ ts = ground (arith, k, full) in
              subst (SparedAt a t) (sym result) stays
          | inr room ↦
              let result : receive_query local source id now ts
                  ≡ (if not local.allows_inbound then ts else added) =
                ground (arith, k, room) in
              subst (SparedAt a t) (sym result) (
                if_keeps (SparedAt a t) (not local.allows_inbound) _ _ (λ w. stays)
                  (t, after, IsSpared-refl t))
        ]

-- No message that receivePolicy takes from the policy socket changes the dial, the backoff or the
-- sending budgets of a target that is there, removes or replaces its binding, replaces its policy by
-- an older one, or removes it.
pub receive_policy-SparedAt :
    (local : Local) (a source : Addr) (m : Message) (now : ℕ) (t : Target) (ts : Targets)
    → find a ts ≡ some t
    → SparedAt a t (receive_policy local source m now ts)
unfolding receive_policy
receive_policy-SparedAt local a source m now t ts e = named m.uid refl
  where
    stays : SparedAt a t ts
    stays = (t, e, IsSpared-refl t)

    named : (uid : Option Uid) → m.uid ≡ uid → SparedAt a t (receive_policy local source m now ts)
    named none k = rw (k, receive_policy) stays
    named (some uid) k =
        let id = uid.uuid in
        elim (Bool-cases (is_other id (find source ts) || is_taken source id ts)) [
          | inl refused ↦
              rw (k, receive_policy, refused)
                (if_keeps (SparedAt a t)
                  (bytes_eq id nil_uid || bytes_eq id local.uuid || local.stopped) _ _ (λ w. stays)
                  stays)
          | inr taken ↦
              rw (k, receive_policy, taken)
                (if_keeps (SparedAt a t)
                  (bytes_eq id nil_uid || bytes_eq id local.uuid || local.stopped) _ _ (λ w. stays)
                  (if_keeps (SparedAt a t) (is_update m.kind) _ _
                    (λ w. receive_update-SparedAt a source id m.policy t ts e)
                    (if_keeps (SparedAt a t) (is_query m.kind) _ _
                      (λ w.
                        receive_query-SparedAt local a source id now t ts (ground (arith, taken)) e)
                      stays)))
        ]
