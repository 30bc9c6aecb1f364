-- ===== src/Dynamic/Guards.antt =====
-- A target that is being dialed stays, and keeps the UID that it is bound to, under every call.
use velvet_fabric.Base.{
  ℕ, ◌≡◌, refl, sym, ap, ◌∙◌, subst, ◌⊎◌, inl, inr, true, false, Option, none, some, List, [], ◌∷◌,
  arith, leb, Bool-cases, length, if_keeps,
}
use velvet_fabric.Base.Bytes.{Bytes, bytes_eq}
use velvet_fabric.Net.{Addr, addr_eq}
use velvet_fabric.Net.Laws.{addr_eq_iff}
use velvet_fabric.Vfp.Values.{Policy}
use velvet_fabric.Vfp.Message.{Message}
use velvet_fabric.Dynamic.Targets.{
  Target, Targets, nil_uid, new_target, max_dynamic_targets, find, put, target_locked,
}
use velvet_fabric.Dynamic.Binding.{Local, merge_policy, receive_policy}
use velvet_fabric.Dynamic.Attempts.{decline_target, at_peer}
use velvet_fabric.Dynamic.Dialing.{Surroundings, reset_targets, mark_reachable, evict, scan_targets}
use velvet_fabric.Dynamic.Kept.{find-put, merge_policy-uid}
use velvet_fabric.Dynamic.Spared.{find-put_other, receive_policy-SparedAt, merge_policy-IsSpared}

-- The target is dialed still, and has the UID that it had, unless that was the nil one.
abbrev pub Guarded : Target → Target → Type 0
Guarded t u = (u.dialing ≡ true) × ((bytes_eq t.uid nil_uid ≡ true) ⊎ (u.uid ≡ t.uid))

abbrev pub Guards : Targets → Targets → Type 0
Guards ts us =
    (a : Addr) (t : Target)
    → find a ts ≡ some t
    → t.dialing ≡ true
    → (u : Target) × (find a us ≡ some u) × Guarded t u

pub Guards-refl : (ts : Targets) → Guards ts ts
Guards-refl ts a t e d = (t, e, (d, inr refl))

Guarded-trans : (t u v : Target) → Guarded t u → Guarded u v → Guarded t v
Guarded-trans t u v (d, inl free) (d', same) = (d', inl free)
Guarded-trans t u v (d, inr e) (d', inr e') = (d', inr (e' ∙ e))
Guarded-trans t u v (d, inr e) (d', inl free) =
    (d', inl (subst (λ (id : Bytes). bytes_eq id nil_uid ≡ true) e free))

pub Guards-trans : (ts us vs : Targets) → Guards ts us → Guards us vs → Guards ts vs
Guards-trans ts us vs g h a t e d =
    let (u, eu, gu) = g a t e d in
    let (v, ev, gv) = h a u eu gu.0 in (v, ev, Guarded-trans t u v gu gv)

-- A write to the target of an address, with what it does to a dialed one.
pub put-Guards :
    (b : Addr) (v : Target) (ts : Targets)
    → ((u : Target) → find b ts ≡ some u → u.dialing ≡ true → Guarded u v)
    → Guards ts (put b v ts)
put-Guards b v ts k a t e d = elim (Bool-cases (addr_eq b a)) [
  | inr apart ↦ (t, find-put_other b a v ts apart ∙ e, (d, inr refl))
  | inl same ↦
      let eq : b ≡ a = (addr_eq_iff b a).0 same in
      (
        v,
        subst (λ (c : Addr). find c (put b v ts) ≡ some v) eq (find-put b v ts),
        k t (ap (λ (c : Addr). find c ts) eq ∙ e) d,
      )
]

pub found-eq :
    (b : Addr) (t u : Target) (ts : Targets) → find b ts ≡ some t → find b ts ≡ some u → u ≡ t
found-eq b t u ts e e' = ground (arith, e, e')

-- A write that keeps the dial and the UID, and one that adds a target.
pub update-Guards :
    (b : Addr) (t v : Target) (ts : Targets)
    → find b ts ≡ some t
    → v.dialing ≡ t.dialing
    → v.uid ≡ t.uid
    → Guards ts (put b v ts)
update-Guards b t v ts e d i = put-Guards b v ts (λ u e' d'.
    let same = found-eq b t u ts e e' in
    (
      d ∙ ap (λ (x : Target). x.dialing) (sym same) ∙ d',
      inr (i ∙ ap (λ (x : Target). x.uid) (sym same)),
    ))

pub new-Guards : (b : Addr) (v : Target) (ts : Targets) → find b ts ≡ none → Guards ts (put b v ts)
new-Guards b v ts e = put-Guards b v ts (λ u e' d. absurd (ground (arith, e, e')))

pub receive_policy-Guards :
    (local : Local) (source : Addr) (m : Message) (now : ℕ) (ts : Targets)
    → Guards ts (receive_policy local source m now ts)
receive_policy-Guards local source m now ts a t e d =
    let (u, eu, s) = receive_policy-SparedAt local a source m now t ts e in
    (u, eu, (s.dialing ∙ d, s.uid))

pub decline_target-Guards :
    (a : Addr) (p : Option Policy) (ts : Targets) → Guards ts (decline_target a p ts)
unfolding decline_target
decline_target-Guards a p ts = known (find a ts) refl
  where
    known : (found : Option Target) → find a ts ≡ found → Guards ts (decline_target a p ts)
    known none e = rw (e, decline_target) (Guards-refl ts)
    known (some t) e =
        rw (e, decline_target)
          (update-Guards a t (merge_policy p t) ts e ((merge_policy-IsSpared p t).dialing)
            (merge_policy-uid p t))

pub at_peer-Guards :
    (f : Target → Target) (id : Bytes) (ts : Targets)
    → ((t : Target) → (f t).uid ≡ t.uid)
    → ((t : Target) → (f t).dialing ≡ t.dialing)
    → Guards ts (at_peer f id ts)
unfolding at_peer find
at_peer-Guards f id [] k k' a t e d = absurd (ground (arith, e))
at_peer-Guards f id ((b, u) ∷ ts) k k' a t e d = elim (Bool-cases (bytes_eq u.uid id)) [
  | inl here ↦
      rw (here, at_peer)
        (elim (Bool-cases (addr_eq b a)) [
          | inl same ↦
              let eq : u ≡ t = ground (arith, e, same) in
              (
                f u,
                ground (arith, same),
                (
                  k' u ∙ ap (λ (x : Target). x.dialing) eq ∙ d,
                  inr (k u ∙ ap (λ (x : Target). x.uid) eq),
                ),
              )
          | inr apart ↦ (t, ground (arith, e, apart), (d, inr refl))
        ])
  | inr there ↦
      rw (there, at_peer)
        (elim (Bool-cases (addr_eq b a)) [
          | inl same ↦ (t, ground (arith, e, same), (d, inr refl))
          | inr apart ↦
              let (v, ev, gv) = at_peer-Guards f id ts k k' a t (ground (arith, e, apart)) d in
              (v, ground (arith, ev, apart), gv)
        ])
]

find-reset :
    (a : Addr) (t : Target) (ts : Targets)
    → find a ts ≡ some t
    → find a (reset_targets ts) ≡ some (record t { reachable = false; pending_query = false })
unfolding find reset_targets
find-reset a t [] e = absurd (ground (arith, e))
find-reset a t ((b, u) ∷ ts) e = ground (arith, e, find-reset a t ts)

reset_targets-Guards : (ts : Targets) → Guards ts (reset_targets ts)
reset_targets-Guards ts a t e d = (_, find-reset a t ts e, (d, inr refl))

mark_reachable-Guards :
    (now : ℕ) (reached : List Addr) (ts : Targets) → Guards ts (mark_reachable now reached ts)
unfolding mark_reachable
mark_reachable-Guards now [] ts = Guards-refl ts
mark_reachable-Guards now (a ∷ as') ts =
    Guards-trans ts _ _ (marked (find a ts) refl) (mark_reachable-Guards now as' _)
  where
    marked :
        (found : Option Target)
        → find a ts ≡ found
        → Guards ts (elim found as (λ o. Targets) [
          | none ↦ ts
          | some t ↦ put a (record t { reachable = true; last_seen = now }) ts
        ])
    marked none e = Guards-refl ts
    marked (some t) e =
        update-Guards a t (record t { reachable = true; last_seen = now }) ts e refl refl

find-evict :
    (s : Surroundings) (now : ℕ) (a : Addr) (t : Target) (ts : Targets)
    → find a ts ≡ some t
    → t.dialing ≡ true
    → find a (evict s now ts) ≡ some t
unfolding find evict
find-evict s now a t [] e d = absurd (ground (arith, e))
find-evict s now a t ((b, u) ∷ ts) e d = ground (arith, e, d, find-evict s now a t ts)

pub scan_targets-Guards :
    (s : Surroundings) (now : ℕ) (reached : List Addr) (ts : Targets)
    → Guards ts (scan_targets s now reached ts)
unfolding scan_targets
scan_targets-Guards s now reached ts = Guards-trans ts _ _ (reset_targets-Guards ts) (
    Guards-trans (reset_targets ts) _ _ (mark_reachable-Guards now reached (reset_targets ts))
      (λ a t e d. (t, find-evict s now a t _ e d, (d, inr refl))))

pub target_locked-Guards :
    (a : Addr) (now : ℕ) (ts : Targets) → Guards ts (target_locked a now ts).1
unfolding target_locked
target_locked-Guards a now ts = found (find a ts) refl
  where
    found : (o : Option Target) → find a ts ≡ o → Guards ts (target_locked a now ts).1
    found (some t) e = rw (e, target_locked) (Guards-refl ts)
    found none e =
        rw (e, target_locked)
          (if_keeps (λ (r : Option Target × Targets). Guards ts r.1)
            (leb max_dynamic_targets (length ts)) _ _ (λ w. Guards-refl ts)
            (new-Guards a (new_target now) ts e))
