-- ===== src/Dynamic/Dialed.antt =====
-- A target that is being dialed: binding its session, the other dials and the flush.
use velvet_fabric.Base.{
  ℕ, ◌+◌, ◌≡◌, refl, sym, ap, ◌∙◌, subst, ◌⊎◌, inl, inr, Bool, true, false, not, ◌&&◌, ◌||◌, Option,
  none, some, arith, leb, ◌==◌, if◌then◌else◌, Bool-cases, if_keeps,
}
use velvet_fabric.Base.Bytes.{Bytes, bytes_eq, bytes_eq_iff}
use velvet_fabric.Net.{Addr, addr_eq}
use velvet_fabric.Dynamic.Targets.{
  Target, Targets, nil_uid, second, find, put, is_taken, target_locked,
}
use velvet_fabric.Dynamic.Binding.{BindError, bind_policy_peer}
use velvet_fabric.Dynamic.Dialing.{
  Dialer, Surroundings, is_denied, is_idle, is_held, is_full, state_or_new, dialed,
  max_dials_per_second, in_window, begin_dial, reserve_dial, finish_routed_dial, visit,
}
use velvet_fabric.Dynamic.Kept.{IsKept, target_locked-IsLocked, find-put}
use velvet_fabric.Dynamic.Spared.{find-put_other}
use velvet_fabric.Dynamic.Guards.{
  Guarded, Guards, Guards-refl, Guards-trans, put-Guards, update-Guards, target_locked-Guards,
  found-eq,
}
use velvet_fabric.Dynamic.Backoff.{reserve_dial-IsGranted}

-- What bindPolicyPeer leaves: the dialed targets, and on success the target with the UID.
pub record IsBound (a : Addr) (id : Bytes) (ts : Targets) (r : Option BindError × Targets)
    : Type 0 where
  pub guards : Guards ts r.1
  pub stands : r.0 ≡ none → (t : Target) × (find a r.1 ≡ some t) × (t.uid ≡ id)

pub bind_policy_peer-IsBound :
    (a : Addr) (id : Bytes) (now later : ℕ) (ts : Targets)
    → IsKept ts
    → IsBound a id ts (bind_policy_peer a id now later ts)
unfolding bind_policy_peer
bind_policy_peer-IsBound a id now later ts h = bound (target_locked a now ts).0 refl
  where
    us : Targets
    us = (target_locked a now ts).1

    locked : Guards ts us
    locked = target_locked-Guards a now ts

    bound :
        (found : Option Target)
        → (target_locked a now ts).0 ≡ found
        → IsBound a id ts (bind_policy_peer a id now later ts)
    bound none e = rw (e, bind_policy_peer) (record { guards = locked; stands = λ k. cc })
    bound (some t) e = elim (Bool-cases (not (bytes_eq t.uid nil_uid) && not (bytes_eq t.uid id))) [
      | inl other ↦ rw (e, bind_policy_peer, other) (record { guards = locked; stands = λ k. cc })
      | inr same ↦ elim (Bool-cases (is_taken a id us)) [
        | inl taken ↦
            rw (e, bind_policy_peer, same, taken) (record { guards = locked; stands = λ k. cc })
        | inr free ↦
            let v : Target = record t { uid = id; bound = true; last_seen = later } in
            let there = (target_locked-IsLocked a now ts h).stands t e in
            let keeps : (bytes_eq t.uid nil_uid ≡ true) ⊎ (id ≡ t.uid) =
              elim (Bool-cases (bytes_eq t.uid nil_uid)) [
                | inl free ↦ inl free
                | inr taken ↦ inr (sym ((bytes_eq_iff t.uid id).0 (ground (arith, same, taken))))
              ] in
            rw (e, bind_policy_peer, same, free)
              (record {
                guards = Guards-trans ts us (put a v us) locked (
                    put-Guards a v us (λ u e' d.
                      let eq = found-eq a t u us there e' in
                      subst (λ (x : Target). Guarded x v) (sym eq)
                        (ap (λ (x : Target). x.dialing) (sym eq) ∙ d, keeps)));
                stands = λ k. (v, find-put a v us, refl);
              })
      ]
    ]

begin_dial-Guards :
    (target : Addr) (random now : ℕ) (t : Target) (d : Dialer)
    → Guards d.targets (put target (dialed random now t) d.targets)
    → Guards d.targets (begin_dial target random now t d).1.targets
unfolding begin_dial
begin_dial-Guards target random now t d h =
    if_keeps (λ (r : Bool × Dialer). Guards d.targets r.1.targets)
      (leb max_dials_per_second d.dial_count || d.free == 0) _ _ (λ w. Guards-refl d.targets) h

reserve_dial-Guards :
    (s : Surroundings) (target : Addr) (random now : ℕ) (d : Dialer)
    → Guards d.targets (reserve_dial s target random now d).1.targets
unfolding reserve_dial
reserve_dial-Guards s target random now d =
    if_keeps P (addr_eq target s.loopback || s.is_direct target) _ _ (λ w. stays)
      (if_keeps P (s.stopped || is_held s now (find target d.targets)) _ _ (λ w. stays)
        (if_keeps P (is_full (find target d.targets) d.targets) _ _ (λ w. stays)
          (subst
            (λ (ts : Targets).
              Guards ts (begin_dial target random now t (in_window now d)).1.targets)
            same
            (begin_dial-Guards target random now t (in_window now d) (
              subst (λ (ts : Targets). Guards ts (put target (dialed random now t) ts)) (sym same)
                kept)))))
  where
    P : Bool × Dialer → Type 0
    P r = Guards d.targets r.1.targets

    t : Target
    t = state_or_new now (find target d.targets)

    stays : Guards d.targets d.targets
    stays = Guards-refl d.targets

    same : (in_window now d).targets ≡ d.targets
    same =
        if_keeps (λ (e : Dialer). e.targets ≡ d.targets) (leb (d.dial_window + second) now) _ _
          (λ w. refl) refl

    kept : Guards d.targets (put target (dialed random now t) d.targets)
    kept =
        put-Guards target (dialed random now t) d.targets
          (λ u e d'. (refl, inr (ap (λ (o : Option Target). (state_or_new now o).uid) e)))

-- What a visit leaves: the dialed targets and, when it grants a dial, that of the dial.
pub record IsVisited (target : Addr) (ts : Targets) (r : Bool × Dialer) : Type 0 where
  pub guards : Guards ts r.1.targets
  pub stands : r.0 ≡ true → (t : Target) × (find target r.1.targets ≡ some t) × (t.dialing ≡ true)

pub visit-IsVisited :
    (s : Surroundings) (has_evidence : Bool) (target : Addr) (random now : ℕ) (d : Dialer)
    → IsVisited target d.targets (visit s has_evidence target random now d)
unfolding visit
visit-IsVisited s has_evidence target random now d = known (find target d.targets) refl
  where
    P : Bool × Dialer → Type 0
    P r = IsVisited target d.targets r

    stays : P (false, d)
    stays = record { guards = Guards-refl d.targets; stands = λ k. cc }

    dial : P (reserve_dial s target random now d)
    dial = record {
      guards = reserve_dial-Guards s target random now d;
      stands = λ k. (_, (reserve_dial-IsGranted s target random now d k).after, refl);
    }

    known :
        (found : Option Target)
        → find target d.targets ≡ found
        → P (visit s has_evidence target random now d)
    known none e =
        rw (e, visit)
          (if_keeps P (addr_eq target s.loopback || s.is_direct target) _ _ (λ w. stays)
            (if_keeps P (not has_evidence) _ _ (λ w. stays) dial))
    known (some t) e =
        let asked : Guards d.targets (
            if is_idle s t
            then put target (record t { pending_query = true }) d.targets
            else d.targets) =
          if_keeps (Guards d.targets) (is_idle s t) _ _
            (λ w. update-Guards target t (record t { pending_query = true }) d.targets e refl refl)
            (Guards-refl d.targets) in
        rw (e, visit)
          (if_keeps P (addr_eq target s.loopback || s.is_direct target) _ _ (λ w. stays)
            (if_keeps P (is_denied t.policy) _ _ (λ w. record { guards = asked; stands = λ k. cc })
              (if_keeps P (not has_evidence) _ _ (λ w. stays) dial)))

-- The end of a dial leaves the targets at other addresses.
pub finish_routed_dial-others :
    (s : Surroundings) (target a : Addr) (lost : Bool) (random now : ℕ) (d : Dialer)
    → addr_eq target a ≡ false
    → find a (finish_routed_dial s target lost random now d).targets ≡ find a d.targets
unfolding finish_routed_dial
finish_routed_dial-others s target a lost random now d apart = known (find target d.targets) refl
  where
    known :
        (found : Option Target)
        → find target d.targets ≡ found
        → find a (finish_routed_dial s target lost random now d).targets ≡ find a d.targets
    known none e = rw (e, finish_routed_dial) refl
    known (some t) e = rw (e, finish_routed_dial) (find-put_other target a _ d.targets apart)
