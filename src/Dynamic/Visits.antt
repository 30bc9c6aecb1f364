-- ===== src/Dynamic/Visits.antt =====
-- What a visit of a target by a scan keeps, and the end of a dial.
use velvet_fabric.Base.{
  ℕ, ◌≡◌, refl, Bool, true, not, ◌||◌, Option, none, some, if◌then◌else◌, if_keeps,
}
use velvet_fabric.Net.{Addr, addr_eq}
use velvet_fabric.Dynamic.Targets.{Target, find, put}
use velvet_fabric.Dynamic.Dialing.{
  Dialer, Surroundings, is_denied, is_idle, reserve_dial, finish_routed_dial, visit,
}
use velvet_fabric.Dynamic.Kept.{IsKept, update-IsKept}
use velvet_fabric.Dynamic.Steps.{IsSound, reserve_dial-IsSound}

pub finish_routed_dial-IsSound :
    (s : Surroundings) (target : Addr) (lost : Bool) (random now : ℕ) (d : Dialer)
    → IsSound d
    → IsSound (finish_routed_dial s target lost random now d)
unfolding finish_routed_dial
finish_routed_dial-IsSound s target lost random now d h = known (find target d.targets) refl
  where
    known :
        (found : Option Target)
        → find target d.targets ≡ found
        → IsSound (finish_routed_dial s target lost random now d)
    known none e = rw (e, finish_routed_dial) h
    known (some t) e =
        rw (e, finish_routed_dial)
          (record { kept = update-IsKept target t _ d.targets h.kept e refl; dials = h.dials })

pub visit-IsSound :
    (s : Surroundings) (has_evidence : Bool) (target : Addr) (random now : ℕ) (d : Dialer)
    → IsSound d
    → IsSound (visit s has_evidence target random now d).1
unfolding visit
visit-IsSound s has_evidence target random now d h = known (find target d.targets) refl
  where
    P : Bool × Dialer → Type 0
    P r = IsSound r.1

    dial : IsSound (reserve_dial s target random now d).1
    dial = reserve_dial-IsSound s target random now d h

    known :
        (found : Option Target)
        → find target d.targets ≡ found
        → IsSound (visit s has_evidence target random now d).1
    known none e =
        rw (e, visit)
          (if_keeps P (addr_eq target s.loopback || s.is_direct target) _ _ (λ w. h)
            (if_keeps P (not has_evidence) _ _ (λ w. h) dial))
    known (some t) e =
        let asked : IsKept (
            if is_idle s t
            then put target (record t { pending_query = true }) d.targets
            else d.targets) =
          if_keeps IsKept (is_idle s t) _ _
            (λ w.
              update-IsKept target t (record t { pending_query = true }) d.targets h.kept e refl)
            h.kept in
        rw (e, visit)
          (if_keeps P (addr_eq target s.loopback || s.is_direct target) _ _ (λ w. h)
            (if_keeps P (is_denied t.policy) _ _ (λ w. record { kept = asked; dials = h.dials })
              (if_keeps P (not has_evidence) _ _ (λ w. h) dial)))
