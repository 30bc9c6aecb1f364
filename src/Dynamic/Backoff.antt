-- ===== src/Dynamic/Backoff.antt =====
-- reserveDial: when a dial is granted, and how long the next one has to wait.
use velvet_fabric.Base.{
  ℕ, zero, suc, ◌+◌, ◌-◌, ◌*◌, ◌^◌, ◌≤◌, ◌<◌, ◌≡◌, refl, sym, ◌∙◌, subst, inl, inr, Bool, true,
  false, ◌||◌, Option, some, arith, ltb, leb, ◌==◌, if◌then◌else◌, Bool-cases, if_keeps,
}
use velvet_fabric.Net.{Addr, addr_eq}
use velvet_fabric.Dynamic.Targets.{Target, second, find, retry_delay, jitter_delay}
use velvet_fabric.Dynamic.Dialing.{
  Dialer, Surroundings, max_dials_per_second, is_held, is_full, state_or_new, dialed, in_window,
  begin_dial, reserve_dial,
}
use velvet_fabric.Dynamic.Kept.{find-put}

jitter_delay-least : (random base : ℕ) → base ≤ jitter_delay random base
jitter_delay-least random base = omega arith

base-least : (n : ℕ) → n ≤ 5 → 10 * second ≤ 10 * second * 2 ^ n
base-least zero h = omega arith
base-least (suc zero) h = omega arith
base-least (suc (suc zero)) h = omega arith
base-least (suc (suc (suc zero))) h = omega arith
base-least (suc (suc (suc (suc zero)))) h = omega arith
base-least (suc (suc (suc (suc (suc zero))))) h = omega arith
base-least (suc (suc (suc (suc (suc (suc n)))))) h = absurd (omega (arith, h))

retry_delay-least : (random failures : ℕ) → 10 * second ≤ retry_delay random failures
unfolding retry_delay
retry_delay-least random failures =
    let shift = (if ltb failures 6 then failures else 6) - 1 in
    let few : shift ≤ 5 = ground arith in
    let base = base-least shift few in
    let capped =
      if_keeps (λ n. 10 * second ≤ n) (ltb (10 * second * 2 ^ shift) (300 * second))
        (10 * second * 2 ^ shift) (300 * second) (λ w. base) (omega arith) in
    omega (
      arith,
      capped,
      jitter_delay-least random (
          if ltb (10 * second * 2 ^ shift) (300 * second)
          then 10 * second * 2 ^ shift
          else 300 * second),
    )

begin_dial-granted :
    (target : Addr) (random now : ℕ) (t : Target) (d : Dialer)
    → (begin_dial target random now t d).0 ≡ true
    → find target (begin_dial target random now t d).1.targets ≡ some (dialed random now t)
unfolding begin_dial
begin_dial-granted target random now t d h =
    elim (Bool-cases (leb max_dials_per_second d.dial_count || d.free == 0)) [
      | inl spent ↦ absurd (ground (arith, h, spent))
      | inr free ↦ rw (free, begin_dial) (find-put target (dialed random now t) d.targets)
    ]

-- The tests that a granted dial has passed, and its target after it.
pub record IsGranted (s : Surroundings) (target : Addr) (random now : ℕ) (d : Dialer) : Type 0 where
  pub running : s.stopped ≡ false
  pub remote : (addr_eq target s.loopback || s.is_direct target) ≡ false
  pub free : is_held s now (find target d.targets) ≡ false
  pub after :
      find target (reserve_dial s target random now d).1.targets
      ≡ some (dialed random now (state_or_new now (find target d.targets)))

pub reserve_dial-IsGranted :
    (s : Surroundings) (target : Addr) (random now : ℕ) (d : Dialer)
    → (reserve_dial s target random now d).0 ≡ true
    → IsGranted s target random now d
unfolding reserve_dial
reserve_dial-IsGranted s target random now d h =
    let found = find target d.targets in
    elim (Bool-cases (addr_eq target s.loopback || s.is_direct target)) [
      | inl local ↦ absurd (ground (arith, h, local))
      | inr remote ↦ elim (Bool-cases (s.stopped || is_held s now found)) [
        | inl held ↦ absurd (ground (arith, h, remote, held))
        | inr free ↦ elim (Bool-cases (is_full found d.targets)) [
          | inl full ↦ absurd (ground (arith, h, remote, free, full))
          | inr room ↦
              let result : reserve_dial s target random now d
                  ≡ begin_dial target random now (state_or_new now found) (in_window now d) =
                rw (remote, free, room, reserve_dial) refl in
              let granted : (begin_dial target random now (state_or_new now found)
                    (in_window now d)).0
                  ≡ true =
                subst (λ (r : Bool × Dialer). r.0 ≡ true) result h in
              let after =
                begin_dial-granted target random now (state_or_new now found) (in_window now d)
                  granted in
              record {
                running = ground (arith, free);
                remote = remote;
                free = ground (arith, free);
                after =
                    subst
                      (λ (r : Bool × Dialer).
                        find target r.1.targets ≡ some (dialed random now (state_or_new now found)))
                      (sym result) after;
              }
        ]
      ]
    ]

-- A dial is granted only while the engine runs, to an address that is neither its own nor behind a
-- direct Link, with a target that is not held: not being dialed, past its backoff, not denied by its
-- policy, and without an attempt or a cleanup. As long as the backoff of the target is not lowered, no
-- other dial to it is granted in the next ten seconds, whatever else has changed.
pub reserve_dial-backoff :
    (s s' : Surroundings) (target : Addr) (random random' now now' : ℕ) (d d' : Dialer)
    (u u' : Target)
    → (reserve_dial s target random now d).0 ≡ true
    → find target (reserve_dial s target random now d).1.targets ≡ some u
    → find target d'.targets ≡ some u'
    → u.next_attempt ≤ u'.next_attempt
    → now' < now + 10 * second
    → IsGranted s target random now d × ((reserve_dial s' target random' now' d').0 ≡ false)
unfolding is_held
reserve_dial-backoff s s' target random random' now now' d d' u u' h eu eu' k early =
    let granted = reserve_dial-IsGranted s target random now d h in
    let same : some u ≡ some (dialed random now (state_or_new now (find target d.targets))) =
      sym eu ∙ granted.after in
    (
      granted,
      elim (Bool-cases (reserve_dial s' target random' now' d').0) [
        | inr refused ↦ refused
        | inl again ↦
            let free = (reserve_dial-IsGranted s' target random' now' d' again).free in
            let free' = subst (λ (o : Option Target). is_held s' now' o ≡ false) eu' free in
            let wait =
              retry_delay-least random
                (dialed random now (state_or_new now (find target d.targets))).failures in
            let next : u.next_attempt
                ≡ now
                  + retry_delay random
                      (dialed random now (state_or_new now (find target d.targets))).failures =
              ground (arith, same) in
            absurd (ground (arith, free', next, wait, k, early))
      ],
    )
