-- ===== src/Dynamic/Steps.antt =====
-- What the calls of dynamic_discovery.go keep: the table, and the dials of a window.
use velvet_fabric.Base.{
  ℕ, ◌+◌, ◌≤◌, ◌≡◌, refl, sym, ◌∙◌, subst, inl, inr, Bool, true, false, ◌||◌, Option, none, some,
  List, [], ◌∷◌, arith, leb, ◌==◌, Bool-cases, length, if_keeps,
}
use velvet_fabric.Base.Bytes.{Bytes, bytes_eq}
use velvet_fabric.Net.{Addr, addr_eq}
use velvet_fabric.Dynamic.Targets.{Target, Targets, new_target, second, find, put}
use velvet_fabric.Dynamic.Dialing.{
  is_stale, Dialer, Surroundings, max_dials_per_second, is_held, is_full, state_or_new, dialed,
  in_window, begin_dial, reserve_dial, reset_targets, mark_reachable, evict, scan_targets,
}
use velvet_fabric.Dynamic.Table.{IsTable, has_key, has_uid, put-IsTable}
use velvet_fabric.Dynamic.Kept.{IsKept, update-IsKept, length-put}

reset_targets-has_key : (a : Addr) (ts : Targets) → has_key a (reset_targets ts) ≡ has_key a ts
unfolding reset_targets
reset_targets-has_key a [] = refl
reset_targets-has_key a ((b, t) ∷ ts) = ground (arith, reset_targets-has_key a ts)

reset_targets-has_uid : (id : Bytes) (ts : Targets) → has_uid id (reset_targets ts) ≡ has_uid id ts
unfolding reset_targets
reset_targets-has_uid id [] = refl
reset_targets-has_uid id ((b, t) ∷ ts) = ground (arith, reset_targets-has_uid id ts)

reset_targets-IsKept : (ts : Targets) → IsKept ts → IsKept (reset_targets ts)
unfolding reset_targets
reset_targets-IsKept ts h = record { table = table ts h.table; few = omega (arith, size ts, h.few) }
  where
    table : (ts : Targets) → IsTable ts → IsTable (reset_targets ts)
    table [] k = tt
    table ((a, t) ∷ ts) (k, v, rest) = (
      reset_targets-has_key a ts ∙ k,
      ground (arith, v, reset_targets-has_uid t.uid ts),
      table ts rest,
    )

    size : (ts : Targets) → length (reset_targets ts) ≡ length ts
    size [] = refl
    size ((a, t) ∷ ts) = omega (arith, size ts)

mark_reachable-IsKept :
    (now : ℕ) (reached : List Addr) (ts : Targets)
    → IsKept ts
    → IsKept (mark_reachable now reached ts)
unfolding mark_reachable
mark_reachable-IsKept now [] ts h = h
mark_reachable-IsKept now (a ∷ as') ts h = mark_reachable-IsKept now as' _ (marked (find a ts) refl)
  where
    marked :
        (found : Option Target)
        → find a ts ≡ found
        → IsKept (elim found as (λ o. Targets) [
          | none ↦ ts
          | some t ↦ put a (record t { reachable = true; last_seen = now }) ts
        ])
    marked none e = h
    marked (some t) e =
        update-IsKept a t (record t { reachable = true; last_seen = now }) ts h e refl

evict-has_key :
    (s : Surroundings) (now : ℕ) (a : Addr) (ts : Targets)
    → has_key a ts ≡ false
    → has_key a (evict s now ts) ≡ false
unfolding evict
evict-has_key s now a [] h = refl
evict-has_key s now a ((b, t) ∷ ts) h =
    let rest = evict-has_key s now a ts (ground (arith, h)) in
    if_keeps (λ (r : Targets). has_key a r ≡ false) (is_stale s now t) _ _ (λ w. rest)
      (ground (arith, h, rest))

evict-has_uid :
    (s : Surroundings) (now : ℕ) (id : Bytes) (ts : Targets)
    → has_uid id ts ≡ false
    → has_uid id (evict s now ts) ≡ false
unfolding evict
evict-has_uid s now id [] h = refl
evict-has_uid s now id ((b, t) ∷ ts) h =
    let rest = evict-has_uid s now id ts (ground (arith, h)) in
    if_keeps (λ (r : Targets). has_uid id r ≡ false) (is_stale s now t) _ _ (λ w. rest)
      (ground (arith, h, rest))

evict-IsTable : (s : Surroundings) (now : ℕ) (ts : Targets) → IsTable ts → IsTable (evict s now ts)
unfolding evict
evict-IsTable s now [] h = tt
evict-IsTable s now ((a, t) ∷ ts) (k, v, h) =
    let rest = evict-IsTable s now ts h in
    if_keeps IsTable (is_stale s now t) _ _ (λ w. rest)
      (evict-has_key s now a ts k, ground (arith, v, evict-has_uid s now t.uid ts), rest)

length-evict : (s : Surroundings) (now : ℕ) (ts : Targets) → length (evict s now ts) ≤ length ts
unfolding evict
length-evict s now [] = omega arith
length-evict s now ((a, t) ∷ ts) =
    let rest = length-evict s now ts in
    if_keeps (λ (r : Targets). length r ≤ length ((a, t) ∷ ts)) (is_stale s now t) _ _
      (λ w. omega (arith, rest)) (omega (arith, rest))

pub scan_targets-IsKept :
    (s : Surroundings) (now : ℕ) (reached : List Addr) (ts : Targets)
    → IsKept ts
    → IsKept (scan_targets s now reached ts)
unfolding scan_targets
scan_targets-IsKept s now reached ts h =
    let marked = mark_reachable-IsKept now reached (reset_targets ts) (reset_targets-IsKept ts h) in
    record {
      table = evict-IsTable s now _ marked.table;
      few =
          omega
            (arith, length-evict s now (mark_reachable now reached (reset_targets ts)), marked.few);
    }

-- What every call keeps: the table, and the dials of the current window.
pub record IsSound (d : Dialer) : Type 0 where
  pub kept : IsKept d.targets
  pub dials : d.dial_count ≤ max_dials_per_second

begin_dial-IsSound :
    (target : Addr) (random now : ℕ) (t : Target) (d : Dialer)
    → IsSound d
    → IsKept (put target (dialed random now t) d.targets)
    → IsSound (begin_dial target random now t d).1
unfolding begin_dial
begin_dial-IsSound target random now t d h k =
    elim (Bool-cases (leb max_dials_per_second d.dial_count || d.free == 0)) [
      | inl spent ↦ rw (spent, begin_dial) h
      | inr free ↦
          rw (free, begin_dial) (record { kept = k; dials = ground (arith, free, h.dials) })
    ]

pub reserve_dial-IsSound :
    (s : Surroundings) (target : Addr) (random now : ℕ) (d : Dialer)
    → IsSound d
    → IsSound (reserve_dial s target random now d).1
unfolding reserve_dial
reserve_dial-IsSound s target random now d h =
    if_keeps P (addr_eq target s.loopback || s.is_direct target) _ _ (λ w. h)
      (if_keeps P (s.stopped || is_held s now (find target d.targets)) _ _ (λ w. h)
        (elim (Bool-cases (is_full (find target d.targets) d.targets)) [
          | inl full ↦ rw full h
          | inr room ↦ rw room (
              begin_dial-IsSound target random now (state_or_new now (find target d.targets))
                (in_window now d) windowed
                (subst
                  (λ (ts : Targets).
                    IsKept (
                      put target (dialed random now (state_or_new now (find target d.targets))) ts))
                  (sym same) (kept (find target d.targets) refl room)))
        ]))
  where
    P : Bool × Dialer → Type 0
    P r = IsSound r.1

    windowed : IsSound (in_window now d)
    windowed =
        if_keeps IsSound (leb (d.dial_window + second) now) _ _
          (λ w. record { kept = h.kept; dials = omega arith }) h

    same : (in_window now d).targets ≡ d.targets
    same =
        if_keeps (λ (e : Dialer). e.targets ≡ d.targets) (leb (d.dial_window + second) now) _ _
          (λ w. refl) refl

    kept :
        (found : Option Target)
        → find target d.targets ≡ found
        → is_full found d.targets ≡ false
        → IsKept (put target (dialed random now (state_or_new now found)) d.targets)
    kept none e room = record {
      table =
          put-IsTable target (dialed random now (new_target now)) d.targets h.kept.table
            (unfold bytes_eq in refl);
      few = ground (arith, room, length-put target (dialed random now (new_target now)) d.targets);
    }
    kept (some t) e room = update-IsKept target t (dialed random now t) d.targets h.kept e refl
