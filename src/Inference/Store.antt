-- ===== src/Inference/Store.antt =====
-- What a store of samples holds.
use velvet_fabric.Base.{
  ◌≡◌, refl, sym, ◌↔◌, true, false, not, ◌&&◌, ◌||◌, List, [], ◌∷◌, arith, Bool-cases, inl, inr,
}
use velvet_fabric.Net.{AddrPort, addr_port_eq}
use velvet_fabric.Net.Laws.{addr_port_eq_iff}
use velvet_fabric.Inference.{
  Observation, observation_is_valid, observation_eq, is_stored, put_last, add, forget_local,
}

-- Every sample is valid and stands once.
abbrev pub IsStore : List Observation → Type 0
IsStore [] = Unit
IsStore (o ∷ os) = (observation_is_valid o ≡ true) × (is_stored o os ≡ false) × IsStore os

pub observation_eq_iff : (o p : Observation) → (observation_eq o p ≡ true) ↔ (o ≡ p)
unfolding observation_eq
observation_eq_iff o p = (
  λ e. ground (
    arith,
    (addr_port_eq_iff o.local p.local).0,
    (addr_port_eq_iff o.remote p.remote).0,
    (addr_port_eq_iff o.seen p.seen).0,
  ),
  λ e. ground (
    arith,
    (addr_port_eq_iff o.local p.local).1,
    (addr_port_eq_iff o.remote p.remote).1,
    (addr_port_eq_iff o.seen p.seen).1,
  ),
)

pub is_stored-put_last :
    (o p : Observation) (os : List Observation)
    → is_stored p (put_last os o) ≡ (is_stored p os || observation_eq o p)
unfolding is_stored put_last
is_stored-put_last o p [] = ground arith
is_stored-put_last o p (q ∷ qs) = ground (arith, is_stored-put_last o p qs)

put_last-IsStore :
    (o : Observation) (os : List Observation)
    → observation_is_valid o ≡ true
    → is_stored o os ≡ false
    → IsStore os
    → IsStore (put_last os o)
unfolding put_last is_stored
put_last-IsStore o [] v n h = (v, refl, tt)
put_last-IsStore o (q ∷ qs) v n (hv, hn, h) =
    let apart : observation_eq o q ≡ false = elim (Bool-cases (observation_eq o q)) [
      | inr apart ↦ apart
      | inl equal ↦
          let here : observation_eq q o ≡ true =
            (observation_eq_iff q o).1 (sym ((observation_eq_iff o q).0 equal)) in
          absurd (ground (arith, here, n))
    ] in
    (hv, ground (arith, is_stored-put_last o q qs, apart), put_last-IsStore o qs v (ground arith) h)

-- On a store of valid samples without repetitions, Add answers whether the sample is valid and not
-- yet stored, stores it exactly then beside the others, and keeps the samples valid and without
-- repetitions.
pub add_lem :
    (o p : Observation) (store : List Observation)
    → IsStore store
    → ((add o store).0 ≡ (observation_is_valid o && not (is_stored o store)))
      × (is_stored p (add o store).1
          ≡ (is_stored p store || ((add o store).0 && observation_eq o p)))
      × IsStore (add o store).1
unfolding add
add_lem o p store h = elim (Bool-cases (not (observation_is_valid o) || is_stored o store)) [
  | inl refused ↦ (ground arith, ground arith, rw refused h)
  | inr taken ↦ (
    ground arith,
    ground (arith, is_stored-put_last o p store),
    rw taken (put_last-IsStore o store (ground arith) (ground arith) h),
  )
]

forget_one :
    (local : AddrPort) (o p : Observation)
    → (not (addr_port_eq p.local local) && observation_eq o p)
      ≡ (not (addr_port_eq o.local local) && observation_eq o p)
forget_one local o p = elim (Bool-cases (observation_eq o p)) [
  | inr apart ↦ ground arith
  | inl equal ↦ let e : o ≡ p = (observation_eq_iff o p).0 equal in rw e refl
]

pub forget_local-is_stored :
    (local : AddrPort) (p : Observation) (os : List Observation)
    → is_stored p (forget_local local os) ≡ (not (addr_port_eq p.local local) && is_stored p os)
unfolding forget_local is_stored
forget_local-is_stored local p [] = ground arith
forget_local-is_stored local p (o ∷ os) =
    ground (arith, forget_local-is_stored local p os, forget_one local o p)

forget_local-IsStore :
    (local : AddrPort) (os : List Observation) → IsStore os → IsStore (forget_local local os)
unfolding forget_local
forget_local-IsStore local [] h = tt
forget_local-IsStore local (o ∷ os) (v, n, h) =
    ground (arith, forget_local-IsStore local os h, forget_local-is_stored local o os)

-- On a store of valid samples without repetitions, ForgetLocal removes the samples of one local
-- socket and no others, and keeps the rest valid and without repetitions.
pub forget_local_lem :
    (local : AddrPort) (p : Observation) (store : List Observation)
    → IsStore store
    → (is_stored p (forget_local local store)
        ≡ (not (addr_port_eq p.local local) && is_stored p store))
      × IsStore (forget_local local store)
forget_local_lem local p store h =
    (forget_local-is_stored local p store, forget_local-IsStore local store h)
