-- ===== src/Dynamic/Sessions.antt =====
-- The dials in progress, and what the targets hold for them.
use velvet_fabric.Base.{
  ℕ, zero, suc, ◌+◌, ◌%◌, ◌≡◌, refl, sym, ap, ◌∙◌, subst, ◌⊎◌, inl, inr, Bool, true, Option, none,
  some, List, [], arith, ltb, if◌then◌else◌, Bool-cases, length,
}
use velvet_fabric.Base.Bytes.{Bytes, bytes_eq}
use velvet_fabric.Net.{Addr, addr_eq}
use velvet_fabric.Net.Laws.{addr_eq_iff}
use velvet_fabric.Vfp.Message.{Message}
use velvet_fabric.Dynamic.Targets.{Target, Targets, nil_uid, find, put}
use velvet_fabric.Dynamic.Dialing.{Dialer, Surroundings, finish_routed_dial}
use velvet_fabric.Dynamic.Sending.{
  Setup, flush_one, Sends, flush_key, flush_loop, flush_policy, key_at, sorted_keys,
  max_policy_sends,
}
use velvet_fabric.Dynamic.Attempts.{prepare_target}
use velvet_fabric.Dynamic.Kept.{IsKept, find-put, put-IsKept, update-IsKept}
use velvet_fabric.Dynamic.Spared.{find-put_other}
use velvet_fabric.Dynamic.Guards.{Guarded, Guards, Guards-refl, Guards-trans, update-Guards}
use velvet_fabric.Dynamic.Dialed.{finish_routed_dial-others}

flush_one-dialing :
    (s : Setup) (random now : ℕ) (t : Target) → (flush_one s random now t).1.dialing ≡ t.dialing
unfolding flush_one
flush_one-dialing s random now t = ground arith

pub flush_one-uid :
    (s : Setup) (random now : ℕ) (t : Target) → (flush_one s random now t).1.uid ≡ t.uid
unfolding flush_one
flush_one-uid s random now t = ground arith

flush_key-Guards :
    (s : Setup) (random now : ℕ) (a : Addr) (d : Sends)
    → Guards d.targets (flush_key s random now a d).targets
unfolding flush_key
flush_key-Guards s random now a d = known (find a d.targets) refl
  where
    known :
        (found : Option Target)
        → find a d.targets ≡ found
        → Guards d.targets (flush_key s random now a d).targets
    known none e = rw (e, flush_key) (Guards-refl d.targets)
    known (some t) e = due (flush_one s random now t).0 refl
      where
        due :
            (m : Option Message)
            → (flush_one s random now t).0 ≡ m
            → Guards d.targets (flush_key s random now a d).targets
        due none e' = rw (e, flush_key, e') (Guards-refl d.targets)
        due (some m) e' =
            rw (e, flush_key, e')
              (update-Guards a t (flush_one s random now t).1 d.targets e
                (flush_one-dialing s random now t) (flush_one-uid s random now t))

flush_loop-Guards :
    (s : Setup) (random : ℕ → ℕ) (now : ℕ) (keys : List Addr) (left : ℕ) (d : Sends)
    → Guards d.targets (flush_loop s random now keys left d).targets
unfolding flush_loop
flush_loop-Guards s random now keys zero d = Guards-refl d.targets
flush_loop-Guards s random now keys (suc left) d =
    elim (Bool-cases (ltb (length d.sent) max_policy_sends)) [
      | inr full ↦ rw (full, flush_loop) (Guards-refl d.targets)
      | inl room ↦
          rw (room, flush_loop)
            (Guards-trans d.targets _ _ (visited (key_at (d.cursor % length keys) keys))
              (flush_loop-Guards s random now keys left _))
    ]
  where
    moved : Sends
    moved = record d { cursor = (d.cursor % length keys + 1) % length keys }

    visited :
        (key : Option Addr)
        → Guards d.targets
            (elim key as (λ k. Sends) [
              | none ↦ moved
              | some a ↦ flush_key s (random left) now a moved
            ]).targets
    visited none = Guards-refl d.targets
    visited (some a) = flush_key-Guards s (random left) now a moved

pub flush_policy-Guards :
    (s : Setup) (random : ℕ → ℕ) (now cursor : ℕ) (ts : Targets)
    → Guards ts (flush_policy s random now cursor ts).targets
unfolding flush_policy
flush_policy-Guards s random now cursor ts =
    flush_loop-Guards s random now (sorted_keys ts) (length (sorted_keys ts))
      (record { targets = ts; cursor = cursor; sent = [] })

-- The dials between reserveDial and finishRoutedDial, by address, each with the UID of its session
-- once bindPolicyPeer has bound that.
abbrev pub Dials : Type 0
Dials = Addr → Option (Option Bytes)

abbrev pub with_dial : Addr → Option (Option Bytes) → Dials → Dials
with_dial a o w b = if addr_eq a b then o else w b

-- The target has the UID of the session, unless that is the nil one.
abbrev pub IsBoundTo : Option Bytes → Target → Type 0
IsBoundTo none t = Unit
IsBoundTo (some id) t = (bytes_eq id nil_uid ≡ true) ⊎ (t.uid ≡ id)

-- Every dial in progress has its target.
abbrev pub Holds : Targets → Dials → Type 0
Holds ts w =
    (a : Addr) (o : Option Bytes)
    → w a ≡ some o
    → (t : Target) × (find a ts ≡ some t) × (t.dialing ≡ true) × IsBoundTo o t

bound-Guarded : (o : Option Bytes) (t u : Target) → Guarded t u → IsBoundTo o t → IsBoundTo o u
bound-Guarded none t u g h = tt
bound-Guarded (some id) t u g (inl free) = inl free
bound-Guarded (some id) t u (d, inr same) (inr e) = inr (same ∙ e)
bound-Guarded (some id) t u (d, inl free) (inr e) =
    inl (subst (λ (i : Bytes). bytes_eq i nil_uid ≡ true) e free)

pub Holds-Guards : (ts us : Targets) (w : Dials) → Guards ts us → Holds ts w → Holds us w
Holds-Guards ts us w g h a o e =
    let (t, et, d, b) = h a o e in
    let (u, eu, gu) = g a t et d in (u, eu, gu.0, bound-Guarded o t u gu b)

-- A dial whose target stands.
pub with_dial-Holds :
    (a : Addr) (o : Option Bytes) (t : Target) (ts : Targets) (w : Dials)
    → Holds ts w
    → find a ts ≡ some t
    → t.dialing ≡ true
    → IsBoundTo o t
    → Holds ts (with_dial a (some o) w)
with_dial-Holds a o t ts w h e d b c o' e' = elim (Bool-cases (addr_eq a c)) [
  | inr apart ↦ h c o' (ground (arith, e', apart))
  | inl same ↦
      let eq : a ≡ c = (addr_eq_iff a c).0 same in
      let eo : o ≡ o' = ground (arith, e', same) in
      (
        t,
        subst (λ (x : Addr). find x ts ≡ some t) eq e,
        d,
        subst (λ (x : Option Bytes). IsBoundTo x t) eo b,
      )
]

pub finish_routed_dial-Holds :
    (s : Surroundings) (target : Addr) (lost : Bool) (random now : ℕ) (d : Dialer) (w : Dials)
    → Holds d.targets w
    → Holds (finish_routed_dial s target lost random now d).targets (with_dial target none w)
finish_routed_dial-Holds s target lost random now d w h a o e =
    elim (Bool-cases (addr_eq target a)) [
      | inl same ↦ absurd (ground (arith, e, same))
      | inr apart ↦
          let (t, et, k, b) = h a o (ground (arith, e, apart)) in
          (t, finish_routed_dial-others s target a lost random now d apart ∙ et, k, b)
    ]

-- prepareOutbound for a dial whose session is bound.
module _ (a : Addr) (id : Bytes) (ts : Targets) (w : Dials) (h : Holds ts w)
    (e : w a ≡ some (some id)) where
  prepared :
      (t : Target)
      → find a ts ≡ some t
      → prepare_target a id ts ≡ put a (record t { uid = id; bound = true }) ts
  unfolding prepare_target
  prepared t et = rw (et, prepare_target) refl

  pub prepare_target-IsKept : IsKept ts → IsKept (prepare_target a id ts)
  prepare_target-IsKept k =
      let (t, et, d, b) = h a (some id) e in
      subst IsKept (sym (prepared t et)) (elim b [
        | inl free ↦
            put-IsKept a (record t { uid = id; bound = true }) t ts k et (ground (arith, free))
        | inr same ↦ update-IsKept a t (record t { uid = id; bound = true }) ts k et (sym same)
      ])

  pub prepare_target-Holds : Holds (prepare_target a id ts) w
  prepare_target-Holds c o e' =
      let (t, et, d, b) = h a (some id) e in
      let (u, eu, du, bu) = h c o e' in
      let v : Target = record t { uid = id; bound = true } in
      elim (Bool-cases (addr_eq a c)) [
        | inr apart ↦ (u, ap (find c) (prepared t et) ∙ find-put_other a c v ts apart ∙ eu, du, bu)
        | inl same ↦
            let eq : a ≡ c = (addr_eq_iff a c).0 same in
            let eo : some id ≡ o = ground (arith, e, e', eq) in
            (
              v,
              ap (find c) (prepared t et)
                  ∙ subst (λ (x : Addr). find x (put a v ts) ≡ some v) eq (find-put a v ts),
              d,
              subst (λ (x : Option Bytes). IsBoundTo x v) eo (inr refl),
            )
      ]
