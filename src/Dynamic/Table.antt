-- ===== src/Dynamic/Table.antt =====
-- The table of targets: what find and put do, and when a UID stands at one address only.
use velvet_fabric.Base.{
  ◌≡◌, refl, ap, subst, ◌⊎◌, inl, inr, Bool, true, false, not, ◌||◌, some, [], ◌∷◌, arith,
  Bool-cases,
}
use velvet_fabric.Base.Bytes.{Bytes, bytes_eq, bytes_eq_iff}
use velvet_fabric.Net.{Addr, addr_eq}
use velvet_fabric.Net.Laws.{addr_eq_iff}
use velvet_fabric.Dynamic.Targets.{Target, Targets, nil_uid, find, put, is_taken}

abbrev pub has_key : Addr → Targets → Bool
has_key a [] = false
has_key a ((b, t) ∷ ts) = addr_eq b a || has_key a ts

abbrev pub has_uid : Bytes → Targets → Bool
has_uid id [] = false
has_uid id ((b, t) ∷ ts) = bytes_eq t.uid id || has_uid id ts

-- A UID other than the nil one stands at one address, and an address once.
abbrev pub IsTable : Targets → Type 0
IsTable [] = Unit
IsTable ((a, t) ∷ ts) =
    (has_key a ts ≡ false)
    × ((bytes_eq t.uid nil_uid || not (has_uid t.uid ts)) ≡ true)
    × IsTable ts

-- No other address has the UID of the target, unless it is the nil one.
abbrev pub fits : Addr → Target → Targets → Bool
fits a t ts = bytes_eq t.uid nil_uid || not (is_taken a t.uid ts)

bytes_eq_sym : (xs ys : Bytes) → bytes_eq xs ys ≡ bytes_eq ys xs
unfolding bytes_eq
bytes_eq_sym [] [] = refl
bytes_eq_sym [] (y ∷ ys) = refl
bytes_eq_sym (x ∷ xs) [] = refl
bytes_eq_sym (x ∷ xs) (y ∷ ys) = ground (arith, bytes_eq_sym xs ys)

has_key-put :
    (a b : Addr) (t : Target) (ts : Targets)
    → has_key b (put a t ts) ≡ (addr_eq a b || has_key b ts)
unfolding put
has_key-put a b t [] = refl
has_key-put a b t ((c, u) ∷ ts) = ground (arith, has_key-put a b t ts, addr_eq_iff c a)

has_uid-put :
    (a : Addr) (t : Target) (id : Bytes) (ts : Targets)
    → has_uid id (put a t ts) ≡ true
    → (bytes_eq t.uid id ≡ true) ⊎ (has_uid id ts ≡ true)
unfolding put
has_uid-put a t id [] h = inl (ground (arith, h))
has_uid-put a t id ((c, u) ∷ ts) h = elim (Bool-cases (addr_eq c a)) [
  | inl here ↦ elim (Bool-cases (bytes_eq t.uid id)) [
    | inl same ↦ inl same
    | inr apart ↦ inr (ground (arith, h, here, apart))
  ]
  | inr there ↦ elim (Bool-cases (bytes_eq u.uid id)) [
    | inl same ↦ inr (ground (arith, same))
    | inr apart ↦ elim (has_uid-put a t id ts (ground (arith, h, there, apart))) [
      | inl found ↦ inl found
      | inr found ↦ inr (ground (arith, found))
    ]
  ]
]

is_taken-has_uid :
    (a : Addr) (id : Bytes) (ts : Targets) → has_key a ts ≡ false → has_uid id ts ≡ is_taken a id ts
unfolding is_taken
is_taken-has_uid a id [] h = refl
is_taken-has_uid a id ((b, u) ∷ ts) h = ground (arith, h, is_taken-has_uid a id ts)

uid_stays :
    (a b : Addr) (t u : Target) (ts : Targets)
    → addr_eq b a ≡ false
    → (bytes_eq u.uid nil_uid || not (has_uid u.uid ts)) ≡ true
    → fits a t ((b, u) ∷ ts) ≡ true
    → (bytes_eq u.uid nil_uid || not (has_uid u.uid (put a t ts))) ≡ true
unfolding is_taken
uid_stays a b t u ts there v f = elim (Bool-cases (has_uid u.uid (put a t ts))) [
  | inr none_left ↦ ground (arith, none_left)
  | inl found ↦ elim (has_uid-put a t u.uid ts found) [
    | inr before ↦ ground (arith, before, v)
    | inl same ↦
        let e : t.uid ≡ u.uid = (bytes_eq_iff t.uid u.uid).0 same in
        let e' = bytes_eq_sym t.uid u.uid in
        ground (arith, f, there, same, e', ap (λ (id : Bytes). bytes_eq id nil_uid) e)
  ]
]

pub put-IsTable :
    (a : Addr) (t : Target) (ts : Targets) → IsTable ts → fits a t ts ≡ true → IsTable (put a t ts)
unfolding put is_taken
put-IsTable a t [] h f = (refl, ground (arith, f), tt)
put-IsTable a t ((b, u) ∷ ts) (k, v, h) f = elim (Bool-cases (addr_eq b a)) [
  | inl here ↦
      let k' : has_key a ts ≡ false =
        subst (λ (c : Addr). has_key c ts ≡ false) ((addr_eq_iff b a).0 here) k in
      rw (here, put) (k', ground (arith, f, here, is_taken-has_uid a t.uid ts k'), h)
  | inr there ↦
      let later : fits a t ts ≡ true = ground (arith, f) in
      rw (there, put)
        (
          ground (arith, has_key-put a b t ts, k, there, addr_eq_iff a b, addr_eq_iff b a),
          uid_stays a b t u ts there v f,
          put-IsTable a t ts h later,
        )
]

find-has_uid : (a : Addr) (t : Target) (ts : Targets) → find a ts ≡ some t → has_uid t.uid ts ≡ true
unfolding find
find-has_uid a t [] e = cc
find-has_uid a t ((b, u) ∷ ts) e = elim (Bool-cases (addr_eq b a)) [
  | inl here ↦ ground (arith, here, e, (bytes_eq_iff t.uid t.uid).1 refl)
  | inr there ↦ ground (arith, there, e, find-has_uid a t ts)
]

pub find-fits :
    (a : Addr) (t : Target) (ts : Targets) → IsTable ts → find a ts ≡ some t → fits a t ts ≡ true
unfolding find is_taken
find-fits a t [] h e = cc
find-fits a t ((b, u) ∷ ts) (k, v, h) e = elim (Bool-cases (addr_eq b a)) [
  | inl here ↦
      let k' : has_key a ts ≡ false =
        subst (λ (c : Addr). has_key c ts ≡ false) ((addr_eq_iff b a).0 here) k in
      ground (arith, here, e, v, is_taken-has_uid a t.uid ts k')
  | inr there ↦ elim (Bool-cases (bytes_eq t.uid nil_uid)) [
    | inl nothing ↦ ground (arith, nothing)
    | inr something ↦
        let later = find-fits a t ts h (ground (arith, e, there)) in
        let known = find-has_uid a t ts (ground (arith, e, there)) in
        elim (Bool-cases (bytes_eq u.uid t.uid)) [
          | inr apart ↦ ground (arith, later, apart)
          | inl same ↦
              let e' : u.uid ≡ t.uid = (bytes_eq_iff u.uid t.uid).0 same in
              absurd (
                ground (
                  arith,
                  something,
                  known,
                  v,
                  ap (λ (id : Bytes). bytes_eq id nil_uid) e',
                  ap (λ (id : Bytes). has_uid id ts) e',
                ))
        ]
  ]
]
