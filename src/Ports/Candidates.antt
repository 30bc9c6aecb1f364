-- ===== src/Ports/Candidates.antt =====
-- Which ports bind tries.
use velvet_fabric.Base.{has}
use velvet_fabric.Base.{
  ℕ, zero, suc, ◌+◌, ◌-◌, ◌%◌, ◌≤◌, ◌<◌, ◌≡◌, refl, ap, ◌∙◌, subst, ◌≢◌, inl, inr, true, false,
  Option, List, [], ◌∷◌, arith, leb, ◌==◌, Bool-cases, ==_iff, All,
}
use native.Mathlib.Nat.{mod-lt, mod-eq_of_lt, add-mod_right}
use velvet_fabric.Ports.Choice.{PortChoice}
use velvet_fabric.Ports.{Lease, Pool, leased, try_ports, bind_port, candidates, range_from}

abbrev Within : ℕ → ℕ → ℕ → Type 0
Within lo hi port = (lo ≤ port) × (port ≤ hi)

range_from-Within :
    (first n start sticky i more : ℕ)
    → 0 < n
    → All (Within first (first + n - 1)) (range_from first n start sticky i more)
unfolding range_from
range_from-Within first n start sticky i zero h = tt
range_from-Within first n start sticky i (suc more) h =
    let small : (start + i) % n < n = mod-lt (start + i) h in
    ground (arith, small, range_from-Within first n start sticky (i + 1) more h)

range_from-has :
    (first n start sticky i more k port : ℕ)
    → k < more
    → port ≡ first + (start + (i + k)) % n
    → port ≢ sticky
    → has port (range_from first n start sticky i more) ≡ true
unfolding range_from
range_from-has first n start sticky i zero k port h e ne = absurd (omega arith)
range_from-has first n start sticky i (suc more) zero port h e ne =
    let here : port ≡ first + (start + i) % n =
      e ∙ ap (λ t. first + (start + t) % n) (omega arith) in
    ground arith
range_from-has first n start sticky i (suc more) (suc k) port h e ne =
    let later : port ≡ first + (start + (i + 1 + k)) % n =
      e ∙ ap (λ t. first + (start + t) % n) (omega arith) in
    ground (arith, range_from-has first n start sticky (i + 1) more k port (omega arith) later ne)

-- Where the rotation reaches the offset `d` of a range of `n` ports.
rotation : (n start d : ℕ) → d < n → start < n → (k : ℕ) × (k < n) × ((start + (0 + k)) % n ≡ d)
rotation n start d hd hs = elim (Bool-cases (leb start d)) [
  | inl before ↦ (d - start, ground arith, ap (λ t. t % n) (ground arith) ∙ mod-eq_of_lt hd)
  | inr behind ↦ (
    d + n - start,
    ground arith,
    ap (λ t. t % n) (ground arith) ∙ add-mod_right d n ∙ mod-eq_of_lt hd,
  )
]

range_complete :
    (c : PortChoice) (sticky start port : ℕ)
    → 1 ≤ c.first
    → c.first ≤ port
    → port ≤ c.last
    → start < c.last + 1 - c.first
    → port ≢ sticky
    → has port (range_from c.first (c.last + 1 - c.first) start sticky 0 (c.last + 1 - c.first))
      ≡ true
range_complete c sticky start port h lo hi hs ne =
    let (k, small, e) = rotation (c.last + 1 - c.first) start (port - c.first) (omega arith) hs in
    range_from-has c.first _ start sticky 0 _ k port small (rw e (omega arith)) ne

-- Every port of a range is among the candidates, whatever the start, inside the range, and the
-- sticky port.
pub candidates-has :
    (c : PortChoice) (sticky start port : ℕ)
    → 1 ≤ c.first
    → c.first ≤ port
    → port ≤ c.last
    → start < c.last + 1 - c.first
    → has port (candidates c sticky start) ≡ true
unfolding candidates
candidates-has c sticky start port h lo hi hs = elim (Bool-cases (port == sticky)) [
  | inl same ↦ ground arith
  | inr other ↦
      let found =
        range_complete c sticky start port h lo hi hs (λ e. cc ((==_iff port sticky).1 e, other)) in
      ground (arith, found)
]

try_ports-Within :
    (bind : ℕ → ℕ → Option ℕ) (p p' : Pool) (l : Lease) (lo hi call : ℕ) (ports : List ℕ)
    → 1 ≤ lo
    → All (Within lo hi) ports
    → try_ports bind p call ports ≡ leased l p'
    → Within lo hi l.port
unfolding try_ports
try_ports-Within bind p p' l lo hi call [] h a e = cc
try_ports-Within bind p p' l lo hi call (port ∷ ports) h (a, r) e = ground (
  arith,
  try_ports-Within bind p p' l lo hi call ports h r,
  try_ports-Within bind p p' l lo hi (call + 1) ports h r,
)

candidates-Within :
    (c : PortChoice) (sticky start : ℕ)
    → 1 ≤ c.first
    → c.first ≤ c.last
    → All (Within c.first c.last) (candidates c sticky start)
unfolding candidates
candidates-Within c sticky start h k =
    let n = c.last + 1 - c.first in
    let e : c.first + n - 1 ≡ c.last = omega arith in
    let ports : All (Within c.first c.last) (range_from c.first n start sticky 0 n) =
      subst (λ hi. All (Within c.first hi) (range_from c.first n start sticky 0 n)) e
        (range_from-Within c.first n start sticky 0 n (omega arith)) in
    ground arith

-- A lease that is granted under a range has its port in the range.
pub bind_port-within :
    (bind : ℕ → ℕ → Option ℕ) (c : PortChoice) (sticky start : ℕ) (p p' : Pool) (l : Lease)
    → 1 ≤ c.first
    → c.first ≤ c.last
    → bind_port bind c sticky start p ≡ leased l p'
    → (c.first ≤ l.port) × (l.port ≤ c.last)
unfolding bind_port
bind_port-within bind c sticky start p p' l h k e =
    try_ports-Within bind p p' l c.first c.last 0 (candidates c sticky start) h
      (candidates-Within c sticky start h k) e

fixed_candidates :
    (c : PortChoice) (sticky start : ℕ)
    → c.first ≡ 0
    → c.port ≢ 0
    → candidates c sticky start ≡ c.port ∷ []
unfolding candidates
fixed_candidates c sticky start z n =
    let a : (c.first == 0) ≡ true = (==_iff c.first 0).1 z in
    let b : (c.port == 0) ≡ false = elim (Bool-cases (c.port == 0)) [
      | inl same ↦ absurd (n ((==_iff c.port 0).0 same))
      | inr other ↦ other
    ] in
    rw (a, b) refl

-- A lease that is granted under a fixed port has that port.
pub bind_port-fixed :
    (bind : ℕ → ℕ → Option ℕ) (c : PortChoice) (sticky start : ℕ) (p p' : Pool) (l : Lease)
    → c.first ≡ 0
    → c.port ≢ 0
    → bind_port bind c sticky start p ≡ leased l p'
    → l.port ≡ c.port
unfolding bind_port
bind_port-fixed bind c sticky start p p' l z n e =
    let w =
      try_ports-Within bind p p' l c.port c.port 0 (c.port ∷ []) (omega arith)
        ((omega arith, omega arith), tt)
        (subst (λ ports. try_ports bind p 0 ports ≡ leased l p')
          (fixed_candidates c sticky start z n) e) in
    omega (arith, w.0, w.1)
