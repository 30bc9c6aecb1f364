-- ===== src/Ports.antt =====
-- internal/runtime/ports.go: the pool of leased UDP ports, and internal/spec/ports.go: the choices of
-- ports that a NodeSpec makes. The callback that binds a socket is an argument: it may answer each
-- call differently, so it takes the number of the call too. Where Go draws a random start of a range,
-- the start is an argument.
pub mod Runs
pub mod Choice
pub mod Leases
pub mod Candidates
use velvet_fabric.Base.{
  ℕ, zero, suc, ◌+◌, ◌-◌, ◌*◌, ◌/◌, ◌%◌, ◌^◌, ◌≤◌, ◌<◌, ◌≡◌, refl, sym, ap, ◌∙◌, subst, ◌≢◌, ◌↔◌,
  ◌⊎◌, inl, inr, Bool, true, false, not, ◌&&◌, ◌||◌, Option, none, some, List, [], ◌∷◌, ◌++◌,
  append_assoc, append-nil, arith, ltb, leb, ◌==◌, if◌then◌else◌, Bool-cases, ltb→lt, lt→ltb,
  leb→le, ==_iff, ==_refl, length, take, drop, All, length-append, take-append, drop-append,
  take-append_of_length, drop-append_of_length, length-take, length-drop, All-append, All-drop,
  All-take, Error, frame, connection, plain, panicked, stuck, Result, ok, err, ◌>>=◌, ◌>>◌, ensure,
  in_frame, >>=-eq-ok, in_frame-eq-ok, ok-injective,
}
use velvet_fabric.Ports.Choice.{PortChoice}

-- A lease is an identity: `id` stands for the pointer.
pub record Lease : Type 0 where
  pub id : ℕ
  pub port : ℕ

pub record Pool : Type 0 where
  pub leases : List Lease
  pub vfp_port : ℕ
  pub next_id : ℕ

-- p.leases[port]
unfoldable pub lease_at : ℕ → List Lease → Option Lease
lease_at port [] = none
lease_at port (l ∷ ls) = if l.port == port then some l else lease_at port ls

-- delete(p.leases, port)
unfoldable pub without : ℕ → List Lease → List Lease
without port [] = []
without port (l ∷ ls) = let rest = without port ls in if l.port == port then rest else l ∷ rest

-- release: only the lease that still owns its port gives it up.
unfoldable pub release : Lease → Pool → Pool
unfolding lease_at without
release l p = elim (lease_at l.port p.leases) [
  | none ↦ p
  | some owner ↦ if owner.id == l.id then record p { leases = without l.port p.leases } else p
]

-- The ports of a range from `start` on, wrapping round; `i` counts the ports that are done.
unfoldable pub range_from : ℕ → ℕ → ℕ → ℕ → ℕ → ℕ → List ℕ
range_from first n start sticky i zero = []
range_from first n start sticky i (suc more) =
    let port = first + (start + i) % n in
    let rest = range_from first n start sticky (i + 1) more in
    if port == sticky then rest else port ∷ rest

abbrev pub zeros : ℕ → List ℕ
zeros zero = []
zeros (suc n) = 0 ∷ zeros n

-- The ports to try, in order; 0 lets the kernel choose.
unfoldable pub candidates : PortChoice → ℕ → ℕ → List ℕ
unfolding range_from
candidates c sticky start =
    if not (c.first == 0)
    then (let n = c.last + 1 - c.first in
        let ports = range_from c.first n start sticky 0 n in
        if leb c.first sticky && leb sticky c.last then sticky ∷ ports else ports)
    else if not (c.port == 0)
    then c.port ∷ []
    else if not (sticky == 0)
    then sticky ∷ zeros 16
    else zeros 16

-- How a call of bind ends: `invalid` is the answer with a port that was not asked for.
pub data Bound : Type 0 where
  leased : Lease → Pool → Bound
  invalid unavailable : Bound

abbrev pub is_leased : ℕ → Pool → Bool
is_leased port p = elim (lease_at port p.leases) [ none ↦ false | some l ↦ true ]

-- p.leases[actual] = lease
abbrev pub grant : ℕ → Pool → Bound
grant port p =
    leased (record { id = p.next_id; port = port })
      (record p {
        leases = record { id = p.next_id; port = port } ∷ p.leases;
        next_id = p.next_id + 1;
      })

-- The loop of bind over the candidates; `call` numbers the calls of the callback.
unfoldable pub try_ports : (ℕ → ℕ → Option ℕ) → Pool → ℕ → List ℕ → Bound
unfolding lease_at
try_ports bind p call [] = unavailable
try_ports bind p call (port ∷ ports) =
    elim (not (port == 0) && port == p.vfp_port || is_leased port p) [
      | true ↦ try_ports bind p call ports
      | false ↦ elim (bind call port) [
        | none ↦ try_ports bind p (call + 1) ports
        | some actual ↦
            elim (not (port == 0) && not (actual == port) || (ltb actual 1 || ltb 65535 actual)) [
              | true ↦ invalid
              | false ↦ elim (actual == p.vfp_port || is_leased actual p) [
                | true ↦ try_ports bind p (call + 1) ports
                | false ↦ grant actual p
              ]
            ]
      ]
    ]

unfoldable pub bind_port : (ℕ → ℕ → Option ℕ) → PortChoice → ℕ → ℕ → Pool → Bound
unfolding try_ports candidates
bind_port bind c sticky start p = try_ports bind p 0 (candidates c sticky start)
