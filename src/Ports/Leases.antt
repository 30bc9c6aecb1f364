-- ===== src/Ports/Leases.antt =====
-- Every port has one owner, and the pool's lease map stays well formed.
use velvet_fabric.Base.{
  ℕ, ◌+◌, ◌≤◌, ◌<◌, ◌≡◌, refl, ◌∙◌, subst, ◌≢◌, inl, inr, Bool, false, ◌&&◌, Option, none, some,
  List, [], ◌∷◌, arith, ◌==◌, if◌then◌else◌, Bool-cases, ==_iff, All,
}
use velvet_fabric.Ports.Choice.{PortChoice}
use velvet_fabric.Ports.{
  Lease, Pool, lease_at, without, release, leased, try_ports, bind_port, candidates,
}

-- A port that a Link may use.
abbrev pub IsUsable : ℕ → ℕ → Type 0
IsUsable vfp_port port = (1 ≤ port) × (port ≤ 65535) × (port ≢ vfp_port)

abbrev OneOwner : List Lease → Type 0
OneOwner [] = Unit
OneOwner (l ∷ ls) = (lease_at l.port ls ≡ none) × OneOwner ls

abbrev LeaseOk : ℕ → ℕ → Lease → Type 0
LeaseOk vfp_port next_id l = IsUsable vfp_port l.port × (l.id < next_id)

pub record IsPool (p : Pool) : Type 0 where
  pub leases : All (LeaseOk p.vfp_port p.next_id) p.leases
  pub one_owner : OneOwner p.leases

-- What a call of bind that gives a lease has done.
record Granted (p : Pool) (l : Lease) (p' : Pool) : Type 0 where
  usable : IsUsable p.vfp_port l.port
  was_free : lease_at l.port p.leases ≡ none
  id : l.id ≡ p.next_id
  leases : p'.leases ≡ l ∷ p.leases
  vfp_port : p'.vfp_port ≡ p.vfp_port
  next_id : p'.next_id ≡ p.next_id + 1

try_ports-Granted :
    (bind : ℕ → ℕ → Option ℕ) (p : Pool) (call : ℕ) (ports : List ℕ) (l : Lease) (p' : Pool)
    → try_ports bind p call ports ≡ leased l p'
    → Granted p l p'
unfolding try_ports
try_ports-Granted bind p call [] l p' e = cc
try_ports-Granted bind p call (port ∷ ports) l p' e = ground (
  arith,
  try_ports-Granted bind p call ports l p',
  try_ports-Granted bind p (call + 1) ports l p',
)

lease_at-without :
    (port j : ℕ) (ls : List Lease)
    → lease_at j (without port ls) ≡ (if j == port then none else lease_at j ls)
unfolding lease_at without
lease_at-without port j [] = ground arith
lease_at-without port j (l ∷ ls) = ground (arith, lease_at-without port j ls)

without-OneOwner : (port : ℕ) (ls : List Lease) → OneOwner ls → OneOwner (without port ls)
unfolding without
without-OneOwner port [] h = tt
without-OneOwner port (l ∷ ls) (a, h) =
    ground (arith, without-OneOwner port ls h, lease_at-without port l.port ls)

without-LeaseOk :
    (v n port : ℕ) (ls : List Lease) → All (LeaseOk v n) ls → All (LeaseOk v n) (without port ls)
unfolding without
without-LeaseOk v n port [] h = tt
without-LeaseOk v n port (l ∷ ls) (a, h) = ground (arith, without-LeaseOk v n port ls h)

LeaseOk-mono : (v n : ℕ) (ls : List Lease) → All (LeaseOk v n) ls → All (LeaseOk v (n + 1)) ls
LeaseOk-mono v n [] h = tt
LeaseOk-mono v n (l ∷ ls) ((u, i), h) = ((u, omega arith), LeaseOk-mono v n ls h)

Granted-IsPool : {p p' : Pool} {l : Lease} → IsPool p → Granted p l p' → IsPool p'
Granted-IsPool {p} {p'} {l} h g = record {
  leases =
      rw (g.vfp_port, g.next_id, g.leases)
        ((g.usable, omega (arith, g.id)), LeaseOk-mono p.vfp_port p.next_id p.leases h.leases);
  one_owner = rw g.leases (g.was_free, h.one_owner);
}

-- In a well-formed pool a lease is granted only for a port from 1 to 65535 that is not the VFP port
-- and that nobody held; the pool then has the lease at that port, keeps every other lease, and stays
-- well formed.
pub bind_port-leased :
    (bind : ℕ → ℕ → Option ℕ) (c : PortChoice) (sticky start j : ℕ) (p p' : Pool) (l : Lease)
    → IsPool p
    → bind_port bind c sticky start p ≡ leased l p'
    → IsUsable p.vfp_port l.port
      × (lease_at l.port p.leases ≡ none)
      × (lease_at j p'.leases ≡ (if l.port == j then some l else lease_at j p.leases))
      × IsPool p'
unfolding bind_port
bind_port-leased bind c sticky start j p p' l h e =
    let g = try_ports-Granted bind p 0 (candidates c sticky start) l p' e in
    (g.usable, g.was_free, (unfold lease_at in rw g.leases refl), Granted-IsPool h g)

abbrev pub owns : Lease → Option Lease → Bool
owns l none = false
owns l (some owner) = owner.id == l.id

release_cases :
    (l : Lease) (p : Pool) (o : Option Lease) (j : ℕ)
    → lease_at l.port p.leases ≡ o
    → IsPool p
    → (lease_at j (release l p).leases
        ≡ (if j == l.port && owns l o then none else lease_at j p.leases))
      × IsPool (release l p)
unfolding release lease_at
release_cases l p none j e h = (rw (e, release) (ground arith), rw (e, release) h)
release_cases l p (some owner) j e h = elim (Bool-cases (owner.id == l.id)) [
  | inl mine ↦ (
    rw (e, release) (simp (mine, lease_at-without) (ground arith)),
    rw (e, release)
        (simp mine (record {
          leases = without-LeaseOk p.vfp_port p.next_id l.port p.leases h.leases;
          one_owner = without-OneOwner l.port p.leases h.one_owner;
        })),
  )
  | inr other ↦ (rw (e, release) (simp other (ground arith)), rw (e, release) (simp other h))
]

-- In a well-formed pool, releasing a lease frees its port exactly when the lease still owns it,
-- touches no other port, and keeps the pool well formed.
pub release_lem :
    (l : Lease) (p : Pool) (j : ℕ)
    → IsPool p
    → (lease_at j (release l p).leases
        ≡ (if j == l.port && owns l (lease_at l.port p.leases) then none else lease_at j p.leases))
      × IsPool (release l p)
release_lem l p j h = release_cases l p (lease_at l.port p.leases) j refl h

not_owned :
    (old l : Lease) (ls : List Lease)
    → l.id ≢ old.id
    → lease_at l.port ls ≡ some l
    → (l.port == old.port && owns old (lease_at old.port ls)) ≡ false
not_owned old l ls n held = elim (Bool-cases (l.port == old.port)) [
  | inl same ↦
      let owner : lease_at old.port ls ≡ some l =
        subst (λ k. lease_at k ls ≡ some l) ((==_iff l.port old.port).0 same) held in
      rw (same, owner) (ground arith)
  | inr other ↦ rw other
]

-- Once a well-formed pool has granted a lease, the delayed release of an older one leaves the new
-- lease at its port.
pub release_stale :
    (bind : ℕ → ℕ → Option ℕ) (c : PortChoice) (sticky start : ℕ) (p p' : Pool) (old l : Lease)
    → IsPool p
    → old.id < p.next_id
    → bind_port bind c sticky start p ≡ leased l p'
    → lease_at l.port (release old p').leases ≡ some l
unfolding bind_port
release_stale bind c sticky start p p' old l hp h e =
    let g = try_ports-Granted bind p 0 (candidates c sticky start) l p' e in
    let held : lease_at l.port p'.leases ≡ some l = unfold lease_at in rw g.leases (ground arith) in
    let mine = (release_lem old p' l.port (Granted-IsPool hp g)).0 in
    mine ∙ rw (not_owned old l p'.leases (omega (arith, g.id)) held) held
