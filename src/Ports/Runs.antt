-- ===== src/Ports/Runs.antt =====
-- Runs of the port pool at a concrete pool.
use velvet_fabric.Base.{
  ℕ, ◌≤◌, ◌≡◌, refl, true, ◌&&◌, Option, none, some, [], ◌∷◌, ◌==◌, if◌then◌else◌, arith,
}
use velvet_fabric.Base.{has}
use velvet_fabric.Ports.Choice.{PortChoice, validate, marshal, unmarshal}
use velvet_fabric.Ports.{
  Lease, Pool, leased, lease_at, release, candidates, range_from, try_ports, bind_port,
}
use velvet_fabric.Ports.Choice.{unmarshal-marshal}
use velvet_fabric.Ports.Leases.{
  IsUsable, IsPool, owns, bind_port-leased, release_lem, release_stale,
}
use velvet_fabric.Ports.Candidates.{candidates-has, bind_port-within, bind_port-fixed}
use velvet_fabric.Base.{has}

abbrev held : Lease
held = record { id = 0; port = 5001 }

abbrev pool : Pool
pool = record { leases = held ∷ []; vfp_port = 5002; next_id = 1 }

abbrev wanted : PortChoice
wanted = record { port = 0; first = 5001; last = 5003 }

abbrev fixed : PortChoice
fixed = record { port = 5004; first = 0; last = 0 }

-- A kernel that gives every port that it is asked for.
abbrev give : ℕ → ℕ → Option ℕ
give call port = some port

abbrev lease : Lease
lease = record { id = 1; port = 5003 }

abbrev pool' : Pool
pool' = record { leases = lease ∷ held ∷ []; vfp_port = 5002; next_id = 2 }

abbrev fixed_lease : Lease
fixed_lease = record { id = 1; port = 5004 }

abbrev fixed_pool : Pool
fixed_pool = record { leases = fixed_lease ∷ held ∷ []; vfp_port = 5002; next_id = 2 }

pool-IsPool : IsPool pool
pool-IsPool = record {
  leases = (((omega arith, omega arith, λ e. omega (arith, e)), omega arith), tt);
  one_owner = (unfold lease_at in refl, tt);
}

-- The port of the other Link and the VFP port are passed over.
bind_wanted : bind_port give wanted 0 0 pool ≡ leased lease pool'
unfolding bind_port try_ports candidates range_from lease_at
bind_wanted = refl

bind_fixed : bind_port give fixed 0 0 pool ≡ leased fixed_lease fixed_pool
unfolding bind_port try_ports candidates lease_at
bind_fixed = refl

bind_port-leased_example :
    IsUsable 5002 5003
    × (lease_at 5003 (held ∷ []) ≡ none)
    × (lease_at 5001 pool'.leases
        ≡ (if lease.port == 5001 then some lease else lease_at 5001 pool.leases))
    × IsPool pool'
bind_port-leased_example =
    bind_port-leased give wanted 0 0 5001 pool pool' lease pool-IsPool bind_wanted

release_lem_example :
    (lease_at 5001 (release held pool).leases ≡ (
      if 5001 == held.port && owns held (lease_at held.port pool.leases)
      then none
      else lease_at 5001 pool.leases))
    × IsPool (release held pool)
release_lem_example = release_lem held pool 5001 pool-IsPool

release_stale_example : lease_at 5003 (release held pool').leases ≡ some lease
release_stale_example =
    release_stale give wanted 0 0 pool pool' held lease pool-IsPool (omega arith) bind_wanted

candidates-has_example : has 5002 (candidates wanted 5003 1) ≡ true
candidates-has_example =
    candidates-has wanted 5003 1 5002 (omega arith) (omega arith) (omega arith) (omega arith)

bind_port-within_example : (5001 ≤ lease.port) × (lease.port ≤ 5003)
bind_port-within_example =
    bind_port-within give wanted 0 0 pool pool' lease (omega arith) (omega arith) bind_wanted

bind_port-fixed_example : fixed_lease.port ≡ 5004
bind_port-fixed_example =
    bind_port-fixed give fixed 0 0 pool fixed_pool fixed_lease refl (λ e. omega (arith, e))
      bind_fixed

unmarshal-marshal_example : unmarshal (marshal wanted) ≡ some wanted
unmarshal-marshal_example = unmarshal-marshal wanted (unfold validate in refl)
