-- ===== src/Discovery/Reciprocal.antt =====
-- reciprocal: the paths that Try shows, and the one that is published.
use velvet_fabric.Base.{
  ◌≡◌, refl, inl, inr, Bool, true, false, ◌&&◌, ◌||◌, some, List, [], ◌∷◌, ◌++◌, arith, Bool-cases,
}
use velvet_fabric.Base.Bytes.{Bytes, bytes_lt}
use velvet_fabric.Net.{AddrPort, addr_port_eq}
use velvet_fabric.Net.Laws.{addr_port_eq_iff}
use velvet_fabric.Inference.{Observation, is_stored}
use velvet_fabric.Inference.Store.{observation_eq_iff}
use velvet_fabric.Discovery.Peer.{
  Arrival, paths_of, all_paths, least_path, reciprocal, agreed_path, path_key,
}

-- One of the arrivals has the destination and the source.
abbrev pub is_arrived : AddrPort → AddrPort → List Arrival → Bool
is_arrived destination source [] = false
is_arrived destination source (x ∷ xs) =
    addr_port_eq destination x.destination && addr_port_eq source x.source
    || is_arrived destination source xs

abbrev pub has_path : AddrPort × AddrPort → List (AddrPort × AddrPort) → Bool
has_path p [] = false
has_path p (q ∷ qs) = addr_port_eq q.0 p.0 && addr_port_eq q.1 p.1 || has_path p qs

-- A sample and an arrival show the path: where this side was seen, and the endpoint of the other side.
abbrev pub is_shown : AddrPort → AddrPort × AddrPort → List Observation → List Arrival → Bool
is_shown local p os arrivals =
    is_stored (record { local = local; remote = p.1; seen = p.0 }) os && is_arrived p.0 p.1 arrivals

paths_of-has_path :
    (o : Observation) (xs : List Arrival) (p : AddrPort × AddrPort)
    → has_path p (paths_of o xs) ≡ true
    → (p ≡ (o.seen, o.remote)) × (is_arrived p.0 p.1 xs ≡ true)
unfolding paths_of
paths_of-has_path o [] p h = cc
paths_of-has_path o (x ∷ xs) (y, z) h = ground (
  arith,
  h,
  paths_of-has_path o xs (y, z),
  addr_port_eq_iff o.seen y,
  addr_port_eq_iff o.remote z,
)

has_path-append :
    (p : AddrPort × AddrPort) (xs ys : List (AddrPort × AddrPort))
    → has_path p (xs ++ ys) ≡ (has_path p xs || has_path p ys)
has_path-append p [] ys = refl
has_path-append p (x ∷ xs) ys = ground (arith, has_path-append p xs ys)

pub all_paths-has_path :
    (os : List Observation) (xs : List Arrival) (local : AddrPort) (p : AddrPort × AddrPort)
    → has_path p (all_paths os xs local) ≡ true
    → is_shown local p os xs ≡ true
unfolding all_paths is_stored
all_paths-has_path [] xs local p h = cc
all_paths-has_path (o ∷ os) xs local (y, z) h = ground (
  arith,
  h,
  has_path-append (y, z) (paths_of o xs) (all_paths os xs local),
  paths_of-has_path o xs (y, z),
  all_paths-has_path os xs local (y, z),
  addr_port_eq_iff o.local local,
  observation_eq_iff o (record { local = local; remote = z; seen = y }),
)

pub least_path-has_path :
    (text : AddrPort → Bytes) (p : AddrPort × AddrPort) (ps : List (AddrPort × AddrPort))
    → has_path (least_path text p ps) (p ∷ ps) ≡ true
unfolding least_path
least_path-has_path text p [] = ground (arith, addr_port_eq_iff p.0 p.0, addr_port_eq_iff p.1 p.1)
least_path-has_path text p (q ∷ qs) =
    elim (Bool-cases (bytes_lt (path_key text q) (path_key text p))) [
      | inl less ↦ ground (arith, less, least_path-has_path text q qs)
      | inr more ↦ ground (arith, more, least_path-has_path text p qs)
    ]

-- The path of a round is shown by what Try has returned.
pub reciprocal-is_shown :
    (text : AddrPort → Bytes) (os : List Observation) (xs : List Arrival) (local x y : AddrPort)
    → reciprocal text os xs local ≡ x ∷ y ∷ []
    → is_shown local (x, y) os xs ≡ true
unfolding reciprocal
reciprocal-is_shown text os xs local x y h = chosen (all_paths os xs local) refl
  where
    chosen :
        (ps : List (AddrPort × AddrPort))
        → all_paths os xs local ≡ ps
        → is_shown local (x, y) os xs ≡ true
    chosen [] e = ground (arith, h, e)
    chosen (p ∷ ps) e =
        let here = least_path-has_path text p ps in
        let (x', y') = least_path text p ps in
        ground (arith, h, e, here, all_paths-has_path os xs local (x', y'))

pub agreed_path-eq-some :
    (path other : List AddrPort) (x y : AddrPort)
    → agreed_path path other ≡ some (x, y)
    → (path ≡ x ∷ y ∷ []) × (other ≡ y ∷ x ∷ [])
unfolding agreed_path
agreed_path-eq-some (x ∷ y ∷ []) (x' ∷ y' ∷ []) u v h =
    ground (arith, h, addr_port_eq_iff x y', addr_port_eq_iff y x')
agreed_path-eq-some [] other u v h = cc
agreed_path-eq-some (x ∷ []) other u v h = cc
agreed_path-eq-some (x ∷ y ∷ z ∷ zs) other u v h = cc
agreed_path-eq-some (x ∷ y ∷ []) [] u v h = cc
agreed_path-eq-some (x ∷ y ∷ []) (x' ∷ []) u v h = cc
agreed_path-eq-some (x ∷ y ∷ []) (x' ∷ y' ∷ z ∷ zs) u v h = cc
