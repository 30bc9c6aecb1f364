-- ===== src/Link/Mirror.antt =====
-- Both ends of a Link take matching addresses.
use velvet_fabric.Base.{
  inl, inr, ◌%◌, ◌^◌, ◌<◌, ◌≡◌, refl, ◌≢◌, Bool, true, false, not, List, [], ◌∷◌, arith, ◌==◌,
  Bool-cases, length,
}
use velvet_fabric.Base.Bytes.{Bytes, bytes_lt}
use velvet_fabric.Net.{Addr, v4, v6, none_addr, Prefix, none_prefix, prefix, prefix_addr, next_addr}
use velvet_fabric.Engine.State.{Proposal}
use velvet_fabric.Link.{sides, add_sides, endpoint_addresses}

-- A prefix that a Link may get: none, an IPv4 /30 or an IPv6 /126, with its host bits clear.
abbrev pub IsLinkPrefix : Prefix → Type 0
IsLinkPrefix none_prefix = Unit
IsLinkPrefix (prefix (v4 n) bits) = (bits ≡ 30) × (n % 4 ≡ 0) × (n < 2 ^ 32)
IsLinkPrefix (prefix (v6 n) bits) = (bits ≡ 126) × (n % 4 ≡ 0) × (n < 2 ^ 128)
IsLinkPrefix (prefix none_addr bits) = ⊥

abbrev pub addresses : List Prefix → List Addr
addresses [] = []
addresses (p ∷ ps) = prefix_addr p ∷ addresses ps

pub bytes_lt-swap : (a b : Bytes) → length a ≡ length b → a ≢ b → bytes_lt b a ≡ not (bytes_lt a b)
unfolding bytes_lt
bytes_lt-swap [] [] h n = absurd (n refl)
bytes_lt-swap [] (y ∷ ys) h n = absurd (omega (arith, h))
bytes_lt-swap (x ∷ xs) [] h n = absurd (omega (arith, h))
bytes_lt-swap (x ∷ xs) (y ∷ ys) h n = elim (Bool-cases (x == y)) [
  | inl same ↦
      let e : x ≡ y = ground arith in
      let rest = bytes_lt-swap xs ys (omega (arith, h)) (λ e'. n (rw (e, e') refl)) in
      ground (arith, rest)
  | inr other ↦ ground arith
]

sides-mirror :
    (lower : Bool) (p : Prefix)
    → IsLinkPrefix p
    → p ≢ none_prefix
    → prefix_addr (sides lower p).0 ≡ (sides (not lower) p).1
unfolding sides next_addr
sides-mirror lower none_prefix h n = absurd (n refl)
sides-mirror true (prefix none_addr bits) h n = elim h [ ]
sides-mirror false (prefix none_addr bits) h n = elim h [ ]
sides-mirror true (prefix (v4 a) bits) h n = ground arith
sides-mirror false (prefix (v4 a) bits) h n = ground arith
sides-mirror true (prefix (v6 a) bits) h n = ground arith
sides-mirror false (prefix (v6 a) bits) h n = ground arith

add_sides-mirror :
    (lower : Bool) (p : Prefix) (x y : List Prefix × List Addr)
    → IsLinkPrefix p
    → addresses x.0 ≡ y.1
    → addresses (add_sides lower p x).0 ≡ (add_sides (not lower) p y).1
unfolding add_sides
add_sides-mirror lower none_prefix x y h e = e
add_sides-mirror lower (prefix a bits) x y h e =
    let here = sides-mirror lower (prefix a bits) h (λ q. cc) in rw (here, e) refl

-- For two different UUIDs and prefixes of the shape that Links get, the addresses that one end takes
-- for itself are, family by family, the ones that the other end takes for its peer.
pub endpoint_addresses-mirror :
    (p : Proposal) (local remote : Bytes)
    → IsLinkPrefix p.v4
    → IsLinkPrefix p.v6
    → length local ≡ length remote
    → local ≢ remote
    → addresses (endpoint_addresses p local remote).0 ≡ (endpoint_addresses p remote local).1
unfolding endpoint_addresses
endpoint_addresses-mirror p local remote h4 h6 e n = rw (bytes_lt-swap local remote e n) (
    add_sides-mirror (bytes_lt local remote) p.v4 _ _ h4
      (add_sides-mirror (bytes_lt local remote) p.v6 ([], []) ([], []) h6 refl))
