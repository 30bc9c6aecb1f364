-- ===== src/Link.antt =====
-- internal/link/derive.go: the addresses that both ends of a Link take from an agreed proposal. UUIDs
-- are byte strings. Derive has the derivations that need HMAC or HKDF.
pub mod Derive
pub mod Inside
pub mod Agreed
pub mod Mirror
pub mod Runs
use velvet_fabric.Base.{
  Bool, true, false, List, [], ◌∷◌, ◌++◌, Option, none, some, if◌then◌else◌, ◌&&◌, ◌||◌, not,
}
use velvet_fabric.Base.Bytes.{Bytes, bytes_lt}
use velvet_fabric.Net.{
  Addr, Prefix, none_prefix, prefix, prefix_from, prefix_addr, prefix_is_valid, prefix_eq,
  next_addr, masked, is4, is6,
}
use velvet_fabric.Engine.State.{Proposal, prefix_bits}

-- Proposal.Empty
unfoldable pub is_empty : Proposal → Bool
is_empty p = not (prefix_is_valid p.v4) && not (prefix_is_valid p.v6)

-- The addresses of one prefix: the first one is the lower UUID's.
unfoldable pub sides : Bool → Prefix → Prefix × Addr
sides lower p =
    let first = next_addr (prefix_addr p) in
    let second = next_addr first in
    if lower
    then (prefix_from first (prefix_bits p), second)
    else (prefix_from second (prefix_bits p), first)

-- One round of the loop over the two prefixes, in front of the rounds behind it.
unfoldable pub add_sides : Bool → Prefix → List Prefix × List Addr → List Prefix × List Addr
unfolding sides
add_sides lower p (locals, peers) =
    if prefix_is_valid p
    then (let (here, there) = sides lower p in (here ∷ locals, there ∷ peers))
    else (locals, peers)

-- EndpointAddresses
unfoldable pub endpoint_addresses : Proposal → Bytes → Bytes → List Prefix × List Addr
unfolding add_sides
endpoint_addresses p local remote =
    let lower = bytes_lt local remote in add_sides lower p.v4 (add_sides lower p.v6 ([], []))

-- MatchesOverrides; `none` is a text that is no prefix.
unfoldable pub matches_overrides : Proposal → List (Option Prefix) → Bool
matches_overrides p [] = true
matches_overrides p (none ∷ rest) = false
matches_overrides p (some q ∷ rest) =
    let more = matches_overrides p rest in
    if is4 (prefix_addr q) && not (prefix_eq p.v4 (masked q))
      || is6 (prefix_addr q) && not (prefix_eq p.v6 (masked q))
    then false
    else more
