-- ===== src/Link/Agreed.antt =====
-- Both ends derive the same proposal, inside the pools of the Fabric.
use velvet_fabric.Base.{
  ◌≡◌, refl, ◌≢◌, inl, inr, true, Option, some, List, [], arith, Bool-cases, length, ℕ, ◌≤◌, le→leb,
}
use velvet_fabric.Base.Bytes.{Bytes, bytes_eq, bytes_eq_iff}
use velvet_fabric.Net.{Prefix, none_prefix, prefix, prefix_is_valid, v4, v6, none_addr}
use velvet_fabric.Engine.State.{Proposal, within_prefix, prefix_bits}
use velvet_fabric.Link.Mirror.{bytes_lt-swap}
use velvet_fabric.Link.Inside.{IsPoolFor, derive_subnet-within}
use velvet_fabric.Link.Derive.{
  Crypto, codes, sorted_pair, fill_bits, derive_subnet, derive_family, derive_proposal,
  derive_wg_link_psk,
}

sorted_pair-swap : (a b : Bytes) → length a ≡ length b → sorted_pair a b ≡ sorted_pair b a
unfolding sorted_pair
sorted_pair-swap a b h = elim (Bool-cases (bytes_eq a b)) [
  | inl same ↦ let e : a ≡ b = (bytes_eq_iff a b).0 same in rw e refl
  | inr apart ↦
      let ne : a ≢ b = λ e. cc ((bytes_eq_iff a b).1 e, apart) in
      rw (bytes_lt-swap a b h ne) (ground arith)
]

derive_subnet-bits_v4 :
    (a n bits : ℕ) (entropy : Bytes)
    → bits ≤ 32
    → (prefix_is_valid (derive_subnet (prefix (v4 a) n) bits entropy) ≡ true)
      × (prefix_bits (derive_subnet (prefix (v4 a) n) bits entropy) ≡ bits)
unfolding derive_subnet fill_bits
derive_subnet-bits_v4 a n bits entropy h = (simp (le→leb bits 32 h), simp (le→leb bits 32 h))

-- What is derived from a pool: no prefix without a pool, and else a prefix of so many bits inside it.
abbrev pub IsFrom : ℕ → Prefix → Prefix → Type 0
IsFrom bits none_prefix p = p ≡ none_prefix
IsFrom bits (prefix a n) p =
    (prefix_is_valid p ≡ true) × (prefix_bits p ≡ bits) × (within_prefix p (prefix a n) ≡ true)

derive_subnet-bits_v6 :
    (a n bits : ℕ) (entropy : Bytes)
    → bits ≤ 128
    → (prefix_is_valid (derive_subnet (prefix (v6 a) n) bits entropy) ≡ true)
      × (prefix_bits (derive_subnet (prefix (v6 a) n) bits entropy) ≡ bits)
unfolding derive_subnet fill_bits
derive_subnet-bits_v6 a n bits entropy h = (simp (le→leb bits 128 h), simp (le→leb bits 128 h))

module _ ⦃lib : Crypto⦄ where
  -- DeriveProposal does not depend on which end calls it, nor does the preshared key of the Link on
  -- the order of the keys: for UUIDs, and for keys, of the same length.
  pub derive_proposal-swap :
      (psk a b c d : Bytes) (pool4 pool6 : Prefix) (overrides : List (Option Prefix)) (attempt : ℕ)
      → length a ≡ length b
      → length c ≡ length d
      → (derive_proposal psk a b pool4 pool6 overrides attempt
          ≡ derive_proposal psk b a pool4 pool6 overrides attempt)
        × (derive_wg_link_psk psk c d ≡ derive_wg_link_psk psk d c)
  unfolding derive_proposal derive_wg_link_psk
  derive_proposal-swap psk a b c d pool4 pool6 overrides attempt h k =
      (rw (sorted_pair-swap a b h) refl, rw (sorted_pair-swap c d k, derive_wg_link_psk) refl)

  derive_family-IsFrom :
      (psk : Bytes) (pool : Prefix) (bits : ℕ) (label : Bytes) (ids : List Bytes) (attempt : ℕ)
      → IsPoolFor bits pool
      → IsFrom bits pool (derive_family psk pool bits label ids attempt)
  unfolding derive_family
  derive_family-IsFrom psk none_prefix bits label ids attempt h = refl
  derive_family-IsFrom psk (prefix none_addr n) bits label ids attempt h = elim h [ ]
  derive_family-IsFrom psk (prefix (v4 a) n) bits label ids attempt h = (
    (derive_subnet-bits_v4 a n bits _ h.1).0,
    (derive_subnet-bits_v4 a n bits _ h.1).1,
    derive_subnet-within (prefix (v4 a) n) bits _ h,
  )
  derive_family-IsFrom psk (prefix (v6 a) n) bits label ids attempt h = (
    (derive_subnet-bits_v6 a n bits _ h.1).0,
    (derive_subnet-bits_v6 a n bits _ h.1).1,
    derive_subnet-within (prefix (v6 a) n) bits _ h,
  )

  -- A Link proposal that is derived without overrides exists. It has a /30 inside the IPv4 pool and a
  -- /126 inside the IPv6 pool, when these are pools of so many bits at most, and no prefix of a family
  -- without a pool.
  pub derive_proposal-within :
      (psk local remote : Bytes) (pool4 pool6 : Prefix) (attempt : ℕ)
      → IsPoolFor 30 pool4
      → IsPoolFor 126 pool6
      → (p : Proposal) × (derive_proposal psk local remote pool4 pool6 [] attempt ≡ some p)
        × IsFrom 30 pool4 p.v4
        × IsFrom 126 pool6 p.v6
  unfolding derive_proposal
  derive_proposal-within psk local remote pool4 pool6 attempt h4 h6 = (
    _,
    refl,
    derive_family-IsFrom psk pool4 30 (codes "velvet-fabric/link-prefix/v4/v1")
        (sorted_pair local remote) attempt h4,
    derive_family-IsFrom psk pool6 126 (codes "velvet-fabric/link-prefix/v6/v1")
        (sorted_pair local remote) attempt h6,
  )
