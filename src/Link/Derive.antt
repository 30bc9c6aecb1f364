-- ===== src/Link/Derive.antt =====
-- internal/link/derive.go: what both ends of a Link derive from the Fabric PSK. HMAC-SHA256 and
-- HKDF-SHA256 are parameters. Go changes the bits of an address in a slice of its bytes; here the
-- address is a number, and bit i of a slice of w bits is the one of weight 2 ^ (w - 1 - i).
use Prim.Native.Char.{code}
use Prim.Native.String.{String}
use velvet_fabric.Base.{
  ℕ, zero, suc, ◌+◌, ◌-◌, ◌*◌, ◌/◌, ◌%◌, ◌^◌, ◌&&◌, Option, none, some, List, [], ◌∷◌, ◌++◌, leb,
  if◌then◌else◌, length, take, Result, ok, err, plain, ◌≡◌,
}
use velvet_fabric.Base.Bytes.{Bytes, byte_at, be_bytes, bytes_lt, all_zero}
use velvet_fabric.Net.{
  Addr, none_addr, v4, v6, Prefix, none_prefix, prefix, prefix_from, prefix_addr, prefix_is_valid,
  masked, is4, bit_len, addr_eq, next_addr, addr_from16,
}
use velvet_fabric.Engine.State.{Proposal, prefix_bits}

-- crypto/hmac with crypto/sha256: a key and what was written; the sum has 32 octets. And the first 32
-- octets of golang.org/x/crypto/hkdf without salt: a secret and an info.
pub record Crypto : Type 0 where
  pub hmac : Bytes → Bytes → Bytes
  pub length-hmac : (key text : Bytes) → length (hmac key text) ≡ 32
  pub hkdf : Bytes → Bytes → Bytes

abbrev pub codes : String → Bytes
codes String.[] = []
codes (String.◌∷◌ c s) = code c ∷ codes s

-- What digest writes to the MAC: a zero octet and each value.
unfoldable pub framed : List Bytes → Bytes
framed [] = []
framed (v ∷ vs) = (0 ∷ v) ++ framed vs

-- Bit i of a slice of bytes.
unfoldable pub bit_of : Bytes → ℕ → ℕ
bit_of bytes i = byte_at bytes (i / 8) / 2 ^ (7 - i % 8) % 2

-- A number of `width` bits with bit i set to `value`.
unfoldable pub set_bit : ℕ → ℕ → ℕ → ℕ → ℕ
set_bit width i value n =
    n / 2 ^ (width - i) * 2 ^ (width - i) + value * 2 ^ (width - 1 - i) + n % 2 ^ (width - 1 - i)

-- The loop of fillBits, for `left` more bits from bit `first + i` on; entropy has 32 octets.
unfoldable pub fill_from : ℕ → Bytes → ℕ → ℕ → ℕ → ℕ → ℕ
unfolding set_bit bit_of
fill_from width entropy first i zero n = n
fill_from width entropy first i (suc left) n =
    fill_from width entropy first (i + 1) left
      (set_bit width (first + i) (bit_of entropy (i % 256)) n)

-- fillBits of a valid pool: the source panics on the zero Prefix.
unfoldable pub fill_bits : Prefix → ℕ → Bytes → Addr
unfolding fill_from
fill_bits (prefix (v4 n) bits) target entropy = v4 (fill_from 32 entropy bits 0 (target - bits) n)
fill_bits (prefix (v6 n) bits) target entropy = v6 (fill_from 128 entropy bits 0 (target - bits) n)
fill_bits _ target entropy = none_addr

unfoldable pub derive_subnet : Prefix → ℕ → Bytes → Prefix
unfolding fill_bits
derive_subnet pool bits entropy = masked (prefix_from (fill_bits pool bits entropy) bits)

unfoldable pub derive_host : Prefix → Bytes → Addr
unfolding fill_bits addr_eq
derive_host pool entropy =
    let addr = fill_bits pool (bit_len (prefix_addr pool)) entropy in
    if is4 addr
      && leb (prefix_bits pool) 30
      && addr_eq addr (prefix_addr (masked (prefix_from addr (prefix_bits pool))))
    then next_addr addr
    else addr

-- ids[0] and ids[1], the lower one first.
unfoldable pub sorted_pair : Bytes → Bytes → List Bytes
unfolding bytes_lt
sorted_pair a b = if bytes_lt b a then b ∷ a ∷ [] else a ∷ b ∷ []

unfoldable pub joined : List Bytes → Bytes
joined [] = []
joined (v ∷ vs) = v ++ joined vs

-- The loop of DeriveProposal over the overrides; `none` is a text that is no prefix.
unfoldable pub override : List (Option Prefix) → Proposal → Option Proposal
override [] p = some p
override (none ∷ rest) p = none
override (some q ∷ rest) p =
    override rest
      (if is4 (prefix_addr q) then record p { v4 = masked q } else record p { v6 = masked q })

-- The IID of a Link-local address: the individual/group bit is clear, and it is not zero.
unfoldable pub link_local_id : Bytes → Bytes
link_local_id [] = []
link_local_id (b ∷ bs) =
    let id = (b / 2 * 2) ∷ bs in if all_zero id then 0 ∷ 0 ∷ 0 ∷ 0 ∷ 0 ∷ 0 ∷ 0 ∷ 1 ∷ [] else id

module _ ⦃lib : Crypto⦄ where
  unfoldable pub digest : Bytes → List Bytes → Bytes
  unfolding framed
  digest key values = lib.hmac key (framed values)

  -- The prefix of one family, if the Fabric has a pool for it.
  unfoldable pub derive_family : Bytes → Prefix → ℕ → Bytes → List Bytes → ℕ → Prefix
  unfolding digest derive_subnet
  derive_family psk pool bits label ids attempt =
      if prefix_is_valid pool
      then derive_subnet pool bits (digest psk (label ∷ (ids ++ (be_bytes 4 attempt ∷ []))))
      else none_prefix

  -- DeriveProposal
  unfoldable pub derive_proposal :
      Bytes → Bytes → Bytes → Prefix → Prefix → List (Option Prefix) → ℕ → Option Proposal
  unfolding derive_family override sorted_pair
  derive_proposal psk local remote pool4 pool6 overrides attempt =
      let ids = sorted_pair local remote in
      override overrides (record {
        v4 = derive_family psk pool4 30 (codes "velvet-fabric/link-prefix/v4/v1") ids attempt;
        v6 = derive_family psk pool6 126 (codes "velvet-fabric/link-prefix/v6/v1") ids attempt;
      })

  -- DeriveLoopbackV6; the override is absent, no address, or an address.
  unfoldable pub derive_loopback_v6 : Bytes → Bytes → Prefix → Option (Option Addr) → Result Addr
  unfolding derive_host digest
  derive_loopback_v6 psk uid pool none =
      ok (derive_host pool (digest psk (codes "velvet-fabric/loopback/v6/v1" ∷ uid ∷ [])))
  derive_loopback_v6 psk uid pool (some none) = err plain
  derive_loopback_v6 psk uid pool (some (some a)) = ok a

  -- DeriveLinkLocal
  unfoldable pub derive_link_local : Bytes → Bytes → Bytes → Prefix
  unfolding digest link_local_id
  derive_link_local psk uid interface =
      let entropy = digest psk (codes "velvet-fabric/link-local/v1" ∷ uid ∷ interface ∷ []) in
      prefix_from
        (addr_from16 (0xfe ∷ 0x80 ∷ 0 ∷ 0 ∷ 0 ∷ 0 ∷ 0 ∷ 0 ∷ link_local_id (take 8 entropy))) 64

  -- deriveWGLinkPSK
  unfoldable pub derive_wg_link_psk : Bytes → Bytes → Bytes → Bytes
  unfolding joined sorted_pair
  derive_wg_link_psk psk a b =
      lib.hkdf psk (codes "velvet-fabric/wg-link-psk/v1" ++ (0 ∷ joined (sorted_pair a b)))
