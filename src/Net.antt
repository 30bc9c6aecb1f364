-- ===== src/Net.antt =====
-- What the program uses of net/netip. An address is its number, as in netip's own 128-bit
-- representation; zones, which occur with link-local addresses only, are not modelled.
pub mod Laws
use velvet_fabric.Base.{
  ℕ, ◌+◌, ◌-◌, ◌*◌, ◌/◌, ◌%◌, ◌^◌, ◌<◌, Bool, true, false, ◌&&◌, ◌==◌, leb, if◌then◌else◌, Result,
  ok, err, panicked,
}
use velvet_fabric.Base.Bytes.{Bytes, be_bytes, be_value}

-- netip.Addr; `none_addr` is the zero Addr.
pub data Addr : Type 0 where
  none_addr : Addr
  v4 : ℕ → Addr
  v6 : ℕ → Addr

pub record AddrPort : Type 0 where
  pub addr : Addr
  pub port : ℕ

-- netip.Prefix; every Prefix that is not valid is `none_prefix`.
pub data Prefix : Type 0 where
  none_prefix : Prefix
  prefix : Addr → ℕ → Prefix

abbrev pub no_addr_port : AddrPort
no_addr_port = record { addr = none_addr; port = 0 }

-- The numbers that stand for an address.
abbrev pub IsAddr : Addr → Type 0
IsAddr none_addr = Unit
IsAddr (v4 n) = n < 2 ^ 32
IsAddr (v6 n) = n < 2 ^ 128

abbrev pub addr_is_valid : Addr → Bool
addr_is_valid none_addr = false
addr_is_valid (v4 n) = true
addr_is_valid (v6 n) = true

abbrev pub is4 : Addr → Bool
is4 (v4 n) = true
is4 _ = false

-- Is6 holds of IPv4-mapped addresses too.
abbrev pub is6 : Addr → Bool
is6 (v6 n) = true
is6 _ = false

abbrev pub is4_in6 : Addr → Bool
is4_in6 (v6 n) = n / 2 ^ 32 == 0xffff
is4_in6 _ = false

abbrev pub is_unspecified : Addr → Bool
is_unspecified none_addr = false
is_unspecified (v4 n) = n == 0
is_unspecified (v6 n) = n == 0

-- 224.0.0.0/4 and ff00::/8; a mapped address is judged by its IPv4 address.
abbrev pub is_multicast : Addr → Bool
is_multicast none_addr = false
is_multicast (v4 n) = n / 2 ^ 28 == 0xe
is_multicast (v6 n) =
    if n / 2 ^ 32 == 0xffff then n % 2 ^ 32 / 2 ^ 28 == 0xe else n / 2 ^ 120 == 0xff

-- 169.254.0.0/16 and fe80::/10
abbrev pub is_link_local_unicast : Addr → Bool
is_link_local_unicast none_addr = false
is_link_local_unicast (v4 n) = n / 2 ^ 16 == 0xa9fe
is_link_local_unicast (v6 n) =
    if n / 2 ^ 32 == 0xffff then n % 2 ^ 32 / 2 ^ 16 == 0xa9fe else n / 2 ^ 118 == 0x3fa

-- addr.String() == "255.255.255.255": a mapped address is printed as ::ffff:255.255.255.255.
abbrev pub is_broadcast : Addr → Bool
is_broadcast (v4 n) = n == 0xffff_ffff
is_broadcast _ = false

-- As4 panics on the zero Addr and on an IPv6 address that is not mapped.
unfoldable pub as4 : Addr → Result Bytes
as4 none_addr = err panicked
as4 (v4 n) = ok (be_bytes 4 n)
as4 (v6 n) = if n / 2 ^ 32 == 0xffff then ok (be_bytes 4 (n % 2 ^ 32)) else err panicked

unfoldable pub as16 : Addr → Bytes
as16 none_addr = be_bytes 16 0
as16 (v4 n) = be_bytes 16 (0xffff * 2 ^ 32 + n)
as16 (v6 n) = be_bytes 16 n

unfoldable pub addr_from4 : Bytes → Addr
addr_from4 raw = v4 (be_value raw)

unfoldable pub addr_from16 : Bytes → Addr
addr_from16 raw = v6 (be_value raw)

unfoldable pub addr_eq : Addr → Addr → Bool
addr_eq none_addr none_addr = true
addr_eq (v4 a) (v4 b) = a == b
addr_eq (v6 a) (v6 b) = a == b
addr_eq _ _ = false

unfoldable pub addr_port_eq : AddrPort → AddrPort → Bool
unfolding addr_eq
addr_port_eq a b = addr_eq a.addr b.addr && a.port == b.port

abbrev pub addr_port_is_valid : AddrPort → Bool
addr_port_is_valid ep = addr_is_valid ep.addr

abbrev pub bit_len : Addr → ℕ
bit_len none_addr = 0
bit_len (v4 n) = 32
bit_len (v6 n) = 128

-- PrefixFrom: a length that the address does not have gives an invalid Prefix.
abbrev pub prefix_from : Addr → ℕ → Prefix
prefix_from a bits = if addr_is_valid a && leb bits (bit_len a) then prefix a bits else none_prefix

abbrev pub prefix_is_valid : Prefix → Bool
prefix_is_valid none_prefix = false
prefix_is_valid (prefix a bits) = true

abbrev pub prefix_addr : Prefix → Addr
prefix_addr none_prefix = none_addr
prefix_addr (prefix a bits) = a

-- The address with all but its first bits cleared.
abbrev pub mask_addr : Addr → ℕ → Addr
mask_addr none_addr bits = none_addr
mask_addr (v4 n) bits = v4 (n / 2 ^ (32 - bits) * 2 ^ (32 - bits))
mask_addr (v6 n) bits = v6 (n / 2 ^ (128 - bits) * 2 ^ (128 - bits))

abbrev pub masked : Prefix → Prefix
masked none_prefix = none_prefix
masked (prefix a bits) = prefix (mask_addr a bits) bits

unfoldable pub prefix_eq : Prefix → Prefix → Bool
unfolding addr_eq
prefix_eq none_prefix none_prefix = true
prefix_eq (prefix a bits) (prefix b bits') = addr_eq a b && bits == bits'
prefix_eq _ _ = false

-- p.Contains(a): never across families, and a mapped address is IPv6.
unfoldable pub contains : Prefix → Addr → Bool
unfolding addr_eq
contains none_prefix a = false
contains (prefix p bits) a = addr_is_valid a && addr_eq (mask_addr p bits) (mask_addr a bits)

-- a.Next(); the zero Addr after the last address.
unfoldable pub next_addr : Addr → Addr
next_addr none_addr = none_addr
next_addr (v4 n) = if n == 2 ^ 32 - 1 then none_addr else v4 (n + 1)
next_addr (v6 n) = if n == 2 ^ 128 - 1 then none_addr else v6 (n + 1)
