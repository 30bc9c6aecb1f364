-- ===== src/Vfp/Values/Laws.antt =====
-- Each value is read back from what was written for it.
use velvet_fabric.Base.{
  ℕ, ◌+◌, ◌^◌, ◌≤◌, ◌<◌, ◌≡◌, ◌≢◌, ◌⊎◌, inl, inr, true, false, some, ◌++◌, arith, length, drop,
  length-append, take-append_of_length, drop-append_of_length, ok,
}
use velvet_fabric.Base.Bytes.{Bytes, slice, be_value, be_bytes, length-be_bytes, be_value-be_bytes}
use velvet_fabric.Net.{
  Addr, none_addr, v4, v6, AddrPort, prefix, IsAddr, as4, as16, addr_from4, addr_from16,
  addr_port_is_valid, masked, prefix_eq,
}
use velvet_fabric.Vfp.Values.{
  UuidLib, Uid, Policy, parse_uid, encode_uid, valid_address, valid_endpoint_address, parse_address,
  parse_prefix, parse_endpoint, encode_endpoint, parse_policy, encode_policy,
}

-- What the Go types hold: a UUID is an array of 16 octets.
abbrev pub IsUid : Uid → Type 0
IsUid u = length u.uuid ≡ 16

abbrev pub IsEndpoint : AddrPort → Type 0
IsEndpoint ep = IsAddr ep.addr × (ep.port < 2 ^ 16)

abbrev pub IsPolicy : Policy → Type 0
IsPolicy p = p.revision < 2 ^ 64

module _ ⦃lib : UuidLib⦄ where
  pub parse_uid-encode_uid :
      (u : Uid) (value : Bytes) → IsUid u → encode_uid u ≡ ok value → parse_uid value ≡ ok u
  unfolding encode_uid parse_uid
  parse_uid-encode_uid u value h e = ground (
    arith,
    take-append_of_length 16 u.uuid u.name h,
    drop-append_of_length 16 u.uuid u.name h,
    length-append u.uuid u.name,
    lib.from_bytes_16 u.uuid h,
  )

pub length-encode_uid :
    (u : Uid) (value : Bytes) → IsUid u → encode_uid u ≡ ok value → length value ≤ 21
unfolding encode_uid
length-encode_uid u value h e = ground (arith, length-append u.uuid u.name)

abbrev wire_endpoint : ℕ → ℕ → ℕ → ℕ → Bytes
wire_endpoint afi port k n = be_bytes 2 afi ++ (be_bytes 2 port ++ be_bytes k n)

wire_port :
    (afi port k n : ℕ) → port < 2 ^ 16 → be_value (slice (wire_endpoint afi port k n) 2 4) ≡ port
unfolding be_bytes be_value
wire_port afi port k n h = be_value-be_bytes 2 port h

wire_family :
    (afi port k n : ℕ) → afi < 2 ^ 16 → be_value (slice (wire_endpoint afi port k n) 0 2) ≡ afi
unfolding be_bytes be_value
wire_family afi port k n h = be_value-be_bytes 2 afi h

wire_address : (afi port k n : ℕ) → n < 256 ^ k → be_value (drop 4 (wire_endpoint afi port k n)) ≡ n
unfolding be_bytes
wire_address afi port k n h = be_value-be_bytes k n h

length-wire_endpoint : (afi port k n : ℕ) → length (wire_endpoint afi port k n) ≡ 4 + k
unfolding be_bytes
length-wire_endpoint afi port k n = omega (arith, length-be_bytes k n)

endpoint-v4 :
    (n port : ℕ) (value : Bytes)
    → n < 2 ^ 32
    → port < 2 ^ 16
    → encode_endpoint (record { addr = v4 n; port = port }) ≡ ok value
    → (parse_endpoint value ≡ ok (record { addr = v4 n; port = port })) × (length value ≡ 8)
unfolding encode_endpoint parse_endpoint as4 addr_from4
endpoint-v4 n port value hn hp e = ground (
  arith,
  wire_port 1 port 4 n hp,
  wire_family 1 port 4 n (omega arith),
  wire_address 1 port 4 n hn,
  length-wire_endpoint 1 port 4 n,
)

endpoint-v6 :
    (n port : ℕ) (value : Bytes)
    → n < 2 ^ 128
    → port < 2 ^ 16
    → encode_endpoint (record { addr = v6 n; port = port }) ≡ ok value
    → (parse_endpoint value ≡ ok (record { addr = v6 n; port = port })) × (length value ≡ 20)
unfolding encode_endpoint parse_endpoint as16 addr_from16
endpoint-v6 n port value hn hp e = ground (
  arith,
  wire_port 2 port 16 n hp,
  wire_family 2 port 16 n (omega arith),
  wire_address 2 port 16 n hn,
  length-wire_endpoint 2 port 16 n,
)

endpoint-addr :
    (a : Addr) (port : ℕ) (value : Bytes)
    → IsAddr a
    → port < 2 ^ 16
    → encode_endpoint (record { addr = a; port = port }) ≡ ok value
    → (parse_endpoint value ≡ ok (record { addr = a; port = port }))
      × ((length value ≡ 8) ⊎ (length value ≡ 20))
endpoint-addr none_addr port value ha hp e = unfold encode_endpoint in cc
endpoint-addr (v4 n) port value ha hp e =
    let (parsed, len) = endpoint-v4 n port value ha hp e in (parsed, inl len)
endpoint-addr (v6 n) port value ha hp e =
    let (parsed, len) = endpoint-v6 n port value ha hp e in (parsed, inr len)

pub parse_endpoint-encode_endpoint :
    (ep : AddrPort) (value : Bytes)
    → IsEndpoint ep
    → encode_endpoint ep ≡ ok value
    → parse_endpoint value ≡ ok ep
parse_endpoint-encode_endpoint ep value (ha, hp) e = (endpoint-addr ep.addr ep.port value ha hp e).0

pub length-encode_endpoint :
    (ep : AddrPort) (value : Bytes)
    → IsEndpoint ep
    → encode_endpoint ep ≡ ok value
    → (length value ≡ 8) ⊎ (length value ≡ 20)
length-encode_endpoint ep value (ha, hp) e = (endpoint-addr ep.addr ep.port value ha hp e).1

-- An endpoint that is written has an address that the parser accepts, and a port.
pub encode_endpoint-valid :
    (ep : AddrPort) (value : Bytes)
    → encode_endpoint ep ≡ ok value
    → (addr_port_is_valid ep ≡ true) × (ep.port ≢ 0)
unfolding encode_endpoint
encode_endpoint-valid ep value e = ground arith

pub parse_endpoint-valid :
    (value : Bytes) (ep : AddrPort)
    → parse_endpoint value ≡ ok ep
    → (valid_endpoint_address ep.addr ≡ true) × (ep.port ≢ 0) × (addr_port_is_valid ep ≡ true)
unfolding parse_endpoint
parse_endpoint-valid value ep e = ground arith

-- Addresses and prefixes that pass the parser's own tests.
pub parse_address-as16 :
    (n : ℕ)
    → n < 2 ^ 128
    → valid_address (v6 n) ≡ true
    → parse_address (some (as16 (v6 n))) false ≡ ok (v6 n)
unfolding parse_address as16 addr_from16
parse_address-as16 n h ok_addr = ground (arith, length-be_bytes 16 n, be_value-be_bytes 16 n h)

pub parse_prefix-v4 :
    (n : ℕ)
    → n < 2 ^ 32
    → valid_address (v4 n) ≡ true
    → masked (prefix (v4 n) 30) ≡ prefix (v4 n) 30
    → parse_prefix (some (be_bytes 4 n)) true ≡ ok (prefix (v4 n) 30)
unfolding parse_prefix addr_from4 prefix_eq
parse_prefix-v4 n h ok_addr m = ground (arith, length-be_bytes 4 n, be_value-be_bytes 4 n h)

pub parse_prefix-v6 :
    (n : ℕ)
    → n < 2 ^ 128
    → valid_address (v6 n) ≡ true
    → masked (prefix (v6 n) 126) ≡ prefix (v6 n) 126
    → parse_prefix (some (be_bytes 16 n)) false ≡ ok (prefix (v6 n) 126)
unfolding parse_prefix addr_from16 prefix_eq
parse_prefix-v6 n h ok_addr m = ground (arith, length-be_bytes 16 n, be_value-be_bytes 16 n h)

pub parse_policy-encode_policy :
    (p : Policy) (value : Bytes)
    → IsPolicy p
    → encode_policy (some p) ≡ ok value
    → parse_policy value ≡ ok p
unfolding encode_policy parse_policy be_bytes
parse_policy-encode_policy p value h e = ground (arith, be_value-be_bytes 8 p.revision h)

pub length-encode_policy :
    (p : Policy) (value : Bytes) → encode_policy (some p) ≡ ok value → length value ≡ 9
unfolding encode_policy be_bytes
length-encode_policy p value e = ground arith
