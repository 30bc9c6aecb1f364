-- ===== src/Vfp/Values.antt =====
-- The values that TLVs carry: how message.go parses and writes them.
pub mod Laws
use velvet_fabric.Base.{
  ℕ, zero, suc, ◌+◌, ◌-◌, ◌*◌, ◌/◌, ◌%◌, ◌^◌, ◌≤◌, ◌<◌, ◌≡◌, refl, sym, ap, ◌∙◌, subst, ◌≢◌, ◌↔◌,
  ◌⊎◌, inl, inr, Bool, true, false, not, ◌&&◌, ◌||◌, Option, none, some, List, [], ◌∷◌, ◌++◌,
  append_assoc, append-nil, arith, ltb, leb, ◌==◌, if◌then◌else◌, Bool-cases, ltb→lt, lt→ltb,
  leb→le, ==_iff, ==_refl, length, take, drop, All, length-append, take-append, drop-append,
  take-append_of_length, drop-append_of_length, length-take, length-drop, All-append, All-drop,
  All-take, Error, frame, connection, plain, panicked, stuck, Result, ok, err, ◌>>=◌, ◌>>◌, ensure,
  in_frame, >>=-eq-ok, in_frame-eq-ok,
}
use velvet_fabric.Base.Bytes.{
  Bytes, IsByte, slice, byte_at, be_value, be_bytes, bytes_eq, bytes_lt, all_zero, length-be_bytes,
  be_bytes-IsByte, be_value-be_bytes, bytes_eq_iff, bytes_lt_irrefl,
}
use velvet_fabric.Net.{
  Addr, none_addr, v4, v6, AddrPort, Prefix, none_prefix, prefix, no_addr_port, IsAddr,
  addr_is_valid, is4, is6, is4_in6, is_unspecified, is_multicast, is_link_local_unicast,
  is_broadcast, as4, as16, addr_from4, addr_from16, addr_eq, addr_port_eq, addr_port_is_valid,
  bit_len, prefix_from, prefix_is_valid, prefix_addr, mask_addr, masked, prefix_eq, contains,
  next_addr,
}

-- github.com/google/uuid: FromBytes fails unless it gets 16 octets, which it copies.
pub record UuidLib : Type 0 where
  pub from_bytes : Bytes → Option Bytes
  pub from_bytes_16 : (raw : Bytes) → length raw ≡ 16 → from_bytes raw ≡ some raw

-- message.UID; the name is a byte string.
pub record Uid : Type 0 where
  pub uuid : Bytes
  pub name : Bytes

-- message.DynamicLinkPolicy
pub record Policy : Type 0 where
  pub revision : ℕ
  pub accept : Bool

-- The bytes of a slice that may be nil.
abbrev pub octets : Option Bytes → Bytes
octets none = []
octets (some b) = b

unfoldable pub is_name_byte : ℕ → Bool
is_name_byte b = (leb b'a' b && leb b b'z') || (leb b'0' b && leb b b'9')

unfoldable pub all_name_bytes : Bytes → Bool
unfolding is_name_byte
all_name_bytes [] = true
all_name_bytes (b ∷ bs) = is_name_byte b && all_name_bytes bs

module _ ⦃lib : UuidLib⦄ where
  unfoldable pub parse_uuid : Bytes → Bytes → Result Uid
  unfolding all_name_bytes
  parse_uuid raw name = elim (lib.from_bytes raw) [
    | none ↦ err plain
    | some parsed ↦ do
      ensure (not (all_zero parsed)) plain
      ensure (all_name_bytes name) plain
      ok (record { uuid = parsed; name = name })
  ]

  unfoldable pub parse_uid : Bytes → Result Uid
  unfolding parse_uuid
  parse_uid value = do
    ensure (leb 16 (length value) && leb (length value) 21) plain
    parse_uuid (slice value 0 16) (drop 16 value)

unfoldable pub encode_uid : Uid → Result Bytes
unfolding all_name_bytes
encode_uid value = do
  ensure (not (all_zero value.uuid) && leb (length value.name) 5) plain
  ensure (all_name_bytes value.name) plain
  ok (value.uuid ++ value.name)

unfoldable pub valid_address : Addr → Bool
valid_address a =
    not (is_unspecified a)
    && not (is_multicast a)
    && not (is_link_local_unicast a)
    && not (is_broadcast a)

unfoldable pub valid_endpoint_address : Addr → Bool
valid_endpoint_address a =
    addr_is_valid a
    && not (is4_in6 a)
    && not (is_unspecified a)
    && not (is_multicast a)
    && not (is_link_local_unicast a)
    && not (is_broadcast a)

-- A nil value gives the zero Addr and no error.
unfoldable pub parse_address : Option Bytes → Bool → Result Addr
unfolding valid_address
parse_address none ipv4 = ok none_addr
parse_address (some value) true = do
  ensure (length value == 4) plain
  let a = addr_from4 value
  ensure (valid_address a) plain
  ok a
parse_address (some value) false = do
  ensure (length value == 16) plain
  let a = addr_from16 value
  ensure (valid_address a) plain
  ok a

unfoldable pub parse_prefix : Option Bytes → Bool → Result Prefix
unfolding parse_address
parse_prefix value ipv4 = do
  a ← parse_address value ipv4
  let p = prefix_from a (if ipv4 then 30 else 126)
  if not (addr_is_valid a) then ok none_prefix else do ensure (prefix_eq p (masked p)) plain; ok p

unfoldable pub parse_operation_id : Bytes → Result Bytes
parse_operation_id value = do ensure (length value == 16) plain; ok value

unfoldable pub parse_public_key : Bytes → Result Bytes
parse_public_key value = do ensure (length value == 32 && not (all_zero value)) plain; ok value

-- The switch on the address family.
unfoldable pub parse_family : ℕ → Bytes → Result Addr
parse_family afi value =
    if afi == 1
    then (do ensure (length value == 8) plain; ok (addr_from4 (drop 4 value)))
    else if afi == 2
    then (do ensure (length value == 20) plain; ok (addr_from16 (drop 4 value)))
    else err plain

unfoldable pub parse_endpoint : Bytes → Result AddrPort
unfolding parse_family valid_endpoint_address
parse_endpoint value = do
  ensure (length value == 8 || length value == 20) plain
  let port = be_value (slice value 2 4)
  ensure (not (port == 0)) plain
  a ← parse_family (be_value (slice value 0 2)) value
  ensure (valid_endpoint_address a) plain
  ok (record { addr = a; port = port })

unfoldable pub encode_endpoint : AddrPort → Result Bytes
unfolding valid_endpoint_address
encode_endpoint value = do
  ensure (addr_port_is_valid value && not (value.port == 0) && valid_endpoint_address value.addr)
      plain
  if is4 value.addr
      then (do raw ← as4 value.addr; ok (be_bytes 2 1 ++ (be_bytes 2 value.port ++ raw)))
      else ok (be_bytes 2 2 ++ (be_bytes 2 value.port ++ as16 value.addr))

unfoldable pub parse_policy : Bytes → Result Policy
parse_policy value = do
  ensure (length value == 9 && leb (byte_at value 8) 1 && not (be_value (slice value 0 8) == 0))
      frame
  ok (record { revision = be_value (slice value 0 8); accept = byte_at value 8 == 1 })

-- A nil policy, or one with the revision 0, is refused.
unfoldable pub encode_policy : Option Policy → Result Bytes
encode_policy none = err frame
encode_policy (some p) = do
  ensure (not (p.revision == 0)) frame
  ok (be_bytes 8 p.revision ++ ((if p.accept then 1 else 0) ∷ []))
