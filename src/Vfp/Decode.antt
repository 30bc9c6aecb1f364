-- ===== src/Vfp/Decode.antt =====
-- message.go: the common header and Decode.
use velvet_fabric.Base.{
  ℕ, Bool, true, false, not, ◌&&◌, ◌||◌, Option, none, some, [], ◌∷◌, leb, ◌==◌, if◌then◌else◌,
  length, take, drop, frame, Result, ok, err, ◌>>=◌, ◌>>◌, ensure, in_frame,
}
use velvet_fabric.Base.Bytes.{Bytes, slice, byte_at, be_value, all_zero}
use velvet_fabric.Net.{addr_is_valid, addr_port_is_valid}
use velvet_fabric.Tlv.{each_in}
use velvet_fabric.Vfp.Kinds.{
  Kind, open_type, node_state, link_propose, dynamic_link_propose, dynamic_link_accept,
  dynamic_link_decline, discovery_control, public_probe, link_ping, link_pong, policy_query,
  policy_update, unknown, kind_of, is_durable, node_uid_tlv, loopback_v6_tlv, link_prefix_v4_tlv,
  link_prefix_v6_tlv, operation_id_tlv, wg_public_key_tlv, wg_endpoint_tlv, probe_key_tlv,
  discovery_data_tlv, sealed_probe_tlv, decline_reason_tlv, dynamic_link_policy_tlv,
}
use velvet_fabric.Vfp.Values.{
  UuidLib, Uid, Policy, octets, parse_uid, parse_address, parse_prefix, parse_operation_id,
  parse_public_key, parse_endpoint, parse_policy,
}
use velvet_fabric.Vfp.Control.{decode_control}
use velvet_fabric.Vfp.Message.{Message, blank, Selected, lookup, select, decline_policy}
use velvet_fabric.Vfp.Durable.{decode_durable, decline_is_sound}

abbrev pub magic : ℕ
magic = 0x56465000

abbrev pub version : ℕ
version = 1

abbrev pub header_length : ℕ
header_length = 8

abbrev pub max_frame_length : ℕ
max_frame_length = 4096

abbrev pub max_datagram_length : ℕ
max_datagram_length = 1200

-- The common header, checked before any body is read.
unfoldable pub frame_length : Bytes → Result ℕ
frame_length b = do
  ensure (leb header_length (length b)) frame
  ensure (be_value (take 4 b) == magic) frame
  ensure (byte_at b 4 == version) frame
  let len = be_value (slice b 6 8)
  ensure (leb header_length len && leb len max_frame_length) frame
  ok len

-- A probe's payload has one of two lengths.
unfoldable pub is_probe_length : Bytes → Bool
is_probe_length b = length b == 50 || length b == 62

unfoldable pub decode_probe : Kind → Selected → Result Message
unfolding parse_operation_id lookup
decode_probe kind sel = in_frame (do
  id ← parse_operation_id (octets (lookup operation_id_tlv sel))
  ensure (not (all_zero id)) frame
  let m : Message = record (blank kind) { operation_id = id }
  elim (lookup wg_endpoint_tlv sel) [
    | none ↦ ok m
    | some value ↦ elim kind [
      | link_pong ↦ do
        ep ← parse_endpoint value
        ensure (addr_port_is_valid ep) frame
        ok (record m { endpoint = ep })
      | _ ↦ ok m
    ]
  ])

unfoldable pub decode_dynamic : Kind → Selected → Result Message
unfolding parse_operation_id parse_public_key lookup
decode_dynamic kind sel = in_frame (do
  let key = octets (lookup probe_key_tlv sel)
  ensure (length key == 32) frame
  id ← parse_operation_id (octets (lookup operation_id_tlv sel))
  public ← parse_public_key (octets (lookup wg_public_key_tlv sel))
  ep ← parse_endpoint (octets (lookup wg_endpoint_tlv sel))
  ensure (addr_port_is_valid ep) frame
  ok (record (blank kind) {
    probe_key = key;
    operation_id = id;
    wg_public_key = public;
    endpoint = ep;
  }))

unfoldable pub decode_reason : Bytes → Result ℕ
decode_reason (b ∷ []) = if leb b decline_policy then ok b else err frame
decode_reason _ = err frame

unfoldable pub decode_optional_policy : Option Bytes → Result (Option Policy)
decode_optional_policy none = ok none
decode_optional_policy (some value) = do p ← parse_policy value; ok (some p)

unfoldable pub decode_decline : Selected → Result Message
unfolding decode_reason decode_optional_policy decline_is_sound parse_operation_id lookup
decode_decline sel = do
  reason ← decode_reason (octets (lookup decline_reason_tlv sel))
  policy ← decode_optional_policy (lookup dynamic_link_policy_tlv sel)
  ensure (decline_is_sound reason policy) frame
  id ← in_frame (parse_operation_id (octets (lookup operation_id_tlv sel)))
  ok (record (blank dynamic_link_decline) {
    decline_reason = reason;
    policy = policy;
    operation_id = id;
  })

module _ ⦃lib : UuidLib⦄ where
  -- The NODE_UID of OPEN and of the policy messages.
  unfoldable pub decode_uid : Selected → Result Uid
  unfolding lookup
  decode_uid sel = elim (lookup node_uid_tlv sel) [
    | none ↦ err frame
    | some value ↦ in_frame (parse_uid value)
  ]

  -- The switch of Decode on the message type, over the selected values.
  unfoldable pub decode_selected : Kind → Selected → Result Message
  unfolding decode_uid decode_probe decode_dynamic decode_decline is_probe_length
  decode_selected open_type sel = do
    uid ← decode_uid sel
    ok (record (blank open_type) { uid = some uid })
  decode_selected policy_query sel = do
    uid ← decode_uid sel
    ok (record (blank policy_query) { uid = some (record uid { name = [] }) })
  decode_selected policy_update sel = do
    uid ← decode_uid sel
    p ← parse_policy (octets (lookup dynamic_link_policy_tlv sel))
    ok (record (blank policy_update) { uid = some (record uid { name = [] }); policy = some p })
  decode_selected node_state sel = do
    a ← in_frame (parse_address (lookup loopback_v6_tlv sel) false)
    ensure (addr_is_valid a) frame
    ok (record (blank node_state) { loopback_v6 = a })
  decode_selected link_propose sel = do
    p4 ← in_frame (parse_prefix (lookup link_prefix_v4_tlv sel) true)
    p6 ← in_frame (parse_prefix (lookup link_prefix_v6_tlv sel) false)
    ok (record (blank link_propose) { link_prefix_v4 = p4; link_prefix_v6 = p6 })
  decode_selected link_ping sel = decode_probe link_ping sel
  decode_selected link_pong sel = decode_probe link_pong sel
  decode_selected dynamic_link_propose sel = decode_dynamic dynamic_link_propose sel
  decode_selected dynamic_link_accept sel = decode_dynamic dynamic_link_accept sel
  decode_selected discovery_control sel = do
    id ← in_frame (parse_operation_id (octets (lookup operation_id_tlv sel)))
    let payload = octets (lookup discovery_data_tlv sel)
    control ← decode_control payload
    ok (record (blank discovery_control) { operation_id = id; payload = payload })
  decode_selected public_probe sel = do
    let payload = octets (lookup sealed_probe_tlv sel)
    ensure (is_probe_length payload) frame
    ok (record (blank public_probe) { payload = payload })
  decode_selected dynamic_link_decline sel = decode_decline sel
  decode_selected kind sel = ok (blank kind)

  -- The body of a frame of a known type.
  unfoldable pub decode_body : Kind → Bytes → Result Message
  unfolding decode_selected
  decode_body (unknown n) body = err frame
  decode_body kind body =
      if is_durable kind
      then decode_durable kind body
      else (do sel ← each_in (select kind) body []; decode_selected kind sel)

  unfoldable pub decode : Bytes → Result Message
  unfolding decode_body frame_length
  decode b = do
    len ← in_frame (frame_length b)
    ensure (len == length b) frame
    decode_body (kind_of (byte_at b 5)) (drop header_length b)
