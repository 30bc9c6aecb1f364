-- ===== src/Vfp/Encode.antt =====
-- message.go: Encode, and what the two transports carry.
use velvet_fabric.Base.{
  ℕ, ◌+◌, ◌%◌, Bool, not, ◌&&◌, ◌||◌, Option, none, some, [], ◌∷◌, ◌++◌, leb, ◌==◌, if◌then◌else◌,
  length, frame, plain, Result, ok, err, ◌>>=◌, ◌>>◌, ensure,
}
use velvet_fabric.Base.Bytes.{Bytes, be_bytes, all_zero}
use velvet_fabric.Net.{
  Addr, Prefix, none_prefix, prefix, addr_is_valid, is6, as4, as16, addr_port_is_valid, masked,
  prefix_eq,
}
use velvet_fabric.Tlv.{append}
use velvet_fabric.Vfp.Kinds.{
  Kind, open_type, node_state, link_propose, link_accept, dynamic_link_propose, dynamic_link_accept,
  dynamic_link_decline, discovery_hello, discovery_hello_ack, discovery_control, public_probe,
  link_ping, link_pong, policy_query, policy_update, unknown, type_code, is_policy, is_link_probe,
  is_discovery, is_public_probe, node_uid_tlv, loopback_v6_tlv, link_prefix_v4_tlv,
  link_prefix_v6_tlv, operation_id_tlv, wg_public_key_tlv, wg_endpoint_tlv, probe_key_tlv,
  discovery_data_tlv, sealed_probe_tlv, decline_reason_tlv, dynamic_link_policy_tlv,
}
use velvet_fabric.Vfp.Values.{UuidLib, Uid, encode_uid, encode_endpoint, encode_policy}
use velvet_fabric.Vfp.Control.{decode_control}
use velvet_fabric.Vfp.Message.{Message, decline_policy}
use velvet_fabric.Vfp.Durable.{encode_durable, decline_is_sound, append_policy}
use velvet_fabric.Vfp.Decode.{
  magic, version, header_length, max_frame_length, max_datagram_length, is_probe_length, decode,
}

-- The NODE_UID of OPEN and of the policy messages; a nil UID is refused.
unfoldable pub uid_field : (Uid → Uid) → Option Uid → Result Bytes
unfolding append
uid_field change none = err plain
uid_field change (some uid) = do value ← encode_uid (change uid); ok (append [] node_uid_tlv value)

-- uid.Name = ""
abbrev pub without_name : Uid → Uid
without_name uid = record uid { name = [] }

-- The loopback of NODE_STATE, which is required.
unfoldable pub encode_node_state : Addr → Result Bytes
unfolding append
encode_node_state loopback_v6 =
    if addr_is_valid loopback_v6
    then (do ensure (is6 loopback_v6) plain; ok (append [] loopback_v6_tlv (as16 loopback_v6)))
    else err plain

-- Appends a link prefix of the length `bits`, if there is one.
unfoldable pub append_prefix : ℕ → ℕ → (Addr → Result Bytes) → Prefix → Bytes → Result Bytes
unfolding append
append_prefix t bits raw none_prefix b = ok b
append_prefix t bits raw (prefix a n) b = do
  ensure (n == bits && prefix_eq (prefix a n) (masked (prefix a n))) plain
  value ← raw a
  ok (append b t value)

unfoldable pub encode_link_propose : Message → Result Bytes
unfolding append_prefix
encode_link_propose m = do
  b ← append_prefix link_prefix_v4_tlv 30 as4 m.link_prefix_v4 []
  append_prefix link_prefix_v6_tlv 126 (λ a. ok (as16 a)) m.link_prefix_v6 b

unfoldable pub encode_ping : Message → Result Bytes
unfolding append
encode_ping m = do
  ensure (not (all_zero m.operation_id)) plain
  ok (append [] operation_id_tlv m.operation_id)

unfoldable pub encode_pong : Message → Result Bytes
unfolding append
encode_pong m = do
  ensure (not (all_zero m.operation_id)) plain
  let b = append [] operation_id_tlv m.operation_id
  if addr_port_is_valid m.endpoint
      then (do value ← encode_endpoint m.endpoint; ok (append b wg_endpoint_tlv value))
      else ok b

unfoldable pub encode_dynamic : Message → Result Bytes
unfolding append
encode_dynamic m = do
  ensure (not (all_zero m.wg_public_key)) plain
  value ← encode_endpoint m.endpoint
  ok (
      append
        (append
          (append (append [] operation_id_tlv m.operation_id) wg_public_key_tlv m.wg_public_key)
          wg_endpoint_tlv value)
        probe_key_tlv m.probe_key)

unfoldable pub encode_decline : Message → Result Bytes
unfolding append append_policy
encode_decline m = do
  ensure (leb m.decline_reason decline_policy && decline_is_sound m.decline_reason m.policy) frame
  append_policy m.policy (
      append (append [] operation_id_tlv m.operation_id) decline_reason_tlv
        ((m.decline_reason % 256) ∷ []))

-- The part of Encode behind the switch: the length limit and the header.
unfoldable pub seal_frame : Kind → Bytes → Result Bytes
seal_frame kind body = do
  let len = header_length + length body
  ensure (leb len max_frame_length) plain
  ok ((be_bytes 4 magic ++ (version ∷ (type_code kind % 256 ∷ be_bytes 2 len))) ++ body)

-- What UDP carries.
unfoldable pub over_udp : Kind → Bool
unfolding is_discovery is_link_probe is_policy is_public_probe
over_udp kind = is_discovery kind || is_link_probe kind || is_policy kind || is_public_probe kind

module _ ⦃lib : UuidLib⦄ where
  -- The switch of Encode on the message type.
  unfoldable pub encode_body : Kind → Message → Result Bytes
  unfolding append uid_field encode_node_state encode_link_propose encode_ping encode_pong
      encode_dynamic encode_decline is_probe_length
  encode_body open_type m = uid_field (λ uid. uid) m.uid
  encode_body policy_query m = uid_field without_name m.uid
  encode_body policy_update m = do
    b ← uid_field without_name m.uid
    value ← encode_policy m.policy
    ok (append b dynamic_link_policy_tlv value)
  encode_body node_state m = encode_node_state m.loopback_v6
  encode_body link_propose m = encode_link_propose m
  encode_body link_accept m = ok []
  encode_body discovery_hello m = ok []
  encode_body discovery_hello_ack m = ok []
  encode_body link_ping m = encode_ping m
  encode_body link_pong m = encode_pong m
  encode_body dynamic_link_propose m = encode_dynamic m
  encode_body dynamic_link_accept m = encode_dynamic m
  encode_body discovery_control m = do
    control ← decode_control m.payload
    ok (append (append [] operation_id_tlv m.operation_id) discovery_data_tlv m.payload)
  encode_body public_probe m = do
    ensure (is_probe_length m.payload) frame
    ok (append [] sealed_probe_tlv m.payload)
  encode_body dynamic_link_decline m = encode_decline m
  encode_body (unknown n) m = err plain
  encode_body kind m = encode_durable m

  unfoldable pub encode : Message → Result Bytes
  unfolding encode_body seal_frame
  encode m = do body ← encode_body m.kind m; seal_frame m.kind body

  unfoldable pub decode_datagram : Bytes → Result Message
  unfolding over_udp
  decode_datagram packet = do
    ensure (leb (length packet) max_datagram_length) frame
    m ← decode packet
    ensure (over_udp m.kind) frame
    ok m

  unfoldable pub encode_datagram : Message → Result Bytes
  unfolding over_udp
  encode_datagram m = do
    ensure (over_udp m.kind) frame
    b ← encode m
    ensure (leb (length b) max_datagram_length) frame
    ok b

  -- The bytes that Write puts on a TCP stream whose writes succeed.
  unfoldable pub write_tcp : Message → Result Bytes
  unfolding over_udp
  write_tcp m = do ensure (not (over_udp m.kind)) frame; encode m
