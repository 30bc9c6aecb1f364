-- ===== src/Vfp/Kinds.antt =====
-- The message types and the TLV types of internal/vfp/message/message.go, and which TLVs a
-- message type uses.
use velvet_fabric.Base.{ℕ, Bool, true, false, ◌&&◌, ◌||◌, leb, ◌==◌, if◌then◌else◌}

-- message.Type; `open_type` is Open, and `unknown` is any octet that names no message.
pub data Kind : Type 0 where
  open_type node_state link_propose link_accept : Kind
  dynamic_link_propose dynamic_link_accept dynamic_link_decline : Kind
  discovery_hello discovery_hello_ack discovery_control public_probe : Kind
  link_ping link_pong policy_query policy_update : Kind
  durable_propose durable_saved durable_decline durable_check durable_status : Kind
  unknown : ℕ → Kind

unfoldable pub type_code : Kind → ℕ
type_code open_type = 0x01
type_code node_state = 0x02
type_code link_propose = 0x03
type_code link_accept = 0x04
type_code dynamic_link_propose = 0x06
type_code dynamic_link_accept = 0x07
type_code dynamic_link_decline = 0x08
type_code discovery_hello = 0x09
type_code discovery_hello_ack = 0x0a
type_code discovery_control = 0x0b
type_code public_probe = 0x0c
type_code link_ping = 0x0d
type_code link_pong = 0x0e
type_code policy_query = 0x0f
type_code policy_update = 0x10
type_code durable_propose = 0x11
type_code durable_saved = 0x12
type_code durable_decline = 0x13
type_code durable_check = 0x14
type_code durable_status = 0x15
type_code (unknown n) = n

-- Type(frame[5]); the octet 0x05 names no message any more.
unfoldable pub kind_of : ℕ → Kind
kind_of n =
    if n == 0x01
    then open_type
    else if n == 0x02
    then node_state
    else if n == 0x03
    then link_propose
    else if n == 0x04
    then link_accept
    else if n == 0x06
    then dynamic_link_propose
    else if n == 0x07
    then dynamic_link_accept
    else if n == 0x08
    then dynamic_link_decline
    else if n == 0x09
    then discovery_hello
    else if n == 0x0a
    then discovery_hello_ack
    else if n == 0x0b
    then discovery_control
    else if n == 0x0c
    then public_probe
    else if n == 0x0d
    then link_ping
    else if n == 0x0e
    then link_pong
    else if n == 0x0f
    then policy_query
    else if n == 0x10
    then policy_update
    else if n == 0x11
    then durable_propose
    else if n == 0x12
    then durable_saved
    else if n == 0x13
    then durable_decline
    else if n == 0x14
    then durable_check
    else if n == 0x15
    then durable_status
    else unknown n

unfoldable pub is_policy : Kind → Bool
is_policy policy_query = true
is_policy policy_update = true
is_policy _ = false

unfoldable pub is_link_probe : Kind → Bool
is_link_probe link_ping = true
is_link_probe link_pong = true
is_link_probe _ = false

unfoldable pub is_discovery : Kind → Bool
is_discovery discovery_hello = true
is_discovery discovery_hello_ack = true
is_discovery _ = false

unfoldable pub is_public_probe : Kind → Bool
is_public_probe public_probe = true
is_public_probe _ = false

-- t >= DurablePropose && t <= DurableStatus
unfoldable pub is_durable : Kind → Bool
unfolding type_code
is_durable t = leb 0x11 (type_code t) && leb (type_code t) 0x15

abbrev pub node_uid_tlv : ℕ
node_uid_tlv = 0x0001

abbrev pub loopback_v6_tlv : ℕ
loopback_v6_tlv = 0x0003

abbrev pub link_prefix_v4_tlv : ℕ
link_prefix_v4_tlv = 0x0004

abbrev pub link_prefix_v6_tlv : ℕ
link_prefix_v6_tlv = 0x0005

abbrev pub operation_id_tlv : ℕ
operation_id_tlv = 0x0006

abbrev pub wg_public_key_tlv : ℕ
wg_public_key_tlv = 0x0007

abbrev pub wg_endpoint_tlv : ℕ
wg_endpoint_tlv = 0x0008

abbrev pub probe_key_tlv : ℕ
probe_key_tlv = 0x0009

abbrev pub discovery_data_tlv : ℕ
discovery_data_tlv = 0x000a

abbrev pub sealed_probe_tlv : ℕ
sealed_probe_tlv = 0x000b

abbrev pub decline_reason_tlv : ℕ
decline_reason_tlv = 0x000c

abbrev pub dynamic_link_policy_tlv : ℕ
dynamic_link_policy_tlv = 0x000d

abbrev pub flags_tlv : ℕ
flags_tlv = 0x000e

abbrev pub status_tlv : ℕ
status_tlv = 0x000f

unfoldable pub used_by : Kind → ℕ → Bool
used_by open_type t = t == node_uid_tlv
used_by policy_query t = t == node_uid_tlv
used_by policy_update t = t == node_uid_tlv || t == dynamic_link_policy_tlv
used_by node_state t = t == loopback_v6_tlv
used_by link_propose t = t == link_prefix_v4_tlv || t == link_prefix_v6_tlv
used_by link_accept t = false
used_by link_ping t = t == operation_id_tlv
used_by link_pong t = t == operation_id_tlv || t == wg_endpoint_tlv
used_by dynamic_link_propose t =
    t == operation_id_tlv || t == wg_public_key_tlv || t == wg_endpoint_tlv || t == probe_key_tlv
used_by dynamic_link_accept t =
    t == operation_id_tlv || t == wg_public_key_tlv || t == wg_endpoint_tlv || t == probe_key_tlv
used_by discovery_control t = t == operation_id_tlv || t == discovery_data_tlv
used_by public_probe t = t == sealed_probe_tlv
used_by dynamic_link_decline t =
    t == operation_id_tlv || t == decline_reason_tlv || t == dynamic_link_policy_tlv
used_by _ t = false
