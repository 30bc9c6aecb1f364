-- ===== src/Vfp/Durable.antt =====
-- internal/vfp/message/durable.go: the messages of durable agreements, which may repeat a TLV.
use velvet_fabric.Base.{
  ℕ, ◌%◌, Bool, true, false, not, ◌&&◌, ◌||◌, Option, none, some, List, [], ◌∷◌, ◌++◌, ltb, leb,
  ◌==◌, if◌then◌else◌, length, frame, Result, ok, err, ◌>>=◌, ◌>>◌, ensure, in_frame,
}
use velvet_fabric.Base.Bytes.{Bytes, be_value, be_bytes, bytes_lt, all_zero}
use velvet_fabric.Tlv.{View, each_in, append}
use velvet_fabric.Vfp.Kinds.{
  Kind, durable_propose, durable_decline, durable_check, durable_status, node_uid_tlv,
  operation_id_tlv, wg_endpoint_tlv, decline_reason_tlv, dynamic_link_policy_tlv, flags_tlv,
  status_tlv,
}
use velvet_fabric.Vfp.Values.{
  UuidLib, Policy, parse_uid, encode_uid, parse_endpoint, encode_endpoint, parse_operation_id,
  parse_policy, encode_policy,
}
use velvet_fabric.Vfp.Message.{Message, FixedEndpoint, blank, decline_policy}

-- Status
abbrev pub ready : ℕ
ready = 0

abbrev pub not_ready : ℕ
not_ready = 1

abbrev pub absent : ℕ
absent = 2

-- How many values of a TLV type a durable message keeps.
unfoldable pub durable_occurrences : Kind → ℕ → ℕ
durable_occurrences durable_check t = if t == operation_id_tlv then 2 else 0
durable_occurrences durable_status t =
    if t == operation_id_tlv then 2 else if t == status_tlv then 1 else 0
durable_occurrences durable_propose t =
    if t == operation_id_tlv
    then 1
    else if t == node_uid_tlv || t == wg_endpoint_tlv
    then 2
    else if t == flags_tlv
    then 1
    else 0
durable_occurrences durable_decline t =
    if t == operation_id_tlv
    then 1
    else if t == decline_reason_tlv || t == dynamic_link_policy_tlv
    then 1
    else 0
durable_occurrences _ t = if t == operation_id_tlv then 1 else 0

-- The map `fields`, as the pairs that were put in, in order.
abbrev pub Fields : Type 0
Fields = List (ℕ × Bytes)

-- fields[t]
unfoldable pub values : ℕ → Fields → List Bytes
values t [] = []
values t ((t', v) ∷ fs) = if t' == t then v ∷ values t fs else values t fs

unfoldable pub collect : Kind → View → Fields → Fields
unfolding values durable_occurrences
collect kind view fs =
    if ltb (length (values view.type_code fs)) (durable_occurrences kind view.type_code)
    then fs ++ ((view.type_code, view.value) ∷ [])
    else fs

unfoldable pub parse_id : Bytes → Result Bytes
unfolding parse_operation_id
parse_id value =
    in_frame (do id ← parse_operation_id value; ensure (not (all_zero id)) frame; ok id)

-- ids[0], and ids[1] where there are two.
unfoldable pub decode_ids : Kind → List Bytes → Result Message
unfolding parse_id
decode_ids kind [] = err frame
decode_ids kind (a ∷ []) = do id ← parse_id a; ok (record (blank kind) { operation_id = id })
decode_ids kind (a ∷ b ∷ rest) = do
  id ← parse_id a
  agreement ← parse_id b
  ok (record (blank kind) { operation_id = id; agreement_id = agreement })

-- i > 0 && bytes.Compare(previous, uid) >= 0
unfoldable pub follows : Option Bytes → Bytes → Bool
follows none u = true
follows (some p) u = bytes_lt p u

unfoldable pub decode_flags : List Bytes → Result ℕ
decode_flags [] = ok 0
decode_flags (f ∷ fs) = do ensure (length f == 4) frame; ok (be_value f)

-- The single octet of a status or a decline reason, at most `most`.
unfoldable pub decode_octet : ℕ → List Bytes → Result ℕ
decode_octet most ((b ∷ []) ∷ []) = if leb b most then ok b else err frame
decode_octet most _ = err frame

unfoldable pub decode_policies : List Bytes → Result (Option Policy)
decode_policies [] = ok none
decode_policies (p ∷ ps) = do policy ← parse_policy p; ok (some policy)

-- A refusal by policy carries the policy, which refuses.
unfoldable pub decline_is_sound : ℕ → Option Policy → Bool
decline_is_sound reason none = not (reason == decline_policy)
decline_is_sound reason (some p) = not (reason == decline_policy && p.accept)

-- The NODE_UID and WG_ENDPOINT pairs of a proposal, appended to `b`.
unfoldable pub append_fixed : Bytes → List FixedEndpoint → Result Bytes
unfolding append
append_fixed b [] = ok b
append_fixed b (f ∷ fs) = do
  uid ← encode_uid f.uid
  ep ← encode_endpoint f.endpoint
  append_fixed (append (append b node_uid_tlv uid) wg_endpoint_tlv ep) fs

-- if m.Policy != nil { … }
unfoldable pub append_policy : Option Policy → Bytes → Result Bytes
unfolding append
append_policy none b = ok b
append_policy (some p) b = do v ← encode_policy (some p); ok (append b dynamic_link_policy_tlv v)

unfoldable pub append_durable : Kind → Message → Bytes → Result Bytes
unfolding append_fixed append_policy append
append_durable durable_propose m b = do
  ensure (leb 1 (length m.fixed_endpoints) && leb (length m.fixed_endpoints) 2) frame
  b' ← append_fixed b m.fixed_endpoints
  if m.flags == 0 then ok b' else ok (append b' flags_tlv (be_bytes 4 m.flags))
append_durable durable_status m b = ok (append b status_tlv ((m.status % 256) ∷ []))
append_durable durable_decline m b =
    append_policy m.policy (append b decline_reason_tlv ((m.decline_reason % 256) ∷ []))
append_durable _ m b = ok b

abbrev pub has_agreement : Kind → Bool
has_agreement durable_check = true
has_agreement durable_status = true
has_agreement _ = false

module _ ⦃lib : UuidLib⦄ where
  -- The loop over `uids` and `endpoints`; `previous` is the UUID of the entry before.
  unfoldable pub fixed_entries :
      Option Bytes → List Bytes → List Bytes → Result (List FixedEndpoint)
  unfolding follows
  fixed_entries previous [] eps = ok []
  fixed_entries previous (u ∷ us) [] = err frame
  fixed_entries previous (u ∷ us) (e ∷ es) = do
    uid ← in_frame (parse_uid u)
    ep ← in_frame (parse_endpoint e)
    ensure (follows previous uid.uuid) frame
    rest ← fixed_entries (some uid.uuid) us es
    ok (record { uid = uid; endpoint = ep } ∷ rest)

  unfoldable pub decode_durable_fields : Kind → Fields → Message → Result Message
  unfolding fixed_entries decode_flags decode_octet decode_policies decline_is_sound values
  decode_durable_fields durable_propose fs m = do
    let uids = values node_uid_tlv fs
    let eps = values wg_endpoint_tlv fs
    ensure (not (length uids == 0) && length uids == length eps) frame
    fixed ← fixed_entries none uids eps
    flags ← decode_flags (values flags_tlv fs)
    ok (record m { fixed_endpoints = fixed; flags = flags })
  decode_durable_fields durable_status fs m = do
    status ← decode_octet absent (values status_tlv fs)
    ok (record m { status = status })
  decode_durable_fields durable_decline fs m = do
    reason ← decode_octet decline_policy (values decline_reason_tlv fs)
    policy ← decode_policies (values dynamic_link_policy_tlv fs)
    ensure (decline_is_sound reason policy) frame
    ok (record m { decline_reason = reason; policy = policy })
  decode_durable_fields _ fs m = ok m

  unfoldable pub decode_durable : Kind → Bytes → Result Message
  unfolding each_in collect decode_ids decode_durable_fields durable_occurrences
  decode_durable kind body = do
    fs ← each_in (collect kind) body []
    let ids = values operation_id_tlv fs
    ensure (length ids == durable_occurrences kind operation_id_tlv) frame
    m ← decode_ids kind ids
    decode_durable_fields kind fs m

  -- The result is decoded before it is returned.
  unfoldable pub encode_durable : Message → Result Bytes
  unfolding append_durable append decode_durable
  encode_durable m = do
    let id = append [] operation_id_tlv m.operation_id
    b ←
        append_durable m.kind m
          (if has_agreement m.kind then append id operation_id_tlv m.agreement_id else id)
    checked ← decode_durable m.kind b
    ok b
