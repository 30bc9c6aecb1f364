-- ===== src/Vfp/Message.antt =====
-- message.Message, and the TLVs that a decoder selects for it.
use velvet_fabric.Base.{ℕ, zero, suc, Option, none, some, List, [], ◌∷◌, ◌==◌, if◌then◌else◌}
use velvet_fabric.Base.Bytes.{Bytes}
use velvet_fabric.Net.{Addr, none_addr, AddrPort, Prefix, none_prefix, no_addr_port}
use velvet_fabric.Tlv.{View}
use velvet_fabric.Vfp.Kinds.{Kind, used_by}
use velvet_fabric.Vfp.Values.{Uid, Policy}

-- FixedEndpoint identifies the owner of an endpoint.
pub record FixedEndpoint : Type 0 where
  pub uid : Uid
  pub endpoint : AddrPort

pub record Message : Type 0 where
  pub fixed_endpoints : List FixedEndpoint
  pub agreement_id : Bytes
  pub flags : ℕ
  pub status : ℕ
  pub decline_reason : ℕ
  pub policy : Option Policy
  pub kind : Kind
  pub probe_key : Bytes
  pub payload : Bytes
  pub uid : Option Uid
  pub loopback_v6 : Addr
  pub link_prefix_v4 : Prefix
  pub link_prefix_v6 : Prefix
  pub operation_id : Bytes
  pub wg_public_key : Bytes
  pub endpoint : AddrPort

abbrev pub zeros : ℕ → Bytes
zeros zero = []
zeros (suc n) = 0 ∷ zeros n

-- Message{Type: kind}
abbrev pub blank : Kind → Message
blank kind = record {
  fixed_endpoints = [];
  agreement_id = zeros 16;
  flags = 0;
  status = 0;
  decline_reason = 0;
  policy = none;
  kind = kind;
  probe_key = zeros 32;
  payload = [];
  uid = none;
  loopback_v6 = none_addr;
  link_prefix_v4 = none_prefix;
  link_prefix_v6 = none_prefix;
  operation_id = zeros 16;
  wg_public_key = zeros 32;
  endpoint = no_addr_port;
}

-- DeclineReason
abbrev pub decline_ordinary : ℕ
decline_ordinary = 0

abbrev pub decline_policy : ℕ
decline_policy = 1

-- The map `selected`: the first value of each TLV type that the message uses.
abbrev pub Selected : Type 0
Selected = List (ℕ × Bytes)

unfoldable pub lookup : ℕ → Selected → Option Bytes
lookup t [] = none
lookup t ((t', v) ∷ sel) = if t' == t then some v else lookup t sel

-- if _, exists := selected[t]; !exists { selected[t] = v }
unfoldable pub insert_new : ℕ → Bytes → Selected → Selected
unfolding lookup
insert_new t v sel = elim (lookup t sel) [ none ↦ (t, v) ∷ sel | some w ↦ sel ]

unfoldable pub select : Kind → View → Selected → Selected
unfolding insert_new
select kind view sel =
    if used_by kind view.type_code then insert_new view.type_code view.value sel else sel
