-- ===== src/Vfp/RoundTrip/Frame.antt =====
-- The header and the records of a frame, and the part of a message that its type carries.
use velvet_fabric.Base.{WhenSome}
use velvet_fabric.Base.{
  ℕ, ◌+◌, ◌%◌, ◌^◌, ◌≤◌, ◌<◌, ◌≡◌, refl, sym, ap, ◌∙◌, subst, ◌⊎◌, inl, inr, Bool, true, false,
  Option, none, some, List, [], ◌∷◌, ◌++◌, append-nil, arith, if◌then◌else◌, length, All,
  length-append, Result, ok, >>=-eq-ok, ok-injective,
}
use velvet_fabric.Base.Bytes.{Bytes, be_value, be_bytes, be_value-be_bytes}
use velvet_fabric.Net.{
  none_addr, Prefix, none_prefix, prefix, no_addr_port, IsAddr, is4, addr_port_is_valid,
}
use velvet_fabric.Tlv.{each_in, append}
use velvet_fabric.Tlv.RoundTrip.{Field, Fits, body_of, over, each_in-body_of, append-body_of}
use velvet_fabric.Vfp.Kinds.{
  Kind, open_type, node_state, link_propose, dynamic_link_propose, dynamic_link_accept,
  dynamic_link_decline, discovery_control, public_probe, link_ping, link_pong, policy_query,
  policy_update, durable_propose, durable_saved, durable_decline, durable_check, durable_status,
  unknown, type_code, kind_of, is_durable, dynamic_link_policy_tlv,
}
use velvet_fabric.Vfp.Values.{UuidLib, Uid, Policy, valid_address, parse_policy, encode_policy}
use velvet_fabric.Vfp.Values.Laws.{
  IsUid, IsEndpoint, IsPolicy, parse_policy-encode_policy, length-encode_policy,
}
use velvet_fabric.Vfp.Message.{Message, FixedEndpoint, blank, Selected, select}
use velvet_fabric.Vfp.Durable.{append_policy}
use velvet_fabric.Vfp.Decode.{frame_length, decode_selected, decode_body, decode}
use velvet_fabric.Vfp.Encode.{without_name, seal_frame, encode_body}

-- An IPv4 or IPv6 prefix whose address the parser accepts; an absent one is fine.
abbrev pub IsSendablePrefix : Bool → Prefix → Type 0
IsSendablePrefix four none_prefix = Unit
IsSendablePrefix four (prefix none_addr bits) = ⊥
IsSendablePrefix four (prefix a bits) = IsAddr a × (is4 a ≡ four) × (valid_address a ≡ true)

abbrev pub IsFixed : FixedEndpoint → Type 0
IsFixed f = IsUid f.uid × IsEndpoint f.endpoint

-- What the Go types hold (arrays have their lengths, integers their ranges), and that the
-- addresses are ones that a receiver accepts, which Encode does not test.
pub record IsMessage (m : Message) : Type 0 where
  pub operation_id : length m.operation_id ≡ 16
  pub agreement_id : length m.agreement_id ≡ 16
  pub probe_key : length m.probe_key ≡ 32
  pub wg_public_key : length m.wg_public_key ≡ 32
  pub uid : WhenSome IsUid m.uid
  pub policy : WhenSome IsPolicy m.policy
  pub endpoint : IsEndpoint m.endpoint
  pub loopback_v6 : IsAddr m.loopback_v6 × (valid_address m.loopback_v6 ≡ true)
  pub link_prefix_v4 : IsSendablePrefix true m.link_prefix_v4
  pub link_prefix_v6 : IsSendablePrefix false m.link_prefix_v6
  pub fixed_endpoints : All IsFixed m.fixed_endpoints
  pub flags : m.flags < 2 ^ 32
  pub status : m.status < 2 ^ 8
  pub decline_reason : m.decline_reason < 2 ^ 8

abbrev pub nameless : Option Uid → Option Uid
nameless none = none
nameless (some u) = some (without_name u)

-- The fields that a message of a type carries, on a blank message of that type.
unfoldable pub sent_as : Kind → Message → Message
sent_as open_type m = record (blank open_type) { uid = m.uid }
sent_as policy_query m = record (blank policy_query) { uid = nameless m.uid }
sent_as policy_update m = record (blank policy_update) { uid = nameless m.uid; policy = m.policy }
sent_as node_state m = record (blank node_state) { loopback_v6 = m.loopback_v6 }
sent_as link_propose m = record (blank link_propose) {
  link_prefix_v4 = m.link_prefix_v4;
  link_prefix_v6 = m.link_prefix_v6;
}
sent_as link_ping m = record (blank link_ping) { operation_id = m.operation_id }
sent_as link_pong m = record (blank link_pong) {
  operation_id = m.operation_id;
  endpoint = if addr_port_is_valid m.endpoint then m.endpoint else no_addr_port;
}
sent_as dynamic_link_propose m = record (blank dynamic_link_propose) {
  probe_key = m.probe_key;
  operation_id = m.operation_id;
  wg_public_key = m.wg_public_key;
  endpoint = m.endpoint;
}
sent_as dynamic_link_accept m = record (blank dynamic_link_accept) {
  probe_key = m.probe_key;
  operation_id = m.operation_id;
  wg_public_key = m.wg_public_key;
  endpoint = m.endpoint;
}
sent_as discovery_control m = record (blank discovery_control) {
  operation_id = m.operation_id;
  payload = m.payload;
}
sent_as public_probe m = record (blank public_probe) { payload = m.payload }
sent_as dynamic_link_decline m = record (blank dynamic_link_decline) {
  decline_reason = m.decline_reason;
  policy = m.policy;
  operation_id = m.operation_id;
}
sent_as durable_propose m = record (blank durable_propose) {
  operation_id = m.operation_id;
  fixed_endpoints = m.fixed_endpoints;
  flags = m.flags;
}
sent_as durable_saved m = record (blank durable_saved) { operation_id = m.operation_id }
sent_as durable_decline m = record (blank durable_decline) {
  operation_id = m.operation_id;
  decline_reason = m.decline_reason;
  policy = m.policy;
}
sent_as durable_check m = record (blank durable_check) {
  operation_id = m.operation_id;
  agreement_id = m.agreement_id;
}
sent_as durable_status m = record (blank durable_status) {
  operation_id = m.operation_id;
  agreement_id = m.agreement_id;
  status = m.status;
}
sent_as kind m = blank kind

abbrev pub IsKnown : Kind → Type 0
IsKnown (unknown n) = ⊥
IsKnown kind = Unit

-- The types that are decoded by the values that `select` keeps.
abbrev pub IsSelecting : Kind → Type 0
IsSelecting durable_propose = ⊥
IsSelecting durable_saved = ⊥
IsSelecting durable_decline = ⊥
IsSelecting durable_check = ⊥
IsSelecting durable_status = ⊥
IsSelecting (unknown n) = ⊥
IsSelecting kind = Unit

pub kind_of-type_code : (k : Kind) → IsKnown k → kind_of (type_code k % 256) ≡ k
unfolding kind_of type_code
kind_of-type_code (unknown n) h = absurd h
kind_of-type_code _ h = refl

abbrev pub ShortType : Field → Type 0
ShortType (t, v) = t < 2 ^ 16

pub body_of-Fits : (rs : List Field) → All ShortType rs → length (body_of rs) < 2 ^ 16 → All Fits rs
unfolding body_of be_bytes
body_of-Fits [] h n = tt
body_of-Fits ((t, v) ∷ rs) (ht, h) n =
    let e = length-append v (body_of rs) in
    ((ht, omega (arith, e)), body_of-Fits rs h (omega (arith, e)))

pub one_field : (t : ℕ) (v : Bytes) → append [] t v ≡ body_of ((t, v) ∷ [])
unfolding append body_of
one_field t v = simp append-nil

pub written_two :
    (t t' : ℕ) (v v' : Bytes) → append (append [] t v) t' v' ≡ body_of ((t, v) ∷ (t', v') ∷ [])
written_two t t' v v' =
    ap (λ x. append x t' v') (one_field t v) ∙ append-body_of ((t, v) ∷ []) t' v'

pub written_three :
    (t t' t'' : ℕ) (v v' v'' : Bytes)
    → append (append (append [] t v) t' v') t'' v'' ≡ body_of ((t, v) ∷ (t', v') ∷ (t'', v'') ∷ [])
written_three t t' t'' v v' v'' =
    ap (λ x. append x t'' v'') (written_two t t' v v')
    ∙ append-body_of ((t, v) ∷ (t', v') ∷ []) t'' v''

-- What an optional policy adds to the body: nothing, or one record that parses back to it.
abbrev pub PolicyField : Option Policy → List Field → Type 0
PolicyField o fs =
    ((fs ≡ []) × (o ≡ none))
    ⊎ ((v : Bytes) × (q : Policy) × (fs ≡ (dynamic_link_policy_tlv, v) ∷ [])
        × (o ≡ some q)
        × (parse_policy v ≡ ok q)
        × (length v ≡ 9))

pub append_policy-eq-ok :
    (o : Option Policy) (rs : List Field) (b : Bytes)
    → WhenSome IsPolicy o
    → append_policy o (body_of rs) ≡ ok b
    → (fs : List Field) × (b ≡ body_of (rs ++ fs)) × PolicyField o fs
unfolding append_policy
append_policy-eq-ok none rs b h e = ([], rw append-nil (sym (ok-injective e)), inl (refl, refl))
append_policy-eq-ok (some q) rs b h e =
    let (v, ev, e') = >>=-eq-ok (encode_policy (some q)) _ e in
    (
      (dynamic_link_policy_tlv, v) ∷ [],
      sym (ok-injective e') ∙ append-body_of rs dynamic_link_policy_tlv v,
      inr (v, q, refl, refl, parse_policy-encode_policy q v h ev, length-encode_policy q v ev),
    )

pub PolicyField-short : (o : Option Policy) (fs : List Field) → PolicyField o fs → All ShortType fs
PolicyField-short o fs (inl (e, n)) = rw e tt
PolicyField-short o fs (inr (v, q, e, n, d, len)) = rw e (omega arith)

module _ ⦃lib : UuidLib⦄ where
  decode_body-select :
      (k : Kind) (body : Bytes) (sel : Selected)
      → IsSelecting k
      → each_in (select k) body [] ≡ ok sel
      → decode_body k body ≡ decode_selected k sel
  unfolding decode_body is_durable type_code
  decode_body-select (unknown n) body sel h e = absurd h
  decode_body-select durable_propose body sel h e = absurd h
  decode_body-select durable_saved body sel h e = absurd h
  decode_body-select durable_decline body sel h e = absurd h
  decode_body-select durable_check body sel h e = absurd h
  decode_body-select durable_status body sel h e = absurd h
  decode_body-select _ body sel h e = rw e

  -- Decoding a body of known records is decoding what `select` keeps of them.
  pub decode_body-body_of :
      (k : Kind) (rs : List Field)
      → IsSelecting k
      → All ShortType rs
      → length (body_of rs) < 2 ^ 16
      → decode_body k (body_of rs) ≡ decode_selected k (over (select k) 0 rs [])
  decode_body-body_of k rs hk hs hn =
      decode_body-select k (body_of rs) (over (select k) 0 rs []) hk
        (each_in-body_of (select k) rs [] (body_of-Fits rs hs hn))

  -- A sealed frame decodes as its body does.
  pub decode-seal_frame :
      (k : Kind) (body b : Bytes)
      → IsKnown k
      → seal_frame k body ≡ ok b
      → (decode b ≡ decode_body k body) × (length b ≤ 4096) × (length b ≡ 8 + length body)
  unfolding seal_frame decode frame_length be_bytes be_value
  decode-seal_frame k body b h e =
      ground (arith, kind_of-type_code k h, be_value-be_bytes 2 (8 + length body))

  -- A body that Encode wrote for a message decodes to what the type carries of the message.
  abbrev pub Carries : Kind → Message → Type 0
  Carries k m =
      (body : Bytes)
      → encode_body k m ≡ ok body
      → length body < 2 ^ 16
      → decode_body k body ≡ ok (sent_as k m)

  -- It is enough to know the records that were written.
  pub decode-records :
      (k : Kind) (rs : List Field) (body : Bytes) (r : Result Message)
      → IsSelecting k
      → All ShortType rs
      → body ≡ body_of rs
      → length body < 2 ^ 16
      → decode_selected k (over (select k) 0 rs []) ≡ r
      → decode_body k body ≡ r
  decode-records k rs body r hk hs e hn d =
      subst (λ b. decode_body k b ≡ r) (sym e)
        (decode_body-body_of k rs hk hs (subst (λ b. length b < 2 ^ 16) e hn) ∙ d)
