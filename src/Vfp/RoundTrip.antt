-- ===== src/Vfp/RoundTrip.antt =====
-- message.go and durable.go: Decode reads back what Encode wrote. The children hold the proof, one
-- for the shape of a frame and the rest for groups of message types.
pub mod Frame
pub mod Session
pub mod Signalling
pub mod Agreement
pub mod Proposal
pub mod Entries
use velvet_fabric.Base.{
  ℕ, zero, suc, ◌+◌, ◌-◌, ◌*◌, ◌/◌, ◌%◌, ◌^◌, ◌≤◌, ◌<◌, ◌≡◌, refl, sym, ap, ◌∙◌, subst, ◌≢◌, ◌↔◌,
  ◌⊎◌, inl, inr, Bool, true, false, not, ◌&&◌, ◌||◌, Option, none, some, List, [], ◌∷◌, ◌++◌,
  append_assoc, append-nil, arith, ltb, leb, ◌==◌, if◌then◌else◌, Bool-cases, ltb→lt, lt→ltb,
  leb→le, ==_iff, ==_refl, length, take, drop, All, length-append, take-append, drop-append,
  take-append_of_length, drop-append_of_length, length-take, length-drop, All-append, All-drop,
  All-take, Error, frame, connection, plain, panicked, stuck, Result, ok, err, ◌>>=◌, ◌>>◌, ensure,
  in_frame, >>=-eq-ok, in_frame-eq-ok, ok-injective,
}
use velvet_fabric.Base.Bytes.{
  Bytes, IsByte, slice, byte_at, be_value, be_bytes, bytes_eq, bytes_lt, all_zero, length-be_bytes,
  be_bytes-IsByte, be_value-be_bytes, bytes_eq_iff, bytes_lt_irrefl,
}
use velvet_fabric.Vfp.Kinds.{
  Kind, open_type, node_state, link_propose, link_accept, dynamic_link_propose, dynamic_link_accept,
  dynamic_link_decline, discovery_hello, discovery_hello_ack, discovery_control, public_probe,
  link_ping, link_pong, policy_query, policy_update, durable_propose, durable_saved,
  durable_decline, durable_check, durable_status, unknown,
}
use velvet_fabric.Vfp.Values.{UuidLib}
use velvet_fabric.Vfp.Message.{Message}
use velvet_fabric.Vfp.Decode.{decode_body, decode}
use velvet_fabric.Vfp.Encode.{encode_body, seal_frame, encode}
use Frame.{IsMessage, IsKnown, sent_as, Carries, decode-seal_frame}
use Session
use Signalling
use Agreement
use Proposal
use Entries

module _ ⦃lib : UuidLib⦄ (m : Message) (wf : IsMessage m) where
  body-Carries : (k : Kind) → k ≡ m.kind → Carries k m
  unfolding encode_body
  body-Carries open_type ek = Session.open_type-Carries m wf
  body-Carries node_state ek = Session.node_state-Carries m wf
  body-Carries link_propose ek = Session.link_propose-Carries m wf
  body-Carries link_accept ek = Session.link_accept-Carries m wf
  body-Carries dynamic_link_propose ek = Signalling.dynamic_link_propose-Carries m wf
  body-Carries dynamic_link_accept ek = Signalling.dynamic_link_accept-Carries m wf
  body-Carries dynamic_link_decline ek = Signalling.dynamic_link_decline-Carries m wf
  body-Carries discovery_hello ek = Session.discovery_hello-Carries m wf
  body-Carries discovery_hello_ack ek = Session.discovery_hello_ack-Carries m wf
  body-Carries discovery_control ek = Signalling.discovery_control-Carries m wf
  body-Carries public_probe ek = Signalling.public_probe-Carries m wf
  body-Carries link_ping ek = Signalling.link_ping-Carries m wf
  body-Carries link_pong ek = Signalling.link_pong-Carries m wf
  body-Carries policy_query ek = Session.policy_query-Carries m wf
  body-Carries policy_update ek = Session.policy_update-Carries m wf
  body-Carries durable_propose ek = Entries.durable_propose-Carries m wf ek
  body-Carries durable_saved ek = Agreement.durable_saved-Carries m wf ek
  body-Carries durable_decline ek = Proposal.durable_decline-Carries m wf ek
  body-Carries durable_check ek = Agreement.durable_check-Carries m wf ek
  body-Carries durable_status ek = Agreement.durable_status-Carries m wf ek
  body-Carries (unknown n) ek = λ body e hn. cc

  encode_body-IsKnown : (k : Kind) (body : Bytes) → encode_body k m ≡ ok body → IsKnown k
  unfolding encode_body
  encode_body-IsKnown (unknown n) body e = cc
  encode_body-IsKnown _ body e = tt

-- When Encode returns a frame for a message whose fields are as long and as large as their Go types
-- hold and whose addresses a receiver accepts, Decode of the frame returns every field that the type
-- of the message carries, on a blank message of that type. Policy messages carry no name.
pub decode-encode :
    ⦃lib : UuidLib⦄ (m : Message) (b : Bytes)
    → IsMessage m
    → encode m ≡ ok b
    → decode b ≡ ok (sent_as m.kind m)
unfolding encode
decode-encode m b wf e =
    let (body, eb, es) = >>=-eq-ok (encode_body m.kind m) _ e in
    let (same, short, len) =
      decode-seal_frame m.kind body b (encode_body-IsKnown m wf m.kind body eb) es in
    same ∙ body-Carries m wf m.kind refl body eb (omega (arith, short, len))

-- A frame that Encode returns for a message whose fields fit their Go types, with addresses that a
-- receiver accepts, has at least 8 and at most 4096 octets.
pub length-encode :
    ⦃lib : UuidLib⦄ (m : Message) (b : Bytes)
    → IsMessage m
    → encode m ≡ ok b
    → (8 ≤ length b) × (length b ≤ 4096)
unfolding encode
length-encode m b wf e =
    let (body, eb, es) = >>=-eq-ok (encode_body m.kind m) _ e in
    let (same, short, len) =
      decode-seal_frame m.kind body b (encode_body-IsKnown m wf m.kind body eb) es in
    (omega (arith, len), short)
