-- ===== src/Vfp/RoundTrip/Proposal.antt =====
-- The messages that propose and decline a durable agreement.
use velvet_fabric.Base.{
  ℕ, ◌%◌, ◌^◌, ◌<◌, ◌≡◌, refl, sym, ap, ◌∙◌, subst, inl, inr, false, Option, List, [], ◌∷◌, ◌++◌,
  arith, ◌==◌, length, frame, ok, ensure, >>=-eq-ok, ok-injective,
}
use velvet_fabric.Base.Bytes.{Bytes}
use mathlib.Core.Path.{ap₂}
use velvet_fabric.Tlv.RoundTrip.{Field, over}
use velvet_fabric.Vfp.Kinds.{
  durable_decline, operation_id_tlv, decline_reason_tlv, dynamic_link_policy_tlv,
}
use velvet_fabric.Vfp.Values.{UuidLib, Policy}
use velvet_fabric.Vfp.Message.{Message, blank}
use velvet_fabric.Vfp.Durable.{decline_is_sound}
use velvet_fabric.Vfp.Decode.{decode_body}
use velvet_fabric.Vfp.RoundTrip.Frame.{
  IsMessage, sent_as, written_two, PolicyField, append_policy-eq-ok, PolicyField-short,
}
use velvet_fabric.Vfp.Kinds.{is_durable, type_code}
use velvet_fabric.Vfp.Message.{decline_policy}
use velvet_fabric.Vfp.Durable.{
  values, collect, decode_durable_fields, decode_durable, decode_octet, decode_policies,
  append_durable, append_policy, encode_durable,
}
use velvet_fabric.Vfp.RoundTrip.Agreement.{
  decoded_one, decode_octet-eq-ok, durable-Carries, written_body,
}
use velvet_fabric.Vfp.Durable.{decline_is_sound}

decode_policies-eq-ok :
    (o : Option Policy) (fs : List Field)
    → PolicyField o fs
    → decode_policies (values dynamic_link_policy_tlv fs) ≡ ok o
unfolding decode_policies values
decode_policies-eq-ok o fs (inl (e, n)) = rw (e, n)
decode_policies-eq-ok o fs (inr (v, q, e, n, parsed, len)) = rw (e, n) (rw parsed)

-- The records of a declined agreement, each kept once.
decline_kept :
    (m : Message) (fs : List Field)
    → PolicyField m.policy fs
    → over
        (collect durable_decline)
        0
        ((operation_id_tlv, m.operation_id)
          ∷ (decline_reason_tlv, (m.decline_reason % 256) ∷ [])
          ∷ fs)
        []
      ≡ (operation_id_tlv, m.operation_id)
        ∷ (decline_reason_tlv, (m.decline_reason % 256) ∷ [])
        ∷ fs
unfolding over collect values
decline_kept m fs (inl (e, n)) = rw e
decline_kept m fs (inr (v, q, e, n, parsed, len)) = rw e

other_values :
    (t : ℕ) (o : Option Policy) (fs : List Field)
    → PolicyField o fs
    → (dynamic_link_policy_tlv == t) ≡ false
    → values t fs ≡ []
unfolding values
other_values t o fs (inl (e, n)) h = rw e
other_values t o fs (inr (v, q, e, n, parsed, len)) h = rw e (rw h)

decline_fields :
    ⦃lib : UuidLib⦄ (m : Message) (fs : List Field) (r : Message)
    → PolicyField m.policy fs
    → m.decline_reason % 256 ≡ m.decline_reason
    → decode_durable_fields durable_decline
        ((operation_id_tlv, m.operation_id)
          ∷ (decline_reason_tlv, (m.decline_reason % 256) ∷ [])
          ∷ fs)
        (record (blank durable_decline) { operation_id = m.operation_id })
      ≡ ok r
    → r ≡ sent_as durable_decline m
unfolding decode_durable_fields sent_as values
decline_fields m fs r f octet e =
    let reason : Bytes = (m.decline_reason % 256) ∷ [] in
    let (n, en, e1) =
      >>=-eq-ok (decode_octet decline_policy (reason ∷ values decline_reason_tlv fs)) _ e in
    let (p, ep, e2) = >>=-eq-ok (decode_policies (values dynamic_link_policy_tlv fs)) _ e1 in
    let (u, es, e3) = >>=-eq-ok (ensure (decline_is_sound n p) frame) _ e2 in
    let read_n : n ≡ m.decline_reason =
      decode_octet-eq-ok decline_policy _ (
        subst (λ l. decode_octet decline_policy (reason ∷ l) ≡ ok n)
          (other_values decline_reason_tlv m.policy fs f refl) en)
      ∙ octet in
    let read_p : p ≡ m.policy = ok-injective (sym ep ∙ decode_policies-eq-ok m.policy fs f) in
    sym (ok-injective e3)
    ∙ ap₂ (λ x y. record (sent_as durable_decline m) { decline_reason = x; policy = y }) read_n
        read_p

module _ ⦃lib : UuidLib⦄ (m : Message) (wf : IsMessage m) where
  pub durable_decline-Carries :
      durable_decline ≡ m.kind
      → (body : Bytes) → encode_durable m ≡ ok body
      → length body < 2 ^ 16
      → decode_body durable_decline body ≡ ok (sent_as durable_decline m)
  unfolding append_durable
  durable_decline-Carries ek body e hn =
      let octet : m.decline_reason % 256 ≡ m.decline_reason = omega (arith, wf.decline_reason) in
      let front : List Field =
        (operation_id_tlv, m.operation_id)
        ∷ (decline_reason_tlv, (m.decline_reason % 256) ∷ [])
        ∷ [] in
      let (fs, shape, f) = append_policy-eq-ok m.policy front body wf.policy (
        subst (λ x. append_policy m.policy x ≡ ok body)
          (written_two operation_id_tlv decline_reason_tlv m.operation_id
            ((m.decline_reason % 256) ∷ []))
          (written_body m wf durable_decline body ek e)) in
      durable-Carries m wf durable_decline body (unfold decode_body is_durable type_code in refl) ek
        e
        (λ r d. decline_fields m fs r f octet (
          decoded_one durable_decline m.operation_id (front ++ fs) (front ++ fs) r
            (omega arith, (omega arith, PolicyField-short m.policy fs f))
            (subst (λ b. length b < 2 ^ 16) shape hn) (decline_kept m fs f)
            (unfold values in
              ap (λ l. m.operation_id ∷ l) (other_values operation_id_tlv m.policy fs f refl))
            (subst (λ b. decode_durable durable_decline b ≡ ok r) shape d)))
