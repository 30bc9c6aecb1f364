-- ===== src/Vfp/RoundTrip/Signalling.antt =====
-- The link probes, the signalling of Dynamic Links, the discovery control and the public probes.
use velvet_fabric.Base.{
  ◌%◌, ◌^◌, ◌<◌, ◌≡◌, refl, sym, ap, ◌∙◌, subst, inl, inr, true, false, not, ◌&&◌, some, List, [],
  ◌∷◌, arith, leb, Bool-cases, length, frame, plain, ok, ensure, >>=-eq-ok, ok-injective,
}
use velvet_fabric.Base.Bytes.{Bytes, all_zero}
use velvet_fabric.Net.{addr_port_is_valid}
use velvet_fabric.Tlv.{append}
use velvet_fabric.Tlv.RoundTrip.{Field, over, append-body_of}
use velvet_fabric.Vfp.Kinds.{
  Kind, dynamic_link_propose, dynamic_link_accept, dynamic_link_decline, discovery_control,
  public_probe, link_ping, link_pong, used_by, operation_id_tlv, wg_public_key_tlv, wg_endpoint_tlv,
  probe_key_tlv, discovery_data_tlv, sealed_probe_tlv, decline_reason_tlv,
}
use velvet_fabric.Vfp.Values.{UuidLib, encode_endpoint, parse_operation_id, parse_public_key}
use velvet_fabric.Vfp.Values.Laws.{parse_endpoint-encode_endpoint, encode_endpoint-valid}
use velvet_fabric.Vfp.Control.{decode_control}
use velvet_fabric.Vfp.Message.{Message, blank, Selected, select, lookup, insert_new, decline_policy}
use velvet_fabric.Vfp.Durable.{decline_is_sound, append_policy}
use velvet_fabric.Vfp.Decode.{
  decode_selected, decode_probe, decode_dynamic, decode_decline, decode_body, is_probe_length,
}
use velvet_fabric.Vfp.Encode.{encode_body, encode_ping, encode_pong, encode_dynamic, encode_decline}
use velvet_fabric.Vfp.RoundTrip.Frame.{
  IsMessage, sent_as, Carries, decode-records, one_field, written_two, written_three, IsSelecting,
  PolicyField, append_policy-eq-ok, PolicyField-short,
}

-- The values of a Dynamic Link message, as they are selected.
dynamic_selected :
    (k : Kind) (m : Message) (value : Bytes) (sel : Selected)
    → IsMessage m
    → all_zero m.wg_public_key ≡ false
    → encode_endpoint m.endpoint ≡ ok value
    → lookup operation_id_tlv sel ≡ some m.operation_id
    → lookup wg_public_key_tlv sel ≡ some m.wg_public_key
    → lookup wg_endpoint_tlv sel ≡ some value
    → lookup probe_key_tlv sel ≡ some m.probe_key
    → decode_dynamic k sel
      ≡ ok (record (blank k) {
        probe_key = m.probe_key;
        operation_id = m.operation_id;
        wg_public_key = m.wg_public_key;
        endpoint = m.endpoint;
      })
dynamic_selected k m value sel wf z e s1 s2 s3 s4 =
    let parsed = parse_endpoint-encode_endpoint m.endpoint value wf.endpoint e in
    let valid = (encode_endpoint-valid m.endpoint value e).0 in
    unfold decode_dynamic parse_operation_id parse_public_key in
    rw (s1, s2, s3, s4) (simp (wf.probe_key, wf.operation_id, wf.wg_public_key, z, parsed, valid))

decline_selected :
    ⦃lib : UuidLib⦄ (m : Message) (fs : List Field)
    → IsMessage m
    → leb m.decline_reason decline_policy ≡ true
    → decline_is_sound m.decline_reason m.policy ≡ true
    → PolicyField m.policy fs
    → decode_selected dynamic_link_decline (
        over
          (select dynamic_link_decline)
          0
          ((operation_id_tlv, m.operation_id)
            ∷ (decline_reason_tlv, (m.decline_reason % 256) ∷ [])
            ∷ fs)
          [])
      ≡ ok (sent_as dynamic_link_decline m)
unfolding decode_selected select used_by over insert_new decode_decline parse_operation_id sent_as
decline_selected m fs wf small sound (inl (e, n)) =
    let octet : m.decline_reason % 256 ≡ m.decline_reason = ground arith in
    rw (e, octet) (simp (small, n, rw n at sound, wf.operation_id))
decline_selected m fs wf small sound (inr (v, q, e, n, parsed, len)) =
    let octet : m.decline_reason % 256 ≡ m.decline_reason = ground arith in
    rw (e, octet) (simp (small, n, parsed, rw n at sound, wf.operation_id))

module _ ⦃lib : UuidLib⦄ (m : Message) (wf : IsMessage m) where
  pub link_ping-Carries : Carries link_ping m
  unfolding encode_body encode_ping sent_as
  link_ping-Carries body e hn =
      let (u, nz, e') = >>=-eq-ok (ensure (not (all_zero m.operation_id)) plain) _ e in
      let nonzero : all_zero m.operation_id ≡ false = ground arith in
      decode-records link_ping ((operation_id_tlv, m.operation_id) ∷ []) body _ tt (omega arith)
        (sym (ok-injective e') ∙ one_field operation_id_tlv m.operation_id) hn
        (unfold decode_selected select used_by over insert_new decode_probe parse_operation_id in
          simp (wf.operation_id, nonzero))

  pub public_probe-Carries : Carries public_probe m
  unfolding encode_body sent_as
  public_probe-Carries body e hn =
      let (u, fits, e') = >>=-eq-ok (ensure (is_probe_length m.payload) frame) _ e in
      decode-records public_probe ((sealed_probe_tlv, m.payload) ∷ []) body _ tt (omega arith)
        (sym (ok-injective e') ∙ one_field sealed_probe_tlv m.payload) hn
        (unfold decode_selected select used_by over insert_new in rw fits)

  pub discovery_control-Carries : Carries discovery_control m
  unfolding encode_body sent_as
  discovery_control-Carries body e hn =
      let (c, decoded, e') = >>=-eq-ok (decode_control m.payload) _ e in
      decode-records discovery_control
        ((operation_id_tlv, m.operation_id) ∷ (discovery_data_tlv, m.payload) ∷ []) body _ tt
        (omega arith)
        (sym (ok-injective e')
          ∙ written_two operation_id_tlv discovery_data_tlv m.operation_id m.payload)
        hn
        (unfold decode_selected select used_by over insert_new parse_operation_id in
          simp (wf.operation_id, decoded))

  dynamic-Carries :
      (k : Kind)
      → IsSelecting k
      → (body : Bytes) → encode_dynamic m ≡ ok body
      → length body < 2 ^ 16
      → ((sel : Selected) → decode_selected k sel ≡ decode_dynamic k sel)
      → used_by k operation_id_tlv ≡ true
      → used_by k wg_public_key_tlv ≡ true
      → used_by k wg_endpoint_tlv ≡ true
      → used_by k probe_key_tlv ≡ true
      → decode_body k body
        ≡ ok (record (blank k) {
          probe_key = m.probe_key;
          operation_id = m.operation_id;
          wg_public_key = m.wg_public_key;
          endpoint = m.endpoint;
        })
  unfolding encode_dynamic
  dynamic-Carries k hk body e hn ds u1 u2 u3 u4 =
      let (u, nz, e') = >>=-eq-ok (ensure (not (all_zero m.wg_public_key)) plain) _ e in
      let (value, ev, e'') = >>=-eq-ok (encode_endpoint m.endpoint) _ e' in
      let nonzero : all_zero m.wg_public_key ≡ false = ground arith in
      let rs : List Field =
        (operation_id_tlv, m.operation_id)
        ∷ (wg_public_key_tlv, m.wg_public_key)
        ∷ (wg_endpoint_tlv, value)
        ∷ (probe_key_tlv, m.probe_key)
        ∷ [] in
      decode-records k rs body _ hk (omega arith)
        (sym (ok-injective e'')
          ∙ ap (λ x. append x probe_key_tlv m.probe_key)
              (written_three operation_id_tlv wg_public_key_tlv wg_endpoint_tlv m.operation_id
                m.wg_public_key value)
          ∙ append-body_of _ probe_key_tlv m.probe_key)
        hn
        (ds _
          ∙ unfold select over insert_new in
            simp (u1, u2, u3, u4) (dynamic_selected k m value _ wf nonzero ev refl refl refl refl))

  pub dynamic_link_propose-Carries : Carries dynamic_link_propose m
  unfolding encode_body sent_as
  dynamic_link_propose-Carries body e hn =
      dynamic-Carries dynamic_link_propose tt body e hn (λ sel. unfold decode_selected in refl)
        (unfold used_by in refl) (unfold used_by in refl) (unfold used_by in refl)
        (unfold used_by in refl)

  pub dynamic_link_accept-Carries : Carries dynamic_link_accept m
  unfolding encode_body sent_as
  dynamic_link_accept-Carries body e hn =
      dynamic-Carries dynamic_link_accept tt body e hn (λ sel. unfold decode_selected in refl)
        (unfold used_by in refl) (unfold used_by in refl) (unfold used_by in refl)
        (unfold used_by in refl)

  pub link_pong-Carries : Carries link_pong m
  unfolding encode_body encode_pong sent_as
  link_pong-Carries body e hn =
      let (u, nz, e') = >>=-eq-ok (ensure (not (all_zero m.operation_id)) plain) _ e in
      let nonzero : all_zero m.operation_id ≡ false = ground arith in
      elim (Bool-cases (addr_port_is_valid m.endpoint)) [
        | inl valid ↦
            let (value, ev, e'') = >>=-eq-ok (encode_endpoint m.endpoint) _ (rw valid at e') in
            decode-records link_pong
              ((operation_id_tlv, m.operation_id) ∷ (wg_endpoint_tlv, value) ∷ []) body _ tt
              (omega arith)
              (sym (ok-injective e'')
                ∙ written_two operation_id_tlv wg_endpoint_tlv m.operation_id value)
              hn
              (unfold decode_selected select used_by over insert_new decode_probe
                  parse_operation_id in
                simp (
                  wf.operation_id,
                  nonzero,
                  parse_endpoint-encode_endpoint m.endpoint value wf.endpoint ev,
                  valid,
                ))
        | inr absent ↦
            decode-records link_pong ((operation_id_tlv, m.operation_id) ∷ []) body _ tt
              (omega arith)
              (sym (ok-injective (rw absent at e')) ∙ one_field operation_id_tlv m.operation_id) hn
              (unfold decode_selected select used_by over insert_new decode_probe
                  parse_operation_id in
                simp (wf.operation_id, nonzero, absent))
      ]

  pub dynamic_link_decline-Carries : Carries dynamic_link_decline m
  unfolding encode_body encode_decline sent_as
  dynamic_link_decline-Carries body e hn =
      let (u, tests, e') =
        >>=-eq-ok
          (ensure
            (leb m.decline_reason decline_policy && decline_is_sound m.decline_reason m.policy)
            frame)
          _ e in
      let small : leb m.decline_reason decline_policy ≡ true = ground arith in
      let octet : m.decline_reason % 256 ≡ m.decline_reason = ground arith in
      let sound : decline_is_sound m.decline_reason m.policy ≡ true = ground arith in
      let (fs, eb, f) =
        append_policy-eq-ok m.policy
          ((operation_id_tlv, m.operation_id)
            ∷ (decline_reason_tlv, (m.decline_reason % 256) ∷ [])
            ∷ [])
          body wf.policy
          (subst (λ x. append_policy m.policy x ≡ ok body)
            (written_two operation_id_tlv decline_reason_tlv m.operation_id
              ((m.decline_reason % 256) ∷ []))
            e') in
      decode-records dynamic_link_decline _ body _ tt
        (omega arith, (omega arith, PolicyField-short m.policy fs f)) eb hn
        (decline_selected m fs wf small sound f)
