-- ===== src/Vfp/RoundTrip/Agreement.antt =====
-- The messages of durable agreements. Encode decodes its own body before it returns it, so what is left
-- to show is that the decoded fields are the ones that were written.
use velvet_fabric.Base.{
  ℕ, ◌%◌, ◌^◌, ◌<◌, ◌≡◌, refl, sym, ap, ◌∙◌, subst, List, [], ◌∷◌, arith, ◌==◌, if◌then◌else◌,
  length, All, frame, ok, ensure, >>=-eq-ok, ok-injective,
}
use velvet_fabric.Base.Bytes.{Bytes}
use velvet_fabric.Tlv.{append}
use velvet_fabric.Tlv.RoundTrip.{Field, body_of, over}
use velvet_fabric.Vfp.Kinds.{
  Kind, durable_saved, durable_check, durable_status, operation_id_tlv, status_tlv,
}
use velvet_fabric.Vfp.Values.{UuidLib, parse_operation_id}
use velvet_fabric.Vfp.Message.{Message, blank}
use velvet_fabric.Vfp.Decode.{decode_body}
use velvet_fabric.Vfp.RoundTrip.Frame.{
  IsMessage, sent_as, one_field, ShortType, written_two, written_three, body_of-Fits,
}
use velvet_fabric.Tlv.{each_in}
use velvet_fabric.Tlv.RoundTrip.{each_in-body_of}
use velvet_fabric.Vfp.Kinds.{is_durable, type_code}
use velvet_fabric.Vfp.Durable.{
  Fields, values, collect, durable_occurrences, decode_ids, parse_id, decode_durable_fields,
  decode_durable, decode_octet, append_durable, has_agreement, encode_durable, absent,
}

parse_id-eq-ok : (value : Bytes) {id : Bytes} → parse_id value ≡ ok id → id ≡ value
unfolding parse_id parse_operation_id
parse_id-eq-ok value e = ground arith

ids_one :
    (k : Kind) (a : Bytes) {d : Message}
    → decode_ids k (a ∷ []) ≡ ok d
    → d ≡ record (blank k) { operation_id = a }
unfolding decode_ids
ids_one k a {d} e =
    let (id, ea, e') = >>=-eq-ok (parse_id a) _ e in
    sym (ok-injective e') ∙ ap (λ x. record (blank k) { operation_id = x }) (parse_id-eq-ok a ea)

ids_two :
    (k : Kind) (a b : Bytes) {d : Message}
    → decode_ids k (a ∷ b ∷ []) ≡ ok d
    → d ≡ record (blank k) { operation_id = a; agreement_id = b }
unfolding decode_ids
ids_two k a b {d} e =
    let (id, ea, e') = >>=-eq-ok (parse_id a) _ e in
    let (id', eb, e'') = >>=-eq-ok (parse_id b) _ e' in
    sym (ok-injective e'') ∙ cc (parse_id-eq-ok a ea, parse_id-eq-ok b eb)

-- The frame of every proof: the loop over the records, the identifiers, then the fields of the
-- kind.
decode_durable-body_of :
    ⦃lib : UuidLib⦄ (k : Kind) (rs : List Field) (fs : Fields) {m : Message}
    → All ShortType rs
    → length (body_of rs) < 2 ^ 16
    → over (collect k) 0 rs [] ≡ fs
    → decode_durable k (body_of rs) ≡ ok m
    → (d : Message) × (decode_ids k (values operation_id_tlv fs) ≡ ok d)
      × (decode_durable_fields k fs d ≡ ok m)
unfolding decode_durable
decode_durable-body_of k rs fs {m} hs hn c e =
    let loop : each_in (collect k) (body_of rs) [] ≡ ok fs =
      each_in-body_of (collect k) rs [] (body_of-Fits rs hs hn) ∙ ap ok c in
    let (fs', e0, e1) = >>=-eq-ok (each_in (collect k) (body_of rs) []) _ e in
    let same : fs' ≡ fs = ok-injective (sym e0 ∙ loop) in
    let (u, n, e2) =
      >>=-eq-ok
        (ensure (length (values operation_id_tlv fs') == durable_occurrences k operation_id_tlv)
          frame)
        _ e1 in
    let (d, e3, e4) = >>=-eq-ok (decode_ids k (values operation_id_tlv fs')) _ e2 in
    (
      d,
      subst (λ x. decode_ids k (values operation_id_tlv x) ≡ ok d) same e3,
      subst (λ x. decode_durable_fields k x d ≡ ok m) same e4,
    )

-- A message that carries one identifier, and fields that `decode_durable_fields` reads.
pub decoded_one :
    ⦃lib : UuidLib⦄ (k : Kind) (a : Bytes) (rs : List Field) (fs : Fields) (r : Message)
    → All ShortType rs
    → length (body_of rs) < 2 ^ 16
    → over (collect k) 0 rs [] ≡ fs
    → values operation_id_tlv fs ≡ a ∷ []
    → decode_durable k (body_of rs) ≡ ok r
    → decode_durable_fields k fs (record (blank k) { operation_id = a }) ≡ ok r
decoded_one k a rs fs r hs hn c v e =
    let (d, ids, fields) = decode_durable-body_of k rs fs hs hn c e in
    let same = ids_one k a (subst (λ x. decode_ids k x ≡ ok d) v ids) in
    subst (λ x. decode_durable_fields k fs x ≡ ok r) same fields

-- The same for a message that carries two.
decoded_two :
    ⦃lib : UuidLib⦄ (k : Kind) (a b : Bytes) (rs : List Field) (fs : Fields) (r : Message)
    → All ShortType rs
    → length (body_of rs) < 2 ^ 16
    → over (collect k) 0 rs [] ≡ fs
    → values operation_id_tlv fs ≡ a ∷ b ∷ []
    → decode_durable k (body_of rs) ≡ ok r
    → decode_durable_fields k fs (record (blank k) { operation_id = a; agreement_id = b }) ≡ ok r
decoded_two k a b rs fs r hs hn c v e =
    let (d, ids, fields) = decode_durable-body_of k rs fs hs hn c e in
    let same = ids_two k a b (subst (λ x. decode_ids k x ≡ ok d) v ids) in
    subst (λ x. decode_durable_fields k fs x ≡ ok r) same fields

pub decode_octet-eq-ok : (most b : ℕ) {n : ℕ} → decode_octet most ((b ∷ []) ∷ []) ≡ ok n → n ≡ b
unfolding decode_octet
decode_octet-eq-ok most b e = ground arith

module _ ⦃lib : UuidLib⦄ (m : Message) (wf : IsMessage m) where
  -- What Encode's own check leaves to show.
  abbrev pub Checked : Kind → Bytes → Type 0
  Checked k body = (r : Message) → decode_durable k body ≡ ok r → r ≡ sent_as k m

  pub durable-Carries :
      (k : Kind) (body : Bytes)
      → decode_body k body ≡ decode_durable k body
      → k ≡ m.kind
      → encode_durable m ≡ ok body
      → Checked k body
      → decode_body k body ≡ ok (sent_as k m)
  unfolding encode_durable
  durable-Carries k body d ek e c =
      let (b, eb, e') = >>=-eq-ok (append_durable m.kind m _) _ e in
      let (r, er, e'') = >>=-eq-ok (decode_durable m.kind b) _ e' in
      let decoded : decode_durable k body ≡ ok r =
        rw ek (subst (λ x. decode_durable m.kind x ≡ ok r) (ok-injective e'') er) in
      d ∙ decoded ∙ ap ok (c r decoded)

  -- What the body of each kind is.
  pub written_body :
      (k : Kind) (body : Bytes)
      → k ≡ m.kind
      → encode_durable m ≡ ok body
      → append_durable k m (
          if has_agreement k
          then append (append [] operation_id_tlv m.operation_id) operation_id_tlv m.agreement_id
          else append [] operation_id_tlv m.operation_id)
        ≡ ok body
  unfolding encode_durable
  written_body k body ek e =
      let (b, eb, e') = >>=-eq-ok (append_durable m.kind m _) _ e in
      let (r, er, e'') = >>=-eq-ok (decode_durable m.kind b) _ e' in rw ek (eb ∙ e'')

  pub durable_saved-Carries :
      durable_saved ≡ m.kind
      → (body : Bytes) → encode_durable m ≡ ok body
      → length body < 2 ^ 16
      → decode_body durable_saved body ≡ ok (sent_as durable_saved m)
  unfolding append_durable over collect values decode_durable_fields sent_as
  durable_saved-Carries ek body e hn =
      let rs : List Field = (operation_id_tlv, m.operation_id) ∷ [] in
      let shape : body ≡ body_of rs =
        sym (ok-injective (written_body durable_saved body ek e))
        ∙ one_field operation_id_tlv m.operation_id in
      durable-Carries durable_saved body (unfold decode_body is_durable type_code in refl) ek e
        (λ r d. sym (
          ok-injective (
            decoded_one durable_saved m.operation_id rs rs r (omega arith)
              (subst (λ b. length b < 2 ^ 16) shape hn) refl refl
              (subst (λ b. decode_durable durable_saved b ≡ ok r) shape d))))

  pub durable_check-Carries :
      durable_check ≡ m.kind
      → (body : Bytes) → encode_durable m ≡ ok body
      → length body < 2 ^ 16
      → decode_body durable_check body ≡ ok (sent_as durable_check m)
  unfolding append_durable over collect values decode_durable_fields sent_as
  durable_check-Carries ek body e hn =
      let rs : List Field =
        (operation_id_tlv, m.operation_id) ∷ (operation_id_tlv, m.agreement_id) ∷ [] in
      let shape : body ≡ body_of rs =
        sym (ok-injective (written_body durable_check body ek e))
        ∙ written_two operation_id_tlv operation_id_tlv m.operation_id m.agreement_id in
      durable-Carries durable_check body (unfold decode_body is_durable type_code in refl) ek e
        (λ r d. sym (
          ok-injective (
            decoded_two durable_check m.operation_id m.agreement_id rs rs r (omega arith)
              (subst (λ b. length b < 2 ^ 16) shape hn) refl refl
              (subst (λ b. decode_durable durable_check b ≡ ok r) shape d))))

  pub durable_status-Carries :
      durable_status ≡ m.kind
      → (body : Bytes) → encode_durable m ≡ ok body
      → length body < 2 ^ 16
      → decode_body durable_status body ≡ ok (sent_as durable_status m)
  unfolding append_durable over collect values decode_durable_fields sent_as
  durable_status-Carries ek body e hn =
      let octet : m.status % 256 ≡ m.status = omega (arith, wf.status) in
      let rs : List Field =
        (operation_id_tlv, m.operation_id)
        ∷ (operation_id_tlv, m.agreement_id)
        ∷ (status_tlv, (m.status % 256) ∷ [])
        ∷ [] in
      let shape : body ≡ body_of rs =
        sym (ok-injective (written_body durable_status body ek e))
        ∙ written_three operation_id_tlv operation_id_tlv status_tlv m.operation_id m.agreement_id
            ((m.status % 256) ∷ []) in
      durable-Carries durable_status body (unfold decode_body is_durable type_code in refl) ek e
        (λ r d.
          let fields =
            decoded_two durable_status m.operation_id m.agreement_id rs rs r (omega arith)
              (subst (λ b. length b < 2 ^ 16) shape hn) refl refl
              (subst (λ b. decode_durable durable_status b ≡ ok r) shape d) in
          let (n, en, er) =
            >>=-eq-ok (decode_octet absent (((m.status % 256) ∷ []) ∷ [])) _ fields in
          sym (ok-injective er)
          ∙ ap (λ x. record (sent_as durable_status m) { status = x })
              (decode_octet-eq-ok absent _ en ∙ octet))
