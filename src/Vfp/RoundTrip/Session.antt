-- ===== src/Vfp/RoundTrip/Session.antt =====
-- The messages of link establishment and of policy.
use velvet_fabric.Base.{
  ℕ, ◌^◌, ◌<◌, ◌≡◌, refl, sym, ap, ◌∙◌, subst, ◌⊎◌, inl, inr, Bool, true, false, ◌&&◌, Option, none,
  some, List, [], ◌∷◌, ◌++◌, append-nil, arith, ◌==◌, All, All-append, plain, ok, ensure, >>=-eq-ok,
  ok-injective,
}
use velvet_fabric.Base.Bytes.{Bytes, be_bytes}
use velvet_fabric.Net.Laws.{prefix_eq_iff}
use mathlib.Core.Bool.{false≢true}
use velvet_fabric.Net.{
  Addr, none_addr, v4, v6, Prefix, none_prefix, prefix, IsAddr, as4, as16, masked, prefix_eq,
}
use velvet_fabric.Tlv.{append}
use velvet_fabric.Tlv.RoundTrip.{Field, body_of, over, append-body_of}
use velvet_fabric.Vfp.Kinds.{
  open_type, node_state, link_propose, link_accept, discovery_hello, discovery_hello_ack,
  policy_query, policy_update, used_by, node_uid_tlv, loopback_v6_tlv, link_prefix_v4_tlv,
  link_prefix_v6_tlv, dynamic_link_policy_tlv,
}
use velvet_fabric.Vfp.Values.{UuidLib, Uid, Policy, encode_uid, encode_policy, parse_prefix}
use velvet_fabric.Vfp.Values.Laws.{
  IsUid, IsPolicy, parse_uid-encode_uid, parse_policy-encode_policy, parse_address-as16,
  parse_prefix-v4, parse_prefix-v6,
}
use velvet_fabric.Vfp.Message.{Message, blank, select, insert_new}
use velvet_fabric.Vfp.Decode.{decode_selected, decode_uid}
use velvet_fabric.Vfp.Encode.{
  without_name, uid_field, encode_body, encode_node_state, encode_link_propose, append_prefix,
}
use velvet_fabric.Vfp.RoundTrip.Frame.{
  IsMessage, IsSendablePrefix, sent_as, Carries, decode-records, one_field, ShortType,
}
use velvet_fabric.Base.{WhenSome}

uid_field-eq-ok :
    (change : Uid → Uid) (o : Option Uid) (body : Bytes)
    → uid_field change o ≡ ok body
    → (u : Uid) × (value : Bytes) × (o ≡ some u)
      × (encode_uid (change u) ≡ ok value)
      × (body ≡ body_of ((node_uid_tlv, value) ∷ []))
unfolding uid_field
uid_field-eq-ok change none body e = cc
uid_field-eq-ok change (some u) body e =
    let (value, ev, eb) = >>=-eq-ok (encode_uid (change u)) _ e in
    (u, value, refl, ev, sym (ok-injective eb) ∙ one_field node_uid_tlv value)

module _ ⦃lib : UuidLib⦄ (m : Message) (wf : IsMessage m) where
  uid_fits : (u : Uid) → m.uid ≡ some u → IsUid u
  uid_fits u e = subst (WhenSome IsUid) e wf.uid

  pub open_type-Carries : Carries open_type m
  unfolding encode_body sent_as
  open_type-Carries body e hn =
      let (u, value, eu, ev, eb) = uid_field-eq-ok (λ u. u) m.uid body e in
      decode-records open_type ((node_uid_tlv, value) ∷ []) body _ tt (omega arith) eb hn (
        unfold decode_selected select used_by over insert_new decode_uid in
        rw (eu, parse_uid-encode_uid u value (uid_fits u eu) ev))

  pub policy_query-Carries : Carries policy_query m
  unfolding encode_body sent_as
  policy_query-Carries body e hn =
      let (u, value, eu, ev, eb) = uid_field-eq-ok without_name m.uid body e in
      decode-records policy_query ((node_uid_tlv, value) ∷ []) body _ tt (omega arith) eb hn (
        unfold decode_selected select used_by over insert_new decode_uid in
        rw (eu, parse_uid-encode_uid (without_name u) value (uid_fits u eu) ev))

  pub policy_update-Carries : Carries policy_update m
  unfolding encode_body sent_as
  policy_update-Carries body e hn =
      let (b, eb, e') = >>=-eq-ok (uid_field without_name m.uid) _ e in
      let (u, value, eu, ev, eb') = uid_field-eq-ok without_name m.uid b eb in
      let (pv, ep, e'') = >>=-eq-ok (encode_policy m.policy) _ e' in
      let (p, em) = policy_some m.policy pv ep in
      decode-records policy_update ((node_uid_tlv, value) ∷ (dynamic_link_policy_tlv, pv) ∷ []) body
        _ tt (omega arith)
        (sym (ok-injective e'')
          ∙ ap (λ x. append x dynamic_link_policy_tlv pv) eb'
          ∙ append-body_of ((node_uid_tlv, value) ∷ []) dynamic_link_policy_tlv pv)
        hn
        (unfold decode_selected select used_by over insert_new decode_uid in
          rw (
            eu,
            em,
            parse_uid-encode_uid (without_name u) value (uid_fits u eu) ev,
            parse_policy-encode_policy p pv (subst (WhenSome IsPolicy) em wf.policy) (rw em at ep),
          ))
    where
      policy_some :
          (o : Option Policy) (v : Bytes) → encode_policy o ≡ ok v → (p : Policy) × (o ≡ some p)
      policy_some none v e = unfold encode_policy in cc
      policy_some (some p) v e = (p, refl)

node_state-eq-ok :
    (a : Addr) (body : Bytes)
    → IsAddr a
    → encode_node_state a ≡ ok body
    → (n : ℕ) × (a ≡ v6 n) × (n < 2 ^ 128) × (body ≡ body_of ((loopback_v6_tlv, as16 (v6 n)) ∷ []))
unfolding encode_node_state
node_state-eq-ok none_addr body h e = cc
node_state-eq-ok (v4 n) body h e = cc
node_state-eq-ok (v6 n) body h e =
    (n, refl, h, sym (ok-injective e) ∙ one_field loopback_v6_tlv (as16 (v6 n)))

-- What a link prefix adds to the body: nothing, or one record that parses back to it.
abbrev PrefixField : ℕ → Bool → Prefix → List Field → Type 0
PrefixField t four p fs =
    ((fs ≡ []) × (p ≡ none_prefix))
    ⊎ ((v : Bytes) × (fs ≡ (t, v) ∷ []) × (parse_prefix (some v) four ≡ ok p))

abbrev Appended : ℕ → Bool → Prefix → List Field → Bytes → Type 0
Appended t four p rs b = (fs : List Field) × (b ≡ body_of (rs ++ fs)) × PrefixField t four p fs

append_nothing :
    (t : ℕ) (four : Bool) (rs : List Field) (b : Bytes)
    → body_of rs ≡ b
    → Appended t four none_prefix rs b
append_nothing t four rs b e = ([], rw append-nil (sym e), inl (refl, refl))

prefix_test :
    (a : Addr) (bits want : ℕ) {u : Unit}
    → ensure (bits == want && prefix_eq (prefix a bits) (masked (prefix a bits))) plain ≡ ok u
    → (bits ≡ want) × (masked (prefix a want) ≡ prefix a want)
prefix_test a bits want e =
    let same : bits ≡ want = ground arith in
    let eq : prefix_eq (prefix a bits) (masked (prefix a bits)) ≡ true = ground arith in
    (same, subst (λ k. masked (prefix a k) ≡ prefix a k) same (sym ((prefix_eq_iff _ _).0 eq)))

append_prefix_v4 :
    (p : Prefix) (rs : List Field) (b : Bytes)
    → IsSendablePrefix true p
    → append_prefix link_prefix_v4_tlv 30 as4 p (body_of rs) ≡ ok b
    → Appended link_prefix_v4_tlv true p rs b
unfolding append_prefix as4
append_prefix_v4 none_prefix rs b h e = append_nothing _ true rs b (ok-injective e)
append_prefix_v4 (prefix none_addr bits) rs b h e = absurd h
append_prefix_v4 (prefix (v6 n) bits) rs b h e = absurd (false≢true h.1)
append_prefix_v4 (prefix (v4 n) bits) rs b (ha, hf, hv) e =
    let (u, tests, e') = >>=-eq-ok (ensure _ plain) _ e in
    let (thirty, m) = prefix_test (v4 n) bits 30 tests in
    (
      (link_prefix_v4_tlv, be_bytes 4 n) ∷ [],
      sym (ok-injective e') ∙ append-body_of rs link_prefix_v4_tlv (be_bytes 4 n),
      inr (be_bytes 4 n, refl, rw thirty (parse_prefix-v4 n ha hv m)),
    )

append_prefix_v6 :
    (p : Prefix) (rs : List Field) (b : Bytes)
    → IsSendablePrefix false p
    → append_prefix link_prefix_v6_tlv 126 (λ a. ok (as16 a)) p (body_of rs) ≡ ok b
    → Appended link_prefix_v6_tlv false p rs b
unfolding append_prefix as16
append_prefix_v6 none_prefix rs b h e = append_nothing _ false rs b (ok-injective e)
append_prefix_v6 (prefix none_addr bits) rs b h e = absurd h
append_prefix_v6 (prefix (v4 n) bits) rs b h e = absurd (false≢true (sym h.1))
append_prefix_v6 (prefix (v6 n) bits) rs b (ha, hf, hv) e =
    let (u, tests, e') = >>=-eq-ok (ensure _ plain) _ e in
    let (all_but_two, m) = prefix_test (v6 n) bits 126 tests in
    (
      (link_prefix_v6_tlv, be_bytes 16 n) ∷ [],
      sym (ok-injective e') ∙ append-body_of rs link_prefix_v6_tlv (be_bytes 16 n),
      inr (be_bytes 16 n, refl, rw all_but_two (parse_prefix-v6 n ha hv m)),
    )

parse_prefix-none : (four : Bool) → parse_prefix none four ≡ ok none_prefix
unfolding parse_prefix
parse_prefix-none four = refl

-- The two prefixes of a proposal, each present or not.
proposal_selected :
    ⦃lib : UuidLib⦄ (p4 p6 : Prefix) (fs4 fs6 : List Field)
    → PrefixField link_prefix_v4_tlv true p4 fs4
    → PrefixField link_prefix_v6_tlv false p6 fs6
    → decode_selected link_propose (over (select link_propose) 0 (fs4 ++ fs6) [])
      ≡ ok (record (blank link_propose) { link_prefix_v4 = p4; link_prefix_v6 = p6 })
unfolding decode_selected select used_by over insert_new
proposal_selected p4 p6 fs4 fs6 (inl (e4, n4)) (inl (e6, n6)) =
    rw (e4, e6, n4, n6) (simp parse_prefix-none)
proposal_selected p4 p6 fs4 fs6 (inr (v, e4, d4)) (inl (e6, n6)) =
    rw (e4, e6, n6) (simp (parse_prefix-none, d4))
proposal_selected p4 p6 fs4 fs6 (inl (e4, n4)) (inr (w, e6, d6)) =
    rw (e4, e6, n4) (simp (parse_prefix-none, d6))
proposal_selected p4 p6 fs4 fs6 (inr (v, e4, d4)) (inr (w, e6, d6)) = rw (e4, e6) (simp (d4, d6))

PrefixField-short :
    (t : ℕ) (four : Bool) (p : Prefix) (fs : List Field)
    → t < 2 ^ 16
    → PrefixField t four p fs
    → All ShortType fs
PrefixField-short t four p fs h (inl (e, n)) = rw e tt
PrefixField-short t four p fs h (inr (v, e, d)) = rw e (h, tt)

module _ ⦃lib : UuidLib⦄ (m : Message) (wf : IsMessage m) where
  pub node_state-Carries : Carries node_state m
  unfolding encode_body sent_as
  node_state-Carries body e hn =
      let (n, ea, h, eb) = node_state-eq-ok m.loopback_v6 body wf.loopback_v6.0 e in
      decode-records node_state ((loopback_v6_tlv, as16 (v6 n)) ∷ []) body _ tt (omega arith) eb hn
        (unfold decode_selected select used_by over insert_new in
          rw (ea, parse_address-as16 n h (rw ea at wf.loopback_v6.1)))

  pub link_accept-Carries : Carries link_accept m
  unfolding encode_body sent_as
  link_accept-Carries body e hn =
      decode-records link_accept [] body _ tt tt (sym (ok-injective e) ∙ unfold body_of in refl) hn
        (unfold decode_selected select over in refl)

  pub discovery_hello-Carries : Carries discovery_hello m
  unfolding encode_body sent_as
  discovery_hello-Carries body e hn =
      decode-records discovery_hello [] body _ tt tt (sym (ok-injective e) ∙ unfold body_of in refl)
        hn (unfold decode_selected select over in refl)

  pub discovery_hello_ack-Carries : Carries discovery_hello_ack m
  unfolding encode_body sent_as
  discovery_hello_ack-Carries body e hn =
      decode-records discovery_hello_ack [] body _ tt tt
        (sym (ok-injective e) ∙ unfold body_of in refl) hn
        (unfold decode_selected select over in refl)

  pub link_propose-Carries : Carries link_propose m
  unfolding encode_body encode_link_propose sent_as
  link_propose-Carries body e hn =
      let (b, e4, e6) =
        >>=-eq-ok (append_prefix link_prefix_v4_tlv 30 as4 m.link_prefix_v4 []) _ e in
      let (fs4, eb, f4) =
        append_prefix_v4 m.link_prefix_v4 [] b wf.link_prefix_v4 (unfold body_of in e4) in
      let (fs6, eb', f6) = append_prefix_v6 m.link_prefix_v6 fs4 body wf.link_prefix_v6 (
        subst
          (λ x.
            append_prefix link_prefix_v6_tlv 126 (λ a. ok (as16 a)) m.link_prefix_v6 x ≡ ok body)
          eb e6) in
      decode-records link_propose (fs4 ++ fs6) body _ tt
        (All-append ShortType fs4 fs6 (PrefixField-short _ _ _ fs4 (omega arith) f4)
          (PrefixField-short _ _ _ fs6 (omega arith) f6))
        eb' hn (proposal_selected m.link_prefix_v4 m.link_prefix_v6 fs4 fs6 f4 f6)
