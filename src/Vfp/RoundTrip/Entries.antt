-- ===== src/Vfp/RoundTrip/Entries.antt =====
-- The message that proposes a durable agreement.
use velvet_fabric.Base.{
  ℕ, ◌^◌, ◌≤◌, ◌<◌, ◌≡◌, refl, sym, ap, ◌∙◌, subst, ◌⊎◌, inl, inr, Bool, false, not, ◌&&◌, Option,
  none, some, List, [], ◌∷◌, ◌++◌, append_assoc, append-nil, arith, leb, ◌==◌, if◌then◌else◌,
  Bool-cases, ==_iff, length, All, frame, ok, ensure, in_frame, >>=-eq-ok, in_frame-eq-ok,
  ok-injective,
}
use velvet_fabric.Base.Bytes.{Bytes, be_bytes, length-be_bytes, be_value-be_bytes}
use mathlib.Core.Path.{ap₂, subst₂}
use velvet_fabric.Tlv.{append}
use velvet_fabric.Tlv.RoundTrip.{Field, body_of, over, append-body_of}
use velvet_fabric.Vfp.Kinds.{
  durable_propose, node_uid_tlv, operation_id_tlv, wg_endpoint_tlv, flags_tlv,
}
use velvet_fabric.Vfp.Values.{UuidLib, encode_uid, parse_uid, encode_endpoint, parse_endpoint}
use velvet_fabric.Vfp.Values.Laws.{parse_uid-encode_uid, parse_endpoint-encode_endpoint}
use velvet_fabric.Vfp.Message.{Message, blank}
use velvet_fabric.Vfp.Decode.{decode_body}
use velvet_fabric.Vfp.RoundTrip.Frame.{IsMessage, sent_as, one_field, ShortType, IsFixed}
use velvet_fabric.Vfp.Kinds.{is_durable, type_code}
use velvet_fabric.Vfp.Message.{FixedEndpoint}
use velvet_fabric.Vfp.Durable.{
  values, collect, decode_durable_fields, decode_durable, fixed_entries, follows, decode_flags,
  append_fixed, append_durable, encode_durable,
}
use velvet_fabric.Vfp.RoundTrip.Agreement.{decoded_one, durable-Carries, written_body}

-- An entry as it is written: the octets of its UID and of its endpoint.
abbrev Entry : Type 0
Entry = Bytes × Bytes

abbrev uids : List Entry → List Bytes
uids [] = []
uids ((u, e) ∷ ws) = u ∷ uids ws

abbrev endpoints : List Entry → List Bytes
endpoints [] = []
endpoints ((u, e) ∷ ws) = e ∷ endpoints ws

abbrev entry_fields : List Entry → List Field
entry_fields [] = []
entry_fields ((u, e) ∷ ws) = (node_uid_tlv, u) ∷ (wg_endpoint_tlv, e) ∷ entry_fields ws

abbrev FlagField : ℕ → List Field → Type 0
FlagField flags fs =
    ((fs ≡ []) × (flags ≡ 0))
    ⊎ ((v : Bytes) × (fs ≡ (flags_tlv, v) ∷ []) × (decode_flags (v ∷ []) ≡ ok flags))

module _ ⦃lib : UuidLib⦄ where
  -- What each written entry parses to.
  abbrev Parses : List FixedEndpoint → List Entry → Type 0
  Parses [] [] = Unit
  Parses (f ∷ fs) ((u, e) ∷ ws) =
      (parse_uid u ≡ ok f.uid) × (parse_endpoint e ≡ ok f.endpoint) × Parses fs ws
  Parses _ _ = ⊥

  append_fixed-eq-ok :
      (fixed : List FixedEndpoint) (rs : List Field) (b : Bytes)
      → All IsFixed fixed
      → append_fixed (body_of rs) fixed ≡ ok b
      → (ws : List Entry) × (b ≡ body_of (rs ++ entry_fields ws)) × Parses fixed ws
  unfolding append_fixed
  append_fixed-eq-ok [] rs b h e = ([], rw append-nil (sym (ok-injective e)), tt)
  append_fixed-eq-ok (f ∷ fixed) rs b ((hu, he), hs) e =
      let (u, eu, e1) = >>=-eq-ok (encode_uid f.uid) _ e in
      let (ep, ee, e2) = >>=-eq-ok (encode_endpoint f.endpoint) _ e1 in
      let (ws, shape, parsed) =
        append_fixed-eq-ok fixed (rs ++ ((node_uid_tlv, u) ∷ (wg_endpoint_tlv, ep) ∷ [])) b hs
          (subst (λ x. append_fixed x fixed ≡ ok b) (two_more rs u ep) e2) in
      (
        (u, ep) ∷ ws,
        shape
            ∙ ap body_of (
                append_assoc rs ((node_uid_tlv, u) ∷ (wg_endpoint_tlv, ep) ∷ []) (entry_fields ws)),
        (
          parse_uid-encode_uid f.uid u hu eu,
          parse_endpoint-encode_endpoint f.endpoint ep he ee,
          parsed,
        ),
      )
    where
      two_more :
          (rs : List Field) (u ep : Bytes)
          → append (append (body_of rs) node_uid_tlv u) wg_endpoint_tlv ep
            ≡ body_of (rs ++ ((node_uid_tlv, u) ∷ (wg_endpoint_tlv, ep) ∷ []))
      two_more rs u ep =
          ap (λ x. append x wg_endpoint_tlv ep) (append-body_of rs node_uid_tlv u)
          ∙ append-body_of (rs ++ ((node_uid_tlv, u) ∷ [])) wg_endpoint_tlv ep
          ∙ ap body_of (append_assoc rs ((node_uid_tlv, u) ∷ []) ((wg_endpoint_tlv, ep) ∷ []))

  -- Entries that parse to `fixed` are read as `fixed`, whenever they are read at all.
  fixed_entries-eq-ok :
      (previous : Option Bytes) (fixed : List FixedEndpoint) (ws : List Entry)
      (out : List FixedEndpoint)
      → Parses fixed ws
      → fixed_entries previous (uids ws) (endpoints ws) ≡ ok out
      → out ≡ fixed
  unfolding fixed_entries
  fixed_entries-eq-ok previous [] [] out h e = sym (ok-injective e)
  fixed_entries-eq-ok previous [] (w ∷ ws) out h e = absurd h
  fixed_entries-eq-ok previous (f ∷ fixed) [] out h e = absurd h
  fixed_entries-eq-ok previous (f ∷ fixed) ((u, ep) ∷ ws) out (hu, he, hs) e =
      let (uid, e0, e1) = >>=-eq-ok (in_frame (parse_uid u)) _ e in
      let (end, e2, e3) = >>=-eq-ok (in_frame (parse_endpoint ep)) _ e1 in
      let (t, e4, e5) = >>=-eq-ok (ensure (follows previous uid.uuid) frame) _ e3 in
      let (rest, e6, e7) =
        >>=-eq-ok (fixed_entries (some uid.uuid) (uids ws) (endpoints ws)) _ e5 in
      let same_uid : uid ≡ f.uid = ok-injective (sym (in_frame-eq-ok _ e0) ∙ hu) in
      let same_end : end ≡ f.endpoint = ok-injective (sym (in_frame-eq-ok _ e2) ∙ he) in
      let same_rest : rest ≡ fixed = fixed_entries-eq-ok (some uid.uuid) fixed ws rest hs e6 in
      sym (ok-injective e7) ∙ cc

other_field :
    (t flags : ℕ) (fl : List Field)
    → FlagField flags fl
    → (flags_tlv == t) ≡ false
    → values t fl ≡ []
unfolding values
other_field t flags fl (inl (e, z)) h = rw e
other_field t flags fl (inr (v, e, d)) h = rw e (rw h)

values-uids :
    (flags : ℕ) (ws : List Entry) (fl : List Field)
    → FlagField flags fl
    → values node_uid_tlv (entry_fields ws ++ fl) ≡ uids ws
unfolding values
values-uids flags [] fl f = other_field node_uid_tlv flags fl f refl
values-uids flags ((u, e) ∷ ws) fl f = ap (λ l. u ∷ l) (values-uids flags ws fl f)

values-endpoints :
    (flags : ℕ) (ws : List Entry) (fl : List Field)
    → FlagField flags fl
    → values wg_endpoint_tlv (entry_fields ws ++ fl) ≡ endpoints ws
unfolding values
values-endpoints flags [] fl f = other_field wg_endpoint_tlv flags fl f refl
values-endpoints flags ((u, e) ∷ ws) fl f = ap (λ l. e ∷ l) (values-endpoints flags ws fl f)

values-ids :
    (flags : ℕ) (ws : List Entry) (fl : List Field)
    → FlagField flags fl
    → values operation_id_tlv (entry_fields ws ++ fl) ≡ []
unfolding values
values-ids flags [] fl f = other_field operation_id_tlv flags fl f refl
values-ids flags ((u, e) ∷ ws) fl f = values-ids flags ws fl f

decode_flags-eq-ok :
    (flags : ℕ) (ws : List Entry) (fl : List Field)
    → FlagField flags fl
    → decode_flags (values flags_tlv (entry_fields ws ++ fl)) ≡ ok flags
unfolding values
decode_flags-eq-ok flags [] fl (inl (e, z)) = rw (e, z) (unfold decode_flags in refl)
decode_flags-eq-ok flags [] fl (inr (v, e, d)) = rw e d
decode_flags-eq-ok flags ((u, e) ∷ ws) fl f = decode_flags-eq-ok flags ws fl f

entries_short :
    (flags : ℕ) (ws : List Entry) (fl : List Field)
    → FlagField flags fl
    → All ShortType (entry_fields ws ++ fl)
entries_short flags [] fl (inl (e, z)) = rw e tt
entries_short flags [] fl (inr (v, e, d)) = rw e (omega arith, tt)
entries_short flags ((u, e) ∷ ws) fl f = (omega arith, (omega arith, entries_short flags ws fl f))

-- The records of a proposal with one or two entries are all kept.
propose_kept :
    (id : Bytes) (flags : ℕ) (ws : List Entry) (fl : List Field)
    → FlagField flags fl
    → 1 ≤ length ws
    → length ws ≤ 2
    → over (collect durable_propose) 0 ((operation_id_tlv, id) ∷ (entry_fields ws ++ fl)) []
      ≡ (operation_id_tlv, id) ∷ (entry_fields ws ++ fl)
unfolding over collect values
propose_kept id flags [] fl f h k = absurd (omega arith)
propose_kept id flags ((u, e) ∷ []) fl (inl (p, z)) h k = rw p
propose_kept id flags ((u, e) ∷ []) fl (inr (v, p, d)) h k = rw p
propose_kept id flags ((u, e) ∷ (u', e') ∷ []) fl (inl (p, z)) h k = rw p
propose_kept id flags ((u, e) ∷ (u', e') ∷ []) fl (inr (v, p, d)) h k = rw p
propose_kept id flags (w ∷ w' ∷ w'' ∷ ws) fl f h k = absurd (omega arith)

append_flags-eq-ok :
    (flags : ℕ) (rs : List Field) (b : Bytes)
    → flags < 2 ^ 32
    → (if flags == 0
        then ok (body_of rs)
        else ok (append (body_of rs) flags_tlv (be_bytes 4 flags)))
      ≡ ok b
    → (fl : List Field) × (b ≡ body_of (rs ++ fl)) × FlagField flags fl
append_flags-eq-ok flags rs b h e = elim (Bool-cases (flags == 0)) [
  | inl z ↦ ([], rw append-nil (sym (ok-injective (rw z at e))), inl (refl, (==_iff flags 0).0 z))
  | inr nz ↦ (
    (flags_tlv, be_bytes 4 flags) ∷ [],
    sym (ok-injective (rw nz at e)) ∙ append-body_of rs flags_tlv (be_bytes 4 flags),
    inr (
      be_bytes 4 flags,
      refl,
      unfold decode_flags in rw (length-be_bytes, be_value-be_bytes 4 flags h),
    ),
  )
]

module _ ⦃lib : UuidLib⦄ (m : Message) (wf : IsMessage m) where
  length-Parses :
      (fixed : List FixedEndpoint) (ws : List Entry) → Parses fixed ws → length ws ≡ length fixed
  length-Parses [] [] h = refl
  length-Parses [] (w ∷ ws) h = absurd h
  length-Parses (f ∷ fixed) [] h = absurd h
  length-Parses (f ∷ fixed) ((u, e) ∷ ws) (a, b, h) = omega (arith, length-Parses fixed ws h)

  propose_fields :
      (ws : List Entry) (fl : List Field) (r : Message)
      → Parses m.fixed_endpoints ws
      → FlagField m.flags fl
      → decode_durable_fields durable_propose
          ((operation_id_tlv, m.operation_id) ∷ (entry_fields ws ++ fl))
          (record (blank durable_propose) { operation_id = m.operation_id })
        ≡ ok r
      → r ≡ sent_as durable_propose m
  unfolding decode_durable_fields sent_as values
  propose_fields ws fl r parsed f e =
      let us = values node_uid_tlv (entry_fields ws ++ fl) in
      let es = values wg_endpoint_tlv (entry_fields ws ++ fl) in
      let (t, e0, e1) =
        >>=-eq-ok (ensure (not (length us == 0) && length us == length es) frame) _ e in
      let (fixed, e2, e3) =
        >>=-eq-ok
          (fixed_entries none (values node_uid_tlv (entry_fields ws ++ fl))
            (values wg_endpoint_tlv (entry_fields ws ++ fl)))
          _ e1 in
      let (flags, e4, e5) =
        >>=-eq-ok (decode_flags (values flags_tlv (entry_fields ws ++ fl))) _ e3 in
      let read_fixed : fixed ≡ m.fixed_endpoints =
        fixed_entries-eq-ok none m.fixed_endpoints ws fixed parsed (
          subst₂ (λ x y. fixed_entries none x y ≡ ok fixed) (values-uids m.flags ws fl f)
            (values-endpoints m.flags ws fl f) e2) in
      let read_flags : flags ≡ m.flags =
        ok-injective (sym e4 ∙ decode_flags-eq-ok m.flags ws fl f) in
      sym (ok-injective e5)
      ∙ ap₂ (λ x y. record (sent_as durable_propose m) { fixed_endpoints = x; flags = y })
          read_fixed read_flags

  pub durable_propose-Carries :
      durable_propose ≡ m.kind
      → (body : Bytes) → encode_durable m ≡ ok body
      → length body < 2 ^ 16
      → decode_body durable_propose body ≡ ok (sent_as durable_propose m)
  unfolding append_durable
  durable_propose-Carries ek body e hn =
      let id : List Field = (operation_id_tlv, m.operation_id) ∷ [] in
      let count : Bool = leb 1 (length m.fixed_endpoints) && leb (length m.fixed_endpoints) 2 in
      let (t, e0, e1) =
        >>=-eq-ok (ensure count frame) _ (written_body m wf durable_propose body ek e) in
      let (b, e2, e3) =
        >>=-eq-ok (append_fixed (append [] operation_id_tlv m.operation_id) m.fixed_endpoints) _
          e1 in
      let (ws, shape, parsed) = append_fixed-eq-ok m.fixed_endpoints id b wf.fixed_endpoints (
        subst (λ x. append_fixed x m.fixed_endpoints ≡ ok b)
          (one_field operation_id_tlv m.operation_id) e2) in
      let (fl, shape', f) = append_flags-eq-ok m.flags (id ++ entry_fields ws) body wf.flags (
        subst
          (λ x.
            (if m.flags == 0 then ok x else ok (append x flags_tlv (be_bytes 4 m.flags))) ≡ ok body)
          shape e3) in
      let len = length-Parses m.fixed_endpoints ws parsed in
      let counted : (1 ≤ length m.fixed_endpoints) × (length m.fixed_endpoints ≤ 2) =
        ground arith in
      durable-Carries m wf durable_propose body (unfold decode_body is_durable type_code in refl) ek
        e
        (λ r d. propose_fields ws fl r parsed f (
          decoded_one durable_propose m.operation_id (id ++ (entry_fields ws ++ fl)) _ r
            (omega arith, entries_short m.flags ws fl f) (subst (λ x. length x < 2 ^ 16) shape' hn)
            (propose_kept m.operation_id m.flags ws fl f (omega (arith, len, counted.0))
              (omega (arith, len, counted.1)))
            (unfold values in ap (λ l. m.operation_id ∷ l) (values-ids m.flags ws fl f))
            (subst (λ x. decode_durable durable_propose x ≡ ok r) shape' d)))
