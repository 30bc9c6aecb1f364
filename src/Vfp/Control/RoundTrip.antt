-- ===== src/Vfp/Control/RoundTrip.antt =====
-- A control payload is read back as it was written.
use velvet_fabric.Base.{
  ℕ, zero, suc, ◌%◌, ◌^◌, ◌≤◌, ◌<◌, ◌≡◌, refl, ◌∙◌, subst, ◌⊎◌, List, [], ◌∷◌, ◌++◌, append_assoc,
  arith, leb, if◌then◌else◌, length, drop, All, length-append, take-append, drop-append,
  take-append_of_length, frame, ok, ensure, >>=-eq-ok, ok-injective,
}
use velvet_fabric.Base.Bytes.{Bytes, slice, byte_at, be_value, be_bytes, be_value-be_bytes}
use velvet_fabric.Net.{AddrPort}
use velvet_fabric.Vfp.Values.{parse_endpoint, encode_endpoint}
use velvet_fabric.Vfp.Values.Laws.{
  IsEndpoint, parse_endpoint-encode_endpoint, length-encode_endpoint,
}
use velvet_fabric.Vfp.Control.{
  Control, read_endpoints, decode_control, write_endpoints, control_head, encode_control,
}

-- What the Go types of the fields hold.
abbrev pub IsControl : Control → Type 0
IsControl c =
    (c.code < 2 ^ 8)
    × (c.round < 2 ^ 16)
    × (c.sequence < 2 ^ 64)
    × (length c.key ≡ 32)
    × All IsEndpoint c.endpoints

read_one :
    (n : ℕ) (v more : Bytes) {ep : AddrPort} {eps : List AddrPort}
    → ((length v ≡ 8) ⊎ (length v ≡ 20))
    → parse_endpoint v ≡ ok ep
    → read_endpoints n more ≡ ok (eps, [])
    → read_endpoints (suc n) ((length v % 256) ∷ (v ++ more)) ≡ ok (ep ∷ eps, [])
unfolding read_endpoints
read_one n v more h p r =
    let e : length v % 256 ≡ length v = omega arith in
    rw (e, take-append, drop-append) (ground (arith, length-append v more))

read-write_endpoints :
    (eps : List AddrPort) (b : Bytes)
    → All IsEndpoint eps
    → write_endpoints eps ≡ ok b
    → read_endpoints (length eps) b ≡ ok (eps, [])
unfolding write_endpoints
read-write_endpoints [] b h e = unfold read_endpoints in ground arith
read-write_endpoints (ep ∷ eps) b (hep, heps) e =
    let (v, ev, e') = >>=-eq-ok (encode_endpoint ep) _ e in
    let (more, em, e'') = >>=-eq-ok (write_endpoints eps) _ e' in
    subst (λ x. read_endpoints (suc (length eps)) x ≡ ok (ep ∷ eps, [])) (ok-injective e'')
      (read_one (length eps) v more (length-encode_endpoint ep v hep ev)
        (parse_endpoint-encode_endpoint ep v hep ev) (read-write_endpoints eps more heps em))

byte_at-append : (n : ℕ) (xs ys : Bytes) (y : ℕ) → length xs ≡ n → byte_at (xs ++ (y ∷ ys)) n ≡ y
byte_at-append zero [] ys y h = refl
byte_at-append zero (x ∷ xs) ys y h = absurd (omega arith)
byte_at-append (suc n) [] ys y h = absurd (omega arith)
byte_at-append (suc n) (x ∷ xs) ys y h = byte_at-append n xs ys y (omega arith)

drop-append_past :
    (n : ℕ) (xs ys : Bytes) (y : ℕ) → length xs ≡ n → drop (suc n) (xs ++ (y ∷ ys)) ≡ ys
drop-append_past zero [] ys y h = refl
drop-append_past zero (x ∷ xs) ys y h = absurd (omega arith)
drop-append_past (suc n) [] ys y h = absurd (omega arith)
drop-append_past (suc n) (x ∷ xs) ys y h = drop-append_past n xs ys y (omega arith)

-- The payload with everything behind the flag octet grouped to the right.
abbrev laid_out : Control → Bytes → Bytes
laid_out c eps =
    (c.code % 256)
    ∷ (be_bytes 2 c.round
        ++ (be_bytes 8 c.sequence
            ++ ((if c.changed then 1 else 0) ∷ (c.key ++ ((length c.endpoints % 256) ∷ eps)))))

control_head-append : (c : Control) (eps : Bytes) → control_head c ++ eps ≡ laid_out c eps
unfolding control_head
control_head-append c eps = simp append_assoc

-- The fields of a payload, at the offsets where the decoder looks for them.
record LaidOut (c : Control) (b eps : Bytes) : Type 0 where
  code : byte_at b 0 ≡ c.code
  round : be_value (slice b 1 3) ≡ c.round
  sequence : be_value (slice b 3 11) ≡ c.sequence
  changed : byte_at b 11 ≡ (if c.changed then 1 else 0)
  key : slice b 12 44 ≡ c.key
  count : byte_at b 44 ≡ length c.endpoints % 256
  rest : drop 45 b ≡ eps
  long : 45 ≤ length b

laid_out-LaidOut : (c : Control) (eps : Bytes) → IsControl c → LaidOut c (laid_out c eps) eps
unfolding be_bytes
laid_out-LaidOut c eps (hc, hr, hs, hk, he) = record {
  code = omega arith;
  round = be_value-be_bytes 2 c.round hr;
  sequence = be_value-be_bytes 8 c.sequence hs;
  changed = refl;
  key = take-append_of_length 32 c.key _ hk;
  count = byte_at-append 32 c.key eps _ hk;
  rest = drop-append_past 32 c.key eps (length c.endpoints % 256) hk;
  long = omega (arith, length-append c.key ((length c.endpoints % 256) ∷ eps));
}

-- A payload that decodes at all decodes to the fields that stand in it.
decoded_lem :
    (c c' : Control) (b eps : Bytes)
    → LaidOut c b eps
    → length c.endpoints ≤ 32
    → read_endpoints (length c.endpoints) eps ≡ ok (c.endpoints, [])
    → decode_control b ≡ ok c'
    → c' ≡ c
unfolding decode_control
decoded_lem c c' b eps l n r e =
    let count : byte_at b 44 ≡ length c.endpoints = l.count ∙ omega arith in
    let read : read_endpoints (byte_at b 44) (drop 45 b) ≡ ok (c.endpoints, []) =
      rw (count, l.rest) r in
    ground (arith, l.code, l.round, l.sequence, l.changed, l.key, read)

-- When Control.Encode returns bytes for a control whose fields fit their Go types, DecodeControl reads
-- back every field and every endpoint.
pub decode_control-encode_control :
    (c : Control) (b : Bytes) → IsControl c → encode_control c ≡ ok b → decode_control b ≡ ok c
unfolding encode_control
decode_control-encode_control c b h e =
    let (u, small, e1) = >>=-eq-ok (ensure (leb (length c.endpoints) 32) frame) _ e in
    let (eps, written, e2) = >>=-eq-ok (write_endpoints c.endpoints) _ e1 in
    let (c', decoded, e3) = >>=-eq-ok (decode_control (control_head c ++ eps)) _ e2 in
    let laid : LaidOut c (control_head c ++ eps) eps =
      rw control_head-append (laid_out-LaidOut c eps h) in
    let same : c' ≡ c =
      decoded_lem c c' (control_head c ++ eps) eps laid (ground arith)
        (read-write_endpoints c.endpoints eps h.4 written) decoded in
    subst (λ x. decode_control x ≡ ok c) (ok-injective e3) (rw same at decoded)
