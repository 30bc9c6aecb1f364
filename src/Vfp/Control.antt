-- ===== src/Vfp/Control.antt =====
-- internal/vfp/message/control.go: the payload of a DISCOVERY_CONTROL message.
pub mod RoundTrip
use velvet_fabric.Base.{
  ℕ, zero, suc, ◌+◌, ◌-◌, ◌*◌, ◌/◌, ◌%◌, ◌^◌, ◌≤◌, ◌<◌, ◌≡◌, refl, sym, ap, ◌∙◌, subst, ◌≢◌, ◌↔◌,
  ◌⊎◌, inl, inr, Bool, true, false, not, ◌&&◌, ◌||◌, Option, none, some, List, [], ◌∷◌, ◌++◌,
  append_assoc, append-nil, arith, ltb, leb, ◌==◌, if◌then◌else◌, Bool-cases, ltb→lt, lt→ltb,
  leb→le, ==_iff, ==_refl, length, take, drop, All, length-append, take-append, drop-append,
  take-append_of_length, drop-append_of_length, length-take, length-drop, All-append, All-drop,
  All-take, Error, frame, connection, plain, panicked, stuck, Result, ok, err, ◌>>=◌, ◌>>◌, ensure,
  in_frame, >>=-eq-ok, in_frame-eq-ok,
}
use velvet_fabric.Base.Bytes.{
  Bytes, IsByte, slice, byte_at, be_value, be_bytes, bytes_eq, bytes_lt, all_zero, length-be_bytes,
  be_bytes-IsByte, be_value-be_bytes, bytes_eq_iff, bytes_lt_irrefl,
}
use velvet_fabric.Net.{
  Addr, none_addr, v4, v6, AddrPort, Prefix, none_prefix, prefix, no_addr_port, IsAddr,
  addr_is_valid, is4, is6, is4_in6, is_unspecified, is_multicast, is_link_local_unicast,
  is_broadcast, as4, as16, addr_from4, addr_from16, addr_eq, addr_port_eq, addr_port_is_valid,
  bit_len, prefix_from, prefix_is_valid, prefix_addr, mask_addr, masked, prefix_eq, contains,
  next_addr,
}
use velvet_fabric.Vfp.Values.{parse_endpoint, encode_endpoint}

-- ControlCode; any other octet is no code.
abbrev pub candidates : ℕ
candidates = 1

abbrev pub probe_report : ℕ
probe_report = 2

abbrev pub round_done : ℕ
round_done = 3

abbrev pub wg_ready : ℕ
wg_ready = 4

abbrev pub discovery_end : ℕ
discovery_end = 5

abbrev pub observe_open : ℕ
observe_open = 6

abbrev pub observe_ready : ℕ
observe_ready = 7

pub record Control : Type 0 where
  pub code : ℕ
  pub round : ℕ
  pub sequence : ℕ
  pub changed : Bool
  pub key : Bytes
  pub endpoints : List AddrPort

-- The loop over the declared count; it returns what is left of the input too.
unfoldable pub read_endpoints : ℕ → Bytes → Result (List AddrPort × Bytes)
read_endpoints zero b = ok ([], b)
read_endpoints (suc count) [] = err frame
read_endpoints (suc count) (n ∷ b) =
    let rest = read_endpoints count (drop n b) in
    do
      ensure (leb n (length b)) frame
      ep ← parse_endpoint (take n b)
      (eps, left) ← rest
      ok (ep ∷ eps, left)

-- The conditions of each code.
unfoldable pub valid_control : Control → ℕ → Bool
valid_control c count =
    let key_zero = all_zero c.key in
    let round_in = leb 1 c.round && leb c.round 16 in
    let idle = c.round == 0 && c.sequence == 0 && not c.changed in
    if c.code == candidates
    then round_in && c.sequence == 0 && key_zero
    else if c.code == probe_report
    then leb c.round 16
      && ltb 0 c.sequence
      && leb c.sequence 12000
      && count == 1
      && not c.changed
      && key_zero
    else if c.code == round_done
    then round_in && c.sequence == 0 && (count == 0 || count == 2) && not c.changed && key_zero
    else if c.code == wg_ready || c.code == discovery_end
    then idle && count == 0 && key_zero
    else if c.code == observe_open
    then idle && count == 1 && key_zero
    else if c.code == observe_ready
    then idle && leb 1 count && leb count 2 && not key_zero
    else false

unfoldable pub decode_control : Bytes → Result Control
unfolding read_endpoints valid_control
decode_control b = do
  ensure (leb 45 (length b) && leb (byte_at b 11) 1 && leb (byte_at b 44) 32) frame
  (eps, left) ← read_endpoints (byte_at b 44) (drop 45 b)
  ensure (length left == 0) frame
  let c : Control = record {
    code = byte_at b 0;
    round = be_value (slice b 1 3);
    sequence = be_value (slice b 3 11);
    changed = byte_at b 11 == 1;
    key = slice b 12 44;
    endpoints = eps;
  }
  ensure (valid_control c (byte_at b 44)) frame
  ok c

unfoldable pub write_endpoints : List AddrPort → Result Bytes
write_endpoints [] = ok []
write_endpoints (ep ∷ eps) =
    let rest = write_endpoints eps in
    do v ← encode_endpoint ep; more ← rest; ok ((length v % 256) ∷ (v ++ more))

-- The fixed part of the payload: 45 octets.
unfoldable pub control_head : Control → Bytes
control_head c =
    ((c.code % 256) ∷ be_bytes 2 c.round)
    ++ (be_bytes 8 c.sequence
        ++ ((if c.changed then 1 else 0) ∷ (c.key ++ ((length c.endpoints % 256) ∷ []))))

-- Encode decodes its own result before it returns it.
unfoldable pub encode_control : Control → Result Bytes
unfolding write_endpoints control_head decode_control
encode_control c = do
  ensure (leb (length c.endpoints) 32) frame
  eps ← write_endpoints c.endpoints
  let b = control_head c ++ eps
  checked ← decode_control b
  ok b
