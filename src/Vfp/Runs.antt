-- ===== src/Vfp/Runs.antt =====
-- Runs of the codec at concrete messages.
use velvet_fabric.Base.{
  false, ◌++◌, ◌≤◌, ◌≡◌, refl, ◌==◌, if◌then◌else◌, Option, none, some, [], ◌∷◌, length, ok, arith,
}
use velvet_fabric.Base.Bytes.{Bytes, be_bytes, be_value, all_zero}
use velvet_fabric.Net.{v4, as4, addr_from4}
use velvet_fabric.Vfp.Kinds.{link_accept, link_pong, type_code}
use velvet_fabric.Vfp.Values.{UuidLib, valid_address, encode_endpoint, parse_endpoint}
use velvet_fabric.Vfp.Message.{Message, blank, zeros}
use velvet_fabric.Vfp.Control.{Control, probe_report, encode_control, decode_control}
use velvet_fabric.Vfp.Control.RoundTrip.{IsControl, decode_control-encode_control}
use velvet_fabric.Vfp.Decode.{decode}
use velvet_fabric.Vfp.Encode.{encode, write_tcp}
use velvet_fabric.Vfp.Stream.{read_frame, read_frame-write_tcp}
use velvet_fabric.Vfp.RoundTrip.Frame.{IsMessage, sent_as}
use velvet_fabric.Vfp.RoundTrip.{decode-encode, length-encode}

abbrev from_16 : Bytes → Option Bytes
from_16 raw = if length raw == 16 then some raw else none

from_16_lem : (raw : Bytes) → length raw ≡ 16 → from_16 raw ≡ some raw
from_16_lem raw h = ground arith

abbrev plain_uuid : UuidLib
plain_uuid = record { from_bytes = from_16; from_bytes_16 = from_16_lem }

abbrev pong : Message
pong = record (blank link_pong) {
  operation_id = 7 ∷ zeros 15;
  endpoint = record { addr = v4 3221225985; port = 51820 };
}

pong-IsMessage : IsMessage pong
unfolding valid_address
pong-IsMessage = record {
  operation_id = refl;
  agreement_id = refl;
  probe_key = refl;
  wg_public_key = refl;
  uid = tt;
  policy = tt;
  endpoint = (omega arith, omega arith);
  loopback_v6 = (tt, refl);
  link_prefix_v4 = tt;
  link_prefix_v6 = tt;
  fixed_endpoints = tt;
  flags = omega arith;
  status = omega arith;
  decline_reason = omega arith;
}

abbrev wire_address : Bytes
wire_address = 0 ∷ 1 ∷ 202 ∷ 108 ∷ 192 ∷ 0 ∷ 2 ∷ 1 ∷ []

abbrev pong_frame : Bytes
pong_frame =
    86
    ∷ 70
    ∷ 80
    ∷ 0
    ∷ 1
    ∷ 14
    ∷ 0
    ∷ 40
    ∷ 0
    ∷ 6
    ∷ 0
    ∷ 16
    ∷ 7
    ∷ (zeros 15 ++ (0 ∷ 8 ∷ 0 ∷ 8 ∷ wire_address))

encode-pong : encode ⦃lib = plain_uuid⦄ pong ≡ ok pong_frame
unfolding encode all_zero encode_endpoint as4 be_bytes type_code
encode-pong = refl

decode-encode_example : decode ⦃lib = plain_uuid⦄ pong_frame ≡ ok (sent_as link_pong pong)
decode-encode_example = decode-encode ⦃lib = plain_uuid⦄ pong pong_frame pong-IsMessage encode-pong

length-encode_example : (8 ≤ length pong_frame) × (length pong_frame ≤ 4096)
length-encode_example = length-encode ⦃lib = plain_uuid⦄ pong pong_frame pong-IsMessage encode-pong

abbrev report : Control
report = record {
  code = probe_report;
  round = 1;
  sequence = 5;
  changed = false;
  key = zeros 32;
  endpoints = pong.endpoint ∷ [];
}

report-IsControl : IsControl report
report-IsControl = (omega arith, omega arith, omega arith, refl, ((omega arith, omega arith), tt))

abbrev report_bytes : Bytes
report_bytes = (probe_report ∷ 0 ∷ 1 ∷ zeros 7) ++ (5 ∷ 0 ∷ (zeros 32 ++ (1 ∷ 8 ∷ wire_address)))

encode-report : encode_control report ≡ ok report_bytes
unfolding encode_control encode_endpoint as4 be_bytes parse_endpoint be_value addr_from4 all_zero
encode-report = refl

decode_control-encode_control_example : decode_control report_bytes ≡ ok report
decode_control-encode_control_example =
    decode_control-encode_control report report_bytes report-IsControl encode-report

abbrev accept_frame : Bytes
accept_frame = 86 ∷ 70 ∷ 80 ∷ 0 ∷ 1 ∷ 4 ∷ 0 ∷ 8 ∷ []

write_tcp-accept : write_tcp ⦃lib = plain_uuid⦄ (blank link_accept) ≡ ok accept_frame
unfolding write_tcp encode be_bytes type_code
write_tcp-accept = refl

read_frame-write_tcp_example :
    read_frame (accept_frame ++ pong_frame) ≡ ok (accept_frame, pong_frame)
read_frame-write_tcp_example =
    read_frame-write_tcp ⦃lib = plain_uuid⦄ (blank link_accept) accept_frame pong_frame
      write_tcp-accept
