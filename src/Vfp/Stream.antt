-- ===== src/Vfp/Stream.antt =====
-- message.go: Read, which cuts frames out of a TCP stream. The stream is what it holds up to its end or
-- its failure.
use velvet_fabric.Base.{
  ℕ, ◌%◌, not, true, le→leb, ◌+◌, ◌-◌, ◌≤◌, ◌≡◌, refl, ◌∷◌, ◌++◌, append_assoc, arith, leb, length,
  take, drop, take-append_of_length, drop-append_of_length, length-append, connection, Result, ok,
  err, ◌>>=◌, ◌>>◌, ensure, >>=-eq-ok, frame,
}
use velvet_fabric.Base.Bytes.{Bytes, be_value, be_bytes, be_value-be_bytes}
use velvet_fabric.Vfp.Kinds.{Kind, type_code}
use velvet_fabric.Vfp.Values.{UuidLib}
use velvet_fabric.Vfp.Message.{Message}
use velvet_fabric.Vfp.Decode.{magic, version, header_length, frame_length}
use velvet_fabric.Vfp.Encode.{seal_frame, encode_body, encode, over_udp, write_tcp}

-- fmt.Errorf("%w: %v", ErrConnection, err)
abbrev pub in_connection : Result ℕ → Result ℕ
in_connection (ok n) = ok n
in_connection (err e) = err connection

-- Read: the frame, and what is left of the stream.
unfoldable pub read_frame : Bytes → Result (Bytes × Bytes)
unfolding frame_length
read_frame stream = do
  ensure (leb header_length (length stream)) connection
  len ← in_connection (frame_length (take header_length stream))
  let rest = drop header_length stream
  ensure (leb (len - header_length) (length rest)) connection
  ok (take header_length stream ++ take (len - header_length) rest, drop (len - header_length) rest)

abbrev header_of : Kind → ℕ → Bytes
header_of k len = be_bytes 4 magic ++ (version ∷ (type_code k % 256 ∷ be_bytes 2 len))

length-header_of : (k : Kind) (len : ℕ) → length (header_of k len) ≡ 8
unfolding be_bytes
length-header_of k len = refl

frame_length-header_of :
    (k : Kind) (len : ℕ) → 8 ≤ len → len ≤ 4096 → frame_length (header_of k len) ≡ ok len
unfolding frame_length be_bytes be_value
frame_length-header_of k len lo hi = ground (arith, be_value-be_bytes 2 len)

seal_frame_inv :
    (k : Kind) (body b : Bytes)
    → seal_frame k body ≡ ok b
    → (b ≡ header_of k (8 + length body) ++ body) × (8 + length body ≤ 4096)
unfolding seal_frame
seal_frame_inv k body b e = (ground arith, ground arith)

read_frame-header_of :
    (k : Kind) (body more : Bytes)
    → 8 + length body ≤ 4096
    → read_frame (header_of k (8 + length body) ++ (body ++ more))
      ≡ ok (header_of k (8 + length body) ++ body, more)
unfolding read_frame
read_frame-header_of k body more h =
    let head = header_of k (8 + length body) in
    let long : leb 8 (length (head ++ (body ++ more))) ≡ true =
      le→leb _ _
        (omega (arith, length-append head (body ++ more), length-header_of k (8 + length body))) in
    let whole : leb (8 + length body - 8) (length (body ++ more)) ≡ true =
      le→leb _ _ (omega (arith, length-append body more)) in
    let exact : 8 + length body - 8 ≡ length body = omega arith in
    rw long (
      rw
        (
          take-append_of_length 8 head (body ++ more) (length-header_of k _),
          drop-append_of_length 8 head (body ++ more) (length-header_of k _),
          frame_length-header_of k (8 + length body) (omega arith) h,
        )
        (rw whole (
          rw
            (
              exact,
              take-append_of_length (length body) body more refl,
              drop-append_of_length (length body) body more refl,
            )
            refl)))

read_frame-seal_frame :
    (k : Kind) (body b more : Bytes)
    → seal_frame k body ≡ ok b
    → read_frame (b ++ more) ≡ ok (b, more)
read_frame-seal_frame k body b more e =
    let (shape, small) = seal_frame_inv k body b e in
    rw (shape, append_assoc) (read_frame-header_of k body more small)

-- When Write puts a message on a stream, Read at that place of the stream returns exactly the frame
-- that was written and leaves whatever follows it.
pub read_frame-write_tcp :
    ⦃lib : UuidLib⦄ (m : Message) (b more : Bytes)
    → write_tcp m ≡ ok b
    → read_frame (b ++ more) ≡ ok (b, more)
unfolding write_tcp encode
read_frame-write_tcp m b more e =
    let (t, over_tcp, e') = >>=-eq-ok (ensure (not (over_udp m.kind)) frame) (λ t. encode m) e in
    let (body, written, sealed) =
      >>=-eq-ok (encode_body m.kind m) (λ body. seal_frame m.kind body) e' in
    read_frame-seal_frame m.kind body b more sealed
