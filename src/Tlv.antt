-- ===== src/Tlv.antt =====
-- internal/tlv/tlv.go: type-length-value records, and the cursor that reads them.
pub mod Runs
pub mod Scan
pub mod RoundTrip
use velvet_fabric.Base.{
  ℕ, zero, suc, ◌+◌, ◌-◌, Option, none, some, ◌++◌, ltb, ◌==◌, if◌then◌else◌, length, Result, ok,
  err, frame, stuck,
}
use velvet_fabric.Base.Bytes.{Bytes, be_bytes, be_value, slice}

pub record View : Type 0 where
  pub type_code : ℕ
  pub offset : ℕ
  pub value : Bytes

pub record Cursor : Type 0 where
  pub body : Bytes
  pub off : ℕ

abbrev pub new_cursor : Bytes → Cursor
new_cursor body = record { body = body; off = 0 }

-- The view of the record at the cursor, once its header is known to be there.
unfoldable pub next_at : Cursor → ℕ → ℕ → Result (Option View × Cursor)
next_at c type_code len =
    if ltb (length c.body - (c.off + 4)) len
    then err frame
    else ok (
      some (record {
        type_code = type_code;
        offset = c.off;
        value = slice c.body (c.off + 4) (c.off + 4 + len);
      }),
      record c { off = c.off + 4 + len },
    )

-- Next: `none` at the end of the body. ErrMalformed is reported under ErrFrame by every caller.
unfoldable pub next : Cursor → Result (Option View × Cursor)
unfolding next_at
next c =
    if c.off == length c.body
    then ok (none, c)
    else if ltb (length c.body - c.off) 4
    then err frame
    else next_at c (be_value (slice c.body c.off (c.off + 2)))
        (be_value (slice c.body (c.off + 2) (c.off + 4)))

-- The header fields are cut to 16 bits.
unfoldable pub append : Bytes → ℕ → Bytes → Bytes
append dst type_code value = dst ++ (be_bytes 2 type_code ++ (be_bytes 2 (length value) ++ value))

-- The decoders' loop `for { view, ok, err := cursor.Next() … }`, with `f` as its body. Each round
-- moves the cursor by four bytes at least.
unfoldable pub each {ℓ} : {S : Type ℓ} → ℕ → (View → S → S) → Cursor → S → Result S
each zero f c s = err stuck
each (suc fuel) f c s = elim (next c) [
  | err e ↦ err e
  | ok (none, c') ↦ ok s
  | ok (some view, c') ↦ each fuel f c' (f view s)
]

unfoldable pub each_in {ℓ} : {S : Type ℓ} → (View → S → S) → Bytes → S → Result S
unfolding each
each_in f body s = each (length body + 1) f (new_cursor body) s
