-- ===== src/Tlv/Scan.antt =====
-- How far the cursor moves, and that the decoders' loop ends.
use velvet_fabric.Base.{
  ℕ, zero, suc, ◌+◌, ◌-◌, ◌≤◌, ◌<◌, ◌≡◌, refl, ◌≢◌, inl, inr, Option, none, some, arith, ltb, ◌==◌,
  Bool-cases, ==_iff, length, drop, length-take, length-drop, frame, stuck, Result, ok, err,
}
use velvet_fabric.Base.Bytes.{Bytes, slice}
use velvet_fabric.Tlv.{View, Cursor, next, next_at, each, each_in}

-- What a call of `next` can do at a cursor inside its body.
pub data Moved (c : Cursor) : Result (Option View × Cursor) → Type 0 where
  at_end : c.off ≡ length c.body → Moved c (ok (none, c))
  malformed : Moved c (err frame)
  record_at :
      (view : View) (c' : Cursor)
      → c'.body ≡ c.body
      → view.offset ≡ c.off
      → c'.off ≡ c.off + 4 + length view.value
      → c'.off ≤ length c.body
      → Moved c (ok (some view, c'))

length-slice : (b : Bytes) (i j : ℕ) → i ≤ j → j ≤ length b → length (slice b i j) ≡ j - i
length-slice b i j h k = length-take (j - i) (drop i b) (omega (arith, length-drop i b))

next_at-Moved : (c : Cursor) (t n : ℕ) → c.off + 4 ≤ length c.body → Moved c (next_at c t n)
unfolding next_at
next_at-Moved c t n h = elim (Bool-cases (ltb (length c.body - (c.off + 4)) n)) [
  | inl e ↦ rw e malformed
  | inr e ↦ rw e (
      record_at _ _ refl refl
        (omega
          (arith, length-slice c.body (c.off + 4) (c.off + 4 + n) (omega arith) (ground arith)))
        (ground arith))
]

-- A successful `next` stays inside the body, and moves past the whole record that it returns.
pub next-Moved : (c : Cursor) → c.off ≤ length c.body → Moved c (next c)
unfolding next
next-Moved c h = elim (Bool-cases (c.off == length c.body)) [
  | inl e ↦ rw e (at_end ((==_iff _ _).0 e))
  | inr e ↦ rw e (elim (Bool-cases (ltb (length c.body - c.off) 4)) [
    | inl e' ↦ rw e' malformed
    | inr e' ↦ rw e' (next_at-Moved c _ _ (ground arith))
  ])
]

each_step {ℓ} :
    {S : Type ℓ} (fuel : ℕ) (f : View → S → S) (c : Cursor) (s : S)
    (r : Result (Option View × Cursor))
    → Moved c r
    → next c ≡ r
    → length c.body < c.off + suc fuel
    → c.off ≤ length c.body
    → ((c' : Cursor) (s' : S)
        → length c'.body < c'.off + fuel
        → c'.off ≤ length c'.body
        → each fuel f c' s' ≢ err stuck)
    → each (suc fuel) f c s ≢ err stuck
unfolding each
each_step fuel f c s r (at_end h) e hf hc rec = rw (e, each) (λ p. cc)
each_step fuel f c s r malformed e hf hc rec = rw (e, each) (λ p. cc)
each_step fuel f c s r (record_at view c' hb ho hn hl) e hf hc rec =
    rw (e, each) (rec c' (f view s) (rw hb (omega arith)) (rw hb hl))

each_ends {ℓ} :
    {S : Type ℓ} (fuel : ℕ) (f : View → S → S) (c : Cursor) (s : S)
    → length c.body < c.off + fuel
    → c.off ≤ length c.body
    → each fuel f c s ≢ err stuck
each_ends zero f c s hf hc = absurd (omega arith)
each_ends (suc fuel) f c s hf hc =
    each_step fuel f c s (next c) (next-Moved c hc) refl hf hc (each_ends fuel f)

-- The loop of the decoders never runs out of its fuel, on any body.
pub each_in-ne-stuck {ℓ} :
    {S : Type ℓ} (f : View → S → S) (body : Bytes) (s : S) → each_in f body s ≢ err stuck
unfolding each_in
each_in-ne-stuck f body s = each_ends _ f _ s (omega arith) (omega arith)
