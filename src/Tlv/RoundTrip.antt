-- ===== src/Tlv/RoundTrip.antt =====
-- The decoders' loop on a body that `append` wrote.
use velvet_fabric.Base.{
  ℕ, zero, suc, ◌+◌, ◌-◌, ◌^◌, ◌≤◌, ◌<◌, ◌≡◌, refl, ap, ◌∙◌, true, some, List, [], ◌∷◌, ◌++◌,
  append_assoc, append-nil, arith, ◌==◌, ==_refl, length, drop, All, length-append, take-append, ok,
}
use velvet_fabric.Base.Bytes.{Bytes, slice, be_value, be_bytes, be_value-be_bytes}
use velvet_fabric.Tlv.{View, Cursor, next, each, each_in, append}

-- A record as it is written: its type and its value.
abbrev pub Field : Type 0
Field = ℕ × Bytes

-- What the sixteen-bit header fields can hold.
abbrev pub Fits : Field → Type 0
Fits (t, v) = (t < 2 ^ 16) × (length v < 2 ^ 16)

-- The records of a body, one `append` after the other.
unfoldable pub body_of : List Field → Bytes
body_of [] = []
body_of ((t, v) ∷ rs) = be_bytes 2 t ++ (be_bytes 2 (length v) ++ (v ++ body_of rs))

abbrev pub view_at : ℕ → Field → View
view_at off (t, v) = record { type_code = t; offset = off; value = v }

-- The body of the loop, run over the records themselves.
unfoldable pub over {ℓ} : {S : Type ℓ} → (View → S → S) → ℕ → List Field → S → S
over f off [] s = s
over f off ((t, v) ∷ rs) s = over f (off + 4 + length v) rs (f (view_at off (t, v)) s)

drop-append_add {ℓ} :
    {A : Type ℓ} (pre x : List A) (i : ℕ) → drop (length pre + i) (pre ++ x) ≡ drop i x
drop-append_add [] x i = ap (λ k. drop k x) (omega arith)
drop-append_add (b ∷ pre) x i =
    let e : length (b ∷ pre) + i ≡ suc (length pre + i) = omega arith in
    rw e (drop-append_add pre x i)

-- A slice behind `pre` is a slice of what follows it.
slice-append :
    (pre x : Bytes) (i j : ℕ) → slice (pre ++ x) (length pre + i) (length pre + j) ≡ slice x i j
slice-append pre x i j =
    let e : length pre + j - (length pre + i) ≡ j - i = omega arith in
    rw (e, drop-append_add pre x i) refl

abbrev header : ℕ → Bytes → Bytes → Bytes
header t v rest = be_bytes 2 t ++ (be_bytes 2 (length v) ++ (v ++ rest))

header_type : (t : ℕ) (v rest : Bytes) → t < 2 ^ 16 → be_value (slice (header t v rest) 0 2) ≡ t
unfolding be_bytes be_value
header_type t v rest h = be_value-be_bytes 2 t h

header_length :
    (t : ℕ) (v rest : Bytes) → length v < 2 ^ 16 → be_value (slice (header t v rest) 2 4) ≡ length v
unfolding be_bytes be_value
header_length t v rest h = be_value-be_bytes 2 (length v) h

header_value : (t : ℕ) (v rest : Bytes) → slice (header t v rest) 4 (4 + length v) ≡ v
unfolding be_bytes
header_value t v rest =
    let e : 4 + length v - 4 ≡ length v = omega arith in rw e (take-append v rest)

length-header : (t : ℕ) (v rest : Bytes) → length (header t v rest) ≡ 4 + length v + length rest
unfolding be_bytes
length-header t v rest = omega (arith, length-append v rest)

next_lem :
    (c : Cursor) (t : ℕ) (v : Bytes)
    → c.off + 4 + length v ≤ length c.body
    → be_value (slice c.body c.off (c.off + 2)) ≡ t
    → be_value (slice c.body (c.off + 2) (c.off + 4)) ≡ length v
    → slice c.body (c.off + 4) (c.off + 4 + length v) ≡ v
    → next c ≡ ok (some (view_at c.off (t, v)), record c { off = c.off + 4 + length v })
unfolding next
next_lem c t v h e1 e2 e3 = ground arith

abbrev at : Bytes → Bytes → Cursor
at pre x = record { body = pre ++ x; off = length pre }

-- `next` reads the record that is written at the cursor.
next-header :
    (pre : Bytes) (t : ℕ) (v rest : Bytes)
    → Fits (t, v)
    → next (at pre (header t v rest))
      ≡ ok (
        some (view_at (length pre) (t, v)),
        record { body = pre ++ header t v rest; off = length pre + 4 + length v },
      )
next-header pre t v rest (ht, hv) =
    let x = header t v rest in
    let zero_off : length pre ≡ length pre + 0 = omega arith in
    next_lem (at pre x) t v (omega (arith, length-append pre x, length-header t v rest))
      (ap be_value (ap (λ k. slice (pre ++ x) k (length pre + 2)) zero_off ∙ slice-append pre x 0 2)
        ∙ header_type t v rest ht)
      (ap be_value (slice-append pre x 2 4) ∙ header_length t v rest hv)
      (ap (λ k. slice (pre ++ x) (length pre + 4) k) (omega arith)
        ∙ slice-append pre x 4 (4 + length v)
        ∙ header_value t v rest)

-- The loop goes on behind the record that it read.
each-header {ℓ} :
    {S : Type ℓ} (fuel : ℕ) (f : View → S → S) (pre : Bytes) (t : ℕ) (v rest : Bytes) (s : S)
    → Fits (t, v)
    → each (suc fuel) f (at pre (header t v rest)) s
      ≡ each fuel f (at (pre ++ header t v []) rest) (f (view_at (length pre) (t, v)) s)
unfolding each
each-header fuel f pre t v rest s h =
    rw (next-header pre t v rest h, each)
      (ap (λ c. each fuel f c (f (view_at (length pre) (t, v)) s))
        (λ i. record { body = same i; off = there i }))
  where
    same : pre ++ header t v rest ≡ (pre ++ header t v []) ++ rest
    same = simp (append_assoc, append-nil)

    there : length pre + 4 + length v ≡ length (pre ++ header t v [])
    there = omega (arith, length-append pre (header t v []), length-header t v [])

each-end {ℓ} :
    {S : Type ℓ} (fuel : ℕ) (f : View → S → S) (pre : Bytes) (s : S)
    → each (suc fuel) f (at pre []) s ≡ ok s
unfolding each next
each-end fuel f pre s =
    let e : (length pre == length (pre ++ [])) ≡ true = rw append-nil (==_refl (length pre)) in
    rw (e, next, each)

each-body_of {ℓ} :
    {S : Type ℓ} (fuel : ℕ) (f : View → S → S) (pre : Bytes) (rs : List Field) (s : S)
    → length rs < fuel
    → All Fits rs
    → each fuel f (at pre (body_of rs)) s ≡ ok (over f (length pre) rs s)
unfolding body_of over
each-body_of zero f pre rs s hf h = absurd (omega arith)
each-body_of (suc fuel) f pre [] s hf h = each-end fuel f pre s
each-body_of (suc fuel) f pre ((t, v) ∷ rs) s hf (h, hs) =
    each-header fuel f pre t v (body_of rs) s h
    ∙ each-body_of fuel f (pre ++ header t v []) rs (f (view_at (length pre) (t, v)) s)
        (omega arith) hs
    ∙ ap (λ k. ok (over f k rs (f (view_at (length pre) (t, v)) s)))
        (omega (arith, length-append pre (header t v []), length-header t v []))

pub length-body_of : (rs : List Field) → length rs ≤ length (body_of rs)
unfolding body_of
length-body_of [] = omega arith
length-body_of ((t, v) ∷ rs) = omega (arith, length-header t v (body_of rs), length-body_of rs)

-- The decoders' loop over the records of a written body is a loop over the records.
pub each_in-body_of {ℓ} :
    {S : Type ℓ} (f : View → S → S) (rs : List Field) (s : S)
    → All Fits rs
    → each_in f (body_of rs) s ≡ ok (over f 0 rs s)
unfolding each_in
each_in-body_of f rs s h = each-body_of _ f [] rs s (omega (arith, length-body_of rs)) h

-- A body that is written record by record.
pub append-body_of :
    (rs : List Field) (t : ℕ) (v : Bytes) → append (body_of rs) t v ≡ body_of (rs ++ ((t, v) ∷ []))
unfolding append body_of
append-body_of [] t v = simp append-nil
append-body_of ((t', v') ∷ rs) t v =
    simp append_assoc (ap (λ b. header t' v' b) (append-body_of rs t v))
