-- ===== src/Link/Inside.antt =====
-- A derived Link prefix lies inside its pool.
use native.Mathlib.Nat.{
  pow-suc, div-div-eq-div-mul, mul-add-div_right, div-eq_of_lt, mod-lt, one-le-pow, mul-div_cancel,
}
use velvet_fabric.Base.{
  ℕ, zero, suc, ◌+◌, ◌-◌, ◌*◌, ◌/◌, ◌%◌, ◌^◌, ◌≤◌, ◌<◌, ◌≡◌, refl, sym, ap, ◌∙◌, true, arith,
  le→leb, ==_refl,
}
use velvet_fabric.Base.Bytes.{Bytes}
use velvet_fabric.Net.{none_addr, v4, v6, Prefix, none_prefix, prefix, addr_eq, contains}
use velvet_fabric.Engine.State.{within_prefix}
use velvet_fabric.Link.Derive.{set_bit, bit_of, fill_from, derive_subnet}

two_pow_pos : (k : ℕ) → 0 < 2 ^ k
two_pow_pos k = omega (arith, one-le-pow k 2 (omega arith))

-- Numbers that agree from bit `k` on agree from any higher bit on.
agree_above : (x y k d : ℕ) → x / 2 ^ k ≡ y / 2 ^ k → x / 2 ^ (k + d) ≡ y / 2 ^ (k + d)
agree_above x y k zero e = let same : k + 0 ≡ k = omega arith in rw same e
agree_above x y k (suc d) e =
    let step : k + suc d ≡ suc (k + d) = omega arith in
    let halves : x / 2 ^ (k + d) / 2 ≡ y / 2 ^ (k + d) / 2 =
      ap (λ q. q / 2) (agree_above x y k d e) in
    let left : x / 2 ^ (k + suc d) ≡ x / 2 ^ (k + d) / 2 =
      rw (step, pow-suc 2 (k + d)) (sym (div-div-eq-div-mul x (2 ^ (k + d)) 2)) in
    let right : y / 2 ^ (k + suc d) ≡ y / 2 ^ (k + d) / 2 =
      rw (step, pow-suc 2 (k + d)) (sym (div-div-eq-div-mul y (2 ^ (k + d)) 2)) in
    left ∙ halves ∙ sym right

replace_low : (n w r : ℕ) → r < w → (n / w * w + r) / w ≡ n / w
replace_low n w r h =
    mul-add-div_right {m = w} (omega arith) (n / w) r ∙ omega (arith, div-eq_of_lt h)

-- Setting bit i changes nothing above it.
set_bit-above :
    (width i v n : ℕ)
    → i < width
    → v < 2
    → set_bit width i v n / 2 ^ (width - i) ≡ n / 2 ^ (width - i)
set_bit-above width i v n hi hv =
    let j = width - 1 - i in
    let double : 2 ^ (width - i) ≡ 2 ^ j * 2 = ap (λ k. 2 ^ k) (omega arith) ∙ pow-suc 2 j in
    let low : n % 2 ^ j < 2 ^ j = mod-lt n (two_pow_pos j) in
    let small : v * 2 ^ j + n % 2 ^ j < 2 ^ (width - i) = grind (arith, double, low, hv) in
    let shape : set_bit width i v n
        ≡ n / 2 ^ (width - i) * 2 ^ (width - i) + (v * 2 ^ j + n % 2 ^ j) =
      unfold set_bit in omega arith in
    ap (λ x. x / 2 ^ (width - i)) shape ∙ replace_low n (2 ^ (width - i)) _ small

bit_of-lt : (bytes : Bytes) (i : ℕ) → bit_of bytes i < 2
unfolding bit_of
bit_of-lt bytes i = omega arith

fill_from-above :
    (width : ℕ) (entropy : Bytes) (first i left n : ℕ)
    → first + i + left ≤ width
    → fill_from width entropy first i left n / 2 ^ (width - first) ≡ n / 2 ^ (width - first)
unfolding fill_from
fill_from-above width entropy first i zero n h = refl
fill_from-above width entropy first i (suc left) n h =
    let m = set_bit width (first + i) (bit_of entropy (i % 256)) n in
    let here =
      set_bit-above width (first + i) (bit_of entropy (i % 256)) n (omega arith)
        (bit_of-lt entropy (i % 256)) in
    let raised : m / 2 ^ (width - first) ≡ n / 2 ^ (width - first) =
      let split : width - first ≡ (width - (first + i)) + i = omega arith in
      rw split (agree_above m n (width - (first + i)) i here) in
    fill_from-above width entropy first (i + 1) left m (omega arith) ∙ raised

-- Clearing low bits changes nothing above them.
cleared_above : (n k d : ℕ) → n / 2 ^ k * 2 ^ k / 2 ^ (k + d) ≡ n / 2 ^ (k + d)
cleared_above n k d =
    agree_above (n / 2 ^ k * 2 ^ k) n k d (mul-div_cancel (n / 2 ^ k) (two_pow_pos k))

filled_above :
    (width bits target n : ℕ) (entropy : Bytes)
    → bits ≤ target
    → target ≤ width
    → fill_from width entropy bits 0 (target - bits) n
        / 2 ^ (width - target)
        * 2 ^ (width - target)
        / 2 ^ (width - bits)
      ≡ n / 2 ^ (width - bits)
filled_above width bits target n entropy h k =
    let split : width - bits ≡ (width - target) + (target - bits) = omega arith in
    let m = fill_from width entropy bits 0 (target - bits) n in
    let cleared : m / 2 ^ (width - target) * 2 ^ (width - target) / 2 ^ (width - bits)
        ≡ m / 2 ^ (width - bits) =
      rw split (cleared_above m (width - target) (target - bits)) in
    cleared ∙ fill_from-above width entropy bits 0 (target - bits) n (omega arith)

-- A pool that is shorter than the Link prefixes taken from it.
abbrev pub IsPoolFor : ℕ → Prefix → Type 0
IsPoolFor target none_prefix = Unit
IsPoolFor target (prefix none_addr bits) = ⊥
IsPoolFor target (prefix (v4 n) bits) = (bits ≤ target) × (target ≤ 32)
IsPoolFor target (prefix (v6 n) bits) = (bits ≤ target) × (target ≤ 128)

pub derive_subnet-within :
    (pool : Prefix) (target : ℕ) (entropy : Bytes)
    → IsPoolFor target pool
    → within_prefix (derive_subnet pool target entropy) pool ≡ true
unfolding derive_subnet within_prefix contains addr_eq
derive_subnet-within none_prefix target entropy h = refl
derive_subnet-within (prefix none_addr bits) target entropy h = elim h [ ]
derive_subnet-within (prefix (v4 n) bits) target entropy h =
    let above = filled_above 32 bits target n entropy h.0 h.1 in
    simp (le→leb target 32 h.1, le→leb bits target h.0, above, ==_refl)
derive_subnet-within (prefix (v6 n) bits) target entropy h =
    let above = filled_above 128 bits target n entropy h.0 h.1 in
    simp (le→leb target 128 h.1, le→leb bits target h.0, above, ==_refl)
