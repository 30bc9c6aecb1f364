-- ===== src/Net/Laws.antt =====
-- Equality of addresses decides, and addresses are read back from their bytes.
use velvet_fabric.Base.{ℕ, ◌≡◌, ◌↔◌, ap, true, arith, ◌^◌, ◌<◌}
use velvet_fabric.Base.Bytes.{be_value-be_bytes}
use velvet_fabric.Net.{
  Addr, none_addr, v4, v6, AddrPort, Prefix, none_prefix, prefix, as16, addr_from16, addr_eq,
  addr_port_eq, prefix_eq,
}

pub addr_eq_iff : (a b : Addr) → (addr_eq a b ≡ true) ↔ (a ≡ b)
unfolding addr_eq
addr_eq_iff none_addr none_addr = (λ h. ground arith, λ h. ground arith)
addr_eq_iff none_addr b = (λ h. ground arith, λ h. ground arith)
addr_eq_iff (v4 n) b = (λ h. ground arith, λ h. ground arith)
addr_eq_iff (v6 n) b = (λ h. ground arith, λ h. ground arith)

pub addr_port_eq_iff : (a b : AddrPort) → (addr_port_eq a b ≡ true) ↔ (a ≡ b)
unfolding addr_port_eq
addr_port_eq_iff a b =
    (λ h. ground (arith, addr_eq_iff a.addr b.addr), λ h. ground (arith, addr_eq_iff a.addr b.addr))

pub prefix_eq_iff : (a b : Prefix) → (prefix_eq a b ≡ true) ↔ (a ≡ b)
unfolding prefix_eq
prefix_eq_iff none_prefix none_prefix = (λ h. ground arith, λ h. ground arith)
prefix_eq_iff none_prefix (prefix b n) = (λ h. ground arith, λ h. ground arith)
prefix_eq_iff (prefix a m) none_prefix = (λ h. ground arith, λ h. ground arith)
prefix_eq_iff (prefix a m) (prefix b n) =
    (λ h. ground (arith, addr_eq_iff a b), λ h. ground (arith, addr_eq_iff a b))

pub addr_from16-as16 : (n : ℕ) → n < 2 ^ 128 → addr_from16 (as16 (v6 n)) ≡ v6 n
unfolding addr_from16 as16
addr_from16-as16 n h = ap v6 (be_value-be_bytes 16 n h)
