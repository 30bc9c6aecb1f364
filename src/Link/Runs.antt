-- ===== src/Link/Runs.antt =====
-- Runs of the address assignment.
use velvet_fabric.Base.{◌+◌, ◌*◌, ◌^◌, ◌≡◌, refl, some, [], ◌∷◌, arith, length}
use velvet_fabric.Base.Bytes.{Bytes, be_value, be_bytes, length-be_bytes}
use velvet_fabric.Net.{v4, v6, Prefix, prefix, none_prefix}
use velvet_fabric.Engine.State.{Proposal}
use velvet_fabric.Link.{endpoint_addresses}
use velvet_fabric.Link.Derive.{Crypto, derive_proposal, derive_wg_link_psk}
use velvet_fabric.Link.Agreed.{IsFrom, derive_proposal-swap, derive_proposal-within}
use velvet_fabric.Link.Mirror.{addresses, endpoint_addresses-mirror}

abbrev proposal : Proposal
proposal = record { v4 = prefix (v4 167772164) 30; v6 = none_prefix }

endpoint_addresses-mirror_example :
    addresses (endpoint_addresses proposal (1 ∷ 2 ∷ []) (1 ∷ 3 ∷ [])).0
    ≡ (endpoint_addresses proposal (1 ∷ 3 ∷ []) (1 ∷ 2 ∷ [])).1
endpoint_addresses-mirror_example =
    endpoint_addresses-mirror proposal (1 ∷ 2 ∷ []) (1 ∷ 3 ∷ []) (refl, refl, omega arith) tt refl
      (λ e. cc)

length-be_bytes_32 : (key text : Bytes) → length (be_bytes 32 (be_value key + be_value text)) ≡ 32
length-be_bytes_32 key text = length-be_bytes 32 (be_value key + be_value text)

-- A MAC and a key derivation that keep the sizes of the real ones.
abbrev plain_crypto : Crypto
plain_crypto = record {
  hmac = λ key text. be_bytes 32 (be_value key + be_value text);
  length-hmac = length-be_bytes_32;
  hkdf = λ secret info. be_bytes 32 (be_value secret + be_value info);
}

abbrev pool_v4 : Prefix
pool_v4 = prefix (v4 167772160) 8

abbrev pool_v6 : Prefix
pool_v6 = prefix (v6 (253 * 2 ^ 120)) 48

derive_proposal-swap_example :
    (derive_proposal ⦃lib = plain_crypto⦄ (9 ∷ []) (1 ∷ 2 ∷ []) (1 ∷ 3 ∷ []) pool_v4 pool_v6 [] 0
      ≡ derive_proposal ⦃lib = plain_crypto⦄
          (9 ∷ [])
          (1 ∷ 3 ∷ [])
          (1 ∷ 2 ∷ [])
          pool_v4
          pool_v6
          []
          0)
    × (derive_wg_link_psk ⦃lib = plain_crypto⦄ (9 ∷ []) (7 ∷ []) (8 ∷ [])
        ≡ derive_wg_link_psk ⦃lib = plain_crypto⦄ (9 ∷ []) (8 ∷ []) (7 ∷ []))
derive_proposal-swap_example =
    derive_proposal-swap ⦃lib = plain_crypto⦄ (9 ∷ []) (1 ∷ 2 ∷ []) (1 ∷ 3 ∷ []) (7 ∷ []) (8 ∷ [])
      pool_v4 pool_v6 [] 0 refl refl

derive_proposal-within_example :
    (p : Proposal) × (derive_proposal ⦃lib = plain_crypto⦄
        (9 ∷ [])
        (1 ∷ 2 ∷ [])
        (1 ∷ 3 ∷ [])
        pool_v4
        pool_v6
        []
        0
      ≡ some p)
    × IsFrom 30 pool_v4 p.v4
    × IsFrom 126 pool_v6 p.v6
derive_proposal-within_example =
    derive_proposal-within ⦃lib = plain_crypto⦄ (9 ∷ []) (1 ∷ 2 ∷ []) (1 ∷ 3 ∷ []) pool_v4 pool_v6 0
      (omega arith, omega arith) (omega arith, omega arith)
