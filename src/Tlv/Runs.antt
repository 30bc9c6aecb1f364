-- ===== src/Tlv/Runs.antt =====
-- Runs of the TLV cursor at concrete bodies.
use velvet_fabric.Base.{ℕ, ◌+◌, ◌≡◌, refl, ◌≢◌, [], ◌∷◌, err, ok, frame, stuck}
use velvet_fabric.Base.Bytes.{Bytes, be_value}
use velvet_fabric.Tlv.{View, next_at, next, each, each_in}
use velvet_fabric.Tlv.Scan.{each_in-ne-stuck}

abbrev count : View → ℕ → ℕ
count v n = n + 1

abbrev two_records : Bytes
two_records = 0 ∷ 1 ∷ 0 ∷ 1 ∷ 9 ∷ 0 ∷ 2 ∷ 0 ∷ 0 ∷ []

count_two : each_in count two_records 0 ≡ ok 2
unfolding each_in each next next_at be_value
count_two = refl

count_cut : each_in count (0 ∷ 1 ∷ 0 ∷ 2 ∷ 9 ∷ []) 0 ≡ err frame
unfolding each_in each next next_at be_value
count_cut = refl

each_in-ne-stuck_example : each_in count two_records 0 ≢ err stuck
each_in-ne-stuck_example = each_in-ne-stuck count two_records 0
