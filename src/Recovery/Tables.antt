-- ===== src/Recovery/Tables.antt =====
-- The tables that a retirement cleans up.
use velvet_fabric.Base.{has}
use velvet_fabric.Base.{ℕ, ◌<◌, ◌≡◌, refl, false, ◌||◌, List, [], ◌∷◌, arith, ◌==◌}
use velvet_fabric.Recovery.{Desired, insert_table, insert_tables, merge_tables}

-- Strictly increasing, and all above `lo`.
abbrev Above : ℕ → List ℕ → Type 0
Above lo [] = Unit
Above lo (x ∷ xs) = (lo < x) × Above x xs

-- Strictly increasing, so without repetitions.
abbrev pub IsIncreasing : List ℕ → Type 0
IsIncreasing [] = Unit
IsIncreasing (x ∷ xs) = Above x xs

has-insert_table : (t u : ℕ) (xs : List ℕ) → has u (insert_table t xs) ≡ (u == t || has u xs)
unfolding insert_table
has-insert_table t u [] = refl
has-insert_table t u (x ∷ xs) = ground (arith, has-insert_table t u xs)

insert_table-Above : (lo t : ℕ) (xs : List ℕ) → lo < t → Above lo xs → Above lo (insert_table t xs)
unfolding insert_table
insert_table-Above lo t [] h a = omega arith
insert_table-Above lo t (x ∷ xs) h (hx, a) = ground (arith, insert_table-Above x t xs)

insert_table-IsIncreasing :
    (t : ℕ) (xs : List ℕ) → IsIncreasing xs → IsIncreasing (insert_table t xs)
unfolding insert_table
insert_table-IsIncreasing t [] h = tt
insert_table-IsIncreasing t (x ∷ xs) h = ground (arith, insert_table-Above x t xs)

insert_tables-IsIncreasing : (ts xs : List ℕ) → IsIncreasing xs → IsIncreasing (insert_tables ts xs)
unfolding insert_tables
insert_tables-IsIncreasing [] xs h = h
insert_tables-IsIncreasing (t ∷ ts) xs h =
    insert_table-IsIncreasing t (insert_tables ts xs) (insert_tables-IsIncreasing ts xs h)

has-insert_tables : (u : ℕ) (ts xs : List ℕ) → has u (insert_tables ts xs) ≡ (has u ts || has u xs)
unfolding insert_tables
has-insert_tables u [] xs = refl
has-insert_tables u (t ∷ ts) xs =
    ground (arith, has-insert_table t u (insert_tables ts xs), has-insert_tables u ts xs)

pub merge_tables-IsIncreasing : (d : Desired) (ts : List ℕ) → IsIncreasing (merge_tables d ts)
merge_tables-IsIncreasing d ts =
    unfold merge_tables in
    insert_tables-IsIncreasing (d.fabric_table ∷ ts) _
      (insert_tables-IsIncreasing d.route_tables _ (insert_tables-IsIncreasing d.rule_tables [] tt))

-- UpdateDesired and Begin keep exactly the tables that were recorded and those of the desired state:
-- its Fabric table and the tables of its routes and rules. The list is increasing.
pub merge_tables_lem :
    (d : Desired) (ts : List ℕ) (u : ℕ)
    → (has u (merge_tables d ts) ≡ (
        (u == d.fabric_table || has u ts)
        || (has u d.route_tables || (has u d.rule_tables || false))))
      × IsIncreasing (merge_tables d ts)
merge_tables_lem d ts u = (
  unfold merge_tables in
      ground (
        arith,
        has-insert_tables u (d.fabric_table ∷ ts)
            (insert_tables d.route_tables (insert_tables d.rule_tables [])),
        has-insert_tables u d.route_tables (insert_tables d.rule_tables []),
        has-insert_tables u d.rule_tables [],
      ),
  merge_tables-IsIncreasing d ts,
)
