-- ===== src/Recovery/Invariant.antt =====
-- What every stored state satisfies, whatever the order of the operations.
use velvet_fabric.Base.{ℕ, ◌&&◌, ◌≡◌, Bool, false, arith, ok}
use velvet_fabric.Base.Bytes.{Bytes}
use velvet_fabric.Recovery.{
  State, Tracker, Desired, empty_state, begin, progress, stop, failure, check, update_desired,
}
use velvet_fabric.Recovery.Tables.{IsIncreasing, merge_tables-IsIncreasing}

-- A retired node is not running, and the tables are increasing.
pub record IsValid (s : State) : Type 0 where
  pub retired : (s.retired && s.is_running) ≡ false
  pub tables : IsIncreasing s.tables

-- One update of the stored state. A failed update stores nothing and is no step.
pub data Step (s : State) : State → Type 0 where
  began : (t : Tracker) (d : Desired) (ns : Bytes) (now : ℕ) → Step s (begin t d ns now s)
  progressed : (now : ℕ) (healthy : Bool) → Step s (progress now healthy s)
  stopped : Step s (stop s)
  failed : (now : ℕ) → Step s (failure now s)
  checked :
      (ns : Bytes) (now : ℕ) (retire : State → Bool) (s' : State)
      → (check ns now retire s).0 ≡ ok s'
      → Step s s'
  updated : (d : Desired) (s' : State) → update_desired d s ≡ ok s' → Step s s'

pub data Reach : State → Type 0 where
  empty : Reach empty_state
  next : {s s' : State} → Reach s → Step s s' → Reach s'

Step-IsValid : {s s' : State} → IsValid s → Step s s' → IsValid s'
unfolding begin progress stop failure check update_desired
Step-IsValid v (began t d ns now) = record {
  retired = ground arith;
  tables = merge_tables-IsIncreasing d _;
}
Step-IsValid v (progressed now healthy) = ground arith
Step-IsValid v stopped = record { retired = ground arith; tables = v.tables }
Step-IsValid v (failed now) = ground arith
Step-IsValid v (checked ns now retire s' e) = ground arith
Step-IsValid {s} v (updated d s' e) = ground (arith, merge_tables-IsIncreasing d s.tables)

-- Every state that updates can store, from no file on, is valid: it is not retired and running at
-- once, and its tables are strictly increasing.
pub Reach-IsValid : {s : State} → Reach s → IsValid s
Reach-IsValid empty = record { retired = ground arith; tables = tt }
Reach-IsValid (next r st) = Step-IsValid (Reach-IsValid r) st
