-- ===== src/Recovery.antt =====
-- internal/recovery/recovery.go: the failure episode that a tracker keeps across process restarts.
-- Each function is what `update` applies to the stored state; `err` leaves the file as it was. A time
-- is a number of nanoseconds and 0 is the zero Time; durations are not negative. Node identities and
-- namespaces are byte strings. The file itself, its lock and its fsyncs are not modelled.
pub mod Runs
pub mod Tables
pub mod Episode
pub mod Stable
pub mod Invariant
use velvet_fabric.Base.{
  ℕ, zero, suc, ◌+◌, ◌-◌, ◌*◌, ◌/◌, ◌%◌, ◌^◌, ◌≤◌, ◌<◌, ◌≡◌, refl, sym, ap, ◌∙◌, subst, ◌≢◌, ◌↔◌,
  ◌⊎◌, inl, inr, Bool, true, false, not, ◌&&◌, ◌||◌, Option, none, some, List, [], ◌∷◌, ◌++◌,
  append_assoc, append-nil, arith, ltb, leb, ◌==◌, if◌then◌else◌, Bool-cases, ltb→lt, lt→ltb,
  leb→le, ==_iff, ==_refl, length, take, drop, All, length-append, take-append, drop-append,
  take-append_of_length, drop-append_of_length, length-take, length-drop, All-append, All-drop,
  All-take, Error, frame, connection, plain, panicked, stuck, Result, ok, err, ◌>>=◌, ◌>>◌, ensure,
  in_frame, >>=-eq-ok, in_frame-eq-ok, ok-injective,
}
use velvet_fabric.Base.Bytes.{
  Bytes, IsByte, slice, byte_at, be_value, be_bytes, bytes_eq, bytes_lt, all_zero, length-be_bytes,
  be_bytes-IsByte, be_value-be_bytes, bytes_eq_iff, bytes_lt_irrefl,
}

pub record State : Type 0 where
  pub node : Bytes
  pub namespace : Bytes
  pub tables : List ℕ
  pub is_running : Bool
  pub retired : Bool
  pub failure_since : ℕ
  pub healthy_since : ℕ
  pub last_progress : ℕ
  pub window : ℕ
  pub stable : ℕ

abbrev pub empty_state : State
empty_state = record {
  node = [];
  namespace = [];
  tables = [];
  is_running = false;
  retired = false;
  failure_since = 0;
  healthy_since = 0;
  last_progress = 0;
  window = 0;
  stable = 0;
}

pub record Tracker : Type 0 where
  pub window : ℕ
  pub stable : ℕ

-- What the tracker reads of reconcile.DesiredState.
pub record Desired : Type 0 where
  pub uuid : Bytes
  pub fabric_table : ℕ
  pub route_tables : List ℕ
  pub rule_tables : List ℕ

-- Adds a key to the set of tables, which is kept as its sorted list.
unfoldable pub insert_table : ℕ → List ℕ → List ℕ
insert_table t [] = t ∷ []
insert_table t (x ∷ xs) =
    let rest = insert_table t xs in
    if t == x then x ∷ xs else if ltb t x then t ∷ x ∷ xs else x ∷ rest

unfoldable pub insert_tables : List ℕ → List ℕ → List ℕ
unfolding insert_table
insert_tables [] set = set
insert_tables (t ∷ ts) set = insert_table t (insert_tables ts set)

-- The tables of the state and of the desired state, each once and in order.
unfoldable pub merge_tables : Desired → List ℕ → List ℕ
unfolding insert_tables
merge_tables d ts =
    insert_tables (d.fabric_table ∷ ts)
      (insert_tables d.route_tables (insert_tables d.rule_tables []))

-- FailureSince, or else LastProgress, or else now.
unfoldable pub episode_start : State → ℕ → ℕ
episode_start s now =
    if not (s.failure_since == 0)
    then s.failure_since
    else if not (s.last_progress == 0)
    then s.last_progress
    else now

-- The state that Begin goes on with: a new episode for another node or namespace, after a
-- retirement and after a clean stop.
unfoldable pub resumed : State → Desired → Bytes → ℕ → State
resumed s d namespace now =
    if not (bytes_eq s.node d.uuid)
      || not (bytes_eq s.namespace namespace)
      || s.retired
      || not s.is_running
    then record empty_state { failure_since = now }
    else s

unfoldable pub begin : Tracker → Desired → Bytes → ℕ → State → State
unfolding resumed episode_start
begin t d namespace now s =
    let r = resumed s d namespace now in
    record r {
      failure_since = episode_start r now;
      node = d.uuid;
      namespace = namespace;
      is_running = true;
      healthy_since = 0;
      last_progress = now;
      window = t.window;
      stable = t.stable;
      tables = merge_tables d r.tables;
    }

unfoldable pub progress : ℕ → Bool → State → State
progress now healthy s =
    if not s.is_running || s.retired
    then s
    else if not healthy
    then record s { healthy_since = 0 }
    else (let since = if s.healthy_since == 0 then now else s.healthy_since in
        record s {
          last_progress = now;
          healthy_since = since;
          failure_since = if leb (since + s.stable) now then 0 else s.failure_since;
        })

unfoldable pub stop : State → State
stop s = record s { is_running = false; failure_since = 0; healthy_since = 0 }

unfoldable pub failure : ℕ → State → State
failure now s = if length s.node == 0 || s.retired then s else record s {
  failure_since = if s.failure_since == 0 then now else s.failure_since;
  is_running = true;
  healthy_since = 0;
}

-- Whether Check reaches the call of `retire`, with the state that it hands over.
unfoldable pub due : State → ℕ → Bool
due s now = not (s.window == 0) && leb (s.failure_since + s.window) now

-- Check with a callback that answers `retire`; the Boolean tells whether it was called.
unfoldable pub check : Bytes → ℕ → (State → Bool) → State → Result State × Bool
unfolding episode_start due
check namespace now retire s =
    let s' : State = record s { failure_since = episode_start s now } in
    if not s.is_running || s.retired || not (bytes_eq s.namespace namespace)
    then (ok s, false)
    else if not (due s' now)
    then (ok s', false)
    else if retire s'
    then (ok (record s' { retired = true; is_running = false }), true)
    else (err plain, true)

unfoldable pub update_desired : Desired → State → Result State
update_desired d s =
    if not (bytes_eq s.node d.uuid)
    then err plain
    else ok (record s { tables = merge_tables d s.tables })
