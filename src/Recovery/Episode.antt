-- ===== src/Recovery/Episode.antt =====
-- When a failure episode ends and when it leads to a retirement.
use velvet_fabric.Base.{ℕ, ◌+◌, ◌<◌, ◌≡◌, Bool, true, false, List, [], ◌∷◌, arith, leb}
use velvet_fabric.Base.Bytes.{Bytes, bytes_eq, bytes_eq_iff}
use velvet_fabric.Recovery.{State, Tracker, Desired, begin, progress, failure, check}

-- The same node goes on with a running episode that began at `t0`.
pub record InEpisode (t : Tracker) (d : Desired) (ns : Bytes) (t0 : ℕ) (s : State) : Type 0 where
  pub node : s.node ≡ d.uuid
  pub namespace : s.namespace ≡ ns
  pub is_running : s.is_running ≡ true
  pub retired : s.retired ≡ false
  pub failure_since : s.failure_since ≡ t0
  pub window : s.window ≡ t.window

-- What can happen to a daemon that does not become healthy, at a time each.
pub data Trouble : Type 0 where
  restarted unhealthy failed : ℕ → Trouble

unfoldable pub suffer : Tracker → Desired → Bytes → Trouble → State → State
suffer t d ns (restarted now) s = begin t d ns now s
suffer t d ns (unhealthy now) s = progress now false s
suffer t d ns (failed now) s = failure now s

unfoldable pub suffer_all : Tracker → Desired → Bytes → List Trouble → State → State
suffer_all t d ns [] s = s
suffer_all t d ns (x ∷ xs) s = suffer_all t d ns xs (suffer t d ns x s)

same_bytes : (b c : Bytes) → b ≡ c → bytes_eq b c ≡ true
same_bytes b c e = (bytes_eq_iff b c).1 e

pub suffer-InEpisode :
    (t : Tracker) (d : Desired) (ns : Bytes) (t0 : ℕ) (x : Trouble) (s : State)
    → 0 < t0
    → InEpisode t d ns t0 s
    → InEpisode t d ns t0 (suffer t d ns x s)
unfolding suffer begin progress failure
suffer-InEpisode t d ns t0 (restarted now) s h e =
    ground (arith, same_bytes s.node d.uuid, same_bytes s.namespace ns)
suffer-InEpisode t d ns t0 (unhealthy now) s h e = ground arith
suffer-InEpisode t d ns t0 (failed now) s h e = ground arith

suffer_all-InEpisode :
    (t : Tracker) (d : Desired) (ns : Bytes) (t0 : ℕ) (xs : List Trouble) (s : State)
    → 0 < t0
    → InEpisode t d ns t0 s
    → InEpisode t d ns t0 (suffer_all t d ns xs s)
unfolding suffer_all
suffer_all-InEpisode t d ns t0 [] s h e = e
suffer_all-InEpisode t d ns t0 (x ∷ xs) s h e =
    suffer_all-InEpisode t d ns t0 xs (suffer t d ns x s) h (suffer-InEpisode t d ns t0 x s h e)

check-InEpisode :
    (t : Tracker) (d : Desired) (ns : Bytes) (t0 now : ℕ) (retire : State → Bool) (s : State)
    → 0 < t0
    → 0 < t.window
    → InEpisode t d ns t0 s
    → (check ns now retire s).1 ≡ leb (t0 + t.window) now
unfolding check
check-InEpisode t d ns t0 now retire s h w e = ground (arith, same_bytes s.namespace ns)

-- While a node is running and not retired, in an episode that began at `t0`, restarts of the same node
-- in the same namespace, failures and unhealthy progress do not prolong the episode: after any number
-- of them Check calls `retire` exactly when the window of the tracker since `t0` has passed. The
-- window is not zero and is the one stored with the state.
pub check-suffer_all :
    (t : Tracker) (d : Desired) (ns : Bytes) (t0 now : ℕ) (retire : State → Bool)
    (xs : List Trouble) (s : State)
    → 0 < t0
    → 0 < t.window
    → s.node ≡ d.uuid
    → s.namespace ≡ ns
    → s.is_running ≡ true
    → s.retired ≡ false
    → s.failure_since ≡ t0
    → s.window ≡ t.window
    → (check ns now retire (suffer_all t d ns xs s)).1 ≡ leb (t0 + t.window) now
check-suffer_all t d ns t0 now retire xs s h w e1 e2 e3 e4 e5 e6 =
    check-InEpisode t d ns t0 now retire _ h w (
      suffer_all-InEpisode t d ns t0 xs s h (record {
        node = e1;
        namespace = e2;
        is_running = e3;
        retired = e4;
        failure_since = e5;
        window = e6;
      }))
