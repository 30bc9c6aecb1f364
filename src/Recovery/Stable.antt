-- ===== src/Recovery/Stable.antt =====
-- How long a daemon has to be healthy before an episode ends.
use velvet_fabric.Base.{
  ℕ, ◌+◌, ◌<◌, ◌≡◌, refl, true, false, List, [], ◌∷◌, arith, leb, if◌then◌else◌, length, All,
}
use velvet_fabric.Base.Bytes.{Bytes}
use velvet_fabric.Recovery.{State, Tracker, Desired, begin, progress, failure}
use velvet_fabric.Recovery.Episode.{
  InEpisode, Trouble, restarted, unhealthy, failed, suffer, suffer-InEpisode,
}

-- Healthy progress at the given times, in this order.
unfoldable pub recover : List ℕ → State → State
unfolding progress
recover [] s = s
recover (u ∷ us) s = recover us (progress u true s)

-- A trouble forgets how long the daemon was healthy, and leaves the stable time.
suffer-healthy_since :
    (t : Tracker) (d : Desired) (ns : Bytes) (t0 : ℕ) (x : Trouble) (s : State)
    → 0 < length d.uuid
    → InEpisode t d ns t0 s
    → s.stable ≡ t.stable
    → ((suffer t d ns x s).healthy_since ≡ 0) × ((suffer t d ns x s).stable ≡ t.stable)
unfolding suffer begin progress failure
suffer-healthy_since t d ns t0 (restarted now) s n h e = (refl, refl)
suffer-healthy_since t d ns t0 (unhealthy now) s n h e = ground (arith, h.is_running, h.retired, e)
suffer-healthy_since t d ns t0 (failed now) s n h e = ground (arith, h.node, h.retired, e, n)

-- A daemon in an episode that began at `t0` and that has been healthy since `t1`.
record IsHealing (t : Tracker) (t0 t1 : ℕ) (s : State) : Type 0 where
  is_running : s.is_running ≡ true
  retired : s.retired ≡ false
  failure_since : s.failure_since ≡ t0
  healthy_since : s.healthy_since ≡ t1
  stable : s.stable ≡ t.stable

progress-IsHealing :
    (t : Tracker) (t0 t1 u : ℕ) (s : State)
    → 0 < t1
    → u < t1 + t.stable
    → IsHealing t t0 t1 s
    → IsHealing t t0 t1 (progress u true s)
unfolding progress
progress-IsHealing t t0 t1 u s p early h = ground arith

recover-IsHealing :
    (t : Tracker) (t0 t1 : ℕ) (us : List ℕ) (s : State)
    → 0 < t1
    → All (λ u. u < t1 + t.stable) us
    → IsHealing t t0 t1 s
    → IsHealing t t0 t1 (recover us s)
unfolding recover
recover-IsHealing t t0 t1 [] s p early h = h
recover-IsHealing t t0 t1 (u ∷ us) s p (first, rest) h =
    recover-IsHealing t t0 t1 us (progress u true s) p rest
      (progress-IsHealing t t0 t1 u s p first h)

-- While a node with a UUID runs and is not retired, in an episode that began at `t0`, a trouble (a
-- restart of the node in its namespace, unhealthy progress or a failure) starts the stable time
-- again, which is not zero: the daemon's first healthy progress after it is at `t1`, any others come
-- before the stable time since then has passed, and the next one ends the episode exactly when it
-- comes at that time or later; else the episode goes on as one that began at `t0`.
pub recover-failure_since :
    (t : Tracker) (d : Desired) (ns : Bytes) (t0 t1 now : ℕ) (x : Trouble) (us : List ℕ) (s : State)
    → 0 < length d.uuid
    → 0 < t0
    → 0 < t1
    → 0 < t.stable
    → InEpisode t d ns t0 s
    → s.stable ≡ t.stable
    → All (λ u. u < t1 + t.stable) us
    → (progress now true (recover (t1 ∷ us) (suffer t d ns x s))).failure_since
      ≡ (if leb (t1 + t.stable) now then 0 else t0)
unfolding progress recover
recover-failure_since t d ns t0 t1 now x us s n p0 p1 ps h e early =
    let after = suffer t d ns x s in
    let h1 = suffer-InEpisode t d ns t0 x s p0 h in
    let (since, stable) = suffer-healthy_since t d ns t0 x s n h e in
    let first : IsHealing t t0 t1 (progress t1 true after) =
      ground (arith, h1.is_running, h1.retired, h1.failure_since, since, stable, p1, ps) in
    let healing = recover-IsHealing t t0 t1 us (progress t1 true after) p1 early first in
    ground (
      arith, healing.is_running, healing.retired, healing.failure_since, healing.healthy_since,
      healing.stable, p1,
    )
