-- ===== src/Health.antt =====
-- internal/runtime/link_health.go: linkHealth, the challenges of one Link. A time is a number of
-- nanoseconds, and 0 is the zero Time.
pub mod Replay
pub mod Runs
use velvet_fabric.Base.{
  ℕ, zero, suc, ◌+◌, ◌-◌, ◌*◌, ◌/◌, ◌%◌, ◌^◌, ◌≤◌, ◌<◌, ◌≡◌, refl, sym, ap, ◌∙◌, subst, ◌≢◌, ◌↔◌,
  ◌⊎◌, inl, inr, Bool, true, false, not, ◌&&◌, ◌||◌, Option, none, some, List, [], ◌∷◌, ◌++◌,
  append_assoc, append-nil, arith, ltb, leb, ◌==◌, if◌then◌else◌, Bool-cases, ltb→lt, lt→ltb,
  leb→le, le→leb, ==_iff, ==_refl, length, take, drop, All, length-append, take-append, drop-append,
  take-append_of_length, drop-append_of_length, length-take, length-drop, All-append, All-drop,
  All-take, Error, frame, connection, plain, panicked, stuck, Result, ok, err, ◌>>=◌, ◌>>◌, ensure,
  in_frame, >>=-eq-ok, in_frame-eq-ok, ok-injective, WhenSome, has, if_keeps,
}
use velvet_fabric.Base.Bytes.{
  Bytes, IsByte, slice, byte_at, be_value, be_bytes, bytes_eq, bytes_lt, all_zero, length-be_bytes,
  be_bytes-IsByte, be_value-be_bytes, bytes_eq_iff, bytes_lt_irrefl,
}
use velvet_fabric.Vfp.Message.{zeros}

-- linkHealth
pub record Health : Type 0 where
  pub pending : Bytes
  pub expires : ℕ
  pub last_pong : ℕ

abbrev pub link_ping_interval : ℕ
link_ping_interval = 10000000000

abbrev pub link_failure_timeout : ℕ
link_failure_timeout = 30000000000

-- [16]byte{}
abbrev pub no_id : Bytes
no_id = zeros 16

-- linkHealth.challenge, for the random bytes; `none` is an error of rand.Read.
unfoldable pub challenge : Option Bytes → ℕ → Health → Option Bytes × Health
challenge none now h = (none, h)
challenge (some id) now h = (some id, record h { pending = id; expires = now + link_ping_interval })

-- linkHealth.pong
unfoldable pub pong : Bytes → ℕ → Health → Bool × Health
unfolding bytes_eq
pong id now h =
    if bytes_eq id no_id || not (bytes_eq id h.pending) || not (ltb now h.expires)
    then (false, h)
    else (true, record h { pending = no_id; last_pong = now })

-- linkHealth.expired
unfoldable pub expired : ℕ → Health → Bool
expired now h = not (h.last_pong == 0) && leb (h.last_pong + link_failure_timeout) now
