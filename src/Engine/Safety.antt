-- ===== src/Engine/Safety.antt =====
-- What every session keeps, whatever its peer sends and its callbacks answer.
use velvet_fabric.Base.{
  ◌≤◌, ◌≡◌, refl, ◌≢◌, ◌⊎◌, inl, inr, Bool, true, false, List, [], ◌∷◌, arith, if◌then◌else◌,
  Bool-cases, length, All,
}
use velvet_fabric.Vfp.Message.{Message}
use velvet_fabric.Engine.State.{
  Config, SessionFsm, Outcome, reply, discard_frame, close_connection, crashed,
}
use velvet_fabric.Engine.Session.{handle}
use velvet_fabric.Engine.Run.{
  Event, received, bad_frame, read_failed, timed_out, cancelled, running, panicking, Callbacks,
  Session, valid_operational_message, start, fail, count_error, deliver, on_message, round,
  is_running, run,
}
use velvet_fabric.Engine.Negotiation.{IsAcceptable}
use velvet_fabric.Engine.Handled.{IsHandled, handle-IsHandled}
use velvet_fabric.Engine.Rounds.{IsSafe, IsSafe-same, failed-IsSafe, after_handle-IsSafe}

deliver-IsSafe :
    (cb : Callbacks) (cfg : Config) (s : Session) (m : Message)
    → IsSafe cfg s
    → IsSafe cfg (deliver cb s m)
unfolding deliver
deliver-IsSafe cb cfg s m h = elim (Bool-cases (cb.operational_message m)) [
  | inl good ↦ rw good (IsSafe-same cfg s _ h refl refl h.alive (λ p. p))
  | inr bad ↦ rw bad (IsSafe-same cfg s _ h refl refl (λ p. cc) (λ p. cc))
]

-- A session whose machine took a message, before the outcome is acted on.
handled-IsSafe :
    (cfg : Config) (s : Session) (r : Outcome × SessionFsm)
    → IsSafe cfg s
    → s.commits ≡ []
    → IsHandled cfg r
    → (IsSafe cfg (record s { fsm = r.1 }) ⊎ (r.0 ≡ close_connection))
      × IsSafe cfg (fail (record s { fsm = r.1 }))
handled-IsSafe cfg s r h e hd = (
  alternatives r.0 refl,
  record {
    alive = λ p. cc;
    ready = λ p. cc;
    acceptable = h.acceptable;
    once = h.once;
    first = λ p o. cc;
  },
)
  where
    open_one : r.0 ≢ close_connection → IsSafe cfg (record s { fsm = r.1 })
    open_one n = record {
      alive = h.alive;
      ready = λ _. record { sound = hd.sound; linked = hd.linked n };
      acceptable = h.acceptable;
      once = h.once;
      first = λ _ _. e;
    }

    alternatives :
        (out : Outcome) → r.0 ≡ out → IsSafe cfg (record s { fsm = r.1 }) ⊎ (r.0 ≡ close_connection)
    alternatives close_connection eq = inr eq
    alternatives discard_frame eq = inl (open_one (λ p. cc))
    alternatives crashed eq = inl (open_one (λ p. cc))
    alternatives (reply o) eq = inl (open_one (λ p. cc))

on_message-IsSafe :
    (cb : Callbacks) (cfg : Config) (s : Session) (m : Message)
    → s.status ≡ running
    → IsSafe cfg s
    → IsSafe cfg (on_message cb cfg s m)
unfolding on_message
on_message-IsSafe cb cfg s m r h = elim (Bool-cases s.fsm.operational) [
  | inl op ↦ simp op (elim (Bool-cases (valid_operational_message cfg.context m.kind)) [
    | inl valid ↦ simp valid (deliver-IsSafe cb cfg s m h)
    | inr not_valid ↦
        simp not_valid (IsSafe-same cfg s (count_error s) h refl refl h.alive (λ p. p))
  ])
  | inr op ↦
      let e = h.first r op in
      let hd = handle-IsHandled cfg s.fsm m op (h.ready r) in
      let (either, f) = handled-IsSafe cfg s (handle cfg s.fsm m) h e hd in
      simp op (
        after_handle-IsSafe cb cfg (record s { fsm = (handle cfg s.fsm m).1 }) m
          (handle cfg s.fsm m).0 either hd.alive f r e)
]

if-IsSafe :
    (cfg : Config) (b : Bool) (s t : Session)
    → IsSafe cfg s
    → IsSafe cfg t
    → IsSafe cfg (if b then s else t)
if-IsSafe cfg true s t hs ht = hs
if-IsSafe cfg false s t hs ht = ht

round-IsSafe :
    (cb : Callbacks) (cfg : Config) (s : Session) (e : Event)
    → s.status ≡ running
    → IsSafe cfg s
    → IsSafe cfg (round cb cfg s e)
unfolding round
round-IsSafe cb cfg s (received m) r h = on_message-IsSafe cb cfg s m r h
round-IsSafe cb cfg s bad_frame r h = elim (Bool-cases s.fsm.opened) [
  | inl o ↦ simp o (IsSafe-same cfg s (count_error s) h refl refl h.alive (λ p. p))
  | inr n ↦ simp n (failed-IsSafe cfg s h)
]
round-IsSafe cb cfg s read_failed r h = failed-IsSafe cfg s h
round-IsSafe cb cfg s timed_out r h = if-IsSafe cfg s.armed (fail s) s (failed-IsSafe cfg s h) h
round-IsSafe cb cfg s cancelled r h = failed-IsSafe cfg s h

start-IsSafe : (cb : Callbacks) (cfg : Config) → IsSafe cfg (start cb cfg)
unfolding start
start-IsSafe cb cfg = record {
  alive = ground arith;
  ready = λ r. record { sound = tt; linked = λ o s. cc };
  acceptable = tt;
  once = omega arith;
  first = λ r o. refl;
}

run_from-IsSafe :
    (cb : Callbacks) (cfg : Config) (s : Session) (es : List Event)
    → IsSafe cfg s
    → IsSafe cfg (run cb cfg s es)
unfolding run
run_from-IsSafe cb cfg s [] h = h
run_from-IsSafe cb cfg s (e ∷ es) h = elim (Bool-cases (is_running s.status)) [
  | inl r ↦
      simp r
        (run_from-IsSafe cb cfg (round cb cfg s e) es (round-IsSafe cb cfg s e (ground arith) h))
  | inr stopped ↦ simp stopped h
]

-- Whatever the peer sends, in any order, and whatever the callbacks answer, a session never makes a
-- call on a nil link, hands at most one result to Commit, and that result was acceptable to the
-- local Accept; while it runs unestablished it has committed nothing, its negotiation repeats no
-- proposal, makes at most 64 attempts and has only acceptable offers outstanding.
pub run-IsSafe :
    (cb : Callbacks) (cfg : Config) (es : List Event) → IsSafe cfg (run cb cfg (start cb cfg) es)
run-IsSafe cb cfg es = run_from-IsSafe cb cfg (start cb cfg) es (start-IsSafe cb cfg)

-- Whatever the peer sends, in any order, and whatever the callbacks and the writer answer, a session
-- never calls a method on a nil Link, hands Commit at most one result, and hands it only a proposal
-- that Accept allows for the peer it names.
pub run_commits :
    (cb : Callbacks) (cfg : Config) (es : List Event)
    → ((run cb cfg (start cb cfg) es).status ≢ panicking)
      × (length (run cb cfg (start cb cfg) es).commits ≤ 1)
      × All (IsAcceptable cfg) (run cb cfg (start cb cfg) es).commits
run_commits cb cfg es = let safe = run-IsSafe cb cfg es in (safe.alive, safe.once, safe.acceptable)
