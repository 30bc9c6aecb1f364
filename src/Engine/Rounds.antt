-- ===== src/Engine/Rounds.antt =====
-- What the parts of a round of Engine.Run behind the handlers keep.
use velvet_fabric.Base.{
  ◌≤◌, ◌≡◌, refl, sym, ap, ◌∙◌, subst, ◌≢◌, ◌⊎◌, inl, inr, false, Option, none, some, [], ◌∷◌,
  arith, Bool-cases, length, All,
}
use velvet_fabric.Vfp.Message.{Message}
use velvet_fabric.Engine.State.{
  Config, Agreed, LinkFsm, Outcome, reply, discard_frame, close_connection, crashed,
}
use velvet_fabric.Engine.Run.{
  running, panicking, Callbacks, Session, fail, count_error, settle_pending, settle_link, settle,
  announce, conclude, is_failed, after_handle,
}
use velvet_fabric.Engine.Negotiation.{IsAcceptable, IsSound}
use velvet_fabric.Base.{WhenSome}
use velvet_fabric.Engine.Handled.{IsReady}

-- What every session keeps: no crash, at most one commit, and that one acceptable.
pub record IsSafe (cfg : Config) (s : Session) : Type 0 where
  pub alive : s.status ≢ panicking
  pub ready : s.status ≡ running → IsReady cfg s.fsm
  pub acceptable : All (IsAcceptable cfg) s.commits
  pub once : length s.commits ≤ 1
  pub first : s.status ≡ running → s.fsm.operational ≡ false → s.commits ≡ []

pub IsSafe-same :
    (cfg : Config) (s t : Session)
    → IsSafe cfg s
    → t.fsm ≡ s.fsm
    → t.commits ≡ s.commits
    → t.status ≢ panicking
    → (t.status ≡ running → s.status ≡ running)
    → IsSafe cfg t
IsSafe-same cfg s t h ef ec alive back = record {
  alive = alive;
  ready = λ r. subst (IsReady cfg) (sym ef) (h.ready (back r));
  acceptable = subst (All (IsAcceptable cfg)) (sym ec) h.acceptable;
  once = omega (arith, h.once, ap length ec);
  first = λ r o. ec ∙ h.first (back r) (ap (λ f. f.operational) (sym ef) ∙ o);
}

conclude-same :
    (cb : Callbacks) (cfg : Config) (s : Session) (m : Message)
    → s.status ≡ running
    → ((conclude cb cfg s m).fsm ≡ s.fsm)
      × ((conclude cb cfg s m).commits ≡ s.commits)
      × ((conclude cb cfg s m).status ≢ panicking)
unfolding conclude announce
conclude-same cb cfg s m r = (ground arith, ground arith, ground arith)

settle_pending-IsSafe :
    (cb : Callbacks) (cfg : Config) (s : Session) (l : LinkFsm) (o : Option Agreed)
    → IsSound cfg l
    → WhenSome (IsAcceptable cfg) o
    → IsSafe cfg s
    → s.commits ≡ []
    → IsSafe cfg (settle_pending cb s l o)
unfolding settle_pending
settle_pending-IsSafe cb cfg s l none hl ha h e = h
settle_pending-IsSafe cb cfg s l (some a) hl ha h e = elim (Bool-cases (cb.commit a)) [
  | inl done ↦ rw done (record {
    alive = h.alive;
    ready = λ r. record {
      sound = record {
        offered = hl.offered;
        pending = tt;
        distinct = hl.distinct;
        bounded = hl.bounded;
      };
      linked = λ o t. cc;
    };
    acceptable = (ha, h.acceptable);
    once = omega (arith, ap length e);
    first = λ r o. cc;
  })
  | inr refused ↦ rw refused (record {
    alive = λ p. cc;
    ready = λ r. cc;
    acceptable = (ha, h.acceptable);
    once = omega (arith, ap length e);
    first = λ r o. cc;
  })
]

settle-IsSafe :
    (cb : Callbacks) (cfg : Config) (s : Session)
    → IsSafe cfg s
    → s.status ≡ running
    → s.commits ≡ []
    → IsSafe cfg (settle cb s)
unfolding settle
settle-IsSafe cb cfg s h r e = on s.fsm.link (h.ready r).sound
  where
    on : (o : Option LinkFsm) → WhenSome (IsSound cfg) o → IsSafe cfg (settle_link cb s o)
    on none hl = h
    on (some l) hl = settle_pending-IsSafe cb cfg s l l.pending_commit hl hl.pending h e

not_failed : (s : Session) → is_failed s ≡ false → s.status ≡ running
unfolding is_failed
not_failed s e = ground arith

conclude-IsSafe :
    (cb : Callbacks) (cfg : Config) (s : Session) (m : Message)
    → s.status ≡ running
    → IsSafe cfg s
    → IsSafe cfg (conclude cb cfg s m)
conclude-IsSafe cb cfg s m r h =
    let (ef, ec, alive) = conclude-same cb cfg s m r in
    IsSafe-same cfg s (conclude cb cfg s m) h ef ec alive (λ _. r)

pub failed-IsSafe : (cfg : Config) (s : Session) → IsSafe cfg s → IsSafe cfg (fail s)
failed-IsSafe cfg s h = IsSafe-same cfg s (fail s) h refl refl (λ p. cc) (λ p. cc)

abbrev also_sent : Session → Message → Session
also_sent s m = record s { sent = m ∷ s.sent }

pub after_handle-IsSafe :
    (cb : Callbacks) (cfg : Config) (s : Session) (m : Message) (out : Outcome)
    → (IsSafe cfg s ⊎ (out ≡ close_connection))
    → out ≢ crashed
    → IsSafe cfg (fail s)
    → s.status ≡ running
    → s.commits ≡ []
    → IsSafe cfg (after_handle cb cfg s m out)
unfolding after_handle
after_handle-IsSafe cb cfg s m discard_frame (inl h) a f r e =
    IsSafe-same cfg s (count_error s) h refl refl h.alive (λ p. p)
after_handle-IsSafe cb cfg s m discard_frame (inr c) a f r e = cc
after_handle-IsSafe cb cfg s m close_connection h a f r e = f
after_handle-IsSafe cb cfg s m crashed h a f r e = absurd (a refl)
after_handle-IsSafe cb cfg s m (reply o) (inr c) a f r e = cc
after_handle-IsSafe cb cfg s m (reply none) (inl h) a f r e =
    let safe = settle-IsSafe cb cfg s h r e in
    elim (Bool-cases (is_failed (settle cb s))) [
      | inl bad ↦ simp bad safe
      | inr good ↦
          simp good (conclude-IsSafe cb cfg (settle cb s) m (not_failed (settle cb s) good) safe)
    ]
after_handle-IsSafe cb cfg s m (reply (some msg)) (inl h) a f r e =
    let safe = settle-IsSafe cb cfg s h r e in
    elim (Bool-cases (is_failed (settle cb s))) [
      | inl bad ↦ simp bad safe
      | inr good ↦ simp good (elim (Bool-cases (cb.send msg)) [
        | inl sent ↦ simp sent (
            conclude-IsSafe cb cfg (also_sent (settle cb s) msg) m (not_failed (settle cb s) good) (
              IsSafe-same cfg (settle cb s) (also_sent (settle cb s) msg) safe refl refl safe.alive
                (λ p. p)))
        | inr lost ↦ simp lost (failed-IsSafe cfg (settle cb s) safe)
      ])
    ]
