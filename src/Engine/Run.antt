-- ===== src/Engine/Run.antt =====
-- engine.go: Run, the event loop of a session, as a step function over what its channels deliver.
use velvet_fabric.Base.{
  ℕ, ◌+◌, Bool, true, false, not, ◌&&◌, Option, none, some, List, [], ◌∷◌, if◌then◌else◌,
}
use velvet_fabric.Net.{none_addr}
use velvet_fabric.Vfp.Kinds.{
  Kind, open_type, durable_propose, durable_saved, durable_decline, durable_check, durable_status,
  dynamic_link_propose, dynamic_link_accept, dynamic_link_decline, discovery_control,
}
use velvet_fabric.Vfp.Values.{Uid}
use velvet_fabric.Vfp.Message.{Message, blank}
use velvet_fabric.Engine.State.{
  Context, link_bound, routed, Config, Agreed, LinkFsm, SessionFsm, Outcome, reply, discard_frame,
  close_connection, crashed, is_kind_durable,
}
use velvet_fabric.Engine.Session.{handle}

-- What a round of the loop receives: a decoded message, a frame that did not decode, a failed read,
-- the establishment timer, or the cancelled context.
pub data Event : Type 0 where
  received : Message → Event
  bad_frame read_failed timed_out cancelled : Event

pub data Status : Type 0 where
  running finished failed panicking : Status

-- What the callbacks and the writer answer; a nil callback answers `true`.
pub record Callbacks : Type 0 where
  pub commit : Agreed → Bool
  pub send : Message → Bool
  pub enter_operational : SessionFsm → Bool
  pub operational_message : Message → Bool

-- The locals of Run, and the effects so far, newest first. `armed` tells that the establishment
-- timer may still fire.
pub record Session : Type 0 where
  pub fsm : SessionFsm
  pub notified : Bool
  pub armed : Bool
  pub status : Status
  pub sent : List Message
  pub commits : List Agreed
  pub delivered : List Message
  pub frame_errors : ℕ

unfoldable pub valid_operational_message : Context → Kind → Bool
valid_operational_message routed dynamic_link_propose = true
valid_operational_message routed dynamic_link_accept = true
valid_operational_message routed dynamic_link_decline = true
valid_operational_message routed discovery_control = true
valid_operational_message routed durable_check = true
valid_operational_message routed durable_status = true
valid_operational_message routed _ = false
valid_operational_message link_bound durable_propose = true
valid_operational_message link_bound durable_saved = true
valid_operational_message link_bound durable_decline = true
valid_operational_message link_bound _ = false

abbrev pub empty_uid : Uid
empty_uid = record { uuid = []; name = [] }

abbrev pub new_fsm : SessionFsm
new_fsm = record {
  opened = false;
  state_received = false;
  remote_uid = empty_uid;
  remote_v6 = none_addr;
  link = none;
  operational = false;
}

-- The session once its OPEN is sent.
unfoldable pub start : Callbacks → Config → Session
start cb cfg =
    let hello : Message = record (blank open_type) { uid = some cfg.local_uid } in
    record {
      fsm = new_fsm;
      notified = false;
      armed = true;
      status = if cb.send hello then running else failed;
      sent = hello ∷ [];
      commits = [];
      delivered = [];
      frame_errors = 0;
    }

abbrev pub fail : Session → Session
fail s = record s { status = failed }

abbrev pub count_error : Session → Session
count_error s = record s { frame_errors = s.frame_errors + 1 }

unfoldable pub deliver : Callbacks → Session → Message → Session
deliver cb s m = record s {
  delivered = m ∷ s.delivered;
  status = if cb.operational_message m then s.status else failed;
}

-- Commit and markEstablished with a result that was taken; `commits` are the results handed to
-- Commit.
unfoldable pub settle_pending : Callbacks → Session → LinkFsm → Option Agreed → Session
settle_pending cb s l none = s
settle_pending cb s l (some a) =
    if cb.commit a
    then record s {
      fsm = record s.fsm {
        link = some (record l { pending_commit = none; established = true });
        operational = true;
      };
      commits = a ∷ s.commits;
    }
    else record s {
      fsm = record s.fsm { link = some (record l { pending_commit = none }) };
      commits = a ∷ s.commits;
      status = failed;
    }

-- takeCommit
unfoldable pub settle_link : Callbacks → Session → Option LinkFsm → Session
unfolding settle_pending
settle_link cb s none = s
settle_link cb s (some l) = settle_pending cb s l l.pending_commit

unfoldable pub settle : Callbacks → Session → Session
unfolding settle_link
settle cb s = settle_link cb s s.fsm.link

abbrev pub link_established : SessionFsm → Bool
link_established f = elim f.link [ none ↦ false | some l ↦ l.established ]

abbrev pub is_routed : Context → Bool
is_routed routed = true
is_routed link_bound = false

-- The first time that the session is operational.
unfoldable pub announce : Callbacks → Config → Session → Message → Session
unfolding deliver
announce cb cfg s m =
    let s' : Session = record s {
      notified = true;
      armed = s.armed && not (is_routed cfg.context);
    } in
    if not (cb.enter_operational s.fsm)
    then fail s'
    else if is_kind_durable m.kind
    then deliver cb s' m
    else s'

-- What follows a reply that was sent.
unfoldable pub conclude : Callbacks → Config → Session → Message → Session
conclude cb cfg s m =
    if s.fsm.operational && not (is_routed cfg.context) && link_established s.fsm
    then record s { status = finished }
    else if s.fsm.operational && not s.notified
    then announce cb cfg s m
    else s

unfoldable pub is_failed : Session → Bool
is_failed s = elim s.status [ running ↦ false | _ ↦ true ]

-- The part of a round behind fsm.handle.
unfoldable pub after_handle : Callbacks → Config → Session → Message → Outcome → Session
unfolding is_failed
after_handle cb cfg s m discard_frame = count_error s
after_handle cb cfg s m close_connection = fail s
after_handle cb cfg s m crashed = record s { status = panicking }
after_handle cb cfg s m (reply none) =
    let s' = settle cb s in if is_failed s' then s' else conclude cb cfg s' m
after_handle cb cfg s m (reply (some out)) =
    let s' = settle cb s in
    if is_failed s'
    then s'
    else if cb.send out
    then conclude cb cfg (record s' { sent = out ∷ s'.sent }) m
    else fail s'

unfoldable pub on_message : Callbacks → Config → Session → Message → Session
unfolding valid_operational_message
on_message cb cfg s m =
    if s.fsm.operational
    then (if valid_operational_message cfg.context m.kind then deliver cb s m else count_error s)
    else (let (out, f) = handle cfg s.fsm m in after_handle cb cfg (record s { fsm = f }) m out)

-- One round of the loop.
unfoldable pub round : Callbacks → Config → Session → Event → Session
round cb cfg s (received m) = on_message cb cfg s m
round cb cfg s bad_frame = if s.fsm.opened then count_error s else fail s
round cb cfg s read_failed = fail s
round cb cfg s timed_out = if s.armed then fail s else s
round cb cfg s cancelled = fail s

abbrev pub is_running : Status → Bool
is_running running = true
is_running _ = false

-- The loop: it stops at the first round that returns.
unfoldable pub run : Callbacks → Config → Session → List Event → Session
run cb cfg s [] = s
run cb cfg s (e ∷ es) = if is_running s.status then run cb cfg (round cb cfg s e) es else s
