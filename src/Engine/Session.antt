-- ===== src/Engine/Session.antt =====
-- engine.go: sessionFSM, from OPEN to the operational session.
use velvet_fabric.Vfp.Values.{Uid}
use velvet_fabric.Base.{Option, true, false, not, ◌&&◌, ◌||◌, none, some, [], if◌then◌else◌}
use velvet_fabric.Base.Bytes.{bytes_eq}
use velvet_fabric.Net.{Addr, none_prefix, addr_is_valid, addr_eq}
use velvet_fabric.Vfp.Kinds.{node_state}
use velvet_fabric.Vfp.Message.{Message, blank}
use velvet_fabric.Engine.State.{
  Context, Proposal, link_bound, routed, Config, LinkFsm, SessionFsm, Outcome, reply, discard_frame,
  close_connection, crashed, within_address,
}
use velvet_fabric.Engine.State.{is_kind_durable, is_kind_open, is_kind_state}
use velvet_fabric.Engine.Link.{start_link, handle_link}

abbrev pub no_proposal : Proposal
no_proposal = record { v4 = none_prefix; v6 = none_prefix }

abbrev pub new_link : SessionFsm → Addr → LinkFsm
new_link s remote_v6 = record {
  remote_uid = s.remote_uid;
  remote_v6 = remote_v6;
  waiting_for_remote_proposal = false;
  waiting_for_response = false;
  outstanding = no_proposal;
  attempt = 0;
  seen = [];
  pending_commit = none;
  established = false;
}

-- The UID of an OPEN, which must be another node's.
unfoldable pub open_uid : Config → SessionFsm → Option Uid → Outcome × SessionFsm
open_uid cfg s none = (close_connection, s)
open_uid cfg s (some uid) =
    if bytes_eq uid.uuid cfg.local_uid.uuid then (close_connection, s) else (
      reply (some (record (blank node_state) { loopback_v6 = cfg.local_loopback_v6 })),
      record s { remote_uid = uid; opened = true },
    )

unfoldable pub handle_open : Config → SessionFsm → Message → Outcome × SessionFsm
unfolding open_uid
handle_open cfg s m = if is_kind_open m.kind then open_uid cfg s m.uid else (close_connection, s)

-- handleNodeState behind its tests of a link-bound session.
unfoldable pub begin_link : Config → SessionFsm → Outcome × SessionFsm
begin_link cfg s =
    let (out, l) = start_link cfg (new_link s s.remote_v6) in (out, record s { link = some l })

-- The initiator's first business message, if there is one.
unfoldable pub enter_first : Config → SessionFsm → Option Message → Outcome × SessionFsm
enter_first cfg s none = begin_link cfg s
enter_first cfg s (some first) =
    if not cfg.initiator
    then begin_link cfg s
    else if is_kind_durable first.kind
    then (reply (some first), record s { operational = true })
    else (close_connection, s)

unfoldable pub enter_link : Config → SessionFsm → Outcome × SessionFsm
unfolding enter_first
enter_link cfg s = enter_first cfg s cfg.first_message

unfoldable pub enter_routed : Config → SessionFsm → Outcome × SessionFsm
unfolding addr_eq
enter_routed cfg s =
    if addr_is_valid cfg.expected_remote_loopback_v6
      && not (addr_eq s.remote_v6 cfg.expected_remote_loopback_v6)
    then (close_connection, s)
    else (reply none, record s { operational = true })

abbrev pub enter_session : Config → SessionFsm → Context → Outcome × SessionFsm
enter_session cfg s routed = enter_routed cfg s
enter_session cfg s link_bound = enter_link cfg s

unfoldable pub handle_node_state : Config → SessionFsm → Message → Outcome × SessionFsm
unfolding within_address
handle_node_state cfg s m =
    let s' : SessionFsm = record s { state_received = true; remote_v6 = m.loopback_v6 } in
    if not (is_kind_state m.kind) || not (within_address m.loopback_v6 cfg.loopback_pool_v6)
    then (discard_frame, s)
    else enter_session cfg s' cfg.context

-- sessionFSM.handle once both openings are done; without a link it is a call on a nil pointer.
unfoldable pub handle_on : Config → SessionFsm → Message → Option LinkFsm → Outcome × SessionFsm
handle_on cfg s m none = (crashed, s)
handle_on cfg s m (some l) =
    if not cfg.initiator && l.waiting_for_remote_proposal && is_kind_durable m.kind
    then (reply none, record s { link = none; operational = true })
    else (let (out, l') = handle_link cfg l m in (out, record s { link = some l' }))

unfoldable pub handle_business : Config → SessionFsm → Message → Outcome × SessionFsm
unfolding handle_on
handle_business cfg s m = handle_on cfg s m s.link

-- sessionFSM.handle
unfoldable pub handle : Config → SessionFsm → Message → Outcome × SessionFsm
handle cfg s m =
    if not s.opened
    then handle_open cfg s m
    else if not s.state_received
    then handle_node_state cfg s m
    else handle_business cfg s m
