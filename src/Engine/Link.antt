-- ===== src/Engine/Link.antt =====
-- engine.go: staticLinkFSM, the negotiation of one Link.
use velvet_fabric.Base.{
  ℕ, zero, suc, ◌+◌, ◌-◌, true, false, not, ◌||◌, Option, none, some, List, ◌∷◌, if◌then◌else◌,
}
use velvet_fabric.Vfp.Kinds.{link_accept}
use velvet_fabric.Vfp.Values.{Uid}
use velvet_fabric.Vfp.Message.{Message, blank}
use velvet_fabric.Engine.State.{
  Proposal, max_counterproposals, Config, Agreed, LinkFsm, Outcome, reply, discard_frame,
  close_connection, proposal_eq, is_seen, accepts, proposal_message, within_prefix,
}
use velvet_fabric.Engine.State.{is_kind_accept, is_kind_propose}

-- The loop of nextProposal, for `fuel` more attempts: the proposal, if one is found, with the
-- attempt counter and the set of seen proposals as they are left.
unfoldable pub next_proposal_from :
    Config → Uid → ℕ → ℕ → List Proposal → Option Proposal × ℕ × List Proposal
unfolding is_seen
next_proposal_from cfg uid zero attempt seen = (none, attempt, seen)
next_proposal_from cfg uid (suc fuel) attempt seen = elim (cfg.derive uid.uuid attempt) [
  | none ↦ (none, attempt + 1, seen)
  | some p ↦ elim (is_seen p seen || not (accepts cfg uid p)) [
    | true ↦ next_proposal_from cfg uid fuel (attempt + 1) seen
    | false ↦ (some p, attempt + 1, p ∷ seen)
  ]
]

-- nextProposal: `none` is its error.
unfoldable pub next_proposal : Config → LinkFsm → Option Proposal × LinkFsm
unfolding next_proposal_from
next_proposal cfg s =
    let (found, attempt, seen) =
      next_proposal_from cfg s.remote_uid (max_counterproposals - s.attempt) s.attempt s.seen in
    (found, record s { attempt = attempt; seen = seen })

abbrev pub agreed : LinkFsm → Proposal → Agreed
agreed s p = record { remote_uid = s.remote_uid; remote_loopback_v6 = s.remote_v6; proposal = p }

-- Offers `p` and waits for the answer.
abbrev pub offer : LinkFsm → Proposal → Outcome × LinkFsm
offer s p = (
  reply (some (proposal_message p)),
  record s { outstanding = p; waiting_for_remote_proposal = false; waiting_for_response = true },
)

-- The end of handleProposal: a counterproposal that differs from the one refused.
unfoldable pub counter : Config → LinkFsm → Proposal → Outcome × LinkFsm
unfolding next_proposal proposal_eq
counter cfg s p =
    let (found, s') = next_proposal cfg s in
    elim found [
      | none ↦ (close_connection, s')
      | some q ↦ if proposal_eq q p then (close_connection, s') else offer s' q
    ]

unfoldable pub handle_proposal : Config → LinkFsm → Message → Outcome × LinkFsm
unfolding counter is_seen within_prefix
handle_proposal cfg s m =
    let p : Proposal = record { v4 = m.link_prefix_v4; v6 = m.link_prefix_v6 } in
    let s' : LinkFsm = record s { seen = p ∷ s.seen } in
    if not (within_prefix p.v4 cfg.link_pool_v4) || not (within_prefix p.v6 cfg.link_pool_v6)
    then (discard_frame, s)
    else if is_seen p s.seen
    then (close_connection, s)
    else if accepts cfg s.remote_uid p
    then (
      reply (some (blank link_accept)),
      record s' {
        pending_commit = some (agreed s p);
        waiting_for_remote_proposal = false;
        waiting_for_response = false;
      },
    )
    else counter cfg s' p

-- staticLinkFSM.handle
unfoldable pub handle_link : Config → LinkFsm → Message → Outcome × LinkFsm
handle_link cfg s m =
    if s.waiting_for_remote_proposal
    then (if is_kind_propose m.kind then handle_proposal cfg s m else (discard_frame, s))
    else if s.waiting_for_response
    then (if is_kind_accept m.kind
        then (
          reply none,
          record s { pending_commit = some (agreed s s.outstanding); waiting_for_response = false },
        )
        else if is_kind_propose m.kind
        then handle_proposal cfg s m
        else (discard_frame, s))
    else (discard_frame, s)

-- The first proposal of the initiator, if one was found.
abbrev pub first_offer : LinkFsm → Option Proposal → Outcome × LinkFsm
first_offer s none = (close_connection, s)
first_offer s (some p) =
    (reply (some (proposal_message p)), record s { outstanding = p; waiting_for_response = true })

-- staticLinkFSM.start
unfoldable pub start_link : Config → LinkFsm → Outcome × LinkFsm
start_link cfg s =
    if cfg.initiator
    then (let (found, s') = next_proposal cfg s in first_offer s' found)
    else (reply none, record s { waiting_for_remote_proposal = true })
