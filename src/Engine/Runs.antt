-- ===== src/Engine/Runs.antt =====
-- Runs of two engines at concrete configurations.
use velvet_fabric.Base.{ℕ, ◌≤◌, ◌≡◌, refl, ◌≢◌, Bool, true, false, none, some, [], ◌∷◌, length, All}
use velvet_fabric.Net.{v4, v6, none_addr, prefix, none_prefix, contains, prefix_eq}
use velvet_fabric.Vfp.Kinds.{open_type, node_state, link_accept}
use velvet_fabric.Vfp.Values.{Uid}
use velvet_fabric.Vfp.Message.{blank, zeros}
use velvet_fabric.Engine.State.{Proposal, Config, link_bound, LinkFsm, SessionFsm, within_prefix}
use velvet_fabric.Engine.Link.{next_proposal, agreed, handle_proposal}
use velvet_fabric.Engine.Session.{new_link}
use velvet_fabric.Engine.Exchange.{
  NegotiationEnd, agreed_by, broken_off, unfinished, negotiate, Ends,
}
use velvet_fabric.Engine.Agreement.{negotiate-Ends}
use velvet_fabric.Engine.Offer.{negotiate-offer}
use velvet_fabric.Engine.Run.{Event, received, bad_frame, panicking, Callbacks, Session, start, run}
use velvet_fabric.Engine.Negotiation.{IsAcceptable}
use velvet_fabric.Engine.Safety.{run_commits}

abbrev uid_of : ℕ → Uid
uid_of n = record { uuid = n ∷ zeros 15; name = [] }

-- 10.0.0.4/30
abbrev net_4 : Proposal
net_4 = record { v4 = prefix (v4 167772164) 30; v6 = none_prefix }

abbrev config : Bool → ℕ → Config
config initiator n = record {
  initiator = initiator;
  first_message = none;
  context = link_bound;
  local_uid = uid_of n;
  local_loopback_v6 = v6 1;
  expected_remote_loopback_v6 = none_addr;
  link_pool_v4 = prefix (v4 167772160) 8;
  link_pool_v6 = none_prefix;
  loopback_pool_v6 = prefix (v6 0) 0;
  derive = λ uuid attempt. some net_4;
  accept = none;
}

abbrev callbacks : Callbacks
callbacks = record {
  commit = λ a. true;
  send = λ m. true;
  enter_operational = λ f. true;
  operational_message = λ m. true;
}

abbrev hello : Event
hello = received (record (blank open_type) { uid = some (uid_of 2) })

abbrev peer_state : Event
peer_state = received (record (blank node_state) { loopback_v6 = v6 2 })

abbrev accepted : Event
accepted = received (blank link_accept)

abbrev outcome : Session
outcome =
    run callbacks (config true 1) (start callbacks (config true 1))
      (hello ∷ bad_frame ∷ peer_state ∷ accepted ∷ [])

run_commits_example :
    (outcome.status ≢ panicking)
    × (length outcome.commits ≤ 1)
    × All (IsAcceptable (config true 1)) outcome.commits
run_commits_example =
    run_commits callbacks (config true 1) (hello ∷ bad_frame ∷ peer_state ∷ accepted ∷ [])

-- 10.0.0.8/30
abbrev net_8 : Proposal
net_8 = record { v4 = prefix (v4 167772168) 30; v6 = none_prefix }

-- An end that has no use for net_4.
abbrev choosy : Config
choosy = record (config false 2) {
  derive = λ uuid attempt. some net_8;
  accept = some (λ uid p. prefix_eq p.v4 net_8.v4);
}

abbrev met : ℕ → SessionFsm
met n = record {
  opened = true;
  state_received = true;
  remote_uid = uid_of n;
  remote_v6 = v6 n;
  link = none;
  operational = false;
}

-- The first offer is refused, and the counterproposal is taken.
negotiate-Ends_example :
    Ends (config true 1) choosy (negotiate (config true 1) choosy (met 2) (met 1) (v6 2) (v6 1))
negotiate-Ends_example =
    negotiate-Ends (config true 1) choosy (met 2) (met 1) (v6 2) (v6 1) refl refl

abbrev on_net_8 : NegotiationEnd → Bool
on_net_8 (agreed_by l r) = elim l.pending_commit [
  | none ↦ false
  | some a ↦ prefix_eq a.proposal.v4 net_8.v4
]
on_net_8 broken_off = false
on_net_8 unfinished = false

ends_on_net_8 : on_net_8 (negotiate (config true 1) choosy (met 2) (met 1) (v6 2) (v6 1)) ≡ true
unfolding negotiate contains next_proposal handle_proposal prefix_eq
ends_on_net_8 = refl

negotiate-offer_example :
    (l : LinkFsm) × (r : LinkFsm) × (negotiate
        (config true 1)
        (config false 2)
        (met 2)
        (met 1)
        (v6 2)
        (v6 1)
      ≡ agreed_by l r)
    × (l.pending_commit ≡ some (agreed (new_link (met 2) (v6 2)) net_4))
    × (r.pending_commit ≡ some (agreed (new_link (met 1) (v6 1)) net_4))
unfolding contains within_prefix
negotiate-offer_example =
    negotiate-offer (config true 1) (config false 2) (met 2) (met 1) (v6 2) (v6 1) net_4 refl refl
      refl refl refl refl refl
