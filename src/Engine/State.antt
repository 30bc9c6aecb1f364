-- ===== src/Engine/State.antt =====
-- engine.go: the configuration and the state of a session, and the tests on proposals. The callbacks of
-- Config are pure functions here; `derive` is link.DeriveProposal with the session's keys, pools and
-- overrides, and `none` is its error.
use velvet_fabric.Base.{
  ℕ, Bool, true, false, not, ◌&&◌, ◌||◌, Option, none, some, List, [], ◌∷◌, leb,
}
use velvet_fabric.Base.Bytes.{Bytes}
use velvet_fabric.Net.{
  Addr, Prefix, none_prefix, prefix, addr_is_valid, prefix_is_valid, prefix_addr, prefix_eq,
  contains,
}
use velvet_fabric.Vfp.Kinds.{
  open_type, Kind, node_state, link_propose, link_accept, durable_propose,
}
use velvet_fabric.Vfp.Values.{Uid}
use velvet_fabric.Vfp.Message.{Message, blank}

-- link.Proposal
pub record Proposal : Type 0 where
  pub v4 : Prefix
  pub v6 : Prefix

abbrev pub max_counterproposals : ℕ
max_counterproposals = 64

-- SessionContext
pub data Context : Type 0 where
  link_bound routed : Context

pub record Config : Type 0 where
  pub initiator : Bool
  pub first_message : Option Message
  pub context : Context
  pub local_uid : Uid
  pub local_loopback_v6 : Addr
  pub expected_remote_loopback_v6 : Addr
  pub link_pool_v4 : Prefix
  pub link_pool_v6 : Prefix
  pub loopback_pool_v6 : Prefix
  pub derive : Bytes → ℕ → Option Proposal
  pub accept : Option (Uid → Proposal → Bool)

-- Result
pub record Agreed : Type 0 where
  pub remote_uid : Uid
  pub remote_loopback_v6 : Addr
  pub proposal : Proposal

-- staticLinkFSM
pub record LinkFsm : Type 0 where
  pub remote_uid : Uid
  pub remote_v6 : Addr
  pub waiting_for_remote_proposal : Bool
  pub waiting_for_response : Bool
  pub outstanding : Proposal
  pub attempt : ℕ
  pub seen : List Proposal
  pub pending_commit : Option Agreed
  pub established : Bool

-- sessionFSM
pub record SessionFsm : Type 0 where
  pub opened : Bool
  pub state_received : Bool
  pub remote_uid : Uid
  pub remote_v6 : Addr
  pub link : Option LinkFsm
  pub operational : Bool

-- What a handler returns: an optional reply, or an error with its disposition. `crashed` is the
-- method call on a nil link.
pub data Outcome : Type 0 where
  reply : Option Message → Outcome
  discard_frame close_connection crashed : Outcome

unfoldable pub proposal_eq : Proposal → Proposal → Bool
proposal_eq p q = prefix_eq p.v4 q.v4 && prefix_eq p.v6 q.v6

-- `_, used := s.seen[key]`; the key is the text of both prefixes, which determines them.
unfoldable pub is_seen : Proposal → List Proposal → Bool
unfolding proposal_eq
is_seen p [] = false
is_seen p (q ∷ qs) = proposal_eq p q || is_seen p qs

abbrev pub accepts : Config → Uid → Proposal → Bool
accepts cfg uid p = elim cfg.accept [ none ↦ true | some f ↦ f uid p ]

abbrev pub proposal_message : Proposal → Message
proposal_message p = record (blank link_propose) { link_prefix_v4 = p.v4; link_prefix_v6 = p.v6 }

abbrev pub prefix_bits : Prefix → ℕ
prefix_bits none_prefix = 0
prefix_bits (prefix a bits) = bits

unfoldable pub within_address : Addr → Prefix → Bool
within_address a pool = not (addr_is_valid a) || contains pool a

unfoldable pub within_prefix : Prefix → Prefix → Bool
within_prefix p pool =
    not (prefix_is_valid p)
    || (prefix_is_valid pool
        && leb (prefix_bits pool) (prefix_bits p)
        && contains pool (prefix_addr p))

abbrev pub is_kind_accept : Kind → Bool
is_kind_accept link_accept = true
is_kind_accept _ = false

abbrev pub is_kind_propose : Kind → Bool
is_kind_propose link_propose = true
is_kind_propose _ = false

abbrev pub is_kind_durable : Kind → Bool
is_kind_durable durable_propose = true
is_kind_durable _ = false

abbrev pub is_kind_state : Kind → Bool
is_kind_state node_state = true
is_kind_state _ = false

abbrev pub is_kind_open : Kind → Bool
is_kind_open open_type = true
is_kind_open _ = false
