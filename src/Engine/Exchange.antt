-- ===== src/Engine/Exchange.antt =====
-- Two ends of one Link that negotiate over a connection: each reply is delivered to the other end.
use velvet_fabric.Base.{ℕ, zero, suc, ◌≡◌, true, none, some}
use velvet_fabric.Net.{Addr}
use velvet_fabric.Vfp.Message.{Message}
use velvet_fabric.Engine.State.{
  Proposal, Config, LinkFsm, SessionFsm, reply, discard_frame, close_connection, crashed, accepts,
}
use velvet_fabric.Engine.Link.{agreed, handle_link, start_link}
use velvet_fabric.Engine.Session.{new_link}

-- How a negotiation ends. `unfinished` is a negotiation that runs out of fuel.
pub data NegotiationEnd : Type 0 where
  agreed_by : LinkFsm → LinkFsm → NegotiationEnd
  broken_off unfinished : NegotiationEnd

abbrev pub swapped : NegotiationEnd → NegotiationEnd
swapped (agreed_by l r) = agreed_by r l
swapped broken_off = broken_off
swapped unfinished = unfinished

-- The first end gets the message, and its reply goes to the second. An end that accepts an answer
-- has no more to say; a frame that is discarded leaves both ends waiting.
unfoldable pub exchange : ℕ → Config → Config → LinkFsm → LinkFsm → Message → NegotiationEnd
unfolding handle_link
exchange zero cfg cfg' l r m = unfinished
exchange (suc fuel) cfg cfg' l r m = elim (handle_link cfg l m).0 [
  | reply answer ↦ elim answer [
    | none ↦ agreed_by (handle_link cfg l m).1 r
    | some back ↦ swapped (exchange fuel cfg' cfg r (handle_link cfg l m).1 back)
  ]
  | discard_frame ↦ broken_off
  | close_connection ↦ broken_off
  | crashed ↦ broken_off
]

-- Each end may make 64 proposals; one more message accepts, and one more hears of it.
abbrev pub exchange_limit : ℕ
exchange_limit = 130

-- The initiator's end starts and, when it makes an offer, the other end gets it.
unfoldable pub negotiate : Config → Config → SessionFsm → SessionFsm → Addr → Addr → NegotiationEnd
unfolding start_link exchange
negotiate cfg cfg' s s' a a' = elim (start_link cfg (new_link s a)).0 [
  | reply answer ↦ elim answer [
    | none ↦ broken_off
    | some offer ↦ swapped (
        exchange exchange_limit cfg' cfg (start_link cfg' (new_link s' a')).1
          (start_link cfg (new_link s a)).1 offer)
  ]
  | discard_frame ↦ broken_off
  | close_connection ↦ broken_off
  | crashed ↦ broken_off
]

-- Both ends have the same proposal to commit, and both find it acceptable.
pub record Agree (cfg cfg' : Config) (l r : LinkFsm) : Type 0 where
  pub proposal : Proposal
  pub left_has : l.pending_commit ≡ some (agreed l proposal)
  pub right_has : r.pending_commit ≡ some (agreed r proposal)
  pub left_likes : accepts cfg l.remote_uid proposal ≡ true
  pub right_likes : accepts cfg' r.remote_uid proposal ≡ true

-- The negotiation is over, and when it was not broken off both ends agree.
abbrev pub Ends : Config → Config → NegotiationEnd → Type 0
Ends cfg cfg' (agreed_by l r) = Agree cfg cfg' l r
Ends cfg cfg' broken_off = Unit
Ends cfg cfg' unfinished = ⊥

pub Ends-swapped :
    (cfg cfg' : Config) (e : NegotiationEnd) → Ends cfg' cfg e → Ends cfg cfg' (swapped e)
Ends-swapped cfg cfg' (agreed_by l r) h = record {
  proposal = h.proposal;
  left_has = h.right_has;
  right_has = h.left_has;
  left_likes = h.right_likes;
  right_likes = h.left_likes;
}
Ends-swapped cfg cfg' broken_off h = tt
Ends-swapped cfg cfg' unfinished h = absurd h
