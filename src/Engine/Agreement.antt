-- ===== src/Engine/Agreement.antt =====
-- Every negotiation ends, and its two ends agree unless it was broken off.
use velvet_fabric.Base.{
  ℕ, zero, suc, ◌+◌, ◌-◌, ◌≤◌, ◌<◌, ◌≡◌, refl, sym, ap, subst, ◌⊎◌, inl, inr, true, false, not,
  ◌||◌, Option, none, some, List, ◌∷◌, arith, Bool-cases, if_keeps,
}
use velvet_fabric.Net.{Addr}
use velvet_fabric.Vfp.Kinds.{link_accept}
use velvet_fabric.Vfp.Values.{Uid}
use velvet_fabric.Vfp.Message.{Message, blank}
use velvet_fabric.Engine.State.{
  Proposal, max_counterproposals, Config, LinkFsm, SessionFsm, Outcome, reply, discard_frame,
  close_connection, accepts, proposal_message, within_prefix, is_seen, proposal_eq,
}
use velvet_fabric.Engine.Link.{
  agreed, next_proposal_from, next_proposal, counter, handle_proposal, handle_link, start_link,
}
use velvet_fabric.Engine.Session.{new_link}
use velvet_fabric.Engine.Exchange.{exchange, exchange_limit, negotiate, Agree, Ends, Ends-swapped}

abbrev left : LinkFsm → ℕ
left l = max_counterproposals - l.attempt

next_proposal_from_lem :
    (cfg : Config) (uid : Uid) (fuel attempt : ℕ) (seen : List Proposal) (p : Proposal)
    → (next_proposal_from cfg uid fuel attempt seen).0 ≡ some p
    → (accepts cfg uid p ≡ true)
      × (attempt < (next_proposal_from cfg uid fuel attempt seen).1)
      × (0 < fuel)
unfolding next_proposal_from
next_proposal_from_lem cfg uid zero attempt seen p e = cc
next_proposal_from_lem cfg uid (suc fuel) attempt seen p e =
    ground (arith, next_proposal_from_lem cfg uid fuel (attempt + 1) seen p)

-- An end that found `p` as its next proposal.
next_proposal_found :
    (cfg : Config) (l : LinkFsm) (p : Proposal)
    → (next_proposal cfg l).0 ≡ some p
    → (accepts cfg l.remote_uid p ≡ true) × (left (next_proposal cfg l).1 < left l)
unfolding next_proposal
next_proposal_found cfg l p e =
    let found =
      next_proposal_from_lem cfg l.remote_uid (max_counterproposals - l.attempt) l.attempt l.seen p
        e in
    (found.0, omega (arith, found.1, found.2))

-- What an end makes of the proposal `p`.
data Answered (cfg : Config) (l : LinkFsm) (p : Proposal) (x : Outcome × LinkFsm) : Type 0 where
  refused : (x.0 ≡ discard_frame) ⊎ (x.0 ≡ close_connection) → Answered cfg l p x
  took :
      x.0 ≡ reply (some (blank link_accept))
      → x.1.pending_commit ≡ some (agreed x.1 p)
      → accepts cfg x.1.remote_uid p ≡ true
      → Answered cfg l p x
  countered :
      x.0 ≡ reply (some (proposal_message x.1.outstanding))
      → x.1.waiting_for_remote_proposal ≡ false
      → x.1.waiting_for_response ≡ true
      → accepts cfg x.1.remote_uid x.1.outstanding ≡ true
      → left x.1 < left l
      → Answered cfg l p x

counter-Answered :
    (cfg : Config) (l : LinkFsm) (seen : List Proposal) (p : Proposal)
    → Answered cfg l p (counter cfg (record l { seen = seen }) p)
unfolding counter
counter-Answered cfg l seen p = split (next_proposal cfg s).0 refl
  where
    s : LinkFsm
    s = record l { seen = seen }

    split : (o : Option Proposal) → (next_proposal cfg s).0 ≡ o → Answered cfg l p (counter cfg s p)
    split none e = rw (e, counter) (refused (inr refl))
    split (some q) e =
        let found = next_proposal_found cfg s q e in
        rw (e, counter)
          (elim (Bool-cases (proposal_eq q p)) [
            | inl t ↦ rw t (refused (inr refl))
            | inr f ↦ rw f (countered refl refl refl found.0 found.1)
          ])

handle_proposal-Answered :
    (cfg : Config) (l : LinkFsm) (p : Proposal)
    → Answered cfg l p (handle_proposal cfg l (proposal_message p))
unfolding handle_proposal
handle_proposal-Answered cfg l p =
    if_keeps (Answered cfg l p)
      (not (within_prefix p.v4 cfg.link_pool_v4) || not (within_prefix p.v6 cfg.link_pool_v6)) _ _
      (λ w. refused (inl refl))
      (if_keeps (Answered cfg l p) (is_seen p l.seen) _ _ (λ w. refused (inr refl))
        (elim (Bool-cases (accepts cfg l.remote_uid p)) [
          | inl good ↦ rw good (took refl refl good)
          | inr bad ↦ rw bad (counter-Answered cfg l (p ∷ l.seen) p)
        ]))

-- An end that takes a proposal: it waits for the first one, or for the answer to its own.
abbrev IsReady : LinkFsm → Type 0
IsReady l =
    (l.waiting_for_remote_proposal ≡ true)
    ⊎ ((l.waiting_for_remote_proposal ≡ false) × (l.waiting_for_response ≡ true))

handle_link-Answered :
    (cfg : Config) (l : LinkFsm) (p : Proposal)
    → IsReady l
    → Answered cfg l p (handle_link cfg l (proposal_message p))
unfolding handle_link
handle_link-Answered cfg l p (inl w) = simp w (handle_proposal-Answered cfg l p)
handle_link-Answered cfg l p (inr (w, r)) = simp (w, r) (handle_proposal-Answered cfg l p)

-- The message on its way from the end `r` to the end `l`: the offer that `r` waits with, or the
-- acceptance of the offer of `l`.
data InFlight (cfg cfg' : Config) (l r : LinkFsm) (m : Message) : Type 0 where
  offering :
      m ≡ proposal_message r.outstanding
      → r.waiting_for_remote_proposal ≡ false
      → r.waiting_for_response ≡ true
      → accepts cfg' r.remote_uid r.outstanding ≡ true
      → IsReady l
      → InFlight cfg cfg' l r m
  accepting :
      m ≡ blank link_accept
      → l.waiting_for_remote_proposal ≡ false
      → l.waiting_for_response ≡ true
      → accepts cfg l.remote_uid l.outstanding ≡ true
      → r.pending_commit ≡ some (agreed r l.outstanding)
      → accepts cfg' r.remote_uid l.outstanding ≡ true
      → InFlight cfg cfg' l r m

-- The messages that may still follow.
abbrev to_come : {cfg cfg' : Config} {l r : LinkFsm} {m : Message} → InFlight cfg cfg' l r m → ℕ
to_come {l = l} {r = r} (offering _ _ _ _ _) = left l + left r + 2
to_come (accepting _ _ _ _ _ _) = 1

pub handle_link-accept :
    (cfg : Config) (l : LinkFsm) (m : Message)
    → m ≡ blank link_accept
    → l.waiting_for_remote_proposal ≡ false
    → l.waiting_for_response ≡ true
    → handle_link cfg l m ≡ (
      reply none,
      record l { pending_commit = some (agreed l l.outstanding); waiting_for_response = false },
    )
unfolding handle_link
handle_link-accept cfg l m e w1 w2 = simp (e, w1, w2) refl

exchange-Ends :
    (fuel : ℕ) (cfg cfg' : Config) (l r : LinkFsm) (m : Message) (h : InFlight cfg cfg' l r m)
    → to_come h ≤ fuel
    → Ends cfg cfg' (exchange fuel cfg cfg' l r m)
unfolding exchange
exchange-Ends zero cfg cfg' l r m (offering _ _ _ _ _) k = absurd (omega (arith, k))
exchange-Ends zero cfg cfg' l r m (accepting _ _ _ _ _ _) k = absurd (omega (arith, k))
exchange-Ends (suc f) cfg cfg' l r m (accepting e w1 w2 good same good') k =
    let heard = handle_link-accept cfg l m e w1 w2 in
    rw (ap (λ (x : Outcome × LinkFsm). x.0) heard, exchange)
      (subst (λ (x : Outcome × LinkFsm). Agree cfg cfg' x.1 r) (sym heard)
        (record {
          proposal = l.outstanding;
          left_has = refl;
          right_has = same;
          left_likes = good;
          right_likes = good';
        }))
exchange-Ends (suc f) cfg cfg' l r m (offering e w1 w2 good ready) k =
    answered (exchange-Ends f cfg' cfg r (handle_link cfg l m).1) (
      subst (λ (n : Message). Answered cfg l r.outstanding (handle_link cfg l n)) (sym e)
        (handle_link-Answered cfg l r.outstanding ready))
  where
    x : Outcome × LinkFsm
    x = handle_link cfg l m

    answered :
        ((n : Message) (h : InFlight cfg' cfg r x.1 n)
          → to_come h ≤ f
          → Ends cfg' cfg (exchange f cfg' cfg r x.1 n))
        → Answered cfg l r.outstanding x
        → Ends cfg cfg' (exchange (suc f) cfg cfg' l r m)
    answered again (refused (inl d)) = rw (d, exchange) tt
    answered again (refused (inr c)) = rw (c, exchange) tt
    answered again (took o pending likes) =
        rw (o, exchange)
          (Ends-swapped cfg cfg' (exchange f cfg' cfg r x.1 (blank link_accept)) (
            again (blank link_accept) (accepting refl w1 w2 good pending likes) (omega (arith, k))))
    answered again (countered o v1 v2 likes less) =
        rw (o, exchange)
          (Ends-swapped cfg cfg' (exchange f cfg' cfg r x.1 (proposal_message x.1.outstanding)) (
            again (proposal_message x.1.outstanding) (offering refl v1 v2 likes (inr (w1, w2)))
              (omega (arith, k, less))))

-- When one end is the initiator and the other is not, their negotiation is over after at most 130
-- deliveries, whatever proposals each end derives and accepts. Unless it was broken off, both ends then
-- have the same proposal to commit, and each end finds it acceptable.
pub negotiate-Ends :
    (cfg cfg' : Config) (s s' : SessionFsm) (a a' : Addr)
    → cfg.initiator ≡ true
    → cfg'.initiator ≡ false
    → Ends cfg cfg' (negotiate cfg cfg' s s' a a')
unfolding negotiate start_link next_proposal
negotiate-Ends cfg cfg' s s' a a' i i' = offered (next_proposal cfg (new_link s a)).0 refl
  where
    l : LinkFsm
    l = new_link s a

    r : LinkFsm
    r = record (new_link s' a') { waiting_for_remote_proposal = true }

    offered :
        (o : Option Proposal)
        → (next_proposal cfg l).0 ≡ o
        → Ends cfg cfg' (negotiate cfg cfg' s s' a a')
    offered none e = simp (i, e, negotiate, start_link) tt
    offered (some p) e =
        let found = next_proposal_found cfg l p e in
        let l' : LinkFsm = record (next_proposal cfg l).1 {
          outstanding = p;
          waiting_for_response = true;
        } in
        simp (i, i', e, negotiate, start_link)
          (Ends-swapped cfg cfg' (exchange exchange_limit cfg' cfg r l' (proposal_message p)) (
            exchange-Ends exchange_limit cfg' cfg r l' (proposal_message p)
              (offering refl refl refl found.0 (inl refl)) (omega (arith, found.1))))
