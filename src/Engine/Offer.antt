-- ===== src/Engine/Offer.antt =====
-- A negotiation that ends with the first offer.
use velvet_fabric.Base.{ℕ, suc, ◌≡◌, refl, ap, ◌∙◌, true, false, none, some, [], ◌∷◌}
use velvet_fabric.Net.{Addr}
use velvet_fabric.Vfp.Kinds.{link_accept}
use velvet_fabric.Vfp.Message.{Message, blank}
use velvet_fabric.Engine.State.{
  Proposal, Config, LinkFsm, SessionFsm, Outcome, reply, accepts, proposal_message, within_prefix,
  is_seen,
}
use velvet_fabric.Engine.Link.{
  agreed, next_proposal_from, next_proposal, handle_proposal, handle_link, start_link,
}
use velvet_fabric.Engine.Session.{new_link}
use velvet_fabric.Engine.Exchange.{
  NegotiationEnd, agreed_by, swapped, exchange, exchange_limit, negotiate,
}
use velvet_fabric.Engine.Agreement.{handle_link-accept}

exchange_on :
    (f : ℕ) (cfg cfg' : Config) (l r l' : LinkFsm) (m back : Message)
    → handle_link cfg l m ≡ (reply (some back), l')
    → exchange (suc f) cfg cfg' l r m ≡ swapped (exchange f cfg' cfg r l' back)
unfolding exchange
exchange_on f cfg cfg' l r l' m back e =
    rw (ap (λ (x : Outcome × LinkFsm). x.0) e, exchange)
      (ap (λ (x : Outcome × LinkFsm). swapped (exchange f cfg' cfg r x.1 back)) e)

exchange_over :
    (f : ℕ) (cfg cfg' : Config) (l r l' : LinkFsm) (m : Message)
    → handle_link cfg l m ≡ (reply none, l')
    → exchange (suc f) cfg cfg' l r m ≡ agreed_by l' r
unfolding exchange
exchange_over f cfg cfg' l r l' m e =
    rw (ap (λ (x : Outcome × LinkFsm). x.0) e, exchange)
      (ap (λ (x : Outcome × LinkFsm). agreed_by x.1 r) e)

negotiate_on :
    (cfg cfg' : Config) (s s' : SessionFsm) (a a' : Addr) (l r : LinkFsm) (m : Message)
    → start_link cfg (new_link s a) ≡ (reply (some m), l)
    → start_link cfg' (new_link s' a') ≡ (reply none, r)
    → negotiate cfg cfg' s s' a a' ≡ swapped (exchange exchange_limit cfg' cfg r l m)
unfolding negotiate
negotiate_on cfg cfg' s s' a a' l r m e e' =
    rw (ap (λ (x : Outcome × LinkFsm). x.0) e, negotiate)
      (ap
          (λ (x : Outcome × LinkFsm).
            swapped (exchange exchange_limit cfg' cfg x.1 (start_link cfg (new_link s a)).1 m))
          e'
        ∙ ap (λ (x : Outcome × LinkFsm). swapped (exchange exchange_limit cfg' cfg r x.1 m)) e)

module _ (cfg : Config) (s : SessionFsm) (a : Addr) (p : Proposal) where
  -- An end whose offer is out, and one that has taken an offer.
  abbrev with_offer : LinkFsm
  with_offer = record (new_link s a) {
    outstanding = p;
    waiting_for_response = true;
    attempt = 1;
    seen = p ∷ [];
  }

  abbrev with_result : LinkFsm
  with_result = record (new_link s a) {
    seen = p ∷ [];
    pending_commit = some (agreed (new_link s a) p);
  }

  start_link-first :
      cfg.initiator ≡ true
      → cfg.derive s.remote_uid.uuid 0 ≡ some p
      → accepts cfg s.remote_uid p ≡ true
      → start_link cfg (new_link s a) ≡ (reply (some (proposal_message p)), with_offer)
  unfolding start_link next_proposal next_proposal_from is_seen
  start_link-first i d good = simp (i, d, good) refl

  start_link-second :
      cfg.initiator ≡ false
      → start_link cfg (new_link s a)
        ≡ (reply none, record (new_link s a) { waiting_for_remote_proposal = true })
  unfolding start_link
  start_link-second i = simp i refl

  handle_link-first :
      within_prefix p.v4 cfg.link_pool_v4 ≡ true
      → within_prefix p.v6 cfg.link_pool_v6 ≡ true
      → accepts cfg s.remote_uid p ≡ true
      → handle_link cfg
          (record (new_link s a) { waiting_for_remote_proposal = true })
          (proposal_message p)
        ≡ (reply (some (blank link_accept)), with_result)
  unfolding handle_link handle_proposal is_seen
  handle_link-first in4 in6 good = simp (in4, in6, good) refl

-- When the initiator's first derived proposal is acceptable to both ends, and lies inside the pools of
-- the other end, the negotiation ends with that proposal to commit at both ends.
pub negotiate-offer :
    (cfg cfg' : Config) (s s' : SessionFsm) (a a' : Addr) (p : Proposal)
    → cfg.initiator ≡ true
    → cfg'.initiator ≡ false
    → cfg.derive s.remote_uid.uuid 0 ≡ some p
    → accepts cfg s.remote_uid p ≡ true
    → accepts cfg' s'.remote_uid p ≡ true
    → within_prefix p.v4 cfg'.link_pool_v4 ≡ true
    → within_prefix p.v6 cfg'.link_pool_v6 ≡ true
    → (l : LinkFsm) × (r : LinkFsm) × (negotiate cfg cfg' s s' a a' ≡ agreed_by l r)
      × (l.pending_commit ≡ some (agreed (new_link s a) p))
      × (r.pending_commit ≡ some (agreed (new_link s' a') p))
negotiate-offer cfg cfg' s s' a a' p i i' d good good' in4 in6 = (_, _, ends, refl, refl)
  where
    r : LinkFsm
    r = with_result cfg' s' a' p

    l : LinkFsm
    l = with_offer cfg s a p

    l' : LinkFsm
    l' = record l { pending_commit = some (agreed l p); waiting_for_response = false }

    ends : negotiate cfg cfg' s s' a a' ≡ agreed_by l' r
    ends =
        negotiate_on cfg cfg' s s' a a' l _ (proposal_message p)
          (start_link-first cfg s a p i d good) (start_link-second cfg' s' a' p i')
        ∙ ap swapped (
            exchange_on 129 cfg' cfg _ l r (proposal_message p) (blank link_accept)
              (handle_link-first cfg' s' a' p in4 in6 good'))
        ∙ ap (λ (e : NegotiationEnd). swapped (swapped e))
            (exchange_over 128 cfg cfg' l r l' (blank link_accept)
              (handle_link-accept cfg l (blank link_accept) refl refl refl))
