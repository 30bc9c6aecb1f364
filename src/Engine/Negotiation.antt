-- ===== src/Engine/Negotiation.antt =====
-- What a Link negotiation keeps: offers and commits are acceptable, and attempts are bounded.
use velvet_fabric.Base.{WhenSome}
use velvet_fabric.Base.{
  ℕ, zero, suc, ◌+◌, ◌-◌, ◌≤◌, ◌≡◌, refl, sym, subst, inl, inr, Bool, true, false, not, ◌||◌,
  Option, none, some, List, [], ◌∷◌, arith, if◌then◌else◌, Bool-cases,
}
use velvet_fabric.Vfp.Values.{Uid}
use velvet_fabric.Vfp.Message.{Message}
use velvet_fabric.Engine.State.{
  Proposal, max_counterproposals, Config, Agreed, LinkFsm, discard_frame, proposal_eq, is_seen,
  accepts, within_prefix, is_kind_accept, is_kind_propose,
}
use velvet_fabric.Engine.Link.{
  next_proposal_from, next_proposal, counter, handle_proposal, handle_link, first_offer, start_link,
}

next_proposal_from_sound :
    (cfg : Config) (uid : Uid) (fuel attempt : ℕ) (seen : List Proposal) (p : Proposal)
    → (next_proposal_from cfg uid fuel attempt seen).0 ≡ some p
    → (accepts cfg uid p ≡ true) × (is_seen p seen ≡ false)
unfolding next_proposal_from
next_proposal_from_sound cfg uid zero attempt seen p e = cc
next_proposal_from_sound cfg uid (suc fuel) attempt seen p e =
    ground (arith, next_proposal_from_sound cfg uid fuel (attempt + 1) seen p)

next_proposal_from-le :
    (cfg : Config) (uid : Uid) (fuel attempt : ℕ) (seen : List Proposal)
    → (next_proposal_from cfg uid fuel attempt seen).1 ≤ attempt + fuel
unfolding next_proposal_from
next_proposal_from-le cfg uid zero attempt seen = omega arith
next_proposal_from-le cfg uid (suc fuel) attempt seen =
    ground (arith, next_proposal_from-le cfg uid fuel (attempt + 1) seen)

-- No proposal stands twice.
abbrev pub Distinct : List Proposal → Type 0
Distinct [] = Unit
Distinct (p ∷ ps) = (is_seen p ps ≡ false) × Distinct ps

next_proposal_from-Distinct :
    (cfg : Config) (uid : Uid) (fuel attempt : ℕ) (seen : List Proposal)
    → Distinct seen
    → Distinct (next_proposal_from cfg uid fuel attempt seen).2
unfolding next_proposal_from
next_proposal_from-Distinct cfg uid zero attempt seen h = h
next_proposal_from-Distinct cfg uid (suc fuel) attempt seen h =
    ground (arith, next_proposal_from-Distinct cfg uid fuel (attempt + 1) seen h)

abbrev pub IsAcceptable : Config → Agreed → Type 0
IsAcceptable cfg a = accepts cfg a.remote_uid a.proposal ≡ true

-- What holds of a negotiation between two messages: an offer that waits for its answer and a result
-- that waits for its commit are acceptable, proposals never repeat, and attempts are bounded.
pub record IsSound (cfg : Config) (l : LinkFsm) : Type 0 where
  pub offered : l.waiting_for_response ≡ true → accepts cfg l.remote_uid l.outstanding ≡ true
  pub pending : WhenSome (IsAcceptable cfg) l.pending_commit
  pub distinct : Distinct l.seen
  pub bounded : l.attempt ≤ max_counterproposals

module _ (cfg : Config) (l : LinkFsm) (h : IsSound cfg l) where
  next_proposal_lem :
      IsSound cfg (next_proposal cfg l).1
      × ((p : Proposal) → (next_proposal cfg l).0 ≡ some p → accepts cfg l.remote_uid p ≡ true)
      × ((next_proposal cfg l).1.remote_uid ≡ l.remote_uid)
  unfolding next_proposal
  next_proposal_lem = (
    record {
      offered = h.offered;
      pending = h.pending;
      distinct = next_proposal_from-Distinct cfg l.remote_uid _ l.attempt l.seen h.distinct;
      bounded = omega (
        arith,
        h.bounded,
        next_proposal_from-le cfg l.remote_uid (max_counterproposals - l.attempt) l.attempt l.seen,
      );
    },
    (λ p e. (next_proposal_from_sound cfg l.remote_uid _ l.attempt l.seen p e).0),
    refl,
  )

counter-IsSound :
    (cfg : Config) (l : LinkFsm) (p : Proposal) → IsSound cfg l → IsSound cfg (counter cfg l p).1
unfolding counter
counter-IsSound cfg l p h = split (next_proposal cfg l).0 refl
  where
    after :
        IsSound cfg (next_proposal cfg l).1
        × ((p : Proposal) → (next_proposal cfg l).0 ≡ some p → accepts cfg l.remote_uid p ≡ true)
        × ((next_proposal cfg l).1.remote_uid ≡ l.remote_uid)
    after = next_proposal_lem cfg l h

    split : (o : Option Proposal) → (next_proposal cfg l).0 ≡ o → IsSound cfg (counter cfg l p).1
    split none e = rw (e, counter) after.0
    split (some q) e =
        rw (e, counter)
          (elim (Bool-cases (proposal_eq q p)) [
            | inl t ↦ rw t after.0
            | inr f ↦ rw f (record {
              offered = λ _. after.1 q e;
              pending = after.0.pending;
              distinct = after.0.distinct;
              bounded = after.0.bounded;
            })
          ])

handle_proposal-IsSound :
    (cfg : Config) (l : LinkFsm) (m : Message)
    → IsSound cfg l
    → IsSound cfg (handle_proposal cfg l m).1
unfolding handle_proposal
handle_proposal-IsSound cfg l m h =
    elim (Bool-cases
      (not (within_prefix p.v4 cfg.link_pool_v4) || not (within_prefix p.v6 cfg.link_pool_v6))) [
        | inl outside ↦ rw outside h
        | inr inside ↦ rw inside (elim (Bool-cases (is_seen p l.seen)) [
          | inl repeated ↦ rw repeated h
          | inr fresh ↦ rw fresh (elim (Bool-cases (accepts cfg l.remote_uid p)) [
            | inl good ↦ rw good (record {
              offered = λ e. cc;
              pending = good;
              distinct = (fresh, h.distinct);
              bounded = h.bounded;
            })
            | inr bad ↦ rw bad (
                counter-IsSound cfg (record l { seen = p ∷ l.seen }) p
                  (record {
                    offered = h.offered;
                    pending = h.pending;
                    distinct = (fresh, h.distinct);
                    bounded = h.bounded;
                  }))
          ])
        ])
      ]
  where
    p : Proposal
    p = record { v4 = m.link_prefix_v4; v6 = m.link_prefix_v6 }

-- Each message keeps a negotiation sound.
pub handle_link-IsSound :
    (cfg : Config) (l : LinkFsm) (m : Message) → IsSound cfg l → IsSound cfg (handle_link cfg l m).1
unfolding handle_link
handle_link-IsSound cfg l m h = elim (Bool-cases l.waiting_for_remote_proposal) [
  | inl w ↦ simp w (proposal_or_not (is_kind_propose m.kind) refl)
  | inr n ↦ simp n (elim (Bool-cases l.waiting_for_response) [
    | inl r ↦ simp r (elim (Bool-cases (is_kind_accept m.kind)) [
      | inl a ↦ rw a (record {
        offered = λ e. cc;
        pending = h.offered r;
        distinct = h.distinct;
        bounded = h.bounded;
      })
      | inr o ↦ rw o (proposal_or_not (is_kind_propose m.kind) refl)
    ])
    | inr s ↦ simp s h
  ])
]
  where
    proposal_or_not :
        (b : Bool)
        → is_kind_propose m.kind ≡ b
        → IsSound cfg (if b then handle_proposal cfg l m else (discard_frame, l)).1
    proposal_or_not true e = handle_proposal-IsSound cfg l m h
    proposal_or_not false e = h

-- A negotiation that begins is sound once its first offer is made.
pub start_link-IsSound :
    (cfg : Config) (l : LinkFsm) → IsSound cfg l → IsSound cfg (start_link cfg l).1
unfolding start_link
start_link-IsSound cfg l h = elim (Bool-cases cfg.initiator) [
  | inl i ↦ simp i (offered_first (next_proposal cfg l).0 refl)
  | inr r ↦ simp r (record {
    offered = h.offered;
    pending = h.pending;
    distinct = h.distinct;
    bounded = h.bounded;
  })
]
  where
    after :
        IsSound cfg (next_proposal cfg l).1
        × ((p : Proposal) → (next_proposal cfg l).0 ≡ some p → accepts cfg l.remote_uid p ≡ true)
        × ((next_proposal cfg l).1.remote_uid ≡ l.remote_uid)
    after = next_proposal_lem cfg l h

    offered_first :
        (o : Option Proposal)
        → (next_proposal cfg l).0 ≡ o
        → IsSound cfg (first_offer (next_proposal cfg l).1 o).1
    offered_first none e = after.0
    offered_first (some p) e = record {
      offered = λ _. subst (λ u. accepts cfg u p ≡ true) (sym after.2) (after.1 p e);
      pending = after.0.pending;
      distinct = after.0.distinct;
      bounded = after.0.bounded;
    }
