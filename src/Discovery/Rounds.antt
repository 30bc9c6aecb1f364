-- ===== src/Discovery/Rounds.antt =====
-- RunPeer: its counts, its store, and the path that it returns.
use velvet_fabric.Base.{
  ℕ, zero, suc, ◌+◌, ◌≤◌, ◌≡◌, refl, ◌∙◌, inl, inr, Bool, true, false, not, Option, none, some,
  List, [], ◌∷◌, arith, if◌then◌else◌, Bool-cases, length,
}
use velvet_fabric.Base.Bytes.{Bytes}
use velvet_fabric.Net.{AddrPort}
use velvet_fabric.Inference.{Observation, add, put_last}
use velvet_fabric.Inference.Infer.{SurveyInput}
use velvet_fabric.Inference.Store.{IsStore, add_lem}
use velvet_fabric.Inference.Plan.{infer}
use velvet_fabric.Discovery.State.{Peer, Limits}
use velvet_fabric.Discovery.Search.{Reason, survey_of}
use velvet_fabric.Discovery.Peer.{
  candidates_for, Arrival, Batch, PeerNetwork, PeerResult, no_result, PeerError, reciprocal,
  add_counted, Ending, failed, done, next, observe_more, try_round, peer_round, peer_loop,
  is_valid_peer, run_peer,
}

length-put_last : (o : Observation) (os : List Observation) → length (put_last os o) ≡ length os + 1
unfolding put_last
length-put_last o [] = refl
length-put_last o (p ∷ ps) = omega (arith, length-put_last o ps)

length-add :
    (o : Observation) (os : List Observation)
    → length (add o os).1 ≡ (if (add o os).0 then length os + 1 else length os)
unfolding add
length-add o os = ground (arith, length-put_last o os)

-- The count of new samples is the growth of the store from `base` samples, and the samples stay
-- valid and without repetitions.
pub record IsCounted (base : ℕ) (acc : PeerResult × List Observation) : Type 0 where
  pub count : acc.0.observations + base ≡ length acc.1
  pub store : IsStore acc.1

add_counted-IsCounted :
    (base : ℕ) (os : List Observation) (out : PeerResult) (store : List Observation)
    → IsCounted base (out, store)
    → IsCounted base (add_counted os (out, store))
      × ((add_counted os (out, store)).0.rounds ≡ out.rounds)
      × ((add_counted os (out, store)).0.reason ≡ out.reason)
unfolding add_counted
add_counted-IsCounted base [] out store h = (h, refl, refl)
add_counted-IsCounted base (o ∷ os) out store h =
    let kept = (add_lem o o store h.store).2 in
    let len = length-add o store in
    let out' : PeerResult =
      if (add o store).0 then record out { observations = out.observations + 1 } else out in
    let now : IsCounted base (out', (add o store).1) = record {
      count = ground (arith, len, h.count);
      store = kept;
    } in
    ground (arith, add_counted-IsCounted base os out' (add o store).1 now)

abbrev pub has_reason : Option Reason → Bool
has_reason none = false
has_reason (some r) = true

abbrev pub has_error : Option PeerError → Bool
has_error none = false
has_error (some e) = true

abbrev pub is_done : Ending → Bool
is_done (failed why) = false
is_done done = true
is_done (next changed) = false

-- A run that has counted right so far, is in the given round, and has a reason exactly when it ended
-- without an error.
pub record IsRound (base round : ℕ) (ended : Bool) (acc : PeerResult × List Observation)
    : Type 0 where
  pub counted : IsCounted base acc
  pub rounds : acc.0.rounds ≡ round
  pub reason : has_reason acc.0.reason ≡ ended

abbrev pub EndsRound : ℕ → ℕ → Ending × PeerResult × List Observation → Type 0
EndsRound base round (ending, out, store) = IsRound base round (is_done ending) (out, store)

observe_more-IsRound :
    (n : PeerNetwork) (base round before : ℕ) (input : SurveyInput) (out : PeerResult)
    (store : List Observation)
    → IsRound base round false (out, store)
    → (is_done (observe_more n round input before (out, store)).0 ≡ false)
      × EndsRound base round (observe_more n round input before (out, store))
unfolding observe_more
observe_more-IsRound n base round before input out store h =
    observed (n.observe round input store) refl
  where
    observed :
        (found : Option (List Observation))
        → n.observe round input store ≡ found
        → (is_done (observe_more n round input before (out, store)).0 ≡ false)
          × EndsRound base round (observe_more n round input before (out, store))
    observed none e = ground (arith, h, e)
    observed (some os) e =
        let (c, r, s) = add_counted-IsCounted base os out store h.counted in
        ground (arith, h, e, c, r, s)

try_round-IsRound :
    (text : AddrPort → Bytes) (n : PeerNetwork) (base round : ℕ) (input : SurveyInput)
    (endpoints : List AddrPort) (out : PeerResult) (store : List Observation)
    → IsRound base round false (out, store)
    → EndsRound base round (try_round text n round input endpoints (out, store))
unfolding try_round
try_round-IsRound text n base round input endpoints out store h = tried (n.try round endpoints) refl
  where
    Goal : Type 0
    Goal = EndsRound base round (try_round text n round input endpoints (out, store))

    tried :
        (found : Option (List Observation × List Arrival)) → n.try round endpoints ≡ found → Goal
    tried none e = ground (arith, h, e)
    tried (some (os, arrivals)) e =
        let path = reciprocal text os arrivals input.local in
        let (c, r, s) = add_counted-IsCounted base os out store h.counted in
        let (out', store') = add_counted os (out, store) in
        let h' : IsRound base round false (out', store') = record {
          counted = c;
          rounds = r ∙ h.rounds;
          reason = ground (arith, s, h.reason);
        } in
        ground
          (arith, e, h', c, observe_more-IsRound n base round (length store) input out' store' h')

pub peer_round-IsRound :
    (text : AddrPort → Bytes) (n : PeerNetwork) (lim : Limits) (base r round : ℕ)
    (input : SurveyInput) (changed : Bool) (out : PeerResult) (store : List Observation)
    → IsRound base r false (out, store)
    → EndsRound base round (peer_round text n lim round input changed (out, store))
unfolding peer_round
peer_round-IsRound text n lim base r round input changed out store h =
    let out0 : PeerResult = record out { rounds = round } in
    let h0 : IsRound base round false (out0, store) = record {
      counted = record { count = h.counted.count; store = h.counted.store };
      rounds = refl;
      reason = h.reason;
    } in
    exchanged out0 refl h0 (n.exchange round mine) refl
  where
    mine : Batch
    mine = record {
      endpoints = candidates_for (infer store input) lim.candidates;
      changed = changed;
    }

    exchanged :
        (out0 : PeerResult)
        → (out0 ≡ record out { rounds = round })
        → IsRound base round false (out0, store)
        → (found : Option Batch) → n.exchange round mine ≡ found
        → EndsRound base round (peer_round text n lim round input changed (out, store))
    exchanged out0 e0 h0 none e = ground (arith, e, e0, h0)
    exchanged out0 e0 h0 (some batch) e =
        ground (
          arith,
          e,
          e0,
          h0,
          try_round-IsRound text n base round input batch.endpoints out0 store h0,
        )

-- What a run ends with, when it may count rounds up to `last`.
pub record IsOutcome (base last : ℕ) (error : Option PeerError) (out : PeerResult)
    (store : List Observation) : Type 0 where
  pub counted : IsCounted base (out, store)
  pub few : out.rounds ≤ last
  pub reason : has_reason out.reason ≡ not (has_error error)

abbrev pub EndsRun : ℕ → ℕ → Option PeerError × PeerResult × List Observation → Type 0
EndsRun base last (error, out, store) = IsOutcome base last error out store

peer_loop-EndsRun :
    (text : AddrPort → Bytes) (n : PeerNetwork) (lim : Limits) (base left r round : ℕ)
    (input : SurveyInput) (changed : Bool) (out : PeerResult) (store : List Observation)
    → IsRound base r false (out, store)
    → r + 1 ≡ round
    → EndsRun base (r + left) (peer_loop text n lim left round input changed (out, store))
unfolding peer_loop
peer_loop-EndsRun text n lim base zero r round input changed out store h e = record {
  counted = record { count = h.counted.count; store = h.counted.store };
  few = omega (arith, h.rounds);
  reason = refl;
}
peer_loop-EndsRun text n lim base (suc left) r round input changed out store h e =
    let turn = peer_round text n lim round input changed (out, store) in
    let ends = peer_round-IsRound text n lim base r round input changed out store h in
    let rest : (c : Bool)
        → IsRound base round false (turn.1, turn.2)
        → EndsRun base (round + left)
            (peer_loop text n lim left (round + 1) input c (turn.1, turn.2)) =
      λ c k.
        peer_loop-EndsRun text n lim base left round (round + 1) input c turn.1 turn.2 k refl in
    turned rest ends turn.0 refl
  where
    turned :
        ((c : Bool)
          → IsRound base round false (
            (peer_round text n lim round input changed (out, store)).1,
            (peer_round text n lim round input changed (out, store)).2,
          )
          → EndsRun base (round + left) (
              peer_loop text n lim left (round + 1) input c (
                (peer_round text n lim round input changed (out, store)).1,
                (peer_round text n lim round input changed (out, store)).2,
              )))
        → EndsRound base round (peer_round text n lim round input changed (out, store))
        → (ending : Ending) → (peer_round text n lim round input changed (out, store)).0 ≡ ending
        → EndsRun base
            (r + suc left)
            (peer_loop text n lim (suc left) round input changed (out, store))
    turned rest ends (failed why) e1 = ground (arith, e, e1, ends)
    turned rest ends done e1 = ground (arith, e, e1, ends)
    turned rest ends (next c) e1 =
        let done' = rest c (ground (arith, e1, ends)) in ground (arith, e, e1, done')

-- A run of a node, whatever its network answers: the count of new samples is the growth of the store,
-- which keeps every sample valid and once; no more rounds run than MaxIterations, and none on an
-- invalid configuration; and
-- the result has a reason exactly when there is no error.
pub run_peer-EndsRun :
    (text : AddrPort → Bytes) (n : PeerNetwork) (p : Peer) (lim : Limits)
    → IsStore p.store
    → EndsRun
        (length p.store)
        (if is_valid_peer p lim then lim.max_iterations else 0)
        (run_peer text n p lim)
unfolding run_peer
run_peer-EndsRun text n p lim h = elim (Bool-cases (is_valid_peer p lim)) [
  | inl valid ↦
      let start : IsRound (length p.store) 0 false (no_result, p.store) = record {
        counted = record { count = omega arith; store = h };
        rounds = refl;
        reason = refl;
      } in
      let ends =
        peer_loop-EndsRun text n lim (length p.store) lim.max_iterations 0 1 (survey_of p) true
          no_result p.store start refl in
      ground (arith, valid, ends)
  | inr refused ↦ ground (arith, refused, h)
]
