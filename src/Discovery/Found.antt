-- ===== src/Discovery/Found.antt =====
-- RunPeer: the path that it returns.
use velvet_fabric.Base.{
  ℕ, zero, suc, ◌+◌, ◌≡◌, refl, sym, ap, ◌∙◌, subst, inl, inr, Bool, true, false, Option, none,
  some, List, [], ◌∷◌, arith, Bool-cases, length,
}
use velvet_fabric.Base.Bytes.{Bytes}
use velvet_fabric.Net.{AddrPort}
use velvet_fabric.Inference.{Observation, add}
use velvet_fabric.Inference.Infer.{SurveyInput}
use velvet_fabric.Inference.Store.{IsStore}
use velvet_fabric.Inference.Plan.{infer}
use velvet_fabric.Discovery.State.{Peer, Limits}
use velvet_fabric.Discovery.Search.{Reason, connected, survey_of}
use velvet_fabric.Discovery.Rounds.{IsRound, EndsRound, has_reason, peer_round-IsRound}
use velvet_fabric.Discovery.Peer.{
  candidates_for, Arrival, Batch, PeerNetwork, PeerResult, no_result, reciprocal, add_counted,
  agreed_path, Ending, failed, done, next, observe_more, try_round, peer_round, peer_loop,
  is_valid_peer, run_peer,
}
use velvet_fabric.Discovery.Reciprocal.{is_shown, agreed_path-eq-some, reciprocal-is_shown}

-- A round whose path both sides have published, and the sample and the arrival that show it.
pub record IsFound (n : PeerNetwork) (local : AddrPort) (out : PeerResult) : Type 0 where
  pub round : ℕ
  pub endpoints : List AddrPort
  pub samples : List Observation
  pub arrivals : List Arrival
  pub local_is : out.local ≡ local
  pub tried : n.try round endpoints ≡ some (samples, arrivals)
  pub shown : is_shown local (out.seen, out.endpoint) samples arrivals ≡ true
  pub published : n.agree round (out.seen ∷ out.endpoint ∷ []) ≡ some (out.endpoint ∷ out.seen ∷ [])

add_counted-reason :
    (os : List Observation) (out : PeerResult) (store : List Observation)
    → (add_counted os (out, store)).0.reason ≡ out.reason
unfolding add_counted
add_counted-reason [] out store = refl
add_counted-reason (o ∷ os) out store = ground (
  arith,
  add_counted-reason os (record out { observations = out.observations + 1 }) (add o store).1,
  add_counted-reason os out (add o store).1,
)

has_reason-none : (r : Option Reason) → has_reason r ≡ false → r ≡ none
has_reason-none none h = refl
has_reason-none (some r) h = cc

module _ (text : AddrPort → Bytes) (n : PeerNetwork) where
  observe_more-reason :
      (round before : ℕ) (input : SurveyInput) (out : PeerResult) (store : List Observation)
      → (observe_more n round input before (out, store)).1.reason ≡ out.reason
  unfolding observe_more
  observe_more-reason round before input out store = observed (n.observe round input store) refl
    where
      observed :
          (found : Option (List Observation))
          → n.observe round input store ≡ found
          → (observe_more n round input before (out, store)).1.reason ≡ out.reason
      observed none e = ground (arith, e)
      observed (some os) e = ground (arith, e, add_counted-reason os out store)

  try_round-IsFound :
      (round : ℕ) (input : SurveyInput) (endpoints : List AddrPort) (out : PeerResult)
      (store : List Observation)
      → out.reason ≡ none
      → (try_round text n round input endpoints (out, store)).1.reason ≡ some connected
      → ((try_round text n round input endpoints (out, store)).0 ≡ done)
        × IsFound n input.local (try_round text n round input endpoints (out, store)).1
  unfolding try_round
  try_round-IsFound round input endpoints out store r h = tried (n.try round endpoints) refl
    where
      Goal : Type 0
      Goal =
          ((try_round text n round input endpoints (out, store)).0 ≡ done)
          × IsFound n input.local (try_round text n round input endpoints (out, store)).1

      path_of : List Observation → List Arrival → List AddrPort
      path_of os arrivals = reciprocal text os arrivals input.local

      met :
          (os : List Observation) (arrivals : List Arrival) (other : List AddrPort)
          → n.try round endpoints ≡ some (os, arrivals)
          → n.agree round (path_of os arrivals) ≡ some other
          → (answer : Option (AddrPort × AddrPort))
          → agreed_path (path_of os arrivals) other ≡ answer
          → Goal
      met os arrivals other e1 e2 none e3 =
          let out' = (add_counted os (out, store)).0 in
          let store' = (add_counted os (out, store)).1 in
          ground (
            arith,
            h,
            r,
            e1,
            e2,
            e3,
            add_counted-reason os out store,
            observe_more-reason round (length store) input out' store',
          )
      met os arrivals other e1 e2 (some (seen, endpoint)) e3 =
          let (p1, p2) = agreed_path-eq-some (path_of os arrivals) other seen endpoint e3 in
          let shown = reciprocal-is_shown text os arrivals input.local seen endpoint p1 in
          let (out', store') = add_counted os (out, store) in
          let published : n.agree round (seen ∷ endpoint ∷ []) ≡ some (endpoint ∷ seen ∷ []) =
            subst (λ (p : List AddrPort). n.agree round p ≡ some (endpoint ∷ seen ∷ [])) p1
              (e2 ∙ ap some p2) in
          let found : IsFound n input.local (record out' {
            local = input.local;
            seen = seen;
            endpoint = endpoint;
            reason = some connected;
          }) =
            record {
              round = round;
              endpoints = endpoints;
              samples = os;
              arrivals = arrivals;
              local_is = refl;
              tried = e1;
              shown = shown;
              published = published;
            } in
          let ends : try_round text n round input endpoints (out, store) ≡ (
            done,
            record out' {
              local = input.local;
              seen = seen;
              endpoint = endpoint;
              reason = some connected;
            },
            store',
          ) =
            ground (arith, e1, e2, e3) in
          (
            ap (λ (t : Ending × PeerResult × List Observation). t.0) ends,
            subst (λ (t : Ending × PeerResult × List Observation). IsFound n input.local t.1)
                (sym ends) found,
          )

      agreeing :
          (os : List Observation) (arrivals : List Arrival)
          → n.try round endpoints ≡ some (os, arrivals)
          → (answer : Option (List AddrPort)) → n.agree round (path_of os arrivals) ≡ answer
          → Goal
      agreeing os arrivals e1 none e2 =
          ground (arith, h, r, e1, e2, add_counted-reason os out store)
      agreeing os arrivals e1 (some other) e2 =
          met os arrivals other e1 e2 (agreed_path (path_of os arrivals) other) refl

      tried :
          (found : Option (List Observation × List Arrival)) → n.try round endpoints ≡ found → Goal
      tried none e = ground (arith, h, r, e)
      tried (some (os, arrivals)) e =
          agreeing os arrivals e (n.agree round (path_of os arrivals)) refl

  peer_round-IsFound :
      (lim : Limits) (round : ℕ) (input : SurveyInput) (changed : Bool) (out : PeerResult)
      (store : List Observation)
      → out.reason ≡ none
      → (peer_round text n lim round input changed (out, store)).1.reason ≡ some connected
      → ((peer_round text n lim round input changed (out, store)).0 ≡ done)
        × IsFound n input.local (peer_round text n lim round input changed (out, store)).1
  unfolding peer_round
  peer_round-IsFound lim round input changed out store r h = exchanged (n.exchange round mine) refl
    where
      mine : Batch
      mine = record {
        endpoints = candidates_for (infer store input) lim.candidates;
        changed = changed;
      }

      exchanged :
          (found : Option Batch)
          → n.exchange round mine ≡ found
          → ((peer_round text n lim round input changed (out, store)).0 ≡ done)
            × IsFound n input.local (peer_round text n lim round input changed (out, store)).1
      exchanged none e = ground (arith, r, h, e)
      exchanged (some batch) e = ground (
        arith,
        r,
        h,
        e,
        try_round-IsFound round input batch.endpoints (record out { rounds = round }) store r,
      )

  peer_loop-IsFound :
      (lim : Limits) (base left r round : ℕ) (input : SurveyInput) (changed : Bool)
      (out : PeerResult) (store : List Observation)
      → IsRound base r false (out, store)
      → (peer_loop text n lim left round input changed (out, store)).1.reason ≡ some connected
      → IsFound n input.local (peer_loop text n lim left round input changed (out, store)).1
  unfolding peer_loop
  peer_loop-IsFound lim base zero r round input changed out store k h = cc
  peer_loop-IsFound lim base (suc left) r round input changed out store k h =
      let turn = peer_round text n lim round input changed (out, store) in
      let ends = peer_round-IsRound text n lim base r round input changed out store k in
      let found =
        peer_round-IsFound lim round input changed out store
          (has_reason-none out.reason k.reason) in
      turned ends found
        (λ c k'. peer_loop-IsFound lim base left round (round + 1) input c turn.1 turn.2 k') turn.0
        refl
    where
      turned :
          EndsRound base round (peer_round text n lim round input changed (out, store))
          → ((peer_round text n lim round input changed (out, store)).1.reason ≡ some connected
              → ((peer_round text n lim round input changed (out, store)).0 ≡ done)
                × IsFound n input.local (peer_round text n lim round input changed (out, store)).1)
          → ((c : Bool)
              → IsRound base round false (
                (peer_round text n lim round input changed (out, store)).1,
                (peer_round text n lim round input changed (out, store)).2,
              )
              → (peer_loop text n lim left (round + 1) input c (
                (peer_round text n lim round input changed (out, store)).1,
                (peer_round text n lim round input changed (out, store)).2,
              )).1.reason
                ≡ some connected
              → IsFound n input.local
                  (peer_loop text n lim left (round + 1) input c (
                    (peer_round text n lim round input changed (out, store)).1,
                    (peer_round text n lim round input changed (out, store)).2,
                  )).1)
          → (ending : Ending) → (peer_round text n lim round input changed (out, store)).0 ≡ ending
          → IsFound n input.local
              (peer_loop text n lim (suc left) round input changed (out, store)).1
      turned ends found rest (failed why) e1 = absurd (ground (arith, h, e1, ends))
      turned ends found rest done e1 = ground (arith, h, e1, found)
      turned ends found rest (next c) e1 =
          let after = rest c (ground (arith, e1, ends)) in ground (arith, h, e1, after)

-- When a run of a node ends connected, some round of it has published a path that the other node has
-- published in reverse, and Try has shown both ends of the path in that round: a sample of this
-- node's own socket that was seen at one end by the other, and a probe that reached the one from the
-- other.
pub run_peer-IsFound :
    (text : AddrPort → Bytes) (n : PeerNetwork) (p : Peer) (lim : Limits)
    → IsStore p.store
    → (run_peer text n p lim).1.reason ≡ some connected
    → IsFound n p.local (run_peer text n p lim).1
unfolding run_peer
run_peer-IsFound text n p lim k h = elim (Bool-cases (is_valid_peer p lim)) [
  | inl valid ↦
      let start : IsRound (length p.store) 0 false (no_result, p.store) = record {
        counted = record { count = omega arith; store = k };
        rounds = refl;
        reason = refl;
      } in
      let found =
        peer_loop-IsFound text n lim (length p.store) lim.max_iterations 0 1 (survey_of p) true
          no_result p.store start in
      ground (arith, valid, h, found)
  | inr refused ↦ absurd (ground (arith, h, refused))
]
