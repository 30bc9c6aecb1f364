-- ===== src/Health/Runs.antt =====
-- Runs of the challenges of a Link.
use velvet_fabric.Base.{◌+◌, ◌≤◌, ◌<◌, ◌≡◌, refl, true, some, List, [], ◌∷◌, arith, leb}
use velvet_fabric.Base.Bytes.{Bytes, bytes_eq}
use velvet_fabric.Health.{
  Health, link_ping_interval, link_failure_timeout, no_id, challenge, pong, expired,
}
use velvet_fabric.Health.Replay.{
  LinkEvent, challenged, answered, accepted, challenges, outstanding, after, accepted_lem,
  pong-challenge,
}

abbrev silent : Health
silent = record { pending = no_id; expires = 0; last_pong = 0 }

abbrev some_id : Bytes
some_id = 7 ∷ []

-- A challenge, its answer, and the same answer again.
abbrev replayed : List LinkEvent
replayed = challenged (some some_id) 100 ∷ answered some_id 200 ∷ answered some_id 300 ∷ []

accepted_lem_example : accepted replayed silent ≤ challenges replayed + outstanding silent
accepted_lem_example = accepted_lem replayed silent

answer_accepted : (pong some_id 200 (challenge (some some_id) 100 silent).1).0 ≡ true
unfolding pong challenge bytes_eq
answer_accepted = refl

-- A new challenge, and the old answer again.
abbrev unanswered : List LinkEvent
unanswered = challenged (some (8 ∷ [])) 300 ∷ answered some_id 400 ∷ []

none_accepted : accepted unanswered (pong some_id 200 (challenge (some some_id) 100 silent).1).1 ≡ 0
unfolding accepted pong challenge bytes_eq
none_accepted = refl

pong-challenge_example :
    (some_id ≡ some_id)
    × (200 < 100 + link_ping_interval)
    × (expired 40000000000
          (after unanswered (pong some_id 200 (challenge (some some_id) 100 silent).1).1)
        ≡ leb (200 + link_failure_timeout) 40000000000)
pong-challenge_example =
    pong-challenge some_id some_id 100 200 40000000000 unanswered silent (omega arith)
      answer_accepted none_accepted
