-- ===== src/Health/Replay.antt =====
-- A Link that answers challenges: replayed and late answers, and the failure timeout.
use velvet_fabric.Base.{
  ◌∙◌, ℕ, ◌+◌, ◌≤◌, ◌<◌, ◌≡◌, refl, ap, inl, inr, true, false, not, ◌||◌, Option, none, some, List,
  [], ◌∷◌, arith, ltb, leb, if◌then◌else◌, Bool-cases,
}
use velvet_fabric.Base.Bytes.{Bytes, bytes_eq, bytes_eq_iff}
use velvet_fabric.Health.{
  Health, link_ping_interval, link_failure_timeout, no_id, challenge, pong, expired,
}

-- What happens to a Link: a challenge is made, or an answer with an id comes in.
pub data LinkEvent : Type 0 where
  challenged : Option Bytes → ℕ → LinkEvent
  answered : Bytes → ℕ → LinkEvent

-- How many answers are accepted, and how many challenges there are.
unfoldable pub accepted : List LinkEvent → Health → ℕ
unfolding challenge pong
accepted [] h = 0
accepted (challenged id now ∷ es) h = accepted es (challenge id now h).1
accepted (answered id now ∷ es) h =
    let rest = accepted es (pong id now h).1 in if (pong id now h).0 then rest + 1 else rest

unfoldable pub challenges : List LinkEvent → ℕ
challenges [] = 0
challenges (challenged id now ∷ es) = challenges es + 1
challenges (answered id now ∷ es) = challenges es

-- 1 when a challenge is outstanding.
abbrev pub outstanding : Health → ℕ
outstanding h = if bytes_eq h.pending no_id then 0 else 1

outstanding-le : (h : Health) → outstanding h ≤ 1
outstanding-le h = ground arith

pong-outstanding :
    (id : Bytes) (now : ℕ) (h : Health)
    → ((pong id now h).0 ≡ true → (outstanding (pong id now h).1 ≡ 0) × (outstanding h ≡ 1))
      × ((pong id now h).0 ≡ false → (pong id now h).1 ≡ h)
unfolding pong
pong-outstanding id now h =
    elim (Bool-cases
      (bytes_eq id no_id || not (bytes_eq id h.pending) || not (ltb now h.expires))) [
        | inl refused ↦ ground (arith, refused)
        | inr taken ↦
            let e : id ≡ h.pending = (bytes_eq_iff id h.pending).0 (ground (arith, taken)) in
            let apart = ap (λ (x : Bytes). bytes_eq x no_id) e in
            let none_left = (bytes_eq_iff no_id no_id).1 refl in
            ground (arith, taken, apart, none_left)
      ]

-- However challenges, answers, replays and late answers are mixed, no more answers are accepted than
-- challenges were made, beside one that may be outstanding at the start.
pub accepted_lem :
    (es : List LinkEvent) (h : Health) → accepted es h ≤ challenges es + outstanding h
unfolding accepted challenges challenge
accepted_lem [] h = omega arith
accepted_lem (challenged none now ∷ es) h = omega (arith, accepted_lem es h)
accepted_lem (challenged (some id) now ∷ es) h =
    let next : Health = record h { pending = id; expires = now + link_ping_interval } in
    omega (arith, accepted_lem es next, outstanding-le next)
accepted_lem (answered id now ∷ es) h =
    let (on_taken, on_refused) = pong-outstanding id now h in
    let rest = accepted_lem es (pong id now h).1 in
    elim (Bool-cases (pong id now h).0) [
      | inl taken ↦ ground (arith, taken, rest, on_taken taken)
      | inr refused ↦ ground (arith, refused, rest, on_refused refused)
    ]

-- The Link after the events.
unfoldable pub after : List LinkEvent → Health → Health
unfolding challenge pong
after [] h = h
after (challenged id now ∷ es) h = after es (challenge id now h).1
after (answered id now ∷ es) h = after es (pong id now h).1

challenge-last_pong :
    (id : Option Bytes) (now : ℕ) (h : Health) → (challenge id now h).1.last_pong ≡ h.last_pong
unfolding challenge
challenge-last_pong none now h = refl
challenge-last_pong (some id) now h = refl

-- Without an accepted answer the time of the last one stays.
after-last_pong :
    (es : List LinkEvent) (h : Health) → accepted es h ≡ 0 → (after es h).last_pong ≡ h.last_pong
unfolding accepted after
after-last_pong [] h e = refl
after-last_pong (challenged id now ∷ es) h e =
    after-last_pong es (challenge id now h).1 e ∙ challenge-last_pong id now h
after-last_pong (answered id now ∷ es) h e = elim (Bool-cases (pong id now h).0) [
  | inl taken ↦ absurd (ground (arith, e, taken))
  | inr refused ↦
      let same = (pong-outstanding id now h).1 refused in
      after-last_pong es (pong id now h).1 (ground (arith, e, refused))
      ∙ ap (λ (x : Health). x.last_pong) same
]

-- An answer that is accepted after a challenge has the id of the challenge and comes within ten seconds
-- of it. After any challenges and answers that follow, none of them accepted, the Link has failed
-- exactly from thirty seconds after that answer on.
pub pong-challenge :
    (id id' : Bytes) (at now later : ℕ) (es : List LinkEvent) (h : Health)
    → 0 < now
    → (pong id' now (challenge (some id) at h).1).0 ≡ true
    → accepted es (pong id' now (challenge (some id) at h).1).1 ≡ 0
    → (id' ≡ id)
      × (now < at + link_ping_interval)
      × (expired later (after es (pong id' now (challenge (some id) at h).1).1)
          ≡ leb (now + link_failure_timeout) later)
unfolding pong challenge expired
pong-challenge id id' at now later es h pos taken silent =
    let kept = after-last_pong es (pong id' now (challenge (some id) at h).1).1 silent in
    (
      (bytes_eq_iff id' id).0 (ground (arith, taken)),
      ground (arith, taken),
      ground (arith, taken, pos, kept),
    )
