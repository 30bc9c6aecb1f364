-- ===== src/Inference/Sets.antt =====
-- The store of samples as a set, over any sequence of changes.
use velvet_fabric.Base.{
  ◌≡◌, refl, ap, ◌∙◌, inl, inr, Bool, false, not, ◌&&◌, ◌||◌, List, [], ◌∷◌, arith, Bool-cases,
}
use velvet_fabric.Net.{AddrPort, addr_port_eq}
use velvet_fabric.Inference.{
  Observation, observation_is_valid, observation_eq, is_stored, add, forget_local,
}
use velvet_fabric.Inference.Store.{observation_eq_iff, IsStore, add_lem, forget_local_lem}

-- A call of Store.Add or of Store.ForgetLocal.
pub data Change : Type 0 where
  added : Observation → Change
  forgot : AddrPort → Change

unfoldable pub changed : List Change → List Observation → List Observation
unfolding add forget_local
changed [] store = store
changed (added o ∷ cs) store = changed cs (add o store).1
changed (forgot local ∷ cs) store = changed cs (forget_local local store)

-- The set that the changes make of a set: a valid sample comes in, the samples of a socket go.
unfoldable pub set_after : List Change → (Observation → Bool) → Observation → Bool
unfolding observation_is_valid observation_eq addr_port_eq
set_after [] s p = s p
set_after (added o ∷ cs) s p =
    set_after cs (λ x. s x || (observation_is_valid o && observation_eq o x)) p
set_after (forgot local ∷ cs) s p = set_after cs (λ x. not (addr_port_eq x.local local) && s x) p

add-set :
    (o p : Observation) (store : List Observation)
    → IsStore store
    → is_stored p (add o store).1
      ≡ (is_stored p store || (observation_is_valid o && observation_eq o p))
add-set o p store h =
    let (answer, members, k) = add_lem o p store h in
    elim (Bool-cases (observation_eq o p)) [
      | inr apart ↦ ground (arith, members, answer, apart)
      | inl same ↦
          let e : is_stored o store ≡ is_stored p store =
            ap (λ (x : Observation). is_stored x store) ((observation_eq_iff o p).0 same) in
          ground (arith, members, answer, same, e)
    ]

changed-refines :
    (cs : List Change) (store : List Observation) (s : Observation → Bool)
    → IsStore store
    → ((p : Observation) → is_stored p store ≡ s p)
    → ((p : Observation) → is_stored p (changed cs store) ≡ set_after cs s p)
      × IsStore (changed cs store)
unfolding changed set_after
changed-refines [] store s h same = (same, h)
changed-refines (added o ∷ cs) store s h same =
    let kept = (add_lem o o store h).2 in
    changed-refines cs (add o store).1 _ kept (λ p.
      add-set o p store h ∙ ap (λ b. b || (observation_is_valid o && observation_eq o p)) (same p))
changed-refines (forgot local ∷ cs) store s h same =
    changed-refines cs (forget_local local store) _
      (forget_local_lem local (record { local = local; remote = local; seen = local }) store h).1
      (λ p.
        let (members, k) = forget_local_lem local p store h in
        members ∙ ap (λ b. not (addr_port_eq p.local local) && b) (same p))

-- Whatever samples are added to an empty store and whatever sockets are forgotten, in any order, the
-- store holds exactly the samples of the set that the changes make, each valid and once.
pub changed_lem :
    (cs : List Change) (p : Observation)
    → (is_stored p (changed cs []) ≡ set_after cs (λ x. false) p) × IsStore (changed cs [])
unfolding is_stored
changed_lem cs p =
    let (same, kept) = changed-refines cs [] (λ x. false) tt (λ x. refl) in (same p, kept)
