-- ===== src/Dynamic/Outcomes.antt =====
-- What the attempts and a restart of the Runner keep of the table of targets.
use velvet_fabric.Base.{
  suc, ◌≡◌, refl, ap, inl, inr, Option, none, some, [], ◌∷◌, arith, Bool-cases, length,
}
use velvet_fabric.Base.Bytes.{Bytes, bytes_eq}
use velvet_fabric.Net.{Addr}
use velvet_fabric.Vfp.Values.{Policy}
use velvet_fabric.Dynamic.Targets.{Target, Targets, find}
use velvet_fabric.Dynamic.Binding.{merge_policy}
use velvet_fabric.Dynamic.Attempts.{decline_target, at_peer, seed_targets}
use velvet_fabric.Dynamic.Table.{has_key, has_uid, IsTable}
use velvet_fabric.Dynamic.Kept.{IsKept, update-IsKept, merge_policy-uid}

pub decline_target-IsKept :
    (a : Addr) (p : Option Policy) (ts : Targets) → IsKept ts → IsKept (decline_target a p ts)
unfolding decline_target
decline_target-IsKept a p ts h = known (find a ts) refl
  where
    known : (found : Option Target) → find a ts ≡ found → IsKept (decline_target a p ts)
    known none e = rw (e, decline_target) h
    known (some t) e =
        rw (e, decline_target) (update-IsKept a t (merge_policy p t) ts h e (merge_policy-uid p t))

-- The same addresses with the same UIDs, in the same order.
abbrev AreAlike : Targets → Targets → Type 0
AreAlike [] [] = Unit
AreAlike [] (u ∷ us) = ⊥
AreAlike (t ∷ ts) [] = ⊥
AreAlike ((a, t) ∷ ts) ((b, u) ∷ us) = (b ≡ a) × (u.uid ≡ t.uid) × AreAlike ts us

has_key-alike : (a : Addr) (ts us : Targets) → AreAlike ts us → has_key a us ≡ has_key a ts
has_key-alike a [] [] h = refl
has_key-alike a [] (u ∷ us) h = absurd h
has_key-alike a (t ∷ ts) [] h = absurd h
has_key-alike a ((b, t) ∷ ts) ((c, u) ∷ us) (e, i, h) = rw (e, has_key-alike a ts us h) refl

has_uid-alike : (id : Bytes) (ts us : Targets) → AreAlike ts us → has_uid id us ≡ has_uid id ts
has_uid-alike id [] [] h = refl
has_uid-alike id [] (u ∷ us) h = absurd h
has_uid-alike id (t ∷ ts) [] h = absurd h
has_uid-alike id ((b, t) ∷ ts) ((c, u) ∷ us) (e, i, h) = rw (i, has_uid-alike id ts us h) refl

alike-IsTable : (ts us : Targets) → AreAlike ts us → IsTable ts → IsTable us
alike-IsTable [] [] h k = tt
alike-IsTable [] (u ∷ us) h k = absurd h
alike-IsTable (t ∷ ts) [] h k = absurd h
alike-IsTable ((b, t) ∷ ts) ((c, u) ∷ us) (e, i, h) (k, v, l) = (
  rw (e, has_key-alike b ts us h) k,
  rw (i, has_uid-alike t.uid ts us h) v,
  alike-IsTable ts us h l,
)

length-alike : (ts us : Targets) → AreAlike ts us → length us ≡ length ts
length-alike [] [] h = refl
length-alike [] (u ∷ us) h = absurd h
length-alike (t ∷ ts) [] h = absurd h
length-alike ((b, t) ∷ ts) ((c, u) ∷ us) (e, i, h) = ap suc (length-alike ts us h)

alike-IsKept : (ts us : Targets) → AreAlike ts us → IsKept ts → IsKept us
alike-IsKept ts us a h = record {
  table = alike-IsTable ts us a h.table;
  few = omega (arith, length-alike ts us a, h.few);
}

AreAlike-refl : (ts : Targets) → AreAlike ts ts
AreAlike-refl [] = tt
AreAlike-refl ((a, t) ∷ ts) = (refl, refl, AreAlike-refl ts)

at_peer-AreAlike :
    (f : Target → Target) (id : Bytes) (ts : Targets)
    → ((t : Target) → (f t).uid ≡ t.uid)
    → AreAlike ts (at_peer f id ts)
unfolding at_peer
at_peer-AreAlike f id [] k = tt
at_peer-AreAlike f id ((a, t) ∷ ts) k = elim (Bool-cases (bytes_eq t.uid id)) [
  | inl here ↦ rw (here, at_peer) (refl, k t, AreAlike-refl ts)
  | inr there ↦ rw (there, at_peer) (refl, refl, at_peer-AreAlike f id ts k)
]

pub at_peer-IsKept :
    (f : Target → Target) (id : Bytes) (ts : Targets)
    → ((t : Target) → (f t).uid ≡ t.uid)
    → IsKept ts
    → IsKept (at_peer f id ts)
at_peer-IsKept f id ts k = alike-IsKept ts (at_peer f id ts) (at_peer-AreAlike f id ts k)

seed_targets-AreAlike : (ts : Targets) → AreAlike ts (seed_targets ts)
unfolding seed_targets
seed_targets-AreAlike [] = tt
seed_targets-AreAlike ((a, t) ∷ ts) = (refl, refl, seed_targets-AreAlike ts)

pub seed_targets-IsKept : (ts : Targets) → IsKept ts → IsKept (seed_targets ts)
seed_targets-IsKept ts = alike-IsKept ts (seed_targets ts) (seed_targets-AreAlike ts)
