-- ===== src/Discovery/Symmetric.antt =====
-- reciprocal: two nodes that have the same paths choose the same one.
use velvet_fabric.Base.{
  ◌<◌, ◌≡◌, refl, sym, ap, ◌∙◌, subst, ◌⊎◌, inl, inr, Bool, true, false, ◌&&◌, Option, none, some,
  List, [], ◌∷◌, ◌++◌, arith, ◌==◌, Bool-cases, All,
}
use velvet_fabric.Base.Bytes.{Bytes, bytes_lt, bytes_lt_irrefl}
use velvet_fabric.Net.{addr_port_is_valid, IsAddr, AddrPort, addr_port_eq}
use velvet_fabric.Net.Laws.{addr_port_eq_iff}
use velvet_fabric.Inference.{Observation, is_stored, observation_eq}
use velvet_fabric.Inference.Store.{observation_eq_iff}
use velvet_fabric.Discovery.Peer.{Arrival, all_paths, least_path, reciprocal, agreed_path, path_key}
use velvet_fabric.Discovery.Reciprocal.{all_paths-has_path, has_path, least_path-has_path}

bytes_lt_asym : (xs ys : Bytes) → bytes_lt xs ys ≡ true → bytes_lt ys xs ≡ false
unfolding bytes_lt
bytes_lt_asym [] [] h = cc
bytes_lt_asym [] (y ∷ ys) h = refl
bytes_lt_asym (x ∷ xs) [] h = cc
bytes_lt_asym (x ∷ xs) (y ∷ ys) h = ground (arith, h, bytes_lt_asym xs ys)

bytes_lt_total : (xs ys : Bytes) → bytes_lt xs ys ≡ false → bytes_lt ys xs ≡ false → xs ≡ ys
unfolding bytes_lt
bytes_lt_total [] [] h k = refl
bytes_lt_total [] (y ∷ ys) h k = cc
bytes_lt_total (x ∷ xs) [] h k = cc
bytes_lt_total (x ∷ xs) (y ∷ ys) h k = ground (arith, h, k, bytes_lt_total xs ys)

-- What is not below the middle one is not below the third.
bytes_lt_cotrans :
    (xs ys zs : Bytes) → bytes_lt xs ys ≡ false → bytes_lt ys zs ≡ false → bytes_lt xs zs ≡ false
unfolding bytes_lt
bytes_lt_cotrans [] [] zs h k = k
bytes_lt_cotrans [] (y ∷ ys) zs h k = cc
bytes_lt_cotrans (x ∷ xs) ys [] h k = refl
bytes_lt_cotrans (x ∷ xs) [] (z ∷ zs) h k = cc
bytes_lt_cotrans (x ∷ xs) (y ∷ ys) (z ∷ zs) h k = ground (arith, h, k, bytes_lt_cotrans xs ys zs)

has_path-cons :
    (q p : AddrPort × AddrPort) (ps : List (AddrPort × AddrPort))
    → has_path q (p ∷ ps) ≡ true
    → (q ≡ p) ⊎ (has_path q ps ≡ true)
has_path-cons q p ps h = elim (Bool-cases (addr_port_eq p.0 q.0 && addr_port_eq p.1 q.1)) [
  | inl here ↦ inl (ground (arith, here, addr_port_eq_iff p.0 q.0, addr_port_eq_iff p.1 q.1))
  | inr apart ↦ inr (ground (arith, h, apart))
]

abbrev pub IsPlain : Bytes → Type 0
IsPlain xs = All (λ c. (c == 47) ≡ false) xs

split-slash :
    (xs us ys vs : Bytes)
    → IsPlain xs
    → IsPlain us
    → xs ++ (47 ∷ ys) ≡ us ++ (47 ∷ vs)
    → (xs ≡ us) × (ys ≡ vs)
split-slash [] [] ys vs px pu h = ground (arith, h)
split-slash [] (u ∷ us) ys vs px (pu, pus) h = ground (arith, h, pu)
split-slash (x ∷ xs) [] ys vs (px, pxs) pu h = ground (arith, h, px)
split-slash (x ∷ xs) (u ∷ us) ys vs (px, pxs) (pu, pus) h =
    ground (arith, h, split-slash xs us ys vs pxs pus)

has_path_self :
    (p : AddrPort × AddrPort) (ps : List (AddrPort × AddrPort)) → has_path p (p ∷ ps) ≡ true
has_path_self (x, y) ps = ground (arith, addr_port_eq_iff x x, addr_port_eq_iff y y)

-- The netip.AddrPort values of endpoints: a valid address of the size of its family, and a port.
abbrev pub IsEndpoint : AddrPort → Type 0
IsEndpoint x = (addr_port_is_valid x ≡ true) × IsAddr x.addr × (x.port < 65536)

-- What AddrPort.String has on endpoints: no "/", and another text for another endpoint. An AddrPort
-- that is not valid has the text of every other such one.
pub record IsText (text : AddrPort → Bytes) : Type 0 where
  pub plain : (x : AddrPort) → IsEndpoint x → IsPlain (text x)
  pub injective : (x y : AddrPort) → IsEndpoint x → IsEndpoint y → text x ≡ text y → x ≡ y

-- A sample between endpoints.
abbrev pub IsReal : Observation → Type 0
IsReal o = IsEndpoint o.seen × IsEndpoint o.remote

is_stored-IsReal :
    (o : Observation) (os : List Observation) → All IsReal os → is_stored o os ≡ true → IsReal o
unfolding is_stored
is_stored-IsReal o [] h e = cc
is_stored-IsReal o (p ∷ ps) (k, h) e = elim (Bool-cases (observation_eq p o)) [
  | inl same ↦ subst IsReal ((observation_eq_iff p o).0 same) k
  | inr apart ↦ is_stored-IsReal o ps h (ground (arith, e, apart))
]

has_path-IsEndpoint :
    (os : List Observation) (xs : List Arrival) (local x y : AddrPort)
    → All IsReal os
    → has_path (x, y) (all_paths os xs local) ≡ true
    → IsEndpoint x × IsEndpoint y
has_path-IsEndpoint os xs local x y h e =
    let shown = all_paths-has_path os xs local (x, y) e in
    is_stored-IsReal (record { local = local; remote = y; seen = x }) os h (ground (arith, shown))

module _ (text : AddrPort → Bytes) where
  path_key-swap : (x y : AddrPort) → path_key text (y, x) ≡ path_key text (x, y)
  unfolding path_key
  path_key-swap x y = ground (
    arith,
    bytes_lt_asym (text x) (text y),
    bytes_lt_asym (text y) (text x),
    bytes_lt_total (text x) (text y),
  )

  -- No path has a key below that of the chosen one.
  least_path-least :
      (p : AddrPort × AddrPort) (ps : List (AddrPort × AddrPort)) (q : AddrPort × AddrPort)
      → has_path q (p ∷ ps) ≡ true
      → bytes_lt (path_key text q) (path_key text (least_path text p ps)) ≡ false
  unfolding least_path
  least_path-least p [] q h = elim (has_path-cons q p [] h) [
    | inl same ↦ rw same (bytes_lt_irrefl (path_key text p))
    | inr later ↦ absurd (cc)
  ]
  least_path-least p (r ∷ rs) q h =
      elim (Bool-cases (bytes_lt (path_key text r) (path_key text p))) [
        | inl less ↦
            let keep = least_path-least r rs in
            let after =
              bytes_lt_cotrans (path_key text p) (path_key text r)
                (path_key text (least_path text r rs)) in
            let start = keep r (has_path_self r rs) in
            rw (less, least_path)
              (elim (has_path-cons q p (r ∷ rs) h) [
                | inl same ↦
                    rw same (after (bytes_lt_asym (path_key text r) (path_key text p) less) start)
                | inr later ↦ keep q later
              ])
        | inr more ↦
            let keep = least_path-least p rs in
            let after =
              bytes_lt_cotrans (path_key text r) (path_key text p)
                (path_key text (least_path text p rs)) in
            let start = keep p (has_path_self p rs) in
            rw (more, least_path)
              (elim (has_path-cons q p (r ∷ rs) h) [
                | inl same ↦ rw same start
                | inr later ↦ elim (has_path-cons q r rs later) [
                  | inl same ↦ rw same (after more start)
                  | inr last ↦ keep q (ground (arith, last))
                ]
              ])
      ]

  -- Two lists with the same paths, each in the other's direction, have the same least key.
  least_path-mirror :
      (p q : AddrPort × AddrPort) (ps qs : List (AddrPort × AddrPort))
      → ((x y : AddrPort) → has_path (x, y) (p ∷ ps) ≡ has_path (y, x) (q ∷ qs))
      → path_key text (least_path text p ps) ≡ path_key text (least_path text q qs)
  least_path-mirror p q ps qs same =
      let (x, y) = least_path text p ps in
      let (u, v) = least_path text q qs in
      let here = least_path-has_path text p ps in
      let there = least_path-has_path text q qs in
      let first = least_path-least p ps (v, u) (same v u ∙ there) in
      let second = least_path-least q qs (y, x) (sym (same x y) ∙ here) in
      let swap = path_key-swap u v in
      let swap' = path_key-swap x y in
      bytes_lt_total _ _ (ground (arith, second, swap')) (ground (arith, first, swap))

  path_key-eq :
      (x y u v : AddrPort)
      → IsText text
      → IsEndpoint x × IsEndpoint y
      → IsEndpoint u × IsEndpoint v
      → path_key text (x, y) ≡ path_key text (u, v)
      → ((x ≡ u) × (y ≡ v)) ⊎ ((x ≡ v) × (y ≡ u))
  unfolding path_key
  path_key-eq x y u v is (rx, ry) (ru, rv) h =
      ordered (bytes_lt (text y) (text x)) (bytes_lt (text v) (text u)) refl refl
    where
      split :
          (a b c d : AddrPort)
          → IsEndpoint a
          → IsEndpoint b
          → IsEndpoint c
          → IsEndpoint d
          → text a ++ (47 ∷ text b) ≡ text c ++ (47 ∷ text d)
          → (a ≡ c) × (b ≡ d)
      split a b c d ra rb rc rd e =
          let (l, r) =
            split-slash (text a) (text c) (text b) (text d) (is.plain a ra) (is.plain c rc) e in
          (is.injective a c ra rc l, is.injective b d rb rd r)

      ordered :
          (i j : Bool)
          → bytes_lt (text y) (text x) ≡ i
          → bytes_lt (text v) (text u) ≡ j
          → ((x ≡ u) × (y ≡ v)) ⊎ ((x ≡ v) × (y ≡ u))
      ordered true true e1 e2 =
          inl (let (l, r) = split y x v u ry rx rv ru (ground (arith, h, e1, e2)) in (r, l))
      ordered true false e1 e2 =
          inr (let (l, r) = split y x u v ry rx ru rv (ground (arith, h, e1, e2)) in (r, l))
      ordered false true e1 e2 = inr (split x y v u rx ry rv ru (ground (arith, h, e1, e2)))
      ordered false false e1 e2 = inl (split x y u v rx ry ru rv (ground (arith, h, e1, e2)))

-- A path as the other side has it, and the two ends of a path.
abbrev pub flipped : List AddrPort → List AddrPort
flipped (x ∷ y ∷ []) = y ∷ x ∷ []
flipped xs = xs

abbrev pub ends_of : List AddrPort → Option (AddrPort × AddrPort)
ends_of (x ∷ y ∷ []) = some (x, y)
ends_of xs = none

-- When the texts of endpoints have no "/" and tell them apart, the samples of one node are between
-- endpoints, and two nodes have the same paths, each in its own direction, none of them also in the other direction, then both publish the same path in
-- their own direction, and each takes it, whenever there is one.
pub agreed_path-reciprocal :
    (text : AddrPort → Bytes) (os os' : List Observation) (xs xs' : List Arrival)
    (local local' : AddrPort)
    → IsText text
    → All IsReal os
    → ((x y : AddrPort)
        → has_path (x, y) (all_paths os xs local) ≡ has_path (y, x) (all_paths os' xs' local'))
    → ((x y : AddrPort)
        → has_path (x, y) (all_paths os xs local) ≡ true
        → has_path (y, x) (all_paths os xs local) ≡ false)
    → (reciprocal text os' xs' local' ≡ flipped (reciprocal text os xs local))
      × (agreed_path (reciprocal text os xs local) (reciprocal text os' xs' local')
          ≡ ends_of (reciprocal text os xs local))
unfolding reciprocal agreed_path
agreed_path-reciprocal text os os' xs xs' local local' is real same one =
    chosen (all_paths os xs local) (all_paths os' xs' local') refl refl
  where
    chosen :
        (ps qs : List (AddrPort × AddrPort))
        → all_paths os xs local ≡ ps
        → all_paths os' xs' local' ≡ qs
        → (reciprocal text os' xs' local' ≡ flipped (reciprocal text os xs local))
          × (agreed_path (reciprocal text os xs local) (reciprocal text os' xs' local')
              ≡ ends_of (reciprocal text os xs local))
    chosen [] [] e1 e2 = ground (arith, e1, e2)
    chosen [] (q ∷ qs) e1 e2 = absurd (ground (arith, e1, e2, same q.1 q.0, has_path_self q qs))
    chosen (p ∷ ps) [] e1 e2 = absurd (ground (arith, e1, e2, same p.0 p.1, has_path_self p ps))
    chosen (p ∷ ps) (q ∷ qs) e1 e2 =
        let hp : (x y : AddrPort) → has_path (x, y) (p ∷ ps) ≡ has_path (y, x) (q ∷ qs) =
          λ x y. sym (ap (has_path (x, y)) e1) ∙ same x y ∙ ap (has_path (y, x)) e2 in
        let keys = least_path-mirror text p q ps qs hp in
        let here = least_path-has_path text p ps in
        let there = least_path-has_path text q qs in
        let (x, y) = least_path text p ps in
        let (u, v) = least_path text q qs in
        let ends = has_path-IsEndpoint os xs local x y real (ap (has_path (x, y)) e1 ∙ here) in
        let back =
          has_path-IsEndpoint os xs local v u real (ap (has_path (v, u)) e1 ∙ hp v u ∙ there) in
        elim (path_key-eq text x y u v is ends (back.1, back.0) keys) [
          | inl (l, r) ↦ absurd (ground (arith, l, r, here, there, hp y x, e1, one x y))
          | inr (l, r) ↦ ground (arith, l, r, e1, e2, addr_port_eq_iff x v, addr_port_eq_iff y u)
        ]
