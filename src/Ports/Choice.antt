-- ===== src/Ports/Choice.antt =====
-- internal/spec/ports.go: which choices of ports a NodeSpec may make. The JSON itself is read by
-- encoding/json; what is modelled is what becomes of the integers it holds. A negative integer fails
-- every test that a port must pass, so the integers are natural numbers here.
use velvet_fabric.Base.{
  ℕ, ◌≡◌, Bool, true, not, ◌&&◌, ◌||◌, Option, none, some, List, [], ◌∷◌, arith, ltb, leb, ◌==◌,
  if◌then◌else◌,
}

-- PortChoice and ListenPorts; a zero range means a fixed or a system port.
pub record PortChoice : Type 0 where
  pub port : ℕ
  pub first : ℕ
  pub last : ℕ

abbrev pub no_choice : PortChoice
no_choice = record { port = 0; first = 0; last = 0 }

-- What json.Unmarshal finds in listen_ports.
pub data Listed : Type 0 where
  number : ℕ → Listed
  array : List ℕ → Listed
  other : Listed

abbrev pub has_range : PortChoice → Bool
has_range c = not (c.first == 0 && c.last == 0)

-- ListenPorts.Validate
unfoldable pub validate : PortChoice → Bool
validate c =
    leb c.port 65535
    && not (
        has_range c
        && (not (c.port == 0) || ltb c.first 1 || ltb 65535 c.last || ltb c.last c.first))

-- ListenPorts.UnmarshalJSON
unfoldable pub unmarshal : Listed → Option PortChoice
unfolding validate
unmarshal (number port) =
    let c : PortChoice = record { port = port; first = 0; last = 0 } in
    if validate c then some c else none
unmarshal (array (first ∷ last ∷ [])) =
    let c : PortChoice = record { port = 0; first = first; last = last } in
    if (ltb first 1 || ltb 65535 last || ltb last first) || not (validate c) then none else some c
unmarshal (array _) = none
unmarshal other = none

-- ListenPorts.MarshalJSON
unfoldable pub marshal : PortChoice → Listed
marshal c = if has_range c then array (c.first ∷ c.last ∷ []) else number c.port

-- A nil choice is the system's.
unfoldable pub choice : Option PortChoice → PortChoice
choice none = no_choice
choice (some c) = c

-- validateVFPPort: a choice must leave a port other than the VFP port.
unfoldable pub leaves_port : PortChoice → ℕ → Bool
leaves_port c vfp_port = not (c.port == vfp_port || c.first == vfp_port && c.last == vfp_port)

-- Every valid choice is read back from what MarshalJSON writes for it.
pub unmarshal-marshal : (c : PortChoice) → validate c ≡ true → unmarshal (marshal c) ≡ some c
unfolding unmarshal marshal
unmarshal-marshal c h = ground arith

-- A choice that was read is valid.
pub unmarshal-validate : (j : Listed) (c : PortChoice) → unmarshal j ≡ some c → validate c ≡ true
unfolding unmarshal
unmarshal-validate (number port) c h = ground arith
unmarshal-validate (array []) c h = ground arith
unmarshal-validate (array (x ∷ [])) c h = ground arith
unmarshal-validate (array (x ∷ y ∷ [])) c h = ground arith
unmarshal-validate (array (x ∷ y ∷ z ∷ r)) c h = ground arith
unmarshal-validate other c h = ground arith
