-- ===== src/Engine/Handled.antt =====
-- What the handlers of engine.go keep of a session that is not yet operational.
use velvet_fabric.Base.{
  ◌≡◌, refl, ◌≢◌, inl, inr, Bool, true, false, not, ◌&&◌, ◌||◌, Option, none, some, arith,
  if◌then◌else◌, Bool-cases,
}
use velvet_fabric.Base.Bytes.{bytes_eq}
use velvet_fabric.Net.{addr_is_valid, addr_eq}
use velvet_fabric.Vfp.Values.{Uid}
use velvet_fabric.Vfp.Message.{Message}
use velvet_fabric.Engine.State.{
  Context, link_bound, routed, Config, LinkFsm, SessionFsm, Outcome, close_connection, crashed,
  within_address, is_kind_durable, is_kind_open, is_kind_state,
}
use velvet_fabric.Engine.Link.{handle_proposal, handle_link, start_link}
use velvet_fabric.Engine.Session.{
  new_link, open_uid, handle_open, begin_link, enter_session, enter_first, handle_on, enter_link,
  enter_routed, handle_node_state, handle_business, handle,
}
use velvet_fabric.Engine.Negotiation.{IsSound, handle_link-IsSound, start_link-IsSound}
use velvet_fabric.Base.{WhenSome}

abbrev pub is_linked : SessionFsm → Bool
is_linked f = elim f.link [ none ↦ false | some l ↦ true ]

-- A session machine between two messages.
pub record IsReady (cfg : Config) (f : SessionFsm) : Type 0 where
  pub sound : WhenSome (IsSound cfg) f.link
  pub linked : f.operational ≡ false → f.state_received ≡ true → is_linked f ≡ true

-- What a handler leaves: it never calls a nil link, and unless it closes the connection the machine is
-- ready for the next message.
pub record IsHandled (cfg : Config) (r : Outcome × SessionFsm) : Type 0 where
  pub sound : WhenSome (IsSound cfg) r.1.link
  pub alive : r.0 ≢ crashed
  pub linked :
      r.0 ≢ close_connection
      → r.1.operational ≡ false
      → r.1.state_received ≡ true
      → is_linked r.1 ≡ true

handle_open-IsHandled :
    (cfg : Config) (f : SessionFsm) (m : Message)
    → IsReady cfg f
    → IsHandled cfg (handle_open cfg f m)
unfolding handle_open
handle_open-IsHandled cfg f m h = record {
  sound = by_uid m.uid (is_kind_open m.kind);
  alive = ground arith;
  linked = ground (arith, h.linked);
}
  where
    by_uid :
        (o : Option Uid) (b : Bool)
        → WhenSome (IsSound cfg) (if b then open_uid cfg f o else (close_connection, f)).1.link
    by_uid o false = h.sound
    by_uid none true = h.sound
    by_uid (some u) true = elim (Bool-cases (bytes_eq u.uuid cfg.local_uid.uuid)) [
      | inl same ↦ simp same h.sound
      | inr other ↦ simp other h.sound
    ]

begin_link-IsHandled : (cfg : Config) (f : SessionFsm) → IsHandled cfg (begin_link cfg f)
unfolding begin_link
begin_link-IsHandled cfg f = record {
  sound =
      start_link-IsSound cfg (new_link f f.remote_v6)
        (record { offered = λ e. cc; pending = tt; distinct = tt; bounded = omega arith });
  alive = unfold start_link in ground arith;
  linked = λ n o s. refl;
}

enter_link-IsHandled :
    (cfg : Config) (f : SessionFsm)
    → WhenSome (IsSound cfg) f.link
    → IsHandled cfg (enter_link cfg f)
unfolding enter_link
enter_link-IsHandled cfg f h = on cfg.first_message
  where
    on : (o : Option Message) → IsHandled cfg (enter_first cfg f o)
    on none = begin_link-IsHandled cfg f
    on (some first) = elim (Bool-cases (not cfg.initiator)) [
      | inl responder ↦ rw responder (begin_link-IsHandled cfg f)
      | inr initiator ↦ rw initiator (elim (Bool-cases (is_kind_durable first.kind)) [
        | inl d ↦ rw d (record { sound = h; alive = λ p. cc; linked = λ n o s. cc })
        | inr d ↦ rw d (record { sound = h; alive = λ p. cc; linked = λ n o s. absurd (n refl) })
      ])
    ]

handle_link-ne-crashed :
    (cfg : Config) (l : LinkFsm) (m : Message) → (handle_link cfg l m).0 ≢ crashed
unfolding handle_link handle_proposal
handle_link-ne-crashed cfg l m = ground arith

handle_business-IsHandled :
    (cfg : Config) (f : SessionFsm) (m : Message)
    → IsReady cfg f
    → is_linked f ≡ true
    → IsHandled cfg (handle_business cfg f m)
unfolding handle_business
handle_business-IsHandled cfg f m h l = on f.link h.sound l
  where
    on :
        (o : Option LinkFsm)
        → WhenSome (IsSound cfg) o
        → elim o as (λ _. Bool) [ none ↦ false | some l ↦ true ] ≡ true
        → IsHandled cfg (handle_on cfg f m o)
    on none s e = cc
    on (some l) s e =
        elim (Bool-cases
          (not cfg.initiator && l.waiting_for_remote_proposal && is_kind_durable m.kind)) [
            | inl d ↦ rw d (record { sound = tt; alive = λ p. cc; linked = λ n o s. cc })
            | inr d ↦ rw d (record {
              sound = handle_link-IsSound cfg l m s;
              alive = handle_link-ne-crashed cfg l m;
              linked = λ n o s. refl;
            })
          ]

enter_routed-IsHandled :
    (cfg : Config) (f : SessionFsm)
    → WhenSome (IsSound cfg) f.link
    → IsHandled cfg (enter_routed cfg f)
unfolding enter_routed
enter_routed-IsHandled cfg f h =
    elim (Bool-cases (
      addr_is_valid cfg.expected_remote_loopback_v6
      && not (addr_eq f.remote_v6 cfg.expected_remote_loopback_v6))) [
        | inl wrong ↦
            rw wrong (record { sound = h; alive = λ p. cc; linked = λ n o s. absurd (n refl) })
        | inr right ↦ rw right (record { sound = h; alive = λ p. cc; linked = λ n o s. cc })
      ]

handle_node_state-IsHandled :
    (cfg : Config) (f : SessionFsm) (m : Message)
    → IsReady cfg f
    → IsHandled cfg (handle_node_state cfg f m)
unfolding handle_node_state
handle_node_state-IsHandled cfg f m h =
    elim (Bool-cases
      (not (is_kind_state m.kind) || not (within_address m.loopback_v6 cfg.loopback_pool_v6))) [
        | inl ignored ↦
            rw ignored (record { sound = h.sound; alive = λ p. cc; linked = λ n o s. h.linked o s })
        | inr taken ↦ rw taken (enter cfg.context)
      ]
  where
    enter :
        (c : Context)
        → IsHandled cfg
            (enter_session cfg (record f { state_received = true; remote_v6 = m.loopback_v6 }) c)
    enter routed = enter_routed-IsHandled cfg _ h.sound
    enter link_bound = enter_link-IsHandled cfg _ h.sound

pub handle-IsHandled :
    (cfg : Config) (f : SessionFsm) (m : Message)
    → f.operational ≡ false
    → IsReady cfg f
    → IsHandled cfg (handle cfg f m)
unfolding handle
handle-IsHandled cfg f m o h = elim (Bool-cases f.opened) [
  | inr n ↦ simp n (handle_open-IsHandled cfg f m h)
  | inl y ↦ simp y (elim (Bool-cases f.state_received) [
    | inr n ↦ simp n (handle_node_state-IsHandled cfg f m h)
    | inl s ↦ simp s (handle_business-IsHandled cfg f m h (h.linked o s))
  ])
]
