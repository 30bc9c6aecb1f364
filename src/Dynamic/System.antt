-- ===== src/Dynamic/System.antt =====
-- The calls of the engine as steps in any order, with the dials in progress.
use velvet_fabric.Base.{ℕ, ◌≡◌, Bool, Option, none, some, List, [], if◌then◌else◌}
use velvet_fabric.Base.Bytes.{Bytes}
use velvet_fabric.Net.{Addr}
use velvet_fabric.Vfp.Values.{Policy}
use velvet_fabric.Vfp.Message.{Message}
use velvet_fabric.Dynamic.Binding.{bind_policy_peer, Local, receive_policy}
use velvet_fabric.Dynamic.Dialing.{
  Dialer, Surroundings, finish_routed_dial, free_place, scan_targets, visit,
}
use velvet_fabric.Dynamic.Sending.{Setup, flush_policy}
use velvet_fabric.Dynamic.Attempts.{
  prepare_target, decline_target, at_peer, committed, fallen_back, seed_targets,
}
use velvet_fabric.Dynamic.Sessions.{Dials, with_dial}

abbrev pub new_dialer : ℕ → Dialer
new_dialer free = record { targets = []; dial_window = 0; dial_count = 0; free = free }

-- The engine with its dials in progress.
pub record System : Type 0 where
  pub dialer : Dialer
  pub dials : Dials

-- The calls that neither begin nor end a dial, nor stand in its session.
pub data Call (d : Dialer) : Dialer → Type 0 where
  bound :
      (a : Addr) (id : Bytes) (now later : ℕ)
      → Call d (record d { targets = (bind_policy_peer a id now later d.targets).1 })
  received :
      (local : Local) (source : Addr) (m : Message) (now : ℕ)
      → Call d (record d { targets = receive_policy local source m now d.targets })
  flushed :
      (s : Setup) (random : ℕ → ℕ) (now cursor : ℕ)
      → Call d (record d { targets = (flush_policy s random now cursor d.targets).targets })
  scanned :
      (s : Surroundings) (now : ℕ) (reached : List Addr)
      → Call d (record d { targets = scan_targets s now reached d.targets })
  freed : Call d (free_place d)
  declined :
      (a : Addr) (p : Option Policy) → Call d (record d { targets = decline_target a p d.targets })
  raised : (id : Bytes) → Call d (record d { targets = at_peer committed id d.targets })
  fell_back :
      (id : Bytes) (random now : ℕ)
      → Call d (record d { targets = at_peer (fallen_back random now) id d.targets })

-- A call under the lock of the engine. A dial that a visit grants is in progress until it is finished;
-- bindPolicyPeer binds its session at its address, and prepareOutbound comes in a session that is
-- bound so. A restart takes the targets over.
pub data Step (s : System) : System → Type 0 where
  called : {d : Dialer} → Call s.dialer d → Step s (record s { dialer = d })
  visited :
      (around : Surroundings) (has_evidence : Bool) (target : Addr) (random now : ℕ)
      → Step s (record {
        dialer = (visit around has_evidence target random now s.dialer).1;
        dials =
            if (visit around has_evidence target random now s.dialer).0
            then with_dial target (some none) s.dials
            else s.dials;
      })
  opened :
      (a : Addr) (id : Bytes) (now later : ℕ) (o : Option Bytes)
      → s.dials a ≡ some o
      → (bind_policy_peer a id now later s.dialer.targets).0 ≡ none
      → Step s (record {
        dialer = record s.dialer { targets = (bind_policy_peer a id now later s.dialer.targets).1 };
        dials = with_dial a (some (some id)) s.dials;
      })
  prepared :
      (a : Addr) (id : Bytes)
      → s.dials a ≡ some (some id)
      → Step s
          (record s { dialer = record s.dialer { targets = prepare_target a id s.dialer.targets } })
  finished :
      (around : Surroundings) (target : Addr) (lost : Bool) (random now : ℕ)
      → Step s (record {
        dialer = finish_routed_dial around target lost random now s.dialer;
        dials = with_dial target none s.dials;
      })
  restarted :
      (free : ℕ)
      → Step s (record {
        dialer = record (new_dialer free) { targets = seed_targets s.dialer.targets };
        dials = λ a. none;
      })

pub data Reach : System → Type 0 where
  begun : (free : ℕ) → Reach (record { dialer = new_dialer free; dials = λ a. none })
  then_step : {s t : System} → Reach s → Step s t → Reach t
