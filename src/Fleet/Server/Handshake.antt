-- ===== src/Fleet/Server/Handshake.antt =====
-- server.py: `_handshake`, over what it reads from a connection.
pub mod Bounds
use hanium_smart_parkin.Base.{
  ℕ, suc, Bool, true, false, Option, none, some, List, [], ◌∷◌, ◌++◌, leb, if◌then◌else◌,
}
use hanium_smart_parkin.Bridge.Wire.{AckResult, ready_allowed, hold, rejected}
use hanium_smart_parkin.Fleet.Protocol.{HelloReason, plain_hold, Frame, make_hello_ack}
use hanium_smart_parkin.Fleet.Session.{
  VehicleSession, Event, raw, on_comm_fail, on_hold, on_resync, on_ready, hold_exhausted,
  command_seq_start, new,
}
use hanium_smart_parkin.Fleet.Server.{VehicleServer, Hello, put, judge_hello, max_hold_retries}

-- A line of the connection: a HELLO, with what `hold_check` says of it and whether the answer can be
-- sent; another message; or the end, be it closed, timed out or not to be read.
pub data Reading : Type 0 where
  greeting : Hello → Option ℕ → Bool → Reading
  other_message broken : Reading

-- How a handshake ends; `pending` is one that has had no further line yet. A session whose place the
-- new one takes is marked dead, for the thread that reads from it.
pub data Ending (F : Type 0) : Type 0 where
  closed pending : Ending F
  opened : Option (VehicleSession F) → Ending F

pub record Handshake (F : Type 0) : Type 0 where
  pub server : VehicleServer F
  pub ending : Ending F
  pub events : List (Event F)

-- `reason or "HOLD"`
abbrev or_hold : Option HelloReason → HelloReason
or_hold none = plain_hold
or_hold (some r) = r

module _ {F : Type 0} where
  abbrev pub ended : VehicleServer F → Ending F → List (Event F) → Handshake F
  ended srv e es = record { server = srv; ending = e; events = es }

  abbrev pub after_event : Event F → Handshake F → Handshake F
  after_event e h = record h { events = e ∷ h.events }

  abbrev retired : Option (VehicleSession F) → Option (VehicleSession F)
  retired none = none
  retired (some s) = some (record s { alive = false })

module _ {F : Type 0} (conn session_id now : ℕ) where
  -- The answer, with a new session's id only if there is to be one.
  abbrev pub ack : Hello → AckResult → Option HelloReason → Event F
  ack h result reason =
      let sid : ℕ = elim result [ ready_allowed ↦ session_id | _ ↦ 0 ] in
      raw conn (make_hello_ack h.car_id sid result reason h.boot_id command_seq_start)

  -- `rest` is what comes of the next line, if it is read.
  unfoldable pub judged :
      AckResult → Option HelloReason → Hello → ℕ → VehicleServer F → Handshake F → Handshake F
  judged ready_allowed reason h count srv rest =
      ended (put h.car_id (new h.car_id session_id h.boot_id conn now) srv)
        (opened (retired (srv.sessions h.car_id))) (on_resync h.car_id ∷ on_ready h.car_id ∷ [])
  judged rejected reason h count srv rest = ended srv closed []
  judged hold reason h count srv rest =
      if leb max_hold_retries (suc count)
      then ended srv closed (
          on_hold h.car_id (or_hold reason)
          ∷ on_comm_fail h.car_id (hold_exhausted (or_hold reason))
          ∷ [])
      else after_event (on_hold h.car_id (or_hold reason)) rest

  unfoldable pub greeted : Hello → Option ℕ → Bool → ℕ → VehicleServer F → Handshake F → Handshake F
  unfolding judged
  greeted h hold_check false count srv rest = ended srv closed []
  greeted h hold_check true count srv rest =
      let (result, reason) = judge_hello hold_check h srv in
      after_event (ack h result reason) (judged result reason h count srv rest)

  -- `count` HELLOs have been answered with HOLD so far.
  unfoldable pub handshake : List Reading → ℕ → VehicleServer F → Handshake F
  handshake [] count srv = ended srv pending []
  handshake (broken ∷ rs) count srv = ended srv closed []
  handshake (other_message ∷ rs) count srv = handshake rs count srv
  handshake (greeting h hold_check sends ∷ rs) count srv =
      let rest = handshake rs (suc count) srv in greeted h hold_check sends count srv rest
