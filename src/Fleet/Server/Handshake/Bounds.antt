-- ===== src/Fleet/Server/Handshake/Bounds.antt =====
-- server.py: a handshake does not go on for ever.
use hanium_smart_parkin.Base.{
  ℕ, suc, ◌+◌, ◌≤◌, ◌<◌, ◌≢◌, ◌⊎◌, inl, inr, Bool-cases, Bool, true, false, Option, List, [], ◌∷◌,
  leb, arith,
}
use hanium_smart_parkin.Bridge.Wire.{AckResult, ready_allowed, hold, rejected}
use hanium_smart_parkin.Fleet.Protocol.{HelloReason}
use hanium_smart_parkin.Fleet.Session.{
  Event, raw, raw_command, on_status, on_command_result, on_command_rejected, on_comm_fail,
  on_comm_recovered, on_hold, on_resync, on_ready,
}
use hanium_smart_parkin.Fleet.Server.{VehicleServer, Hello, judge_hello, max_hold_retries}
use hanium_smart_parkin.Fleet.Server.Handshake.{
  Reading, greeting, other_message, broken, pending, Handshake, judged, greeted, handshake,
}

module _ {F : Type 0} where
  -- How many HELLOs have been put off.
  abbrev pub holds : List (Event F) → ℕ
  holds [] = 0
  holds (on_hold _ _ ∷ es) = suc (holds es)
  holds (on_comm_fail _ _ ∷ es) = holds es
  holds (on_comm_recovered _ ∷ es) = holds es
  holds (on_status _ _ ∷ es) = holds es
  holds (on_command_result _ _ _ _ ∷ es) = holds es
  holds (on_command_rejected _ _ _ ∷ es) = holds es
  holds (raw _ _ ∷ es) = holds es
  holds (raw_command _ _ ∷ es) = holds es
  holds (on_resync _ ∷ es) = holds es
  holds (on_ready _ ∷ es) = holds es

-- How many HELLOs there are.
abbrev pub greetings : List Reading → ℕ
greetings [] = 0
greetings (greeting _ _ _ ∷ rs) = suc (greetings rs)
greetings (other_message ∷ rs) = greetings rs
greetings (broken ∷ rs) = greetings rs

-- No more than `MAX` are put off, and after as many HELLOs the handshake is over.
abbrev pub Ends : {F : Type 0} → ℕ → ℕ → Handshake F → Type 0
Ends n count h =
    (holds h.events + count ≤ max_hold_retries)
    × ((n + count < max_hold_retries) ⊎ (h.ending ≢ pending))

module _ {F : Type 0} (conn session_id now : ℕ) where
  judged-Ends :
      (result : AckResult) (reason : Option HelloReason) (h : Hello) (n count : ℕ)
      (srv : VehicleServer F) (rest : Handshake F)
      → count < max_hold_retries
      → (suc count < max_hold_retries → Ends n (suc count) rest)
      → Ends (suc n) count (judged conn session_id now result reason h count srv rest)
  unfolding judged
  judged-Ends ready_allowed reason h n count srv rest c k = (omega arith, inr (λ e. cc))
  judged-Ends rejected reason h n count srv rest c k = (omega arith, inr (λ e. cc))
  judged-Ends hold reason h n count srv rest c k =
      elim (Bool-cases (leb max_hold_retries (suc count))) [
        | inl e ↦ rw e (omega arith, inr (λ q. cc))
        | inr e ↦
            let (a, b) = k (ground (arith, e)) in
            rw e (omega (arith, a), elim b [ inl l ↦ inl (omega (arith, l)) | inr p ↦ inr p ])
      ]

  greeted-Ends :
      (h : Hello) (hold_check : Option ℕ) (sends : Bool) (n count : ℕ) (srv : VehicleServer F)
      (rest : Handshake F)
      → count < max_hold_retries
      → (suc count < max_hold_retries → Ends n (suc count) rest)
      → Ends (suc n) count (greeted conn session_id now h hold_check sends count srv rest)
  unfolding greeted
  greeted-Ends h hold_check false n count srv rest c k = (omega arith, inr (λ e. cc))
  greeted-Ends h hold_check true n count srv rest c k =
      judged-Ends (judge_hello hold_check h srv).0 (judge_hello hold_check h srv).1 h n count srv
        rest c k

  -- Whatever a connection sends, its handshake puts off at most `max_hold_retries` HELLOs; and when so
  -- many have come it is over, be it with a session, or with the connection closed.
  pub handshake-Ends :
      (rs : List Reading) (count : ℕ) (srv : VehicleServer F)
      → count < max_hold_retries
      → Ends (greetings rs) count (handshake conn session_id now rs count srv)
  unfolding handshake
  handshake-Ends [] count srv c = (omega arith, inl (omega arith))
  handshake-Ends (broken ∷ rs) count srv c = (omega arith, inr (λ e. cc))
  handshake-Ends (other_message ∷ rs) count srv c = handshake-Ends rs count srv c
  handshake-Ends (greeting h hold_check sends ∷ rs) count srv c =
      greeted-Ends h hold_check sends (greetings rs) count srv
        (handshake conn session_id now rs (suc count) srv) c
        (λ d. handshake-Ends rs (suc count) srv d)
