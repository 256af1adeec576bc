-- ===== src/Reliability/Priority.antt =====
-- reliability.py: when `send` goes through, and what may displace an outstanding command.
use hanium_smart_parkin.Base.{
  ℕ, ◌+◌, ◌≡◌, refl, ◌≢◌, ◌⊎◌, inl, inr, ◌↔◌, Bool, true, not, ◌&&◌, none, some, arith, leb,
  Option-cases,
}
use hanium_smart_parkin.Reliability.{
  MessageType, set_mode, waypoint, go, reset, other, wait, stop, Message, Pending, ReliableSender,
  Outcome, sent, raised, outstanding, send, is_preemptive, priority,
}

-- The command types that neither hold nor stop the car.
pub data IsOrdinary : MessageType → Type 0 where
  set_mode_ordinary : IsOrdinary set_mode
  waypoint_ordinary : IsOrdinary waypoint
  go_ordinary : IsOrdinary go
  reset_ordinary : IsOrdinary reset
  other_ordinary : IsOrdinary other

-- Which command may take the place of which: STOP that of WAIT, and both that of an ordinary one.
pub data MayPreempt : MessageType → MessageType → Type 0 where
  stop_wait : MayPreempt stop wait
  stop_ordinary : {t : MessageType} → IsOrdinary t → MayPreempt stop t
  wait_ordinary : {t : MessageType} → IsOrdinary t → MayPreempt wait t

abbrev outranks : MessageType → MessageType → Bool
outranks t u = is_preemptive t && not (leb (priority t) (priority u))

ruleset preempt_rules = (
  stop_wait, stop_ordinary, wait_ordinary, set_mode_ordinary, waypoint_ordinary, go_ordinary,
  reset_ordinary, other_ordinary,
)

outranks-MayPreempt : (t u : MessageType) → outranks t u ≡ true → MayPreempt t u
outranks-MayPreempt stop wait h = search preempt_rules
outranks-MayPreempt stop set_mode h = search preempt_rules
outranks-MayPreempt stop waypoint h = search preempt_rules
outranks-MayPreempt stop go h = search preempt_rules
outranks-MayPreempt stop reset h = search preempt_rules
outranks-MayPreempt stop other h = search preempt_rules
outranks-MayPreempt wait set_mode h = search preempt_rules
outranks-MayPreempt wait waypoint h = search preempt_rules
outranks-MayPreempt wait go h = search preempt_rules
outranks-MayPreempt wait reset h = search preempt_rules
outranks-MayPreempt wait other h = search preempt_rules
outranks-MayPreempt _ _ h = cc

ordinary_priority : {t : MessageType} → IsOrdinary t → priority t ≡ 0
ordinary_priority set_mode_ordinary = refl
ordinary_priority waypoint_ordinary = refl
ordinary_priority go_ordinary = refl
ordinary_priority reset_ordinary = refl
ordinary_priority other_ordinary = refl

MayPreempt-outranks : {t u : MessageType} → MayPreempt t u → outranks t u ≡ true
MayPreempt-outranks stop_wait = refl
MayPreempt-outranks (stop_ordinary o) = ground (arith, ordinary_priority o)
MayPreempt-outranks (wait_ordinary o) = ground (arith, ordinary_priority o)

abbrev pub IsSent : {P : Type 0} → Outcome P → Type 0
IsSent (sent _ _) = Unit
IsSent (raised _) = ⊥

module _ {P : Type 0} (now : ℕ) (msg : Message P) where
  send_free : (s : ReliableSender P) → s.pending ≡ none → IsSent (send now msg s).1
  unfolding send
  send_free s e = ground arith

  send_over :
      (s : ReliableSender P) (p : Pending P)
      → s.pending ≡ some p
      → outranks msg.type p.msg.type ≡ true
      → IsSent (send now msg s).1
  unfolding send
  send_over s p e h = ground arith

  sent_over :
      (s : ReliableSender P) (p : Pending P)
      → s.pending ≡ some p
      → IsSent (send now msg s).1
      → outranks msg.type p.msg.type ≡ true
  unfolding send
  sent_over s p e h = ground arith

  -- `send` transmits exactly when no command is outstanding, or when the new one may preempt the
  -- type of the outstanding one.
  pub send-IsSent_iff :
      (s : ReliableSender P)
      → IsSent (send now msg s).1
        ↔ (s.pending ≡ none)
          ⊎ ((p : Pending P) × (s.pending ≡ some p) × MayPreempt msg.type p.msg.type)
  send-IsSent_iff s = (
    λ h. elim (Option-cases s.pending) [
      | inl e ↦ inl e
      | inr (p, e) ↦ inr (p, e, outranks-MayPreempt _ _ (sent_over s p e h))
    ],
    λ h. elim h [ inl e ↦ send_free s e | inr (p, e, m) ↦ send_over s p e (MayPreempt-outranks m) ],
  )

  -- What a call of `send` has done, by how it ended.
  abbrev pub Sends : ReliableSender P → ReliableSender P × Outcome P → Type 0
  Sends s (s', sent n m) =
      (n ≡ s.seq + 1) × (m ≡ record msg { seq = n }) × (s'.seq ≡ n) × (outstanding s' ≡ some m)
  Sends s (s', raised _) = (s' ≡ s) × (outstanding s ≢ none)

  -- A transmitted command carries the number after the last one and is the outstanding command from
  -- then on; a refused one leaves the sender as it was, with a command outstanding.
  pub send-Sends : (s : ReliableSender P) → Sends s (send now msg s)
  unfolding send
  send-Sends s = ground arith
