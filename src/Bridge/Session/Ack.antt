-- ===== src/Bridge/Session/Ack.antt =====
-- session.py: what answers the outstanding command, and the order of snapshots.
use hanium_smart_parkin.Base.{ℕ, ◌≡◌, refl, ◌⊎◌, inl, inr, ◌↔◌, true, none, some, arith}
use hanium_smart_parkin.Base.Int.{pos, ◌≤ℤ◌}
use hanium_smart_parkin.Bridge.Wire.{
  CommandResult, none_result, other_result, IsFinal, Json, as_int, Status,
}
use hanium_smart_parkin.Bridge.Session.{
  VehicleSession, OutstandingCommand, is_terminal, consume_terminal_result, record_snapshot,
}

pub terminal-IsFinal : (r : CommandResult) → is_terminal r ≡ true → IsFinal r
terminal-IsFinal r e = ((λ q. cc), λ q. cc)

pub IsFinal-terminal : (r : CommandResult) → IsFinal r → is_terminal r ≡ true
IsFinal-terminal none_result h = absurd (h.0 refl)
IsFinal-terminal other_result h = absurd (h.1 refl)
IsFinal-terminal _ h = refl

module _ {F : Type 0} where
  -- The field holds the integer `n`.
  abbrev pub Names : Json F → ℕ → Type 0
  Names x n = as_int x ≡ some (pos n)

  answered :
      (m : Status F) (s : VehicleSession F) (cmd : OutstandingCommand F)
      → s.outstanding ≡ some cmd
      → (consume_terminal_result m s).outstanding ≡ none
      → (is_terminal m.command_result ≡ true)
        × (Names m.last_processed_cmd_seq cmd.seq ⊎ Names m.rejected_seq cmd.seq)
  unfolding consume_terminal_result
  answered m s cmd e h = ground arith

  answers :
      (m : Status F) (s : VehicleSession F) (cmd : OutstandingCommand F)
      → s.outstanding ≡ some cmd
      → is_terminal m.command_result ≡ true
      → Names m.last_processed_cmd_seq cmd.seq ⊎ Names m.rejected_seq cmd.seq
      → (consume_terminal_result m s).outstanding ≡ none
  unfolding consume_terminal_result
  answers m s cmd e t (inl h) = ground arith
  answers m s cmd e t (inr h) = ground arith

  -- A STATUS completes the outstanding command exactly if its result is a word of the protocol other
  -- than NONE and one of its two numbers is that of the command.
  pub consume_terminal_result_iff :
      (m : Status F) (s : VehicleSession F) (cmd : OutstandingCommand F)
      → s.outstanding ≡ some cmd
      → ((consume_terminal_result m s).outstanding ≡ none)
        ↔ IsFinal m.command_result
          × (Names m.last_processed_cmd_seq cmd.seq ⊎ Names m.rejected_seq cmd.seq)
  consume_terminal_result_iff m s cmd e = (
    (λ h. let (t, n) = answered m s cmd e h in (terminal-IsFinal m.command_result t, n)),
    λ h. answers m s cmd e (IsFinal-terminal m.command_result h.0) h.1,
  )

  -- A recorded snapshot never lowers the number of the latest one.
  pub record_snapshot-mono :
      (now : ℕ) (m : Status F) (s : VehicleSession F)
      → s.last_status_seq ≤ℤ (record_snapshot now m s).last_status_seq
  unfolding record_snapshot
  record_snapshot-mono now m s = ground arith
