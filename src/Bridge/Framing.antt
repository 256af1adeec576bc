-- ===== src/Bridge/Framing.antt =====
-- remote-direct-bridge/server.py: from the bytes of the socket to messages, `_drain_lines` and the loop of
-- `_handle_client` that calls it. A byte is a number. Decoding UTF-8 and `parse_line`, which fail or
-- give a message, are one parameter; a line that they reject is only logged.
pub mod Lines
mod Tests
use hanium_smart_parkin.Base.{
  ℕ, zero, suc, Bool, true, false, Option, none, some, List, [], ◌∷◌, ◌++◌, length, ltb, ◌==◌,
  if◌then◌else◌,
}

abbrev pub newline : ℕ
newline = 10

-- `RX_MAX_LINE_BYTES` and `STREAM_BUFFER_LIMIT`
abbrev pub rx_max_line_bytes : ℕ
rx_max_line_bytes = 512

abbrev pub stream_buffer_limit : ℕ
stream_buffer_limit = 4096

abbrev pub after_byte : ℕ → Option (List ℕ × List ℕ) → Option (List ℕ × List ℕ)
after_byte b none = none
after_byte b (some (raw, rest)) = some (b ∷ raw, rest)

-- What stands before the first newline, and after it.
unfoldable pub split_line : List ℕ → Option (List ℕ × List ℕ)
split_line [] = none
split_line (b ∷ bs) =
    let later = split_line bs in if b == newline then some ([], bs) else after_byte b later

-- A buffer without a newline is kept unless it is too long for a line.
unfoldable pub kept_buffer : List ℕ → List ℕ
kept_buffer buffer = if ltb rx_max_line_bytes (length buffer) then [] else buffer

module _ {M : Type 0} (parse : List ℕ → Option M) where
  abbrev pub handed : Option M → List M → List M
  handed none ms = ms
  handed (some m) ms = m ∷ ms

  -- An empty line and one that is too long are dropped.
  abbrev pub accept : List ℕ → List M → List M
  accept [] ms = ms
  accept (b ∷ bs) ms =
      if ltb rx_max_line_bytes (length (b ∷ bs)) then ms else handed (parse (b ∷ bs)) ms

  -- Each round of the loop takes at least a byte away, so as many rounds as bytes are enough.
  unfoldable pub drain : ℕ → List ℕ → List ℕ × List M
  drain zero buffer = (buffer, [])
  drain (suc k) buffer = elim (split_line buffer) [
    | none ↦ (kept_buffer buffer, [])
    | some (raw, rest) ↦ ((drain k rest).0, accept raw (drain k rest).1)
  ]

  -- `_drain_lines`: the buffer that is left, and the messages handed to the controller
  unfoldable pub drain_lines : List ℕ → List ℕ × List M
  unfolding drain
  drain_lines buffer = drain (suc (length buffer)) buffer

  -- One round of the loop of `_handle_client`.
  unfoldable pub receive : List ℕ → List ℕ → List ℕ × List M
  receive chunk old =
      let buffer = old ++ chunk in
      if ltb stream_buffer_limit (length buffer) then ([], []) else drain_lines buffer
