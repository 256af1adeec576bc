-- ===== src/Bridge/Framing/Tests.antt =====
-- server.py: a line that comes in two reads, and the start of the next one.
use hanium_smart_parkin.Base.{ℕ, zero, suc, ◌≡◌, refl, Option, none, some, List, [], ◌∷◌, arith}
use hanium_smart_parkin.Bridge.Framing.{receive, split_line, drain, drain_lines, kept_buffer}
use hanium_smart_parkin.Bridge.Framing.Lines.{IsPartial, receive-IsPartial, receive-encoded}

-- A parser that takes the first byte and rejects lines that begin with 0.
abbrev first_byte : List ℕ → Option ℕ
first_byte [] = none
first_byte (zero ∷ bs) = none
first_byte (suc n ∷ bs) = some (suc n)

received : receive first_byte (50 ∷ 10 ∷ 51 ∷ []) (49 ∷ []) ≡ (51 ∷ [], 49 ∷ [])
unfolding receive drain_lines drain split_line kept_buffer
received = refl

receive-IsPartial_example : IsPartial (receive first_byte (50 ∷ 10 ∷ 51 ∷ []) (49 ∷ [])).0
receive-IsPartial_example = receive-IsPartial first_byte (50 ∷ 10 ∷ 51 ∷ []) (49 ∷ [])

receive-encoded_example : receive first_byte (50 ∷ 10 ∷ 51 ∷ []) (49 ∷ []) ≡ (51 ∷ [], 49 ∷ [])
unfolding split_line
receive-encoded_example =
    receive-encoded first_byte ((49 ∷ 50 ∷ []) ∷ []) (51 ∷ []) (49 ∷ []) (50 ∷ 10 ∷ 51 ∷ []) refl
      (((refl, (refl, tt)), omega arith, omega arith), tt) (refl, omega arith) (omega arith)
