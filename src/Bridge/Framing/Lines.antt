-- ===== src/Bridge/Framing/Lines.antt =====
-- server.py: the buffer between two reads, and the lines that are found in it.
use hanium_smart_parkin.Base.{
  ℕ, zero, suc, ◌≤◌, ◌<◌, ◌≡◌, refl, ap, inl, inr, false, Option, none, some, List, [], ◌∷◌, ◌++◌,
  length, length-append, ltb, ◌==◌, All, Bool-cases, arith, if_both, Option-cases,
}
use mathlib.Core.Path.{subst}
use hanium_smart_parkin.Bridge.Framing.{
  newline, rx_max_line_bytes, stream_buffer_limit, split_line, kept_buffer, handed, accept, drain,
  drain_lines, receive,
}

-- Between two reads the buffer holds the start of one line, no longer than a line may be.
abbrev pub IsPartial : List ℕ → Type 0
IsPartial buffer = (split_line buffer ≡ none) × (length buffer ≤ rx_max_line_bytes)

-- What is left after a newline is shorter.
abbrev Shortens : List ℕ → Option (List ℕ × List ℕ) → Type 0
Shortens buffer none = Unit
Shortens buffer (some (raw, rest)) = length rest < length buffer

split_line-Shortens : (buffer : List ℕ) → Shortens buffer (split_line buffer)
unfolding split_line
split_line-Shortens [] = tt
split_line-Shortens (b ∷ bs) = let lem = split_line-Shortens bs in ground arith

empty-IsPartial : IsPartial []
unfolding split_line
empty-IsPartial = (refl, omega arith)

kept_buffer-IsPartial :
    (buffer : List ℕ) → split_line buffer ≡ none → IsPartial (kept_buffer buffer)
unfolding kept_buffer split_line
kept_buffer-IsPartial buffer h = elim (Bool-cases (ltb rx_max_line_bytes (length buffer))) [
  | inl e ↦ rw e (refl, omega arith)
  | inr e ↦ rw e (h, ground arith)
]

kept_buffer-short :
    (buffer : List ℕ) → length buffer ≤ rx_max_line_bytes → kept_buffer buffer ≡ buffer
unfolding kept_buffer
kept_buffer-short buffer h = ground arith

module _ {M : Type 0} (parse : List ℕ → Option M) where
  -- Enough rounds leave a partial buffer.
  drain-IsPartial :
      (k : ℕ) (buffer : List ℕ) → length buffer < k → IsPartial (drain parse k buffer).0
  unfolding drain
  drain-IsPartial zero buffer h = ground arith
  drain-IsPartial (suc k) buffer h = elim (Option-cases (split_line buffer)) [
    | inl e ↦ rw (drain, e) (kept_buffer-IsPartial buffer e)
    | inr (r, e) ↦
        let short = subst (Shortens buffer) e (split_line-Shortens buffer) in
        rw (drain, e) (drain-IsPartial k r.1 (omega arith))
  ]

  -- However the bytes come in, after each read the buffer holds no newline and at most
  -- `RX_MAX_LINE_BYTES` bytes: every complete line has been taken out, and garbage cannot pile up.
  pub receive-IsPartial : (chunk old : List ℕ) → IsPartial (receive parse chunk old).0
  unfolding receive drain_lines
  receive-IsPartial chunk old =
      if_both (λ (r : List ℕ × List M). IsPartial r.0)
        (ltb stream_buffer_limit (length (old ++ chunk))) empty-IsPartial
        (drain-IsPartial (suc (length (old ++ chunk))) (old ++ chunk) (omega arith))

  -- The bytes of a line as the peer sends it: no newline, and neither empty nor too long.
  abbrev pub IsLine : List ℕ → Type 0
  IsLine line =
      All (λ b. (b == newline) ≡ false) line × (1 ≤ length line) × (length line ≤ rx_max_line_bytes)

  -- Lines, each ended by a newline, and the bytes after them.
  abbrev pub encoded : List (List ℕ) → List ℕ → List ℕ
  encoded [] tail = tail
  encoded (line ∷ lines) tail = line ++ newline ∷ encoded lines tail

  -- The messages of the lines, in order.
  abbrev pub parsed : List (List ℕ) → List M
  parsed [] = []
  parsed (line ∷ lines) = handed parse (parse line) (parsed lines)

  split_line-line :
      (line rest : List ℕ)
      → All (λ b. (b == newline) ≡ false) line
      → split_line (line ++ newline ∷ rest) ≡ some (line, rest)
  unfolding split_line
  split_line-line [] rest h = refl
  split_line-line (b ∷ bs) rest h = rw (h.0, split_line-line bs rest h.1) refl

  accept-line :
      (line : List ℕ) (ms : List M)
      → IsLine line
      → accept parse line ms ≡ handed parse (parse line) ms
  accept-line [] ms h = ground arith
  accept-line (b ∷ bs) ms h = ground arith

  drain-encoded :
      (k : ℕ) (lines : List (List ℕ)) (tail : List ℕ)
      → length (encoded lines tail) < k
      → All IsLine lines
      → IsPartial tail
      → drain parse k (encoded lines tail) ≡ (tail, parsed lines)
  unfolding drain
  drain-encoded zero lines tail n h p = ground arith
  drain-encoded (suc k) [] tail n h p =
      rw (drain, p.0) (ap (λ b. (b, [])) (kept_buffer-short tail p.1))
  drain-encoded (suc k) (line ∷ lines) tail n h p =
      let split = split_line-line line (encoded lines tail) h.0.0 in
      let size = length-append line (newline ∷ encoded lines tail) in
      let rest = drain-encoded k lines tail (omega arith) h.1 p in
      rw (drain, split, rest) (ap (λ ms. (tail, ms)) (accept-line line (parsed lines) h.0))

  -- If the buffer and the bytes just read make up lines and the start of another one, within the limit,
  -- then wherever the read cut them the messages of the lines are handed on in order, each exactly
  -- once, and the start is what is left.
  pub receive-encoded :
      (lines : List (List ℕ)) (tail old chunk : List ℕ)
      → old ++ chunk ≡ encoded lines tail
      → All IsLine lines
      → IsPartial tail
      → length (encoded lines tail) ≤ stream_buffer_limit
      → receive parse chunk old ≡ (tail, parsed lines)
  unfolding receive drain_lines
  receive-encoded lines tail old chunk e h p fits =
      let small : ltb stream_buffer_limit (length (encoded lines tail)) ≡ false = ground arith in
      rw (e, small) (drain-encoded (suc (length (encoded lines tail))) lines tail (omega arith) h p)
