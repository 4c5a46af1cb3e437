-- ===== src/Gateway/Input/Lines.antt =====
-- The lines that the input guard keeps, internal/gateway/gateway.go.
use hdc_remote_kit.Base.{
  ltb→lt, ◌-◌, length-drop, ap, sym, arith, append_assoc, [], ◌≤◌, ◌∷◌, ◌∙◌, ◌||◌, true, le→ltb,
  false, append-nil, List, refl, inl, inr, ◌+◌, length, ltb, Bool-cases, ◌++◌, some, ◌⊎◌, none, ◌≡◌,
}
use hdc_remote_kit.Gateway.Input.{
  shell_input_guard_limit, type_frames, last_line, keep_tail, any_line_end,
  shell_input_inspect_limit, Bytes, guarded_text, guard_input,
}

-- The text to inspect, if there is one, is the buffer with the chunk behind it.
pub guarded_text-cases :
    (buffer chunk : Bytes)
    → (guarded_text (guard_input buffer chunk) ≡ none)
      ⊎ (guarded_text (guard_input buffer chunk) ≡ some (buffer ++ chunk))
unfolding guard_input guarded_text
guarded_text-cases buffer chunk =
    elim (Bool-cases (ltb shell_input_inspect_limit (length buffer + length chunk))) [
      | inl e ↦ inl (rw e refl)
      | inr e ↦ inr (rw e refl)
    ]

any_append : (xs ys : Bytes) → any_line_end (xs ++ ys) ≡ (any_line_end xs || any_line_end ys)
unfolding any_line_end
any_append [] ys = refl
any_append (c ∷ xs) ys = ground (arith, any_append xs ys)

one_line : (xs : Bytes) → any_line_end xs ≡ false → last_line xs ≡ xs
unfolding last_line
one_line [] h = refl
one_line (c ∷ xs) h = rw h refl

last_line-any : (xs : Bytes) → any_line_end (last_line xs) ≡ false
unfolding last_line any_line_end
last_line-any [] = refl
last_line-any (c ∷ xs) = elim (Bool-cases (any_line_end (c ∷ xs))) [
  | inl e ↦ rw e (last_line-any xs)
  | inr e ↦ rw e e
]

last_line-append_ended :
    (xs ys : Bytes) → any_line_end ys ≡ true → last_line (xs ++ ys) ≡ last_line ys
unfolding last_line
last_line-append_ended [] ys h = refl
last_line-append_ended (c ∷ xs) ys h =
    let e : any_line_end (c ∷ (xs ++ ys)) ≡ true = ground (arith, any_append (c ∷ xs) ys) in
    rw e (last_line-append_ended xs ys h)

last_line-append_open :
    (xs ys : Bytes) → any_line_end ys ≡ false → last_line (xs ++ ys) ≡ last_line xs ++ ys
unfolding last_line
last_line-append_open [] ys h = one_line ys h
last_line-append_open (c ∷ xs) ys h = elim (Bool-cases (any_line_end (c ∷ xs))) [
  | inl e ↦
      let f : any_line_end (c ∷ (xs ++ ys)) ≡ true = ground (arith, any_append (c ∷ xs) ys) in
      rw (e, f) (last_line-append_open xs ys h)
  | inr e ↦
      let f : any_line_end (c ∷ (xs ++ ys)) ≡ false = ground (arith, any_append (c ∷ xs) ys) in
      rw (e, f) refl
]

-- The last line is all of the past that the last line of what comes next needs.
pub last_line-last_line : (xs ys : Bytes) → last_line (last_line xs ++ ys) ≡ last_line (xs ++ ys)
last_line-last_line xs ys = elim (Bool-cases (any_line_end ys)) [
  | inl e ↦ last_line-append_ended (last_line xs) ys e ∙ sym (last_line-append_ended xs ys e)
  | inr e ↦
      last_line-append_open (last_line xs) ys e
      ∙ (ap (λ line. line ++ ys) (one_line (last_line xs) (last_line-any xs))
          ∙ sym (last_line-append_open xs ys e))
]

-- A frame fits when what is to inspect is within the limit, and the line it leaves is within the
-- limit of a line.
unfoldable pub FrameFits : Bytes → Bytes → Type 0
FrameFits before chunk =
    (length (last_line before) + length chunk ≤ shell_input_inspect_limit)
    × (length (last_line (before ++ chunk)) ≤ shell_input_guard_limit)

unfoldable pub FramesFit : Bytes → List Bytes → Type 0
FramesFit before [] = Unit
FramesFit before (chunk ∷ chunks) = FrameFits before chunk × FramesFit (before ++ chunk) chunks

guard_input-last_line :
    (before chunk : Bytes)
    → FrameFits before chunk
    → guard_input (last_line before) chunk
      ≡ some (last_line before ++ chunk, last_line (before ++ chunk))
unfolding guard_input keep_tail FrameFits
guard_input-last_line before chunk (fits, line) =
    let e = le→ltb shell_input_inspect_limit (length (last_line before) + length chunk) fits in
    let f = le→ltb shell_input_guard_limit (length (last_line (before ++ chunk))) line in
    rw (e, last_line-last_line before chunk, f) refl

unfoldable pub joined : List Bytes → Bytes
joined [] = []
joined (chunk ∷ chunks) = chunk ++ joined chunks

pub type_frames-last_line :
    (before : Bytes) (chunks : List Bytes)
    → FramesFit before chunks
    → type_frames (last_line before) chunks ≡ some (last_line (before ++ joined chunks))
unfolding type_frames FramesFit joined
type_frames-last_line before [] h = rw (append-nil before) refl
type_frames-last_line before (chunk ∷ chunks) (fits, rest) =
    rw
      (
        type_frames,
        guard_input-last_line before chunk fits,
        ← (append_assoc before chunk (joined chunks)),
      )
      (type_frames-last_line (before ++ chunk) chunks rest)

-- The buffer never grows past a line's limit.
keep_tail-length : (line : Bytes) → length (keep_tail line) ≤ shell_input_guard_limit
unfolding keep_tail
keep_tail-length line = elim (Bool-cases (ltb shell_input_guard_limit (length line))) [
  | inl e ↦ rw e (
      omega (
        arith,
        length-drop (length line - shell_input_guard_limit) line,
        ltb→lt shell_input_guard_limit (length line) e,
      ))
  | inr e ↦ rw e (ground arith)
]

-- If each of some frames and one more fits, that is, what is to inspect for it is within the limit
-- of an inspection and the line that it leaves is within the limit of a line, then all of them are
-- accepted, the buffer is what was typed behind the last line end, however it is split into
-- frames, and the text that is inspected for the one more is that line with the frame behind it.
pub inspected_line :
    (chunks : List Bytes) (chunk : Bytes)
    → FramesFit [] chunks
    → FrameFits (joined chunks) chunk
    → (type_frames [] chunks ≡ some (last_line (joined chunks)))
      × (guard_input (last_line (joined chunks)) chunk
          ≡ some (last_line (joined chunks) ++ chunk, last_line (joined chunks ++ chunk)))
unfolding last_line
inspected_line chunks chunk h fits =
    (type_frames-last_line [] chunks h, guard_input-last_line (joined chunks) chunk fits)
