-- ===== src/Policy/Lexer/Rescan.antt =====
-- The second run of `lexShellSegments` of internal/policy/shell.go, on a text without quotes.
use hdc_remote_kit.Base.{
  inr, inl, ◌++◌, ◌&&◌, [], Bool-cases, ◌∷◌, if◌then◌else◌, Bytes, none, some, ap, ◌-◌, ◌+◌, refl,
  not, true, false, ◌||◌, ◌∙◌, ◌==◌, arith, Option, ◌≡◌, Bool, ℕ,
}
use hdc_remote_kit.Policy.Lexer.{
  lex_shell_segments, unclosed, strip_quotes, start, scan, lex_loop, escape_step, unquoted_step,
  lex_step, substitution_step, double_quote, single_quote, write_rune, emit_segment, plain_step,
  mark_command_substitution, flush_token, flush_segment, Lexer,
}

quotes : Lexer → Bool × Bool
quotes l = (l.single_quoted, l.double_quoted)

is_quote : ℕ → Bool
is_quote c = c == single_quote || c == double_quote

quotes-flush_token : (l : Lexer) → quotes (flush_token l) ≡ quotes l
unfolding quotes flush_token
quotes-flush_token l = ground arith

quotes-emit_segment : (next : Bool) (l : Lexer) → quotes (emit_segment next l) ≡ quotes l
unfolding quotes emit_segment
quotes-emit_segment next l = ground arith

quotes-flush_segment : (next : Bool) (l : Lexer) → quotes (flush_segment next l) ≡ quotes l
unfolding flush_segment
quotes-flush_segment next l = quotes-emit_segment next (flush_token l) ∙ quotes-flush_token l

quotes-mark : (l : Lexer) → quotes (mark_command_substitution l) ≡ quotes l
unfolding quotes mark_command_substitution
quotes-mark l = ground arith

quotes-plain_step :
    (l : Lexer) (value : ℕ) (next : Option ℕ) → quotes (plain_step l value next).0 ≡ quotes l
unfolding plain_step quotes write_rune
quotes-plain_step l value next =
    ground (arith, quotes-flush_segment false l, quotes-flush_segment true l, quotes-flush_token l)

quotes_toggled : (l : Lexer) → quotes (record l { in_backtick = not l.in_backtick }) ≡ quotes l
unfolding quotes
quotes_toggled l = refl

quotes_closed :
    (l : Lexer) → quotes (record l { substitution_depth = l.substitution_depth - 1 }) ≡ quotes l
unfolding quotes
quotes_closed l = refl

quotes_opened :
    (l : Lexer) → quotes (record l { substitution_depth = l.substitution_depth + 1 }) ≡ quotes l
unfolding quotes
quotes_opened l = refl

quotes_written : (l : Lexer) (value : ℕ) → quotes (write_rune value l) ≡ quotes l
unfolding quotes write_rune
quotes_written l value = refl

quotes-substitution_step :
    (l : Lexer) (value : ℕ) (next : Option ℕ) → quotes (substitution_step l value next).0 ≡ quotes l
unfolding substitution_step write_rune
quotes-substitution_step l value next =
    let backtick_toggled = record l { in_backtick = not l.in_backtick } in
    let closed = record l { substitution_depth = l.substitution_depth - 1 } in
    ground (
      arith,
      quotes-flush_segment false (mark_command_substitution backtick_toggled)
          ∙ quotes-mark backtick_toggled
          ∙ quotes_toggled l,
      quotes-flush_segment false closed ∙ quotes_closed l,
      quotes_written l value,
      quotes-plain_step l value next,
    )

unquoted_step_closed :
    (l : Lexer) (value : ℕ) (next : Option ℕ)
    → is_quote value ≡ false
    → quotes (unquoted_step l value next).0 ≡ quotes l
unfolding unquoted_step is_quote
unquoted_step_closed l value next h =
    let opened = record l { substitution_depth = l.substitution_depth + 1 } in
    ground (
      arith,
      quotes-flush_segment false (mark_command_substitution opened)
          ∙ quotes-mark opened
          ∙ quotes_opened l,
      quotes-substitution_step l value next,
    )

outside_single : (l : Lexer) → quotes l ≡ (false, false) → l.single_quoted ≡ false
unfolding quotes
outside_single l e = ap (λ q. q.0) e

lex_step_closed :
    (l : Lexer) (value : ℕ) (next : Option ℕ)
    → is_quote value ≡ false
    → quotes l ≡ (false, false)
    → quotes (lex_step l value next).0 ≡ (false, false)
unfolding lex_step escape_step
lex_step_closed l value none h e =
    let outside : l.single_quoted ≡ false = outside_single l e in
    ground (arith, unquoted_step_closed l value none h)
lex_step_closed l value (some next) h e =
    let outside : l.single_quoted ≡ false = outside_single l e in
    ground (arith, unquoted_step_closed l value (some next) h, quotes_written l next)

start-quotes : quotes start ≡ (false, false)
unfolding quotes
start-quotes = refl

-- No character is a quote.
plain_text : Bytes → Bool
plain_text [] = true
plain_text (c ∷ text) = not (is_quote c) && plain_text text

lex_loop_closed :
    (l : Lexer) (text : Bytes)
    → plain_text text ≡ true
    → quotes l ≡ (false, false)
    → quotes (lex_loop l text) ≡ (false, false)
unfolding lex_loop plain_text
lex_loop_closed l [] h e = e
lex_loop_closed l (c ∷ []) h e = lex_step_closed l c none (ground arith) e
lex_loop_closed l (c ∷ d ∷ text) h e =
    let closed = lex_step_closed l c (some d) (ground arith) e in
    elim (Bool-cases (lex_step l c (some d)).1) [
      | inl t ↦
          rw (lex_loop, t) (lex_loop_closed (lex_step l c (some d)).0 text (ground arith) closed)
      | inr t ↦
          rw (lex_loop, t)
            (lex_loop_closed (lex_step l c (some d)).0 (d ∷ text) (ground arith) closed)
    ]

strip_one : (c : ℕ) → is_quote (if c == double_quote || c == single_quote then b' ' else c) ≡ false
unfolding is_quote
strip_one c = ground arith

strip_quotes_plain : (text : Bytes) → plain_text (strip_quotes text) ≡ true
unfolding strip_quotes plain_text
strip_quotes_plain [] = refl
strip_quotes_plain (c ∷ text) = rw (strip_one c) (strip_quotes_plain text)

unclosed_of_quotes : (l : Lexer) → quotes l ≡ (false, false) → unclosed l ≡ false
unfolding quotes
unclosed_of_quotes l e = cc

-- A text without quotes ends outside of quotes.
pub scan-strip_quotes : (text : Bytes) → unclosed (scan (strip_quotes text)) ≡ false
unfolding scan
scan-strip_quotes text =
    let l = lex_loop start (strip_quotes text) in
    unclosed_of_quotes (flush_segment false l) (
      quotes-flush_segment false l
      ∙ lex_loop_closed start (strip_quotes text) (strip_quotes_plain text) start-quotes)

-- The segments of a command solve the recursive equation of the code: one scan, and if it ends
-- inside a quote also the segments of the command whose quotes are replaced by spaces.
pub lex_shell_segments_rescan :
    (command : Bytes)
    → lex_shell_segments command ≡ (
        if unclosed (scan command)
        then (scan command).segments ++ lex_shell_segments (strip_quotes command)
        else (scan command).segments)
unfolding lex_shell_segments
lex_shell_segments_rescan command = elim (Bool-cases (unclosed (scan command))) [
  | inl t ↦ rw (t, scan-strip_quotes command) refl
  | inr t ↦ rw t refl
]
