-- ===== src/Policy/Lexer/Words.antt =====
-- `lexShellSegments` of internal/policy/shell.go on plain words and a redirection's target.
use hdc_remote_kit.Policy.Lexer.Separators.{lex_loop_go, lex_closed}
use hdc_remote_kit.Policy.Lexer.{
  backtick, backslash, is_token_separator, double_quote, is_segment_separator, single_quote,
  plain_step, flush_segment, substitution_step, lex_shell_segments, unquoted_step, unclosed,
  escape_step, write_rune, start, scan, lex_step, lex_loop, flush_token, Lexer,
}
use hdc_remote_kit.Base.{
  ◌||◌, some, sym, none, ◌∙◌, ◌==◌, refl, ap, ◌++◌, ◌&&◌, not, false, arith, [], ◌≡◌, ◌∷◌, true,
  Option, Bool, ℕ, Bytes,
}

-- A character without a meaning to the lexer.
unfoldable pub is_plain : ℕ → Bool
is_plain c = not (
    c == single_quote
    || c == double_quote
    || c == backslash
    || c == backtick
    || c == b'$'
    || c == b'|'
    || c == b'>'
    || is_segment_separator c
    || is_token_separator c)

unfoldable pub is_plain_word : Bytes → Bool
is_plain_word [] = true
is_plain_word (c ∷ word) = is_plain c && is_plain_word word

-- Outside of quotes.
IsOutside : Lexer → Type 0
IsOutside l = (l.single_quoted ≡ false) × (l.double_quoted ≡ false)

plain_step_written :
    (l : Lexer) (c : ℕ) (next : Option ℕ)
    → IsOutside l
    → is_plain c ≡ true
    → lex_step l c next ≡ (write_rune c l, false)
unfolding IsOutside lex_step escape_step unquoted_step substitution_step plain_step is_plain
    is_segment_separator is_token_separator
plain_step_written l c none (s, d) h = ground arith
plain_step_written l c (some next) (s, d) h = ground arith

arrow_step :
    (l : Lexer) (next : Option ℕ)
    → IsOutside l
    → lex_step l b'>' next ≡ (record (flush_token l) { pending_redirect = true }, false)
unfolding IsOutside lex_step escape_step unquoted_step substitution_step plain_step
    is_segment_separator
arrow_step l none (s, d) = ground arith
arrow_step l (some next) (s, d) = ground arith

pipe_step :
    (l : Lexer) (next : Option ℕ)
    → IsOutside l
    → l.pending_redirect ≡ true
    → lex_step l b'|' next ≡ (l, false)
unfolding IsOutside lex_step escape_step unquoted_step substitution_step plain_step
pipe_step l none (s, d) h = ground arith
pipe_step l (some next) (s, d) h = ground arith

-- One character that does not skip the next one.
lex_loop_one :
    (l l' : Lexer) (c : ℕ) (rest : Bytes)
    → ((next : Option ℕ) → lex_step l c next ≡ (l', false))
    → lex_loop l (c ∷ rest) ≡ lex_loop l' rest
unfolding lex_loop
lex_loop_one l l' c [] h = ap (λ r. r.0) (h none)
lex_loop_one l l' c (d ∷ rest) h =
    lex_loop_go l c d rest (ap (λ r. r.1) (h (some d)))
    ∙ ap (λ r. lex_loop r.0 (d ∷ rest)) (h (some d))

write-IsOutside : (l : Lexer) (c : ℕ) → IsOutside l → IsOutside (write_rune c l)
unfolding IsOutside write_rune
write-IsOutside l c o = o

written : Lexer → Bytes → Lexer
written l [] = l
written l (c ∷ word) = written (write_rune c l) word

lex_loop_word :
    (l : Lexer) (word rest : Bytes)
    → IsOutside l
    → is_plain_word word ≡ true
    → lex_loop l (word ++ rest) ≡ lex_loop (written l word) rest
unfolding is_plain_word written
lex_loop_word l [] rest o h = refl
lex_loop_word l (c ∷ word) rest o h =
    lex_loop_one l (write_rune c l) c (word ++ rest)
      (λ next. plain_step_written l c next o (ground arith))
    ∙ lex_loop_word (write_rune c l) word rest (write-IsOutside l c o) (ground arith)

written-IsOutside : (l : Lexer) (word : Bytes) → IsOutside l → IsOutside (written l word)
unfolding written
written-IsOutside l [] o = o
written-IsOutside l (c ∷ word) o = written-IsOutside (write_rune c l) word (write-IsOutside l c o)

written_pending :
    (l : Lexer) (word : Bytes)
    → l.pending_redirect ≡ true
    → (written l word).pending_redirect ≡ true
unfolding written write_rune
written_pending l [] h = h
written_pending l (c ∷ word) h = written_pending (write_rune c l) word h

flush-IsOutside :
    (l : Lexer) → IsOutside l → IsOutside (record (flush_token l) { pending_redirect = true })
unfolding IsOutside flush_token
flush-IsOutside l (s, d) = (ground arith, ground arith)

-- While a redirection's target is read, a `|` is passed over.
lex_loop_target :
    (l : Lexer) (target rest : Bytes)
    → IsOutside l
    → is_plain_word target ≡ true
    → lex_loop l (b'>' ∷ (target ++ b'|' ∷ rest)) ≡ lex_loop l (b'>' ∷ (target ++ rest))
lex_loop_target l target rest o h =
    let l' = record (flush_token l) { pending_redirect = true } in
    let o' = flush-IsOutside l o in
    lex_loop_one l l' b'>' (target ++ b'|' ∷ rest) (λ next. arrow_step l next o)
    ∙ lex_loop_word l' target (b'|' ∷ rest) o' h
    ∙ lex_loop_one (written l' target) (written l' target) b'|' rest (λ next.
      pipe_step (written l' target) next (written-IsOutside l' target o')
        (written_pending l' target refl))
    ∙ sym (lex_loop_word l' target rest o' h)
    ∙ sym (lex_loop_one l l' b'>' (target ++ rest) (λ next. arrow_step l next o))

start-IsOutside : IsOutside start
unfolding IsOutside
start-IsOutside = (refl, refl)

scan_target :
    (word target rest : Bytes)
    → is_plain_word word ≡ true
    → is_plain_word target ≡ true
    → scan (word ++ b'>' ∷ (target ++ b'|' ∷ rest)) ≡ scan (word ++ b'>' ∷ (target ++ rest))
unfolding scan
scan_target word target rest h k = ap (flush_segment false) (
    lex_loop_word start word (b'>' ∷ (target ++ b'|' ∷ rest)) start-IsOutside h
    ∙ lex_loop_target (written start word) target rest
        (written-IsOutside start word start-IsOutside) k
    ∙ sym (lex_loop_word start word (b'>' ∷ (target ++ rest)) start-IsOutside h))

-- For a word and a redirection target without any special character, a `|` directly behind the
-- target makes no difference to the segments of the command, provided that the quotes are closed
-- in the command without the `|`.
pub lex_shell_segments_target :
    (word target rest : Bytes)
    → is_plain_word word ≡ true
    → is_plain_word target ≡ true
    → unclosed (scan (word ++ b'>' ∷ (target ++ rest))) ≡ false
    → lex_shell_segments (word ++ b'>' ∷ (target ++ b'|' ∷ rest))
      ≡ lex_shell_segments (word ++ b'>' ∷ (target ++ rest))
lex_shell_segments_target word target rest h k closed =
    let alike = scan_target word target rest h k in
    lex_closed (word ++ b'>' ∷ (target ++ b'|' ∷ rest)) (scan (word ++ b'>' ∷ (target ++ rest)))
      alike closed
    ∙ sym (
        lex_closed (word ++ b'>' ∷ (target ++ rest)) (scan (word ++ b'>' ∷ (target ++ rest))) refl
          closed)
