-- ===== src/Policy/Lexer.antt =====
-- `lexShellSegments` of internal/policy/shell.go. The variables that its closures share are one
-- record; `lex_step` is the body of the loop, told the next rune, and says whether to skip that.
pub mod Prepend
pub mod Rescan
pub mod Words
pub mod Separators
use hdc_remote_kit.Base.{
  ℕ, zero, suc, ◌+◌, ◌-◌, List, [], ◌∷◌, ◌++◌, Bool, true, false, not, ◌&&◌, ◌||◌, Option, none,
  some, Bytes, ltb, ◌==◌, if◌then◌else◌, map,
}

pub record ShellSegment : Type 0 where
  pub tokens : List Bytes
  pub redirects : List Bytes
  pub commands : List Bytes
  pub piped_in : Bool
  pub indirect : Bool

abbrev pub empty_segment : Bool → ShellSegment
empty_segment piped = record {
  tokens = [];
  redirects = [];
  commands = [];
  piped_in = piped;
  indirect = false;
}

abbrev pub no_texts : List Bytes → Bool
no_texts [] = true
no_texts (x ∷ xs) = false

-- `(shellSegment).isEmpty`.
unfoldable pub is_empty : ShellSegment → Bool
is_empty s = no_texts s.tokens && no_texts s.redirects && not s.indirect

pub record Lexer : Type 0 where
  pub segments : List ShellSegment
  pub current : ShellSegment
  pub token : Bytes
  pub single_quoted : Bool
  pub double_quoted : Bool
  pub substitution_depth : ℕ
  pub in_backtick : Bool
  pub pending_redirect : Bool
  pub token_started : Bool

abbrev pub start : Lexer
start = record {
  segments = [];
  current = empty_segment false;
  token = [];
  single_quoted = false;
  double_quoted = false;
  substitution_depth = 0;
  in_backtick = false;
  pending_redirect = false;
  token_started = false;
}

add_token : Lexer → ShellSegment
add_token l =
    let c = l.current in
    if l.pending_redirect
    then record c { redirects = c.redirects ++ l.token ∷ [] }
    else record c { tokens = c.tokens ++ l.token ∷ [] }

-- The closure `flushToken`.
unfoldable pub flush_token : Lexer → Lexer
unfolding add_token
flush_token l =
    if l.token_started
    then record l {
      current = add_token l;
      token = [];
      pending_redirect = false;
      token_started = false;
    }
    else l

-- The second half of the closure `flushSegment`, after its flushToken.
emit_segment : Bool → Lexer → Lexer
unfolding is_empty
emit_segment next_piped l =
    if is_empty l.current
    then record l {
      current = empty_segment (if next_piped then true else l.current.piped_in);
      pending_redirect = false;
    }
    else record l {
      segments = l.segments ++ l.current ∷ [];
      current = empty_segment next_piped;
      pending_redirect = false;
    }

-- The closure `flushSegment`.
unfoldable pub flush_segment : Bool → Lexer → Lexer
unfolding emit_segment flush_token
flush_segment next_piped l = emit_segment next_piped (flush_token l)

-- The closure `writeRune`.
unfoldable pub write_rune : ℕ → Lexer → Lexer
write_rune value l = record l { token = l.token ++ value ∷ []; token_started = true }

-- `markCommandSubstitution`.
unfoldable pub mark_command_substitution : Lexer → Lexer
mark_command_substitution l =
    let c = l.current in
    if no_texts c.tokens && not l.token_started
    then record l { current = record c { indirect = true } }
    else l

unfoldable pub is_segment_separator : ℕ → Bool
is_segment_separator value =
    value == b';'
    || value == b'&'
    || value == b'('
    || value == b')'
    || value == 10
    || value == 13
    || value == 0

unfoldable pub is_token_separator : ℕ → Bool
is_token_separator value =
    value == b' '
    || value == 9
    || value == 12
    || value == 11
    || value == b'<'
    || value == b'{'
    || value == b'}'

abbrev pub next_is : Option ℕ → ℕ → Bool
next_is none rune = false
next_is (some value) rune = value == rune

abbrev pub single_quote : ℕ
single_quote = 39

abbrev pub double_quote : ℕ
double_quote = 34

abbrev pub backslash : ℕ
backslash = 92

abbrev pub backtick : ℕ
backtick = 96

-- `literal`: inside double quotes and outside any substitution.
abbrev pub literal : Lexer → Bool
literal l = l.double_quoted && l.substitution_depth == 0 && not l.in_backtick

-- The cases of the switch from `|` on, which stand outside quotes.
unfoldable pub plain_step : Lexer → ℕ → Option ℕ → Lexer × Bool
plain_step l value next =
    if value == b'|'
    then (if l.pending_redirect
        then (l, false)
        else if next_is next b'|'
        then (flush_segment false l, true)
        else (flush_segment true l, false))
    else if is_segment_separator value
    then (flush_segment false l, false)
    else if value == b'>'
    then (record (flush_token l) { pending_redirect = true }, false)
    else if is_token_separator value
    then (flush_token l, false)
    else (write_rune value l, false)

-- The cases of the switch from the backquote to `literal`.
unfoldable pub substitution_step : Lexer → ℕ → Option ℕ → Lexer × Bool
substitution_step l value next =
    if value == backtick
    then (
      flush_segment false
          (mark_command_substitution (record l { in_backtick = not l.in_backtick })),
      false,
    )
    else if value == b')' && ltb 0 l.substitution_depth
    then (flush_segment false (record l { substitution_depth = l.substitution_depth - 1 }), false)
    else if literal l
    then (write_rune value l, false)
    else plain_step l value next

unfoldable pub unquoted_step : Lexer → ℕ → Option ℕ → Lexer × Bool
unquoted_step l value next =
    if value == single_quote && not (literal l)
    then (record l { single_quoted = true; token_started = true }, false)
    else if value == double_quote
    then (record l { double_quoted = not l.double_quoted; token_started = true }, false)
    else if value == b'$' && next_is next b'('
    then (
      flush_segment false
          (mark_command_substitution (record l { substitution_depth = l.substitution_depth + 1 })),
      true,
    )
    else substitution_step l value next

escape_step : Lexer → ℕ → Option ℕ → Lexer × Bool
escape_step l value none = unquoted_step l value none
escape_step l value (some next) =
    if value == backslash then (write_rune next l, true) else unquoted_step l value (some next)

unfoldable pub lex_step : Lexer → ℕ → Option ℕ → Lexer × Bool
unfolding escape_step
lex_step l value next =
    if l.single_quoted
    then (if value == single_quote
        then (record l { single_quoted = false }, false)
        else (write_rune value l, false))
    else escape_step l value next

unfoldable pub lex_loop : Lexer → Bytes → Lexer
lex_loop l [] = l
lex_loop l (value ∷ []) = (lex_step l value none).0
lex_loop l (value ∷ next ∷ runes) =
    let (l', skip) = lex_step l value (some next) in
    elim skip [ true ↦ lex_loop l' runes | false ↦ lex_loop l' (next ∷ runes) ]

-- `stripQuotes`.
unfoldable pub strip_quotes : Bytes → Bytes
strip_quotes = map (λ c. if c == double_quote || c == single_quote then b' ' else c)

unfoldable pub scan : Bytes → Lexer
scan command = flush_segment false (lex_loop start command)

abbrev pub unclosed : Lexer → Bool
unclosed l = l.single_quoted || l.double_quoted

-- The recursive call is on a text without quotes, so it makes no further one.
unfoldable pub lex_shell_segments : Bytes → List ShellSegment
unfolding scan
lex_shell_segments command =
    let l = scan command in
    if unclosed l then l.segments ++ (scan (strip_quotes command)).segments else l.segments
