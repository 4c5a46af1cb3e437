-- ===== src/Policy/Lexer/Prepend.antt =====
-- The steps of `lexShellSegments` of internal/policy/shell.go behind segments found before.
use hdc_remote_kit.Base.{
  ◌+◌, ◌-◌, ltb, some, none, [], ◌∷◌, refl, not, append_assoc, ap, ◌&&◌, inr, ◌==◌, true, inl,
  if◌then◌else◌, Option, Bool-cases, ◌≡◌, ◌++◌, ℕ, false, Bool, List,
}
use hdc_remote_kit.Policy.Lexer.{
  double_quote, literal, backslash, single_quote, backtick, unquoted_step, substitution_step,
  lex_step, escape_step, is_token_separator, is_segment_separator, next_is, no_texts, is_empty,
  Lexer, write_rune, emit_segment, ShellSegment, plain_step, mark_command_substitution, flush_token,
  flush_segment,
}

-- The segments found so far are only added to.
abbrev pub prepend : List ShellSegment → Lexer → Lexer
prepend found l = record l { segments = found ++ l.segments }

flush_token-prepend :
    (found : List ShellSegment) (l : Lexer)
    → flush_token (prepend found l) ≡ prepend found (flush_token l)
unfolding flush_token
flush_token-prepend found l = elim (Bool-cases l.token_started) [
  | inl t ↦ rw t refl
  | inr t ↦ rw t refl
]

emit_segment-prepend :
    (found : List ShellSegment) (next : Bool) (l : Lexer)
    → emit_segment next (prepend found l) ≡ prepend found (emit_segment next l)
unfolding emit_segment
emit_segment-prepend found next l = elim (Bool-cases (is_empty l.current)) [
  | inl t ↦ rw t refl
  | inr t ↦ rw (t, append_assoc found l.segments (l.current ∷ [])) refl
]

pub flush_segment-prepend :
    (found : List ShellSegment) (next : Bool) (l : Lexer)
    → flush_segment next (prepend found l) ≡ prepend found (flush_segment next l)
unfolding flush_segment
flush_segment-prepend found next l =
    rw (flush_token-prepend found l) (emit_segment-prepend found next (flush_token l))

mark-prepend :
    (found : List ShellSegment) (l : Lexer)
    → mark_command_substitution (prepend found l) ≡ prepend found (mark_command_substitution l)
unfolding mark_command_substitution
mark-prepend found l = elim (Bool-cases (no_texts l.current.tokens && not l.token_started)) [
  | inl t ↦ rw t refl
  | inr t ↦ rw t refl
]

marked-prepend :
    (found : List ShellSegment) (l : Lexer)
    → flush_segment false (mark_command_substitution (prepend found l))
      ≡ prepend found (flush_segment false (mark_command_substitution l))
marked-prepend found l =
    rw (mark-prepend found l) (flush_segment-prepend found false (mark_command_substitution l))

abbrev prepended : List ShellSegment → Lexer × Bool → Lexer × Bool
prepended found (l, skip) = (prepend found l, skip)

if_prepended :
    (found : List ShellSegment) (b : Bool) (x y x' y' : Lexer × Bool)
    → x' ≡ prepended found x
    → y' ≡ prepended found y
    → (if b then x' else y') ≡ prepended found (if b then x else y)
if_prepended found true x y x' y' h k = h
if_prepended found false x y x' y' h k = k

plain_step-prepend :
    (found : List ShellSegment) (l : Lexer) (value : ℕ) (next : Option ℕ)
    → plain_step (prepend found l) value next ≡ prepended found (plain_step l value next)
unfolding plain_step write_rune
plain_step-prepend found l value next =
    if_prepended found (value == b'|') _ _ _ _
      (if_prepended found l.pending_redirect _ _ _ _ refl (
        if_prepended found (next_is next b'|') _ _ _ _
          (ap (λ x. (x, true)) (flush_segment-prepend found false l))
          (ap (λ x. (x, false)) (flush_segment-prepend found true l))))
      (if_prepended found (is_segment_separator value) _ _ _ _
        (ap (λ x. (x, false)) (flush_segment-prepend found false l))
        (if_prepended found (value == b'>') _ _ _ _
          (ap (λ x. (record x { pending_redirect = true }, false)) (flush_token-prepend found l))
          (if_prepended found (is_token_separator value) _ _ _ _
            (ap (λ x. (x, false)) (flush_token-prepend found l)) refl)))

substitution_step-prepend :
    (found : List ShellSegment) (l : Lexer) (value : ℕ) (next : Option ℕ)
    → substitution_step (prepend found l) value next
      ≡ prepended found (substitution_step l value next)
unfolding substitution_step write_rune
substitution_step-prepend found l value next =
    if_prepended found (value == backtick) _ _ _ _
      (ap (λ x. (x, false)) (marked-prepend found (record l { in_backtick = not l.in_backtick })))
      (if_prepended found (value == b')' && ltb 0 l.substitution_depth) _ _ _ _
        (ap (λ x. (x, false))
          (flush_segment-prepend found false
            (record l { substitution_depth = l.substitution_depth - 1 })))
        (if_prepended found (literal l) _ _ _ _ refl (plain_step-prepend found l value next)))

unquoted_step-prepend :
    (found : List ShellSegment) (l : Lexer) (value : ℕ) (next : Option ℕ)
    → unquoted_step (prepend found l) value next ≡ prepended found (unquoted_step l value next)
unfolding unquoted_step
unquoted_step-prepend found l value next =
    if_prepended found (value == single_quote && not (literal l)) _ _ _ _ refl (
      if_prepended found (value == double_quote) _ _ _ _ refl (
        if_prepended found (value == b'$' && next_is next b'(') _ _ _ _
          (ap (λ x. (x, true))
            (marked-prepend found (record l { substitution_depth = l.substitution_depth + 1 })))
          (substitution_step-prepend found l value next)))

escape_step-prepend :
    (found : List ShellSegment) (l : Lexer) (value : ℕ) (next : Option ℕ)
    → escape_step (prepend found l) value next ≡ prepended found (escape_step l value next)
unfolding escape_step write_rune
escape_step-prepend found l value none = unquoted_step-prepend found l value none
escape_step-prepend found l value (some next) =
    if_prepended found (value == backslash) _ _ _ _ refl
      (unquoted_step-prepend found l value (some next))

pub lex_step-prepend :
    (found : List ShellSegment) (l : Lexer) (value : ℕ) (next : Option ℕ)
    → lex_step (prepend found l) value next ≡ prepended found (lex_step l value next)
unfolding lex_step write_rune
lex_step-prepend found l value next =
    if_prepended found l.single_quoted _ _ _ _
      (if_prepended found (value == single_quote) _ _ _ _ refl refl)
      (escape_step-prepend found l value next)
