-- ===== src/Policy/Lexer/Separators.antt =====
-- `lexShellSegments` of internal/policy/shell.go on a `;` between two texts.
use hdc_remote_kit.Policy.Lexer.Prepend.{lex_step-prepend, flush_segment-prepend, prepend}
use hdc_remote_kit.Base.{
  sym, ◌∙◌, arith, append-nil, some, none, Bytes, [], ◌∷◌, refl, ap, inr, true, inl, Bool-cases,
  ◌≡◌, ◌++◌, ℕ, false, List,
}
use hdc_remote_kit.Policy.Lexer.{
  unclosed, start, unquoted_step, substitution_step, scan, lex_step, lex_shell_segments, lex_loop,
  escape_step, Lexer, ShellSegment, plain_step, flush_segment,
}

lex_loop_skip :
    (l : Lexer) (c d : ℕ) (text : Bytes)
    → (lex_step l c (some d)).1 ≡ true
    → lex_loop l (c ∷ d ∷ text) ≡ lex_loop (lex_step l c (some d)).0 text
unfolding lex_loop
lex_loop_skip l c d text t = rw (lex_loop, t) refl

pub lex_loop_go :
    (l : Lexer) (c d : ℕ) (text : Bytes)
    → (lex_step l c (some d)).1 ≡ false
    → lex_loop l (c ∷ d ∷ text) ≡ lex_loop (lex_step l c (some d)).0 (d ∷ text)
unfolding lex_loop
lex_loop_go l c d text t = rw (lex_loop, t) refl

lex_loop-prepend :
    (found : List ShellSegment) (l : Lexer) (text : Bytes)
    → lex_loop (prepend found l) text ≡ prepend found (lex_loop l text)
unfolding lex_loop
lex_loop-prepend found l [] = refl
lex_loop-prepend found l (c ∷ []) = ap (λ r. r.0) (lex_step-prepend found l c none)
lex_loop-prepend found l (c ∷ d ∷ text) =
    let l' = (lex_step l c (some d)).0 in
    let step = lex_step-prepend found l c (some d) in
    elim (Bool-cases (lex_step l c (some d)).1) [
      | inl t ↦
          lex_loop_skip (prepend found l) c d text (ap (λ r. r.1) step ∙ t)
          ∙ ap (λ r. lex_loop r.0 text) step
          ∙ lex_loop-prepend found l' text
          ∙ ap (prepend found) (sym (lex_loop_skip l c d text t))
      | inr t ↦
          lex_loop_go (prepend found l) c d text (ap (λ r. r.1) step ∙ t)
          ∙ ap (λ r. lex_loop r.0 (d ∷ text)) step
          ∙ lex_loop-prepend found l' (d ∷ text)
          ∙ ap (prepend found) (sym (lex_loop_go l c d text t))
    ]

-- A `;` is read alike whatever follows it, and the text behind it is never skipped.
semicolon_step :
    (l : Lexer) (next : ℕ) → lex_step l b';' (some next) ≡ ((lex_step l b';' none).0, false)
unfolding lex_step escape_step unquoted_step substitution_step plain_step
semicolon_step l next = ground arith

lex_loop-append :
    (l : Lexer) (front rest : Bytes)
    → lex_loop l (front ++ b';' ∷ rest) ≡ lex_loop (lex_loop l (front ++ b';' ∷ [])) rest
unfolding lex_loop
lex_loop-append l [] [] = refl
lex_loop-append l [] (d ∷ rest) =
    lex_loop_go l b';' d rest (ap (λ r. r.1) (semicolon_step l d))
    ∙ ap (λ r. lex_loop r.0 (d ∷ rest)) (semicolon_step l d)
lex_loop-append l (c ∷ []) rest =
    let l' = (lex_step l c (some b';')).0 in
    elim (Bool-cases (lex_step l c (some b';')).1) [
      | inl t ↦
          lex_loop_skip l c b';' rest t
          ∙ ap (λ x. lex_loop x rest) (sym (lex_loop_skip l c b';' [] t))
      | inr t ↦
          lex_loop_go l c b';' rest t
          ∙ lex_loop-append l' [] rest
          ∙ ap (λ x. lex_loop x rest) (sym (lex_loop_go l c b';' [] t))
    ]
lex_loop-append l (c ∷ d ∷ front) rest =
    let l' = (lex_step l c (some d)).0 in
    elim (Bool-cases (lex_step l c (some d)).1) [
      | inl t ↦
          lex_loop_skip l c d (front ++ b';' ∷ rest) t
          ∙ lex_loop-append l' front rest
          ∙ ap (λ x. lex_loop x rest) (sym (lex_loop_skip l c d (front ++ b';' ∷ []) t))
      | inr t ↦
          lex_loop_go l c d (front ++ b';' ∷ rest) t
          ∙ lex_loop-append l' (d ∷ front) rest
          ∙ ap (λ x. lex_loop x rest) (sym (lex_loop_go l c d (front ++ b';' ∷ []) t))
    ]

settled : (found : List ShellSegment) → record start { segments = found } ≡ prepend found start
settled found = rw (append-nil found) refl

-- What a lexer finds that starts behind segments found before.
scan-append :
    (front rest : Bytes) (found : List ShellSegment)
    → lex_loop start (front ++ b';' ∷ []) ≡ record start { segments = found }
    → scan (front ++ b';' ∷ rest) ≡ prepend found (scan rest)
unfolding scan
scan-append front rest found h =
    ap (flush_segment false) (
      lex_loop-append start front rest
      ∙ ap (λ l. lex_loop l rest) (h ∙ settled found)
      ∙ lex_loop-prepend found start rest)
    ∙ flush_segment-prepend found false (lex_loop start rest)

scan_nothing : (scan []).segments ≡ []
unfolding scan flush_segment lex_loop
scan_nothing = refl

scan_nothing_closed : unclosed (scan []) ≡ false
unfolding scan flush_segment lex_loop
scan_nothing_closed = refl

pub lex_closed :
    (command : Bytes) (l : Lexer)
    → scan command ≡ l
    → unclosed l ≡ false
    → lex_shell_segments command ≡ l.segments
unfolding lex_shell_segments
lex_closed command l e closed = rw (lex_shell_segments, e, closed) refl

-- The segments of `front;rest` are those of `front;` followed by those of `rest`, provided that
-- `front;` leaves the lexer as it starts but for the segments found, with no quote, substitution,
-- word or pipe open, and that the quotes in `rest` are closed.
pub lex_shell_segments-append :
    (front rest : Bytes) (found : List ShellSegment)
    → lex_loop start (front ++ b';' ∷ []) ≡ record start { segments = found }
    → unclosed (scan rest) ≡ false
    → lex_shell_segments (front ++ b';' ∷ rest)
      ≡ lex_shell_segments (front ++ b';' ∷ []) ++ lex_shell_segments rest
lex_shell_segments-append front rest found h closed =
    lex_closed (front ++ b';' ∷ rest) (prepend found (scan rest)) (scan-append front rest found h)
      closed
    ∙ ap (λ xs. xs ++ (scan rest).segments)
        (sym (append-nil found)
          ∙ ap (λ xs. found ++ xs) (sym scan_nothing)
          ∙ sym (
              lex_closed (front ++ b';' ∷ []) (prepend found (scan []))
                (scan-append front [] found h) scan_nothing_closed))
    ∙ ap (λ xs. lex_shell_segments (front ++ b';' ∷ []) ++ xs)
        (sym (lex_closed rest (scan rest) refl closed))
