-- ===== src/Bridge/Paths/Quoting.antt =====
-- Quoted arguments and the tokens of a command, internal/bridge/file.go and util.go.
use hdc_remote_kit.Strings.Runes.{runes-append, has_byte-runes}
use hdc_remote_kit.Base.{
  ℕ, map, ◌<◌, List, sym, not, ap, ◌∙◌, ◌||◌, ◌&&◌, if-holds, Bool, append_assoc, ◌==◌, refl,
  append-nil, [], ◌++◌, arith, ◌∷◌, true, false, ◌≡◌, Bytes,
}
use hdc_remote_kit.Strings.{text_of, runes_from, runes, is_nil, contains_any, has_byte}
use hdc_remote_kit.Bridge.Paths.{
  split_command_tokens, flush, tokens_of, quote_command_arg, is_blank_rune, escape_quotes,
  token_loop,
}

escape_plain : (text : Bytes) → has_byte b'"' text ≡ false → escape_quotes text ≡ text
unfolding has_byte escape_quotes
escape_plain [] h = refl
escape_plain (c ∷ text) h = ground (arith, escape_plain text)

and_false : (b : Bool) → (b && false) ≡ false
and_false true = refl
and_false false = refl

-- Behind a quote everything but a quote is part of the token.
quoted_part :
    (current text rest : Bytes)
    → has_byte b'"' text ≡ false
    → token_loop true current (text ++ rest) ≡ token_loop true (current ++ text) rest
unfolding has_byte token_loop
quoted_part current [] rest h = rw (append-nil current) refl
quoted_part current (c ∷ text) rest h =
    let e : (c == b'"') ≡ false = ground arith in
    let more : has_byte b'"' text ≡ false = ground arith in
    rw (e, and_false (is_blank_rune c))
      (quoted_part (current ++ c ∷ []) text rest more
        ∙ ap (λ token. token_loop true token rest) (append_assoc current (c ∷ []) text))

-- Outside quotes, everything but a blank and a quote.
plain_part :
    (current text rest : Bytes)
    → contains_any text (32 ∷ 9 ∷ 13 ∷ 10 ∷ b'"' ∷ []) ≡ false
    → token_loop false current (text ++ rest) ≡ token_loop false (current ++ text) rest
unfolding has_byte contains_any token_loop is_blank_rune
plain_part current [] rest h = rw (append-nil current) refl
plain_part current (c ∷ text) rest h =
    let e : (c == b'"') ≡ false = ground arith in
    let b : (c == 32 || c == 9) ≡ false = ground arith in
    let more : contains_any text (32 ∷ 9 ∷ 13 ∷ 10 ∷ b'"' ∷ []) ≡ false = ground arith in
    rw (e, b)
      (plain_part (current ++ c ∷ []) text rest more
        ∙ ap (λ token. token_loop false token rest) (append_assoc current (c ∷ []) text))

AllAscii : Bytes → Type 0
AllAscii [] = Unit {0}
AllAscii (c ∷ set) = (c < 128) × AllAscii set

contains_any-runes :
    (text set : Bytes)
    → AllAscii set
    → contains_any text set ≡ false
    → contains_any (runes text) set ≡ false
unfolding contains_any AllAscii
contains_any-runes text [] a h = refl
contains_any-runes text (c ∷ set) (a, more) h =
    rw (has_byte-runes c text a (ground arith)) (contains_any-runes text set more (ground arith))

blanks_ascii : AllAscii (32 ∷ 9 ∷ 13 ∷ 10 ∷ b'"' ∷ [])
unfolding AllAscii
blanks_ascii = (omega arith, (omega arith, (omega arith, (omega arith, (omega arith, tt)))))

quoted_runes :
    (text : Bytes) → runes (b'"' ∷ (text ++ (b'"' ∷ []))) ≡ b'"' ∷ (runes text ++ (b'"' ∷ []))
unfolding runes_from
quoted_runes text =
    runes-append b'"' [] (text ++ (b'"' ∷ [])) (omega arith)
    ∙ ap (λ rs. b'"' ∷ rs) (runes-append b'"' text [] (omega arith))

-- The runes of a quoted argument are read as those of the argument.
quoted_arg :
    (value : Bytes) (rest : List ℕ)
    → has_byte b'"' value ≡ false
    → token_loop false [] (runes (quote_command_arg value) ++ rest)
      ≡ token_loop false (runes value) rest
unfolding quote_command_arg token_loop
quoted_arg value rest h =
    if-holds (λ arg. token_loop false [] (runes arg ++ rest) ≡ token_loop false (runes value) rest)
      (not (is_nil value) && not (contains_any value (32 ∷ 9 ∷ 13 ∷ 10 ∷ b'"' ∷ []))) value
      (b'"' ∷ (escape_quotes value ++ (b'"' ∷ [])))
      (λ e.
        plain_part [] (runes value) rest
          (contains_any-runes value (32 ∷ 9 ∷ 13 ∷ 10 ∷ b'"' ∷ []) blanks_ascii (ground arith)))
      (λ e.
        rw (escape_plain value h, quoted_runes value, append_assoc)
          (quoted_part [] (runes value) (b'"' ∷ rest) (has_byte-runes b'"' value (omega arith) h)))

flushed :
    (value rest : Bytes)
    → is_nil value ≡ false
    → token_loop false value (b' ' ∷ rest) ≡ value ∷ token_loop false [] rest
unfolding token_loop flush is_blank_rune
flushed [] rest n = absurd cc
flushed (c ∷ value) rest n = refl

flush_end : (value : Bytes) → is_nil value ≡ false → token_loop false value [] ≡ value ∷ []
unfolding token_loop flush
flush_end [] n = absurd cc
flush_end (c ∷ value) n = refl

runes_nil : (text : Bytes) → is_nil text ≡ false → is_nil (runes text) ≡ false
unfolding runes_from
runes_nil [] n = absurd cc
runes_nil (c ∷ text) n = refl

-- The tokens of two quoted arguments, as runes.
two_args :
    (first second : Bytes)
    → is_nil first ≡ false
    → is_nil second ≡ false
    → has_byte b'"' first ≡ false
    → has_byte b'"' second ≡ false
    → tokens_of (runes (quote_command_arg first ++ (b' ' ∷ quote_command_arg second)))
      ≡ runes first ∷ runes second ∷ []
unfolding tokens_of
two_args first second nf ns hf hs =
    ap (token_loop false [])
      (runes-append b' ' (quote_command_arg first) (quote_command_arg second) (omega arith))
    ∙ quoted_arg first (b' ' ∷ runes (quote_command_arg second)) hf
    ∙ flushed (runes first) (runes (quote_command_arg second)) (runes_nil first nf)
    ∙ ap (λ tokens. runes first ∷ tokens)
        (ap (token_loop false []) (sym (append-nil (runes (quote_command_arg second))))
          ∙ quoted_arg second [] hs
          ∙ flush_end (runes second) (runes_nil second ns))

-- The bytes are valid UTF-8: their runes, written again, are the same bytes.
unfoldable pub IsUtf8 : Bytes → Type 0
IsUtf8 text = text_of (runes text) ≡ text

-- Two arguments of valid UTF-8 that are not empty and have no double quote, each quoted for a
-- command and joined by a space, are the tokens of the command.
pub split_command_tokens-quote_command_arg :
    (first second : Bytes)
    → is_nil first ≡ false
    → is_nil second ≡ false
    → has_byte b'"' first ≡ false
    → has_byte b'"' second ≡ false
    → IsUtf8 first
    → IsUtf8 second
    → split_command_tokens (quote_command_arg first ++ (b' ' ∷ quote_command_arg second))
      ≡ first ∷ second ∷ []
unfolding split_command_tokens IsUtf8
split_command_tokens-quote_command_arg first second nf ns hf hs uf us =
    ap (map text_of) (two_args first second nf ns hf hs) ∙ rw (uf, us) refl
