-- ===== src/Tests/Shell.antt =====
-- Shell commands.
use hdc_remote_kit.Base.{
  ◌↔◌, refl, true, ◌∷◌, ◌++◌, if◌then◌else◌, false, ◌≡◌, codes, [], List, Bytes,
}
use hdc_remote_kit.Policy.Lexer.{
  start, write_rune, flush_token, flush_segment, strip_quotes, plain_step, unclosed,
  substitution_step, is_token_separator, unquoted_step, is_segment_separator, lex_step,
  empty_segment, scan, lex_shell_segments, lex_loop, ShellSegment,
}
use hdc_remote_kit.Policy.Lexer.Rescan.{lex_shell_segments_rescan}
use hdc_remote_kit.Policy.Resolve.Cases.{resolve_commands-Resolves, Resolves}
use hdc_remote_kit.Policy.Inspect.Profiles.{
  inspect_shell_restricted, inspect_shell_extras, inspect_shell-to_lower,
}
use hdc_remote_kit.Policy.Inspect.Chains.{inspect_shell-append}
use hdc_remote_kit.Policy.Inspect.Runs.{front, rest, both_allowed}
use hdc_remote_kit.Policy.Resolve.{resolve_commands}
use hdc_remote_kit.Policy.Lexer.Words.{lex_shell_segments_target, is_plain, is_plain_word}
use hdc_remote_kit.Policy.Lexer.Separators.{lex_shell_segments-append}
use hdc_remote_kit.Policy.Inspect.{studio_debug, restricted, new_policy, inspect_shell}
use hdc_remote_kit.Policy.Text.{to_lower}

abbrev echo_segment : ShellSegment
echo_segment = record (empty_segment false) { tokens = codes "echo" ∷ codes "hi" ∷ [] }

front_settled :
    lex_loop start (to_lower front ++ b';' ∷ []) ≡ record start { segments = echo_segment ∷ [] }
unfolding lex_loop lex_step unquoted_step substitution_step plain_step to_lower flush_segment
    flush_token write_rune is_segment_separator is_token_separator
front_settled = refl

rest_closed : unclosed (scan (to_lower rest)) ≡ false
unfolding scan lex_loop lex_step unquoted_step substitution_step plain_step to_lower flush_segment
    flush_token write_rune is_segment_separator is_token_separator
rest_closed = refl

inspect_shell-append_example :
    ((inspect_shell (new_policy []) restricted (front ++ b';' ∷ [])).allowed ≡ true)
    × ((inspect_shell (new_policy []) restricted rest).allowed ≡ true)
inspect_shell-append_example =
    inspect_shell-append [] restricted front rest (echo_segment ∷ []) front_settled rest_closed
      both_allowed

lex_shell_segments-append_example :
    lex_shell_segments (to_lower front ++ b';' ∷ to_lower rest)
    ≡ lex_shell_segments (to_lower front ++ b';' ∷ []) ++ lex_shell_segments (to_lower rest)
lex_shell_segments-append_example =
    lex_shell_segments-append (to_lower front) (to_lower rest) (echo_segment ∷ []) front_settled
      rest_closed

inspect_shell_restricted_example :
    (inspect_shell (new_policy []) studio_debug (front ++ b';' ∷ rest)).allowed ≡ true
inspect_shell_restricted_example =
    inspect_shell_restricted (new_policy []) studio_debug (front ++ b';' ∷ rest) both_allowed

inspect_shell_extras_example : (inspect_shell [] restricted (front ++ b';' ∷ rest)).allowed ≡ true
inspect_shell_extras_example =
    inspect_shell_extras (new_policy []) restricted (front ++ b';' ∷ rest) both_allowed

inspect_shell-to_lower_example :
    inspect_shell [] restricted (to_lower (codes "ReBoot"))
    ≡ inspect_shell [] restricted (codes "ReBoot")
inspect_shell-to_lower_example = inspect_shell-to_lower [] restricted (codes "ReBoot")

abbrev open_quote : Bytes
open_quote = codes "echo \"a;reboot"

lex_shell_segments_rescan_example : lex_shell_segments open_quote ≡ (
    if unclosed (scan open_quote)
    then (scan open_quote).segments ++ lex_shell_segments (strip_quotes open_quote)
    else (scan open_quote).segments)
lex_shell_segments_rescan_example = lex_shell_segments_rescan open_quote

abbrev nested : List Bytes
nested = codes "env" ∷ codes "A=1" ∷ codes "busybox" ∷ codes "reboot" ∷ []

resolve_commands-Resolves_example :
    Resolves nested (codes "reboot" ∷ []) ↔ (resolve_commands nested ≡ codes "reboot" ∷ [])
resolve_commands-Resolves_example = resolve_commands-Resolves nested (codes "reboot" ∷ [])

plain_echo : is_plain_word (codes "echo") ≡ true
unfolding is_plain_word is_plain is_segment_separator is_token_separator
plain_echo = refl

plain_data : is_plain_word (codes "/data/x") ≡ true
unfolding is_plain_word is_plain is_segment_separator is_token_separator
plain_data = refl

swallowed_closed :
    unclosed (scan (codes "echo" ++ b'>' ∷ (codes "/data/x" ++ codes "reboot"))) ≡ false
unfolding scan lex_loop lex_step unquoted_step substitution_step plain_step to_lower flush_segment
    flush_token write_rune is_segment_separator is_token_separator
swallowed_closed = refl

lex_shell_segments_target_example :
    lex_shell_segments (codes "echo" ++ b'>' ∷ (codes "/data/x" ++ b'|' ∷ codes "reboot"))
    ≡ lex_shell_segments (codes "echo" ++ b'>' ∷ (codes "/data/x" ++ codes "reboot"))
lex_shell_segments_target_example =
    lex_shell_segments_target (codes "echo") (codes "/data/x") (codes "reboot") plain_echo
      plain_data swallowed_closed
