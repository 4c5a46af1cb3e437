-- ===== src/Policy/Inspect/Runs.antt =====
-- Some commands, run through `InspectShell` of internal/policy/shell.go.
use hdc_remote_kit.Base.{false, refl, true, ◌≡◌, ◌∷◌, ◌++◌, bytes_eq}
use hdc_remote_kit.Policy.Inspect.{
  restricted, to_lower, lex_shell_segments, new_policy, resolve_profile, studio_debug,
  analyze_shell_command, decide, [], verdict, codes, Bool, inspect_shell, String, Bytes, first_rule,
  core_shell_rules, expand_segments, is_restricted, deny_hit,
}
use hdc_remote_kit.Policy.Lexer.{
  mark_command_substitution, lex_shell_segments, lex_loop, lex_step, unquoted_step,
  substitution_step, plain_step, flush_segment, flush_token, write_rune, is_segment_separator,
  is_token_separator,
}
use hdc_remote_kit.Policy.Resolve.{
  skip_environment_command_arguments, resolve_commands, inline_shell_command, inline_arguments,
  find_inline_flag, is_string_command_wrapper, is_applet_dispatcher, is_argument_wrapper,
  is_environment_assignment, skip_assignments_and_keywords,
}
use hdc_remote_kit.Policy.Text.{
  join_space, contains_rune, has_prefix, member, to_lower, base_executable,
}
use hdc_remote_kit.Policy.Rules.{
  is_path_under_any, normalize_path_token, has_indirect_command, is_power_control_command,
  changes_hdc_daemon_state, kills_hdc_daemon, remounts_filesystem, removes_critical_path,
  writes_device_node, match_any_executable, match_extra_executable, segments_have_executable,
  segment_has_executable, any,
}

abbrev pub front : Bytes
front = codes "echo Hi"

abbrev pub rest : Bytes
rest = codes "ls /data"

abbrev judged : String → Bool
judged command = (inspect_shell [] studio_debug (codes command)).allowed

-- Two harmless commands; a `|` behind a target without and with a space between them; a wrapped, a
-- quoted and escaped command, and a removal.
runs :
    ((inspect_shell (new_policy []) restricted (front ++ b';' ∷ rest)).allowed ≡ true)
    × (judged "echo x>/data/x|reboot" ≡ true)
    × (judged "echo x>/data/x |reboot" ≡ false)
    × (judged "sh -c 'env A=1 toybox reboot'" ≡ false)
    × (judged "echo \"$(re\\boot)\"" ≡ false)
    × (judged "rm -rf /data" ≡ false)
unfolding inspect_shell verdict decide first_rule core_shell_rules analyze_shell_command
    expand_segments is_restricted resolve_profile deny_hit new_policy lex_shell_segments lex_loop
    lex_step unquoted_step substitution_step plain_step to_lower flush_segment flush_token
    write_rune is_segment_separator is_token_separator has_indirect_command is_power_control_command
    changes_hdc_daemon_state kills_hdc_daemon remounts_filesystem removes_critical_path
    writes_device_node match_any_executable match_extra_executable segments_have_executable
    segment_has_executable any member bytes_eq resolve_commands inline_shell_command
    inline_arguments find_inline_flag is_string_command_wrapper is_applet_dispatcher
    is_argument_wrapper is_environment_assignment base_executable skip_assignments_and_keywords
    contains_rune join_space skip_environment_command_arguments has_prefix mark_command_substitution
    normalize_path_token is_path_under_any
runs = (refl, refl, refl, refl, refl, refl)

pub both_allowed : (inspect_shell (new_policy []) restricted (front ++ b';' ∷ rest)).allowed ≡ true
both_allowed = runs.0
