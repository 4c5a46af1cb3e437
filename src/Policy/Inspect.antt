-- ===== src/Policy/Inspect.antt =====
-- internal/policy/policy.go, and `InspectShell` with the expansion of inline commands of
-- internal/policy/shell.go.
pub mod Frames
pub mod Profiles
pub mod Chains
pub mod Runs
use hdc_remote_kit.Base.{
  leb, reverse, ℕ, zero, suc, List, [], ◌∷◌, ◌++◌, Bool, true, false, not, ◌&&◌, ◌||◌, Option, none,
  some, Bytes, String, codes, ◌==◌, if◌then◌else◌, map,
}
use hdc_remote_kit.Protocol.Commands.{
  unity_remount, unity_reboot, unity_runmode, unity_rootrun, app_sideload,
}
use hdc_remote_kit.Protocol.Catalog.{Family, flash, command_family}
use hdc_remote_kit.Policy.Text.{is_space, to_lower, base_executable, member}
use hdc_remote_kit.Policy.Lexer.{ShellSegment, lex_shell_segments}
use hdc_remote_kit.Policy.Resolve.{resolve_commands, inline_shell_command, is_argument_wrapper}
use hdc_remote_kit.Policy.Rules.{
  has_indirect_command, is_power_control_command, changes_hdc_daemon_state, kills_hdc_daemon,
  remounts_filesystem, removes_critical_path, writes_device_node, match_any_executable,
  match_extra_executable, restricted_executables,
}

-- A profile's text. Besides the two known ones there is the empty text and any other.
pub data Profile : Type 0 where
  studio_debug restricted unset : Profile
  other : Bytes → Profile

pub record Decision : Type 0 where
  pub allowed : Bool
  pub reason : Bytes
  pub rule : Bytes

abbrev pub reason_prohibited : Bytes
reason_prohibited = codes "Command execution is prohibited."

abbrev pub allow : Decision
allow = record { allowed = true; reason = []; rule = [] }

abbrev pub deny : Bytes → Decision
deny rule = record { allowed = false; reason = reason_prohibited; rule = rule }

is_flash : Family → Bool
is_flash Family.flash = true
is_flash _ = false

-- `frameRules`.
pub frame_rules : List (Bytes × (ℕ → Bool))
unfolding is_flash
frame_rules =
    (codes "deny-remount", λ flag. flag == unity_remount)
    ∷ (codes "deny-reboot", λ flag. flag == unity_reboot)
    ∷ (codes "deny-runmode", λ flag. flag == unity_runmode)
    ∷ (codes "deny-rootrun", λ flag. flag == unity_rootrun)
    ∷ (codes "deny-sideload", λ flag. flag == app_sideload)
    ∷ (codes "deny-flash-family", λ flag. is_flash (command_family flag))
    ∷ []

-- The loop over a rule table: the first rule that matches denies.
first_rule : {A : Type 0} → List (Bytes × (A → Bool)) → A → Decision → Decision
first_rule [] a otherwise = otherwise
first_rule ((name, matches) ∷ rules) a otherwise =
    if matches a then deny name else first_rule rules a otherwise

pub inspect_frame : ℕ → Decision
inspect_frame flag = first_rule frame_rules flag allow

unfoldable pub valid_profile : Profile → Bool
valid_profile studio_debug = true
valid_profile restricted = true
valid_profile _ = false

pub resolve_profile : Profile → Profile
resolve_profile studio_debug = studio_debug
resolve_profile restricted = restricted
resolve_profile unset = studio_debug
resolve_profile (other name) = restricted

is_restricted : Profile → Bool
is_restricted restricted = true
is_restricted _ = false

abbrev pub max_inline_depth : ℕ
max_inline_depth = 8

indirect_segment : ShellSegment
indirect_segment = record {
  tokens = [];
  redirects = [];
  commands = [];
  piped_in = false;
  indirect = true;
}

abbrev with_commands : ShellSegment → ShellSegment
with_commands s = record s { commands = resolve_commands s.tokens }

-- `expandSegments`; `left` is `maxInlineDepth - depth`.
expand_segments : ℕ → List ShellSegment → List ShellSegment
expand_segments left [] = []
expand_segments zero (s ∷ segments) =
    with_commands s
    ∷ ((elim (inline_shell_command s.tokens) [ [] ↦ [] | c ∷ text ↦ indirect_segment ∷ [] ])
        ++ expand_segments zero segments)
expand_segments (suc left) (s ∷ segments) =
    let inline = inline_shell_command s.tokens in
    let inner = expand_segments left (lex_shell_segments inline) in
    with_commands s
    ∷ ((elim inline [ [] ↦ [] | c ∷ text ↦ inner ]) ++ expand_segments (suc left) segments)

pub analyze_shell_command : Bytes → List ShellSegment
analyze_shell_command command =
    expand_segments max_inline_depth (lex_shell_segments (to_lower command))

-- `coreShellRules`.
core_shell_rules : List (Bytes × (List ShellSegment → Bool))
core_shell_rules =
    (codes "indirect-command", has_indirect_command)
    ∷ (codes "power-control", is_power_control_command)
    ∷ (codes "hdc-daemon-state", changes_hdc_daemon_state)
    ∷ (codes "kill-hdcd", kills_hdc_daemon)
    ∷ (codes "remount-fs", remounts_filesystem)
    ∷ (codes "remove-critical-path", removes_critical_path)
    ∷ (codes "write-device-node", writes_device_node)
    ∷ []

-- A hit "" is none.
deny_hit : String → Bytes → Decision → Decision
deny_hit prefix [] otherwise = otherwise
deny_hit prefix (c ∷ hit) otherwise = deny (codes prefix ++ (c ∷ hit))

-- The rules on the segments. `extras` is the policy's set of extra executables.
decide : List Bytes → Profile → List ShellSegment → Decision
decide extras profile segments =
    let extra = deny_hit "extra-denied:" (match_extra_executable extras segments) allow in
    let strict =
      deny_hit "restricted-exec:" (match_any_executable segments restricted_executables) extra in
    first_rule core_shell_rules segments
      (if is_restricted (resolve_profile profile) then strict else extra)

-- A command without segments is allowed.
pub verdict : List Bytes → Profile → List ShellSegment → Decision
verdict extras profile [] = allow
verdict extras profile (s ∷ segments) = decide extras profile (s ∷ segments)

-- `(*Policy).InspectShell`.
pub inspect_shell : List Bytes → Profile → Bytes → Decision
inspect_shell extras profile command = verdict extras profile (analyze_shell_command command)

trim_left : Bytes → Bytes
trim_left [] = []
trim_left (c ∷ text) = elim (is_space c) [ true ↦ trim_left text | false ↦ c ∷ text ]

abbrev trim_space : Bytes → Bytes
trim_space text = reverse (trim_left (reverse (trim_left text)))

add_extra : Bytes → List Bytes → List Bytes
add_extra [] extras = extras
add_extra (c ∷ name) extras = (c ∷ name) ∷ extras

-- `New`: the configured names, normalized; an empty one is dropped.
pub new_policy : List Bytes → List Bytes
unfolding add_extra trim_left is_space
new_policy [] = []
new_policy (item ∷ items) =
    add_extra (base_executable (to_lower (trim_space item))) (new_policy items)

-- `FirstExecutable`.
first_plain : List Bytes → Option Bytes
first_plain [] = none
first_plain (name ∷ names) = if is_argument_wrapper name then first_plain names else some name

first_of_segments : List ShellSegment → Bytes
first_of_segments [] = []
first_of_segments (s ∷ segments) = elim (first_plain s.commands) [
  | none ↦ first_of_segments segments
  | some name ↦ name
]

pub first_executable : Bytes → Bytes
unfolding first_plain first_of_segments
first_executable command = first_of_segments (analyze_shell_command command)
