-- ===== src/Policy/Resolve.antt =====
-- The candidate executables of a segment, internal/policy/shell.go from `resolveCommands` to
-- `inlineShellCommand`. An index into the tokens is the list of the tokens from there on.
pub mod Fuel
pub mod Cases
use hdc_remote_kit.Base.{
  ℕ, zero, suc, List, [], ◌∷◌, ◌++◌, Bool, true, false, not, ◌&&◌, ◌||◌, Option, none, some, Bytes,
  codes, leb, ltb, ◌==◌, if◌then◌else◌, length, map,
}
use hdc_remote_kit.Policy.Text.{has_prefix, contains_rune, member, join_space, base_executable}

abbrev pub shell_keywords : List Bytes
shell_keywords = map codes (
    "if" ∷ "then" ∷ "else" ∷ "elif" ∷ "fi" ∷ "do" ∷ "done" ∷ "while" ∷ "until" ∷ "for" ∷ "select"
    ∷ "case" ∷ "esac" ∷ "in" ∷ "function" ∷ "time" ∷ "!" ∷ "--" ∷ [])

abbrev pub argument_wrappers : List Bytes
argument_wrappers = map codes (
    "command" ∷ "exec" ∷ "nohup" ∷ "setsid" ∷ "eval" ∷ "xargs" ∷ "stdbuf" ∷ "nice" ∷ "ionice"
    ∷ "timeout" ∷ "runcon" ∷ "chroot" ∷ "unshare" ∷ "watch" ∷ "script" ∷ "strace" ∷ "ltrace"
    ∷ "taskset" ∷ "flock" ∷ "sudo" ∷ "doas" ∷ "proot" ∷ [])

abbrev applets : List Bytes
applets = map codes ("toybox" ∷ "busybox" ∷ "toolbox" ∷ [])

abbrev shells : List Bytes
shells = map codes ("sh" ∷ "bash" ∷ "mksh" ∷ "toysh" ∷ "su" ∷ [])

unfoldable pub is_argument_wrapper : Bytes → Bool
is_argument_wrapper command = member command argument_wrappers

unfoldable pub is_applet_dispatcher : Bytes → Bool
is_applet_dispatcher command = member command applets

unfoldable pub is_string_command_wrapper : Bytes → Bool
is_string_command_wrapper command = member command shells

is_letter : ℕ → Bool
is_letter c = c == b'_' || (leb b'a' c && leb c b'z') || (leb b'A' c && leb c b'Z')

is_digit : ℕ → Bool
is_digit c = leb b'0' c && leb c b'9'

-- The loop of `isEnvironmentAssignment` up to the `=`; a digit may not come first.
assignment_loop : Bool → Bytes → Bool
unfolding is_letter is_digit
assignment_loop first [] = false
assignment_loop first (c ∷ text) =
    if c == b'='
    then not first
    else (is_letter c || (not first && is_digit c)) && assignment_loop false text

unfoldable pub is_environment_assignment : Bytes → Bool
unfolding assignment_loop
is_environment_assignment token = assignment_loop true token

unfoldable pub skip_assignments_and_keywords : List Bytes → List Bytes
skip_assignments_and_keywords [] = []
skip_assignments_and_keywords (token ∷ rest) =
    if member token shell_keywords || is_environment_assignment token
    then skip_assignments_and_keywords rest
    else token ∷ rest

unfoldable pub skip_environment_command_arguments : List Bytes → List Bytes
skip_environment_command_arguments [] = []
skip_environment_command_arguments (token ∷ rest) =
    if is_environment_assignment token || has_prefix token (codes "-")
    then skip_environment_command_arguments rest
    else token ∷ rest

-- A short option that holds a `c`.
is_inline_flag : Bytes → Bool
is_inline_flag [] = false
is_inline_flag (c ∷ []) = false
is_inline_flag (c ∷ d ∷ text) = c == b'-' && not (d == b'-') && contains_rune (d ∷ text) b'c'

-- `findInlineFlagIndex`: the tokens behind the flag.
unfoldable pub find_inline_flag : List Bytes → Option (List Bytes)
unfolding is_inline_flag
find_inline_flag [] = none
find_inline_flag (token ∷ rest) =
    if member token (codes "--" ∷ [])
    then none
    else if is_inline_flag token
    then some rest
    else find_inline_flag rest

-- `flag >= 0 && flag+1 < len(tokens)`.
unfoldable pub inline_arguments : List Bytes → Option (List Bytes)
inline_arguments tokens = elim (find_inline_flag tokens) [
  | none ↦ none
  | some rest ↦ (elim rest [ [] ↦ none | token ∷ more ↦ some (token ∷ more) ])
]

abbrev pub collect_basenames : Bytes → List Bytes → List Bytes
collect_basenames command rest = command ∷ map base_executable rest

-- One round on the tokens that are left: the candidates, or the tokens to go on with.
pub data Round : Type 0 where
  candidates : List Bytes → Round
  go_on : List Bytes → Round

unfoldable pub is_env : Bytes → Bool
is_env command = member command (codes "env" ∷ [])

dispatch : Bytes → List Bytes → Round
dispatch command rest =
    if is_env command
    then go_on (skip_environment_command_arguments rest)
    else if is_applet_dispatcher command
    then go_on rest
    else if is_string_command_wrapper command
    then (elim (inline_arguments rest) [
      | none ↦ candidates (command ∷ [])
      | some more ↦ go_on more
    ])
    else if is_argument_wrapper command
    then candidates (collect_basenames command rest)
    else candidates (command ∷ [])

head_round : List Bytes → Round
head_round [] = candidates []
head_round (token ∷ rest) = dispatch (base_executable token) rest

pub resolve_round : List Bytes → Round
resolve_round tokens = head_round (skip_assignments_and_keywords tokens)

-- The loop of `resolveCommands` and its calls of itself; each round drops a token at least.
resolve_loop : ℕ → List Bytes → List Bytes
resolve_loop zero tokens = []
resolve_loop (suc fuel) tokens = elim (resolve_round tokens) [
  | candidates names ↦ names
  | go_on rest ↦ resolve_loop fuel rest
]

unfoldable pub resolve_commands : List Bytes → List Bytes
unfolding resolve_loop resolve_round head_round dispatch is_env
resolve_commands tokens = resolve_loop (suc (length tokens)) tokens

unfoldable pub inline_shell_command : List Bytes → Bytes
inline_shell_command [] = []
inline_shell_command (token ∷ rest) =
    if is_string_command_wrapper (base_executable token)
    then (elim (inline_arguments rest) [
      | none ↦ inline_shell_command rest
      | some more ↦ join_space more
    ])
    else inline_shell_command rest
