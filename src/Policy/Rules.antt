-- ===== src/Policy/Rules.antt =====
-- The shell rules of internal/policy/shell.go, as tests on the segments of a command.
pub mod Grow
use hdc_remote_kit.Base.{
  reverse, bytes_eq, ℕ, zero, suc, List, [], ◌∷◌, ◌++◌, Bool, true, false, not, ◌&&◌, ◌||◌, Option,
  none, some, Bytes, String, codes, ltb, ◌==◌, if◌then◌else◌, length, map, drop,
}
use hdc_remote_kit.Policy.Text.{
  has_prefix, contains_rune, contains_text, member, split_at, base_executable,
}
use hdc_remote_kit.Policy.Lexer.{ShellSegment}
use hdc_remote_kit.Policy.Resolve.{is_string_command_wrapper}

unfoldable pub any {ℓ} : {A : Type ℓ} → (A → Bool) → List A → Bool
any p [] = false
any p (x ∷ xs) = p x || any p xs

abbrev texts : List String → List Bytes
texts = map codes

abbrev hdc_property_prefixes : List Bytes
hdc_property_prefixes = texts ("persist.hdc" ∷ "const.hdc" ∷ [])

abbrev sensitive_mount_targets : List Bytes
sensitive_mount_targets = texts (
    "/" ∷ "/system" ∷ "/system_ext" ∷ "/vendor" ∷ "/product" ∷ "/odm" ∷ "/cust" ∷ "/chip_prod" ∷ [])

abbrev sensitive_write_paths : List Bytes
sensitive_write_paths = texts (
    "/dev/block" ∷ "/system" ∷ "/system_ext" ∷ "/vendor" ∷ "/product" ∷ "/odm" ∷ "/cust"
    ∷ "/chip_prod" ∷ [])

abbrev critical_removal_paths : List Bytes
critical_removal_paths = texts (
    "/" ∷ "/system" ∷ "/system_ext" ∷ "/vendor" ∷ "/product" ∷ "/odm" ∷ "/cust" ∷ "/chip_prod"
    ∷ "/data/system" ∷ "/data/property" ∷ "/data/misc" ∷ [])

abbrev pub restricted_executables : List Bytes
restricted_executables = texts ("curl" ∷ "wget" ∷ "nc" ∷ "ncat" ∷ "telnet" ∷ "ftp" ∷ "tftp" ∷ [])

unfoldable pub segment_has_executable : Bytes → ShellSegment → Bool
segment_has_executable executable s = member executable s.commands

unfoldable pub segments_have_executable : Bytes → List ShellSegment → Bool
unfolding any segment_has_executable
segments_have_executable executable = any (segment_has_executable executable)

abbrev contains_token_with_prefix : List Bytes → List Bytes → Bool
contains_token_with_prefix tokens prefixes = any (λ token. any (has_prefix token) prefixes) tokens

-- `normalizePathToken` on the reversed text: trailing slashes go, but never the last character.
drop_slashes : Bytes → Bytes
drop_slashes [] = []
drop_slashes (c ∷ []) = c ∷ []
drop_slashes (c ∷ d ∷ text) = if c == b'/' then drop_slashes (d ∷ text) else c ∷ d ∷ text

unfoldable pub normalize_path_token : Bytes → Bytes
unfolding drop_slashes
normalize_path_token token = reverse (drop_slashes (reverse token))

unfoldable pub is_path_under_any : Bytes → List Bytes → Bool
is_path_under_any value roots =
    let path = normalize_path_token value in
    any
      (λ root.
        bytes_eq path root
        || (not (bytes_eq root (codes "/")) && has_prefix path (root ++ codes "/")))
      roots

-- `hasIndirectCommand`, on one segment.
segment_is_indirect : ShellSegment → Bool
segment_is_indirect s =
    s.indirect
    || any
        (λ command. contains_rune command b'$' || (s.piped_in && is_string_command_wrapper command))
        s.commands

unfoldable pub has_indirect_command : List ShellSegment → Bool
unfolding any segment_is_indirect
has_indirect_command = any segment_is_indirect

unfoldable pub is_power_control_command : List ShellSegment → Bool
unfolding segments_have_executable
is_power_control_command segments =
    segments_have_executable (codes "reboot") segments
    || segments_have_executable (codes "poweroff") segments

segment_changes_state : ShellSegment → Bool
segment_changes_state s =
    (segment_has_executable (codes "param") s
      && member (codes "set") s.tokens
      && contains_token_with_prefix s.tokens hdc_property_prefixes)
    || (segment_has_executable (codes "setprop") s
        && contains_token_with_prefix s.tokens hdc_property_prefixes)

unfoldable pub changes_hdc_daemon_state : List ShellSegment → Bool
unfolding any segment_changes_state
changes_hdc_daemon_state = any segment_changes_state

segment_kills : ShellSegment → Bool
segment_kills s =
    segment_has_executable (codes "kill") s
    || segment_has_executable (codes "killall") s
    || segment_has_executable (codes "pkill") s

contains_hdc_daemon_token : ShellSegment → Bool
contains_hdc_daemon_token s =
    any (λ token. bytes_eq (base_executable token) (codes "hdcd")) s.tokens

-- `killsHdcDaemon`: a killer and the daemon's name may stand in different segments.
unfoldable pub kills_hdc_daemon : List ShellSegment → Bool
unfolding any segment_kills contains_hdc_daemon_token
kills_hdc_daemon segments = any segment_kills segments && any contains_hdc_daemon_token segments

contains_comma_option : Bytes → Bytes → Bool
contains_comma_option text expected = member expected (split_at b',' [] text)

-- `hasRemountOption`, by the switch on each token; `-o` reads the token behind it.
has_remount_option : List Bytes → Bool
unfolding contains_comma_option
has_remount_option [] = false
has_remount_option (token ∷ rest) =
    (if bytes_eq token (codes "remount") || bytes_eq token (codes "--remount")
      then true
      else if bytes_eq token (codes "-o") || bytes_eq token (codes "--options")
      then (elim rest [ [] ↦ false | next ∷ more ↦ contains_comma_option next (codes "remount") ])
      else if has_prefix token (codes "--options=")
      then contains_comma_option (drop 10 token) (codes "remount")
      else if has_prefix token (codes "-o")
      then contains_comma_option (drop 2 token) (codes "remount")
      else false)
    || has_remount_option rest

is_sensitive_block_partition : Bytes → Bool
is_sensitive_block_partition token =
    has_prefix token (codes "/dev/block")
    && (contains_text token (codes "/by-name/system")
        || contains_text token (codes "/by-name/vendor")
        || contains_text token (codes "/by-name/product")
        || contains_text token (codes "/by-name/odm"))

has_sensitive_mount_target : List Bytes → Bool
has_sensitive_mount_target =
    any (λ token.
      is_path_under_any token sensitive_mount_targets || is_sensitive_block_partition token)

segment_remounts : ShellSegment → Bool
segment_remounts s =
    segment_has_executable (codes "mount") s
    && has_remount_option s.tokens
    && has_sensitive_mount_target s.tokens

unfoldable pub remounts_filesystem : List ShellSegment → Bool
unfolding any segment_remounts has_remount_option has_sensitive_mount_target
    is_sensitive_block_partition
remounts_filesystem = any segment_remounts

-- One token of `hasRecursiveOption`.
is_recursive_option : Bytes → Bool
is_recursive_option [] = false
is_recursive_option (c ∷ []) = false
is_recursive_option (c ∷ d ∷ text) =
    if not (c == b'-')
    then false
    else if d == b'-'
    then bytes_eq (c ∷ d ∷ text) (codes "--recursive")
    else contains_rune (d ∷ text) b'r' || contains_rune (d ∷ text) b'R'

has_critical_path_argument : List Bytes → Bool
has_critical_path_argument = any (λ token.
    bytes_eq (normalize_path_token token) (codes "/data")
    || is_path_under_any (normalize_path_token token) critical_removal_paths)

segment_removes : ShellSegment → Bool
segment_removes s =
    segment_has_executable (codes "rm") s
    && any is_recursive_option s.tokens
    && has_critical_path_argument s.tokens

unfoldable pub removes_critical_path : List ShellSegment → Bool
unfolding any segment_removes is_recursive_option has_critical_path_argument
removes_critical_path = any segment_removes

has_dangerous_output_option : List Bytes → Bool
has_dangerous_output_option = any (λ token.
    has_prefix token (codes "of=") && is_path_under_any (drop 3 token) sensitive_write_paths)

segment_writes : ShellSegment → Bool
segment_writes s =
    (segment_has_executable (codes "dd") s && has_dangerous_output_option s.tokens)
    || any (λ target. is_path_under_any target sensitive_write_paths) s.redirects

unfoldable pub writes_device_node : List ShellSegment → Bool
unfolding any segment_writes has_dangerous_output_option
writes_device_node = any segment_writes

-- `matchAnyExecutable`: the first executable of the list that the segments have; none is "".
unfoldable pub match_any_executable : List ShellSegment → List Bytes → Bytes
match_any_executable segments [] = []
match_any_executable segments (executable ∷ rest) =
    if segments_have_executable executable segments
    then executable
    else match_any_executable segments rest

-- The inner loop of `matchExtraExecutable`.
first_denied : List Bytes → List Bytes → Option Bytes
first_denied extras [] = none
first_denied extras (command ∷ rest) =
    if member command extras then some command else first_denied extras rest

-- `matchExtraExecutable`: the first candidate that is in the configured set; none is "".
unfoldable pub match_extra_executable : List Bytes → List ShellSegment → Bytes
unfolding first_denied
match_extra_executable extras [] = []
match_extra_executable extras (s ∷ segments) = elim (first_denied extras s.commands) [
  | none ↦ match_extra_executable extras segments
  | some command ↦ command
]
