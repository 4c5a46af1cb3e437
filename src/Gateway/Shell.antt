-- ===== src/Gateway/Shell.antt =====
-- The shell commands of a connection, internal/gateway/gateway.go: `handleShell` and `openShell`.
pub mod Safety
use hdc_remote_kit.Protocol.ShellCommand.{extract_shell_command}
use hdc_remote_kit.Protocol.Commands.{unity_execute_ex, unity_execute, shell_data, shell_init}
use hdc_remote_kit.Base.{
  ◌||◌, ◌∷◌, none, ◌++◌, false, ◌==◌, true, some, codes, [], Option, if◌then◌else◌, ℕ, Bytes, Bool,
}
use hdc_remote_kit.Strings.{trim_space, is_nil, runes, is_blank}
use hdc_remote_kit.Gateway.Connection.{
  insert, stdin, failed, close_target, resolved, open_target, now, fine, write_bytes, status_of,
  lookup, emit, audit, Outcome, Connection, World, Setup,
}
use hdc_remote_kit.Protocol.Handshake.Replies.{encode_echo_and_close}
use hdc_remote_kit.Gateway.Input.{append_shell_input}
use hdc_remote_kit.Gateway.Channels.{reject_channel}
use hdc_remote_kit.Policy.Inspect.{inspect_shell, Decision}
use hdc_remote_kit.Protocol.Frame.{Frame}

pub shell_decision : Setup → Bytes → Decision
shell_decision setup text = inspect_shell setup.extra_denied setup.policy_profile (runes text)

pub reply_error : World → ℕ → Bytes → Connection → Outcome
reply_error w channel_id message c = write_bytes w (encode_echo_and_close channel_id message) c

-- The command that opens the target's shell.
pub init_command : Bytes → Bytes
init_command command =
    if is_blank command then codes "shell" else codes "shell" ++ (b' ' ∷ trim_space command)

-- `_, exists := c.shells[channelID]` after the target is open; the session's number is the time.
start_shell : ℕ → ℕ → Connection → Outcome
start_shell channel_id session c = elim (lookup channel_id c.shells) [
  | some _ ↦ (fine, emit (close_target session) c)
  | none ↦ (fine, record c { shells = insert channel_id session c.shells })
]

open_target_shell : World → ℕ → Bytes → Connection → Outcome
open_target_shell w channel_id command c =
    let c' = emit (open_target (init_command command)) c in
    if w.open_succeeds (now c) then start_shell channel_id (now c) c' else (failed, c')

resolve_and_open : World → ℕ → Bytes → Connection → Outcome
resolve_and_open w channel_id command c =
    let c' = emit resolved c in
    if w.resolve_succeeds (now c) then open_target_shell w channel_id command c' else (failed, c')

open_new_shell : Setup → World → ℕ → Bytes → Connection → Outcome
open_new_shell setup w channel_id command c =
    let decision = shell_decision setup command in
    if decision.allowed
    then resolve_and_open w channel_id command c
    else reply_error w channel_id decision.reason c

pub open_shell : Setup → World → ℕ → Bytes → Connection → Outcome
open_shell setup w channel_id command c = elim (lookup channel_id c.shells) [
  | some _ ↦ (fine, c)
  | none ↦ open_new_shell setup w channel_id command c
]

pub write_payload : World → ℕ → Bytes → Connection → Outcome
write_payload w session payload c =
    (status_of (w.stdin_succeeds (now c)), emit (stdin session payload) c)

-- The inspection of typed input; an accepted one is passed on, after an audit where `audited` is
-- set.
audit_if : Bool → Frame → Connection → Connection
audit_if true frame c = audit frame true [] c
audit_if false frame c = c

inspect_input : Setup → World → Bool → Frame → ℕ → Bytes → Option Bytes → Connection → Outcome
inspect_input setup w audits frame session chunk none c =
    reject_channel w frame.channel_id (codes "Shell input is too large.")
      (audit frame false (codes "shell input too large") c)
inspect_input setup w audits frame session chunk (some guarded) c =
    let decision = shell_decision setup guarded in
    if decision.allowed
    then write_payload w session chunk (audit_if audits frame c)
    else reject_channel w frame.channel_id decision.reason (audit frame false decision.rule c)

guard_and_write : Setup → World → Bool → Frame → ℕ → Bytes → Connection → Outcome
guard_and_write setup w audits frame session chunk c =
    let (guarded, c') = append_shell_input frame.channel_id chunk c in
    inspect_input setup w audits frame session chunk guarded c'

shell_input_frame : Setup → World → Frame → Option ℕ → Connection → Outcome
shell_input_frame setup w frame none c =
    reply_error w frame.channel_id (codes "Shell session is not available.") c
shell_input_frame setup w frame (some session) c =
    guard_and_write setup w false frame session frame.payload c

run_command : Setup → World → Frame → Bytes → Connection → Outcome
run_command setup w frame command c =
    let decision = shell_decision setup command in
    if decision.allowed
    then open_shell setup w frame.channel_id command (audit frame true [] c)
    else reply_error w frame.channel_id decision.reason (audit frame false decision.rule c)

execute_frame : Setup → World → Frame → Bytes → Option ℕ → Connection → Outcome
execute_frame setup w frame command none c = run_command setup w frame command c
execute_frame setup w frame command (some session) c =
    if is_nil command then (fine, c) else guard_and_write setup w true frame session command c

pub handle_shell : Setup → World → Frame → Connection → Outcome
handle_shell setup w frame c =
    if frame.command_flag == shell_init
    then open_shell setup w frame.channel_id [] (audit frame true [] c)
    else if frame.command_flag == shell_data
    then shell_input_frame setup w frame (lookup frame.channel_id c.shells) c
    else if frame.command_flag == unity_execute || frame.command_flag == unity_execute_ex
    then execute_frame setup w frame (extract_shell_command frame)
        (lookup frame.channel_id c.shells) c
    else reply_error w frame.channel_id (codes "Command is not supported.") c
