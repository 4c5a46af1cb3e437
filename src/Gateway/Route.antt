-- ===== src/Gateway/Route.antt =====
-- The frames of a connection, internal/gateway/gateway.go: `route`, `handleKernel`, `run` and
-- `close`, with `auditableCommand` of audit.go.
pub mod Frames
pub mod Invariant
pub mod Safety
use hdc_remote_kit.Protocol.Commands.{
  forward_remove, forward_list, forward_active_master, forward_check, forward_init, app_uninstall,
  app_check, wait_for, app_init, file_check, check_device, file_init, check_server,
  unity_bugreport_init, kernel_wakeup_slave_task, kernel_enable_keepalive, kernel_channel_close,
  jdwp_track, kernel_handshake, kernel_echo_raw, jdwp_list, unity_hilog, kernel_echo,
  forward_active_slave,
}
use hdc_remote_kit.Strings.{is_nil}
use hdc_remote_kit.Gateway.Connection.{
  failed, auth_rejected, write_bytes, fine, violation, to_bridge, set_close_reason, now,
  close_connection, audit, emit, Status, Outcome, World, Setup, Connection,
}
use hdc_remote_kit.Gateway.Channels.{
  teardown_channel, end_shell, reject_channel, close_shell, admit_channel,
}
use hdc_remote_kit.Protocol.Frame.{encode_echo_raw, encode_channel_close_response, Frame}
use hdc_remote_kit.Protocol.Catalog.{command_family, Family}
use hdc_remote_kit.Policy.Inspect.{inspect_frame, Decision}
use hdc_remote_kit.Gateway.Handshake.{handle_handshake}
use hdc_remote_kit.Base.{
  ◌||◌, ◌&&◌, some, codes, [], ◌==◌, true, not, false, ◌∷◌, if◌then◌else◌, Bytes, Bool, ℕ, List,
}
use hdc_remote_kit.Gateway.Shell.{reply_error, handle_shell}

allowed_before_handshake : ℕ → Bool
allowed_before_handshake flag = flag == kernel_handshake || flag == kernel_channel_close

is_one_of : ℕ → List ℕ → Bool
is_one_of flag [] = false
is_one_of flag (x ∷ xs) = flag == x || is_one_of flag xs

pub auditable_command : ℕ → Bool
auditable_command flag = is_one_of flag (
    unity_hilog ∷ jdwp_list ∷ jdwp_track ∷ unity_bugreport_init ∷ file_init ∷ file_check ∷ app_init
    ∷ app_check ∷ app_uninstall ∷ forward_init ∷ forward_check ∷ forward_active_master
    ∷ forward_active_slave ∷ forward_list ∷ forward_remove ∷ [])

is_alive_command : ℕ → Bool
is_alive_command flag = is_one_of flag (
    kernel_echo ∷ kernel_echo_raw ∷ kernel_enable_keepalive ∷ kernel_wakeup_slave_task
    ∷ check_server ∷ check_device ∷ wait_for ∷ [])

pub handle_kernel : Setup → World → Frame → Connection → Outcome
handle_kernel setup w frame c =
    if frame.command_flag == kernel_handshake
    then handle_handshake setup w frame c
    else if frame.command_flag == kernel_channel_close
    then write_bytes w (encode_channel_close_response frame.channel_id frame.payload)
        (teardown_channel frame.channel_id c)
    else if is_alive_command frame.command_flag
    then write_bytes w (encode_echo_raw frame.channel_id []) c
    else reply_error w frame.channel_id (codes "Command is not supported.") c

pass_to_bridge : World → Family → Frame → Connection → Outcome
pass_to_bridge w family frame c = (w.bridge_status (now c), emit (to_bridge family frame) c)

pass_to_file : Setup → World → Frame → Connection → Outcome
pass_to_file setup w frame c =
    if setup.has_file_bridge
    then pass_to_bridge w Family.file frame c
    else reject_channel w frame.channel_id (codes "File transfer is unavailable.") c

-- The switch on the family.
pub dispatch : Setup → World → Family → Frame → Connection → Outcome
dispatch setup w Family.kernel frame c = handle_kernel setup w frame c
dispatch setup w Family.shell frame c = handle_shell setup w frame c
dispatch setup w Family.file frame c = pass_to_file setup w frame c
dispatch setup w Family.unity frame c = pass_to_bridge w Family.unity frame c
dispatch setup w Family.app frame c = pass_to_bridge w Family.app frame c
dispatch setup w Family.forward frame c = pass_to_bridge w Family.forward frame c
dispatch setup w _ frame c = reject_channel w frame.channel_id (codes "Command is not supported.") c

audit_command : Frame → Connection → Connection
audit_command frame c = if auditable_command frame.command_flag then audit frame true [] c else c

admitted : Setup → World → Frame → Bool × Connection → Outcome
admitted setup w frame (false, c) =
    reply_error w frame.channel_id (codes "Too many concurrent channels for this connection.")
      (audit frame false (codes "channel limit reached") c)
admitted setup w frame (true, c) =
    dispatch setup w (command_family frame.command_flag) frame (audit_command frame c)

inspected : Setup → World → Frame → Decision → Connection → Outcome
inspected setup w frame decision c =
    if decision.allowed
    then admitted setup w frame (admit_channel setup frame.command_flag frame.channel_id c)
    else reject_channel w frame.channel_id decision.reason (audit frame false decision.rule c)

pub route : Setup → World → Frame → Connection → Outcome
route setup w frame c =
    if not c.handshake_accepted && not (allowed_before_handshake frame.command_flag)
    then (
      violation (codes "HDC daemon handshake is required."),
      audit frame false (codes "handshake required") c,
    )
    else if c.handshake_accepted && (frame.command_flag == kernel_handshake)
    then (
      violation (codes "HDC daemon handshake is already complete."),
      audit frame false (codes "handshake already complete") c,
    )
    else inspected setup w frame (inspect_frame frame.command_flag) c

-- What happens to a connection: a frame, the end of reading with its class, a frame that does not
-- decode, and what the reader of a shell session does.
pub data Input : Type 0 where
  frame_read : Frame → Input
  read_ended : Bytes → Input
  frame_rejected : Input
  shell_output : ℕ → Bytes → Input
  shell_ended : ℕ → ℕ → Input

-- `close`; the sessions that are still there are closed.
close_sessions : List (ℕ × ℕ) → Connection → Connection
close_sessions [] c = c
close_sessions ((channel_id, session) ∷ sessions) c =
    close_sessions sessions (close_shell true (some session) c)

pub close : Connection → Connection
close c = emit close_connection (close_sessions c.shells (record c { shells = [] }))

-- Whether the loop goes on, and the connection after the answer to an error.
answer_status : World → ℕ → Status → Connection → Bool × Connection
answer_status w channel_id fine c = (true, c)
answer_status w channel_id auth_rejected c = (false, c)
answer_status w channel_id (violation text) c = (false, (reply_error w channel_id text c).1)
answer_status w channel_id failed c =
    (w.write_succeeds (now c), (reply_error w channel_id (codes "Command execution failed.") c).1)

pub step : Setup → World → Input → Connection → Bool × Connection
step setup w (frame_read frame) c =
    let (status, c') = route setup w frame c in answer_status w frame.channel_id status c'
step setup w (read_ended reason) c = (false, set_close_reason reason c)
step setup w frame_rejected c = (false, c)
step setup w (shell_output channel_id payload) c =
    (true, if is_nil payload then c else (write_bytes w (encode_echo_raw channel_id payload) c).1)
step setup w (shell_ended channel_id session) c = (true, end_shell w channel_id session c)

-- `run` on what happens to the connection, until it is closed.
pub run : Setup → World → List Input → Connection → Connection
run setup w [] c = c
run setup w (input ∷ inputs) c =
    let (goes_on, c') = step setup w input c in
    elim goes_on [ true ↦ run setup w inputs c' | false ↦ close c' ]
