-- ===== src/Gateway/Channels.antt =====
-- The channels of a connection, internal/gateway/gateway.go: `admitChannel`, `untrackChannel`,
-- `teardownChannel`, `rejectChannel`, `stopShell` and `removeShell`.
pub mod Safety
use hdc_remote_kit.Protocol.Commands.{kernel_channel_close, kernel_handshake}
use hdc_remote_kit.Base.{
  length, ◌||◌, leb, ◌∷◌, ◌&&◌, true, none, ◌==◌, ltb, some, if◌then◌else◌, false, Option, Bytes, ℕ,
  Bool,
}
use hdc_remote_kit.Protocol.Handshake.Replies.{encode_echo_and_close}
use hdc_remote_kit.Protocol.Frame.{encode_channel_close}
use hdc_remote_kit.Remote.Ports.{contains, remove}
use hdc_remote_kit.Gateway.Connection.{
  write_bytes, close_target, close_bridge_channel, lookup, emit, delete, Outcome, Connection, World,
  Setup,
}

-- `admitChannel`, and the connection afterwards.
admit_new : Setup → ℕ → Connection → Bool × Connection
admit_new setup channel_id c =
    if ltb 0 setup.max_channels && leb setup.max_channels (length c.open_channels)
    then (false, c)
    else (true, record c { open_channels = channel_id ∷ c.open_channels })

admit_tracked : Setup → ℕ → Connection → Bool × Connection
admit_tracked setup channel_id c =
    if contains channel_id c.open_channels then (true, c) else admit_new setup channel_id c

pub admit_channel : Setup → ℕ → ℕ → Connection → Bool × Connection
admit_channel setup flag channel_id c =
    if flag == kernel_handshake || flag == kernel_channel_close
    then (true, c)
    else admit_tracked setup channel_id c

pub untrack_channel : ℕ → Connection → Connection
untrack_channel channel_id c = record c { open_channels = remove channel_id c.open_channels }

-- `closeOnce` of a session's target.
close_once : ℕ → Connection → Connection
close_once session c =
    if contains session c.closed_targets
    then c
    else emit (close_target session) (record c { closed_targets = session ∷ c.closed_targets })

-- `(*shellSession).close` of the session, if there is one.
pub close_shell : Bool → Option ℕ → Connection → Connection
close_shell by_us none c = c
close_shell true (some session) c =
    close_once session (record c { closed_by_us = session ∷ c.closed_by_us })
close_shell false (some session) c = close_once session c

forget_shell : ℕ → Connection → Connection
forget_shell channel_id c = record c {
  shells = delete channel_id c.shells;
  shell_input = delete channel_id c.shell_input;
}

pub stop_shell : ℕ → Bool → Connection → Connection
stop_shell channel_id by_us c =
    close_shell by_us (lookup channel_id c.shells) (forget_shell channel_id c)

is_session : ℕ → Option ℕ → Bool
is_session session none = false
is_session session (some current) = current == session

-- `removeShell`, when the session's own reader has ended.
pub remove_shell : ℕ → ℕ → Connection → Connection
remove_shell channel_id session c =
    if is_session session (lookup channel_id c.shells)
    then untrack_channel channel_id (forget_shell channel_id c)
    else c

pub teardown_channel : ℕ → Connection → Connection
teardown_channel channel_id c =
    emit (close_bridge_channel channel_id)
      (stop_shell channel_id true (untrack_channel channel_id c))

pub reject_channel : World → ℕ → Bytes → Connection → Outcome
reject_channel w channel_id message c =
    write_bytes w (encode_echo_and_close channel_id message) (teardown_channel channel_id c)

-- What the reader of a session does when the device's side ends.
pub end_shell : World → ℕ → ℕ → Connection → Connection
end_shell w channel_id session c =
    let c' = remove_shell channel_id session c in
    close_once session (
      if contains session c.closed_by_us
      then c'
      else (write_bytes w (encode_channel_close channel_id) c').1)
