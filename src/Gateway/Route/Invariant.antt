-- ===== src/Gateway/Route/Invariant.antt =====
-- The state of a connection on every run, internal/gateway/gateway.go.
use hdc_remote_kit.Gateway.Route.Frames.{route-Inv}
use hdc_remote_kit.Base.{some, ◌∷◌, false, ℕ, Bool, List, [], codes, if-holds, true}
use hdc_remote_kit.Gateway.Route.{
  frame_rejected, shell_ended, shell_output, read_ended, frame_read, Input, step, run, route,
  close_sessions, close, answer_status,
}
use hdc_remote_kit.Gateway.Channels.Safety.{end_shell-Inv, close_shell-Inv}
use hdc_remote_kit.Gateway.Connection.{
  write_bytes, failed, auth_rejected, fine, violation, Status, close_connection, Connection, World,
  Setup,
}
use hdc_remote_kit.Strings.{is_nil}
use hdc_remote_kit.Gateway.Channels.{close_shell}
use hdc_remote_kit.Gateway.Permission.{Inv, Permitted}
use hdc_remote_kit.Gateway.Permission.Lemmas.{write_bytes-Inv, emit-Inv}
use hdc_remote_kit.Gateway.Shell.Safety.{reply_error-Inv}
use hdc_remote_kit.Protocol.Frame.{encode_echo_raw}

module _ (setup : Setup) (w : World) where
  answer_status-Inv :
      (channel_id : ℕ) (status : Status) (c : Connection)
      → Inv setup c
      → Inv setup (answer_status w channel_id status c).1
  unfolding answer_status
  answer_status-Inv channel_id fine c h = h
  answer_status-Inv channel_id auth_rejected c h = h
  answer_status-Inv channel_id (violation text) c h = reply_error-Inv setup w channel_id text c h
  answer_status-Inv channel_id failed c h =
      reply_error-Inv setup w channel_id (codes "Command execution failed.") c h

  step-Inv : (input : Input) (c : Connection) → Inv setup c → Inv setup (step setup w input c).1
  unfolding step
  step-Inv (frame_read frame) c h =
      answer_status-Inv frame.channel_id (route setup w frame c).0 (route setup w frame c).1
        (route-Inv setup w frame c h)
  step-Inv (read_ended reason) c h = h
  step-Inv frame_rejected c h = h
  step-Inv (shell_output channel_id payload) c h =
      if-holds (Inv setup) (is_nil payload) c
        (write_bytes w (encode_echo_raw channel_id payload) c).1 (λ e. h)
        (λ e. write_bytes-Inv setup w (encode_echo_raw channel_id payload) c h)
  step-Inv (shell_ended channel_id session) c h = end_shell-Inv setup w channel_id session c h

  close_sessions-Inv :
      (sessions : List (ℕ × ℕ)) (c : Connection)
      → Inv setup c
      → Inv setup (close_sessions sessions c)
  unfolding close_sessions
  close_sessions-Inv [] c h = h
  close_sessions-Inv ((channel_id, session) ∷ sessions) c h =
      close_sessions-Inv sessions (close_shell true (some session) c)
        (close_shell-Inv setup true (some session) c h)

  close-Inv : (c : Connection) → Inv setup c → Inv setup (close c)
  unfolding close Permitted
  close-Inv c h =
      emit-Inv setup close_connection (close_sessions c.shells (record c { shells = [] })) tt
        (close_sessions-Inv c.shells (record c { shells = [] }) h)

  goes_on-Inv :
      (inputs : List Input) (r : Bool × Connection)
      → Inv setup r.1
      → ((c : Connection) → Inv setup c → Inv setup (run setup w inputs c))
      → Inv setup (elim r.0 [ true ↦ run setup w inputs r.1 | false ↦ close r.1 ])
  goes_on-Inv inputs (true, c) h k = k c h
  goes_on-Inv inputs (false, c) h k = close-Inv c h

  pub run-Inv :
      (inputs : List Input) (c : Connection) → Inv setup c → Inv setup (run setup w inputs c)
  unfolding run
  run-Inv [] c h = h
  run-Inv (input ∷ inputs) c h =
      goes_on-Inv inputs (step setup w input c) (step-Inv input c h) (λ d k. run-Inv inputs d k)
