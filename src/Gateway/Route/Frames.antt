-- ===== src/Gateway/Route/Frames.antt =====
-- A frame keeps the connection's invariant, internal/gateway/gateway.go.
use hdc_remote_kit.Base.{
  arith, inr, ◌∙◌, ==_iff, ap, inl, Bool-cases, ◌&&◌, false, ℕ, not, Bool, refl, [], codes,
  if-holds, ◌==◌, true, ◌≢◌, ◌≡◌,
}
use hdc_remote_kit.Gateway.Route.{
  route, inspected, allowed_before_handshake, admitted, is_alive_command, auditable_command,
  pass_to_file, pass_to_bridge, audit_command, Frame, Family, handle_kernel, dispatch,
}
use hdc_remote_kit.Gateway.Channels.Safety.{
  admit_channel-Inv, admit_channel-log, teardown_channel-Inv, reject_channel-Inv,
}
use hdc_remote_kit.Gateway.Connection.{
  audit_of, audited, audit, to_bridge, Connection, World, Setup,
}
use hdc_remote_kit.Gateway.Channels.{admit_channel, teardown_channel}
use hdc_remote_kit.Gateway.Permission.{any_authed, Inv, Permitted}
use hdc_remote_kit.Gateway.Permission.Lemmas.{
  any_authed_later, audit-Inv, write_bytes-Inv, emit-Inv, if-Inv,
}
use hdc_remote_kit.Gateway.Shell.Safety.{reply_error-Inv, handle_shell-Inv}
use hdc_remote_kit.Protocol.Frame.{encode_echo_raw, encode_channel_close_response}
use hdc_remote_kit.Protocol.Commands.{kernel_channel_close, kernel_handshake}
use hdc_remote_kit.Gateway.Handshake.Safety.{handle_handshake-Inv}
use hdc_remote_kit.Policy.Inspect.{inspect_frame}
use hdc_remote_kit.Protocol.Catalog.{command_family}

handshake_family : command_family kernel_handshake ≡ Family.kernel
unfolding command_family
handshake_family = refl

close_family : command_family kernel_channel_close ≡ Family.kernel
unfolding command_family
close_family = refl

-- Before the handshake only the kernel's own frames come through.
accepted_of :
    (accepted : Bool) (flag : ℕ)
    → (not accepted && not (allowed_before_handshake flag)) ≡ false
    → command_family flag ≢ Family.kernel
    → accepted ≡ true
unfolding allowed_before_handshake
accepted_of true flag e k = refl
accepted_of false flag e k = elim (Bool-cases (flag == kernel_handshake)) [
  | inl p ↦ absurd (k (ap command_family ((==_iff flag kernel_handshake).0 p) ∙ handshake_family))
  | inr p ↦ elim (Bool-cases (flag == kernel_channel_close)) [
    | inl q ↦ absurd (k (ap command_family ((==_iff flag kernel_channel_close).0 q) ∙ close_family))
    | inr q ↦ ground arith
  ]
]

module _ (setup : Setup) (w : World) where
  handle_kernel-Inv :
      (frame : Frame) (c : Connection) → Inv setup c → Inv setup (handle_kernel setup w frame c).1
  unfolding handle_kernel
  handle_kernel-Inv frame c h =
      if-Inv setup (frame.command_flag == kernel_handshake) _ _
        (λ e. handle_handshake-Inv setup w frame c h)
        (λ e.
          if-Inv setup (frame.command_flag == kernel_channel_close) _ _
            (λ e.
              write_bytes-Inv setup w (encode_channel_close_response frame.channel_id frame.payload)
                (teardown_channel frame.channel_id c)
                (teardown_channel-Inv setup frame.channel_id c h))
            (λ e.
              if-Inv setup (is_alive_command frame.command_flag) _ _
                (λ e. write_bytes-Inv setup w (encode_echo_raw frame.channel_id []) c h)
                (λ e.
                  reply_error-Inv setup w frame.channel_id (codes "Command is not supported.") c
                    h)))

  -- A frame of a bridge's family comes through after the authentication and the frame rules.
  pass_to_bridge-Inv :
      (family : Family) (frame : Frame) (c : Connection)
      → any_authed c.log ≡ true
      → (inspect_frame frame.command_flag).allowed ≡ true
      → command_family frame.command_flag ≡ family
      → Inv setup c
      → Inv setup (pass_to_bridge w family frame c).1
  unfolding pass_to_bridge Permitted
  pass_to_bridge-Inv family frame c a p f h = emit-Inv setup (to_bridge family frame) c (a, p, f) h

  pass_to_file-Inv :
      (frame : Frame) (c : Connection)
      → any_authed c.log ≡ true
      → (inspect_frame frame.command_flag).allowed ≡ true
      → command_family frame.command_flag ≡ Family.file
      → Inv setup c
      → Inv setup (pass_to_file setup w frame c).1
  unfolding pass_to_file
  pass_to_file-Inv frame c a p f h =
      if-Inv setup setup.has_file_bridge _ _ (λ e. pass_to_bridge-Inv Family.file frame c a p f h)
        (λ e.
          reject_channel-Inv setup w frame.channel_id (codes "File transfer is unavailable.") c h)

  dispatch-Inv :
      (family : Family) (frame : Frame) (c : Connection)
      → command_family frame.command_flag ≡ family
      → (inspect_frame frame.command_flag).allowed ≡ true
      → (family ≢ Family.kernel → any_authed c.log ≡ true)
      → Inv setup c
      → Inv setup (dispatch setup w family frame c).1
  unfolding dispatch
  dispatch-Inv Family.kernel frame c f p a h = handle_kernel-Inv frame c h
  dispatch-Inv Family.shell frame c f p a h = handle_shell-Inv setup w frame c (a (λ e. cc)) h
  dispatch-Inv Family.file frame c f p a h = pass_to_file-Inv frame c (a (λ e. cc)) p f h
  dispatch-Inv Family.unity frame c f p a h =
      pass_to_bridge-Inv Family.unity frame c (a (λ e. cc)) p f h
  dispatch-Inv Family.app frame c f p a h =
      pass_to_bridge-Inv Family.app frame c (a (λ e. cc)) p f h
  dispatch-Inv Family.forward frame c f p a h =
      pass_to_bridge-Inv Family.forward frame c (a (λ e. cc)) p f h
  dispatch-Inv Family.unknown frame c f p a h =
      reject_channel-Inv setup w frame.channel_id (codes "Command is not supported.") c h
  dispatch-Inv Family.flash frame c f p a h =
      reject_channel-Inv setup w frame.channel_id (codes "Command is not supported.") c h
  dispatch-Inv Family.heartbeat frame c f p a h =
      reject_channel-Inv setup w frame.channel_id (codes "Command is not supported.") c h

  audit_command-Inv :
      (frame : Frame) (c : Connection) → Inv setup c → Inv setup (audit_command frame c)
  unfolding audit_command
  audit_command-Inv frame c h =
      if-holds (Inv setup) (auditable_command frame.command_flag) (audit frame true [] c) c
        (λ e. audit-Inv setup frame true [] c h) (λ e. h)

  audit_command-any_authed :
      (frame : Frame) (c : Connection)
      → any_authed c.log ≡ true
      → any_authed (audit_command frame c).log ≡ true
  unfolding audit_command
  audit_command-any_authed frame c a =
      if-holds (λ d. any_authed d.log ≡ true) (auditable_command frame.command_flag)
        (audit frame true [] c) c
        (λ e. any_authed_later (audited (audit_of frame true [] c)) c.log a) (λ e. a)

  admitted-Inv :
      (frame : Frame) (answer : Bool × Connection)
      → (inspect_frame frame.command_flag).allowed ≡ true
      → (command_family frame.command_flag ≢ Family.kernel → any_authed answer.1.log ≡ true)
      → Inv setup answer.1
      → Inv setup (admitted setup w frame answer).1
  unfolding admitted
  admitted-Inv frame (true, c) p a h =
      dispatch-Inv (command_family frame.command_flag) frame (audit_command frame c) refl p
        (λ k. audit_command-any_authed frame c (a k)) (audit_command-Inv frame c h)
  admitted-Inv frame (false, c) p a h =
      reply_error-Inv setup w frame.channel_id
        (codes "Too many concurrent channels for this connection.")
        (audit frame false (codes "channel limit reached") c)
        (audit-Inv setup frame false (codes "channel limit reached") c h)

  inspected-Inv :
      (frame : Frame) (c : Connection)
      → (command_family frame.command_flag ≢ Family.kernel → any_authed c.log ≡ true)
      → Inv setup c
      → Inv setup (inspected setup w frame (inspect_frame frame.command_flag) c).1
  unfolding inspected
  inspected-Inv frame c a h =
      if-Inv setup (inspect_frame frame.command_flag).allowed _ _
        (λ p.
          admitted-Inv frame (admit_channel setup frame.command_flag frame.channel_id c) p
            (λ k. rw (admit_channel-log setup frame.command_flag frame.channel_id c) (a k))
            (admit_channel-Inv setup frame.command_flag frame.channel_id c h))
        (λ p.
          reject_channel-Inv setup w frame.channel_id (inspect_frame frame.command_flag).reason
            (audit frame false (inspect_frame frame.command_flag).rule c)
            (audit-Inv setup frame false (inspect_frame frame.command_flag).rule c h))

  pub route-Inv :
      (frame : Frame) (c : Connection) → Inv setup c → Inv setup (route setup w frame c).1
  unfolding route
  route-Inv frame c h =
      if-Inv setup (not c.handshake_accepted && not (allowed_before_handshake frame.command_flag)) _
        _ (λ e. audit-Inv setup frame false (codes "handshake required") c h)
        (λ e.
          if-Inv setup (c.handshake_accepted && (frame.command_flag == kernel_handshake)) _ _
            (λ f. audit-Inv setup frame false (codes "handshake already complete") c h)
            (λ f.
              inspected-Inv frame c
                (λ k. h.1 (accepted_of c.handshake_accepted frame.command_flag e k)) h))
