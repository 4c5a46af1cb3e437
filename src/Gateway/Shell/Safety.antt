-- ===== src/Gateway/Shell/Safety.antt =====
-- The shell commands keep the connection's invariant, internal/gateway/gateway.go.
use hdc_remote_kit.Gateway.Input.Lines.{guarded_text-cases}
use hdc_remote_kit.Gateway.Input.{input_buffer, append_shell_input}
use hdc_remote_kit.Gateway.Shell.{
  extract_shell_command, unity_execute_ex, unity_execute, shell_data, init_command, shell_init,
  is_nil, shell_decision, guard_and_write, encode_echo_and_close, reject_channel, start_shell,
  shell_input_frame, run_command, resolve_and_open, open_target_shell, open_new_shell,
  inspect_input, execute_frame, audit_if, write_payload, reply_error, open_shell, handle_shell,
}
use hdc_remote_kit.Base.{
  refl, ◌||◌, ◌==◌, ◌++◌, none, inr, [], some, inl, false, codes, true, ◌≡◌, Option-cases, Option,
  ℕ, Bytes, Bool,
}
use hdc_remote_kit.Gateway.Connection.{
  emit, audit_of, now, audited, stdin, resolved, open_target, close_target, lookup, audit,
  Connection, World, Setup,
}
use hdc_remote_kit.Gateway.Permission.{any_authed, Inv, Permitted}
use hdc_remote_kit.Gateway.Permission.Lemmas.{
  audit-Inv, any_authed_later, emit-Inv, if-Inv, write_bytes-Inv,
}
use hdc_remote_kit.Gateway.Channels.Safety.{reject_channel-Inv}
use hdc_remote_kit.Protocol.Frame.{Frame}

module _ (setup : Setup) (w : World) where
  pub reply_error-Inv :
      (channel_id : ℕ) (message : Bytes) (c : Connection)
      → Inv setup c
      → Inv setup (reply_error w channel_id message c).1
  unfolding reply_error
  reply_error-Inv channel_id message c h =
      write_bytes-Inv setup w (encode_echo_and_close channel_id message) c h

  start_shell-Inv :
      (channel_id session : ℕ) (c : Connection)
      → Inv setup c
      → Inv setup (start_shell channel_id session c).1
  unfolding start_shell Permitted
  start_shell-Inv channel_id session c h = elim (Option-cases (lookup channel_id c.shells)) [
    | inl e ↦ rw (start_shell, e) h
    | inr (old, e) ↦ rw (start_shell, e) (emit-Inv setup (close_target session) c tt h)
  ]

  -- An accepted command opens a target after the authentication.
  open_target_shell-Inv :
      (channel_id : ℕ) (command : Bytes) (c : Connection)
      → any_authed c.log ≡ true
      → (shell_decision setup command).allowed ≡ true
      → Inv setup c
      → Inv setup (open_target_shell w channel_id command c).1
  unfolding open_target_shell Permitted
  open_target_shell-Inv channel_id command c a p h =
      let h' = emit-Inv setup (open_target (init_command command)) c (a, command, refl, p) h in
      if-Inv setup (w.open_succeeds (now c)) _ _
        (λ e. start_shell-Inv channel_id (now c) (emit (open_target (init_command command)) c) h')
        (λ e. h')

  resolve_and_open-Inv :
      (channel_id : ℕ) (command : Bytes) (c : Connection)
      → any_authed c.log ≡ true
      → (shell_decision setup command).allowed ≡ true
      → Inv setup c
      → Inv setup (resolve_and_open w channel_id command c).1
  unfolding resolve_and_open Permitted
  resolve_and_open-Inv channel_id command c a p h =
      let h' = emit-Inv setup resolved c tt h in
      if-Inv setup (w.resolve_succeeds (now c)) _ _
        (λ e.
          open_target_shell-Inv channel_id command (emit resolved c)
            (any_authed_later resolved c.log a) p h')
        (λ e. h')

  open_shell-Inv :
      (channel_id : ℕ) (command : Bytes) (c : Connection)
      → any_authed c.log ≡ true
      → Inv setup c
      → Inv setup (open_shell setup w channel_id command c).1
  unfolding open_shell open_new_shell
  open_shell-Inv channel_id command c a h = elim (Option-cases (lookup channel_id c.shells)) [
    | inl e ↦
        rw (open_shell, e)
          (if-Inv setup (shell_decision setup command).allowed _ _
            (λ p. resolve_and_open-Inv channel_id command c a p h)
            (λ p. reply_error-Inv channel_id (shell_decision setup command).reason c h))
    | inr (old, e) ↦ rw (open_shell, e) h
  ]

  -- Accepted input ends with what the session gets.
  write_payload-Inv :
      (session : ℕ) (typed chunk : Bytes) (c : Connection)
      → any_authed c.log ≡ true
      → (shell_decision setup (typed ++ chunk)).allowed ≡ true
      → Inv setup c
      → Inv setup (write_payload w session chunk c).1
  unfolding write_payload Permitted
  write_payload-Inv session typed chunk c a p h =
      emit-Inv setup (stdin session chunk) c (a, typed, p) h

  write_audited-Inv :
      (audits : Bool) (frame : Frame) (session : ℕ) (typed chunk : Bytes) (c : Connection)
      → any_authed c.log ≡ true
      → (shell_decision setup (typed ++ chunk)).allowed ≡ true
      → Inv setup c
      → Inv setup (write_payload w session chunk (audit_if audits frame c)).1
  unfolding audit_if
  write_audited-Inv true frame session typed chunk c a p h =
      write_payload-Inv session typed chunk (audit frame true [] c)
        (any_authed_later (audited (audit_of frame true [] c)) c.log a) p
        (audit-Inv setup frame true [] c h)
  write_audited-Inv false frame session typed chunk c a p h =
      write_payload-Inv session typed chunk c a p h

  reject_audited-Inv :
      (frame : Frame) (message reason : Bytes) (c : Connection)
      → Inv setup c
      → Inv setup (reject_channel w frame.channel_id message (audit frame false reason c)).1
  reject_audited-Inv frame message reason c h =
      reject_channel-Inv setup w frame.channel_id message (audit frame false reason c)
        (audit-Inv setup frame false reason c h)

  inspect_input-Inv :
      (audits : Bool) (frame : Frame) (session : ℕ) (typed chunk : Bytes) (c : Connection)
      → any_authed c.log ≡ true
      → Inv setup c
      → Inv setup (inspect_input setup w audits frame session chunk (some (typed ++ chunk)) c).1
  unfolding inspect_input
  inspect_input-Inv audits frame session typed chunk c a h =
      if-Inv setup (shell_decision setup (typed ++ chunk)).allowed _ _
        (λ p. write_audited-Inv audits frame session typed chunk c a p h)
        (λ p.
          reject_audited-Inv frame (shell_decision setup (typed ++ chunk)).reason
            (shell_decision setup (typed ++ chunk)).rule c h)

  guard_and_write-Inv :
      (audits : Bool) (frame : Frame) (session : ℕ) (chunk : Bytes) (c : Connection)
      → any_authed c.log ≡ true
      → Inv setup c
      → Inv setup (guard_and_write setup w audits frame session chunk c).1
  unfolding guard_and_write append_shell_input inspect_input
  guard_and_write-Inv audits frame session chunk c a h =
      let buffer = input_buffer (lookup frame.channel_id c.shell_input) in
      let c' = (append_shell_input frame.channel_id chunk c).1 in
      elim (guarded_text-cases buffer chunk) [
        | inl e ↦
            rw (inspect_input, e)
              (reject_audited-Inv frame (codes "Shell input is too large.")
                (codes "shell input too large") c' h)
        | inr e ↦ rw e (inspect_input-Inv audits frame session buffer chunk c' a h)
      ]

  run_command-Inv :
      (frame : Frame) (command : Bytes) (c : Connection)
      → any_authed c.log ≡ true
      → Inv setup c
      → Inv setup (run_command setup w frame command c).1
  unfolding run_command
  run_command-Inv frame command c a h =
      if-Inv setup (shell_decision setup command).allowed _ _
        (λ p.
          open_shell-Inv frame.channel_id command (audit frame true [] c)
            (any_authed_later (audited (audit_of frame true [] c)) c.log a)
            (audit-Inv setup frame true [] c h))
        (λ p.
          reply_error-Inv frame.channel_id (shell_decision setup command).reason
            (audit frame false (shell_decision setup command).rule c)
            (audit-Inv setup frame false (shell_decision setup command).rule c h))

  shell_input_frame-Inv :
      (frame : Frame) (session : Option ℕ) (c : Connection)
      → any_authed c.log ≡ true
      → Inv setup c
      → Inv setup (shell_input_frame setup w frame session c).1
  unfolding shell_input_frame
  shell_input_frame-Inv frame none c a h =
      reply_error-Inv frame.channel_id (codes "Shell session is not available.") c h
  shell_input_frame-Inv frame (some session) c a h =
      guard_and_write-Inv false frame session frame.payload c a h

  execute_frame-Inv :
      (frame : Frame) (command : Bytes) (session : Option ℕ) (c : Connection)
      → any_authed c.log ≡ true
      → Inv setup c
      → Inv setup (execute_frame setup w frame command session c).1
  unfolding execute_frame
  execute_frame-Inv frame command none c a h = run_command-Inv frame command c a h
  execute_frame-Inv frame command (some session) c a h =
      if-Inv setup (is_nil command) _ _ (λ e. h)
        (λ e. guard_and_write-Inv true frame session command c a h)

  pub handle_shell-Inv :
      (frame : Frame) (c : Connection)
      → any_authed c.log ≡ true
      → Inv setup c
      → Inv setup (handle_shell setup w frame c).1
  unfolding handle_shell
  handle_shell-Inv frame c a h =
      if-Inv setup (frame.command_flag == shell_init) _ _
        (λ e.
          open_shell-Inv frame.channel_id [] (audit frame true [] c)
            (any_authed_later (audited (audit_of frame true [] c)) c.log a)
            (audit-Inv setup frame true [] c h))
        (λ e.
          if-Inv setup (frame.command_flag == shell_data) _ _
            (λ e. shell_input_frame-Inv frame (lookup frame.channel_id c.shells) c a h)
            (λ e.
              if-Inv setup
                (frame.command_flag == unity_execute || frame.command_flag == unity_execute_ex) _ _
                (λ e.
                  execute_frame-Inv frame (extract_shell_command frame)
                    (lookup frame.channel_id c.shells) c a h)
                (λ e. reply_error-Inv frame.channel_id (codes "Command is not supported.") c h)))
