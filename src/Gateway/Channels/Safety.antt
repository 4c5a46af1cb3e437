-- ===== src/Gateway/Channels/Safety.antt =====
-- The channels keep the connection's invariant, internal/gateway/gateway.go.
use hdc_remote_kit.Base.{
  refl, ◌≡◌, leb, ◌&&◌, ltb, ◌||◌, ◌==◌, false, true, inr, none, inl, [], ◌∷◌, some, arith,
  Bool-cases, ◌≤◌, length, Option, Bytes, List, Bool, ℕ,
}
use hdc_remote_kit.Gateway.Channels.{
  kernel_channel_close, kernel_handshake, close_target, close_bridge_channel, encode_channel_close,
  write_bytes, is_session, encode_echo_and_close, contains, lookup, admit_new, Connection,
  untrack_channel, forget_shell, close_once, admit_tracked, World, teardown_channel, stop_shell,
  remove_shell, reject_channel, end_shell, close_shell, admit_channel,
}
use hdc_remote_kit.Gateway.Permission.{Inv, Permitted, Bounded}
use hdc_remote_kit.Gateway.Permission.Lemmas.{emit-Inv, write_bytes-Inv}
use hdc_remote_kit.Remote.Ports.{remove}
use hdc_remote_kit.Gateway.Connection.{Setup}

length-remove : (x : ℕ) (xs : List ℕ) → length (remove x xs) ≤ length xs
unfolding remove
length-remove x [] = omega arith
length-remove x (y ∷ ys) = ground (arith, length-remove x ys)

module _ (setup : Setup) where
  pub untrack_channel-Inv :
      (channel_id : ℕ) (c : Connection) → Inv setup c → Inv setup (untrack_channel channel_id c)
  unfolding Bounded untrack_channel
  untrack_channel-Inv channel_id c (safe, accepted, waiting, bounded, token, key) = (
    safe,
    accepted,
    waiting,
    (λ h. omega (arith, bounded h, length-remove channel_id c.open_channels)),
    token,
    key,
  )

  close_once-Inv : (session : ℕ) (c : Connection) → Inv setup c → Inv setup (close_once session c)
  unfolding close_once Permitted
  close_once-Inv session c h = elim (Bool-cases (contains session c.closed_targets)) [
    | inl e ↦ rw e h
    | inr e ↦ rw e (
        emit-Inv setup (close_target session)
          (record c { closed_targets = session ∷ c.closed_targets }) tt h)
  ]

  pub close_shell-Inv :
      (by_us : Bool) (session : Option ℕ) (c : Connection)
      → Inv setup c
      → Inv setup (close_shell by_us session c)
  unfolding close_shell
  close_shell-Inv by_us none c h = h
  close_shell-Inv true (some session) c h =
      close_once-Inv session (record c { closed_by_us = session ∷ c.closed_by_us }) h
  close_shell-Inv false (some session) c h = close_once-Inv session c h

  stop_shell-Inv :
      (channel_id : ℕ) (by_us : Bool) (c : Connection)
      → Inv setup c
      → Inv setup (stop_shell channel_id by_us c)
  unfolding stop_shell forget_shell
  stop_shell-Inv channel_id by_us c h =
      close_shell-Inv by_us (lookup channel_id c.shells) (forget_shell channel_id c) h

  pub teardown_channel-Inv :
      (channel_id : ℕ) (c : Connection) → Inv setup c → Inv setup (teardown_channel channel_id c)
  unfolding teardown_channel Permitted
  teardown_channel-Inv channel_id c h =
      emit-Inv setup (close_bridge_channel channel_id)
        (stop_shell channel_id true (untrack_channel channel_id c)) tt
        (stop_shell-Inv channel_id true (untrack_channel channel_id c)
          (untrack_channel-Inv channel_id c h))

  pub reject_channel-Inv :
      (w : World) (channel_id : ℕ) (message : Bytes) (c : Connection)
      → Inv setup c
      → Inv setup (reject_channel w channel_id message c).1
  unfolding reject_channel
  reject_channel-Inv w channel_id message c h =
      write_bytes-Inv setup w (encode_echo_and_close channel_id message)
        (teardown_channel channel_id c) (teardown_channel-Inv channel_id c h)

  remove_shell-Inv :
      (channel_id session : ℕ) (c : Connection)
      → Inv setup c
      → Inv setup (remove_shell channel_id session c)
  unfolding remove_shell forget_shell
  remove_shell-Inv channel_id session c h =
      elim (Bool-cases (is_session session (lookup channel_id c.shells))) [
        | inl e ↦ rw e (untrack_channel-Inv channel_id (forget_shell channel_id c) h)
        | inr e ↦ rw e h
      ]

  pub end_shell-Inv :
      (w : World) (channel_id session : ℕ) (c : Connection)
      → Inv setup c
      → Inv setup (end_shell w channel_id session c)
  unfolding end_shell
  end_shell-Inv w channel_id session c h =
      let c' = remove_shell channel_id session c in
      let h' = remove_shell-Inv channel_id session c h in
      elim (Bool-cases (contains session c.closed_by_us)) [
        | inl e ↦ rw e (close_once-Inv session c' h')
        | inr e ↦ rw e (
            close_once-Inv session (write_bytes w (encode_channel_close channel_id) c').1
              (write_bytes-Inv setup w (encode_channel_close channel_id) c' h'))
      ]

  -- A tracked channel is admitted as it is; a new one only below the limit.
  pub admit_channel-Inv :
      (flag channel_id : ℕ) (c : Connection)
      → Inv setup c
      → Inv setup (admit_channel setup flag channel_id c).1
  unfolding admit_channel admit_tracked admit_new Bounded
  admit_channel-Inv flag channel_id c (safe, accepted, waiting, bounded, token, key) =
      elim (Bool-cases (flag == kernel_handshake || flag == kernel_channel_close)) [
        | inl e ↦ rw e (safe, accepted, waiting, bounded, token, key)
        | inr e ↦ rw e (elim (Bool-cases (contains channel_id c.open_channels)) [
          | inl t ↦ rw t (safe, accepted, waiting, bounded, token, key)
          | inr t ↦
              rw t
                (elim (Bool-cases
                  (ltb 0 setup.max_channels && leb setup.max_channels (length c.open_channels))) [
                    | inl l ↦ rw l (safe, accepted, waiting, bounded, token, key)
                    | inr l ↦ rw l (safe, accepted, waiting, (λ m. ground arith), token, key)
                  ])
        ])
      ]

  pub admit_channel-log :
      (flag channel_id : ℕ) (c : Connection) → (admit_channel setup flag channel_id c).1.log ≡ c.log
  unfolding admit_channel admit_tracked admit_new
  admit_channel-log flag channel_id c =
      elim (Bool-cases (flag == kernel_handshake || flag == kernel_channel_close)) [
        | inl e ↦ rw e refl
        | inr e ↦ rw e (elim (Bool-cases (contains channel_id c.open_channels)) [
          | inl t ↦ rw t refl
          | inr t ↦
              rw t
                (elim (Bool-cases
                  (ltb 0 setup.max_channels && leb setup.max_channels (length c.open_channels))) [
                    | inl l ↦ rw l refl
                    | inr l ↦ rw l refl
                  ])
        ])
      ]
