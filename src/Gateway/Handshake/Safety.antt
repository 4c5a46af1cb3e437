-- ===== src/Gateway/Handshake/Safety.antt =====
-- The authentication keeps the connection's invariant, internal/gateway/handshake.go.
use mathlib.Core.Path.{subst}
use hdc_remote_kit.Base.{
  arith, ◌++◌, refl, none, if-holds, ◌≡◌, [], true, ◌==◌, inr, ◌∷◌, sym, false, ◌||◌, inl, bytes_eq,
  some, not, codes, Result-cases, Bytes,
}
use hdc_remote_kit.Gateway.Permission.{made, TokenMade, Inv, Safe, Permitted}
use hdc_remote_kit.Gateway.Permission.Lemmas.{
  any_authed_now, later-TokenMade, made_later, made_now, token-made, key-matches, vouched_later,
  phase-Inv, emit-Inv, and_then-Inv, audit-Inv, write_bytes-Inv, if-Inv,
}
use hdc_remote_kit.Protocol.Frame.{encode_channel_close}
use hdc_remote_kit.Protocol.Handshake.Replies.{
  encode_handshake_ok, encode_handshake_unauthorized, encode_handshake_public_key,
  encode_echo_and_close,
}
use hdc_remote_kit.Gateway.Connection.{
  audit_of, notified_old_client, audited, authed, phase_done, device_name, token_made,
  auth_rejected, emit, now, phase_wait_pubkey, audit, set_close_reason, Connection, World, Setup,
}
use hdc_remote_kit.Protocol.Handshake.{
  handshake_auth_signature, handshake_auth_public_key, handshake_auth_none,
  decode_session_handshake,
}
use hdc_remote_kit.Gateway.Hosts.Safety.{handle_auth_public_key-Inv, refuse-Inv}
use hdc_remote_kit.HostAuth.Identity.{is_sha512, parse_client_auth_type}
use hdc_remote_kit.HostAuth.Signature.{verify_challenge}
use hdc_remote_kit.Strings.{is_nil}
use hdc_remote_kit.Protocol.Handshake.Version.{client_version_too_old}
use hdc_remote_kit.Gateway.Handshake.{
  is_start, make_token, Option, SessionHandshake, reject_old_client, is_wait_signature, Frame,
  start_handshake, refuse_signature, old_client, invalid_handshake, handle_auth_signature,
  handle_auth_none, dispatch_handshake, decoded_handshake, accept_signature, handle_handshake,
}

module _ (setup : Setup) (w : World) where
  old_client-Inv :
      (frame : Frame) (handshake : SessionHandshake) (c : Connection)
      → Inv setup c
      → Inv setup (old_client setup w frame handshake c).1
  unfolding old_client reject_old_client Permitted
  old_client-Inv frame handshake c h =
      let d =
        set_close_reason (codes "version_too_old")
          (record (audit frame false (codes "client version too old") c) {
            auth_reject_reason = codes "client version too old";
          }) in
      let h' = audit-Inv setup frame false (codes "client version too old") c h in
      and_then-Inv setup _ (λ c'. (auth_rejected, c'))
        (write_bytes-Inv setup w
          (encode_handshake_unauthorized frame.channel_id handshake.version (device_name setup) (
            codes
              "[E000001]:The sdk hdc.exe version is too low, please upgrade to the latest version."))
          (reject_old_client setup handshake.version d)
          (if-holds (Inv setup) setup.has_hosts (emit (notified_old_client handshake.version) d) d
            (λ e. emit-Inv setup (notified_old_client handshake.version) d tt h') (λ e. h')))
        (λ c' k. k)

  start_handshake-Inv :
      (frame : Frame) (handshake : SessionHandshake) (token : Option Bytes) (c : Connection)
      → ((t : Bytes) → token ≡ some t → made t c.log ≡ true)
      → Inv setup c
      → Inv setup (start_handshake w frame handshake token c).1
  unfolding start_handshake is_wait_signature TokenMade
  start_handshake-Inv frame handshake none c m h = h
  start_handshake-Inv frame handshake (some token) c m h =
      let auth_type = parse_client_auth_type handshake.buffer in
      let d = record c {
        auth_type = auth_type;
        auth_token = token;
        handshake_version = handshake.version;
        auth_phase = phase_wait_pubkey;
      } in
      write_bytes-Inv setup w
        (encode_handshake_public_key frame.channel_id handshake.version (is_sha512 auth_type))
        (audit frame true [] d)
        (audit-Inv setup frame true [] d
          (phase-Inv setup c d refl refl refl (λ e. absurd cc) (inr (m token refl)) h.5 h))

  make_token-Inv :
      (frame : Frame) (handshake : SessionHandshake) (token : Option Bytes) (c : Connection)
      → Inv setup c
      → Inv setup (make_token w frame handshake token c).1
  unfolding make_token Permitted
  make_token-Inv frame handshake token c h =
      start_handshake-Inv frame handshake token (emit (token_made token) c)
        (λ t e'. subst (λ o. made t (token_made o ∷ c.log) ≡ true) (sym e') (made_now t c.log))
        (emit-Inv setup (token_made token) c tt h)

  handle_auth_none-Inv :
      (frame : Frame) (handshake : SessionHandshake) (c : Connection)
      → Inv setup c
      → Inv setup (handle_auth_none setup w frame handshake c).1
  unfolding handle_auth_none
  handle_auth_none-Inv frame handshake c h =
      if-Inv setup (not (is_start c.auth_phase)) _ _
        (λ e.
          refuse-Inv setup w frame (codes "handshake already started")
            (codes "HDC daemon handshake is already in progress.") c h)
        (λ e.
          if-Inv setup (client_version_too_old handshake.version) _ _
            (λ e. old_client-Inv frame handshake c h)
            (λ e.
              if-Inv setup (not setup.has_hosts) _ _
                (λ e.
                  refuse-Inv setup w frame (codes "host auth unavailable")
                    (codes "HDC host authentication is unavailable.") c h)
                (λ e. make_token-Inv frame handshake (w.challenge_token (now c)) c h)))

  -- The acceptance follows a verified signature of a host that is vouched for.
  accept_signature-Inv :
      (frame : Frame) (handshake : SessionHandshake) (c : Connection)
      → is_wait_signature c.auth_phase ≡ true
      → is_nil c.auth_token ≡ false
      → is_nil c.auth_identity.public_key ≡ false
      → verify_challenge setup.crypto c.auth_identity.public_key c.auth_token handshake.buffer
          c.auth_type
        ≡ true
      → Inv setup c
      → Inv setup (accept_signature setup w frame handshake c).1
  unfolding accept_signature is_wait_signature Permitted Safe
  accept_signature-Inv frame handshake c p n k v (safe, accepted, waiting, bounded, token, key) =
      let done = record c { auth_phase = phase_done; handshake_accepted = true } in
      let event = authed c.auth_identity c.auth_token handshake.buffer c.auth_type in
      let d = audit frame true (codes "auth ok") done in
      let seen = audited (audit_of frame true (codes "auth ok") done) in
      write_bytes-Inv setup w
        (encode_handshake_ok frame.channel_id handshake.version (device_name setup)
          ++ encode_channel_close frame.channel_id)
        (emit event d)
        (
          (
            (
              v,
              vouched_later setup c.auth_identity.fingerprint seen c.log (waiting p),
              made_later c.auth_token seen c.log (token-made c.auth_token c.log n token),
              key-matches setup c.auth_identity k key,
            ),
            (tt, safe),
          ),
          (λ e. any_authed_now c.auth_identity c.auth_token handshake.buffer c.auth_type d.log),
          (λ e. absurd cc),
          bounded,
          later-TokenMade c.auth_token event d.log (later-TokenMade c.auth_token seen c.log token),
          key,
        )

  refuse_signature-Inv :
      (frame : Frame) (c : Connection) → Inv setup c → Inv setup (refuse_signature w frame c).1
  unfolding refuse_signature
  refuse_signature-Inv frame c h =
      write_bytes-Inv setup w
        (encode_echo_and_close frame.channel_id
          (codes "[E000010]:Auth failed, cannt login the device."))
        (set_close_reason (codes "deny") (record (audit frame false (codes "signature failed") c) {
          auth_reject_reason = codes "signature failed";
        }))
        (audit-Inv setup frame false (codes "signature failed") c h)

  handle_auth_signature-Inv :
      (frame : Frame) (handshake : SessionHandshake) (c : Connection)
      → Inv setup c
      → Inv setup (handle_auth_signature setup w frame handshake c).1
  unfolding handle_auth_signature
  handle_auth_signature-Inv frame handshake c h =
      if-Inv setup
        (not (is_wait_signature c.auth_phase)
          || is_nil c.auth_token
          || is_nil c.auth_identity.public_key)
        _ _
        (λ e.
          refuse-Inv setup w frame (codes "unexpected signature")
            (codes "Invalid HDC daemon handshake.") c h)
        (λ e.
          if-Inv setup
            (verify_challenge setup.crypto c.auth_identity.public_key c.auth_token handshake.buffer
              c.auth_type)
            _ _
            (λ v.
              accept_signature-Inv frame handshake c (ground arith) (ground arith) (ground arith) v
                h)
            (λ v. refuse_signature-Inv frame c h))

  invalid_handshake-Inv :
      (frame : Frame) (c : Connection) → Inv setup c → Inv setup (invalid_handshake frame c).1
  unfolding invalid_handshake
  invalid_handshake-Inv frame c h =
      refuse-Inv setup w frame (codes "invalid handshake") (codes "Invalid HDC daemon handshake.") c
        h

  dispatch_handshake-Inv :
      (frame : Frame) (handshake : SessionHandshake) (c : Connection)
      → Inv setup c
      → Inv setup (dispatch_handshake setup w frame handshake c).1
  unfolding dispatch_handshake
  dispatch_handshake-Inv frame handshake c h =
      if-Inv setup (not (bytes_eq handshake.banner (codes "OHOS HDC"))) _ _
        (λ e. invalid_handshake-Inv frame c h)
        (λ e.
          if-Inv setup (handshake.auth_type == handshake_auth_none) _ _
            (λ e. handle_auth_none-Inv frame handshake c h)
            (λ e.
              if-Inv setup (handshake.auth_type == handshake_auth_public_key) _ _
                (λ e. handle_auth_public_key-Inv setup w frame handshake c h)
                (λ e.
                  if-Inv setup (handshake.auth_type == handshake_auth_signature) _ _
                    (λ e. handle_auth_signature-Inv frame handshake c h)
                    (λ e. invalid_handshake-Inv frame c h))))

  pub handle_handshake-Inv :
      (frame : Frame) (c : Connection)
      → Inv setup c
      → Inv setup (handle_handshake setup w frame c).1
  unfolding handle_handshake decoded_handshake
  handle_handshake-Inv frame c h = elim (Result-cases (decode_session_handshake frame.payload)) [
    | inl (handshake, e) ↦ rw e (dispatch_handshake-Inv frame handshake c h)
    | inr (problem, e) ↦ rw e (invalid_handshake-Inv frame c h)
  ]
