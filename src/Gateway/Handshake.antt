-- ===== src/Gateway/Handshake.antt =====
-- The authentication of a connection, internal/gateway/handshake.go: NONE, PUBLICKEY, SIGNATURE
-- and OK.
pub mod Safety
use hdc_remote_kit.Base.{
  none, [], ◌++◌, ◌==◌, ◌||◌, some, ok, codes, bytes_eq, not, false, err, true, if◌then◌else◌,
  Option, Result, Bytes, Bool,
}
use hdc_remote_kit.Protocol.Handshake.{
  handshake_auth_signature, handshake_auth_public_key, handshake_auth_none,
  decode_session_handshake, SessionHandshake,
}
use hdc_remote_kit.Gateway.Connection.{
  phase_wait_pubkey, phase_done, authed, token_made, auth_rejected, now, audit, set_close_reason,
  device_name, phase_wait_signature, phase_start, notified_old_client, write_bytes, failed, emit,
  and_then, Outcome, Connection, World, Setup, Phase,
}
use hdc_remote_kit.Gateway.Hosts.{handle_auth_public_key, refuse}
use hdc_remote_kit.Protocol.Frame.{encode_channel_close, Frame}
use hdc_remote_kit.HostAuth.Identity.{is_sha512, parse_client_auth_type}
use hdc_remote_kit.Protocol.Handshake.Replies.{
  encode_handshake_public_key, encode_handshake_unauthorized, encode_handshake_ok,
  encode_echo_and_close,
}
use hdc_remote_kit.HostAuth.Signature.{verify_challenge}
use hdc_remote_kit.Strings.{is_nil}
use hdc_remote_kit.Protocol.Handshake.Version.{client_version_too_old}
use hdc_remote_kit.Protocol.Cursor.{Error}

start_handshake : World → Frame → SessionHandshake → Option Bytes → Connection → Outcome
start_handshake w frame handshake none c = (failed, c)
start_handshake w frame handshake (some token) c =
    let auth_type = parse_client_auth_type handshake.buffer in
    write_bytes w
      (encode_handshake_public_key frame.channel_id handshake.version (is_sha512 auth_type))
      (audit frame true [] (record c {
        auth_type = auth_type;
        auth_token = token;
        handshake_version = handshake.version;
        auth_phase = phase_wait_pubkey;
      }))

-- `rejectOldClient` notifies only a registry that is there.
reject_old_client : Setup → Bytes → Connection → Connection
reject_old_client setup version c =
    if setup.has_hosts then emit (notified_old_client version) c else c

old_client : Setup → World → Frame → SessionHandshake → Connection → Outcome
old_client setup w frame handshake c =
    and_then
      (write_bytes w
        (encode_handshake_unauthorized frame.channel_id handshake.version (device_name setup) (
          codes
            "[E000001]:The sdk hdc.exe version is too low, please upgrade to the latest version."))
        (reject_old_client setup handshake.version (
          set_close_reason (codes "version_too_old")
            (record (audit frame false (codes "client version too old") c) {
              auth_reject_reason = codes "client version too old";
            }))))
      (λ c'. (auth_rejected, c'))

is_start : Phase → Bool
is_start phase_start = true
is_start _ = false

-- `NewChallengeToken`, and the handshake from there on.
make_token : World → Frame → SessionHandshake → Option Bytes → Connection → Outcome
make_token w frame handshake token c =
    start_handshake w frame handshake token (emit (token_made token) c)

handle_auth_none : Setup → World → Frame → SessionHandshake → Connection → Outcome
handle_auth_none setup w frame handshake c =
    if not (is_start c.auth_phase)
    then refuse frame (codes "handshake already started")
        (codes "HDC daemon handshake is already in progress.") c
    else if client_version_too_old handshake.version
    then old_client setup w frame handshake c
    else if not setup.has_hosts
    then refuse frame (codes "host auth unavailable")
        (codes "HDC host authentication is unavailable.") c
    else make_token w frame handshake (w.challenge_token (now c)) c

accept_signature : Setup → World → Frame → SessionHandshake → Connection → Outcome
accept_signature setup w frame handshake c =
    write_bytes w
      (encode_handshake_ok frame.channel_id handshake.version (device_name setup)
        ++ encode_channel_close frame.channel_id)
      (emit (authed c.auth_identity c.auth_token handshake.buffer c.auth_type) (
        audit frame true (codes "auth ok")
          (record c { auth_phase = phase_done; handshake_accepted = true })))

refuse_signature : World → Frame → Connection → Outcome
refuse_signature w frame c =
    write_bytes w
      (encode_echo_and_close frame.channel_id
        (codes "[E000010]:Auth failed, cannt login the device."))
      (set_close_reason (codes "deny") (record (audit frame false (codes "signature failed") c) {
        auth_reject_reason = codes "signature failed";
      }))

unfoldable pub is_wait_signature : Phase → Bool
is_wait_signature phase_wait_signature = true
is_wait_signature _ = false

handle_auth_signature : Setup → World → Frame → SessionHandshake → Connection → Outcome
handle_auth_signature setup w frame handshake c =
    if not (is_wait_signature c.auth_phase)
      || is_nil c.auth_token
      || is_nil c.auth_identity.public_key
    then refuse frame (codes "unexpected signature") (codes "Invalid HDC daemon handshake.") c
    else if verify_challenge setup.crypto c.auth_identity.public_key c.auth_token handshake.buffer
        c.auth_type
    then accept_signature setup w frame handshake c
    else refuse_signature w frame c

invalid_handshake : Frame → Connection → Outcome
invalid_handshake frame c =
    refuse frame (codes "invalid handshake") (codes "Invalid HDC daemon handshake.") c

dispatch_handshake : Setup → World → Frame → SessionHandshake → Connection → Outcome
dispatch_handshake setup w frame handshake c =
    if not (bytes_eq handshake.banner (codes "OHOS HDC"))
    then invalid_handshake frame c
    else if handshake.auth_type == handshake_auth_none
    then handle_auth_none setup w frame handshake c
    else if handshake.auth_type == handshake_auth_public_key
    then handle_auth_public_key setup w frame handshake c
    else if handshake.auth_type == handshake_auth_signature
    then handle_auth_signature setup w frame handshake c
    else invalid_handshake frame c

decoded_handshake : Setup → World → Frame → Result Error SessionHandshake → Connection → Outcome
decoded_handshake setup w frame (err _) c = invalid_handshake frame c
decoded_handshake setup w frame (ok handshake) c = dispatch_handshake setup w frame handshake c

pub handle_handshake : Setup → World → Frame → Connection → Outcome
handle_handshake setup w frame c =
    decoded_handshake setup w frame (decode_session_handshake frame.payload) c
