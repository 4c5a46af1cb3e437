-- ===== src/Protocol/Handshake/Replies.antt =====
-- The daemon's replies in the handshake, internal/protocol/daemon.go.
use hdc_remote_kit.Protocol.Handshake.Tlv.{
  handshake_auth_type_sha512, handshake_tlv_auth_type, daemon_auth_success,
  daemon_auth_unauthorized, append_handshake_tlv, build_auth_status_tlv,
}
use hdc_remote_kit.Protocol.Frame.{encode_channel_close, encode_frame, encode_echo_raw}
use hdc_remote_kit.Base.{◌∷◌, ◌++◌, codes, [], if◌then◌else◌, Bool, ℕ, Bytes}
use hdc_remote_kit.Strings.{trim_space, or_default, is_blank}
use hdc_remote_kit.Protocol.Handshake.Version.{handshake_fallback_version}
use hdc_remote_kit.Protocol.Handshake.{
  encode_session_handshake, kernel_handshake, handshake_auth_public_key, handshake_auth_signature,
  handshake_auth_ok,
}
use hdc_remote_kit.Policy.Text.{has_prefix}

-- `handshakeVersion`.
pub handshake_version : Bytes → Bytes
handshake_version version = if is_blank version then handshake_fallback_version else version

pub encode_handshake_reply : ℕ → Bytes → ℕ → Bytes → Bytes
encode_handshake_reply channel_id version auth_type buffer =
    encode_frame channel_id kernel_handshake (
      encode_session_handshake (record {
        banner = codes "OHOS HDC";
        auth_type = auth_type;
        session_id = 0;
        connect_key = [];
        buffer = buffer;
        version = handshake_version version;
      }))

-- `EncodeHandshakeOK`, told the request's channel and version.
pub encode_handshake_ok : ℕ → Bytes → Bytes → Bytes
encode_handshake_ok channel_id version device_name =
    encode_handshake_reply channel_id (handshake_version version) handshake_auth_ok
      (build_auth_status_tlv device_name [] daemon_auth_success)

pub encode_handshake_public_key : ℕ → Bytes → Bool → Bytes
encode_handshake_public_key channel_id version support_sha512 =
    encode_handshake_reply channel_id (handshake_version version) handshake_auth_public_key (
      if support_sha512
      then append_handshake_tlv [] handshake_tlv_auth_type handshake_auth_type_sha512
      else [])

pub encode_handshake_signature_challenge : ℕ → Bytes → Bytes → Bytes
encode_handshake_signature_challenge channel_id version token =
    encode_handshake_reply channel_id (handshake_version version) handshake_auth_signature token

pub encode_handshake_unauthorized : ℕ → Bytes → Bytes → Bytes → Bytes
encode_handshake_unauthorized channel_id version device_name message =
    encode_handshake_reply channel_id (handshake_version version) handshake_auth_ok
      (build_auth_status_tlv device_name message daemon_auth_unauthorized)
    ++ encode_channel_close channel_id

-- The text of `EncodeEchoAndClose`.
fail_text : Bytes → Bytes
fail_text message =
    if has_prefix message (codes "[Fail]") then message else codes "[Fail] " ++ message

pub encode_echo_and_close : ℕ → Bytes → Bytes
encode_echo_and_close channel_id message =
    encode_echo_raw channel_id (
      fail_text (or_default (trim_space message) (codes "[Fail] Command is not supported."))
      ++ 10 ∷ [])
    ++ encode_channel_close channel_id
