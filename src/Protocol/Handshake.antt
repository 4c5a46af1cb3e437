-- ===== src/Protocol/Handshake.antt =====
-- The session handshake message of internal/protocol/daemon.go: `encodeSessionHandshake`,
-- `DecodeSessionHandshake` and `EncodeSessionHandshake`. Texts are byte lists.
pub mod Laws
pub mod Tlv
pub mod Version
pub mod Replies
use hdc_remote_kit.Base.{
  ℕ, ◌+◌, ◌*◌, ◌^◌, [], ◌++◌, Bool, true, false, Bytes, codes, Result, ok, err, ◌>>=◌, leb, ◌==◌,
  if◌then◌else◌,
}
use hdc_remote_kit.Protocol.Commands.{kernel_handshake}
use hdc_remote_kit.Protocol.Cursor.{
  Error, auth_type_out_of_range, session_out_of_range, varint_value, string_value, skip,
  append_varint_field, append_string_field, FieldStep, read_fields,
}
use hdc_remote_kit.Protocol.Frame.{encode_frame}

abbrev pub handshake_auth_none : ℕ
handshake_auth_none = 0

abbrev pub handshake_auth_signature : ℕ
handshake_auth_signature = 2

abbrev pub handshake_auth_public_key : ℕ
handshake_auth_public_key = 3

abbrev pub handshake_auth_ok : ℕ
handshake_auth_ok = 4

pub record SessionHandshake : Type 0 where
  pub banner : Bytes
  pub auth_type : ℕ
  pub session_id : ℕ
  pub connect_key : Bytes
  pub buffer : Bytes
  pub version : Bytes

abbrev pub empty_handshake : SessionHandshake
empty_handshake = record {
  banner = [];
  auth_type = 0;
  session_id = 0;
  connect_key = [];
  buffer = [];
  version = [];
}

pub encode_session_handshake : SessionHandshake → Bytes
encode_session_handshake h =
    append_string_field
      (append_string_field
        (append_string_field
          (append_varint_field
            (append_varint_field (append_string_field [] 1 h.banner) 2 h.auth_type) 3 h.session_id)
          4 h.connect_key)
        5 h.buffer)
      6 h.version

-- The switch on the field number.
handshake_step : FieldStep SessionHandshake
handshake_step h field wire c =
    if field == 1
    then (do (value, c') ← string_value wire c; ok (record h { banner = value }, c'))
    else if field == 2
    then (do
      (value, c') ← varint_value wire c
      if leb (2 ^ 8) value
          then err (auth_type_out_of_range value)
          else ok (record h { auth_type = value }, c'))
    else if field == 3
    then (do
      (value, c') ← varint_value wire c
      if leb (2 ^ 32) value
          then err (session_out_of_range value)
          else ok (record h { session_id = value }, c'))
    else if field == 4
    then (do (value, c') ← string_value wire c; ok (record h { connect_key = value }, c'))
    else if field == 5
    then (do (value, c') ← string_value wire c; ok (record h { buffer = value }, c'))
    else if field == 6
    then (do (value, c') ← string_value wire c; ok (record h { version = value }, c'))
    else (do c' ← skip wire c; ok (h, c'))

pub decode_session_handshake : Bytes → Result Error SessionHandshake
decode_session_handshake payload = read_fields (λ _. false) handshake_step empty_handshake payload

pub encode_session_handshake_frame : ℕ → SessionHandshake → Bytes
encode_session_handshake_frame channel_id handshake =
    encode_frame channel_id kernel_handshake (encode_session_handshake handshake)
