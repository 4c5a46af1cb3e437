-- ===== src/Protocol/Protect.antt =====
-- `encodeProtect` and `decodeProtect` of internal/protocol/daemon.go: the four numbers in front of
-- a frame's payload.
pub mod Laws
use hdc_remote_kit.Base.{
  ℕ, ◌^◌, Bool, true, false, [], Bytes, Result, ok, err, ◌>>=◌, ◌>>◌, fail_if, leb, ◌==◌,
  if◌then◌else◌, not,
}
use hdc_remote_kit.Protocol.Cursor.{
  Error, channel_out_of_range, command_out_of_range, checksum_out_of_range, vcode_out_of_range,
  command_missing, varint, skip, append_varint_field, FieldStep, read_fields,
}

abbrev pub daemon_vcode : ℕ
daemon_vcode = 0x09

pub record PayloadProtect : Type 0 where
  pub channel_id : ℕ
  pub command_flag : ℕ
  pub check_sum : ℕ
  pub vcode : ℕ

-- The variables of `decodeProtect`: `result` and `commandSeen`.
pub record ProtectState : Type 0 where
  pub result : PayloadProtect
  pub command_seen : Bool

abbrev pub start : ProtectState
start = record {
  result = record { channel_id = 0; command_flag = 0; check_sum = 0; vcode = 0 };
  command_seen = false;
}

pub encode_protect : ℕ → ℕ → ℕ → Bytes
encode_protect channel_id command_flag checksum =
    append_varint_field
      (append_varint_field
        (append_varint_field (append_varint_field [] 1 channel_id) 2 command_flag) 3 checksum)
      4 daemon_vcode

-- The switch on the field number. A field that it does not name is read and dropped.
set_field : ProtectState → ℕ → ℕ → Result Error ProtectState
set_field s field value =
    let r = s.result in
    if field == 1
    then (if leb (2 ^ 32) value
        then err (channel_out_of_range value)
        else ok (record s { result = record r { channel_id = value } }))
    else if field == 2
    then (if leb (2 ^ 32) value
        then err (command_out_of_range value)
        else ok (record { result = record r { command_flag = value }; command_seen = true }))
    else if field == 3
    then (if leb (2 ^ 8) value
        then err (checksum_out_of_range value)
        else ok (record s { result = record r { check_sum = value } }))
    else if field == 4
    then (if leb (2 ^ 8) value
        then err (vcode_out_of_range value)
        else ok (record s { result = record r { vcode = value } }))
    else ok s

-- One round of the loop: a field of another wire type is skipped.
protect_step : FieldStep ProtectState
protect_step s field wire c =
    if wire == 0
    then (do (value, c') ← varint c; s' ← set_field s field value; ok (s', c'))
    else (do c' ← skip wire c; ok (s, c'))

pub decode_protect : Bytes → Result Error PayloadProtect
decode_protect payload = do
  s ← read_fields (λ _. false) protect_step start payload
  fail_if (not s.command_seen) command_missing
  ok s.result
