-- ===== src/Protocol/Cursor.antt =====
-- The cursor over a protobuf message of internal/protocol/daemon.go, the appenders of its fields,
-- and the loop `for cursor.remaining()` that the four message decoders share. A cursor is the
-- list of its unread bytes; a method that advances it returns the new one.
pub mod Fields
pub mod Loop
pub mod Rounds
pub mod Tame
use hdc_remote_kit.Base.{
  ℕ, zero, suc, ◌*◌, ◌+◌, ◌/◌, ◌%◌, List, [], ◌∷◌, ◌++◌, Bool, true, false, Bytes, Result, ok, err,
  ◌>>=◌, ◌>>◌, fail_if, length, take, drop, ltb, ◌==◌, if◌then◌else◌,
}
use hdc_remote_kit.Protocol.Varint.{VarintError, append_uvarint, read_uvarint}

-- The errors of internal/protocol, one for each message text. `out_of_fuel` is none of them: a
-- decoder's loop would return it if its fuel ran out.
pub data Error : Type 0 where
  read_varint : VarintError → Error
  unexpected_varint_wire unexpected_string_wire unsupported_wire : ℕ → Error
  truncated_string truncated_field : Error
  channel_out_of_range command_out_of_range checksum_out_of_range vcode_out_of_range : ℕ → Error
  command_missing : Error
  invalid_header unsupported_options invalid_size invalid_checksum : Error
  unsupported_version unsupported_vcode max_too_small frame_size_invalid : ℕ → Error
  stream_eof stream_unexpected_eof : Error
  auth_type_out_of_range session_out_of_range : ℕ → Error
  compression_out_of_range uint32_out_of_range : ℕ → Error
  transfer_field : ℕ → Error → Error
  data_size_mismatch header_too_large : ℕ → Error
  shorter_than_prefix : Error
  compressed_exceeds uncompressed_exceeds : ℕ → ℕ → Error
  out_of_fuel : Error

-- `(*cursor).varint`.
pub varint : Bytes → Result Error (ℕ × Bytes)
varint c = elim (read_uvarint c) [ ok r ↦ ok r | err e ↦ err (read_varint e) ]

-- `(*cursor).varintValue`.
unfoldable pub varint_value : ℕ → Bytes → Result Error (ℕ × Bytes)
varint_value wire c = if wire == 0 then varint c else err (unexpected_varint_wire wire)

-- `(*cursor).stringValue`.
unfoldable pub string_value : ℕ → Bytes → Result Error (Bytes × Bytes)
string_value wire c =
    if wire == 2
    then (do
      (size, c') ← varint c
      fail_if (ltb (length c') size) truncated_string
      ok (take size c', drop size c'))
    else err (unexpected_string_wire wire)

-- The end of `(*cursor).skip`: the test against the unread bytes, and the Seek.
skip_bytes : ℕ → Bytes → Result Error Bytes
skip_bytes size c = if ltb (length c) size then err truncated_field else ok (drop size c)

-- `(*cursor).skip`.
unfoldable pub skip : ℕ → Bytes → Result Error Bytes
unfolding skip_bytes
skip wire c =
    if wire == 0
    then (do (value, c') ← varint c; ok c')
    else if wire == 1
    then skip_bytes 8 c
    else if wire == 2
    then (do (size, c') ← varint c; skip_bytes size c')
    else if wire == 5
    then skip_bytes 4 c
    else err (unsupported_wire wire)

-- `appendVarintField`.
unfoldable pub append_varint_field : Bytes → ℕ → ℕ → Bytes
append_varint_field target field value = append_uvarint (append_uvarint target (field * 8)) value

-- `appendStringField`.
unfoldable pub append_string_field : Bytes → ℕ → Bytes → Bytes
append_string_field target field value =
    append_uvarint (append_uvarint target (field * 8 + 2)) (length value) ++ value

-- What a decoder's loop does with one field: state, field number, wire type and cursor to the new
-- state and cursor.
abbrev pub FieldStep : Type 0 → Type 0
FieldStep S = S → ℕ → ℕ → Bytes → Result Error (S × Bytes)

-- `for cursor.remaining() { key := varint; field, wire := key>>3, key&7; … }`. `stops key` is the
-- test after which the loop breaks: `key == 0` in a transfer message, never in the others.
unfoldable pub read_fields_loop :
    {S : Type 0} → (ℕ → Bool) → FieldStep S → ℕ → S → Bytes → Result Error S
read_fields_loop stops step fuel s [] = ok s
read_fields_loop stops step zero s (b ∷ c) = err out_of_fuel
read_fields_loop stops step (suc fuel) s (b ∷ c) = do
  (key, c') ← varint (b ∷ c)
  if stops key
      then ok s
      else (do (s', c'') ← step s (key / 8) (key % 8) c'; read_fields_loop stops step fuel s' c'')

-- A round takes a byte at least, so as many rounds as bytes are enough.
pub read_fields : {S : Type 0} → (ℕ → Bool) → FieldStep S → S → Bytes → Result Error S
read_fields stops step s c = read_fields_loop stops step (length c) s c
