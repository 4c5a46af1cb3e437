-- ===== src/Protocol/Transfer.antt =====
-- internal/protocol/transfer.go: the metadata of a file or app transfer, the 64-byte prefix of a
-- data frame, and the data frame itself.
pub mod Config
pub mod Data
use hdc_remote_kit.Base.{
  ℕ, ◌+◌, ◌-◌, ◌*◌, ◌^◌, [], ◌∷◌, ◌++◌, Bool, true, false, not, Bytes, Result, ok, err, ◌>>=◌, ◌>>◌,
  fail_if, leb, ltb, ◌==◌, if◌then◌else◌, length, take, drop, replicate,
}
use hdc_remote_kit.Protocol.Cursor.{
  Error, transfer_field, compression_out_of_range, uint32_out_of_range, data_size_mismatch,
  header_too_large, shorter_than_prefix, compressed_exceeds, uncompressed_exceeds, varint_value,
  string_value, skip, append_varint_field, append_string_field, FieldStep, read_fields,
}

abbrev pub transfer_payload_prefix_bytes : ℕ
transfer_payload_prefix_bytes = 64

abbrev pub compression_none : ℕ
compression_none = 0

pub record TransferConfig : Type 0 where
  pub file_size : ℕ
  pub atime : ℕ
  pub mtime : ℕ
  pub options : Bytes
  pub path : Bytes
  pub optional_name : Bytes
  pub update_if_new : Bool
  pub compression : ℕ
  pub hold_timestamp : Bool
  pub function_name : Bytes
  pub client_cwd : Bytes
  pub reserve1 : Bytes
  pub reserve2 : Bytes

abbrev pub empty_config : TransferConfig
empty_config = record {
  file_size = 0;
  atime = 0;
  mtime = 0;
  options = [];
  path = [];
  optional_name = [];
  update_if_new = false;
  compression = 0;
  hold_timestamp = false;
  function_name = [];
  client_cwd = [];
  reserve1 = [];
  reserve2 = [];
}

pub record TransferPayload : Type 0 where
  pub index : ℕ
  pub compression : ℕ
  pub compressed_size : ℕ
  pub uncompressed_size : ℕ

abbrev pub empty_payload : TransferPayload
empty_payload = record { index = 0; compression = 0; compressed_size = 0; uncompressed_size = 0 }

abbrev pub bool_number : Bool → ℕ
bool_number true = 1
bool_number false = 0

unfoldable pub append_bool_field : Bytes → ℕ → Bool → Bytes
append_bool_field target field true = append_varint_field target field 1
append_bool_field target field false = append_varint_field target field 0

pub read_bool : ℕ → Bytes → Result Error (Bool × Bytes)
read_bool wire c = do (value, c') ← varint_value wire c; ok (not (value == 0), c')

pub read_compression_type : ℕ → Bytes → Result Error (ℕ × Bytes)
read_compression_type wire c = do
  (value, c') ← varint_value wire c
  if leb (2 ^ 8) value then err (compression_out_of_range value) else ok (value, c')

pub read_uint32 : ℕ → Bytes → Result Error (ℕ × Bytes)
read_uint32 wire c = do
  (value, c') ← varint_value wire c
  if leb (2 ^ 32) value then err (uint32_out_of_range value) else ok (value, c')

pub encode_transfer_config : TransferConfig → Bytes
encode_transfer_config config =
    let r1 = append_varint_field [] 1 config.file_size in
    let r2 = append_varint_field r1 2 config.atime in
    let r3 = append_varint_field r2 3 config.mtime in
    let r4 = append_string_field r3 4 config.options in
    let r5 = append_string_field r4 5 config.path in
    let r6 = append_string_field r5 6 config.optional_name in
    let r7 = append_bool_field r6 7 config.update_if_new in
    let r8 = append_varint_field r7 8 config.compression in
    let r9 = append_bool_field r8 9 config.hold_timestamp in
    let r10 = append_string_field r9 10 config.function_name in
    let r11 = append_string_field r10 11 config.client_cwd in
    let r12 = append_string_field r11 12 config.reserve1 in
    append_string_field r12 13 config.reserve2

-- The wrapping of a field's error by the loops of this file.
pub in_field : {A : Type 0} → ℕ → Result Error A → Result Error A
in_field field (ok a) = ok a
in_field field (err e) = err (transfer_field field e)

-- The numbers of a TransferConfig, fields 1 to 3, 7 to 9; any other field is skipped.
config_number : FieldStep TransferConfig
config_number k field wire c =
    if field == 1
    then (do (value, c') ← varint_value wire c; ok (record k { file_size = value }, c'))
    else if field == 2
    then (do (value, c') ← varint_value wire c; ok (record k { atime = value }, c'))
    else if field == 3
    then (do (value, c') ← varint_value wire c; ok (record k { mtime = value }, c'))
    else if field == 7
    then (do (value, c') ← read_bool wire c; ok (record k { update_if_new = value }, c'))
    else if field == 8
    then (do (value, c') ← read_compression_type wire c; ok (record k { compression = value }, c'))
    else if field == 9
    then (do (value, c') ← read_bool wire c; ok (record k { hold_timestamp = value }, c'))
    else (do c' ← skip wire c; ok (k, c'))

-- Its texts, fields 4 to 6 and 10 to 13; the rest is `config_number`.
config_field : FieldStep TransferConfig
config_field k field wire c =
    if field == 4
    then (do (value, c') ← string_value wire c; ok (record k { options = value }, c'))
    else if field == 5
    then (do (value, c') ← string_value wire c; ok (record k { path = value }, c'))
    else if field == 6
    then (do (value, c') ← string_value wire c; ok (record k { optional_name = value }, c'))
    else if field == 10
    then (do (value, c') ← string_value wire c; ok (record k { function_name = value }, c'))
    else if field == 11
    then (do (value, c') ← string_value wire c; ok (record k { client_cwd = value }, c'))
    else if field == 12
    then (do (value, c') ← string_value wire c; ok (record k { reserve1 = value }, c'))
    else if field == 13
    then (do (value, c') ← string_value wire c; ok (record k { reserve2 = value }, c'))
    else config_number k field wire c

pub config_step : FieldStep TransferConfig
config_step k field wire c = in_field field (config_field k field wire c)

-- `nextTransferField` stops at key 0.
abbrev pub stops_at_zero : ℕ → Bool
stops_at_zero key = key == 0

pub decode_transfer_config : Bytes → Result Error TransferConfig
decode_transfer_config payload = read_fields stops_at_zero config_step empty_config payload

pub encode_transfer_payload : TransferPayload → Bytes
encode_transfer_payload p =
    let r1 = append_varint_field [] 1 p.index in
    let r2 = append_varint_field r1 2 p.compression in
    let r3 = append_varint_field r2 3 p.compressed_size in
    append_varint_field r3 4 p.uncompressed_size

pub payload_field : FieldStep TransferPayload
payload_field p field wire c =
    if field == 1
    then (do (value, c') ← varint_value wire c; ok (record p { index = value }, c'))
    else if field == 2
    then (do (value, c') ← read_compression_type wire c; ok (record p { compression = value }, c'))
    else if field == 3
    then (do (value, c') ← read_uint32 wire c; ok (record p { compressed_size = value }, c'))
    else if field == 4
    then (do (value, c') ← read_uint32 wire c; ok (record p { uncompressed_size = value }, c'))
    else (do c' ← skip wire c; ok (p, c'))

pub payload_step : FieldStep TransferPayload
payload_step p field wire c = in_field field (payload_field p field wire c)

pub decode_transfer_payload : Bytes → Result Error TransferPayload
decode_transfer_payload payload = read_fields stops_at_zero payload_step empty_payload payload

-- The header, zeros up to 64 bytes, and the data.
pub encode_transfer_data : TransferPayload → Bytes → Result Error Bytes
encode_transfer_data header bytes = do
  fail_if (not (length bytes == header.compressed_size)) (data_size_mismatch (length bytes))
  let serialized = encode_transfer_payload header
  fail_if (ltb transfer_payload_prefix_bytes (length serialized + 1))
      (header_too_large (length serialized))
  ok (serialized ++ (replicate (transfer_payload_prefix_bytes - length serialized) 0 ++ bytes))

-- The rest of `DecodeTransferData` once the header is read, behind a prefix of `n` bytes.
data_after : ℕ → Bytes → ℕ → TransferPayload → Result Error (TransferPayload × Bytes)
data_after n payload max_uncompressed_bytes header = do
  let available = length payload - n
  fail_if (ltb available header.compressed_size)
      (compressed_exceeds header.compressed_size available)
  fail_if (ltb max_uncompressed_bytes header.uncompressed_size)
      (uncompressed_exceeds header.uncompressed_size max_uncompressed_bytes)
  ok (header, take header.compressed_size (drop n payload))

pub decode_transfer_data : Bytes → ℕ → Result Error (TransferPayload × Bytes)
decode_transfer_data payload max_uncompressed_bytes = do
  fail_if (ltb (length payload) transfer_payload_prefix_bytes) shorter_than_prefix
  header ← decode_transfer_payload (take transfer_payload_prefix_bytes payload)
  data_after transfer_payload_prefix_bytes payload max_uncompressed_bytes header
