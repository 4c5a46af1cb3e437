-- ===== src/Tests/Messages.antt =====
-- A handshake, a transfer's configuration and a data frame.
use hdc_remote_kit.Protocol.Tlv.Items.{
  extract_tlv_value-encode_items, first_value, encode_items, Item,
}
use hdc_remote_kit.Base.{
  ◌∷◌, List, ◌≤◌, ◌+◌, ok, err, [], ◌≢◌, ◌≡◌, true, codes, length, arith, Bytes,
}
use hdc_remote_kit.Protocol.Tlv.{extract_tlv_value}
use hdc_remote_kit.Protocol.Transfer.Data.{decode_transfer_data_bounds, decode-encode_transfer_data}
use hdc_remote_kit.Protocol.Transfer.Config.{
  decode_transfer_config-ne-fuel, decode-encode_transfer_config,
}
use hdc_remote_kit.Protocol.Handshake.Laws.{
  decode_session_handshake-ne-fuel, decode-encode_session_handshake,
}
use hdc_remote_kit.Protocol.Transfer.{
  decode_transfer_data, transfer_payload_prefix_bytes, encode_transfer_data, encode_transfer_config,
  empty_config, decode_transfer_config, TransferPayload, TransferConfig,
}
use hdc_remote_kit.Protocol.Cursor.{out_of_fuel}
use hdc_remote_kit.Protocol.Handshake.{
  handshake_auth_ok, encode_session_handshake, decode_session_handshake, SessionHandshake,
}
use hdc_remote_kit.Protocol.Handshake.Laws
use hdc_remote_kit.Protocol.Transfer.Config
use hdc_remote_kit.Protocol.Transfer.Data

abbrev greeting : SessionHandshake
greeting = record {
  banner = codes "OHOS HDC";
  auth_type = handshake_auth_ok;
  session_id = 77;
  connect_key = codes "key";
  buffer = [];
  version = codes "Ver: 3.1";
}

greeting_fits : Laws.Fits greeting
greeting_fits = record {
  banner = omega arith;
  auth_type = omega arith;
  session_id = omega arith;
  connect_key = omega arith;
  buffer = omega arith;
  version = omega arith;
}

decode-encode_session_handshake_example :
    decode_session_handshake (encode_session_handshake greeting) ≡ ok greeting
decode-encode_session_handshake_example = decode-encode_session_handshake greeting greeting_fits

abbrev config : TransferConfig
config = record empty_config { file_size = 12; path = codes "/data/a"; update_if_new = true }

config_fits : Config.Fits config
config_fits = record {
  file_size = omega arith;
  atime = omega arith;
  mtime = omega arith;
  options = omega arith;
  path = omega arith;
  optional_name = omega arith;
  compression = omega arith;
  function_name = omega arith;
  client_cwd = omega arith;
  reserve1 = omega arith;
  reserve2 = omega arith;
}

decode-encode_transfer_config_example :
    decode_transfer_config (encode_transfer_config config) ≡ ok config
decode-encode_transfer_config_example = decode-encode_transfer_config config config_fits

decode_transfer_config-ne-fuel_example : decode_transfer_config (codes "hello") ≢ err out_of_fuel
decode_transfer_config-ne-fuel_example = decode_transfer_config-ne-fuel (codes "hello")

abbrev block : TransferPayload
block = record { index = 4096; compression = 0; compressed_size = 3; uncompressed_size = 3 }

block_fits : Data.Fits block
block_fits = record {
  index = omega arith;
  compression = omega arith;
  compressed_size = omega arith;
  uncompressed_size = omega arith;
}

decode-encode_transfer_data_example :
    (frame : Bytes) × (encode_transfer_data block (codes "abc") ≡ ok frame)
    × (decode_transfer_data frame 10 ≡ ok (block, codes "abc"))
decode-encode_transfer_data_example =
    decode-encode_transfer_data block (codes "abc") 10 block_fits (omega arith) (omega arith)

decode_transfer_data_bounds_example :
    (length (codes "abc") ≡ 3)
    × (transfer_payload_prefix_bytes + length (codes "abc")
        ≤ length
            (decode-encode_transfer_data block
              (codes "abc")
              10
              block_fits
              (omega arith)
              (omega arith)).0)
    × (3 ≤ 10)
decode_transfer_data_bounds_example =
    decode_transfer_data_bounds
      (decode-encode_transfer_data block (codes "abc") 10 block_fits (omega arith) (omega arith)).0
      10 block (codes "abc")
      (decode-encode_transfer_data block (codes "abc") 10 block_fits (omega arith) (omega arith)).2

abbrev items : List Item
items =
    record { tag = 7; value = codes "/data" }
    ∷ record { tag = 0; value = codes "ls" }
    ∷ record { tag = 0; value = codes "pwd" }
    ∷ []

extract_tlv_value-encode_items_example :
    extract_tlv_value (encode_items items) 0 ≡ first_value 0 items
extract_tlv_value-encode_items_example =
    extract_tlv_value-encode_items items 0
      ((omega arith, omega arith), ((omega arith, omega arith), ((omega arith, omega arith), tt)))
