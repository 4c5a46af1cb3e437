-- ===== src/Tests/Frames.antt =====
-- Frames of a few bytes.
use hdc_remote_kit.Protocol.Frame.Replies.{channel_close_handshake, close_frame}
use hdc_remote_kit.Base.{
  [], ◌∷◌, ◌⊎◌, ◌≤◌, ◌<◌, length, arith, ◌++◌, take, ok, not, err, ◌≢◌, ◌≡◌, codes, Bytes,
}
use hdc_remote_kit.Protocol.Protect.Laws.{length-encode_protect}
use hdc_remote_kit.Protocol.Frame.{
  encode_channel_close_response, payload_checksum, daemon_header_bytes, command_name_of,
  encode_channel_close, read_frame, encode_frame, decode, Frame,
}
use hdc_remote_kit.Protocol.Frame.RoundTrip.{
  length-encode_frame, read_frame-encode_frame, decode-encode_frame,
}
use hdc_remote_kit.Protocol.Frame.Laws.{decode_sound, read_frame_bounds, decode-ne-fuel}
use hdc_remote_kit.Protocol.Varint.{IsU32}
use hdc_remote_kit.Policy.Inspect.Frames.{inspect_frame_denies, is_dangerous}
use hdc_remote_kit.Protocol.Cursor.{out_of_fuel}
use hdc_remote_kit.Protocol.Protect.{daemon_vcode}
use hdc_remote_kit.Protocol.Commands.{unity_execute}
use hdc_remote_kit.Policy.Inspect.{inspect_frame}

abbrev hello : Bytes
hello = codes "hello"

hello_fits : length (encode_frame 7 unity_execute hello) ≤ 512
hello_fits =
    omega
      (arith, length-encode_frame 7 unity_execute hello, length-encode_protect 7 unity_execute 0)

abbrev hello_frame : Frame
hello_frame = record {
  channel_id = 7;
  command_flag = unity_execute;
  command_name = command_name_of unity_execute;
  check_sum = 0;
  vcode = daemon_vcode;
  payload = hello;
}

decode-encode_frame_example : decode 512 (encode_frame 7 unity_execute hello) ≡ ok hello_frame
decode-encode_frame_example =
    decode-encode_frame 512 7 unity_execute hello (omega arith) (omega arith) (omega arith)
      hello_fits

read_frame-encode_frame_example :
    read_frame 512 (encode_frame 7 unity_execute hello ++ hello)
    ≡ ok (encode_frame 7 unity_execute hello, hello)
read_frame-encode_frame_example =
    read_frame-encode_frame 512 7 unity_execute hello hello (omega arith) hello_fits

read_frame_bounds_example :
    (encode_frame 7 unity_execute hello ++ hello ≡ encode_frame 7 unity_execute hello ++ hello)
    × (daemon_header_bytes < length (encode_frame 7 unity_execute hello))
    × (length (encode_frame 7 unity_execute hello) ≤ 512)
read_frame_bounds_example =
    read_frame_bounds 512 (encode_frame 7 unity_execute hello ++ hello)
      (encode_frame 7 unity_execute hello) hello
      (read_frame-encode_frame 512 7 unity_execute hello hello (omega arith) hello_fits)

decode_sound_example :
    (block : Bytes) × (encode_frame 7 unity_execute hello
      ≡ take daemon_header_bytes (encode_frame 7 unity_execute hello) ++ (block ++ hello))
    × (length (encode_frame 7 unity_execute hello) ≤ 512)
    × IsU32 7
    × IsU32 unity_execute
    × (daemon_vcode ≡ daemon_vcode)
    × ((hello_frame.check_sum ≡ 0) ⊎ (hello_frame.check_sum ≡ payload_checksum hello))
decode_sound_example = decode_sound 512 (encode_frame 7 unity_execute hello) hello_frame (
    decode-encode_frame 512 7 unity_execute hello (omega arith) (omega arith) (omega arith)
      hello_fits)

decode-ne-fuel_example : decode 512 hello ≢ err out_of_fuel
decode-ne-fuel_example = decode-ne-fuel 512 hello

channel_close_handshake_example :
    (decode 512 (encode_channel_close 9) ≡ ok (close_frame 9 1))
    × (decode 512 (encode_channel_close_response 9 (1 ∷ [])) ≡ ok (close_frame 9 0))
    × (encode_channel_close_response 9 (close_frame 9 0).payload ≡ [])
channel_close_handshake_example = channel_close_handshake 512 9 0 [] (omega arith) (omega arith)

inspect_frame_denies_example : (inspect_frame 4003).allowed ≡ not (is_dangerous 4003)
inspect_frame_denies_example = inspect_frame_denies 4003
