-- ===== src/Protocol/Frame.antt =====
-- Frames of internal/protocol/daemon.go: `decodeFrameHeader`, `(*Codec).ReadFrame`, `Decode`,
-- `EncodeFrame` and the replies built on it. A codec is its maxFrameBytes: a negative one acts as 0.
pub mod Laws
pub mod RoundTrip
pub mod Replies
use hdc_remote_kit.Base.{
  ℕ, zero, suc, ◌+◌, ◌-◌, ◌*◌, ◌/◌, ◌%◌, ◌^◌, List, [], ◌∷◌, ◌++◌, Bool, true, false, not, ◌&&◌,
  ◌||◌, Bytes, String, codes, Result, ok, err, ◌>>=◌, ◌>>◌, fail_if, length, take, drop, get_or,
  ltb, leb, ◌==◌, if◌then◌else◌, Option, none, some,
}
use hdc_remote_kit.Protocol.Commands.{kernel_echo_raw, kernel_channel_close}
use hdc_remote_kit.Protocol.Catalog.{lookup_command}
use hdc_remote_kit.Protocol.Cursor.{
  Error, invalid_header, unsupported_options, unsupported_version, invalid_size, unsupported_vcode,
  invalid_checksum, max_too_small, frame_size_invalid, stream_eof, stream_unexpected_eof,
}
use hdc_remote_kit.Protocol.Protect.{encode_protect, decode_protect, daemon_vcode}

abbrev pub daemon_header_bytes : ℕ
daemon_header_bytes = 11

abbrev pub daemon_protocol_version : ℕ
daemon_protocol_version = 0x01

abbrev pub channel_close_remaining_count : ℕ
channel_close_remaining_count = 1

-- `CommandName`: the catalogue's name, or `Unknown(n)`.
pub data CommandName : Type 0 where
  known : String → CommandName
  unknown : ℕ → CommandName

pub record Frame : Type 0 where
  pub channel_id : ℕ
  pub command_flag : ℕ
  pub command_name : CommandName
  pub check_sum : ℕ
  pub vcode : ℕ
  pub payload : Bytes

-- binary.BigEndian of the standard library.
abbrev put_uint16 : ℕ → Bytes
put_uint16 v = (v / 256 % 256) ∷ (v % 256) ∷ []

abbrev put_uint32 : ℕ → Bytes
put_uint32 v = (v / 2 ^ 24 % 256) ∷ (v / 2 ^ 16 % 256) ∷ (v / 256 % 256) ∷ (v % 256) ∷ []

abbrev uint16_at : Bytes → ℕ → ℕ
uint16_at b i = get_or b i 0 * 256 + get_or b (i + 1) 0

abbrev uint32_at : Bytes → ℕ → ℕ
uint32_at b i =
    get_or b i 0 * 2 ^ 24
    + get_or b (i + 1) 0 * 2 ^ 16
    + get_or b (i + 2) 0 * 256
    + get_or b (i + 3) 0

-- io.ReadFull of the standard library: the bytes asked for, and the rest of the stream.
pub read_full : ℕ → Bytes → Result Error (Bytes × Bytes)
read_full n stream =
    if leb n (length stream)
    then ok (take n stream, drop n stream)
    else err (if length stream == 0 then stream_eof else stream_unexpected_eof)

-- The sizes of the protect block and of the payload.
pub decode_frame_header : Bytes → Result Error (ℕ × ℕ)
decode_frame_header header = do
  fail_if
      (not (length header == daemon_header_bytes)
        || not (get_or header 0 0 == b'H')
        || not (get_or header 1 0 == b'W'))
      invalid_header
  fail_if (not (get_or header 2 0 == 0) || not (get_or header 3 0 == 0)) unsupported_options
  fail_if (not (get_or header 4 0 == daemon_protocol_version))
      (unsupported_version (get_or header 4 0))
  fail_if (uint16_at header 5 == 0) invalid_size
  ok (uint16_at header 5, uint32_at header 7)

-- `ReadFrame`: one frame's bytes, and the rest of the stream.
pub read_frame : ℕ → Bytes → Result Error (Bytes × Bytes)
read_frame max stream = do
  fail_if (leb max daemon_header_bytes) (max_too_small max)
  (header, rest) ← read_full daemon_header_bytes stream
  (protect_size, payload_size) ← decode_frame_header header
  fail_if (ltb (max - daemon_header_bytes) (protect_size + payload_size))
      (frame_size_invalid (protect_size + payload_size))
  (body, rest') ← read_full (protect_size + payload_size) rest
  ok (header ++ body, rest')

-- `checksum += value` on a uint8.
payload_checksum_loop : ℕ → Bytes → ℕ
payload_checksum_loop checksum [] = checksum
payload_checksum_loop checksum (value ∷ payload) =
    payload_checksum_loop ((checksum + value) % 256) payload

pub payload_checksum : Bytes → ℕ
payload_checksum payload = payload_checksum_loop 0 payload

pub command_name_of : ℕ → CommandName
command_name_of flag = elim (lookup_command flag) [
  | some descriptor ↦ known descriptor.name
  | none ↦ unknown flag
]

pub decode : ℕ → Bytes → Result Error Frame
decode max raw = do
  fail_if (ltb (length raw) daemon_header_bytes || ltb max (length raw)) invalid_size
  (protect_size, payload_size) ← decode_frame_header (take daemon_header_bytes raw)
  fail_if (not (daemon_header_bytes + protect_size + payload_size == length raw)) invalid_size
  protect ← decode_protect (take protect_size (drop daemon_header_bytes raw))
  fail_if (not (protect.vcode == daemon_vcode)) (unsupported_vcode protect.vcode)
  let payload = drop protect_size (drop daemon_header_bytes raw)
  fail_if (not (protect.check_sum == 0) && not (protect.check_sum == payload_checksum payload))
      invalid_checksum
  ok (record {
    channel_id = protect.channel_id;
    command_flag = protect.command_flag;
    command_name = command_name_of protect.command_flag;
    check_sum = protect.check_sum;
    vcode = protect.vcode;
    payload = payload;
  })

pub encode_frame_header : ℕ → ℕ → Bytes
encode_frame_header protect_size payload_size =
    b'H'
    ∷ b'W'
    ∷ 0
    ∷ 0
    ∷ daemon_protocol_version
    ∷ (put_uint16 protect_size ++ put_uint32 payload_size)

unfoldable pub encode_frame : ℕ → ℕ → Bytes → Bytes
encode_frame channel_id command_flag payload =
    let protect = encode_protect channel_id command_flag 0 in
    encode_frame_header (length protect) (length payload) ++ (protect ++ payload)

pub encode_echo_raw : ℕ → Bytes → Bytes
encode_echo_raw channel_id payload = encode_frame channel_id kernel_echo_raw payload

pub encode_channel_close : ℕ → Bytes
encode_channel_close channel_id =
    encode_frame channel_id kernel_channel_close (channel_close_remaining_count ∷ [])

-- `EncodeChannelCloseResponse`: nil is the empty frame.
pub encode_channel_close_response : ℕ → Bytes → Bytes
encode_channel_close_response channel_id [] = []
encode_channel_close_response channel_id (count ∷ request) =
    if count == 0 then [] else encode_frame channel_id kernel_channel_close ((count - 1) ∷ [])
