-- ===== src/Protocol/Frame/RoundTrip.antt =====
-- `EncodeFrame`, `ReadFrame` and `Decode` of internal/protocol/daemon.go, one after the other.
use hdc_remote_kit.Protocol.Frame.{
  decode_protect, daemon_header_bytes, Frame, encode_frame, encode_frame_header,
  decode_frame_header, read_full, read_frame, decode, command_name_of,
}
use hdc_remote_kit.Base.{
  drop-append_eq, take-append_eq, append_assoc, length-append, le→leb, ℕ, ◌+◌, ◌*◌, ◌/◌, ◌%◌, ◌^◌,
  ◌≤◌, ◌<◌, ◌≡◌, refl, ◌++◌, Bytes, ok, length, arith,
}
use hdc_remote_kit.Protocol.Protect.{PayloadProtect, encode_protect, daemon_vcode}
use hdc_remote_kit.Protocol.Varint.{IsU32}
use hdc_remote_kit.Protocol.Protect.Laws.{length-encode_protect, decode_protect-encode_protect}

decode_frame_header-encode :
    (protect_size payload_size : ℕ)
    → 0 < protect_size
    → protect_size < 2 ^ 16
    → payload_size < 2 ^ 32
    → decode_frame_header (encode_frame_header protect_size payload_size)
      ≡ ok (protect_size, payload_size)
unfolding decode_frame_header encode_frame_header
decode_frame_header-encode p q hp hp' hq =
    let two : p / 256 % 256 * 256 + p % 256 ≡ p = omega arith in
    let four : q / 2 ^ 24 % 256 * 2 ^ 24 + q / 2 ^ 16 % 256 * 2 ^ 16 + q / 256 % 256 * 256 + q % 256
        ≡ q =
      omega arith in
    rw (two, four) (ground arith)

read_full-append :
    (n : ℕ) (xs rest : Bytes) → length xs ≡ n → read_full n (xs ++ rest) ≡ ok (xs, rest)
unfolding read_full
read_full-append n xs rest e = rw (
  le→leb n (length (xs ++ rest)) (omega (arith, length-append xs rest)),
  take-append_eq n xs rest e,
  drop-append_eq n xs rest e,
)

-- A stream that begins with a header and the body that it announces.
read_frame_parts :
    (max p q : ℕ) (header body rest : Bytes)
    → length header ≡ daemon_header_bytes
    → decode_frame_header header ≡ ok (p, q)
    → length body ≡ p + q
    → daemon_header_bytes + (p + q) ≤ max
    → 0 < p
    → read_frame max (header ++ (body ++ rest)) ≡ ok (header ++ body, rest)
unfolding read_frame
read_frame_parts max p q header body rest hh hd hb hm hp = ground (
  arith,
  read_full-append daemon_header_bytes header (body ++ rest),
  read_full-append (p + q) body rest,
)

length-encode_frame_header : (p q : ℕ) → length (encode_frame_header p q) ≡ daemon_header_bytes
unfolding encode_frame_header
length-encode_frame_header p q = refl

pub length-encode_frame :
    (ch cmd : ℕ) (payload : Bytes)
    → length (encode_frame ch cmd payload)
      ≡ daemon_header_bytes + (length (encode_protect ch cmd 0) + length payload)
unfolding encode_frame
length-encode_frame ch cmd payload =
    let protect = encode_protect ch cmd 0 in
    let header = encode_frame_header (length protect) (length payload) in
    omega (
      arith,
      length-append header (protect ++ payload),
      length-append protect payload,
      length-encode_frame_header (length protect) (length payload),
    )

-- Reading from a stream that begins with an encoded frame of at most the codec's limit, with a
-- payload shorter than 2 ^ 32 bytes, takes off exactly that frame and leaves what follows.
pub read_frame-encode_frame :
    (max channel_id command_flag : ℕ) (payload rest : Bytes)
    → length payload < 2 ^ 32
    → length (encode_frame channel_id command_flag payload) ≤ max
    → read_frame max (encode_frame channel_id command_flag payload ++ rest)
      ≡ ok (encode_frame channel_id command_flag payload, rest)
unfolding encode_frame
read_frame-encode_frame max ch cmd payload rest hl hm =
    let protect = encode_protect ch cmd 0 in
    let header = encode_frame_header (length protect) (length payload) in
    let (some_bytes, few) = length-encode_protect ch cmd 0 in
    rw (append_assoc header (protect ++ payload) rest) (
      read_frame_parts max (length protect) (length payload) header (protect ++ payload) rest
        (length-encode_frame_header _ _)
        (decode_frame_header-encode _ _ some_bytes (omega arith) hl) (length-append protect payload)
        (omega (arith, length-encode_frame ch cmd payload)) some_bytes)

abbrev frame_of : PayloadProtect → Bytes → Frame
frame_of protect payload = record {
  channel_id = protect.channel_id;
  command_flag = protect.command_flag;
  command_name = command_name_of protect.command_flag;
  check_sum = protect.check_sum;
  vcode = protect.vcode;
  payload = payload;
}

decode_parts :
    (max p q : ℕ) (header block payload : Bytes) (protect : PayloadProtect)
    → length header ≡ daemon_header_bytes
    → decode_frame_header header ≡ ok (p, q)
    → length block ≡ p
    → length payload ≡ q
    → daemon_header_bytes + (p + q) ≤ max
    → decode_protect block ≡ ok protect
    → protect.vcode ≡ daemon_vcode
    → protect.check_sum ≡ 0
    → decode max (header ++ (block ++ payload)) ≡ ok (frame_of protect payload)
unfolding decode
decode_parts max p q header block payload protect hh hd hb hp hm e hv hs = ground (
  arith,
  length-append header (block ++ payload),
  length-append block payload,
  take-append_eq daemon_header_bytes header (block ++ payload) hh,
  drop-append_eq daemon_header_bytes header (block ++ payload) hh,
  take-append_eq p block payload hb,
  drop-append_eq p block payload hb,
)

-- Decoding an encoded frame that fits the codec's limit gives back its channel, command and
-- payload, for every channel and command of 32 bits and every payload shorter than 2 ^ 32 bytes.
pub decode-encode_frame :
    (max channel_id command_flag : ℕ) (payload : Bytes)
    → IsU32 channel_id
    → IsU32 command_flag
    → length payload < 2 ^ 32
    → length (encode_frame channel_id command_flag payload) ≤ max
    → decode max (encode_frame channel_id command_flag payload)
      ≡ ok (record {
        channel_id = channel_id;
        command_flag = command_flag;
        command_name = command_name_of command_flag;
        check_sum = 0;
        vcode = daemon_vcode;
        payload = payload;
      })
unfolding encode_frame
decode-encode_frame max ch cmd payload hc hm hl hs =
    let protect = encode_protect ch cmd 0 in
    let (some_bytes, few) = length-encode_protect ch cmd 0 in
    decode_parts max (length protect) (length payload)
      (encode_frame_header (length protect) (length payload)) protect payload _
      (length-encode_frame_header _ _) (decode_frame_header-encode _ _ some_bytes (omega arith) hl)
      refl refl (omega (arith, length-encode_frame ch cmd payload))
      (decode_protect-encode_protect ch cmd 0 hc hm (omega arith)) refl refl
