-- ===== src/Protocol/Frame/Replies.antt =====
-- The two-step close of a channel, internal/protocol/daemon.go.
use hdc_remote_kit.Base.{ℕ, suc, ◌≤◌, ◌≡◌, refl, [], ◌∷◌, Bytes, ok, length, arith}
use hdc_remote_kit.Protocol.Varint.{IsU32}
use hdc_remote_kit.Protocol.Commands.{kernel_channel_close}
use hdc_remote_kit.Protocol.Frame.{
  Frame, command_name_of, encode_frame, encode_channel_close, encode_channel_close_response, decode,
}
use hdc_remote_kit.Protocol.Frame.RoundTrip.{decode-encode_frame, length-encode_frame}
use hdc_remote_kit.Protocol.Protect.{daemon_vcode}
use hdc_remote_kit.Protocol.Protect.Laws.{length-encode_protect}

-- A frame with one byte of payload is well within any limit of 128 bytes or more.
close_frame_fits :
    (max ch count : ℕ)
    → 128 ≤ max
    → length (encode_frame ch kernel_channel_close (count ∷ [])) ≤ max
close_frame_fits max ch count h = omega (
  arith,
  length-encode_frame ch kernel_channel_close (count ∷ []),
  length-encode_protect ch kernel_channel_close 0,
)

abbrev pub close_frame : ℕ → ℕ → Frame
close_frame channel_id count = record {
  channel_id = channel_id;
  command_flag = kernel_channel_close;
  command_name = command_name_of kernel_channel_close;
  check_sum = 0;
  vcode = daemon_vcode;
  payload = count ∷ [];
}

decode_close :
    (max ch count : ℕ)
    → 128 ≤ max
    → IsU32 ch
    → decode max (encode_frame ch kernel_channel_close (count ∷ [])) ≡ ok (close_frame ch count)
decode_close max ch count hm hc =
    decode-encode_frame max ch kernel_channel_close (count ∷ []) hc (omega arith) (omega arith)
      (close_frame_fits max ch count hm)

-- Under a limit of at least 128 bytes and for a channel of 32 bits: an encoded close decodes as a
-- close of the channel with count 1, the answer to a close request that begins with a positive
-- count decodes as a close with the count less one, and the request with count 0 gets no answer.
pub channel_close_handshake :
    (max channel_id count : ℕ) (more : Bytes)
    → 128 ≤ max
    → IsU32 channel_id
    → (decode max (encode_channel_close channel_id) ≡ ok (close_frame channel_id 1))
      × (decode max (encode_channel_close_response channel_id (suc count ∷ more))
          ≡ ok (close_frame channel_id count))
      × (encode_channel_close_response channel_id (close_frame channel_id 0).payload ≡ [])
unfolding encode_channel_close encode_channel_close_response
channel_close_handshake max ch count more hm hc =
    (decode_close max ch 1 hm hc, ground (arith, decode_close max ch count hm hc), refl)
