-- ===== src/Protocol/Frame/Laws.antt =====
-- `ReadFrame` and `Decode` of internal/protocol/daemon.go on any input.
use hdc_remote_kit.Base.{
  append_assoc, length-append, ℕ, ◌+◌, ◌≤◌, ◌<◌, ◌≡◌, ◌≢◌, ◌⊎◌, ◌++◌, Bytes, ok, err, length, take,
  drop, arith, Result-cases, inl, inr, take-append-drop, length-take,
}
use hdc_remote_kit.Protocol.Varint.{IsU32}
use hdc_remote_kit.Protocol.Cursor.{out_of_fuel}
use hdc_remote_kit.Protocol.Frame.{
  daemon_header_bytes, Frame, decode_frame_header, read_full, read_frame, decode, payload_checksum,
}
use hdc_remote_kit.Protocol.Protect.{decode_protect, daemon_vcode}
use hdc_remote_kit.Protocol.Protect.Laws.{decode_protect-InRange, decode_protect-ne-fuel}

read_full_parts :
    (n : ℕ) (stream got rest : Bytes)
    → read_full n stream ≡ ok (got, rest)
    → (stream ≡ got ++ rest) × (length got ≡ n)
unfolding read_full
read_full_parts n stream got rest e =
    ground (arith, take-append-drop n stream, length-take n stream)

decode_frame_header-ne-fuel : (header : Bytes) → decode_frame_header header ≢ err out_of_fuel
unfolding decode_frame_header
decode_frame_header-ne-fuel header e = ground arith

decode_frame_header_positive :
    (header : Bytes) (p q : ℕ) → decode_frame_header header ≡ ok (p, q) → 0 < p
unfolding decode_frame_header
decode_frame_header_positive header p q e = ground arith

-- If a frame is read from a stream, the stream is that frame followed by what is left, and the
-- frame is longer than a header and at most as long as the codec's limit.
pub read_frame_bounds :
    (max : ℕ) (stream frame rest : Bytes)
    → read_frame max stream ≡ ok (frame, rest)
    → (stream ≡ frame ++ rest) × (daemon_header_bytes < length frame) × (length frame ≤ max)
unfolding read_frame
read_frame_bounds max stream frame rest e =
    elim (Result-cases (read_full daemon_header_bytes stream)) [
      | inr (x, r) ↦ absurd (ground arith)
      | inl ((header, more), r) ↦ elim (Result-cases (decode_frame_header header)) [
        | inr (x, d) ↦ absurd (ground arith)
        | inl ((p, q), d) ↦ elim (Result-cases (read_full (p + q) more)) [
          | inr (x, b) ↦ absurd (ground arith)
          | inl ((body, left), b) ↦ ground (
            arith,
            read_full_parts daemon_header_bytes stream header more r,
            read_full_parts (p + q) more body left b,
            decode_frame_header_positive header p q d,
            append_assoc header body left,
            length-append header body,
          )
        ]
      ]
    ]

-- If a raw frame is decoded, it is at most as long as the limit, its payload is the end of the raw
-- frame behind the header and a protect block, channel and command are of 32 bits, the version
-- code is the protocol's, and the checksum is 0 or that of the payload.
pub decode_sound :
    (max : ℕ) (raw : Bytes) (frame : Frame)
    → decode max raw ≡ ok frame
    → (block : Bytes) × (raw ≡ take daemon_header_bytes raw ++ (block ++ frame.payload))
      × (length raw ≤ max)
      × IsU32 frame.channel_id
      × IsU32 frame.command_flag
      × (frame.vcode ≡ daemon_vcode)
      × ((frame.check_sum ≡ 0) ⊎ (frame.check_sum ≡ payload_checksum frame.payload))
unfolding decode
decode_sound max raw frame e =
    elim (Result-cases (decode_frame_header (take daemon_header_bytes raw))) [
      | inr (x, d) ↦ absurd (ground arith)
      | inl ((p, q), d) ↦
          elim (Result-cases (decode_protect (take p (drop daemon_header_bytes raw)))) [
            | inr (x, b) ↦ absurd (ground arith)
            | inl (protect, b) ↦
                let range = decode_protect-InRange _ protect b in
                let split = take-append-drop daemon_header_bytes raw in
                let split' = take-append-drop p (drop daemon_header_bytes raw) in
                (
                  take p (drop daemon_header_bytes raw),
                  ground arith,
                  ground arith,
                  ground arith,
                  ground arith,
                  ground arith,
                  ground arith,
                )
          ]
    ]

-- Decoding a frame never runs out of fuel.
pub decode-ne-fuel : (max : ℕ) (raw : Bytes) → decode max raw ≢ err out_of_fuel
unfolding decode
decode-ne-fuel max raw e =
    elim (Result-cases (decode_frame_header (take daemon_header_bytes raw))) [
      | inr (x, d) ↦ ground (arith, decode_frame_header-ne-fuel (take daemon_header_bytes raw))
      | inl ((p, q), d) ↦
          elim (Result-cases (decode_protect (take p (drop daemon_header_bytes raw)))) [
            | inr (x, b) ↦
                ground (arith, decode_protect-ne-fuel (take p (drop daemon_header_bytes raw)))
            | inl (protect, b) ↦ ground arith
          ]
    ]
