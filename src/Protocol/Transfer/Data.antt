-- ===== src/Protocol/Transfer/Data.antt =====
-- The codec of the data frame of internal/protocol/transfer.go.
use hdc_remote_kit.Base.{
  lt→ltb, sym, ok-ne-err, take_all, take-append_eq, le→ltb, drop-append_eq, ==_iff,
  replicate_positive, length-replicate, replicate, ◌-◌, length-drop, refl, drop, length-take, inl,
  ◌^◌, inr, take, lt→leb, length-append, arith, Result-cases, ◌==◌, ◌+◌, append_assoc, ◌≤◌, ◌∷◌, ok,
  ◌≡◌, ◌<◌, ◌++◌, length, Bytes, ℕ,
}
use native.Mathlib.Decide.{dec_lt}
use hdc_remote_kit.Protocol.Transfer.{
  data_after, varint_value, TransferPayload, empty_payload, encode_transfer_payload,
  decode_transfer_payload, encode_transfer_data, decode_transfer_data, payload_field, payload_step,
  stops_at_zero, transfer_payload_prefix_bytes, read_compression_type, read_uint32, in_field,
}
use hdc_remote_kit.Protocol.Cursor.Fields.{varint_zero, append_varint_field_lem}
use hdc_remote_kit.Protocol.Cursor.Tame.{
  IsTame-skip, varint_value-IsTame, IsTame-store, IsTame-if, IsTame, Consumes-of_IsTame,
}
use hdc_remote_kit.Protocol.Cursor.Loop.{read_fields_stop, Consumes}
use hdc_remote_kit.Protocol.Varint.RoundTrip.{length-append_uvarint_small, length-append_uvarint}
use hdc_remote_kit.Protocol.Cursor.Rounds.{read_fields_number}
use hdc_remote_kit.Protocol.Varint.{IsU32, IsU8, IsU64}
use hdc_remote_kit.Protocol.Transfer.Config.{
  in_field-IsTame, read_compression_type-IsTame, read_uint32-IsTame,
}

payload_field-IsTame :
    (p : TransferPayload) (field wire : ℕ) (c : Bytes) → IsTame c (payload_field p field wire c)
unfolding payload_field
payload_field-IsTame p field wire c =
    IsTame-if c (field == 1) _ _
      (IsTame-store c (varint_value wire c) _ (varint_value-IsTame wire c))
      (IsTame-if c (field == 2) _ _
        (IsTame-store c (read_compression_type wire c) _ (read_compression_type-IsTame wire c))
        (IsTame-if c (field == 3) _ _
          (IsTame-store c (read_uint32 wire c) _ (read_uint32-IsTame wire c))
          (IsTame-if c (field == 4) _ _
            (IsTame-store c (read_uint32 wire c) _ (read_uint32-IsTame wire c))
            (IsTame-skip wire c p))))

payload_step-Consumes : Consumes payload_step
unfolding payload_step
payload_step-Consumes =
    Consumes-of_IsTame payload_step
      (λ p field wire c. in_field-IsTame field c _ (payload_field-IsTame p field wire c))

-- Each field fits its Go type.
pub record Fits (p : TransferPayload) : Type 0 where
  pub index : IsU64 p.index
  pub compression : IsU8 p.compression
  pub compressed_size : IsU32 p.compressed_size
  pub uncompressed_size : IsU32 p.uncompressed_size

-- Behind the four fields the prefix is padded with zeros, at which the loop stops.
decode-encode_padded :
    (p : TransferPayload) (pad : Bytes)
    → Fits p
    → decode_transfer_payload (encode_transfer_payload p ++ (0 ∷ pad)) ≡ ok p
unfolding decode_transfer_payload encode_transfer_payload payload_step in_field payload_field
    read_compression_type read_uint32
decode-encode_padded p pad v =
    let p1 = record empty_payload { index = p.index } in
    let p2 = record p1 { compression = p.compression } in
    let p3 = record p2 { compressed_size = p.compressed_size } in
    let number = read_fields_number stops_at_zero payload_step payload_step-Consumes in
    simp (append_varint_field_lem, append_assoc)
      (rw
        (
          number empty_payload 8 1 p.index p1 _ (omega arith) refl refl refl v.index
              (λ c c' r. rw r),
          number p1 16 2 p.compression p2 _ (omega arith) refl refl refl (omega arith)
              (λ c c' r. rw (r, lt→leb (2 ^ 8) p.compression v.compression)),
          number p2 24 3 p.compressed_size p3 _ (omega arith) refl refl refl (omega arith)
              (λ c c' r. rw (r, lt→leb (2 ^ 32) p.compressed_size v.compressed_size)),
          number p3 32 4 p.uncompressed_size p _ (omega arith) refl refl refl (omega arith)
              (λ c c' r. rw (r, lt→leb (2 ^ 32) p.uncompressed_size v.uncompressed_size)),
        )
        (read_fields_stop stops_at_zero payload_step payload_step-Consumes p (0 ∷ pad) 0 pad
          (varint_zero pad) refl))

-- The four fields take 44 bytes at most, so the prefix always has room for them and a zero.
length-encode_transfer_payload :
    (p : TransferPayload)
    → Fits p
    → length (encode_transfer_payload p) < transfer_payload_prefix_bytes
unfolding encode_transfer_payload
length-encode_transfer_payload p v =
    simp (append_varint_field_lem, append_assoc, length-append)
      (omega (
        arith,
        length-append_uvarint p.index,
        length-append_uvarint p.compression,
        length-append_uvarint p.compressed_size,
        length-append_uvarint p.uncompressed_size,
        length-append_uvarint_small 8 (omega arith),
        length-append_uvarint_small 16 (omega arith),
        length-append_uvarint_small 24 (omega arith),
        length-append_uvarint_small 32 (omega arith),
      ))

slice_bounds :
    (n limit : ℕ) (frame : Bytes) (q p : TransferPayload) (bytes : Bytes)
    → n ≤ length frame
    → data_after n frame limit q ≡ ok (p, bytes)
    → (length bytes ≡ p.compressed_size)
      × (n + length bytes ≤ length frame)
      × (p.uncompressed_size ≤ limit)
unfolding data_after
slice_bounds n limit frame q p bytes h e =
    ground (arith, length-take q.compressed_size (drop n frame), length-drop n frame)

slice_back :
    (n limit : ℕ) (prefix bytes : Bytes) (p : TransferPayload)
    → length prefix ≡ n
    → length bytes ≡ p.compressed_size
    → p.uncompressed_size ≤ limit
    → data_after n (prefix ++ bytes) limit p ≡ ok (p, bytes)
unfolding data_after
slice_back n limit prefix bytes p hn hs hl = ground (
  arith,
  length-append prefix bytes,
  drop-append_eq n prefix bytes hn,
  take_all p.compressed_size bytes hs,
)

-- A data frame whose header fits its fields and whose data is as long as the header says is
-- encoded without an error, and decoding the frame under a limit that is at least the uncompressed
-- size gives the header and the data back.
pub decode-encode_transfer_data :
    (p : TransferPayload) (bytes : Bytes) (limit : ℕ)
    → Fits p
    → length bytes ≡ p.compressed_size
    → p.uncompressed_size ≤ limit
    → (frame : Bytes) × (encode_transfer_data p bytes ≡ ok frame)
      × (decode_transfer_data frame limit ≡ ok (p, bytes))
unfolding encode_transfer_data decode_transfer_data
decode-encode_transfer_data p bytes limit v hs hl = (
  prefix ++ bytes,
  rw (
    (==_iff _ _).1 hs,
    le→ltb transfer_payload_prefix_bytes (length head + 1)
        (omega (arith, length-encode_transfer_payload p v)),
    append_assoc,
  ),
  rw
      (
        le→ltb (length (prefix ++ bytes)) transfer_payload_prefix_bytes
            (omega (arith, length-append prefix bytes, size)),
        take-append_eq transfer_payload_prefix_bytes prefix bytes size,
        back,
      )
      (slice_back transfer_payload_prefix_bytes limit prefix bytes p size hs hl),
)
  where
    head : Bytes
    head = encode_transfer_payload p

    zeros : ℕ
    zeros = transfer_payload_prefix_bytes - length head

    prefix : Bytes
    prefix = head ++ replicate zeros 0

    size : length prefix ≡ transfer_payload_prefix_bytes
    size = omega (
      arith,
      length-append head (replicate zeros 0),
      length-replicate {A = ℕ} zeros 0,
      length-encode_transfer_payload p v,
    )

    back : decode_transfer_payload prefix ≡ ok p
    back =
        rw (replicate_positive {A = ℕ} zeros 0 (omega (arith, length-encode_transfer_payload p v)))
          (decode-encode_padded p (replicate (zeros - 1) 0) v)

-- If a data frame is accepted, its data has exactly the announced compressed size, frame prefix
-- and data together are no longer than the frame, and the announced uncompressed size is at most
-- the limit.
pub decode_transfer_data_bounds :
    (frame : Bytes) (limit : ℕ) (p : TransferPayload) (bytes : Bytes)
    → decode_transfer_data frame limit ≡ ok (p, bytes)
    → (length bytes ≡ p.compressed_size)
      × (transfer_payload_prefix_bytes + length bytes ≤ length frame)
      × (p.uncompressed_size ≤ limit)
unfolding decode_transfer_data
decode_transfer_data_bounds frame limit p bytes e =
    elim (dec_lt (length frame) transfer_payload_prefix_bytes) [
      | yes h ↦ absurd (ok-ne-err (sym (rw (lt→ltb _ _ h) at e)))
      | no h ↦
          elim (Result-cases (decode_transfer_payload (take transfer_payload_prefix_bytes frame))) [
            | inr (x, r) ↦ absurd (
                ok-ne-err (
                  sym (
                    rw (le→ltb (length frame) transfer_payload_prefix_bytes (omega arith), r) at
                      e)))
            | inl (q, r) ↦
                slice_bounds transfer_payload_prefix_bytes limit frame q p bytes (omega arith)
                  (rw (le→ltb (length frame) transfer_payload_prefix_bytes (omega arith), r) at e)
          ]
    ]
