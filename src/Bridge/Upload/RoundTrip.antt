-- ===== src/Bridge/Upload/RoundTrip.antt =====
-- A file that is sent in chunks and received, internal/bridge/file.go.
use hdc_remote_kit.Bridge.Upload.{
  with_frame, end_of_file, guarded, Reader, chunk_size, prepare_target_transfer, new_upload,
  send_download_data, send_loop, receive_frames, data_limit, chunk_header, write_chunk,
  checked_chunk, receive_data, Upload,
}
use hdc_remote_kit.Base.{
  ==_iff, take-append-drop, length-drop, zero, [], drop, take, suc, ◌∷◌, Bool, append-nil, sym,
  append_assoc, ◌∙◌, length-append, List, ap, le→ltb, ==_refl, refl, arith, ◌==◌, true, ok, ◌^◌,
  ◌<◌, ◌≤◌, ℕ, ◌++◌, length, false, ◌≡◌, ◌+◌, Bytes,
}
use hdc_remote_kit.Protocol.Transfer.{decode_transfer_data, encode_transfer_data}
use hdc_remote_kit.Protocol.Transfer.Data.{decode-encode_transfer_data}

after_chunk : Bytes → Upload → Upload
after_chunk chunk u = record u {
  received_size = u.received_size + length chunk;
  content = u.content ++ chunk;
}

-- An upload that is open, and has received what it holds.
Receives : Upload → Type 0
Receives u = (u.closed ≡ false) × (u.transfer_started ≡ false)

-- A payload that decodes as the next chunk is written.
receive_decoded :
    (max : ℕ) (chunk payload : Bytes) (u : Upload)
    → Receives u
    → u.received_size + length chunk ≤ u.expected_size
    → decode_transfer_data payload (data_limit max)
      ≡ ok (chunk_header u.received_size (length chunk), chunk)
    → receive_data true max payload u
      ≡ ok (after_chunk chunk u, u.received_size + length chunk == u.expected_size)
unfolding receive_data checked_chunk write_chunk chunk_header after_chunk Receives
receive_decoded max chunk payload u (open_file, waiting) he d =
    rw
      (
        receive_data,
        d,
        ==_refl (length chunk),
        open_file,
        waiting,
        ==_refl u.received_size,
        le→ltb u.expected_size (u.received_size + length chunk) he,
      )
      refl

within_limit : (max n : ℕ) → n ≤ max → n < 2 ^ 32 → n ≤ data_limit max
unfolding data_limit
within_limit max n h k = ground arith

receive_chunk :
    (max : ℕ) (chunk : Bytes) (u : Upload)
    → Receives u
    → length chunk ≤ max
    → length chunk < 2 ^ 32
    → u.received_size < 2 ^ 64
    → u.received_size + length chunk ≤ u.expected_size
    → (payload : Bytes) × (encode_transfer_data (chunk_header u.received_size (length chunk)) chunk
        ≡ ok payload)
      × (receive_data true max payload u
          ≡ ok (after_chunk chunk u, u.received_size + length chunk == u.expected_size))
unfolding chunk_header
receive_chunk max chunk u r hm h32 h64 he =
    let (payload, encoded, decoded) =
      decode-encode_transfer_data (chunk_header u.received_size (length chunk)) chunk
        (data_limit max)
        (record {
          index = h64;
          compression = omega arith;
          compressed_size = h32;
          uncompressed_size = h32;
        })
        refl (within_limit max (length chunk) hm h32) in
    (payload, encoded, receive_decoded max chunk payload u r he decoded)

-- All of the content, from where the upload stands.
pub received : Bytes → Upload → Upload
received content u = record u {
  received_size = u.received_size + length content;
  content = u.content ++ content;
}

received_split :
    (chunk rest content : Bytes) (u : Upload)
    → chunk ++ rest ≡ content
    → received rest (after_chunk chunk u) ≡ received content u
unfolding received after_chunk
received_split chunk rest content u e =
    ap (λ n. record u { received_size = n; content = (u.content ++ chunk) ++ rest })
      (omega (arith, length-append chunk rest, ap (length {A = ℕ}) e))
    ∙ ap (λ text. record u { received_size = u.received_size + length content; content = text })
        (append_assoc u.content chunk rest ∙ ap (λ text. u.content ++ text) e)

receive_frames-ok :
    (max : ℕ) (payload : Bytes) (frames : List Bytes) (u u' : Upload) (b : Bool)
    → receive_data true max payload u ≡ ok (u', b)
    → receive_frames max (payload ∷ frames) u ≡ receive_frames max frames u'
unfolding receive_frames
receive_frames-ok max payload frames u u' b e = rw (receive_frames, e) refl

-- A file that is read, and a connection that is written, without failure; a Read behind which
-- there is content delivers a byte at least and fills the buffer at most.
pub record Delivers (r : Reader) : Type 0 where
  pub some_byte : (i : ℕ) → 0 < r.count i
  pub buffer : (i : ℕ) → r.count i ≤ chunk_size
  pub reads : (i : ℕ) → r.read_fails i ≡ false
  pub open_download : (i : ℕ) → r.is_closed i ≡ false
  pub writes : (i : ℕ) → r.write_fails i ≡ false

-- A round that ends the file, and one that sends a chunk.
send_end :
    (r : Reader) (fuel index : ℕ) → Delivers r → send_loop r fuel index [] ≡ ([], end_of_file)
unfolding send_loop guarded
send_end r fuel index d = rw (d.open_download index, d.reads index) refl

send_chunk :
    (r : Reader) (fuel index : ℕ) (c : ℕ) (content payload : Bytes)
    → Delivers r
    → let chunk = take (r.count index) (c ∷ content) in
      let rest = send_loop r fuel (index + length chunk) (drop (r.count index) (c ∷ content)) in
      encode_transfer_data (chunk_header index (length chunk)) chunk ≡ ok payload
      → send_loop r (suc fuel) index (c ∷ content) ≡ (payload ∷ rest.0, rest.1)
unfolding send_loop guarded with_frame
send_chunk r fuel index c content payload d e =
    rw (d.open_download index, d.reads index, d.writes index, e) refl

length-take_le : (n : ℕ) (xs : Bytes) → length (take n xs) ≤ n
length-take_le zero xs = omega arith
length-take_le (suc n) [] = omega arith
length-take_le (suc n) (x ∷ xs) = omega (arith, length-take_le n xs)

chunk_sizes : (size : ℕ) (xs : Bytes) → length (take size xs) + length (drop size xs) ≡ length xs
chunk_sizes size xs =
    sym (length-append (take size xs) (drop size xs))
    ∙ ap (length {A = ℕ}) (take-append-drop size xs)

-- From where the upload stands, the frames of the content that is left bring all of it.
send_loop-receive_frames :
    (r : Reader) (max fuel : ℕ) (content : Bytes) (u : Upload)
    → Delivers r
    → length content ≤ fuel
    → length content ≤ max
    → Receives u
    → u.expected_size < 2 ^ 64
    → u.received_size + length content ≤ u.expected_size
    → let sent = send_loop r fuel u.received_size content in
      (receive_frames max sent.0 u ≡ ok (received content u)) × (sent.1 ≡ end_of_file)
unfolding receive_frames received Receives after_chunk
send_loop-receive_frames r max fuel [] u d hf hm o h64 he = rw (send_end r fuel u.received_size d) (
  ap ok (
      ap (λ n. record u { received_size = n; content = u.content }) (omega arith)
      ∙ ap (λ text. record u { received_size = u.received_size + 0; content = text })
          (sym (append-nil u.content))),
  refl,
)
send_loop-receive_frames r max zero (c ∷ content) u d hf hm o h64 he = absurd (omega arith)
send_loop-receive_frames r max (suc fuel) (c ∷ content) u d hf hm o h64 he =
    let size = r.count u.received_size in
    let chunk = take size (c ∷ content) in
    let rest = drop size (c ∷ content) in
    let sizes = chunk_sizes size (c ∷ content) in
    let left = length-drop size (c ∷ content) in
    let fits = d.buffer u.received_size in
    let more = d.some_byte u.received_size in
    let (payload, encoded, taken) =
      receive_chunk max chunk u o (omega arith) (omega (arith, length-take_le size (c ∷ content)))
        (omega arith) (omega arith) in
    let (brought, ended) =
      send_loop-receive_frames r max fuel rest (after_chunk chunk u) d (omega arith) (omega arith) o
        h64 (omega arith) in
    let sent = send_loop r fuel (u.received_size + length chunk) rest in
    let round = send_chunk r fuel u.received_size c content payload d encoded in
    (
      ap (λ s. receive_frames max s.0 u) round
          ∙ receive_frames-ok max payload sent.0 u (after_chunk chunk u)
              (u.received_size + length chunk == u.expected_size) taken
          ∙ brought
          ∙ ap ok (received_split chunk rest (c ∷ content) u (take-append-drop size (c ∷ content))),
      ap (λ s. s.1) round ∙ ended,
    )

prepare_complete :
    (u : Upload)
    → Receives u
    → u.received_size ≡ u.expected_size
    → prepare_target_transfer true u ≡ ok (record u { transfer_started = true })
unfolding prepare_target_transfer Receives
prepare_complete u (open_file, waiting) e =
    rw (open_file, waiting, (==_iff u.received_size u.expected_size).1 e) refl

-- For a file of at most the limit, shorter than 2 ^ 64 bytes, and any division of it by the reads
-- into pieces of a byte at least and the buffer at most, where no read and no write fails and the
-- download is not closed, the sender comes to the end of the file, and its data frames are all
-- accepted by a new upload that expects as many bytes; the upload then holds the content of the
-- file and is ready for the transfer to the device.
pub receive_frames-send_download_data :
    (r : Reader) (max : ℕ) (path name content : Bytes)
    → Delivers r
    → length content ≤ max
    → length content < 2 ^ 64
    → let u = new_upload path name (length content) in
      let sent = send_download_data r content in
      (receive_frames max sent.0 u ≡ ok (received content u))
      × (sent.1 ≡ end_of_file)
      × (prepare_target_transfer true (received content u)
          ≡ ok (record (received content u) { transfer_started = true }))
      × ((received content u).content ≡ content)
unfolding send_download_data new_upload received prepare_target_transfer Receives
receive_frames-send_download_data r max path name content d hm h64 =
    let (brought, ended) =
      send_loop-receive_frames r max (length content) content
        (new_upload path name (length content)) d (omega arith) hm (refl, refl) h64 (omega arith) in
    (
      brought,
      ended,
      prepare_complete (received content (new_upload path name (length content))) (refl, refl)
          (omega arith),
      refl,
    )
