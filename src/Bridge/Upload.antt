-- ===== src/Bridge/Upload.antt =====
-- One transfer to the device, internal/bridge/file.go: `fileUpload`, with the file that its
-- allocation holds, and what `handleData` and `sendDownloadData` make of a file's content.
pub mod RoundTrip
use hdc_remote_kit.Base.{
  zero, drop, ◌++◌, take, ◌-◌, ◌+◌, true, suc, ◌∷◌, ◌^◌, ◌==◌, ok, length, err, ◌||◌, not, ltb, [],
  ◌*◌, if◌then◌else◌, false, Result, List, ℕ, Bytes, Bool,
}
use hdc_remote_kit.Protocol.Transfer.{
  encode_transfer_data, decode_transfer_data, compression_none, TransferPayload,
}
use hdc_remote_kit.Protocol.Cursor.{Error}

pub record Upload : Type 0 where
  pub target_path : Bytes
  pub optional_name : Bytes
  pub expected_size : ℕ
  pub received_size : ℕ
  pub transfer_started : Bool
  pub closed : Bool
  pub content : Bytes

pub data UploadError : Type 0 where
  invalid_offset exceeds_declared write_failed incomplete rename_failed : UploadError
  undecodable unsupported_compression size_mismatch : UploadError

-- `writeChunk`: the upload afterwards, and whether it is complete. `written` is whether the file
-- system takes the data as a whole.
pub write_chunk : Bool → ℕ → Bytes → Upload → Result UploadError (Upload × Bool)
write_chunk written index chunk u =
    if u.closed || u.transfer_started || not (index == u.received_size)
    then err invalid_offset
    else if ltb u.expected_size (u.received_size + length chunk)
    then err exceeds_declared
    else if not written
    then err write_failed
    else ok (
      record u { received_size = u.received_size + length chunk; content = u.content ++ chunk },
      u.received_size + length chunk == u.expected_size,
    )

-- `prepareTargetTransfer`; `prepared` is whether the file is sealed and has its name.
pub prepare_target_transfer : Bool → Upload → Result UploadError Upload
prepare_target_transfer prepared u =
    if u.closed || u.transfer_started || not (u.received_size == u.expected_size)
    then err incomplete
    else if not prepared
    then err rename_failed
    else ok (record u { transfer_started = true })

-- uint32(min(maxFileBytes, 2^32 - 1)).
pub data_limit : ℕ → ℕ
data_limit max_file_bytes = if ltb max_file_bytes (2 ^ 32) then max_file_bytes else 2 ^ 32 - 1

-- The checks of `handleData` on a frame's payload, and the chunk.
checked_chunk : Bool → Upload → TransferPayload × Bytes → Result UploadError (Upload × Bool)
checked_chunk written u (header, chunk) =
    if not (header.compression == compression_none)
    then err unsupported_compression
    else if not (header.compressed_size == header.uncompressed_size)
    then err size_mismatch
    else write_chunk written header.index chunk u

pub receive_data : Bool → ℕ → Bytes → Upload → Result UploadError (Upload × Bool)
receive_data written max_file_bytes payload u =
    elim (decode_transfer_data payload (data_limit max_file_bytes)) [
      | err _ ↦ err undecodable
      | ok received ↦ checked_chunk written u received
    ]

abbrev pub chunk_size : ℕ
chunk_size = 60 * 1024

chunk_header : ℕ → ℕ → TransferPayload
chunk_header index count = record {
  index = index;
  compression = compression_none;
  compressed_size = count;
  uncompressed_size = count;
}

-- What the surroundings answer when so many bytes are sent: how many bytes a Read delivers, where
-- there is content, whether it fails, whether the download is closed and whether a write fails.
pub record Reader : Type 0 where
  pub count : ℕ → ℕ
  pub read_fails : ℕ → Bool
  pub is_closed : ℕ → Bool
  pub write_fails : ℕ → Bool

-- How `sendDownloadData` ends: at the end of the file, with the download closed, or by
-- `failDownload`; the last is no end of the code.
pub data SendEnd : Type 0 where
  end_of_file download_closed download_failed fuel_ran_out : SendEnd

abbrev pub Sent : Type 0
Sent = List Bytes × SendEnd

-- A frame that is not encoded or not written ends the loop.
with_frame : Bool → Result Error Bytes → Sent → Sent
with_frame fails (err _) rest = ([], download_failed)
with_frame true (ok payload) rest = ([], download_failed)
with_frame false (ok payload) rest = (payload ∷ rest.0, rest.1)

-- The tests before a Read and behind one that fails.
guarded : Reader → ℕ → Sent → Sent
guarded r index rest =
    if r.is_closed index
    then ([], download_closed)
    else if r.read_fails index
    then ([], download_failed)
    else rest

-- The payloads of the data frames that are written; a Read that fails delivers nothing. A round
-- sends a byte at least, so the content's length is fuel enough.
send_loop : Reader → ℕ → ℕ → Bytes → Sent
send_loop r fuel index [] = guarded r index ([], end_of_file)
send_loop r zero index (c ∷ content) = ([], fuel_ran_out)
send_loop r (suc fuel) index (c ∷ content) =
    let chunk = take (r.count index) (c ∷ content) in
    let rest = send_loop r fuel (index + length chunk) (drop (r.count index) (c ∷ content)) in
    guarded r index (
      with_frame (r.write_fails index)
        (encode_transfer_data (chunk_header index (length chunk)) chunk) rest)

-- `sendDownloadData` on a file that opens.
pub send_download_data : Reader → Bytes → Sent
send_download_data r content = send_loop r (length content) 0 content

-- The receiver on these frames.
pub receive_frames : ℕ → List Bytes → Upload → Result UploadError Upload
receive_frames max_file_bytes [] u = ok u
receive_frames max_file_bytes (payload ∷ frames) u =
    elim (receive_data true max_file_bytes payload u) [
      | err e ↦ err e
      | ok received ↦ receive_frames max_file_bytes frames received.0
    ]

pub new_upload : Bytes → Bytes → ℕ → Upload
new_upload target_path optional_name expected_size = record {
  target_path = target_path;
  optional_name = optional_name;
  expected_size = expected_size;
  received_size = 0;
  transfer_started = false;
  closed = false;
  content = [];
}
