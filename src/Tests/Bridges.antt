-- ===== src/Tests/Bridges.antt =====
-- A small file, a store that is nearly full and two paths.
use hdc_remote_kit.Bridge.Upload.RoundTrip.{Delivers, receive_frames-send_download_data, received}
use hdc_remote_kit.Bridge.Upload.{
  end_of_file, Reader, prepare_target_transfer, send_download_data, receive_frames, new_upload,
}
use hdc_remote_kit.Bridge.TempStore.Quota.{
  quota_exact, close_op, settle_op, prepare_op, total_held, allocate_op, StoreOp, store_run,
}
use hdc_remote_kit.Base.{
  arith, err, ◌+◌, ok, ltb, if◌then◌else◌, [], ◌∷◌, true, refl, ◌++◌, length, false, ◌≡◌, codes,
  List, Bytes,
}
use hdc_remote_kit.Bridge.TempStore.{quota_exceeded, allocate, empty_store}
use hdc_remote_kit.Bridge.Paths.Quoting.{split_command_tokens-quote_command_arg, IsUtf8}
use hdc_remote_kit.Bridge.Paths.{quote_command_arg, split_command_tokens}
use hdc_remote_kit.Strings.{has_byte, text_of, runes_from, decode_rune, encode_rune}

abbrev letter : Bytes
letter = codes "hello"

-- Each Read delivers two bytes.
abbrev by_two : Reader
by_two = record {
  count = λ i. 2;
  read_fails = λ i. false;
  is_closed = λ i. false;
  write_fails = λ i. false;
}

by_two-Delivers : Delivers by_two
by_two-Delivers = record {
  some_byte = λ i. omega arith;
  buffer = λ i. omega arith;
  reads = λ i. refl;
  open_download = λ i. refl;
  writes = λ i. refl;
}

receive_frames-send_download_data_example :
    let u = new_upload (codes "/data/x") (codes "x") (length letter) in
    let sent = send_download_data by_two letter in
    (receive_frames 1024 sent.0 u ≡ ok (received letter u))
    × (sent.1 ≡ end_of_file)
    × (prepare_target_transfer true (received letter u)
        ≡ ok (record (received letter u) { transfer_started = true }))
    × ((received letter u).content ≡ letter)
receive_frames-send_download_data_example =
    receive_frames-send_download_data by_two 1024 (codes "/data/x") (codes "x") letter
      by_two-Delivers (omega arith) (omega arith)

abbrev transfers : List StoreOp
transfers =
    allocate_op 60 true true
    ∷ prepare_op 50 true
    ∷ prepare_op 40 true
    ∷ settle_op 1 10
    ∷ close_op 0
    ∷ []

quota_exact_example :
    let s = store_run transfers (empty_store 100) in
    (s.used_bytes ≡ total_held s.allocations)
    × ((allocate 95 true true s).1 ≡ (
        if ltb s.max_bytes (total_held s.allocations + 95)
        then err quota_exceeded
        else ok (length s.allocations)))
quota_exact_example = quota_exact 100 95 transfers

abbrev spaced : Bytes
spaced = codes "/data/my " ++ (0xe6 ∷ 0x96 ∷ 0x87 ∷ [])

spaced_quotes : has_byte b'"' spaced ≡ false
unfolding has_byte
spaced_quotes = refl

plain_quotes : has_byte b'"' (codes "/tmp/x") ≡ false
unfolding has_byte
plain_quotes = refl

spaced-IsUtf8 : IsUtf8 spaced
unfolding IsUtf8 text_of runes_from decode_rune encode_rune
spaced-IsUtf8 = refl

plain-IsUtf8 : IsUtf8 (codes "/tmp/x")
unfolding IsUtf8 text_of runes_from decode_rune encode_rune
plain-IsUtf8 = refl

split_command_tokens-quote_command_arg_example :
    split_command_tokens (quote_command_arg spaced ++ (b' ' ∷ quote_command_arg (codes "/tmp/x")))
    ≡ spaced ∷ codes "/tmp/x" ∷ []
split_command_tokens-quote_command_arg_example =
    split_command_tokens-quote_command_arg spaced (codes "/tmp/x") refl refl spaced_quotes
      plain_quotes spaced-IsUtf8 plain-IsUtf8
