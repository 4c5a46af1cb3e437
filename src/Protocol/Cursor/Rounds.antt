-- ===== src/Protocol/Cursor/Rounds.antt =====
-- One round of a decoder's loop on a field that an appender wrote.
use hdc_remote_kit.Base.{
  sym, ap, ℕ, ◌/◌, ◌%◌, ◌≡◌, ◌∙◌, Bool, false, [], ◌++◌, Bytes, ok, length, append-nil,
}
use hdc_remote_kit.Protocol.Varint.{IsU64, append_uvarint}
use hdc_remote_kit.Protocol.Cursor.{FieldStep, varint_value, string_value, read_fields}
use hdc_remote_kit.Protocol.Cursor.Fields.{string_value-bytes, varint_value-append_uvarint}
use hdc_remote_kit.Protocol.Cursor.Loop.{Consumes, read_fields_field, read_fields_nil}

module _ {S : Type 0} (stops : ℕ → Bool) (step : FieldStep S) (v : Consumes step) where
  -- A text field that the step stores.
  pub read_fields_text :
      (s : S) (key field : ℕ) (value : Bytes) (s' : S) (rest : Bytes)
      → IsU64 key
      → key / 8 ≡ field
      → key % 8 ≡ 2
      → stops key ≡ false
      → IsU64 (length value)
      → ((c c' : Bytes) → string_value 2 c ≡ ok (value, c') → step s field 2 c ≡ ok (s', c'))
      → read_fields stops step s
          (append_uvarint [] key ++ (append_uvarint [] (length value) ++ (value ++ rest)))
        ≡ read_fields stops step s' rest
  read_fields_text s key field value s' rest hk hf hw t hv store =
      read_fields_field stops step v s key field 2 _ s' rest hk hf hw t
        (store _ rest (string_value-bytes value rest hv))

  -- A number field that the step stores.
  pub read_fields_number :
      (s : S) (key field value : ℕ) (s' : S) (rest : Bytes)
      → IsU64 key
      → key / 8 ≡ field
      → key % 8 ≡ 0
      → stops key ≡ false
      → IsU64 value
      → ((c c' : Bytes) → varint_value 0 c ≡ ok (value, c') → step s field 0 c ≡ ok (s', c'))
      → read_fields stops step s (append_uvarint [] key ++ (append_uvarint [] value ++ rest))
        ≡ read_fields stops step s' rest
  read_fields_number s key field value s' rest hk hf hw t hv store =
      read_fields_field stops step v s key field 0 _ s' rest hk hf hw t
        (store _ rest (varint_value-append_uvarint value rest hv))

  -- The last text field of a message.
  pub read_fields_text_last :
      (s : S) (key field : ℕ) (value : Bytes) (s' : S)
      → IsU64 key
      → key / 8 ≡ field
      → key % 8 ≡ 2
      → stops key ≡ false
      → IsU64 (length value)
      → ((c c' : Bytes) → string_value 2 c ≡ ok (value, c') → step s field 2 c ≡ ok (s', c'))
      → read_fields stops step s
          (append_uvarint [] key ++ (append_uvarint [] (length value) ++ value))
        ≡ ok s'
  read_fields_text_last s key field value s' hk hf hw t hv store =
      ap
        (λ (b : Bytes).
          read_fields stops step s
            (append_uvarint [] key ++ (append_uvarint [] (length value) ++ b)))
        (sym (append-nil value))
      ∙ read_fields_text s key field value s' [] hk hf hw t hv store
      ∙ read_fields_nil stops step v s'
