-- ===== src/Protocol/Transfer/Config.antt =====
-- The codec of the transfer configuration of internal/protocol/transfer.go.
use hdc_remote_kit.Base.{
  false, true, refl, lt→leb, append_assoc, arith, ◌≡◌, ◌^◌, ok, not, leb, Bool, err, ◌≢◌, ◌==◌,
  length, Result, Bytes, ℕ,
}
use hdc_remote_kit.Protocol.Cursor.Fields.{append_string_field_lem, append_varint_field_lem}
use hdc_remote_kit.Protocol.Cursor.Rounds.{
  read_fields_text_last, read_fields_number, read_fields_text,
}
use hdc_remote_kit.Protocol.Cursor.Tame.{
  IsTame-ok, IsTame-err, IsTame-skip, varint_value-IsTame, string_value-IsTame, IsTame-store,
  Consumes-of_IsTame, IsTame, IsTame-if, IsTame-bind,
}
use hdc_remote_kit.Protocol.Cursor.{transfer_field, append_varint_field, out_of_fuel}
use hdc_remote_kit.Protocol.Transfer.{
  empty_config, bool_number, stops_at_zero, encode_transfer_config, append_bool_field, varint_value,
  Error, string_value, decode_transfer_config, TransferConfig, config_number, config_field,
  config_step, read_bool, read_compression_type, read_uint32, in_field,
}
use hdc_remote_kit.Protocol.Cursor.Loop.{read_fields-ne-fuel, Consumes}
use hdc_remote_kit.Protocol.Varint.{IsU8, IsU64}

pub in_field-IsTame :
    {A : Type 0} (field : ℕ) (c : Bytes) (r : Result Error (A × Bytes))
    → IsTame c r
    → IsTame c (in_field field r)
unfolding in_field
in_field-IsTame field c (ok a) h = h
in_field-IsTame field c (err x) h = IsTame-err c (transfer_field field x) (λ e. cc)

pub read_bool-IsTame : (wire : ℕ) (c : Bytes) → IsTame c (read_bool wire c)
unfolding read_bool
read_bool-IsTame wire c =
    IsTame-store c (varint_value wire c) (λ value. not (value == 0)) (varint_value-IsTame wire c)

pub read_compression_type-IsTame : (wire : ℕ) (c : Bytes) → IsTame c (read_compression_type wire c)
unfolding read_compression_type
read_compression_type-IsTame wire c =
    IsTame-bind c (varint_value wire c) _ (varint_value-IsTame wire c)
      λ v d. IsTame-if d (leb (2 ^ 8) v) _ _ (IsTame-err d _ (λ e. cc)) (IsTame-ok d v)

pub read_uint32-IsTame : (wire : ℕ) (c : Bytes) → IsTame c (read_uint32 wire c)
unfolding read_uint32
read_uint32-IsTame wire c =
    IsTame-bind c (varint_value wire c) _ (varint_value-IsTame wire c)
      λ v d. IsTame-if d (leb (2 ^ 32) v) _ _ (IsTame-err d _ (λ e. cc)) (IsTame-ok d v)

config_number-IsTame :
    (k : TransferConfig) (field wire : ℕ) (c : Bytes) → IsTame c (config_number k field wire c)
unfolding config_number
config_number-IsTame k field wire c =
    IsTame-if c (field == 1) _ _
      (IsTame-store c (varint_value wire c) _ (varint_value-IsTame wire c))
      (IsTame-if c (field == 2) _ _
        (IsTame-store c (varint_value wire c) _ (varint_value-IsTame wire c))
        (IsTame-if c (field == 3) _ _
          (IsTame-store c (varint_value wire c) _ (varint_value-IsTame wire c))
          (IsTame-if c (field == 7) _ _
            (IsTame-store c (read_bool wire c) _ (read_bool-IsTame wire c))
            (IsTame-if c (field == 8) _ _
              (IsTame-store c (read_compression_type wire c) _
                (read_compression_type-IsTame wire c))
              (IsTame-if c (field == 9) _ _
                (IsTame-store c (read_bool wire c) _ (read_bool-IsTame wire c))
                (IsTame-skip wire c k))))))

config_field-IsTame :
    (k : TransferConfig) (field wire : ℕ) (c : Bytes) → IsTame c (config_field k field wire c)
unfolding config_field
config_field-IsTame k field wire c =
    IsTame-if c (field == 4) _ _ (IsTame-store c (string_value wire c) _ t) (
      IsTame-if c (field == 5) _ _ (IsTame-store c (string_value wire c) _ t) (
        IsTame-if c (field == 6) _ _ (IsTame-store c (string_value wire c) _ t) (
          IsTame-if c (field == 10) _ _ (IsTame-store c (string_value wire c) _ t) (
            IsTame-if c (field == 11) _ _ (IsTame-store c (string_value wire c) _ t) (
              IsTame-if c (field == 12) _ _ (IsTame-store c (string_value wire c) _ t) (
                IsTame-if c (field == 13) _ _ (IsTame-store c (string_value wire c) _ t)
                  (config_number-IsTame k field wire c)))))))
  where
    t : IsTame c (string_value wire c)
    t = string_value-IsTame wire c

config_step-Consumes : Consumes config_step
unfolding config_step
config_step-Consumes =
    Consumes-of_IsTame config_step
      (λ k field wire c. in_field-IsTame field c _ (config_field-IsTame k field wire c))

-- Decoding a transfer configuration never runs out of fuel.
pub decode_transfer_config-ne-fuel :
    (payload : Bytes) → decode_transfer_config payload ≢ err out_of_fuel
unfolding decode_transfer_config
decode_transfer_config-ne-fuel payload =
    read_fields-ne-fuel stops_at_zero config_step config_step-Consumes empty_config payload

-- Each field fits its Go type.
pub record Fits (k : TransferConfig) : Type 0 where
  pub file_size : IsU64 k.file_size
  pub atime : IsU64 k.atime
  pub mtime : IsU64 k.mtime
  pub options : IsU64 (length k.options)
  pub path : IsU64 (length k.path)
  pub optional_name : IsU64 (length k.optional_name)
  pub compression : IsU8 k.compression
  pub function_name : IsU64 (length k.function_name)
  pub client_cwd : IsU64 (length k.client_cwd)
  pub reserve1 : IsU64 (length k.reserve1)
  pub reserve2 : IsU64 (length k.reserve2)

append_bool_field_lem :
    (target : Bytes) (field : ℕ) (b : Bool)
    → append_bool_field target field b ≡ append_varint_field target field (bool_number b)
unfolding append_bool_field
append_bool_field_lem target field true = refl
append_bool_field_lem target field false = refl

bool_number-IsU64 : (b : Bool) → IsU64 (bool_number b)
bool_number-IsU64 true = omega arith
bool_number-IsU64 false = omega arith

bool_number_back : (b : Bool) → not (bool_number b == 0) ≡ b
bool_number_back true = refl
bool_number_back false = refl

-- Decoding an encoded transfer configuration gives it back, provided that each number fits its
-- field and each text is shorter than 2 ^ 64 bytes.
pub decode-encode_transfer_config :
    (k : TransferConfig) → Fits k → decode_transfer_config (encode_transfer_config k) ≡ ok k
unfolding decode_transfer_config encode_transfer_config config_step in_field config_field
    config_number read_bool read_compression_type
decode-encode_transfer_config k v =
    let k1 = record empty_config { file_size = k.file_size } in
    let k2 = record k1 { atime = k.atime } in
    let k3 = record k2 { mtime = k.mtime } in
    let k4 = record k3 { options = k.options } in
    let k5 = record k4 { path = k.path } in
    let k6 = record k5 { optional_name = k.optional_name } in
    let k7 = record k6 { update_if_new = k.update_if_new } in
    let k8 = record k7 { compression = k.compression } in
    let k9 = record k8 { hold_timestamp = k.hold_timestamp } in
    let k10 = record k9 { function_name = k.function_name } in
    let k11 = record k10 { client_cwd = k.client_cwd } in
    let k12 = record k11 { reserve1 = k.reserve1 } in
    let text = read_fields_text stops_at_zero config_step config_step-Consumes in
    let number = read_fields_number stops_at_zero config_step config_step-Consumes in
    let text_last = read_fields_text_last stops_at_zero config_step config_step-Consumes in
    simp (append_bool_field_lem, append_varint_field_lem, append_string_field_lem, append_assoc)
      (rw (
        number empty_config 8 1 k.file_size k1 _ (omega arith) refl refl refl v.file_size
            (λ c c' r. rw r),
        number k1 16 2 k.atime k2 _ (omega arith) refl refl refl v.atime (λ c c' r. rw r),
        number k2 24 3 k.mtime k3 _ (omega arith) refl refl refl v.mtime (λ c c' r. rw r),
        text k3 34 4 k.options k4 _ (omega arith) refl refl refl v.options (λ c c' r. rw r),
        text k4 42 5 k.path k5 _ (omega arith) refl refl refl v.path (λ c c' r. rw r),
        text k5 50 6 k.optional_name k6 _ (omega arith) refl refl refl v.optional_name
            (λ c c' r. rw r),
        number k6 56 7 (bool_number k.update_if_new) k7 _ (omega arith) refl refl refl
            (bool_number-IsU64 _) (λ c c' r. rw (r, bool_number_back)),
        number k7 64 8 k.compression k8 _ (omega arith) refl refl refl (omega arith)
            (λ c c' r. rw (r, lt→leb (2 ^ 8) k.compression v.compression)),
        number k8 72 9 (bool_number k.hold_timestamp) k9 _ (omega arith) refl refl refl
            (bool_number-IsU64 _) (λ c c' r. rw (r, bool_number_back)),
        text k9 82 10 k.function_name k10 _ (omega arith) refl refl refl v.function_name
            (λ c c' r. rw r),
        text k10 90 11 k.client_cwd k11 _ (omega arith) refl refl refl v.client_cwd
            (λ c c' r. rw r),
        text k11 98 12 k.reserve1 k12 _ (omega arith) refl refl refl v.reserve1 (λ c c' r. rw r),
        text_last k12 106 13 k.reserve2 k (omega arith) refl refl refl v.reserve2 (λ c c' r. rw r),
      ))
