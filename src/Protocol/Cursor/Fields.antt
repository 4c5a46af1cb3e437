-- ===== src/Protocol/Cursor/Fields.antt =====
-- The readers and appenders of one field, internal/protocol/daemon.go.
use hdc_remote_kit.Protocol.Varint.RoundTrip.{
  read_uvarint_zero, read_uvarint-append_uvarint, read_uvarint_shorter, append_uvarint_append,
}
use hdc_remote_kit.Base.{
  ◌∷◌, err, ℕ, ◌*◌, ◌+◌, ◌≤◌, ◌<◌, ◌≡◌, ◌≢◌, [], ◌++◌, Bytes, ok, length, arith, take-append,
  drop-append, length-append, length-drop, append_assoc, inl, inr, Result-cases, le→ltb,
}
use hdc_remote_kit.Protocol.Cursor.{
  out_of_fuel, varint, varint_value, string_value, skip, append_varint_field, append_string_field,
}
use hdc_remote_kit.Protocol.Varint.{IsU64, append_uvarint, read_uvarint}

pub varint-append_uvarint :
    (v : ℕ) (rest : Bytes) → IsU64 v → varint (append_uvarint [] v ++ rest) ≡ ok (v, rest)
unfolding varint
varint-append_uvarint v rest h = rw (read_uvarint-append_uvarint v rest h, varint)

pub varint_shorter : (c : Bytes) (v : ℕ) (c' : Bytes) → varint c ≡ ok (v, c') → length c' < length c
unfolding varint
varint_shorter c v c' e = elim (Result-cases (read_uvarint c)) [
  | inl ((w, d), r) ↦ ground (arith, read_uvarint_shorter c w d r)
  | inr (x, r) ↦ cc
]

-- A string comes back whole.
pub string_value-bytes :
    (value rest : Bytes)
    → IsU64 (length value)
    → string_value 2 (append_uvarint [] (length value) ++ (value ++ rest)) ≡ ok (value, rest)
unfolding string_value
string_value-bytes value rest h = rw (
  varint-append_uvarint (length value) (value ++ rest) h,
  le→ltb (length (value ++ rest)) (length value) (omega (arith, length-append value rest)),
  take-append value rest,
  drop-append value rest,
)

pub append_varint_field_lem :
    (target : Bytes) (field value : ℕ)
    → append_varint_field target field value
      ≡ target ++ (append_uvarint [] (field * 8) ++ append_uvarint [] value)
unfolding append_varint_field
append_varint_field_lem target field value = rw (
  append_uvarint_append (append_uvarint target (field * 8)) value,
  append_uvarint_append target (field * 8),
  append_assoc,
)

pub append_string_field_lem :
    (target : Bytes) (field : ℕ) (value : Bytes)
    → append_string_field target field value
      ≡ target ++ (append_uvarint [] (field * 8 + 2) ++ (append_uvarint [] (length value) ++ value))
unfolding append_string_field
append_string_field_lem target field value = rw (
  append_uvarint_append (append_uvarint target (field * 8 + 2)) (length value),
  append_uvarint_append target (field * 8 + 2),
  append_assoc,
  append_assoc,
)

pub varint_value_shorter :
    (wire : ℕ) (c : Bytes) (v : ℕ) (c' : Bytes)
    → varint_value wire c ≡ ok (v, c')
    → length c' ≤ length c
unfolding varint_value
varint_value_shorter wire c v c' e = ground (arith, varint_shorter c v c')

pub string_value_shorter :
    (wire : ℕ) (c : Bytes) (v c' : Bytes) → string_value wire c ≡ ok (v, c') → length c' ≤ length c
unfolding string_value
string_value_shorter wire c v c' e = elim (Result-cases (varint c)) [
  | inl ((w, d), r) ↦ ground (arith, varint_shorter c w d r, length-drop w d)
  | inr (x, r) ↦ ground (arith)
]

pub skip_shorter : (wire : ℕ) (c c' : Bytes) → skip wire c ≡ ok c' → length c' ≤ length c
unfolding skip
skip_shorter wire c c' e = elim (Result-cases (varint c)) [
  | inl ((w, d), r) ↦
      ground (arith, varint_shorter c w d r, length-drop w d, length-drop 4 c, length-drop 8 c)
  | inr (x, r) ↦ ground (arith, length-drop 4 c, length-drop 8 c)
]

pub varint-ne-fuel : (c : Bytes) → varint c ≢ err out_of_fuel
unfolding varint
varint-ne-fuel c e = elim (Result-cases (read_uvarint c)) [ inl (r, h) ↦ cc | inr (x, h) ↦ cc ]

pub skip-ne-fuel : (wire : ℕ) (c : Bytes) → skip wire c ≢ err out_of_fuel
unfolding skip
skip-ne-fuel wire c e = elim (Result-cases (varint c)) [
  | inl ((w, d), r) ↦ ground (arith)
  | inr (x, r) ↦ ground (arith, varint-ne-fuel c)
]

pub varint_value-ne-fuel : (wire : ℕ) (c : Bytes) → varint_value wire c ≢ err out_of_fuel
unfolding varint_value
varint_value-ne-fuel wire c e = ground (arith, varint-ne-fuel c)

pub string_value-ne-fuel : (wire : ℕ) (c : Bytes) → string_value wire c ≢ err out_of_fuel
unfolding string_value
string_value-ne-fuel wire c e = elim (Result-cases (varint c)) [
  | inl ((w, d), r) ↦ ground (arith)
  | inr (x, r) ↦ ground (arith, varint-ne-fuel c)
]

pub varint_value-append_uvarint :
    (v : ℕ) (rest : Bytes) → IsU64 v → varint_value 0 (append_uvarint [] v ++ rest) ≡ ok (v, rest)
unfolding varint_value
varint_value-append_uvarint v rest h = varint-append_uvarint v rest h

pub varint_zero : (rest : Bytes) → varint (0 ∷ rest) ≡ ok (0, rest)
unfolding varint
varint_zero rest = rw (read_uvarint_zero rest, varint)
