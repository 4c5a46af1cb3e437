-- ===== src/Protocol/Handshake/Tlv.antt =====
-- The fixed-width TLV buffer of a handshake, internal/protocol/daemon.go: `AppendHandshakeTLV`,
-- `ParseHandshakeTLV` and the buffers that the replies carry.
use hdc_remote_kit.Base.{
  zero, ◌>>=◌, ◌-◌, ◌+◌, drop, none, ◌||◌, ◌*◌, suc, take, ltb, err, bytes_eq, ◌∷◌, some, ok,
  length, if◌then◌else◌, ◌++◌, codes, [], Result, Option, List, ℕ, Bytes,
}
use hdc_remote_kit.Strings.{trim_space, decimal, pad_right}

abbrev pub auth_tlv_field_width : ℕ
auth_tlv_field_width = 16

abbrev pub daemon_auth_success : Bytes
daemon_auth_success = codes "SUCCESS"

abbrev pub daemon_auth_unauthorized : Bytes
daemon_auth_unauthorized = codes "DAEMON_UNAUTH"

abbrev pub handshake_tlv_auth_type : Bytes
handshake_tlv_auth_type = codes "authtype"

abbrev pub handshake_auth_type_sha512 : Bytes
handshake_auth_type_sha512 = codes "1"

unfoldable pub append_handshake_tlv : Bytes → Bytes → Bytes → Bytes
append_handshake_tlv buffer tag value =
    buffer
    ++ (pad_right auth_tlv_field_width (take auth_tlv_field_width tag)
        ++ (pad_right auth_tlv_field_width (decimal (length value)) ++ value))

pub build_auth_status_tlv : Bytes → Bytes → Bytes → Bytes
build_auth_status_tlv device_name message auth_status =
    append_handshake_tlv
      (append_handshake_tlv
        (append_handshake_tlv (append_handshake_tlv [] (codes "emgmsg") message) (codes "devname")
          device_name)
        (codes "daemonauthstatus") auth_status)
      (codes "1200") (codes "enable")

pub data TlvError : Type 0 where
  truncated invalid_length value_truncated : TlvError

-- The digits of a length; any other character is an error, and no digit is 0.
read_length : ℕ → Bytes → Option ℕ
read_length value [] = some value
read_length value (c ∷ text) =
    if ltb c b'0' || ltb b'9' c then none else read_length (value * 10 + (c - b'0')) text

-- `fields[tag] = value` where the tag is not empty; a map is the list of its last writes first.
set_field : Bytes → Bytes → List (Bytes × Bytes) → List (Bytes × Bytes)
set_field [] value fields = fields
set_field (c ∷ tag) value fields = (c ∷ tag, value) ∷ fields

unfoldable pub field_value : Bytes → List (Bytes × Bytes) → Bytes
field_value tag [] = []
field_value tag ((key, value) ∷ fields) = if bytes_eq key tag then value else field_value tag fields

-- One round on the bytes that remain: the tag, the value and what remains then.
tlv_item : Bytes → Result TlvError (Bytes × Bytes × Bytes)
tlv_item remaining =
    if ltb (length remaining) (auth_tlv_field_width * 2)
    then err truncated
    else (elim (read_length 0
        (trim_space (take auth_tlv_field_width (drop auth_tlv_field_width remaining)))) [
          | none ↦ err invalid_length
          | some size ↦
              if ltb (length remaining) (auth_tlv_field_width * 2 + size)
              then err value_truncated
              else ok (
                trim_space (take auth_tlv_field_width remaining),
                take size (drop (auth_tlv_field_width * 2) remaining),
                drop (auth_tlv_field_width * 2 + size) remaining,
              )
        ])

parse_loop : ℕ → Bytes → List (Bytes × Bytes) → Result TlvError (List (Bytes × Bytes))
parse_loop fuel [] fields = ok fields
parse_loop zero (c ∷ text) fields = err truncated
parse_loop (suc fuel) (c ∷ text) fields = do
  (tag, value, rest) ← tlv_item (c ∷ text)
  parse_loop fuel rest (set_field tag value fields)

-- A round takes 32 bytes at least.
pub parse_handshake_tlv : Bytes → Result TlvError (List (Bytes × Bytes))
parse_handshake_tlv buffer = parse_loop (length buffer) buffer []
