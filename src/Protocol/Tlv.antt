-- ===== src/Protocol/Tlv.antt =====
-- `extractTLVValue` of internal/protocol/daemon.go: the value behind a tag in the payload of an
-- extended shell command. The offset into the payload is the list of the bytes from there on.
pub mod Items
use hdc_remote_kit.Base.{
  zero, true, false, drop, ◌^◌, take, ◌==◌, ◌*◌, ◌+◌, ltb, length, suc, if◌then◌else◌, get_or, [],
  ℕ, Bytes,
}

-- binary.LittleEndian.Uint32 of the standard library, at an offset.
abbrev little_uint32_at : Bytes → ℕ → ℕ
little_uint32_at b i =
    get_or b i 0
    + get_or b (i + 1) 0 * 256
    + get_or b (i + 2) 0 * 2 ^ 16
    + get_or b (i + 3) 0 * 2 ^ 24

-- The body of the loop: the value, nothing, or the bytes to go on with.
data TlvRound : Type 0 where
  found : Bytes → TlvRound
  go_on : Bytes → TlvRound

tlv_item : ℕ → ℕ → Bytes → ℕ → TlvRound
tlv_item tag size payload expected_tag =
    if ltb (length payload) (8 + size)
    then found []
    else if tag == expected_tag
    then found (take size (drop 8 payload))
    else go_on (drop (8 + size) payload)

tlv_round : Bytes → ℕ → TlvRound
tlv_round payload expected_tag =
    tlv_item (little_uint32_at payload 0) (little_uint32_at payload 4) payload expected_tag

tlv_loop : ℕ → Bytes → ℕ → Bytes
tlv_loop zero payload expected_tag = []
tlv_loop (suc fuel) payload expected_tag = elim (ltb (length payload) 8) [
  | true ↦ []
  | false ↦ (elim (tlv_round payload expected_tag) [
    | found value ↦ value
    | go_on rest ↦ tlv_loop fuel rest expected_tag
  ])
]

-- nil is the empty value. A round drops eight bytes at least.
pub extract_tlv_value : Bytes → ℕ → Bytes
extract_tlv_value payload expected_tag = tlv_loop (suc (length payload)) payload expected_tag
