-- ===== src/Protocol/Protect/Laws.antt =====
-- The codec of the protect block of internal/protocol/daemon.go.
use hdc_remote_kit.Base.{
  length-append, >>=-ne-err, ◌==◌, ◌*◌, ℕ, ◌^◌, ◌≤◌, ◌<◌, ◌≡◌, ◌≢◌, refl, ◌∙◌, Bool, true, false,
  [], ◌++◌, Bytes, ok, err, length, arith, inl, inr, Result-cases, Bool-cases, append_assoc,
  append-nil,
}
use hdc_remote_kit.Protocol.Varint.{IsU8, IsU32, IsU64, append_uvarint}
use hdc_remote_kit.Protocol.Varint.RoundTrip.{length-append_uvarint}
use hdc_remote_kit.Protocol.Cursor.{out_of_fuel, varint, skip, read_fields}
use hdc_remote_kit.Protocol.Cursor.Fields.{
  varint_shorter, skip_shorter, skip-ne-fuel, varint-ne-fuel, append_varint_field_lem,
  varint-append_uvarint,
}
use hdc_remote_kit.Protocol.Cursor.Loop.{
  Consumes, read_fields-ne-fuel, read_fields_field, read_fields_nil, read_fields_inv,
}
use hdc_remote_kit.Protocol.Protect.{
  PayloadProtect, ProtectState, start, daemon_vcode, encode_protect, set_field, protect_step,
  decode_protect,
}

set_field-ne-fuel : (s : ProtectState) (field value : ℕ) → set_field s field value ≢ err out_of_fuel
unfolding set_field
set_field-ne-fuel s field value = ground arith

protect_step_shorter :
    (s : ProtectState) (field wire : ℕ) (c : Bytes) (s' : ProtectState) (c' : Bytes)
    → protect_step s field wire c ≡ ok (s', c')
    → length c' ≤ length c
unfolding protect_step
protect_step_shorter s field wire c s' c' e = elim (Result-cases (varint c)) [
  | inr (x, r) ↦ ground (arith, skip_shorter wire c c')
  | inl ((value, d), r) ↦ elim (Result-cases (set_field s field value)) [
    | inr (x, q) ↦ ground (arith, skip_shorter wire c c')
    | inl (t, q) ↦ ground (arith, skip_shorter wire c c', varint_shorter c value d)
  ]
]

protect_step-ne-fuel :
    (s : ProtectState) (field wire : ℕ) (c : Bytes) → protect_step s field wire c ≢ err out_of_fuel
unfolding protect_step
protect_step-ne-fuel s field wire c = elim (Bool-cases (wire == 0)) [
  | inl z ↦ rw z (
      >>=-ne-err (varint c) _ (varint-ne-fuel c)
        λ r. >>=-ne-err (set_field s field r.0) _ (set_field-ne-fuel s field r.0) λ t q. cc)
  | inr z ↦ rw z (>>=-ne-err (skip wire c) _ (skip-ne-fuel wire c) λ d q. cc)
]

protect_step-Consumes : Consumes protect_step
protect_step-Consumes = record { shorter = protect_step_shorter; has_fuel = protect_step-ne-fuel }

-- `decodeProtect` ends on every input: its loop never runs out of fuel.
pub decode_protect-ne-fuel : (payload : Bytes) → decode_protect payload ≢ err out_of_fuel
unfolding decode_protect
decode_protect-ne-fuel payload e =
    elim (Result-cases (read_fields (λ _. false) protect_step start payload)) [
      | inr (x, r) ↦
          ground (
            arith,
            read_fields-ne-fuel (λ _. false) protect_step protect_step-Consumes start payload,
          )
      | inl (s, r) ↦ ground arith
    ]

-- The ranges of the four numbers.
pub record InRange (p : PayloadProtect) : Type 0 where
  pub channel : IsU32 p.channel_id
  pub command : IsU32 p.command_flag
  pub sum : IsU8 p.check_sum
  pub code : IsU8 p.vcode

set_field-InRange :
    (s : ProtectState) (field value : ℕ) (t : ProtectState)
    → InRange s.result
    → set_field s field value ≡ ok t
    → InRange t.result
unfolding set_field
set_field-InRange s field value t v e = ground arith

protect_step-InRange :
    (s : ProtectState) (field wire : ℕ) (c : Bytes) (s' : ProtectState) (c' : Bytes)
    → InRange s.result
    → protect_step s field wire c ≡ ok (s', c')
    → InRange s'.result
unfolding protect_step
protect_step-InRange s field wire c s' c' v e = elim (Result-cases (varint c)) [
  | inr (x, r) ↦ ground (arith, Result-cases (skip wire c))
  | inl ((value, d), r) ↦ elim (Result-cases (set_field s field value)) [
    | inr (x, q) ↦ ground (arith)
    | inl (t, q) ↦ ground (arith, set_field-InRange s field value t v q)
  ]
]

-- If a protect block is decoded, channel and command are of 32 bits, checksum and version code of
-- 8 bits.
pub decode_protect-InRange :
    (payload : Bytes) (p : PayloadProtect) → decode_protect payload ≡ ok p → InRange p
unfolding decode_protect
decode_protect-InRange payload p e =
    elim (Result-cases (read_fields (λ _. false) protect_step start payload)) [
      | inr (x, r) ↦ ground arith
      | inl (s, r) ↦
          let range : InRange s.result =
            read_fields_inv (λ _. false) protect_step protect_step-Consumes
              (λ (t : ProtectState). InRange t.result) protect_step-InRange start payload s
              (omega arith) r in
          ground arith
    ]

protect_field :
    (s : ProtectState) (field value : ℕ) (t : ProtectState) (rest : Bytes)
    → field < 2 ^ 60
    → IsU64 value
    → set_field s field value ≡ ok t
    → read_fields
        (λ _. false)
        protect_step
        s
        (append_uvarint [] (field * 8) ++ (append_uvarint [] value ++ rest))
      ≡ read_fields (λ _. false) protect_step t rest
unfolding protect_step
protect_field s field value t rest hf hv e =
    read_fields_field (λ _. false) protect_step protect_step-Consumes s (field * 8) field 0
      (append_uvarint [] value ++ rest) t rest (omega arith) (omega arith) (omega arith) refl
      (rw (varint-append_uvarint value rest hv, e))

protect_field_last :
    (s : ProtectState) (field value : ℕ) (t : ProtectState)
    → field < 2 ^ 60
    → IsU64 value
    → set_field s field value ≡ ok t
    → read_fields
        (λ _. false)
        protect_step
        s
        (append_uvarint [] (field * 8) ++ append_uvarint [] value)
      ≡ ok t
protect_field_last s field value t hf hv e = rw (← append-nil (append_uvarint [] value)) (
    protect_field s field value t [] hf hv e
    ∙ read_fields_nil (λ _. false) protect_step protect_step-Consumes t)

abbrev filled : ℕ → ℕ → ℕ → ℕ → Bool → ProtectState
filled ch cmd sum code seen = record {
  result = record { channel_id = ch; command_flag = cmd; check_sum = sum; vcode = code };
  command_seen = seen;
}

set_field_all :
    (ch cmd sum : ℕ)
    → IsU32 ch
    → IsU32 cmd
    → IsU8 sum
    → (set_field start 1 ch ≡ ok (filled ch 0 0 0 false))
      × (set_field (filled ch 0 0 0 false) 2 cmd ≡ ok (filled ch cmd 0 0 true))
      × (set_field (filled ch cmd 0 0 true) 3 sum ≡ ok (filled ch cmd sum 0 true))
      × (set_field (filled ch cmd sum 0 true) 4 daemon_vcode
          ≡ ok (filled ch cmd sum daemon_vcode true))
unfolding set_field
set_field_all ch cmd sum hc hm hs = (ground arith, ground arith, ground arith, ground arith)

-- Decoding an encoded protect block gives back channel, command and checksum, of 32, 32 and 8
-- bits, with the protocol's version code.
pub decode_protect-encode_protect :
    (channel_id command_flag checksum : ℕ)
    → IsU32 channel_id
    → IsU32 command_flag
    → IsU8 checksum
    → decode_protect (encode_protect channel_id command_flag checksum)
      ≡ ok (record {
        channel_id = channel_id;
        command_flag = command_flag;
        check_sum = checksum;
        vcode = daemon_vcode;
      })
unfolding decode_protect encode_protect
decode_protect-encode_protect ch cmd sum hc hm hs =
    let (one, two, three, four) = set_field_all ch cmd sum hc hm hs in
    simp (append_varint_field_lem, append_assoc)
      (rw (
        protect_field start 1 ch _ _ (omega arith) (omega arith) one,
        protect_field _ 2 cmd _ _ (omega arith) (omega arith) two,
        protect_field _ 3 sum _ _ (omega arith) (omega arith) three,
        protect_field_last _ 4 daemon_vcode _ (omega arith) (omega arith) four,
      ))

pub length-encode_protect :
    (ch cmd sum : ℕ)
    → (1 ≤ length (encode_protect ch cmd sum)) × (length (encode_protect ch cmd sum) ≤ 80)
unfolding encode_protect
length-encode_protect ch cmd sum =
    simp (append_varint_field_lem, append_assoc, length-append)
      (omega (
        arith,
        length-append_uvarint 8,
        length-append_uvarint ch,
        length-append_uvarint 16,
        length-append_uvarint cmd,
        length-append_uvarint 24,
        length-append_uvarint sum,
        length-append_uvarint 32,
        length-append_uvarint daemon_vcode,
      ))
