-- ===== src/Protocol/Handshake/Laws.antt =====
-- The codec of the handshake message of internal/protocol/daemon.go.
use hdc_remote_kit.Base.{
  refl, lt→leb, ◌^◌, leb, >>=-ne-err, ◌>>=◌, ◌==◌, append_assoc, if-ne, false, err, ◌≢◌, Result, ℕ,
  ◌≤◌, ◌≡◌, Bytes, ok, length, arith, inl, inr, Result-cases,
}
use hdc_remote_kit.Protocol.Cursor.Rounds.{
  read_fields_text_last, read_fields_number, read_fields_text,
}
use hdc_remote_kit.Protocol.Varint.{IsU32, IsU8, IsU64}
use hdc_remote_kit.Protocol.Cursor.Fields.{
  skip-ne-fuel, varint_value-ne-fuel, string_value-ne-fuel, append_string_field_lem,
  append_varint_field_lem, varint_value_shorter, string_value_shorter, skip_shorter,
}
use hdc_remote_kit.Protocol.Handshake.{
  empty_handshake, encode_session_handshake, decode_session_handshake, SessionHandshake,
  handshake_step,
}
use hdc_remote_kit.Protocol.Cursor.Loop.{read_fields-ne-fuel, Consumes}
use hdc_remote_kit.Protocol.Cursor.{out_of_fuel, Error, varint_value, string_value, skip}

handshake_step_shorter :
    (h : SessionHandshake) (field wire : ℕ) (c : Bytes) (h' : SessionHandshake) (c' : Bytes)
    → handshake_step h field wire c ≡ ok (h', c')
    → length c' ≤ length c
unfolding handshake_step
handshake_step_shorter h field wire c h' c' e = elim (Result-cases (string_value wire c)) [
  | inr (x, r) ↦ elim (Result-cases (varint_value wire c)) [
    | inr (y, q) ↦ ground (arith, Result-cases (skip wire c), skip_shorter wire c c')
    | inl ((v, d), q) ↦
        ground (
          arith,
          varint_value_shorter wire c v d,
          Result-cases (skip wire c),
          skip_shorter wire c c',
        )
  ]
  | inl ((t, b), r) ↦ elim (Result-cases (varint_value wire c)) [
    | inr (y, q) ↦
        ground (
          arith,
          string_value_shorter wire c t b,
          Result-cases (skip wire c),
          skip_shorter wire c c',
        )
    | inl ((v, d), q) ↦ ground (
      arith,
      string_value_shorter wire c t b,
      varint_value_shorter wire c v d,
      Result-cases (skip wire c),
      skip_shorter wire c c',
    )
  ]
]

module _ {S : Type 0} (wire : ℕ) (c : Bytes) where
  string_field-ne-fuel :
      (f : Bytes × Bytes → Result Error S)
      → ((r : Bytes × Bytes) → f r ≢ err out_of_fuel)
      → (string_value wire c >>= f) ≢ err out_of_fuel
  string_field-ne-fuel f h = >>=-ne-err (string_value wire c) f (string_value-ne-fuel wire c) h

  varint_field-ne-fuel :
      (f : ℕ × Bytes → Result Error S)
      → ((r : ℕ × Bytes) → f r ≢ err out_of_fuel)
      → (varint_value wire c >>= f) ≢ err out_of_fuel
  varint_field-ne-fuel f h = >>=-ne-err (varint_value wire c) f (varint_value-ne-fuel wire c) h

handshake_step-ne-fuel :
    (h : SessionHandshake) (field wire : ℕ) (c : Bytes)
    → handshake_step h field wire c ≢ err out_of_fuel
unfolding handshake_step
handshake_step-ne-fuel h field wire c =
    if-ne (field == 1) (string_field-ne-fuel wire c _ (λ r e. cc)) (
      if-ne (field == 2)
        (varint_field-ne-fuel wire c _ (λ r. if-ne (leb (2 ^ 8) r.0) (λ e. cc) (λ e. cc)))
        (if-ne (field == 3)
          (varint_field-ne-fuel wire c _ (λ r. if-ne (leb (2 ^ 32) r.0) (λ e. cc) (λ e. cc)))
          (if-ne (field == 4) (string_field-ne-fuel wire c _ (λ r e. cc)) (
            if-ne (field == 5) (string_field-ne-fuel wire c _ (λ r e. cc)) (
              if-ne (field == 6) (string_field-ne-fuel wire c _ (λ r e. cc))
                (>>=-ne-err (skip wire c) _ (skip-ne-fuel wire c) (λ d e. cc)))))))

handshake_step-Consumes : Consumes handshake_step
handshake_step-Consumes = record {
  shorter = handshake_step_shorter;
  has_fuel = handshake_step-ne-fuel;
}

-- Decoding a handshake never runs out of fuel.
pub decode_session_handshake-ne-fuel :
    (payload : Bytes) → decode_session_handshake payload ≢ err out_of_fuel
unfolding decode_session_handshake
decode_session_handshake-ne-fuel payload =
    read_fields-ne-fuel (λ _. false) handshake_step handshake_step-Consumes empty_handshake payload

-- Each field fits its Go type.
pub record Fits (h : SessionHandshake) : Type 0 where
  pub banner : IsU64 (length h.banner)
  pub auth_type : IsU8 h.auth_type
  pub session_id : IsU32 h.session_id
  pub connect_key : IsU64 (length h.connect_key)
  pub buffer : IsU64 (length h.buffer)
  pub version : IsU64 (length h.version)

-- Decoding an encoded handshake gives it back, provided that each number fits its field and each
-- text is shorter than 2 ^ 64 bytes.
pub decode-encode_session_handshake :
    (h : SessionHandshake) → Fits h → decode_session_handshake (encode_session_handshake h) ≡ ok h
unfolding decode_session_handshake encode_session_handshake handshake_step
decode-encode_session_handshake h v =
    let h1 = record empty_handshake { banner = h.banner } in
    let h2 = record h1 { auth_type = h.auth_type } in
    let h3 = record h2 { session_id = h.session_id } in
    let h4 = record h3 { connect_key = h.connect_key } in
    let h5 = record h4 { buffer = h.buffer } in
    let text = read_fields_text (λ _. false) handshake_step handshake_step-Consumes in
    let number = read_fields_number (λ _. false) handshake_step handshake_step-Consumes in
    let text_last = read_fields_text_last (λ _. false) handshake_step handshake_step-Consumes in
    simp (append_varint_field_lem, append_string_field_lem, append_assoc)
      (rw (
        text empty_handshake 10 1 h.banner h1 _ (omega arith) refl refl refl v.banner
            (λ c c' r. rw r),
        number h1 16 2 h.auth_type h2 _ (omega arith) refl refl refl (omega arith)
            (λ c c' r. rw (r, lt→leb (2 ^ 8) h.auth_type v.auth_type)),
        number h2 24 3 h.session_id h3 _ (omega arith) refl refl refl (omega arith)
            (λ c c' r. rw (r, lt→leb (2 ^ 32) h.session_id v.session_id)),
        text h3 34 4 h.connect_key h4 _ (omega arith) refl refl refl v.connect_key (λ c c' r. rw r),
        text h4 42 5 h.buffer h5 _ (omega arith) refl refl refl v.buffer (λ c c' r. rw r),
        text_last h5 50 6 h.version h (omega arith) refl refl refl v.version (λ c c' r. rw r),
      ))
