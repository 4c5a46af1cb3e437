-- ===== src/Protocol/Cursor/Loop.antt =====
-- The decoders' loop of internal/protocol/daemon.go, its fuel and its rounds.
use hdc_remote_kit.Protocol.Varint.{IsU64, append_uvarint}
use hdc_remote_kit.Base.{
  ℕ, zero, suc, ◌/◌, ◌%◌, ◌≤◌, ◌<◌, ◌≡◌, ◌≢◌, refl, sym, ap, err-injective, [], ◌∷◌, ◌++◌, Bool,
  true, false, Bytes, ok, err, length, arith, ok-injective, ok-ne-err, ◌∙◌, inl, inr, Result-cases,
  Bool-cases,
}
use mathlib.Core.Path.{subst}
use hdc_remote_kit.Protocol.Cursor.{out_of_fuel, varint, FieldStep, read_fields_loop, read_fields}
use hdc_remote_kit.Protocol.Cursor.Fields.{varint_shorter, varint-ne-fuel, varint-append_uvarint}

-- A step that gives no bytes back to the cursor, and does not speak of fuel.
pub record Consumes {S : Type 0} (step : FieldStep S) : Type 0 where
  pub shorter :
      (s : S) (field wire : ℕ) (c : Bytes) (s' : S) (c' : Bytes)
      → step s field wire c ≡ ok (s', c')
      → length c' ≤ length c
  pub has_fuel : (s : S) (field wire : ℕ) (c : Bytes) → step s field wire c ≢ err out_of_fuel

module _ {S : Type 0} (stops : ℕ → Bool) (step : FieldStep S) (v : Consumes step) where
  read_fields_loop-ne-fuel :
      (fuel : ℕ) (s : S) (c : Bytes)
      → length c ≤ fuel
      → read_fields_loop stops step fuel s c ≢ err out_of_fuel
  unfolding read_fields_loop
  read_fields_loop-ne-fuel fuel s [] h = λ e. cc
  read_fields_loop-ne-fuel zero s (b ∷ c) h = absurd (omega arith)
  read_fields_loop-ne-fuel (suc fuel) s (b ∷ c) h = elim (Result-cases (varint (b ∷ c))) [
    | inr (x, r) ↦ rw r (λ e. varint-ne-fuel (b ∷ c) (r ∙ ap err (err-injective e)))
    | inl ((key, c'), r) ↦ rw r (elim (Bool-cases (stops key)) [
      | inl t ↦ rw t (λ e. cc)
      | inr t ↦ rw t (elim (Result-cases (step s (key / 8) (key % 8) c')) [
        | inr (x, q) ↦
            rw q (λ e. v.has_fuel s (key / 8) (key % 8) c' (q ∙ ap err (err-injective e)))
        | inl ((s', c''), q) ↦ rw q (
            read_fields_loop-ne-fuel fuel s' c'' (
              omega (
                arith,
                varint_shorter (b ∷ c) key c' r,
                v.shorter s (key / 8) (key % 8) c' s' c'' q,
              )))
      ])
    ])
  ]

  -- On every input the loop ends before its fuel does.
  pub read_fields-ne-fuel : (s : S) (c : Bytes) → read_fields stops step s c ≢ err out_of_fuel
  unfolding read_fields
  read_fields-ne-fuel s c = read_fields_loop-ne-fuel (length c) s c (omega arith)

  -- More fuel than bytes changes nothing.
  read_fields_loop_fuel :
      (k m : ℕ) (s : S) (c : Bytes)
      → length c ≤ k
      → length c ≤ m
      → read_fields_loop stops step k s c ≡ read_fields_loop stops step m s c
  unfolding read_fields_loop
  read_fields_loop_fuel k m s [] hk hm = refl
  read_fields_loop_fuel zero m s (b ∷ c) hk hm = absurd (omega arith)
  read_fields_loop_fuel (suc k) zero s (b ∷ c) hk hm = absurd (omega arith)
  read_fields_loop_fuel (suc k) (suc m) s (b ∷ c) hk hm = elim (Result-cases (varint (b ∷ c))) [
    | inr (x, r) ↦ rw r
    | inl ((key, c'), r) ↦ rw r (elim (Bool-cases (stops key)) [
      | inl t ↦ rw t
      | inr t ↦ rw t (elim (Result-cases (step s (key / 8) (key % 8) c')) [
        | inr (x, q) ↦ rw q
        | inl ((s', c''), q) ↦
            let fewer : length c'' < suc (length c) = omega (
              arith,
              varint_shorter (b ∷ c) key c' r,
              v.shorter s (key / 8) (key % 8) c' s' c'' q,
            ) in
            rw q (read_fields_loop_fuel k m s' c'' (omega arith) (omega arith))
      ])
    ])
  ]

  -- One field is one round.
  pub read_fields-step :
      (s : S) (c : Bytes) (key : ℕ) (c' : Bytes) (s' : S) (c'' : Bytes)
      → varint c ≡ ok (key, c')
      → stops key ≡ false
      → step s (key / 8) (key % 8) c' ≡ ok (s', c'')
      → read_fields stops step s c ≡ read_fields stops step s' c''
  unfolding read_fields read_fields_loop
  read_fields-step s [] key c' s' c'' r t q = absurd (omega (arith, varint_shorter [] key c' r))
  read_fields-step s (b ∷ c) key c' s' c'' r t q =
      let fewer : length c'' ≤ length c =
        omega
          (arith, varint_shorter (b ∷ c) key c' r, v.shorter s (key / 8) (key % 8) c' s' c'' q) in
      rw (r, t, q) (read_fields_loop_fuel (length c) (length c'') s' c'' fewer (omega arith))

  pub read_fields_nil : (s : S) → read_fields stops step s [] ≡ ok s
  unfolding read_fields read_fields_loop
  read_fields_nil s = refl

  pub read_fields_stop :
      (s : S) (c : Bytes) (key : ℕ) (c' : Bytes)
      → varint c ≡ ok (key, c')
      → stops key ≡ true
      → read_fields stops step s c ≡ ok s
  unfolding read_fields read_fields_loop
  read_fields_stop s [] key c' r t = refl
  read_fields_stop s (b ∷ c) key c' r t = rw (r, t)

  -- The loop keeps what each step keeps.
  read_fields_loop_inv :
      (P : S → Type 0)
      → ((s : S) (field wire : ℕ) (c : Bytes) (s' : S) (c' : Bytes)
          → P s
          → step s field wire c ≡ ok (s', c')
          → P s')
      → (fuel : ℕ) (s : S) (c : Bytes) (t : S) → P s
      → read_fields_loop stops step fuel s c ≡ ok t
      → P t
  unfolding read_fields_loop
  read_fields_loop_inv P keep fuel s [] t p e = subst P (ok-injective e) p
  read_fields_loop_inv P keep zero s (b ∷ c) t p e = cc
  read_fields_loop_inv P keep (suc fuel) s (b ∷ c) t p e = elim (Result-cases (varint (b ∷ c))) [
    | inr (x, r) ↦ cc
    | inl ((key, c'), r) ↦ elim (Bool-cases (stops key)) [
      | inl u ↦ subst P (ok-injective (rw (r, u) at e)) p
      | inr u ↦ elim (Result-cases (step s (key / 8) (key % 8) c')) [
        | inr (x, q) ↦ absurd (ok-ne-err (sym (rw (r, u, q) at e)))
        | inl ((s', c''), q) ↦
            read_fields_loop_inv P keep fuel s' c'' t (keep s (key / 8) (key % 8) c' s' c'' p q)
              (rw (r, u, q) at e)
      ]
    ]
  ]

  pub read_fields_inv :
      (P : S → Type 0)
      → ((s : S) (field wire : ℕ) (c : Bytes) (s' : S) (c' : Bytes)
          → P s
          → step s field wire c ≡ ok (s', c')
          → P s')
      → (s : S) (c : Bytes) (t : S) → P s
      → read_fields stops step s c ≡ ok t
      → P t
  unfolding read_fields
  read_fields_inv P keep s c t p e = read_fields_loop_inv P keep (length c) s c t p e

  -- A field whose key was written by an appender is read by one step.
  pub read_fields_field :
      (s : S) (key field wire : ℕ) (body : Bytes) (s' : S) (rest : Bytes)
      → IsU64 key
      → key / 8 ≡ field
      → key % 8 ≡ wire
      → stops key ≡ false
      → step s field wire body ≡ ok (s', rest)
      → read_fields stops step s (append_uvarint [] key ++ body) ≡ read_fields stops step s' rest
  read_fields_field s key field wire body s' rest hk number kind t q =
      read_fields-step s _ key body s' rest (varint-append_uvarint key body hk) t
        (rw (number, kind) q)
