-- ===== src/Protocol/Cursor/Tame.antt =====
-- Readers put together, as the decoders' switches do, and the bytes that they leave.
use hdc_remote_kit.Base.{
  ◌∙◌, inr, ok-injective, refl, err-injective, sym, inl, ok-ne-err, ap, Result-cases, ℕ, ◌≤◌, ◌≡◌,
  ◌≢◌, Bool, true, false, Bytes, Result, ok, err, ◌>>=◌, if◌then◌else◌, length, arith,
}
use hdc_remote_kit.Protocol.Cursor.{Error, out_of_fuel, FieldStep, varint_value, string_value, skip}
use hdc_remote_kit.Protocol.Cursor.Fields.{
  varint_value_shorter, varint_value-ne-fuel, string_value_shorter, string_value-ne-fuel,
  skip_shorter, skip-ne-fuel,
}
use hdc_remote_kit.Protocol.Cursor.Loop.{Consumes}

-- The result of a reader that was given the cursor `c`.
pub record IsTame {S : Type 0} (c : Bytes) (r : Result Error (S × Bytes)) : Type 0 where
  pub shorter : (s : S) (c' : Bytes) → r ≡ ok (s, c') → length c' ≤ length c
  pub has_fuel : r ≢ err out_of_fuel

pub IsTame-ok : {S : Type 0} (c : Bytes) (s : S) → IsTame c (ok (s, c))
IsTame-ok {S} c s = record {
  shorter = λ t c' e.
      omega (arith, ap (λ (d : Bytes). length d) (ap (λ (p : S × Bytes). p.1) (ok-injective e)));
  has_fuel = λ e. cc;
}

pub IsTame-err : {S : Type 0} (c : Bytes) (x : Error) → x ≢ out_of_fuel → IsTame {S = S} c (err x)
IsTame-err c x h = record {
  shorter = λ s c' e. absurd (ok-ne-err (sym e));
  has_fuel = λ e. h (err-injective e);
}

pub IsTame-if :
    {S : Type 0} (c : Bytes) (b : Bool) (x y : Result Error (S × Bytes))
    → IsTame c x
    → IsTame c y
    → IsTame c (if b then x else y)
IsTame-if c true x y h k = h
IsTame-if c false x y h k = k

pub IsTame-bind :
    {S T : Type 0} (c : Bytes) (m : Result Error (S × Bytes))
    (f : S × Bytes → Result Error (T × Bytes))
    → IsTame c m
    → ((s : S) (d : Bytes) → IsTame d (f (s, d)))
    → IsTame c (m >>= f)
IsTame-bind c (ok (s, d)) f h k = record {
  shorter = λ t c' e. omega (arith, h.shorter s d refl, (k s d).shorter t c' e);
  has_fuel = (k s d).has_fuel;
}
IsTame-bind c (err x) f h k = record {
  shorter = λ s c' e. absurd (ok-ne-err (sym e));
  has_fuel = λ e. h.has_fuel (ap err (err-injective e));
}

pub varint_value-IsTame : (wire : ℕ) (c : Bytes) → IsTame c (varint_value wire c)
varint_value-IsTame wire c = record {
  shorter = varint_value_shorter wire c;
  has_fuel = varint_value-ne-fuel wire c;
}

pub string_value-IsTame : (wire : ℕ) (c : Bytes) → IsTame c (string_value wire c)
string_value-IsTame wire c = record {
  shorter = string_value_shorter wire c;
  has_fuel = string_value-ne-fuel wire c;
}

-- A reader's value stored into the state.
pub IsTame-store :
    {S T : Type 0} (c : Bytes) (m : Result Error (S × Bytes)) (g : S → T)
    → IsTame c m
    → IsTame c (m >>= λ r. ok (g r.0, r.1))
IsTame-store c m g h = IsTame-bind c m (λ r. ok (g r.0, r.1)) h (λ s d. IsTame-ok d (g s))

pub IsTame-skip :
    {S : Type 0} (wire : ℕ) (c : Bytes) (s : S) → IsTame c (skip wire c >>= λ d. ok (s, d))
IsTame-skip {S} wire c s = elim (Result-cases (skip wire c)) [
  | inl (d, r) ↦ rw r (record {
    shorter = λ t c' e.
        omega (arith, skip_shorter wire c d r, ap (λ (p : S × Bytes). length p.1) (ok-injective e));
    has_fuel = λ e. cc;
  })
  | inr (x, r) ↦ rw r (IsTame-err c x (λ e. skip-ne-fuel wire c (r ∙ ap err e)))
]

pub Consumes-of_IsTame :
    {S : Type 0} (step : FieldStep S)
    → ((s : S) (field wire : ℕ) (c : Bytes) → IsTame c (step s field wire c))
    → Consumes step
Consumes-of_IsTame step h = record {
  shorter = λ s field wire c. (h s field wire c).shorter;
  has_fuel = λ s field wire c. (h s field wire c).has_fuel;
}
