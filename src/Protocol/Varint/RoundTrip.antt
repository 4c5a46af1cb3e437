-- ===== src/Protocol/Varint/RoundTrip.antt =====
-- Varints written and read back, and the bytes that a read takes.
use hdc_remote_kit.Base.{
  ℕ, zero, suc, ◌+◌, ◌*◌, ◌/◌, ◌%◌, ◌^◌, ◌≤◌, ◌<◌, ◌≡◌, ap, refl, ◌∙◌, [], ◌∷◌, ◌++◌, Bytes, ok,
  length, arith, bit_or-marker, le→leb,
}
use hdc_remote_kit.Protocol.Varint.{
  IsU64, uvarint_loop, append_uvarint, read_uvarint_loop, read_uvarint,
}
use native.Mathlib.Decide.{dec_lt}
use native.Mathlib.Nat.{div-add-mod}
use native.Mathlib.Numerals.{towards_suc}

next_shift : (s : ℕ) → 2 ^ (s + 7) ≡ 128 * 2 ^ s
next_shift s = simp towards_suc (omega arith)

low_and_high : (x s : ℕ) → x * 2 ^ s ≡ x % 128 * 2 ^ s + x / 128 * 2 ^ (s + 7)
low_and_high x s = omega (
  arith,
  ap (λ (t : ℕ). t * 2 ^ s) (div-add-mod x 128),
  ap (λ (t : ℕ). x / 128 * t) (next_shift s),
)

final_byte :
    (left w x s : ℕ) (rest : Bytes)
    → w < 128
    → (left ≡ 0 → w ≤ 1)
    → x + w * 2 ^ s < 2 ^ 64
    → read_uvarint_loop (suc left) x s (w ∷ rest) ≡ ok (x + w * 2 ^ s, rest)
unfolding read_uvarint_loop
final_byte left w x s rest hw hl fits = ground arith

marked_byte :
    (left g x s : ℕ) (rest : Bytes)
    → g < 128
    → x + g * 2 ^ s < 2 ^ 64
    → read_uvarint_loop (suc left) x s ((g + 128) ∷ rest)
      ≡ read_uvarint_loop left (x + g * 2 ^ s) (s + 7) rest
unfolding read_uvarint_loop
marked_byte left g x s rest hg fits = ground arith

uvarint_step_small : (fuel x : ℕ) → x < 128 → uvarint_loop fuel x ≡ x ∷ []
unfolding uvarint_loop
uvarint_step_small zero x h = ground arith
uvarint_step_small (suc fuel) x h = ground arith

uvarint_step_large :
    (fuel x : ℕ)
    → 128 ≤ x
    → uvarint_loop (suc fuel) x ≡ (x % 128 + 128) ∷ uvarint_loop fuel (x / 128)
unfolding uvarint_loop
uvarint_step_large fuel x h =
    rw (le→leb 0x80 x h, bit_or-marker (x % 256) (omega arith)) (ground arith)

-- The loop, started anywhere: `w` is what is still to be read, and it counts from bit `s` on.
read_uvarint_loop-uvarint :
    (k w x s : ℕ) (rest : Bytes)
    → s + 7 * k ≡ 63
    → x + w * 2 ^ s < 2 ^ 64
    → read_uvarint_loop (suc k) x s (uvarint_loop k w ++ rest) ≡ ok (x + w * 2 ^ s, rest)
read_uvarint_loop-uvarint zero w x s rest hs fits =
    let last : s ≡ 63 = omega arith in
    let top : 2 ^ s ≡ 2 ^ 63 = ap (λ (t : ℕ). 2 ^ t) last in
    let one : w ≤ 1 = omega (arith, ap (λ (t : ℕ). w * t) top) in
    rw (uvarint_step_small zero w (omega arith))
      (final_byte zero w x s rest (omega arith) (λ _. one) fits)
read_uvarint_loop-uvarint (suc k) w x s rest hs fits = elim (dec_lt w 128) [
  | yes h ↦
      rw (uvarint_step_small (suc k) w h)
        (final_byte (suc k) w x s rest h (λ e. absurd (omega arith)) fits)
  | no h ↦
      rw
        (
          uvarint_step_large k w (omega arith),
          marked_byte (suc k) (w % 128) x s (uvarint_loop k (w / 128) ++ rest) (omega arith)
              (omega (arith, low_and_high w s)),
        )
        (read_uvarint_loop-uvarint k (w / 128) (x + w % 128 * 2 ^ s) (s + 7) rest (omega arith)
            (omega (arith, low_and_high w s))
          ∙ ap (λ (t : ℕ). ok (t, rest)) (omega (arith, low_and_high w s)))
]

-- Reading what was appended for a uint64 gives that number, and leaves what follows.
pub read_uvarint-append_uvarint :
    (v : ℕ) (rest : Bytes) → IsU64 v → read_uvarint (append_uvarint [] v ++ rest) ≡ ok (v, rest)
unfolding read_uvarint append_uvarint
read_uvarint-append_uvarint v rest h = ground (arith, read_uvarint_loop-uvarint 9 v 0 0 rest)

read_uvarint_loop_shorter :
    (left x s : ℕ) (bytes : Bytes) (v : ℕ) (rest : Bytes)
    → read_uvarint_loop left x s bytes ≡ ok (v, rest)
    → length rest < length bytes
unfolding read_uvarint_loop
read_uvarint_loop_shorter zero x s bytes v rest e = cc
read_uvarint_loop_shorter (suc left) x s [] v rest e = cc
read_uvarint_loop_shorter (suc left) x s (b ∷ bytes) v rest e =
    ground
      (arith, read_uvarint_loop_shorter left (x + b % 128 * 2 ^ s % 2 ^ 64) (s + 7) bytes v rest)

pub read_uvarint_shorter :
    (bytes : Bytes) (v : ℕ) (rest : Bytes)
    → read_uvarint bytes ≡ ok (v, rest)
    → length rest < length bytes
unfolding read_uvarint
read_uvarint_shorter bytes v rest e = read_uvarint_loop_shorter 10 0 0 bytes v rest e

pub append_uvarint_append :
    (buf : Bytes) (v : ℕ) → append_uvarint buf v ≡ buf ++ append_uvarint [] v
unfolding append_uvarint
append_uvarint_append buf v = refl

length-uvarint_loop :
    (k x : ℕ) → (1 ≤ length (uvarint_loop k x)) × (length (uvarint_loop k x) ≤ k + 1)
unfolding uvarint_loop
length-uvarint_loop zero x = omega arith
length-uvarint_loop (suc k) x = ground (arith, length-uvarint_loop k (x / 128))

-- A number takes one to ten bytes.
pub length-append_uvarint :
    (x : ℕ) → (1 ≤ length (append_uvarint [] x)) × (length (append_uvarint [] x) ≤ 10)
unfolding append_uvarint
length-append_uvarint x = length-uvarint_loop 9 x

pub read_uvarint_zero : (rest : Bytes) → read_uvarint (0 ∷ rest) ≡ ok (0, rest)
unfolding read_uvarint read_uvarint_loop
read_uvarint_zero rest = refl

-- A field's key is one byte.
pub length-append_uvarint_small : (x : ℕ) → x < 128 → length (append_uvarint [] x) ≡ 1
unfolding append_uvarint
length-append_uvarint_small x h = rw (uvarint_step_small 9 x h)
