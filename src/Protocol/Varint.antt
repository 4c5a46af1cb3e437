-- ===== src/Protocol/Varint.antt =====
-- binary.AppendUvarint and binary.ReadUvarint of Go's standard library, by which
-- internal/protocol/daemon.go writes and reads every number of a message.
pub mod RoundTrip
use hdc_remote_kit.Base.{
  ℕ, zero, suc, ◌+◌, ◌-◌, ◌*◌, ◌/◌, ◌%◌, ◌^◌, ◌<◌, bit_or, List, [], ◌∷◌, ◌++◌, Bytes, Result, ok,
  err, leb, ltb, ◌==◌, ◌&&◌, if◌then◌else◌,
}

abbrev pub IsByte : ℕ → Type 0
IsByte b = b < 256

abbrev pub IsU8 : ℕ → Type 0
IsU8 v = v < 2 ^ 8

abbrev pub IsU32 : ℕ → Type 0
IsU32 v = v < 2 ^ 32

abbrev pub IsU64 : ℕ → Type 0
IsU64 v = v < 2 ^ 64

-- What ReadUvarint answers besides a number: no byte at all, the end inside a number, or a number
-- of more than 64 bits.
pub data VarintError : Type 0 where
  eof unexpected_eof overflow : VarintError

-- `for x >= 0x80 { append byte(x) | 0x80; x >>= 7 }; append byte(x)`. The fuel counts the rounds;
-- a uint64 takes 9 at most.
uvarint_loop : ℕ → ℕ → Bytes
uvarint_loop zero x = (x % 256) ∷ []
uvarint_loop (suc fuel) x =
    let rest = bit_or (x % 256) 0x80 ∷ uvarint_loop fuel (x / 128) in
    if leb 0x80 x then rest else (x % 256) ∷ []

pub append_uvarint : Bytes → ℕ → Bytes
append_uvarint buf x = buf ++ uvarint_loop 9 x

-- The loop of ReadUvarint with `left` rounds to go, at round `10 - left`, with shift `s`. In
-- `x | uint64(b) << s` the two operands share no bit, so it is a sum.
read_uvarint_loop : ℕ → ℕ → ℕ → Bytes → Result VarintError (ℕ × Bytes)
read_uvarint_loop zero x s bytes = err overflow
read_uvarint_loop (suc left) x s [] = err (if 10 == suc left then eof else unexpected_eof)
read_uvarint_loop (suc left) x s (b ∷ bytes) =
    let more = read_uvarint_loop left (x + b % 128 * 2 ^ s % 2 ^ 64) (s + 7) bytes in
    if ltb b 0x80
    then (if left == 0 && ltb 1 b then err overflow else ok (x + b * 2 ^ s % 2 ^ 64, bytes))
    else more

-- The number at the front, and the unread bytes.
pub read_uvarint : Bytes → Result VarintError (ℕ × Bytes)
read_uvarint bytes = read_uvarint_loop 10 0 0 bytes
