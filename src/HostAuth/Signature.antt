-- ===== src/HostAuth/Signature.antt =====
-- The answer to a challenge, internal/hostauth/crypto.go: `VerifyChallenge`,
-- `decodeChallengeSignature` and `rsaPublicDecryptPKCS1v15`.
use hdc_remote_kit.Base.{
  true, false, ◌^◌, ok, leb, ◌||◌, zero, err, bytes_eq, ◌%◌, some, not, ltb, length, [], ◌==◌, ◌/◌,
  ◌+◌, ◌*◌, none, if◌then◌else◌, Bool, ◌∷◌, suc, Option, ℕ, Bytes,
}
use hdc_remote_kit.HostAuth.Identity.{
  rsa_encrypt, rsa_3072_sha512, parse_rsa_public_key, RsaPublicKey, AuthType, Crypto,
}
use hdc_remote_kit.Strings.{space_width}

-- strings.Map that drops white space; `skip` bytes of a space are still to go. A byte that is not
-- UTF-8 stays what it is, where Go puts U+FFFD: base64 refuses either.
pub drop_spaces : ℕ → Bytes → Bytes
drop_spaces skip [] = []
drop_spaces (suc skip) (c ∷ text) = drop_spaces skip text
drop_spaces zero (c ∷ text) = elim (space_width (c ∷ text)) [
  | zero ↦ c ∷ drop_spaces 0 text
  | suc more ↦ drop_spaces more text
]

non_empty : Bytes → Option Bytes
non_empty [] = none
non_empty (c ∷ text) = some (c ∷ text)

pub decode_challenge_signature : Crypto → Bytes → Option Bytes
decode_challenge_signature crypto signature = elim (non_empty (drop_spaces 0 signature)) [
  | none ↦ none
  | some trimmed ↦ elim (crypto.decode_base64 trimmed) [ none ↦ none | some raw ↦ non_empty raw ]
]

-- (*big.Int).SetBytes and FillBytes, with the most significant byte first.
pub big_of_bytes : ℕ → Bytes → ℕ
big_of_bytes value [] = value
big_of_bytes value (c ∷ text) = big_of_bytes (value * 256 + c) text

pub fill_bytes : ℕ → ℕ → Bytes → Bytes
fill_bytes zero value filled = filled
fill_bytes (suc size) value filled = fill_bytes size (value / 256) (value % 256 ∷ filled)

-- The loop that passes over the 0xff bytes from index 2 on.
skip_ff : ℕ → Bytes → ℕ × Bytes
skip_ff index [] = (index, [])
skip_ff index (c ∷ text) = elim (c == 0xff) [
  | true ↦ skip_ff (index + 1) text
  | false ↦ (index, c ∷ text)
]

message_after : ℕ × Bytes → Option Bytes
message_after (index, []) = none
message_after (index, c ∷ text) = if ltb index 10 || not (c == 0) then none else some text

pub strip_padding : Bytes → Option Bytes
strip_padding (a ∷ b ∷ text) =
    if not (a == 0) || not (b == 1) then none else message_after (skip_ff 2 text)
strip_padding _ = none

-- Exp(c, e, n) is `c ^ e % n`.
pub rsa_public_decrypt : Crypto → RsaPublicKey → Bytes → Option Bytes
rsa_public_decrypt crypto key cipher =
    let size = (crypto.bit_len key.modulus + 7) / 8 in
    let c = big_of_bytes 0 cipher in
    if length cipher == 0 || ltb size (length cipher)
    then none
    else if leb key.modulus c
    then none
    else strip_padding (fill_bytes size (c ^ key.exponent % key.modulus) [])

plain_is : Bytes → Option Bytes → Bool
plain_is token none = false
plain_is token (some plain) = bytes_eq plain token

check_answer : Crypto → RsaPublicKey → Bytes → Bytes → AuthType → Bool
check_answer crypto key token raw rsa_3072_sha512 = crypto.verify_pss key (crypto.sha512 token) raw
check_answer crypto key token raw rsa_encrypt = plain_is token (rsa_public_decrypt crypto key raw)

-- Whether `VerifyChallenge` returns no error.
pub verify_challenge : Crypto → Bytes → Bytes → Bytes → AuthType → Bool
verify_challenge crypto public_key token signature auth_type =
    elim (parse_rsa_public_key crypto public_key) [
      | err _ ↦ false
      | ok key ↦ elim (decode_challenge_signature crypto signature) [
        | none ↦ false
        | some raw ↦ check_answer crypto key token raw auth_type
      ]
    ]
