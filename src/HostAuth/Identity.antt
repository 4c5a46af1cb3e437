-- ===== src/HostAuth/Identity.antt =====
-- The remote host's identity, internal/hostauth/crypto.go: `ParseHostIdentity`,
-- `ParseClientAuthType`, `ShortFingerprint` and `parseRSAPublicKey`. PEM, X.509 and SHA-256 are
-- Go's: parameters.
pub mod Fingerprint
use hdc_remote_kit.Protocol.Handshake.Tlv.{
  handshake_auth_type_sha512, handshake_tlv_auth_type, field_value, parse_handshake_tlv,
}
use hdc_remote_kit.Base.{
  ◌&&◌, not, false, ◌==◌, length, leb, ◌∷◌, ◌||◌, some, bytes_eq, true, ok, none, ltb, ◌*◌, take,
  if◌then◌else◌, err, Option, Bool, ℕ, [], Result, Bytes,
}
use hdc_remote_kit.Strings.{trim_space, is_nil}

pub data AuthType : Type 0 where
  rsa_encrypt rsa_3072_sha512 : AuthType

pub is_sha512 : AuthType → Bool
is_sha512 rsa_encrypt = false
is_sha512 rsa_3072_sha512 = true

pub record HostIdentity : Type 0 where
  pub hostname : Bytes
  pub public_key : Bytes
  pub fingerprint : Bytes

abbrev pub empty_identity : HostIdentity
empty_identity = record { hostname = []; public_key = []; fingerprint = [] }

pub record RsaPublicKey : Type 0 where
  pub modulus : ℕ
  pub exponent : ℕ

-- What a PEM block of a public key holds.
pub data PublicKey : Type 0 where
  rsa_key : RsaPublicKey → PublicKey
  other_key : PublicKey

-- What Go's packages pem, x509, sha256, sha512, hex, base64, rsa and big answer.
pub record Crypto : Type 0 where
  pub decode_pem : Bytes → Option Bytes
  pub parse_public_key : Bytes → Option PublicKey
  pub bit_len : ℕ → ℕ
  pub hex_sha256 : Bytes → Bytes
  pub sha512 : Bytes → Bytes
  pub decode_base64 : Bytes → Option Bytes
  pub verify_pss : RsaPublicKey → Bytes → Bytes → Bool

pub data IdentityError : Type 0 where
  payload_invalid payload_incomplete payload_too_large invalid_hostname : IdentityError
  not_pem invalid_key not_rsa key_too_weak : IdentityError

abbrev pub host_pubkey_separator : ℕ
host_pubkey_separator = 0x0c

abbrev pub max_hostname_bytes : ℕ
max_hostname_bytes = 256

abbrev pub max_pubkey_bytes : ℕ
max_pubkey_bytes = 8 * 1024

rsa_of_key : Crypto → PublicKey → Result IdentityError RsaPublicKey
rsa_of_key crypto other_key = err not_rsa
rsa_of_key crypto (rsa_key key) =
    if ltb (crypto.bit_len key.modulus) 2048 then err key_too_weak else ok key

pub parse_rsa_public_key : Crypto → Bytes → Result IdentityError RsaPublicKey
parse_rsa_public_key crypto text = elim (crypto.decode_pem text) [
  | none ↦ err not_pem
  | some block ↦ elim (crypto.parse_public_key block) [
    | none ↦ err invalid_key
    | some key ↦ rsa_of_key crypto key
  ]
]

-- What stands in front of the first separator, and what stands behind it.
pub split_identity : Bytes → Option (Bytes × Bytes)
split_identity [] = none
split_identity (c ∷ text) = elim (c == host_pubkey_separator) [
  | true ↦ some ([], text)
  | false ↦ elim (split_identity text) [ none ↦ none | some parts ↦ some (c ∷ parts.0, parts.1) ]
]

-- The loop over the characters of a host name, on bytes: the test refuses whatever is not ASCII.
pub hostname_valid : Bytes → Bool
hostname_valid [] = true
hostname_valid (c ∷ text) = leb 32 c && leb c 126 && hostname_valid text

pub identity_of : Crypto → Bytes → Bytes → Result IdentityError HostIdentity
identity_of crypto hostname public_key =
    if is_nil hostname || is_nil public_key
    then err payload_incomplete
    else if ltb max_hostname_bytes (length hostname) || ltb max_pubkey_bytes (length public_key)
    then err payload_too_large
    else if not (hostname_valid hostname)
    then err invalid_hostname
    else (elim (parse_rsa_public_key crypto public_key) [
      | err e ↦ err e
      | ok _ ↦ ok (record {
        hostname = hostname;
        public_key = public_key;
        fingerprint = crypto.hex_sha256 public_key;
      })
    ])

pub parse_host_identity : Crypto → Bytes → Result IdentityError HostIdentity
parse_host_identity crypto buffer = elim (split_identity buffer) [
  | none ↦ err payload_invalid
  | some parts ↦
      if is_nil parts.0 || is_nil parts.1
      then err payload_invalid
      else identity_of crypto (trim_space parts.0) (trim_space parts.1)
]

pub short_fingerprint : Bytes → Bytes
short_fingerprint fingerprint = take 16 (trim_space fingerprint)

pub parse_client_auth_type : Bytes → AuthType
parse_client_auth_type buffer = elim (parse_handshake_tlv buffer) [
  | err _ ↦ rsa_encrypt
  | ok fields ↦
      if bytes_eq (field_value handshake_tlv_auth_type fields) handshake_auth_type_sha512
      then rsa_3072_sha512
      else rsa_encrypt
]
