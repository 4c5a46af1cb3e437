-- ===== src/HostAuth/Identity/Fingerprint.antt =====
-- The fingerprint of a parsed identity, internal/hostauth/crypto.go: `ParseHostIdentity`.
use mathlib.Core.Path.{subst}
use hdc_remote_kit.Base.{
  ◌≡◌, ◌||◌, Bool, Bytes, Result, err, false, length, ltb, none, not, ok, refl, some, true, Option,
  if◌then◌else◌,
}
use hdc_remote_kit.Strings.{is_nil, trim_space}
use hdc_remote_kit.HostAuth.Identity.{
  Crypto, HostIdentity, IdentityError, RsaPublicKey, hostname_valid, identity_of,
  max_hostname_bytes, max_pubkey_bytes, parse_host_identity, parse_rsa_public_key, split_identity,
  payload_incomplete, payload_too_large, invalid_hostname, payload_invalid,
}

HasFingerprint : Crypto → Result IdentityError HostIdentity → Type 0
HasFingerprint crypto (err e) = Unit
HasFingerprint crypto (ok identity) = identity.fingerprint ≡ crypto.hex_sha256 identity.public_key

if-HasFingerprint :
    (crypto : Crypto) (b : Bool) (e : IdentityError) (r : Result IdentityError HostIdentity)
    → HasFingerprint crypto r
    → HasFingerprint crypto (if b then err e else r)
unfolding HasFingerprint
if-HasFingerprint crypto true e r h = tt
if-HasFingerprint crypto false e r h = h

key-HasFingerprint :
    (crypto : Crypto) (hostname public_key : Bytes) (key : Result IdentityError RsaPublicKey)
    → HasFingerprint crypto (elim key [
      | err e ↦ err e
      | ok _ ↦ ok (record {
        hostname = hostname;
        public_key = public_key;
        fingerprint = crypto.hex_sha256 public_key;
      })
    ])
unfolding HasFingerprint
key-HasFingerprint crypto hostname public_key (err e) = tt
key-HasFingerprint crypto hostname public_key (ok key) = refl

identity_of-HasFingerprint :
    (crypto : Crypto) (hostname public_key : Bytes)
    → HasFingerprint crypto (identity_of crypto hostname public_key)
unfolding identity_of
identity_of-HasFingerprint crypto hostname public_key =
    if-HasFingerprint crypto (is_nil hostname || is_nil public_key) payload_incomplete _ (
      if-HasFingerprint crypto
        (ltb max_hostname_bytes (length hostname) || ltb max_pubkey_bytes (length public_key))
        payload_too_large _
        (if-HasFingerprint crypto (not (hostname_valid hostname)) invalid_hostname _
          (key-HasFingerprint crypto hostname public_key (parse_rsa_public_key crypto public_key))))

split-HasFingerprint :
    (crypto : Crypto) (split : Option (Bytes × Bytes))
    → HasFingerprint crypto (elim split [
      | none ↦ err payload_invalid
      | some parts ↦
          if is_nil parts.0 || is_nil parts.1
          then err payload_invalid
          else identity_of crypto (trim_space parts.0) (trim_space parts.1)
    ])
unfolding HasFingerprint
split-HasFingerprint crypto none = tt
split-HasFingerprint crypto (some parts) =
    if-HasFingerprint crypto (is_nil parts.0 || is_nil parts.1) payload_invalid
      (identity_of crypto (trim_space parts.0) (trim_space parts.1))
      (identity_of-HasFingerprint crypto (trim_space parts.0) (trim_space parts.1))

pub parse_host_identity-fingerprint :
    (crypto : Crypto) (buffer : Bytes) (identity : HostIdentity)
    → parse_host_identity crypto buffer ≡ ok identity
    → identity.fingerprint ≡ crypto.hex_sha256 identity.public_key
unfolding HasFingerprint parse_host_identity
parse_host_identity-fingerprint crypto buffer identity h =
    subst (HasFingerprint crypto) h (split-HasFingerprint crypto (split_identity buffer))
