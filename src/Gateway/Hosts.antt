-- ===== src/Gateway/Hosts.antt =====
-- The decision on a host's public key, internal/gateway/handshake.go: `handleAuthPublicKey` and
-- `sendSignatureChallenge`.
pub mod Safety
use hdc_remote_kit.HostAuth.Decision.{
  expired, deny_host, allow_forever, allow_once, decision_text, HostDecision,
}
use hdc_remote_kit.Gateway.Connection.{
  auth_rejected, set_close_reason, submitted, phase_wait_signature, device_name, read_deadline_set,
  read_deadline_cleared, phase_wait_pubkey, asked_trusted, write_bytes, violation, failed, emit,
  audit, and_then, now, Outcome, Connection, World, Setup, Phase,
}
use hdc_remote_kit.Base.{
  ok, none, some, err, not, ltb, false, ◌++◌, true, if◌then◌else◌, [], ◌∷◌, ℕ, codes, Result,
  Option, Bool, Bytes,
}
use hdc_remote_kit.Protocol.Handshake.Replies.{
  encode_handshake_unauthorized, encode_handshake_signature_challenge,
}
use hdc_remote_kit.HostAuth.Identity.{parse_host_identity, HostIdentity, IdentityError}
use hdc_remote_kit.Protocol.Handshake.{SessionHandshake}
use hdc_remote_kit.Protocol.Frame.{Frame}

abbrev newline : Bytes
newline = 13 ∷ 10 ∷ []

pub unauthorized_notice : Bytes
unauthorized_notice =
    codes "[E000002]:The device unauthorized."
    ++ (newline
        ++ (codes "This server's public key is not set."
            ++ (newline
                ++ (codes "Please check for a confirmation dialog on your device."
                    ++ (newline ++ codes "Otherwise try 'hdc kill' if that seems wrong.")))))

pub unauthorized_denied : Bytes
unauthorized_denied =
    codes "[E000003]:The device unauthorized."
    ++ (newline
        ++ (codes "The user denied the access for the device."
            ++ (newline
                ++ (codes "Please execute 'hdc kill' and redo your command,"
                    ++ (newline ++ codes "then check for a confirmation dialog on your device.")))))

-- An audited refusal with its reason.
pub refuse : Frame → Bytes → Bytes → Connection → Outcome
refuse frame reason message c =
    (violation message, record (audit frame false reason c) { auth_reject_reason = reason })

send_signature_challenge : World → ℕ → Connection → Outcome
send_signature_challenge w channel_id c =
    write_bytes w (encode_handshake_signature_challenge channel_id c.handshake_version c.auth_token)
      (record c { auth_phase = phase_wait_signature })

-- The `||` that asks the registry only where host authentication is on.
trust_query : Setup → World → Bytes → Connection → Bool × Connection
trust_query setup w fingerprint c =
    let answer = w.is_trusted (now c) fingerprint in
    if setup.host_auth_off then (true, c) else (answer, emit (asked_trusted fingerprint answer) c)

-- The reason of the audit; it asks once more where host authentication is off.
known_reason : Setup → World → Bytes → Connection → Bytes × Connection
known_reason setup w fingerprint c =
    let answer = w.is_trusted (now c) fingerprint in
    if setup.host_auth_off
    then (
      if answer then codes "known host" else codes "host auth off",
      emit (asked_trusted fingerprint answer) c,
    )
    else (codes "known host", c)

trusted_host : Setup → World → Frame → Connection → Outcome
trusted_host setup w frame c =
    let (reason, c') = known_reason setup w c.auth_identity.fingerprint c in
    send_signature_challenge w frame.channel_id (audit frame true reason c')

-- A decision other than the two that allow.
denied_host : Setup → World → Frame → Bytes → Bytes → Bytes → Connection → Outcome
denied_host setup w frame reason close_reason notice c =
    and_then
      (write_bytes w
        (encode_handshake_unauthorized frame.channel_id c.handshake_version (device_name setup)
          notice)
        (set_close_reason close_reason
          (record (audit frame false reason c) { auth_reject_reason = reason })))
      (λ c'. (auth_rejected, c'))

decided_host : Setup → World → Frame → Option HostDecision → Connection → Outcome
decided_host setup w frame none c = (
  failed,
  record (audit frame false (codes "auth submit failed") c) {
    auth_reject_reason = codes "auth submit failed";
  },
)
decided_host setup w frame (some allow_once) c =
    send_signature_challenge w frame.channel_id (audit frame true (decision_text allow_once) c)
decided_host setup w frame (some allow_forever) c =
    send_signature_challenge w frame.channel_id (audit frame true (decision_text allow_forever) c)
decided_host setup w frame (some deny_host) c =
    denied_host setup w frame (decision_text deny_host) (codes "deny") unauthorized_denied c
decided_host setup w frame (some expired) c =
    denied_host setup w frame (decision_text expired) (codes "timeout") unauthorized_notice c

-- `Submit` without the handshake's read deadline.
set_deadline : Setup → Connection → Connection
set_deadline setup c = if ltb 0 setup.handshake_timeout then emit read_deadline_set c else c

submit_host : Setup → World → Frame → Connection → Outcome
submit_host setup w frame c =
    let fingerprint = c.auth_identity.fingerprint in
    let c' = emit read_deadline_cleared c in
    let decision = w.operator_decision (now c') fingerprint in
    decided_host setup w frame decision
      (set_deadline setup (emit (submitted fingerprint decision) c'))

ask_operator : Setup → World → Frame → Connection → Outcome
ask_operator setup w frame c =
    and_then
      (write_bytes w
        (encode_handshake_unauthorized frame.channel_id c.handshake_version (device_name setup)
          unauthorized_notice)
        c)
      (submit_host setup w frame)

check_host : Setup → World → Frame → Bool × Connection → Outcome
check_host setup w frame (true, c) = trusted_host setup w frame c
check_host setup w frame (false, c) = ask_operator setup w frame c

known_identity : Setup → World → Frame → Result IdentityError HostIdentity → Connection → Outcome
known_identity setup w frame (err _) c =
    refuse frame (codes "invalid host public key") (codes "Invalid HDC host public key.") c
known_identity setup w frame (ok identity) c =
    check_host setup w frame
      (trust_query setup w identity.fingerprint (record c { auth_identity = identity }))

is_wait_pubkey : Phase → Bool
is_wait_pubkey phase_wait_pubkey = true
is_wait_pubkey _ = false

pub handle_auth_public_key : Setup → World → Frame → SessionHandshake → Connection → Outcome
handle_auth_public_key setup w frame handshake c =
    if not (is_wait_pubkey c.auth_phase)
    then refuse frame (codes "unexpected public key") (codes "Invalid HDC daemon handshake.") c
    else known_identity setup w frame (parse_host_identity setup.crypto handshake.buffer) c
