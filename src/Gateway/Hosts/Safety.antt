-- ===== src/Gateway/Hosts/Safety.antt =====
-- The decision on a public key keeps the connection's invariant, internal/gateway/handshake.go.
use hdc_remote_kit.HostAuth.Decision.{expired, deny_host, allow_forever, allow_once, decision_text}
use hdc_remote_kit.Gateway.Hosts.{
  HostDecision, unauthorized_denied, is_wait_pubkey, unauthorized_notice, IdentityError,
  HostIdentity, trust_query, known_reason, trusted_host, submit_host, set_deadline,
  send_signature_challenge, known_identity, denied_host, decided_host, check_host, ask_operator,
  SessionHandshake, refuse, handle_auth_public_key,
}
use hdc_remote_kit.Gateway.Permission.{vouched, KeyMatches, Inv, allows, Permitted}
use hdc_remote_kit.Gateway.Permission.Lemmas.{
  vouched_submitted, vouched_trusted, vouched_off, if-Inv, emit-Inv, phase-Inv, vouched_later,
  write_bytes-Inv, audit-Inv, and_then-Inv,
}
use hdc_remote_kit.Base.{
  ◌∷◌, none, not, if-holds, Bool, inr, refl, ok, if◌then◌else◌, ltb, inl, codes, err, Bool-cases,
  true, some, false, ◌≡◌, Option, ℕ, Result, Bytes,
}
use mathlib.Core.Path.{subst, sym}
use hdc_remote_kit.Gateway.Connection.{
  phase_done, phase_wait_pubkey, phase_start, Phase, audit_of, set_close_reason, read_deadline_set,
  audited, submitted, phase_wait_signature, device_name, now, audit, asked_trusted,
  read_deadline_cleared, auth_rejected, emit, Connection, World, Setup,
}
use hdc_remote_kit.HostAuth.Identity.Fingerprint.{parse_host_identity-fingerprint}
use hdc_remote_kit.HostAuth.Identity.{parse_host_identity}
use hdc_remote_kit.Protocol.Handshake.Replies.{
  encode_handshake_unauthorized, encode_handshake_signature_challenge,
}
use hdc_remote_kit.Gateway.Handshake.{is_wait_signature}
use hdc_remote_kit.Protocol.Frame.{Frame}

not_signature :
    (phase : Phase) → not (is_wait_pubkey phase) ≡ false → is_wait_signature phase ≡ false
unfolding is_wait_pubkey is_wait_signature
not_signature phase_start h = refl
not_signature phase_wait_pubkey h = refl
not_signature phase_wait_signature h = absurd cc
not_signature phase_done h = refl

module _ (setup : Setup) (w : World) where
  pub refuse-Inv :
      (frame : Frame) (reason message : Bytes) (c : Connection)
      → Inv setup c
      → Inv setup (refuse frame reason message c).1
  unfolding refuse
  refuse-Inv frame reason message c h = audit-Inv setup frame false reason c h

  -- The challenge is sent only to a host that is vouched for.
  send_signature_challenge-Inv :
      (channel_id : ℕ) (c : Connection)
      → vouched setup c.auth_identity.fingerprint c.log ≡ true
      → Inv setup c
      → Inv setup (send_signature_challenge w channel_id c).1
  unfolding send_signature_challenge
  send_signature_challenge-Inv channel_id c v h =
      write_bytes-Inv setup w
        (encode_handshake_signature_challenge channel_id c.handshake_version c.auth_token)
        (record c { auth_phase = phase_wait_signature })
        (phase-Inv setup c (record c { auth_phase = phase_wait_signature }) refl refl refl (λ e. v)
          h.4 h.5 h)

  challenge_audited-Inv :
      (frame : Frame) (reason : Bytes) (c : Connection)
      → vouched setup c.auth_identity.fingerprint c.log ≡ true
      → Inv setup c
      → Inv setup (send_signature_challenge w frame.channel_id (audit frame true reason c)).1
  challenge_audited-Inv frame reason c v h =
      send_signature_challenge-Inv frame.channel_id (audit frame true reason c)
        (vouched_later setup c.auth_identity.fingerprint (audited (audit_of frame true reason c))
          c.log v)
        (audit-Inv setup frame true reason c h)

  trusted_host-Inv :
      (frame : Frame) (c : Connection)
      → vouched setup c.auth_identity.fingerprint c.log ≡ true
      → Inv setup c
      → Inv setup (trusted_host setup w frame c).1
  unfolding trusted_host known_reason Permitted
  trusted_host-Inv frame c v h =
      let fingerprint = c.auth_identity.fingerprint in
      let answer = w.is_trusted (now c) fingerprint in
      let asked = asked_trusted fingerprint answer in
      if-holds {A = Bytes × Connection}
        (λ r. Inv setup (send_signature_challenge w frame.channel_id (audit frame true r.0 r.1)).1)
        setup.host_auth_off
        (if answer then codes "known host" else codes "host auth off", emit asked c)
        (codes "known host", c)
        (λ e.
          challenge_audited-Inv frame (if answer then codes "known host" else codes "host auth off")
            (emit asked c) (vouched_later setup fingerprint asked c.log v)
            (emit-Inv setup asked c tt h))
        (λ e. challenge_audited-Inv frame (codes "known host") c v h)

  denied_host-Inv :
      (frame : Frame) (reason close_reason notice : Bytes) (c : Connection)
      → Inv setup c
      → Inv setup (denied_host setup w frame reason close_reason notice c).1
  unfolding denied_host
  denied_host-Inv frame reason close_reason notice c h =
      and_then-Inv setup _ (λ c'. (auth_rejected, c'))
        (write_bytes-Inv setup w
          (encode_handshake_unauthorized frame.channel_id c.handshake_version (device_name setup)
            notice)
          (set_close_reason close_reason
            (record (audit frame false reason c) { auth_reject_reason = reason }))
          (audit-Inv setup frame false reason c h))
        (λ c' h'. h')

  -- The answer of the registry stands in the log when it is acted on.
  decided_host-Inv :
      (frame : Frame) (decision : Option HostDecision) (c : Connection)
      → ((d : HostDecision)
          → decision ≡ some d
          → allows d ≡ true
          → vouched setup c.auth_identity.fingerprint c.log ≡ true)
      → Inv setup c
      → Inv setup (decided_host setup w frame decision c).1
  unfolding decided_host allows
  decided_host-Inv frame none c v h = audit-Inv setup frame false (codes "auth submit failed") c h
  decided_host-Inv frame (some allow_once) c v h =
      challenge_audited-Inv frame (decision_text allow_once) c (v allow_once refl refl) h
  decided_host-Inv frame (some allow_forever) c v h =
      challenge_audited-Inv frame (decision_text allow_forever) c (v allow_forever refl refl) h
  decided_host-Inv frame (some deny_host) c v h =
      denied_host-Inv frame (decision_text deny_host) (codes "deny") unauthorized_denied c h
  decided_host-Inv frame (some expired) c v h =
      denied_host-Inv frame (decision_text expired) (codes "timeout") unauthorized_notice c h

  -- After the answer the deadline is set again.
  decided_later-Inv :
      (frame : Frame) (decision : Option HostDecision) (c : Connection)
      → ((d : HostDecision)
          → decision ≡ some d
          → allows d ≡ true
          → vouched setup c.auth_identity.fingerprint c.log ≡ true)
      → Inv setup c
      → Inv setup (decided_host setup w frame decision (set_deadline setup c)).1
  unfolding set_deadline Permitted
  decided_later-Inv frame decision c v h = elim (Bool-cases (ltb 0 setup.handshake_timeout)) [
    | inl e ↦ rw e (
        decided_host-Inv frame decision (emit read_deadline_set c)
          (λ d p q.
            vouched_later setup c.auth_identity.fingerprint read_deadline_set c.log (v d p q))
          (emit-Inv setup read_deadline_set c tt h))
    | inr e ↦ rw e (decided_host-Inv frame decision c v h)
  ]

  submit_host-Inv :
      (frame : Frame) (c : Connection) → Inv setup c → Inv setup (submit_host setup w frame c).1
  unfolding submit_host Permitted
  submit_host-Inv frame c h =
      let fingerprint = c.auth_identity.fingerprint in
      let c' = emit read_deadline_cleared c in
      let decision = w.operator_decision (now c') fingerprint in
      decided_later-Inv frame decision (emit (submitted fingerprint decision) c')
        (λ d p q.
          subst (λ o. vouched setup fingerprint (submitted fingerprint o ∷ c'.log) ≡ true) (sym p)
            (vouched_submitted setup fingerprint d c'.log q))
        (emit-Inv setup (submitted fingerprint decision) c' tt
          (emit-Inv setup read_deadline_cleared c tt h))

  ask_operator-Inv :
      (frame : Frame) (c : Connection) → Inv setup c → Inv setup (ask_operator setup w frame c).1
  unfolding ask_operator
  ask_operator-Inv frame c h =
      and_then-Inv setup _ (submit_host setup w frame)
        (write_bytes-Inv setup w
          (encode_handshake_unauthorized frame.channel_id c.handshake_version (device_name setup)
            unauthorized_notice)
          c h)
        (submit_host-Inv frame)

  answered_host-Inv :
      (frame : Frame) (answer : Bool) (c : Connection)
      → Inv setup c
      → Inv setup
          (check_host setup w frame
            (answer, emit (asked_trusted c.auth_identity.fingerprint answer) c)).1
  unfolding check_host Permitted
  answered_host-Inv frame true c h =
      let asked = asked_trusted c.auth_identity.fingerprint true in
      trusted_host-Inv frame (emit asked c)
        (vouched_trusted setup c.auth_identity.fingerprint c.log) (emit-Inv setup asked c tt h)
  answered_host-Inv frame false c h =
      let asked = asked_trusted c.auth_identity.fingerprint false in
      ask_operator-Inv frame (emit asked c) (emit-Inv setup asked c tt h)

  check_host-Inv :
      (frame : Frame) (c : Connection)
      → Inv setup c
      → Inv setup (check_host setup w frame (trust_query setup w c.auth_identity.fingerprint c)).1
  unfolding check_host trust_query
  check_host-Inv frame c h =
      let answer = w.is_trusted (now c) c.auth_identity.fingerprint in
      if-holds (λ r. Inv setup (check_host setup w frame r).1) setup.host_auth_off (true, c)
        (answer, emit (asked_trusted c.auth_identity.fingerprint answer) c)
        (λ e. trusted_host-Inv frame c (vouched_off setup c.auth_identity.fingerprint c.log e) h)
        (λ e. answered_host-Inv frame answer c h)

  known_identity-Inv :
      (frame : Frame) (parsed : Result IdentityError HostIdentity) (c : Connection)
      → is_wait_signature c.auth_phase ≡ false
      → ((i : HostIdentity) → parsed ≡ ok i → i.fingerprint ≡ setup.crypto.hex_sha256 i.public_key)
      → Inv setup c
      → Inv setup (known_identity setup w frame parsed c).1
  unfolding known_identity KeyMatches
  known_identity-Inv frame (err e) c p k h =
      refuse-Inv frame (codes "invalid host public key") (codes "Invalid HDC host public key.") c h
  known_identity-Inv frame (ok identity) c p k h =
      let d = record c { auth_identity = identity } in
      check_host-Inv frame d
        (phase-Inv setup c d refl refl refl (λ q. absurd cc) h.4 (inr (k identity refl)) h)

  pub handle_auth_public_key-Inv :
      (frame : Frame) (handshake : SessionHandshake) (c : Connection)
      → Inv setup c
      → Inv setup (handle_auth_public_key setup w frame handshake c).1
  unfolding handle_auth_public_key
  handle_auth_public_key-Inv frame handshake c h =
      if-Inv setup (not (is_wait_pubkey c.auth_phase)) _ _
        (λ e.
          refuse-Inv frame (codes "unexpected public key") (codes "Invalid HDC daemon handshake.") c
            h)
        (λ e.
          known_identity-Inv frame (parse_host_identity setup.crypto handshake.buffer) c
            (not_signature c.auth_phase e)
            (parse_host_identity-fingerprint setup.crypto handshake.buffer) h)
