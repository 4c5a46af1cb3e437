-- ===== src/Gateway/Permission/Lemmas.antt =====
-- What adding an event to the log of a connection keeps, internal/gateway/gateway.go and
-- handshake.go.
use hdc_remote_kit.Base.{
  inl, inr, ◌∙◌, sym, bytes_eq_refl, arith, some, refl, if◌then◌else◌, [], ◌≡◌, ◌∷◌, ◌||◌, true,
  false, List, Bytes, Bool,
}
use hdc_remote_kit.Strings.{is_nil}
use hdc_remote_kit.Gateway.Connection.{
  token_made, auth_rejected, failed, fine, violation, new_connection, submitted, audit_of, sent,
  audited, write_bytes, emit, audit, authed, asked_trusted, and_then, World, Outcome, Connection,
  Setup, Event,
}
use hdc_remote_kit.HostAuth.Decision.{HostDecision}
use hdc_remote_kit.HostAuth.Identity.{AuthType, HostIdentity}
use hdc_remote_kit.Protocol.Frame.{Frame}
use hdc_remote_kit.Gateway.Handshake.{is_wait_signature}
use hdc_remote_kit.Gateway.Permission.{
  allows, submission_allows, vouch, vouches, vouched, is_authed, any_authed, is_token, made,
  Permitted, Safe, Bounded, TokenMade, KeyMatches, Inv,
}

or_right : (a b : Bool) → b ≡ true → (a || b) ≡ true
or_right true b h = refl
or_right false b h = h

or_swap : (a b c : Bool) → (a || c) ≡ true → (a || (b || c)) ≡ true
or_swap true b c h = refl
or_swap false b c h = or_right b c h

pub any_authed_later :
    (event : Event) (log : List Event) → any_authed log ≡ true → any_authed (event ∷ log) ≡ true
unfolding any_authed
any_authed_later event log h = or_right (is_authed event) (any_authed log) h

pub made_later :
    (token : Bytes) (event : Event) (log : List Event)
    → made token log ≡ true
    → made token (event ∷ log) ≡ true
unfolding made
made_later token event log h = or_right (is_token token event) (made token log) h

pub later-TokenMade :
    (token : Bytes) (event : Event) (log : List Event)
    → TokenMade token log
    → TokenMade token (event ∷ log)
unfolding TokenMade
later-TokenMade token event log (inl e) = inl e
later-TokenMade token event log (inr e) = inr (made_later token event log e)

pub made_now :
    (token : Bytes) (log : List Event) → made token (token_made (some token) ∷ log) ≡ true
unfolding made is_token
made_now token log = rw (bytes_eq_refl token) refl

-- A token that is not empty, and a key.
pub token-made :
    (token : Bytes) (log : List Event)
    → is_nil token ≡ false
    → TokenMade token log
    → made token log ≡ true
unfolding TokenMade
token-made token log n (inl e) = absurd cc
token-made token log n (inr e) = e

pub key-matches :
    (setup : Setup) (identity : HostIdentity)
    → is_nil identity.public_key ≡ false
    → KeyMatches setup identity
    → identity.fingerprint ≡ setup.crypto.hex_sha256 identity.public_key
unfolding KeyMatches
key-matches setup identity n (inl e) = absurd cc
key-matches setup identity n (inr e) = e

module _ (setup : Setup) where
  pub emit-Inv :
      (event : Event) (c : Connection)
      → Permitted setup event c.log
      → Inv setup c
      → Inv setup (emit event c)
  unfolding vouched Safe vouches
  emit-Inv event c p (safe, accepted, waiting, bounded, token, key) = (
    (p, safe),
    (λ h. any_authed_later event c.log (accepted h)),
    (λ h.
        or_swap setup.host_auth_off (vouch c.auth_identity.fingerprint event)
          (vouches c.auth_identity.fingerprint c.log) (waiting h)),
    bounded,
    later-TokenMade c.auth_token event c.log token,
    key,
  )

  pub write_bytes-Inv :
      (w : World) (payload : Bytes) (c : Connection)
      → Inv setup c
      → Inv setup (write_bytes w payload c).1
  unfolding Permitted
  write_bytes-Inv w [] c h = h
  write_bytes-Inv w (b ∷ payload) c h = emit-Inv (sent (b ∷ payload)) c tt h

  pub audit-Inv :
      (frame : Frame) (allowed : Bool) (reason : Bytes) (c : Connection)
      → Inv setup c
      → Inv setup (audit frame allowed reason c)
  unfolding Permitted
  audit-Inv frame allowed reason c h = emit-Inv (audited (audit_of frame allowed reason c)) c tt h

  pub and_then-Inv :
      (r : Outcome) (next : Connection → Outcome)
      → Inv setup r.1
      → ((c : Connection) → Inv setup c → Inv setup (next c).1)
      → Inv setup (and_then r next).1
  unfolding and_then
  and_then-Inv (fine, c) next h k = k c h
  and_then-Inv (failed, c) next h k = h
  and_then-Inv (auth_rejected, c) next h k = h
  and_then-Inv (violation text, c) next h k = h

  -- Both branches of a test, each with its answer.
  pub if-Inv :
      (b : Bool) (x y : Outcome)
      → (b ≡ true → Inv setup x.1)
      → (b ≡ false → Inv setup y.1)
      → Inv setup (if b then x else y).1
  if-Inv true x y h k = h refl
  if-Inv false x y h k = k refl

  pub new_connection-Inv : Inv setup new_connection
  unfolding Safe Bounded is_wait_signature TokenMade KeyMatches
  new_connection-Inv =
      (tt, (λ h. absurd cc), (λ h. absurd cc), (λ h. omega arith), inl refl, inl refl)

pub any_authed_now :
    (identity : HostIdentity) (token signature : Bytes) (t : AuthType) (log : List Event)
    → any_authed (authed identity token signature t ∷ log) ≡ true
unfolding any_authed is_authed
any_authed_now identity token signature t log = refl

vouched_now :
    (setup : Setup) (fingerprint : Bytes) (event : Event) (log : List Event)
    → vouch fingerprint event ≡ true
    → vouched setup fingerprint (event ∷ log) ≡ true
unfolding vouched vouches
vouched_now setup fingerprint event log h =
    or_right setup.host_auth_off (vouch fingerprint event || vouches fingerprint log) (rw h refl)

pub vouched_off :
    (setup : Setup) (fingerprint : Bytes) (log : List Event)
    → setup.host_auth_off ≡ true
    → vouched setup fingerprint log ≡ true
unfolding vouched
vouched_off setup fingerprint log h = rw h refl

pub vouched_trusted :
    (setup : Setup) (fingerprint : Bytes) (log : List Event)
    → vouched setup fingerprint (asked_trusted fingerprint true ∷ log) ≡ true
unfolding vouch
vouched_trusted setup fingerprint log =
    vouched_now setup fingerprint (asked_trusted fingerprint true) log
      (rw (bytes_eq_refl fingerprint) refl)

pub vouched_submitted :
    (setup : Setup) (fingerprint : Bytes) (decision : HostDecision) (log : List Event)
    → allows decision ≡ true
    → vouched setup fingerprint (submitted fingerprint (some decision) ∷ log) ≡ true
unfolding vouch submission_allows
vouched_submitted setup fingerprint decision log h =
    vouched_now setup fingerprint (submitted fingerprint (some decision)) log
      (rw (bytes_eq_refl fingerprint, h) refl)

pub vouched_later :
    (setup : Setup) (fingerprint : Bytes) (event : Event) (log : List Event)
    → vouched setup fingerprint log ≡ true
    → vouched setup fingerprint (event ∷ log) ≡ true
unfolding vouched vouches
vouched_later setup fingerprint event log h =
    or_swap setup.host_auth_off (vouch fingerprint event) (vouches fingerprint log) h

-- A state in another phase than that of a signature owes nothing to the vouching.
pub phase-Inv :
    (setup : Setup) (c d : Connection)
    → d.log ≡ c.log
    → d.handshake_accepted ≡ c.handshake_accepted
    → d.open_channels ≡ c.open_channels
    → (is_wait_signature d.auth_phase ≡ true
        → vouched setup d.auth_identity.fingerprint d.log ≡ true)
    → TokenMade d.auth_token d.log
    → KeyMatches setup d.auth_identity
    → Inv setup c
    → Inv setup d
phase-Inv setup c d l a o v t k (safe, accepted, waiting, bounded, token, key) =
    (rw l safe, (λ h. rw l (accepted (sym a ∙ h))), v, rw o bounded, t, k)
