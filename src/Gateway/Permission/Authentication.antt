-- ===== src/Gateway/Permission/Authentication.antt =====
-- What an authentication of a connection stands on, internal/gateway/handshake.go.
use hdc_remote_kit.Gateway.Permission.{
  made, vouched, AuthType, true, ◌≡◌, ◌∷◌, Permitted, HostIdentity, is_authed, any_authed, List,
  Safe,
}
use hdc_remote_kit.Gateway.Permission.Lemmas.{made_later, vouched_later}
use hdc_remote_kit.Gateway.Connection.{
  close_connection, resolved, token_made, read_deadline_cleared, read_deadline_set,
  close_bridge_channel, to_bridge, close_target, stdin, open_target, notified_old_client, submitted,
  asked_trusted, audited, sent, authed, Event, Setup,
}
use hdc_remote_kit.Base.{[], arith, inr, inl, Bool-cases, Bytes}
use hdc_remote_kit.HostAuth.Signature.{verify_challenge}

-- A signature of a token that was made for the connection was verified with a key whose fingerprint
-- is vouched for, or host authentication is off.
pub Authenticated : Setup → List Event → Type 0
Authenticated setup log =
    (identity : HostIdentity) × (token : Bytes) × (signature : Bytes) × (auth_type : AuthType)
    × (verify_challenge setup.crypto identity.public_key token signature auth_type ≡ true)
    × (vouched setup identity.fingerprint log ≡ true)
    × (made token log ≡ true)
    × (identity.fingerprint ≡ setup.crypto.hex_sha256 identity.public_key)

later :
    (setup : Setup) (event : Event) (log : List Event)
    → Authenticated setup log
    → Authenticated setup (event ∷ log)
unfolding Authenticated
later setup event log (identity, token, signature, auth_type, verified, v, t, k) = (
  identity,
  token,
  signature,
  auth_type,
  verified,
  vouched_later setup identity.fingerprint event log v,
  made_later token event log t,
  k,
)

at_event :
    (setup : Setup) (event : Event) (log : List Event)
    → is_authed event ≡ true
    → Permitted setup event log
    → Authenticated setup log
unfolding Authenticated is_authed Permitted
at_event setup (authed identity token signature auth_type) log e (verified, v, t, k) =
    (identity, token, signature, auth_type, verified, v, t, k)
at_event setup (sent _) log e p = absurd cc
at_event setup (audited _) log e p = absurd cc
at_event setup (asked_trusted _ _) log e p = absurd cc
at_event setup (submitted _ _) log e p = absurd cc
at_event setup (notified_old_client _) log e p = absurd cc
at_event setup read_deadline_set log e p = absurd cc
at_event setup read_deadline_cleared log e p = absurd cc
at_event setup (token_made _) log e p = absurd cc
at_event setup resolved log e p = absurd cc
at_event setup (open_target _) log e p = absurd cc
at_event setup (stdin _ _) log e p = absurd cc
at_event setup (close_target _) log e p = absurd cc
at_event setup (to_bridge _ _) log e p = absurd cc
at_event setup (close_bridge_channel _) log e p = absurd cc
at_event setup close_connection log e p = absurd cc

pub Safe-Authenticated :
    (setup : Setup) (log : List Event)
    → Safe setup log
    → any_authed log ≡ true
    → Authenticated setup log
unfolding Safe any_authed
Safe-Authenticated setup [] s a = absurd cc
Safe-Authenticated setup (event ∷ log) (p, s) a = elim (Bool-cases (is_authed event)) [
  | inl e ↦ later setup event log (at_event setup event log e p)
  | inr e ↦ later setup event log (Safe-Authenticated setup log s (ground arith))
]
