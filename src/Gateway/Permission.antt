-- ===== src/Gateway/Permission.antt =====
-- What a connection may do to its surroundings, and the state that keeps to it,
-- internal/gateway/gateway.go and handshake.go.
pub mod Authentication
pub mod Lemmas
use hdc_remote_kit.Base.{
  ◌⊎◌, inl, inr, ◌∙◌, sym, bytes_eq_refl, arith, ◌++◌, ◌≤◌, ◌&&◌, none, length, some, refl, ltb,
  if◌then◌else◌, bytes_eq, [], ◌≡◌, ◌∷◌, ◌||◌, ℕ, true, false, Option, List, Bytes, Bool,
}
use hdc_remote_kit.Strings.{is_nil}
use hdc_remote_kit.Gateway.Connection.{
  token_made, auth_rejected, failed, fine, violation, new_connection, to_bridge, stdin, submitted,
  audit_of, sent, open_target, audited, write_bytes, emit, audit, authed, asked_trusted, and_then,
  World, Outcome, Connection, Setup, Event,
}
use hdc_remote_kit.HostAuth.Decision.{allow_forever, allow_once, HostDecision}
use hdc_remote_kit.HostAuth.Identity.{AuthType, HostIdentity}
use hdc_remote_kit.Protocol.Catalog.{command_family}
use hdc_remote_kit.Policy.Inspect.{inspect_frame}
use hdc_remote_kit.Gateway.Shell.{shell_decision, init_command}
use hdc_remote_kit.HostAuth.Signature.{verify_challenge}
use hdc_remote_kit.Protocol.Frame.{Frame}
use hdc_remote_kit.Gateway.Handshake.{is_wait_signature}

unfoldable pub allows : HostDecision → Bool
allows allow_once = true
allows allow_forever = true
allows _ = false

pub submission_allows : Option HostDecision → Bool
submission_allows none = false
submission_allows (some decision) = allows decision

-- The event is an answer in favour of the fingerprint.
pub vouch : Bytes → Event → Bool
vouch fingerprint (asked_trusted asked answer) = bytes_eq asked fingerprint && answer
vouch fingerprint (submitted asked decision) =
    bytes_eq asked fingerprint && submission_allows decision
vouch fingerprint _ = false

pub vouches : Bytes → List Event → Bool
vouches fingerprint [] = false
vouches fingerprint (event ∷ log) = vouch fingerprint event || vouches fingerprint log

-- Host authentication is off, or the registry or the operator has answered for the fingerprint.
pub vouched : Setup → Bytes → List Event → Bool
vouched setup fingerprint log = setup.host_auth_off || vouches fingerprint log

pub is_authed : Event → Bool
is_authed (authed _ _ _ _) = true
is_authed _ = false

pub any_authed : List Event → Bool
any_authed [] = false
any_authed (event ∷ log) = is_authed event || any_authed log

-- The event is a challenge token.
pub is_token : Bytes → Event → Bool
is_token token (token_made (some t)) = bytes_eq t token
is_token token _ = false

pub made : Bytes → List Event → Bool
made token [] = false
made token (event ∷ log) = is_token token event || made token log

-- What has to have happened when the event is added to the log.
unfoldable pub Permitted : Setup → Event → List Event → Type 0
Permitted setup (authed identity token signature auth_type) log =
    (verify_challenge setup.crypto identity.public_key token signature auth_type ≡ true)
    × (vouched setup identity.fingerprint log ≡ true)
    × (made token log ≡ true)
    × (identity.fingerprint ≡ setup.crypto.hex_sha256 identity.public_key)
Permitted setup (open_target command) log =
    (any_authed log ≡ true)
    × (text : Bytes) × (command ≡ init_command text)
    × ((shell_decision setup text).allowed ≡ true)
Permitted setup (stdin session chunk) log =
    (any_authed log ≡ true)
    × (typed : Bytes) × ((shell_decision setup (typed ++ chunk)).allowed ≡ true)
Permitted setup (to_bridge family frame) log =
    (any_authed log ≡ true)
    × ((inspect_frame frame.command_flag).allowed ≡ true)
    × (command_family frame.command_flag ≡ family)
Permitted setup (asked_trusted _ _) log = Unit
Permitted setup (submitted _ _) log = Unit
Permitted setup _ log = Unit

-- Every event of the log was permitted.
unfoldable pub Safe : Setup → List Event → Type 0
Safe setup [] = Unit
Safe setup (event ∷ log) = Permitted setup event log × Safe setup log

unfoldable pub Bounded : Setup → List ℕ → Type 0
Bounded setup channels = ltb 0 setup.max_channels ≡ true → length channels ≤ setup.max_channels

-- A token of the state was made for this connection; a fingerprint of the state is that of the key.
unfoldable pub TokenMade : Bytes → List Event → Type 0
TokenMade token log = (is_nil token ≡ true) ⊎ (made token log ≡ true)

unfoldable pub KeyMatches : Setup → HostIdentity → Type 0
KeyMatches setup identity =
    (is_nil identity.public_key ≡ true)
    ⊎ (identity.fingerprint ≡ setup.crypto.hex_sha256 identity.public_key)

-- The state's part in it.
abbrev pub Inv : Setup → Connection → Type 0
Inv setup c =
    Safe setup c.log
    × (c.handshake_accepted ≡ true → any_authed c.log ≡ true)
    × (is_wait_signature c.auth_phase ≡ true
        → vouched setup c.auth_identity.fingerprint c.log ≡ true)
    × Bounded setup c.open_channels
    × TokenMade c.auth_token c.log
    × KeyMatches setup c.auth_identity
