-- ===== src/Gateway/Route/Safety.antt =====
-- What a run of a connection lets through, internal/gateway/gateway.go.
use hdc_remote_kit.Base.{◌⊎◌, false, inl, inr, Bool-cases, lt→ltb, ◌≤◌, ◌≡◌, length, ◌<◌, List}
use hdc_remote_kit.Gateway.Permission.Authentication.{Safe-Authenticated, Authenticated}
use hdc_remote_kit.Gateway.Permission.{Safe, Bounded}
use hdc_remote_kit.Gateway.Permission.Lemmas.{new_connection-Inv}
use hdc_remote_kit.Gateway.Route.Invariant.{run-Inv}
use hdc_remote_kit.Gateway.Connection.{new_connection, World, Setup}
use hdc_remote_kit.Gateway.Route.{run, Input}

-- On every run of a new connection, each event of its log was permitted when it happened: an
-- authentication follows a signature that verifies for a token that was made for the connection,
-- with a key whose fingerprint the log vouches for, or any key where host authentication is off; a
-- shell of the device is opened after an authentication, with a command that the policy allows
-- under the connection's profile; a session gets input after an authentication, as the end of a
-- text that the policy allows; a bridge gets a frame after an authentication, if the frame rules
-- allow it and it is of the bridge's family.
pub run_permitted :
    (setup : Setup) (w : World) (inputs : List Input)
    → Safe setup (run setup w inputs new_connection).log
run_permitted setup w inputs = (run-Inv setup w inputs new_connection (new_connection-Inv setup)).0

-- On every run of a new connection with a positive limit on its channels, no more channels are
-- tracked than the limit.
pub run_channels :
    (setup : Setup) (w : World) (inputs : List Input)
    → 0 < setup.max_channels
    → length (run setup w inputs new_connection).open_channels ≤ setup.max_channels
unfolding Bounded
run_channels setup w inputs h =
    (run-Inv setup w inputs new_connection (new_connection-Inv setup)).3
      (lt→ltb 0 setup.max_channels h)

-- On every run of a new connection, either its handshake is not accepted, or some signature of a
-- token that was made for the connection was verified with a public key for which host
-- authentication is off, or the registry or the operator has answered in favour of its
-- fingerprint, the SHA-256 of the key.
pub run_authenticated :
    (setup : Setup) (w : World) (inputs : List Input)
    → ((run setup w inputs new_connection).handshake_accepted ≡ false)
      ⊎ Authenticated setup (run setup w inputs new_connection).log
run_authenticated setup w inputs =
    let (safe, accepted, waiting, bounded, token, key) =
      run-Inv setup w inputs new_connection (new_connection-Inv setup) in
    elim (Bool-cases (run setup w inputs new_connection).handshake_accepted) [
      | inl e ↦
          inr (Safe-Authenticated setup (run setup w inputs new_connection).log safe (accepted e))
      | inr e ↦ inl e
    ]
