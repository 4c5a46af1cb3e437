-- ===== src/Gateway/Listener.antt =====
-- The listeners of the gateway, internal/gateway/gateway.go: `Bind`, `UpdateGrant`, `Unbind`,
-- `Close`, `admit` and `removeConnection`, without the live sessions. The addresses of
-- Go's package netip and the listening itself are arguments.
pub mod Admission
use hdc_remote_kit.Remote.Ports.{add, remove}
use hdc_remote_kit.Base.{
  length, ◌==◌, ok, leb, ◌||◌, ltb, err, bytes_eq, ◌∷◌, not, false, [], ℕ, true, if◌then◌else◌,
  Result, List, Bytes, Bool,
}
use hdc_remote_kit.Strings.{is_nil, is_blank}

-- A source address, and whether it lies in an allowed prefix; `bad_address` does not parse.
pub data Source (A : Type 0) : Type 0 where
  address : A → Source A
  bad_address : Source A

pub record Grant (P : Type 0) : Type 0 where
  pub lease_id : Bytes
  pub binding_id : Bytes
  pub device_id : Bytes
  pub port : ℕ
  pub max_connections : ℕ
  pub allowed_prefixes : List P
  pub expires_at : ℕ

-- `listenerState`, with the numbers of its connections.
pub record Listener (P : Type 0) : Type 0 where
  pub grant : Grant P
  pub connections : List ℕ
  pub closed : Bool

pub data AdmitResult : Type 0 where
  admitted access_closed lease_expired source_not_allowed limit_reached : AdmitResult

module _ {A P : Type 0} (prefix_contains : P → A → Bool) where
  -- `prefixesContain`; that an IPv4 prefix looks at the unmapped address is `prefix_contains`.
  pub prefixes_contain : List P → A → Bool
  prefixes_contain [] a = false
  prefixes_contain (p ∷ prefixes) a = prefix_contains p a || prefixes_contain prefixes a

  pub source_allowed : List P → Source A → Bool
  source_allowed prefixes (address a) = prefixes_contain prefixes a
  source_allowed prefixes bad_address = false

  -- `admit`.
  pub admit : ℕ → Source A → ℕ → Listener P → AdmitResult × Listener P
  admit connection source now s =
      if s.closed
      then (access_closed, s)
      else if not (ltb now s.grant.expires_at)
      then (lease_expired, s)
      else if not (source_allowed s.grant.allowed_prefixes source)
      then (source_not_allowed, s)
      else if leb s.grant.max_connections (length s.connections)
      then (limit_reached, s)
      else (admitted, record s { connections = add connection s.connections })

module _ {P : Type 0} where
  pub remove_connection : ℕ → Listener P → Listener P
  remove_connection connection s = record s { connections = remove connection s.connections }

  pub update_listener : Grant P → Listener P → Listener P
  update_listener grant s = record s { grant = grant }

  pub close_listener : Listener P → Listener P
  close_listener s = record s { closed = true }

  -- `validateGrant`; a zero time is an expiry of 0.
  pub validate_grant : Grant P → Bool
  validate_grant grant = not (
      is_nil grant.binding_id
      || is_nil grant.device_id
      || grant.port == 0
      || ltb 65535 grant.port
      || is_nil grant.lease_id
      || grant.max_connections == 0
      || no_prefix grant.allowed_prefixes
      || grant.expires_at == 0)
    where
      no_prefix : List P → Bool
      no_prefix [] = true
      no_prefix (_ ∷ _) = false

-- The gateway's listeners by binding, and the listeners that it has closed.
pub record Gateway (P : Type 0) : Type 0 where
  pub listeners : List (Listener P)
  pub gateway_closed : Bool

pub data GatewayError : Type 0 where
  invalid_grant gateway_is_closed listen_failed : GatewayError

module _ {P : Type 0} where
  pub has_listener : Bytes → List (Listener P) → Bool
  has_listener id [] = false
  has_listener id (s ∷ listeners) = bytes_eq s.grant.binding_id id || has_listener id listeners

  drop_listener : Bytes → List (Listener P) → List (Listener P)
  drop_listener id [] = []
  drop_listener id (s ∷ listeners) =
      let rest = drop_listener id listeners in
      if bytes_eq s.grant.binding_id id then rest else s ∷ rest

  update_at : Bytes → Grant P → List (Listener P) → List (Listener P)
  update_at id grant [] = []
  update_at id grant (s ∷ listeners) =
      (if bytes_eq s.grant.binding_id id then update_listener grant s else s)
      ∷ update_at id grant listeners

  -- `Bind`, told whether the port can be listened on.
  pub bind : Bool → Grant P → Gateway P → Gateway P × Result GatewayError (Unit {0})
  bind listens grant g =
      if not (validate_grant grant)
      then (g, err invalid_grant)
      else if g.gateway_closed
      then (g, err gateway_is_closed)
      else if has_listener grant.binding_id g.listeners
      then (g, ok tt)
      else if not listens
      then (g, err listen_failed)
      else (
        record g {
          listeners = record { grant = grant; connections = []; closed = false } ∷ g.listeners;
        },
        ok tt,
      )

  pub update_grant : Grant P → Gateway P → Gateway P × Result GatewayError (Unit {0})
  update_grant grant g =
      if not (validate_grant grant)
      then (g, err invalid_grant)
      else (record g { listeners = update_at grant.binding_id grant g.listeners }, ok tt)

  pub unbind : Bytes → Gateway P → Gateway P
  unbind id g = if is_blank id then g else record g { listeners = drop_listener id g.listeners }

  pub close_gateway : Gateway P → Gateway P
  close_gateway g =
      if g.gateway_closed then g else record g { gateway_closed = true; listeners = [] }
