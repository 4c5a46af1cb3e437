-- ===== src/HostAuth/Registry.antt =====
-- The registry of trusted hosts, internal/hostauth/registry.go: known hosts, requests that wait for
-- the operator, recent events and notices. A Go map is the list of its entries in the order in
-- which Go happens to visit them; the clock and the answers of the file system are arguments.
use hdc_remote_kit.HostAuth.Decision.{allow_forever, expired, deny_host, HostDecision}
use hdc_remote_kit.Base.{
  ok, ◌||◌, some, err, true, none, false, [], ◌==◌, codes, bytes_eq, Option, Bool, ◌∷◌, ℕ, take,
  if◌then◌else◌, Result, List, Bytes,
}
use hdc_remote_kit.Strings.{trim_space, is_nil}

pub record KnownHost : Type 0 where
  pub fingerprint : Bytes
  pub hostname : Bytes
  pub created_at : ℕ

-- `pendingWaiter`: a request, and what its channel of one place holds.
pub record PendingRequest : Type 0 where
  pub request_id : Bytes
  pub serial : Bytes
  pub hostname : Bytes
  pub fingerprint : Bytes
  pub source_ip : Bytes
  pub created_at : ℕ
  pub expires_at : ℕ
  pub answer : Option HostDecision

pub record RecentEvent : Type 0 where
  pub at : ℕ
  pub action : Bytes
  pub hostname : Bytes
  pub fingerprint : Bytes
  pub source_ip : Bytes
  pub serial : Bytes

pub record Notice : Type 0 where
  pub notice_id : Bytes
  pub kind : Bytes
  pub serial : Bytes
  pub source_ip : Bytes
  pub version : Bytes
  pub message : Bytes
  pub created_at : ℕ
  pub expires_at : ℕ

pub record Registry : Type 0 where
  pub confirm_timeout : ℕ
  pub hosts : List KnownHost
  pub pending : List PendingRequest
  pub recent : List RecentEvent
  pub notices : List Notice
  pub suppressed : List (Bytes × ℕ)

pub data RegistryError : Type 0 where
  fingerprint_required selector_required notice_id_required : RegistryError
  request_not_found invalid_decision ambiguous_prefix save_failed : RegistryError

abbrev pub max_recent_events : ℕ
max_recent_events = 20

-- `NewRegistry` on the hosts of the file; a timeout that is not positive is 90 seconds.
unfoldable pub new_registry : ℕ → List KnownHost → Registry
new_registry timeout hosts = record {
  confirm_timeout = if timeout == 0 then 90 else timeout;
  hosts = hosts;
  pending = [];
  recent = [];
  notices = [];
  suppressed = [];
}

unfoldable pub has_host : Bytes → List KnownHost → Bool
has_host fingerprint [] = false
has_host fingerprint (h ∷ hosts) = bytes_eq h.fingerprint fingerprint || has_host fingerprint hosts

unfoldable pub remove_host : Bytes → List KnownHost → List KnownHost
remove_host fingerprint [] = []
remove_host fingerprint (h ∷ hosts) =
    let rest = remove_host fingerprint hosts in
    if bytes_eq h.fingerprint fingerprint then rest else h ∷ rest

unfoldable pub add_host : KnownHost → List KnownHost → List KnownHost
add_host h hosts = h ∷ remove_host h.fingerprint hosts

unfoldable pub trusted : Bytes → Registry → Bool
trusted fingerprint r = has_host (trim_space fingerprint) r.hosts

-- `Record`: the newest first, twenty at most.
unfoldable pub recorded : RecentEvent → Registry → Registry
recorded event r = record r { recent = take max_recent_events (event ∷ r.recent) }

unfoldable pub record_event : RecentEvent → Registry → Registry
record_event event r = if is_nil event.action then r else recorded event r

unfoldable pub find_pending : Bytes → List PendingRequest → Option PendingRequest
find_pending request_id [] = none
find_pending request_id (p ∷ pending) = elim (bytes_eq p.request_id request_id) [
  | true ↦ some p
  | false ↦ find_pending request_id pending
]

pub remove_pending : Bytes → List PendingRequest → List PendingRequest
remove_pending request_id [] = []
remove_pending request_id (p ∷ pending) =
    let rest = remove_pending request_id pending in
    if bytes_eq p.request_id request_id then rest else p ∷ rest

unfoldable pub waiting : PendingRequest → Registry → Registry
waiting request r = record r { pending = request ∷ remove_pending request.request_id r.pending }

-- `Submit` up to the wait, of a request with its identifier and its times: a known host is allowed
-- at once.
unfoldable pub submit :
    PendingRequest → Registry → Registry × Result RegistryError (Option HostDecision)
submit request r =
    let trimmed = record request { fingerprint = trim_space request.fingerprint } in
    if is_nil trimmed.fingerprint
    then (r, err fingerprint_required)
    else if has_host trimmed.fingerprint r.hosts
    then (r, ok (some allow_forever))
    else (waiting trimmed r, ok none)

-- The end of the wait: an answer, the end of the connection or the timer.
pub data WaitEnd : Type 0 where
  answered : HostDecision → WaitEnd
  cancelled timed_out : WaitEnd

pub wait_decision : WaitEnd → HostDecision
wait_decision (answered decision) = decision
wait_decision cancelled = deny_host
wait_decision timed_out = expired

unfoldable pub is_expired : HostDecision → Bool
is_expired expired = true
is_expired _ = false

pub event_of : ℕ → Bytes → PendingRequest → RecentEvent
event_of now action p = record {
  at = now;
  action = action;
  hostname = p.hostname;
  fingerprint = p.fingerprint;
  source_ip = p.source_ip;
  serial = p.serial;
}

unfoldable pub end_wait : ℕ → PendingRequest → WaitEnd → Registry → Registry × HostDecision
end_wait now request how r =
    let decision = wait_decision how in
    let r' = record r { pending = remove_pending request.request_id r.pending } in
    (
      if is_expired decision then record_event (event_of now (codes "expired") request) r' else r',
      decision,
    )
