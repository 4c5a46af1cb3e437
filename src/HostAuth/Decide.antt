-- ===== src/HostAuth/Decide.antt =====
-- The operator's decisions, internal/hostauth/registry.go: `Decide` and `Revoke`.
pub mod Trust
use hdc_remote_kit.HostAuth.Registry.{
  invalid_decision, is_expired, remove_host, ambiguous_prefix, selector_required, save_failed,
  request_not_found, has_host, event_of, record_event, add_host, RegistryError, find_pending,
  Registry, KnownHost, PendingRequest,
}
use hdc_remote_kit.HostAuth.Decision.{allow_forever, decision_text, HostDecision}
use hdc_remote_kit.Policy.Text.{has_prefix}
use hdc_remote_kit.Base.{
  false, ◌||◌, true, ◌&&◌, codes, [], ok, err, bytes_eq, not, if◌then◌else◌, ◌∷◌, some, none,
  Result, Option, List, Bool, ℕ, Bytes,
}
use hdc_remote_kit.Strings.{is_nil, trim_space}

-- `fingerprintMatch`.
unfoldable pub fingerprint_match : Bytes → Bytes → Bool
fingerprint_match stored selector =
    let s = trim_space stored in
    let t = trim_space selector in
    not (is_nil s) && not (is_nil t) && (bytes_eq s t || has_prefix s t)

unfoldable pub find_match : Bytes → List PendingRequest → Option PendingRequest
find_match selector [] = none
find_match selector (p ∷ pending) = elim (fingerprint_match p.fingerprint selector) [
  | true ↦ some p
  | false ↦ find_match selector pending
]

unfoldable pub select_pending : Bytes → List PendingRequest → Option PendingRequest
select_pending selector pending = elim (find_pending selector pending) [
  | some p ↦ some p
  | none ↦ find_match selector pending
]

-- A channel that is full keeps what it holds.
put_answer : HostDecision → Option HostDecision → Option HostDecision
put_answer decision none = some decision
put_answer decision (some old) = some old

pub answer_pending : Bytes → HostDecision → List PendingRequest → List PendingRequest
answer_pending request_id decision [] = []
answer_pending request_id decision (p ∷ pending) =
    (if bytes_eq p.request_id request_id
      then record p { answer = put_answer decision p.answer }
      else p)
    ∷ answer_pending request_id decision pending

unfoldable pub answer_request : ℕ → PendingRequest → HostDecision → Registry → Registry
answer_request now p decision r =
    record_event (event_of now (decision_text decision) p)
      (record r { pending = answer_pending p.request_id decision r.pending })

unfoldable pub trust_request : ℕ → PendingRequest → Registry → Registry
trust_request now p r = record r {
  hosts =
      add_host (record { fingerprint = p.fingerprint; hostname = p.hostname; created_at = now })
        r.hosts;
}

unfoldable pub decide_request :
    ℕ → Bool → PendingRequest → HostDecision → Registry → Registry × Result RegistryError (Unit {0})
decide_request now true p allow_forever r =
    (answer_request now p allow_forever (trust_request now p r), ok tt)
decide_request now false p allow_forever r = (trust_request now p r, err save_failed)
decide_request now saved p decision r = (answer_request now p decision r, ok tt)

unfoldable pub decide_selected :
    ℕ
    → Bool
    → Option PendingRequest
    → HostDecision
    → Registry
    → Registry × Result RegistryError (Unit {0})
decide_selected now saved none decision r = (r, err request_not_found)
decide_selected now saved (some p) decision r = decide_request now saved p decision r

-- `Decide`; `saved` is whether the file is written.
unfoldable pub decide :
    ℕ → Bool → Bytes → HostDecision → Registry → Registry × Result RegistryError (Unit {0})
decide now saved selector decision r =
    let s = trim_space selector in
    if is_nil s
    then (r, err selector_required)
    else if is_expired decision
    then (r, err invalid_decision)
    else decide_selected now saved (select_pending s r.pending) decision r

-- The loop of `Revoke`: the one host that matches; none, or more than one.
pub match_hosts : Bytes → Bytes → List KnownHost → Result RegistryError Bytes
match_hosts matched fingerprint [] = if is_nil matched then err request_not_found else ok matched
match_hosts matched fingerprint (h ∷ hosts) =
    let same = match_hosts matched fingerprint hosts in
    let new = match_hosts h.fingerprint fingerprint hosts in
    if not (fingerprint_match h.fingerprint fingerprint)
    then same
    else if is_nil matched
    then new
    else err ambiguous_prefix

pub hostname_of : Bytes → List KnownHost → Bytes
hostname_of fingerprint [] = []
hostname_of fingerprint (h ∷ hosts) =
    if bytes_eq h.fingerprint fingerprint then h.hostname else hostname_of fingerprint hosts

unfoldable pub revoke_matched :
    ℕ → Bool → Result RegistryError Bytes → Registry → Registry × Result RegistryError (Unit {0})
revoke_matched now saved (err e) r = (r, err e)
revoke_matched now saved (ok matched) r = (
  record_event
      (record {
        at = now;
        action = codes "revoke";
        hostname = hostname_of matched r.hosts;
        fingerprint = matched;
        source_ip = [];
        serial = [];
      })
      (record r { hosts = remove_host matched r.hosts }),
  if saved then ok tt else err save_failed,
)

-- `Revoke`.
unfoldable pub revoke : ℕ → Bool → Bytes → Registry → Registry × Result RegistryError (Unit {0})
revoke now saved fingerprint r =
    let f = trim_space fingerprint in
    revoke_matched now saved (if has_host f r.hosts then ok f else match_hosts [] f r.hosts) r
