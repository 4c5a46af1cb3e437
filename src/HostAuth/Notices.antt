-- ===== src/HostAuth/Notices.antt =====
-- The notices of failed handshakes, internal/hostauth/registry.go: `Notify`, `Notices` and
-- `DismissNotice`.
pub mod Unique
pub mod Replace
pub mod Invariant
use hdc_remote_kit.Base.{
  true, false, ok, ◌+◌, err, ◌&&◌, some, ltb, [], ◌∷◌, take, none, if◌then◌else◌, bytes_eq, Result,
  ◌++◌, Option, List, Bool, ℕ, Bytes,
}
use hdc_remote_kit.HostAuth.Registry.{
  notice_id_required, request_not_found, max_recent_events, RegistryError, Registry, Notice,
}
use hdc_remote_kit.Strings.{is_nil, trim_space, is_blank}

-- `noticeDedupeKey`, and the comparison of the same three fields in `Notify`.
pub dedupe_key : Notice → Bytes
dedupe_key n = n.kind ++ (0x1f ∷ (n.source_ip ++ (0x1f ∷ n.serial)))

pub same_notice : Notice → Notice → Bool
same_notice m n =
    bytes_eq m.kind n.kind && bytes_eq m.source_ip n.source_ip && bytes_eq m.serial n.serial

pub live_notices : ℕ → List Notice → List Notice
live_notices now [] = []
live_notices now (n ∷ notices) =
    let rest = live_notices now notices in if ltb now n.expires_at then n ∷ rest else rest

live_keys : ℕ → List (Bytes × ℕ) → List (Bytes × ℕ)
live_keys now [] = []
live_keys now ((key, until) ∷ suppressed) =
    let rest = live_keys now suppressed in if ltb now until then (key, until) ∷ rest else rest

-- `pruneNoticesLocked`.
pub prune_notices : ℕ → Registry → Registry
prune_notices now r = record r {
  notices = live_notices now r.notices;
  suppressed = live_keys now r.suppressed;
}

find_key : Bytes → List (Bytes × ℕ) → Option ℕ
find_key key [] = none
find_key key ((k, until) ∷ suppressed) = elim (bytes_eq k key) [
  | true ↦ some until
  | false ↦ find_key key suppressed
]

remove_key : Bytes → List (Bytes × ℕ) → List (Bytes × ℕ)
remove_key key [] = []
remove_key key ((k, until) ∷ suppressed) =
    let rest = remove_key key suppressed in if bytes_eq k key then rest else (k, until) ∷ rest

suppressed_now : ℕ → Option ℕ → Bool
suppressed_now now none = false
suppressed_now now (some until) = ltb now until

-- The loop over the notices: the first that is the same is replaced, and keeps its identifier.
pub replace_notice : Notice → List Notice → Option (List Notice)
replace_notice n [] = none
replace_notice n (m ∷ notices) =
    let rest = replace_notice n notices in
    elim (same_notice m n) [
      | true ↦ some (record n { notice_id = m.notice_id } ∷ notices)
      | false ↦ elim rest [ none ↦ none | some replaced ↦ some (m ∷ replaced) ]
    ]

put_notice : Notice → List Notice → Option (List Notice) → List Notice
put_notice n notices none = take max_recent_events (n ∷ notices)
put_notice n notices (some replaced) = replaced

-- `Notify` of a notice with its identifier and its times.
notify_live : ℕ → Notice → Registry → Registry
notify_live now n r =
    if suppressed_now now (find_key (dedupe_key n) r.suppressed)
    then r
    else record r { notices = put_notice n r.notices (replace_notice n r.notices) }

pub notify : ℕ → Notice → Registry → Registry
notify now n r = if is_blank n.kind then r else notify_live now n (prune_notices now r)

-- `Notices`.
pub current_notices : ℕ → Registry → Registry × List Notice
current_notices now r = let r' = prune_notices now r in (r', r'.notices)

-- The notice with an identifier, and the others.
pub take_notice : Bytes → List Notice → Option (Notice × List Notice)
take_notice id [] = none
take_notice id (n ∷ notices) =
    let rest = take_notice id notices in
    elim (bytes_eq n.notice_id id) [
      | true ↦ some (n, notices)
      | false ↦ elim rest [ none ↦ none | some found ↦ some (found.0, n ∷ found.1) ]
    ]

dismiss_found :
    ℕ → Option (Notice × List Notice) → Registry → Registry × Result RegistryError (Unit {0})
dismiss_found now none r = (r, err request_not_found)
dismiss_found now (some (n, notices)) r = (
  record r {
    notices = notices;
    suppressed = (dedupe_key n, now + r.confirm_timeout) ∷ remove_key (dedupe_key n) r.suppressed;
  },
  ok tt,
)

-- `DismissNotice`.
pub dismiss_notice : ℕ → Bytes → Registry → Registry × Result RegistryError (Unit {0})
dismiss_notice now id r =
    let trimmed = trim_space id in
    if is_nil trimmed
    then (r, err notice_id_required)
    else dismiss_found now (take_notice trimmed r.notices) r
