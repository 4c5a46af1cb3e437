-- ===== src/Device/Registry.antt =====
-- The device registry of internal/device/registry.go. A map is the function from a key to its entry;
-- a scan's result is an argument. Times and durations are counts of nanoseconds; where the clock goes
-- back, a difference of times is 0.
pub mod Offline
use hdc_remote_kit.Base.{
  [], ◌&&◌, bytes_eq, ◌||◌, ◌-◌, ◌∷◌, some, not, none, ltb, false, ◌*◌, true, if◌then◌else◌, Option,
  List, ℕ, Bytes, Bool,
}
use hdc_remote_kit.Policy.Text.{is_space}

pub data Transport : Type 0 where
  usb tcp no_transport : Transport

pub data TargetStatus : Type 0 where
  online offline unauthorized no_status : TargetStatus

pub record Device : Type 0 where
  pub id : Bytes
  pub connect_key : Bytes
  pub transport : Transport
  pub status : TargetStatus
  pub model : Bytes
  pub server_node : Bytes
  pub updated_at : ℕ

pub record Registry : Type 0 where
  pub stale_after : ℕ
  pub retain_offline : ℕ
  pub devices : Bytes → Option Device
  pub offline_since : Bytes → Option ℕ
  pub last_success : ℕ
  pub ready : Bool

abbrev pub offline_retention_factor : ℕ
offline_retention_factor = 60

-- `NewRegistry`.
pub new_registry : ℕ → Registry
new_registry stale_after = record {
  stale_after = stale_after;
  retain_offline = stale_after * offline_retention_factor;
  devices = λ key. none;
  offline_since = λ key. none;
  last_success = 0;
  ready = false;
}

-- `strings.TrimSpace(device.ID) == ""`.
is_blank : Bytes → Bool
is_blank [] = true
is_blank (c ∷ text) = is_space c && is_blank text

-- The map of the scanned devices; of two with the same ID the later one stays.
unfoldable pub scanned : ℕ → List Device → Bytes → Option Device
unfolding is_blank
scanned now [] key = none
scanned now (device ∷ visible) key = elim (scanned now visible key) [
  | some later ↦ some later
  | none ↦
      if is_blank device.id || not (bytes_eq device.id key)
      then none
      else some (record device { updated_at = now })
]

is_offline : TargetStatus → Bool
is_offline offline = true
is_offline _ = false

mark_offline : ℕ → Device → Device
mark_offline now device =
    if is_offline device.status
    then device
    else record device { status = offline; updated_at = now }

-- Since when a device is not seen; a device that was seen before starts now.
since : ℕ → Option ℕ → ℕ
since now none = now
since now (some time) = time

-- What a successful scan does with a known device that it does not show, and with its mark.
kept_device : ℕ → ℕ → Option ℕ → Device → Option Device
kept_device retain now mark device =
    if ltb retain (now - since now mark) then none else some (mark_offline now device)

kept_mark : ℕ → ℕ → Option ℕ → Option ℕ
kept_mark retain now mark =
    if ltb retain (now - since now mark) then none else some (since now mark)

-- The rest of `refresh` behind a successful scan, for one key.
next_device : ℕ → ℕ → Option ℕ → Option Device → Option Device → Option Device
next_device retain now mark previous (some device) = some device
next_device retain now mark none none = none
next_device retain now mark (some device) none = kept_device retain now mark device

next_mark : ℕ → ℕ → Option ℕ → Option Device → Option Device → Option ℕ
next_mark retain now mark none seen = none
next_mark retain now mark (some device) (some seen) = none
next_mark retain now mark (some device) none = kept_mark retain now mark

pub refresh : ℕ → List Device → Registry → Registry
refresh now visible r = record r {
  devices = λ key.
      next_device r.retain_offline now (r.offline_since key) (r.devices key)
        (scanned now visible key);
  offline_since = λ key.
      next_mark r.retain_offline now (r.offline_since key) (r.devices key)
        (scanned now visible key);
  last_success = now;
  ready = true;
}

stale_device : ℕ → Option Device → Option Device
stale_device now none = none
stale_device now (some device) = some (elim device.status [
  | no_status ↦ device
  | _ ↦ record device { status = no_status; updated_at = now }
])

-- `markStale`, all that `refresh` does behind a failed scan.
pub mark_stale : ℕ → Registry → Registry
mark_stale now r =
    if not r.ready || ltb (now - r.last_success) r.stale_after
    then r
    else record r { devices = λ key. stale_device now (r.devices key) }
