-- ===== src/Tests/Devices.antt =====
-- A registry whose one device is missed since time 100, with a retention of 60.
use hdc_remote_kit.Device.Registry.Offline.{
  after_scans_retained, refresh_restarts, shows, failed, Scan, after_scans, IsMissed, IsMissing,
  AllMissed,
}
use hdc_remote_kit.Base.{
  none, ◌≡◌, true, arith, ◌+◌, some, bytes_eq, [], Bytes, ◌∷◌, ℕ, refl, codes, List,
}
use hdc_remote_kit.Device.Registry.{online, usb, new_registry, scanned, refresh, Registry, Device}
use hdc_remote_kit.Policy.Text.{is_space}

abbrev phone : Device
phone = record {
  id = codes "node:7";
  connect_key = codes "7";
  transport = usb;
  status = online;
  model = [];
  server_node = codes "node";
  updated_at = 90;
}

abbrev watched : Registry
watched = record (new_registry 1) {
  stale_after = 1;
  retain_offline = 60;
  devices = λ key. some phone;
  offline_since = λ key. some 100;
  last_success = 100;
  ready = true;
}

watched-IsMissing : IsMissing phone.id 100 60 watched
watched-IsMissing = record { device = phone; known = refl; marked = refl; retention = refl }

abbrev scans : List (ℕ × Scan)
scans = (120, failed) ∷ (150, shows []) ∷ []

shows_nothing : (now : ℕ) (key : Bytes) → scanned now [] key ≡ none
unfolding scanned
shows_nothing now key = refl

scans_miss : AllMissed phone.id (100 + 60) scans
unfolding AllMissed IsMissed
scans_miss = (tt, ((shows_nothing 150 phone.id, omega arith), tt))

after_scans_retained_example :
    IsMissing phone.id 100 60 (after_scans scans watched)
    × ((refresh 200 [] (after_scans scans watched)).devices phone.id ≡ none)
    × ((refresh 200 [] (after_scans scans watched)).offline_since phone.id ≡ none)
after_scans_retained_example =
    after_scans_retained phone.id 100 60 200 scans [] watched watched-IsMissing scans_miss
      (shows_nothing 200 phone.id) (omega arith)

phone_shown : scanned 200 (phone ∷ []) phone.id ≡ some (record phone { updated_at = 200 })
unfolding scanned is_space bytes_eq
phone_shown = refl

abbrev later_scans : List (ℕ × Scan)
later_scans = (250, failed) ∷ (270, shows []) ∷ []

later_miss : AllMissed phone.id (210 + 60) later_scans
unfolding AllMissed IsMissed
later_miss = (tt, ((shows_nothing 270 phone.id, omega arith), tt))

refresh_restarts_example :
    let later = after_scans later_scans (refresh 210 [] (refresh 200 (phone ∷ []) watched)) in
    IsMissing phone.id 210 60 later
    × ((refresh 300 [] later).devices phone.id ≡ none)
    × ((refresh 300 [] later).offline_since phone.id ≡ none)
refresh_restarts_example =
    refresh_restarts phone.id 200 210 300 (phone ∷ []) [] [] (record phone { updated_at = 200 })
      later_scans watched phone_shown (shows_nothing 210 phone.id) later_miss
      (shows_nothing 300 phone.id) (omega arith)
