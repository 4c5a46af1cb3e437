-- ===== src/Device/Registry/Offline.antt =====
-- How long internal/device/registry.go keeps a device that the scans no longer show.
use hdc_remote_kit.Base.{
  ◌∙◌, ap, inr, inl, arith, ◌-◌, lt→ltb, ltb, le→ltb, ◌||◌, refl, not, Option, ◌<◌, Bool-cases, ◌+◌,
  ◌≤◌, some, none, ◌≡◌, [], ◌∷◌, ℕ, List, Bytes,
}
use hdc_remote_kit.Device.Registry.{
  since, kept_mark, kept_device, stale_device, next_mark, next_device, mark_offline, scanned,
  Registry, Device, refresh, mark_stale,
}

-- A scan: it fails, or shows devices.
pub data Scan : Type 0 where
  failed : Scan
  shows : List Device → Scan

unfoldable pub after_scan : ℕ → Scan → Registry → Registry
after_scan now failed r = mark_stale now r
after_scan now (shows visible) r = refresh now visible r

unfoldable pub after_scans : List (ℕ × Scan) → Registry → Registry
after_scans [] r = r
after_scans ((now, scan) ∷ scans) r = after_scans scans (after_scan now scan r)

-- The scan does not show the device, at a time within its retention.
unfoldable pub IsMissed : Bytes → ℕ → ℕ × Scan → Type 0
IsMissed key deadline (now, failed) = Unit {0}
IsMissed key deadline (now, shows visible) = (scanned now visible key ≡ none) × (now ≤ deadline)

unfoldable pub AllMissed : Bytes → ℕ → List (ℕ × Scan) → Type 0
AllMissed key deadline [] = Unit {0}
AllMissed key deadline (scan ∷ scans) = IsMissed key deadline scan × AllMissed key deadline scans

-- The device is known and missed since `time`.
pub record IsMissing (key : Bytes) (time retain : ℕ) (r : Registry) : Type 0 where
  pub device : Device
  pub known : r.devices key ≡ some device
  pub marked : r.offline_since key ≡ some time
  pub retention : r.retain_offline ≡ retain

seen_device :
    (retain now : ℕ) (mark : Option ℕ) (previous : Option Device) (device : Device)
    → next_device retain now mark previous (some device) ≡ some device
unfolding next_device
seen_device retain now mark previous device = refl

seen_mark :
    (retain now : ℕ) (mark : Option ℕ) (previous : Option Device) (device : Device)
    → next_mark retain now mark previous (some device) ≡ none
unfolding next_mark
seen_mark retain now mark none device = refl
seen_mark retain now mark (some known) device = refl

next_device_within :
    (retain now time : ℕ) (device : Device)
    → now ≤ time + retain
    → next_device retain now (some time) (some device) none ≡ some (mark_offline now device)
unfolding next_device kept_device since
next_device_within retain now time device h = rw (le→ltb retain (now - time) (omega arith))

next_mark_within :
    (retain now time : ℕ) (device : Device)
    → now ≤ time + retain
    → next_mark retain now (some time) (some device) none ≡ some time
unfolding next_mark kept_mark since
next_mark_within retain now time device h = rw (le→ltb retain (now - time) (omega arith))

next_device_after :
    (retain now time : ℕ) (device : Device)
    → time + retain < now
    → next_device retain now (some time) (some device) none ≡ none
unfolding next_device kept_device since
next_device_after retain now time device h = rw (lt→ltb retain (now - time) (omega arith))

next_mark_after :
    (retain now time : ℕ) (device : Device)
    → time + retain < now
    → next_mark retain now (some time) (some device) none ≡ none
unfolding next_mark kept_mark since
next_mark_after retain now time device h = rw (lt→ltb retain (now - time) (omega arith))

refresh-IsMissing :
    (key : Bytes) (time retain now : ℕ) (visible : List Device) (r : Registry)
    → IsMissing key time retain r
    → scanned now visible key ≡ none
    → now ≤ time + retain
    → IsMissing key time retain (refresh now visible r)
unfolding refresh
refresh-IsMissing key time retain now visible r m h k = record {
  device = mark_offline now m.device;
  known = rw (m.known, m.marked, h, m.retention) (next_device_within retain now time m.device k);
  marked = rw (m.known, m.marked, h, m.retention) (next_mark_within retain now time m.device k);
  retention = m.retention;
}

stale_some :
    (now : ℕ) (device : Device) → (stale : Device) × (stale_device now (some device) ≡ some stale)
unfolding stale_device
stale_some now device = (_, refl)

mark_stale-IsMissing :
    (key : Bytes) (time retain now : ℕ) (r : Registry)
    → IsMissing key time retain r
    → IsMissing key time retain (mark_stale now r)
unfolding mark_stale
mark_stale-IsMissing key time retain now r m =
    let (stale, e) = stale_some now m.device in
    elim (Bool-cases (not r.ready || ltb (now - r.last_success) r.stale_after)) [
      | inl t ↦ rw t m
      | inr t ↦ rw t (record {
        device = stale;
        known = ap (stale_device now) m.known ∙ e;
        marked = m.marked;
        retention = m.retention;
      })
    ]

after_scans-IsMissing :
    (key : Bytes) (time retain : ℕ) (scans : List (ℕ × Scan)) (r : Registry)
    → IsMissing key time retain r
    → AllMissed key (time + retain) scans
    → IsMissing key time retain (after_scans scans r)
unfolding after_scans after_scan AllMissed IsMissed
after_scans-IsMissing key time retain [] r m h = m
after_scans-IsMissing key time retain ((now, failed) ∷ scans) r m (h, hs) =
    after_scans-IsMissing key time retain scans (mark_stale now r)
      (mark_stale-IsMissing key time retain now r m) hs
after_scans-IsMissing key time retain ((now, shows visible) ∷ scans) r m ((h, k), hs) =
    after_scans-IsMissing key time retain scans (refresh now visible r)
      (refresh-IsMissing key time retain now visible r m h k) hs

evicted :
    (key : Bytes) (time retain now : ℕ) (visible : List Device) (r : Registry)
    → IsMissing key time retain r
    → scanned now visible key ≡ none
    → time + retain < now
    → ((refresh now visible r).devices key ≡ none)
      × ((refresh now visible r).offline_since key ≡ none)
unfolding refresh
evicted key time retain now visible r m h k = (
  rw (m.known, m.marked, h, m.retention) (next_device_after retain now time m.device k),
  rw (m.known, m.marked, h, m.retention) (next_mark_after retain now time m.device k),
)

-- A device that is missed since some time stays known, and its mark unchanged, under any scans
-- that fail, at any time, or do not show it, at a time within the retention; a successful scan
-- behind them that does not show it, at a time beyond the retention, removes the device and its
-- mark.
pub after_scans_retained :
    (key : Bytes) (time retain now : ℕ) (scans : List (ℕ × Scan)) (visible : List Device)
    (r : Registry)
    → IsMissing key time retain r
    → AllMissed key (time + retain) scans
    → scanned now visible key ≡ none
    → time + retain < now
    → IsMissing key time retain (after_scans scans r)
      × ((refresh now visible (after_scans scans r)).devices key ≡ none)
      × ((refresh now visible (after_scans scans r)).offline_since key ≡ none)
after_scans_retained key time retain now scans visible r m h gone late =
    let missing = after_scans-IsMissing key time retain scans r m h in
    let (device, mark) =
      evicted key time retain now visible (after_scans scans r) missing gone late in
    (missing, device, mark)

next_device_now :
    (retain now : ℕ) (device : Device)
    → next_device retain now none (some device) none ≡ some (mark_offline now device)
unfolding next_device kept_device since
next_device_now retain now device = rw (le→ltb retain (now - now) (omega arith))

next_mark_now :
    (retain now : ℕ) (device : Device) → next_mark retain now none (some device) none ≡ some now
unfolding next_mark kept_mark since
next_mark_now retain now device = rw (le→ltb retain (now - now) (omega arith))

-- The first scan that does not show a device after one that did marks it, whatever mark it had.
seen-IsMissing :
    (key : Bytes) (seen missed : ℕ) (visible others : List Device) (r : Registry) (device : Device)
    → scanned seen visible key ≡ some device
    → scanned missed others key ≡ none
    → IsMissing key missed r.retain_offline (refresh missed others (refresh seen visible r))
unfolding refresh
seen-IsMissing key seen missed visible others r device h k = record {
  device = mark_offline missed device;
  known =
      rw
        (
          k,
          h,
          seen_device r.retain_offline seen (r.offline_since key) (r.devices key) device,
          seen_mark r.retain_offline seen (r.offline_since key) (r.devices key) device,
        )
        (next_device_now r.retain_offline missed device);
  marked =
      rw
        (
          k,
          h,
          seen_device r.retain_offline seen (r.offline_since key) (r.devices key) device,
          seen_mark r.retain_offline seen (r.offline_since key) (r.devices key) device,
        )
        (next_mark_now r.retain_offline missed device);
  retention = refl;
}

-- Whatever mark a device had before, a successful scan that shows it starts its retention anew:
-- missed by the next scan, which succeeds, it is missed since the time of that scan, stays so
-- under any scans that fail, or do not show it within the retention from that time, and a
-- successful scan behind them that does not show it, at a time beyond the retention, removes the
-- device and its mark.
pub refresh_restarts :
    (key : Bytes) (seen missed now : ℕ) (visible others last : List Device) (device : Device)
    (scans : List (ℕ × Scan)) (r : Registry)
    → scanned seen visible key ≡ some device
    → scanned missed others key ≡ none
    → AllMissed key (missed + r.retain_offline) scans
    → scanned now last key ≡ none
    → missed + r.retain_offline < now
    → let later = after_scans scans (refresh missed others (refresh seen visible r)) in
      IsMissing key missed r.retain_offline later
      × ((refresh now last later).devices key ≡ none)
      × ((refresh now last later).offline_since key ≡ none)
refresh_restarts key seen missed now visible others last device scans r h k all gone late =
    after_scans_retained key missed r.retain_offline now scans last
      (refresh missed others (refresh seen visible r))
      (seen-IsMissing key seen missed visible others r device h k) all gone late
