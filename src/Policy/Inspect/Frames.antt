-- ===== src/Policy/Inspect/Frames.antt =====
-- `InspectFrame` of internal/policy/policy.go over all commands.
use hdc_remote_kit.Protocol.Catalog.{heartbeat, app, file, forward, unity, shell, kernel}
use hdc_remote_kit.Policy.Inspect.{
  app_sideload, unity_rootrun, unity_runmode, flash, unity_reboot, unity_remount, frame_rules,
  command_family, Family, is_flash, first_rule, inspect_frame,
}
use hdc_remote_kit.Protocol.Catalog.Families.{flash_family_iff}
use hdc_remote_kit.Base.{◌↔◌, ◌&&◌, arith, ◌||◌, true, not, leb, ◌≡◌, ◌==◌, Bool, ℕ}

is_flash_iff : (f : Family) → (is_flash f ≡ true) ↔ (f ≡ flash)
unfolding is_flash
is_flash_iff flash = ground arith
is_flash_iff Family.unknown = ground arith
is_flash_iff kernel = ground arith
is_flash_iff shell = ground arith
is_flash_iff unity = ground arith
is_flash_iff forward = ground arith
is_flash_iff file = ground arith
is_flash_iff app = ground arith
is_flash_iff heartbeat = ground arith

-- The commands that a client may not send.
unfoldable pub is_dangerous : ℕ → Bool
is_dangerous flag =
    flag == unity_remount
    || flag == unity_reboot
    || flag == unity_runmode
    || flag == unity_rootrun
    || flag == app_sideload
    || (leb 4000 flag && leb flag 4009)

flash_range : (flag : ℕ) → is_flash (command_family flag) ≡ (leb 4000 flag && leb flag 4009)
flash_range flag = ground (arith, is_flash_iff (command_family flag), flash_family_iff flag)

-- A frame is allowed exactly when its command is none of remount, reboot, runmode, rootrun and
-- sideload and lies outside 4000 to 4009.
pub inspect_frame_denies : (flag : ℕ) → (inspect_frame flag).allowed ≡ not (is_dangerous flag)
unfolding inspect_frame first_rule frame_rules is_dangerous
inspect_frame_denies flag = rw (flash_range flag) (ground arith)
