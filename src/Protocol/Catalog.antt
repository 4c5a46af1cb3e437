-- ===== src/Protocol/Catalog.antt =====
-- The two catalogues of internal/protocol/command_catalog.go. A Go map
-- with constant keys is an association list.
pub mod Families
use hdc_remote_kit.Base.{ℕ, List, [], ◌∷◌, Option, none, some, String, ◌==◌, if◌then◌else◌}
use hdc_remote_kit.Protocol.Commands.{
  kernel_help, kernel_handshake, kernel_channel_close, kernel_target_discover, kernel_target_list,
  kernel_target_any, kernel_target_connect, kernel_target_disconnect, kernel_echo, kernel_echo_raw,
  kernel_enable_keepalive, kernel_wakeup_slave_task, check_server, check_device, wait_for,
  server_kill, service_start, ssl_handshake, unity_command_head, unity_execute, unity_remount,
  unity_reboot, unity_runmode, unity_hilog, unity_rootrun, jdwp_list, jdwp_track,
  unity_command_tail, unity_bugreport_init, unity_bugreport_data, unity_execute_ex, shell_init,
  shell_data, forward_init, forward_check, forward_check_result, forward_active_slave,
  forward_active_master, forward_data, forward_free_context, forward_list, forward_remove,
  forward_success, file_init, file_check, file_begin, file_data, file_finish, app_sideload,
  file_mode, dir_mode, app_init, app_check, app_begin, app_data, app_finish, app_uninstall,
  flash_update_init, flash_flash_init, flash_check, flash_begin, flash_data, flash_finish,
  flash_erase, flash_format, flash_progress, heartbeat_message, legacy_kernel_server_kill,
  legacy_client_key_generate, legacy_unity_terminate, legacy_forward_rport_init,
  legacy_forward_rport_list, legacy_forward_rport_remove, legacy_file_recv_init, legacy_uart_finish,
}

pub data Family : Type 0 where
  unknown kernel shell unity forward file app flash heartbeat : Family

pub data CommandOrigin : Type 0 where
  official legacy : CommandOrigin

pub record CommandDescriptor : Type 0 where
  pub name : String
  pub family : Family
  pub origin : CommandOrigin

abbrev official_command : String → Family → CommandDescriptor
official_command name family = record { name = name; family = family; origin = official }

abbrev legacy_alias : String → Family → CommandDescriptor
legacy_alias name family = record { name = name; family = family; origin = legacy }

abbrev pub official_commands : List (ℕ × CommandDescriptor)
official_commands =
    (kernel_help, official_command "KernelHelp" kernel)
    ∷ (kernel_handshake, official_command "KernelHandshake" kernel)
    ∷ (kernel_channel_close, official_command "KernelChannelClose" kernel)
    ∷ (kernel_target_discover, official_command "KernelTargetDiscover" kernel)
    ∷ (kernel_target_list, official_command "KernelTargetList" kernel)
    ∷ (kernel_target_any, official_command "KernelTargetAny" kernel)
    ∷ (kernel_target_connect, official_command "KernelTargetConnect" kernel)
    ∷ (kernel_target_disconnect, official_command "KernelTargetDisconnect" kernel)
    ∷ (kernel_echo, official_command "KernelEcho" kernel)
    ∷ (kernel_echo_raw, official_command "KernelEchoRaw" kernel)
    ∷ (kernel_enable_keepalive, official_command "KernelEnableKeepalive" kernel)
    ∷ (kernel_wakeup_slave_task, official_command "KernelWakeupSlaveTask" kernel)
    ∷ (check_server, official_command "CheckServer" kernel)
    ∷ (check_device, official_command "CheckDevice" kernel)
    ∷ (wait_for, official_command "WaitFor" kernel)
    ∷ (server_kill, official_command "ServerKill" kernel)
    ∷ (service_start, official_command "ServiceStart" kernel)
    ∷ (ssl_handshake, official_command "SSLHandshake" kernel)
    ∷ (unity_command_head, official_command "UnityCommandHead" unity)
    ∷ (unity_execute, official_command "UnityExecute" shell)
    ∷ (unity_remount, official_command "UnityRemount" unity)
    ∷ (unity_reboot, official_command "UnityReboot" unity)
    ∷ (unity_runmode, official_command "UnityRunmode" unity)
    ∷ (unity_hilog, official_command "UnityHilog" unity)
    ∷ (unity_rootrun, official_command "UnityRootrun" unity)
    ∷ (jdwp_list, official_command "JdwpList" unity)
    ∷ (jdwp_track, official_command "JdwpTrack" unity)
    ∷ (unity_command_tail, official_command "UnityCommandTail" unity)
    ∷ (unity_bugreport_init, official_command "UnityBugreportInit" unity)
    ∷ (unity_bugreport_data, official_command "UnityBugreportData" unity)
    ∷ (unity_execute_ex, official_command "UnityExecuteEx" shell)
    ∷ (shell_init, official_command "ShellInit" shell)
    ∷ (shell_data, official_command "ShellData" shell)
    ∷ (forward_init, official_command "ForwardInit" forward)
    ∷ (forward_check, official_command "ForwardCheck" forward)
    ∷ (forward_check_result, official_command "ForwardCheckResult" forward)
    ∷ (forward_active_slave, official_command "ForwardActiveSlave" forward)
    ∷ (forward_active_master, official_command "ForwardActiveMaster" forward)
    ∷ (forward_data, official_command "ForwardData" forward)
    ∷ (forward_free_context, official_command "ForwardFreeContext" forward)
    ∷ (forward_list, official_command "ForwardList" forward)
    ∷ (forward_remove, official_command "ForwardRemove" forward)
    ∷ (forward_success, official_command "ForwardSuccess" forward)
    ∷ (file_init, official_command "FileInit" file)
    ∷ (file_check, official_command "FileCheck" file)
    ∷ (file_begin, official_command "FileBegin" file)
    ∷ (file_data, official_command "FileData" file)
    ∷ (file_finish, official_command "FileFinish" file)
    ∷ (app_sideload, official_command "AppSideload" file)
    ∷ (file_mode, official_command "FileMode" file)
    ∷ (dir_mode, official_command "DirMode" file)
    ∷ (app_init, official_command "AppInit" app)
    ∷ (app_check, official_command "AppCheck" app)
    ∷ (app_begin, official_command "AppBegin" app)
    ∷ (app_data, official_command "AppData" app)
    ∷ (app_finish, official_command "AppFinish" app)
    ∷ (app_uninstall, official_command "AppUninstall" app)
    ∷ (flash_update_init, official_command "FlashdUpdateInit" flash)
    ∷ (flash_flash_init, official_command "FlashdFlashInit" flash)
    ∷ (flash_check, official_command "FlashdCheck" flash)
    ∷ (flash_begin, official_command "FlashdBegin" flash)
    ∷ (flash_data, official_command "FlashdData" flash)
    ∷ (flash_finish, official_command "FlashdFinish" flash)
    ∷ (flash_erase, official_command "FlashdErase" flash)
    ∷ (flash_format, official_command "FlashdFormat" flash)
    ∷ (flash_progress, official_command "FlashdProgress" flash)
    ∷ (heartbeat_message, official_command "HeartbeatMsg" heartbeat)
    ∷ []

abbrev pub legacy_commands : List (ℕ × CommandDescriptor)
legacy_commands =
    (legacy_kernel_server_kill, legacy_alias "LegacyKernelServerKill" kernel)
    ∷ (legacy_client_key_generate, legacy_alias "LegacyClientKeyGenerate" kernel)
    ∷ (legacy_unity_terminate, legacy_alias "LegacyUnityTerminate" unity)
    ∷ (legacy_forward_rport_init, legacy_alias "LegacyForwardRportInit" forward)
    ∷ (legacy_forward_rport_list, legacy_alias "LegacyForwardRportList" forward)
    ∷ (legacy_forward_rport_remove, legacy_alias "LegacyForwardRportRemove" forward)
    ∷ (legacy_file_recv_init, legacy_alias "LegacyFileRecvInit" file)
    ∷ (legacy_uart_finish, legacy_alias "LegacyUartFinish" flash)
    ∷ []

find_command : ℕ → List (ℕ × CommandDescriptor) → Option CommandDescriptor
find_command command [] = none
find_command command ((key, descriptor) ∷ rest) =
    if key == command then some descriptor else find_command command rest

-- `LookupCommand`: the official table first, then the aliases.
unfoldable pub lookup_command : ℕ → Option CommandDescriptor
unfolding find_command
lookup_command command = elim (find_command command official_commands) [
  | some descriptor ↦ some descriptor
  | none ↦ find_command command legacy_commands
]

-- `CommandFamily`.
unfoldable pub command_family : ℕ → Family
unfolding lookup_command
command_family command = elim (lookup_command command) [
  | some descriptor ↦ descriptor.family
  | none ↦ unknown
]
