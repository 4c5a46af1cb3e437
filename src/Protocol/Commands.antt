-- ===== src/Protocol/Commands.antt =====
-- The command codes of internal/protocol/command_catalog.go.
use hdc_remote_kit.Base.{ℕ}

abbrev pub kernel_help : ℕ
kernel_help = 0

abbrev pub kernel_handshake : ℕ
kernel_handshake = 1

abbrev pub kernel_channel_close : ℕ
kernel_channel_close = 2

abbrev pub kernel_target_discover : ℕ
kernel_target_discover = 4

abbrev pub kernel_target_list : ℕ
kernel_target_list = 5

abbrev pub kernel_target_any : ℕ
kernel_target_any = 6

abbrev pub kernel_target_connect : ℕ
kernel_target_connect = 7

abbrev pub kernel_target_disconnect : ℕ
kernel_target_disconnect = 8

abbrev pub kernel_echo : ℕ
kernel_echo = 9

abbrev pub kernel_echo_raw : ℕ
kernel_echo_raw = 10

abbrev pub kernel_enable_keepalive : ℕ
kernel_enable_keepalive = 11

abbrev pub kernel_wakeup_slave_task : ℕ
kernel_wakeup_slave_task = 12

abbrev pub check_server : ℕ
check_server = 13

abbrev pub check_device : ℕ
check_device = 14

abbrev pub wait_for : ℕ
wait_for = 15

abbrev pub server_kill : ℕ
server_kill = 16

abbrev pub service_start : ℕ
service_start = 17

abbrev pub ssl_handshake : ℕ
ssl_handshake = 20

abbrev pub unity_command_head : ℕ
unity_command_head = 1000

abbrev pub unity_execute : ℕ
unity_execute = 1001

abbrev pub unity_remount : ℕ
unity_remount = 1002

abbrev pub unity_reboot : ℕ
unity_reboot = 1003

abbrev pub unity_runmode : ℕ
unity_runmode = 1004

abbrev pub unity_hilog : ℕ
unity_hilog = 1005

abbrev pub unity_rootrun : ℕ
unity_rootrun = 1007

abbrev pub jdwp_list : ℕ
jdwp_list = 1008

abbrev pub jdwp_track : ℕ
jdwp_track = 1009

abbrev pub unity_command_tail : ℕ
unity_command_tail = 1010

abbrev pub unity_bugreport_init : ℕ
unity_bugreport_init = 1011

abbrev pub unity_bugreport_data : ℕ
unity_bugreport_data = 1012

abbrev pub unity_execute_ex : ℕ
unity_execute_ex = 1200

abbrev pub shell_init : ℕ
shell_init = 2000

abbrev pub shell_data : ℕ
shell_data = 2001

abbrev pub forward_init : ℕ
forward_init = 2500

abbrev pub forward_check : ℕ
forward_check = 2501

abbrev pub forward_check_result : ℕ
forward_check_result = 2502

abbrev pub forward_active_slave : ℕ
forward_active_slave = 2503

abbrev pub forward_active_master : ℕ
forward_active_master = 2504

abbrev pub forward_data : ℕ
forward_data = 2505

abbrev pub forward_free_context : ℕ
forward_free_context = 2506

abbrev pub forward_list : ℕ
forward_list = 2507

abbrev pub forward_remove : ℕ
forward_remove = 2508

abbrev pub forward_success : ℕ
forward_success = 2509

abbrev pub file_init : ℕ
file_init = 3000

abbrev pub file_check : ℕ
file_check = 3001

abbrev pub file_begin : ℕ
file_begin = 3002

abbrev pub file_data : ℕ
file_data = 3003

abbrev pub file_finish : ℕ
file_finish = 3004

abbrev pub app_sideload : ℕ
app_sideload = 3005

abbrev pub file_mode : ℕ
file_mode = 3006

abbrev pub dir_mode : ℕ
dir_mode = 3007

abbrev pub app_init : ℕ
app_init = 3500

abbrev pub app_check : ℕ
app_check = 3501

abbrev pub app_begin : ℕ
app_begin = 3502

abbrev pub app_data : ℕ
app_data = 3503

abbrev pub app_finish : ℕ
app_finish = 3504

abbrev pub app_uninstall : ℕ
app_uninstall = 3505

abbrev pub flash_update_init : ℕ
flash_update_init = 4000

abbrev pub flash_flash_init : ℕ
flash_flash_init = 4001

abbrev pub flash_check : ℕ
flash_check = 4002

abbrev pub flash_begin : ℕ
flash_begin = 4003

abbrev pub flash_data : ℕ
flash_data = 4004

abbrev pub flash_finish : ℕ
flash_finish = 4005

abbrev pub flash_erase : ℕ
flash_erase = 4006

abbrev pub flash_format : ℕ
flash_format = 4007

abbrev pub flash_progress : ℕ
flash_progress = 4008

abbrev pub heartbeat_message : ℕ
heartbeat_message = 5000

abbrev pub legacy_kernel_server_kill : ℕ
legacy_kernel_server_kill = 3

abbrev pub legacy_client_key_generate : ℕ
legacy_client_key_generate = 18

abbrev pub legacy_unity_terminate : ℕ
legacy_unity_terminate = 1006

abbrev pub legacy_forward_rport_init : ℕ
legacy_forward_rport_init = 2510

abbrev pub legacy_forward_rport_list : ℕ
legacy_forward_rport_list = 2511

abbrev pub legacy_forward_rport_remove : ℕ
legacy_forward_rport_remove = 2512

abbrev pub legacy_file_recv_init : ℕ
legacy_file_recv_init = 3008

abbrev pub legacy_uart_finish : ℕ
legacy_uart_finish = 4009
