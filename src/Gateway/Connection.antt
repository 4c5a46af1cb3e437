-- ===== src/Gateway/Connection.antt =====
-- One daemon connection, internal/gateway/gateway.go: `daemonConnection` with what it does to its
-- surroundings, as a log of events with the newest first, and its basic operations. What the
-- surroundings answer is told by functions of the length of the log at that time.
use hdc_remote_kit.HostAuth.Decision.{HostDecision}
use hdc_remote_kit.Protocol.Frame.{CommandName, Frame}
use hdc_remote_kit.Protocol.ShellCommand.{extract_shell_command}
use hdc_remote_kit.Strings.{runes, is_blank, trim_space, or_default}
use hdc_remote_kit.Policy.Inspect.{first_executable, Profile}
use hdc_remote_kit.Protocol.Commands.{unity_execute_ex, unity_execute, shell_data, shell_init}
use hdc_remote_kit.Base.{
  ◌||◌, some, ◌++◌, none, ◌==◌, true, length, if◌then◌else◌, codes, [], Option, List, ◌∷◌, ℕ, false,
  Bytes, Bool,
}
use hdc_remote_kit.Protocol.Catalog.{Family}
use hdc_remote_kit.HostAuth.Identity.{empty_identity, HostIdentity, rsa_encrypt, AuthType, Crypto}

pub data Phase : Type 0 where
  phase_start phase_wait_pubkey phase_wait_signature phase_done : Phase

-- The text of an audit's command: a frame's own name, or another text.
pub data NormalizedCommand : Type 0 where
  command_text : Bytes → NormalizedCommand
  frame_name : CommandName → NormalizedCommand

pub record Audit : Type 0 where
  pub fingerprint : Bytes
  pub command_flag : ℕ
  pub normalized_command : NormalizedCommand
  pub allowed : Bool
  pub reason : Bytes

pub data Event : Type 0 where
  sent : Bytes → Event
  audited : Audit → Event
  asked_trusted : Bytes → Bool → Event
  submitted : Bytes → Option HostDecision → Event
  notified_old_client : Bytes → Event
  read_deadline_set read_deadline_cleared resolved : Event
  token_made : Option Bytes → Event
  authed : HostIdentity → Bytes → Bytes → AuthType → Event
  open_target : Bytes → Event
  stdin : ℕ → Bytes → Event
  close_target : ℕ → Event
  to_bridge : Family → Frame → Event
  close_bridge_channel : ℕ → Event
  close_connection : Event

-- What is fixed for a connection: the configuration, the grant's profile and the device.
pub record Setup : Type 0 where
  pub crypto : Crypto
  pub extra_denied : List Bytes
  pub policy_profile : Profile
  pub host_auth_off : Bool
  pub has_hosts : Bool
  pub has_file_bridge : Bool
  pub max_channels : ℕ
  pub device_id : Bytes
  pub handshake_timeout : ℕ

-- What an operation returns: no error, a protocol violation, `errHostAuthRejected` or another.
pub data Status : Type 0 where
  fine failed auth_rejected : Status
  violation : Bytes → Status

pub record World : Type 0 where
  pub write_succeeds : ℕ → Bool
  pub is_trusted : ℕ → Bytes → Bool
  pub operator_decision : ℕ → Bytes → Option HostDecision
  pub challenge_token : ℕ → Option Bytes
  pub resolve_succeeds : ℕ → Bool
  pub open_succeeds : ℕ → Bool
  pub stdin_succeeds : ℕ → Bool
  pub bridge_status : ℕ → Status

-- `shells` and `shell_input` are maps from channels, `open_channels` is a set of channels; a shell
-- session is known by its number. `closed_by_us` and `closed_targets` are the sessions' own flags.
pub record Connection : Type 0 where
  pub handshake_accepted : Bool
  pub auth_phase : Phase
  pub auth_type : AuthType
  pub auth_token : Bytes
  pub auth_identity : HostIdentity
  pub handshake_version : Bytes
  pub auth_reject_reason : Bytes
  pub close_reason : Bytes
  pub open_channels : List ℕ
  pub shells : List (ℕ × ℕ)
  pub shell_input : List (ℕ × Bytes)
  pub closed_by_us : List ℕ
  pub closed_targets : List ℕ
  pub log : List Event

abbrev pub new_connection : Connection
new_connection = record {
  handshake_accepted = false;
  auth_phase = phase_start;
  auth_type = rsa_encrypt;
  auth_token = [];
  auth_identity = empty_identity;
  handshake_version = [];
  auth_reject_reason = [];
  close_reason = [];
  open_channels = [];
  shells = [];
  shell_input = [];
  closed_by_us = [];
  closed_targets = [];
  log = [];
}

abbrev pub Outcome : Type 0
Outcome = Status × Connection

abbrev pub now : Connection → ℕ
now c = length c.log

abbrev pub emit : Event → Connection → Connection
emit event c = record c { log = event ∷ c.log }

abbrev pub status_of : Bool → Status
status_of true = fine
status_of false = failed

-- `if err := first; err != nil { return err }` in front of the rest.
unfoldable pub and_then : Outcome → (Connection → Outcome) → Outcome
and_then (fine, c) next = next c
and_then (failed, c) next = (failed, c)
and_then (auth_rejected, c) next = (auth_rejected, c)
and_then (violation text, c) next = (violation text, c)

-- `write`.
abbrev pub write_bytes : World → Bytes → Connection → Outcome
write_bytes w [] c = (fine, c)
write_bytes w (b ∷ payload) c = (status_of (w.write_succeeds (now c)), emit (sent (b ∷ payload)) c)

-- `setCloseReason`: it is written once.
abbrev pub once : Bytes → Bytes → Bytes
once [] reason = reason
once (b ∷ old) reason = b ∷ old

abbrev pub set_close_reason : Bytes → Connection → Connection
set_close_reason reason c = record c { close_reason = once c.close_reason reason }

-- A map with numbers for keys.
unfoldable pub lookup {ℓ} : {A : Type ℓ} → ℕ → List (ℕ × A) → Option A
lookup key [] = none
lookup key ((k, a) ∷ entries) = elim (k == key) [ true ↦ some a | false ↦ lookup key entries ]

unfoldable pub delete {ℓ} : {A : Type ℓ} → ℕ → List (ℕ × A) → List (ℕ × A)
delete key [] = []
delete key ((k, a) ∷ entries) = elim (k == key) [
  | true ↦ delete key entries
  | false ↦ (k, a) ∷ delete key entries
]

unfoldable pub insert {ℓ} : {A : Type ℓ} → ℕ → A → List (ℕ × A) → List (ℕ × A)
insert key a entries = (key, a) ∷ delete key entries

-- `auditNormalized`.
shell_exec : Bytes → Bytes
shell_exec [] = codes "shell exec"
shell_exec (b ∷ name) = codes "shell exec " ++ (b ∷ name)

audit_normalized : Frame → NormalizedCommand
audit_normalized frame =
    if frame.command_flag == shell_init
    then command_text (codes "shell")
    else if frame.command_flag == shell_data
    then command_text (codes "shell data")
    else if frame.command_flag == unity_execute || frame.command_flag == unity_execute_ex
    then command_text (shell_exec (first_executable (runes (extract_shell_command frame))))
    else frame_name frame.command_name

pub audit_of : Frame → Bool → Bytes → Connection → Audit
audit_of frame allowed reason c = record {
  fingerprint = c.auth_identity.fingerprint;
  command_flag = frame.command_flag;
  normalized_command = audit_normalized frame;
  allowed = allowed;
  reason = reason;
}

-- `audit`, with a recorder.
abbrev pub audit : Frame → Bool → Bytes → Connection → Connection
audit frame allowed reason c = emit (audited (audit_of frame allowed reason c)) c

-- `model.DeviceSerial`.
behind_colon : Bytes → Bytes
behind_colon [] = []
behind_colon (c ∷ text) = elim (c == b':') [ true ↦ text | false ↦ behind_colon text ]

pub device_serial : Bytes → Bytes
device_serial device_id =
    let serial = behind_colon (trim_space device_id) in
    if is_blank serial then trim_space device_id else serial

-- `deviceName`.
pub device_name : Setup → Bytes
device_name setup =
    or_default (device_serial setup.device_id) (or_default setup.device_id (codes "hdc-remote"))
