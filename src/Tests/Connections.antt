-- ===== src/Tests/Connections.antt =====
-- A connection of a host that is known, whose signature is right, with a shell and a frame that
-- the rules deny; and a listener with room for two connections.
use hdc_remote_kit.Gateway.Route.{run, frame_read, Input}
use hdc_remote_kit.Protocol.Commands.{
  file_check, unity_reboot, shell_data, shell_init, kernel_handshake,
}
use hdc_remote_kit.Gateway.Route.Safety.{run_authenticated, run_channels, run_permitted}
use hdc_remote_kit.Gateway.Listener.Admission.{
  admit_iff, Admissible, close_op, leave_op, listener_run-WithinLimit, accept_op, listener_run,
  ListenerOp, WithinLimit, KeepsLimit,
}
use hdc_remote_kit.Gateway.Permission.Authentication.{Authenticated}
use hdc_remote_kit.Protocol.Handshake.{encode_session_handshake}
use hdc_remote_kit.Gateway.Input.Lines.{inspected_line, joined, FramesFit, FrameFits}
use hdc_remote_kit.Base.{
  ◌⊎◌, ◌↔◌, false, bytes_eq, ◌≤◌, ◌≡◌, ◌∷◌, ◌==◌, ◌++◌, refl, true, some, codes, arith, [], Bytes,
  Bool, All, ℕ, length, List,
}
use hdc_remote_kit.Protocol.Handshake.Tlv.{append_handshake_tlv}
use hdc_remote_kit.Protocol.Frame.{command_name_of, Frame}
use hdc_remote_kit.Gateway.Listener.{admitted, address, admit, Listener}
use hdc_remote_kit.Gateway.Input.{is_line_end, guard_input, any_line_end, last_line, type_frames}
use hdc_remote_kit.Gateway.Connection.{fine, new_connection, World, Setup}
use hdc_remote_kit.Policy.Inspect.{studio_debug}
use hdc_remote_kit.HostAuth.Identity.{rsa_key, Crypto}
use hdc_remote_kit.HostAuth.Decision.{allow_once}
use hdc_remote_kit.Gateway.Permission.{Safe}

abbrev any_key : Crypto
any_key = record {
  decode_pem = λ text. some text;
  parse_public_key = λ block. some (rsa_key (record { modulus = 7; exponent = 3 }));
  bit_len = λ n. 2048;
  hex_sha256 = λ text. text;
  sha512 = λ text. text;
  decode_base64 = λ text. some text;
  verify_pss = λ key digest signature. bytes_eq digest signature;
}

abbrev lab : Setup
lab = record {
  crypto = any_key;
  extra_denied = [];
  policy_profile = studio_debug;
  host_auth_off = false;
  has_hosts = true;
  has_file_bridge = true;
  max_channels = 2;
  device_id = codes "local:phone";
  handshake_timeout = 30;
}

abbrev willing : World
willing = record {
  write_succeeds = λ t. true;
  is_trusted = λ t fingerprint. true;
  operator_decision = λ t fingerprint. some allow_once;
  challenge_token = λ t. some (codes "token");
  resolve_succeeds = λ t. true;
  open_succeeds = λ t. true;
  stdin_succeeds = λ t. true;
  bridge_status = λ t. fine;
}

abbrev frame_of : ℕ → ℕ → Bytes → Frame
frame_of channel_id flag payload = record {
  channel_id = channel_id;
  command_flag = flag;
  command_name = command_name_of flag;
  check_sum = 0;
  vcode = 9;
  payload = payload;
}

abbrev hello : ℕ → Bytes → Frame
hello auth_type buffer = frame_of 0 kernel_handshake (
    encode_session_handshake (record {
      banner = codes "OHOS HDC";
      auth_type = auth_type;
      session_id = 1;
      connect_key = [];
      buffer = buffer;
      version = codes "Ver: 3.2.0c";
    }))

abbrev visit : List Input
visit =
    frame_read (hello 0 (append_handshake_tlv [] (codes "authtype") (codes "1")))
    ∷ frame_read (hello 3 (codes "pc" ++ (12 ∷ codes "key")))
    ∷ frame_read (hello 2 (codes "token"))
    ∷ frame_read (frame_of 1 shell_init [])
    ∷ frame_read (frame_of 1 shell_data (codes "ls"))
    ∷ frame_read (frame_of 2 unity_reboot [])
    ∷ frame_read (frame_of 3 file_check [])
    ∷ []

run_permitted_example : Safe lab (run lab willing visit new_connection).log
run_permitted_example = run_permitted lab willing visit

run_authenticated_example :
    ((run lab willing visit new_connection).handshake_accepted ≡ false)
    ⊎ Authenticated lab (run lab willing visit new_connection).log
run_authenticated_example = run_authenticated lab willing visit

run_channels_example : length (run lab willing visit new_connection).open_channels ≤ 2
run_channels_example = run_channels lab willing visit (omega arith)

-- A command that is typed in three frames, behind a finished line.
abbrev typed : List Bytes
typed = (codes "ls" ++ (10 ∷ codes "re")) ∷ codes "bo" ∷ []

typed_fits : FramesFit [] typed
unfolding FramesFit FrameFits last_line any_line_end is_line_end
typed_fits = ((omega arith, omega arith), ((omega arith, omega arith), tt))

last_fits : FrameFits (joined typed) (codes "ot")
unfolding FrameFits joined last_line any_line_end is_line_end
last_fits = (omega arith, omega arith)

inspected_line_example :
    (type_frames [] typed ≡ some (last_line (joined typed)))
    × (guard_input (last_line (joined typed)) (codes "ot")
        ≡ some (last_line (joined typed) ++ codes "ot", last_line (joined typed ++ codes "ot")))
inspected_line_example = inspected_line typed (codes "ot") typed_fits last_fits

-- Prefixes and addresses are numbers here; a prefix allows one address.
abbrev lent : Listener ℕ
lent = record {
  grant = record {
    lease_id = codes "lease";
    binding_id = codes "binding";
    device_id = codes "phone";
    port = 9000;
    max_connections = 2;
    allowed_prefixes = 7 ∷ [];
    expires_at = 100;
  };
  connections = 1 ∷ [];
  closed = false;
}

abbrev same_number : ℕ → ℕ → Bool
same_number a b = a == b

admit_iff_example :
    ((admit same_number 2 (address 7) 50 lent).0 ≡ admitted)
    ↔ Admissible same_number (address 7) 50 lent
admit_iff_example = admit_iff same_number 2 (address 7) 50 lent

abbrev day : List (ListenerOp ℕ ℕ)
day =
    accept_op 2 (address 7) 50
    ∷ accept_op 3 (address 7) 51
    ∷ leave_op 1
    ∷ accept_op 4 (address 7) 52
    ∷ close_op
    ∷ []

day_keeps : All (KeepsLimit same_number 2) day
unfolding KeepsLimit
day_keeps = (tt, (tt, (tt, (tt, (tt, tt)))))

lent_within : WithinLimit same_number 2 lent
unfolding WithinLimit
lent_within = (refl, omega arith)

listener_run-WithinLimit_example : WithinLimit same_number 2 (listener_run same_number day lent)
listener_run-WithinLimit_example =
    listener_run-WithinLimit same_number 2 day lent day_keeps lent_within
