-- ===== src/Protocol/ShellCommand.antt =====
-- `ExtractShellCommand` of internal/protocol/daemon.go.
use hdc_remote_kit.Protocol.Tlv.{extract_tlv_value}
use hdc_remote_kit.Base.{◌&&◌, leb, ◌∷◌, ◌||◌, ◌==◌, true, [], map, if◌then◌else◌, Bool, Bytes}
use hdc_remote_kit.Protocol.Commands.{unity_execute_ex, unity_execute}
use hdc_remote_kit.Strings.{trim_space}
use hdc_remote_kit.Protocol.Frame.{Frame}

-- `shellControlReplacer`.
abbrev replace_control : Bytes → Bytes
replace_control = map (λ c. if c == 0 || c == 13 || c == 10 then b' ' else c)

unfoldable pub is_printable : Bytes → Bool
is_printable [] = true
is_printable (c ∷ text) = leb 32 c && leb c 126 && is_printable text

-- A text that is not valid UTF-8 has a byte outside ASCII, so that it fails the test as well.
printable_or_empty : Bytes → Bytes
printable_or_empty text = if is_printable text then text else []

command_value : Frame → Bytes
command_value frame =
    if frame.command_flag == unity_execute
    then frame.payload
    else if frame.command_flag == unity_execute_ex
    then extract_tlv_value frame.payload 0
    else []

pub extract_shell_command : Frame → Bytes
extract_shell_command frame =
    printable_or_empty (trim_space (replace_control (command_value frame)))
