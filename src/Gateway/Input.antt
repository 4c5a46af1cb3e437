-- ===== src/Gateway/Input.antt =====
-- The guard on what a client types, internal/gateway/gateway.go: `appendShellInput`.
pub mod Lines
use hdc_remote_kit.Base.{
  false, List, ◌-◌, ◌++◌, ◌+◌, drop, ◌||◌, length, ◌∷◌, ◌==◌, none, ltb, ◌*◌, some, reverse,
  if◌then◌else◌, [], Bool, ℕ, Option, Bytes,
}
use hdc_remote_kit.Gateway.Connection.{insert, lookup, Connection}

abbrev pub shell_input_guard_limit : ℕ
shell_input_guard_limit = 4096

abbrev pub shell_input_inspect_limit : ℕ
shell_input_inspect_limit = 256 * 1024

unfoldable pub is_line_end : ℕ → Bool
is_line_end c = c == 13 || c == 10

unfoldable pub any_line_end : Bytes → Bool
any_line_end [] = false
any_line_end (c ∷ text) = is_line_end c || any_line_end text

-- What follows the last line end.
unfoldable pub last_line : Bytes → Bytes
last_line [] = []
last_line (c ∷ text) = if any_line_end (c ∷ text) then last_line text else c ∷ text

-- A suffix of at most the guard's length.
keep_tail : Bytes → Bytes
keep_tail line =
    if ltb shell_input_guard_limit (length line)
    then drop (length line - shell_input_guard_limit) line
    else line

-- The text to inspect and the new buffer, or nothing where the input is too large.
pub guard_input : Bytes → Bytes → Option (Bytes × Bytes)
guard_input buffer chunk =
    if ltb shell_input_inspect_limit (length buffer + length chunk)
    then none
    else some (buffer ++ chunk, keep_tail (last_line (buffer ++ chunk)))

pub input_buffer : Option Bytes → Bytes
input_buffer none = []
input_buffer (some buffer) = buffer

pub new_buffer : Option (Bytes × Bytes) → Bytes
new_buffer none = []
new_buffer (some (guarded, retained)) = retained

pub guarded_text : Option (Bytes × Bytes) → Option Bytes
guarded_text none = none
guarded_text (some (guarded, retained)) = some guarded

-- `appendShellInput`: the text to inspect, and the connection with the new buffer.
unfoldable pub append_shell_input : ℕ → Bytes → Connection → Option Bytes × Connection
append_shell_input channel_id chunk c =
    let guarded = guard_input (input_buffer (lookup channel_id c.shell_input)) chunk in
    (
      guarded_text guarded,
      record c { shell_input = insert channel_id (new_buffer guarded) c.shell_input },
    )

-- The buffer of a channel after frames with these chunks, if each of them is accepted.
pub type_frames : Bytes → List Bytes → Option Bytes
type_frames buffer [] = some buffer
type_frames buffer (chunk ∷ chunks) = elim (guard_input buffer chunk) [
  | none ↦ none
  | some accepted ↦ type_frames accepted.1 chunks
]
