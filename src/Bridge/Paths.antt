-- ===== src/Bridge/Paths.antt =====
-- Paths in commands, internal/bridge/file.go and util.go: `parseRecvCommand`,
-- `splitCommandTokens`, `baseName`, `quoteCommandArg`, `hasUnsafeText` and the commands to the
-- device.
pub mod Quoting
use hdc_remote_kit.Strings.{runes, text_of, is_nil, contains_any}
use hdc_remote_kit.Base.{
  true, false, ◌&&◌, some, ◌||◌, ◌++◌, not, none, [], ◌∷◌, ◌==◌, reverse, map, if◌then◌else◌, codes,
  Option, ℕ, List, Bytes, Bool,
}

pub has_unsafe_text : Bytes → Bool
has_unsafe_text text = contains_any text (0 ∷ 13 ∷ 10 ∷ [])

-- The loop on the runes; `current` is the token so far.
flush : Bytes → List Bytes → List Bytes
flush [] tokens = tokens
flush (r ∷ current) tokens = (r ∷ current) ∷ tokens

is_blank_rune : ℕ → Bool
is_blank_rune r = r == b' ' || r == 9

token_loop : Bool → Bytes → List ℕ → List Bytes
token_loop in_quote current [] = flush current []
token_loop in_quote current (r ∷ text) =
    if r == b'"'
    then token_loop (not in_quote) current text
    else if is_blank_rune r && not in_quote
    then flush current (token_loop in_quote [] text)
    else token_loop in_quote (current ++ r ∷ []) text

pub tokens_of : List ℕ → List Bytes
tokens_of text = token_loop false [] text

pub split_command_tokens : Bytes → List Bytes
split_command_tokens text = map text_of (tokens_of (runes text))

is_separator : ℕ → Bool
is_separator c = c == b'/' || c == b'\\'

-- strings.TrimRight of the separators, and what follows the last one; on the reversed path.
trim_separators : Bytes → Bytes
trim_separators [] = []
trim_separators (c ∷ text) = elim (is_separator c) [
  | true ↦ trim_separators text
  | false ↦ c ∷ text
]

before_separator : Bytes → Bytes
before_separator [] = []
before_separator (c ∷ text) = elim (is_separator c) [
  | true ↦ []
  | false ↦ c ∷ before_separator text
]

pub base_name : Bytes → Bytes
base_name path = reverse (before_separator (trim_separators (reverse path)))

pub record RecvCommand : Type 0 where
  pub device_path : Bytes
  pub optional_name : Bytes
  pub user_path : Bytes

starts_with_dash : Bytes → Bool
starts_with_dash [] = false
starts_with_dash (c ∷ text) = c == b'-'

-- The last two tokens, from the reversed list.
recv_of : List Bytes → Option RecvCommand
recv_of (user_path ∷ device_path ∷ tokens) =
    let optional_name = base_name device_path in
    if is_nil device_path
      || is_nil user_path
      || starts_with_dash device_path
      || starts_with_dash user_path
    then none
    else if is_nil optional_name || contains_any optional_name (b'/' ∷ b'\\' ∷ [])
    then none
    else some
        (record { device_path = device_path; optional_name = optional_name; user_path = user_path })
recv_of _ = none

-- `parseRecvCommand`; its one message is `failInvalidFileRequest`.
pub parse_recv_command : Bytes → Option RecvCommand
parse_recv_command payload =
    if has_unsafe_text payload then none else recv_of (reverse (split_command_tokens payload))

-- strings.ReplaceAll of a double quote by an escaped one.
escape_quotes : Bytes → Bytes
escape_quotes [] = []
escape_quotes (c ∷ text) =
    if c == b'"' then b'\\' ∷ b'"' ∷ escape_quotes text else c ∷ escape_quotes text

pub quote_command_arg : Bytes → Bytes
quote_command_arg value =
    if not (is_nil value) && not (contains_any value (32 ∷ 9 ∷ 13 ∷ 10 ∷ b'"' ∷ []))
    then value
    else b'"' ∷ (escape_quotes value ++ (b'"' ∷ []))

pub build_file_recv_command : Bytes → Bytes → Bytes
build_file_recv_command device_path local_path =
    codes "file recv " ++ (quote_command_arg device_path ++ (b' ' ∷ quote_command_arg local_path))

pub build_file_send_command : Bytes → Bytes → Bytes
build_file_send_command local_path target_path =
    codes "file send " ++ (quote_command_arg local_path ++ (b' ' ∷ quote_command_arg target_path))
