-- ===== src/Policy/Resolve/Fuel.antt =====
-- The rounds of `resolveCommands` of internal/policy/shell.go, and their number.
use hdc_remote_kit.Base.{inr, [], ◌∷◌, inl, arith, Option-cases, ◌≤◌, ◌<◌, some, ◌≡◌}
use hdc_remote_kit.Policy.Resolve.{
  base_executable, go_on, length, Bytes, resolve_round, head_round, dispatch, List,
  skip_environment_command_arguments, skip_assignments_and_keywords, inline_arguments,
  find_inline_flag,
}

pub skip_keywords_shorter :
    (tokens : List Bytes) → length (skip_assignments_and_keywords tokens) ≤ length tokens
unfolding skip_assignments_and_keywords
skip_keywords_shorter [] = omega arith
skip_keywords_shorter (token ∷ rest) = ground (arith, skip_keywords_shorter rest)

pub skip_environment_shorter :
    (tokens : List Bytes) → length (skip_environment_command_arguments tokens) ≤ length tokens
unfolding skip_environment_command_arguments
skip_environment_shorter [] = omega arith
skip_environment_shorter (token ∷ rest) = ground (arith, skip_environment_shorter rest)

find_flag_shorter :
    (tokens rest : List Bytes) → find_inline_flag tokens ≡ some rest → length rest ≤ length tokens
unfolding find_inline_flag
find_flag_shorter [] rest e = cc
find_flag_shorter (token ∷ tokens) rest e = ground (arith, find_flag_shorter tokens rest)

pub inline_arguments_shorter :
    (tokens rest : List Bytes) → inline_arguments tokens ≡ some rest → length rest ≤ length tokens
unfolding inline_arguments
inline_arguments_shorter tokens rest e = elim (Option-cases (find_inline_flag tokens)) [
  | inl t ↦ cc
  | inr ([], t) ↦ cc
  | inr (token ∷ more, t) ↦ ground (arith, find_flag_shorter tokens (token ∷ more) t)
]

dispatch_shorter :
    (command : Bytes) (tokens rest : List Bytes)
    → dispatch command tokens ≡ go_on rest
    → length rest ≤ length tokens
unfolding dispatch
dispatch_shorter command tokens rest e = elim (Option-cases (inline_arguments tokens)) [
  | inl t ↦ ground (arith, t, skip_environment_shorter tokens)
  | inr (more, t) ↦
      ground (arith, t, skip_environment_shorter tokens, inline_arguments_shorter tokens more t)
]

head_round_shorter :
    (tokens rest : List Bytes) → head_round tokens ≡ go_on rest → length rest < length tokens
unfolding head_round
head_round_shorter [] rest e = cc
head_round_shorter (token ∷ tokens) rest e =
    omega (arith, dispatch_shorter (base_executable token) tokens rest e)

pub resolve_round_shorter :
    (tokens rest : List Bytes) → resolve_round tokens ≡ go_on rest → length rest < length tokens
unfolding resolve_round
resolve_round_shorter tokens rest e = omega (
  arith,
  head_round_shorter (skip_assignments_and_keywords tokens) rest e,
  skip_keywords_shorter tokens,
)
