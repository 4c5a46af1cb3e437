-- ===== src/Policy/Resolve/Cases.antt =====
-- `resolveCommands` of internal/policy/shell.go, by the cases of its switch.
use hdc_remote_kit.Base.{
  zero, map, none, some, Option-cases, true, false, ap, Bool-cases, ◌⊎◌, ◌≤◌, ◌∙◌, refl, inr, ◌∷◌,
  ◌<◌, sym, inl, [], ◌≡◌, ◌↔◌, suc, length, arith, Bytes, ℕ, List,
}
use hdc_remote_kit.Policy.Resolve.{
  dispatch, is_argument_wrapper, inline_arguments, is_string_command_wrapper,
  skip_environment_command_arguments, is_applet_dispatcher, go_on, candidates,
  skip_assignments_and_keywords, is_env, resolve_loop, head_round, resolve_round, resolve_commands,
}
use hdc_remote_kit.Policy.Text.{base_executable}
use mathlib.Core.Path.{subst}
use hdc_remote_kit.Policy.Resolve.Fuel.{
  skip_keywords_shorter, skip_environment_shorter, inline_arguments_shorter, resolve_round_shorter,
}

behind :
    {n : ℕ} (tokens rest more : List Bytes) {token : Bytes}
    → skip_assignments_and_keywords tokens ≡ token ∷ rest
    → length more ≤ length rest
    → length tokens < suc n
    → length more < n
behind tokens rest more t l h =
    let e : length (skip_assignments_and_keywords tokens) ≡ suc (length rest) = ap length t in
    omega (arith, skip_keywords_shorter tokens)

-- What `resolveCommands` answers, by the cases of its switch; a derivation is finite.
pub data Resolves : List Bytes → List Bytes → Type 0 where
  nothing_left :
      {tokens : List Bytes} → skip_assignments_and_keywords tokens ≡ [] → Resolves tokens []
  environment :
      {tokens rest names : List Bytes} {token : Bytes}
      → skip_assignments_and_keywords tokens ≡ token ∷ rest
      → is_env (base_executable token) ≡ true
      → Resolves (skip_environment_command_arguments rest) names
      → Resolves tokens names
  applet :
      {tokens rest names : List Bytes} {token : Bytes}
      → skip_assignments_and_keywords tokens ≡ token ∷ rest
      → is_env (base_executable token) ≡ false
      → is_applet_dispatcher (base_executable token) ≡ true
      → Resolves rest names
      → Resolves tokens names
  inline_command :
      {tokens rest more names : List Bytes} {token : Bytes}
      → skip_assignments_and_keywords tokens ≡ token ∷ rest
      → is_env (base_executable token) ≡ false
      → is_applet_dispatcher (base_executable token) ≡ false
      → is_string_command_wrapper (base_executable token) ≡ true
      → inline_arguments rest ≡ some more
      → Resolves more names
      → Resolves tokens names
  bare_shell :
      {tokens rest : List Bytes} {token : Bytes}
      → skip_assignments_and_keywords tokens ≡ token ∷ rest
      → is_env (base_executable token) ≡ false
      → is_applet_dispatcher (base_executable token) ≡ false
      → is_string_command_wrapper (base_executable token) ≡ true
      → inline_arguments rest ≡ none
      → Resolves tokens (base_executable token ∷ [])
  wrapper :
      {tokens rest : List Bytes} {token : Bytes}
      → skip_assignments_and_keywords tokens ≡ token ∷ rest
      → is_env (base_executable token) ≡ false
      → is_applet_dispatcher (base_executable token) ≡ false
      → is_string_command_wrapper (base_executable token) ≡ false
      → is_argument_wrapper (base_executable token) ≡ true
      → Resolves tokens (base_executable token ∷ map base_executable rest)
  executable :
      {tokens rest : List Bytes} {token : Bytes}
      → skip_assignments_and_keywords tokens ≡ token ∷ rest
      → is_env (base_executable token) ≡ false
      → is_applet_dispatcher (base_executable token) ≡ false
      → is_string_command_wrapper (base_executable token) ≡ false
      → is_argument_wrapper (base_executable token) ≡ false
      → Resolves tokens (base_executable token ∷ [])

-- A round, as the same cases.
loop_ends :
    (n : ℕ) (tokens names : List Bytes)
    → resolve_round tokens ≡ candidates names
    → resolve_loop (suc n) tokens ≡ names
unfolding resolve_loop
loop_ends n tokens names e = rw (resolve_loop, e) refl

loop_goes :
    (n : ℕ) (tokens rest : List Bytes)
    → resolve_round tokens ≡ go_on rest
    → resolve_loop (suc n) tokens ≡ resolve_loop n rest
unfolding resolve_loop
loop_goes n tokens rest e = rw (resolve_loop, e) refl

head :
    (tokens rest : List Bytes) (token : Bytes)
    → skip_assignments_and_keywords tokens ≡ token ∷ rest
    → resolve_round tokens ≡ dispatch (base_executable token) rest
unfolding resolve_round head_round
head tokens rest token t = rw t refl

-- A derivation is followed by the loop, on any fuel above the number of the tokens.
Resolves-loop :
    (n : ℕ) (tokens names : List Bytes)
    → Resolves tokens names
    → length tokens < n
    → resolve_loop n tokens ≡ names
unfolding dispatch resolve_round head_round is_env
Resolves-loop zero tokens names d h = absurd (omega arith)
Resolves-loop (suc n) tokens names (nothing_left t) h = loop_ends n tokens [] (rw t refl)
Resolves-loop (suc n) tokens names (environment {rest = rest} {token = token} t e d) h =
    let r : resolve_round tokens ≡ go_on (skip_environment_command_arguments rest) =
      head tokens rest token t ∙ rw e refl in
    let shorter = resolve_round_shorter tokens _ r in
    loop_goes n tokens _ r ∙ Resolves-loop n _ names d (omega arith)
Resolves-loop (suc n) tokens names (applet {rest = rest} {token = token} t e a d) h =
    let r : resolve_round tokens ≡ go_on rest = head tokens rest token t ∙ rw (e, a) refl in
    let shorter = resolve_round_shorter tokens _ r in
    loop_goes n tokens _ r ∙ Resolves-loop n _ names d (omega arith)
Resolves-loop (suc n) tokens names
      (inline_command {rest = rest} {more = more} {token = token} t e a s i d) h =
    let r : resolve_round tokens ≡ go_on more = head tokens rest token t ∙ rw (e, a, s, i) refl in
    let shorter = resolve_round_shorter tokens _ r in
    loop_goes n tokens _ r ∙ Resolves-loop n _ names d (omega arith)
Resolves-loop (suc n) tokens names (bare_shell {rest = rest} {token = token} t e a s i) h =
    loop_ends n tokens _ (head tokens rest token t ∙ rw (e, a, s, i) refl)
Resolves-loop (suc n) tokens names (wrapper {rest = rest} {token = token} t e a s w) h =
    loop_ends n tokens _ (head tokens rest token t ∙ rw (e, a, s, w) refl)
Resolves-loop (suc n) tokens names (executable {rest = rest} {token = token} t e a s w) h =
    loop_ends n tokens _ (head tokens rest token t ∙ rw (e, a, s, w) refl)

List-cases :
    (tokens : List Bytes)
    → (tokens ≡ []) ⊎ ((token : Bytes) × (rest : List Bytes) × (tokens ≡ token ∷ rest))
List-cases [] = inl refl
List-cases (token ∷ rest) = inr (token, rest, refl)

-- Below a number of tokens, every list has a derivation.
AllResolve : ℕ → Type 0
AllResolve n =
    (tokens : List Bytes) → length tokens < n → (names : List Bytes) × Resolves tokens names

commands_resolve :
    (n : ℕ) (tokens rest : List Bytes) (token : Bytes)
    → AllResolve n
    → length tokens < suc n
    → skip_assignments_and_keywords tokens ≡ token ∷ rest
    → is_env (base_executable token) ≡ false
    → is_applet_dispatcher (base_executable token) ≡ false
    → (names : List Bytes) × Resolves tokens names
unfolding AllResolve
commands_resolve n tokens rest token ih h t e a =
    let shorter = skip_keywords_shorter tokens in
    elim (Bool-cases (is_string_command_wrapper (base_executable token))) [
      | inl s ↦ elim (Option-cases (inline_arguments rest)) [
        | inl i ↦ (_, bare_shell t e a s i)
        | inr (more, i) ↦
            let (names, d) =
              ih more (behind tokens rest _ t (inline_arguments_shorter rest more i) h) in
            (names, inline_command t e a s i d)
      ]
      | inr s ↦ elim (Bool-cases (is_argument_wrapper (base_executable token))) [
        | inl w ↦ (_, wrapper t e a s w)
        | inr w ↦ (_, executable t e a s w)
      ]
    ]

all_resolve : (n : ℕ) → AllResolve n
unfolding AllResolve
all_resolve zero tokens h = absurd (omega arith)
all_resolve (suc n) tokens h = elim (List-cases (skip_assignments_and_keywords tokens)) [
  | inl t ↦ ([], nothing_left t)
  | inr (token, rest, t) ↦ elim (Bool-cases (is_env (base_executable token))) [
    | inl e ↦
        let (names, d) =
          all_resolve n (skip_environment_command_arguments rest)
            (behind tokens rest _ t (skip_environment_shorter rest) h) in
        (names, environment t e d)
    | inr e ↦ elim (Bool-cases (is_applet_dispatcher (base_executable token))) [
      | inl a ↦
          let (names, d) = all_resolve n rest (behind tokens rest _ t (omega arith) h) in
          (names, applet t e a d)
      | inr a ↦ commands_resolve n tokens rest token (all_resolve n) h t e a
    ]
  ]
]

-- Names are the candidate executables of a list of tokens exactly if a finite derivation by the
-- cases of the switch of resolveCommands ends with them: nothing left, env, an applet dispatcher,
-- a shell with and without an inline command, an argument wrapper, and any other executable.
pub resolve_commands-Resolves :
    (tokens names : List Bytes) → Resolves tokens names ↔ (resolve_commands tokens ≡ names)
unfolding resolve_commands AllResolve
resolve_commands-Resolves tokens names = (
  λ d. Resolves-loop (suc (length tokens)) tokens names d (omega arith),
  λ e.
      let (found, d) = all_resolve (suc (length tokens)) tokens (omega arith) in
      let e' = Resolves-loop (suc (length tokens)) tokens found d (omega arith) in
      subst (Resolves tokens) (sym e' ∙ e) d,
)
