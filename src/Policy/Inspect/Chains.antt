-- ===== src/Policy/Inspect/Chains.antt =====
-- `InspectShell` of internal/policy/shell.go on commands joined by `;`.
use hdc_remote_kit.Policy.Rules.Grow.{
  Sub-right, Sub-left, writes_device_node_sub, removes_critical_path_sub, remounts_filesystem_sub,
  kills_hdc_daemon_sub, match_extra-Sub, changes_hdc_daemon_state_sub, match_any_executable_sub,
  is_power_control_command_sub, has_indirect_command_sub, Sub-any, true-ne-false, Sub,
}
use hdc_remote_kit.Policy.Lexer.Separators.{lex_shell_segments-append}
use mathlib.Core.Path.{subst}
use hdc_remote_kit.Base.{
  zero, suc, append_assoc, sym, ◌∙◌, arith, if◌then◌else◌, ap, ℕ, true, false, String, List,
  bytes_eq, Bool, refl, [], ◌∷◌, ◌≡◌, ◌++◌, Bytes,
}
use hdc_remote_kit.Policy.Inspect.{
  lex_shell_segments, max_inline_depth, resolve_profile, with_commands, trim_space, is_restricted,
  base_executable, core_shell_rules, ShellSegment, Profile, restricted_executables, first_rule,
  expand_segments, deny_hit, decide, add_extra, Decision, verdict, new_policy, inspect_shell,
  analyze_shell_command,
}
use hdc_remote_kit.Policy.Lexer.{scan, unclosed, start, lex_loop}
use hdc_remote_kit.Policy.Rules.{any}
use hdc_remote_kit.Policy.Text.{lower, to_lower, member}

cons_append :
    (s : ShellSegment) (inner xs ys both : List ShellSegment)
    → both ≡ xs ++ ys
    → s ∷ (inner ++ both) ≡ (s ∷ (inner ++ xs)) ++ ys
cons_append s inner xs ys both e = rw (e, append_assoc inner xs ys) refl

expand_segments-append :
    (left : ℕ) (xs ys : List ShellSegment)
    → expand_segments left (xs ++ ys) ≡ expand_segments left xs ++ expand_segments left ys
unfolding expand_segments
expand_segments-append left [] ys = refl
expand_segments-append zero (s ∷ xs) ys =
    cons_append (with_commands s) _ (expand_segments zero xs) (expand_segments zero ys)
      (expand_segments zero (xs ++ ys)) (expand_segments-append zero xs ys)
expand_segments-append (suc left) (s ∷ xs) ys =
    cons_append (with_commands s) _ (expand_segments (suc left) xs) (expand_segments (suc left) ys)
      (expand_segments (suc left) (xs ++ ys)) (expand_segments-append (suc left) xs ys)

-- Both tests of a rule table's names and the strict profile's.
core-Sub :
    (xs ys : List ShellSegment)
    → Sub xs ys
    → (d d' : Decision) → (d'.allowed ≡ true → d.allowed ≡ true)
    → (first_rule core_shell_rules ys d').allowed ≡ true
    → (first_rule core_shell_rules xs d).allowed ≡ true
unfolding first_rule core_shell_rules
core-Sub xs ys sub d d' h e = ground (
  arith,
  has_indirect_command_sub xs ys sub,
  is_power_control_command_sub xs ys sub,
  changes_hdc_daemon_state_sub xs ys sub,
  kills_hdc_daemon_sub xs ys sub,
  remounts_filesystem_sub xs ys sub,
  removes_critical_path_sub xs ys sub,
  writes_device_node_sub xs ys sub,
)

deny_hit_sub :
    (prefix : String) (hit hit' : Bytes) (d d' : Decision)
    → (hit' ≡ [] → hit ≡ [])
    → (d'.allowed ≡ true → d.allowed ≡ true)
    → (deny_hit prefix hit' d').allowed ≡ true
    → (deny_hit prefix hit d).allowed ≡ true
unfolding deny_hit
deny_hit_sub prefix hit [] d d' k h e = rw (k refl) (h e)
deny_hit_sub prefix hit (c ∷ hit') d d' k h e = cc

if_sub :
    (b : Bool) (x y x' y' : Decision)
    → (x'.allowed ≡ true → x.allowed ≡ true)
    → (y'.allowed ≡ true → y.allowed ≡ true)
    → (if b then x' else y').allowed ≡ true
    → (if b then x else y).allowed ≡ true
if_sub true x y x' y' h k e = h e
if_sub false x y x' y' h k e = k e

restricted_named : member [] restricted_executables ≡ false
unfolding member bytes_eq
restricted_named = refl

decide-Sub :
    (extras : List Bytes) (profile : Profile) (xs ys : List ShellSegment)
    → member [] extras ≡ false
    → Sub xs ys
    → (decide extras profile ys).allowed ≡ true
    → (decide extras profile xs).allowed ≡ true
unfolding decide
decide-Sub extras profile xs ys n sub e =
    core-Sub xs ys sub _ _
      (if_sub (is_restricted (resolve_profile profile)) _ _ _ _
        (deny_hit_sub "restricted-exec:" _ _ _ _
          (match_any_executable_sub xs ys sub restricted_executables restricted_named)
          (deny_hit_sub "extra-denied:" _ _ _ _ (match_extra-Sub xs ys sub extras n) (λ h. h)))
        (deny_hit_sub "extra-denied:" _ _ _ _ (match_extra-Sub xs ys sub extras n) (λ h. h)))
      e

verdict-Sub :
    (extras : List Bytes) (profile : Profile) (xs ys : List ShellSegment)
    → member [] extras ≡ false
    → Sub xs ys
    → (verdict extras profile ys).allowed ≡ true
    → (verdict extras profile xs).allowed ≡ true
unfolding verdict any
verdict-Sub extras profile [] ys n sub e = refl
verdict-Sub extras profile (x ∷ xs) [] n sub e =
    absurd (true-ne-false (Sub-any (x ∷ xs) [] sub (λ s. true) refl))
verdict-Sub extras profile (x ∷ xs) (y ∷ ys) n sub e =
    decide-Sub extras profile (x ∷ xs) (y ∷ ys) n sub e

add_extra_named :
    (name : Bytes) (extras : List Bytes)
    → member [] extras ≡ false
    → member [] (add_extra name extras) ≡ false
unfolding add_extra member bytes_eq
add_extra_named [] extras n = n
add_extra_named (c ∷ name) extras n = n

new_policy_named : (items : List Bytes) → member [] (new_policy items) ≡ false
unfolding new_policy member
new_policy_named [] = refl
new_policy_named (item ∷ items) =
    add_extra_named (base_executable (to_lower (trim_space item))) (new_policy items)
      (new_policy_named items)

lower_semicolon :
    (front rest : Bytes) → to_lower (front ++ b';' ∷ rest) ≡ to_lower front ++ b';' ∷ to_lower rest
unfolding to_lower lower
lower_semicolon [] rest = refl
lower_semicolon (c ∷ front) rest = rw (lower_semicolon front rest) refl

lower_end : (front : Bytes) → to_lower (front ++ b';' ∷ []) ≡ to_lower front ++ b';' ∷ []
unfolding to_lower
lower_end front = lower_semicolon front []

analyze-append :
    (front rest : Bytes) (found : List ShellSegment)
    → lex_loop start (to_lower front ++ b';' ∷ []) ≡ record start { segments = found }
    → unclosed (scan (to_lower rest)) ≡ false
    → analyze_shell_command (front ++ b';' ∷ rest)
      ≡ analyze_shell_command (front ++ b';' ∷ []) ++ analyze_shell_command rest
unfolding analyze_shell_command
analyze-append front rest found h closed =
    ap (λ text. expand_segments max_inline_depth (lex_shell_segments text))
      (lower_semicolon front rest)
    ∙ ap (expand_segments max_inline_depth)
        (lex_shell_segments-append (to_lower front) (to_lower rest) found h closed)
    ∙ expand_segments-append max_inline_depth (lex_shell_segments (to_lower front ++ b';' ∷ []))
        (lex_shell_segments (to_lower rest))
    ∙ ap
        (λ text.
          expand_segments max_inline_depth (lex_shell_segments text) ++ analyze_shell_command rest)
        (sym (lower_end front))

-- If a command line of the form `front;rest` is allowed, under any profile and any configured
-- extra executables, then `front;` is allowed and `rest` is allowed, provided that `front;` leaves
-- the lexer as it starts but for the segments found, with no quote, substitution, word or pipe
-- open, and that the quotes in `rest` are closed.
pub inspect_shell-append :
    (items : List Bytes) (profile : Profile) (front rest : Bytes) (found : List ShellSegment)
    → lex_loop start (to_lower front ++ b';' ∷ []) ≡ record start { segments = found }
    → unclosed (scan (to_lower rest)) ≡ false
    → (inspect_shell (new_policy items) profile (front ++ b';' ∷ rest)).allowed ≡ true
    → ((inspect_shell (new_policy items) profile (front ++ b';' ∷ [])).allowed ≡ true)
      × ((inspect_shell (new_policy items) profile rest).allowed ≡ true)
unfolding inspect_shell
inspect_shell-append items profile front rest found h closed e =
    let xs = analyze_shell_command (front ++ b';' ∷ []) in
    let ys = analyze_shell_command rest in
    let both =
      subst (λ zs. (verdict (new_policy items) profile zs).allowed ≡ true)
        (analyze-append front rest found h closed) e in
    (
      verdict-Sub (new_policy items) profile xs (xs ++ ys) (new_policy_named items) (Sub-left xs ys)
          both,
      verdict-Sub (new_policy items) profile ys (xs ++ ys) (new_policy_named items)
          (Sub-right xs ys) both,
    )
