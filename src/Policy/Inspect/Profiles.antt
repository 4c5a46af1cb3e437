-- ===== src/Policy/Inspect/Profiles.antt =====
-- `InspectShell` of internal/policy/shell.go under different profiles, extra executables and cases
-- of letters.
use hdc_remote_kit.Policy.Text.{lower, to_lower}
use hdc_remote_kit.Policy.Rules.Grow.{match_extra-nil}
use hdc_remote_kit.Policy.Inspect.{
  restricted_executables, match_any_executable, allow, verdict, match_extra_executable,
  ShellSegment, is_restricted, Profile, restricted, Decision, inspect_shell, decide,
  resolve_profile, first_rule, core_shell_rules, deny_hit, analyze_shell_command,
}
use hdc_remote_kit.Base.{
  if◌then◌else◌, refl, inr, arith, inl, [], Bool-cases, ◌∷◌, true, ◌≡◌, Bool, Bytes, String, List,
  ℕ,
}

first_rule_allowed :
    {A : Type 0} (rules : List (Bytes × (A → Bool))) (a : A) (d d' : Decision)
    → (d.allowed ≡ true → d'.allowed ≡ true)
    → (first_rule rules a d).allowed ≡ true
    → (first_rule rules a d').allowed ≡ true
unfolding first_rule
first_rule_allowed [] a d d' h e = h e
first_rule_allowed ((name, matches) ∷ rules) a d d' h e = elim (Bool-cases (matches a)) [
  | inl t ↦ ground arith
  | inr t ↦ rw t (first_rule_allowed rules a d d' h (rw t at e))
]

deny_hit_allowed :
    (prefix : String) (hit : Bytes) (d : Decision)
    → (deny_hit prefix hit d).allowed ≡ true
    → d.allowed ≡ true
unfolding deny_hit
deny_hit_allowed prefix [] d e = e
deny_hit_allowed prefix (c ∷ hit) d e = cc

decide_restricted :
    (extras : List Bytes) (profile : Profile) (segments : List ShellSegment)
    → (decide extras restricted segments).allowed ≡ true
    → (decide extras profile segments).allowed ≡ true
unfolding decide is_restricted resolve_profile
decide_restricted extras profile segments e =
    let extra = deny_hit "extra-denied:" (match_extra_executable extras segments) allow in
    let strict =
      deny_hit "restricted-exec:" (match_any_executable segments restricted_executables) extra in
    first_rule_allowed core_shell_rules segments strict _
      (λ h. elim (Bool-cases (is_restricted (resolve_profile profile))) [
        | inl t ↦ rw t h
        | inr t ↦ rw t (
            deny_hit_allowed "restricted-exec:"
              (match_any_executable segments restricted_executables) extra h)
      ])
      e

verdict_restricted :
    (extras : List Bytes) (profile : Profile) (segments : List ShellSegment)
    → (verdict extras restricted segments).allowed ≡ true
    → (verdict extras profile segments).allowed ≡ true
unfolding verdict
verdict_restricted extras profile [] e = refl
verdict_restricted extras profile (s ∷ segments) e =
    decide_restricted extras profile (s ∷ segments) e

-- A command that the restricted profile allows is allowed under every profile, with the same extra
-- executables.
pub inspect_shell_restricted :
    (extras : List Bytes) (profile : Profile) (command : Bytes)
    → (inspect_shell extras restricted command).allowed ≡ true
    → (inspect_shell extras profile command).allowed ≡ true
unfolding inspect_shell
inspect_shell_restricted extras profile command e =
    verdict_restricted extras profile (analyze_shell_command command) e

deny_hit_mono :
    (prefix : String) (hit : Bytes) (d d' : Decision)
    → (d.allowed ≡ true → d'.allowed ≡ true)
    → (deny_hit prefix hit d).allowed ≡ true
    → (deny_hit prefix hit d').allowed ≡ true
unfolding deny_hit
deny_hit_mono prefix [] d d' h e = h e
deny_hit_mono prefix (c ∷ hit) d d' h e = cc

decide_extras :
    (extras : List Bytes) (profile : Profile) (segments : List ShellSegment)
    → (decide extras profile segments).allowed ≡ true
    → (decide [] profile segments).allowed ≡ true
unfolding decide deny_hit
decide_extras extras profile segments e =
    let extra = deny_hit "extra-denied:" (match_extra_executable extras segments) allow in
    let strict =
      deny_hit "restricted-exec:" (match_any_executable segments restricted_executables) in
    first_rule_allowed core_shell_rules segments
      (if is_restricted (resolve_profile profile) then strict extra else extra) _
      (λ h. elim (Bool-cases (is_restricted (resolve_profile profile))) [
        | inl t ↦
            rw (t, match_extra-nil segments)
              (deny_hit_mono "restricted-exec:"
                (match_any_executable segments restricted_executables) extra allow (λ _. refl)
                (rw t at h))
        | inr t ↦ rw (t, match_extra-nil segments) refl
      ])
      e

verdict_extras :
    (extras : List Bytes) (profile : Profile) (segments : List ShellSegment)
    → (verdict extras profile segments).allowed ≡ true
    → (verdict [] profile segments).allowed ≡ true
unfolding verdict
verdict_extras extras profile [] e = refl
verdict_extras extras profile (s ∷ segments) e = decide_extras extras profile (s ∷ segments) e

-- A command that is allowed with some extra denied executables is allowed under the same profile
-- without any.
pub inspect_shell_extras :
    (extras : List Bytes) (profile : Profile) (command : Bytes)
    → (inspect_shell extras profile command).allowed ≡ true
    → (inspect_shell [] profile command).allowed ≡ true
unfolding inspect_shell
inspect_shell_extras extras profile command e =
    verdict_extras extras profile (analyze_shell_command command) e

lower_idem : (c : ℕ) → lower (lower c) ≡ lower c
unfolding lower
lower_idem c = ground arith

to_lower_idem : (text : Bytes) → to_lower (to_lower text) ≡ to_lower text
unfolding to_lower
to_lower_idem [] = refl
to_lower_idem (c ∷ text) = cc (lower_idem c, to_lower_idem text)

-- A command and its lower-case form get the same decision; a letter whose lower case is not ASCII
-- counts as having none.
pub inspect_shell-to_lower :
    (extras : List Bytes) (profile : Profile) (command : Bytes)
    → inspect_shell extras profile (to_lower command) ≡ inspect_shell extras profile command
unfolding inspect_shell analyze_shell_command
inspect_shell-to_lower extras profile command = rw (to_lower_idem command)
