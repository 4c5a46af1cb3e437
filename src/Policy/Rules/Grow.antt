-- ===== src/Policy/Rules/Grow.antt =====
-- The shell rules of internal/policy/shell.go on a part of the segments.
use hdc_remote_kit.Base.{
  inr, inl, Option-cases, ℕ, true, some, Bool-cases, codes, ◌↔◌, false, none, Bytes, refl, arith,
  ◌∷◌, ◌||◌, ◌≡◌, [], ◌++◌, List, Bool,
}
use hdc_remote_kit.Policy.Rules.{
  contains_hdc_daemon_token, segment_kills, segment_has_executable, writes_device_node,
  segments_have_executable, removes_critical_path, remounts_filesystem, match_any_executable,
  kills_hdc_daemon, is_power_control_command, has_indirect_command, changes_hdc_daemon_state,
  ShellSegment, any, first_denied, match_extra_executable,
}
use hdc_remote_kit.Policy.Text.{member}

first_denied-nil : (names : List Bytes) → first_denied [] names ≡ none
unfolding first_denied member
first_denied-nil [] = refl
first_denied-nil (name ∷ names) = first_denied-nil names

-- Without extra executables nothing is hit.
pub match_extra-nil : (segments : List ShellSegment) → match_extra_executable [] segments ≡ []
unfolding match_extra_executable
match_extra-nil [] = refl
match_extra-nil (s ∷ segments) =
    rw (match_extra_executable, first_denied-nil s.commands) (match_extra-nil segments)

pub any-append {ℓ} :
    {A : Type ℓ} (p : A → Bool) (xs ys : List A) → any p (xs ++ ys) ≡ (any p xs || any p ys)
unfolding any
any-append p [] ys = refl
any-append p (x ∷ xs) ys = ground (arith, any-append p xs ys)

pub true-ne-false : true ≡ false → ⊥
true-ne-false h = cc

cons-ne-nil : {c : ℕ} {text : Bytes} → c ∷ text ≡ [] → ⊥
cons-ne-nil h = cc

-- Every test that no segment of `ys` meets is met by none of `xs`.
pub Sub : List ShellSegment → List ShellSegment → Type 0
Sub xs ys = (p : ShellSegment → Bool) → any p ys ≡ false → any p xs ≡ false

pub Sub-any :
    (xs ys : List ShellSegment)
    → Sub xs ys
    → (p : ShellSegment → Bool) → any p ys ≡ false
    → any p xs ≡ false
unfolding Sub
Sub-any xs ys sub = sub

pub Sub-left : (xs ys : List ShellSegment) → Sub xs (xs ++ ys)
unfolding Sub
Sub-left xs ys p h = ground (arith, any-append p xs ys)

pub Sub-right : (xs ys : List ShellSegment) → Sub ys (xs ++ ys)
unfolding Sub
Sub-right xs ys p h = ground (arith, any-append p xs ys)

module _ (xs ys : List ShellSegment) (sub : Sub xs ys) where
  pub has_indirect_command_sub : has_indirect_command ys ≡ false → has_indirect_command xs ≡ false
  unfolding Sub has_indirect_command
  has_indirect_command_sub h = sub _ h

  pub is_power_control_command_sub :
      is_power_control_command ys ≡ false → is_power_control_command xs ≡ false
  unfolding Sub is_power_control_command segments_have_executable
  is_power_control_command_sub h = ground (
    arith,
    sub (segment_has_executable (codes "reboot")),
    sub (segment_has_executable (codes "poweroff")),
  )

  pub changes_hdc_daemon_state_sub :
      changes_hdc_daemon_state ys ≡ false → changes_hdc_daemon_state xs ≡ false
  unfolding Sub changes_hdc_daemon_state
  changes_hdc_daemon_state_sub h = sub _ h

  pub kills_hdc_daemon_sub : kills_hdc_daemon ys ≡ false → kills_hdc_daemon xs ≡ false
  unfolding Sub kills_hdc_daemon
  kills_hdc_daemon_sub h = ground (arith, sub segment_kills, sub contains_hdc_daemon_token)

  pub remounts_filesystem_sub : remounts_filesystem ys ≡ false → remounts_filesystem xs ≡ false
  unfolding Sub remounts_filesystem
  remounts_filesystem_sub h = sub _ h

  pub removes_critical_path_sub :
      removes_critical_path ys ≡ false → removes_critical_path xs ≡ false
  unfolding Sub removes_critical_path
  removes_critical_path_sub h = sub _ h

  pub writes_device_node_sub : writes_device_node ys ≡ false → writes_device_node xs ≡ false
  unfolding Sub writes_device_node
  writes_device_node_sub h = sub _ h

  executable_sub :
      (name : Bytes)
      → segments_have_executable name ys ≡ false
      → segments_have_executable name xs ≡ false
  unfolding Sub segments_have_executable
  executable_sub name h = sub _ h

  -- None of the names is empty, so that "" is said of no hit only.
  pub match_any_executable_sub :
      (names : List Bytes)
      → member [] names ≡ false
      → match_any_executable ys names ≡ []
      → match_any_executable xs names ≡ []
  unfolding match_any_executable member
  match_any_executable_sub [] n h = refl
  match_any_executable_sub ([] ∷ names) n h = absurd (true-ne-false n)
  match_any_executable_sub ((c ∷ name) ∷ names) n h =
      elim (Bool-cases (segments_have_executable (c ∷ name) ys)) [
        | inl t ↦ absurd (cons-ne-nil (rw t at h))
        | inr t ↦ rw (executable_sub (c ∷ name) t) (match_any_executable_sub names n (rw t at h))
      ]

is_denied : List Bytes → ShellSegment → Bool
is_denied extras s = any (λ name. member name extras) s.commands

first_denied-member :
    (extras names : List Bytes) (name : Bytes)
    → first_denied extras names ≡ some name
    → member name extras ≡ true
unfolding first_denied
first_denied-member extras [] name e = cc
first_denied-member extras (x ∷ names) name e = elim (Bool-cases (member x extras)) [
  | inl t ↦ cc (rw t at e, t)
  | inr t ↦ first_denied-member extras names name (rw t at e)
]

first_denied_iff :
    (extras names : List Bytes)
    → (first_denied extras names ≡ none) ↔ (any (λ name. member name extras) names ≡ false)
unfolding first_denied any
first_denied_iff extras [] = ground arith
first_denied_iff extras (x ∷ names) = ground (arith, first_denied_iff extras names)

match_extra_clear :
    (extras : List Bytes) (segments : List ShellSegment)
    → any (is_denied extras) segments ≡ false
    → match_extra_executable extras segments ≡ []
unfolding match_extra_executable any is_denied
match_extra_clear extras [] h = refl
match_extra_clear extras (s ∷ segments) h =
    let clear : first_denied extras s.commands ≡ none =
      (first_denied_iff extras s.commands).1 (ground arith) in
    rw (match_extra_executable, clear) (match_extra_clear extras segments (ground arith))

match_extra_hit :
    (extras : List Bytes) (segments : List ShellSegment)
    → member [] extras ≡ false
    → match_extra_executable extras segments ≡ []
    → any (is_denied extras) segments ≡ false
unfolding match_extra_executable any is_denied
match_extra_hit extras [] n h = refl
match_extra_hit extras (s ∷ segments) n h = elim (Option-cases (first_denied extras s.commands)) [
  | inl t ↦ ground (
    arith,
    (first_denied_iff extras s.commands).0 t,
    match_extra_hit extras segments n (rw (match_extra_executable, t) at h),
  )
  | inr (name, t) ↦ absurd (true-ne-false (hit name t (rw (match_extra_executable, t) at h)))
]
  where
    hit : (name : Bytes) → first_denied extras s.commands ≡ some name → name ≡ [] → true ≡ false
    hit name t e = cc (first_denied-member extras s.commands name t, n)

pub match_extra-Sub :
    (xs ys : List ShellSegment)
    → Sub xs ys
    → (extras : List Bytes) → member [] extras ≡ false
    → match_extra_executable extras ys ≡ []
    → match_extra_executable extras xs ≡ []
unfolding Sub
match_extra-Sub xs ys sub extras n h =
    match_extra_clear extras xs (sub (is_denied extras) (match_extra_hit extras ys n h))
