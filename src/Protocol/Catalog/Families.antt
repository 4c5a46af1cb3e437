-- ===== src/Protocol/Catalog/Families.antt =====
-- The commands of the flash family of internal/protocol/command_catalog.go.
use mathlib.Core.Path.{subst, sym}
use hdc_remote_kit.Base.{
  ◌-◌, ◌∙◌, ◌<◌, Option-cases, zero, suc, ==_iff, inr, inl, Bool-cases, ℕ, ◌+◌, ◌≤◌, ◌≡◌, ◌↔◌, refl,
  List, [], ◌∷◌, Bool, true, false, ◌&&◌, not, none, some, arith, ◌==◌, leb, if◌then◌else◌,
}
use hdc_remote_kit.Protocol.Catalog.{
  unknown, Family, flash, CommandDescriptor, find_command, lookup_command, command_family,
  official_commands, legacy_commands,
}

is_flash : Family → Bool
is_flash flash = true
is_flash _ = false

in_flash_range : ℕ → Bool
in_flash_range k = leb 4000 k && leb k 4009

-- A table whose flash entries are those with a code from 4000 to 4009.
agrees : ℕ → CommandDescriptor → Bool
agrees key d = if is_flash d.family then in_flash_range key else not (in_flash_range key)

table_agrees : List (ℕ × CommandDescriptor) → Bool
table_agrees [] = true
table_agrees ((key, d) ∷ rest) = agrees key d && table_agrees rest

some_back : {x d : CommandDescriptor} → some x ≡ some d → x ≡ d
some_back e = cc

same :
    (key command : ℕ) (x d : CommandDescriptor)
    → key ≡ command
    → x ≡ d
    → agrees key x ≡ true
    → agrees command d ≡ true
same key command x d p q h = cc

find_agrees :
    (command : ℕ) (table : List (ℕ × CommandDescriptor)) (d : CommandDescriptor)
    → table_agrees table ≡ true
    → find_command command table ≡ some d
    → agrees command d ≡ true
unfolding find_command table_agrees
find_agrees command [] d h e = cc
find_agrees command ((key, x) ∷ rest) d h e = elim (Bool-cases (key == command)) [
  | inl t ↦ same (key) command x d ((==_iff key command).0 t) (some_back (rw t at e)) (ground arith)
  | inr t ↦ find_agrees command rest d (ground arith) (rw t at e)
]

official_agrees : table_agrees official_commands ≡ true
unfolding table_agrees agrees is_flash in_flash_range
official_agrees = refl

legacy_agrees : table_agrees legacy_commands ≡ true
unfolding table_agrees agrees is_flash in_flash_range
legacy_agrees = refl

range_is_flash : ℕ → Bool
range_is_flash zero = true
range_is_flash (suc n) = is_flash (command_family (4000 + n)) && range_is_flash n

range_checked : range_is_flash 10 ≡ true
unfolding range_is_flash is_flash command_family
range_checked = refl

range_checked_at :
    (n j : ℕ) → range_is_flash n ≡ true → j < n → is_flash (command_family (4000 + j)) ≡ true
unfolding range_is_flash
range_checked_at zero j h l = absurd (omega arith)
range_checked_at (suc n) j h l = ground (arith, range_checked_at n j)

is_flash→eq : (f : Family) → is_flash f ≡ true → f ≡ flash
unfolding is_flash
is_flash→eq flash h = refl
is_flash→eq _ h = cc

unknown-ne-flash : unknown ≡ flash → ⊥
unknown-ne-flash h = cc

lookup_agrees :
    (command : ℕ) (d : CommandDescriptor)
    → lookup_command command ≡ some d
    → agrees command d ≡ true
unfolding lookup_command
lookup_agrees command d e = elim (Option-cases (find_command command official_commands)) [
  | inl t ↦ find_agrees command legacy_commands d legacy_agrees (rw (lookup_command, t) at e)
  | inr (x, t) ↦
      find_agrees command official_commands d official_agrees (t ∙ rw (lookup_command, t) at e)
]

not_flash : (command : ℕ) → lookup_command command ≡ none → command_family command ≡ unknown
unfolding command_family
not_flash command e = rw (command_family, e) refl

found_flash :
    (command : ℕ) (d : CommandDescriptor)
    → lookup_command command ≡ some d
    → command_family command ≡ d.family
unfolding command_family
found_flash command d e = rw (command_family, e) refl

in_range :
    (command : ℕ) (d : CommandDescriptor)
    → agrees command d ≡ true
    → d.family ≡ flash
    → (4000 ≤ command) × (command ≤ 4009)
unfolding agrees is_flash in_flash_range
in_range command d h e = ground (arith, rw e at h)

-- A command is of the flash family exactly when its code is from 4000 to 4009.
pub flash_family_iff :
    (command : ℕ) → (command_family command ≡ flash) ↔ ((4000 ≤ command) × (command ≤ 4009))
flash_family_iff command = (to, from)
  where
    to : command_family command ≡ flash → (4000 ≤ command) × (command ≤ 4009)
    to e = elim (Option-cases (lookup_command command)) [
      | inl t ↦ absurd (unknown-ne-flash (sym (not_flash command t) ∙ e))
      | inr (d, t) ↦
          in_range command d (lookup_agrees command d t) (sym (found_flash command d t) ∙ e)
    ]

    from : (4000 ≤ command) × (command ≤ 4009) → command_family command ≡ flash
    from (lo, hi) =
        let at : 4000 + (command - 4000) ≡ command = omega arith in
        subst (λ k. command_family k ≡ flash) at
          (is_flash→eq (command_family (4000 + (command - 4000)))
            (range_checked_at 10 (command - 4000) range_checked (omega arith)))
