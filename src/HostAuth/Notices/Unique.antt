-- ===== src/HostAuth/Notices/Unique.antt =====
-- The notices of a registry, internal/hostauth/registry.go.
use hdc_remote_kit.Base.{
  Option-cases, inr, refl, inl, ◌||◌, zero, none, ltb, bytes_eq, arith, ◌≤◌, suc, some, if-holds,
  false, Bool-cases, ◌≡◌, take, length, Bytes,
}
use hdc_remote_kit.HostAuth.Notices.{
  ◌∷◌, [], Option, Bool, ℕ, take_notice, live_notices, Notice, List, same_notice,
}

-- Whether one of the notices has the fields of the notice.
unfoldable pub clashes : Notice → List Notice → Bool
clashes n [] = false
clashes n (m ∷ notices) = same_notice m n || clashes n notices

-- No two notices have the same kind, source and device.
unfoldable pub Unique : List Notice → Type 0
Unique [] = Unit
Unique (n ∷ notices) = (clashes n notices ≡ false) × Unique notices

-- The first list is the second without some of its notices.
pub data Part : List Notice → List Notice → Type 0 where
  part_nil : {notices : List Notice} → Part [] notices
  part_drop :
      {n : Notice} {some_of notices : List Notice}
      → Part some_of notices
      → Part some_of (n ∷ notices)
  part_keep :
      {n : Notice} {some_of notices : List Notice}
      → Part some_of notices
      → Part (n ∷ some_of) (n ∷ notices)

pub Part-clashes :
    (n : Notice) {some_of notices : List Notice}
    → Part some_of notices
    → clashes n notices ≡ false
    → clashes n some_of ≡ false
unfolding clashes
Part-clashes n part_nil h = refl
Part-clashes n (part_drop p) h = Part-clashes n p (ground arith)
Part-clashes n (part_keep p) h = ground (arith, Part-clashes n p)

pub Part-Unique :
    {some_of notices : List Notice} → Part some_of notices → Unique notices → Unique some_of
unfolding Unique
Part-Unique part_nil u = tt
Part-Unique (part_drop p) (c, u) = Part-Unique p u
Part-Unique (part_keep p) (c, u) = (Part-clashes _ p c, Part-Unique p u)

pub Part-length :
    {some_of notices : List Notice} → Part some_of notices → length some_of ≤ length notices
Part-length part_nil = omega arith
Part-length (part_drop p) = omega (arith, Part-length p)
Part-length (part_keep p) = omega (arith, Part-length p)

pub Part-all : (notices : List Notice) → Part notices notices
Part-all [] = part_nil
Part-all (n ∷ notices) = part_keep (Part-all notices)

pub live_notices-Part : (now : ℕ) (notices : List Notice) → Part (live_notices now notices) notices
unfolding live_notices
live_notices-Part now [] = part_nil
live_notices-Part now (n ∷ notices) =
    if-holds (λ kept. Part kept (n ∷ notices)) (ltb now n.expires_at) (n ∷ live_notices now notices)
      (live_notices now notices) (λ e. part_keep (live_notices-Part now notices))
      (λ e. part_drop (live_notices-Part now notices))

pub take-Part : (k : ℕ) (notices : List Notice) → Part (take k notices) notices
take-Part zero notices = part_nil
take-Part (suc k) [] = part_nil
take-Part (suc k) (n ∷ notices) = part_keep (take-Part k notices)

pub length-take_most : (k : ℕ) (notices : List Notice) → length (take k notices) ≤ k
length-take_most zero notices = omega arith
length-take_most (suc k) [] = omega arith
length-take_most (suc k) (n ∷ notices) = omega (arith, length-take_most k notices)

-- What is left when a notice is taken out.
unfoldable pub rest_of : List Notice → Option (Notice × List Notice) → List Notice
rest_of notices none = notices
rest_of notices (some found) = found.1

pub take_notice-Part :
    (id : Bytes) (notices : List Notice) → Part (rest_of notices (take_notice id notices)) notices
unfolding take_notice rest_of
take_notice-Part id [] = part_nil
take_notice-Part id (n ∷ notices) = elim (Bool-cases (bytes_eq n.notice_id id)) [
  | inl e ↦ rw (take_notice, e) (part_drop (Part-all notices))
  | inr e ↦
      let rest = take_notice-Part id notices in
      elim (Option-cases (take_notice id notices)) [
        | inl f ↦ rw (take_notice, e, f) (Part-all (n ∷ notices))
        | inr (found, f) ↦ rw (take_notice, e, f) (part_keep (rw f at rest))
      ]
]
