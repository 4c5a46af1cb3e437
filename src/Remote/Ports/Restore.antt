-- ===== src/Remote/Ports/Restore.antt =====
-- `reserve` and `release` of internal/remote/ports.go.
use hdc_remote_kit.Remote.Ports.Counts.{
  count-append, contains_false→count, count-sort, count-remove, count→contains, count-add,
  unit_self, unit, count,
}
use hdc_remote_kit.Base.{
  [], ◌∷◌, inr, ◌++◌, inl, Bool-cases, false, arith, ◌↔◌, ◌+◌, ok, ◌≡◌, ◌<◌, ℕ,
}
use hdc_remote_kit.Remote.Ports.{add, remove, PortPool, reserve, release, contains}
use hdc_remote_kit.Remote.Ports.Invariant.{IsPartition, in_range}

-- In a pool whose three sets partition the range, reserve succeeds exactly on the ports of the
-- range that are not reserved, blocked ones included.
pub reserve_iff :
    (port : ℕ) (p : PortPool)
    → IsPartition p
    → ((q : PortPool) × (reserve port p ≡ ok q))
      ↔ ((in_range port p ≡ 1) × (contains port p.reserved ≡ false))
unfolding reserve
reserve_iff port p v = (
  (λ (q, e). ground arith),
  λ (h, k). elim (Bool-cases (contains port p.available)) [
    | inl a ↦ (
      record p { available = remove port p.available; reserved = add port p.reserved },
      ground arith,
    )
    | inr a ↦ (
      record p { blocked = remove port p.blocked; reserved = add port p.reserved },
      ground (
        arith,
        v.once port,
        contains_false→count port p.available,
        contains_false→count port p.reserved,
        count→contains port p.blocked,
      ),
    )
  ],
)

-- What a successful `reserve` does to the three sets.
reserve_counts :
    (port : ℕ) (p q : PortPool) (x : ℕ)
    → reserve port p ≡ ok q
    → (count x q.reserved ≡ count x p.reserved + unit port x)
      × (count x q.available + count x q.blocked + unit port x
          ≡ count x p.available + count x p.blocked)
unfolding reserve
reserve_counts port p q x e = ground (
  arith,
  count-add x port p.reserved,
  count-remove x port p.available,
  count-remove x port p.blocked,
)

-- What `release` of a reserved port does to them.
release_counts :
    (port : ℕ) (q : PortPool) (x : ℕ)
    → 0 < port
    → 0 < count port q.reserved
    → (count x (release port q).reserved + unit port x ≡ count x q.reserved)
      × (count x (release port q).available ≡ count x q.available + unit port x)
      × (count x (release port q).blocked ≡ count x q.blocked)
unfolding release
release_counts port q x h r = ground (
  arith,
  count→contains port q.reserved,
  count-remove x port q.reserved,
  count-sort x (q.available ++ port ∷ []),
  count-append x q.available (port ∷ []),
)

-- Releasing a positive port right after it was reserved makes it available, and no port changes
-- between reserved and not reserved.
pub release-reserve :
    (port : ℕ) (p q : PortPool)
    → 0 < port
    → reserve port p ≡ ok q
    → (x : ℕ)
    → (count x (release port q).reserved ≡ count x p.reserved)
      × (count x (release port q).available + count x (release port q).blocked
          ≡ count x p.available + count x p.blocked)
      × (0 < count port (release port q).available)
release-reserve port p q h e x =
    let here = unit_self port in
    let gained = reserve_counts port p q port e in
    let back = release_counts port q port h (omega arith) in
    let gained' = reserve_counts port p q x e in
    let back' = release_counts port q x h (omega arith) in (omega arith, omega arith, omega arith)
