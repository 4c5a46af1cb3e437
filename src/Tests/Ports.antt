-- ===== src/Tests/Ports.antt =====
-- A pool of three ports, the second of which never listens.
use hdc_remote_kit.Remote.Ports.Restore.{reserve_iff, release-reserve}
use hdc_remote_kit.Remote.Ports.Healing.{allocate_fresh, allocate_reserved, allocate_heals}
use hdc_remote_kit.Remote.Ports.Invariant.{
  releases, in_range, run-new_port_pool, reserves, allocates, run, Call, IsPartition,
}
use hdc_remote_kit.Remote.Ports.Allocate.{gain}
use hdc_remote_kit.Remote.Ports.{
  second_pass, new_port_pool, allocate_once_loop, add, remove, release, allocate_once, reserve,
  contains, allocate, PortPool,
}
use hdc_remote_kit.Base.{
  ◌↔◌, ◌==◌, ◌<◌, true, refl, ◌+◌, ok, not, false, [], ◌≡◌, ◌∷◌, arith, Bool, ℕ, List,
}
use hdc_remote_kit.Remote.Ports.Counts.{count}

abbrev listens : ℕ → ℕ → Bool
listens n port = not (port == 9001)

abbrev calls : List Call
calls = allocates ∷ allocates ∷ reserves 9001 ∷ releases 9000 ∷ allocates ∷ []

run-new_port_pool_example : IsPartition (run listens 0 (new_port_pool 9000 9002) calls)
run-new_port_pool_example = run-new_port_pool listens 9000 9002 calls

-- Two of three ports are taken, one probe has failed.
abbrev used : PortPool
used = record {
  min_port = 9000;
  max_port = 9002;
  available = 9002 ∷ [];
  reserved = 9000 ∷ [];
  blocked = 9001 ∷ [];
}

used-IsPartition : IsPartition used
used-IsPartition = record { once = λ x. ground arith }

allocate_reserved_example :
    count 9002 (allocate listens 5 used).1.reserved
    ≡ count 9002 used.reserved + gain (allocate listens 5 used).0 9002
allocate_reserved_example = allocate_reserved listens 5 used 9002 used-IsPartition

used-allocate : (allocate listens 5 used).0 ≡ ok 9002
unfolding allocate allocate_once allocate_once_loop second_pass
used-allocate = refl

allocate_fresh_example :
    (contains 9002 used.reserved ≡ false)
    × (contains 9002 (allocate listens 5 used).1.reserved ≡ true)
    × (in_range 9002 used ≡ 1)
allocate_fresh_example = allocate_fresh listens 5 used 9002 used-IsPartition used-allocate

used_free : contains 9002 used.reserved ≡ false
unfolding contains
used_free = refl

allocate_heals_example : (port : ℕ) × ((allocate listens 5 used).0 ≡ ok port)
allocate_heals_example =
    allocate_heals listens 5 used 9002 used-IsPartition refl used_free (λ m. refl)

reserve_iff_example :
    ((q : PortPool) × (reserve 9001 used ≡ ok q))
    ↔ ((in_range 9001 used ≡ 1) × (contains 9001 used.reserved ≡ false))
reserve_iff_example = reserve_iff 9001 used used-IsPartition

abbrev taken : PortPool
taken = record used { reserved = 9001 ∷ 9000 ∷ []; blocked = [] }

used-reserve : reserve 9001 used ≡ ok taken
unfolding reserve contains remove add
used-reserve = refl

release-reserve_example :
    (count 9002 (release 9001 taken).reserved ≡ count 9002 used.reserved)
    × (count 9002 (release 9001 taken).available + count 9002 (release 9001 taken).blocked
        ≡ count 9002 used.available + count 9002 used.blocked)
    × (0 < count 9001 (release 9001 taken).available)
release-reserve_example = release-reserve 9001 used taken (omega arith) used-reserve 9002
