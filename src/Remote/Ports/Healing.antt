-- ===== src/Remote/Ports/Healing.antt =====
-- `allocate` of internal/remote/ports.go as a whole: two passes over the ports, with the blocked
-- ones put back in between.
use hdc_remote_kit.Remote.Ports.Counts.{
  count→contains, count_zero→contains, count-append, unit_self, unit, is_empty→count, count-sort,
  contains_false→count, count,
}
use hdc_remote_kit.Base.{
  ◌++◌, sym, ap, ◌∙◌, ok-ne-err, inr, inl, Result-cases, true, refl, [], ◌<◌, ◌+◌, ok, false, err,
  arith, Result, ◌≡◌, Bool, ℕ,
}
use hdc_remote_kit.Remote.Ports.Allocate.{loop_range, gain, loop_reserved, loop_finds, loop_drained}
use hdc_remote_kit.Remote.Ports.{
  PortPool, PortError, allocate_once, recycle_blocked, retry, second_pass, allocate, contains,
}
use hdc_remote_kit.Remote.Ports.Invariant.{
  IsPartition, in_range, recycle_blocked-IsPartition, allocate_once-IsPartition,
  allocate-IsPartition,
}

recycle_reserved : (p : PortPool) → (recycle_blocked p).reserved ≡ p.reserved
unfolding recycle_blocked
recycle_reserved p = ground arith

recycle_available :
    (p : PortPool) (x : ℕ)
    → count x (recycle_blocked p).available ≡ count x p.available + count x p.blocked
unfolding recycle_blocked
recycle_available p x = ground (
  arith,
  count-sort x (p.available ++ p.blocked),
  count-append x p.available p.blocked,
  is_empty→count x p.blocked,
)

recycle_range : (p : PortPool) (y : ℕ) → in_range y (recycle_blocked p) ≡ in_range y p
unfolding recycle_blocked
recycle_range p y = ground arith

module _ (listens : ℕ → ℕ → Bool) where
  once_reserved :
      (n : ℕ) (p : PortPool) (y : ℕ)
      → IsPartition p
      → count y (allocate_once listens n p).1.reserved
        ≡ count y p.reserved + gain (allocate_once listens n p).0 y
  unfolding allocate_once
  once_reserved n p y v = loop_reserved listens p.available n p y refl v

  retry_reserved :
      (n : ℕ) (p : PortPool) (y : ℕ)
      → IsPartition p
      → count y (retry listens n p).1.reserved ≡ count y p.reserved + gain (retry listens n p).0 y
  unfolding retry
  retry_reserved n p y v = ground (
    arith,
    once_reserved n (recycle_blocked p) y (recycle_blocked-IsPartition p v),
    recycle_reserved p,
  )

  second_reserved :
      (r : Result PortError ℕ) (q : PortPool) (m : ℕ) (y k : ℕ)
      → IsPartition q
      → count y q.reserved ≡ k + gain r y
      → count y (second_pass listens r q m).1.reserved ≡ k + gain (second_pass listens r q m).0 y
  unfolding second_pass
  second_reserved (ok port) q m y k v e = e
  second_reserved (err x) q m y k v e = omega (arith, retry_reserved m q y v)

  once_range :
      (n : ℕ) (p : PortPool) (y : ℕ) → in_range y (allocate_once listens n p).1 ≡ in_range y p
  unfolding allocate_once
  once_range n p y = loop_range listens p.available n p y

  second_range :
      (r : Result PortError ℕ) (q : PortPool) (m y : ℕ)
      → in_range y (second_pass listens r q m).1 ≡ in_range y q
  unfolding second_pass retry
  second_range (ok port) q m y = refl
  second_range (err x) q m y = ground (arith, once_range m (recycle_blocked q) y, recycle_range q y)

  allocate_range :
      (n : ℕ) (p : PortPool) (y : ℕ) → in_range y (allocate listens n p).1 ≡ in_range y p
  unfolding allocate
  allocate_range n p y =
      let (r, q, m) = allocate_once listens n p in second_range r q m y ∙ once_range n p y

  second_ok :
      (r : Result PortError ℕ) (q : PortPool) (m port : ℕ)
      → r ≡ ok port
      → (second_pass listens r q m).0 ≡ ok port
  unfolding second_pass
  second_ok (ok x) q m port e = e
  second_ok (err x) q m port e = absurd (ok-ne-err (sym e))

  second_err :
      (r : Result PortError ℕ) (q : PortPool) (m : ℕ) (x : PortError)
      → r ≡ err x
      → second_pass listens r q m ≡ retry listens m q
  unfolding second_pass
  second_err (ok y) q m x e = absurd (ok-ne-err e)
  second_err (err y) q m x e = refl

  -- In a pool whose three sets partition the range, allocate adds the port that it returns to the
  -- reserved ports and changes no other; if it fails the reserved ports stay as they are.
  pub allocate_reserved :
      (n : ℕ) (p : PortPool) (y : ℕ)
      → IsPartition p
      → count y (allocate listens n p).1.reserved
        ≡ count y p.reserved + gain (allocate listens n p).0 y
  unfolding allocate
  allocate_reserved n p y v =
      let (r, q, m) = allocate_once listens n p in
      second_reserved r q m y (count y p.reserved) (allocate_once-IsPartition listens n p v)
        (once_reserved n p y v)

  -- In a pool whose three sets partition the range, a port that allocate returns was not reserved
  -- before, is reserved afterwards and lies in the range.
  pub allocate_fresh :
      (n : ℕ) (p : PortPool) (port : ℕ)
      → IsPartition p
      → (allocate listens n p).0 ≡ ok port
      → (contains port p.reserved ≡ false)
        × (contains port (allocate listens n p).1.reserved ≡ true)
        × (in_range port p ≡ 1)
  allocate_fresh n p port v e =
      let q = (allocate listens n p).1 in
      let grown : count port q.reserved ≡ count port p.reserved + unit port port =
        rw e at (allocate_reserved n p port v) in
      let whole = (allocate-IsPartition listens n p v).once port in
      let same = allocate_range n p port in
      let one = unit_self port in
      (
        count_zero→contains port p.reserved (ground arith),
        count→contains port q.reserved (omega arith),
        ground arith,
      )

  once_drained :
      (n : ℕ) (p : PortPool) (x : PortError)
      → (allocate_once listens n p).0 ≡ err x
      → (allocate_once listens n p).1.available ≡ []
  unfolding allocate_once
  once_drained n p x e = loop_drained listens p.available n p x refl e

  once_finds :
      (n : ℕ) (p : PortPool) (y : ℕ)
      → 0 < count y p.available
      → ((m : ℕ) → listens m y ≡ true)
      → (port : ℕ) × ((allocate_once listens n p).0 ≡ ok port)
  unfolding allocate_once
  once_finds n p y h free = loop_finds listens p.available n p y h (λ m l. free m)

  retry_finds :
      (n : ℕ) (p : PortPool) (y : ℕ)
      → 0 < count y p.available + count y p.blocked
      → ((m : ℕ) → listens m y ≡ true)
      → (port : ℕ) × ((retry listens n p).0 ≡ ok port)
  unfolding retry
  retry_finds n p y h free =
      let (port, found) =
        once_finds n (recycle_blocked p) y (omega (arith, recycle_available p y)) free in
      (port, ground (arith, is_empty→count y p.available, is_empty→count y p.blocked))

  -- In a pool whose three sets partition the range, allocate returns a port whenever some port of
  -- the range is not reserved and listens at every probe, also when an earlier probe had put it
  -- among the blocked ports.
  pub allocate_heals :
      (n : ℕ) (p : PortPool) (y : ℕ)
      → IsPartition p
      → in_range y p ≡ 1
      → contains y p.reserved ≡ false
      → ((m : ℕ) → listens m y ≡ true)
      → (port : ℕ) × ((allocate listens n p).0 ≡ ok port)
  unfolding allocate
  allocate_heals n p y v h k free = elim (Result-cases (allocate_once listens n p).0) [
    | inl (port, e) ↦ (port, second_ok _ _ _ port e)
    | inr (x, e) ↦
        let (r, q, m) = allocate_once listens n p in
        let free_before = contains_false→count y p.reserved k in
        let free_after : count y q.reserved ≡ count y p.reserved + 0 =
          rw e at (once_reserved n p y v) in
        let somewhere = (allocate_once-IsPartition listens n p v).once y in
        let same = once_range n p y in
        let (port, found) = retry_finds m q y (omega arith) free in
        (port, ap (λ (t : Result PortError ℕ × PortPool × ℕ). t.0) (second_err r q m x e) ∙ found)
  ]
