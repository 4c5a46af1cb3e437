-- ===== src/Remote/Ports/Invariant.antt =====
-- The partition of the range by the three sets of internal/remote/ports.go.
use hdc_remote_kit.Base.{
  inr, inl, err, Bool-cases, refl, Result-cases, Result, Bool, [], ◌-◌, ◌++◌, ◌&&◌, ◌∷◌, true, ok,
  leb, ◌≡◌, ◌+◌, if◌then◌else◌, arith, List, ℕ,
}
use hdc_remote_kit.Remote.Ports.{
  add, contains, PortPool, PortError, new_port_pool, reserve, release, take_port, block_port,
  allocate_once_loop, allocate_once, recycle_blocked, retry, second_pass, allocate,
}
use hdc_remote_kit.Remote.Ports.Counts.{
  count_zero→contains, count-add, contains→count, count-sort, count-remove, count-port_range, count,
  count-append,
}

-- In how many places the pool has the port `x`.
abbrev pub places : ℕ → PortPool → ℕ
places x p = count x p.available + count x p.reserved + count x p.blocked

abbrev pub in_range : ℕ → PortPool → ℕ
in_range x p = if leb p.min_port x && leb x p.max_port then 1 else 0

pub record IsPartition (p : PortPool) : Type 0 where
  pub once : (x : ℕ) → places x p ≡ in_range x p

pub new_port_pool-IsPartition :
    (min_port max_port : ℕ) → IsPartition (new_port_pool min_port max_port)
unfolding new_port_pool
new_port_pool-IsPartition lo hi = record {
  once = λ x. ground (arith, count-port_range x lo (hi + 1 - lo));
}

take_port-IsPartition :
    (port : ℕ) (rest : List ℕ) (p : PortPool)
    → p.available ≡ port ∷ rest
    → IsPartition p
    → IsPartition (take_port port rest p)
unfolding take_port
take_port-IsPartition port rest p e v = record {
  once = λ x. ground (
    arith,
    v.once x,
    v.once port,
    count_zero→contains port p.reserved,
    count-add x port p.reserved,
  );
}

block_port-IsPartition :
    (port : ℕ) (p : PortPool)
    → contains port p.reserved ≡ true
    → IsPartition p
    → IsPartition (block_port port p)
unfolding block_port
block_port-IsPartition port p h v = record {
  once = λ x. ground (
    arith,
    v.once x,
    v.once port,
    contains→count port p.reserved,
    count_zero→contains port p.blocked,
    count-add x port p.blocked,
    count-remove x port p.reserved,
  );
}

pub reserve-IsPartition :
    (port : ℕ) (p q : PortPool) → IsPartition p → reserve port p ≡ ok q → IsPartition q
unfolding reserve
reserve-IsPartition port p q v e = record {
  once = λ x. ground (
    arith,
    v.once x,
    count-add x port p.reserved,
    count-remove x port p.available,
    count-remove x port p.blocked,
  );
}

pub release-IsPartition : (port : ℕ) (p : PortPool) → IsPartition p → IsPartition (release port p)
unfolding release
release-IsPartition port p v = record {
  once = λ x. ground (
    arith,
    v.once x,
    count-remove x port p.reserved,
    count-sort x (p.available ++ port ∷ []),
    count-append x p.available (port ∷ []),
  );
}

pub recycle_blocked-IsPartition : (p : PortPool) → IsPartition p → IsPartition (recycle_blocked p)
unfolding recycle_blocked
recycle_blocked-IsPartition p v = record {
  once = λ x. ground (
    arith,
    v.once x,
    count-sort x (p.available ++ p.blocked),
    count-append x p.available p.blocked,
  );
}

pub available-block :
    (port : ℕ) (rest : List ℕ) (p : PortPool)
    → (block_port port (take_port port rest p)).available ≡ rest
unfolding block_port take_port
available-block port rest p = refl

contains-add : (port : ℕ) (xs : List ℕ) → contains port (add port xs) ≡ true
unfolding add contains
contains-add port xs = ground arith

pub block-take-IsPartition :
    (port : ℕ) (rest : List ℕ) (p : PortPool)
    → p.available ≡ port ∷ rest
    → IsPartition p
    → IsPartition (block_port port (take_port port rest p))
unfolding take_port
block-take-IsPartition port rest p e v =
    block_port-IsPartition port (take_port port rest p) (contains-add port p.reserved)
      (take_port-IsPartition port rest p e v)

module _ (listens : ℕ → ℕ → Bool) where
  allocate_once_loop-IsPartition :
      (todo : List ℕ) (n : ℕ) (p : PortPool)
      → p.available ≡ todo
      → IsPartition p
      → IsPartition (allocate_once_loop listens todo n p).1
  unfolding allocate_once_loop
  allocate_once_loop-IsPartition [] n p e v = v
  allocate_once_loop-IsPartition (port ∷ rest) n p e v = elim (Bool-cases (listens n port)) [
    | inl h ↦ rw h (take_port-IsPartition port rest p e v)
    | inr h ↦ rw h (
        allocate_once_loop-IsPartition rest (n + 1) (block_port port (take_port port rest p))
          (available-block port rest p) (block-take-IsPartition port rest p e v))
  ]

  pub allocate_once-IsPartition :
      (n : ℕ) (p : PortPool) → IsPartition p → IsPartition (allocate_once listens n p).1
  unfolding allocate_once
  allocate_once-IsPartition n p v = allocate_once_loop-IsPartition p.available n p refl v

  retry-IsPartition : (n : ℕ) (p : PortPool) → IsPartition p → IsPartition (retry listens n p).1
  unfolding retry
  retry-IsPartition n p v = ground (
    arith,
    recycle_blocked-IsPartition p v,
    allocate_once-IsPartition n (recycle_blocked p) (recycle_blocked-IsPartition p v),
  )

  second_pass-IsPartition :
      (r : Result PortError ℕ) (p : PortPool) (n : ℕ)
      → IsPartition p
      → IsPartition (second_pass listens r p n).1
  unfolding second_pass
  second_pass-IsPartition (ok port) p n v = v
  second_pass-IsPartition (err e) p n v = retry-IsPartition n p v

  pub allocate-IsPartition :
      (n : ℕ) (p : PortPool) → IsPartition p → IsPartition (allocate listens n p).1
  unfolding allocate
  allocate-IsPartition n p v = second_pass-IsPartition _ _ _ (allocate_once-IsPartition n p v)

-- A call of the pool; one that fails leaves the pool as it was.
pub data Call : Type 0 where
  reserves releases : ℕ → Call
  allocates : Call

abbrev kept : PortPool → Result PortError PortPool → PortPool
kept p (ok q) = q
kept p (err e) = p

-- The pool after the calls, with the count of probes made.
unfoldable pub run : (ℕ → ℕ → Bool) → ℕ → PortPool → List Call → PortPool
run listens n p [] = p
run listens n p (reserves port ∷ calls) = run listens n (kept p (reserve port p)) calls
run listens n p (releases port ∷ calls) = run listens n (release port p) calls
run listens n p (allocates ∷ calls) = let (r, q, m) = allocate listens n p in run listens m q calls

kept-IsPartition : (port : ℕ) (p : PortPool) → IsPartition p → IsPartition (kept p (reserve port p))
kept-IsPartition port p v = elim (Result-cases (reserve port p)) [
  | inl (q, e) ↦ rw e (reserve-IsPartition port p q v e)
  | inr (x, e) ↦ rw e v
]

run-IsPartition :
    (listens : ℕ → ℕ → Bool) (n : ℕ) (p : PortPool) (calls : List Call)
    → IsPartition p
    → IsPartition (run listens n p calls)
unfolding run
run-IsPartition listens n p [] v = v
run-IsPartition listens n p (reserves port ∷ calls) v =
    run-IsPartition listens n (kept p (reserve port p)) calls (kept-IsPartition port p v)
run-IsPartition listens n p (releases port ∷ calls) v =
    run-IsPartition listens n (release port p) calls (release-IsPartition port p v)
run-IsPartition listens n p (allocates ∷ calls) v =
    let (r, q, m) = allocate listens n p in
    run-IsPartition listens m q calls (allocate-IsPartition listens n p v)

-- After any calls of reserve, release and allocate on a new pool, and whatever the probes answer,
-- each port of the range stands in exactly one of the available, reserved and blocked ports, once,
-- and no other port in any.
pub run-new_port_pool :
    (listens : ℕ → ℕ → Bool) (min_port max_port : ℕ) (calls : List Call)
    → IsPartition (run listens 0 (new_port_pool min_port max_port) calls)
run-new_port_pool listens lo hi calls =
    run-IsPartition listens 0 _ calls (new_port_pool-IsPartition lo hi)
