-- ===== src/Remote/Ports/Allocate.antt =====
-- The loop of `allocateOnce` of internal/remote/ports.go.
use hdc_remote_kit.Base.{
  refl, inr, inl, sym, Bool-cases, ok-ne-err, arith, [], ◌≤◌, ◌∷◌, ◌<◌, ◌+◌, true, ok, err, ◌≡◌,
  Result, List, Bool, ℕ,
}
use hdc_remote_kit.Remote.Ports.Invariant.{
  in_range, IsPartition, block-take-IsPartition, available-block,
}
use hdc_remote_kit.Remote.Ports.Counts.{
  count-add, count_zero→contains, unit_self, count→contains, count-remove, unit, count,
}
use hdc_remote_kit.Remote.Ports.{
  PortPool, PortError, allocate_once_loop, take_port, block_port, contains,
}

-- The port that a result reserves, as a count.
abbrev pub gain : Result PortError ℕ → ℕ → ℕ
gain (ok port) y = unit port y
gain (err e) y = 0

take_reserved :
    (port : ℕ) (rest : List ℕ) (p : PortPool) (y : ℕ)
    → p.available ≡ port ∷ rest
    → IsPartition p
    → count y (take_port port rest p).reserved ≡ count y p.reserved + unit port y
unfolding take_port
take_reserved port rest p y e v = ground (
  arith,
  v.once port,
  unit_self port,
  count_zero→contains port p.reserved,
  count-add y port p.reserved,
)

block_reserved :
    (port : ℕ) (p : PortPool) (y : ℕ)
    → contains port p.reserved ≡ true
    → count y (block_port port p).reserved + unit port y ≡ count y p.reserved
unfolding block_port
block_reserved port p y h = ground (arith, count-remove y port p.reserved)

block-take_reserved :
    (port : ℕ) (rest : List ℕ) (p : PortPool) (y : ℕ)
    → p.available ≡ port ∷ rest
    → IsPartition p
    → count y (block_port port (take_port port rest p)).reserved ≡ count y p.reserved
block-take_reserved port rest p y e v = omega (
  arith,
  take_reserved port rest p y e v,
  block_reserved port (take_port port rest p) y (
      count→contains port (take_port port rest p).reserved
        (omega (arith, take_reserved port rest p port e v, unit_self port))),
)

module _ (listens : ℕ → ℕ → Bool) where
  pub loop_reserved :
      (todo : List ℕ) (n : ℕ) (p : PortPool) (y : ℕ)
      → p.available ≡ todo
      → IsPartition p
      → count y (allocate_once_loop listens todo n p).1.reserved
        ≡ count y p.reserved + gain (allocate_once_loop listens todo n p).0 y
  unfolding allocate_once_loop
  loop_reserved [] n p y e v = omega arith
  loop_reserved (x ∷ rest) n p y e v = elim (Bool-cases (listens n x)) [
    | inl h ↦ rw h (take_reserved x rest p y e v)
    | inr h ↦ rw h (
        let q = block_port x (take_port x rest p) in
        omega (
          arith,
          loop_reserved rest (n + 1) q y (available-block x rest p)
              (block-take-IsPartition x rest p e v),
          block-take_reserved x rest p y e v,
        ))
  ]

  pub loop_probe :
      (todo : List ℕ) (n : ℕ) (p : PortPool) (port : ℕ)
      → (allocate_once_loop listens todo n p).0 ≡ ok port
      → (m : ℕ) × (n ≤ m) × (listens m port ≡ true)
  unfolding allocate_once_loop
  loop_probe [] n p port e = absurd (ok-ne-err (sym e))
  loop_probe (x ∷ rest) n p port e = elim (Bool-cases (listens n x)) [
    | inl h ↦ (n, omega arith, ground arith)
    | inr h ↦
        let (m, later, heard) =
          loop_probe rest (n + 1) (block_port x (take_port x rest p)) port (rw h at e) in
        (m, omega arith, heard)
  ]

  pub loop_finds :
      (todo : List ℕ) (n : ℕ) (p : PortPool) (y : ℕ)
      → 0 < count y todo
      → ((m : ℕ) → n ≤ m → listens m y ≡ true)
      → (port : ℕ) × ((allocate_once_loop listens todo n p).0 ≡ ok port)
  unfolding allocate_once_loop
  loop_finds [] n p y h free = absurd (omega arith)
  loop_finds (x ∷ rest) n p y h free = elim (Bool-cases (listens n x)) [
    | inl t ↦ (x, rw t)
    | inr t ↦
        let (port, found) =
          loop_finds rest (n + 1) (block_port x (take_port x rest p)) y (ground (arith, free n))
            (λ m l. free m (omega arith)) in
        (port, rw t found)
  ]

  pub loop_drained :
      (todo : List ℕ) (n : ℕ) (p : PortPool) (x : PortError)
      → p.available ≡ todo
      → (allocate_once_loop listens todo n p).0 ≡ err x
      → (allocate_once_loop listens todo n p).1.available ≡ []
  unfolding allocate_once_loop
  loop_drained [] n p x e h = e
  loop_drained (y ∷ rest) n p x e h = elim (Bool-cases (listens n y)) [
    | inl t ↦ absurd (ok-ne-err (rw t at h))
    | inr t ↦ rw t (
        loop_drained rest (n + 1) (block_port y (take_port y rest p)) x (available-block y rest p)
          (rw t at h))
  ]

  pub loop_later :
      (todo : List ℕ) (n : ℕ) (p : PortPool) → n ≤ (allocate_once_loop listens todo n p).2
  unfolding allocate_once_loop
  loop_later [] n p = omega arith
  loop_later (x ∷ rest) n p =
      ground (arith, loop_later rest (n + 1) (block_port x (take_port x rest p)))

  pub loop_range :
      (todo : List ℕ) (n : ℕ) (p : PortPool) (y : ℕ)
      → in_range y (allocate_once_loop listens todo n p).1 ≡ in_range y p
  unfolding allocate_once_loop take_port block_port
  loop_range [] n p y = refl
  loop_range (x ∷ rest) n p y =
      ground (arith, loop_range rest (n + 1) (block_port x (take_port x rest p)) y)
