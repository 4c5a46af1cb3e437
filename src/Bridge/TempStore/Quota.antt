-- ===== src/Bridge/TempStore/Quota.antt =====
-- The accounts of the temporary files, internal/bridge/temp_store.go.
use hdc_remote_kit.Base.{
  inr, ltb→lt, Result, ap, inl, Bool-cases, ◌∙◌, lt→ltb, ◌<◌, le→ltb, ◌≤◌, zero, length, ◌&&◌, suc,
  ok, false, err, true, ltb, ◌==◌, refl, if-holds, [], ◌+◌, Bytes, ◌≡◌, ◌∷◌, if◌then◌else◌, arith,
  Bool, ℕ, List,
}
use hdc_remote_kit.Bridge.TempStore.{
  TempError, quota_exceeded, prepared, empty_store, allocate, close_allocation, seal,
  new_allocation, rename_file, release, write_file, keep_first, created, with_quota, settle,
  put_first, write_update, take_quota, settle_update, seal_update, rename_update, prepare_download,
  close_update, at_number, on_allocation, Update, TempStore, Allocation,
}

-- What an allocation holds of the quota.
held : Allocation → ℕ
held a = if a.released then 0 else a.size

pub total_held : List Allocation → ℕ
total_held [] = 0
total_held (a ∷ allocations) = held a + total_held allocations

-- The used bytes are those that the allocations hold.
pub Balanced : TempStore → Type 0
Balanced s = s.used_bytes ≡ total_held s.allocations

-- The operations on a store, with the answers of the file system.
pub data StoreOp : Type 0 where
  allocate_op : ℕ → Bool → Bool → StoreOp
  prepare_op : ℕ → Bool → StoreOp
  settle_op : ℕ → ℕ → StoreOp
  write_op : ℕ → Bytes → StoreOp
  rename_op : ℕ → Bytes → StoreOp
  seal_op close_op : ℕ → StoreOp

pub store_step : StoreOp → TempStore → TempStore
store_step (allocate_op size made opened) s = (allocate size made opened s).0
store_step (prepare_op reserve made) s = (prepare_download reserve made s).0
store_step (settle_op number actual) s = settle number actual s
store_step (write_op number bytes) s = write_file number bytes s
store_step (rename_op number name) s = rename_file number name s
store_step (seal_op number) s = seal number s
store_step (close_op number) s = close_allocation number s

pub store_run : List StoreOp → TempStore → TempStore
store_run [] s = s
store_run (op ∷ ops) s = store_run ops (store_step op s)

-- An update that moves the used bytes by what it does to the allocation.
Exact : Update → Type 0
Exact update =
    (used rest : ℕ) (a : Allocation)
    → used ≡ rest + held a
    → (update used a).0 ≡ rest + held (update used a).1

at_number-Exact :
    (number : ℕ) (update : Update)
    → Exact update
    → (used rest : ℕ) (allocations : List Allocation) → used ≡ rest + total_held allocations
    → (at_number number update used allocations).0
      ≡ rest + total_held (at_number number update used allocations).1
unfolding at_number total_held Exact put_first keep_first
at_number-Exact number update x used rest [] h = h
at_number-Exact number update x used rest (a ∷ allocations) h =
    if-holds (λ (r : ℕ × List Allocation). r.0 ≡ rest + total_held r.1) (a.number == number) _ _
      (λ e. omega (arith, x used (rest + total_held allocations) a (omega arith)))
      (λ e.
        omega
          (arith, at_number-Exact number update x used (rest + held a) allocations (omega arith)))

on_allocation-Balanced :
    (number : ℕ) (update : Update) (s : TempStore)
    → Exact update
    → Balanced s
    → Balanced (on_allocation number update s)
unfolding on_allocation Balanced
on_allocation-Balanced number update s x h =
    omega (arith, at_number-Exact number update x s.used_bytes 0 s.allocations (omega arith))

settle_update-Exact : (actual : ℕ) → Exact (settle_update actual)
unfolding Exact settle_update held
settle_update-Exact actual = λ used rest a h. ground arith

close_update-Exact : Exact close_update
unfolding Exact close_update held
close_update-Exact = λ used rest a h. ground arith

write_update-Exact : (bytes : Bytes) → Exact (write_update bytes)
unfolding Exact write_update held
write_update-Exact bytes = λ used rest a h. ground arith

rename_update-Exact : (name : Bytes) → Exact (rename_update name)
unfolding Exact rename_update held
rename_update-Exact name = λ used rest a h. ground arith

seal_update-Exact : Exact seal_update
unfolding Exact seal_update held
seal_update-Exact = λ used rest a h. h

allocated : ℕ → TempStore → TempStore
allocated size s = record s { used_bytes = s.used_bytes + size }

created-Balanced :
    (size : ℕ) (made opened : Bool) (s : TempStore)
    → Balanced s
    → Balanced (created size made opened (allocated size s)).0
unfolding created release new_allocation Balanced total_held held allocated
created-Balanced size false opened s h = omega arith
created-Balanced size true false s h = omega arith
created-Balanced size true true s h = omega arith

prepared-Balanced :
    (size : ℕ) (made : Bool) (s : TempStore)
    → Balanced s
    → Balanced (prepared size made s (ok (allocated size s))).0
unfolding prepared release new_allocation Balanced total_held held allocated
prepared-Balanced size false s h = omega arith
prepared-Balanced size true s h = omega arith

allocate-Balanced :
    (size : ℕ) (made opened : Bool) (s : TempStore)
    → Balanced s
    → Balanced (allocate size made opened s).0
unfolding allocate take_quota with_quota allocated
allocate-Balanced size made opened s h =
    if-holds (λ r. Balanced (with_quota size made opened s r).0)
      (ltb s.max_bytes (s.used_bytes + size)) (err quota_exceeded) (ok (allocated size s)) (λ e. h)
      (λ e. created-Balanced size made opened s h)

prepare_download-Balanced :
    (reserve : ℕ) (made : Bool) (s : TempStore)
    → Balanced s
    → Balanced (prepare_download reserve made s).0
unfolding prepare_download prepared take_quota allocated
prepare_download-Balanced zero made s h = h
prepare_download-Balanced (suc reserve) made s h =
    if-holds (λ r. Balanced (prepared (suc reserve) made s r).0)
      (ltb s.max_bytes (s.used_bytes + suc reserve)) (err quota_exceeded)
      (ok (allocated (suc reserve) s)) (λ e. h) (λ e. prepared-Balanced (suc reserve) made s h)

store_step-Balanced : (op : StoreOp) (s : TempStore) → Balanced s → Balanced (store_step op s)
unfolding store_step settle write_file rename_file seal close_allocation
store_step-Balanced (allocate_op size made opened) s h = allocate-Balanced size made opened s h
store_step-Balanced (prepare_op reserve made) s h = prepare_download-Balanced reserve made s h
store_step-Balanced (settle_op number actual) s h =
    on_allocation-Balanced number (settle_update actual) s (settle_update-Exact actual) h
store_step-Balanced (write_op number bytes) s h =
    on_allocation-Balanced number (write_update bytes) s (write_update-Exact bytes) h
store_step-Balanced (rename_op number name) s h =
    on_allocation-Balanced number (rename_update name) s (rename_update-Exact name) h
store_step-Balanced (seal_op number) s h =
    on_allocation-Balanced number seal_update s seal_update-Exact h
store_step-Balanced (close_op number) s h =
    on_allocation-Balanced number close_update s close_update-Exact h

store_run-Balanced : (ops : List StoreOp) (s : TempStore) → Balanced s → Balanced (store_run ops s)
unfolding store_run
store_run-Balanced [] s h = h
store_run-Balanced (op ∷ ops) s h =
    store_run-Balanced ops (store_step op s) (store_step-Balanced op s h)

run_balance :
    (max : ℕ) (ops : List StoreOp)
    → (store_run ops (empty_store max)).used_bytes
      ≡ total_held (store_run ops (empty_store max)).allocations
unfolding Balanced empty_store total_held
run_balance max ops = store_run-Balanced ops (empty_store max) refl

pub all_released : List Allocation → Bool
all_released [] = true
all_released (a ∷ allocations) = a.released && all_released allocations

none_held :
    (allocations : List Allocation) → all_released allocations ≡ true → total_held allocations ≡ 0
unfolding all_released total_held held
none_held [] h = refl
none_held (a ∷ allocations) h = ground (arith, none_held allocations)

allocate_fits :
    (size : ℕ) (s : TempStore)
    → s.used_bytes + size ≤ s.max_bytes
    → (allocate size true true s).1 ≡ ok (length s.allocations)
unfolding allocate take_quota with_quota created
allocate_fits size s h = rw (le→ltb s.max_bytes (s.used_bytes + size) h) refl

allocate_exceeds :
    (size : ℕ) (s : TempStore)
    → s.max_bytes < s.used_bytes + size
    → allocate size true true s ≡ (s, err quota_exceeded)
unfolding allocate take_quota with_quota
allocate_exceeds size s h = rw (lt→ltb s.max_bytes (s.used_bytes + size) h) refl

-- After any operations on a new store, the counter of used bytes is the sum of what the
-- allocations that are not closed hold, and an allocation for which the file system does its part
-- fails with the quota error exactly if its size exceeds what the sum leaves of the limit.
pub quota_exact :
    (max size : ℕ) (ops : List StoreOp)
    → let s = store_run ops (empty_store max) in
      (s.used_bytes ≡ total_held s.allocations)
      × ((allocate size true true s).1 ≡ (
          if ltb s.max_bytes (total_held s.allocations + size)
          then err quota_exceeded
          else ok (length s.allocations)))
quota_exact max size ops =
    let s = store_run ops (empty_store max) in
    let e = run_balance max ops in
    (
      e,
      elim (Bool-cases (ltb s.max_bytes (total_held s.allocations + size))) [
        | inl l ↦ rw l (
            ap (λ (x : TempStore × Result TempError ℕ). x.1)
              (allocate_exceeds size s
                (omega (arith, ltb→lt s.max_bytes (total_held s.allocations + size) l))))
        | inr l ↦ rw l (allocate_fits size s (ground (arith, e)))
      ],
    )

pub quota_returned :
    (max : ℕ) (ops : List StoreOp)
    → all_released (store_run ops (empty_store max)).allocations ≡ true
    → (store_run ops (empty_store max)).used_bytes ≡ 0
quota_returned max ops h =
    run_balance max ops ∙ none_held (store_run ops (empty_store max)).allocations h
