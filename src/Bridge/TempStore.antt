-- ===== src/Bridge/TempStore.antt =====
-- The quota of temporary files, internal/bridge/temp_store.go. What the file system answers is an
-- argument. A size is not negative here: the callers' sizes are not.
pub mod Quota
use hdc_remote_kit.Base.{
  bytes_eq, ◌||◌, zero, some, ◌==◌, suc, ok, none, codes, ◌∷◌, ◌+◌, true, not, ltb, length, err,
  Option, ◌-◌, ◌++◌, [], Result, List, Bool, ℕ, if◌then◌else◌, false, Bytes,
}
use hdc_remote_kit.Strings.{is_nil}

pub data TempError : Type 0 where
  negative_reservation quota_exceeded directory_failed file_failed : TempError
  file_closed write_failed file_open invalid_name rename_failed : TempError

-- `tempAllocation`: `open_file` is whether there is a file, `content` is what it holds.
pub record Allocation : Type 0 where
  pub number : ℕ
  pub size : ℕ
  pub released : Bool
  pub open_file : Bool
  pub content : Bytes
  pub name : Bytes

pub record TempStore : Type 0 where
  pub max_bytes : ℕ
  pub used_bytes : ℕ
  pub allocations : List Allocation

pub empty_store : ℕ → TempStore
empty_store max_bytes = record { max_bytes = max_bytes; used_bytes = 0; allocations = [] }

pub data StoreError : Type 0 where
  limit_not_positive root_unresolved root_of_file_system root_not_created : StoreError

with_root : ℕ → (Bytes → Bytes) → Bool → Option Bytes → Result StoreError TempStore
with_root max_bytes dir created none = err root_unresolved
with_root max_bytes dir created (some absolute_root) =
    if bytes_eq (dir absolute_root) absolute_root
    then err root_of_file_system
    else if not created
    then err root_not_created
    else ok (empty_store max_bytes)

-- `NewTempStore`; a negative limit counts as 0. `dir` is filepath.Dir, and the last two arguments
-- say whether os.MkdirAll succeeds and what filepath.Abs answers for the root.
pub new_temp_store : ℕ → (Bytes → Bytes) → Bool → Option Bytes → Result StoreError TempStore
new_temp_store max_bytes dir created absolute_root =
    if not (ltb 0 max_bytes)
    then err limit_not_positive
    else with_root max_bytes dir created absolute_root

-- `release`: below zero it is zero.
pub release : ℕ → TempStore → TempStore
release size s = record s { used_bytes = s.used_bytes - size }

-- The guard that both kinds of allocation share; `s.maxBytes - s.usedBytes` may be negative.
pub take_quota : ℕ → TempStore → Result TempError TempStore
take_quota size s =
    if ltb s.max_bytes (s.used_bytes + size)
    then err quota_exceeded
    else ok (record s { used_bytes = s.used_bytes + size })

new_allocation : ℕ → Bool → TempStore → TempStore
new_allocation size open_file s = record s {
  allocations =
      record {
        number = length s.allocations;
        size = size;
        released = false;
        open_file = open_file;
        content = [];
        name = codes "payload";
      }
      ∷ s.allocations;
}

created : ℕ → Bool → Bool → TempStore → TempStore × Result TempError ℕ
created size false opened s = (release size s, err directory_failed)
created size true false s = (release size s, err file_failed)
created size true true s = (new_allocation size true s, ok (length s.allocations))

with_quota :
    ℕ → Bool → Bool → TempStore → Result TempError TempStore → TempStore × Result TempError ℕ
with_quota size made opened s (err e) = (s, err e)
with_quota size made opened s (ok s') = created size made opened s'

-- `allocate`: the store afterwards, and the number of the allocation.
pub allocate : ℕ → Bool → Bool → TempStore → TempStore × Result TempError ℕ
allocate size made opened s = with_quota size made opened s (take_quota size s)

prepared : ℕ → Bool → TempStore → Result TempError TempStore → TempStore × Result TempError ℕ
prepared reserve made s (err e) = (s, err e)
prepared reserve false s (ok s') = (release reserve s', err directory_failed)
prepared reserve true s (ok s') = (new_allocation reserve false s', ok (length s'.allocations))

-- `prepareDownload`.
pub prepare_download : ℕ → Bool → TempStore → TempStore × Result TempError ℕ
prepare_download zero made s = (s, err negative_reservation)
prepare_download (suc reserve) made s = prepared (suc reserve) made s (take_quota (suc reserve) s)

-- What an operation does to the used bytes and to one allocation.
abbrev pub Update : Type 0
Update = ℕ → Allocation → ℕ × Allocation

keep_first : ℕ × List Allocation → Allocation → ℕ × List Allocation
keep_first (used, allocations) a = (used, a ∷ allocations)

put_first : ℕ × Allocation → List Allocation → ℕ × List Allocation
put_first (used, a) allocations = (used, a ∷ allocations)

at_number : ℕ → Update → ℕ → List Allocation → ℕ × List Allocation
at_number number update used [] = (used, [])
at_number number update used (a ∷ allocations) =
    let rest = at_number number update used allocations in
    if a.number == number then put_first (update used a) allocations else keep_first rest a

pub on_allocation : ℕ → Update → TempStore → TempStore
on_allocation number update s =
    let (used, allocations) = at_number number update s.used_bytes s.allocations in
    record s { used_bytes = used; allocations = allocations }

-- `settle`, with `reserveExtra` for a file that is larger than its reservation.
settle_update : ℕ → Update
settle_update actual used a =
    if a.released
    then (used, a)
    else (used - (a.size - actual) + (actual - a.size), record a { size = actual })

pub settle : ℕ → ℕ → TempStore → TempStore
settle number actual s = on_allocation number (settle_update actual) s

-- `close`, which closes once.
close_update : Update
close_update used a =
    if a.released
    then (used, a)
    else (used - a.size, record a { size = 0; released = true; open_file = false })

pub close_allocation : ℕ → TempStore → TempStore
close_allocation number s = on_allocation number close_update s

-- `seal`, where the file system flushes and closes the file.
seal_update : Update
seal_update used a = (used, record a { open_file = false })

pub seal : ℕ → TempStore → TempStore
seal number s = on_allocation number seal_update s

-- `write` of data that the file system takes as a whole; a closed file takes none.
write_update : Bytes → Update
write_update bytes used a =
    (used, if a.open_file then record a { content = a.content ++ bytes } else a)

pub write_file : ℕ → Bytes → TempStore → TempStore
write_file number bytes s = on_allocation number (write_update bytes) s

has_separator : Bytes → Bool
has_separator [] = false
has_separator (c ∷ text) = c == b'/' || c == b'\\' || has_separator text

-- The names that `renameToName` takes.
pub name_valid : Bytes → Bool
name_valid name =
    not
      (is_nil name || has_separator name || bytes_eq name (codes ".") || bytes_eq name (codes ".."))

-- `renameToName`, where the file system renames.
rename_update : Bytes → Update
rename_update name used a =
    (used, if a.open_file || not (name_valid name) then a else record a { name = name })

pub rename_file : ℕ → Bytes → TempStore → TempStore
rename_file number name s = on_allocation number (rename_update name) s

pub find_allocation : ℕ → List Allocation → Option Allocation
find_allocation number [] = none
find_allocation number (a ∷ allocations) =
    if a.number == number then some a else find_allocation number allocations
