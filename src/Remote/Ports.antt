-- ===== src/Remote/Ports.antt =====
-- The port pool of internal/remote/ports.go. `available` is the slice; the maps `reserved` and
-- `blocked` are duplicate-free lists of their keys, in the order in which Go happens to visit them.
-- A Listen probe is an oracle: `listens n port` is the answer to the n-th probe of the run.
pub mod Counts
pub mod Invariant
pub mod Allocate
pub mod Restore
pub mod Healing
use hdc_remote_kit.Base.{
  ℕ, zero, suc, ◌+◌, ◌-◌, List, [], ◌∷◌, ◌++◌, Bool, true, false, ◌||◌, not, Option, none, some,
  Result, ok, err, ltb, leb, ◌==◌, if◌then◌else◌, length,
}

pub data PortError : Type 0 where
  outside_range already_reserved not_available : ℕ → PortError
  exhausted : PortError

pub record PortPool : Type 0 where
  pub min_port : ℕ
  pub max_port : ℕ
  pub available : List ℕ
  pub reserved : List ℕ
  pub blocked : List ℕ

unfoldable pub contains : ℕ → List ℕ → Bool
contains port [] = false
contains port (x ∷ xs) = x == port || contains port xs

-- `delete(m, port)` on a map, and the removal of one index from a slice.
unfoldable pub remove : ℕ → List ℕ → List ℕ
remove port [] = []
remove port (x ∷ xs) = if x == port then xs else x ∷ remove port xs

-- `m[port] = struct{}{}`.
unfoldable pub add : ℕ → List ℕ → List ℕ
unfolding contains
add port xs = if contains port xs then xs else port ∷ xs

-- sort.Ints of the standard library.
sort_insert : ℕ → List ℕ → List ℕ
sort_insert x [] = x ∷ []
sort_insert x (y ∷ ys) = if leb x y then x ∷ y ∷ ys else y ∷ sort_insert x ys

unfoldable pub sort : List ℕ → List ℕ
unfolding sort_insert
sort [] = []
sort (x ∷ xs) = sort_insert x (sort xs)

-- `for port := minPort; port <= maxPort; port++`, with `count` rounds.
pub port_range : ℕ → ℕ → List ℕ
port_range port zero = []
port_range port (suc count) = port ∷ port_range (port + 1) count

pub new_port_pool : ℕ → ℕ → PortPool
new_port_pool min_port max_port = record {
  min_port = min_port;
  max_port = max_port;
  available = port_range min_port (max_port + 1 - min_port);
  reserved = [];
  blocked = [];
}

unfoldable pub reserve : ℕ → PortPool → Result PortError PortPool
reserve port p =
    if ltb port p.min_port || ltb p.max_port port
    then err (outside_range port)
    else if contains port p.reserved
    then err (already_reserved port)
    else if contains port p.available
    then ok (record p { available = remove port p.available; reserved = add port p.reserved })
    else if contains port p.blocked
    then ok (record p { blocked = remove port p.blocked; reserved = add port p.reserved })
    else err (not_available port)

-- One round of the loop of `allocateOnce`: the head of the available ports is reserved; when the
-- probe fails it moves to the blocked ones.
pub take_port : ℕ → List ℕ → PortPool → PortPool
take_port port rest p = record p { available = rest; reserved = add port p.reserved }

pub block_port : ℕ → PortPool → PortPool
block_port port p = record p { reserved = remove port p.reserved; blocked = add port p.blocked }

module _ (listens : ℕ → ℕ → Bool) where
  -- The loop takes the ports from the front until one listens; `todo` is `available`. The result
  -- is the port or the error, the pool, and the count of probes made so far.
  unfoldable pub allocate_once_loop : List ℕ → ℕ → PortPool → Result PortError ℕ × PortPool × ℕ
  allocate_once_loop [] n p = (err exhausted, p, n)
  allocate_once_loop (port ∷ rest) n p =
      let more = allocate_once_loop rest (n + 1) (block_port port (take_port port rest p)) in
      if listens n port then (ok port, take_port port rest p, n + 1) else more

  unfoldable pub allocate_once : ℕ → PortPool → Result PortError ℕ × PortPool × ℕ
  allocate_once n p = allocate_once_loop p.available n p

abbrev pub is_empty : List ℕ → Bool
is_empty [] = true
is_empty (x ∷ xs) = false

-- `recycleBlockedLocked`: with no blocked port it returns at once, and does not sort.
pub recycle_blocked : PortPool → PortPool
recycle_blocked p =
    if is_empty p.blocked
    then p
    else record p { available = sort (p.available ++ p.blocked); blocked = [] }

module _ (listens : ℕ → ℕ → Bool) where
  -- The second half of `allocate`, after a first pass that found no port.
  pub retry : ℕ → PortPool → Result PortError ℕ × PortPool × ℕ
  retry n p =
      let retryable = not (is_empty p.blocked) || not (is_empty p.available) in
      if retryable
      then allocate_once listens n (recycle_blocked p)
      else (err exhausted, recycle_blocked p, n)

  unfoldable pub second_pass : Result PortError ℕ → PortPool → ℕ → Result PortError ℕ × PortPool × ℕ
  second_pass (ok port) p n = (ok port, p, n)
  second_pass (err e) p n = retry n p

  unfoldable pub allocate : ℕ → PortPool → Result PortError ℕ × PortPool × ℕ
  allocate n p = let (r, q, m) = allocate_once listens n p in second_pass r q m

pub release : ℕ → PortPool → PortPool
release port p =
    if port == 0
    then p
    else if contains port p.reserved
    then record p {
      reserved = remove port p.reserved;
      available = sort (p.available ++ (port ∷ []));
    }
    else p
