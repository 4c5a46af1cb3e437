-- ===== src/Remote/Ports/Counts.antt =====
-- How often a port stands in a list, under the list operations of the pool.
use hdc_remote_kit.Remote.Ports.{is_empty, contains, remove, add, sort_insert, sort, port_range}
use hdc_remote_kit.Base.{
  ltb, ◌&&◌, ℕ, zero, suc, ◌+◌, ◌<◌, ◌≡◌, refl, List, [], ◌∷◌, ◌++◌, true, false, arith, ◌==◌, leb,
  if◌then◌else◌,
}

abbrev pub unit : ℕ → ℕ → ℕ
unit y x = if y == x then 1 else 0

pub unit_self : (x : ℕ) → unit x x ≡ 1
unit_self x = ground arith

abbrev pub count : ℕ → List ℕ → ℕ
count x [] = 0
count x (y ∷ ys) = unit y x + count x ys

pub count-append : (x : ℕ) (xs ys : List ℕ) → count x (xs ++ ys) ≡ count x xs + count x ys
count-append x [] ys = omega arith
count-append x (y ∷ xs) ys = omega (arith, count-append x xs ys)

pub contains→count : (y : ℕ) (xs : List ℕ) → contains y xs ≡ true → 0 < count y xs
unfolding contains
contains→count y [] h = ground arith
contains→count y (x ∷ xs) h = ground (arith, contains→count y xs)

pub count→contains : (y : ℕ) (xs : List ℕ) → 0 < count y xs → contains y xs ≡ true
unfolding contains
count→contains y [] h = absurd (omega arith)
count→contains y (x ∷ xs) h = ground (arith, count→contains y xs)

pub contains_false→count : (y : ℕ) (xs : List ℕ) → contains y xs ≡ false → count y xs ≡ 0
unfolding contains
contains_false→count y [] h = refl
contains_false→count y (x ∷ xs) h = ground (arith, contains_false→count y xs)

pub count_zero→contains : (y : ℕ) (xs : List ℕ) → count y xs ≡ 0 → contains y xs ≡ false
unfolding contains
count_zero→contains y [] h = refl
count_zero→contains y (x ∷ xs) h = ground (arith, count_zero→contains y xs)

pub count-remove :
    (x y : ℕ) (xs : List ℕ) → contains y xs ≡ true → count x (remove y xs) + unit y x ≡ count x xs
unfolding contains remove
count-remove x y [] h = ground arith
count-remove x y (z ∷ xs) h = ground (arith, count-remove x y xs)

pub count-add :
    (x y : ℕ) (xs : List ℕ) → contains y xs ≡ false → count x (add y xs) ≡ count x xs + unit y x
unfolding add
count-add x y xs h = ground arith

count-sort_insert : (x y : ℕ) (xs : List ℕ) → count x (sort_insert y xs) ≡ unit y x + count x xs
unfolding sort_insert
count-sort_insert x y [] = refl
count-sort_insert x y (z ∷ xs) = ground (arith, count-sort_insert x y xs)

pub count-sort : (x : ℕ) (xs : List ℕ) → count x (sort xs) ≡ count x xs
unfolding sort
count-sort x [] = refl
count-sort x (y ∷ xs) = omega (arith, count-sort_insert x y (sort xs), count-sort x xs)

pub count-port_range :
    (x port n : ℕ) → count x (port_range port n) ≡ (if leb port x && ltb x (port + n) then 1 else 0)
unfolding port_range
count-port_range x port zero = ground arith
count-port_range x port (suc n) = ground (arith, count-port_range x (port + 1) n)

pub is_empty→count : (y : ℕ) (xs : List ℕ) → is_empty xs ≡ true → count y xs ≡ 0
is_empty→count y [] h = refl
is_empty→count y (x ∷ xs) h = ground arith
