-- ===== src/FutureState/Threads/Counts.antt =====
-- How often functions stand in a list, and in the activities.
-- Source: continuations_ in ltl/include/ltl/detail/future_state.hpp.
use ltl.Base.{
  ℕ, zero, suc, ◌+◌, ◌≡◌, refl, Bool, true, false, ◌&&◌, some, List, [], ◌∷◌, ◌++◌, get_elem?, set,
  if◌then◌else◌, arith,
}
use mathlib.Core.Option.{some-injective}
use ltl.Heap.{Thunk}
use ltl.FutureState.Threads.{Activity, running, calling, blocked, returned, rejected}

-- The functions of a list that pass the test `p`.
abbrev pub count : (Thunk → Bool) → List Thunk → ℕ
count p [] = 0
count p (t ∷ ts) = (if p t then 1 else 0) + count p ts

pub count-append :
    (p : Thunk → Bool) (xs ys : List Thunk) → count p (xs ++ ys) ≡ count p xs + count p ys
count-append p [] ys = omega arith
count-append p (x ∷ xs) ys = omega (arith, count-append p xs ys)

-- Those that an activity has still to call.
abbrev pub in_flight : (Thunk → Bool) → Activity → ℕ
in_flight p (running ts) = count p ts
in_flight p (calling t) = count p (t ∷ [])
in_flight p a = 0

abbrev pub total : (Thunk → Bool) → List Activity → ℕ
total p [] = 0
total p (a ∷ as_) = in_flight p a + total p as_

pub total-append :
    (p : Thunk → Bool) (xs ys : List Activity) → total p (xs ++ ys) ≡ total p xs + total p ys
total-append p [] ys = omega arith
total-append p (x ∷ xs) ys = omega (arith, total-append p xs ys)

pub total-set :
    (p : Thunk → Bool) (xs : List Activity) (i : ℕ) (a b : Activity)
    → get_elem? xs i ≡ some a
    → total p (set xs i b) + in_flight p a ≡ total p xs + in_flight p b
total-set p [] i a b e = cc
total-set p (x ∷ xs) zero a b e = rw (some-injective _ _ e) (omega arith)
total-set p (x ∷ xs) (suc i) a b e = omega (arith, total-set p xs i a b e)

-- The calls that have nothing left to call.
abbrev is_quiet : Activity → Bool
is_quiet (running ts) = false
is_quiet (calling t) = false
is_quiet a = true

abbrev pub all_quiet : List Activity → Bool
all_quiet [] = true
all_quiet (a ∷ as_) = is_quiet a && all_quiet as_

pub total-quiet : (p : Thunk → Bool) (xs : List Activity) → all_quiet xs ≡ true → total p xs ≡ 0
total-quiet p [] q = refl
total-quiet p (running ts ∷ xs) q = cc
total-quiet p (calling t ∷ xs) q = cc
total-quiet p (blocked ∷ xs) q = omega (arith, total-quiet p xs q)
total-quiet p (returned ∷ xs) q = omega (arith, total-quiet p xs q)
total-quiet p (rejected ∷ xs) q = omega (arith, total-quiet p xs q)
