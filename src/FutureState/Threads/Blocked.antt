-- ===== src/FutureState/Threads/Blocked.antt =====
-- The activities that wait for the block.
-- Source: wait of ltl/include/ltl/detail/future_state.hpp.
use ltl.Base.{
  ◌⊎◌, ℕ, zero, suc, ◌≡◌, Bool, true, false, ◌||◌, some, List, [], ◌∷◌, ◌++◌, get_elem?, set, arith,
}
use ltl.Heap.{Thunk, signal_block}
use ltl.FutureState.Threads.{Activity, blocked}

abbrev pub is_signal : Thunk → Bool
is_signal (signal_block s) = true
is_signal t = false

abbrev pub is_blocked : Activity → Bool
is_blocked blocked = true
is_blocked a = false

abbrev pub some_blocked : List Activity → Bool
some_blocked [] = false
some_blocked (a ∷ as_) = is_blocked a || some_blocked as_

pub some_blocked-append :
    (xs : List Activity) (a : Activity)
    → some_blocked (xs ++ a ∷ []) ≡ true
    → (some_blocked xs ≡ true) ⊎ (is_blocked a ≡ true)
some_blocked-append [] a e = ground arith
some_blocked-append (x ∷ xs) a e = ground (arith, some_blocked-append xs a)

pub some_blocked-set :
    (xs : List Activity) (i : ℕ) (a : Activity)
    → is_blocked a ≡ false
    → some_blocked (set xs i a) ≡ true
    → some_blocked xs ≡ true
some_blocked-set [] i a n e = e
some_blocked-set (x ∷ xs) zero a n e = ground arith
some_blocked-set (x ∷ xs) (suc i) a n e = ground (arith, some_blocked-set xs i a n)

pub some_blocked-at :
    (xs : List Activity) (i : ℕ) → get_elem? xs i ≡ some blocked → some_blocked xs ≡ true
some_blocked-at [] i e = cc
some_blocked-at (x ∷ xs) zero e = ground (arith, e)
some_blocked-at (x ∷ xs) (suc i) e = ground (arith, some_blocked-at xs i e)
