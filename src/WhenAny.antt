-- ===== src/WhenAny.antt =====
-- `when_any_ready`, whose loop reads `*first` in every round.
-- Source: ltl/include/ltl/when_any.hpp.
pub mod First
use ltl.Base.{
  ℕ, zero, suc, ◌^◌, ◌-◌, Bool, true, false, Option, none, some, List, [], ◌∷◌, if◌then◌else◌,
}
use ltl.Heap.{Handle, Val, num, Thunk, set_index, M, ◌>>=◌, ◌>>◌, give, alloc}
use ltl.FutureState
use ltl.Run.{UserCode}
use ltl.Future.{make_ready_future}

-- std::size_t(-1), of 64 bits
abbrev pub size_max : ℕ
size_max = 2 ^ 64 - 1

module _ (env : UserCode) (run : Thunk → M (Unit {0})) where
  -- The body of the loop at index `i`: `f` is `*first`. The result is `at_least_one_valid`.
  unfoldable pub watch_one : ℕ → Handle → ℕ → Bool → M Bool
  unfolding FutureState.continue_with FutureState.set_value_impl
  watch_one prm none i found_valid = give found_valid
  watch_one prm (some s) i found_valid = do
    FutureState.continue_with s (set_index prm i) (FutureState.set_value_impl run prm (num i) false)
    give true

  unfoldable pub watch_all : ℕ → Handle → ℕ → Bool → List Handle → M Bool
  unfolding watch_one
  watch_all prm first i found_valid [] = give found_valid
  watch_all prm first i found_valid (it ∷ rest) = do
    b ← watch_one prm first i found_valid
    watch_all prm first (suc i) b rest

  unfoldable pub when_any_ready : Option ℕ → List Handle → M Handle
  unfolding watch_all make_ready_future FutureState.set_value
  when_any_ready tq [] = make_ready_future env run (num size_max)
  when_any_ready tq (first ∷ rest) = do
    prm ← alloc tq
    b ← watch_all prm first 0 false (first ∷ rest)
    if b then give tt else FutureState.set_value run prm (num size_max)
    give (some prm)
