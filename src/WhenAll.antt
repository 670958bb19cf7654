-- ===== src/WhenAll.antt =====
-- `when_all_ready` and `when_all`, over a range of futures and over a tuple.
-- Sources: ltl/include/ltl/when_all.hpp, tuple_transform of ltl/include/ltl/detail/tuple_meta.hpp.
pub mod Watched
pub mod Attach
pub mod Ready
pub mod Collect
pub mod Countdown
pub mod Tuple
use ltl.Base.{ℕ, suc, Option, none, some, List, [], ◌∷◌, ◌++◌, length}
use ltl.Heap.{
  Handle, Val, unit, Thunk, decrement, ignore, collect, Heap, ret, M, ◌>>=◌, ◌>>◌, give, alloc,
}
use ltl.FutureState
use ltl.Run.{UserCode, decrement_body}
use ltl.Future.{state_then, then_on, make_ready_future}

-- std::make_shared<std::atomic<diff_t>>
unfoldable new_counter : ℕ → M ℕ
new_counter n h = ret (length h.counters) (record h { counters = h.counters ++ n ∷ [] })

module _ (env : UserCode) (run : Thunk → M (Unit {0})) where
  -- One round of std::for_each.
  unfoldable pub attach_one : ℕ → ℕ → Handle → M (Unit {0})
  unfolding decrement_body FutureState.continue_with
  attach_one c prm none = decrement_body env run c prm
  attach_one c prm (some s) =
      FutureState.continue_with s (decrement c prm) (decrement_body env run c prm)

  unfoldable pub attach : ℕ → ℕ → List Handle → M (Unit {0})
  unfolding attach_one
  attach c prm [] = give tt
  attach c prm (f ∷ fs) = do attach_one c prm f; attach c prm fs

  -- `prm` names the state of the promise; `tq` is the queue of the calling task.
  unfoldable pub when_all_ready : Option ℕ → List Handle → M Handle
  unfolding new_counter attach make_ready_future
  when_all_ready tq [] = make_ready_future env run unit
  when_all_ready tq (f ∷ fs) = do
    c ← new_counter (suc (length fs))
    prm ← alloc tq
    attach c prm (f ∷ fs)
    give (some prm)

  unfoldable pub when_all : Option ℕ → List Handle → M Handle
  unfolding when_all_ready state_then
  when_all tq fs = do r ← when_all_ready tq fs; then_on env run r (λ _. collect fs)

  -- detail::to_future_void
  unfoldable pub to_future_void : Handle → M Handle
  unfolding state_then make_ready_future
  to_future_void none = make_ready_future env run unit
  to_future_void (some s) = do rs ← state_then env run s ignore; give (some rs)

  -- detail::tuple_transform into a vector
  unfoldable pub tuple_transform : List Handle → M (List Handle)
  unfolding to_future_void
  tuple_transform [] = give []
  tuple_transform (f ∷ fs) = do v ← to_future_void f; vs ← tuple_transform fs; give (v ∷ vs)

  unfoldable pub when_all_ready_tuple : Option ℕ → List Handle → M Handle
  unfolding tuple_transform when_all_ready
  when_all_ready_tuple tq fs = do vf ← tuple_transform fs; when_all_ready tq vf

  unfoldable pub when_all_tuple : Option ℕ → List Handle → M Handle
  unfolding when_all_ready_tuple state_then
  when_all_tuple tq fs = do r ← when_all_ready_tuple tq fs; then_on env run r (λ _. collect fs)
