-- ===== src/FutureState.antt =====
-- `future_state_base<T>` and `future_state<T>`: each region under the mutex is one step, and the
-- continuations that it takes out of the state are run after it, outside the lock.
-- Source: ltl/include/ltl/detail/future_state.hpp, ltl/include/ltl/detail/block.hpp.
pub mod Wake
pub mod Threads
pub mod Void
use ltl.Base.{Bool, true, false, ℕ, Option, none, some, List, [], ◌∷◌, ◌++◌, if◌then◌else◌, is_some}
use ltl.Heap.{
  Exn, promise_already_satisfied, Val, Thunk, signal_block, Block, new_block, State, is_set,
  null_pointer, ret, blocks, M, ◌>>=◌, ◌>>◌, give, raise, stop, load, store,
}

-- block::signal and the test of block::wait
unfoldable pub signal : Block → Block
signal b = if b.signalled then b else record b { signalled = true }

unfoldable wait_passes : Block → Bool
wait_passes b = b.signalled

unfoldable pub ready : ℕ → M Bool
ready s = do st ← load s; give (is_set st)

-- `return value_` does not compile where `value_` is a unique_ptr, which does not become a `bool` of
-- itself: the function exists for future_state<void>, whose `value_` is a `bool`. For other types this
-- is what it says.
unfoldable pub has_value : ℕ → M Bool
has_value s = do st ← load s; give (is_some st.value)

unfoldable get_exception : ℕ → M (Option Exn)
get_exception s = do st ← load s; give st.exception

unfoldable pub await_queue : ℕ → M (Option ℕ)
await_queue s = do st ← load s; give st.await_queue

-- The locked part of `wait`: makes the block and registers its signal, once.
abbrev pub with_block : ℕ → State → State
with_block s st = elim st.block [
  | none ↦ record st {
    block = some new_block;
    continuations = st.continuations ++ signal_block s ∷ [];
  }
  | some b ↦ st
]

abbrev pub block_passes : Option Block → Bool
block_passes none = false
block_passes (some b) = b.signalled

-- `block_->wait()`: the thread goes on if the block is signalled, and blocks otherwise.
abbrev pub pass_or_block : Bool → ℕ → M (Unit {0})
pass_or_block true s h = ret tt h
pass_or_block false s h = blocks s h

unfoldable pub wait : ℕ → M (Unit {0})
wait s = do
  st ← load s
  if is_set st
      then give tt
      else (do store s (with_block s st); pass_or_block (block_passes (with_block s st).block) s)

-- future_state::get, without a lock: the exception first, then the value behind `value_`. That of
-- future_state<void> has no value to read, and returns also if nothing is set.
abbrev pub get_result : State → M Val
get_result st = elim st.exception [
  | some e ↦ raise e
  | none ↦ elim st.value [ some v ↦ give v | none ↦ stop null_pointer ]
]

unfoldable pub get : ℕ → M Val
get s = do st ← load s; get_result st

-- `for (auto&& f : cs) f();`
unfoldable pub for_each : (Thunk → M (Unit {0})) → List Thunk → M (Unit {0})
for_each run [] = give tt
for_each run (t ∷ ts) = do run t; for_each run ts

-- The parameter `run` runs a stored continuation.
module _ (run : Thunk → M (Unit {0})) where
  unfoldable pub set_value_impl : ℕ → Val → Bool → M (Unit {0})
  set_value_impl s v allow_exception = do
    st ← load s
    if is_set st
        then (if allow_exception then raise promise_already_satisfied else give tt)
        else (do
          store s (record st { value = some v; continuations = [] })
          for_each run st.continuations)

  unfoldable pub set_value : ℕ → Val → M (Unit {0})
  unfolding set_value_impl
  set_value s v = set_value_impl s v true

  unfoldable pub set_exception : ℕ → Exn → M (Unit {0})
  set_exception s p = do
    st ← load s
    if is_set st then raise promise_already_satisfied else (do
      store s (record st { exception = some p; continuations = [] })
      for_each run st.continuations)

-- continuations_.emplace_back
abbrev pub add_continuation : ℕ → State → Thunk → M (Unit {0})
add_continuation s st t = store s (record st { continuations = st.continuations ++ t ∷ [] })

-- `continue_with(func)`: `t` is `func` as it is stored, `now` is its call on the spot.
unfoldable pub continue_with : ℕ → Thunk → M (Unit {0}) → M (Unit {0})
continue_with s t now = do st ← load s; if is_set st then now else add_continuation s st t
