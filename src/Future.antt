-- ===== src/Future.antt =====
-- `future<T>`: a handle on a state, and the operations that make new futures from it.
-- Sources: ltl/include/ltl/future.hpp, future_state_base::then of
-- ltl/include/ltl/detail/future_state.hpp.
pub mod Then
pub mod Chain
pub mod Order
pub mod Unwrap
pub mod Pending
pub mod Chained
use ltl.Base.{ℕ, Bool, true, false, Option, none, some, List, [], ◌∷◌, if◌then◌else◌, is_some}
use ltl.Heap.{
  Exn, no_state, Handle, Val, unit, fut, Func, observe, compose, recover_with, unwrap_outer,
  collect, ignore, Thunk, invoke_and_set, State, is_set, M, ◌>>=◌, ◌>>◌, give, raise, load, alloc,
  Result, ok, err, new_state,
}
use ltl.FutureState
use ltl.Run.{UserCode, future_get, future_has_value, invoke_and_set_value}

unfoldable pub valid : Handle → Bool
valid f = is_some f

unfoldable pub ready : Handle → M Bool
unfolding FutureState.ready
ready none = give false
ready (some s) = FutureState.ready s

unfoldable pub wait : Handle → M (Unit {0})
unfolding FutureState.wait
wait none = give tt
wait (some s) = FutureState.wait s

unfoldable pub value_or : Handle → Val → M Val
unfolding future_get future_has_value
value_or f x = do b ← future_has_value f; if b then future_get f else give x

-- The state of a future that was completed at once, and is observed by nobody yet.
abbrev pub settled : Option ℕ → Result → State
settled tq (ok v) = record (new_state tq) { value = some v }
settled tq (err e) = record (new_state tq) { exception = some e }

module _ (env : UserCode) (run : Thunk → M (Unit {0})) where
  -- future_state_base::then
  unfoldable pub state_then : ℕ → Func → M ℕ
  unfolding invoke_and_set_value
  state_then s f = do
    rs ← alloc none
    st ← load s
    if is_set st
        then (do invoke_and_set_value env run rs f; give rs)
        else (do FutureState.add_continuation s st (invoke_and_set rs f); give rs)

  abbrev pub then_on : Handle → (ℕ → Func) → M Handle
  then_on none f = raise no_state
  then_on (some s) f = do rs ← state_then s (f s); give (some rs)

  unfoldable pub then_ : Handle → ℕ → M Handle
  unfolding state_then
  then_ h g = then_on h (λ s. observe g (some s))

  unfoldable pub next : Handle → ℕ → M Handle
  unfolding state_then
  next h g = then_on h (compose g)

  unfoldable pub recover : Handle → ℕ → M Handle
  unfolding state_then
  recover h g = then_on h (λ s. recover_with g (some s))

  unfoldable pub make_ready_future : Val → M Handle
  unfolding FutureState.set_value
  make_ready_future v = do s ← alloc none; FutureState.set_value run s v; give (some s)

  unfoldable pub make_exceptional_future : Exn → M Handle
  unfolding FutureState.set_exception
  make_exceptional_future e = do s ← alloc none; FutureState.set_exception run s e; give (some s)

  -- detail::unwrap on a future of a future
  unfoldable pub unwrap : Handle → M Handle
  unfolding state_then FutureState.await_queue
  unwrap none = raise no_state
  unwrap (some i) = do
    tq ← FutureState.await_queue i
    s ← alloc tq
    rs ← state_then i (unwrap_outer s (some i))
    give (some s)
