-- ===== src/Run.antt =====
-- The bodies of the continuations that the library stores, and the run of a stored continuation,
-- which may complete other states and run theirs in turn.
-- Sources: invoke_and_set_value in ltl/include/ltl/detail/future_state.hpp, the lambdas of
-- ltl/include/ltl/future.hpp, when_all.hpp, when_any.hpp and await.hpp, get_and_compose.hpp.
pub mod Safe
pub mod Total
pub mod Same
pub mod Fuel
use ltl.Base.{
  ℕ, zero, suc, ◌-◌, ◌==◌, Bool, false, Option, none, some, List, [], ◌∷◌, ◌++◌, get_elem?, set,
  if◌then◌else◌,
}
use ltl.Heap.{
  no_state, Handle, Val, unit, num, fut, nil, cons, Result, ok, err, Func, observe, compose,
  recover_with, unwrap_outer, collect, ignore, Thunk, signal_block, invoke_and_set, decrement,
  set_index, unwrap_inner, push_resume, Block, State, null_pointer, ill_typed, ret, out_of_fuel, M,
  ◌>>=◌, ◌>>◌, try_catch, give, raise, stop, lift, load, store,
}
use ltl.FutureState

-- User code: `call` is a function of a value, `watch` one of a future, whose outcome it sees.
-- A call has no effect on the states; it returns or throws.
pub record UserCode : Type 0 where
  pub call : ℕ → Val → Result
  pub watch : ℕ → Option Result → Result

-- What a state has come to.
abbrev pub outcome_of : State → Option Result
outcome_of st = elim st.exception [
  | some e ↦ some (err e)
  | none ↦ elim st.value [ some v ↦ some (ok v) | none ↦ none ]
]

abbrev pub outcome_at : Option State → Option Result
outcome_at none = none
outcome_at (some st) = outcome_of st

-- `future::get`: wait, then the state's `get`.
unfoldable pub future_get : Handle → M Val
unfolding FutureState.wait FutureState.get
future_get none = raise no_state
future_get (some s) = do FutureState.wait s; FutureState.get s

unfoldable pub future_has_value : Handle → M Bool
unfolding FutureState.has_value
future_has_value none = give false
future_has_value (some s) = FutureState.has_value s

-- std::transform over `x.get()`, left to right
unfoldable pub get_all : List Handle → M Val
unfolding future_get
get_all [] = give nil
get_all (f ∷ fs) = do v ← future_get f; vs ← get_all fs; give (cons v vs)

-- detail::block::signal at the block of a state
abbrev pub signal_option : Option Block → Option Block
signal_option none = none
signal_option (some b) = some (FutureState.signal b)

-- `counter->fetch_sub(1)`: the old value
unfoldable pub fetch_sub : ℕ → M ℕ
fetch_sub c h = elim (get_elem? h.counters c) [
  | none ↦ stop null_pointer h
  | some n ↦ ret n (record h { counters = set h.counters c (n - 1) })
]

-- `task_queue_impl::push_front` of a resumption, through a pointer to the queue that may be null
unfoldable pub push_front : Option ℕ → ℕ → M (Unit {0})
push_front none ctx h = stop null_pointer h
push_front (some q) ctx h = ret tt (record h { resumed = h.resumed ++ (q, ctx) ∷ [] })

module _ (env : UserCode) (run : Thunk → M (Unit {0})) where
  -- Both overloads; that for future<void> sets no value, which is the value of type void.
  abbrev get_and_set_value : ℕ → Handle → M (Unit {0})
  get_and_set_value s f = future_get f >>= λ v. FutureState.set_value run s v

  -- The inner lambda of `unwrap`.
  unfoldable pub unwrap_inner_body : ℕ → Handle → M (Unit {0})
  unfolding future_get FutureState.set_value FutureState.set_exception
  unwrap_inner_body s f = try_catch (get_and_set_value s f) (FutureState.set_exception run s)

  -- `ff.get(); wrapped_state->continue_with(...)`
  abbrev pub continue_wrapped : ℕ → Handle → Handle → M (Unit {0})
  continue_wrapped s ff none = future_get ff >>= λ _. stop null_pointer
  continue_wrapped s ff (some i) = future_get ff >>= λ _.
      FutureState.continue_with i (unwrap_inner s (some i)) (unwrap_inner_body s (some i))

  abbrev pub continue_unwrapped : ℕ → Handle → Val → M (Unit {0})
  continue_unwrapped s ff (fut f) =
      try_catch (continue_wrapped s ff f) (FutureState.set_exception run s)
  continue_unwrapped s ff _ = stop ill_typed

  abbrev pub state_get : Handle → M Val
  state_get none = stop null_pointer
  state_get (some i) = FutureState.get i

  -- The lambda that `unwrap` hands to `then`; its first `get` stands outside the `try`.
  unfoldable pub unwrap_outer_body : ℕ → Handle → M (Unit {0})
  unfolding unwrap_inner_body FutureState.get FutureState.continue_with
  unwrap_outer_body s ff = do v ← state_get ff; continue_unwrapped s ff v

  -- The call `func()` of a function handed to `then`.
  unfoldable pub invoke : Func → M Val
  unfolding unwrap_outer_body get_all future_has_value
  invoke (observe g none) = lift (env.watch g none)
  invoke (observe g (some s)) = λ h. lift (env.watch g (outcome_at (get_elem? h.states s))) h
  invoke (compose g s) = do v ← FutureState.get s; lift (env.call g v)
  invoke (recover_with g f) = do
    b ← future_has_value f
    v ← future_get f
    if b then give v else lift (env.call g v)
  invoke (unwrap_outer s ff) = do unwrap_outer_body s ff; give unit
  invoke (collect fs) = get_all fs
  invoke ignore = give unit

  -- invoke_and_set_value::operator()
  unfoldable pub invoke_and_set_value : ℕ → Func → M (Unit {0})
  unfolding invoke FutureState.set_value FutureState.set_exception
  invoke_and_set_value rs f =
      try_catch (do v ← invoke f; FutureState.set_value run rs v) (FutureState.set_exception run rs)

  -- `dec` of when_all_ready
  unfoldable pub decrement_body : ℕ → ℕ → M (Unit {0})
  unfolding fetch_sub FutureState.set_value
  decrement_body c prm = do
    n ← fetch_sub c
    if n == 1 then FutureState.set_value run prm unit else give tt

  -- The call `f()` of a stored continuation.
  unfoldable pub run_body : Thunk → M (Unit {0})
  unfolding invoke_and_set_value decrement_body push_front FutureState.set_value_impl
  run_body (signal_block s) = do st ← load s; store s (record st { block = signal_option st.block })
  run_body (invoke_and_set rs f) = invoke_and_set_value rs f
  run_body (decrement c prm) = decrement_body c prm
  run_body (set_index prm i) = FutureState.set_value_impl run prm (num i) false
  run_body (unwrap_inner s f) = unwrap_inner_body s f
  run_body (push_resume s ctx) = do st ← load s; push_front st.await_queue ctx

-- `run fuel` follows chains of continuations up to `fuel` states deep.
unfoldable pub run : UserCode → ℕ → Thunk → M (Unit {0})
unfolding run_body
run env zero t = λ h. out_of_fuel
run env (suc n) t = run_body env (run env n) t
