-- ===== src/Promise.antt =====
-- `promise<T>`, and `wrapped_function<R>`, the task object that a queue runs.
-- Sources: ltl/include/ltl/promise.hpp, ltl/include/ltl/detail/wrapped_function.hpp.
pub mod Laws
use ltl.Base.{ℕ, Bool, true, false, Option, none, some, if◌then◌else◌}
use ltl.Heap.{
  Exn, no_state, future_already_retrieved, Handle, Val, unit, Thunk, M, ◌>>=◌, give, raise, lift,
  alloc,
}
use ltl.FutureState
use ltl.Run.{UserCode}

pub record Promise : Type 0 where
  pub state : Handle
  pub retrieved : Bool

-- The constructor; `tq` is the queue of the task that runs it, if a task runs it.
unfoldable pub new_promise : Option ℕ → M Promise
new_promise tq = do s ← alloc tq; give (record { state = some s; retrieved = false })

abbrev with_state : {A : Type 0} → Handle → (ℕ → M A) → M A
with_state none f = raise no_state
with_state (some s) f = f s

module _ (run : Thunk → M (Unit {0})) where
  unfoldable pub set_value : Promise → Val → M (Unit {0})
  unfolding FutureState.set_value
  set_value p v = with_state p.state (λ s. FutureState.set_value run s v)

  unfoldable pub set_exception : Promise → Exn → M (Unit {0})
  unfolding FutureState.set_exception
  set_exception p e = with_state p.state (λ s. FutureState.set_exception run s e)

-- The future, and the promise marked as retrieved.
unfoldable pub get_future : Promise → M (Handle × Promise)
get_future p = with_state p.state λ s.
    if p.retrieved
    then raise future_already_retrieved
    else give (some s, record p { retrieved = true })

-- The move constructor: the new promise, and what is left of the old one.
unfoldable pub move : Promise → Promise × Promise
move other =
    (record { state = other.state; retrieved = other.retrieved }, record other { state = none })

unfoldable pub swap : Promise → Promise → Promise × Promise
swap p other = (
  record { state = other.state; retrieved = other.retrieved },
  record { state = p.state; retrieved = p.retrieved },
)

-- The promise is shared between the task object and the future that its maker hands out.
pub record WrappedFunction : Type 0 where
  pub task : ℕ
  pub promise : Promise

unfoldable pub new_wrapped_function : Option ℕ → ℕ → M WrappedFunction
unfolding new_promise
new_wrapped_function tq task = do p ← new_promise tq; give (record { task = task; promise = p })

-- operator(): nothing catches what the task throws.
unfoldable pub call : UserCode → (Thunk → M (Unit {0})) → WrappedFunction → M (Unit {0})
unfolding set_value
call env run wf = do v ← lift (env.call wf.task unit); set_value run wf.promise v
