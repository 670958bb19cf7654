-- ===== src/Promise/Laws.antt =====
-- What a promise, its future and a task object guarantee to each other.
-- Sources: ltl/include/ltl/promise.hpp, ltl/include/ltl/detail/wrapped_function.hpp.
use ltl.Base.{ℕ, true, ◌≡◌, refl, false, Option, some, length, get_elem?-append_new}
use ltl.Heap.{
  Exn, future_already_retrieved, promise_already_satisfied, no_state, Val, unit, Result, ok, err,
  Thunk, Heap, Outcome, ret, throw, new_state, M, give, ◌>>=◌, ◌>>◌, Handle,
}
use ltl.FutureState
use ltl.Run.{UserCode}
use ltl.Future.{settled}
use ltl.Future.Then.{extend, set_value-extend, set_exception-extend}
use ltl.Promise.{
  Promise, move, new_promise, set_value, set_exception, get_future, new_wrapped_function, call,
}

-- A second completion of a state that is set.
complete_again :
    (run : Thunk → M (Unit {0})) (h : Heap) (tq : Option ℕ) (r : Result) (v : Val) (e : Exn)
    → let p : Promise = record { state = some (length h.states); retrieved = false } in
      (set_value run p v (extend h (settled tq r))
        ≡ throw promise_already_satisfied (extend h (settled tq r)))
      × (set_exception run p e (extend h (settled tq r))
          ≡ throw promise_already_satisfied (extend h (settled tq r)))
unfolding set_value set_exception FutureState.set_value FutureState.set_exception
complete_again run h tq (ok w) v e = (
  rw (get_elem?-append_new h.states (settled tq (ok w))) refl,
  rw (get_elem?-append_new h.states (settled tq (ok w))) refl,
)
complete_again run h tq (err w) v e = (
  rw (get_elem?-append_new h.states (settled tq (err w))) refl,
  rw (get_elem?-append_new h.states (settled tq (err w))) refl,
)

abbrev fresh_promise : Heap → Promise
fresh_promise h = record { state = some (length h.states); retrieved = false }

-- A new promise gives out its future once, and takes one result, a value or an exception. The first
-- `get_future` returns the future on its new pending state, and the next throws. The first
-- `set_value` or `set_exception` sets that state to the result, and whichever comes next throws and
-- leaves the result as it is. What is left of a promise that was moved gives out nothing and takes
-- nothing.
pub new_promise_used_once :
    (run : Thunk → M (Unit {0})) (tq : Option ℕ) (v w : Val) (e x : Exn) (h : Heap)
    → let made : Heap = extend h (new_state tq) in
      let valued : Heap = extend h (settled tq (ok v)) in
      let failed : Heap = extend h (settled tq (err e)) in
      ((new_promise tq >>= λ p. get_future p) h
        ≡ ret
            (some (length h.states), record { state = some (length h.states); retrieved = true })
            made)
      × ((new_promise tq >>= λ p. get_future p >>= λ fp. get_future fp.1) h
          ≡ throw future_already_retrieved made)
      × ((new_promise tq >>= λ p. set_value run p v) h ≡ ret tt valued)
      × ((new_promise tq >>= λ p. set_value run p v >> set_value run p w) h
          ≡ throw promise_already_satisfied valued)
      × ((new_promise tq >>= λ p. set_value run p v >> set_exception run p x) h
          ≡ throw promise_already_satisfied valued)
      × ((new_promise tq >>= λ p. set_exception run p e) h ≡ ret tt failed)
      × ((new_promise tq >>= λ p. set_exception run p e >> set_value run p w) h
          ≡ throw promise_already_satisfied failed)
      × ((new_promise tq >>= λ p. set_exception run p e >> set_exception run p x) h
          ≡ throw promise_already_satisfied failed)
      × ((new_promise tq >>= λ p. get_future (move p).1) h ≡ throw no_state made)
      × ((new_promise tq >>= λ p. set_value run (move p).1 v) h ≡ throw no_state made)
      × ((new_promise tq >>= λ p. set_exception run (move p).1 e) h ≡ throw no_state made)
unfolding new_promise get_future move set_value set_exception
new_promise_used_once run tq v w e x h = (
  refl,
  refl,
  set_value-extend run h tq v,
  rw (set_value-extend run h tq v) ((complete_again run h tq (ok v) w x).0),
  rw (set_value-extend run h tq v) ((complete_again run h tq (ok v) w x).1),
  set_exception-extend run h tq e,
  rw (set_exception-extend run h tq e) ((complete_again run h tq (err e) w x).0),
  rw (set_exception-extend run h tq e) ((complete_again run h tq (err e) w x).1),
  refl,
  refl,
  refl,
)

-- A task object is made, its future handed out, and the object called by a worker.
abbrev run_task : UserCode → (Thunk → M (Unit {0})) → Option ℕ → ℕ → M Handle
run_task env run tq task = do
  wf ← new_wrapped_function tq task
  fp ← get_future wf.promise
  call env run (record wf { promise = fp.1 })
  give fp.0

abbrev task_outcome : Option ℕ → Heap → Result → Outcome Handle
task_outcome tq h (ok v) = ret (some (length h.states)) (extend h (settled tq (ok v)))
task_outcome tq h (err e) = throw e (extend h (new_state tq))

-- A task that returns completes its future with what it returned. The exception of a task that
-- throws leaves the task object and reaches its caller, the worker thread, and the future stays
-- pending.
task_outcome_lem :
    (env : UserCode) (run : Thunk → M (Unit {0})) (tq : Option ℕ) (task : ℕ) (r : Result) (h : Heap)
    → env.call task unit ≡ r
    → run_task env run tq task h ≡ task_outcome tq h r
unfolding new_wrapped_function new_promise get_future call set_value
task_outcome_lem env run tq task (ok v) h e = rw (e, set_value-extend run h tq v) refl
task_outcome_lem env run tq task (err x) h e = rw e refl
