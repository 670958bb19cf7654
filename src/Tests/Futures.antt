-- ===== src/Tests/Futures.antt =====
-- Futures, promises and `await` on a small memory.
-- Sources: ltl/include/ltl/future.hpp, promise.hpp, await.hpp, detail/future_state.hpp.
use ltl.Base.{◌==◌, ◌≡◌, refl, true, none, some, [], ◌∷◌, if◌then◌else◌, arith}
use ltl.Heap.{
  unit, user_error, future_already_retrieved, promise_already_satisfied, no_state, num, fut, ok,
  err, compose, invoke_and_set, new_state, Heap, ret, throw, fault, null_pointer, bind, give, ◌>>=◌,
  ◌>>◌,
}
use ltl.Heap.Growth.{Post, Evolves}
use ltl.FutureState
use ltl.Run.{UserCode, run}
use ltl.Run.Total.{run_ends_and_keeps_results}
use ltl.Future
use ltl.Future.Then.{extend}
use ltl.Future.{settled, state_then, then_, next, recover, unwrap}
use ltl.Future.Chain.{chain_of_completed}
use ltl.Future.Order.{then-complete_comm, complete}
use ltl.Future.Unwrap.{unwrap_completed, unwrap_loses_exception}
use ltl.Promise.{new_promise, get_future, set_value, set_exception, move}
use ltl.Promise.Laws.{new_promise_used_once}
use ltl.Await.{apply, after_resume}
use ltl.Await.Resume.{await_resumes_once, await_without_queue}

-- Function 0 returns 7, the others throw.
abbrev pub user : UserCode
user = record {
  call = λ g v. if g == 0 then ok (num 7) else err (user_error g);
  watch = λ g o. ok (num g);
}

-- State 0 is pending and was made in a task of queue 5, 1 holds 3, 2 holds an exception, 3 holds
-- the future on 1, and 4 is pending and belongs to no task.
abbrev pub memory : Heap
memory = record {
  states =
      new_state (some 5)
      ∷ settled none (ok (num 3))
      ∷ settled (some 5) (err (user_error 9))
      ∷ settled (some 5) (ok (fut (some 1)))
      ∷ new_state none
      ∷ [];
  counters = [];
  resumed = [];
}

-- A continuation on a pending state is run by its completion.
next_then_set :
    bind
      (next user (run user 2) (some 0) 0 memory)
      (λ f. FutureState.set_value (run user 2) 0 (num 3) >> Future.ready f)
    ≡ ret true (
        extend
          (record memory {
            states =
                settled (some 5) (ok (num 3))
                ∷ settled none (ok (num 3))
                ∷ settled (some 5) (err (user_error 9))
                ∷ settled (some 5) (ok (fut (some 1)))
                ∷ new_state none
                ∷ [];
          })
          (settled none (ok (num 7))))
unfolding next run FutureState.set_value Future.ready FutureState.for_each
next_then_set = refl

then-complete_comm_example :
    bind
      (state_then user (run user 3) 0 (compose 0 0) memory)
      (λ rs. complete (run user 3) 0 (ok (num 3)) >> give rs)
    ≡ bind
        (complete (run user 2) 0 (ok (num 3)) memory)
        (λ _. state_then user (run user 2) 0 (compose 0 0))
then-complete_comm_example =
    then-complete_comm user 2 0 (compose 0 0) (ok (num 3)) memory (some 5) none refl

run_ends_and_keeps_results_example :
    Post (Evolves memory) (run user 3 (invoke_and_set 0 (compose 0 1)) memory)
run_ends_and_keeps_results_example =
    run_ends_and_keeps_results user 3 (invoke_and_set 0 (compose 0 1)) memory (omega arith)

chain_of_completed_example :
    (then_ user (run user 1) (some 2) 0 memory
      ≡ ret (some 5) (extend memory (settled none (ok (num 0)))))
    × (next user (run user 1) (some 2) 0 memory
        ≡ ret (some 5) (extend memory (settled none (err (user_error 9)))))
    × (recover user (run user 1) (some 2) 0 memory
        ≡ ret (some 5) (extend memory (settled none (err (user_error 9)))))
chain_of_completed_example =
    chain_of_completed user (run user 1) 0 2 (err (user_error 9)) memory refl refl

unwrap_completed_example :
    unwrap user (run user 1) (some 3) memory
    ≡ ret (some 5) (extend (extend memory (settled (some 5) (ok (num 3)))) (settled none (ok unit)))
unwrap_completed_example =
    unwrap_completed user (run user 1) 3 1 (ok (num 3)) memory refl refl refl refl

unwrap_loses_exception_example :
    unwrap user (run user 1) (some 2) memory
    ≡ ret (some 5) (extend (extend memory (new_state (some 5))) (settled none (err (user_error 9))))
unwrap_loses_exception_example =
    unwrap_loses_exception user (run user 1) 2 (user_error 9) memory refl refl

new_promise_used_once_example :
    let made : Heap = extend memory (new_state none) in
    let valued : Heap = extend memory (settled none (ok (num 1))) in
    let failed : Heap = extend memory (settled none (err (user_error 3))) in
    let r = run user 1 in
    ((new_promise none >>= λ p. get_future p) memory
      ≡ ret (some 5, record { state = some 5; retrieved = true }) made)
    × ((new_promise none >>= λ p. get_future p >>= λ fp. get_future fp.1) memory
        ≡ throw future_already_retrieved made)
    × ((new_promise none >>= λ p. set_value r p (num 1)) memory ≡ ret tt valued)
    × ((new_promise none >>= λ p. set_value r p (num 1) >> set_value r p (num 2)) memory
        ≡ throw promise_already_satisfied valued)
    × ((new_promise none >>= λ p. set_value r p (num 1) >> set_exception r p (user_error 4)) memory
        ≡ throw promise_already_satisfied valued)
    × ((new_promise none >>= λ p. set_exception r p (user_error 3)) memory ≡ ret tt failed)
    × ((new_promise none >>= λ p. set_exception r p (user_error 3) >> set_value r p (num 2)) memory
        ≡ throw promise_already_satisfied failed)
    × ((new_promise none >>= λ p.
            set_exception r p (user_error 3) >> set_exception r p (user_error 4))
          memory
        ≡ throw promise_already_satisfied failed)
    × ((new_promise none >>= λ p. get_future (move p).1) memory ≡ throw no_state made)
    × ((new_promise none >>= λ p. set_value r (move p).1 (num 1)) memory ≡ throw no_state made)
    × ((new_promise none >>= λ p. set_exception r (move p).1 (user_error 3)) memory
        ≡ throw no_state made)
new_promise_used_once_example =
    new_promise_used_once (run user 1) none (num 1) (num 2) (user_error 3) (user_error 4) memory

await_resumes_once_example :
    let k = record memory {
      states =
          settled (some 5) (ok (num 8))
          ∷ settled none (ok (num 3))
          ∷ settled (some 5) (err (user_error 9))
          ∷ settled (some 5) (ok (fut (some 1)))
          ∷ new_state none
          ∷ [];
      resumed = (5, 2) ∷ [];
    } in
    (bind (apply (some 2) (some 0) memory) (λ _. complete (run user 1) 0 (ok (num 8))) ≡ ret tt k)
    × (after_resume (some 0) k ≡ ret (num 8) k)
await_resumes_once_example = await_resumes_once user 0 0 2 5 memory none (ok (num 8)) refl

await_without_queue_example :
    bind (apply (some 2) (some 4) memory) (λ _. complete (run user 1) 4 (ok (num 8)))
    ≡ fault null_pointer
await_without_queue_example = await_without_queue user 0 4 2 memory none (ok (num 8)) refl
