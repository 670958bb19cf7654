-- ===== src/Tests/Combined.antt =====
-- `when_all_ready`, `when_all` and `when_any_ready` on a small memory.
-- Sources: ltl/include/ltl/when_all.hpp, ltl/include/ltl/when_any.hpp.
use ltl.Base.{◌≡◌, refl, arith, none, some, [], ◌∷◌, ◌++◌}
use ltl.Heap.{
  invoke_and_set, collect, user_error, unit, num, fut, nil, cons, ok, err, decrement, new_state,
  Heap, ret, bind,
}
use ltl.FutureState
use ltl.Run.{run, future_get}
use ltl.Future.{settled}
use ltl.WhenAll.{when_all_ready, when_all, when_all_tuple}
use ltl.WhenAll.Ready.{when_all_ready-AllDone, when_all_ready-some_pending}
use ltl.WhenAll.Tuple.{with_voids, when_all_tuple_completed}
use ltl.WhenAll.{when_all_ready_tuple}
use ltl.WhenAll.Collect.{when_all_completed}
use ltl.WhenAll.Countdown.{awaited, complete_each, complete_each-counts, complete_each-waits}
use ltl.WhenAny.{when_any_ready}
use ltl.WhenAny.First.{when_any_ready_ignores_rest}
use ltl.Tests.Futures.{user, memory}

-- Two futures that `when_all_ready` waits for, and its promise.
abbrev two_awaited : Heap
two_awaited = record {
  states = awaited 0 2 none none ∷ awaited 0 2 none none ∷ new_state (some 5) ∷ [];
  counters = 2 ∷ [];
  resumed = [];
}

abbrev numbers : Heap
numbers = record {
  states = settled none (ok (num 3)) ∷ settled none (ok (num 4)) ∷ [];
  counters = [];
  resumed = [];
}

-- A tuple of futures: their values come in the order of the tuple.
when_all_tuple_values :
    bind (when_all_tuple user (run user 2) none (some 1 ∷ some 0 ∷ []) numbers) future_get
    ≡ ret (cons (num 4) (cons (num 3) nil)) (record numbers {
      states =
          settled none (ok (num 3))
          ∷ settled none (ok (num 4))
          ∷ settled none (ok unit)
          ∷ settled none (ok unit)
          ∷ settled none (ok unit)
          ∷ settled none (ok (cons (num 4) (cons (num 3) nil)))
          ∷ [];
      counters = 0 ∷ [];
    })
unfolding when_all_tuple run future_get FutureState.for_each
when_all_tuple_values = refl

-- The same, and the collection of the values by `when_all` waits for the promise.
abbrev collected_later : Heap
collected_later = record two_awaited {
  states =
      awaited 0 2 none none
      ∷ awaited 0 2 none none
      ∷ record (new_state (some 5)) {
        continuations = invoke_and_set 3 (collect (some 0 ∷ some 1 ∷ [])) ∷ [];
      }
      ∷ new_state none
      ∷ [];
}

complete_each-counts_example :
    complete_each (run user 2) ((1, ok (num 4)) ∷ (0, ok (num 3)) ∷ []) collected_later
    ≡ ret tt (record collected_later {
      states =
          settled none (ok (num 3))
          ∷ settled none (ok (num 4))
          ∷ settled (some 5) (ok unit)
          ∷ settled none (ok (cons (num 3) (cons (num 4) nil)))
          ∷ [];
      counters = 0 ∷ [];
    })
unfolding FutureState.for_each run
complete_each-counts_example =
    complete_each-counts user 1 0 2 ((0, ok (num 3)) ∷ []) (1, ok (num 4)) collected_later refl refl
      refl
      (
        (none, none, refl),
        ((λ e. ground (arith, e)), tt),
        (λ e. ground (arith, e)),
        ((none, none, refl), tt, (λ e. ground (arith, e)), tt),
      )

complete_each-waits_example :
    complete_each (run user 2) ((1, err (user_error 1)) ∷ []) two_awaited
    ≡ ret tt (record two_awaited {
      states = awaited 0 2 none none ∷ settled none (err (user_error 1)) ∷ new_state (some 5) ∷ [];
      counters = 1 ∷ [];
    })
complete_each-waits_example =
    complete_each-waits user 1 0 2 ((1, err (user_error 1)) ∷ []) 2 0 two_awaited refl refl
      ((none, none, refl), tt, (λ e. ground (arith, e)), tt)

when_all_ready-AllDone_example :
    when_all_ready user (run user 1) none (some 1 ∷ none ∷ some 2 ∷ []) memory
    ≡ ret
        (some 5)
        (record memory { states = memory.states ++ settled none (ok unit) ∷ []; counters = 0 ∷ [] })
when_all_ready-AllDone_example =
    when_all_ready-AllDone user (run user 1) none (some 1) (none ∷ some 2 ∷ []) memory
      ((settled none (ok (num 3)), refl), ((settled (some 5) (err (user_error 9)), refl), tt))
      (refl, (refl, (refl, tt)))

when_all_ready-some_pending_example :
    when_all_ready user (run user 1) none (some 1 ∷ some 0 ∷ none ∷ []) memory
    ≡ ret (some 5) (record memory {
      states =
          record (new_state (some 5)) { continuations = decrement 0 5 ∷ [] }
          ∷ settled none (ok (num 3))
          ∷ settled (some 5) (err (user_error 9))
          ∷ settled (some 5) (ok (fut (some 1)))
          ∷ new_state none
          ∷ new_state none
          ∷ [];
      counters = 1 ∷ [];
    })
when_all_ready-some_pending_example =
    when_all_ready-some_pending user (run user 1) none (some 1) (some 0 ∷ none ∷ []) 0 memory
      ((settled none (ok (num 3)), refl), ((new_state (some 5), refl), tt)) refl

when_all_completed_example :
    when_all user (run user 1) none (some 1 ∷ some 0 ∷ []) numbers
    ≡ ret (some 3) (record numbers {
      states =
          settled none (ok (num 3))
          ∷ settled none (ok (num 4))
          ∷ settled none (ok unit)
          ∷ settled none (ok (cons (num 4) (cons (num 3) nil)))
          ∷ [];
      counters = 0 ∷ [];
    })
when_all_completed_example =
    when_all_completed user (run user 1) none (some 1) (some 0 ∷ []) (ok (num 4) ∷ ok (num 3) ∷ [])
      numbers
      ((settled none (ok (num 4)), refl, refl), ((settled none (ok (num 3)), refl, refl), tt))

when_all_tuple_completed_example :
    (when_all_ready_tuple user (run user 1) none (some 1 ∷ some 0 ∷ []) numbers
      ≡ when_all_ready user (run user 1) none (some 1 ∷ some 0 ∷ []) (with_voids 2 numbers))
    × (when_all_tuple user (run user 1) none (some 1 ∷ some 0 ∷ []) numbers
        ≡ when_all user (run user 1) none (some 1 ∷ some 0 ∷ []) (with_voids 2 numbers))
when_all_tuple_completed_example =
    when_all_tuple_completed user (run user 1) none (some 1) (some 0 ∷ [])
      (ok (num 4) ∷ ok (num 3) ∷ []) numbers
      ((settled none (ok (num 4)), refl, refl), ((settled none (ok (num 3)), refl, refl), tt))

-- The second future is complete in one list, and pending in the other.
when_any_ready_ignores_rest_example :
    when_any_ready user (run user 1) none (some 0 ∷ some 1 ∷ []) memory
    ≡ when_any_ready user (run user 1) none (some 0 ∷ some 4 ∷ []) memory
when_any_ready_ignores_rest_example =
    when_any_ready_ignores_rest user (run user 1) none (some 0) (some 1 ∷ []) (some 4 ∷ []) memory
      refl
