-- ===== src/Lio/Connect.antt =====
-- A connection, from the call on any thread to libuv's report.
-- Sources: lio/src/lio/iomanager.cpp, lio/include/lio/iomanager.hpp.
pub mod Established
use ltl.Base.{
  ℕ, suc, ◌+◌, ◌≡◌, refl, ap, ◌∙◌, Bool, false, true, Option, none, some, List, [], ◌∷◌, ◌++◌,
  get_elem?, set, length, arith, append_assoc, length-append, get_elem?-right, set-right,
  get_elem?-append_new,
}
use ltl.Heap.{fut, num, unit, Handle, Result, ok, State, Heap, ret, bind, M, give, ◌>>=◌, new_state}
use ltl.FutureState
use ltl.Promise
use ltl.Promise.{Promise}
use ltl.Run.{UserCode, run}
use ltl.Future.{settled, unwrap}
use ltl.Future.Order.{completed, unwatched}
use ltl.Future.Pending.{outer_asked, inner_asked, complete-inner_asked, complete-outer_asked}
use ltl.Future.Chained.{unwrap-asks, completed-inner_asked}
use ltl.Future.Unwrap.{complete-unwatched}
use ltl.Socket.{new_socket}
use ltl.Lio.{connect_for, LoopTask, Lio}
use ltl.Lio.Loop.{run_job, run_task, async_new_task_cb, connection_established}
use ltl.Lio.Calls.{connect}
use ltl.Lio.Request.{with_states, handed_over}
use ltl.Lio.Task.{
  drained, drain-one, pushed_lem, drained-handed_over, run_task_lem, set_value-state,
}

-- The connection request, with the promise on state `q`.
abbrev pub with_connection : ℕ → Lio → Lio
with_connection q l = record l {
  connections = l.connections ++ record { state = some q; retrieved = true } ∷ [];
}

module _ (env : UserCode) (n : ℕ) (reserve : ℕ → ℕ) (tq : Option ℕ) (h : Heap) where
  abbrev p : ℕ
  p = length h.states

  -- The promise of `connect`, that of its task, the future that the caller gets, and that of `then`.
  abbrev pub called_states : List State
  called_states =
      outer_asked (p + 2) (suc (p + 2)) p tq none
      ∷ new_state tq
      ∷ new_state tq
      ∷ new_state none
      ∷ []

  abbrev pub task : LoopTask
  task = record {
    promise = record { state = some (p + 1); retrieved = true };
    job = connect_for (record { state = some p; retrieved = false });
  }

  new_length : length (h.states ++ new_state tq ∷ []) ≡ p + 1
  new_length = length-append h.states (new_state tq ∷ [])

  connect_lem :
      (l : Lio)
      → connect env (run env (suc n)) tq l h
        ≡ bind
            (unwrap env
              (run env (suc n))
              (some p)
              (with_states h (new_state tq ∷ new_state tq ∷ [])))
            (λ f. give (f, handed_over task l))
  unfolding connect
  connect_lem l =
      rw (new_length, append_assoc h.states (new_state tq ∷ []) (new_state tq ∷ [])) refl

  pub connect-asks :
      (l : Lio)
      → connect env (run env (suc n)) tq l h
        ≡ ret (some (p + 2), handed_over task l) (with_states h called_states)
  connect-asks l =
      rw
        (
          connect_lem l,
          unwrap-asks env n p 0 (with_states h promised) tq tq none none
              (get_elem?-right h.states promised 0 p (omega arith)),
          length-append h.states promised,
          set-right h.states promised 0 p (outer_asked (p + 2) (suc (p + 2)) p tq none)
              (omega arith),
        )
        (ap (λ xs. ret (some (p + 2), handed_over task l) (record h { states = xs }))
          (append_assoc (h.states ++ asked) (new_state tq ∷ []) (new_state none ∷ [])
            ∙ append_assoc h.states asked (new_state tq ∷ new_state none ∷ [])))
    where
      promised : List State
      promised = new_state tq ∷ new_state tq ∷ []

      asked : List State
      asked = outer_asked (p + 2) (suc (p + 2)) p tq none ∷ new_state tq ∷ []

  -- The states after the loop has asked libuv for a connection.
  abbrev asked_states : List State
  asked_states =
      outer_asked (p + 2) (suc (p + 2)) p tq none
      ∷ new_state tq
      ∷ new_state tq
      ∷ new_state none
      ∷ new_state none
      ∷ []

  abbrev passed_states : List State
  passed_states =
      completed (unwatched tq none) (ok (fut (some (p + 4))))
      ∷ new_state tq
      ∷ new_state tq
      ∷ settled none (ok unit)
      ∷ inner_asked (p + 2) (p + 4) none none
      ∷ []

  set_value-passed :
      FutureState.set_value (run env (suc n)) p (fut (some (p + 4))) (with_states h asked_states)
      ≡ ret tt (with_states h passed_states)
  set_value-passed =
      complete-outer_asked env n (p + 2) (suc (p + 2)) p (p + 4) (with_states h asked_states) tq
        none none none none (get_elem?-right h.states asked_states 0 p (omega arith))
        (get_elem?-right h.states asked_states 4 (p + 4) refl)
        (get_elem?-right h.states asked_states 3 (suc (p + 2)) (omega arith))
        (λ e. omega (arith, e)) (λ e. omega (arith, e)) (λ e. omega (arith, e))
      ∙ ap (λ xs. ret tt (record h { states = xs })) sets
    where
      done : State
      done = completed (unwatched tq none) (ok (fut (some (p + 4))))

      sets :
          set
            (set
              (set (h.states ++ asked_states) p done)
              (p + 4)
              (inner_asked (p + 2) (p + 4) none none))
            (suc (p + 2))
            (settled none (ok unit))
          ≡ h.states ++ passed_states
      sets =
          rw
            (
              set-right h.states asked_states 0 p done (omega arith),
              set-right h.states (set asked_states 0 done) 4 (p + 4)
                  (inner_asked (p + 2) (p + 4) none none) refl,
              set-right h.states
                  (set (set asked_states 0 done) 4 (inner_asked (p + 2) (p + 4) none none)) 3
                  (suc (p + 2)) (settled none (ok unit)) (omega arith),
            )
            refl

  -- The task is done, too.
  abbrev pub run_states : List State
  run_states = set passed_states 1 (settled tq (ok unit))

  set_value-run :
      FutureState.set_value (run env (suc n)) (p + 1) unit (with_states h passed_states)
      ≡ ret tt (with_states h run_states)
  set_value-run =
      complete-unwatched (run env (suc n)) (p + 1) (ok unit) (with_states h passed_states) tq
        (get_elem?-right h.states passed_states 1 (p + 1) refl)
      ∙ ap (λ xs. ret tt (record h { states = xs }))
          (set-right h.states passed_states 1 (p + 1) (settled tq (ok unit)) refl)

  run_job-connect :
      (l : Lio)
      → run_job env (run env (suc n)) reserve task.job l (with_states h called_states)
        ≡ ret (unit, with_connection (p + 4) l) (with_states h passed_states)
  unfolding run_job Promise.set_value
  run_job-connect l =
      rw
        (
          length-append h.states called_states,
          append_assoc h.states called_states (new_state none ∷ []),
          set_value-passed,
        )
        refl

  pub run-connect :
      (l : Lio)
      → l.manager.task_queue ≡ []
      → async_new_task_cb env
          (run env (suc n))
          2
          reserve
          (handed_over task l)
          (with_states h called_states)
        ≡ ret (with_connection (p + 4) (drained l)) (with_states h run_states)
  run-connect l e =
      drain-one env n reserve task (handed_over task l) (with_connection (p + 4) (drained l))
        (with_states h called_states) (with_states h run_states) (pushed_lem env n reserve task l e)
        (ap
            (λ (m : Lio).
              run_task env (run env (suc n)) reserve task m (with_states h called_states))
            (drained-handed_over env n reserve task l)
          ∙ rw
              (
                run_task_lem env n reserve task (drained l),
                run_job-connect (drained l),
                set_value-state env n reserve (p + 1) unit,
                set_value-run,
              )
              refl)
        refl
