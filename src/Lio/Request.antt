-- ===== src/Lio/Request.antt =====
-- `execute(job).unwrap()`, for a job that hands out the future of a new request.
-- Sources: execute_impl of lio/include/lio/iomanager.hpp, lio/src/lio/socket.cpp,
-- detail::unwrap of ltl/include/ltl/future.hpp.
use ltl.Base.{
  ℕ, suc, ◌+◌, ◌≡◌, refl, ap, ◌∙◌, true, Option, none, some, List, [], ◌∷◌, ◌++◌, set, length,
  arith, append_assoc, length-append, set-append_new, get_elem?-append_new, get_elem?-right,
  set-right, two,
}
use ltl.Heap.{fut, unit, Result, ok, State, Heap, ret, bind, give, new_state}
use ltl.FutureState
use ltl.Run.{UserCode, run}
use ltl.Future.{settled, unwrap}
use ltl.Future.Then.{extend}
use ltl.Future.Order.{complete, completed, unwatched}
use ltl.Future.Pending.{outer_asked, inner_asked, complete-inner_asked, complete-outer_asked}
use ltl.Future.Chained.{unwrap-asks, completed-inner_asked}
use ltl.IoManager.{execute}
use ltl.Lio.{Job, LoopTask, Lio}
use ltl.Lio.Calls.{execute_unwrap}

abbrev pub with_states : Heap → List State → Heap
with_states h new = record h { states = h.states ++ new }

-- The task for a job, with the promise of state `p`.
abbrev pub task_for : ℕ → Job → LoopTask
task_for p job = record { promise = record { state = some p; retrieved = true }; job = job }

abbrev pub handed_over : LoopTask → Lio → Lio
handed_over t l = record l { manager = execute t l.manager }

module _ (env : UserCode) (n : ℕ) (tq : Option ℕ) (h : Heap) where
  abbrev p : ℕ
  p = length h.states

  -- The promise of the task, the future that the caller gets, and the one of `then`.
  abbrev pub called_states : List State
  called_states = outer_asked (p + 1) (suc (p + 1)) p tq none ∷ new_state tq ∷ new_state none ∷ []

  execute_unwrap_lem :
      (job : Job) (l : Lio)
      → execute_unwrap env (run env (suc n)) tq job l h
        ≡ bind
            (unwrap env (run env (suc n)) (some p) (extend h (new_state tq)))
            (λ f. give (f, handed_over (task_for p job) l))
  unfolding execute_unwrap
  execute_unwrap_lem job l = refl

  pub execute_unwrap-asks :
      (job : Job) (l : Lio)
      → execute_unwrap env (run env (suc n)) tq job l h
        ≡ ret (some (p + 1), handed_over (task_for p job) l) (with_states h called_states)
  execute_unwrap-asks job l =
      rw
        (
          execute_unwrap_lem job l,
          unwrap-asks env n p 0 (extend h (new_state tq)) tq tq none none
              (get_elem?-append_new h.states (new_state tq)),
          new_length,
          set-append_new h.states (new_state tq) (outer_asked (p + 1) (suc (p + 1)) p tq none),
        )
        (ap (λ xs. ret (some (p + 1), handed_over (task_for p job) l) (record h { states = xs }))
          flat)
    where
      new_length : length (h.states ++ new_state tq ∷ []) ≡ p + 1
      new_length = length-append h.states (new_state tq ∷ [])

      flat :
          two
            (h.states ++ outer_asked (p + 1) (suc (p + 1)) p tq none ∷ [])
            (new_state tq)
            (new_state none)
          ≡ h.states ++ called_states
      flat =
          append_assoc (h.states ++ outer_asked (p + 1) (suc (p + 1)) p tq none ∷ [])
            (new_state tq ∷ []) (new_state none ∷ [])
          ∙ append_assoc h.states (outer_asked (p + 1) (suc (p + 1)) p tq none ∷ [])
              (new_state tq ∷ new_state none ∷ [])

  -- The states after the task has made a request.
  abbrev pub asked_states : List State
  asked_states =
      outer_asked (p + 1) (suc (p + 1)) p tq none
      ∷ new_state tq
      ∷ new_state none
      ∷ new_state none
      ∷ []

  abbrev pub request_states : List State
  request_states =
      completed (unwatched tq none) (ok (fut (some (p + 3))))
      ∷ new_state tq
      ∷ settled none (ok unit)
      ∷ inner_asked (p + 1) (p + 3) none none
      ∷ []

  -- The promise of the task gets the future of the request.
  pub set_value-request :
      FutureState.set_value (run env (suc n)) p (fut (some (p + 3))) (with_states h asked_states)
      ≡ ret tt (with_states h request_states)
  set_value-request =
      complete-outer_asked env n (p + 1) (suc (p + 1)) p (p + 3) (with_states h asked_states) tq
        none none none none (get_elem?-right h.states asked_states 0 p (omega arith))
        (get_elem?-right h.states asked_states 3 (p + 3) refl)
        (get_elem?-right h.states asked_states 2 (suc (p + 1)) (omega arith))
        (λ e. omega (arith, e)) (λ e. omega (arith, e)) (λ e. omega (arith, e))
      ∙ ap (λ xs. ret tt (record h { states = xs })) sets
    where
      done : State
      done = completed (unwatched tq none) (ok (fut (some (p + 3))))

      sets :
          set
            (set
              (set (h.states ++ asked_states) p done)
              (p + 3)
              (inner_asked (p + 1) (p + 3) none none))
            (suc (p + 1))
            (settled none (ok unit))
          ≡ h.states ++ request_states
      sets =
          rw
            (
              set-right h.states asked_states 0 p done (omega arith),
              set-right h.states (set asked_states 0 done) 3 (p + 3)
                  (inner_asked (p + 1) (p + 3) none none) refl,
              set-right h.states
                  (set (set asked_states 0 done) 3 (inner_asked (p + 1) (p + 3) none none)) 2
                  (suc (p + 1)) (settled none (ok unit)) (omega arith),
            )
            refl

  abbrev pub answered_states : Result → List State
  answered_states r =
      completed (unwatched tq none) (ok (fut (some (p + 3))))
      ∷ settled tq r
      ∷ settled none (ok unit)
      ∷ completed (unwatched none none) r
      ∷ []

  -- The request comes to `r`, and so does the caller's future.
  pub complete-request :
      (r : Result)
      → complete (run env (suc n)) (p + 3) r (with_states h request_states)
        ≡ ret tt (with_states h (answered_states r))
  complete-request r =
      complete-inner_asked env n (p + 1) (p + 3) r (with_states h request_states) none tq none
        (get_elem?-right h.states request_states 3 (p + 3) refl)
        (get_elem?-right h.states request_states 1 (p + 1) refl) (λ e. omega (arith, e))
      ∙ ap (λ xs. ret tt (record h { states = xs }))
          (rw
            (
              completed-inner_asked (p + 1) (p + 3) none none r,
              set-right h.states request_states 3 (p + 3) (completed (unwatched none none) r) refl,
              set-right h.states (set request_states 3 (completed (unwatched none none) r)) 1
                  (p + 1) (settled tq r) refl,
            )
            refl)
