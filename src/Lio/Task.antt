-- ===== src/Lio/Task.antt =====
-- The task of a job that makes a request, run by the loop.
-- Sources: lio/src/lio/iomanager.cpp, execute_impl of lio/include/lio/iomanager.hpp.
use ltl.Base.{
  ℕ, suc, ◌+◌, ◌≡◌, refl, ap, ◌∙◌, false, true, Option, none, some, [], ◌∷◌, ◌++◌, length,
  append_assoc, length-append,
}
use ltl.Heap.{fut, Val, Heap, ret, bind, give, ◌>>◌, new_state}
use ltl.FutureState
use ltl.Promise
use ltl.Run.{UserCode, run}
use ltl.IoManager.{execute}
use ltl.Lio.{Job, LoopTask, Lio}
use ltl.Lio.Loop.{run_job, run_task, run_tasks, on_async_new_task, async_new_task_cb}
use ltl.Lio.Request.{
  with_states, task_for, handed_over, called_states, request_states, set_value-request,
}

-- What is left of the manager when the tasks are drained.
abbrev pub drained : Lio → Lio
drained l = record l { manager = record l.manager { task_queue = []; signalled = false } }

module _ (env : UserCode) (n : ℕ) (reserve : ℕ → ℕ) where
  pub drain-one :
      (t : LoopTask) (l l' : Lio) (h h' : Heap)
      → l.manager.task_queue ≡ t ∷ []
      → run_task env (run env (suc n)) reserve t (drained l) h ≡ ret l' h'
      → l'.manager.task_queue ≡ []
      → async_new_task_cb env (run env (suc n)) 2 reserve l h ≡ ret l' h'
  unfolding async_new_task_cb on_async_new_task run_tasks
  drain-one t l l' h h' e q e' = rw (e, q) (simp e' refl)

  pub pushed_lem :
      (t : LoopTask) (l : Lio)
      → l.manager.task_queue ≡ []
      → (handed_over t l).manager.task_queue ≡ t ∷ []
  unfolding execute
  pushed_lem t l e = ap (λ ts. ts ++ t ∷ []) e

  pub drained-handed_over : (t : LoopTask) (l : Lio) → drained (handed_over t l) ≡ drained l
  unfolding execute
  drained-handed_over t l = refl

  pub run_task_lem :
      (t : LoopTask) (l : Lio) (h : Heap)
      → run_task env (run env (suc n)) reserve t l h
        ≡ bind
            (run_job env (run env (suc n)) reserve t.job l h)
            (λ vl. Promise.set_value (run env (suc n)) t.promise vl.0 >> give vl.1)
  unfolding run_task
  run_task_lem t l h = refl

  pub set_value-state :
      (p : ℕ) (v : Val) (h : Heap)
      → Promise.set_value (run env (suc n)) (record { state = some p; retrieved = true }) v h
        ≡ FutureState.set_value (run env (suc n)) p v h
  unfolding Promise.set_value
  set_value-state p v h = refl

  module _ (tq : Option ℕ) (h : Heap) (job : Job) where
    abbrev p : ℕ
    p = length h.states

    abbrev called : Heap
    called = with_states h (called_states env n tq h)

    -- The loop has no other task, and the job returns the future of a new state.
    pub run-request :
        (l l' : Lio)
        → l.manager.task_queue ≡ []
        → l'.manager.task_queue ≡ []
        → run_job env (run env (suc n)) reserve job (drained l) called
          ≡ ret
              (fut (some (length called.states)), l')
              (record called { states = called.states ++ new_state none ∷ [] })
        → async_new_task_cb env (run env (suc n)) 2 reserve (handed_over (task_for p job) l) called
          ≡ ret l' (with_states h (request_states env n tq h))
    run-request l l' e e' q =
        let t : LoopTask = task_for p job in
        drain-one t (handed_over t l) l' called (with_states h (request_states env n tq h))
          (pushed_lem t l e)
          (ap (λ (m : Lio). run_task env (run env (suc n)) reserve t m called)
              (drained-handed_over t l)
            ∙ rw
                (
                  run_task_lem t (drained l) called,
                  q,
                  length-append h.states (called_states env n tq h),
                  append_assoc h.states (called_states env n tq h) (new_state none ∷ []),
                  set_value-state p (fut (some (p + 3))),
                  set_value-request env n tq h,
                )
                refl)
          e'
