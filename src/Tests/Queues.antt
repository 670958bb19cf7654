-- ===== src/Tests/Queues.antt =====
-- Runs of a task queue.
-- Sources: ltl/src/ltl/task_queue_impl.cpp, ltl/src/ltl/task_context.cpp.
use ltl.Base.{ℕ, ◌⊎◌, Option, none, ◌+◌, ◌≡◌, ◌≢◌, refl, inr, some, List, [], ◌∷◌, ◌++◌, arith}
use ltl.Facade.{
  Facade, new_facade, forgotten, pushed_object, push_pack_impl, perform, async,
  push_back_and_forget,
}
use ltl.Facade.Worker.{Entry}
use ltl.Facade.Worker.Pushes.{IsReady}
use ltl.Facade.Worker.InOrder.{push_then_work, tasks_complete_in_order}
use ltl.Facade.Results.{object_of, push_pack_impl-perform}
use ltl.Future.{settled}
use ltl.Heap.{State, push_resume, M, Handle, unit, num, ok, new_state, ret, give, ◌>>=◌}
use ltl.Run
use ltl.Run.{UserCode}
use ltl.TaskQueue
use ltl.TaskQueue.{
  in_plain, in_context, broken, WorkItem, step, resumable, non_resumable, user, resume_of, waiting,
  exited, TaskQueue, new_task_queue, Event, pushes_back_resumable, pushes_back, pushes_front, joins,
  looks, wakes, yields, ends, run, join_begin,
}
use ltl.TaskQueue.Contexts.{times, held, context_in_one_place}
use ltl.TaskQueue.Current.{run_with, context_of, run_with-context_of}
use ltl.TaskQueue.Invariant.{IsValid, new_task_queue-IsValid, run-IsValid}
use ltl.TaskQueue.Fifo.{taken_all, run_fifo}
use ltl.TaskQueue.Join.{join_hangs}

-- A task begins in a context, suspends itself, another one runs, and the first is resumed and ends.
abbrev await_and_resume : List Event
await_and_resume =
    pushes_back_resumable (user 1)
    ∷ looks
    ∷ yields
    ∷ pushes_back (user 2)
    ∷ looks
    ∷ ends
    ∷ pushes_front (resume_of 0)
    ∷ looks
    ∷ ends
    ∷ looks
    ∷ []

run-await_and_resume :
    run await_and_resume new_task_queue
    ≡ record new_task_queue { worker = waiting; free_task_contexts = 0 ∷ []; made = 1 }
unfolding run step
run-await_and_resume = refl

run-IsValid_example : IsValid (run await_and_resume new_task_queue)
run-IsValid_example = run-IsValid await_and_resume new_task_queue new_task_queue-IsValid

abbrev three_tasks : List Event
three_tasks =
    pushes_back (user 1)
    ∷ looks
    ∷ pushes_back_resumable (user 2)
    ∷ pushes_back (user 3)
    ∷ ends
    ∷ looks
    ∷ []

run_fifo_example :
    taken_all three_tasks new_task_queue ++ (run three_tasks new_task_queue).queue
    ≡ record { task = some (user 1); policy = non_resumable }
      ∷ record { task = some (user 2); policy = resumable }
      ∷ record { task = some (user 3); policy = non_resumable }
      ∷ []
run_fifo_example =
    run_fifo three_tasks new_task_queue (refl, (refl, (refl, (refl, (refl, (refl, tt))))))

-- The resumption of context 0 is queued, when the queue is joined.
abbrev about_to_resume : TaskQueue
about_to_resume = record new_task_queue {
  queue = record { task = some (resume_of 0); policy = non_resumable } ∷ [];
  in_progress_count = 1;
  suspended = 0 ∷ [];
  made = 1;
}

join_hangs_example :
    ((run (looks ∷ wakes ∷ looks ∷ []) (join_begin about_to_resume)).suspended ≡ 0 ∷ [])
    × ((run (looks ∷ wakes ∷ looks ∷ []) (join_begin about_to_resume)).worker ≢ exited)
join_hangs_example =
    join_hangs about_to_resume (looks ∷ wakes ∷ looks ∷ []) refl (inr refl) (omega arith)
      (refl, (refl, (refl, tt)))

-- The task is called after another push, when the worker is already in it.
abbrev task_returns : UserCode
task_returns = record { call = λ g v. ok (num g); watch = λ g o. ok unit }

-- The state of the task, which context 3 awaits in a task of queue 5.
abbrev awaited_state : State
awaited_state = record (new_state (some 5)) { continuations = push_resume 0 3 ∷ [] }

push_pack_impl-perform_example :
    let q' : Facade = pushed_object TaskQueue.push_back (object_of 0 7) new_facade in
    (push_pack_impl TaskQueue.push_back
        (some 5)
        7
        new_facade
        (record { states = []; counters = []; resumed = [] })
      ≡ ret (some 0, q') (record { states = new_state (some 5) ∷ []; counters = []; resumed = [] }))
    × (perform task_returns
          (Run.run task_returns 1)
          0
          (record {
            queue = record new_task_queue { worker = in_plain };
            objects = q'.objects ++ forgotten 3 ∷ [];
          })
          (record { states = awaited_state ∷ new_state (some 5) ∷ []; counters = []; resumed = [] })
        ≡ ret tt (record {
          states = settled (some 5) (ok (num 7)) ∷ new_state (some 5) ∷ [];
          counters = [];
          resumed = (5, 3) ∷ [];
        }))
unfolding ltl.FutureState.for_each Run.run
push_pack_impl-perform_example =
    push_pack_impl-perform task_returns (Run.run task_returns 1) TaskQueue.push_back (some 5) 7
      (ok (num 7)) new_facade (record { states = []; counters = []; resumed = [] })
      (record new_task_queue { worker = in_plain }) (forgotten 3 ∷ [])
      (record { states = awaited_state ∷ new_state (some 5) ∷ []; counters = []; resumed = [] })
      awaited_state refl refl refl

-- One task of either policy.
abbrev entries : List Entry
entries =
    record { policy = resumable; task = 7; value = num 7 }
    ∷ record { policy = non_resumable; task = 3; value = num 3 }
    ∷ []

tasks_complete_in_order_example :
    (q' : Facade) × (push_then_work task_returns
        (λ t. give tt)
        none
        entries
        new_facade
        (record { states = []; counters = []; resumed = [] })
      ≡ ret
          (some 0 ∷ some 1 ∷ [], q')
          (record {
            states = settled none (ok (num 7)) ∷ settled none (ok (num 3)) ∷ [];
            counters = [];
            resumed = [];
          }))
    × IsReady [] q'.queue
tasks_complete_in_order_example =
    tasks_complete_in_order task_returns (λ t. give tt) none entries new_facade
      (record { states = []; counters = []; resumed = [] }) (refl, (refl, tt))
      (record { holds = refl; looking = refl; not_joined = refl })

-- Two calls of `async` share a queue, and a function that is pushed to be forgotten stands behind.
unfoldable twice : M (Handle × (Handle × List WorkItem))
unfolding async push_back_and_forget
twice = do
  p ← async none 1 none
  p' ← async none 2 (some p.1)
  give (p.0, (p'.0, (push_back_and_forget 3 p'.1).queue.queue))

twice_lem :
    twice (record { states = []; counters = []; resumed = [] })
    ≡ ret
        (
          some 0,
          (
            some 1,
            record { task = some (user 0); policy = resumable }
                ∷ record { task = some (user 1); policy = resumable }
                ∷ record { task = some (user 2); policy = non_resumable }
                ∷ [],
          ),
        )
        (record { states = new_state none ∷ new_state none ∷ []; counters = []; resumed = [] })
unfolding twice async push_back_and_forget TaskQueue.push_back_resumable
twice_lem = refl

-- Task 0 yields, and task 1 runs in a second context.
abbrev two_tasks : List Event
two_tasks =
    pushes_back_resumable (user 0) ∷ pushes_back_resumable (user 1) ∷ looks ∷ yields ∷ looks ∷ []

abbrev after_two : TaskQueue
after_two = record new_task_queue {
  worker = in_context 1;
  in_progress_count = 2;
  suspended = 0 ∷ [];
  made = 2;
}

context_in_one_place_example :
    times 1 after_two.free_task_contexts + times 1 after_two.suspended + held 1 after_two.worker ≡ 1
unfolding run step
context_in_one_place_example = context_in_one_place two_tasks 1 refl

-- The second task runs, and yields in turn.
run_with-context_of_example :
    let es : List Event = two_tasks ++ yields ∷ [] in
    (value : Option ℕ) × (run_with es new_task_queue none ≡ some (run es new_task_queue, value))
    × (((run es new_task_queue).worker ≡ broken)
        ⊎ (value ≡ context_of (run es new_task_queue).worker))
run_with-context_of_example = run_with-context_of (two_tasks ++ yields ∷ [])
