-- ===== src/TaskQueue.antt =====
-- `task_queue_impl::impl`, its worker thread, and the task contexts that the worker switches to.
-- Sources: ltl/src/ltl/task_queue_impl.cpp, ltl/src/ltl/task_context.cpp.
pub mod Invariant
pub mod Contexts
pub mod Current
pub mod Join
pub mod Fifo
use ltl.Base.{
  ℕ, zero, suc, ◌+◌, ◌-◌, ◌==◌, Bool, true, false, ◌&&◌, ◌||◌, Option, none, some, List, [], ◌∷◌,
  ◌++◌, length, if◌then◌else◌,
}

pub data SchedulingPolicy : Type 0 where
  resumable non_resumable : SchedulingPolicy

-- A `std::function<void()>`: user code, or the `ctx->resume()` that `await` pushes.
pub data Task : Type 0 where
  user : ℕ → Task
  resume_of : (ctx : ℕ) → Task

-- std::pair<task, scheduling_policy>; the task may be an empty function.
pub record WorkItem : Type 0 where
  pub task : Option Task
  pub policy : SchedulingPolicy

-- Where the worker thread stands: blocked in `cv_.wait`, about to test the condition of that wait,
-- in a task on its own stack, in the task of a context, past its loop, or in undefined behaviour.
pub data Worker : Type 0 where
  waiting scanning in_plain : Worker
  in_context : (ctx : ℕ) → Worker
  exited broken : Worker

-- `suspended` lists the contexts that have yielded inside their task; `made` counts the contexts
-- created, which are named by their number. The back of `free_task_contexts_` is the list's head.
pub record TaskQueue : Type 0 where
  pub join_asked : Bool
  pub queue : List WorkItem
  pub free_task_contexts : List ℕ
  pub in_progress_count : ℕ
  pub joinable : Bool
  pub worker : Worker
  pub suspended : List ℕ
  pub made : ℕ

-- The constructor: the thread has started and is about to look at the queue.
abbrev pub new_task_queue : TaskQueue
new_task_queue = record {
  join_asked = false;
  queue = [];
  free_task_contexts = [];
  in_progress_count = 0;
  joinable = true;
  worker = scanning;
  suspended = [];
  made = 0;
}

unfoldable pub join_possible : TaskQueue → Bool
join_possible q = q.join_asked && q.in_progress_count == 0

-- cv_.notify_one(): one thread at most waits.
abbrev pub woken : Worker → Worker
woken waiting = scanning
woken w = w

unfoldable pub notify_one : TaskQueue → TaskQueue
notify_one q = record q { worker = woken q.worker }

abbrev notify_if_single : TaskQueue → TaskQueue
notify_if_single q = if length q.queue == 1 then notify_one q else q

unfoldable pub push_item_back : WorkItem → TaskQueue → TaskQueue
unfolding notify_one
push_item_back item q = notify_if_single (record q { queue = q.queue ++ item ∷ [] })

unfoldable pub push_back_resumable : Task → TaskQueue → TaskQueue
unfolding push_item_back
push_back_resumable t q = push_item_back (record { task = some t; policy = resumable }) q

unfoldable pub push_back : Task → TaskQueue → TaskQueue
unfolding push_item_back
push_back t q = push_item_back (record { task = some t; policy = non_resumable }) q

unfoldable pub push_front : Task → TaskQueue → TaskQueue
unfolding notify_one
push_front t q =
    notify_if_single
      (record q { queue = record { task = some t; policy = non_resumable } ∷ q.queue })

-- `join` up to `thread_.join()`.
unfoldable pub join_begin : TaskQueue → TaskQueue
unfolding notify_one
join_begin q = if q.joinable then notify_one (record q { queue = []; join_asked = true }) else q

-- task_context::resume: the context must be one that has yielded.
abbrev pub taken_out : ℕ → List ℕ → Option (List ℕ)
taken_out c [] = none
taken_out c (x ∷ xs) =
    if x == c then some xs else elim (taken_out c xs) [ none ↦ none | some ys ↦ some (x ∷ ys) ]

unfoldable pub resume : ℕ → TaskQueue → TaskQueue
resume c q = elim (taken_out c q.suspended) [
  | none ↦ record q { worker = broken }
  | some rest ↦ record q { suspended = rest; worker = in_context c }
]

-- run_in_new_context: a free context, the last one freed, or a new one.
unfoldable pub run_in_new_context : TaskQueue → TaskQueue
run_in_new_context q = elim q.free_task_contexts [
  | [] ↦ record q {
    made = q.made + 1;
    in_progress_count = q.in_progress_count + 1;
    worker = in_context q.made;
  }
  | c ∷ rest ↦ record q {
    free_task_contexts = rest;
    in_progress_count = q.in_progress_count + 1;
    worker = in_context c;
  }
]

-- What the worker does with the item that it took; an empty function is passed over.
abbrev pub start_with : Option Task → SchedulingPolicy → TaskQueue → TaskQueue
start_with none p q = record q { worker = scanning }
start_with (some t) resumable q = run_in_new_context q
start_with (some (user g)) non_resumable q = record q { worker = in_plain }
start_with (some (resume_of c)) non_resumable q = resume c q

unfoldable pub start : WorkItem → TaskQueue → TaskQueue
unfolding run_in_new_context resume
start item q = start_with item.task item.policy q

abbrev pub take_front : List WorkItem → TaskQueue → TaskQueue
take_front [] q = record q { worker = waiting }
take_front (item ∷ rest) q = start item (record q { queue = rest })

-- The locked head of the loop: the wait's condition, the test for the end, the front of the queue;
-- and what follows the loop, the clearing of the free contexts.
unfoldable pub look : TaskQueue → TaskQueue
unfolding join_possible start
look q =
    if join_possible q
    then record q { free_task_contexts = []; worker = exited }
    else take_front q.queue q

-- task_context::yield, called by the task in `c`.
unfoldable pub yield_ : ℕ → TaskQueue → TaskQueue
yield_ c q = record q { suspended = c ∷ q.suspended; worker = scanning }

-- The end of a task: `task_complete`, then the `yield` at the end of task_context::run.
unfoldable pub task_complete : ℕ → TaskQueue → TaskQueue
unfolding notify_one
task_complete c q =
    let q' : TaskQueue = record q {
      in_progress_count = q.in_progress_count - 1;
      free_task_contexts = c ∷ q.free_task_contexts;
      worker = scanning;
    } in
    if q'.in_progress_count == 0 && q'.join_asked then notify_one q' else q'

-- What the threads of the program may do. `joins` is the part of `join` before thread_.join();
-- `join_ends` is the return of thread_.join(), after which the thread is not joinable: it can only
-- happen when the worker has exited. `wakes` is a spurious wakeup; `yields`, `ends` are the acts of
-- the task that runs.
pub data Event : Type 0 where
  pushes_back_resumable pushes_back pushes_front : Task → Event
  joins join_ends looks wakes yields ends : Event

abbrev pub act : Worker → Event → TaskQueue → TaskQueue
act scanning looks q = look q
act waiting wakes q = record q { worker = scanning }
act (in_context c) yields q = yield_ c q
act (in_context c) ends q = task_complete c q
act in_plain ends q = record q { worker = scanning }
act exited join_ends q = record q { joinable = false }
act w e q = q

-- An event that its thread cannot do in this state changes nothing.
unfoldable pub step : Event → TaskQueue → TaskQueue
unfolding look yield_ task_complete push_back_resumable push_back push_front join_begin
step (pushes_back_resumable t) q = push_back_resumable t q
step (pushes_back t) q = push_back t q
step (pushes_front t) q = push_front t q
step joins q = join_begin q
step e q = act q.worker e q

unfoldable pub run : List Event → TaskQueue → TaskQueue
run [] q = q
run (e ∷ es) q = run es (step e q)
