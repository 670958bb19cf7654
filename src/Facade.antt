-- ===== src/Facade.antt =====
-- `task_queue`, and `async`: a task queue with the task objects behind its items.
-- Sources: ltl/include/ltl/task_queue.hpp, async of ltl/include/ltl/future.hpp,
-- ltl/src/ltl/future.cpp.
pub mod Results
pub mod Worker
use ltl.Base.{ℕ, Option, none, some, List, [], ◌∷◌, ◌++◌, length, get_elem?}
use ltl.Heap.{Handle, unit, Thunk, null_pointer, M, ◌>>=◌, ◌>>◌, give, stop, lift}
use ltl.Run.{UserCode}
use ltl.Promise.{WrappedFunction, new_wrapped_function, get_future, call}
use ltl.TaskQueue.{Task, user, TaskQueue, new_task_queue}
use ltl.TaskQueue

-- What a std::function<void()> pushed by a user holds: a task object with a promise, or a function.
pub data TaskObject : Type 0 where
  wrapped : WrappedFunction → TaskObject
  forgotten : (g : ℕ) → TaskObject

-- The item `user n` of the queue holds the object at place `n` of `objects`.
pub record Facade : Type 0 where
  pub queue : TaskQueue
  pub objects : List TaskObject

abbrev pub new_facade : Facade
new_facade = record { queue = new_task_queue; objects = [] }

-- The queue after `push` of a new object.
abbrev pub pushed_object : (Task → TaskQueue → TaskQueue) → TaskObject → Facade → Facade
pushed_object push o q = record q {
  queue = push (user (length q.objects)) q.queue;
  objects = q.objects ++ o ∷ [];
}

-- `tq` is the queue of the task that calls, if a task calls. The promise is shared by the object in
-- the queue and this call, so the object sees that its future was retrieved.
unfoldable pub push_pack_impl :
    (Task → TaskQueue → TaskQueue) → Option ℕ → ℕ → Facade → M (Handle × Facade)
unfolding new_wrapped_function get_future
push_pack_impl push tq task q = do
  wf ← new_wrapped_function tq task
  fp ← get_future wf.promise
  give (fp.0, pushed_object push (wrapped (record wf { promise = fp.1 })) q)

unfoldable pub push_back_resumable : Option ℕ → ℕ → Facade → M (Handle × Facade)
unfolding push_pack_impl
push_back_resumable tq task q = push_pack_impl TaskQueue.push_back_resumable tq task q

unfoldable pub push_back : Option ℕ → ℕ → Facade → M (Handle × Facade)
unfolding push_pack_impl
push_back tq task q = push_pack_impl TaskQueue.push_back tq task q

unfoldable pub push_back_and_forget : ℕ → Facade → Facade
unfolding TaskQueue.push_back
push_back_and_forget g q = pushed_object TaskQueue.push_back (forgotten g) q

-- The queue of `async`, made by the first call.
unfoldable get_async_task_queue : Option Facade → Facade
get_async_task_queue none = new_facade
get_async_task_queue (some q) = q

-- The future, and the queue as it is kept for the next call.
unfoldable pub async : Option ℕ → ℕ → Option Facade → M (Handle × Facade)
unfolding push_back_resumable get_async_task_queue
async tq task instance_ = push_back_resumable tq task (get_async_task_queue instance_)

-- The worker calls the function in an item.
module _ (env : UserCode) (run : Thunk → M (Unit {0})) where
  unfoldable call_object : Option TaskObject → M (Unit {0})
  unfolding call
  call_object none = stop null_pointer
  call_object (some (wrapped wf)) = call env run wf
  call_object (some (forgotten g)) = do v ← lift (env.call g unit); give tt

  unfoldable pub perform : ℕ → Facade → M (Unit {0})
  unfolding call_object
  perform n q = call_object (get_elem? q.objects n)
