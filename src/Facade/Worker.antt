-- ===== src/Facade/Worker.antt =====
-- The rounds of the worker's loop with the calls of the task objects.
-- Sources: ltl/src/ltl/task_queue_impl.cpp, ltl/include/ltl/task_queue.hpp.
pub mod Pushes
pub mod InOrder
use ltl.Base.{ℕ, zero, suc, Option, none, some, List, [], ◌∷◌, if◌then◌else◌}
use ltl.Heap.{Handle, Val, Thunk, M, ◌>>=◌, ◌>>◌, give}
use ltl.Run.{UserCode}
use ltl.TaskQueue.{
  SchedulingPolicy, resumable, non_resumable, Task, user, resume_of, WorkItem, TaskQueue,
  join_possible, looks, ends, step,
}
use ltl.TaskQueue
use ltl.Facade.{Facade, push_pack_impl, perform}

abbrev pub act_on : (TaskQueue → TaskQueue) → Facade → Facade
act_on f q = record q { queue = f q.queue }

module _ (env : UserCode) (run : Thunk → M (Unit {0})) where
  -- What the worker does with the item that it takes, if it takes one: it calls the object of a
  -- user's task, which here comes to its end without `await`. It switches to the context of a task
  -- that is resumed.
  abbrev call_item : Option Task → Facade → M Facade
  call_item (some (user n)) q = do
    perform env run n q
    give (act_on (step ends) (act_on (step looks) q))
  call_item t q = give (act_on (step looks) q)

  abbrev round_with : List WorkItem → Facade → M Facade
  round_with [] q = give (act_on (step looks) q)
  round_with (item ∷ rest) q = call_item item.task q

  unfoldable pub round : Facade → M Facade
  unfolding perform join_possible step
  round q =
      if join_possible q.queue then give (act_on (step looks) q) else round_with q.queue.queue q

  unfoldable pub rounds : ℕ → Facade → M Facade
  unfolding round
  rounds zero q = give q
  rounds (suc n) q = do q' ← round q; rounds n q'

-- A task, by which call it is pushed, and what it returns.
pub record Entry : Type 0 where
  pub policy : SchedulingPolicy
  pub task : ℕ
  pub value : Val

abbrev pub push_by : SchedulingPolicy → Task → TaskQueue → TaskQueue
push_by resumable = TaskQueue.push_back_resumable
push_by non_resumable = TaskQueue.push_back

-- The pushes of one thread, one after the other.
unfoldable pub push_all : Option ℕ → List Entry → Facade → M (List Handle × Facade)
unfolding push_pack_impl
push_all tq [] q = give ([], q)
push_all tq (e ∷ es) q = do
  fq ← push_pack_impl (push_by e.policy) tq e.task q
  gq ← push_all tq es fq.1
  give (fq.0 ∷ gq.0, gq.1)
