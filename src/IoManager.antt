-- ===== src/IoManager.antt =====
-- `iomanager::impl`: the queue of tasks that other threads hand to the thread of the libuv loop; and
-- `server::impl`, with the callbacks for connections.
-- Sources: lio/src/lio/iomanager.cpp, lio/src/lio/server.cpp.
pub mod Drain
pub mod Server
pub mod Thread
use ltl.Base.{
  ℕ, zero, suc, Bool, true, false, Option, none, some, List, [], ◌∷◌, ◌++◌, if◌then◌else◌,
}

-- `signalled` is libuv's: whether `uv_async_send` was called since the last `async_new_task_cb`;
-- `joinable` is `thread_.joinable()`, and `stopping` tells that `uv_stop` was called.
pub record IoManager (T : Type 0) : Type 0 where
  pub task_queue : List T
  pub signalled : Bool
  pub joinable : Bool
  pub stopping : Bool

module _ {T : Type 0} where
  unfoldable pub execute : T → IoManager T → IoManager T
  execute t m = record m { task_queue = m.task_queue ++ t ∷ []; signalled = true }

  -- The start of the thread, unless it runs.
  unfoldable pub run_loop : IoManager T → IoManager T
  run_loop m = if m.joinable then m else record m { joinable = true }

  unfoldable pub stop_loop : IoManager T → IoManager T
  stop_loop m = record m { stopping = true }

module _ {T : Type 0} (spawns : T → List T) where
  -- `while (!tasks.empty())`: each task runs in turn; `spawns t` are the tasks that `t` hands to
  -- `execute`. The result is `task_queue_` and the tasks that ran, oldest first.
  unfoldable pub run_batch : List T → List T → List T → List T × List T
  run_batch [] queue ran = (queue, ran)
  run_batch (t ∷ ts) queue ran = run_batch ts (queue ++ spawns t) (ran ++ t ∷ [])

  -- on_async_new_task, with fuel for its outer loop: the tasks that ran.
  unfoldable pub on_async_new_task : ℕ → List T → List T → Option (List T)
  unfolding run_batch
  on_async_new_task zero queue ran = none
  on_async_new_task (suc n) [] ran = some ran
  on_async_new_task (suc n) (t ∷ ts) ran =
      let (queue, ran') = run_batch (t ∷ ts) [] ran in on_async_new_task n queue ran'
