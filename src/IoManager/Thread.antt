-- ===== src/IoManager/Thread.antt =====
-- `iomanager` with the thread of its loop, under any interleaving of the calls from other threads with
-- the steps of that thread.
-- Source: lio/src/lio/iomanager.cpp.
pub mod Order
pub mod Stop
pub mod Returns
use ltl.Base.{ℕ, ◌==◌, Bool, true, false, ◌&&◌, ◌||◌, List, [], ◌∷◌, ◌++◌, if◌then◌else◌}
use ltl.IoManager.{IoManager, execute, run_loop, stop_loop}

-- What is handed to `execute`: a task, or the lambda of call `c` of `stop`.
pub data Item (T : Type 0) : Type 0 where
  task : T → Item T
  stop_of : (c : ℕ) → Item T

-- Where the thread of the loop is: there is none, or it has left uv_run; it is in uv_run; or it is in
-- `on_async_new_task`, with these `tasks` left in the inner loop.
pub data Position (T : Type 0) : Type 0 where
  off polling : Position T
  draining : List (Item T) → Position T

-- `ran` lists the items whose call has come to an end, `handed` those handed to `execute`, and `threw`
-- the calls of `stop` that ended by an exception of thread_.join(), oldest first.
pub record Machine (T : Type 0) : Type 0 where
  pub manager : IoManager (Item T)
  pub position : Position T
  pub ran : List (Item T)
  pub handed : List (Item T)
  pub threw : List ℕ

-- What the threads of the program may do. The first four are calls from any thread: `execute`, `run`,
-- `stop` up to its wait, and the rest of call `c` of `stop`. The others are steps of the loop: libuv
-- calls `async_new_task_cb`, the thread goes on in `on_async_new_task`, and uv_run returns.
pub data Event (T : Type 0) : Type 0 where
  executes : T → Event T
  runs : Event T
  stops joins : (c : ℕ) → Event T
  wakes advances leaves : Event T

module _ {T : Type 0} where
  unfoldable pub new_iomanager : Machine T
  new_iomanager = record {
    manager = record { task_queue = []; signalled = false; joinable = false; stopping = false };
    position = off;
    ran = [];
    handed = [];
    threw = [];
  }

  unfoldable pub hand_over : Item T → Machine T → Machine T
  unfolding execute
  hand_over i m = record m { manager = execute i m.manager; handed = m.handed ++ i ∷ [] }

  unfoldable pub start_thread : Machine T → Machine T
  unfolding run_loop
  start_thread m =
      if m.manager.joinable
      then m
      else record m { manager = run_loop m.manager; position = polling }

  unfoldable pub begin_stop : ℕ → Machine T → Machine T
  unfolding hand_over
  begin_stop c m = if m.manager.joinable then hand_over (stop_of c) m else m

  abbrev pub is_stop_of : ℕ → Item T → Bool
  is_stop_of c (task t) = false
  is_stop_of c (stop_of d) = c == d

  abbrev pub has_stop_of : ℕ → List (Item T) → Bool
  has_stop_of c [] = false
  has_stop_of c (i ∷ is) = is_stop_of c i || has_stop_of c is

  abbrev pub is_off : Position T → Bool
  is_off off = true
  is_off p = false

  -- thread_.join() of a thread that has left. One that another call of `stop` has joined is not
  -- joinable, and join throws std::system_error.
  abbrev pub join_thread : ℕ → Machine T → Machine T
  join_thread c m =
      if m.manager.joinable
      then record m { manager = record m.manager { joinable = false } }
      else record m { threw = m.threw ++ c ∷ [] }

  -- The wait for the promise, which the lambda sets, and the join of the thread, for which it waits.
  unfoldable pub end_stop : ℕ → Machine T → Machine T
  end_stop c m = if has_stop_of c m.ran && is_off m.position then join_thread c m else m

  -- async_new_task_cb, for the signals sent since its last call.
  unfoldable pub wake : Machine T → Machine T
  wake m =
      if m.manager.signalled
      then record m { manager = record m.manager { signalled = false }; position = draining [] }
      else m

  -- The swap of `on_async_new_task`: with no task, it returns.
  abbrev pub swap_tasks : List (Item T) → Machine T → Machine T
  swap_tasks [] m = record m { position = polling }
  swap_tasks (i ∷ is) m = record m {
    manager = record m.manager { task_queue = [] };
    position = draining (i ∷ is);
  }

  abbrev pub run_item : Item T → IoManager (Item T) → IoManager (Item T)
  run_item (task t) m = m
  run_item (stop_of c) m = stop_loop m

  -- A swap, or a call of the first task, which may hand over others before it ends.
  unfoldable pub advance : List (Item T) → Machine T → Machine T
  unfolding stop_loop
  advance [] m = swap_tasks m.manager.task_queue m
  advance (i ∷ is) m = record m {
    manager = run_item i m.manager;
    position = draining is;
    ran = m.ran ++ i ∷ [];
  }

  unfoldable pub leave : Machine T → Machine T
  leave m = if m.manager.stopping then record m { position = off } else m

  abbrev pub act : Position T → Event T → Machine T → Machine T
  act polling wakes m = wake m
  act polling leaves m = leave m
  act (draining is) advances m = advance is m
  act p e m = m

  -- An event that its thread cannot do in this state changes nothing.
  unfoldable pub step : Event T → Machine T → Machine T
  unfolding hand_over start_thread begin_stop end_stop wake advance leave
  step (executes t) m = hand_over (task t) m
  step runs m = start_thread m
  step (stops c) m = begin_stop c m
  step (joins c) m = end_stop c m
  step e m = act m.position e m

  unfoldable pub run_events : List (Event T) → Machine T → Machine T
  unfolding step
  run_events [] m = m
  run_events (e ∷ es) m = run_events es (step e m)
