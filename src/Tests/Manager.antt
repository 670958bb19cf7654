-- ===== src/Tests/Manager.antt =====
-- Runs of an input/output manager with the thread of its loop.
-- Source: lio/src/lio/iomanager.cpp.
use ltl.Base.{ℕ, ◌≡◌, refl, true, false, inl, inr, List, [], ◌∷◌}
use ltl.IoManager.Thread.{
  task, stop_of, polling, off, Machine, Event, executes, runs, stops, joins, wakes, advances,
  new_iomanager, begin_stop, run_events,
}
use ltl.IoManager.Thread.Order.{IsOrderly, iomanager_loses_no_task}
use ltl.IoManager.Thread.Stop.{Extends, stop_waits_for_earlier}
use ltl.IoManager.Thread.Returns.{turn}

-- A manager that runs, with two tasks handed over.
abbrev two_tasks : List (Event ℕ)
two_tasks = runs ∷ executes 1 ∷ executes 2 ∷ []

abbrev busy : Machine ℕ
busy = record {
  manager = record {
    task_queue = task 1 ∷ task 2 ∷ [];
    signalled = true;
    joinable = true;
    stopping = false;
  };
  position = polling;
  ran = [];
  handed = task 1 ∷ task 2 ∷ [];
  threw = [];
}

two_tasks_handed : run_events two_tasks new_iomanager ≡ busy
unfolding run_events new_iomanager
two_tasks_handed = refl

iomanager_loses_no_task_example : IsOrderly (run_events two_tasks new_iomanager)
iomanager_loses_no_task_example = iomanager_loses_no_task two_tasks

busy-IsOrderly : IsOrderly busy
busy-IsOrderly = record { in_order = refl; awake = inr refl; one_thread = inl refl }

-- A task that comes during the drain.
abbrev meanwhile : List (Event ℕ)
meanwhile = wakes ∷ advances ∷ advances ∷ executes 3 ∷ advances ∷ advances ∷ []

stop_waits_for_earlier_example :
    Extends (task 1 ∷ task 2 ∷ stop_of 7 ∷ []) (run_events meanwhile (begin_stop 7 busy)).ran
unfolding run_events begin_stop
stop_waits_for_earlier_example =
    stop_waits_for_earlier 7 meanwhile busy busy-IsOrderly refl refl refl

-- After the loop has left, before the first call of `stop` has joined its thread.
abbrev left : Machine ℕ
left = record busy {
  manager = record { task_queue = []; signalled = false; joinable = true; stopping = true };
  position = off;
  ran = task 1 ∷ task 2 ∷ stop_of 7 ∷ [];
  handed = task 1 ∷ task 2 ∷ stop_of 7 ∷ [];
}

-- Neither a second `stop` nor a task runs then.
nothing_runs : (run_events (stops 8 ∷ executes 3 ∷ wakes ∷ joins 8 ∷ []) left).ran ≡ left.ran
unfolding run_events
nothing_runs = refl

-- Of two calls of `stop` that both wait for the loop, the one that joins last throws.
second_join_throws :
    (run_events (stops 7 ∷ stops 8 ∷ turn 4 (joins 7 ∷ joins 8 ∷ [])) busy).threw ≡ 8 ∷ []
unfolding run_events
second_join_throws = refl
