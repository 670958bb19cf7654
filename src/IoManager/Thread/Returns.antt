-- ===== src/IoManager/Thread/Returns.antt =====
-- `stop` comes to an end when the loop gets its turns.
-- Source: lio/src/lio/iomanager.cpp.
use ltl.Base.{ℕ, zero, suc, Bool, true, false, List, [], ◌∷◌, ◌++◌}
use ltl.IoManager.{IoManager}
use ltl.IoManager.Thread.{
  Item, stop_of, Position, off, polling, Machine, Event, joins, wakes, advances, leaves, run_item,
}

module _ {T : Type 0} where
  abbrev run_items : List (Item T) → IoManager (Item T) → IoManager (Item T)
  run_items [] m = m
  run_items (i ∷ is) m = run_items is (run_item i m)

  abbrev advances_by : ℕ → List (Event T) → List (Event T)
  advances_by zero es = es
  advances_by (suc n) es = advances ∷ advances_by n es

  -- The loop calls `on_async_new_task`, which swaps, runs `n` tasks, finds no other, and returns; then
  -- uv_run returns.
  abbrev pub turn : ℕ → List (Event T) → List (Event T)
  turn n es = wakes ∷ advances ∷ advances_by n (advances ∷ leaves ∷ es)

  -- The thread runs, and nothing is left of calls of `stop` that came before.
  abbrev running : (is ran : List (Item T)) (signalled stopping : Bool) (ts : List ℕ) → Machine T
  running is ran signalled stopping ts = record {
    manager = record {
      task_queue = is;
      signalled = signalled;
      joinable = true;
      stopping = stopping;
    };
    position = polling;
    ran = ran;
    handed = ran ++ is;
    threw = ts;
  }

  abbrev pub joined : List (Item T) → List ℕ → Machine T
  joined is ts = record {
    manager = record { task_queue = []; signalled = false; joinable = false; stopping = true };
    position = off;
    ran = is;
    handed = is;
    threw = ts;
  }

  module _ (c : ℕ) (is ran : List (Item T)) (a b : Bool) (ts : List ℕ) where
    abbrev at_last : List (Event T)
    at_last = advances ∷ leaves ∷ joins c ∷ []

    -- After the swap.
    abbrev swapped : List (Item T) → Position T → Machine T
    swapped js p = record {
      manager = record { task_queue = js; signalled = false; joinable = true; stopping = b };
      position = p;
      ran = ran;
      handed = (ran ++ is) ++ stop_of c ∷ [];
      threw = ts;
    }
