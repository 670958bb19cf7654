-- ===== src/Tests/Threads.antt =====
-- Threads that call the operations of one state at once.
-- Source: ltl/include/ltl/detail/future_state.hpp.
use ltl.Base.{◌≡◌, ◌≤◌, refl, Bool, true, false, none, some, [], ◌∷◌, suc}
use ltl.Heap.{Thunk, ok, num, ignore, invoke_and_set, signal_block}
use ltl.FutureState
use ltl.Future.{settled}
use ltl.FutureState.Threads.{
  running, calling, blocked, returned, rejected, System, new_system, continues, completes, waits,
  calls_next, finishes, calls_now, Reach, here, later,
}
use ltl.FutureState.Threads.Counts.{count}
use ltl.FutureState.Threads.Once.{Reach-at_most_once, Reach-exactly_once}
use ltl.FutureState.Threads.Wakeup.{Reach-no_lost_wakeup}

abbrev f : Thunk
f = invoke_and_set 1 ignore

abbrev g : Thunk
g = invoke_and_set 2 ignore

abbrev is_f : Thunk → Bool
is_f (invoke_and_set (suc n) e) = true
is_f t = false

-- One thread waits, one hands over `f`, one completes the state; before the signal and `f` are
-- called, another hands over `g`, and one more tries to complete the state.
abbrev rested : System
rested = record {
  state = record (settled none (ok (num 3))) { block = some (record { signalled = true }) };
  activities = blocked ∷ returned ∷ returned ∷ returned ∷ rejected ∷ [];
  handed = signal_block 0 ∷ f ∷ g ∷ [];
  called = signal_block 0 ∷ g ∷ f ∷ [];
  accepted = 1;
}

abbrev racing : System
racing = record {
  state = record (settled none (ok (num 3))) { block = some (record { signalled = false }) };
  activities = blocked ∷ returned ∷ running (signal_block 0 ∷ f ∷ []) ∷ calling g ∷ rejected ∷ [];
  handed = signal_block 0 ∷ f ∷ g ∷ [];
  called = [];
  accepted = 1;
}

-- The calls begin, and end.
begun : Reach 0 (new_system none) racing
begun =
    later
      (later (later (later (later here waits) (continues f)) (completes (ok (num 3)) true))
        (continues g))
      (completes (ok (num 4)) true)

race : Reach 0 (new_system none) rested
unfolding FutureState.signal
race =
    later
      (later
        (later (later begun (calls_next 2 (signal_block 0) (f ∷ []) refl)) (calls_now 3 g refl))
        (calls_next 2 f [] refl))
      (finishes 2 refl)

Reach-at_most_once_example :
    (count is_f rested.called ≤ count is_f rested.handed) × (rested.accepted ≤ 1)
Reach-at_most_once_example = Reach-at_most_once 0 none rested is_f race

Reach-exactly_once_example : (count is_f rested.called ≡ 2) × (rested.accepted ≡ 1)
Reach-exactly_once_example = Reach-exactly_once 0 none rested is_f race refl refl

Reach-no_lost_wakeup_example : FutureState.block_passes rested.state.block ≡ true
Reach-no_lost_wakeup_example = Reach-no_lost_wakeup 0 none rested 0 race refl refl refl
