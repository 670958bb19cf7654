-- ===== src/FutureState/Threads.antt =====
-- The operations of one `future_state`, called by any number of threads at once, and from within
-- continuations: what each does under the mutex is one step, what it does outside of it another. The functions
-- that are called return: the exception of one would end the loop of calls that it is in.
-- Sources: wait, then, continue_with, set_value and set_exception of
-- ltl/include/ltl/detail/future_state.hpp, ltl/include/ltl/detail/block.hpp.
pub mod Counts
pub mod Once
pub mod Blocked
pub mod Wakeup
pub mod Alone
use ltl.Base.{
  ℕ, zero, suc, ◌+◌, ◌≡◌, Bool, true, false, Option, none, some, List, [], ◌∷◌, ◌++◌, get_elem?,
  set, if◌then◌else◌,
}
use ltl.Heap.{Result, Thunk, signal_block, State, new_state, is_set}
use ltl.FutureState.{with_block, block_passes}
use ltl.Run.{signal_option}
use ltl.Future.Order.{completed}

-- How far a call has come: it has these continuations still to call, it is about to call its own
-- function, it waits for the block, or it has returned or thrown `promise_already_satisfied`.
pub data Activity : Type 0 where
  running : List Thunk → Activity
  calling : Thunk → Activity
  blocked returned rejected : Activity

-- `handed` lists the functions that were handed over to be called, `called` the calls made, both
-- oldest first, and `accepted` counts the completions that did not throw.
pub record System : Type 0 where
  pub state : State
  pub activities : List Activity
  pub handed : List Thunk
  pub called : List Thunk
  pub accepted : ℕ

abbrev pub new_system : Option ℕ → System
new_system tq = record {
  state = new_state tq;
  activities = [];
  handed = [];
  called = [];
  accepted = 0;
}

-- The locked region of `then` and of `continue_with`, for a function that is stored as `t`.
abbrev pub lock_continue : Thunk → State → State × Activity
lock_continue t st =
    if is_set st
    then (st, calling t)
    else (record st { continuations = st.continuations ++ t ∷ [] }, returned)

-- The locked region of `set_value_impl` and `set_exception`; `b` is `allow_exception`.
abbrev pub lock_complete : Result → Bool → State → State × Activity
lock_complete r b st =
    if is_set st
    then (st, if b then rejected else returned)
    else (completed st r, running st.continuations)

-- Whether a completion went through, by what it left to do.
abbrev pub accepts : Activity → ℕ
accepts (running ts) = 1
accepts a = 0

-- The locked region of `wait`; `s` names the state.
abbrev pub lock_wait : ℕ → State → State × Activity
lock_wait s st = if is_set st then (st, returned) else (with_block s st, blocked)

-- The signal that `wait` hands over.
abbrev pub signals : ℕ → State → List Thunk
signals s st = if is_set st then [] else elim st.block [ none ↦ signal_block s ∷ [] | some b ↦ [] ]

-- What the call of a continuation does to the state by itself: a signal sets the block. Whatever
-- operations of the state other functions call are activities of their own.
abbrev pub after_call : Thunk → State → State
after_call (signal_block s) st = record st { block = signal_option st.block }
after_call t st = st

pub data Step (s : ℕ) (y : System) : System → Type 0 where
  continues :
      (t : Thunk)
      → Step s y (record y {
        state = (lock_continue t y.state).0;
        activities = y.activities ++ (lock_continue t y.state).1 ∷ [];
        handed = y.handed ++ t ∷ [];
      })
  completes :
      (r : Result) (b : Bool)
      → Step s y (record y {
        state = (lock_complete r b y.state).0;
        activities = y.activities ++ (lock_complete r b y.state).1 ∷ [];
        accepted = y.accepted + accepts (lock_complete r b y.state).1;
      })
  waits : Step s y (record y {
    state = (lock_wait s y.state).0;
    activities = y.activities ++ (lock_wait s y.state).1 ∷ [];
    handed = y.handed ++ signals s y.state;
  })
  calls_next :
      (i : ℕ) (t : Thunk) (ts : List Thunk)
      → get_elem? y.activities i ≡ some (running (t ∷ ts))
      → Step s y (record y {
        state = after_call t y.state;
        activities = set y.activities i (running ts);
        called = y.called ++ t ∷ [];
      })
  finishes :
      (i : ℕ)
      → get_elem? y.activities i ≡ some (running [])
      → Step s y (record y { activities = set y.activities i returned })
  calls_now :
      (i : ℕ) (t : Thunk)
      → get_elem? y.activities i ≡ some (calling t)
      → Step s y (record y {
        state = after_call t y.state;
        activities = set y.activities i returned;
        called = y.called ++ t ∷ [];
      })
  wakes :
      (i : ℕ)
      → get_elem? y.activities i ≡ some blocked
      → block_passes y.state.block ≡ true
      → Step s y (record y { activities = set y.activities i returned })

pub data Reach (s : ℕ) (x : System) : System → Type 0 where
  here : Reach s x x
  later : {y z : System} → Reach s x y → Step s y z → Reach s x z
