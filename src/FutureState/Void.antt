-- ===== src/FutureState/Void.antt =====
-- `future_state<void>`, whose `value_` is a Boolean: it has operations of its own where
-- `future_state<T>` reads or writes the value.
-- Source: ltl/include/ltl/detail/future_state.hpp.
use mathlib.Core.Bool.{false≢true}
use ltl.Base.{
  ℕ, ◌≡◌, refl, sym, ◌∙◌, Bool, true, false, ◌||◌, Option, none, some, List, [], inl, inr, is_some,
  if◌then◌else◌, Option-cases, arith,
}
use ltl.Heap.{Exn, Val, unit, ok, Thunk, Block, State, Heap, ret, M, bind, give, raise}
use ltl.FutureState.{get_result}
use ltl.FutureState.Threads.{Activity, running, returned, rejected, lock_complete}

record VoidState : Type 0 where
  pub value : Bool
  pub exception : Option Exn
  pub continuations : List Thunk
  pub await_queue : Option ℕ
  pub block : Option Block

-- get_value of a Boolean holder, as a pointer that is null or not.
abbrev get_value : Bool → Option Val
get_value holder = if holder then some unit else none

-- The state that the other files work with.
abbrev as_state : VoidState → State
as_state st = record {
  value = get_value st.value;
  exception = st.exception;
  continuations = st.continuations;
  await_queue = st.await_queue;
  block = st.block;
}

abbrev is_set_void : VoidState → Bool
is_set_void st = st.value || is_some st.exception

-- future_state<void>::get
unfoldable get : VoidState → M (Unit {0})
get st = elim st.exception [ some e ↦ raise e | none ↦ give tt ]

-- The locked region of future_state<void>::set_value_impl, and what it leaves to do.
unfoldable set_value_impl : (allow_exception : Bool) → VoidState → VoidState × Activity
set_value_impl allow_exception st =
    if is_set_void st
    then (st, if allow_exception then rejected else returned)
    else (record st { value = true; continuations = [] }, running st.continuations)

unfoldable set_value : VoidState → VoidState × Activity
unfolding set_value_impl
set_value st = set_value_impl true st

module _ (cs : List Thunk) (tq : Option ℕ) (bl : Option Block) where
  abbrev state_of : Bool → Option Exn → VoidState
  state_of v x = record {
    value = v;
    exception = x;
    continuations = cs;
    await_queue = tq;
    block = bl;
  }

  completes :
      (b v : Bool) (x : Option Exn)
      → lock_complete (ok unit) b (as_state (state_of v x))
        ≡ (as_state (set_value_impl b (state_of v x)).0, (set_value_impl b (state_of v x)).1)
  unfolding set_value_impl
  completes b true x = refl
  completes b false none = refl
  completes b false (some e) = refl

  gets :
      (v : Bool) (x : Option Exn) (h : Heap)
      → is_set_void (state_of v x) ≡ true
      → get_result (as_state (state_of v x)) h ≡ bind (get (state_of v x) h) (λ _. give unit)
  unfolding get
  gets true none h s = refl
  gets v (some e) h s = refl
  gets false none h s = absurd (false≢true s)

-- What set_value_impl of future_state<void> does under the lock, and what it leaves to do, is what
-- that of future_state does with the value of type void.
void-set_value_impl :
    (b : Bool) (st : VoidState)
    → lock_complete (ok unit) b (as_state st)
      ≡ (as_state (set_value_impl b st).0, (set_value_impl b st).1)
void-set_value_impl b st =
    completes st.continuations st.await_queue st.block b st.value st.exception

-- Once a future_state<void> is set, its `get` throws or returns what that of future_state does.
void-get :
    (st : VoidState) (h : Heap)
    → is_set_void st ≡ true
    → get_result (as_state st) h ≡ bind (get st h) (λ _. give unit)
void-get st h s = gets st.continuations st.await_queue st.block st.value st.exception h s

-- Before, it returns.
void-get_pending : (st : VoidState) (h : Heap) → is_set_void st ≡ false → get st h ≡ ret tt h
unfolding get
void-get_pending st h e = elim (Option-cases st.exception) [
  | inl n ↦ rw n refl
  | inr (x, f) ↦ absurd (false≢true (sym e ∙ set_by x f))
]
  where
    set_by : (x : Exn) → st.exception ≡ some x → is_set_void st ≡ true
    set_by x f = ground arith
