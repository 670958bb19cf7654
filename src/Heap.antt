-- ===== src/Heap.antt =====
-- The shared memory of the futures: every `future_state` that exists, the counters of
-- `when_all_ready`, and the resumptions pushed to task queues.
-- Sources: ltl/include/ltl/detail/future_state.hpp, ltl/include/ltl/detail/block.hpp.
pub mod Growth
use ltl.Base.{
  ℕ, Bool, false, ◌||◌, Option, none, some, List, [], ◌∷◌, ◌++◌, length, get_elem?, set, is_some,
}

-- What a promise or a task can throw: the codes of `std::future_error`, and user exceptions.
pub data Exn : Type 0 where
  promise_already_satisfied no_state future_already_retrieved : Exn
  socket_read_error write_error : Exn  -- of lio: a failed read, and a failed write
  user_error : ℕ → Exn

-- `future<T>`: a pointer to a state, or null.
abbrev pub Handle : Type 0
Handle = Option ℕ

-- The values that futures hold. `future<void>` holds `unit`; a vector is `nil` and `cons`.
pub data Val : Type 0 where
  unit : Val
  num : ℕ → Val
  fut : Handle → Val
  nil : Val
  cons : Val → Val → Val

-- How a call of user code ends.
pub data Result : Type 0 where
  ok : Val → Result
  err : Exn → Result

-- The functions handed to `then`. A number stands for user code.
pub data Func : Type 0 where
  observe : (g : ℕ) (f : Handle) → Func  -- std::bind(func, future)
  compose : (g s : ℕ) → Func  -- get_and_compose
  recover_with : (g : ℕ) (f : Handle) → Func  -- the lambda of `recover`
  unwrap_outer : (s : ℕ) (ff : Handle) → Func  -- the lambda that `unwrap` hands to `then`
  collect : List Handle → Func  -- the lambda of `when_all`
  ignore : Func  -- std::bind([](){})

-- The `std::function<void()>` objects that `continuations_` holds.
pub data Thunk : Type 0 where
  signal_block : (s : ℕ) → Thunk  -- std::bind(&block::signal, block_.get())
  invoke_and_set : (rs : ℕ) (f : Func) → Thunk  -- add_continuation
  decrement : (counter prm : ℕ) → Thunk  -- `dec` of when_all_ready
  set_index : (prm i : ℕ) → Thunk  -- when_any_ready
  unwrap_inner : (s : ℕ) (f : Handle) → Thunk  -- the lambda that `unwrap` hands to continue_with
  push_resume : (s ctx : ℕ) → Thunk  -- await

-- `detail::block`.
pub record Block : Type 0 where
  pub signalled : Bool

abbrev pub new_block : Block
new_block = record { signalled = false }

-- `future_state_base<T>`; the mutex is left out, since each locked region is one step here.
pub record State : Type 0 where
  pub value : Option Val
  pub exception : Option Exn
  pub continuations : List Thunk
  pub await_queue : Option ℕ
  pub block : Option Block

abbrev pub new_state : Option ℕ → State
new_state tq = record {
  value = none;
  exception = none;
  continuations = [];
  await_queue = tq;
  block = none;
}

-- `value_ || exception_`
abbrev pub is_set : State → Bool
is_set st = is_some st.value || is_some st.exception

-- A state is named by its place in `states`, a counter by its place in `counters`. `resumed` lists
-- the calls `push_front` made by `await`: a task queue and the context to resume, oldest first.
pub record Heap : Type 0 where
  pub states : List State
  pub counters : List ℕ
  pub resumed : List (ℕ × ℕ)

pub data Fault : Type 0 where
  null_pointer ill_typed assertion_failed : Fault

-- How a call ends: it returns, throws, blocks its thread on the block of a state, hits undefined
-- behaviour, or runs out of the fuel of the model.
pub data Outcome (A : Type 0) : Type 0 where
  ret : A → Heap → Outcome A
  throw : Exn → Heap → Outcome A
  blocks : ℕ → Heap → Outcome A
  fault : Fault → Outcome A
  out_of_fuel : Outcome A

abbrev pub M : Type 0 → Type 0
M A = Heap → Outcome A

abbrev pub bind : {A B : Type 0} → Outcome A → (A → M B) → Outcome B
bind (ret a h) f = f a h
bind (throw e h) f = throw e h
bind (blocks s h) f = blocks s h
bind (fault x) f = fault x
bind out_of_fuel f = out_of_fuel

infixl 5 ◌>>=◌ ◌>>◌
abbrev pub ◌>>=◌ : {A B : Type 0} → M A → (A → M B) → M B
◌>>=◌ m f h = bind (m h) f

abbrev pub ◌>>◌ : {B : Type 0} → M (Unit {0}) → M B → M B
◌>>◌ m k h = bind (m h) (λ _. k)

abbrev pub catch_outcome : {A : Type 0} → Outcome A → (Exn → M A) → Outcome A
catch_outcome (throw e h) f = f e h
catch_outcome (ret a h) f = ret a h
catch_outcome (blocks s h) f = blocks s h
catch_outcome (fault x) f = fault x
catch_outcome out_of_fuel f = out_of_fuel

-- `try { m } catch (...) { f }`
abbrev pub try_catch : {A : Type 0} → M A → (Exn → M A) → M A
try_catch m f h = catch_outcome (m h) f

abbrev pub give : {A : Type 0} → A → M A
give a h = ret a h

abbrev pub raise : {A : Type 0} → Exn → M A
raise e h = throw e h

abbrev pub stop : {A : Type 0} → Fault → M A
stop x h = fault x

abbrev pub lift : Result → M Val
lift (ok v) h = ret v h
lift (err e) h = throw e h

abbrev pub found : Option State → M State
found none h = fault null_pointer
found (some st) h = ret st h

abbrev pub load : ℕ → M State
load s h = found (get_elem? h.states s) h

abbrev pub store : ℕ → State → M (Unit {0})
store s st h = ret tt (record h { states = set h.states s st })

-- A new `future_state` gets the next free name.
abbrev pub alloc : Option ℕ → M ℕ
alloc tq h = ret (length h.states) (record h { states = h.states ++ new_state tq ∷ [] })
