-- ===== src/Future/Order.antt =====
-- `then` before the completion of a future, and after it.
-- Source: then, set_value and set_exception of ltl/include/ltl/detail/future_state.hpp.
use ltl.Base.{
  ℕ, suc, ◌≡◌, refl, sym, ◌∙◌, true, false, Option, none, some, [], ◌∷◌, ◌++◌, get_elem?, set,
  length, arith, get_elem?-append_left, set-append_left, get_elem?-set_self, set-set, length-set,
}
use ltl.Heap.{
  Result, ok, err, Func, Thunk, State, is_set, Heap, ret, M, bind, ◌>>◌, give, new_state,
  invoke_and_set, Block,
}
use ltl.FutureState
use ltl.Run.{UserCode, invoke_and_set_value, run}
use ltl.Future.{state_then}
use ltl.Future.Then.{extend, bind-unit, state_then-set, state_then-pending}

-- set_value or set_exception
abbrev pub complete : (Thunk → M (Unit {0})) → ℕ → Result → M (Unit {0})
complete run s (ok v) = FutureState.set_value run s v
complete run s (err e) = FutureState.set_exception run s e

-- A state with its result, its continuations taken out.
abbrev pub completed : State → Result → State
completed st (ok v) = record st { value = some v; continuations = [] }
completed st (err e) = record st { exception = some e; continuations = [] }

pub completed-is_set : (st : State) (r : Result) → is_set (completed st r) ≡ true
completed-is_set st (ok v) = refl
completed-is_set st (err e) = ground arith

-- Completing a pending state writes the result and runs the continuations, oldest first.
pub complete-pending :
    (run : Thunk → M (Unit {0})) (s : ℕ) (r : Result) (h : Heap) {st : State}
    → get_elem? h.states s ≡ some st
    → is_set st ≡ false
    → complete run s r h
      ≡ FutureState.for_each run st.continuations
          (record h { states = set h.states s (completed st r) })
unfolding FutureState.set_value FutureState.set_exception
complete-pending run s (ok v) h e p = rw (e, p)
complete-pending run s (err x) h e p = rw (e, p)

pub run-invoke_and_set :
    (env : UserCode) (n rs : ℕ) (f : Func) (h : Heap)
    → run env (suc n) (invoke_and_set rs f) h ≡ invoke_and_set_value env (run env n) rs f h
unfolding run
run-invoke_and_set env n rs f h = refl

pub for_each-one :
    (run : Thunk → M (Unit {0})) (t : Thunk) (h : Heap)
    → FutureState.for_each run (t ∷ []) h ≡ run t h
unfolding FutureState.for_each
for_each-one run t h = bind-unit (run t h)

pub for_each-nil :
    (run : Thunk → M (Unit {0})) (h : Heap) → FutureState.for_each run [] h ≡ ret tt h
unfolding FutureState.for_each
for_each-nil run h = refl

-- A pending state that nothing waits for.
abbrev pub unwatched : Option ℕ → Option Block → State
unwatched tq b = record {
  value = none;
  exception = none;
  continuations = [];
  await_queue = tq;
  block = b;
}

module _ (env : UserCode) (n s : ℕ) (f : Func) (r : Result) (h : Heap) (tq : Option ℕ)
    (b : Option Block) (e : get_elem? h.states s ≡ some (unwatched tq b)) where
  abbrev asked : State
  asked = record (unwatched tq b) { continuations = invoke_and_set (length h.states) f ∷ [] }

  -- The memory at the call of the function, in either order.
  abbrev at_call : Heap
  at_call =
      extend (record h { states = set h.states s (completed (unwatched tq b) r) }) (new_state none)

  abbrev asked_first : Heap
  asked_first = record h { states = set h.states s asked ++ new_state none ∷ [] }

  completed-asked : (r : Result) → completed asked r ≡ completed (unwatched tq b) r
  completed-asked (ok v) = refl
  completed-asked (err x) = refl

  watched : get_elem? (set h.states s asked ++ new_state none ∷ []) s ≡ some asked
  watched = get_elem?-append_left (set h.states s asked) _ s (get_elem?-set_self h.states s asked e)

  asked_first-set :
      set asked_first.states s (completed asked r)
      ≡ set h.states s (completed (unwatched tq b) r) ++ new_state none ∷ []
  asked_first-set = rw (
    set-append_left (set h.states s asked) (new_state none ∷ []) s (completed asked r)
        (get_elem?-set_self h.states s asked e),
    set-set h.states s asked (completed asked r),
    completed-asked r,
  )

  complete-asked_first :
      complete (run env (suc n)) s r asked_first
      ≡ invoke_and_set_value env (run env n) (length h.states) f at_call
  complete-asked_first = rw (
    complete-pending (run env (suc n)) s r asked_first watched refl,
    for_each-one (run env (suc n)) (invoke_and_set (length h.states) f),
    asked_first-set,
    run-invoke_and_set env n (length h.states) f,
  )

  -- For a pending state with no continuations: whether a function is handed to `then` before the
  -- state is completed, and run by the completion, or after it, and run by `then`, both end alike
  -- and with the same memory. The fuel is one more where the completion runs the function.
  pub then-complete_comm :
      bind
        (state_then env (run env (suc n)) s f h)
        (λ rs. complete (run env (suc n)) s r >> give rs)
      ≡ bind (complete (run env n) s r h) (λ _. state_then env (run env n) s f)
  then-complete_comm = early ∙ sym late
    where
      early :
          bind
            (state_then env (run env (suc n)) s f h)
            (λ rs. complete (run env (suc n)) s r >> give rs)
          ≡ bind
              (invoke_and_set_value env (run env n) (length h.states) f at_call)
              (λ _. give (length h.states))
      early = rw (state_then-pending env (run env (suc n)) s f h e refl, complete-asked_first)

      late :
          bind (complete (run env n) s r h) (λ _. state_then env (run env n) s f)
          ≡ bind
              (invoke_and_set_value env (run env n) (length h.states) f at_call)
              (λ _. give (length h.states))
      late =
          rw (complete-pending (run env n) s r h e refl, for_each-nil (run env n))
            (rw (
              state_then-set env (run env n) s f
                  (record h { states = set h.states s (completed (unwatched tq b) r) })
                  (get_elem?-set_self h.states s (completed (unwatched tq b) r) e)
                  (completed-is_set (unwatched tq b) r),
              length-set h.states s (completed (unwatched tq b) r),
            ))
