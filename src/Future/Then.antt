-- ===== src/Future/Then.antt =====
-- The new state that `then` makes, and the two branches of `then`.
-- Source: ltl/include/ltl/detail/future_state.hpp.
use ltl.Base.{
  ℕ, ◌≡◌, refl, true, false, Option, none, some, [], ◌∷◌, ◌++◌, get_elem?, set, length,
  get_elem?-append_left, get_elem?-append_new, set-append_left, set-append_new,
}
use ltl.Heap.{
  Exn, Val, Result, ok, err, Func, Thunk, State, is_set, Heap, Outcome, ret, throw, blocks, fault,
  out_of_fuel, M, bind, catch_outcome, give, lift, new_state, invoke_and_set,
}
use ltl.FutureState
use ltl.Run.{UserCode, invoke, invoke_and_set_value, run}
use ltl.Future.{state_then, settled}

-- The memory with one more state.
abbrev pub extend : Heap → State → Heap
extend h st = record h { states = h.states ++ st ∷ [] }

pub bind-unit : (o : Outcome (Unit {0})) → bind o (λ _. give tt) ≡ o
bind-unit (ret a h) = refl
bind-unit (throw e h) = refl
bind-unit (blocks s h) = refl
bind-unit (fault x) = refl
bind-unit out_of_fuel = refl

-- A state that was just made is completed without running anything.
pub set_value-extend :
    (run : Thunk → M (Unit {0})) (h : Heap) (tq : Option ℕ) (v : Val)
    → FutureState.set_value run (length h.states) v (extend h (new_state tq))
      ≡ ret tt (extend h (settled tq (ok v)))
unfolding FutureState.set_value FutureState.for_each
set_value-extend run h tq v =
    rw (get_elem?-append_new h.states (new_state tq))
      (rw (set-append_new h.states (new_state tq) (settled tq (ok v))) refl)

pub set_exception-extend :
    (run : Thunk → M (Unit {0})) (h : Heap) (tq : Option ℕ) (e : Exn)
    → FutureState.set_exception run (length h.states) e (extend h (new_state tq))
      ≡ ret tt (extend h (settled tq (err e)))
unfolding FutureState.set_exception FutureState.for_each
set_exception-extend run h tq e =
    rw (get_elem?-append_new h.states (new_state tq))
      (rw (set-append_new h.states (new_state tq) (settled tq (err e))) refl)

module _ (env : UserCode) (run : Thunk → M (Unit {0})) where
  pub invoke_and_set_value_lem :
      (rs : ℕ) (f : Func) (h : Heap)
      → invoke_and_set_value env run rs f h
        ≡ catch_outcome
            (bind (invoke env run f h) (FutureState.set_value run rs))
            (FutureState.set_exception run rs)
  unfolding invoke_and_set_value
  invoke_and_set_value_lem rs f h = refl

  -- A function that computes `r` and leaves the memory alone completes the state by `r`.
  invoke_and_set_value-extend :
      (f : Func) (r : Result) (h : Heap) (tq : Option ℕ)
      → invoke env run f (extend h (new_state tq)) ≡ lift r (extend h (new_state tq))
      → invoke_and_set_value env run (length h.states) f (extend h (new_state tq))
        ≡ ret tt (extend h (settled tq r))
  invoke_and_set_value-extend f (ok v) h tq e =
      rw (invoke_and_set_value_lem, e, set_value-extend run h tq v)
  invoke_and_set_value-extend f (err x) h tq e =
      rw (invoke_and_set_value_lem, e, set_exception-extend run h tq x)

  -- `then` on a state that is set, and on one that is not.
  pub state_then-set :
      (s : ℕ) (f : Func) (h : Heap) {st : State}
      → get_elem? h.states s ≡ some st
      → is_set st ≡ true
      → state_then env run s f h
        ≡ bind
            (invoke_and_set_value env run (length h.states) f (extend h (new_state none)))
            (λ _. give (length h.states))
  unfolding state_then
  state_then-set s f h e p = rw (get_elem?-append_left h.states (new_state none ∷ []) s e, p)

  pub state_then-pending :
      (s : ℕ) (f : Func) (h : Heap) {st : State}
      → get_elem? h.states s ≡ some st
      → is_set st ≡ false
      → state_then env run s f h
        ≡ ret (length h.states) (record h {
          states =
              set h.states s (record st {
                continuations = st.continuations ++ invoke_and_set (length h.states) f ∷ [];
              })
              ++ new_state none ∷ [];
        })
  unfolding state_then
  state_then-pending s f h e p = rw (
    get_elem?-append_left h.states (new_state none ∷ []) s e,
    p,
    set-append_left h.states (new_state none ∷ []) s _ e,
  )

  -- A function that computes `r` at a state that is set makes a future that holds `r`.
  pub state_then-settled :
      (s : ℕ) (f : Func) (r : Result) (h : Heap) {st : State}
      → get_elem? h.states s ≡ some st
      → is_set st ≡ true
      → invoke env run f (extend h (new_state none)) ≡ lift r (extend h (new_state none))
      → state_then env run s f h ≡ ret (length h.states) (extend h (settled none r))
  state_then-settled s f r h e p q =
      rw (state_then-set s f h e p, invoke_and_set_value-extend f r h none q)
