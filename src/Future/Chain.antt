-- ===== src/Future/Chain.antt =====
-- `then`, `next` and `recover` on a future that is complete.
-- Sources: ltl/include/ltl/future.hpp, ltl/include/ltl/detail/get_and_compose.hpp.
use ltl.Base.{
  ℕ, ◌≡◌, refl, true, none, some, [], ◌∷◌, get_elem?, length, arith, get_elem?-append_left,
  if◌then◌else◌, is_some,
}
use ltl.Heap.{
  Val, Result, ok, err, Thunk, State, is_set, Heap, ret, M, bind, ◌>>=◌, give, lift, new_state,
  observe, compose, recover_with,
}
use ltl.FutureState
use ltl.FutureState.{get_result}
use ltl.Run.{UserCode, outcome_of, future_get, future_has_value, invoke, run}
use ltl.Future.{state_then, settled, then_, next, recover}
use ltl.Future.Then.{extend, state_then-settled}

pub is_set-outcome : (st : State) {r : Result} → outcome_of st ≡ some r → is_set st ≡ true
is_set-outcome st e = ground arith

get_result-outcome :
    (st : State) (r : Result) (h : Heap) → outcome_of st ≡ some r → get_result st h ≡ lift r h
get_result-outcome st (ok v) h e = ground arith
get_result-outcome st (err x) h e = ground arith

future_get_lem :
    (s : ℕ) (h : Heap)
    → future_get (some s) h ≡ bind (FutureState.wait s h) (λ _. FutureState.get s)
unfolding future_get
future_get_lem s h = refl

module _ (s : ℕ) {st : State} (r : Result) (h : Heap) (at_s : get_elem? h.states s ≡ some st)
    (came : outcome_of st ≡ some r) where
  pub get-outcome : FutureState.get s h ≡ lift r h
  unfolding FutureState.get
  get-outcome = rw at_s (get_result-outcome st r h came)

  wait-outcome : FutureState.wait s h ≡ ret tt h
  unfolding FutureState.wait
  wait-outcome = rw (at_s, is_set-outcome st came)

  pub future_get-outcome : future_get (some s) h ≡ lift r h
  future_get-outcome = rw (future_get_lem, wait-outcome) get-outcome

-- What `next` makes of a result: exceptions pass by the function.
abbrev pub and_then : UserCode → ℕ → Result → Result
and_then env g (ok v) = env.call g v
and_then env g (err e) = err e

invoke-compose_lem :
    (env : UserCode) (run : Thunk → M (Unit {0})) (g s : ℕ) (h : Heap)
    → invoke env run (compose g s) h ≡ bind (FutureState.get s h) (λ v. lift (env.call g v))
unfolding invoke
invoke-compose_lem env run g s h = refl

invoke-recover_lem :
    (env : UserCode) (run : Thunk → M (Unit {0})) (g s : ℕ) (h : Heap)
    → invoke env run (recover_with g (some s)) h
      ≡ bind
          (future_has_value (some s) h)
          (λ b. future_get (some s) >>= λ v. if b then give v else lift (env.call g v))
unfolding invoke
invoke-recover_lem env run g s h = refl

has_value_lem :
    (s : ℕ) (h : Heap) {st : State}
    → get_elem? h.states s ≡ some st
    → future_has_value (some s) h ≡ ret (is_some st.value) h
unfolding future_has_value
has_value_lem s h e = rw e

value_of_ok : (st : State) (v : Val) → outcome_of st ≡ some (ok v) → is_some st.value ≡ true
value_of_ok st v e = ground arith

module _ (env : UserCode) (run : Thunk → M (Unit {0})) (g s : ℕ) (h : Heap) where
  then_on_lem :
      then_ env run (some s) g h
      ≡ bind (state_then env run s (observe g (some s)) h) (λ rs. give (some rs))
  unfolding then_
  then_on_lem = refl

  next_on_lem :
      next env run (some s) g h ≡ bind (state_then env run s (compose g s) h) (λ rs. give (some rs))
  unfolding next
  next_on_lem = refl

  recover_on_lem :
      recover env run (some s) g h
      ≡ bind (state_then env run s (recover_with g (some s)) h) (λ rs. give (some rs))
  unfolding recover
  recover_on_lem = refl

module _ (env : UserCode) (run : Thunk → M (Unit {0})) (g s : ℕ) {st : State} where
  invoke-compose :
      (r : Result) (h : Heap)
      → get_elem? h.states s ≡ some st
      → outcome_of st ≡ some r
      → invoke env run (compose g s) h ≡ lift (and_then env g r) h
  invoke-compose r h e p = lift_through r (get-outcome s r h e p)
    where
      lift_through :
          (r : Result)
          → FutureState.get s h ≡ lift r h
          → invoke env run (compose g s) h ≡ lift (and_then env g r) h
      lift_through (ok v) q = rw (invoke-compose_lem, q)
      lift_through (err x) q = rw (invoke-compose_lem, q)

  invoke-observe :
      (r : Result) (h : Heap)
      → get_elem? h.states s ≡ some st
      → outcome_of st ≡ some r
      → invoke env run (observe g (some s)) h ≡ lift (env.watch g (some r)) h
  unfolding invoke
  invoke-observe r h e p = rw (e, p)

  invoke-recover :
      (r : Result) (h : Heap)
      → get_elem? h.states s ≡ some st
      → outcome_of st ≡ some r
      → invoke env run (recover_with g (some s)) h ≡ lift r h
  invoke-recover (ok v) h e p = rw (
    invoke-recover_lem,
    has_value_lem s h e,
    future_get-outcome s (ok v) h e p,
    value_of_ok st v p,
  )
  invoke-recover (err x) h e p =
      rw (invoke-recover_lem, has_value_lem s h e, future_get-outcome s (err x) h e p)

module _ (env : UserCode) (run : Thunk → M (Unit {0})) (g s : ℕ) {st : State} (r : Result)
    (h : Heap) (at_s : get_elem? h.states s ≡ some st) (came : outcome_of st ≡ some r) where
  at_s' : get_elem? (extend h (new_state none)).states s ≡ some st
  at_s' = get_elem?-append_left h.states (new_state none ∷ []) s at_s

  -- `then`, `next` and `recover` on a future that has come to `r` make a complete future at once:
  -- `then` of what the function makes of the future; `next` of what it makes of the value, and of
  -- the same exception if `r` is one; and `recover` of `r` itself, whatever its function is.
  pub chain_of_completed :
      (then_ env run (some s) g h
        ≡ ret (some (length h.states)) (extend h (settled none (env.watch g (some r)))))
      × (next env run (some s) g h
          ≡ ret (some (length h.states)) (extend h (settled none (and_then env g r))))
      × (recover env run (some s) g h ≡ ret (some (length h.states)) (extend h (settled none r)))
  chain_of_completed = (
    rw (
      then_on_lem env run g s h,
      state_then-settled env run s (observe g (some s)) (env.watch g (some r)) h at_s
          (is_set-outcome st came) (invoke-observe env run g s r _ at_s' came),
    ),
    rw (
      next_on_lem env run g s h,
      state_then-settled env run s (compose g s) (and_then env g r) h at_s (is_set-outcome st came)
          (invoke-compose env run g s r _ at_s' came),
    ),
    rw (
      recover_on_lem env run g s h,
      state_then-settled env run s (recover_with g (some s)) r h at_s (is_set-outcome st came)
          (invoke-recover env run g s r _ at_s' came),
    ),
  )
