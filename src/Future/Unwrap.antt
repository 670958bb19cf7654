-- ===== src/Future/Unwrap.antt =====
-- `unwrap` on a future that is complete.
-- Source: detail::unwrap of ltl/include/ltl/future.hpp.
use ltl.Base.{
  ℕ, ◌≡◌, refl, sym, ◌∙◌, true, Option, none, some, [], ◌∷◌, ◌++◌, get_elem?, set, length,
  get_elem?-append_left, get_elem?-append_new, set-append_left, set-append_new, length-append,
}
use ltl.Heap.{
  Exn, Handle, fut, unit, Result, ok, err, Thunk, State, is_set, Heap, ret, M, bind, catch_outcome,
  give, lift, new_state, unwrap_outer, unwrap_inner,
}
use ltl.FutureState
use ltl.Run.{UserCode, outcome_of, future_get, continue_unwrapped, invoke, unwrap_inner_body}
use ltl.Future.{state_then, settled, unwrap}
use ltl.Future.Then.{
  extend, state_then-set, set_value-extend, state_then-settled, invoke_and_set_value_lem,
  set_value-extend,
}
use ltl.Future.Order.{complete, complete-pending, for_each-nil}
use ltl.Future.Chain.{is_set-outcome, get-outcome, future_get-outcome}

pub complete-unwatched :
    (run : Thunk → M (Unit {0})) (s : ℕ) (r : Result) (h : Heap) (tq : Option ℕ)
    → get_elem? h.states s ≡ some (new_state tq)
    → complete run s r h ≡ ret tt (record h { states = set h.states s (settled tq r) })
complete-unwatched run s (ok v) h tq e =
    rw (complete-pending run s (ok v) h e refl, for_each-nil run)
complete-unwatched run s (err x) h tq e =
    rw (complete-pending run s (err x) h e refl, for_each-nil run)

module _ (env : UserCode) (run : Thunk → M (Unit {0})) where
  pub unwrap_lem :
      (i : ℕ) (h : Heap) {st : State}
      → get_elem? h.states i ≡ some st
      → unwrap env run (some i) h
        ≡ bind
            (state_then env run i
              (unwrap_outer (length h.states) (some i))
              (extend h (new_state st.await_queue)))
            (λ rs. give (some (length h.states)))
  unfolding unwrap
  unwrap_lem i h e = rw e

  pub invoke-unwrap_outer_lem :
      (s i : ℕ) (h : Heap)
      → invoke env run (unwrap_outer s (some i)) h
        ≡ bind (bind (FutureState.get i h) (continue_unwrapped env run s (some i))) (λ _. give unit)
  unfolding invoke
  invoke-unwrap_outer_lem s i h = refl

  invoke-unwrap_outer_err :
      (s i : ℕ) (x : Exn) (h : Heap) {st : State}
      → get_elem? h.states i ≡ some st
      → outcome_of st ≡ some (err x)
      → invoke env run (unwrap_outer s (some i)) h ≡ lift (err x) h
  invoke-unwrap_outer_err s i x h e p = rw (invoke-unwrap_outer_lem, get-outcome i (err x) h e p)

  -- If the outer future holds an exception, `unwrap` returns a new future that is pending, and has
  -- registered no continuation anywhere that could complete it: it has only made a second new
  -- future, which holds the exception and whose handle it throws away.
  pub unwrap_loses_exception :
      (i : ℕ) (x : Exn) (h : Heap) {st : State}
      → get_elem? h.states i ≡ some st
      → outcome_of st ≡ some (err x)
      → unwrap env run (some i) h
        ≡ ret
            (some (length h.states))
            (extend (extend h (new_state st.await_queue)) (settled none (err x)))
  unwrap_loses_exception i x h {st} e p = rw (
    unwrap_lem i h e,
    state_then-settled env run i (unwrap_outer (length h.states) (some i)) (err x)
        (extend h (new_state st.await_queue)) e' (is_set-outcome st p)
        (invoke-unwrap_outer_err (length h.states) i x _
          (get_elem?-append_left (h.states ++ new_state st.await_queue ∷ []) _ i e') p),
  )
    where
      e' : get_elem? (h.states ++ new_state st.await_queue ∷ []) i ≡ some st
      e' = get_elem?-append_left h.states _ i e

  unwrap_inner_lem :
      (s : ℕ) (f : Handle) (h : Heap)
      → unwrap_inner_body env run s f h
        ≡ catch_outcome
            (bind (future_get f h) (FutureState.set_value run s))
            (FutureState.set_exception run s)
  unfolding unwrap_inner_body
  unwrap_inner_lem s f h = refl

  -- The inner lambda at a memory where `s` is `unwatched` hands the result on.
  pub unwrap_inner-settles :
      (s j : ℕ) (r : Result) (h : Heap) {st : State} (tq : Option ℕ)
      → get_elem? h.states j ≡ some st
      → outcome_of st ≡ some r
      → get_elem? h.states s ≡ some (new_state tq)
      → unwrap_inner_body env run s (some j) h
        ≡ ret tt (record h { states = set h.states s (settled tq r) })
  unwrap_inner-settles s j (ok v) h tq e p q =
      rw (
        unwrap_inner_lem,
        future_get-outcome j (ok v) h e p,
        complete-unwatched run s (ok v) h tq q,
      )
  unwrap_inner-settles s j (err x) h tq e p q = rw (
    unwrap_inner_lem,
    future_get-outcome j (err x) h e p,
    complete-unwatched run s (err x) h tq q,
  )

  continue_with-set :
      (s : ℕ) (t : Thunk) (now : M (Unit {0})) (h : Heap) {st : State}
      → get_elem? h.states s ≡ some st
      → is_set st ≡ true
      → FutureState.continue_with s t now h ≡ now h
  unfolding FutureState.continue_with
  continue_with-set s t now h e p = rw (e, p)

  module _ (s i j : ℕ) (r : Result) (h : Heap) {st inner : State} (tq : Option ℕ)
      (at_i : get_elem? h.states i ≡ some st) (outer : outcome_of st ≡ some (ok (fut (some j))))
      (at_j : get_elem? h.states j ≡ some inner) (came : outcome_of inner ≡ some r)
      (at_s : get_elem? h.states s ≡ some (new_state tq)) where
    invoke-unwrap_outer_ok :
        invoke env run (unwrap_outer s (some i)) h
        ≡ ret unit (record h { states = set h.states s (settled tq r) })
    invoke-unwrap_outer_ok = rw (
      invoke-unwrap_outer_lem s i h,
      get-outcome i (ok (fut (some j))) h at_i outer,
      future_get-outcome i (ok (fut (some j))) h at_i outer,
      continue_with-set j (unwrap_inner s (some j)) (unwrap_inner_body env run s (some j)) h at_j
          (is_set-outcome inner came),
      unwrap_inner-settles s j r h tq at_j came at_s,
    )

  -- If the outer future holds a future that holds `r`, the future that `unwrap` returns holds `r`.
  pub unwrap_completed :
      (i j : ℕ) (r : Result) (h : Heap) {st inner : State}
      → get_elem? h.states i ≡ some st
      → outcome_of st ≡ some (ok (fut (some j)))
      → get_elem? h.states j ≡ some inner
      → outcome_of inner ≡ some r
      → unwrap env run (some i) h
        ≡ ret
            (some (length h.states))
            (extend (extend h (settled st.await_queue r)) (settled none (ok unit)))
  unwrap_completed i j r h {st} {inner} e p e' p' =
      rw
        (
          unwrap_lem i h e,
          state_then-set env run i (unwrap_outer (length h.states) (some i)) h1 (late i e)
              (is_set-outcome st p),
          invoke_and_set_value_lem,
          invoke-unwrap_outer_ok (length h.states) i j r h2 st.await_queue (later i e) p
              (later j e') p' fresh,
        )
        (rw (
          set-append_left h1.states (new_state none ∷ []) (length h.states)
              (settled st.await_queue r) (get_elem?-append_new h.states _),
          set-append_new h.states (new_state st.await_queue) (settled st.await_queue r),
          same_length,
          set_value-extend run (extend h (settled st.await_queue r)) none unit,
        ))
    where
      h1 : Heap
      h1 = extend h (new_state st.await_queue)

      h2 : Heap
      h2 = extend h1 (new_state none)

      same_length :
          length (h.states ++ new_state st.await_queue ∷ [])
          ≡ length (h.states ++ settled st.await_queue r ∷ [])
      same_length = length-append h.states _ ∙ sym (length-append h.states _)

      late : (k : ℕ) {x : State} → get_elem? h.states k ≡ some x → get_elem? h1.states k ≡ some x
      late k q = get_elem?-append_left h.states _ k q

      later : (k : ℕ) {x : State} → get_elem? h.states k ≡ some x → get_elem? h2.states k ≡ some x
      later k q = get_elem?-append_left h1.states _ k (late k q)

      fresh : get_elem? h2.states (length h.states) ≡ some (new_state st.await_queue)
      fresh = get_elem?-append_left h1.states _ (length h.states) (get_elem?-append_new h.states _)
