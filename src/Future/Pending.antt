-- ===== src/Future/Pending.antt =====
-- `unwrap` on a future that is pending, and the completion of it and of the future that it holds.
-- Source: detail::unwrap of ltl/include/ltl/future.hpp.
use ltl.Base.{
  ℕ, suc, ◌≡◌, ◌≢◌, refl, ◌∙◌, Option, none, some, [], ◌∷◌, get_elem?, set, get_elem?-set_self,
  get_elem?-set_ne,
}
use ltl.Heap.{
  Handle, fut, unit, Result, ok, err, Thunk, State, Heap, ret, M, new_state, unwrap_outer,
  unwrap_inner, invoke_and_set, Block,
}
use ltl.FutureState
use ltl.Run.{UserCode, run, outcome_of, invoke, unwrap_inner_body}
use ltl.Future.{settled}
use ltl.Future.Then.{invoke_and_set_value_lem}
use ltl.Future.Order.{
  complete, completed, complete-pending, for_each-one, unwatched, run-invoke_and_set,
}
use ltl.Future.Chain.{get-outcome, future_get-outcome}
use ltl.Future.Unwrap.{complete-unwatched, invoke-unwrap_outer_lem, unwrap_inner-settles}

-- The outer future, while `unwrap` waits for it, and the inner one, while it waits for that.
abbrev pub outer_asked : (s rs i : ℕ) → Option ℕ → Option Block → State
outer_asked s rs i tq b = record (unwatched tq b) {
  continuations = invoke_and_set rs (unwrap_outer s (some i)) ∷ [];
}

abbrev pub inner_asked : (s j : ℕ) → Option ℕ → Option Block → State
inner_asked s j tq b = record (unwatched tq b) { continuations = unwrap_inner s (some j) ∷ [] }

pub completed-outcome :
    (st : State) (r : Result) → st.exception ≡ none → outcome_of (completed st r) ≡ some r
completed-outcome st (ok v) e = rw e refl
completed-outcome st (err x) e = refl

module _ (env : UserCode) (n : ℕ) where
  run-unwrap_inner :
      (s : ℕ) (f : Handle) (h : Heap)
      → run env (suc n) (unwrap_inner s f) h ≡ unwrap_inner_body env (run env n) s f h
  unfolding run
  run-unwrap_inner s f h = refl

  pub complete-inner_asked :
      (s j : ℕ) (r : Result) (h : Heap) (tq tq' : Option ℕ) (b : Option Block)
      → get_elem? h.states j ≡ some (inner_asked s j tq b)
      → get_elem? h.states s ≡ some (new_state tq')
      → j ≢ s
      → complete (run env (suc n)) j r h
        ≡ ret tt (record h {
          states = set (set h.states j (completed (inner_asked s j tq b) r)) s (settled tq' r);
        })
  complete-inner_asked s j r h tq tq' b at_j at_s ne = rw (
    complete-pending (run env (suc n)) j r h at_j refl,
    for_each-one (run env (suc n)) (unwrap_inner s (some j)),
    run-unwrap_inner s (some j),
    unwrap_inner-settles env (run env n) s j r
        (record h { states = set h.states j (completed (inner_asked s j tq b) r) }) tq'
        (get_elem?-set_self h.states j (completed (inner_asked s j tq b) r) at_j)
        (completed-outcome (inner_asked s j tq b) r refl)
        (get_elem?-set_ne h.states (completed (inner_asked s j tq b) r) ne ∙ at_s),
  )

  continue_with-pending :
      (s : ℕ) (t : Thunk) (now : M (Unit {0})) (h : Heap) (tq : Option ℕ) (b : Option Block)
      → get_elem? h.states s ≡ some (unwatched tq b)
      → FutureState.continue_with s t now h
        ≡ ret tt (record h {
          states = set h.states s (record (unwatched tq b) { continuations = t ∷ [] });
        })
  unfolding FutureState.continue_with
  continue_with-pending s t now h tq b e = rw e refl

  invoke-unwrap_outer_asks :
      (s i j : ℕ) (h : Heap) {st : State} (tq : Option ℕ) (b : Option Block)
      → get_elem? h.states i ≡ some st
      → outcome_of st ≡ some (ok (fut (some j)))
      → get_elem? h.states j ≡ some (unwatched tq b)
      → invoke env (run env n) (unwrap_outer s (some i)) h
        ≡ ret unit (record h { states = set h.states j (inner_asked s j tq b) })
  invoke-unwrap_outer_asks s i j h tq b at_i came at_j = rw (
    invoke-unwrap_outer_lem env (run env n) s i h,
    get-outcome i (ok (fut (some j))) h at_i came,
    future_get-outcome i (ok (fut (some j))) h at_i came,
    continue_with-pending j (unwrap_inner s (some j)) (unwrap_inner_body env (run env n) s (some j))
        h tq b at_j,
  )

  pub complete-outer_asked :
      (s rs i j : ℕ) (h : Heap) (tq tq' tr : Option ℕ) (b b' : Option Block)
      → get_elem? h.states i ≡ some (outer_asked s rs i tq b)
      → get_elem? h.states j ≡ some (unwatched tq' b')
      → get_elem? h.states rs ≡ some (new_state tr)
      → i ≢ j
      → i ≢ rs
      → j ≢ rs
      → complete (run env (suc n)) i (ok (fut (some j))) h
        ≡ ret tt (record h {
          states =
              set
                (set
                  (set h.states i (completed (unwatched tq b) (ok (fut (some j)))))
                  j
                  (inner_asked s j tq' b'))
                rs
                (settled tr (ok unit));
        })
  complete-outer_asked s rs i j h tq tq' tr b b' at_i at_j at_rs ij ir jr =
      let done : State = completed (unwatched tq b) (ok (fut (some j))) in
      let k : Heap = record h { states = set h.states i done } in
      let later : get_elem? k.states j ≡ some (unwatched tq' b') =
        get_elem?-set_ne h.states done ij ∙ at_j in
      rw (
        complete-pending (run env (suc n)) i (ok (fut (some j))) h at_i refl,
        for_each-one (run env (suc n)) (invoke_and_set rs (unwrap_outer s (some i))),
        run-invoke_and_set env n rs (unwrap_outer s (some i)) k,
        invoke_and_set_value_lem env (run env n) rs (unwrap_outer s (some i)) k,
        invoke-unwrap_outer_asks s i j k tq' b' (get_elem?-set_self h.states i done at_i) refl
            later,
        complete-unwatched (run env n) rs (ok unit)
            (record k { states = set k.states j (inner_asked s j tq' b') }) tr
            (get_elem?-set_ne k.states (inner_asked s j tq' b') jr
              ∙ get_elem?-set_ne h.states done ir
              ∙ at_rs),
      )
