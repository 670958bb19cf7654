-- ===== src/Run/Fuel.antt =====
-- The run of a continuation under different amounts of fuel.
-- Sources: those of Run.
use ltl.Base.{
  ◌<◌, ◌≤◌, ℕ, zero, suc, ◌≡◌, refl, ◌∙◌, sym, Bool, true, false, none, some, arith, if◌then◌else◌,
  ◌==◌,
}
use ltl.Heap.{
  Handle, Val, unit, num, fut, Func, Thunk, Heap, M, give, observe, compose, recover_with,
  unwrap_outer, collect, ignore, signal_block, invoke_and_set, decrement, set_index, unwrap_inner,
  push_resume,
}
use ltl.Heap.Growth.{pending, IsSafe}
use ltl.FutureState
use ltl.FutureState.{for_each, set_value_impl, set_exception, continue_with}
use ltl.Run.{
  UserCode, unwrap_inner_body, continue_wrapped, continue_unwrapped, state_get, unwrap_outer_body,
  invoke, decrement_body, run_body, run,
}
use ltl.Run.Safe.{bind-IsSafe, set_value_impl-IsSafe}
use ltl.Run.Total.{
  continue_wrapped-IsSafe, future_get-IsSafe, state_get-IsSafe, unwrap_outer-IsSafe, invoke-IsSafe,
  fetch_sub-IsSafe, run-IsSafe,
}
use ltl.Run.Same.{
  Same, bind-Same, try_catch-Same, continue_with-Same, set_value_impl-Same, set_exception-Same,
}

module _ (env : UserCode) (n : ℕ) (next next' : Thunk → M (Unit {0}))
    (safe : (t : Thunk) → IsSafe n (next t)) (same : (t : Thunk) → Same n (next t) (next' t)) where
  unwrap_inner-Same :
      (s : ℕ) (f : Handle)
      → Same (suc n) (unwrap_inner_body env next s f) (unwrap_inner_body env next' s f)
  unfolding unwrap_inner_body FutureState.set_value
  unwrap_inner-Same s f =
      try_catch-Same (suc n) _ _ _ _
        (bind-IsSafe (suc n) _ _ (future_get-IsSafe (suc n) f)
          λ v. set_value_impl-IsSafe n next safe s v true)
        (bind-Same (suc n) _ _ _ _ (future_get-IsSafe (suc n) f) (λ h lt. refl)
          λ v. set_value_impl-Same n next next' safe same s v true)
        (set_exception-Same n next next' safe same s)

  continue_wrapped-Same :
      (s : ℕ) (ff f : Handle)
      → Same (suc n) (continue_wrapped env next s ff f) (continue_wrapped env next' s ff f)
  continue_wrapped-Same s ff none = λ h lt. refl
  continue_wrapped-Same s ff (some i) =
      bind-Same (suc n) _ _ _ _ (future_get-IsSafe (suc n) ff) (λ h lt. refl)
        λ v. continue_with-Same (suc n) i _ _ _ (unwrap_inner-Same s (some i))

  continue_unwrapped-Same :
      (s : ℕ) (ff : Handle) (v : Val)
      → Same (suc n) (continue_unwrapped env next s ff v) (continue_unwrapped env next' s ff v)
  continue_unwrapped-Same s ff (fut f) =
      try_catch-Same (suc n) _ _ _ _ (continue_wrapped-IsSafe env n next safe s ff f)
        (continue_wrapped-Same s ff f) (set_exception-Same n next next' safe same s)
  continue_unwrapped-Same s ff _ = λ h lt. refl

  unwrap_outer-Same :
      (s : ℕ) (ff : Handle)
      → Same (suc n) (unwrap_outer_body env next s ff) (unwrap_outer_body env next' s ff)
  unfolding unwrap_outer_body
  unwrap_outer-Same s ff =
      bind-Same (suc n) _ _ _ _ (state_get-IsSafe env n next safe ff) (state_get-Same ff)
        (continue_unwrapped-Same s ff)
    where
      state_get-Same : (f : Handle) → Same (suc n) (state_get env next f) (state_get env next' f)
      state_get-Same none = λ h lt. refl
      state_get-Same (some i) = λ h lt. refl

  invoke-Same : (f : Func) → Same (suc n) (invoke env next f) (invoke env next' f)
  unfolding invoke
  invoke-Same (observe g none) = λ h lt. refl
  invoke-Same (observe g (some s)) = λ h lt. refl
  invoke-Same (compose g s) = λ h lt. refl
  invoke-Same (recover_with g f) = λ h lt. refl
  invoke-Same (unwrap_outer s ff) =
      bind-Same (suc n) _ _ _ _ (unwrap_outer-IsSafe env n next safe s ff) (unwrap_outer-Same s ff)
        λ _ h lt. refl
  invoke-Same (collect fs) = λ h lt. refl
  invoke-Same ignore = λ h lt. refl

  decremented-Same :
      (prm : ℕ) (b : Bool)
      → Same
          (suc n)
          (if b then FutureState.set_value next prm unit else give tt)
          (if b then FutureState.set_value next' prm unit else give tt)
  unfolding FutureState.set_value
  decremented-Same prm true = set_value_impl-Same n next next' safe same prm unit true
  decremented-Same prm false = λ h lt. refl

  run_body-Same : (t : Thunk) → Same (suc n) (run_body env next t) (run_body env next' t)
  unfolding run_body decrement_body FutureState.set_value
  run_body-Same (signal_block s) = λ h lt. refl
  run_body-Same (invoke_and_set rs f) =
      try_catch-Same (suc n) _ _ _ _
        (bind-IsSafe (suc n) _ _ (invoke-IsSafe env n next safe f)
          λ v. set_value_impl-IsSafe n next safe rs v true)
        (bind-Same (suc n) _ _ _ _ (invoke-IsSafe env n next safe f) (invoke-Same f)
          λ v. set_value_impl-Same n next next' safe same rs v true)
        (set_exception-Same n next next' safe same rs)
  run_body-Same (decrement c prm) =
      bind-Same (suc n) _ _ _ _ (fetch_sub-IsSafe (suc n) c) (λ h lt. refl)
        λ k. decremented-Same prm (k == 1)
  run_body-Same (set_index prm i) = set_value_impl-Same n next next' safe same prm (num i) false
  run_body-Same (unwrap_inner s f) = unwrap_inner-Same s f
  run_body-Same (push_resume s ctx) = λ h lt. refl

run-more : (env : UserCode) (n m : ℕ) (t : Thunk) → n ≤ m → Same n (run env n t) (run env m t)
unfolding run
run-more env zero m t le = λ h lt. absurd (omega arith)
run-more env (suc n) zero t le = absurd (omega arith)
run-more env (suc n) (suc m) t le =
    run_body-Same env n (run env n) (run env m) (run-IsSafe env n)
      (λ u. run-more env n m u (omega arith)) t

-- Any two amounts of fuel, each above the number of pending states, give the run of a continuation
-- the same outcome and the same memory.
run-fuel :
    (env : UserCode) (n m : ℕ) (t : Thunk) (h : Heap)
    → pending h.states < n
    → pending h.states < m
    → run env n t h ≡ run env m t h
run-fuel env n m t h lt lt' =
    let k : ℕ = suc (pending h.states) in
    sym (run-more env k n t (omega arith) h (omega arith))
    ∙ run-more env k m t (omega arith) h (omega arith)
