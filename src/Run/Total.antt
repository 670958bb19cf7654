-- ===== src/Run/Total.antt =====
-- The end of the run of a stored continuation, and the memory then.
-- Sources: those of Run.
use ltl.Base.{
  ◌<◌, ℕ, zero, suc, ◌≡◌, Bool, true, false, Option, none, some, List, [], ◌∷◌, get_elem?, arith,
  Option-cases, Bool-cases, inl, inr, if◌then◌else◌, ◌==◌,
}
use ltl.Heap.{
  Handle, Val, unit, num, fut, nil, cons, Func, Thunk, State, is_set, Heap, M, give, lift, observe,
  compose, recover_with, unwrap_outer, collect, ignore, signal_block, invoke_and_set, decrement,
  set_index, unwrap_inner, push_resume,
}
use ltl.Heap.Growth.{pending, Post, Evolves, Keeps, Grows-refl, Grows-set, IsSafe}
use ltl.FutureState
use ltl.Run.{
  UserCode, future_get, future_has_value, get_all, fetch_sub, push_front, unwrap_inner_body,
  continue_wrapped, continue_unwrapped, state_get, unwrap_outer_body, invoke, decrement_body,
  run_body, run,
}
use ltl.Run.Safe.{
  bind-IsSafe, try_catch-IsSafe, give-IsSafe, lift-IsSafe, load-IsSafe, set_value_impl-IsSafe,
  set_exception-IsSafe, continue_with-IsSafe,
}

pass-Post :
    (b : Bool) (s : ℕ) (h k : Heap)
    → Evolves h k
    → Post (Evolves h) (FutureState.pass_or_block b s k)
pass-Post true s h k e = e
pass-Post false s h k e = e

with_block-Keeps : (s : ℕ) (st : State) → is_set st ≡ false → Keeps st (FutureState.with_block s st)
with_block-Keeps s st e = ground arith

get_result-Post : (st : State) (h : Heap) → Post (Evolves h) (FutureState.get_result st h)
get_result-Post st h = elim (Option-cases st.exception) [
  | inr (x, e) ↦ rw e (Grows-refl h.states)
  | inl e ↦ elim (Option-cases st.value) [
    | inr (v, f) ↦ rw (e, f) (Grows-refl h.states)
    | inl f ↦ rw (e, f) tt
  ]
]

push_front-Post : (q : Option ℕ) (ctx : ℕ) (h : Heap) → Post (Evolves h) (push_front q ctx h)
unfolding push_front
push_front-Post none ctx h = tt
push_front-Post (some q) ctx h = Grows-refl h.states

module _ (n : ℕ) where
  wait-IsSafe : (s : ℕ) → IsSafe n (FutureState.wait s)
  unfolding FutureState.wait
  wait-IsSafe s = load-IsSafe n s _ λ st h e lt. elim (Bool-cases (is_set st)) [
    | inl done ↦ rw done (Grows-refl h.states)
    | inr waits ↦
        rw waits (pass-Post _ s h _ (Grows-set h.states s _ e (with_block-Keeps s st waits)))
  ]

  pub get-IsSafe : (s : ℕ) → IsSafe n (FutureState.get s)
  unfolding FutureState.get
  get-IsSafe s = load-IsSafe n s _ λ st h e lt. get_result-Post st h

  pub future_get-IsSafe : (f : Handle) → IsSafe n (future_get f)
  unfolding future_get
  future_get-IsSafe none = λ h lt. Grows-refl h.states
  future_get-IsSafe (some s) =
      bind-IsSafe n (FutureState.wait s) (λ _. FutureState.get s) (wait-IsSafe s)
        (λ _. get-IsSafe s)

  get_all-IsSafe : (fs : List Handle) → IsSafe n (get_all fs)
  unfolding get_all
  get_all-IsSafe [] = give-IsSafe n nil
  get_all-IsSafe (f ∷ fs) =
      bind-IsSafe n (future_get f) _ (future_get-IsSafe f)
        λ v. bind-IsSafe n (get_all fs) _ (get_all-IsSafe fs) λ vs. give-IsSafe n (cons v vs)

  has_value-IsSafe : (f : Handle) → IsSafe n (future_has_value f)
  unfolding future_has_value
  has_value-IsSafe none = give-IsSafe n false
  has_value-IsSafe (some s) = load-IsSafe n s _ λ st h e lt. Grows-refl h.states

  pub fetch_sub-IsSafe : (c : ℕ) → IsSafe n (fetch_sub c)
  unfolding fetch_sub
  fetch_sub-IsSafe c h lt = elim (Option-cases (get_elem? h.counters c)) [
    | inl e ↦ rw (e, fetch_sub) tt
    | inr (k, e) ↦ rw (e, fetch_sub) (Grows-refl h.states)
  ]

module _ (env : UserCode) (n : ℕ) (next : Thunk → M (Unit {0}))
    (safe : (t : Thunk) → IsSafe n (next t)) where
  unwrap_inner-IsSafe : (s : ℕ) (f : Handle) → IsSafe (suc n) (unwrap_inner_body env next s f)
  unfolding unwrap_inner_body
  unwrap_inner-IsSafe s f =
      try_catch-IsSafe (suc n) _ _
        (bind-IsSafe (suc n) _ _ (future_get-IsSafe (suc n) f)
          λ v. set_value_impl-IsSafe n next safe s v true)
        (set_exception-IsSafe n next safe s)

  pub continue_wrapped-IsSafe :
      (s : ℕ) (ff f : Handle) → IsSafe (suc n) (continue_wrapped env next s ff f)
  continue_wrapped-IsSafe s ff none =
      bind-IsSafe (suc n) _ _ (future_get-IsSafe (suc n) ff) λ v h lt. tt
  continue_wrapped-IsSafe s ff (some i) =
      bind-IsSafe (suc n) _ _ (future_get-IsSafe (suc n) ff)
        λ v. continue_with-IsSafe (suc n) i _ _ (unwrap_inner-IsSafe s (some i))

  continue_unwrapped-IsSafe :
      (s : ℕ) (ff : Handle) (v : Val) → IsSafe (suc n) (continue_unwrapped env next s ff v)
  continue_unwrapped-IsSafe s ff (fut f) =
      try_catch-IsSafe (suc n) _ _ (continue_wrapped-IsSafe s ff f)
        (set_exception-IsSafe n next safe s)
  continue_unwrapped-IsSafe s ff _ = λ h lt. tt

  pub state_get-IsSafe : (f : Handle) → IsSafe (suc n) (state_get env next f)
  state_get-IsSafe none = λ h lt. tt
  state_get-IsSafe (some i) = get-IsSafe (suc n) i

  pub unwrap_outer-IsSafe : (s : ℕ) (ff : Handle) → IsSafe (suc n) (unwrap_outer_body env next s ff)
  unfolding unwrap_outer_body
  unwrap_outer-IsSafe s ff =
      bind-IsSafe (suc n) _ _ (state_get-IsSafe ff) (continue_unwrapped-IsSafe s ff)

  recovered :
      (g : ℕ) (b : Bool) (v : Val) → IsSafe (suc n) (if b then give v else lift (env.call g v))
  recovered g true v = give-IsSafe (suc n) v
  recovered g false v = lift-IsSafe (suc n) (env.call g v)

  pub invoke-IsSafe : (f : Func) → IsSafe (suc n) (invoke env next f)
  unfolding invoke
  invoke-IsSafe (observe g none) = lift-IsSafe (suc n) _
  invoke-IsSafe (observe g (some s)) = λ h lt. lift-IsSafe (suc n) _ h lt
  invoke-IsSafe (compose g s) =
      bind-IsSafe (suc n) _ _ (get-IsSafe (suc n) s) λ v. lift-IsSafe (suc n) _
  invoke-IsSafe (recover_with g f) =
      bind-IsSafe (suc n) _ _ (has_value-IsSafe (suc n) f)
        λ b. bind-IsSafe (suc n) _ _ (future_get-IsSafe (suc n) f) λ v. recovered g b v
  invoke-IsSafe (unwrap_outer s ff) =
      bind-IsSafe (suc n) _ _ (unwrap_outer-IsSafe s ff) λ _. give-IsSafe (suc n) unit
  invoke-IsSafe (collect fs) = get_all-IsSafe (suc n) fs
  invoke-IsSafe ignore = give-IsSafe (suc n) unit

  decremented :
      (prm : ℕ) (b : Bool)
      → IsSafe (suc n) (if b then FutureState.set_value next prm unit else give tt)
  unfolding FutureState.set_value
  decremented prm true = set_value_impl-IsSafe n next safe prm unit true
  decremented prm false = give-IsSafe (suc n) tt

  decrement-IsSafe : (c prm : ℕ) → IsSafe (suc n) (decrement_body env next c prm)
  unfolding decrement_body
  decrement-IsSafe c prm =
      bind-IsSafe (suc n) _ _ (fetch_sub-IsSafe (suc n) c) λ k. decremented prm (k == 1)

  run_body-IsSafe : (t : Thunk) → IsSafe (suc n) (run_body env next t)
  unfolding run_body
  run_body-IsSafe (signal_block s) =
      load-IsSafe (suc n) s _ λ st h e lt. Grows-set h.states s _ e (ground arith)
  run_body-IsSafe (invoke_and_set rs f) =
      try_catch-IsSafe (suc n) _ _
        (bind-IsSafe (suc n) _ _ (invoke-IsSafe f) λ v. set_value_impl-IsSafe n next safe rs v true)
        (set_exception-IsSafe n next safe rs)
  run_body-IsSafe (decrement c prm) = decrement-IsSafe c prm
  run_body-IsSafe (set_index prm i) = set_value_impl-IsSafe n next safe prm (num i) false
  run_body-IsSafe (unwrap_inner s f) = unwrap_inner-IsSafe s f
  run_body-IsSafe (push_resume s ctx) =
      load-IsSafe (suc n) s _ λ st h e lt. push_front-Post st.await_queue ctx h

pub run-IsSafe : (env : UserCode) (n : ℕ) (t : Thunk) → IsSafe n (run env n t)
unfolding run
run-IsSafe env zero t = λ h lt. absurd (omega arith)
run-IsSafe env (suc n) t = run_body-IsSafe env n (run env n) (run-IsSafe env n) t

-- The run of a continuation, whatever it is, comes to an end: with one unit of fuel more than states
-- are pending, or with more fuel than that, it returns, throws, blocks its thread or stops at
-- undefined behaviour, but never runs out of fuel. And unless it stops at undefined behaviour, it
-- leaves the value and the exception of every state that was set as they were.
pub run_ends_and_keeps_results :
    (env : UserCode) (n : ℕ) (t : Thunk) (h : Heap)
    → pending h.states < n
    → Post (Evolves h) (run env n t h)
run_ends_and_keeps_results env n t h lt = run-IsSafe env n t h lt
