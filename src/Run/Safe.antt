-- ===== src/Run/Safe.antt =====
-- Rules on the memory after a part of the code, for the parts from which continuations are built.
-- Source: ltl/include/ltl/detail/future_state.hpp.
use ltl.Base.{
  ℕ, suc, ◌<◌, ◌≡◌, refl, Bool, true, false, some, List, [], ◌∷◌, get_elem?, set, arith,
  Option-cases, Bool-cases, inl, inr, if◌then◌else◌,
}
use ltl.Heap.{
  Exn, Val, Result, ok, err, Thunk, State, is_set, Heap, Outcome, ret, throw, blocks, fault,
  out_of_fuel, M, bind, ◌>>=◌, catch_outcome, try_catch, give, raise, lift, load, store,
}
use ltl.Heap.Growth.{
  Keeps, Grows-refl, Grows-trans, pending, pending-Grows, Grows-set, pending-set, Post, Evolves,
  IsSafe,
}
use ltl.FutureState.{for_each, set_value_impl, set_exception, continue_with}

Post-mono :
    {A : Type 0} (h k : Heap)
    → Evolves h k
    → (o : Outcome A) → Post (Evolves k) o
    → Post (Evolves h) o
Post-mono h k e (ret a l) p = Grows-trans h.states k.states l.states e p
Post-mono h k e (throw x l) p = Grows-trans h.states k.states l.states e p
Post-mono h k e (blocks s l) p = Grows-trans h.states k.states l.states e p
Post-mono h k e (fault x) p = tt
Post-mono h k e out_of_fuel p = p

module _ (n : ℕ) where
  -- The rest of a call runs at a later memory, with no more states pending.
  IsSafe-after :
      {A : Type 0} (m : M A) (h k : Heap)
      → pending h.states < n
      → Evolves h k
      → IsSafe n m
      → Post (Evolves h) (m k)
  IsSafe-after m h k lt e p =
      Post-mono h k e (m k) (p k (omega (arith, pending-Grows h.states k.states e)))

  bind-Post :
      {A B : Type 0} (o : Outcome A) (f : A → M B) (h : Heap)
      → pending h.states < n
      → Post (Evolves h) o
      → ((a : A) → IsSafe n (f a))
      → Post (Evolves h) (bind o f)
  bind-Post (ret a k) f h lt p q = IsSafe-after (f a) h k lt p (q a)
  bind-Post (throw e k) f h lt p q = p
  bind-Post (blocks s k) f h lt p q = p
  bind-Post (fault x) f h lt p q = tt
  bind-Post out_of_fuel f h lt p q = p

  catch_outcome-Post :
      {A : Type 0} (o : Outcome A) (f : Exn → M A) (h : Heap)
      → pending h.states < n
      → Post (Evolves h) o
      → ((e : Exn) → IsSafe n (f e))
      → Post (Evolves h) (catch_outcome o f)
  catch_outcome-Post (ret a k) f h lt p q = p
  catch_outcome-Post (throw e k) f h lt p q = IsSafe-after (f e) h k lt p (q e)
  catch_outcome-Post (blocks s k) f h lt p q = p
  catch_outcome-Post (fault x) f h lt p q = tt
  catch_outcome-Post out_of_fuel f h lt p q = p

  pub bind-IsSafe :
      {A B : Type 0} (m : M A) (f : A → M B)
      → IsSafe n m
      → ((a : A) → IsSafe n (f a))
      → IsSafe n (m >>= f)
  bind-IsSafe m f p q h lt = bind-Post (m h) f h lt (p h lt) q

  pub try_catch-IsSafe :
      {A : Type 0} (m : M A) (f : Exn → M A)
      → IsSafe n m
      → ((e : Exn) → IsSafe n (f e))
      → IsSafe n (try_catch m f)
  try_catch-IsSafe m f p q h lt = catch_outcome-Post (m h) f h lt (p h lt) q

  pub give-IsSafe : {A : Type 0} (a : A) → IsSafe n (give a)
  give-IsSafe a h lt = Grows-refl h.states

  pub lift-IsSafe : (r : Result) → IsSafe n (lift r)
  lift-IsSafe (ok v) h lt = Grows-refl h.states
  lift-IsSafe (err e) h lt = Grows-refl h.states

  -- What follows `load s` runs at a memory that holds the state loaded.
  pub load-IsSafe :
      {A : Type 0} (s : ℕ) (f : State → M A)
      → ((st : State) (h : Heap)
          → get_elem? h.states s ≡ some st
          → pending h.states < n
          → Post (Evolves h) (f st h))
      → IsSafe n (load s >>= f)
  load-IsSafe s f p h lt = elim (Option-cases (get_elem? h.states s)) [
    | inl e ↦ rw e tt
    | inr (st, e) ↦ rw e (p st h e lt)
  ]

  -- A write that keeps value and exception is safe.
  store-Post :
      (s : ℕ) {st : State} (st' : State) (h : Heap)
      → get_elem? h.states s ≡ some st
      → Keeps st st'
      → Post (Evolves h) (store s st' h)
  store-Post s st' h e k = Grows-set h.states s st' e k

  module _ (run : Thunk → M (Unit {0})) (safe : (t : Thunk) → IsSafe n (run t)) where
    for_each-IsSafe : (ts : List Thunk) → IsSafe n (for_each run ts)
    unfolding for_each
    for_each-IsSafe [] = give-IsSafe tt
    for_each-IsSafe (t ∷ ts) =
        bind-IsSafe (run t) (λ _. for_each run ts) (safe t) (λ _. for_each-IsSafe ts)

    -- To set a pending state and run its continuations needs one level more than they do.
    complete-Post :
        (s : ℕ) {st : State} (st' : State) (ts : List Thunk) (h : Heap)
        → get_elem? h.states s ≡ some st
        → is_set st ≡ false
        → is_set st' ≡ true
        → pending h.states < suc n
        → Post (Evolves h) (bind (store s st' h) (λ _. for_each run ts))
    complete-Post s {st} st' ts h e p q lt =
        let k : Heap = record h { states = set h.states s st' } in
        Post-mono h k (Grows-set h.states s st' e (ground arith)) (for_each run ts k)
          (for_each-IsSafe ts k (omega (arith, pending-set h.states s st' e p q)))

module _ (n : ℕ) (run : Thunk → M (Unit {0})) (safe : (t : Thunk) → IsSafe n (run t)) where
  pub set_value_impl-IsSafe :
      (s : ℕ) (v : Val) (b : Bool) → IsSafe (suc n) (set_value_impl run s v b)
  unfolding set_value_impl
  set_value_impl-IsSafe s v b = load-IsSafe (suc n) s _ λ st h e lt. elim (Bool-cases (is_set st)) [
    | inl done ↦ rw done (throws b h)
    | inr waits ↦ rw waits (complete-Post n run safe s _ st.continuations h e waits refl lt)
  ]
    where
      throws :
          (b : Bool) (h : Heap)
          → Post (Evolves h) ((if b then raise Exn.promise_already_satisfied else give tt) h)
      throws true h = Grows-refl h.states
      throws false h = Grows-refl h.states

  pub set_exception-IsSafe : (s : ℕ) (e : Exn) → IsSafe (suc n) (set_exception run s e)
  unfolding set_exception
  set_exception-IsSafe s x = load-IsSafe (suc n) s _ λ st h e lt. elim (Bool-cases (is_set st)) [
    | inl done ↦ rw done (Grows-refl h.states)
    | inr waits ↦
        rw waits (complete-Post n run safe s _ st.continuations h e waits (ground arith) lt)
  ]

pub continue_with-IsSafe :
    (n s : ℕ) (t : Thunk) (now : M (Unit {0})) → IsSafe n now → IsSafe n (continue_with s t now)
unfolding continue_with
continue_with-IsSafe n s t now safe = load-IsSafe n s _ λ st h e lt. elim (Bool-cases (is_set st)) [
  | inl done ↦ rw done (safe h lt)
  | inr waits ↦ rw waits (Grows-set h.states s _ e (ground arith))
]
