-- ===== src/Run/Same.antt =====
-- Rules on two runs of a part of the code that run stored continuations in different ways.
-- Source: ltl/include/ltl/detail/future_state.hpp.
use ltl.Base.{
  ◌<◌, ℕ, suc, ◌≡◌, refl, ap, ◌∙◌, Bool, some, List, [], ◌∷◌, get_elem?, arith, Option-cases,
  Bool-cases, inl, inr,
}
use ltl.Heap.{
  Exn, Val, Thunk, is_set, Heap, Outcome, ret, throw, blocks, fault, out_of_fuel, M, bind, ◌>>=◌,
  catch_outcome, try_catch,
}
use ltl.Heap.Growth.{pending, pending-Grows, pending-set, Post, Evolves, IsSafe}
use ltl.FutureState.{for_each, set_value_impl, set_exception, continue_with}

-- Two calls that agree at every memory with fewer than `n` states pending.
abbrev pub Same : {A : Type 0} → ℕ → M A → M A → Type 0
Same n m m' = (h : Heap) → pending h.states < n → m h ≡ m' h

bind-rest :
    {A B : Type 0} (n : ℕ) (o : Outcome A) (f f' : A → M B) (h : Heap)
    → pending h.states < n
    → Post (Evolves h) o
    → ((a : A) → Same n (f a) (f' a))
    → bind o f ≡ bind o f'
bind-rest n (ret a k) f f' h lt p q = q a k (omega (arith, pending-Grows h.states k.states p))
bind-rest n (throw e k) f f' h lt p q = refl
bind-rest n (blocks s k) f f' h lt p q = refl
bind-rest n (fault x) f f' h lt p q = refl
bind-rest n out_of_fuel f f' h lt p q = refl

catch-rest :
    {A : Type 0} (n : ℕ) (o : Outcome A) (f f' : Exn → M A) (h : Heap)
    → pending h.states < n
    → Post (Evolves h) o
    → ((e : Exn) → Same n (f e) (f' e))
    → catch_outcome o f ≡ catch_outcome o f'
catch-rest n (ret a k) f f' h lt p q = refl
catch-rest n (throw e k) f f' h lt p q = q e k (omega (arith, pending-Grows h.states k.states p))
catch-rest n (blocks s k) f f' h lt p q = refl
catch-rest n (fault x) f f' h lt p q = refl
catch-rest n out_of_fuel f f' h lt p q = refl

pub bind-Same :
    {A B : Type 0} (n : ℕ) (m m' : M A) (f f' : A → M B)
    → IsSafe n m
    → Same n m m'
    → ((a : A) → Same n (f a) (f' a))
    → Same n (m >>= f) (m' >>= f')
bind-Same n m m' f f' safe p q h lt =
    bind-rest n (m h) f f' h lt (safe h lt) q ∙ ap (λ o. bind o f') (p h lt)

pub try_catch-Same :
    {A : Type 0} (n : ℕ) (m m' : M A) (f f' : Exn → M A)
    → IsSafe n m
    → Same n m m'
    → ((e : Exn) → Same n (f e) (f' e))
    → Same n (try_catch m f) (try_catch m' f')
try_catch-Same n m m' f f' safe p q h lt =
    catch-rest n (m h) f f' h lt (safe h lt) q ∙ ap (λ o. catch_outcome o f') (p h lt)

pub continue_with-Same :
    (n s : ℕ) (t : Thunk) (now now' : M (Unit {0}))
    → Same n now now'
    → Same n (continue_with s t now) (continue_with s t now')
unfolding continue_with
continue_with-Same n s t now now' p h lt = elim (Option-cases (get_elem? h.states s)) [
  | inl e ↦ rw e refl
  | inr (st, e) ↦ elim (Bool-cases (is_set st)) [
    | inl done ↦ rw (e, done) (p h lt)
    | inr waits ↦ rw (e, waits) refl
  ]
]

module _ (n : ℕ) (next next' : Thunk → M (Unit {0})) (safe : (t : Thunk) → IsSafe n (next t))
    (same : (t : Thunk) → Same n (next t) (next' t)) where
  for_each-Same : (ts : List Thunk) → Same n (for_each next ts) (for_each next' ts)
  unfolding for_each
  for_each-Same [] = λ h lt. refl
  for_each-Same (t ∷ ts) =
      bind-Same n (next t) (next' t) _ _ (safe t) (same t) (λ _. for_each-Same ts)

  pub set_value_impl-Same :
      (s : ℕ) (v : Val) (b : Bool)
      → Same (suc n) (set_value_impl next s v b) (set_value_impl next' s v b)
  unfolding set_value_impl
  set_value_impl-Same s v b h lt = elim (Option-cases (get_elem? h.states s)) [
    | inl e ↦ rw e refl
    | inr (st, e) ↦ elim (Bool-cases (is_set st)) [
      | inl done ↦ rw (e, done) refl
      | inr waits ↦
          rw (e, waits)
            (for_each-Same st.continuations _ (
              omega (
                arith,
                pending-set h.states s (record st { value = some v; continuations = [] }) e waits
                    refl,
              )))
    ]
  ]

  pub set_exception-Same :
      (s : ℕ) (x : Exn) → Same (suc n) (set_exception next s x) (set_exception next' s x)
  unfolding set_exception
  set_exception-Same s x h lt = elim (Option-cases (get_elem? h.states s)) [
    | inl e ↦ rw e refl
    | inr (st, e) ↦ elim (Bool-cases (is_set st)) [
      | inl done ↦ rw (e, done) refl
      | inr waits ↦
          rw (e, waits)
            (for_each-Same st.continuations _ (
              omega (
                arith,
                pending-set h.states s (record st { exception = some x; continuations = [] }) e
                    waits (ground arith),
              )))
    ]
  ]
