-- ===== src/FutureState/Threads/Once.antt =====
-- How often the functions handed over are called, whatever the threads do.
-- Sources: then, continue_with, set_value_impl and set_exception of
-- ltl/include/ltl/detail/future_state.hpp.
use ltl.Base.{
  ℕ, ◌+◌, ◌≤◌, ◌≡◌, refl, ap, sym, ◌∙◌, Bool, true, false, Option, some, List, [], ◌∷◌, ◌++◌,
  get_elem?, set, if◌then◌else◌, arith, Bool-cases, Option-cases, inl, inr,
}
use ltl.Heap.{Result, ok, err, Thunk, signal_block, State, is_set}
use ltl.Heap.Growth.{Keeps, Keeps-refl}
use ltl.Future.Order.{completed}
use ltl.FutureState.Threads.{
  Activity, running, calling, blocked, returned, rejected, System, new_system, lock_continue,
  lock_complete, accepts, lock_wait, signals, after_call, Step, continues, completes, waits,
  calls_next, finishes, calls_now, wakes, Reach, here, later,
}
use ltl.FutureState.Threads.Counts.{
  count, count-append, total, total-append, total-set, all_quiet, total-quiet, in_flight,
}

pub record IsCounted (y : System) : Type 0 where
  all_there :
      (p : Thunk → Bool)
      → count p y.handed ≡ count p y.state.continuations + total p y.activities + count p y.called
  pub emptied : is_set y.state ≡ true → y.state.continuations ≡ []
  at_most_once : y.accepted ≡ (if is_set y.state then 1 else 0)

pub new_system-IsCounted : (tq : Option ℕ) → IsCounted (new_system tq)
new_system-IsCounted tq = record { all_there = λ p. refl; emptied = λ e. refl; at_most_once = refl }

-- What a locked region does to the functions stored, and to those in flight.
pub lock_continue-count :
    (p : Thunk → Bool) (t : Thunk) (st : State)
    → count p (lock_continue t st).0.continuations + in_flight p (lock_continue t st).1
      ≡ count p st.continuations + count p (t ∷ [])
lock_continue-count p t st = elim (Bool-cases (is_set st)) [
  | inl e ↦ rw e refl
  | inr e ↦ rw e (omega (arith, count-append p st.continuations (t ∷ [])))
]

pub lock_complete-count :
    (p : Thunk → Bool) (r : Result) (b : Bool) (st : State)
    → count p (lock_complete r b st).0.continuations + in_flight p (lock_complete r b st).1
      ≡ count p st.continuations
lock_complete-count p r b st = elim (Bool-cases (is_set st)) [
  | inl e ↦ rw e (refused b)
  | inr e ↦ rw e (taken r)
]
  where
    refused :
        (b : Bool)
        → count p st.continuations + in_flight p (if b then rejected else returned)
          ≡ count p st.continuations
    refused true = omega arith
    refused false = omega arith

    taken :
        (r : Result)
        → count p (completed st r).continuations + count p st.continuations
          ≡ count p st.continuations
    taken (ok v) = omega arith
    taken (err x) = omega arith

lock_wait-count :
    (p : Thunk → Bool) (s : ℕ) (st : State)
    → count p (lock_wait s st).0.continuations + in_flight p (lock_wait s st).1
      ≡ count p st.continuations + count p (signals s st)
lock_wait-count p s st = elim (Bool-cases (is_set st)) [
  | inl e ↦ rw e refl
  | inr e ↦ elim (Option-cases st.block) [
    | inl f ↦ rw (e, f) (omega (arith, count-append p st.continuations (signal_block s ∷ [])))
    | inr (b, f) ↦ rw (e, f) refl
  ]
]

pub after_call-continuations :
    (t : Thunk) (st : State) → (after_call t st).continuations ≡ st.continuations
after_call-continuations (signal_block s) st = refl
after_call-continuations t st = refl

after_call-Keeps : (t : Thunk) (st : State) → Keeps st (after_call t st)
after_call-Keeps (signal_block s) st = record { value_kept = λ _. refl; exception_kept = λ _. refl }
after_call-Keeps t st = Keeps-refl st

-- A call begins: what its locked region stores or takes along is what was there and what is new.
begun-all_there :
    (y : System) (x : State × Activity) (new : List Thunk) (p : Thunk → Bool)
    → IsCounted y
    → count p x.0.continuations + in_flight p x.1 ≡ count p y.state.continuations + count p new
    → count p (y.handed ++ new)
      ≡ count p x.0.continuations + total p (y.activities ++ x.1 ∷ []) + count p y.called
begun-all_there y x new p v e =
    omega
      (arith, v.all_there p, e, count-append p y.handed new, total-append p y.activities (x.1 ∷ []))

-- A call goes on.
went_on-all_there :
    (y : System) (i : ℕ) (a b : Activity) (st : State) (new : List Thunk) (p : Thunk → Bool)
    → IsCounted y
    → get_elem? y.activities i ≡ some a
    → st.continuations ≡ y.state.continuations
    → in_flight p a ≡ in_flight p b + count p new
    → count p y.handed
      ≡ count p st.continuations + total p (set y.activities i b) + count p (y.called ++ new)
went_on-all_there y i a b st new p v at_i same e = rw same (
    omega
      (arith, v.all_there p, e, count-append p y.called new, total-set p y.activities i a b at_i))

is_set-after_call : (t : Thunk) (st : State) → is_set (after_call t st) ≡ is_set st
is_set-after_call (signal_block s) st = refl
is_set-after_call t st = refl

called-IsCounted :
    (y : System) (i : ℕ) (a b : Activity) (t : Thunk)
    → IsCounted y
    → get_elem? y.activities i ≡ some a
    → ((p : Thunk → Bool) → in_flight p a ≡ in_flight p b + count p (t ∷ []))
    → IsCounted (record y {
      state = after_call t y.state;
      activities = set y.activities i b;
      called = y.called ++ t ∷ [];
    })
called-IsCounted y i a b t v at_i e = record {
  all_there = λ p.
      went_on-all_there y i a b (after_call t y.state) (t ∷ []) p v at_i
        (after_call-continuations t y.state) (e p);
  emptied =
      λ q. after_call-continuations t y.state ∙ v.emptied (sym (is_set-after_call t y.state) ∙ q);
  at_most_once = rw (is_set-after_call t y.state) v.at_most_once;
}

quietly-IsCounted :
    (y : System) (i : ℕ) (a : Activity)
    → IsCounted y
    → get_elem? y.activities i ≡ some a
    → ((p : Thunk → Bool) → in_flight p a ≡ 0)
    → IsCounted (record y { activities = set y.activities i returned })
quietly-IsCounted y i a v at_i e = record {
  all_there = λ p. omega (arith, v.all_there p, e p, total-set p y.activities i a returned at_i);
  emptied = v.emptied;
  at_most_once = v.at_most_once;
}

completed-emptied :
    (r : Result) (b : Bool) (st : State)
    → (is_set st ≡ true → st.continuations ≡ [])
    → is_set (lock_complete r b st).0 ≡ true
    → (lock_complete r b st).0.continuations ≡ []
completed-emptied (ok v) b st e = ground arith
completed-emptied (err x) b st e = ground arith

completed-at_most_once :
    (r : Result) (b : Bool) (st : State) {n : ℕ}
    → n ≡ (if is_set st then 1 else 0)
    → n + accepts (lock_complete r b st).1 ≡ (if is_set (lock_complete r b st).0 then 1 else 0)
completed-at_most_once (ok v) b st e = ground arith
completed-at_most_once (err x) b st e = ground arith

Step-IsCounted : (s : ℕ) {y z : System} → Step s y z → IsCounted y → IsCounted z
Step-IsCounted s {y} (continues t) v = record {
  all_there = λ p.
      begun-all_there y (lock_continue t y.state) (t ∷ []) p v (lock_continue-count p t y.state);
  emptied = ground arith;
  at_most_once = ground arith;
}
Step-IsCounted s {y} (completes r b) v = record {
  all_there = λ p. omega (
    arith,
    v.all_there p,
    lock_complete-count p r b y.state,
    total-append p y.activities ((lock_complete r b y.state).1 ∷ []),
  );
  emptied = completed-emptied r b y.state v.emptied;
  at_most_once = completed-at_most_once r b y.state v.at_most_once;
}
Step-IsCounted s {y} waits v = record {
  all_there = λ p.
      begun-all_there y (lock_wait s y.state) (signals s y.state) p v (lock_wait-count p s y.state);
  emptied = ground arith;
  at_most_once = ground arith;
}
Step-IsCounted s {y} (calls_next i t ts at_i) v =
    called-IsCounted y i (running (t ∷ ts)) (running ts) t v at_i (λ p. omega arith)
Step-IsCounted s {y} (finishes i at_i) v = quietly-IsCounted y i (running []) v at_i (λ p. refl)
Step-IsCounted s {y} (calls_now i t at_i) v =
    called-IsCounted y i (calling t) returned t v at_i (λ p. omega arith)
Step-IsCounted s {y} (wakes i at_i _) v = quietly-IsCounted y i blocked v at_i (λ p. refl)

pub Reach-IsCounted : (s : ℕ) {x y : System} → IsCounted x → Reach s x y → IsCounted y
Reach-IsCounted s v here = v
Reach-IsCounted s v (later r st) = Step-IsCounted s st (Reach-IsCounted s v r)

-- Whatever threads call the operations of a new state, in any order and interleaved at the mutex in
-- any way, where the functions called do not throw: at any moment, of the functions handed over that
-- pass any test, no more have been called than were handed over, and at most one completion was
-- accepted.
pub Reach-at_most_once :
    (s : ℕ) (tq : Option ℕ) (y : System) (p : Thunk → Bool)
    → Reach s (new_system tq) y
    → (count p y.called ≤ count p y.handed) × (y.accepted ≤ 1)
Reach-at_most_once s tq y p r =
    let v : IsCounted y = Reach-IsCounted s (new_system-IsCounted tq) r in
    (omega (arith, v.all_there p), ground (arith, v.at_most_once))

-- Whatever threads call the operations of a new state, interleaved in any way, where
-- the functions called do not throw: once the state is set
-- and each call has returned or thrown or waits for the block, of the functions handed over that
-- pass any test, as many were called as were handed over, and exactly one completion was accepted.
pub Reach-exactly_once :
    (s : ℕ) (tq : Option ℕ) (y : System) (p : Thunk → Bool)
    → Reach s (new_system tq) y
    → is_set y.state ≡ true
    → all_quiet y.activities ≡ true
    → (count p y.called ≡ count p y.handed) × (y.accepted ≡ 1)
Reach-exactly_once s tq y p r e q =
    let v : IsCounted y = Reach-IsCounted s (new_system-IsCounted tq) r in
    (
      omega (arith, v.all_there p, ap (count p) (v.emptied e), total-quiet p y.activities q),
      ground (arith, v.at_most_once),
    )
