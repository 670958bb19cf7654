-- ===== src/FutureState/Threads/Wakeup.antt =====
-- The threads that wait on a state, and the signals to their block.
-- Sources: wait of ltl/include/ltl/detail/future_state.hpp, ltl/include/ltl/detail/block.hpp.
use ltl.Base.{
  ℕ, ◌+◌, ◌≤◌, ◌≡◌, refl, ap, sym, ◌∙◌, Bool, true, false, not, Option, none, some, is_some, List,
  [], ◌∷◌, ◌++◌, get_elem?, set, arith, Option-cases, inl, inr,
}
use ltl.Heap.{Result, ok, err, Thunk, signal_block, Block, State, is_set}
use ltl.FutureState
use ltl.FutureState.{with_block, block_passes}
use ltl.FutureState.Threads.{
  Activity, running, calling, blocked, returned, System, new_system, lock_continue, lock_complete,
  lock_wait, after_call, Step, continues, completes, waits, calls_next, finishes, calls_now, wakes,
  Reach, here, later,
}
use ltl.FutureState.Threads.Counts.{
  count, count-append, total, total-append, total-set, all_quiet, total-quiet, in_flight,
}
use ltl.FutureState.Threads.Once.{
  lock_continue-count, lock_complete-count, IsCounted, Reach-IsCounted, new_system-IsCounted,
  after_call-continuations,
}
use ltl.FutureState.Threads.Blocked.{
  is_signal, is_blocked, some_blocked, some_blocked-append, some_blocked-set, some_blocked-at,
}

abbrev is_unsignalled : Option Block → Bool
is_unsignalled none = false
is_unsignalled (some b) = not b.signalled

-- A thread that waits has a block, and a block that is not signalled has its signal stored or in
-- flight.
record IsAwaited (y : System) : Type 0 where
  has_block : some_blocked y.activities ≡ true → is_some y.state.block ≡ true
  signal_comes :
      is_unsignalled y.state.block ≡ true
      → 1 ≤ count is_signal y.state.continuations + total is_signal y.activities

begun-IsAwaited :
    (y : System) (x : State × Activity) (h : List Thunk) (c : List Thunk) (k : ℕ)
    → IsAwaited y
    → (is_some y.state.block ≡ true → is_some x.0.block ≡ true)
    → (is_blocked x.1 ≡ true → is_some x.0.block ≡ true)
    → (is_unsignalled x.0.block ≡ true
        → 1
          ≤ count is_signal x.0.continuations
            + in_flight is_signal x.1
            + total is_signal y.activities)
    → IsAwaited (record y {
      state = x.0;
      activities = y.activities ++ x.1 ∷ [];
      handed = h;
      called = c;
      accepted = k;
    })
begun-IsAwaited y x h c k v kept blocks comes = record {
  has_block = λ e. elim (some_blocked-append y.activities x.1 e) [
    | inl f ↦ kept (v.has_block f)
    | inr f ↦ blocks f
  ];
  signal_comes = λ e. omega (arith, comes e, total-append is_signal y.activities (x.1 ∷ []));
}

after_call-some : (t : Thunk) (st : State) → is_some (after_call t st).block ≡ is_some st.block
after_call-some (signal_block s) st = elim (Option-cases st.block) [
  | inl e ↦ rw e refl
  | inr (b, e) ↦ rw e refl
]
after_call-some t st = refl

-- The block is not signalled after the call of a signal, and as before after any other call.
after_call-unsignalled :
    (t : Thunk) (st : State)
    → is_unsignalled (after_call t st).block ≡ true
    → (is_signal t ≡ false) × (is_unsignalled st.block ≡ true)
unfolding FutureState.signal
after_call-unsignalled (signal_block s) st e = ground (arith, Option-cases st.block)
after_call-unsignalled t st e = (refl, e)

went_on-IsAwaited :
    (y : System) (i : ℕ) (a b : Activity) (t : Thunk) (c : List Thunk)
    → IsAwaited y
    → get_elem? y.activities i ≡ some a
    → is_blocked b ≡ false
    → in_flight is_signal a ≡ in_flight is_signal b + count is_signal (t ∷ [])
    → IsAwaited
        (record y { state = after_call t y.state; activities = set y.activities i b; called = c })
went_on-IsAwaited y i a b t c v at_i n e = record {
  has_block = λ f. after_call-some t y.state ∙ v.has_block (some_blocked-set y.activities i b n f);
  signal_comes = λ f.
      let (no_signal, before) = after_call-unsignalled t y.state f in
      rw (after_call-continuations t y.state) (
        ground (
          arith,
          v.signal_comes before,
          no_signal,
          e,
          total-set is_signal y.activities i a b at_i,
        ));
}

quietly-IsAwaited :
    (y : System) (i : ℕ) (a : Activity)
    → IsAwaited y
    → get_elem? y.activities i ≡ some a
    → in_flight is_signal a ≡ 0
    → IsAwaited (record y { activities = set y.activities i returned })
quietly-IsAwaited y i a v at_i e = record {
  has_block = λ f. v.has_block (some_blocked-set y.activities i returned refl f);
  signal_comes =
      λ f. omega (arith, v.signal_comes f, e, total-set is_signal y.activities i a returned at_i);
}

lock_continue-block : (t : Thunk) (st : State) → (lock_continue t st).0.block ≡ st.block
lock_continue-block t st = ground arith

lock_continue-blocked : (t : Thunk) (st : State) → is_blocked (lock_continue t st).1 ≡ false
lock_continue-blocked t st = ground arith

lock_complete-block :
    (r : Result) (b : Bool) (st : State) → (lock_complete r b st).0.block ≡ st.block
lock_complete-block (ok v) b st = ground arith
lock_complete-block (err x) b st = ground arith

lock_complete-blocked :
    (r : Result) (b : Bool) (st : State) → is_blocked (lock_complete r b st).1 ≡ false
lock_complete-blocked r b st = ground arith

-- A call other than `wait` begins: it leaves the block as it is, and any signal stored or in flight.
other-IsAwaited :
    (y : System) (x : State × Activity) (h : List Thunk) (c : List Thunk) (k : ℕ) (m : ℕ)
    → IsAwaited y
    → x.0.block ≡ y.state.block
    → is_blocked x.1 ≡ false
    → count is_signal x.0.continuations + in_flight is_signal x.1
      ≡ count is_signal y.state.continuations + m
    → IsAwaited (record y {
      state = x.0;
      activities = y.activities ++ x.1 ∷ [];
      handed = h;
      called = c;
      accepted = k;
    })
other-IsAwaited y x h c k m v same n e =
    begun-IsAwaited y x h c k v (λ f. ap is_some same ∙ f) (λ f. cc)
      λ f. omega (arith, e, v.signal_comes (ap is_unsignalled (sym same) ∙ f))

lock_wait-some :
    (s : ℕ) (st : State) → is_some st.block ≡ true → is_some (lock_wait s st).0.block ≡ true
lock_wait-some s st e = ground arith

lock_wait-blocked :
    (s : ℕ) (st : State)
    → is_blocked (lock_wait s st).1 ≡ true
    → is_some (lock_wait s st).0.block ≡ true
lock_wait-blocked s st e = ground arith

lock_wait-comes :
    (s : ℕ) (st : State) (k : ℕ)
    → (is_unsignalled st.block ≡ true → 1 ≤ count is_signal st.continuations + k)
    → is_unsignalled (lock_wait s st).0.block ≡ true
    → 1
      ≤ count is_signal (lock_wait s st).0.continuations
        + in_flight is_signal (lock_wait s st).1
        + k
lock_wait-comes s st k v e =
    ground (arith, count-append is_signal st.continuations (signal_block s ∷ []))

Step-IsAwaited : (s : ℕ) {y z : System} → Step s y z → IsAwaited y → IsAwaited z
Step-IsAwaited s {y} (continues t) v =
    other-IsAwaited y (lock_continue t y.state) _ _ _ (count is_signal (t ∷ [])) v
      (lock_continue-block t y.state) (lock_continue-blocked t y.state)
      (lock_continue-count is_signal t y.state)
Step-IsAwaited s {y} (completes r b) v =
    other-IsAwaited y (lock_complete r b y.state) _ _ _ 0 v (lock_complete-block r b y.state)
      (lock_complete-blocked r b y.state) (omega (arith, lock_complete-count is_signal r b y.state))
Step-IsAwaited s {y} waits v =
    begun-IsAwaited y (lock_wait s y.state) _ _ _ v (lock_wait-some s y.state)
      (lock_wait-blocked s y.state)
      (lock_wait-comes s y.state (total is_signal y.activities) v.signal_comes)
Step-IsAwaited s {y} (calls_next i t ts at_i) v =
    went_on-IsAwaited y i (running (t ∷ ts)) (running ts) t _ v at_i refl (omega arith)
Step-IsAwaited s {y} (finishes i at_i) v = quietly-IsAwaited y i (running []) v at_i refl
Step-IsAwaited s {y} (calls_now i t at_i) v =
    went_on-IsAwaited y i (calling t) returned t _ v at_i refl (omega arith)
Step-IsAwaited s {y} (wakes i at_i _) v = quietly-IsAwaited y i blocked v at_i refl

Reach-IsAwaited : (s : ℕ) {x y : System} → IsAwaited x → Reach s x y → IsAwaited y
Reach-IsAwaited s v here = v
Reach-IsAwaited s v (later r st) = Step-IsAwaited s st (Reach-IsAwaited s v r)

new_system-IsAwaited : (tq : Option ℕ) → IsAwaited (new_system tq)
new_system-IsAwaited tq = record { has_block = λ e. cc; signal_comes = λ e. cc }

-- Whatever threads call the operations of a new state, interleaved in any way: once the state is set
-- and each call has returned or thrown or waits for the block, each thread that waits may go on,
-- since the block is signalled.
pub Reach-no_lost_wakeup :
    (s : ℕ) (tq : Option ℕ) (y : System) (i : ℕ)
    → Reach s (new_system tq) y
    → is_set y.state ≡ true
    → all_quiet y.activities ≡ true
    → get_elem? y.activities i ≡ some blocked
    → block_passes y.state.block ≡ true
Reach-no_lost_wakeup s tq y i r e q at_i =
    let v : IsAwaited y = Reach-IsAwaited s (new_system-IsAwaited tq) r in
    let c : IsCounted y = Reach-IsCounted s (new_system-IsCounted tq) r in
    ground (
      arith,
      v.has_block (some_blocked-at y.activities i at_i),
      v.signal_comes,
      ap (count is_signal) (c.emptied e),
      total-quiet is_signal y.activities q,
    )
