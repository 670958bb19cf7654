-- ===== src/FutureState/Threads/Alone.antt =====
-- One call of an operation with no other thread about: its locked region, and what follows it.
-- Source: wait, continue_with, set_value_impl and set_exception of
-- ltl/include/ltl/detail/future_state.hpp.
use ltl.Base.{
  ℕ, ◌≡◌, refl, ap, Bool, true, false, some, get_elem?, set, set-get_elem?, if◌then◌else◌,
  Bool-cases, inl, inr,
}
use ltl.Heap.{ok, err, Thunk, Exn, State, is_set, Heap, M, ◌>>◌, give, raise, store, Val}
use ltl.FutureState
use ltl.FutureState.{block_passes, pass_or_block, for_each}
use ltl.FutureState.Threads.{
  Activity, running, calling, blocked, returned, rejected, lock_continue, lock_complete, lock_wait,
}

-- What a call does after its locked region has left the state `st`; `now` is the call of its own
-- function.
abbrev after_lock : (Thunk → M (Unit {0})) → M (Unit {0}) → ℕ → State → Activity → M (Unit {0})
after_lock run now s st (running ts) = for_each run ts
after_lock run now s st (calling t) = now
after_lock run now s st blocked = pass_or_block (block_passes st.block) s
after_lock run now s st returned = give tt
after_lock run now s st rejected = raise Exn.promise_already_satisfied

-- The locked region and what follows it.
abbrev pub alone : (Thunk → M (Unit {0})) → M (Unit {0}) → ℕ → State × Activity → M (Unit {0})
alone run now s x = store s x.0 >> after_lock run now s x.0 x.1

module _ (run : Thunk → M (Unit {0})) (now : M (Unit {0})) (s : ℕ) (h : Heap) {st : State}
    (at_s : get_elem? h.states s ≡ some st) where
  same_heap : record h { states = set h.states s st } ≡ h
  same_heap = ap (λ xs. record h { states = xs }) (set-get_elem? h.states s at_s)

  continue_with-alone :
      (t : Thunk) → FutureState.continue_with s t now h ≡ alone run now s (lock_continue t st) h
  unfolding FutureState.continue_with
  continue_with-alone t = elim (Bool-cases (is_set st)) [
    | inl e ↦ rw (at_s, e, same_heap) refl
    | inr e ↦ rw (at_s, e) refl
  ]

  set_value_impl-alone :
      (v : Val) (b : Bool)
      → FutureState.set_value_impl run s v b h ≡ alone run now s (lock_complete (ok v) b st) h
  unfolding FutureState.set_value_impl
  set_value_impl-alone v b = elim (Bool-cases (is_set st)) [
    | inl e ↦ rw (at_s, e, same_heap) (refused b)
    | inr e ↦ rw (at_s, e) refl
  ]
    where
      refused :
          (b : Bool)
          → (if b then raise Exn.promise_already_satisfied else give tt) h
            ≡ after_lock run now s st (if b then rejected else returned) h
      refused true = refl
      refused false = refl

  set_exception-alone :
      (x : Exn)
      → FutureState.set_exception run s x h ≡ alone run now s (lock_complete (err x) true st) h
  unfolding FutureState.set_exception
  set_exception-alone x = elim (Bool-cases (is_set st)) [
    | inl e ↦ rw (at_s, e, same_heap) refl
    | inr e ↦ rw (at_s, e) refl
  ]

  wait-alone : FutureState.wait s h ≡ alone run now s (lock_wait s st) h
  unfolding FutureState.wait
  wait-alone = elim (Bool-cases (is_set st)) [
    | inl e ↦ rw (at_s, e, same_heap) refl
    | inr e ↦ rw (at_s, e) refl
  ]

  -- Without other threads about, each operation of a state does its locked region, and then what
  -- the activity that this leaves behind stands for, and nothing else.
  pub operations-alone :
      (t : Thunk) (v : Val) (b : Bool) (x : Exn)
      → (FutureState.continue_with s t now h ≡ alone run now s (lock_continue t st) h)
        × (FutureState.set_value_impl run s v b h ≡ alone run now s (lock_complete (ok v) b st) h)
        × (FutureState.set_exception run s x h ≡ alone run now s (lock_complete (err x) true st) h)
        × (FutureState.wait s h ≡ alone run now s (lock_wait s st) h)
  operations-alone t v b x =
      (continue_with-alone t, set_value_impl-alone v b, set_exception-alone x, wait-alone)
