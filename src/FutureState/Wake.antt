-- ===== src/FutureState/Wake.antt =====
-- A thread that waits on a state, and the completion of the state.
-- Sources: wait, set_value and set_exception of ltl/include/ltl/detail/future_state.hpp,
-- ltl/include/ltl/detail/block.hpp.
use ltl.Base.{
  ℕ, suc, ◌≡◌, refl, ap, ◌∙◌, true, Option, none, some, [], ◌∷◌, get_elem?, set, get_elem?-set_self,
  set-set,
}
use ltl.Heap.{
  Result, ok, err, State, is_set, Heap, ret, blocks, bind, signal_block, Block, new_block,
}
use ltl.FutureState
use ltl.Run.{UserCode, run}
use ltl.Future.Order.{
  complete, completed, complete-pending, completed-is_set, for_each-one, unwatched,
}

-- The waiter's block is registered.
abbrev waited : ℕ → Option ℕ → State
waited s tq = record (unwatched tq (some new_block)) { continuations = signal_block s ∷ [] }

abbrev signalled : Block
signalled = record { signalled = true }

wait-blocks :
    (s : ℕ) (h : Heap) (tq : Option ℕ)
    → get_elem? h.states s ≡ some (unwatched tq none)
    → FutureState.wait s h ≡ blocks s (record h { states = set h.states s (waited s tq) })
unfolding FutureState.wait
wait-blocks s h tq e = rw e refl

run-signal_block :
    (env : UserCode) (n s : ℕ) (tq : Option ℕ) (r : Result) (h : Heap)
    → get_elem? h.states s ≡ some (completed (unwatched tq (some new_block)) r)
    → run env (suc n) (signal_block s) h
      ≡ ret tt (record h { states = set h.states s (completed (unwatched tq (some signalled)) r) })
unfolding run FutureState.signal
run-signal_block env n s tq (ok v) h e = rw e refl
run-signal_block env n s tq (err x) h e = rw e refl

completed-waited :
    (s : ℕ) (tq : Option ℕ) (r : Result)
    → completed (waited s tq) r ≡ completed (unwatched tq (some new_block)) r
completed-waited s tq (ok v) = refl
completed-waited s tq (err x) = refl

wait-set :
    (s : ℕ) (h : Heap) (st : State)
    → get_elem? h.states s ≡ some st
    → is_set st ≡ true
    → FutureState.wait s h ≡ ret tt h
unfolding FutureState.wait
wait-set s h st e p = rw (e, p) refl

wait-waited :
    (s : ℕ) (h : Heap) (tq : Option ℕ)
    → get_elem? h.states s ≡ some (waited s tq)
    → FutureState.wait s h ≡ blocks s (record h { states = set h.states s (waited s tq) })
unfolding FutureState.wait
wait-waited s h tq e = rw e refl

module _ (env : UserCode) (n s : ℕ) (r : Result) (tq : Option ℕ) (h : Heap)
    (e : get_elem? h.states s ≡ some (unwatched tq none)) where
  abbrev asleep : Heap
  asleep = record h { states = set h.states s (waited s tq) }

  abbrev awake : Heap
  awake = record h { states = set h.states s (completed (unwatched tq (some signalled)) r) }

  complete-waited : complete (run env (suc n)) s r asleep ≡ ret tt awake
  complete-waited =
      rw
        (
          complete-pending (run env (suc n)) s r asleep
              (get_elem?-set_self h.states s (waited s tq) e) refl,
          for_each-one (run env (suc n)) (signal_block s),
          set-set h.states s (waited s tq) (completed (waited s tq) r),
          completed-waited s tq r,
        )
        (run-signal_block env n s tq r _
            (get_elem?-set_self h.states s (completed (unwatched tq (some new_block)) r) e)
          ∙ ap (λ xs. ret tt (record h { states = xs })) (set-set h.states s _ _))

  -- A thread that waits on a pending state, the first to do so, blocks; to complete the state, by a value or by an
  -- exception, signals the block, so that the wait, tried again, goes through at once, and changes nothing.
  wait-complete_wakes :
      (FutureState.wait s h ≡ blocks s asleep)
      × (FutureState.wait s asleep ≡ blocks s asleep)
      × (bind (complete (run env (suc n)) s r asleep) (λ _. FutureState.wait s) ≡ ret tt awake)
  wait-complete_wakes = (
    wait-blocks s h tq e,
    wait-waited s asleep tq (get_elem?-set_self h.states s (waited s tq) e)
        ∙ ap (λ xs. blocks s (record h { states = xs })) (set-set h.states s _ _),
    rw complete-waited (
        wait-set s awake (completed (unwatched tq (some signalled)) r)
          (get_elem?-set_self h.states s _ e) (completed-is_set (unwatched tq (some signalled)) r)),
  )
