-- ===== src/IoManager/Thread/Stop.antt =====
-- What `stop` waits for, and what becomes of tasks that come too late.
-- Source: lio/src/lio/iomanager.cpp.
use mathlib.Core.Bool.{false≢true}
use ltl.Base.{
  ℕ, ◌≡◌, refl, sym, ap, subst, ◌∙◌, Bool, true, false, ◌||◌, List, [], ◌∷◌, ◌++◌, arith,
  append_assoc, append-nil, ◌&&◌, if-cases,
}
use ltl.IoManager.Thread.{
  Item, task, stop_of, Position, off, polling, draining, Machine, Event, executes, runs, stops,
  joins, wakes, advances, leaves, hand_over, begin_stop, is_stop_of, has_stop_of, is_off, end_stop,
  wake, swap_tasks, advance, leave, act, step, run_events, start_thread,
}
use ltl.IoManager.Thread.Order.{IsOrderly, hand_over-IsOrderly, run_events-IsOrderly, taken}

neither : (a b : Bool) → (a || b) ≡ false → (a ≡ false) × (b ≡ false)
neither false b e = (refl, e)
neither true b e = absurd (false≢true (sym e))

other : (a b : Bool) → a ≡ false → (a || b) ≡ true → b ≡ true
other false b e f = f
other true b e f = absurd (false≢true (sym e))

module _ {T : Type 0} where
  -- The second list goes on after the first.
  abbrev pub Extends : List (Item T) → List (Item T) → Type 0
  Extends is js = (ks : List (Item T)) × (js ≡ is ++ ks)

  Extends-refl : (is : List (Item T)) → Extends is is
  Extends-refl is = ([], sym (append-nil is))

  Extends-trans : (is js ks : List (Item T)) → Extends is js → Extends js ks → Extends is ks
  Extends-trans is js ks (a, e) (b, f) = (a ++ b, f ∙ ap (λ js. js ++ b) e ∙ append_assoc is a b)

  advance-handed : (is : List (Item T)) (m : Machine T) → (advance is m).handed ≡ m.handed
  unfolding advance
  advance-handed (i ∷ is) m = refl
  advance-handed [] m = swapped m.manager.task_queue
    where
      swapped : (is : List (Item T)) → (swap_tasks is m).handed ≡ m.handed
      swapped [] = refl
      swapped (i ∷ is) = refl

  act-handed : (p : Position T) (e : Event T) (m : Machine T) → (act p e m).handed ≡ m.handed
  unfolding wake leave
  act-handed polling wakes m =
      if-cases (λ (k : Machine T). k.handed ≡ m.handed) m.manager.signalled _ _ (λ _. refl)
        λ _. refl
  act-handed polling leaves m =
      if-cases (λ (k : Machine T). k.handed ≡ m.handed) m.manager.stopping _ _ (λ _. refl) λ _. refl
  act-handed (draining is) advances m = advance-handed is m
  act-handed p e m = refl

  step-handed : (e : Event T) (m : Machine T) → Extends m.handed (step e m).handed
  unfolding step hand_over start_thread begin_stop end_stop
  step-handed (executes t) m = (task t ∷ [], refl)
  step-handed runs m =
      if-cases (λ (k : Machine T). Extends m.handed k.handed) m.manager.joinable _ _
        (λ _. Extends-refl m.handed) λ _. Extends-refl m.handed
  step-handed (stops c) m =
      if-cases (λ (k : Machine T). Extends m.handed k.handed) m.manager.joinable _ _
        (λ _. (stop_of c ∷ [], refl)) λ _. Extends-refl m.handed
  step-handed (joins c) m =
      if-cases (λ (k : Machine T). Extends m.handed k.handed)
        (has_stop_of c m.ran && is_off m.position) _ _
        (λ _.
          if-cases (λ (k : Machine T). Extends m.handed k.handed) m.manager.joinable _ _
            (λ _. Extends-refl m.handed) λ _. Extends-refl m.handed)
        λ _. Extends-refl m.handed
  step-handed e m = ([], act-handed m.position e m ∙ sym (append-nil m.handed))

  run_events-handed :
      (es : List (Event T)) (m : Machine T) → Extends m.handed (run_events es m).handed
  unfolding run_events
  run_events-handed [] m = Extends-refl m.handed
  run_events-handed (e ∷ es) m =
      Extends-trans m.handed _ _ (step-handed e m) (run_events-handed es (step e m))

  -- Of two lists with a common continuation, that with the stop goes on past the first one.
  past_stop :
      (c : ℕ) (xs ys bs cs : List (Item T))
      → xs ++ ys ≡ (bs ++ stop_of c ∷ []) ++ cs
      → has_stop_of c bs ≡ false
      → has_stop_of c xs ≡ true
      → Extends (bs ++ stop_of c ∷ []) xs
  past_stop c [] ys bs cs e f g = absurd (false≢true g)
  past_stop c (x ∷ xs) ys [] cs e f g = (xs, cc)
  past_stop c (x ∷ xs) ys (b ∷ bs) cs e f g =
      let (h, t) = neither (is_stop_of c b) (has_stop_of c bs) f in
      let x_is : x ≡ b = cc in
      let (ks, q) =
        past_stop c xs ys bs cs (cc) t (other (is_stop_of c x) _ (ap (is_stop_of c) x_is ∙ h) g) in
      (ks, cc)

  pub has_stop_of-append :
      (c : ℕ) (is : List (Item T)) → has_stop_of c (is ++ stop_of c ∷ []) ≡ true
  has_stop_of-append c [] = ground arith
  has_stop_of-append c (i ∷ is) = ground (arith, has_stop_of-append c is)

  pub begins :
      (c : ℕ) (m : Machine T) → m.manager.joinable ≡ true → begin_stop c m ≡ hand_over (stop_of c) m
  unfolding begin_stop
  begins c m j = simp j refl

  -- Let the loop's thread be started, the manager in order, and call `c` of `stop` a new one. When
  -- that call is over its wait, whatever all threads have done meanwhile, all that was handed to
  -- `execute` before it has run, and then the lambda of the call.
  pub stop_waits_for_earlier :
      (c : ℕ) (es : List (Event T)) (m : Machine T)
      → IsOrderly m
      → m.manager.joinable ≡ true
      → has_stop_of c m.handed ≡ false
      → has_stop_of c (run_events es (begin_stop c m)).ran ≡ true
      → Extends (m.handed ++ stop_of c ∷ []) (run_events es (begin_stop c m)).ran
  unfolding hand_over
  stop_waits_for_earlier c es m v j fresh over =
      let k : Machine T = run_events es (hand_over (stop_of c) m) in
      let (later, q) = run_events-handed es (hand_over (stop_of c) m) in
      let valid : IsOrderly k =
        run_events-IsOrderly es (hand_over (stop_of c) m) (hand_over-IsOrderly (stop_of c) m v) in
      subst (λ k. Extends (m.handed ++ stop_of c ∷ []) (run_events es k).ran) (sym (begins c m j))
        (past_stop c k.ran (taken k.position ++ k.manager.task_queue) m.handed later
          (valid.in_order ∙ q) fresh
          (subst (λ k. has_stop_of c (run_events es k).ran ≡ true) (begins c m j) over))

  abbrev is_start : Event T → Bool
  is_start runs = true
  is_start e = false

  abbrev NoStart : List (Event T) → Type 0
  NoStart [] = Unit {0}
  NoStart (e ∷ es) = (is_start e ≡ false) × NoStart es

  -- The thread is gone, and these have run.
  record IsGone (is : List (Item T)) (m : Machine T) : Type 0 where
    pub gone : m.position ≡ off
    pub no_more : m.ran ≡ is

  step-IsGone :
      (is : List (Item T)) (e : Event T) (m : Machine T)
      → is_start e ≡ false
      → IsGone is m
      → IsGone is (step e m)
  unfolding step hand_over begin_stop end_stop
  step-IsGone is (executes t) m n g = record { gone = g.gone; no_more = g.no_more }
  step-IsGone is (stops c) m n g =
      if-cases (IsGone is) m.manager.joinable _ _
        (λ _. record { gone = g.gone; no_more = g.no_more }) λ _. g
  step-IsGone is (joins c) m n g =
      if-cases (IsGone is) (has_stop_of c m.ran && is_off m.position) _ _
        (λ _.
          if-cases (IsGone is) m.manager.joinable _ _
            (λ _. record { gone = g.gone; no_more = g.no_more })
            λ _. record { gone = g.gone; no_more = g.no_more })
        λ _. g
  step-IsGone is runs m n g = absurd (false≢true (sym n))
  step-IsGone is e m n g = subst (λ p. IsGone is (act p e m)) (sym g.gone) g

  -- Once the loop's thread has left uv_run, and unless `run` is called again, nothing runs any more,
  -- whatever is handed to `execute` by then or later.
  late_never_runs :
      (es : List (Event T)) (m : Machine T)
      → m.position ≡ off
      → NoStart es
      → (run_events es m).ran ≡ m.ran
  unfolding run_events
  late_never_runs es m p n = (stays es m n (record { gone = p; no_more = refl })).no_more
    where
      stays :
          (es : List (Event T)) (k : Machine T)
          → NoStart es
          → IsGone m.ran k
          → IsGone m.ran (run_events es k)
      stays [] k n g = g
      stays (e ∷ es) k n g = stays es (step e k) n.1 (step-IsGone m.ran e k n.0 g)
