-- ===== src/IoManager/Thread/Order.antt =====
-- The order in which the loop runs what is handed to `execute`, and that no signal is lost.
-- Source: lio/src/lio/iomanager.cpp.
use mathlib.Core.Bool.{false≢true}
use ltl.Base.{
  ℕ, ◌≡◌, refl, sym, ap, subst, ◌∙◌, Bool, true, false, ◌&&◌, List, [], ◌∷◌, ◌++◌, arith, ◌⊎◌, inl,
  inr, append_assoc, append-nil, if-cases,
}
use ltl.IoManager.{execute, run_loop, stop_loop}
use ltl.IoManager.Thread.{
  Item, task, stop_of, Position, off, polling, draining, Machine, Event, executes, runs, stops,
  joins, wakes, advances, leaves, new_iomanager, hand_over, start_thread, begin_stop, has_stop_of,
  is_off, end_stop, wake, swap_tasks, run_item, advance, leave, act, step, run_events,
}

module _ {T : Type 0} where
  -- The tasks that the thread has taken out of the queue and not yet run.
  abbrev pub taken : Position T → List (Item T)
  taken (draining is) = is
  taken p = []

  -- With a task in the queue, the thread is in `on_async_new_task` or a signal is pending.
  abbrev Awake : Position T → List (Item T) → Bool → Type 0
  Awake (draining is) queue signalled = Unit {0}
  Awake p queue signalled = (queue ≡ []) ⊎ (signalled ≡ true)

  pub record IsOrderly (m : Machine T) : Type 0 where
    pub in_order : m.ran ++ (taken m.position ++ m.manager.task_queue) ≡ m.handed
    pub awake : Awake m.position m.manager.task_queue m.manager.signalled
    pub one_thread : (m.manager.joinable ≡ true) ⊎ (m.position ≡ off)

  Awake-signalled : (p : Position T) (is : List (Item T)) → Awake p is true
  Awake-signalled off is = inr refl
  Awake-signalled polling is = inr refl
  Awake-signalled (draining ts) is = tt

  pub hand_over-IsOrderly : (i : Item T) (m : Machine T) → IsOrderly m → IsOrderly (hand_over i m)
  unfolding hand_over execute
  hand_over-IsOrderly i m v = record {
    in_order =
        ap (◌++◌ m.ran) (sym (append_assoc (taken m.position) m.manager.task_queue (i ∷ [])))
        ∙ sym (append_assoc m.ran (taken m.position ++ m.manager.task_queue) (i ∷ []))
        ∙ ap (λ is. is ++ i ∷ []) v.in_order;
    awake = Awake-signalled m.position (m.manager.task_queue ++ i ∷ []);
    one_thread = v.one_thread;
  }

  begin_stop-IsOrderly : (c : ℕ) (m : Machine T) → IsOrderly m → IsOrderly (begin_stop c m)
  unfolding begin_stop
  begin_stop-IsOrderly c m v =
      if-cases IsOrderly m.manager.joinable _ _ (λ e. hand_over-IsOrderly (stop_of c) m v) λ e. v

  -- What the thread has taken, at a position known.
  pub order_at :
      (p : Position T) (m : Machine T)
      → m.position ≡ p
      → IsOrderly m
      → m.ran ++ (taken p ++ m.manager.task_queue) ≡ m.handed
  order_at p m e v = subst (λ p. m.ran ++ (taken p ++ m.manager.task_queue) ≡ m.handed) e v.in_order

  -- A thread that is somewhere has been started.
  started :
      (p : Position T) (m : Machine T)
      → m.position ≡ p
      → is_off p ≡ false
      → IsOrderly m
      → m.manager.joinable ≡ true
  started p m e f v = elim v.one_thread [
    | inl j ↦ j
    | inr o ↦ absurd (false≢true (sym f ∙ ap is_off (sym e ∙ o)))
  ]

  -- No thread is started while one runs.
  stopped : (m : Machine T) → m.manager.joinable ≡ false → IsOrderly m → m.position ≡ off
  stopped m e v = elim v.one_thread [ inl j ↦ absurd (false≢true (sym e ∙ j)) | inr o ↦ o ]

  start_thread-IsOrderly : (m : Machine T) → IsOrderly m → IsOrderly (start_thread m)
  unfolding start_thread run_loop
  start_thread-IsOrderly m v =
      if-cases IsOrderly m.manager.joinable _
        (record m { manager = run_loop m.manager; position = polling }) (λ e. v)
        λ e. rw e (record {
          in_order = order_at off m (stopped m e v) v;
          awake =
              subst (λ p. Awake p m.manager.task_queue m.manager.signalled) (stopped m e v) v.awake;
          one_thread = inl refl;
        })

  is_off_lem : (p : Position T) → is_off p ≡ true → p ≡ off
  is_off_lem off e = refl
  is_off_lem polling e = absurd (false≢true e)
  is_off_lem (draining is) e = absurd (false≢true e)

  end_stop-IsOrderly : (c : ℕ) (m : Machine T) → IsOrderly m → IsOrderly (end_stop c m)
  unfolding end_stop
  end_stop-IsOrderly c m v =
      if-cases IsOrderly (has_stop_of c m.ran && is_off m.position) _ _
        (λ e.
          if-cases IsOrderly m.manager.joinable _ _
            (λ _. record {
              in_order = v.in_order;
              awake = v.awake;
              one_thread = inr (is_off_lem m.position (ground (arith, e)));
            })
            λ _. record { in_order = v.in_order; awake = v.awake; one_thread = v.one_thread })
        λ e. v

  wake-IsOrderly : (m : Machine T) → m.position ≡ polling → IsOrderly m → IsOrderly (wake m)
  unfolding wake
  wake-IsOrderly m e v =
      if-cases IsOrderly m.manager.signalled _ _
        (λ _. record {
          in_order = order_at polling m e v;
          awake = tt;
          one_thread = inl (started polling m e refl v);
        })
        λ _. v

  advance-IsOrderly :
      (is : List (Item T)) (m : Machine T)
      → m.position ≡ draining is
      → IsOrderly m
      → IsOrderly (advance is m)
  unfolding advance stop_loop
  advance-IsOrderly [] m e v = swapped m.manager.task_queue refl
    where
      swapped : (is : List (Item T)) → m.manager.task_queue ≡ is → IsOrderly (swap_tasks is m)
      swapped [] f = record {
        in_order = order_at (draining []) m e v;
        awake = inl f;
        one_thread = inl (started (draining []) m e refl v);
      }
      swapped (i ∷ is) f = record {
        in_order = ap (◌++◌ m.ran) (append-nil (i ∷ is) ∙ sym f) ∙ order_at (draining []) m e v;
        awake = tt;
        one_thread = inl (started (draining []) m e refl v);
      }
  advance-IsOrderly (i ∷ is) m e v = ran i
    where
      order : (m.ran ++ i ∷ []) ++ (is ++ m.manager.task_queue) ≡ m.handed
      order =
          append_assoc m.ran (i ∷ []) (is ++ m.manager.task_queue)
          ∙ order_at (draining (i ∷ is)) m e v

      ran :
          (j : Item T)
          → IsOrderly (record m {
            manager = run_item j m.manager;
            position = draining is;
            ran = m.ran ++ i ∷ [];
          })
      ran (task t) = record {
        in_order = order;
        awake = tt;
        one_thread = inl (started (draining (i ∷ is)) m e refl v);
      }
      ran (stop_of c) = record {
        in_order = order;
        awake = tt;
        one_thread = inl (started (draining (i ∷ is)) m e refl v);
      }

  leave-IsOrderly : (m : Machine T) → m.position ≡ polling → IsOrderly m → IsOrderly (leave m)
  unfolding leave
  leave-IsOrderly m e v =
      if-cases IsOrderly m.manager.stopping _ _
        (λ _. record {
          in_order = order_at polling m e v;
          awake = subst (λ p. Awake p m.manager.task_queue m.manager.signalled) e v.awake;
          one_thread = inr refl;
        })
        λ _. v

  act-IsOrderly :
      (p : Position T) (e : Event T) (m : Machine T)
      → m.position ≡ p
      → IsOrderly m
      → IsOrderly (act p e m)
  act-IsOrderly polling wakes m f v = wake-IsOrderly m f v
  act-IsOrderly polling leaves m f v = leave-IsOrderly m f v
  act-IsOrderly (draining is) advances m f v = advance-IsOrderly is m f v
  act-IsOrderly p e m f v = v

  step-IsOrderly : (e : Event T) (m : Machine T) → IsOrderly m → IsOrderly (step e m)
  unfolding step
  step-IsOrderly (executes t) m v = hand_over-IsOrderly (task t) m v
  step-IsOrderly runs m v = start_thread-IsOrderly m v
  step-IsOrderly (stops c) m v = begin_stop-IsOrderly c m v
  step-IsOrderly (joins c) m v = end_stop-IsOrderly c m v
  step-IsOrderly e m v = act-IsOrderly m.position e m refl v

  pub run_events-IsOrderly :
      (es : List (Event T)) (m : Machine T) → IsOrderly m → IsOrderly (run_events es m)
  unfolding run_events
  run_events-IsOrderly [] m v = v
  run_events-IsOrderly (e ∷ es) m v = run_events-IsOrderly es (step e m) (step-IsOrderly e m v)

  -- Whatever the threads of the program do with a new manager, in any order: the tasks handed to
  -- `execute` are those that have run, those that the loop has taken and those in the queue, in that
  -- order and once each; with a task in the queue a signal is pending or the loop is on its way to
  -- the queue; and while a thread runs the loop, `run` starts no other.
  pub iomanager_loses_no_task : (es : List (Event T)) → IsOrderly (run_events es new_iomanager)
  unfolding new_iomanager
  iomanager_loses_no_task es =
      run_events-IsOrderly es new_iomanager
        (record { in_order = refl; awake = inl refl; one_thread = inr refl })
