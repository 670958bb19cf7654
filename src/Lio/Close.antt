-- ===== src/Lio/Close.antt =====
-- The end of a socket, from the call on any thread to libuv's report.
-- Sources: lio/src/lio/socket.cpp, lio/src/lio/iomanager.cpp, lio/include/lio/iomanager.hpp.
use ltl.Base.{
  ℕ, suc, ◌+◌, ◌≡◌, refl, sym, ap, ◌∙◌, true, false, Option, none, some, List, [], ◌∷◌, ◌++◌,
  get_elem?, set, length, arith, get_elem?-set_self, set-set, get_elem?-append_left,
  set-append_left, get_elem?-right, set-right, length-set, get_elem?_bound,
}
use ltl.Heap.{fut, unit, Handle, ok, State, Heap, ret, bind, M, give, ◌>>=◌, new_state}
use ltl.FutureState
use ltl.Promise
use ltl.Promise.{get_future}
use ltl.Run.{UserCode, run}
use ltl.Future.{settled}
use ltl.Future.Order.{completed, unwatched}
use ltl.Future.Pending.{outer_asked, inner_asked, complete-inner_asked, complete-outer_asked}
use ltl.Socket.{Socket, on_close}
use ltl.Socket
use ltl.Lio.{socket_close, SocketImpl, Lio, LoopTask}
use ltl.Lio.Loop.{run_job, run_task, async_new_task_cb, close_cb, complete_requests}
use ltl.Lio.Calls.{close, execute_unwrap}
use ltl.Lio.Task.{
  drained, drain-one, pushed_lem, drained-handed_over, run_task_lem, set_value-state,
}
use ltl.Lio.Request.{with_states, task_for, handed_over, execute_unwrap-asks}

-- The socket closes, and has closed.
abbrev closing : ℕ → SocketImpl → SocketImpl
closing c x = record {
  socket = record x.socket { closing = true; keep_alive = true };
  closing_promise = record { state = some c; retrieved = true };
}

abbrev closed : ℕ → SocketImpl → SocketImpl
closed c x = record (closing c x) {
  socket = record x.socket { closing = true; keep_alive = false; open_handle = false };
}

abbrev pub with_closed : ℕ → ℕ → SocketImpl → Lio → Lio
with_closed k c x l = record l { sockets = set l.sockets k (closed c x) }

module _ (env : UserCode) (n : ℕ) (reserve : ℕ → ℕ) (tq : Option ℕ) (k c : ℕ) (h : Heap)
    (tqc : Option ℕ) (at_c : get_elem? h.states c ≡ some (new_state tqc)) where
  abbrev p : ℕ
  p = length h.states

  abbrev called : List State
  called = outer_asked (p + 1) (suc (p + 1)) p tq none ∷ new_state tq ∷ new_state none ∷ []

  abbrev asked : List State
  asked =
      completed (unwatched tq none) (ok (fut (some c))) ∷ new_state tq ∷ settled none (ok unit) ∷ []

  -- The task is done, and the promise of the socket is waited for.
  abbrev waiting : Heap
  waiting = record h { states = set h.states c (inner_asked (p + 1) c tqc none) ++ asked }

  set_value-asked :
      FutureState.set_value (run env (suc n)) p (fut (some c)) (with_states h called)
      ≡ ret tt waiting
  set_value-asked =
      complete-outer_asked env n (p + 1) (suc (p + 1)) p c (with_states h called) tq tqc none none
        none (get_elem?-right h.states called 0 p (omega arith))
        (get_elem?-append_left h.states called c at_c)
        (get_elem?-right h.states called 2 (suc (p + 1)) (omega arith))
        (λ e. omega (arith, e, get_elem?_bound h.states c at_c)) (λ e. omega (arith, e))
        (λ e. omega (arith, e, get_elem?_bound h.states c at_c))
      ∙ ap (λ xs. ret tt (record h { states = xs })) sets
    where
      done : State
      done = completed (unwatched tq none) (ok (fut (some c)))

      at_c' : get_elem? (h.states ++ set called 0 done) c ≡ some (new_state tqc)
      at_c' = get_elem?-append_left h.states (set called 0 done) c at_c

      sets :
          set
            (set (set (h.states ++ called) p done) c (inner_asked (p + 1) c tqc none))
            (suc (p + 1))
            (settled none (ok unit))
          ≡ set h.states c (inner_asked (p + 1) c tqc none) ++ asked
      sets =
          rw
            (
              set-right h.states called 0 p done (omega arith),
              set-append_left h.states (set called 0 done) c (inner_asked (p + 1) c tqc none) at_c,
              set-right (set h.states c (inner_asked (p + 1) c tqc none)) (set called 0 done) 2
                  (suc (p + 1)) (settled none (ok unit))
                  (omega (arith, length-set h.states c (inner_asked (p + 1) c tqc none))),
            )
            refl

  abbrev pub closed_states : List State
  closed_states =
      set h.states c (settled tqc (ok unit))
      ++ completed (unwatched tq none) (ok (fut (some c)))
        ∷ settled tq (ok unit)
        ∷ settled none (ok unit)
        ∷ []

  set_value-closed :
      FutureState.set_value (run env (suc n)) c unit waiting
      ≡ ret tt (record h { states = closed_states })
  set_value-closed =
      complete-inner_asked env n (p + 1) c (ok unit) waiting tqc tq none
        (get_elem?-append_left (set h.states c ask) asked c
          (get_elem?-set_self h.states c ask at_c))
        (get_elem?-right (set h.states c ask) asked 1 (p + 1)
          (omega (arith, length-set h.states c ask)))
        (λ e. omega (arith, e, get_elem?_bound h.states c at_c))
      ∙ ap (λ xs. ret tt (record h { states = xs }))
          (rw
            (
              set-append_left (set h.states c ask) asked c (settled tqc (ok unit))
                  (get_elem?-set_self h.states c ask at_c),
              set-set h.states c ask (settled tqc (ok unit)),
              set-right (set h.states c (settled tqc (ok unit))) asked 1 (p + 1)
                  (settled tq (ok unit))
                  (omega (arith, length-set h.states c (settled tqc (ok unit)))),
            )
            refl)
    where
      ask : State
      ask = inner_asked (p + 1) c tqc none

  -- Socket `k` is open, with its closing promise on state `c`, whose future nobody has taken.
  module _ (l : Lio) (x : SocketImpl) (at_k : get_elem? l.sockets k ≡ some x)
      (open_ : x.socket.closing ≡ false)
      (fresh : x.closing_promise ≡ record { state = some c; retrieved = false }) where
    abbrev asked_lio : Lio
    asked_lio = record l { sockets = set l.sockets k (closing c x) }

    run_job-close :
        (j : Heap)
        → run_job env (run env (suc n)) reserve (socket_close k) l j
          ≡ ret (fut (some c), asked_lio) j
    unfolding run_job Socket.close get_future
    run_job-close j = rw (at_k, open_, fresh) refl

    close_cb-closes :
        close_cb env (run env (suc n)) k asked_lio waiting
        ≡ ret (with_closed k c x l) (record h { states = closed_states })
    unfolding close_cb complete_requests Promise.set_value
    close_cb-closes =
        rw
          (
            get_elem?-set_self l.sockets k (closing c x) at_k,
            set_value-closed,
            set-set l.sockets k (closing c x) (closed c x),
          )
          refl

    abbrev task : LoopTask
    task = task_for p (socket_close k)

    pub run-close :
        (l' : Lio)
        → l'.manager.task_queue ≡ []
        → drained l' ≡ l
        → async_new_task_cb env
            (run env (suc n))
            2
            reserve
            (handed_over task l')
            (with_states h called)
          ≡ ret asked_lio waiting
    run-close l' t d =
        drain-one env n reserve task (handed_over task l') asked_lio (with_states h called) waiting
          (pushed_lem env n reserve task l' t)
          (ap (λ (m : Lio). run_task env (run env (suc n)) reserve task m (with_states h called))
              (drained-handed_over env n reserve task l' ∙ d)
            ∙ rw
                (
                  run_task_lem env n reserve task l,
                  run_job-close (with_states h called),
                  set_value-state env n reserve p (fut (some c)),
                  set_value-asked,
                )
                refl)
          (ap (λ (m : Lio). m.manager.task_queue) (sym d))

  -- What becomes of the future, when the loop has run the task and libuv has closed the handle.
  abbrev pub reported_closed : Handle × Lio → M (Handle × Lio)
  reported_closed fl = do
    l' ← async_new_task_cb env (run env (suc n)) 2 reserve fl.1
    l'' ← close_cb env (run env (suc n)) k l'
    give (fl.0, l'')

  close_lem :
      (l : Lio)
      → close env (run env (suc n)) tq k l h
        ≡ execute_unwrap env (run env (suc n)) tq (socket_close k) l h
  unfolding close
  close_lem l = refl

  -- For an open socket whose closing promise is pending and not taken, and a loop with no other
  -- task: `close`, called on any thread, returns a future; after the loop has run the task and libuv
  -- has closed the handle, that future and the socket's promise are complete, and the socket is
  -- closed.
  pub close_completes :
      (l : Lio) (x : SocketImpl)
      → get_elem? l.sockets k ≡ some x
      → x.socket.closing ≡ false
      → x.closing_promise ≡ record { state = some c; retrieved = false }
      → l.manager.task_queue ≡ []
      → bind (close env (run env (suc n)) tq k l h) reported_closed
        ≡ ret (some (p + 1), with_closed k c x (drained l)) (record h { states = closed_states })
  close_completes l x e o f t =
      rw
        (
          close_lem l,
          execute_unwrap-asks env n tq h (socket_close k) l,
          run-close (drained l) x e o f l t refl,
          close_cb-closes (drained l) x e o f,
        )
        refl
