-- ===== src/Lio/Connect/Established.antt =====
-- libuv's report on a connection, and the whole way of `connect`.
-- Sources: connection_established of lio/src/lio/iomanager.cpp, lio/include/lio/iomanager.hpp.
use ltl.Base.{
  ℕ, suc, ◌+◌, ◌≡◌, refl, ap, ◌∙◌, Bool, false, true, Option, none, some, List, [], ◌∷◌, ◌++◌,
  get_elem?, set, length, arith, append_assoc, length-append, get_elem?-right, set-right,
  get_elem?-append_new,
}
use ltl.Heap.{fut, num, unit, Handle, Result, ok, State, Heap, ret, bind, M, give, ◌>>=◌, new_state}
use ltl.FutureState
use ltl.Promise
use ltl.Promise.{Promise}
use ltl.Run.{UserCode, run}
use ltl.Future.{settled}
use ltl.Future.Order.{completed, unwatched}
use ltl.Future.Pending.{complete-inner_asked}
use ltl.Future.Chained.{completed-inner_asked}
use ltl.Socket.{new_socket}
use ltl.Lio.{Lio}
use ltl.Lio.Loop.{async_new_task_cb, connection_established}
use ltl.Lio.Calls.{connect}
use ltl.Lio.Request.{with_states}
use ltl.Lio.Task.{drained}
use ltl.Lio.Connect.{run_states, with_connection, connect-asks, run-connect}

-- The new socket, with its closing promise on state `q`.
abbrev pub with_socket : ℕ → Lio → Lio
with_socket q l = record l {
  sockets =
      l.sockets
      ++ record {
        socket = new_socket;
        closing_promise = record { state = some q; retrieved = false };
      }
        ∷ [];
}

module _ (env : UserCode) (n : ℕ) (reserve : ℕ → ℕ) (tq : Option ℕ) (h : Heap) where
  abbrev p : ℕ
  p = length h.states

  abbrev connected : Lio → Result
  connected l = ok (num (length l.sockets))

  abbrev pub connected_states : Lio → List State
  connected_states l =
      completed (unwatched tq none) (ok (fut (some (p + 4))))
      ∷ settled tq (ok unit)
      ∷ settled tq (connected l)
      ∷ settled none (ok unit)
      ∷ settled none (connected l)
      ∷ new_state none
      ∷ []

  set_value-connected :
      (l : Lio)
      → FutureState.set_value
          (run env (suc n))
          (p + 4)
          (num (length l.sockets))
          (with_states h ((run_states env n reserve tq h) ++ new_state none ∷ []))
        ≡ ret tt (with_states h (connected_states l))
  set_value-connected l =
      complete-inner_asked env n (p + 2) (p + 4) (connected l) (with_states h waiting) none tq none
        (get_elem?-right h.states waiting 4 (p + 4) refl)
        (get_elem?-right h.states waiting 2 (p + 2) refl) (λ e. omega (arith, e))
      ∙ ap (λ xs. ret tt (record h { states = xs }))
          (rw
            (
              completed-inner_asked (p + 2) (p + 4) none none (connected l),
              set-right h.states waiting 4 (p + 4) (completed (unwatched none none) (connected l))
                  refl,
              set-right h.states (set waiting 4 (completed (unwatched none none) (connected l))) 2
                  (p + 2) (settled tq (connected l)) refl,
            )
            refl)
    where
      waiting : List State
      waiting = (run_states env n reserve tq h) ++ new_state none ∷ []

  connection_established_lem :
      (status : Bool) (c : ℕ) (l : Lio)
      → get_elem? l.connections c ≡ some (record { state = some (p + 4); retrieved = true })
      → connection_established env
          (run env (suc n))
          status
          c
          l
          (with_states h (run_states env n reserve tq h))
        ≡ ret (with_socket (p + 5) l) (with_states h (connected_states l))
  unfolding connection_established Promise.set_value
  connection_established_lem status c l e =
      rw
        (
          e,
          length-append h.states (run_states env n reserve tq h),
          append_assoc h.states (run_states env n reserve tq h) (new_state none ∷ []),
          set_value-connected l,
        )
        refl

  -- What becomes of the future, when the loop has run the task and libuv has reported.
  abbrev pub established : Bool → Lio → Handle × Lio → M (Handle × Lio)
  established status l fl = do
    l' ← async_new_task_cb env (run env (suc n)) 2 reserve fl.1
    l'' ← connection_established env (run env (suc n)) status (length l.connections) l'
    give (fl.0, l'')

  -- For a loop with no other task: `connect`, called on any thread, returns a future; after the
  -- loop has run the task, and libuv has reported on the connection, that future holds a new
  -- socket, whether libuv reported an error or not.
  pub connect_ignores_status :
      (status : Bool) (l : Lio)
      → l.manager.task_queue ≡ []
      → bind (connect env (run env (suc n)) tq l h) (established status l)
        ≡ ret
            (some (p + 2), with_socket (p + 5) (with_connection (p + 4) (drained l)))
            (with_states h (connected_states l))
  connect_ignores_status status l e =
      rw
        (
          connect-asks env n reserve tq h l,
          run-connect env n reserve tq h l e,
          connection_established_lem status (length l.connections)
              (with_connection (p + 4) (drained l))
              (get_elem?-append_new l.connections
                (record { state = some (p + 4); retrieved = true })),
        )
        refl
