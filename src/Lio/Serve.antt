-- ===== src/Lio/Serve.antt =====
-- A server, from the call of `create_server` to the connections that it accepts.
-- Sources: lio/src/lio/server.cpp, lio/src/lio/iomanager.cpp, lio/include/lio/iomanager.hpp.
use ltl.Base.{
  ℕ, suc, ◌+◌, ◌≡◌, refl, ap, ◌∙◌, Bool, true, false, Option, none, some, List, [], ◌∷◌, ◌++◌,
  length, arith, append_assoc, length-append, get_elem?-append_new, get_elem?-right, set-right,
}
use ltl.Heap.{num, Val, Handle, ok, State, Heap, Outcome, ret, bind, M, give, ◌>>=◌, new_state}
use ltl.FutureState
use ltl.Run.{UserCode, run}
use ltl.Future.{settled}
use ltl.Future.Unwrap.{complete-unwatched}
use ltl.IoManager.{execute}
use ltl.IoManager.Server.{new_server, connection_established}
use ltl.Lio.{socket_close, create, LoopTask, Lio, ServerImpl}
use ltl.Lio.Loop.{
  run_job, run_task, async_new_task_cb, on_connection, destroy_socket, server_connection,
  drop_pointer,
}
use ltl.Lio.Calls.{close, create_server}
use ltl.Lio.Request.{with_states, task_for, handed_over, called_states, execute_unwrap-asks}
use ltl.Lio.Task.{
  drained, drain-one, pushed_lem, drained-handed_over, run_task_lem, set_value-state,
}
use ltl.Lio.Connect.Established.{with_socket}

-- The new server, which calls `g`, with its closing promise on state `q`.
abbrev server_on : ℕ → ℕ → ServerImpl
server_on g q = record {
  server = new_server;
  on_connection = g;
  closing_promise = record { state = some q; retrieved = false };
}

abbrev pub with_server : ℕ → ℕ → Lio → Lio
with_server g q l = record l { servers = l.servers ++ server_on g q ∷ [] }

module _ (env : UserCode) (n : ℕ) (reserve : ℕ → ℕ) (tq : Option ℕ) (g : ℕ) (h : Heap) where
  abbrev p : ℕ
  p = length h.states

  create_server-asks :
      (l : Lio)
      → create_server env (run env (suc n)) tq g l h
        ≡ ret (some p, handed_over (task_for p (create g)) l) (with_states h (new_state tq ∷ []))
  unfolding create_server execute
  create_server-asks l = refl

  -- The future of the call, and the closing promise of the server.
  abbrev pub created : Lio → List State
  created l = settled tq (ok (num (length l.servers))) ∷ new_state none ∷ []

  run_job-create :
      (l : Lio)
      → run_job env (run env (suc n)) reserve (create g) l (with_states h (new_state tq ∷ []))
        ≡ ret
            (num (length l.servers), with_server g (p + 1) l)
            (with_states h (new_state tq ∷ new_state none ∷ []))
  unfolding run_job
  run_job-create l =
      rw
        (
          length-append h.states (new_state tq ∷ []),
          append_assoc h.states (new_state tq ∷ []) (new_state none ∷ []),
        )
        refl

  set_value-created :
      (l : Lio)
      → FutureState.set_value
          (run env (suc n))
          p
          (num (length l.servers))
          (with_states h (new_state tq ∷ new_state none ∷ []))
        ≡ ret tt (with_states h (created l))
  set_value-created l =
      complete-unwatched (run env (suc n)) p (ok (num (length l.servers))) (with_states h made) tq
        (get_elem?-right h.states made 0 p (omega arith))
      ∙ ap (λ xs. ret tt (record h { states = xs }))
          (set-right h.states made 0 p (settled tq (ok (num (length l.servers)))) (omega arith))
    where
      made : List State
      made = new_state tq ∷ new_state none ∷ []

  run-create :
      (l : Lio)
      → l.manager.task_queue ≡ []
      → async_new_task_cb env
          (run env (suc n))
          2
          reserve
          (handed_over (task_for p (create g)) l)
          (with_states h (new_state tq ∷ []))
        ≡ ret (with_server g (p + 1) (drained l)) (with_states h (created l))
  run-create l e =
      let t : LoopTask = task_for p (create g) in
      drain-one env n reserve t (handed_over t l) (with_server g (p + 1) (drained l))
        (with_states h (new_state tq ∷ [])) (with_states h (created l))
        (pushed_lem env n reserve t l e)
        (ap
            (λ (m : Lio).
              run_task env (run env (suc n)) reserve t m (with_states h (new_state tq ∷ [])))
            (drained-handed_over env n reserve t l)
          ∙ rw
              (
                run_task_lem env n reserve t (drained l),
                run_job-create (drained l),
                set_value-state env n reserve p (num (length l.servers)),
                set_value-created l,
              )
              refl)
        refl

  -- The memory and the loop when the function of the server has been handed socket `k`.
  abbrev shown : Lio → Heap
  shown l = with_states h (created l ++ new_state none ∷ [])

  abbrev handed_to : Lio → Lio
  handed_to l = record (with_socket (p + 2) (with_server g (p + 1) l)) {
    calls = l.calls ++ (g, some (length l.sockets)) ∷ [];
  }

  -- What follows: nothing if the function kept the pointer; otherwise the socket is asked to close.
  abbrev pub served : (keeps : Bool) → ℕ → Lio → Heap → Outcome Lio
  served true k l m = ret l m
  served false k l m =
      ret (handed_over (task_for (length m.states) (socket_close k)) l)
        (with_states m (called_states env n none m))

  destroy_socket_lem :
      (k : ℕ) (l : Lio) (m : Heap) → destroy_socket env (run env (suc n)) k l m ≡ served false k l m
  unfolding destroy_socket close
  destroy_socket_lem k l m = rw (execute_unwrap-asks env n none m (socket_close k) l) refl

  drop_pointer_lem :
      (keeps : Bool) (k : ℕ) (l : Lio) (m : Heap)
      → drop_pointer env (run env (suc n)) keeps k l m ≡ served keeps k l m
  drop_pointer_lem true k l m = refl
  drop_pointer_lem false k l m = destroy_socket_lem k l m

  server_connection_lem :
      (keeps : Bool) (l : Lio) (w : Val)
      → env.call g (num (length l.sockets)) ≡ ok w
      → server_connection env
          (run env (suc n))
          false
          false
          keeps
          (length l.servers)
          (with_server g (p + 1) l)
          (with_states h (created l))
        ≡ served keeps (length l.sockets) (handed_to l) (shown l)
  unfolding server_connection connection_established on_connection
  server_connection_lem keeps l w e =
      rw
        (
          get_elem?-append_new l.servers (server_on g (p + 1)),
          e,
          length-append h.states (created l),
          append_assoc h.states (created l) (new_state none ∷ []),
        )
        (drop_pointer_lem keeps (length l.sockets) (handed_to l) (shown l))

  -- What becomes of the call, when the loop has run its task and libuv has accepted a connection.
  abbrev pub accepted : (keeps : Bool) → Lio → Handle × Lio → M (Handle × Lio)
  accepted keeps l fl = do
    l' ← async_new_task_cb env (run env (suc n)) 2 reserve fl.1
    l'' ← server_connection env (run env (suc n)) false false keeps (length l.servers) l'
    give (fl.0, l'')

  -- For a loop with no other task, and a function `g` of the user that returns when it is handed the
  -- next new socket: after `create_server` with `g`, called on any thread, the loop has run the task
  -- and libuv has accepted a connection, the returned future holds the new server, there is
  -- one new socket, and `g` has been called once, with that socket. If `g` keeps the pointer nothing
  -- else changes; if it does not, the socket is asked to close: a task for that is in the queue of
  -- the loop and the loop has been signalled.
  pub create_server_accepts :
      (keeps : Bool) (l : Lio) (w : Val)
      → l.manager.task_queue ≡ []
      → env.call g (num (length l.sockets)) ≡ ok w
      → bind (create_server env (run env (suc n)) tq g l h) (accepted keeps l)
        ≡ bind
            (served keeps (length l.sockets) (handed_to (drained l)) (shown l))
            (λ l'. give (some p, l'))
  create_server_accepts keeps l w e c =
      rw (create_server-asks l, run-create l e)
        (ap (λ o. bind o (λ l'. give (some p, l'))) (server_connection_lem keeps (drained l) w c))
