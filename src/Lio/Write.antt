-- ===== src/Lio/Write.antt =====
-- A write, from the call on any thread to libuv's report.
-- Sources: lio/src/lio/socket.cpp, lio/src/lio/iomanager.cpp, lio/include/lio/iomanager.hpp.
use ltl.Base.{
  ℕ, suc, ◌+◌, ◌≡◌, refl, sym, ap, ◌∙◌, Bool, true, false, Option, none, some, List, [], ◌∷◌,
  get_elem?, set, length, length-append, get_elem?-set_self, set-set, set-get_elem?,
}
use ltl.Heap.{
  fut, unit, Handle, Result, ok, err, write_error, Heap, ret, bind, M, give, ◌>>=◌, new_state,
}
use ltl.Run.{UserCode, run}
use ltl.Future.Order.{complete}
use ltl.Socket.{Socket, Completion, write_result, Step, done, on_write}
use ltl.Socket
use ltl.Lio.{socket_write, SocketImpl, Lio, impl_write}
use ltl.Lio.Loop.{run_job, async_new_task_cb, complete_requests, write_cb, after_callback}
use ltl.Lio.Calls.{write, execute_unwrap}
use ltl.Lio.Task.{drained, run-request}
use ltl.Lio.Request.{
  with_states, task_for, handed_over, called_states, request_states, answered_states,
  execute_unwrap-asks, complete-request,
}

abbrev pub write_outcome : Bool → Result
write_outcome true = err write_error
write_outcome false = ok unit

-- The write is in the queue, with its promise.
abbrev queued : ℕ → ℕ → List ℕ → SocketImpl → Lio → Lio
queued q k contents x l = record l {
  sockets = set l.sockets k (record x { socket = Socket.write q contents x.socket });
}

module _ (env : UserCode) (n : ℕ) (reserve : ℕ → ℕ) where
  impl_write-queues :
      (k : ℕ) (contents : List ℕ) (l : Lio) (h : Heap) {x : SocketImpl}
      → get_elem? l.sockets k ≡ some x
      → impl_write k contents l h
        ≡ ret
            (fut (some (length h.states)), queued (length h.states) k contents x l)
            (with_states h (new_state none ∷ []))
  unfolding impl_write
  impl_write-queues k contents l h e = rw e refl

  module _ (tq : Option ℕ) (k : ℕ) (contents : List ℕ) (h : Heap) where
    abbrev p : ℕ
    p = length h.states

    run_job-write :
        (l : Lio) (j : Heap)
        → run_job env (run env (suc n)) reserve (socket_write k contents) l j
          ≡ impl_write k contents l j
    unfolding run_job
    run_job-write l j = refl

    abbrev called : Heap
    called = with_states h (called_states env n tq h)

    run-write :
        (l : Lio) {x : SocketImpl}
        → get_elem? l.sockets k ≡ some x
        → l.manager.task_queue ≡ []
        → async_new_task_cb env
            (run env (suc n))
            2
            reserve
            (handed_over (task_for p (socket_write k contents)) l)
            called
          ≡ ret
              (queued (p + 3) k contents x (drained l))
              (with_states h (request_states env n tq h))
    run-write l {x} e t =
        let l' : Lio = drained l in
        run-request env n reserve tq h (socket_write k contents) l (queued (p + 3) k contents x l')
          t refl
          (run_job-write l' called
            ∙ impl_write-queues k contents l' called e
            ∙ ap
                (λ q.
                  ret (fut (some (length called.states)), queued q k contents x l')
                    (with_states called (new_state none ∷ [])))
                (length-append h.states (called_states env n tq h)))

    on_write-written :
        (status : Bool) (q : ℕ) (s : Socket)
        → s.write_queue ≡ []
        → on_write status (Socket.write q contents s) ≡ done s (write_result status q ∷ [])
    unfolding on_write Socket.write
    on_write-written status q s e =
        (simp e refl)
        ∙ ap (λ ws. done (record s { write_queue = ws }) (write_result status q ∷ [])) (sym e)

    complete_requests-write :
        (status : Bool) (q : ℕ) (x : SocketImpl) (j : Heap)
        → complete_requests env (run env (suc n)) x (write_result status q ∷ []) j
          ≡ bind (complete (run env (suc n)) q (write_outcome status) j) (λ _. give tt)
    unfolding complete_requests
    complete_requests-write true q x j = refl
    complete_requests-write false q x j = refl

    write_cb_lem :
        (status : Bool) (l : Lio) (j : Heap) {x : SocketImpl}
        → get_elem? l.sockets k ≡ some x
        → write_cb env (run env (suc n)) status k l j
          ≡ after_callback env (run env (suc n)) k x (on_write status x.socket) l j
    unfolding write_cb
    write_cb_lem status l j e = rw e refl

    write_cb-written :
        (status : Bool) (q : ℕ) (l : Lio) (j j' : Heap) {x : SocketImpl}
        → get_elem? l.sockets k ≡ some x
        → x.socket.write_queue ≡ []
        → complete (run env (suc n)) q (write_outcome status) j ≡ ret tt j'
        → write_cb env (run env (suc n)) status k (queued q k contents x l) j ≡ ret l j'
    write_cb-written status q l j j' {x} e w c =
        let y : SocketImpl = record x { socket = Socket.write q contents x.socket } in
        rw
          (
            write_cb_lem status (queued q k contents x l) j (get_elem?-set_self l.sockets k y e),
            on_write-written status q x.socket w,
            complete_requests-write status q y,
            c,
          )
          (ap (λ xs. ret (record l { sockets = xs }) j')
            (set-set l.sockets k y x ∙ set-get_elem? l.sockets k e))

    write_lem :
        (l : Lio)
        → write env (run env (suc n)) tq k contents l h
          ≡ execute_unwrap env (run env (suc n)) tq (socket_write k contents) l h
    unfolding write
    write_lem l = refl

    -- What becomes of the future, when the loop has run the task and libuv has reported.
    abbrev pub answered : Bool → Handle × Lio → M (Handle × Lio)
    answered status fl = do
      l' ← async_new_task_cb env (run env (suc n)) 2 reserve fl.1
      l'' ← write_cb env (run env (suc n)) status k l'
      give (fl.0, l'')

    -- For a socket with no other write queued, and a loop with no other task: `write`, called on any
    -- thread, returns a future; after the loop has run the task, and libuv has reported the end of
    -- the write, that future holds the result reported, and sockets, servers and tasks are as before.
    pub write_completes :
        (status : Bool) (l : Lio) {x : SocketImpl}
        → get_elem? l.sockets k ≡ some x
        → x.socket.write_queue ≡ []
        → l.manager.task_queue ≡ []
        → bind (write env (run env (suc n)) tq k contents l h) (answered status)
          ≡ ret
              (some (p + 1), drained l)
              (with_states h (answered_states env n tq h (write_outcome status)))
    write_completes status l {x} e w t =
        rw
          (
            write_lem l,
            execute_unwrap-asks env n tq h (socket_write k contents) l,
            run-write l e t,
            write_cb-written status (p + 3) (drained l) _ _ e w
                (complete-request env n tq h (write_outcome status)),
          )
          refl
