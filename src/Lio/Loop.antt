-- ===== src/Lio/Loop.antt =====
-- The thread of the loop: the tasks handed over, and libuv's callbacks.
-- Sources: lio/src/lio/iomanager.cpp, lio/src/lio/socket.cpp, lio/src/lio/server.cpp,
-- execute_impl of lio/include/lio/iomanager.hpp.
use ltl.Base.{
  ℕ, zero, suc, Bool, true, false, Option, none, some, List, [], ◌∷◌, ◌++◌, length, get_elem?, set,
}
use ltl.Heap.{
  socket_read_error, write_error, Handle, Val, unit, num, fut, Thunk, assertion_failed, M, ◌>>=◌,
  ◌>>◌, give, stop, lift, raise, try_catch, future_already_retrieved, out_of_fuel,
}
use ltl.FutureState
use ltl.Run.{UserCode}
use ltl.Future.{make_ready_future}
use ltl.Promise.{Promise, new_promise, get_future, set_value}
use ltl.Socket.{
  Socket, new_socket, Completion, read_done, read_failed, write_done, write_failed, close_done,
  Step, done, broken, Nread, on_alloc_read, on_read, on_write, on_close,
}
use ltl.IoManager.{stop_loop}
use ltl.IoManager
use ltl.IoManager.Server.{
  Server, new_server, CloseResult, ready_future, closing_future, already_retrieved,
}
use ltl.Lio.Calls.{close}
use ltl.Lio.{
  Job, socket_read, socket_write, socket_close, server_close, create, connect_for, stop_for, user,
  LoopTask, SocketImpl, ServerImpl, Lio, bytes, found, impl_read, impl_write, impl_close,
}

module _ (env : UserCode) (run : Thunk → M (Unit {0})) where
  -- server::impl::close: the future that the CloseResult stands for.
  abbrev server_closed : ℕ → ServerImpl → Server × CloseResult → Lio → M (Val × Lio)
  server_closed v x (s, ready_future) l = make_ready_future env run unit >>= λ f.
      give (fut f, record l { servers = set l.servers v (record x { server = s }) })
  server_closed v x (s, closing_future) l = give (
    fut x.closing_promise.state,
    record l { servers = set l.servers v (record x { server = s }) },
  )
  server_closed v x (s, already_retrieved) l = raise future_already_retrieved

  unfoldable impl_server_close : ℕ → Lio → M (Val × Lio)
  unfolding make_ready_future IoManager.Server.close
  impl_server_close v l = do
    x ← found (get_elem? l.servers v)
    server_closed v x (IoManager.Server.close x.server) l

  -- iomanager::impl::create_server: the value is the new server's name.
  unfoldable impl_create_server : (on_connection : ℕ) → Lio → M (Val × Lio)
  unfolding new_promise
  impl_create_server g l = do
    p ← new_promise none
    give (
      num (length l.servers),
      record l {
        servers =
            l.servers
            ++ record { server = new_server; on_connection = g; closing_promise = p } ∷ [];
      },
    )

  -- The promise of a connection request.
  abbrev new_connection_request : M Promise
  new_connection_request = new_promise none

  -- iomanager::impl::connect
  unfoldable impl_connect : Lio → M (Handle × Lio)
  unfolding new_promise get_future
  impl_connect l = do
    p ← new_connection_request
    fp ← get_future p
    give (fp.0, record l { connections = l.connections ++ fp.1 ∷ [] })

  unfoldable pub run_job : (ℕ → ℕ) → Job → Lio → M (Val × Lio)
  unfolding impl_read impl_write impl_close impl_server_close impl_create_server impl_connect
      set_value stop_loop
  run_job reserve (socket_read k size) l = impl_read reserve k size l
  run_job reserve (socket_write k contents) l = impl_write k contents l
  run_job reserve (socket_close k) l = impl_close k l
  run_job reserve (server_close v) l = impl_server_close v l
  run_job reserve (create g) l = impl_create_server g l
  run_job reserve (connect_for p) l = do
    fl ← impl_connect l
    set_value run p (fut fl.0)
    give (unit, fl.1)
  run_job reserve (stop_for p) l =
      let stopped : Lio = record l { manager = stop_loop l.manager } in
      (do set_value run p unit; give (unit, stopped))
  run_job reserve (user g) l = do v ← lift (env.call g unit); give (v, l)

  -- The lambda of execute_impl.
  unfoldable pub run_task : (ℕ → ℕ) → LoopTask → Lio → M Lio
  unfolding run_job set_value
  run_task reserve t l = do vl ← run_job reserve t.job l; set_value run t.promise vl.0; give vl.1

  unfoldable pub run_tasks : (ℕ → ℕ) → List LoopTask → Lio → M Lio
  unfolding run_task
  run_tasks reserve [] l = give l
  run_tasks reserve (t ∷ ts) l = do l' ← run_task reserve t l; run_tasks reserve ts l'

  abbrev without_tasks : Lio → Lio
  without_tasks l = record l { manager = record l.manager { task_queue = [] } }

  -- on_async_new_task, with fuel for its outer loop.
  unfoldable pub on_async_new_task : ℕ → (ℕ → ℕ) → Lio → M Lio
  unfolding run_tasks
  on_async_new_task zero reserve l = λ h. out_of_fuel
  on_async_new_task (suc n) reserve l = elim l.manager.task_queue [
    | [] ↦ give l
    | t ∷ ts ↦ (do
      l' ← run_tasks reserve (t ∷ ts) (without_tasks l)
      on_async_new_task n reserve l')
  ]

  -- libuv calls it for the signals that were sent since its last call.
  unfoldable pub async_new_task_cb : ℕ → (ℕ → ℕ) → Lio → M Lio
  unfolding on_async_new_task
  async_new_task_cb n reserve l =
      on_async_new_task n reserve (record l { manager = record l.manager { signalled = false } })

  -- The calls of promises in a callback of socket `x`.
  unfoldable pub complete_request : SocketImpl → Completion → M (Unit {0})
  unfolding set_value FutureState.set_value FutureState.set_exception
  complete_request x (read_done p contents) = FutureState.set_value run p (bytes contents)
  complete_request x (read_failed p) = FutureState.set_exception run p socket_read_error
  complete_request x (write_done p) = FutureState.set_value run p unit
  complete_request x (write_failed p) = FutureState.set_exception run p write_error
  complete_request x close_done = set_value run x.closing_promise unit

  unfoldable pub complete_requests : SocketImpl → List Completion → M (Unit {0})
  unfolding complete_request
  complete_requests x [] = give tt
  complete_requests x (c ∷ cs) = do complete_request x c; complete_requests x cs

  abbrev pub after_callback : ℕ → SocketImpl → Step Socket → Lio → M Lio
  after_callback k x broken l = stop assertion_failed
  after_callback k x (done s cs) l =
      complete_requests x cs
      >> give (record l { sockets = set l.sockets k (record x { socket = s }) })

  abbrev callback : (Socket → Step Socket) → ℕ → Lio → M Lio
  callback f k l = found (get_elem? l.sockets k) >>= λ x. after_callback k x (f x.socket) l

  -- libuv's callbacks on socket `k`.
  unfoldable pub alloc_read : ℕ → ℕ → Lio → M Lio
  unfolding complete_requests on_alloc_read
  alloc_read suggested_size k l = callback (on_alloc_read suggested_size) k l

  unfoldable pub read_cb : Nread → ℕ → Lio → M Lio
  unfolding complete_requests on_read
  read_cb nread k l = callback (on_read nread) k l

  unfoldable pub write_cb : Bool → ℕ → Lio → M Lio
  unfolding complete_requests on_write
  write_cb status k l = callback (on_write status) k l

  unfoldable pub close_cb : ℕ → Lio → M Lio
  unfolding complete_requests on_close
  close_cb k l = callback on_close k l

  -- server::impl::on_close
  unfoldable server_close_cb : ℕ → Lio → M Lio
  unfolding set_value
  server_close_cb v l = do
    x ← found (get_elem? l.servers v)
    set_value run x.closing_promise unit
    give l

  -- iomanager::impl::connection_established, on the request that libuv names `c`: the status is not
  -- looked at. The value is the new socket's name.
  unfoldable pub connection_established : (status : Bool) → ℕ → Lio → M Lio
  unfolding new_promise set_value
  connection_established status c l = do
    p ← found (get_elem? l.connections c)
    closing ← new_promise none
    set_value run p (num (length l.sockets))
    give (record l {
      sockets = l.sockets ++ record { socket = new_socket; closing_promise = closing } ∷ [];
    })

  -- The call of `on_connection_`, with a new socket or with a null one, which is `unit`.
  abbrev handed : Option ℕ → Val
  handed none = unit
  handed (some k) = num k

  unfoldable pub on_connection : ServerImpl → Option ℕ → Lio → M Lio
  on_connection x client l = lift (env.call x.on_connection (handed client)) >>= λ _.
      give (record l { calls = l.calls ++ (x.on_connection, client) ∷ [] })

  -- ~socket, on a thread that is in no task: the future of `close` is thrown away, and what `close`
  -- throws is swallowed.
  unfoldable pub destroy_socket : ℕ → Lio → M Lio
  unfolding close
  destroy_socket k l = try_catch (close env run none k l >>= λ fl. give fl.1) (λ _. give l)

  -- The end of the pointer that `on_connection_` was handed: it is the last one unless the function
  -- keeps a copy.
  abbrev pub drop_pointer : (keeps : Bool) → ℕ → Lio → M Lio
  drop_pointer true k l = give l
  drop_pointer false k l = destroy_socket k l

  abbrev hand_out : (keeps : Bool) → ServerImpl → Option ℕ → Lio → M Lio
  hand_out keeps x none l = on_connection x none l
  hand_out keeps x (some k) l = do
    closing ← new_promise none
    l' ← on_connection x (some k) (record l {
      sockets = l.sockets ++ record { socket = new_socket; closing_promise = closing } ∷ [];
    })
    drop_pointer keeps k l'

  -- `connection` of server `v`; `accept_failed` is what `uv_accept` says, and `keeps` is whether the
  -- function of the user keeps the pointer to the socket that it is handed.
  unfoldable pub server_connection : (status accept_failed keeps : Bool) → ℕ → Lio → M Lio
  unfolding new_promise IoManager.Server.connection_established on_connection destroy_socket
  server_connection status accept_failed keeps v l = do
    x ← found (get_elem? l.servers v)
    hand_out keeps x
        (IoManager.Server.connection_established status accept_failed (length l.sockets)).0 l
