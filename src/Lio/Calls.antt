-- ===== src/Lio/Calls.antt =====
-- What any thread may call: sockets, servers and the manager.
-- Sources: lio/src/lio/socket.cpp, lio/src/lio/server.cpp, lio/src/lio/iomanager.cpp.
use ltl.Base.{ℕ, Option, none, List, if◌then◌else◌}
use ltl.Heap.{Handle, Thunk, M, ◌>>=◌, give}
use ltl.Run.{UserCode}
use ltl.Future.{unwrap}
use ltl.Promise.{new_promise, get_future}
use ltl.IoManager.{run_loop}
use ltl.Lio.{
  Job, socket_read, socket_write, socket_close, server_close, create, connect_for, stop_for, Lio,
  execute_impl,
}

module _ (env : UserCode) (run : Thunk → M (Unit {0})) where
  -- `execute(job).unwrap()`, for a caller in a task of queue `tq` or in none.
  unfoldable pub execute_unwrap : Option ℕ → Job → Lio → M (Handle × Lio)
  unfolding execute_impl unwrap
  execute_unwrap tq job l = do fl ← execute_impl tq job l; f ← unwrap env run fl.0; give (f, fl.1)

  -- The overload for a vector that it may move from.
  unfoldable pub write : Option ℕ → ℕ → List ℕ → Lio → M (Handle × Lio)
  unfolding execute_unwrap
  write tq k contents l = execute_unwrap tq (socket_write k contents) l

  unfoldable pub read : Option ℕ → ℕ → ℕ → Lio → M (Handle × Lio)
  unfolding execute_unwrap
  read tq k size l = execute_unwrap tq (socket_read k size) l

  unfoldable pub close : Option ℕ → ℕ → Lio → M (Handle × Lio)
  unfolding execute_unwrap
  close tq k l = execute_unwrap tq (socket_close k) l

  unfoldable close_server : Option ℕ → ℕ → Lio → M (Handle × Lio)
  unfolding execute_unwrap
  close_server tq v l = execute_unwrap tq (server_close v) l

  unfoldable pub create_server : Option ℕ → (on_connection : ℕ) → Lio → M (Handle × Lio)
  unfolding execute_impl
  create_server tq g l = execute_impl tq (create g) l

  -- The future that `execute` returns for the lambda is thrown away.
  unfoldable pub connect : Option ℕ → Lio → M (Handle × Lio)
  unfolding new_promise execute_impl get_future unwrap
  connect tq l = do
    p ← new_promise tq
    fl ← execute_impl tq (connect_for p) l
    fp ← get_future p
    f ← unwrap env run fp.0
    give (f, fl.1)

  unfoldable run_manager : Lio → Lio
  unfolding run_loop
  run_manager l = record l { manager = run_loop l.manager }

  -- `stop` up to its wait: the future that it waits for, or an invalid one if the thread does not
  -- run and `stop` returns at once.
  unfoldable stop_manager : Option ℕ → Lio → M (Handle × Lio)
  unfolding new_promise execute_impl get_future
  stop_manager tq l =
      if l.manager.joinable
      then (do
        p ← new_promise tq
        fl ← execute_impl tq (stop_for p) l
        fp ← get_future p
        give (fp.0, fl.1))
      else give (none, l)
