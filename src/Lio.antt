-- ===== src/Lio.antt =====
-- Sockets, servers and the input/output manager with the futures that they hand out: the calls from
-- any thread become tasks of the loop, and libuv's callbacks complete promises.
-- Sources: lio/include/lio/iomanager.hpp, lio/src/lio/iomanager.cpp, lio/src/lio/socket.cpp,
-- lio/src/lio/server.cpp.
pub mod Loop
pub mod Calls
pub mod Request
pub mod Task
pub mod Write
pub mod Callbacks
pub mod Read
pub mod Connect
pub mod Serve
pub mod Close
use ltl.Base.{
  ℕ, zero, suc, Bool, true, false, Option, none, some, List, [], ◌∷◌, ◌++◌, length, get_elem?, set,
  if◌then◌else◌,
}
use ltl.Heap.{
  socket_read_error, write_error, Handle, Val, unit, num, fut, nil, cons, Thunk, null_pointer,
  assertion_failed, M, ◌>>=◌, ◌>>◌, give, stop, lift, raise, future_already_retrieved,
}
use ltl.FutureState
use ltl.Run.{UserCode, future_get}
use ltl.Future.{unwrap, make_ready_future}
use ltl.Future
use ltl.Promise.{Promise, new_promise, get_future}
use ltl.Promise
use ltl.Socket.{
  Socket, new_socket, Completion, read_done, read_failed, write_done, write_failed, close_done,
  Step, done, broken, Nread, on_alloc_read, on_read, on_write, on_close,
}
use ltl.Socket
use ltl.IoManager.{IoManager, execute, run_loop, stop_loop}
use ltl.IoManager.Server.{
  Server, new_server, CloseResult, ready_future, closing_future, already_retrieved,
  connection_established,
}
use ltl.IoManager.Server

-- What the lambdas do that are handed to `execute`. Sockets and servers are named by their place.
pub data Job : Type 0 where
  socket_read : (k size : ℕ) → Job
  socket_write : (k : ℕ) → List ℕ → Job
  socket_close : (k : ℕ) → Job
  server_close : (v : ℕ) → Job
  create : (on_connection : ℕ) → Job  -- of create_server
  connect_for : Promise → Job
  stop_for : Promise → Job
  user : (g : ℕ) → Job

-- The lambda of execute_impl: a promise, and the task whose value it gets.
pub record LoopTask : Type 0 where
  pub promise : Promise
  pub job : Job

-- socket::impl and server::impl with their `closing_promise_`, and the user function that a server
-- calls.
pub record SocketImpl : Type 0 where
  pub socket : Socket
  pub closing_promise : Promise

pub record ServerImpl : Type 0 where
  pub server : Server
  pub on_connection : ℕ
  pub closing_promise : Promise

-- `connections` lists the promises of the connection requests, by the name that libuv is given;
-- `calls` records the calls of the functions of the servers, oldest first: which function, and the
-- socket that it was handed, or none for a null one.
pub record Lio : Type 0 where
  pub manager : IoManager LoopTask
  pub sockets : List SocketImpl
  pub servers : List ServerImpl
  pub connections : List Promise
  pub calls : List (ℕ × Option ℕ)

-- The value in a promise of bytes.
abbrev pub bytes : List ℕ → Val
bytes [] = nil
bytes (b ∷ bs) = cons (num b) (bytes bs)

abbrev pub found : {A : Type 0} → Option A → M A
found none = stop null_pointer
found (some a) = give a

-- execute_impl, both forms, with exec and impl::execute; `tq` is the queue of the calling task. The
-- caller and the task share the promise, so that the task holds it with its future taken.
unfoldable pub execute_impl : Option ℕ → Job → Lio → M (Handle × Lio)
unfolding new_promise get_future execute
execute_impl tq job l = do
  p ← new_promise tq
  fp ← get_future p
  give (fp.0, record l { manager = execute (record { promise = fp.1; job = job }) l.manager })

-- The promise of a request, its future, and the name under which a queue holds it.
abbrev pub request : M (Handle × Promise)
request = do p ← new_promise none; get_future p

abbrev name_of : Promise → ℕ
name_of p = elim p.state [ none ↦ 0 | some s ↦ s ]

abbrev pub put_socket : ℕ → SocketImpl → Socket → Lio → Lio
put_socket k x s l = record l { sockets = set l.sockets k (record x { socket = s }) }

unfoldable pub impl_read : (ℕ → ℕ) → ℕ → ℕ → Lio → M (Val × Lio)
unfolding new_promise get_future Socket.read
impl_read reserve k size l = do
  x ← found (get_elem? l.sockets k)
  fp ← request
  give (fut fp.0, put_socket k x (Socket.read reserve (name_of fp.1) size x.socket) l)

unfoldable pub impl_write : ℕ → List ℕ → Lio → M (Val × Lio)
unfolding new_promise get_future Socket.write
impl_write k contents l = do
  x ← found (get_elem? l.sockets k)
  fp ← request
  give (fut fp.0, put_socket k x (Socket.write (name_of fp.1) contents x.socket) l)

abbrev closed_socket : ℕ → SocketImpl → Step Socket → Lio → M (Val × Lio)
closed_socket k x broken l = stop assertion_failed
closed_socket k x (done s cs) l = get_future x.closing_promise >>= λ fp. give (
  fut fp.0,
  record l { sockets = set l.sockets k (record { socket = s; closing_promise = fp.1 }) },
)

unfoldable pub impl_close : ℕ → Lio → M (Val × Lio)
unfolding get_future Socket.close
impl_close k l = do x ← found (get_elem? l.sockets k); closed_socket k x (Socket.close x.socket) l
