-- ===== src/Lib.antt =====
-- The libraries ltl (futures, promises, task queues and `await`) and lio (sockets and servers on
-- libuv), written in C++.
--
-- The parts of the program, and the files that model them:
-- * ltl/include/ltl/detail/future_state.hpp and detail/block.hpp, the shared state behind
--   promises and futures. Heap: `State` is `future_state_base` with its members, and a `Heap` holds
--   every state that exists, named by its place, with the counters of `when_all_ready` and the
--   resumptions pushed to task queues. FutureState: `ready`, `wait`, `get`, `set_value_impl`,
--   `set_exception`, `continue_with`. FutureState/Wake is about threads that wait.
--   FutureState/Threads: what each operation does under the mutex (`lock_continue`,
--   `lock_complete`, `lock_wait`) and the activity that it leaves to do outside of it; `Step` is
--   one such step of some thread and `Reach` a run. Its children count the calls of the functions
--   handed over (Counts, Once), follow the block (Blocked, Wakeup), and compare the steps with the
--   operations of FutureState (Alone).
-- * The continuations. The objects that `continuations_` stores become the constructors of
--   `Thunk`, one for each lambda or bind expression in the sources that hands one over, and `Func`
--   lists the functions handed to `then`. Run: `run_body` is the call of a stored continuation; it
--   completes other states, which run their own continuations in turn.
-- * ltl/include/ltl/future.hpp and `then` of future_state.hpp. Future: `then_` (for `then`),
--   `next`, `recover`, `unwrap`, `value_or`, `make_ready_future`, `make_exceptional_future`. The
--   proofs are in Future/Then, Future/Chain, Future/Order, Future/Unwrap, and, for `unwrap` on
--   pending futures, Future/Pending and Future/Chained.
-- * ltl/include/ltl/promise.hpp and detail/wrapped_function.hpp. Promise, with Promise/Laws.
-- * ltl/include/ltl/when_all.hpp with detail/tuple_meta.hpp, and when_any.hpp. WhenAll and
--   WhenAny.
-- * ltl/include/ltl/await.hpp. Await: `apply` and `apply_void` are the two forms up to
--   `ctx->yield()`, and `after_resume` and `after_resume_void` what follows it.
-- * ltl/src/ltl/task_queue_impl.cpp and task_context.cpp. TaskQueue: the record has the members
--   of `impl` and tells where the worker thread stands; an `Event` is one act of some thread, and a
--   run of the program is a list of events in any order. TaskQueue/Contexts is about the contexts.
--   TaskQueue/Current adds the thread-local pointer of ltl/src/ltl/current_task_context.cpp to the
--   worker's thread; outside of it the current task is an argument of what reads it.
-- * ltl/include/ltl/task_queue.hpp, `async` of future.hpp and ltl/src/ltl/future.cpp. Facade: a
--   queue with the task objects behind its items, and the memory of the futures. Facade/Worker adds
--   the rounds of the worker's loop, with the calls of tasks that do not await.
-- * lio/src/lio/socket.cpp. Socket: the queues of reads and writes, and libuv's callbacks.
--   Socket/Buffer and Socket/Chunks are about a read that comes in pieces, Socket/Bounds about any
--   order of calls and callbacks.
-- * lio/src/lio/iomanager.cpp and server.cpp. IoManager and IoManager/Server. IoManager/Thread
--   adds the thread of the loop to the manager: an `Event` there is a call from any thread or a
--   step of the loop. IoManager/Thread/Order is about the order of the tasks and the signals,
--   IoManager/Thread/Stop and IoManager/Thread/Returns about `stop`.
-- * lio/include/lio/iomanager.hpp, and the public members of socket, server and iomanager. Lio:
--   sockets, servers and the loop over the memory of the futures; `Job` lists the lambdas handed to
--   `execute`. Lio/Loop is the thread of the loop: the tasks, and libuv's callbacks, which complete
--   promises. Lio/Calls is what any thread may call. Lio/Callbacks compares any sequence of
--   callbacks on a socket with the functions of Socket; Lio/Request and Lio/Task follow a call that
--   makes a request, for Lio/Read and Lio/Write; Lio/Close follows the close of a socket;
--   Lio/Connect and Lio/Connect/Established follow `connect`. Lio/Serve follows `create_server`,
--   the first connection, the call of the user's function and the destructor of the socket. Whether
--   that function keeps the pointer that it is handed is an argument of `server_connection`;
--   `calls` of the record `Lio` records its calls.
-- * Tests has runs on concrete data, and instances of the theorems listed below.
-- * Base has the names taken from the standard libraries, Boolean tests and lists over native
--   numbers.
--
-- How they interact: a promise and its futures share a state; the completion of a state runs the
-- stored continuations outside the lock, which complete further states (`then`, `when_all`,
-- `unwrap`), signal a waiting thread, or push the resumption of a task to its queue (`await`).
-- The model threads one `Heap` through these calls, and `Outcome` tells how a call ends: it
-- returns, throws, blocks its thread, meets undefined behaviour (a null pointer, or a value of
-- another type), fails an `assert`, or runs out of the fuel of the model.
--
-- What is assumed and bounded:
-- * Each region under a mutex is one step. Of several threads, the interleaving of these steps is
--   modelled for the task queue, for one state, and for the manager's loop; elsewhere an operation
--   on states runs without interruption.
-- * In FutureState/Threads a function that is called changes the state by calls of its operations
--   only, each of which is a call like that of any other thread, and does not throw: in the source
--   an exception of one would end the loop of calls that it is in, which `for_each` of FutureState
--   models for the calls without other threads. A signal sets the block.
-- * A second thread that joins a task queue while the first is still in `join` is not followed:
--   the thread is joinable until `join_ends`, and thread_.join() of the second thread is not
--   modelled.
-- * User code is the parameter `UserCode`: a function of the value, or of what the future that it
--   is handed has come to, which returns or throws and does not itself complete other states.
-- * `Val` is one type for all values that futures hold, where the values of the program's own
--   types are numbers. `future<void>` holds `unit`. FutureState/Void compares the operations of
--   `future_state<void>` that differ with those of `future_state<T>`: its `get` returns where that
--   of the model stops, on a state that is not set, and the library calls `get` after the state is
--   set only.
-- * A stored continuation refers to the promise by the name of its state.
-- * The fuel of `run` bounds how deep completions nest. Each level completes a state that was
--   pending, so one more than the number of pending states is enough (Run/Total, Run/Fuel).
-- * In IoManager/Thread the call of a task ends in one step; what it hands over counts as handed
--   over before. uv_run may return when `uv_stop` was called, and calls the callback only when a
--   signal was sent. A `stop` that joins the thread does so when it has left; `threw` records the
--   calls of `stop` whose join throws, because another call has joined the thread.
-- * The fuel of `on_async_new_task` counts the rounds of its outer loop. One more than the number
--   of generations of tasks is enough. In Lio a read or a write on an idle loop takes two rounds.
-- * Counters are natural numbers, not machine integers: their overflow is not modelled. `size_t`
--   has 64 bits.
--
-- What is not modelled: the switch of stacks (ltlcontext); libuv, of which the callbacks and
-- their arguments are inputs; type functions and macros; the set-up of sockets, servers and loops
-- with libuv, the overload of socket::write for a constant vector, which calls itself, and the
-- destructors, which call `close` or `stop`, but for that of a socket that a server hands on;
-- `swap` of futures and the move assignment of promises, whose bodies do not compile. `has_value`
-- of the state, and with it `recover` and `value_or` of futures, do not compile for T other than
-- void either (`return value_` of a unique_ptr); they are modelled as what they say.
pub mod Base
pub mod Heap
pub mod FutureState
pub mod Run
pub mod Future
pub mod Promise
pub mod WhenAll
pub mod WhenAny
pub mod Await
pub mod TaskQueue
pub mod Facade
pub mod Socket
pub mod IoManager
pub mod Lio
pub mod Tests
