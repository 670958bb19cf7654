-- ===== src/Lio/Read.antt =====
-- A read, from the call on any thread to the last of libuv's reports.
-- Sources: lio/src/lio/socket.cpp, lio/src/lio/iomanager.cpp, lio/include/lio/iomanager.hpp.
use ltl.Base.{
  ℕ, suc, ◌+◌, ◌≡◌, refl, sym, ap, ◌∙◌, false, true, Option, none, some, List, [], ◌∷◌, ◌++◌,
  get_elem?, length, append_assoc, length-append, get_elem?-set_self, set-set,
}
use ltl.Heap.{fut, Handle, ok, Heap, ret, bind, M, give, ◌>>=◌, new_state}
use ltl.Run.{UserCode, run}
use ltl.Future.Order.{complete}
use ltl.Socket.{
  Socket, read_done, Step, done, broken, and_then, after, bytes_read, on_alloc_read, on_read,
}
use ltl.Socket
use ltl.Socket.Read.{fresh}
use ltl.Socket.Chunks.{feed, joined, Fills, feed-joined}
use ltl.Lio.{socket_read, SocketImpl, Lio, bytes, put_socket, impl_read}
use ltl.Lio.Loop.{run_job, async_new_task_cb, complete_requests}
use ltl.Lio.Calls.{read, execute_unwrap}
use ltl.Lio.Request.{
  with_states, task_for, handed_over, called_states, request_states, answered_states,
  execute_unwrap-asks, complete-request,
}
use ltl.Lio.Task.{drained, run-request}
use ltl.Lio.Callbacks.{
  Callback, allocated, reported, on_callback, on_callbacks, callbacks, callbacks-on_callbacks,
}

-- For each chunk, libuv asks for a buffer and then reports the bytes.
abbrev arrivals : List (ℕ × List ℕ) → List Callback
arrivals [] = []
arrivals ((s, bs) ∷ cs) = allocated s ∷ reported (bytes_read bs) ∷ arrivals cs

after-after :
    (cs : List _) (x : Step Socket) (g : Socket → Step Socket)
    → and_then (after cs x) g ≡ after cs (and_then x g)
after-after cs broken g = refl
after-after cs (done t ds) g = joins (g t)
  where
    joins : (y : Step Socket) → after (cs ++ ds) y ≡ after cs (after ds y)
    joins broken = refl
    joins (done u es) = ap (done u) (append_assoc cs ds es)

and_then_assoc :
    (x : Step Socket) (f g : Socket → Step Socket)
    → and_then (and_then x f) g ≡ and_then x (λ k. and_then (f k) g)
and_then_assoc broken f g = refl
and_then_assoc (done t cs) f g = after-after cs (f t) g

on_callbacks-arrivals :
    (cs : List (ℕ × List ℕ)) (k : Socket) → on_callbacks (arrivals cs) k ≡ feed cs k
unfolding on_callbacks on_callback feed
on_callbacks-arrivals [] k = refl
on_callbacks-arrivals ((s, bs) ∷ cs) k =
    ap
      (λ (f : Socket → Step Socket).
        and_then (on_alloc_read s k) (λ j. and_then (on_read (bytes_read bs) j) f))
      (λ i j. on_callbacks-arrivals cs j i)
    ∙ sym (and_then_assoc (on_alloc_read s k) (on_read (bytes_read bs)) (feed cs))

-- The read is in the queue, with its promise.
abbrev queued : (ℕ → ℕ) → ℕ → ℕ → ℕ → SocketImpl → Lio → Lio
queued reserve q k size x l = put_socket k x (Socket.read reserve q size x.socket) l

module _ (env : UserCode) (n : ℕ) (reserve : ℕ → ℕ) (tq : Option ℕ) (k size : ℕ) (h : Heap) where
  abbrev p : ℕ
  p = length h.states

  abbrev called : Heap
  called = with_states h (called_states env n tq h)

  run_job-read :
      (l : Lio) (j : Heap) {x : SocketImpl}
      → get_elem? l.sockets k ≡ some x
      → run_job env (run env (suc n)) reserve (socket_read k size) l j
        ≡ ret
            (fut (some (length j.states)), queued reserve (length j.states) k size x l)
            (with_states j (new_state none ∷ []))
  unfolding run_job impl_read
  run_job-read l j e = rw e refl

  run-read :
      (l : Lio) {x : SocketImpl}
      → get_elem? l.sockets k ≡ some x
      → l.manager.task_queue ≡ []
      → async_new_task_cb env
          (run env (suc n))
          2
          reserve
          (handed_over (task_for p (socket_read k size)) l)
          called
        ≡ ret
            (queued reserve (p + 3) k size x (drained l))
            (with_states h (request_states env n tq h))
  run-read l {x} e t =
      run-request env n reserve tq h (socket_read k size) l
        (queued reserve (p + 3) k size x (drained l)) t refl
        (run_job-read (drained l) called e
          ∙ ap
              (λ q.
                ret (fut (some (length called.states)), queued reserve q k size x (drained l))
                  (with_states called (new_state none ∷ [])))
              (length-append h.states (called_states env n tq h)))

  read-fresh :
      (q : ℕ) (s : Socket)
      → s.read_queue ≡ []
      → Socket.read reserve q size s
        ≡ record s { read_queue = fresh q (reserve size) ∷ []; reading = true }
  unfolding Socket.read
  read-fresh q s e =
      ap (λ rs. record s { read_queue = rs ++ fresh q (reserve size) ∷ []; reading = true }) e

  complete_requests-read :
      (q : ℕ) (x : SocketImpl) (bs : List ℕ) (j : Heap)
      → complete_requests env (run env (suc n)) x (read_done q bs ∷ []) j
        ≡ bind (complete (run env (suc n)) q (ok (bytes bs)) j) (λ _. give tt)
  unfolding complete_requests
  complete_requests-read q x bs j = refl

  read_lem :
      (l : Lio)
      → read env (run env (suc n)) tq k size l h
        ≡ execute_unwrap env (run env (suc n)) tq (socket_read k size) l h
  unfolding read
  read_lem l = refl

  -- The socket after the read.
  abbrev pub idle : SocketImpl → Lio → Lio
  idle x l = put_socket k x (record x.socket { read_queue = []; reading = false }) l

  -- What becomes of the future, when the loop has run the task and libuv has reported the chunks.
  abbrev pub received : List (ℕ × List ℕ) → Handle × Lio → M (Handle × Lio)
  received cs fl = do
    l' ← async_new_task_cb env (run env (suc n)) 2 reserve fl.1
    l'' ← callbacks env (run env (suc n)) (arrivals cs) k l'
    give (fl.0, l'')

  callbacks-arrivals :
      (s : ℕ) (bs : List ℕ) (cs : List (ℕ × List ℕ)) (l : Lio) (j j' : Heap) {x : SocketImpl}
      → get_elem? l.sockets k ≡ some x
      → x.socket.read_queue ≡ []
      → Fills 0 (reserve size) ((s, bs) ∷ cs)
      → length (joined ((s, bs) ∷ cs)) ≡ reserve size
      → complete (run env (suc n)) (p + 3) (ok (bytes (joined ((s, bs) ∷ cs)))) j ≡ ret tt j'
      → callbacks env
          (run env (suc n))
          (arrivals ((s, bs) ∷ cs))
          k
          (queued reserve (p + 3) k size x l)
          j
        ≡ ret (idle x l) j'
  callbacks-arrivals s bs cs l j j' {x} e w f g c =
      let chunks : List (ℕ × List ℕ) = (s, bs) ∷ cs in
      let y : SocketImpl = record x { socket = Socket.read reserve (p + 3) size x.socket } in
      callbacks-on_callbacks env (run env (suc n)) (arrivals chunks) k
        (queued reserve (p + 3) k size x l) j y
        (record x.socket { read_queue = []; reading = false })
        (read_done (p + 3) (joined chunks) ∷ []) (get_elem?-set_self l.sockets k y e)
        (on_callbacks-arrivals chunks y.socket
          ∙ ap (feed chunks) (read-fresh (p + 3) x.socket w)
          ∙ feed-joined (p + 3) (reserve size) s bs cs [] (record x.socket { reading = true }) f g)
      ∙ rw (complete_requests-read (p + 3) y (joined chunks), c)
          (ap (λ xs. ret (record l { sockets = xs }) j')
            (set-set l.sockets k y
              (record x { socket = record x.socket { read_queue = []; reading = false } })))

  -- For a socket with no other read queued, and a loop with no other task: `read`, called on any
  -- thread, returns a future; after the loop has run the task, and libuv has delivered chunks that
  -- are as many bytes together as the read reserved, each of which fills the buffer made for it,
  -- that future holds these bytes, in the order of their arrival.
  pub read_completes :
      (s : ℕ) (bs : List ℕ) (cs : List (ℕ × List ℕ)) (l : Lio) {x : SocketImpl}
      → get_elem? l.sockets k ≡ some x
      → x.socket.read_queue ≡ []
      → l.manager.task_queue ≡ []
      → Fills 0 (reserve size) ((s, bs) ∷ cs)
      → length (joined ((s, bs) ∷ cs)) ≡ reserve size
      → bind (read env (run env (suc n)) tq k size l h) (received ((s, bs) ∷ cs))
        ≡ ret
            (some (p + 1), idle x (drained l))
            (with_states h (answered_states env n tq h (ok (bytes (joined ((s, bs) ∷ cs))))))
  read_completes s bs cs l {x} e w t f g =
      rw
        (
          read_lem l,
          execute_unwrap-asks env n tq h (socket_read k size) l,
          run-read l e t,
          callbacks-arrivals s bs cs (drained l) _ _ e w f g
              (complete-request env n tq h (ok (bytes (joined ((s, bs) ∷ cs))))),
        )
        refl
