-- ===== src/Lio/Callbacks.antt =====
-- libuv's callbacks on one socket, and what they do to promises.
-- Source: lio/src/lio/socket.cpp.
use ltl.Base.{
  ℕ, ◌≡◌, refl, ap, ◌∙◌, sym, Bool, some, List, [], ◌∷◌, ◌++◌, get_elem?, get_elem?-set_self,
  set-set, set-get_elem?,
}
use ltl.Heap.{Thunk, Heap, Outcome, ret, throw, blocks, fault, out_of_fuel, bind, M, give, ◌>>=◌}
use ltl.Run.{UserCode}
use ltl.Socket.{
  Socket, Completion, read_done, read_failed, write_done, write_failed, close_done, Step, done,
  broken, and_then, after, Nread, on_alloc_read, on_read, on_write, on_close,
}
use ltl.Lio.{SocketImpl, Lio, put_socket}
use ltl.Lio.Loop.{
  complete_request, complete_requests, after_callback, alloc_read, read_cb, write_cb, close_cb,
}

pub data Callback : Type 0 where
  allocated : (suggested_size : ℕ) → Callback
  reported : Nread → Callback
  written : (status : Bool) → Callback
  closed : Callback

-- What a callback does to the members of the socket.
unfoldable pub on_callback : Callback → Socket → Step Socket
unfolding on_alloc_read on_read on_write on_close
on_callback (allocated s) k = on_alloc_read s k
on_callback (reported n) k = on_read n k
on_callback (written status) k = on_write status k
on_callback closed k = on_close k

unfoldable pub on_callbacks : List Callback → Socket → Step Socket
unfolding on_callback
on_callbacks [] k = done k []
on_callbacks (c ∷ cs) k = and_then (on_callback c k) (on_callbacks cs)

bind-bind :
    {A B C : Type 0} (o : Outcome A) (f : A → M B) (g : B → M C)
    → bind (bind o f) g ≡ bind o (λ a h. bind (f a h) g)
bind-bind (ret a h) f g = refl
bind-bind (throw e h) f g = refl
bind-bind (blocks s h) f g = refl
bind-bind (fault x) f g = refl
bind-bind out_of_fuel f g = refl

after-done :
    (cs es : List Completion) (x : Step Socket) (s : Socket)
    → after cs x ≡ done s es
    → (ds : List Completion) × (x ≡ done s ds) × (es ≡ cs ++ ds)
after-done cs es broken s e = cc
after-done cs es (done t ds) s e = (ds, cc, cc)

done-injective :
    {a b : Socket} {as_ bs : List Completion} → done a as_ ≡ done b bs → (a ≡ b) × (as_ ≡ bs)
done-injective e = (cc, cc)

module _ (env : UserCode) (run : Thunk → M (Unit {0})) where
  -- libuv's callbacks on socket `k`, on the thread of the loop.
  unfoldable pub callback : Callback → ℕ → Lio → M Lio
  unfolding alloc_read read_cb write_cb close_cb
  callback (allocated s) k l = alloc_read env run s k l
  callback (reported n) k l = read_cb env run n k l
  callback (written status) k l = write_cb env run status k l
  callback closed k l = close_cb env run k l

  unfoldable pub callbacks : List Callback → ℕ → Lio → M Lio
  unfolding callback
  callbacks [] k l = give l
  callbacks (c ∷ cs) k l = do l' ← callback c k l; callbacks cs k l'

  callback_lem :
      (c : Callback) (k : ℕ) (l : Lio) (j : Heap) {x : SocketImpl}
      → get_elem? l.sockets k ≡ some x
      → callback c k l j ≡ after_callback env run k x (on_callback c x.socket) l j
  unfolding callback on_callback alloc_read read_cb write_cb close_cb
  callback_lem (allocated s) k l j e = rw e refl
  callback_lem (reported n) k l j e = rw e refl
  callback_lem (written status) k l j e = rw e refl
  callback_lem closed k l j e = rw e refl

  complete_requests-with :
      (x : SocketImpl) (s : Socket) (cs : List Completion)
      → complete_requests env run (record x { socket = s }) cs ≡ complete_requests env run x cs
  unfolding complete_requests complete_request
  complete_requests-with x s [] = refl
  complete_requests-with x s (read_done p bs ∷ cs) = rw (complete_requests-with x s cs) refl
  complete_requests-with x s (read_failed p ∷ cs) = rw (complete_requests-with x s cs) refl
  complete_requests-with x s (write_done p ∷ cs) = rw (complete_requests-with x s cs) refl
  complete_requests-with x s (write_failed p ∷ cs) = rw (complete_requests-with x s cs) refl
  complete_requests-with x s (close_done ∷ cs) = rw (complete_requests-with x s cs) refl

  complete_requests-append :
      {B : Type 0} (x : SocketImpl) (cs ds : List Completion) (f : M B) (j : Heap)
      → bind (complete_requests env run x (cs ++ ds) j) (λ _. f)
        ≡ bind
            (complete_requests env run x cs j)
            (λ _ i. bind (complete_requests env run x ds i) (λ _. f))
  unfolding complete_requests
  complete_requests-append x [] ds f j = refl
  complete_requests-append x (c ∷ cs) ds f j =
      bind-bind (complete_request env run x c j) (λ _. complete_requests env run x (cs ++ ds))
        (λ _. f)
      ∙ ap (λ (g : M _). bind (complete_request env run x c j) (λ _. g))
          (λ i h. complete_requests-append x cs ds f h i)
      ∙ sym (
          bind-bind (complete_request env run x c j) (λ _. complete_requests env run x cs)
            (λ _ i. bind (complete_requests env run x ds i) (λ _. f)))

  -- That the callbacks do to socket and promises what the members of the socket say.
  abbrev Follows : List Callback → ℕ → Type 0
  Follows cs k =
      (l : Lio) (j : Heap) (x : SocketImpl) (s : Socket) (ds : List Completion)
      → get_elem? l.sockets k ≡ some x
      → on_callbacks cs x.socket ≡ done s ds
      → callbacks cs k l j
        ≡ bind (complete_requests env run x ds j) (λ _. give (put_socket k x s l))

  -- The callbacks after one that left the socket as `t`.
  rest-Follows :
      (cs : List Callback) (k : ℕ) (l : Lio) (j : Heap) (x : SocketImpl) (s t : Socket)
      (ds : List Completion)
      → Follows cs k
      → get_elem? l.sockets k ≡ some x
      → on_callbacks cs t ≡ done s ds
      → callbacks cs k (put_socket k x t l) j
        ≡ bind (complete_requests env run x ds j) (λ _. give (put_socket k x s l))
  rest-Follows cs k l j x s t ds follows e at_end =
      let y : SocketImpl = record x { socket = t } in
      follows (put_socket k x t l) j y s ds (get_elem?-set_self l.sockets k y e) at_end
      ∙ rw (complete_requests-with x t ds) (
          ap (λ xs. bind (complete_requests env run x ds j) (λ _. give (record l { sockets = xs })))
            (set-set l.sockets k y (record x { socket = s })))

  after_callback-Follows :
      (cs : List Callback) (k : ℕ) (l : Lio) (j : Heap) (x : SocketImpl) (s : Socket)
      (ds : List Completion) (y : Step Socket)
      → Follows cs k
      → get_elem? l.sockets k ≡ some x
      → and_then y (on_callbacks cs) ≡ done s ds
      → bind (after_callback env run k x y l j) (callbacks cs k)
        ≡ bind (complete_requests env run x ds j) (λ _. give (put_socket k x s l))
  after_callback-Follows cs k l j x s ds broken follows e q = cc
  after_callback-Follows cs k l j x s ds (done t es) follows e q =
      let (fs, at_end, split) = after-done es ds (on_callbacks cs t) s q in
      bind-bind (complete_requests env run x es j) (λ _. give (put_socket k x t l)) (callbacks cs k)
      ∙ ap (λ (g : M _). bind (complete_requests env run x es j) (λ _. g))
          (λ i h. rest-Follows cs k l h x s t fs follows e at_end i)
      ∙ sym (complete_requests-append x es fs (give (put_socket k x s l)) j)
      ∙ ap (λ ds. bind (complete_requests env run x ds j) (λ _. give (put_socket k x s l)))
          (sym split)

  -- Whatever callbacks libuv makes on a socket, in any order: unless the socket breaks, they leave
  -- it in the state to which its own members take it, complete the promises of exactly its
  -- completions, in their order, and change nothing else of the sockets, servers and tasks.
  pub callbacks-on_callbacks :
      (cs : List Callback) (k : ℕ) (l : Lio) (j : Heap) (x : SocketImpl) (s : Socket)
      (ds : List Completion)
      → get_elem? l.sockets k ≡ some x
      → on_callbacks cs x.socket ≡ done s ds
      → callbacks cs k l j
        ≡ bind (complete_requests env run x ds j) (λ _. give (put_socket k x s l))
  unfolding callbacks on_callbacks complete_requests
  callbacks-on_callbacks [] k l j x s ds e q =
      let (same, nothing) = done-injective q in
      rw (sym nothing, sym same)
        (ap (λ xs. ret (record l { sockets = xs }) j) (sym (set-get_elem? l.sockets k e)))
  callbacks-on_callbacks (c ∷ cs) k l j x s ds e q =
      ap (λ o. bind o (callbacks cs k)) (callback_lem c k l j e)
      ∙ after_callback-Follows cs k l j x s ds (on_callback c x.socket)
          (callbacks-on_callbacks cs k) e q
