-- ===== src/Socket/Write.antt =====
-- Writes and closing.
-- Source: on_write, close and on_close of lio/src/lio/socket.cpp.
use ltl.Base.{
  ℕ, inl, inr, Bool-cases, ◌≡◌, refl, Bool, true, false, List, [], ◌∷◌, length, drop, arith, ◌≤◌,
}
use ltl.Socket.{
  WriteRequest, Socket, Completion, write_failed, write_done, Step, done, broken, and_then,
  on_write, close, on_close,
}

-- libuv reports one write after the other.
unfoldable pub on_writes : List Bool → Socket → Step Socket
on_writes [] k = done k []
on_writes (status ∷ rest) k = and_then (on_write status k) (on_writes rest)

-- What is reported of one write: a status other than 0, which is true here, is an error.
abbrev pub reported : Bool → ℕ → Completion
reported true promise = write_failed promise
reported false promise = write_done promise

-- Each write in the queue gets the result reported at its place.
abbrev pub results : List Bool → List WriteRequest → List Completion
results [] ws = []
results (status ∷ rest) [] = []
results (status ∷ rest) (w ∷ ws) = reported status w.promise ∷ results rest ws

on_writes_queue :
    (rs : List Bool) (ws : List WriteRequest) (k : Socket)
    → length rs ≤ length ws
    → on_writes rs (record k { write_queue = ws })
      ≡ done (record k { write_queue = drop (length rs) ws }) (results rs ws)
unfolding on_writes on_write
on_writes_queue [] ws k h = refl
on_writes_queue (r ∷ rs) [] k h = absurd (omega arith)
on_writes_queue (true ∷ rs) (w ∷ ws) k h = rw (on_writes_queue rs ws k (omega arith))
on_writes_queue (false ∷ rs) (w ∷ ws) k h = rw (on_writes_queue rs ws k (omega arith))

-- As many callbacks as there are writes queued, or fewer, complete the oldest writes, in the order
-- in which they were queued, each with the result reported for it, and break nothing.
pub on_writes_in_order :
    (k : Socket) (rs : List Bool)
    → length rs ≤ length k.write_queue
    → on_writes rs k
      ≡ done (record k { write_queue = drop (length rs) k.write_queue }) (results rs k.write_queue)
on_writes_in_order k rs h = on_writes_queue rs k.write_queue k h

-- A socket that was closed by its user breaks the program when its destructor closes it again,
-- before or after libuv has reported the first close.
close_again_breaks :
    (k : Socket)
    → (and_then (close k) close ≡ broken) × (and_then (and_then (close k) on_close) close ≡ broken)
unfolding close on_close
close_again_breaks k = elim (Bool-cases k.closing) [
  | inl e ↦ rw e (refl, refl)
  | inr e ↦ rw e (refl, refl)
]
