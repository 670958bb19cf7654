-- ===== src/Tests/Io.antt =====
-- Runs of a socket, of the input/output manager and of a server.
-- Sources: lio/src/lio/socket.cpp, lio/src/lio/iomanager.cpp, lio/src/lio/server.cpp.
use ltl.Base.{some, ℕ, ◌≡◌, refl, true, false, List, [], ◌∷◌, arith, if◌then◌else◌, ltb, ◌+◌}
use ltl.Socket.{
  Socket, read_done, read_failed, close_done, failed, write_done, write_failed, done, broken,
  and_then, bytes_read, on_alloc_read, on_read, read, new_socket,
}
use ltl.Socket.Read.{fresh, short_read_breaks}
use ltl.Socket.Chunks.{feed, feed-joined}
use ltl.Socket.Bounds.{
  reads, writes, allocs, reports, written, closes, closed, run_events, Holds, run_events-Holds,
  Event,
}
use ltl.Socket.Write.{on_writes, on_writes_in_order}
use ltl.IoManager.{on_async_new_task}
use ltl.IoManager.Server
use ltl.IoManager.Server.{new_server, ready_future, closing_future, closes_once}

abbrev identity : ℕ → ℕ
identity n = n

-- A read of two bytes that come at once.
read_two :
    and_then (on_alloc_read 10 (read identity 4 2 new_socket)) (on_read (bytes_read (7 ∷ 8 ∷ [])))
    ≡ done (record new_socket { reading = false }) (read_done 4 (7 ∷ 8 ∷ []) ∷ [])
unfolding read on_alloc_read on_read
read_two = refl

short_read_breaks_example :
    and_then
      (and_then
        (and_then
          (on_alloc_read 10 (record new_socket { read_queue = fresh 4 2 ∷ [] }))
          (on_read (bytes_read (7 ∷ []))))
        (on_alloc_read 10))
      (on_read (bytes_read (8 ∷ [])))
    ≡ broken
short_read_breaks_example =
    short_read_breaks 10 10 4 2 (7 ∷ []) (8 ∷ []) (omega arith) new_socket [] (omega arith)
      (omega arith) (omega arith)

abbrev two_writes : Socket
two_writes = record new_socket {
  write_queue =
      record { contents = 7 ∷ []; promise = 1 } ∷ record { contents = []; promise = 2 } ∷ [];
}

on_writes_in_order_example :
    on_writes (false ∷ true ∷ []) two_writes ≡ done new_socket (write_done 1 ∷ write_failed 2 ∷ [])
on_writes_in_order_example = on_writes_in_order two_writes (false ∷ true ∷ []) (omega arith)

-- A task below 2 hands over two more.
abbrev two_more : ℕ → List ℕ
two_more t = if ltb t 2 then (t + 1) ∷ (t + 2) ∷ [] else []

drains_two_more : on_async_new_task two_more 4 (0 ∷ 5 ∷ []) [] ≡ some (0 ∷ 5 ∷ 1 ∷ 2 ∷ 2 ∷ 3 ∷ [])
unfolding on_async_new_task
drains_two_more = refl

-- A task below 2 hands over two more.
abbrev two_children : ℕ → List ℕ
two_children t = if ltb t 2 then (t + 1) ∷ (t + 2) ∷ [] else []

closes_once_example :
    ((Server.closes 3 new_server).1 ≡ closing_future ∷ ready_future ∷ ready_future ∷ [])
    × ((Server.closes 3 new_server).0.uv_closes ≡ 1)
closes_once_example = closes_once 2

feed-joined_example :
    feed
      ((2, 7 ∷ 8 ∷ []) ∷ (10, 9 ∷ []) ∷ [])
      (record new_socket { read_queue = fresh 4 3 ∷ fresh 5 1 ∷ [] })
    ≡ done
        (record new_socket { read_queue = fresh 5 1 ∷ []; reading = false })
        (read_done 4 (7 ∷ 8 ∷ 9 ∷ []) ∷ [])
feed-joined_example =
    feed-joined 4 3 2 (7 ∷ 8 ∷ []) ((10, 9 ∷ []) ∷ []) (fresh 5 1 ∷ []) new_socket
      (omega arith, refl, (omega arith, refl, tt)) refl

abbrev mixed : List Event
mixed =
    reads 4
    ∷ reads 5
    ∷ writes 6 (1 ∷ [])
    ∷ allocs 10
    ∷ reports (bytes_read (7 ∷ 8 ∷ []))
    ∷ written false
    ∷ allocs 10
    ∷ reports failed
    ∷ closes
    ∷ closed
    ∷ []

-- Three reads and a write: what the socket does with each.
mixed_runs :
    run_events (λ n. n) (λ p. 2) mixed new_socket
    ≡ done
        (record new_socket { reading = false; closing = true; open_handle = false })
        (read_done 4 (7 ∷ 8 ∷ []) ∷ write_done 6 ∷ read_failed 5 ∷ close_done ∷ [])
unfolding run_events
mixed_runs = refl

run_events-Holds_example : Holds (λ n. n) (λ p. 2) (run_events (λ n. n) (λ p. 2) mixed new_socket)
run_events-Holds_example = run_events-Holds (λ n. n) (λ p. 2) mixed new_socket tt
