-- ===== src/Tests/Lio.antt =====
-- Sockets with their futures, and `unwrap` on pending futures.
-- Sources: lio/src/lio/socket.cpp, lio/src/lio/iomanager.cpp, ltl/include/ltl/future.hpp.
use ltl.Base.{◌≡◌, refl, true, false, none, some, [], ◌∷◌, arith}
use ltl.Heap.{ok, err, user_error, num, fut, unit, ret, bind, give, ◌>>◌, new_state}
use ltl.Run.{run}
use ltl.Future.{settled, unwrap}
use ltl.Future.Order.{complete}
use ltl.Future.Chained.{unwrap_pending}
use ltl.Socket.{new_socket}
use ltl.Lio.{Lio, SocketImpl, bytes}
use ltl.Lio.Calls.{close, connect, create_server, read, write}
use ltl.Lio.Close.{reported_closed, with_closed, closed_states, close_completes}
use ltl.Lio.Serve.{accepted, with_server, create_server_accepts}
use ltl.Lio.Connect.Established.{established, with_socket, connected_states, connect_ignores_status}
use ltl.Lio.Read.{received, read_completes}
use ltl.Lio.Write.{answered, write_outcome, write_completes}
use ltl.Lio.Request.{answered_states, with_states}
use ltl.Tests.Futures.{user, memory}

unwrap_pending_example :
    bind (unwrap user (run user 2) (some 0) memory) (λ f.
      complete (run user 2) 0 (ok (fut (some 4)))
      >> (complete (run user 2) 4 (ok (num 8)) >> give f))
    ≡ ret (some 5) (record memory {
      states =
          settled (some 5) (ok (fut (some 4)))
          ∷ settled none (ok (num 3))
          ∷ settled (some 5) (err (user_error 9))
          ∷ settled (some 5) (ok (fut (some 1)))
          ∷ settled none (ok (num 8))
          ∷ settled (some 5) (ok (num 8))
          ∷ settled none (ok unit)
          ∷ [];
    })
unwrap_pending_example =
    unwrap_pending user 1 0 4 memory (some 5) none none none refl refl (omega arith) (ok (num 8))

-- A socket and nothing else.
abbrev lio : Lio
lio = record {
  manager = record { task_queue = []; signalled = false; joinable = true; stopping = false };
  sockets =
      record { socket = new_socket; closing_promise = record { state = none; retrieved = false } }
      ∷ [];
  servers = [];
  connections = [];
  calls = [];
}

write_completes_example :
    bind
      (write user (run user 2) (some 5) 0 (7 ∷ 8 ∷ []) lio memory)
      (answered user 1 (λ n. n) (some 5) 0 (7 ∷ 8 ∷ []) memory true)
    ≡ ret
        (some 6, lio)
        (with_states memory (answered_states user 1 (some 5) memory (write_outcome true)))
write_completes_example =
    write_completes user 1 (λ n. n) (some 5) 0 (7 ∷ 8 ∷ []) memory true lio refl refl refl

read_completes_example :
    bind
      (read user (run user 2) (some 5) 0 3 lio memory)
      (received user 1 (λ n. n) (some 5) 0 3 memory ((2, 7 ∷ 8 ∷ []) ∷ (10, 9 ∷ []) ∷ []))
    ≡ ret
        (some 6, lio)
        (with_states memory (answered_states user 1 (some 5) memory (ok (bytes (7 ∷ 8 ∷ 9 ∷ [])))))
read_completes_example =
    read_completes user 1 (λ n. n) (some 5) 0 3 memory 2 (7 ∷ 8 ∷ []) ((10, 9 ∷ []) ∷ []) lio refl
      refl refl (omega arith, refl, (omega arith, refl, tt)) refl

connect_ignores_status_example :
    bind
      (connect user (run user 2) (some 5) lio memory)
      (established user 1 (λ n. n) (some 5) memory true lio)
    ≡ ret
        (
          some 7,
          record lio {
            sockets =
                record {
                  socket = new_socket;
                  closing_promise = record { state = none; retrieved = false };
                }
                ∷ record {
                  socket = new_socket;
                  closing_promise = record { state = some 10; retrieved = false };
                }
                ∷ [];
            connections = record { state = some 9; retrieved = true } ∷ [];
          },
        )
        (with_states memory (connected_states user 1 (λ n. n) (some 5) memory lio))
connect_ignores_status_example =
    connect_ignores_status user 1 (λ n. n) (some 5) memory true lio refl

create_server_accepts_example :
    bind
      (create_server user (run user 2) (some 5) 0 lio memory)
      (accepted user 1 (λ n. n) (some 5) 0 memory true lio)
    ≡ ret
        (some 5, record (with_socket 7 (with_server 0 6 lio)) { calls = (0, some 1) ∷ [] })
        (with_states memory (settled (some 5) (ok (num 0)) ∷ new_state none ∷ new_state none ∷ []))
create_server_accepts_example =
    create_server_accepts user 1 (λ n. n) (some 5) 0 memory true lio (num 7) refl refl

-- An open socket, whose closing promise has the last state of the memory.
abbrev open_socket : SocketImpl
open_socket = record {
  socket = new_socket;
  closing_promise = record { state = some 4; retrieved = false };
}

close_completes_example :
    let l : Lio = record lio { sockets = open_socket ∷ [] } in
    bind
      (close user (run user 2) (some 5) 0 l memory)
      (reported_closed user 1 (λ n. n) (some 5) 0 4 memory none refl)
    ≡ ret
        (some 6, with_closed 0 4 open_socket l)
        (record memory { states = closed_states user 1 (λ n. n) (some 5) 0 4 memory none refl })
close_completes_example =
    close_completes user 1 (λ n. n) (some 5) 0 4 memory none refl
      (record lio { sockets = open_socket ∷ [] }) open_socket refl refl refl refl
