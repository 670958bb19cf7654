-- ===== src/Socket.antt =====
-- `socket::impl`: queues of reads and writes between the library's futures and libuv's callbacks.
-- Source: lio/src/lio/socket.cpp.
pub mod Read
pub mod Write
pub mod Buffer
pub mod Chunks
pub mod Bounds
use ltl.Base.{
  ℕ, zero, suc, ◌+◌, ◌-◌, ◌==◌, leb, Bool, true, false, ◌||◌, not, Option, none, some, List, [],
  ◌∷◌, ◌++◌, length, take, drop, replicate, if◌then◌else◌,
}

-- `data`, the capacity reserved for it, and `buf`: its base as an offset into `data`, if not null,
-- and its length. `promise` names the promise.
pub record ReadRequest : Type 0 where
  pub contents : List ℕ
  pub capacity : ℕ
  pub base : Option ℕ
  pub len : ℕ
  pub promise : ℕ

pub record WriteRequest : Type 0 where
  pub contents : List ℕ
  pub promise : ℕ

-- `reading` is libuv's: whether `uv_read_start` is in force. `open_handle` is false once `tcp_` is
-- reset, `close_pending` tells that `close_cb` is still to come.
pub record Socket : Type 0 where
  pub read_queue : List ReadRequest
  pub write_queue : List WriteRequest
  pub reading : Bool
  pub closing : Bool
  pub keep_alive : Bool
  pub open_handle : Bool

-- What a callback does to a promise.
pub data Completion : Type 0 where
  read_done : (promise : ℕ) → List ℕ → Completion
  read_failed write_done write_failed : (promise : ℕ) → Completion
  close_done : Completion

-- A call ends with a new state and the promises completed, or breaks: a failed assert, or the front
-- of an empty queue.
pub data Step (S : Type 0) : Type 0 where
  done : S → List Completion → Step S
  broken : Step S

abbrev pub after : {S : Type 0} → List Completion → Step S → Step S
after cs broken = broken
after cs (done s ds) = done s (cs ++ ds)

-- One call after another, until one breaks.
abbrev pub and_then : {S : Type 0} → Step S → (S → Step S) → Step S
and_then broken f = broken
and_then (done s cs) f = after cs (f s)

-- vector::resize, and the bytes that libuv writes at an offset.
abbrev pub resize : ℕ → List ℕ → List ℕ
resize n xs = take n xs ++ replicate (n - length xs) 0

abbrev pub overwrite : ℕ → List ℕ → List ℕ → List ℕ
overwrite off bytes xs = take off xs ++ (bytes ++ drop (off + length bytes) xs)

-- on_alloc_read, at the request in front
unfoldable pub alloc_request : ℕ → ReadRequest → ReadRequest
alloc_request s req =
    let old_s : ℕ = length req.contents in
    let new_s : ℕ = if leb (old_s + s) req.capacity then old_s + s else req.capacity in
    let resized : List ℕ = resize new_s req.contents in
    elim req.base [
      | none ↦ record req { contents = resized; base = some 0; len = length resized }
      | some b ↦ record req { contents = resized; base = some (b + req.len); len = new_s - old_s }
    ]

abbrev pub offset : Option ℕ → ℕ
offset none = 0
offset (some b) = b

-- The bytes written by libuv at `buf.base`, then the `else` branch of on_read up to the resize: what
-- was written behind the end of `data` is not part of it, and the resize fills up with zeros.
unfoldable pub receive : List ℕ → ReadRequest → ReadRequest
receive bytes req =
    let total : ℕ = offset req.base + length bytes in
    let written : List ℕ =
      take (length req.contents) (overwrite (offset req.base) bytes req.contents) in
    record req { contents = resize total written }

unfoldable pub fits : List ℕ → ReadRequest → Bool
fits bytes req = leb (offset req.base + length bytes) req.capacity

unfoldable pub is_full : List ℕ → ReadRequest → Bool
is_full bytes req = (offset req.base + length bytes) == req.capacity || length bytes == 0

unfoldable pub on_alloc_read : ℕ → Socket → Step Socket
unfolding alloc_request
on_alloc_read s k = elim k.read_queue [
  | [] ↦ broken
  | req ∷ rest ↦ done (record k { read_queue = alloc_request s req ∷ rest }) []
]

-- What libuv reports: an error, or bytes that it read.
pub data Nread : Type 0 where
  failed : Nread
  bytes_read : List ℕ → Nread

unfoldable pub on_read_front : Nread → ReadRequest → List ReadRequest → Socket → Step Socket
unfolding receive fits is_full
on_read_front failed req rest k =
    done (record k { read_queue = rest; reading = false }) (read_failed req.promise ∷ [])
on_read_front (bytes_read bs) req rest k =
    if not (fits bs req)
    then broken
    else if is_full bs req
    then done
        (record k { read_queue = rest; reading = if length bs == 0 then k.reading else false })
        (read_done req.promise (receive bs req).contents ∷ [])
    else done (record k { read_queue = receive bs req ∷ rest }) []

unfoldable pub on_read : Nread → Socket → Step Socket
unfolding on_read_front
on_read n k = elim k.read_queue [ [] ↦ broken | req ∷ rest ↦ on_read_front n req rest k ]

-- `reserve size` is the capacity of an empty vector after `reserve(size)`.
unfoldable pub read : (reserve : ℕ → ℕ) → (promise size : ℕ) → Socket → Socket
read reserve p size k =
    let req : ReadRequest = record {
      contents = [];
      capacity = reserve size;
      base = none;
      len = 0;
      promise = p;
    } in
    record k { reading = true; read_queue = k.read_queue ++ req ∷ [] }

unfoldable pub write : (promise : ℕ) → List ℕ → Socket → Socket
write p contents k = record k {
  write_queue = k.write_queue ++ record { contents = contents; promise = p } ∷ [];
}

abbrev pub write_result : Bool → ℕ → Completion
write_result true p = write_failed p
write_result false p = write_done p

-- `status` is libuv's: true for an error.
unfoldable pub on_write : Bool → Socket → Step Socket
on_write status k = elim k.write_queue [
  | [] ↦ broken
  | req ∷ rest ↦ done (record k { write_queue = rest }) (write_result status req.promise ∷ [])
]

unfoldable pub close : Socket → Step Socket
close k = if k.closing then broken else done (record k { closing = true; keep_alive = true }) []

unfoldable pub on_close : Socket → Step Socket
on_close k = done (record k { open_handle = false; keep_alive = false }) (close_done ∷ [])

-- The constructor, on an open handle.
abbrev pub new_socket : Socket
new_socket = record {
  read_queue = [];
  write_queue = [];
  reading = false;
  closing = false;
  keep_alive = false;
  open_handle = true;
}
