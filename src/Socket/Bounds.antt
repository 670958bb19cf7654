-- ===== src/Socket/Bounds.antt =====
-- The sizes of reads, whatever is called and whatever libuv reports.
-- Source: lio/src/lio/socket.cpp.
use ltl.Base.{
  ℕ, zero, suc, take, replicate, length-replicate, List-cases, subst, ◌-◌, ◌+◌, ◌≤◌, ◌≡◌, refl,
  Bool, true, false, List, [], ◌∷◌, ◌++◌, length, arith, length-append, Bool-cases, inl, inr,
}
use ltl.Socket.{
  ReadRequest, Socket, Completion, read_done, read_failed, write_done, write_failed, close_done,
  Step, done, broken, and_then, after, write_result, resize, overwrite, offset, fits, is_full,
  alloc_request, receive, Nread, failed, bytes_read, on_alloc_read, on_read_front, on_read, read,
  write, on_write, close, on_close,
}
use ltl.Socket.Read.{new_size, alloc-contents}
use ltl.Socket.Buffer.{alloc-kept}

length-take : (n : ℕ) (xs : List ℕ) → length (take n xs) + (n - length xs) ≡ n
length-take zero xs = omega arith
length-take (suc n) [] = omega arith
length-take (suc n) (x ∷ xs) = omega (arith, length-take n xs)

length-resize_any : (n : ℕ) (xs : List ℕ) → length (resize n xs) ≡ n
length-resize_any n xs = omega (
  arith,
  length-append (take n xs) (replicate (n - length xs) 0),
  length-replicate {A = ℕ} (n - length xs) 0,
  length-take n xs,
)

new_size_le :
    (s : ℕ) (req : ReadRequest) → length req.contents ≤ req.capacity → new_size s req ≤ req.capacity
new_size_le s req h = ground arith

-- The calls of a socket on the thread of its loop, and libuv's callbacks.
pub data Event : Type 0 where
  reads : (promise : ℕ) → Event
  writes : (promise : ℕ) → List ℕ → Event
  allocs : (suggested_size : ℕ) → Event
  reports : Nread → Event
  written : (status : Bool) → Event
  closes closed : Event

module _ (reserve : ℕ → ℕ) (size : ℕ → ℕ) where
  -- The read with promise `p` asks for `size p` bytes.
  unfoldable pub act : Event → Socket → Step Socket
  unfolding read write on_alloc_read on_read on_write close on_close
  act (reads p) k = done (read reserve p (size p) k) []
  act (writes p contents) k = done (write p contents k) []
  act (allocs s) k = on_alloc_read s k
  act (reports n) k = on_read n k
  act (written status) k = on_write status k
  act closes k = close k
  act closed k = on_close k

  unfoldable pub run_events : List Event → Socket → Step Socket
  unfolding act
  run_events [] k = done k []
  run_events (e ∷ es) k = and_then (act e k) (run_events es)

  abbrev IsFitting : List ReadRequest → Type 0
  IsFitting [] = Unit {0}
  IsFitting (req ∷ reqs) =
      (length req.contents ≤ req.capacity)
      × (req.capacity ≡ reserve (size req.promise))
      × IsFitting reqs

  abbrev IsWithin : List Completion → Type 0
  IsWithin [] = Unit {0}
  IsWithin (read_done p contents ∷ cs) = (length contents ≤ reserve (size p)) × IsWithin cs
  IsWithin (c ∷ cs) = IsWithin cs

  abbrev pub Holds : Step Socket → Type 0
  Holds broken = Unit {0}
  Holds (done k cs) = IsFitting k.read_queue × IsWithin cs

  IsWithin-append : (cs ds : List Completion) → IsWithin cs → IsWithin ds → IsWithin (cs ++ ds)
  IsWithin-append [] ds p q = q
  IsWithin-append (read_done n xs ∷ cs) ds p q = (p.0, IsWithin-append cs ds p.1 q)
  IsWithin-append (read_failed n ∷ cs) ds p q = IsWithin-append cs ds p q
  IsWithin-append (write_done n ∷ cs) ds p q = IsWithin-append cs ds p q
  IsWithin-append (write_failed n ∷ cs) ds p q = IsWithin-append cs ds p q
  IsWithin-append (close_done ∷ cs) ds p q = IsWithin-append cs ds p q

  after-Holds :
      (cs : List Completion) (x : Step Socket) → IsWithin cs → Holds x → Holds (after cs x)
  after-Holds cs broken p h = tt
  after-Holds cs (done k ds) p h = (h.0, IsWithin-append cs ds p h.1)

  and_then-Holds :
      (x : Step Socket) (f : Socket → Step Socket)
      → Holds x
      → ((k : Socket) → IsFitting k.read_queue → Holds (f k))
      → Holds (and_then x f)
  and_then-Holds broken f h q = tt
  and_then-Holds (done k cs) f h q = after-Holds cs (f k) h.1 (q k h.0)

  IsFitting-append :
      (xs : List ReadRequest) (req : ReadRequest)
      → IsFitting xs
      → IsFitting (req ∷ [])
      → IsFitting (xs ++ req ∷ [])
  IsFitting-append [] req p q = q
  IsFitting-append (x ∷ xs) req p q = (p.0, p.1, IsFitting-append xs req p.2 q)

  alloc_request-length :
      (s : ℕ) (req : ReadRequest)
      → length req.contents ≤ req.capacity
      → length (alloc_request s req).contents ≤ req.capacity
  alloc_request-length s req h =
      rw (alloc-contents s req, length-resize_any (new_size s req) req.contents)
        (new_size_le s req h)

  on_alloc_read-Holds : (s : ℕ) (k : Socket) → IsFitting k.read_queue → Holds (on_alloc_read s k)
  unfolding on_alloc_read
  on_alloc_read-Holds s k f = elim (List-cases k.read_queue) [
    | inl e ↦ rw (e, on_alloc_read) tt
    | inr (req, rest, e) ↦
        let (small, same, others) = subst IsFitting e f in
        rw (e, on_alloc_read)
          (
            (
              rw (alloc-kept s req).0 (alloc_request-length s req small),
              rw ((alloc-kept s req).0, (alloc-kept s req).1) same,
              others,
            ),
            tt,
          )
  ]

  receive-length :
      (bs : List ℕ) (req : ReadRequest)
      → fits bs req ≡ true
      → length (receive bs req).contents ≤ req.capacity
  unfolding receive fits
  receive-length bs req e =
      rw
        (length-resize_any (offset req.base + length bs)
          (take (length req.contents) (overwrite (offset req.base) bs req.contents)))
        (ground arith)

  on_read_front-Holds :
      (n : Nread) (req : ReadRequest) (rest : List ReadRequest) (k : Socket)
      → IsFitting (req ∷ rest)
      → Holds (on_read_front n req rest k)
  unfolding on_read_front
  on_read_front-Holds failed req rest k (small, same, others) = (others, tt)
  on_read_front-Holds (bytes_read bs) req rest k (small, same, others) =
      elim (Bool-cases (fits bs req)) [
        | inl e ↦
            let short : length (receive bs req).contents ≤ req.capacity = receive-length bs req e in
            elim (Bool-cases (is_full bs req)) [
              | inl g ↦ rw (e, g) (others, (omega (arith, short, same), tt))
              | inr g ↦ rw (e, g) ((short, same, others), tt)
            ]
        | inr e ↦ rw e tt
      ]

  on_read-Holds : (n : Nread) (k : Socket) → IsFitting k.read_queue → Holds (on_read n k)
  unfolding on_read
  on_read-Holds n k f = elim (List-cases k.read_queue) [
    | inl e ↦ rw (e, on_read) tt
    | inr (req, rest, e) ↦ rw (e, on_read) (on_read_front-Holds n req rest k (subst IsFitting e f))
  ]

  on_write-Holds : (b : Bool) (k : Socket) → IsFitting k.read_queue → Holds (on_write b k)
  unfolding on_write
  on_write-Holds b k f = elim (List-cases k.write_queue) [
    | inl e ↦ rw (e, on_write) tt
    | inr (req, rest, e) ↦ rw (e, on_write) (f, within b req.promise)
  ]
    where
      within : (b : Bool) (p : ℕ) → IsWithin (write_result b p ∷ [])
      within true p = tt
      within false p = tt

  act-Holds : (e : Event) (k : Socket) → IsFitting k.read_queue → Holds (act e k)
  unfolding act read write close on_close
  act-Holds (reads p) k f = (IsFitting-append k.read_queue _ f (omega arith, refl, tt), tt)
  act-Holds (writes p contents) k f = (f, tt)
  act-Holds (allocs s) k f = on_alloc_read-Holds s k f
  act-Holds (reports n) k f = on_read-Holds n k f
  act-Holds (written status) k f = on_write-Holds status k f
  act-Holds closes k f = elim (Bool-cases k.closing) [ inl e ↦ rw e tt | inr e ↦ rw e (f, tt) ]
  act-Holds closed k f = (f, tt)

  -- Whatever is called on a socket and reported to it, in any order and with any sizes: unless the
  -- socket breaks, no read ever holds, or hands to its promise, more bytes than were reserved for
  -- it.
  pub run_events-Holds :
      (es : List Event) (k : Socket) → IsFitting k.read_queue → Holds (run_events es k)
  unfolding run_events
  run_events-Holds [] k f = (f, tt)
  run_events-Holds (e ∷ es) k f =
      and_then-Holds (act e k) (run_events es) (act-Holds e k f) (run_events-Holds es)
