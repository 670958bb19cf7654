-- ===== src/Socket/Read.antt =====
-- Reads: a chunk that fills its buffer, and one that does not.
-- Source: on_alloc_read and on_read of lio/src/lio/socket.cpp.
use ltl.Base.{
  ℕ, ◌+◌, ◌-◌, leb, ◌≤◌, ◌<◌, ◌≡◌, refl, sym, ap, false, Option, none, some, List, [], ◌∷◌, ◌++◌,
  length, replicate, take, if◌then◌else◌, arith, append-nil, length-append, take-all, drop-all,
  take-append, length-replicate, Option-cases, inl, inr,
}
use ltl.Socket.{
  offset, and_then, ReadRequest, Socket, read_done, done, broken, resize, overwrite, alloc_request,
  receive, on_alloc_read, Nread, bytes_read, on_read_front, on_read,
}

-- The buffer ends where the data ends.
abbrev pub IsAligned : ReadRequest → Option ℕ → Type 0
IsAligned req none = req.contents ≡ []
IsAligned req (some b) = b + req.len ≡ length req.contents

resize-same : (xs : List ℕ) (n : ℕ) → length xs ≡ n → resize n xs ≡ xs
resize-same xs n e =
    let none_left : n - length xs ≡ 0 = omega arith in
    rw (take-all n xs (omega arith), none_left) (append-nil xs)

overwrite-tail :
    (xs bytes : List ℕ) (n : ℕ)
    → length bytes ≡ n
    → overwrite (length xs) bytes (xs ++ replicate n 0) ≡ xs ++ bytes
overwrite-tail xs bytes n e =
    let last : length (xs ++ replicate n 0) ≤ length xs + length bytes =
      omega (arith, length-append xs (replicate n 0), length-replicate {A = ℕ} n 0) in
    rw (
      take-append xs (replicate n 0),
      drop-all (length xs + length bytes) (xs ++ replicate n 0) last,
      append-nil bytes,
    )

pub resize-grow :
    (xs : List ℕ) (n : ℕ) → length xs ≤ n → resize n xs ≡ xs ++ replicate (n - length xs) 0
resize-grow xs n h = rw (take-all n xs h)

-- The bytes that `alloc_request` makes room for.
abbrev pub room : ℕ → ReadRequest → ℕ
room s req =
    (if leb (length req.contents + s) req.capacity then length req.contents + s else req.capacity)
    - length req.contents

abbrev pub new_size : ℕ → ReadRequest → ℕ
new_size s req =
    if leb (length req.contents + s) req.capacity then length req.contents + s else req.capacity

-- After `alloc_request` the buffer begins where the data ended.
pub alloc-offset :
    (s : ℕ) (req : ReadRequest) (o : Option ℕ)
    → req.base ≡ o
    → IsAligned req o
    → offset (alloc_request s req).base ≡ length req.contents
unfolding alloc_request
alloc-offset s req none e a = rw e (ap length (sym a))
alloc-offset s req (some b) e a = rw e a

pub alloc-contents :
    (s : ℕ) (req : ReadRequest)
    → (alloc_request s req).contents ≡ resize (new_size s req) req.contents
unfolding alloc_request
alloc-contents s req = elim (Option-cases req.base) [ inl e ↦ rw e | inr (b, e) ↦ rw e ]

receive-contents :
    (bytes : List ℕ) (req : ReadRequest)
    → (receive bytes req).contents
      ≡ resize
          (offset req.base + length bytes)
          (take (length req.contents) (overwrite (offset req.base) bytes req.contents))
unfolding receive
receive-contents bytes req = refl

-- If the buffer of a read ends where its data ends, within the capacity, then a chunk that fills the
-- next buffer made for the read is added to the data at its end.
pub receive-alloc_request :
    (s : ℕ) (bytes : List ℕ) (req : ReadRequest)
    → IsAligned req req.base
    → length req.contents ≤ req.capacity
    → length bytes ≡ room s req
    → (receive bytes (alloc_request s req)).contents ≡ req.contents ++ bytes
receive-alloc_request s bytes req a c e =
    rw
      (
        receive-contents bytes (alloc_request s req),
        alloc-offset s req req.base refl a,
        alloc-contents s req,
        resize-grow req.contents (new_size s req) grows,
        overwrite-tail req.contents bytes (new_size s req - length req.contents) e,
        take-all (length resized) (req.contents ++ bytes) no_more,
      )
      (resize-same (req.contents ++ bytes) (length req.contents + length bytes)
        (length-append req.contents bytes))
  where
    grows : length req.contents ≤ new_size s req
    grows = ground arith

    resized : List ℕ
    resized = req.contents ++ replicate (new_size s req - length req.contents) 0

    no_more : length (req.contents ++ bytes) ≤ length resized
    no_more =
        rw
          (
            length-append req.contents bytes,
            length-append req.contents (replicate (new_size s req - length req.contents) 0),
            length-replicate {A = ℕ} (new_size s req - length req.contents) 0,
          )
          (omega (arith, e))

pub on_alloc_read_lem :
    (s : ℕ) (req : ReadRequest) (rest : List ReadRequest) (k : Socket)
    → on_alloc_read s (record k { read_queue = req ∷ rest })
      ≡ done (record k { read_queue = alloc_request s req ∷ rest }) []
unfolding on_alloc_read
on_alloc_read_lem s req rest k = refl

pub on_read_lem :
    (n : Nread) (req : ReadRequest) (rest : List ReadRequest) (k : Socket)
    → on_read n (record k { read_queue = req ∷ rest })
      ≡ on_read_front n req rest (record k { read_queue = req ∷ rest })
unfolding on_read
on_read_lem n req rest k = refl

-- The three ways in which bytes are received.
pub on_read_front-partial :
    (bs : List ℕ) (req : ReadRequest) (rest : List ReadRequest) (k : Socket)
    → offset req.base + length bs < req.capacity
    → 0 < length bs
    → on_read_front (bytes_read bs) req rest k
      ≡ done (record k { read_queue = receive bs req ∷ rest }) []
unfolding on_read_front
on_read_front-partial bs req rest k lt pos = ground arith

on_read_front-overflow :
    (bs : List ℕ) (req : ReadRequest) (rest : List ReadRequest) (k : Socket)
    → req.capacity < offset req.base + length bs
    → on_read_front (bytes_read bs) req rest k ≡ broken
unfolding on_read_front
on_read_front-overflow bs req rest k lt = ground arith

pub on_read_front-full :
    (bs : List ℕ) (req : ReadRequest) (rest : List ReadRequest) (k : Socket)
    → offset req.base + length bs ≡ req.capacity
    → 0 < length bs
    → on_read_front (bytes_read bs) req rest k
      ≡ done
          (record k { read_queue = rest; reading = false })
          (read_done req.promise (receive bs req).contents ∷ [])
unfolding on_read_front
on_read_front-full bs req rest k e pos = ground arith

abbrev pub fresh : (promise cap : ℕ) → ReadRequest
fresh p cap = record { contents = []; capacity = cap; base = none; len = 0; promise = p }

resized-length : (n : ℕ) → length (resize n []) ≡ n
resized-length n =
    rw (take-all {A = ℕ} n [] (omega arith)) (omega (arith, length-replicate {A = ℕ} (n - 0) 0))

capped : (s cap : ℕ) → cap ≤ s → (if leb (0 + s) cap then 0 + s else cap) ≡ cap
capped s cap h = ground arith

module _ (s s' p cap : ℕ) (bs bs' : List ℕ) (big : cap ≤ s) where
  abbrev first : ReadRequest
  first = alloc_request s (fresh p cap)

  abbrev second : ReadRequest
  second = alloc_request s' (receive bs first)

  first-offset : (offset first.base ≡ 0) × (first.len ≡ cap) × (first.capacity ≡ cap)
  unfolding alloc_request
  first-offset = (refl, rw (capped s cap big) (resized-length cap), refl)

  second-offset : (offset second.base ≡ cap) × (second.capacity ≡ cap)
  unfolding alloc_request receive
  second-offset = (omega (arith, resized, big), refl)
    where
      resized : length (resize (new_size s (fresh p cap)) []) ≡ cap
      resized = rw (capped s cap big) (resized-length cap)

  -- A read of `cap` bytes, for which libuv first suggests a buffer of `cap` bytes or more, and whose
  -- first chunk brings some bytes, but fewer than `cap`: any bytes that come next break the program.
  pub short_read_breaks :
      (k : Socket) (rest : List ReadRequest)
      → 0 < length bs
      → length bs < cap
      → 0 < length bs'
      → and_then
          (and_then
            (and_then
              (on_alloc_read s (record k { read_queue = fresh p cap ∷ rest }))
              (on_read (bytes_read bs)))
            (on_alloc_read s'))
          (on_read (bytes_read bs'))
        ≡ broken
  short_read_breaks k rest pos lt pos' = rw (
    on_alloc_read_lem s (fresh p cap) rest k,
    on_read_lem (bytes_read bs) first rest k,
    on_read_front-partial bs first rest (record k { read_queue = first ∷ rest })
        (omega (arith, first-offset)) pos,
    on_alloc_read_lem s' (receive bs first) rest k,
    on_read_lem (bytes_read bs') second rest k,
    on_read_front-overflow bs' second rest (record k { read_queue = second ∷ rest })
        (omega (arith, second-offset)),
  )

-- If the bytes that arrive complete the read in front, and another read stands behind it: the front
-- read leaves the queue with its data, and libuv is told to stop reading, though the other read
-- stays queued.
on_read-stops_reading :
    (bs : List ℕ) (req next : ReadRequest) (rest : List ReadRequest) (k : Socket)
    → offset req.base + length bs ≡ req.capacity
    → 0 < length bs
    → on_read (bytes_read bs) (record k { read_queue = req ∷ next ∷ rest })
      ≡ done
          (record k { read_queue = next ∷ rest; reading = false })
          (read_done req.promise (receive bs req).contents ∷ [])
on_read-stops_reading bs req next rest k e pos =
    rw (on_read_lem (bytes_read bs) req (next ∷ rest) k)
      (on_read_front-full bs req (next ∷ rest) (record k { read_queue = req ∷ next ∷ rest }) e pos)
