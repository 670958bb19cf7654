-- ===== src/Socket/Buffer.antt =====
-- The buffer that is made for the next chunk of a read, and what stays of the read.
-- Source: on_alloc_read and on_read of lio/src/lio/socket.cpp.
use ltl.Base.{
  ℕ, ◌-◌, ◌≤◌, ◌≡◌, refl, sym, ap, Option, none, some, List, length, replicate, arith,
  length-append, length-replicate, Option-cases, inl, inr,
}
use ltl.Socket.{ReadRequest, resize, alloc_request, receive}
use ltl.Socket.Read.{IsAligned, room, new_size, resize-grow}

length-resize : (n : ℕ) (xs : List ℕ) → length xs ≤ n → length (resize n xs) ≡ n
length-resize n xs h = rw (resize-grow xs n h) (
    omega (
      arith,
      length-append xs (replicate (n - length xs) 0),
      length-replicate {A = ℕ} (n - length xs) 0,
    ))

pub alloc-base :
    (s : ℕ) (req : ReadRequest) (o : Option ℕ)
    → req.base ≡ o
    → IsAligned req o
    → (alloc_request s req).base ≡ some (length req.contents)
unfolding alloc_request
alloc-base s req none e a = rw e (ap (λ xs. some (length xs)) (sym a))
alloc-base s req (some b) e a = rw e (ap some a)

pub alloc-len :
    (s : ℕ) (req : ReadRequest) (o : Option ℕ)
    → req.base ≡ o
    → IsAligned req o
    → length req.contents ≤ req.capacity
    → (alloc_request s req).len ≡ room s req
unfolding alloc_request
alloc-len s req none e a c =
    let grows : length req.contents ≤ new_size s req = ground arith in
    rw (e, length-resize (new_size s req) req.contents grows) (omega (arith, ap length a))
alloc-len s req (some b) e a c = rw e refl

pub alloc-kept :
    (s : ℕ) (req : ReadRequest)
    → ((alloc_request s req).capacity ≡ req.capacity)
      × ((alloc_request s req).promise ≡ req.promise)
unfolding alloc_request
alloc-kept s req = elim (Option-cases req.base) [
  | inl e ↦ rw e (refl, refl)
  | inr (b, e) ↦ rw e (refl, refl)
]

pub receive-kept :
    (bs : List ℕ) (req : ReadRequest)
    → ((receive bs req).base ≡ req.base)
      × ((receive bs req).len ≡ req.len)
      × ((receive bs req).capacity ≡ req.capacity)
      × ((receive bs req).promise ≡ req.promise)
unfolding receive
receive-kept bs req = (refl, refl, refl, refl)
