-- ===== src/Socket/Chunks.antt =====
-- A read whose bytes arrive in chunks, each of which fills the buffer made for it.
-- Source: on_alloc_read and on_read of lio/src/lio/socket.cpp.
use ltl.Base.{
  false, ℕ, ◌+◌, ◌-◌, leb, ◌≤◌, ◌<◌, ◌≡◌, refl, sym, ap, ap₂, subst, ◌∙◌, some, List, [], ◌∷◌, ◌++◌,
  length, if◌then◌else◌, arith, length-append, append_assoc, append-nil,
}
use ltl.Socket.{
  offset, and_then, after, Step, ReadRequest, Socket, read_done, done, alloc_request, receive,
  on_alloc_read, bytes_read, on_read, on_read_front,
}
use ltl.Socket.Read.{
  IsAligned, room, alloc-offset, receive-alloc_request, on_alloc_read_lem, on_read_lem,
  on_read_front-partial, on_read_front-full, fresh,
}
use ltl.Socket.Buffer.{alloc-base, alloc-len, alloc-kept, receive-kept}

-- For each chunk, libuv asks for a buffer of a size that it suggests, and then reports the bytes.
unfoldable pub feed : List (ℕ × List ℕ) → Socket → Step Socket
feed [] k = done k []
feed ((s, bs) ∷ cs) k = and_then (and_then (on_alloc_read s k) (on_read (bytes_read bs))) (feed cs)

abbrev pub joined : List (ℕ × List ℕ) → List ℕ
joined [] = []
joined ((s, bs) ∷ cs) = bs ++ joined cs

-- After `old` bytes of `cap`, each chunk brings some bytes, and as many as there is room for.
abbrev pub Fills : ℕ → ℕ → List (ℕ × List ℕ) → Type 0
Fills old cap [] = Unit {0}
Fills old cap ((s, bs) ∷ cs) =
    (0 < length bs)
    × (length bs ≡ (if leb (old + s) cap then old + s else cap) - old)
    × Fills (old + length bs) cap cs

-- A chunk that fills its buffer: what is left of the read.
module _ (s : ℕ) (bs : List ℕ) (req : ReadRequest) (aligned : IsAligned req req.base)
    (within : length req.contents ≤ req.capacity) (fills : length bs ≡ room s req) where
  abbrev got : ReadRequest
  got = receive bs (alloc_request s req)

  got-contents : got.contents ≡ req.contents ++ bs
  got-contents = receive-alloc_request s bs req aligned within fills

  got-base : got.base ≡ some (length req.contents)
  got-base = (receive-kept bs (alloc_request s req)).0 ∙ alloc-base s req req.base refl aligned

  got-len : got.len ≡ length bs
  got-len =
      (receive-kept bs (alloc_request s req)).1
      ∙ alloc-len s req req.base refl aligned within
      ∙ sym fills

  got-IsAligned : IsAligned got got.base
  got-IsAligned =
      rw got-base (omega (arith, got-len, ap length got-contents, length-append req.contents bs))

  got-capacity : got.capacity ≡ req.capacity
  got-capacity = (receive-kept bs (alloc_request s req)).2 ∙ (alloc-kept s req).0

  got-promise : got.promise ≡ req.promise
  got-promise = (receive-kept bs (alloc_request s req)).3 ∙ (alloc-kept s req).1

  ends_at : offset (alloc_request s req).base + length bs ≡ length req.contents + length bs
  ends_at = ap (λ n. n + length bs) (alloc-offset s req req.base refl aligned)

  one_chunk :
      (rest : List ReadRequest) (k : Socket)
      → and_then (on_alloc_read s (record k { read_queue = req ∷ rest })) (on_read (bytes_read bs))
        ≡ after [] (
            on_read_front
              (bytes_read bs)
              (alloc_request s req)
              rest
              (record k { read_queue = alloc_request s req ∷ rest }))
  one_chunk rest k =
      rw (on_alloc_read_lem s req rest k, on_read_lem (bytes_read bs) (alloc_request s req) rest k)
        refl

  one_chunk-partial :
      (rest : List ReadRequest) (k : Socket)
      → length req.contents + length bs < req.capacity
      → 0 < length bs
      → and_then (on_alloc_read s (record k { read_queue = req ∷ rest })) (on_read (bytes_read bs))
        ≡ done (record k { read_queue = got ∷ rest }) []
  one_chunk-partial rest k lt pos =
      rw
        (
          one_chunk rest k,
          on_read_front-partial bs (alloc_request s req) rest
              (record k { read_queue = alloc_request s req ∷ rest })
              (omega (arith, ends_at, (alloc-kept s req).0)) pos,
        )
        refl

  one_chunk-full :
      (rest : List ReadRequest) (k : Socket)
      → length req.contents + length bs ≡ req.capacity
      → 0 < length bs
      → and_then (on_alloc_read s (record k { read_queue = req ∷ rest })) (on_read (bytes_read bs))
        ≡ done
            (record k { read_queue = rest; reading = false })
            (read_done req.promise (req.contents ++ bs) ∷ [])
  one_chunk-full rest k e pos =
      rw
        (
          one_chunk rest k,
          on_read_front-full bs (alloc_request s req) rest
              (record k { read_queue = alloc_request s req ∷ rest })
              (omega (arith, ends_at, (alloc-kept s req).0, e)) pos,
          got-contents,
          (alloc-kept s req).1,
        )
        refl

feed_cons :
    (s : ℕ) (bs : List ℕ) (cs : List (ℕ × List ℕ)) (k : Socket)
    → feed ((s, bs) ∷ cs) k
      ≡ and_then (and_then (on_alloc_read s k) (on_read (bytes_read bs))) (feed cs)
unfolding feed
feed_cons s bs cs k = refl

feed_nil : (k : Socket) → feed [] k ≡ done k []
unfolding feed
feed_nil k = refl

feed-chunks :
    (s : ℕ) (bs : List ℕ) (cs : List (ℕ × List ℕ)) (req : ReadRequest) (rest : List ReadRequest)
    (k : Socket)
    → IsAligned req req.base
    → Fills (length req.contents) req.capacity ((s, bs) ∷ cs)
    → length req.contents + length (joined ((s, bs) ∷ cs)) ≡ req.capacity
    → feed ((s, bs) ∷ cs) (record k { read_queue = req ∷ rest })
      ≡ done
          (record k { read_queue = rest; reading = false })
          (read_done req.promise (req.contents ++ joined ((s, bs) ∷ cs)) ∷ [])
feed-chunks s bs [] req rest k a (pos, fill, _) e =
    let within : length req.contents ≤ req.capacity = omega arith in
    rw
      (
        feed_cons s bs [] (record k { read_queue = req ∷ rest }),
        one_chunk-full s bs req a within fill rest k (omega (arith, e, length-append bs [])) pos,
        feed_nil,
        append-nil bs,
      )
      refl
feed-chunks s bs ((s', bs') ∷ cs) req rest k a (pos, fill, more) e =
    let within : length req.contents ≤ req.capacity = omega arith in
    let req' : ReadRequest = got s bs req a within fill in
    let len' : length req'.contents ≡ length req.contents + length bs =
      ap length (got-contents s bs req a within fill) ∙ length-append req.contents bs in
    let promise' : req'.promise ≡ req.promise = got-promise s bs req a within fill in
    let capacity' : req'.capacity ≡ req.capacity = got-capacity s bs req a within fill in
    let after_both : length (bs ++ (bs' ++ joined cs))
        ≡ length bs + (length bs' + length (joined cs)) =
      length-append bs (bs' ++ joined cs)
      ∙ ap (λ n. length bs + n) (length-append bs' (joined cs)) in
    let lt : length req.contents + length bs < req.capacity =
      omega (arith, e, after_both, more.0) in
    rw
      (
        feed_cons s bs ((s', bs') ∷ cs) (record k { read_queue = req ∷ rest }),
        one_chunk-partial s bs req a within fill rest k lt pos,
        feed-chunks s' bs' cs req' rest k (got-IsAligned s bs req a within fill)
            (subst (λ n. Fills n req'.capacity ((s', bs') ∷ cs)) (sym len')
              (subst (λ n. Fills (length req.contents + length bs) n ((s', bs') ∷ cs))
                (sym capacity') more))
            (omega (arith, e, len', capacity', after_both, length-append bs' (joined cs))),
      )
      (ap₂ (λ q xs. done (record k { read_queue = rest; reading = false }) (read_done q xs ∷ []))
        promise'
        (ap (λ xs. xs ++ (bs' ++ joined cs)) (got-contents s bs req a within fill)
          ∙ append_assoc req.contents bs (bs' ++ joined cs)))

-- A read of `cap` bytes, at the front of the queue: if the chunks that arrive are `cap` bytes
-- together, and each fills the buffer made for it, then the promise gets exactly these bytes, in
-- the order of their arrival, the read leaves the queue, and nothing breaks.
pub feed-joined :
    (p cap s : ℕ) (bs : List ℕ) (cs : List (ℕ × List ℕ)) (rest : List ReadRequest) (k : Socket)
    → Fills 0 cap ((s, bs) ∷ cs)
    → length (joined ((s, bs) ∷ cs)) ≡ cap
    → feed ((s, bs) ∷ cs) (record k { read_queue = fresh p cap ∷ rest })
      ≡ done
          (record k { read_queue = rest; reading = false })
          (read_done p (joined ((s, bs) ∷ cs)) ∷ [])
feed-joined p cap s bs cs rest k f e =
    feed-chunks s bs cs (fresh p cap) rest k refl f (omega (arith, e))
