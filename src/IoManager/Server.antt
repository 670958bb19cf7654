-- ===== src/IoManager/Server.antt =====
-- `server::impl`, and the two callbacks that make sockets.
-- Sources: lio/src/lio/server.cpp, connection_established of lio/src/lio/iomanager.cpp.
use ltl.Base.{
  ℕ, zero, suc, ◌+◌, ◌≡◌, refl, ap, Bool, true, false, Option, none, some, List, [], ◌∷◌, replicate,
  if◌then◌else◌,
}

-- `retrieved` is that of `closing_promise_`; `uv_closes` counts the calls of `uv_close`.
pub record Server : Type 0 where
  pub closing : Bool
  pub retrieved : Bool
  pub uv_closes : ℕ

abbrev pub new_server : Server
new_server = record { closing = false; retrieved = false; uv_closes = 0 }

-- The future that `close` returns: a complete one, that of `closing_promise_`, or none, if
-- `get_future` throws.
pub data CloseResult : Type 0 where
  ready_future closing_future already_retrieved : CloseResult

abbrev pub retrieve : Server → Server × CloseResult
retrieve s =
    if s.retrieved then (s, already_retrieved) else (record s { retrieved = true }, closing_future)

unfoldable pub close : Server → Server × CloseResult
close s =
    if s.closing
    then (s, ready_future)
    else retrieve (record s { closing = true; uv_closes = s.uv_closes + 1 })

-- server::impl::connection_established: `none` stands for the null socket that is handed to
-- `on_connection_`; the second part tells whether the client's handle is closed.
unfoldable pub connection_established :
    (status : Bool) → (accept_failed : Bool) → (client : ℕ) → Option ℕ × Bool
connection_established true accept_failed client = (none, false)
connection_established false false client = (some client, false)
connection_established false true client = (none, true)

-- iomanager::impl::connection_established: the status is not looked at.
unfoldable pub connected : (status : Bool) → (sock : ℕ) → Option ℕ
connected status sock = some sock

unfoldable pub closes : ℕ → Server → Server × List CloseResult
closes zero s = (s, [])
closes (suc n) s = let (s', r) = close s in let (s'', rs) = closes n s' in (s'', r ∷ rs)

abbrev closed : Server
closed = record { closing = true; retrieved = true; uv_closes = 1 }

closes-closed : (n : ℕ) → closes n closed ≡ (closed, replicate n ready_future)
unfolding closes close
closes-closed zero = refl
closes-closed (suc n) = ap (λ p. (p.0, ready_future ∷ p.1)) (closes-closed n)

-- However often a server is closed, also by its destructor: libuv is told once, the first caller
-- gets the future of the promise, the others a future that is complete already, and none of them an
-- exception.
pub closes_once :
    (n : ℕ)
    → ((closes (suc n) new_server).1 ≡ closing_future ∷ replicate n ready_future)
      × ((closes (suc n) new_server).0.uv_closes ≡ 1)
unfolding closes close
closes_once n =
    let ih = closes-closed n in (ap (λ p. closing_future ∷ p.1) ih, ap (λ p. p.0.uv_closes) ih)
