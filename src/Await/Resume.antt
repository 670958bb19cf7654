-- ===== src/Await/Resume.antt =====
-- A task that awaits, from its suspension to the completion of the future.
-- Source: ltl/include/ltl/await.hpp.
use ltl.Base.{
  ℕ, suc, ◌≡◌, refl, ap, ◌∙◌, true, false, Option, none, some, [], ◌∷◌, ◌++◌, get_elem?, set,
  get_elem?-set_self, set-set,
}
use ltl.Heap.{
  lift, Exn, Handle, unit, Result, ok, err, push_resume, State, is_set, Heap, ret, fault, throw,
  null_pointer, bind, give, Block,
}
use ltl.Run.{UserCode, outcome_of, push_front, run, future_get}
use ltl.Future.Chain.{future_get-outcome, is_set-outcome}
use ltl.Future.Order.{complete, completed, complete-pending, for_each-one, unwatched}
use ltl.Await.{returned, suspended, apply, apply_void, after_resume}

-- `await` in a task, on a future that is pending.
apply-suspends :
    (ctx s : ℕ) (h : Heap) {st : State}
    → get_elem? h.states s ≡ some st
    → is_set st ≡ false
    → apply (some ctx) (some s) h
      ≡ ret suspended (record h {
        states =
            set h.states s
              (record st { continuations = st.continuations ++ push_resume s ctx ∷ [] });
      })
unfolding apply
apply-suspends ctx s h e p = rw (e, p) (rw (e, p))

apply_void-suspends :
    (ctx s : ℕ) (h : Heap) {st : State}
    → get_elem? h.states s ≡ some st
    → is_set st ≡ false
    → apply_void (some ctx) (some s) h
      ≡ ret suspended (record h {
        states =
            set h.states s
              (record st { continuations = st.continuations ++ push_resume s ctx ∷ [] });
      })
unfolding apply_void
apply_void-suspends ctx s h e p = rw (e, p) (rw (e, p))

run-push_resume :
    (env : UserCode) (n s ctx : ℕ) (h : Heap) {st : State}
    → get_elem? h.states s ≡ some st
    → run env (suc n) (push_resume s ctx) h ≡ push_front st.await_queue ctx h
unfolding run
run-push_resume env n s ctx h e = rw e

completed-await_queue : (st : State) (r : Result) → (completed st r).await_queue ≡ st.await_queue
completed-await_queue st (ok v) = refl
completed-await_queue st (err e) = refl

-- The memory after the future that is awaited has come to `r`, before anything is pushed.
abbrev pub came : Heap → ℕ → Option ℕ → Option Block → Result → Heap
came h s tq b r = record h { states = set h.states s (completed (unwatched tq b) r) }

module _ (env : UserCode) (n s ctx : ℕ) (h : Heap) (tq : Option ℕ) (b : Option Block) (r : Result)
    (at_s : get_elem? h.states s ≡ some (unwatched tq b)) where
  abbrev asked : State
  asked = record (unwatched tq b) { continuations = push_resume s ctx ∷ [] }

  completed-asked : (r : Result) → completed asked r ≡ completed (unwatched tq b) r
  completed-asked (ok v) = refl
  completed-asked (err e) = refl

  complete-asked :
      complete (run env (suc n)) s r (record h { states = set h.states s asked })
      ≡ push_front tq ctx (came h s tq b r)
  complete-asked =
      let k : Heap = record h { states = set h.states s asked } in
      rw
        (
          complete-pending (run env (suc n)) s r k (get_elem?-set_self h.states s asked at_s) refl,
          for_each-one (run env (suc n)) (push_resume s ctx),
          set-set h.states s asked (completed asked r),
          completed-asked r,
        )
        (run-push_resume env n s ctx (came h s tq b r)
            (get_elem?-set_self h.states s (completed (unwatched tq b) r) at_s)
          ∙ ap (λ q. push_front q ctx (came h s tq b r)) (completed-await_queue (unwatched tq b) r))

  -- After `await` has suspended its task, to complete the future hands the task to the state's
  -- queue: both for `future<T>` and for `future<void>`.
  complete-apply :
      (bind (apply (some ctx) (some s) h) (λ _. complete (run env (suc n)) s r)
        ≡ push_front tq ctx (came h s tq b r))
      × (bind (apply_void (some ctx) (some s) h) (λ _. complete (run env (suc n)) s r)
          ≡ push_front tq ctx (came h s tq b r))
  complete-apply = (
    rw (apply-suspends ctx s h at_s refl) complete-asked,
    rw (apply_void-suspends ctx s h at_s refl) complete-asked,
  )

push_front-some :
    (q ctx : ℕ) (h : Heap)
    → push_front (some q) ctx h ≡ ret tt (record h { resumed = h.resumed ++ (q, ctx) ∷ [] })
unfolding push_front
push_front-some q ctx h = refl

push_front-none : (ctx : ℕ) (h : Heap) → push_front none ctx h ≡ fault null_pointer
unfolding push_front
push_front-none ctx h = refl

after_resume_lem : (f : Handle) (h : Heap) → after_resume f h ≡ future_get f h
unfolding after_resume
after_resume_lem f h = refl

completed-outcome :
    (tq : Option ℕ) (b : Option Block) (r : Result)
    → outcome_of (completed (unwatched tq b) r) ≡ some r
completed-outcome tq b (ok v) = refl
completed-outcome tq b (err e) = refl

-- If a task awaits a pending future whose state has the await queue `q` and no continuations, the
-- completion of the future pushes the task to `q` once, and changes nothing else but the state; and
-- what the task then gets is what the future was completed by.
pub await_resumes_once :
    (env : UserCode) (n s ctx q : ℕ) (h : Heap) (b : Option Block) (r : Result)
    → get_elem? h.states s ≡ some (unwatched (some q) b)
    → let k = record h {
      states = set h.states s (completed (unwatched (some q) b) r);
      resumed = h.resumed ++ (q, ctx) ∷ [];
    } in
      (bind (apply (some ctx) (some s) h) (λ _. complete (run env (suc n)) s r) ≡ ret tt k)
      × (after_resume (some s) k ≡ lift r k)
await_resumes_once env n s ctx q h b r e = (
  (complete-apply env n s ctx h (some q) b r e).0 ∙ push_front-some q ctx (came h s (some q) b r),
  after_resume_lem (some s) _
      ∙ future_get-outcome s r
          (record h {
            states = set h.states s (completed (unwatched (some q) b) r);
            resumed = h.resumed ++ (q, ctx) ∷ [];
          })
          (get_elem?-set_self h.states s (completed (unwatched (some q) b) r) e)
          (completed-outcome (some q) b r),
)

-- If a task awaits a pending future whose state has no await queue and no continuations, the
-- completion of the future ends at a null pointer.
pub await_without_queue :
    (env : UserCode) (n s ctx : ℕ) (h : Heap) (b : Option Block) (r : Result)
    → get_elem? h.states s ≡ some (unwatched none b)
    → bind (apply (some ctx) (some s) h) (λ _. complete (run env (suc n)) s r) ≡ fault null_pointer
await_without_queue env n s ctx h b r e =
    (complete-apply env n s ctx h none b r e).0 ∙ push_front-none ctx (came h s none b r)

apply-ready :
    (ctx : Option ℕ) (s : ℕ) (h : Heap) {st : State}
    → get_elem? h.states s ≡ some st
    → is_set st ≡ true
    → apply ctx (some s) h ≡ bind (future_get (some s) h) (λ v. give (returned v))
unfolding apply
apply-ready ctx s h e p = rw (e, p)

apply_void-ready :
    (ctx : Option ℕ) (s : ℕ) (h : Heap) {st : State}
    → get_elem? h.states s ≡ some st
    → is_set st ≡ true
    → apply_void ctx (some s) h ≡ ret (returned unit) h
unfolding apply_void
apply_void-ready ctx s h e p = rw (e, p)

-- `await` on a complete future that holds an exception throws it for `future<T>`, and returns
-- normally for `future<void>`; neither changes the memory.
await_void_drops_exception :
    (ctx : Option ℕ) (s : ℕ) (x : Exn) (h : Heap) {st : State}
    → get_elem? h.states s ≡ some st
    → outcome_of st ≡ some (err x)
    → (apply ctx (some s) h ≡ throw x h) × (apply_void ctx (some s) h ≡ ret (returned unit) h)
await_void_drops_exception ctx s x h {st} e p = (
  apply-ready ctx s h e (is_set-outcome st p)
      ∙ ap (λ o. bind o (λ v. give (returned v))) (future_get-outcome s (err x) h e p),
  apply_void-ready ctx s h e (is_set-outcome st p),
)
