-- ===== src/Await.antt =====
-- `await`: suspends the current task until a future is complete.
-- Source: ltl/include/ltl/await.hpp.
pub mod Resume
use ltl.Base.{ℕ, Bool, Option, none, some, if◌then◌else◌}
use ltl.Heap.{Handle, Val, Thunk, unit, push_resume, null_pointer, M, ◌>>=◌, ◌>>◌, give, stop}
use ltl.FutureState
use ltl.Run.{future_get, push_front}
use ltl.Future

-- How the first part of `await` ends: with a value, or with `ctx->yield()`.
pub data Awaited : Type 0 where
  returned : Val → Awaited
  suspended : Awaited

-- The registration of `resume_task` on the state of `f`; an invalid future is a null pointer here.
unfoldable pub register : ℕ → Handle → M Awaited
unfolding FutureState.continue_with FutureState.await_queue push_front
register ctx none = stop null_pointer
register ctx (some s) = do
  FutureState.continue_with s (push_resume s ctx)
      (FutureState.await_queue s >>= λ q. push_front q ctx)
  give Awaited.suspended

abbrev finish : Handle → M Awaited
finish f = do v ← future_get f; give (Awaited.returned v)

-- apply(future<T>); `ctx` is the current task, if there is one.
unfoldable pub apply : Option ℕ → Handle → M Awaited
unfolding Future.ready register
apply ctx f = do
  b ← Future.ready f
  if b then finish f else elim ctx [ none ↦ finish f | some c ↦ register c f ]

-- apply(future<void>)
unfoldable pub apply_void : Option ℕ → Handle → M Awaited
unfolding Future.ready Future.wait register
apply_void ctx f = do
  b ← Future.ready f
  if b then give (Awaited.returned unit) else elim ctx [
    | none ↦ (do Future.wait f; give (Awaited.returned unit))
    | some c ↦ register c f
  ]

-- What follows `ctx->yield()`, when the task is resumed.
unfoldable pub after_resume : Handle → M Val
unfolding future_get
after_resume f = future_get f

unfoldable pub after_resume_void : Handle → M Val
after_resume_void f = give unit
