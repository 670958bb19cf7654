-- ===== src/Facade/Results.antt =====
-- What becomes of the futures that a queue hands out for its tasks.
-- Sources: push_pack_impl of ltl/include/ltl/task_queue.hpp,
-- ltl/include/ltl/detail/wrapped_function.hpp.
use ltl.Base.{
  ℕ, ◌≡◌, refl, true, false, Option, some, List, [], ◌∷◌, ◌++◌, length, get_elem?, set,
  get_elem?-append_left, get_elem?-append_new,
}
use ltl.Heap.{
  Val, unit, Result, ok, err, Thunk, State, is_set, Heap, Outcome, ret, throw, M, new_state,
}
use ltl.FutureState.{for_each}
use ltl.Run.{UserCode}
use ltl.Future.{settled}
use ltl.Future.Then.{extend}
use ltl.Future.Order.{completed, complete-pending}
use ltl.Future.Unwrap.{complete-unwatched}
use ltl.Promise.{call}
use ltl.TaskQueue.{Task, TaskQueue}
use ltl.Facade.{TaskObject, wrapped, Facade, pushed_object, push_pack_impl, perform}

-- The object that is pushed: its promise has state `s`, and its future is handed out.
abbrev pub object_of : ℕ → ℕ → TaskObject
object_of s task =
    wrapped (record { task = task; promise = record { state = some s; retrieved = true } })

-- A task that comes to a value sets the state `s`, which is `st`, to it and runs what waited for it,
-- oldest first; the exception of a task that throws leaves the worker's call.
abbrev pub performed : (Thunk → M (Unit {0})) → ℕ → State → Result → Heap → Outcome (Unit {0})
performed run s st (ok v) h =
    for_each run st.continuations (record h { states = set h.states s (completed st (ok v)) })
performed run s st (err e) h = throw e h

push_pack_impl-pushed :
    (push : Task → TaskQueue → TaskQueue) (tq : Option ℕ) (task : ℕ) (q : Facade) (h : Heap)
    → push_pack_impl push tq task q h
      ≡ ret
          (some (length h.states), pushed_object push (object_of (length h.states) task) q)
          (extend h (new_state tq))
unfolding push_pack_impl
push_pack_impl-pushed push tq task q h = refl

call-performed :
    (env : UserCode) (run : Thunk → M (Unit {0})) (s task : ℕ) (st : State) (r : Result) (h : Heap)
    → env.call task unit ≡ r
    → get_elem? h.states s ≡ some st
    → is_set st ≡ false
    → call env run (record { task = task; promise = record { state = some s; retrieved = true } }) h
      ≡ performed run s st r h
unfolding call
call-performed env run s task st (ok v) h e p o = rw e (complete-pending run s (ok v) h p o)
call-performed env run s task st (err x) h e p o = rw e refl

-- The same for a state that nothing waits for.
pub call-returned :
    (env : UserCode) (run : Thunk → M (Unit {0})) (s task : ℕ) (tq : Option ℕ) (v : Val) (h : Heap)
    → env.call task unit ≡ ok v
    → get_elem? h.states s ≡ some (new_state tq)
    → call env run (record { task = task; promise = record { state = some s; retrieved = true } }) h
      ≡ ret tt (record h { states = set h.states s (settled tq (ok v)) })
unfolding call
call-returned env run s task tq v h e p = rw e (complete-unwatched run s (ok v) h tq p)

-- A push returns the future on a new pending state, and hands the queue an item. Whenever the worker
-- calls the object in that item, after whatever pushes (`later`) and other changes of the queue
-- (`moved`), and in whatever memory `k` in which that state is still pending, with whatever waits
-- for it: if the task comes to a value, the state, and so that future, is set to it, and then the
-- continuations that the state had are run, oldest first; if the task throws, its exception leaves
-- the call, and no future changes.
pub push_pack_impl-perform :
    (env : UserCode) (run : Thunk → M (Unit {0})) (push : Task → TaskQueue → TaskQueue)
    (tq : Option ℕ) (task : ℕ) (r : Result) (q : Facade) (h : Heap) (moved : TaskQueue)
    (later : List TaskObject) (k : Heap) (st : State)
    → env.call task unit ≡ r
    → get_elem? k.states (length h.states) ≡ some st
    → is_set st ≡ false
    → let q' : Facade = pushed_object push (object_of (length h.states) task) q in
      (push_pack_impl push tq task q h ≡ ret (some (length h.states), q') (extend h (new_state tq)))
      × (perform env run
            (length q.objects)
            (record { queue = moved; objects = q'.objects ++ later })
            k
          ≡ performed run (length h.states) st r k)
unfolding perform
push_pack_impl-perform env run push tq task r q h moved later k st e p o = (
  push_pack_impl-pushed push tq task q h,
  rw
      (get_elem?-append_left (q.objects ++ object_of (length h.states) task ∷ []) later
        (length q.objects) (get_elem?-append_new q.objects (object_of (length h.states) task)))
      (call-performed env run (length h.states) task st r k e p o),
)
