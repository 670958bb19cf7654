-- ===== src/Facade/Worker/Pushes.antt =====
-- The pushes of one thread, and a round of the worker, as the queue sees them.
-- Sources: ltl/include/ltl/task_queue.hpp, ltl/src/ltl/task_queue_impl.cpp.
use ltl.Base.{
  ℕ, ◌+◌, ◌≡◌, refl, sym, ap, subst, ◌∙◌, false, Option, some, List, [], ◌∷◌, ◌++◌, length, arith,
  append_assoc, length-append, append-nil,
}
use ltl.Heap.{Handle, State, Heap, ret, new_state}
use ltl.Future.Then.{extend}
use ltl.Facade.{TaskObject, Facade, pushed_object, push_pack_impl}
use ltl.Facade.Results.{object_of}
use ltl.TaskQueue.{
  SchedulingPolicy, resumable, non_resumable, user, WorkItem, scanning, TaskQueue, looks, ends,
  step, push_item_back, notify_one,
}
use ltl.TaskQueue
use ltl.Facade.Worker.{Entry, push_by, push_all}

-- The worker is about to look at the queue, which holds these items.
pub record IsReady (items : List WorkItem) (q : TaskQueue) : Type 0 where
  pub holds : q.queue ≡ items
  pub looking : q.worker ≡ scanning
  pub not_joined : q.join_asked ≡ false

abbrev pub items_from : ℕ → List Entry → List WorkItem
items_from n [] = []
items_from n (e ∷ es) = record { task = some (user n); policy = e.policy } ∷ items_from (n + 1) es

abbrev pub objects_from : ℕ → List Entry → List TaskObject
objects_from s [] = []
objects_from s (e ∷ es) = object_of s e.task ∷ objects_from (s + 1) es

abbrev pub futures_from : ℕ → List Entry → List Handle
futures_from s [] = []
futures_from s (e ∷ es) = some s ∷ futures_from (s + 1) es

abbrev pub pending : Option ℕ → List Entry → List State
pending tq [] = []
pending tq (e ∷ es) = new_state tq ∷ pending tq es

push_by-IsReady :
    (p : SchedulingPolicy) (n : ℕ) (items : List WorkItem) (q : TaskQueue)
    → IsReady items q
    → IsReady (items ++ record { task = some (user n); policy = p } ∷ []) (push_by p (user n) q)
unfolding TaskQueue.push_back_resumable TaskQueue.push_back push_item_back notify_one
push_by-IsReady resumable n items q v = ground arith
push_by-IsReady non_resumable n items q v = ground arith

ready :
    (items : List WorkItem) (q : TaskQueue)
    → IsReady items q
    → q ≡ record q { queue = items; worker = scanning; join_asked = false }
ready items q v =
    ap (λ i. record q { queue = i }) v.holds
    ∙ ap (λ w. record q { queue = items; worker = w }) v.looking
    ∙ ap (λ j. record q { queue = items; worker = scanning; join_asked = j }) v.not_joined

turn :
    (n : ℕ) (p : SchedulingPolicy) (items : List WorkItem) (q : TaskQueue)
    → IsReady items (
        step ends (
          step looks (record q {
            queue = record { task = some (user n); policy = p } ∷ items;
            worker = scanning;
            join_asked = false;
          })))
unfolding step TaskQueue.look TaskQueue.start TaskQueue.run_in_new_context TaskQueue.task_complete
    TaskQueue.join_possible TaskQueue.notify_one
turn n non_resumable items q = record { holds = refl; looking = refl; not_joined = refl }
turn n resumable items q = ground arith

pub turn-IsReady :
    (n : ℕ) (p : SchedulingPolicy) (items : List WorkItem) (q : TaskQueue)
    → IsReady (record { task = some (user n); policy = p } ∷ items) q
    → IsReady items (step ends (step looks q))
turn-IsReady n p items q v =
    subst (λ k. IsReady items (step ends (step looks k)))
      (sym (ready (record { task = some (user n); policy = p } ∷ items) q v)) (turn n p items q)

abbrev pub pushed_all : ℕ → List Entry → Facade → Facade
pushed_all s [] q = q
pushed_all s (e ∷ es) q =
    pushed_all (s + 1) es (pushed_object (push_by e.policy) (object_of s e.task) q)

pub pushed_all-objects :
    (s : ℕ) (es : List Entry) (q : Facade)
    → (pushed_all s es q).objects ≡ q.objects ++ objects_from s es
pushed_all-objects s [] q = sym (append-nil q.objects)
pushed_all-objects s (e ∷ es) q =
    pushed_all-objects (s + 1) es (pushed_object (push_by e.policy) (object_of s e.task) q)
    ∙ append_assoc q.objects (object_of s e.task ∷ []) (objects_from (s + 1) es)

pub pushed_all-IsReady :
    (s : ℕ) (es : List Entry) (items : List WorkItem) (q : Facade)
    → IsReady items q.queue
    → IsReady (items ++ items_from (length q.objects) es) (pushed_all s es q).queue
pushed_all-IsReady s [] items q v = rw (append-nil items) v
pushed_all-IsReady s (e ∷ es) items q v =
    let item : WorkItem = record { task = some (user (length q.objects)); policy = e.policy } in
    subst (λ is. IsReady is (pushed_all s (e ∷ es) q).queue)
      (append_assoc items (item ∷ []) (items_from (length q.objects + 1) es))
      (subst
        (λ n. IsReady ((items ++ item ∷ []) ++ items_from n es) (pushed_all s (e ∷ es) q).queue)
        (length-append q.objects (object_of s e.task ∷ []))
        (pushed_all-IsReady (s + 1) es (items ++ item ∷ [])
          (pushed_object (push_by e.policy) (object_of s e.task) q)
          (push_by-IsReady e.policy (length q.objects) items q.queue v)))

push_all-cons :
    (tq : Option ℕ) (e : Entry) (es : List Entry) (fs : List Handle) (q q' : Facade) (h h' : Heap)
    → push_all tq es
        (pushed_object (push_by e.policy) (object_of (length h.states) e.task) q)
        (extend h (new_state tq))
      ≡ ret (fs, q') h'
    → push_all tq (e ∷ es) q h ≡ ret (some (length h.states) ∷ fs, q') h'
unfolding push_all push_pack_impl
push_all-cons tq e es fs q q' h h' p = rw p refl

pub push_all-pushed :
    (tq : Option ℕ) (es : List Entry) (q : Facade) (h : Heap)
    → push_all tq es q h
      ≡ ret
          (futures_from (length h.states) es, pushed_all (length h.states) es q)
          (record h { states = h.states ++ pending tq es })
unfolding push_all
push_all-pushed tq [] q h = rw (append-nil h.states) refl
push_all-pushed tq (e ∷ es) q h = push_all-cons tq e es _ q _ h _ (
    push_all-pushed tq es (pushed_object (push_by e.policy) (object_of (length h.states) e.task) q)
      (extend h (new_state tq))
    ∙ rw
        (
          length-append h.states (new_state tq ∷ []),
          append_assoc h.states (new_state tq ∷ []) (pending tq es),
        )
        refl)
