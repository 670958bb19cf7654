-- ===== src/TaskQueue/Fifo.antt =====
-- The order in which the worker takes the items of the queue.
-- Source: push_back and the worker loop of ltl/src/ltl/task_queue_impl.cpp.
use ltl.Base.{
  ℕ, ◌≡◌, ◌==◌, refl, sym, ap, ◌∙◌, Bool, true, false, ◌&&◌, Option, none, some, List, [], ◌∷◌,
  ◌++◌, arith, inl, inr, append_assoc, append-nil, Bool-cases, Option-cases,
}
use ltl.TaskQueue.{
  SchedulingPolicy, Task, WorkItem, resumable, non_resumable, user, resume_of, Worker, waiting,
  scanning, in_plain, in_context, TaskQueue, join_possible, push_item_back, start, start_with,
  take_front, look, task_complete, resume, run_in_new_context, yield_, taken_out, Event,
  pushes_back_resumable, pushes_back, pushes_front, exited, joins, join_ends, looks, wakes, yields,
  ends, step, run, act,
}

-- The items that an event puts into the queue, and the items that it takes out.
abbrev pub pushed : Event → List WorkItem
pushed (pushes_back_resumable t) = record { task = some t; policy = resumable } ∷ []
pushed (pushes_back t) = record { task = some t; policy = non_resumable } ∷ []
pushed e = []

abbrev front : Bool → List WorkItem → List WorkItem
front true xs = []
front false [] = []
front false (x ∷ xs) = x ∷ []

abbrev taken_at : Worker → Event → TaskQueue → List WorkItem
taken_at scanning looks q = front (join_possible q) q.queue
taken_at w e q = []

abbrev pub taken : Event → TaskQueue → List WorkItem
taken e q = taken_at q.worker e q

abbrev pub pushed_all : List Event → List WorkItem
pushed_all [] = []
pushed_all (e ∷ es) = pushed e ++ pushed_all es

abbrev pub taken_all : List Event → TaskQueue → List WorkItem
taken_all [] q = []
taken_all (e ∷ es) q = taken e q ++ taken_all es (step e q)

abbrev only_back : Event → Bool
only_back (pushes_front t) = false
only_back joins = false
only_back e = true

abbrev OnlyBack : List Event → Type 0
OnlyBack [] = Unit {0}
OnlyBack (e ∷ es) = (only_back e ≡ true) × OnlyBack es

run_in_new_context-queue : (q : TaskQueue) → (run_in_new_context q).queue ≡ q.queue
unfolding run_in_new_context
run_in_new_context-queue q = ground arith

resume-queue : (c : ℕ) (q : TaskQueue) → (resume c q).queue ≡ q.queue
unfolding resume
resume-queue c q = elim (Option-cases (taken_out c q.suspended)) [
  | inl e ↦ rw (e, resume)
  | inr (ys, e) ↦ rw (e, resume)
]

start-queue : (i : WorkItem) (q : TaskQueue) → (start i q).queue ≡ q.queue
unfolding start
start-queue i q = started i.task i.policy
  where
    started : (o : Option Task) (p : SchedulingPolicy) → (start_with o p q).queue ≡ q.queue
    started none p = refl
    started (some t) resumable = run_in_new_context-queue q
    started (some (user g)) non_resumable = refl
    started (some (resume_of c)) non_resumable = resume-queue c q

look-queue : (q : TaskQueue) → front (join_possible q) q.queue ++ (look q).queue ≡ q.queue
unfolding look join_possible
look-queue q = elim (Bool-cases (q.join_asked && q.in_progress_count == 0)) [
  | inl e ↦ rw e
  | inr e ↦ rw e (looked q.queue refl)
]
  where
    looked : (xs : List WorkItem) → q.queue ≡ xs → front false xs ++ (take_front xs q).queue ≡ xs
    looked [] f = f
    looked (item ∷ rest) f = ap (◌∷◌ item) (start-queue item (record q { queue = rest }))

push_item_back-queue :
    (i : WorkItem) (q : TaskQueue) → (push_item_back i q).queue ≡ q.queue ++ i ∷ []
unfolding push_item_back
push_item_back-queue i q = ground arith

task_complete-queue : (c : ℕ) (q : TaskQueue) → (task_complete c q).queue ≡ q.queue
unfolding task_complete
task_complete-queue c q = ground arith

act-queue : (w : Worker) (e : Event) (q : TaskQueue) → taken_at w e q ++ (act w e q).queue ≡ q.queue
unfolding yield_
act-queue scanning looks q = look-queue q
act-queue waiting wakes q = refl
act-queue (in_context c) yields q = refl
act-queue (in_context c) ends q = task_complete-queue c q
act-queue in_plain ends q = refl
act-queue exited join_ends q = refl
act-queue w e q = refl

not_taken_back : (w : Worker) (t : Task) (q : TaskQueue) → taken_at w (pushes_back t) q ≡ []
not_taken_back scanning t q = refl
not_taken_back w t q = refl

not_taken_resumable :
    (w : Worker) (t : Task) (q : TaskQueue) → taken_at w (pushes_back_resumable t) q ≡ []
not_taken_resumable scanning t q = refl
not_taken_resumable w t q = refl

step-queue :
    (e : Event) (q : TaskQueue)
    → only_back e ≡ true
    → taken e q ++ (step e q).queue ≡ q.queue ++ pushed e
unfolding step
step-queue (pushes_back_resumable t) q b =
    rw (not_taken_resumable q.worker t q) (push_item_back-queue _ q)
step-queue (pushes_back t) q b = rw (not_taken_back q.worker t q) (push_item_back-queue _ q)
step-queue (pushes_front t) q b = cc
step-queue joins q b = cc
step-queue e q b = act-queue q.worker e q ∙ sym (append-nil q.queue)

-- While nothing is pushed to the front and nobody calls `join`: the items that the worker takes,
-- followed by those that are left, are those that stood in the queue, followed by those pushed
-- back, in that order.
pub run_fifo :
    (es : List Event) (q : TaskQueue)
    → OnlyBack es
    → taken_all es q ++ (run es q).queue ≡ q.queue ++ pushed_all es
unfolding run
run_fifo [] q b = sym (append-nil q.queue)
run_fifo (e ∷ es) q (b, bs) =
    append_assoc (taken e q) (taken_all es (step e q)) (run es (step e q)).queue
    ∙ ap (◌++◌ (taken e q)) (run_fifo es (step e q) bs)
    ∙ sym (append_assoc (taken e q) (step e q).queue (pushed_all es))
    ∙ ap (λ xs. xs ++ pushed_all es) (step-queue e q b)
    ∙ append_assoc q.queue (pushed e) (pushed_all es)
