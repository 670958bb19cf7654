-- ===== src/TaskQueue/Invariant.antt =====
-- The worker, the queue, the count of tasks in progress and the contexts between two events.
-- Sources: ltl/src/ltl/task_queue_impl.cpp, ltl/src/ltl/task_context.cpp.
use ltl.Base.{
  ap, Bool-cases, Option-cases, ◌⊎◌, inl, inr, length-append, ℕ, suc, ◌+◌, ◌≡◌, ◌==◌, refl, true,
  false, ◌&&◌, Option, none, some, List, [], ◌∷◌, length, arith,
}
use ltl.TaskQueue.{
  SchedulingPolicy, Task, WorkItem, resumable, non_resumable, user, resume_of, Worker, waiting,
  scanning, in_plain, in_context, exited, broken, TaskQueue, new_task_queue, join_possible,
  push_item_back, push_front, join_begin, resume, run_in_new_context, start, start_with, take_front,
  look, yield_, task_complete, Event, pushes_back_resumable, pushes_back, pushes_front, joins,
  join_ends, looks, wakes, yields, ends, step, run, taken_out, act,
}

abbrev occupied : Worker → ℕ
occupied (in_context c) = 1
occupied w = 0

pub record IsValid (q : TaskQueue) : Type 0 where
  pub no_lost_wakeup : q.worker ≡ waiting → (q.queue ≡ []) × (join_possible q ≡ false)
  counted : q.worker ≡ broken ⊎ (q.in_progress_count ≡ length q.suspended + occupied q.worker)
  pub contexts :
      q.worker ≡ broken
      ⊎ (q.worker ≡ exited ⊎ (q.made ≡ length q.free_task_contexts + q.in_progress_count))
  pub ended : q.worker ≡ exited → (q.join_asked ≡ true) × (q.in_progress_count ≡ 0)

pub new_task_queue-IsValid : IsValid new_task_queue
unfolding join_possible
new_task_queue-IsValid = ground arith

push_item_back-IsValid : (i : WorkItem) (q : TaskQueue) → IsValid q → IsValid (push_item_back i q)
unfolding push_item_back join_possible
push_item_back-IsValid i q v = ground (arith, length-append {0} q.queue (i ∷ []))

push_front-IsValid : (t : Task) (q : TaskQueue) → IsValid q → IsValid (push_front t q)
unfolding push_front join_possible
push_front-IsValid t q v = ground arith

join_begin-IsValid : (q : TaskQueue) → IsValid q → IsValid (join_begin q)
unfolding join_begin join_possible
join_begin-IsValid q v = ground arith

-- To take a context out leaves one fewer.
abbrev Shorter : List ℕ → Option (List ℕ) → Type 0
Shorter xs none = Unit {0}
Shorter xs (some ys) = length xs ≡ suc (length ys)

taken_out-Shorter : (c : ℕ) (xs : List ℕ) → Shorter xs (taken_out c xs)
taken_out-Shorter c [] = tt
taken_out-Shorter c (x ∷ xs) = elim (Bool-cases (x == c)) [
  | inl e ↦ rw e refl
  | inr e ↦ rw e (extended (taken_out c xs) (taken_out-Shorter c xs))
]
  where
    extended :
        (o : Option (List ℕ))
        → Shorter xs o
        → Shorter (x ∷ xs) (elim o [ none ↦ none | some ys ↦ some (x ∷ ys) ])
    extended none s = tt
    extended (some ys) s = ap suc s

run_in_new_context-IsValid :
    (q : TaskQueue) → IsValid (record q { worker = scanning }) → IsValid (run_in_new_context q)
unfolding run_in_new_context join_possible
run_in_new_context-IsValid q v = ground arith

resume-IsValid :
    (c : ℕ) (q : TaskQueue) → IsValid (record q { worker = scanning }) → IsValid (resume c q)
unfolding resume join_possible
resume-IsValid c q v = elim (Option-cases (taken_out c q.suspended)) [
  | inl e ↦ rw (e, resume) (ground arith)
  | inr (ys, e) ↦
      let shorter : length q.suspended ≡ suc (length ys) =
        rw e at (taken_out-Shorter c q.suspended) in
      rw (e, resume) (ground arith)
]

in_plain-IsValid :
    (q : TaskQueue)
    → IsValid (record q { worker = scanning })
    → IsValid (record q { worker = in_plain })
unfolding join_possible
in_plain-IsValid q v = ground arith

start-IsValid :
    (i : WorkItem) (q : TaskQueue) → IsValid (record q { worker = scanning }) → IsValid (start i q)
unfolding start
start-IsValid i q v = started i.task i.policy
  where
    started : (o : Option Task) (p : SchedulingPolicy) → IsValid (start_with o p q)
    started none p = v
    started (some t) resumable = run_in_new_context-IsValid q v
    started (some (user g)) non_resumable = in_plain-IsValid q v
    started (some (resume_of c)) non_resumable = resume-IsValid c q v

exited-IsValid :
    (q : TaskQueue)
    → q.worker ≡ scanning
    → IsValid q
    → join_possible q ≡ true
    → IsValid (record q { free_task_contexts = []; worker = exited })
unfolding join_possible
exited-IsValid q w v e = ground arith

waiting-IsValid :
    (q : TaskQueue)
    → q.worker ≡ scanning
    → IsValid q
    → join_possible q ≡ false
    → q.queue ≡ []
    → IsValid (record q { worker = waiting })
unfolding join_possible
waiting-IsValid q w v e f = ground arith

popped-IsValid :
    (q : TaskQueue) (rest : List WorkItem)
    → q.worker ≡ scanning
    → IsValid q
    → IsValid (record q { queue = rest; worker = scanning })
unfolding join_possible
popped-IsValid q rest w v = ground arith

look-IsValid : (q : TaskQueue) → q.worker ≡ scanning → IsValid q → IsValid (look q)
unfolding look
look-IsValid q w v = elim (Bool-cases (q.join_asked && q.in_progress_count == 0)) [
  | inl e ↦ rw e (exited-IsValid q w v e)
  | inr e ↦ rw e (looked e q.queue refl)
]
  where
    looked :
        (join_possible q ≡ false) → (xs : List WorkItem) → q.queue ≡ xs → IsValid (take_front xs q)
    looked e [] f = waiting-IsValid q w v e f
    looked e (item ∷ rest) f =
        start-IsValid item (record q { queue = rest }) (popped-IsValid q rest w v)

yield-IsValid : (c : ℕ) (q : TaskQueue) → q.worker ≡ in_context c → IsValid q → IsValid (yield_ c q)
unfolding yield_ join_possible
yield-IsValid c q w v = ground arith

task_complete-IsValid :
    (c : ℕ) (q : TaskQueue) → q.worker ≡ in_context c → IsValid q → IsValid (task_complete c q)
unfolding task_complete join_possible
task_complete-IsValid c q w v = ground arith

woken-IsValid :
    (q : TaskQueue) → q.worker ≡ waiting → IsValid q → IsValid (record q { worker = scanning })
unfolding join_possible
woken-IsValid q w v = ground arith

plain_end-IsValid :
    (q : TaskQueue) → q.worker ≡ in_plain → IsValid q → IsValid (record q { worker = scanning })
unfolding join_possible
plain_end-IsValid q w v = ground arith

join_ended-IsValid : (q : TaskQueue) → IsValid q → IsValid (record q { joinable = false })
unfolding join_possible
join_ended-IsValid q v = record {
  no_lost_wakeup = v.no_lost_wakeup;
  counted = v.counted;
  contexts = v.contexts;
  ended = v.ended;
}

act-IsValid :
    (w : Worker) (e : Event) (q : TaskQueue) → q.worker ≡ w → IsValid q → IsValid (act w e q)
act-IsValid scanning looks q p v = look-IsValid q p v
act-IsValid waiting wakes q p v = woken-IsValid q p v
act-IsValid (in_context c) yields q p v = yield-IsValid c q p v
act-IsValid (in_context c) ends q p v = task_complete-IsValid c q p v
act-IsValid in_plain ends q p v = plain_end-IsValid q p v
act-IsValid exited join_ends q p v = join_ended-IsValid q v
act-IsValid w e q p v = v

step-IsValid : (e : Event) (q : TaskQueue) → IsValid q → IsValid (step e q)
unfolding step
step-IsValid (pushes_back_resumable t) q v = push_item_back-IsValid _ q v
step-IsValid (pushes_back t) q v = push_item_back-IsValid _ q v
step-IsValid (pushes_front t) q v = push_front-IsValid t q v
step-IsValid joins q v = join_begin-IsValid q v
step-IsValid e q v = act-IsValid q.worker e q refl v

-- Whatever the threads of the program and the tasks do, in any order: while the worker waits, the
-- queue is empty and the queue may not be joined; unless a task was resumed that was not suspended,
-- `in_progress_count_` is the number of tasks begun and not ended, and, until the worker's loop has
-- ended, it makes up all contexts with the free ones; and the loop ends only after `join`, with no
-- task in progress.
pub run-IsValid : (es : List Event) (q : TaskQueue) → IsValid q → IsValid (run es q)
unfolding run
run-IsValid [] q v = v
run-IsValid (e ∷ es) q v = run-IsValid es (step e q) (step-IsValid e q v)
