-- ===== src/TaskQueue/Contexts.antt =====
-- Where the contexts are: free, suspended, or with the worker.
-- Sources: ltl/src/ltl/task_queue_impl.cpp, ltl/src/ltl/task_context.cpp.
use ltl.Base.{
  ap, Bool-cases, inl, inr, ℕ, ◌+◌, ◌≡◌, ◌==◌, ltb, refl, Bool, true, List-cases, if◌then◌else◌,
  false, ◌&&◌, Option, none, some, List, [], ◌∷◌, length, arith, subst, ◌-◌, ◌++◌,
}
use ltl.TaskQueue.{
  SchedulingPolicy, Task, WorkItem, resumable, non_resumable, user, resume_of, Worker, waiting,
  scanning, in_plain, in_context, exited, broken, TaskQueue, new_task_queue, notify_one, woken,
  join_possible, push_item_back, push_front, join_begin, resume, run_in_new_context, start,
  start_with, take_front, look, yield_, task_complete, Event, pushes_back_resumable, pushes_back,
  pushes_front, joins, join_ends, looks, wakes, yields, ends, step, run, taken_out, act,
}

-- How often a context stands in a list, and with the worker.
abbrev pub times : ℕ → List ℕ → ℕ
times c [] = 0
times c (x ∷ xs) = (if x == c then 1 else 0) + times c xs

abbrev pub held : ℕ → Worker → ℕ
held c (in_context x) = if x == c then 1 else 0
held c w = 0

abbrev is_alive : Worker → Bool
is_alive exited = false
is_alive broken = false
is_alive w = true

-- Each context made is in one place, and no other context is anywhere.
abbrev Placed : Worker → (free suspended : List ℕ) → (made : ℕ) → Type 0
Placed w free suspended made =
    is_alive w ≡ true
    → (c : ℕ) → times c free + times c suspended + held c w ≡ (if ltb c made then 1 else 0)

abbrev IsPlaced : TaskQueue → Type 0
IsPlaced q = Placed q.worker q.free_task_contexts q.suspended q.made

new_task_queue-IsPlaced : IsPlaced new_task_queue
new_task_queue-IsPlaced l c = ground arith

notify_one-IsPlaced : (q : TaskQueue) → IsPlaced q → IsPlaced (notify_one q)
unfolding notify_one
notify_one-IsPlaced q v = by_worker q.worker v
  where
    by_worker :
        (w : Worker)
        → Placed w q.free_task_contexts q.suspended q.made
        → Placed (woken w) q.free_task_contexts q.suspended q.made
    by_worker waiting v = v
    by_worker scanning v = v
    by_worker in_plain v = v
    by_worker (in_context c) v = v
    by_worker exited v = v
    by_worker broken v = v

if-IsPlaced : (b : Bool) (q r : TaskQueue) → IsPlaced q → IsPlaced r → IsPlaced (if b then q else r)
if-IsPlaced true q r v w = v
if-IsPlaced false q r v w = w

push_item_back-IsPlaced :
    (i : WorkItem) (q : TaskQueue) → IsPlaced q → IsPlaced (push_item_back i q)
unfolding push_item_back
push_item_back-IsPlaced i q v =
    let q' : TaskQueue = record q { queue = q.queue ++ i ∷ [] } in
    if-IsPlaced (length q'.queue == 1) (notify_one q') q' (notify_one-IsPlaced q' v) v

push_front-IsPlaced : (t : Task) (q : TaskQueue) → IsPlaced q → IsPlaced (push_front t q)
unfolding push_front
push_front-IsPlaced t q v =
    let q' : TaskQueue = record q {
      queue = record { task = some t; policy = non_resumable } ∷ q.queue;
    } in
    if-IsPlaced (length q'.queue == 1) (notify_one q') q' (notify_one-IsPlaced q' v) v

join_begin-IsPlaced : (q : TaskQueue) → IsPlaced q → IsPlaced (join_begin q)
unfolding join_begin
join_begin-IsPlaced q v =
    let q' : TaskQueue = record q { queue = []; join_asked = true } in
    if-IsPlaced q.joinable (notify_one q') q (notify_one-IsPlaced q' v) v

-- The worker runs no context.
free-of_worker :
    (q : TaskQueue) {w : Worker} (c : ℕ)
    → q.worker ≡ w
    → is_alive w ≡ true
    → held c w ≡ 0
    → IsPlaced q
    → times c q.free_task_contexts + times c q.suspended ≡ (if ltb c q.made then 1 else 0)
free-of_worker q c e l outside v =
    omega (arith, outside, subst (λ w. Placed w q.free_task_contexts q.suspended q.made) e v l c)

-- To take a context out leaves all others.
abbrev Without : ℕ → List ℕ → Option (List ℕ) → Type 0
Without c xs none = Unit {0}
Without c xs (some ys) = (d : ℕ) → times d xs ≡ (if c == d then 1 else 0) + times d ys

taken_out-Without : (c : ℕ) (xs : List ℕ) → Without c xs (taken_out c xs)
taken_out-Without c [] = tt
taken_out-Without c (x ∷ xs) = elim (Bool-cases (x == c)) [
  | inl e ↦ rw e (λ d. ground (arith, e))
  | inr e ↦ rw e (extended (taken_out c xs) (taken_out-Without c xs))
]
  where
    extended :
        (o : Option (List ℕ))
        → Without c xs o
        → Without c (x ∷ xs) (elim o [ none ↦ none | some ys ↦ some (x ∷ ys) ])
    extended none s = tt
    extended (some ys) s = λ d. omega (arith, s d)

resume-IsPlaced : (c : ℕ) (q : TaskQueue) → q.worker ≡ scanning → IsPlaced q → IsPlaced (resume c q)
unfolding resume
resume-IsPlaced c q w v = go (taken_out c q.suspended) (taken_out-Without c q.suspended)
  where
    go :
        (o : Option (List ℕ))
        → Without c q.suspended o
        → IsPlaced (elim o [
          | none ↦ record q { worker = broken }
          | some rest ↦ record q { suspended = rest; worker = in_context c }
        ])
    go none s l d = cc
    go (some rest) s l d = omega (arith, free-of_worker q d w refl refl v, s d)

run_in_new_context-IsPlaced :
    (q : TaskQueue) → q.worker ≡ scanning → IsPlaced q → IsPlaced (run_in_new_context q)
unfolding run_in_new_context
run_in_new_context-IsPlaced q w v = elim (List-cases q.free_task_contexts) [
  | inl e ↦ rw (e, run_in_new_context) (λ l c. fresh c)
  | inr (x, xs, e) ↦ rw (e, run_in_new_context) (λ l c. freed x xs c e)
]
  where
    fresh :
        (c : ℕ)
        → times c q.free_task_contexts + times c q.suspended + (if q.made == c then 1 else 0)
          ≡ (if ltb c (q.made + 1) then 1 else 0)
    fresh c = ground (arith, free-of_worker q c w refl refl v)

    freed :
        (x : ℕ) (xs : List ℕ) (c : ℕ)
        → q.free_task_contexts ≡ x ∷ xs
        → times c xs + times c q.suspended + (if x == c then 1 else 0)
          ≡ (if ltb c q.made then 1 else 0)
    freed x xs c e = omega (arith, ap (times c) e, free-of_worker q c w refl refl v)

start-IsPlaced :
    (item : WorkItem) (q : TaskQueue) → q.worker ≡ scanning → IsPlaced q → IsPlaced (start item q)
unfolding start
start-IsPlaced item q w v = by_task item.task item.policy
  where
    by_task : (t : Option Task) (p : SchedulingPolicy) → IsPlaced (start_with t p q)
    by_task none p = λ l c. omega (arith, free-of_worker q c w refl refl v)
    by_task (some t) resumable = run_in_new_context-IsPlaced q w v
    by_task (some (user g)) non_resumable = λ l c. omega (arith, free-of_worker q c w refl refl v)
    by_task (some (resume_of c)) non_resumable = resume-IsPlaced c q w v

look-IsPlaced : (q : TaskQueue) → q.worker ≡ scanning → IsPlaced q → IsPlaced (look q)
unfolding look
look-IsPlaced q w v =
    if-IsPlaced (join_possible q) (record q { free_task_contexts = []; worker = exited })
      (take_front q.queue q) (λ l. cc) (by_queue q.queue)
  where
    by_queue : (is : List WorkItem) → IsPlaced (take_front is q)
    by_queue [] = λ l c. omega (arith, free-of_worker q c w refl refl v)
    by_queue (item ∷ rest) = start-IsPlaced item (record q { queue = rest }) w v

-- The worker leaves a context.
left-context :
    (q : TaskQueue) (x c : ℕ)
    → q.worker ≡ in_context x
    → IsPlaced q
    → times c q.free_task_contexts + times c q.suspended + (if x == c then 1 else 0)
      ≡ (if ltb c q.made then 1 else 0)
left-context q x c e v = subst (λ w. Placed w q.free_task_contexts q.suspended q.made) e v refl c

yield-IsPlaced :
    (x : ℕ) (q : TaskQueue) → q.worker ≡ in_context x → IsPlaced q → IsPlaced (yield_ x q)
unfolding yield_
yield-IsPlaced x q w v l c = omega (arith, left-context q x c w v)

task_complete-IsPlaced :
    (x : ℕ) (q : TaskQueue) → q.worker ≡ in_context x → IsPlaced q → IsPlaced (task_complete x q)
unfolding task_complete
task_complete-IsPlaced x q w v =
    let q' : TaskQueue = record q {
      in_progress_count = q.in_progress_count - 1;
      free_task_contexts = x ∷ q.free_task_contexts;
      worker = scanning;
    } in
    let placed : IsPlaced q' = λ l c. omega (arith, left-context q x c w v) in
    if-IsPlaced (q'.in_progress_count == 0 && q'.join_asked) (notify_one q') q'
      (notify_one-IsPlaced q' placed) placed

act-IsPlaced :
    (w : Worker) (e : Event) (q : TaskQueue) → q.worker ≡ w → IsPlaced q → IsPlaced (act w e q)
act-IsPlaced scanning looks q p v = look-IsPlaced q p v
act-IsPlaced waiting wakes q p v = λ l c. omega (arith, free-of_worker q c p refl refl v)
act-IsPlaced (in_context c) yields q p v = yield-IsPlaced c q p v
act-IsPlaced (in_context c) ends q p v = task_complete-IsPlaced c q p v
act-IsPlaced in_plain ends q p v = λ l c. omega (arith, free-of_worker q c p refl refl v)
act-IsPlaced exited join_ends q p v = v
act-IsPlaced w e q p v = v

step-IsPlaced : (e : Event) (q : TaskQueue) → IsPlaced q → IsPlaced (step e q)
unfolding step
step-IsPlaced (pushes_back_resumable t) q v = push_item_back-IsPlaced _ q v
step-IsPlaced (pushes_back t) q v = push_item_back-IsPlaced _ q v
step-IsPlaced (pushes_front t) q v = push_front-IsPlaced t q v
step-IsPlaced joins q v = join_begin-IsPlaced q v
step-IsPlaced e q v = act-IsPlaced q.worker e q refl v

run-IsPlaced : (es : List Event) (q : TaskQueue) → IsPlaced q → IsPlaced (run es q)
unfolding run
run-IsPlaced [] q v = v
run-IsPlaced (e ∷ es) q v = run-IsPlaced es (step e q) (step-IsPlaced e q v)

-- Whatever the threads of the program and the tasks do with a new queue, in any order, until the
-- worker's loop has ended or a task was resumed that was not suspended: each context that was made
-- is in one place only, free, suspended, or run by the worker, and no other context is anywhere.
pub context_in_one_place :
    (es : List Event) (c : ℕ)
    → is_alive (run es new_task_queue).worker ≡ true
    → times c (run es new_task_queue).free_task_contexts
        + times c (run es new_task_queue).suspended
        + held c (run es new_task_queue).worker
      ≡ (if ltb c (run es new_task_queue).made then 1 else 0)
context_in_one_place es c l = run-IsPlaced es new_task_queue new_task_queue-IsPlaced l c
