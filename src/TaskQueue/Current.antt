-- ===== src/TaskQueue/Current.antt =====
-- The thread-local pointer to the task that runs on the worker's thread.
-- Sources: ltl/src/ltl/current_task_context.cpp, ltl/src/ltl/task_context.cpp,
-- ltl/src/ltl/task_queue_impl.cpp.
use ltl.Base.{
  sym, ◌∙◌, subst, ap, ◌⊎◌, inl, inr, ℕ, ◌≡◌, refl, ◌==◌, Bool, true, false, ◌&&◌, Option, none,
  some, List, [], ◌∷◌, if◌then◌else◌, List-cases, ◌-◌,
}
use mathlib.Core.Bool.{false≢true}
use ltl.TaskQueue.{
  push_back_resumable, push_back, SchedulingPolicy, Task, WorkItem, resumable, non_resumable, user,
  resume_of, Worker, waiting, scanning, in_plain, in_context, exited, broken, TaskQueue,
  new_task_queue, join_possible, notify_one, woken, push_item_back, push_front, join_begin, resume,
  run_in_new_context, start, start_with, take_front, look, yield_, task_complete, Event,
  pushes_back_resumable, pushes_back, pushes_front, joins, join_ends, looks, wakes, yields, ends,
  step, run, taken_out, act,
}

-- `set` in task_context::resume and task_context::yield, each after its assert on `get`: none if
-- that fails.
abbrev set_in_resume : ℕ → Option ℕ → Option (Option ℕ)
set_in_resume c none = some (some c)
set_in_resume c (some d) = none

abbrev set_in_yield : Option ℕ → Option (Option ℕ)
set_in_yield none = none
set_in_yield (some c) = some none

-- The context that run_in_new_context takes; it asserts what `resume` does.
abbrev pub new_context : List ℕ → ℕ → ℕ
new_context [] made = made
new_context (c ∷ rest) made = c

abbrev set_by_item : Option Task → SchedulingPolicy → TaskQueue → Option ℕ → Option (Option ℕ)
set_by_item none p q value = some value
set_by_item (some t) resumable q value =
    set_in_resume (new_context q.free_task_contexts q.made) value
set_by_item (some (user g)) non_resumable q value = some value
set_by_item (some (resume_of c)) non_resumable q value = set_in_resume c value

abbrev set_by_front : List WorkItem → TaskQueue → Option ℕ → Option (Option ℕ)
set_by_front [] q value = some value
set_by_front (item ∷ rest) q value =
    set_by_item item.task item.policy (record q { queue = rest }) value

abbrev set_by_look : TaskQueue → Option ℕ → Option (Option ℕ)
set_by_look q value = if join_possible q then some value else set_by_front q.queue q value

abbrev pub set_by : Worker → Event → TaskQueue → Option ℕ → Option (Option ℕ)
set_by scanning looks q value = set_by_look q value
set_by (in_context c) yields q value = set_in_yield value
set_by (in_context c) ends q value = set_in_yield value
set_by w e q value = some value

abbrev set_by_step : Event → TaskQueue → Option ℕ → Option (Option ℕ)
set_by_step (pushes_back_resumable t) q value = some value
set_by_step (pushes_back t) q value = some value
set_by_step (pushes_front t) q value = some value
set_by_step joins q value = some value
set_by_step e q value = set_by q.worker e q value

abbrev unless_failed : {A B : Type 0} → Option A → (A → Option B) → Option B
unless_failed none f = none
unless_failed (some a) f = f a

-- A run with the pointer: none when an assert fails.
unfoldable pub run_with : List Event → TaskQueue → Option ℕ → Option (TaskQueue × Option ℕ)
run_with [] q value = some (q, value)
run_with (e ∷ es) q value = unless_failed (set_by_step e q value) (run_with es (step e q))

-- The context of the task that runs.
abbrev pub context_of : Worker → Option ℕ
context_of (in_context c) = some c
context_of w = none

abbrev Matches : Option ℕ → Worker → Type 0
Matches value w = (w ≡ broken) ⊎ (value ≡ context_of w)

-- What an event leaves in the pointer, for the worker that it leaves.
abbrev Keeps : Option (Option ℕ) → Worker → Type 0
Keeps o w = (value' : Option ℕ) × (o ≡ some value') × Matches value' w

abbrev is_broken : Worker → Bool
is_broken broken = true
is_broken w = false

unless_broken :
    (w : Worker) {value : Option ℕ} → is_broken w ≡ false → Matches value w → value ≡ context_of w
unless_broken w n (inl e) = absurd (false≢true (sym n ∙ ap is_broken e))
unless_broken w n (inr e) = e

woken-Matches : (value : Option ℕ) (w : Worker) → Matches value w → Matches value (woken w)
woken-Matches value waiting m = inr (unless_broken waiting refl m)
woken-Matches value scanning m = m
woken-Matches value in_plain m = m
woken-Matches value (in_context c) m = m
woken-Matches value exited m = m
woken-Matches value broken m = m

notify-Matches :
    (b : Bool) (q : TaskQueue) (value : Option ℕ)
    → Matches value q.worker
    → Matches value (if b then notify_one q else q).worker
unfolding notify_one
notify-Matches true q value m = woken-Matches value q.worker m
notify-Matches false q value m = m

resume-Keeps : (c : ℕ) (q : TaskQueue) → Keeps (set_in_resume c none) (resume c q).worker
unfolding resume
resume-Keeps c q = go (taken_out c q.suspended)
  where
    go :
        (o : Option (List ℕ))
        → Keeps
            (set_in_resume c none)
            (elim o as (λ _. TaskQueue) [
              | none ↦ record q { worker = broken }
              | some rest ↦ record q { suspended = rest; worker = in_context c }
            ]).worker
    go none = (some c, refl, inl refl)
    go (some rest) = (some c, refl, inr refl)

run_in_new_context-Keeps :
    (q : TaskQueue)
    → Keeps
        (set_in_resume (new_context q.free_task_contexts q.made) none)
        (run_in_new_context q).worker
unfolding run_in_new_context
run_in_new_context-Keeps q = elim (List-cases q.free_task_contexts) [
  | inl e ↦ rw (e, run_in_new_context) (some q.made, refl, inr refl)
  | inr (x, xs, e) ↦ rw (e, run_in_new_context) (some x, refl, inr refl)
]

item-Keeps :
    (t : Option Task) (p : SchedulingPolicy) (q : TaskQueue)
    → Keeps (set_by_item t p q none) (start_with t p q).worker
item-Keeps none p q = (none, refl, inr refl)
item-Keeps (some t) resumable q = run_in_new_context-Keeps q
item-Keeps (some (user g)) non_resumable q = (none, refl, inr refl)
item-Keeps (some (resume_of c)) non_resumable q = resume-Keeps c q

front-Keeps :
    (is : List WorkItem) (q : TaskQueue) → Keeps (set_by_front is q none) (take_front is q).worker
unfolding start
front-Keeps [] q = (none, refl, inr refl)
front-Keeps (item ∷ rest) q = item-Keeps item.task item.policy (record q { queue = rest })

look-Keeps : (q : TaskQueue) → Keeps (set_by_look q none) (look q).worker
unfolding look
look-Keeps q = go (join_possible q)
  where
    go :
        (b : Bool)
        → Keeps
            (if b then some none else set_by_front q.queue q none)
            (if b
              then record q { free_task_contexts = []; worker = exited }
              else take_front q.queue q).worker
    go true = (none, refl, inr refl)
    go false = front-Keeps q.queue q

act-Keeps :
    (w : Worker) (e : Event) (q : TaskQueue) {value : Option ℕ}
    → q.worker ≡ w
    → Matches value w
    → Keeps (set_by w e q value) (act w e q).worker
unfolding yield_ task_complete
act-Keeps scanning looks q p m =
    subst (λ v. Keeps (set_by_look q v) (look q).worker) (sym (unless_broken scanning refl m))
      (look-Keeps q)
act-Keeps waiting wakes q {value} p m = (value, refl, inr (unless_broken waiting refl m))
act-Keeps (in_context c) yields q p m =
    rw (unless_broken (in_context c) refl m) (none, refl, inr refl)
act-Keeps (in_context c) ends q p m =
    let q' : TaskQueue = record q {
      in_progress_count = q.in_progress_count - 1;
      free_task_contexts = c ∷ q.free_task_contexts;
      worker = scanning;
    } in
    rw (unless_broken (in_context c) refl m)
      (none, refl, notify-Matches (q'.in_progress_count == 0 && q'.join_asked) q' none (inr refl))
act-Keeps in_plain ends q {value} p m = (value, refl, inr (unless_broken in_plain refl m))
act-Keeps exited join_ends q {value} p m = (value, refl, subst (Matches value) (sym p) m)
act-Keeps w e q {value} p m = (value, refl, subst (Matches value) (sym p) m)

step-Keeps :
    (e : Event) (q : TaskQueue) {value : Option ℕ}
    → Matches value q.worker
    → Keeps (set_by_step e q value) (step e q).worker
unfolding step push_back_resumable push_back push_item_back push_front join_begin notify_one
step-Keeps (pushes_back_resumable t) q {value} m = (value, refl, notify-Matches _ _ value m)
step-Keeps (pushes_back t) q {value} m = (value, refl, notify-Matches _ _ value m)
step-Keeps (pushes_front t) q {value} m = (value, refl, notify-Matches _ _ value m)
step-Keeps joins q {value} m = (value, refl, joined q.joinable)
  where
    joined :
        (b : Bool)
        → Matches value
            (if b then notify_one (record q { queue = []; join_asked = true }) else q).worker
    joined true = woken-Matches value q.worker m
    joined false = m
step-Keeps e q m = act-Keeps q.worker e q refl m

run-Keeps :
    (es : List Event) (q : TaskQueue) {value : Option ℕ}
    → Matches value q.worker
    → (value' : Option ℕ) × (run_with es q value ≡ some (run es q, value'))
      × Matches value' (run es q).worker
unfolding run_with run
run-Keeps [] q {value} m = (value, refl, m)
run-Keeps (e ∷ es) q m =
    let (value', set, m') = step-Keeps e q m in
    let (value'', same, m'') = run-Keeps es (step e q) m' in
    (value'', ap (λ o. unless_failed o (run_with es (step e q))) set ∙ same, m'')

-- Whatever the threads of the program and the tasks do with a new queue, in any order: the asserts
-- on the pointer to the current task never fail, and unless a task was resumed that was not
-- suspended, the pointer names the context that the worker runs, and is null when it runs none.
pub run_with-context_of :
    (es : List Event)
    → (value : Option ℕ) × (run_with es new_task_queue none ≡ some (run es new_task_queue, value))
      × (((run es new_task_queue).worker ≡ broken)
          ⊎ (value ≡ context_of (run es new_task_queue).worker))
run_with-context_of es = run-Keeps es new_task_queue (inr refl)
