-- ===== src/TaskQueue/Join.antt =====
-- `join` on a queue with a suspended task, and on one with no task in progress.
-- Source: ltl/src/ltl/task_queue_impl.cpp.
use ltl.Base.{
  ℕ, ◌<◌, ◌≡◌, ◌≢◌, ◌==◌, refl, sym, ◌∙◌, Bool, true, false, ◌&&◌, List, [], ◌∷◌, arith, ◌⊎◌,
}
use ltl.TaskQueue.{
  WorkItem, Worker, waiting, scanning, in_plain, in_context, exited, TaskQueue, join_begin, look,
  take_front, Event, pushes_back_resumable, pushes_back, pushes_front, joins, join_ends, looks,
  wakes, yields, ends, step, run, act,
}

abbrev is_push : Event → Bool
is_push (pushes_back_resumable t) = true
is_push (pushes_back t) = true
is_push (pushes_front t) = true
is_push e = false

abbrev NoPush : List Event → Type 0
NoPush [] = Unit {0}
NoPush (e ∷ es) = (is_push e ≡ false) × NoPush es

-- Joined, with nothing queued and a task in progress that does not run.
record IsStuck (cs : List ℕ) (q : TaskQueue) : Type 0 where
  pub asked : q.join_asked ≡ true
  pub empty : q.queue ≡ []
  pub busy : 0 < q.in_progress_count
  pub idle : (q.worker ≡ waiting) ⊎ (q.worker ≡ scanning)
  pub asleep : q.suspended ≡ cs

not_exited : {cs : List ℕ} (q : TaskQueue) → IsStuck cs q → q.worker ≢ exited
not_exited q s = ground arith

module _ (cs : List ℕ) where
  waits-IsStuck : (q : TaskQueue) → IsStuck cs q → IsStuck cs (record q { worker = waiting })
  waits-IsStuck q s = ground arith

  look-IsStuck : (q : TaskQueue) → IsStuck cs q → IsStuck cs (look q)
  unfolding look
  look-IsStuck q s =
      let running : (q.join_asked && q.in_progress_count == 0) ≡ false = ground arith in
      rw running (looked q.queue refl)
    where
      looked : (xs : List WorkItem) → q.queue ≡ xs → IsStuck cs (take_front xs q)
      looked [] f = waits-IsStuck q s
      looked (item ∷ rest) f = cc (sym f ∙ s.empty)

  act-IsStuck :
      (w : Worker) (e : Event) (q : TaskQueue)
      → q.worker ≡ w
      → IsStuck cs q
      → IsStuck cs (act w e q)
  act-IsStuck scanning looks q p s = look-IsStuck q s
  act-IsStuck waiting wakes q p s = ground arith
  act-IsStuck (in_context c) yields q p s = ground arith
  act-IsStuck (in_context c) ends q p s = ground arith
  act-IsStuck in_plain ends q p s = ground arith
  act-IsStuck exited join_ends q p s = absurd (not_exited q s p)
  act-IsStuck w e q p s = s

  join_begin-IsStuck : (q : TaskQueue) → IsStuck cs q → IsStuck cs (join_begin q)
  unfolding join_begin
  join_begin-IsStuck q s = ground arith

  step-IsStuck :
      (e : Event) (q : TaskQueue) → is_push e ≡ false → IsStuck cs q → IsStuck cs (step e q)
  unfolding step
  step-IsStuck (pushes_back_resumable t) q n s = cc
  step-IsStuck (pushes_back t) q n s = cc
  step-IsStuck (pushes_front t) q n s = cc
  step-IsStuck joins q n s = join_begin-IsStuck q s
  step-IsStuck e q n s = act-IsStuck q.worker e q refl s

  run-IsStuck : (es : List Event) (q : TaskQueue) → NoPush es → IsStuck cs q → IsStuck cs (run es q)
  unfolding run
  run-IsStuck [] q n s = s
  run-IsStuck (e ∷ es) q n s = run-IsStuck es (step e q) n.1 (step-IsStuck e q n.0 s)

started :
    (q : TaskQueue)
    → q.joinable ≡ true
    → (q.worker ≡ waiting) ⊎ (q.worker ≡ scanning)
    → 0 < q.in_progress_count
    → IsStuck q.suspended (join_begin q)
unfolding join_begin
started q j w b = ground arith

-- If `join` is called while the worker is in no task, but some task is in progress, then, whatever
-- was queued, after any events that push nothing the contexts that were suspended are still so, and
-- the worker has not ended.
pub join_hangs :
    (q : TaskQueue) (es : List Event)
    → q.joinable ≡ true
    → (q.worker ≡ waiting) ⊎ (q.worker ≡ scanning)
    → 0 < q.in_progress_count
    → NoPush es
    → ((run es (join_begin q)).suspended ≡ q.suspended) × ((run es (join_begin q)).worker ≢ exited)
join_hangs q es j w b n = (hung.asleep, not_exited (run es (join_begin q)) hung)
  where
    hung : IsStuck q.suspended (run es (join_begin q))
    hung = run-IsStuck q.suspended es (join_begin q) n (started q j w b)

-- With no task in progress and the worker in no task, `join` empties the queue and ends the worker
-- when it looks at the queue next.
join_idle_ends :
    (q : TaskQueue)
    → q.joinable ≡ true
    → (q.worker ≡ waiting) ⊎ (q.worker ≡ scanning)
    → q.in_progress_count ≡ 0
    → ((run (joins ∷ looks ∷ []) q).worker ≡ exited) × ((run (joins ∷ looks ∷ []) q).queue ≡ [])
unfolding run step
join_idle_ends q j w b = ground arith
