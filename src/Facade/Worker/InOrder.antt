-- ===== src/Facade/Worker/InOrder.antt =====
-- The results of all tasks of a queue.
-- Sources: ltl/include/ltl/task_queue.hpp, ltl/src/ltl/task_queue_impl.cpp.
use ltl.Base.{
  ℕ, suc, ◌+◌, ◌≡◌, refl, sym, ap, ◌∙◌, Option, some, List, [], ◌∷◌, ◌++◌, length, get_elem?, set,
  arith, append_assoc, length-append, get_elem?-right, set-right,
}
use ltl.Heap.{Handle, Val, unit, ok, Thunk, State, Heap, ret, M, bind, ◌>>=◌, give, new_state}
use ltl.Run.{UserCode}
use ltl.Future.{settled}
use ltl.Facade.{TaskObject, Facade, perform}
use ltl.Facade.Results.{object_of, call-returned}
use ltl.TaskQueue.{
  SchedulingPolicy, resumable, non_resumable, user, WorkItem, scanning, TaskQueue, looks, ends,
  step, push_item_back, notify_one,
}
use ltl.TaskQueue
use ltl.Facade.Worker.{Entry, push_all, round, rounds, act_on}
use ltl.Facade.Worker.Pushes.{
  IsReady, items_from, objects_from, futures_from, pending, pushed_all, turn-IsReady,
  pushed_all-objects, pushed_all-IsReady, push_all-pushed,
}

abbrev Gives : UserCode → List Entry → Type 0
Gives env [] = Unit {0}
Gives env (e ∷ es) = (env.call e.task unit ≡ ok e.value) × Gives env es

abbrev pub completed : Option ℕ → List Entry → List State
completed tq [] = []
completed tq (e ∷ es) = settled tq (ok e.value) ∷ completed tq es

module _ (env : UserCode) (run : Thunk → M (Unit {0})) where
  round-performs :
      (n : ℕ) (p : SchedulingPolicy) (items : List WorkItem) (q : Facade) (h : Heap)
      → IsReady (record { task = some (user n); policy = p } ∷ items) q.queue
      → round env run q h
        ≡ bind (perform env run n q h) (λ _. give (act_on (step ends) (act_on (step looks) q)))
  unfolding round TaskQueue.join_possible
  round-performs n p items q h r = rw (r.not_joined, r.holds) refl

  perform-object :
      (n s task : ℕ) (v : Val) (tq : Option ℕ) (q : Facade) (h : Heap)
      → get_elem? q.objects n ≡ some (object_of s task)
      → get_elem? h.states s ≡ some (new_state tq)
      → env.call task unit ≡ ok v
      → perform env run n q h ≡ ret tt (record h { states = set h.states s (settled tq (ok v)) })
  unfolding perform
  perform-object n s task v tq q h o t e = rw o (call-returned env run s task tq v h e t)

  rounds-cons :
      (n : ℕ) (q q' : Facade) (h h' : Heap)
      → round env run q h ≡ ret q' h'
      → rounds env run (suc n) q h ≡ rounds env run n q' h'
  unfolding rounds
  rounds-cons n q q' h h' e = rw e refl

  -- `xs` and `os` are the states and the objects before those of the tasks.
  rounds_complete :
      (es : List Entry) (tq : Option ℕ) (xs : List State) (os : List TaskObject) (q : Facade)
      (h : Heap)
      → Gives env es
      → q.objects ≡ os ++ objects_from (length xs) es
      → IsReady (items_from (length os) es) q.queue
      → (q' : Facade) × (rounds env run (length es) q (record h { states = xs ++ pending tq es })
          ≡ ret q' (record h { states = xs ++ completed tq es }))
        × IsReady [] q'.queue
  unfolding rounds
  rounds_complete [] tq xs os q h g o r = (q, refl, r)
  rounds_complete (e ∷ es) tq xs os q h (g, gs) o r =
      let x : State = settled tq (ok e.value) in
      let object : TaskObject = object_of (length xs) e.task in
      let q' : Facade = act_on (step ends) (act_on (step looks) q) in
      let k : Heap = record h { states = xs ++ pending tq (e ∷ es) } in
      let first : round env run q k
          ≡ ret q' (record h { states = (xs ++ x ∷ []) ++ pending tq es }) =
        round-performs (length os) e.policy (items_from (length os + 1) es) q k r
        ∙ rw
            (perform-object (length os) (length xs) e.task e.value tq q k
              (rw o (
                get_elem?-right os (objects_from (length xs) (e ∷ es)) 0 (length os) (omega arith)))
              (get_elem?-right xs (pending tq (e ∷ es)) 0 (length xs) (omega arith)) g)
            (ap (λ ys. ret q' (record h { states = ys }))
              (set-right xs (pending tq (e ∷ es)) 0 (length xs) x (omega arith)
                ∙ sym (append_assoc xs (x ∷ []) (pending tq es)))) in
      let (end, c, v) =
        rounds_complete es tq (xs ++ x ∷ []) (os ++ object ∷ []) q' h gs
          (rw (length-append xs (x ∷ []))
            (o ∙ sym (append_assoc os (object ∷ []) (objects_from (length xs + 1) es))))
          (rw (length-append os (object ∷ []))
            (turn-IsReady (length os) e.policy (items_from (length os + 1) es) q.queue r)) in
      (
        end,
        rounds-cons (length es) q q' k _ first
            ∙ c
            ∙ ap (λ ys. ret end (record h { states = ys }))
                (append_assoc xs (x ∷ []) (completed tq es)),
        v,
      )

  -- The pushes, and then a round of the worker for each.
  abbrev pub push_then_work : Option ℕ → List Entry → Facade → M (List Handle × Facade)
  push_then_work tq es q = do
    fq ← push_all tq es q
    q' ← rounds env run (length es) fq.1
    give (fq.0, q')

  -- A thread pushes tasks, by push_back or push_back_resumable each, to a queue with nothing in it,
  -- whose worker is about to look at it and that nobody joins. After as many rounds of the worker as
  -- there are tasks, which return and do not await, all the futures that the pushes handed out hold
  -- the results of their tasks, in the order of the pushes, and the queue is empty again.
  pub tasks_complete_in_order :
      (tq : Option ℕ) (es : List Entry) (q : Facade) (h : Heap)
      → Gives env es
      → IsReady [] q.queue
      → (q' : Facade) × (push_then_work tq es q h
          ≡ ret
              (futures_from (length h.states) es, q')
              (record h { states = h.states ++ completed tq es }))
        × IsReady [] q'.queue
  tasks_complete_in_order tq es q h g r =
      let s : ℕ = length h.states in
      let (end, c, v) =
        rounds_complete es tq h.states q.objects (pushed_all s es q) h g (pushed_all-objects s es q)
          (pushed_all-IsReady s es [] q r) in
      (end, rw (push_all-pushed tq es q h, c) refl, v)
