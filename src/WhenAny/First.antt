-- ===== src/WhenAny/First.antt =====
-- `when_any_ready`, by its first future.
-- Source: ltl/include/ltl/when_any.hpp.
use ltl.Base.{
  arith, ℕ, suc, ◌≡◌, refl, ap, Bool, true, false, Option, none, some, List, [], ◌∷◌, ◌++◌, length,
  get_elem?, if◌then◌else◌, get_elem?-append_left, get_elem?-append_new, set-append_new,
}
use ltl.Heap.{Handle, Val, num, ok, Thunk, M, Heap, State, is_set, new_state, ret, bind, ◌>>◌, give}
use ltl.FutureState
use ltl.Run.{UserCode}
use ltl.Future.{settled}
use ltl.Future.Then.{extend, set_value-extend}
use ltl.WhenAny.{size_max, watch_one, watch_all, when_any_ready}

module _ (env : UserCode) (run : Thunk → M (Unit {0})) where
  when_any_ready_lem :
      (tq : Option ℕ) (f : Handle) (fs : List Handle) (h : Heap)
      → when_any_ready env run tq (f ∷ fs) h
        ≡ bind
            (watch_all env run (length h.states) f 0 false (f ∷ fs) (extend h (new_state tq)))
            (λ b.
              (if b then give tt else FutureState.set_value run (length h.states) (num size_max))
              >> give (some (length h.states)))
  unfolding when_any_ready
  when_any_ready_lem tq f fs h = refl

  watch_all_cons :
      (prm i : ℕ) (f g : Handle) (b : Bool) (fs : List Handle) (h : Heap)
      → watch_all env run prm f i b (g ∷ fs) h
        ≡ bind (watch_one env run prm f i b h) (λ b'. watch_all env run prm f (suc i) b' fs)
  unfolding watch_all
  watch_all_cons prm i f g b fs h = refl

  watch_all_nil :
      (prm i : ℕ) (f : Handle) (b : Bool) (h : Heap) → watch_all env run prm f i b [] h ≡ ret b h
  unfolding watch_all
  watch_all_nil prm i f b h = refl

  watch_all-length :
      (prm i : ℕ) (f : Handle) (b : Bool) (fs gs : List Handle)
      → length fs ≡ length gs
      → watch_all env run prm f i b fs ≡ watch_all env run prm f i b gs
  unfolding watch_all
  watch_all-length prm i f b [] [] e = refl
  watch_all-length prm i f b [] (g ∷ gs) e = absurd (omega arith)
  watch_all-length prm i f b (x ∷ fs) [] e = absurd (omega arith)
  watch_all-length prm i f b (x ∷ fs) (g ∷ gs) e = λ t h.
      bind (watch_one env run prm f i b h)
        (λ b'. watch_all-length prm (suc i) f b' fs gs (omega arith) t)

  -- The futures behind the first one do not count, only how many they are: exchanged for others,
  -- complete or pending or invalid, they change neither the result nor the memory.
  pub when_any_ready_ignores_rest :
      (tq : Option ℕ) (f : Handle) (fs gs : List Handle) (h : Heap)
      → length fs ≡ length gs
      → when_any_ready env run tq (f ∷ fs) h ≡ when_any_ready env run tq (f ∷ gs) h
  when_any_ready_ignores_rest tq f fs gs h e = rw (
    when_any_ready_lem tq f fs h,
    when_any_ready_lem tq f gs h,
    watch_all-length (length h.states) 0 f false (f ∷ fs) (f ∷ gs) (ap suc e),
  )

  watch_all-invalid :
      (prm i : ℕ) (fs : List Handle) (h : Heap)
      → watch_all env run prm none i false fs h ≡ ret false h
  unfolding watch_all
  watch_all-invalid prm i [] h = refl
  watch_all-invalid prm i (f ∷ fs) h = watch_all-invalid prm (suc i) fs h

  -- A round at a state that is set, once the promise is set too, changes nothing.
  watch_one-again :
      (prm i s : ℕ) (b : Bool) (h : Heap) {st p : State}
      → get_elem? h.states s ≡ some st
      → is_set st ≡ true
      → get_elem? h.states prm ≡ some p
      → is_set p ≡ true
      → watch_one env run prm (some s) i b h ≡ ret true h
  unfolding watch_one
  watch_one-again prm i s b h e p e' p' = rw (e, p, e', p')

  watch_all-again :
      (prm i s : ℕ) (fs : List Handle) (h : Heap) {st p : State}
      → get_elem? h.states s ≡ some st
      → is_set st ≡ true
      → get_elem? h.states prm ≡ some p
      → is_set p ≡ true
      → watch_all env run prm (some s) i true fs h ≡ ret true h
  watch_all-again prm i s [] h e p e' p' = watch_all_nil prm i (some s) true h
  watch_all-again prm i s (f ∷ fs) h e p e' p' =
      rw (watch_all_cons prm i (some s) f true fs h, watch_one-again prm i s true h e p e' p')
        (watch_all-again prm (suc i) s fs h e p e' p')

  watch_one-set :
      (prm i s : ℕ) (b : Bool) (h : Heap) {st : State}
      → get_elem? h.states s ≡ some st
      → is_set st ≡ true
      → watch_one env run prm (some s) i b h
        ≡ bind (FutureState.set_value_impl run prm (num i) false h) (λ _. give true)
  unfolding watch_one
  watch_one-set prm i s b h e p = rw (e, p)

  set_value_impl-extend :
      (h : Heap) (tq : Option ℕ) (v : Val)
      → FutureState.set_value_impl run (length h.states) v false (extend h (new_state tq))
        ≡ ret tt (extend h (settled tq (ok v)))
  unfolding FutureState.set_value_impl FutureState.for_each
  set_value_impl-extend h tq v =
      rw (get_elem?-append_new h.states (new_state tq))
        (rw (set-append_new h.states (new_state tq) (settled tq (ok v))) refl)

  -- With a first future that is complete the result is 0, whatever the others are.
  when_any_ready-first_set :
      (tq : Option ℕ) (s : ℕ) (fs : List Handle) (h : Heap) {st : State}
      → get_elem? h.states s ≡ some st
      → is_set st ≡ true
      → when_any_ready env run tq (some s ∷ fs) h
        ≡ ret (some (length h.states)) (extend h (settled tq (ok (num 0))))
  when_any_ready-first_set tq s fs h {st} e p = rw (
    when_any_ready_lem tq (some s) fs h,
    watch_all_cons (length h.states) 0 (some s) (some s) false fs (extend h (new_state tq)),
    watch_one-set (length h.states) 0 s false (extend h (new_state tq)) (later (new_state tq)) p,
    set_value_impl-extend h tq (num 0),
    watch_all-again (length h.states) 1 s fs (extend h (settled tq (ok (num 0))))
        (later (settled tq (ok (num 0)))) p
        (get_elem?-append_new h.states (settled tq (ok (num 0)))) refl,
  )
    where
      later : (x : State) → get_elem? (h.states ++ x ∷ []) s ≡ some st
      later x = get_elem?-append_left h.states (x ∷ []) s e

  -- With a first future that is invalid the result is `size_t(-1)`, which stands for "no future is
  -- valid", also if others are valid or complete.
  when_any_ready-first_invalid :
      (tq : Option ℕ) (fs : List Handle) (h : Heap)
      → when_any_ready env run tq (none ∷ fs) h
        ≡ ret (some (length h.states)) (extend h (settled tq (ok (num size_max))))
  when_any_ready-first_invalid tq fs h = rw (
    when_any_ready_lem tq none fs h,
    watch_all-invalid (length h.states) 0 (none ∷ fs) (extend h (new_state tq)),
    set_value-extend run h tq (num size_max),
  )
