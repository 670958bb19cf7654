-- ===== src/WhenAll/Ready.antt =====
-- What `when_all_ready` returns.
-- Source: ltl/include/ltl/when_all.hpp.
use ltl.Base.{
  ℕ, suc, ◌+◌, ◌≡◌, refl, ap, ◌∙◌, true, Option, none, some, List, [], ◌∷◌, ◌++◌, get_elem?, set,
  length, get_elem?-append_left, get_elem?-append_new, set-append_new, get_elem?-set_self, set-set,
}
use ltl.Heap.{Handle, unit, ok, Thunk, decrement, State, Heap, ret, M, bind, give, new_state}
use ltl.Run.{UserCode}
use ltl.Future.{settled}
use ltl.Future.Then.{set_value-extend}
use ltl.WhenAll.Watched.{is_done, done_count, Named, register_all}
use ltl.WhenAll.Attach.{
  attach-some_pending, attach_cons-done, attach_cons, attach_nil, attach_one-done, decrement-last,
}
use ltl.WhenAll.{attach, when_all_ready}

abbrev pub AllDone : List State → List Handle → Type 0
AllDone xs [] = Unit {0}
AllDone xs (f ∷ fs) = (is_done xs f ≡ true) × AllDone xs fs

is_done-append :
    (xs : List State) (x : State) (s : ℕ) {st : State}
    → get_elem? xs s ≡ some st
    → is_done (xs ++ x ∷ []) (some s) ≡ is_done xs (some s)
is_done-append xs x s e = rw (get_elem?-append_left xs (x ∷ []) s e, e)

AllDone-append :
    (xs : List State) (x : State) (fs : List Handle)
    → Named xs fs
    → AllDone xs fs
    → AllDone (xs ++ x ∷ []) fs
AllDone-append xs x [] n d = tt
AllDone-append xs x (none ∷ fs) n d = (refl, AllDone-append xs x fs n d.1)
AllDone-append xs x (some s ∷ fs) ((st, e), n) d =
    (is_done-append xs x s e ∙ d.0, AllDone-append xs x fs n d.1)

done_count-append :
    (xs : List State) (x : State) (fs : List Handle)
    → Named xs fs
    → done_count (xs ++ x ∷ []) fs ≡ done_count xs fs
done_count-append xs x [] n = refl
done_count-append xs x (none ∷ fs) n = ap suc (done_count-append xs x fs n)
done_count-append xs x (some s ∷ fs) ((st, e), n) =
    rw (is_done-append xs x s e, done_count-append xs x fs n)

Named-append :
    (xs : List State) (x : State) (fs : List Handle) → Named xs fs → Named (xs ++ x ∷ []) fs
Named-append xs x [] n = tt
Named-append xs x (none ∷ fs) n = Named-append xs x fs n
Named-append xs x (some s ∷ fs) ((st, e), n) =
    ((st, get_elem?-append_left xs (x ∷ []) s e), Named-append xs x fs n)

module _ (env : UserCode) (run : Thunk → M (Unit {0})) (tq : Option ℕ) where
  when_all_ready_lem :
      (f : Handle) (fs : List Handle) (h : Heap)
      → when_all_ready env run tq (f ∷ fs) h
        ≡ bind
            (attach env run (length h.counters) (length h.states) (f ∷ fs) (record h {
              states = h.states ++ new_state tq ∷ [];
              counters = h.counters ++ suc (length fs) ∷ [];
            }))
            (λ _. give (some (length h.states)))
  unfolding when_all_ready
  when_all_ready_lem f fs h = refl

  -- The loop when nothing is pending: the last round completes the promise.
  attach-AllDone :
      (c : ℕ) (f : Handle) (fs : List Handle) (h : Heap) (cs : List ℕ) (xs : List State)
      → get_elem? cs c ≡ some (suc (length fs))
      → AllDone (xs ++ new_state tq ∷ []) (f ∷ fs)
      → attach env run c
          (length xs)
          (f ∷ fs)
          (record h { states = xs ++ new_state tq ∷ []; counters = cs })
        ≡ ret tt (record h { states = xs ++ settled tq (ok unit) ∷ []; counters = set cs c 0 })
  attach-AllDone c f [] h cs xs e d =
      let k : Heap = record h { states = xs ++ new_state tq ∷ []; counters = cs } in
      rw (
        attach_cons env run c (length xs) f [],
        attach_one-done env run c (length xs) f k d.0,
        decrement-last env run c (length xs) k e,
        set_value-extend run (record h { states = xs; counters = set cs c 0 }) tq unit,
        attach_nil env run c (length xs),
      )
  attach-AllDone c f (g ∷ fs) h cs xs e d =
      attach_cons-done env run c (length xs) f (g ∷ fs) (length fs) _ d.0 e
      ∙ attach-AllDone c g fs h (set cs c (suc (length fs))) xs (get_elem?-set_self cs c _ e) d.1
      ∙ rw (set-set cs c (suc (length fs)) 0)

  -- If every future is invalid or complete, and there is at least one, the future returned is
  -- complete and its counter is at 0, and nothing else changes.
  pub when_all_ready-AllDone :
      (f : Handle) (fs : List Handle) (h : Heap)
      → Named h.states (f ∷ fs)
      → AllDone h.states (f ∷ fs)
      → when_all_ready env run tq (f ∷ fs) h
        ≡ ret (some (length h.states)) (record h {
          states = h.states ++ settled tq (ok unit) ∷ [];
          counters = h.counters ++ 0 ∷ [];
        })
  when_all_ready-AllDone f fs h n d = rw (
    when_all_ready_lem f fs h,
    attach-AllDone (length h.counters) f fs h (h.counters ++ suc (length fs) ∷ []) h.states
        (get_elem?-append_new h.counters (suc (length fs)))
        (AllDone-append h.states (new_state tq) (f ∷ fs) n d),
    set-append_new h.counters (suc (length fs)) 0,
  )

  -- If `j + 1` of the futures are still pending, the future returned is pending, its counter is at
  -- `j + 1`, and `dec` is registered on each of the pending ones.
  pub when_all_ready-some_pending :
      (f : Handle) (fs : List Handle) (j : ℕ) (h : Heap)
      → Named h.states (f ∷ fs)
      → suc (length fs) ≡ done_count h.states (f ∷ fs) + suc j
      → when_all_ready env run tq (f ∷ fs) h
        ≡ ret (some (length h.states)) (record h {
          states =
              register_all
                (decrement (length h.counters) (length h.states))
                (h.states ++ new_state tq ∷ [])
                (f ∷ fs);
          counters = h.counters ++ suc j ∷ [];
        })
  when_all_ready-some_pending f fs j h n q = rw (
    when_all_ready_lem f fs h,
    attach-some_pending env run (length h.counters) (length h.states) (f ∷ fs) (suc (length fs)) j
        (record h {
          states = h.states ++ new_state tq ∷ [];
          counters = h.counters ++ suc (length fs) ∷ [];
        })
        (get_elem?-append_new h.counters (suc (length fs)))
        (rw (done_count-append h.states (new_state tq) (f ∷ fs) n) q)
        (Named-append h.states (new_state tq) (f ∷ fs) n),
    set-append_new h.counters (suc (length fs)) (suc j),
  )
