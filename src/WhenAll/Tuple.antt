-- ===== src/WhenAll/Tuple.antt =====
-- `when_all_ready` and `when_all` over a tuple, on complete futures.
-- Source: ltl/include/ltl/when_all.hpp, ltl/include/ltl/detail/tuple_meta.hpp.
use ltl.Base.{
  ℕ, zero, suc, ◌+◌, ◌≡◌, refl, sym, ◌∙◌, Option, none, some, List, [], ◌∷◌, get_elem?, length,
  get_elem?-append_left, get_elem?-append_new, length-append,
}
use ltl.Heap.{Handle, unit, Result, ok, ignore, collect, Thunk, State, Heap, ret, M, bind, lift}
use ltl.Run.{UserCode, outcome_of, invoke}
use ltl.Future.{settled, then_on, make_ready_future}
use ltl.Future.Then.{extend, state_then-settled, set_value-extend}
use ltl.Future.Chain.{is_set-outcome}
use ltl.WhenAll.Watched.{Named}
use ltl.WhenAll.Ready.{AllDone, when_all_ready-AllDone}
use ltl.WhenAll.Collect.{Outcomes, Outcomes-append, Outcomes-Named, Outcomes-AllDone, when_all_lem}
use ltl.WhenAll.{
  to_future_void, tuple_transform, when_all_ready, when_all_ready_tuple, when_all, when_all_tuple,
}

-- The futures of type void that stand for `n` complete ones, and their names from `s` on.
abbrev pub with_voids : ℕ → Heap → Heap
with_voids zero h = h
with_voids (suc n) h = with_voids n (extend h (settled none (ok unit)))

abbrev names_from : ℕ → ℕ → List Handle
names_from zero s = []
names_from (suc n) s = some s ∷ names_from n (s + 1)

with_voids-keeps :
    (n : ℕ) (h : Heap) (s : ℕ) {st : State}
    → get_elem? h.states s ≡ some st
    → get_elem? (with_voids n h).states s ≡ some st
with_voids-keeps zero h s e = e
with_voids-keeps (suc n) h s e =
    with_voids-keeps n (extend h (settled none (ok unit))) s
      (get_elem?-append_left h.states (settled none (ok unit) ∷ []) s e)

with_voids-Outcomes :
    (n : ℕ) (h : Heap) (fs : List Handle) (rs : List Result)
    → Outcomes h.states fs rs
    → Outcomes (with_voids n h).states fs rs
with_voids-Outcomes zero h fs rs o = o
with_voids-Outcomes (suc n) h fs rs o =
    with_voids-Outcomes n (extend h (settled none (ok unit))) fs rs
      (Outcomes-append h.states (settled none (ok unit)) fs rs o)

extended : (h : Heap) → length (extend h (settled none (ok unit))).states ≡ length h.states + 1
extended h = length-append h.states (settled none (ok unit) ∷ [])

-- The new futures are complete.
names_from-done :
    (n : ℕ) (h : Heap)
    → let fs : List Handle = names_from n (length h.states) in
      Named (with_voids n h).states fs × AllDone (with_voids n h).states fs
names_from-done zero h = (tt, tt)
names_from-done (suc n) h =
    let k : Heap = extend h (settled none (ok unit)) in
    let e : get_elem? (with_voids n k).states (length h.states) ≡ some (settled none (ok unit)) =
      with_voids-keeps n k (length h.states)
        (get_elem?-append_new h.states (settled none (ok unit))) in
    let (a, b) = names_from-done n k in
    rw⁻¹ (extended h) (((settled none (ok unit), e), a), (rw e refl, b))

module _ (env : UserCode) (run : Thunk → M (Unit {0})) where
  to_future_void-none :
      (h : Heap)
      → to_future_void env run none h
        ≡ ret (some (length h.states)) (extend h (settled none (ok unit)))
  unfolding to_future_void make_ready_future
  to_future_void-none h = rw (set_value-extend run h none unit) refl

  to_future_void-some :
      (s : ℕ) (r : Result) (h : Heap) (st : State)
      → get_elem? h.states s ≡ some st
      → outcome_of st ≡ some r
      → to_future_void env run (some s) h
        ≡ ret (some (length h.states)) (extend h (settled none (ok unit)))
  unfolding to_future_void invoke
  to_future_void-some s r h st e p =
      rw (state_then-settled env run s ignore (ok unit) h e (is_set-outcome st p) (ignored _)) refl
    where
      ignored : (k : Heap) → invoke env run ignore k ≡ lift (ok unit) k
      ignored k = refl

  tuple_transform-cons :
      (f : Handle) (fs : List Handle) (h : Heap)
      → to_future_void env run f h
        ≡ ret (some (length h.states)) (extend h (settled none (ok unit)))
      → (let k : Heap = extend h (settled none (ok unit)) in
          tuple_transform env run fs k
          ≡ ret (names_from (length fs) (length k.states)) (with_voids (length fs) k))
      → tuple_transform env run (f ∷ fs) h
        ≡ ret (names_from (suc (length fs)) (length h.states)) (with_voids (suc (length fs)) h)
  unfolding tuple_transform
  tuple_transform-cons f fs h e q = rw (e, q, extended h) refl

  tuple_transform-Outcomes :
      (fs : List Handle) (rs : List Result) (h : Heap)
      → Outcomes h.states fs rs
      → tuple_transform env run fs h
        ≡ ret (names_from (length fs) (length h.states)) (with_voids (length fs) h)
  unfolding tuple_transform
  tuple_transform-Outcomes [] rs h o = refl
  tuple_transform-Outcomes (none ∷ fs) [] h o = elim o [ ]
  tuple_transform-Outcomes (some s ∷ fs) [] h o = elim o [ ]
  tuple_transform-Outcomes (none ∷ fs) (r ∷ rs) h (e, o) =
      tuple_transform-cons none fs h (to_future_void-none h) (
        tuple_transform-Outcomes fs rs (extend h (settled none (ok unit)))
          (Outcomes-append h.states (settled none (ok unit)) fs rs o))
  tuple_transform-Outcomes (some s ∷ fs) (r ∷ rs) h ((st, e, p), o) =
      tuple_transform-cons (some s) fs h (to_future_void-some s r h st e p) (
        tuple_transform-Outcomes fs rs (extend h (settled none (ok unit)))
          (Outcomes-append h.states (settled none (ok unit)) fs rs o))

  when_all_ready_tuple_lem :
      (tq : Option ℕ) (fs : List Handle) (h : Heap)
      → when_all_ready_tuple env run tq fs h
        ≡ bind (tuple_transform env run fs h) (when_all_ready env run tq)
  unfolding when_all_ready_tuple
  when_all_ready_tuple_lem tq fs h = refl

  when_all_tuple_lem :
      (tq : Option ℕ) (fs : List Handle) (h : Heap)
      → when_all_tuple env run tq fs h
        ≡ bind (when_all_ready_tuple env run tq fs h) (λ r. then_on env run r (λ _. collect fs))
  unfolding when_all_tuple
  when_all_tuple_lem tq fs h = refl

  -- On one or more complete futures, `when_all` over a tuple makes what `when_all` over the range of the same
  -- futures makes in a memory with one more complete future<void> for each of them; and so does
  -- when_all_ready.
  pub when_all_tuple_completed :
      (tq : Option ℕ) (f : Handle) (fs : List Handle) (rs : List Result) (h : Heap)
      → Outcomes h.states (f ∷ fs) rs
      → (when_all_ready_tuple env run tq (f ∷ fs) h
          ≡ when_all_ready env run tq (f ∷ fs) (with_voids (suc (length fs)) h))
        × (when_all_tuple env run tq (f ∷ fs) h
            ≡ when_all env run tq (f ∷ fs) (with_voids (suc (length fs)) h))
  when_all_tuple_completed tq f fs rs h o =
      (ready, rw (when_all_tuple_lem tq (f ∷ fs) h, ready, when_all_lem env run tq (f ∷ fs) k) refl)
    where
      k : Heap
      k = with_voids (suc (length fs)) h

      vf : List Handle
      vf = names_from (length fs) (length h.states + 1)

      same : Outcomes k.states (f ∷ fs) rs
      same = with_voids-Outcomes (suc (length fs)) h (f ∷ fs) rs o

      ready : when_all_ready_tuple env run tq (f ∷ fs) h ≡ when_all_ready env run tq (f ∷ fs) k
      ready =
          rw (when_all_ready_tuple_lem tq (f ∷ fs) h, tuple_transform-Outcomes (f ∷ fs) rs h o)
            (when_all_ready-AllDone env run tq (some (length h.states)) vf k
                (names_from-done (suc (length fs)) h).0 (names_from-done (suc (length fs)) h).1
              ∙ sym (
                  when_all_ready-AllDone env run tq f fs k
                    (Outcomes-Named k.states (f ∷ fs) rs same)
                    (Outcomes-AllDone k.states (f ∷ fs) rs same)))
