-- ===== src/Future/Chained.antt =====
-- `unwrap` on a pending future, from the call to the completion of the future that it returns.
-- Source: detail::unwrap of ltl/include/ltl/future.hpp.
use ltl.Base.{
  ℕ, suc, ◌≡◌, ◌≢◌, refl, sym, ap, ◌∙◌, Option, none, some, List, [], ◌∷◌, ◌++◌, get_elem?, set,
  length, arith, get_elem?-set_self, get_elem?-set_ne, set-set, length-set, length-append,
  set-append_left, get_elem?-append_left, two, get_elem?-two, get_elem?-two_first,
  get_elem?-two_second, set-two, set-two_first, set-two_second, get_elem?_bound,
}
use ltl.Heap.{
  fut, unit, Result, ok, err, State, Heap, ret, bind, give, ◌>>◌, new_state, unwrap_outer, Block,
}
use ltl.Run.{UserCode, run}
use ltl.Future.{settled, unwrap}
use ltl.Future.Then.{extend, state_then-pending}
use ltl.Future.Order.{complete, completed, unwatched}
use ltl.Future.Unwrap.{unwrap_lem}
use ltl.Future.Pending.{outer_asked, inner_asked, complete-inner_asked, complete-outer_asked}

pub completed-inner_asked :
    (s j : ℕ) (tq : Option ℕ) (b : Option Block) (r : Result)
    → completed (inner_asked s j tq b) r ≡ completed (unwatched tq b) r
completed-inner_asked s j tq b (ok v) = refl
completed-inner_asked s j tq b (err x) = refl

module _ (env : UserCode) (n i j : ℕ) (h : Heap) (tq tq' : Option ℕ) (b b' : Option Block)
    (at_i : get_elem? h.states i ≡ some (unwatched tq b)) where
  abbrev s : ℕ
  s = length h.states

  abbrev done : State
  done = completed (unwatched tq b) (ok (fut (some j)))

  abbrev asked : Heap
  asked = record h {
    states = two (set h.states i (outer_asked s (suc s) i tq b)) (new_state tq) (new_state none);
  }

  pub unwrap-asks : unwrap env (run env (suc n)) (some i) h ≡ ret (some s) asked
  unwrap-asks =
      rw
        (
          unwrap_lem env (run env (suc n)) i h at_i,
          state_then-pending env (run env (suc n)) i (unwrap_outer s (some i))
              (extend h (new_state tq)) (get_elem?-append_left h.states (new_state tq ∷ []) i at_i)
              refl,
          new_length,
          set-append_left h.states (new_state tq ∷ []) i (outer_asked s (suc s) i tq b) at_i,
        )
        refl
    where
      new_length : length (h.states ++ new_state tq ∷ []) ≡ suc s
      new_length = omega (arith, length-append h.states (new_state tq ∷ []))

  abbrev passed : Heap
  passed = record h {
    states =
        two (set (set h.states i done) j (inner_asked s j tq' b')) (new_state tq)
          (settled none (ok unit));
  }

  module _ (at_j : get_elem? h.states j ≡ some (unwatched tq' b')) (ij : i ≢ j) where
    complete-asked : complete (run env (suc n)) i (ok (fut (some j))) asked ≡ ret tt passed
    complete-asked =
        complete-outer_asked env n s (suc s) i j asked tq tq' none b b'
          (get_elem?-two outer (new_state tq) (new_state none) i at_i')
          (get_elem?-two outer (new_state tq) (new_state none) j at_j')
          (get_elem?-two_second outer (new_state tq) (new_state none) (suc s) (ap suc same_length))
          ij (λ e. omega (arith, e, get_elem?_bound h.states i at_i))
          (λ e. omega (arith, e, get_elem?_bound h.states j at_j))
        ∙ ap (λ xs. ret tt (record h { states = xs })) sets
      where
        outer : List State
        outer = set h.states i (outer_asked s (suc s) i tq b)

        same_length : s ≡ length outer
        same_length = sym (length-set h.states i (outer_asked s (suc s) i tq b))

        at_i' : get_elem? outer i ≡ some (outer_asked s (suc s) i tq b)
        at_i' = get_elem?-set_self h.states i (outer_asked s (suc s) i tq b) at_i

        at_j' : get_elem? outer j ≡ some (unwatched tq' b')
        at_j' = get_elem?-set_ne h.states (outer_asked s (suc s) i tq b) ij ∙ at_j

        sets :
            set
              (set (set asked.states i done) j (inner_asked s j tq' b'))
              (suc s)
              (settled none (ok unit))
            ≡ passed.states
        sets = rw (
          set-two outer (new_state tq) (new_state none) i done at_i',
          set-set h.states i (outer_asked s (suc s) i tq b) done,
          set-two (set h.states i done) (new_state tq) (new_state none) j (inner_asked s j tq' b')
              (get_elem?-set_ne h.states done ij ∙ at_j),
          set-two_second (set (set h.states i done) j (inner_asked s j tq' b')) (new_state tq)
              (new_state none) (suc s) (settled none (ok unit))
              (ap suc (
                sym (
                  length-set (set h.states i done) j (inner_asked s j tq' b')
                  ∙ length-set h.states i done))),
        )

    abbrev filled : Result → Heap
    filled r = record h {
      states =
          two (set (set h.states i done) j (completed (unwatched tq' b') r)) (settled tq r)
            (settled none (ok unit));
    }

    complete-passed : (r : Result) → complete (run env (suc n)) j r passed ≡ ret tt (filled r)
    complete-passed r =
        complete-inner_asked env n s j r passed tq' tq b'
          (get_elem?-two inner (new_state tq) (settled none (ok unit)) j at_j')
          (get_elem?-two_first inner (new_state tq) (settled none (ok unit)) s same_length)
          (λ e. omega (arith, e, get_elem?_bound h.states j at_j))
        ∙ ap (λ xs. ret tt (record h { states = xs })) sets
      where
        inner : List State
        inner = set (set h.states i done) j (inner_asked s j tq' b')

        same_length : s ≡ length inner
        same_length = sym (
            length-set (set h.states i done) j (inner_asked s j tq' b')
            ∙ length-set h.states i done)

        at_j' : get_elem? inner j ≡ some (inner_asked s j tq' b')
        at_j' =
            get_elem?-set_self (set h.states i done) j (inner_asked s j tq' b')
              (get_elem?-set_ne h.states done ij ∙ at_j)

        same : completed (inner_asked s j tq' b') r ≡ completed (unwatched tq' b') r
        same = completed-inner_asked s j tq' b' r

        sets :
            set (set passed.states j (completed (inner_asked s j tq' b') r)) s (settled tq r)
            ≡ (filled r).states
        sets = rw (
          same,
          set-two inner (new_state tq) (settled none (ok unit)) j (completed (unwatched tq' b') r)
              at_j',
          set-set (set h.states i done) j (inner_asked s j tq' b') (completed (unwatched tq' b') r),
          set-two_first (set (set h.states i done) j (completed (unwatched tq' b') r))
              (new_state tq) (settled none (ok unit)) s (settled tq r)
              (sym (
                length-set (set h.states i done) j (completed (unwatched tq' b') r)
                ∙ length-set h.states i done)),
        )

    -- For two pending futures that nothing waits for: after `unwrap` on the first one, the first is
    -- completed by the second, and then the second comes to `r`. Then so has the future that
    -- `unwrap` returned, and nothing is left waiting for any of them.
    pub unwrap_pending :
        (r : Result)
        → bind (unwrap env (run env (suc n)) (some i) h) (λ f.
          complete (run env (suc n)) i (ok (fut (some j)))
          >> (complete (run env (suc n)) j r >> give f))
          ≡ ret (some s) (filled r)
    unwrap_pending r = rw (unwrap-asks, complete-asked, complete-passed r) refl
