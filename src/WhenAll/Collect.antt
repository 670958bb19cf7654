-- ===== src/WhenAll/Collect.antt =====
-- The future of `when_all`.
-- Source: ltl/include/ltl/when_all.hpp.
use ltl.Base.{
  ℕ, suc, ◌≡◌, refl, sym, ap, ◌∙◌, Option, none, some, List, [], ◌∷◌, ◌++◌, get_elem?, length,
  get_elem?-append_left, get_elem?-append_new, length-append, arith,
}
use ltl.Heap.{
  Handle, Val, unit, nil, cons, no_state, Result, ok, err, collect, Thunk, State, Heap, ret, M,
  ◌>>=◌, bind, give, lift, new_state,
}
use ltl.Run.{UserCode, outcome_of, future_get, get_all, invoke}
use ltl.Future.{settled, then_on}
use ltl.Future.Then.{extend, state_then-settled}
use ltl.Future.Chain.{future_get-outcome, is_set-outcome}
use ltl.WhenAll.Watched.{Named}
use ltl.WhenAll.Ready.{AllDone, when_all_ready-AllDone}
use ltl.WhenAll.{when_all, when_all_ready}

abbrev cons_result : Val → Result → Result
cons_result v (ok vs) = ok (cons v vs)
cons_result v (err e) = err e

abbrev collected : List Result → Result
collected [] = ok nil
collected (ok v ∷ rs) = cons_result v (collected rs)
collected (err e ∷ rs) = err e

-- `rs` lists what the futures have come to; to `get` an invalid one throws `no_state`.
abbrev pub Outcomes : List State → List Handle → List Result → Type 0
Outcomes xs [] [] = Unit {0}
Outcomes xs (none ∷ fs) (r ∷ rs) = (r ≡ err no_state) × Outcomes xs fs rs
Outcomes xs (some s ∷ fs) (r ∷ rs) =
    ((st : State) × (get_elem? xs s ≡ some st) × (outcome_of st ≡ some r)) × Outcomes xs fs rs
Outcomes xs _ _ = ⊥

get_all_cons :
    (f : Handle) (fs : List Handle) (h : Heap)
    → get_all (f ∷ fs) h ≡ bind (future_get f h) (λ v. get_all fs >>= λ vs. give (cons v vs))
unfolding get_all
get_all_cons f fs h = refl

future_get-none : (h : Heap) → future_get none h ≡ lift (err no_state) h
unfolding future_get
future_get-none h = refl

get_all-step :
    (f : Handle) (fs : List Handle) (r : Result) (rs : List Result) (h : Heap)
    → future_get f h ≡ lift r h
    → get_all fs h ≡ lift (collected rs) h
    → get_all (f ∷ fs) h ≡ lift (collected (r ∷ rs)) h
get_all-step f fs (err e) rs h p q = rw (get_all_cons f fs h, p)
get_all-step f fs (ok v) rs h p q = rw (get_all_cons f fs h, p, q) (tail_result (collected rs))
  where
    tail_result : (r : Result) → bind (lift r h) (λ vs. give (cons v vs)) ≡ lift (cons_result v r) h
    tail_result (ok vs) = refl
    tail_result (err e) = refl

get_all-Outcomes :
    (fs : List Handle) (rs : List Result) (h : Heap)
    → Outcomes h.states fs rs
    → get_all fs h ≡ lift (collected rs) h
unfolding get_all
get_all-Outcomes [] [] h o = refl
get_all-Outcomes [] (r ∷ rs) h o = elim o [ ]
get_all-Outcomes (none ∷ fs) [] h o = elim o [ ]
get_all-Outcomes (some s ∷ fs) [] h o = elim o [ ]
get_all-Outcomes (none ∷ fs) (r ∷ rs) h (e, o) =
    get_all-step none fs r rs h (future_get-none h ∙ ap (λ x. lift x h) (sym e))
      (get_all-Outcomes fs rs h o)
get_all-Outcomes (some s ∷ fs) (r ∷ rs) h ((st, e, p), o) =
    get_all-step (some s) fs r rs h (future_get-outcome s r h e p) (get_all-Outcomes fs rs h o)

pub Outcomes-append :
    (xs : List State) (x : State) (fs : List Handle) (rs : List Result)
    → Outcomes xs fs rs
    → Outcomes (xs ++ x ∷ []) fs rs
Outcomes-append xs x [] [] o = tt
Outcomes-append xs x [] (r ∷ rs) o = elim o [ ]
Outcomes-append xs x (none ∷ fs) [] o = elim o [ ]
Outcomes-append xs x (some s ∷ fs) [] o = elim o [ ]
Outcomes-append xs x (none ∷ fs) (r ∷ rs) (e, o) = (e, Outcomes-append xs x fs rs o)
Outcomes-append xs x (some s ∷ fs) (r ∷ rs) ((st, e, p), o) =
    ((st, get_elem?-append_left xs (x ∷ []) s e, p), Outcomes-append xs x fs rs o)

pub Outcomes-Named :
    (xs : List State) (fs : List Handle) (rs : List Result) → Outcomes xs fs rs → Named xs fs
Outcomes-Named xs [] rs o = tt
Outcomes-Named xs (none ∷ fs) [] o = elim o [ ]
Outcomes-Named xs (some s ∷ fs) [] o = elim o [ ]
Outcomes-Named xs (none ∷ fs) (r ∷ rs) (e, o) = Outcomes-Named xs fs rs o
Outcomes-Named xs (some s ∷ fs) (r ∷ rs) ((st, e, p), o) = ((st, e), Outcomes-Named xs fs rs o)

pub Outcomes-AllDone :
    (xs : List State) (fs : List Handle) (rs : List Result) → Outcomes xs fs rs → AllDone xs fs
Outcomes-AllDone xs [] rs o = tt
Outcomes-AllDone xs (none ∷ fs) [] o = elim o [ ]
Outcomes-AllDone xs (some s ∷ fs) [] o = elim o [ ]
Outcomes-AllDone xs (none ∷ fs) (r ∷ rs) (e, o) = (refl, Outcomes-AllDone xs fs rs o)
Outcomes-AllDone xs (some s ∷ fs) (r ∷ rs) ((st, e, p), o) =
    (rw e (is_set-outcome st p), Outcomes-AllDone xs fs rs o)

module _ (env : UserCode) (run : Thunk → M (Unit {0})) where
  invoke-collect : (fs : List Handle) (h : Heap) → invoke env run (collect fs) h ≡ get_all fs h
  unfolding invoke
  invoke-collect fs h = refl

  pub when_all_lem :
      (tq : Option ℕ) (fs : List Handle) (h : Heap)
      → when_all env run tq fs h
        ≡ bind (when_all_ready env run tq fs h) (λ r. then_on env run r (λ _. collect fs))
  unfolding when_all
  when_all_lem tq fs h = refl

  -- On futures that have come to `rs`, `when_all` makes a complete future: of the values in order
  -- if each is one, and of the first exception in order if not.
  pub when_all_completed :
      (tq : Option ℕ) (f : Handle) (fs : List Handle) (rs : List Result) (h : Heap)
      → Outcomes h.states (f ∷ fs) rs
      → when_all env run tq (f ∷ fs) h
        ≡ ret (some (suc (length h.states))) (record h {
          states = (h.states ++ settled tq (ok unit) ∷ []) ++ settled none (collected rs) ∷ [];
          counters = h.counters ++ 0 ∷ [];
        })
  when_all_completed tq f fs rs h o = rw (
    when_all_lem tq (f ∷ fs) h,
    when_all_ready-AllDone env run tq f fs h (Outcomes-Named h.states (f ∷ fs) rs o)
        (Outcomes-AllDone h.states (f ∷ fs) rs o),
    state_then-settled env run (length h.states) (collect (f ∷ fs)) (collected rs) h1
        (get_elem?-append_new h.states (settled tq (ok unit))) refl
        (invoke-collect (f ∷ fs) (extend h1 (new_state none))
          ∙ get_all-Outcomes (f ∷ fs) rs (extend h1 (new_state none)) later),
    one_more,
  )
    where
      h1 : Heap
      h1 = record h {
        states = h.states ++ settled tq (ok unit) ∷ [];
        counters = h.counters ++ 0 ∷ [];
      }

      later : Outcomes ((h.states ++ settled tq (ok unit) ∷ []) ++ new_state none ∷ []) (f ∷ fs) rs
      later = Outcomes-append _ _ (f ∷ fs) rs (Outcomes-append h.states _ (f ∷ fs) rs o)

      one_more : length (h.states ++ settled tq (ok unit) ∷ []) ≡ suc (length h.states)
      one_more = omega (arith, length-append h.states (settled tq (ok unit) ∷ []))
