-- ===== src/WhenAll/Countdown.antt =====
-- The completion of the futures that `when_all_ready` waits for.
-- Source: `dec` of ltl/include/ltl/when_all.hpp.
use ltl.Base.{
  ℕ, suc, false, ◌≡◌, refl, ap, ◌∙◌, Option, none, some, List, [], ◌∷◌, get_elem?, set, length,
  arith, get_elem?-set_self, get_elem?-set_ne, set-set, set-get_elem?, ◌+◌, ◌≢◌,
}
use ltl.Heap.{
  is_set, unit, Result, ok, Thunk, decrement, State, Heap, ret, M, ◌>>◌, bind, give, Block,
}
use ltl.FutureState.{for_each}
use ltl.Run.{UserCode, decrement_body, run}
use ltl.Future.Order.{complete, completed, complete-pending, for_each-one, unwatched}
use ltl.Future.Then.{bind-unit}
use ltl.WhenAll.Attach.{decrement-more, decrement-last}

-- A pending state whose one continuation is `dec`.
abbrev pub awaited : (c prm : ℕ) → Option ℕ → Option Block → State
awaited c prm tq b = record (unwatched tq b) { continuations = decrement c prm ∷ [] }

abbrev Differs : ℕ → List (ℕ × Result) → Type 0
Differs s [] = Unit {0}
Differs s ((j, r) ∷ ps) = (s ≢ j) × Differs s ps

-- `ps` completes different states, each of them awaited, and none of them the promise's.
abbrev pub Awaited : (c prm : ℕ) → List State → List (ℕ × Result) → Type 0
Awaited c prm xs [] = Unit {0}
Awaited c prm xs ((s, r) ∷ ps) =
    ((tq : Option ℕ) × (b : Option Block) × (get_elem? xs s ≡ some (awaited c prm tq b)))
    × Differs s ps
    × (s ≢ prm)
    × Awaited c prm xs ps

-- The promises of the futures set one after the other.
pub complete_each : (Thunk → M (Unit {0})) → List (ℕ × Result) → M (Unit {0})
complete_each run [] = give tt
complete_each run ((s, r) ∷ ps) = do complete run s r; complete_each run ps

abbrev complete_at : Option State → Result → List State → ℕ → List State
complete_at none r xs s = xs
complete_at (some st) r xs s = set xs s (completed st r)

abbrev complete_states : List State → List (ℕ × Result) → List State
complete_states xs [] = xs
complete_states xs ((s, r) ∷ ps) = complete_states (complete_at (get_elem? xs s) r xs s) ps

Awaited-set :
    (c prm : ℕ) (xs : List State) (s : ℕ) (x : State) (ps : List (ℕ × Result))
    → Differs s ps
    → Awaited c prm xs ps
    → Awaited c prm (set xs s x) ps
Awaited-set c prm xs s x [] d w = tt
Awaited-set c prm xs s x ((j, r) ∷ ps) (ne, d) ((tq, b, e), others, np, w) =
    ((tq, b, get_elem?-set_ne xs x ne ∙ e), others, np, Awaited-set c prm xs s x ps d w)

module _ (env : UserCode) (n c prm : ℕ) where
  run-decrement :
      (h : Heap) → run env (suc n) (decrement c prm) h ≡ decrement_body env (run env n) c prm h
  unfolding run
  run-decrement h = refl

  complete-awaited :
      (s : ℕ) (r : Result) (h : Heap) (tq : Option ℕ) (b : Option Block)
      → get_elem? h.states s ≡ some (awaited c prm tq b)
      → complete (run env (suc n)) s r h
        ≡ decrement_body env
            (run env n)
            c
            prm
            (record h { states = set h.states s (completed (awaited c prm tq b) r) })
  complete-awaited s r h tq b e =
      rw
        (
          complete-pending (run env (suc n)) s r h e refl,
          for_each-one (run env (suc n)) (decrement c prm),
        )
        (run-decrement _)

  complete_each_cons :
      (s : ℕ) (r : Result) (ps : List (ℕ × Result)) (h : Heap)
      → complete_each (run env (suc n)) ((s, r) ∷ ps) h
        ≡ bind (complete (run env (suc n)) s r h) (λ _. complete_each (run env (suc n)) ps)
  unfolding complete_each
  complete_each_cons s r ps h = refl

  complete_each_nil : (h : Heap) → complete_each (run env (suc n)) [] h ≡ ret tt h
  unfolding complete_each
  complete_each_nil h = refl

  -- One completion while others are outstanding.
  complete_each-more :
      (s : ℕ) (r : Result) (ps : List (ℕ × Result)) (k : ℕ) (h : Heap) (tq : Option ℕ)
      (b : Option Block)
      → get_elem? h.states s ≡ some (awaited c prm tq b)
      → get_elem? h.counters c ≡ some (suc (suc k))
      → complete_each (run env (suc n)) ((s, r) ∷ ps) h
        ≡ complete_each (run env (suc n)) ps (record h {
          states = set h.states s (completed (awaited c prm tq b) r);
          counters = set h.counters c (suc k);
        })
  complete_each-more s r ps k h tq b e q = rw (
    complete_each_cons s r ps h,
    complete-awaited s r h tq b e,
    decrement-more env (run env n) c prm k
        (record h { states = set h.states s (completed (awaited c prm tq b) r) }) q,
  )

  -- The completion of the last one runs what waits for the promise.
  complete_each-last :
      (s : ℕ) (r : Result) (h : Heap) (tq : Option ℕ) (b : Option Block) {st : State}
      → get_elem? h.states s ≡ some (awaited c prm tq b)
      → get_elem? h.counters c ≡ some 1
      → s ≢ prm
      → get_elem? h.states prm ≡ some st
      → is_set st ≡ false
      → complete_each (run env (suc n)) ((s, r) ∷ []) h
        ≡ for_each (run env n) st.continuations (record h {
          states =
              set (set h.states s (completed (awaited c prm tq b) r)) prm (completed st (ok unit));
          counters = set h.counters c 0;
        })
  unfolding complete_each
  complete_each-last s r h tq b e q np at_prm unset =
      let h' : Heap = record h {
        states = set h.states s (completed (awaited c prm tq b) r);
        counters = set h.counters c 0;
      } in
      ap (λ o. bind o (λ _. give tt))
        (complete-awaited s r h tq b e
          ∙ decrement-last env (run env n) c prm
              (record h { states = set h.states s (completed (awaited c prm tq b) r) }) q)
      ∙ bind-unit _
      ∙ complete-pending (run env n) prm (ok unit) h'
          (get_elem?-set_ne h.states (completed (awaited c prm tq b) r) np ∙ at_prm) unset

  -- Let `ps` name as many futures as the counter still counts: different ones, none of them that of
  -- the promise, each pending with `dec` as its only continuation; and let the promise's future be
  -- pending, with whatever waits for it. Then their completion one after the other, in the order of
  -- `ps` and with whatever results, leaves the counter at 0 and each future with its result, and the
  -- last one sets the promise, and runs the continuations of its future, oldest first.
  pub complete_each-counts :
      (ps : List (ℕ × Result)) (p : ℕ × Result) (h : Heap) {st : State}
      → get_elem? h.counters c ≡ some (suc (length ps))
      → get_elem? h.states prm ≡ some st
      → is_set st ≡ false
      → Awaited c prm h.states (p ∷ ps)
      → complete_each (run env (suc n)) (p ∷ ps) h
        ≡ for_each (run env n) st.continuations (record h {
          states = set (complete_states h.states (p ∷ ps)) prm (completed st (ok unit));
          counters = set h.counters c 0;
        })
  complete_each-counts [] (s, r) h q at_prm unset ((tq, b, e), d, np, w) =
      rw e (complete_each-last s r h tq b e q np at_prm unset)
  complete_each-counts (p' ∷ ps) (s, r) h q at_prm unset ((tq', b, e), d, np, w) =
      let h' : Heap = record h {
        states = set h.states s (completed (awaited c prm tq' b) r);
        counters = set h.counters c (suc (length ps));
      } in
      complete_each-more s r (p' ∷ ps) (length ps) h tq' b e q
      ∙ complete_each-counts ps p' h' (get_elem?-set_self h.counters c (suc (length ps)) q)
          (get_elem?-set_ne h.states (completed (awaited c prm tq' b) r) np ∙ at_prm) unset
          (Awaited-set c prm h.states s _ (p' ∷ ps) d w)
      ∙ rw (e, set-set h.counters c (suc (length ps)) 0)

  -- Let `ps` name fewer futures than the counter still counts, by `suc j`: different ones, none of them
  -- that of the promise, each pending with `dec` as its only continuation. Their completion one after
  -- the other changes nothing but those futures and the counter, which is left at `suc j`: the promise
  -- is not set.
  pub complete_each-waits :
      (ps : List (ℕ × Result)) (k j : ℕ) (h : Heap)
      → get_elem? h.counters c ≡ some k
      → k ≡ length ps + suc j
      → Awaited c prm h.states ps
      → complete_each (run env (suc n)) ps h
        ≡ ret tt
            (record h { states = complete_states h.states ps; counters = set h.counters c (suc j) })
  complete_each-waits [] k j h q same w =
      let eq : k ≡ suc j = omega arith in
      rw (complete_each_nil h, set-get_elem? h.counters c {v = suc j} (q ∙ ap some eq))
  complete_each-waits ((s, r) ∷ ps) k j h q same ((tq', b, e), d, np, w) =
      let m : ℕ = length ps + j in
      let eq : k ≡ suc (suc m) = omega arith in
      let h' : Heap = record h {
        states = set h.states s (completed (awaited c prm tq' b) r);
        counters = set h.counters c (suc m);
      } in
      complete_each-more s r ps m h tq' b e (q ∙ ap some eq)
      ∙ complete_each-waits ps (suc m) j h' (get_elem?-set_self h.counters c (suc m) q)
          (omega arith) (Awaited-set c prm h.states s _ ps d w)
      ∙ rw (e, set-set h.counters c (suc m) (suc j))
