-- ===== src/WhenAll/Attach.antt =====
-- The loop of `when_all_ready`: the counter, the continuations, the promise.
-- Source: ltl/include/ltl/when_all.hpp.
use ltl.Base.{
  ℕ, suc, ◌+◌, ◌-◌, ◌≡◌, ◌==◌, refl, ap, ◌∙◌, true, false, none, some, List, [], ◌∷◌, get_elem?,
  set, arith, get_elem?-set_self, set-set, set-get_elem?, inl, inr, Option-cases, Bool-cases,
}
use mathlib.Core.Bool.{false≢true}
use ltl.Heap.{Handle, unit, Thunk, decrement, State, is_set, Heap, ret, M, bind}
use ltl.FutureState
use ltl.Run.{UserCode, decrement_body, fetch_sub}
use ltl.WhenAll.Watched.{
  is_done, done_count, Named, add_thunk, register_all, done_count-set, Named-set, register_one-done,
  register_one-waits,
}
use ltl.WhenAll.{attach_one, attach}

two_ne_one : (k : ℕ) → (suc (suc k) == 1) ≡ false
two_ne_one k = ground arith

suc-sub-one : (k : ℕ) → suc k - 1 ≡ k
suc-sub-one k = omega arith

module _ (env : UserCode) (run : Thunk → M (Unit {0})) (c prm : ℕ) where
  -- `dec` while others are outstanding only counts down.
  pub decrement-more :
      (k : ℕ) (h : Heap)
      → get_elem? h.counters c ≡ some (suc (suc k))
      → decrement_body env run c prm h ≡ ret tt (record h { counters = set h.counters c (suc k) })
  unfolding decrement_body fetch_sub
  decrement-more k h e = rw (e, fetch_sub) (rw (two_ne_one k, suc-sub-one (suc k)))

  -- The last `dec` completes the promise.
  pub decrement-last :
      (h : Heap)
      → get_elem? h.counters c ≡ some 1
      → decrement_body env run c prm h
        ≡ FutureState.set_value run prm unit (record h { counters = set h.counters c 0 })
  unfolding decrement_body fetch_sub
  decrement-last h e = rw (e, fetch_sub)

  pub attach_one-done :
      (f : Handle) (h : Heap)
      → is_done h.states f ≡ true
      → attach_one env run c prm f h ≡ decrement_body env run c prm h
  unfolding attach_one FutureState.continue_with
  attach_one-done none h d = refl
  attach_one-done (some s) h d = elim (Option-cases (get_elem? h.states s)) [
    | inl e ↦ absurd (false≢true (rw e at d))
    | inr (st, e) ↦ rw (e, rw e at d)
  ]

  attach_one-waits :
      (s : ℕ) (h : Heap) {st : State}
      → get_elem? h.states s ≡ some st
      → is_set st ≡ false
      → attach_one env run c prm (some s) h
        ≡ ret tt (record h { states = set h.states s (add_thunk (decrement c prm) st) })
  unfolding attach_one FutureState.continue_with
  attach_one-waits s h e p = rw (e, p)

  pub attach_cons :
      (f : Handle) (fs : List Handle) (h : Heap)
      → attach env run c prm (f ∷ fs) h
        ≡ bind (attach_one env run c prm f h) (λ _. attach env run c prm fs)
  unfolding attach
  attach_cons f fs h = refl

  pub attach_nil : (h : Heap) → attach env run c prm [] h ≡ ret tt h
  unfolding attach
  attach_nil h = refl

  pub attach_cons-done :
      (f : Handle) (fs : List Handle) (m : ℕ) (h : Heap)
      → is_done h.states f ≡ true
      → get_elem? h.counters c ≡ some (suc (suc m))
      → attach env run c prm (f ∷ fs) h
        ≡ attach env run c prm fs (record h { counters = set h.counters c (suc m) })
  attach_cons-done f fs m h d e =
      rw (attach_cons f fs h, attach_one-done f h d, decrement-more m h e)

  attach_cons-waits :
      (s : ℕ) (fs : List Handle) (h : Heap) {st : State}
      → get_elem? h.states s ≡ some st
      → is_set st ≡ false
      → attach env run c prm (some s ∷ fs) h
        ≡ attach env run c prm fs
            (record h { states = set h.states s (add_thunk (decrement c prm) st) })
  attach_cons-waits s fs h e p = rw (attach_cons (some s) fs h, attach_one-waits s h e p)

  -- What the loop leaves: the counter at `j`, and `dec` registered on each pending future.
  abbrev Left : List Handle → ℕ → Heap → Type 0
  Left fs j h =
      attach env run c prm fs h
      ≡ ret tt (record h {
        states = register_all (decrement c prm) h.states fs;
        counters = set h.counters c j;
      })

  Left-done :
      (f : Handle) (fs : List Handle) (m j : ℕ) (h : Heap)
      → is_done h.states f ≡ true
      → get_elem? h.counters c ≡ some (suc (suc m))
      → Left fs j (record h { counters = set h.counters c (suc m) })
      → Left (f ∷ fs) j h
  Left-done f fs m j h d e ih =
      attach_cons-done f fs m h d e
      ∙ ih
      ∙ rw (register_one-done (decrement c prm) h.states f d, set-set h.counters c (suc m) j)

  Left-waits :
      (s : ℕ) (fs : List Handle) (j : ℕ) (h : Heap) {st : State}
      → get_elem? h.states s ≡ some st
      → is_set st ≡ false
      → Left fs j (record h { states = set h.states s (add_thunk (decrement c prm) st) })
      → Left (some s ∷ fs) j h
  Left-waits s fs j h e p ih =
      attach_cons-waits s fs h e p ∙ ih ∙ rw (register_one-waits (decrement c prm) h.states s e p)

  -- When `j + 1` of the futures are still pending, the counter ends at `j + 1`.
  pub attach-some_pending :
      (fs : List Handle) (k j : ℕ) (h : Heap)
      → get_elem? h.counters c ≡ some k
      → k ≡ done_count h.states fs + suc j
      → Named h.states fs
      → Left fs (suc j) h
  attach-some_pending [] k j h e q n =
      let same : k ≡ suc j = omega arith in
      rw (attach_nil h, set-get_elem? h.counters c {v = suc j} (e ∙ ap some same))
  attach-some_pending (none ∷ fs) k j h e q n =
      let m : ℕ = done_count h.states fs + j in
      let count : k ≡ suc (suc m) = omega arith in
      Left-done none fs m (suc j) h refl (e ∙ ap some count) (
        attach-some_pending fs (suc m) j (record h { counters = set h.counters c (suc m) })
          (get_elem?-set_self h.counters c (suc m) e) (omega arith) n)
  attach-some_pending (some s ∷ fs) k j h e q ((st, at_s), n) = elim (Bool-cases (is_set st)) [
    | inl d ↦
        let m : ℕ = done_count h.states fs + j in
        let q' : k ≡ suc (done_count h.states fs) + suc j = rw (at_s, d) at q in
        let count : k ≡ suc (suc m) = omega arith in
        Left-done (some s) fs m (suc j) h (rw (at_s, d)) (e ∙ ap some count) (
          attach-some_pending fs (suc m) j (record h { counters = set h.counters c (suc m) })
            (get_elem?-set_self h.counters c (suc m) e) (omega arith) n)
    | inr w ↦
        let t : Thunk = decrement c prm in
        let q' : k ≡ done_count h.states fs + suc j = rw (at_s, w) at q in
        let same : k ≡ done_count (set h.states s (add_thunk t st)) fs + suc j =
          rw (done_count-set h.states s t fs at_s) q' in
        Left-waits s fs (suc j) h at_s w (
          attach-some_pending fs k j (record h { states = set h.states s (add_thunk t st) }) e same
            (Named-set h.states s (add_thunk t st) fs at_s n))
  ]
