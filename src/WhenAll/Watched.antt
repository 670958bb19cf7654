-- ===== src/WhenAll/Watched.antt =====
-- Which futures of a list are done, and the states after a continuation is registered on the others.
-- Source: ltl/include/ltl/when_all.hpp.
use ltl.Base.{
  ℕ, suc, ◌≡◌, refl, Bool, true, false, Option, none, some, List, [], ◌∷◌, ◌++◌, get_elem?, set,
  get_elem?-set_self, get_elem?-set_ne, if◌then◌else◌, Option-cases, inl, inr,
}
use native.Mathlib.Decide.{ℕ_discrete}
use ltl.Heap.{Handle, Thunk, State, is_set}

-- Whether a future needs no waiting for: it is invalid, or complete.
abbrev set_at : Option State → Bool
set_at none = false
set_at (some st) = is_set st

abbrev pub is_done : List State → Handle → Bool
is_done xs none = true
is_done xs (some s) = set_at (get_elem? xs s)

abbrev pub done_count : List State → List Handle → ℕ
done_count xs [] = 0
done_count xs (f ∷ fs) = if is_done xs f then suc (done_count xs fs) else done_count xs fs

-- Every valid handle names a state.
abbrev pub Named : List State → List Handle → Type 0
Named xs [] = Unit {0}
Named xs (none ∷ fs) = Named xs fs
Named xs (some s ∷ fs) = ((st : State) × (get_elem? xs s ≡ some st)) × Named xs fs

abbrev pub add_thunk : Thunk → State → State
add_thunk t st = record st { continuations = st.continuations ++ t ∷ [] }

-- The states after `t` is registered on a future that is still pending.
abbrev register_at : Thunk → List State → ℕ → Option State → List State
register_at t xs s none = xs
register_at t xs s (some st) = if is_set st then xs else set xs s (add_thunk t st)

abbrev pub register_one : Thunk → List State → Handle → List State
register_one t xs none = xs
register_one t xs (some s) = register_at t xs s (get_elem? xs s)

abbrev pub register_all : Thunk → List State → List Handle → List State
register_all t xs [] = xs
register_all t xs (f ∷ fs) = register_all t (register_one t xs f) fs

is_done-set :
    (xs : List State) (s : ℕ) (t : Thunk) {st : State} (f : Handle)
    → get_elem? xs s ≡ some st
    → is_done (set xs s (add_thunk t st)) f ≡ is_done xs f
is_done-set xs s t none e = refl
is_done-set xs s t {st} (some j) e = elim (ℕ_discrete s j) [
  | yes p ↦ rw (← p, get_elem?-set_self xs s (add_thunk t st) e, e)
  | no p ↦ rw (get_elem?-set_ne xs (add_thunk t st) p)
]

pub done_count-set :
    (xs : List State) (s : ℕ) (t : Thunk) {st : State} (fs : List Handle)
    → get_elem? xs s ≡ some st
    → done_count (set xs s (add_thunk t st)) fs ≡ done_count xs fs
done_count-set xs s t [] e = refl
done_count-set xs s t (f ∷ fs) e = rw (is_done-set xs s t f e, done_count-set xs s t fs e)

pub Named-set :
    (xs : List State) (s : ℕ) (x : State) {st : State} (fs : List Handle)
    → get_elem? xs s ≡ some st
    → Named xs fs
    → Named (set xs s x) fs
Named-set xs s x [] e n = tt
Named-set xs s x (none ∷ fs) e n = Named-set xs s x fs e n
Named-set xs s x (some j ∷ fs) e ((st, p), n) = (
  elim (ℕ_discrete s j) [
    | yes q ↦ (x, rw (← q) (get_elem?-set_self xs s x e))
    | no q ↦ (st, rw (get_elem?-set_ne xs x q) p)
  ],
  Named-set xs s x fs e n,
)

pub register_one-done :
    (t : Thunk) (xs : List State) (f : Handle) → is_done xs f ≡ true → register_one t xs f ≡ xs
register_one-done t xs none d = refl
register_one-done t xs (some s) d = elim (Option-cases (get_elem? xs s)) [
  | inl e ↦ rw e
  | inr (st, e) ↦ let p : is_set st ≡ true = rw e at d in rw (e, p)
]

pub register_one-waits :
    (t : Thunk) (xs : List State) (s : ℕ) {st : State}
    → get_elem? xs s ≡ some st
    → is_set st ≡ false
    → register_one t xs (some s) ≡ set xs s (add_thunk t st)
register_one-waits t xs s e p = rw (e, p)
